-- ===== src/Tests/EvidenceRuns.antt =====
-- The lockstep peer at a concrete scenario, its counters, and the order of two ends.
use tvc.Float64
use tvc.Prelude.{List, ◌≤◌, ◌-◌, ◌*◌, ℕ, zero, suc, ◌≡◌, refl, true, false, some, none, [], ◌∷◌}
use tvc.Wire.Actuator.{ActuatorReply}
use tvc.Prelude.Int.{pos}
use tvc.Tests.WireRuns.{toy_crc}
use tvc.Tests.FreerunRuns.{hover}
use tvc.Sim.Lockstep.{Attempt, classify, receiver_counts, sender_counts}
use tvc.Sim.Lockstep.Run.{execute}
use tvc.Evidence.Counters.{sender_errors, receiver_errors, send_outcomes, first_success}
use tvc.Evidence.Lockstep.{transmission, actuator_receipt, execute_reconciles}
use tvc.Evidence.Histogram.{bits, bucket_high, bucket_high_bounds}
use tvc.Evidence.Observation.{
  Control, observation_ok, fresh_ticks, IsIncreasing, IsDated, observation_ok-IsDated, Ladder,
  rungs, ladder, empty_ladder, rungs-ladder,
}
use tvc.Evidence.Terminal.{
  Ending, Leg, terminal_order, flipped, terminal_order_flip, terminal_residual, terminal_causes,
  vehicle_first, unexplained, unexplained_transport_loss,
}

-- The first datagram is noise, and the second attempt is refused.
abbrev noisy : ℕ → ℕ → Attempt
noisy tick zero = record { sent = some 58; recorded = true; arrivals = some (1 ∷ 2 ∷ []) ∷ [] }
noisy tick (suc k) = record { sent = none; recorded = true; arrivals = [] }

execute_reconciles_example :
    (sender_errors (transmission (execute toy_crc hover none none 1 1 noisy).0.exchange.up) ≡ [])
    × (receiver_errors
          (actuator_receipt (execute toy_crc hover none none 1 1 noisy).0.exchange.down)
          false
        ≡ [])
execute_reconciles_example = execute_reconciles toy_crc hover none none 1 1 noisy

abbrev reply : ActuatorReply
reply = record {
  tick = 4;
  veh_tick = 4;
  t_sensor_send_ns = pos 0;
  t_veh_send_ns = pos 0;
  delta = 0;
  status = 2;
  staleness = 0;
}

-- An answer to the tick, a reply seen before, and a reply that names another vehicle tick.
reply_verdicts :
    ((classify none 4 (7 ∷ []) none (some reply) receiver_counts).1 ≡ some (some reply))
    × ((classify none 5 (7 ∷ []) (some (7 ∷ [])) (some reply) receiver_counts).0.discarded_duplicate
        ≡ 1)
    × ((classify none 4 (7 ∷ []) none (some (record reply { veh_tick = 3 })) receiver_counts).1
        ≡ none)
unfolding classify Float64.is_finite
reply_verdicts = (refl, refl, refl)

-- A count that is wrong by one is told.
unbalanced :
    sender_errors (transmission (record sender_counts { transmitted = 1; first_transmitted = 1 }))
    ≡ send_outcomes ∷ first_success ∷ []
unfolding sender_errors
unbalanced = refl

abbrev early_end : Ending
early_end = record {
  is_caused = false;
  clock_domain = some 1;
  termination_ns = some 30;
  termination_before_ns = some 20;
}

abbrev late_end : Ending
late_end = record {
  is_caused = false;
  clock_domain = some 1;
  termination_ns = some 50;
  termination_before_ns = some 40;
}

ends_in_order : terminal_order early_end late_end ≡ some (some vehicle_first)
unfolding terminal_order
ends_in_order = refl

terminal_order_flip_example :
    terminal_order late_end early_end ≡ flipped (terminal_order early_end late_end)
terminal_order_flip_example = terminal_order_flip early_end late_end

abbrev silent_leg : Leg
silent_leg = record {
  required = true;
  complete = false;
  tx_fail = 0;
  opportunities = 12;
  budget = 12;
  intentionally_lost = 3;
  residual = unexplained;
}

unexplained_residual :
    (terminal_residual
        (record {
          transmitted = 9;
          received = 0;
          first_send = 5;
          last_send = 8;
          receive_open = 1;
          receive_closed = 20;
        })
        true
        false
      ≡ some (9, unexplained))
    × (terminal_causes (silent_leg ∷ []) ≡ unexplained_transport_loss ∷ [])
unfolding terminal_residual terminal_causes
unexplained_residual = (refl, refl)

-- A measured 5001 ns falls into the bucket that ends at 5003 ns.
bucket_high_bounds_example :
    (5001 ≤ bucket_high 5001)
    × ((bucket_high 5001 - 5001) * 1024 ≤ 5001)
    × (bucket_high (bucket_high 5001) ≡ bucket_high 5001)
bucket_high_bounds_example = bucket_high_bounds 5001

bucket_high_5001 : bucket_high 5001 ≡ 5003
unfolding bucket_high bits
bucket_high_5001 = refl

-- Nothing yet, a sample that is admitted, and a cycle that holds it.
abbrev three_rows : List Control
three_rows =
    record {
      tick = 7;
      flags = 0;
      sensor_tick = 18446744073709551615;
      sensor_send_ns = pos 0;
      staleness = 1;
    }
    ∷ record { tick = 8; flags = 3; sensor_tick = 6; sensor_send_ns = pos 500; staleness = 2 }
    ∷ record { tick = 9; flags = 2; sensor_tick = 6; sensor_send_ns = pos 500; staleness = 3 }
    ∷ []

three_rows_ok : observation_ok three_rows ≡ true
unfolding tvc.Evidence.Observation.observed_from
three_rows_ok = refl

three_rows-ladder :
    ladder empty_ladder three_rows ≡ record { fresh = 1; coast = 2; neutral = 0; lost_rung = 0 }
unfolding ladder
three_rows-ladder = refl
