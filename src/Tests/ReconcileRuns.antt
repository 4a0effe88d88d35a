-- ===== src/Tests/ReconcileRuns.antt =====
-- The reconciliation of a lockstep run of one tick.
use tvc.Prelude.{ℕ, ◌+◌, ◌%◌, ◌^◌, ◌≡◌, refl, true, some, List, [], ◌∷◌}
use tvc.Prelude.Int.{pos, ◌+ℤ◌}
use tvc.Float64.{is_finite}
use tvc.Sim.Rng.{stream_state, link_loss_up, link_loss_down, golden, mix}
use tvc.Evidence.Counters.{Counts, sender_errors, receiver_errors}
use tvc.Evidence.Walk.{SensorRow, Logged, walk, rounds_of}
use tvc.Evidence.Reconcile.{
  VehicleReport, SimReport, Stream, reconcile, before_terminal, leg, original_sends, population,
  artifacts, walked, rng_streams, terminal_reasons,
}
use tvc.Evidence.Reconcile.Agreement.{IsReconciled, IsEnded, reconcile-IsReconciled}

abbrev one_sent : Counts
one_sent =
    ("generated", some (pos 1))
    ∷ ("original_attempts", some (pos 1))
    ∷ ("retry_attempts", some (pos 0))
    ∷ ("not_attempted", some (pos 0))
    ∷ ("send_attempts", some (pos 1))
    ∷ ("send_pending", some (pos 0))
    ∷ ("tx_fail", some (pos 0))
    ∷ ("transmitted", some (pos 1))
    ∷ ("first_transmitted", some (pos 1))
    ∷ ("additional_copies", some (pos 0))
    ∷ ("never_transmitted", some (pos 0))
    ∷ ("original_tx_fail", some (pos 0))
    ∷ []

abbrev one_received : Counts
one_received =
    ("received_raw", some (pos 1))
    ∷ ("malformed", some (pos 0))
    ∷ ("received", some (pos 1))
    ∷ ("decode_pending", some (pos 0))
    ∷ ("logical_received", some (pos 1))
    ∷ ("discarded_duplicate", some (pos 0))
    ∷ ("rejected_received", some (pos 0))
    ∷ ("classification_pending", some (pos 0))
    ∷ ("admitted", some (pos 1))
    ∷ ("sample_invalid", some (pos 0))
    ∷ ("sample_nonfinite", some (pos 0))
    ∷ ("admission_pending", some (pos 0))
    ∷ ("modeled_command_loss", some (pos 0))
    ∷ ("forwarded_to_delay", some (pos 1))
    ∷ ("disposition_pending", some (pos 0))
    ∷ []

abbrev one_event : Counts
one_event =
    ("episode_transitions", some (pos 1))
    ∷ ("pid_calls", some (pos 1))
    ∷ ("record_attempts", some (pos 1))
    ∷ ("records_pushed", some (pos 1))
    ∷ ("ring_drops", some (pos 0))
    ∷ ("record_pending", some (pos 0))
    ∷ []

abbrev one_report : VehicleReport
one_report = record {
  mode = "lockstep";
  is_timing_invalid = true;
  total_cycles = pos 1;
  link = one_received;
  actuator = one_sent;
  events = one_event;
  records = pos 1;
  ring_dropped = pos 0;
  vehicle_reason = some 1;
  reason_tick = some 0;
  sim_reason_seen = some 1;
}

abbrev drawn_once : ℕ → ℕ → Stream
drawn_once i start = record {
  stream_index = i;
  draws = 1;
  start_state = start;
  final_state = (start + golden) % 2 ^ 64;
}

abbrev one_replay : SimReport
one_replay = record {
  sent_up = one_sent;
  received_down = one_received;
  actuator_replies = record { tick = 0; veh_tick = 0; delta = 0; status = 259; staleness = 0 } ∷ [];
  rows = 0 ∷ [];
  seed = 1;
  up_stream = drawn_once 0 (stream_state 1 link_loss_up);
  down_stream = drawn_once 1 (stream_state 1 link_loss_down);
  sim_reason = 1;
  vehicle_reason_seen = some 1;
}

abbrev one_sample : List SensorRow
one_sample = record { tick = 0; t_send_ns = pos 0; theta = 0; omega = 0; flags = 1 } ∷ []

abbrev one_record : List Logged
one_record =
    record {
      tick = 0;
      deadline_ns = pos 0;
      woke_ns = pos 0;
      done_ns = pos 0;
      sensor_send_ns = pos 0;
      rx_ns = pos 0;
      tx_ns = pos 0;
      sensor_tick = 0;
      theta = 0;
      omega = 0;
      cmd = 0;
      staleness = 0;
      rx_count = 1;
      discarded_old = 0;
      discarded_superseded = 0;
      discarded_other = 0;
      state = 3;
      reason = 1;
      flags = 3;
      ack_status = 0;
    }
    ∷ []

one_eligible : (reconcile one_report one_replay one_sample one_record).eligible ≡ true
unfolding reconcile before_terminal leg original_sends population artifacts walked walk rng_streams
    terminal_reasons sender_errors receiver_errors rounds_of is_finite stream_state mix ◌+ℤ◌
one_eligible = refl

reconcile-IsReconciled_example :
    ((n : ℕ) × IsReconciled one_report one_replay one_sample one_record n)
    × ((last : Logged) × IsEnded one_report one_replay one_record last)
    × ((reconcile one_report one_replay one_sample one_record).terminal_agreement ≡ true)
reconcile-IsReconciled_example =
    reconcile-IsReconciled one_report one_replay one_sample one_record one_eligible
