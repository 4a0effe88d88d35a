-- ===== src/Sim/Lockstep/Ledger.antt =====
-- Over a whole run of the lockstep peer the counters of its report add up (sim/run_sim.py, execute).
use tvc.Prelude.{ℕ, zero, suc, ◌+◌, ◌≤◌, refl, Option, none, some, List, arith, is_some}
use tvc.Prelude.Result.{Result, ok, err}
use tvc.Prelude.Raising.{
  Outcome, Ensures, and_then, and_then-Ensures, Always, and_then-Always, Ensures-state,
  or_else-Ensures,
}
use tvc.Wire.Errors.{Error}
use tvc.Wire.Actuator.{ActuatorReply}
use tvc.Sim.Types.{Observation}
use tvc.Sim.Plant.{observe}
use tvc.Sim.Freerun.{as_count}
use tvc.Sim.Headless.{sim_reason_at}
use tvc.Sim.Scenario.{Scenario}
use tvc.Sim.Lockstep.{Exchange, Attempt, attempts}
use tvc.Sim.Lockstep.Balance.{IsBalanced, IsSending, attempts-IsSending}
use tvc.Sim.Lockstep.Run.{
  Run, Plan, plan, framed, with_exchange, demanded, settle, sample_frame, numbered, tick_round,
  ticks_from, new_run, execute,
}

abbrev Balances : {A : Type 0} → Outcome Run A → Type 0
Balances = Always (λ run. IsBalanced 0 run.exchange)

plan-Balances :
    (spec : Scenario) (tick : ℕ) (run : Run)
    → IsBalanced 0 run.exchange
    → Balances (plan spec tick run)
unfolding plan
plan-Balances spec tick run h = ground arith

-- The frame of a tick is counted, and not sent yet.
framed-IsSending :
    (tick : ℕ) (frame : Result Error (List ℕ)) (run : Run)
    → IsBalanced 0 run.exchange
    → Ensures
        (λ run'. IsBalanced 0 run'.exchange)
        (λ frame run'. IsSending 0 run'.exchange × 1 ≤ run'.exchange.up.not_attempted)
        (framed tick frame run)
framed-IsSending tick (err e) run h = h
framed-IsSending tick (ok frame) run h = ground arith

-- An answer waits for its disposition; without one nothing does.
answered-Balances :
    (run : Run) (o : Outcome Exchange (Option ActuatorReply))
    (next : ActuatorReply → Run → Outcome Run (Option ℕ))
    → Ensures (IsBalanced 0) (λ answer x. IsSending (as_count (is_some answer)) x) o
    → ((answer : ActuatorReply) (run' : Run)
        → IsBalanced 1 run'.exchange
        → Balances (next answer run'))
    → Balances
        (and_then (with_exchange run o) (λ answer run'. and_then (demanded answer run') next))
answered-Balances run (x, none) next h k = h
answered-Balances run (x, some none) next h k = h.0
answered-Balances run (x, some (some answer)) next h k = k answer _ h.0

settle-Balances :
    (tick : ℕ) (obs : Observation) (sim_reason : Option ℕ) (chosen : Plan) (answer : ActuatorReply)
    (run : Run)
    → IsBalanced 1 run.exchange
    → Balances (settle tick obs sim_reason chosen answer run)
unfolding settle
settle-Balances tick obs sim_reason chosen answer run h = ground arith

module _ (crc32c : List ℕ → ℕ) (spec : Scenario) (fail_sensor drop_actuator : Option ℕ) where
  tick_round-Balances :
      (tick : ℕ) (io : ℕ → Attempt) (run : Run)
      → IsBalanced 0 run.exchange
      → Balances (tick_round crc32c spec fail_sensor drop_actuator tick io run)
  unfolding tick_round
  tick_round-Balances tick io run h =
      and_then-Always (λ s. IsBalanced 0 s.exchange) (plan spec tick run) _
        (plan-Balances spec tick run h)
        (λ chosen run1 h1.
          let sim_reason = sim_reason_at spec.ticks tick run1.pending_reason in
          and_then-Ensures (λ s. IsBalanced 0 s.exchange)
            (λ frame s. IsSending 0 s.exchange × 1 ≤ s.exchange.up.not_attempted)
            (λ reason s. IsBalanced 0 s.exchange)
            (framed tick
              (sample_frame crc32c tick (observe tick run1.truth) chosen.up_drop sim_reason
                chosen.opcode (numbered chosen.opcode run1).command_seq)
              (numbered chosen.opcode run1))
            _ (framed-IsSending tick _ (numbered chosen.opcode run1) h1)
            (λ frame run3 h3.
              answered-Balances run3
                (attempts crc32c fail_sensor drop_actuator tick frame io 26 0 run3.exchange) _
                (attempts-IsSending crc32c drop_actuator tick fail_sensor frame io 26 0
                  run3.exchange h3.0 (λ first. h3.1))
                (settle-Balances tick (observe tick run1.truth) sim_reason chosen)))

  ticks_from-Balances :
      (io : ℕ → ℕ → Attempt) (n tick : ℕ) (run : Run)
      → IsBalanced 0 run.exchange
      → Balances (ticks_from crc32c spec fail_sensor drop_actuator io n tick run)
  unfolding ticks_from
  ticks_from-Balances io zero tick run h = h
  ticks_from-Balances io (suc n) tick run h =
      and_then-Always (λ s. IsBalanced 0 s.exchange)
        (tick_round crc32c spec fail_sensor drop_actuator tick (io tick) run) _
        (tick_round-Balances tick (io tick) run h)
        (λ reason run' h'.
          or_else-Ensures (λ s. IsBalanced 0 s.exchange) (λ r s. IsBalanced 0 s.exchange) reason
            run' _ h' (ticks_from-Balances io n (tick + 1) run'))

  pub execute-IsBalanced :
      (seed delay_ticks : ℕ) (io : ℕ → ℕ → Attempt)
      → IsBalanced 0 (execute crc32c spec fail_sensor drop_actuator seed delay_ticks io).0.exchange
  unfolding execute new_run
  execute-IsBalanced seed delay_ticks io =
      Ensures-state (λ s. IsBalanced 0 s.exchange)
        (ticks_from crc32c spec fail_sensor drop_actuator io spec.ticks 0
          (new_run spec seed delay_ticks))
        (ticks_from-Balances io spec.ticks 0 (new_run spec seed delay_ticks)
          ((refl, refl, refl, refl, refl), (refl, refl, refl)))
