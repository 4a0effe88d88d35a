-- ===== src/Evidence/Lockstep.antt =====
-- What scripts/reconcile.py says of the counters that the lockstep peer (sim/run_sim.py) reports.
use tvc.Prelude.{ℕ, ◌≡◌, false, Option, none, some, List, [], ◌∷◌, arith}
use tvc.Prelude.Int.{ℤ, pos}
use tvc.Sim.Scenario.{Scenario}
use tvc.Sim.Lockstep.{Sender, Receipts, Attempt}
use tvc.Sim.Lockstep.Balance.{IsSent, IsReceived}
use tvc.Sim.Lockstep.Run.{execute}
use tvc.Sim.Lockstep.Ledger.{execute-IsBalanced}
use tvc.Evidence.Counters.{Counts, sender_errors, receiver_errors}

abbrev int_of : ℕ → Option ℤ
int_of n = some (pos n)

abbrev pub tick_of : Option ℕ → Option ℤ
tick_of none = none
tick_of (some n) = int_of n

-- The dict `transmission` of the report.
abbrev pub transmission : Sender → Counts
transmission c =
    ("generated", int_of c.generated)
    ∷ ("original_attempts", int_of c.original_attempts)
    ∷ ("retry_attempts", int_of c.retry_attempts)
    ∷ ("not_attempted", int_of c.not_attempted)
    ∷ ("send_attempts", int_of c.send_attempts)
    ∷ ("send_pending", int_of c.send_pending)
    ∷ ("tx_fail", int_of c.tx_fail)
    ∷ ("transmitted", int_of c.transmitted)
    ∷ ("first_transmitted", int_of c.first_transmitted)
    ∷ ("additional_copies", int_of c.additional_copies)
    ∷ ("never_transmitted", int_of c.never_transmitted)
    ∷ ("modeled_sample_loss", int_of c.modeled_sample_loss)
    ∷ ("first_tick", tick_of c.first_tick)
    ∷ ("last_tick", tick_of c.last_tick)
    ∷ []

-- The dict `actuator_receipt` of the report.
abbrev pub actuator_receipt : Receipts → Counts
actuator_receipt c =
    ("received_raw", int_of c.received_raw)
    ∷ ("malformed", int_of c.malformed)
    ∷ ("received", int_of c.received)
    ∷ ("decode_pending", int_of c.decode_pending)
    ∷ ("logical_received", int_of c.logical_received)
    ∷ ("discarded_duplicate", int_of c.discarded_duplicate)
    ∷ ("rejected_received", int_of c.rejected_received)
    ∷ ("classification_pending", int_of c.classification_pending)
    ∷ ("modeled_command_loss", int_of c.modeled_command_loss)
    ∷ ("forwarded_to_delay", int_of c.forwarded_to_delay)
    ∷ ("disposition_pending", int_of c.disposition_pending)
    ∷ ("test_discarded", int_of c.test_discarded)
    ∷ ("discarded_old", int_of c.discarded_old)
    ∷ []

sender_errors-transmission : (c : Sender) → IsSent c → sender_errors (transmission c) ≡ []
unfolding sender_errors
sender_errors-transmission c h = ground arith

receiver_errors-actuator_receipt :
    (c : Receipts) → IsReceived 0 c → receiver_errors (actuator_receipt c) false ≡ []
unfolding receiver_errors
receiver_errors-actuator_receipt c h = ground arith

-- Whatever the socket and the file answer, and also when the run raises, the sender counters that the
-- lockstep peer reports satisfy the equations of sender_errors, and its receiver counters those of
-- receiver_errors.
pub execute_reconciles :
    (crc32c : List ℕ → ℕ) (spec : Scenario) (fail_sensor drop_actuator : Option ℕ)
    (seed delay_ticks : ℕ) (io : ℕ → ℕ → Attempt)
    → let x = (execute crc32c spec fail_sensor drop_actuator seed delay_ticks io).0.exchange in
      (sender_errors (transmission x.up) ≡ [])
      × (receiver_errors (actuator_receipt x.down) false ≡ [])
execute_reconciles crc32c spec fail_sensor drop_actuator seed delay_ticks io =
    let x = (execute crc32c spec fail_sensor drop_actuator seed delay_ticks io).0.exchange in
    let (sent, received) =
      execute-IsBalanced crc32c spec fail_sensor drop_actuator seed delay_ticks io in
    (sender_errors-transmission x.up sent, receiver_errors-actuator_receipt x.down received)
