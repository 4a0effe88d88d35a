-- ===== src/Sim/Episode/Commands.antt =====
-- sim/episode.py: `_prefix` and `_apply`, and the arrival and delivery of commands in `step`.
use tvc.Prelude.{
  ℕ, ◌+◌, ◌-◌, ◌%◌, ◌^◌, Bool, not, ◌&&◌, ◌||◌, Option, none, some, ltb, leb, ◌==◌, if◌then◌else◌,
}
use tvc.Sim.Episode.Types.{
  Mode, armed, flying, terminated, Reason, no_reason, ground_abort, arm, launch, abort, AckStatus,
  queued, applied, applied_late, duplicate, rejected_pending, rejected_state, rejected_identity,
  rejected_opcode, rejected_stale, preempted, Command, Ack, TerminalResult, is_init, is_armed,
  is_flying,
}

-- opcode in (ARM, LAUNCH, ABORT)
abbrev pub known_opcode : ℕ → Bool
known_opcode op = op == arm || op == launch || op == abort

-- (a - b) & 0xffffffff
abbrev pub sequence_gap : ℕ → ℕ → ℕ
sequence_gap a b = (a + (2 ^ 32 - b % 2 ^ 32)) % 2 ^ 32

check_last : Command → Option Command → Option AckStatus
check_last command none = none
check_last command (some last) =
    if command.cmd_seq == last.cmd_seq
    then (if command.opcode == last.opcode && command.effective_tick == last.effective_tick
        then some duplicate
        else some rejected_identity)
    else let gap : ℕ = sequence_gap command.cmd_seq last.cmd_seq in
      if not (leb 1 gap && ltb gap 0x80000000) then some rejected_stale else none

-- _prefix: the status that turns a command away, if one does.
unfoldable pub prefix : Command → Option Command → Option AckStatus
unfolding check_last
prefix command last =
    if not (known_opcode command.opcode) then some rejected_opcode else check_last command last

pub record Applied : Type 0 where
  pub mode : Mode
  pub terminal : Option TerminalResult
  pub ack : Ack

-- The status of a command that took effect.
abbrev punctual : Command → ℕ → AckStatus
punctual command tick = if command.effective_tick == tick then applied else applied_late

abbrev pub answer : Command → AckStatus → ℕ → Mode → Reason → Ack
answer command status applied_tick mode reason = record {
  cmd_seq = command.cmd_seq;
  status = status;
  applied_tick = applied_tick;
  state = mode;
  reason = reason;
}

-- _apply
unfoldable pub apply : Mode → Command → ℕ → Applied
apply mode command tick =
    if command.opcode == arm && is_init mode
    then record {
      mode = armed;
      terminal = none;
      ack = answer command (punctual command tick) tick armed no_reason;
    }
    else if command.opcode == launch && is_armed mode
    then record {
      mode = flying;
      terminal = none;
      ack = answer command (punctual command tick) tick flying no_reason;
    }
    else if command.opcode == abort && (is_armed mode || is_flying mode)
    then record {
      mode = terminated;
      terminal = some (record { reason = ground_abort; tick = tick });
      ack = answer command (punctual command tick) tick terminated ground_abort;
    }
    else record {
      mode = mode;
      terminal = none;
      ack = answer command rejected_state 0 mode no_reason;
    }

-- The local variables of `step` that commands change.
pub record Delivery : Type 0 where
  pub mode : Mode
  pub terminal : Option TerminalResult
  pub pending : Option Command
  pub last : Option Command
  pub arrival_ack : Option Ack
  pub pending_ack : Option Ack

-- A command that `_prefix` lets through is turned away by a pending one, unless it is an ABORT
-- that displaces another command.
abbrev pub displaces : Command → Command → Bool
displaces command waiting = command.opcode == abort && not (waiting.opcode == abort)

-- The accepted command is queued for its tick or applied at once.
unfoldable pub accept : ℕ → Command → Delivery → Delivery
accept tick command d =
    if ltb tick command.effective_tick
    then record d {
      pending = some command;
      last = some command;
      arrival_ack = some (answer command queued 0 d.mode no_reason);
    }
    else let result = apply d.mode command tick in
      record d {
        mode = result.mode;
        terminal = result.terminal;
        last = some command;
        arrival_ack = some result.ack;
      }

abbrev refuse : Command → AckStatus → Delivery → Delivery
refuse command status d = record d { arrival_ack = some (answer command status 0 d.mode no_reason) }

unfoldable pub settle_pending : ℕ → Command → Option Command → Delivery → Delivery
unfolding accept
settle_pending tick command none d = accept tick command d
settle_pending tick command (some waiting) d =
    if displaces command waiting
    then accept tick command (record d {
      pending = none;
      pending_ack = some (answer waiting preempted 0 d.mode no_reason);
    })
    else refuse command rejected_pending d

check_prefix : ℕ → Command → Option AckStatus → Delivery → Delivery
unfolding settle_pending
check_prefix tick command none d = settle_pending tick command d.pending d
check_prefix tick command (some status) d = refuse command status d

-- `if command is not None: ...`
unfoldable pub arrive : ℕ → Option Command → Delivery → Delivery
unfolding check_prefix
arrive tick none d = d
arrive tick (some command) d = check_prefix tick command (prefix command d.last) d

deliver_due : ℕ → Option Command → Delivery → Delivery
deliver_due tick none d = d
deliver_due tick (some due) d =
    if leb due.effective_tick tick
    then (let result = apply d.mode due tick in
        record d {
          mode = result.mode;
          terminal = result.terminal;
          pending = none;
          pending_ack = some result.ack;
        })
    else d

-- `if pending is not None and pending.effective_tick <= inputs.tick: ...`
unfoldable pub deliver : ℕ → Delivery → Delivery
unfolding deliver_due
deliver tick d = deliver_due tick d.pending d
