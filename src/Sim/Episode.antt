-- ===== src/Sim/Episode.antt =====
-- sim/episode.py: the logical episode policy, one call of `step` for each tick.
pub mod Types
pub mod Commands
pub mod Invariant
pub mod Acks
pub mod Modes
pub mod Outputs
pub mod Runs
use tvc.Prelude.{
  ℕ, ◌+◌, min, Bool, true, false, ◌&&◌, ◌||◌, Option, none, some, List, [], ◌∷◌, leb, ◌==◌,
  if◌then◌else◌,
}
use tvc.Float64
use tvc.Sim.Types.{Observation}
use tvc.Sim.ControlRef
use tvc.Sim.ControlRef.{ControlState, float_zero}
use Types.{
  Mode, init, armed, flying, terminated, Reason, no_reason, stabilized, diverged, sensor_lost,
  not_settled, internal, AckStatus, rejected_state, sim_horizon, sim_loc_angle, sim_loc_nonfinite,
  Command, Ack, TerminalResult, EpisodeState, EpisodeInput, EpisodeOutput, is_init, is_armed,
  is_flying, is_terminated, is_no_reason,
}
use Commands.{prefix, answer, Delivery, arrive, deliver}

-- 0.02 and 0.30
abbrev pub settle_bound : ℕ
settle_bound = 0x3f947ae147ae147b

abbrev pub angle_bound : ℕ
angle_bound = 0x3fd3333333333333

unfoldable pub initial : Bool → EpisodeState
initial auto_arm = record {
  mode = init;
  pid = ControlRef.initial;
  settle_count = 0;
  pending = none;
  last_accepted = none;
  terminal = none;
  auto_arm = auto_arm;
}

-- An observation inside the settling box.
unfoldable pub settled : Observation → Bool
settled o =
    Float64.le (Float64.abs o.theta) settle_bound && Float64.le (Float64.abs o.omega) settle_bound

unfoldable pub next_count : ℕ → Option Observation → ℕ
next_count n none = 0
next_count n (some o) = if settled o then min (n + 1) 1000 else 0

-- `inputs.sim_reason is not None and inputs.sim_reason not in (...)`
abbrev unknown_sim_reason : Option ℕ → Bool
unknown_sim_reason none = false
unknown_sim_reason (some r) =
    if r == sim_horizon || r == sim_loc_angle || r == sim_loc_nonfinite then false else true

abbrev lost_control : Option ℕ → Bool
lost_control none = false
lost_control (some r) = r == sim_loc_angle || r == sim_loc_nonfinite

abbrev at_horizon : Option ℕ → Bool
at_horizon none = false
at_horizon (some r) = r == sim_horizon

-- `inputs.fresh and abs(held.theta) > 0.30`; `none` stands for the AttributeError on a missing
-- observation.
abbrev fresh_divergence : Bool → Option Observation → Option Bool
fresh_divergence false held = some false
fresh_divergence true none = none
fresh_divergence true (some o) = some (Float64.lt angle_bound (Float64.abs o.theta))

abbrev timed_reason : EpisodeInput → ℕ → Bool → Reason
timed_reason inputs count diverging =
    if diverging
    then diverged
    else if leb 21 inputs.staleness
    then sensor_lost
    else if inputs.horizon_reached || at_horizon inputs.sim_reason
    then (if count == 1000 then stabilized else not_settled)
    else no_reason

abbrev observed_reason : EpisodeInput → ℕ → Option Bool → Option Reason
observed_reason inputs count none = none
observed_reason inputs count (some diverging) = some (timed_reason inputs count diverging)

abbrev unstopped_reason : EpisodeInput → ℕ → Option Reason → Option Reason
unstopped_reason inputs count (some stop) = some stop
unstopped_reason inputs count none =
    if lost_control inputs.sim_reason
    then some diverged
    else observed_reason inputs count (fresh_divergence inputs.fresh inputs.held)

-- The reason that ends the episode in this cycle, by its priority.
unfoldable pub end_reason : EpisodeInput → ℕ → Option Reason
end_reason inputs count =
    if unknown_sim_reason inputs.sim_reason
    then some internal
    else unstopped_reason inputs count inputs.stop_reason

-- tuple(ack for ack in (arrival_ack, pending_ack) if ack is not None)
abbrev pub ack_list : Option Ack → Option Ack → List Ack
ack_list none none = []
ack_list none (some b) = b ∷ []
ack_list (some a) none = a ∷ []
ack_list (some a) (some b) = a ∷ b ∷ []

abbrev late_status : Option AckStatus → AckStatus
late_status none = rejected_state
late_status (some status) = status

-- The answers to the arriving and to the pending command when the episode ends.
abbrev pub final_arrival : Option Command → Option Command → Reason → Option Ack
final_arrival none _ _ = none
final_arrival (some command) last reason =
    some (answer command (late_status (prefix command last)) 0 terminated reason)

abbrev pub final_pending : Option Command → Reason → Option Ack
final_pending none _ = none
final_pending (some waiting) reason = some (answer waiting rejected_state 0 terminated reason)

unfoldable pub terminate : EpisodeState → EpisodeInput → ℕ → Reason → EpisodeOutput
terminate state inputs count reason = record {
  state = record {
    mode = terminated;
    pid = state.pid;
    settle_count = count;
    pending = none;
    last_accepted = state.last_accepted;
    terminal = some (record { reason = reason; tick = inputs.tick });
    auto_arm = state.auto_arm;
  };
  requested_delta = float_zero;
  acks =
      ack_list (final_arrival inputs.command state.last_accepted reason)
        (final_pending state.pending reason);
}

-- `if state.auto_arm and inputs.fresh: ...`
unfoldable pub auto_mode : Bool → Mode → Mode
auto_mode true init = flying
auto_mode true armed = flying
auto_mode _ mode = mode

-- The command of a flying vehicle: a new one, the last one while the sample is young, or zero.
-- `step` has raised on a fresh cycle with no observation (`flies_blind`), so that clause is not reached.
unfoldable pub fly : ControlState → EpisodeInput → Option Observation → ℕ × ControlState
fly pid inputs none =
    if inputs.fresh
    then (float_zero, pid)
    else if leb inputs.staleness 8
    then (pid.last_delta, pid)
    else (float_zero, pid)
fly pid inputs (some observation) =
    if inputs.fresh
    then ControlRef.step pid observation
    else if leb inputs.staleness 8
    then (pid.last_delta, pid)
    else (float_zero, pid)

-- The controller's part of a cycle that commands have not ended.
unfoldable pub control :
    EpisodeState → EpisodeInput → Option TerminalResult → Mode → Mode × (ℕ × ControlState)
unfolding auto_mode fly
control state inputs (some terminal) mode = (mode, (float_zero, state.pid))
control state inputs none mode =
    let mode' = auto_mode (state.auto_arm && inputs.fresh) mode in
    (mode', if is_flying mode' then fly state.pid inputs inputs.held else (float_zero, state.pid))

-- The local variables before the command of the cycle is looked at.
abbrev pub before_command : EpisodeState → Delivery
before_command state = record {
  mode = state.mode;
  terminal = none;
  pending = state.pending;
  last = state.last_accepted;
  arrival_ack = none;
  pending_ack = none;
}

unfoldable pub delivered : EpisodeState → EpisodeInput → Delivery
unfolding arrive deliver
delivered state inputs =
    deliver inputs.tick (arrive inputs.tick inputs.command (before_command state))

unfoldable pub proceed : EpisodeState → EpisodeInput → ℕ → EpisodeOutput
unfolding delivered control
proceed state inputs count =
    let d = delivered state inputs in
    let (mode, command) = control state inputs d.terminal d.mode in
    record {
      state = record {
        mode = mode;
        pid = command.1;
        settle_count = count;
        pending = d.pending;
        last_accepted = d.last;
        terminal = d.terminal;
        auto_arm = state.auto_arm;
      };
      requested_delta = command.0;
      acks = ack_list d.arrival_ack d.pending_ack;
    }

abbrev is_unended : Option TerminalResult → Bool
is_unended none = true
is_unended (some terminal) = false

abbrev is_missing : Option Observation → Bool
is_missing none = true
is_missing (some observation) = false

-- `control_ref.step(pid, held)` with no observation, which raises. `end_reason` raises on a fresh
-- cycle with none before, unless the stop reason is NONE.
unfoldable pub flies_blind : EpisodeState → EpisodeInput → Bool
unfolding delivered auto_mode
flies_blind state inputs =
    inputs.fresh
    && (is_missing inputs.held
        && (is_unended (delivered state inputs).terminal
            && is_flying
                (auto_mode (state.auto_arm && inputs.fresh) (delivered state inputs).mode)))

abbrev pub conclude : EpisodeState → EpisodeInput → ℕ → Option Reason → Option EpisodeOutput
conclude state inputs count none = none
conclude state inputs count (some reason) =
    if is_no_reason reason
    then (if flies_blind state inputs then none else some (proceed state inputs count))
    else some (terminate state inputs count reason)

-- episode.step; `none` is the AttributeError on a fresh cycle with no held observation.
unfoldable pub step : EpisodeState → EpisodeInput → Option EpisodeOutput
step state inputs =
    if is_terminated state.mode
    then some (record { state = state; requested_delta = float_zero; acks = [] })
    else let count : ℕ = next_count state.settle_count inputs.held in
      conclude state inputs count (end_reason inputs count)
