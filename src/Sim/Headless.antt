-- ===== src/Sim/Headless.antt =====
-- sim/run_headless.py, with the records of sim/trace.py: the components run tick by tick.
pub mod Ending
pub mod Rounds
pub mod Completion
pub mod Loaded
pub mod Acceptance
pub mod Cadence
use tvc.Prelude.{
  ℕ, zero, suc, ◌+◌, ◌-◌, ◌%◌, ◌^◌, min, Bool, false, not, ◌&&◌, ◌||◌, Option, none, some, List, [],
  ◌∷◌, ◌++◌, ltb, ◌==◌, if◌then◌else◌, is_some, length, replicate,
}
use tvc.Prelude.Result.{Result, ok, err, ◌>>=◌, ◌>>◌, require}
use tvc.Float64
use tvc.Sim.Types.{TruthState, Observation, ActuatorState, Disturbance}
use tvc.Sim.Plant.{actuate, advance, fixed, observe}
use tvc.Sim.Plant as Plant
use tvc.Sim.ControlRef.{float_zero, dt}
use tvc.Sim.Episode.Types.{
  EpisodeState, EpisodeInput, EpisodeOutput, Command, arm, launch, abort, sim_horizon,
  sim_loc_angle, sim_loc_nonfinite, sim_vehicle_terminal,
}
use tvc.Sim.Episode as Episode
use tvc.Sim.Episode.{angle_bound}
use tvc.Sim.Rng.{
  SplitMix64, StreamName, link_loss_up, link_loss_down, stream_state, seeded, draw_drop,
}
use tvc.Sim.Scenario.{
  Scenario, OpcodeName, arm_name, launch_name, abort_name, up, down, disturbance_at, command_at,
  forced_drop_at,
}

pub data Exception : Type 0 where
  value_error attribute_error : Exception

-- The value of a call, or its exception.
abbrev pub demand : {A : Type 0} → Exception → Option A → Result Exception A
demand e none = err e
demand e (some a) = ok a

pub record Row : Type 0 where
  pub tick : ℕ
  pub truth : TruthState
  pub observation : Observation
  pub held : Option Observation
  pub fresh : Bool
  pub staleness : ℕ
  pub command : Option Command
  pub episode : EpisodeOutput
  pub arriving : Option ℕ
  pub actuator : ActuatorState
  pub up_drop : Bool
  pub down_drop : Bool

pub record StreamResult : Type 0 where
  pub name : StreamName
  pub start_state : ℕ
  pub final_state : ℕ
  pub draws : ℕ

pub record Trace : Type 0 where
  pub ticks_declared : ℕ
  pub seed : ℕ
  pub delay_ticks : ℕ
  pub rows : List Row
  pub rng : List StreamResult
  pub sim_reason : Option ℕ

-- The local variables that one round of the loop hands to the next.
pub record Loop : Type 0 where
  pub up_stream : SplitMix64
  pub down_stream : SplitMix64
  pub delay : List (Option ℕ)
  pub truth : TruthState
  pub act : ActuatorState
  pub state : EpisodeState
  pub held : Option Observation
  pub pending_reason : Option ℕ
  pub command_seq : ℕ

-- _Delay.push_pop
abbrev push_pop : List (Option ℕ) → Option ℕ → Option ℕ × List (Option ℕ)
push_pop [] arriving = (arriving, [])
push_pop (oldest ∷ values) arriving = (oldest, values ++ (arriving ∷ []))

abbrev pub dropped : Option Bool → Bool → Bool
dropped none raw = raw
dropped (some forced) raw = forced

abbrev pub sense : ℕ → TruthState → Bool → Observation
sense tick truth lost =
    if lost
    then record { tick = tick; theta = float_zero; omega = float_zero; valid = false }
    else observe tick truth

abbrev pub is_fresh : Observation → Bool
is_fresh o = o.valid && Float64.is_finite o.theta && Float64.is_finite o.omega

abbrev age : ℕ → Option Observation → ℕ
age tick none = min (tick + 1) 0xffffffff
age tick (some held) = min (tick - held.tick) 0xffffffff

-- episode.Opcode[opcode]
abbrev pub opcode_value : OpcodeName → ℕ
opcode_value arm_name = arm
opcode_value launch_name = launch
opcode_value abort_name = abort

abbrev number_command : ℕ → ℕ → Option OpcodeName → Option Command × ℕ
number_command tick seq none = (none, seq)
number_command tick seq (some opcode) =
    let next : ℕ = (seq + 1) % 2 ^ 32 in
    (
      some (record { cmd_seq = next; opcode = opcode_value opcode; effective_tick = tick + 50 }),
      next,
    )

abbrev pub sim_reason_at : ℕ → ℕ → Option ℕ → Option ℕ
sim_reason_at ticks tick (some pending) = some pending
sim_reason_at ticks tick none = if tick == ticks - 1 then some sim_horizon else none

-- The held observation after this tick's sample.
abbrev pub hold : Observation → Option Observation → Option Observation
hold observation held = if is_fresh observation then some observation else held

unfoldable pub episode_input : Scenario → ℕ → Loop → Bool → Option OpcodeName → EpisodeInput
episode_input spec tick w up_drop opcode =
    let observation = sense tick w.truth up_drop in
    record {
      tick = tick;
      held = hold observation w.held;
      fresh = is_fresh observation;
      staleness = age tick (hold observation w.held);
      command = (number_command tick w.command_seq opcode).0;
      horizon_reached = false;
      sim_reason = sim_reason_at spec.ticks tick w.pending_reason;
      stop_reason = none;
    }

-- The reason that the plant gives the next tick.
abbrev pub plant_reason : TruthState → Option ℕ → Option ℕ
plant_reason truth pending =
    if not (Float64.is_finite truth.theta) || not (Float64.is_finite truth.omega)
    then some sim_loc_nonfinite
    else if Float64.lt angle_bound (Float64.abs truth.theta)
    then some sim_loc_angle
    else pending

-- The reason that breaks the loop.
abbrev pub break_reason : Option ℕ → EpisodeOutput → Option ℕ
break_reason (some reason) output = some reason
break_reason none output = if is_some output.state.terminal then some sim_vehicle_terminal else none

-- The rest of a round after the episode's step: the row, the variables and the reason to break.
-- After a break only the streams are read.
unfoldable pub finish :
    Loop
    → EpisodeInput
    → Observation
    → Bool × SplitMix64
    → Bool × SplitMix64
    → Bool × Bool
    → Disturbance
    → Option OpcodeName
    → EpisodeOutput
    → Row × Loop × Option ℕ
finish w input observation up_draw down_draw drops disturbance opcode output =
    let (arriving, delay) =
      push_pop w.delay (if drops.1 then none else some output.requested_delta) in
    let act = actuate w.act arriving in
    let truth = advance w.truth act fixed disturbance dt in
    (
      record {
        tick = input.tick;
        truth = w.truth;
        observation = observation;
        held = input.held;
        fresh = input.fresh;
        staleness = input.staleness;
        command = input.command;
        episode = output;
        arriving = arriving;
        actuator = act;
        up_drop = drops.0;
        down_drop = drops.1;
      },
      record {
        up_stream = up_draw.1;
        down_stream = down_draw.1;
        delay = delay;
        truth = truth;
        act = act;
        state = output.state;
        held = input.held;
        pending_reason = plant_reason truth w.pending_reason;
        command_seq = (number_command input.tick w.command_seq opcode).1;
      },
      break_reason input.sim_reason output,
    )

-- One round of `for tick in range(spec.ticks)`.
unfoldable pub round : Scenario → ℕ → Loop → Result Exception (Row × Loop × Option ℕ)
round spec tick w = do
  up_draw ← demand value_error (draw_drop w.up_stream spec.loss_up)
  down_draw ← demand value_error (draw_drop w.down_stream spec.loss_down)
  override_up ← demand value_error (forced_drop_at spec tick up)
  override_down ← demand value_error (forced_drop_at spec tick down)
  disturbance ← demand value_error (disturbance_at spec tick fixed)
  opcode ← demand value_error (command_at spec tick)
  let up_drop = dropped override_up up_draw.0
  let input = episode_input spec tick w up_drop opcode
  output ← demand attribute_error (Episode.step w.state input)
  ok (
      finish w input (sense tick w.truth up_drop) up_draw down_draw
        (up_drop, dropped override_down down_draw.0) disturbance opcode output)

-- The rounds from `tick` on, of which `n` are left.
unfoldable pub rounds : Scenario → ℕ → ℕ → Loop → Result Exception (List Row × Loop × Option ℕ)
rounds spec zero tick w = ok ([], w, none)
rounds spec (suc n) tick w = do
  (row, w', reason) ← round spec tick w
  elim reason [
    | some stop ↦ ok (row ∷ [], w', some stop)
    | none ↦ rounds spec n (tick + 1) w' >>= λ (rows, w'', why). ok (row ∷ rows, w'', why)
  ]

unfoldable pub begin : Scenario → ℕ → ℕ → Loop
begin spec seed delay_ticks = record {
  up_stream = seeded (stream_state seed link_loss_up);
  down_stream = seeded (stream_state seed link_loss_down);
  delay = replicate delay_ticks none;
  truth = spec.initial;
  act = Plant.initial;
  state = Episode.initial spec.auto_arm;
  held = none;
  pending_reason = none;
  command_seq = 0;
}

abbrev pub stream_result : ℕ → StreamName → SplitMix64 → ℕ → StreamResult
stream_result seed name stream draws = record {
  name = name;
  start_state = stream_state seed name;
  final_state = stream.state;
  draws = draws;
}

-- run_headless with the reference controller.
unfoldable pub run_headless : Scenario → ℕ → ℕ → Result Exception Trace
run_headless spec seed delay_ticks = do
  require (ltb seed (2 ^ 64)) value_error
  require (delay_ticks == 0 || delay_ticks == 1) value_error
  require (ltb 0 spec.ticks) value_error
  (rows, w, reason) ← rounds spec spec.ticks 0 (begin spec seed delay_ticks)
  ok (record {
    ticks_declared = spec.ticks;
    seed = seed;
    delay_ticks = delay_ticks;
    rows = rows;
    rng =
        stream_result seed link_loss_up w.up_stream (length rows)
        ∷ stream_result seed link_loss_down w.down_stream (length rows)
        ∷ [];
    sim_reason = reason;
  })
