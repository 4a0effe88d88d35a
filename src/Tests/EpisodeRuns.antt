-- ===== src/Tests/EpisodeRuns.antt =====
-- The episode policy and the controller on concrete cycles.
use tvc.Prelude.{
  ℕ, zero, suc, ◌+◌, ◌≤◌, ◌≡◌, refl, ◌⊎◌, inr, Bool, true, false, Option, none, some, List, [], ◌∷◌,
  ◌++◌, ◌==◌, arith, ◌≢◌, sym, All, ◌<◌,
}
use mathlib.Core.List.{append-nil}
use tvc.Float64
use tvc.Float64.{add, sub, mul, div, neg}
use tvc.Sim.Types.{Observation}
use tvc.Sim.ControlRef
use tvc.Sim.ControlRef.{ControlState, float_zero, neg_delta_max, neg_i_max, ki_dt, beta_d, dt}
use tvc.Sim.ControlRef.Bounds.{IsCommand, float_zero-InRange, step-IsCommand}
use tvc.Sim.Episode.Types.{
  init, armed, flying, no_reason, stabilized, arm, duplicate, queued, preempted, rejected_state,
  abort, Command, EpisodeState, EpisodeInput, EpisodeOutput, is_terminated, sim_horizon,
}
use tvc.Sim.Episode.Commands.{prefix, apply}
use tvc.Sim.Episode.{
  initial, flies_blind, step, settled, next_count, end_reason, terminate, proceed,
}
use tvc.Sim.Episode.Invariant.{IsWellFormed, initial-IsWellFormed, step-IsWellFormed}
use tvc.Sim.Episode.Acks.{finals, carries, Future, step-finals, step-Future}
use tvc.Sim.Episode.Modes.{Edge}
use tvc.Sim.Episode.Outputs.{
  step_mode, PidInRange, step-PidInRange, step-delta, next_state, step-refused,
}
use tvc.Sim.Episode.Runs.{Run, start, next, commands, Run-finals, Run-stabilized, SettledFor}

-- theta = 0.025, omega = 0.15
abbrev tilted : Observation
tilted = record { tick = 0; theta = 0x3f9999999999999a; omega = 0x3fc3333333333333; valid = true }

abbrev level : ℕ → Observation
level tick = record { tick = tick; theta = 0; omega = 0; valid = true }

abbrev cycle : ℕ → Option Observation → Bool → Option Command → EpisodeInput
cycle tick held fresh command = record {
  tick = tick;
  held = held;
  fresh = fresh;
  staleness = 0;
  command = command;
  horizon_reached = false;
  sim_reason = none;
  stop_reason = none;
}

abbrev order : ℕ → ℕ → ℕ → Command
order seq op tick = record { cmd_seq = seq; opcode = op; effective_tick = tick }

-- The result of a cycle, or the state before it.
abbrev or_before : EpisodeState → Option EpisodeOutput → EpisodeOutput
or_before s none = record { state = s; requested_delta = 0; acks = [] }
or_before s (some o) = o

after : EpisodeState → EpisodeInput → EpisodeOutput
unfolding flies_blind step next_count end_reason terminate proceed settled initial prefix apply
    ControlRef.initial ControlRef.step add sub mul div neg Float64.lt Float64.le Float64.abs ki_dt
    beta_d dt neg_i_max neg_delta_max
after s i = or_before s (step s i)

abbrev first : EpisodeInput
first = cycle 0 (some tilted) true none

-- The first command of an auto-armed vehicle, bit for bit that of the reference controller.
pid_reference :
    ControlRef.step
      (record { i_state = 0x3f847ae147ae147b; d_prev = 0xbfb999999999999a; last_delta = 0 })
      tilted
    ≡ (
      4590944888501916690,
      record {
        i_state = 4577139590232972190;
        d_prev = 13803833097865728276;
        last_delta = 4590944888501916690;
      },
    )
unfolding ControlRef.step add sub mul div neg Float64.lt ki_dt beta_d dt neg_i_max neg_delta_max
pid_reference = refl

-- Arming by command at tick 3.
abbrev arm_order : Command
arm_order = order 7 arm 3

abbrev quiet : EpisodeInput
quiet = cycle 2 none false (some arm_order)

quiet_acks :
    (after (initial false) quiet).acks
    ≡ record { cmd_seq = 7; status = queued; applied_tick = 0; state = init; reason = no_reason }
      ∷ []
unfolding after
quiet_acks = refl

quiet_advances : step (initial false) quiet ≡ some (after (initial false) quiet)
unfolding after
quiet_advances = refl

waiting_state : EpisodeState
unfolding after
waiting_state = (after (initial false) quiet).state

first_advances : step (initial true) first ≡ some (after (initial true) first)
unfolding after
first_advances = refl

first_delta : (after (initial true) first).requested_delta ≡ 4591708698998718726
unfolding after
first_delta = refl

first_moves : (after (initial true) first).requested_delta ≢ float_zero
first_moves e = absurd (omega (arith, first_delta))

initial-PidInRange : (auto_arm : Bool) → PidInRange (initial auto_arm)
unfolding initial ControlRef.initial
initial-PidInRange auto_arm = (inr float_zero-InRange, inr float_zero-InRange)

quiet_live : is_terminated (initial false).mode ≡ false
unfolding initial
quiet_live = refl

step-IsCommand_example :
    IsCommand (ControlRef.step (ControlRef.initial) tilted).0
    × IsCommand (ControlRef.step (ControlRef.initial) tilted).1.i_state
    × ((ControlRef.step (ControlRef.initial) tilted).1.last_delta
        ≡ (ControlRef.step (ControlRef.initial) tilted).0)
step-IsCommand_example =
    step-IsCommand ControlRef.initial tilted (unfold ControlRef.initial in inr float_zero-InRange)

step-IsWellFormed_example : IsWellFormed (after (initial false) quiet).state
step-IsWellFormed_example =
    step-IsWellFormed (initial false) quiet (after (initial false) quiet) quiet_advances
      (initial-IsWellFormed false)

-- An ABORT at tick 3 displaces the ARM that waits.
abbrev displacing : EpisodeInput
displacing = cycle 3 none false (some (order 8 abort 3))

abbrev is_seven : ℕ → Bool
is_seven n = n == 7

waiting_live : is_terminated waiting_state.mode ≡ false
unfolding waiting_state
waiting_live = refl

displacing_advances : step waiting_state displacing ≡ some (after waiting_state displacing)
unfolding after waiting_state
displacing_advances = refl

displacing_acks :
    (after waiting_state displacing).acks
    ≡ record {
      cmd_seq = 8;
      status = rejected_state;
      applied_tick = 0;
      state = init;
      reason = no_reason;
    }
      ∷ record {
        cmd_seq = 7;
        status = preempted;
        applied_tick = 0;
        state = init;
        reason = no_reason;
      }
      ∷ []
unfolding after waiting_state
displacing_acks = refl

step-finals_example :
    finals is_seven (after waiting_state displacing).acks
      + carries is_seven (after waiting_state displacing).state.pending
    ≡ carries is_seven (some (order 8 abort 3)) + carries is_seven waiting_state.pending
step-finals_example =
    step-finals is_seven waiting_state displacing (after waiting_state displacing)
      displacing_advances waiting_live

displaced_run :
    Run false
      (displacing ∷ quiet ∷ [])
      ((after waiting_state displacing).acks ++ (after (initial false) quiet).acks)
      (after waiting_state displacing).state
unfolding waiting_state
displaced_run =
    next displacing _
      (next {s' = waiting_state} quiet _ (start {s = initial false} refl) quiet_live quiet_advances
        (sym (append-nil _)) refl)
      waiting_live displacing_advances refl refl

Run-finals_example :
    finals is_seven ((after waiting_state displacing).acks ++ (after (initial false) quiet).acks)
      + carries is_seven (after waiting_state displacing).state.pending
    ≡ commands is_seven (displacing ∷ quiet ∷ [])
Run-finals_example = Run-finals is_seven displaced_run

one_seven : commands is_seven (displacing ∷ quiet ∷ []) ≡ 1
one_seven = refl

step-Future_example : Future 2 (after (initial false) quiet).state.pending
step-Future_example =
    step-Future (initial false) quiet (after (initial false) quiet) quiet_advances quiet_live

-- The ARM of tick 2 is due at tick 3.
abbrev third : EpisodeInput
third = cycle 3 none false none

third_advances : step waiting_state third ≡ some (after waiting_state third)
unfolding after waiting_state
third_advances = refl

third_mode : (after waiting_state third).state.mode ≡ armed
unfolding after waiting_state
third_mode = refl

step_mode_example :
    Edge waiting_state third waiting_state.mode (after waiting_state third).state.mode
step_mode_example = step_mode waiting_state third (after waiting_state third) third_advances

step-PidInRange_example :
    IsCommand (after (initial true) first).requested_delta
    × PidInRange (after (initial true) first).state
step-PidInRange_example =
    step-PidInRange (initial true) first (after (initial true) first) first_advances
      (initial-PidInRange true)

step-delta_example : ((after (initial true) first).state.mode ≡ flying) × ((true ≡ true) ⊎ (0 ≤ 8))
step-delta_example =
    step-delta (initial true) first (after (initial true) first) first_advances first_moves

-- The accepted command once more, one tick later.
repeated : prefix arm_order waiting_state.last_accepted ≡ some duplicate
unfolding waiting_state
repeated = refl

step-refused_example :
    next_state (step waiting_state (cycle 3 none false (some arm_order)))
    ≡ next_state (step waiting_state (cycle 3 none false none))
step-refused_example =
    step-refused waiting_state (cycle 3 none false none) arm_order duplicate repeated

-- A level vehicle that nobody arms, up to the horizon at tick 999.
abbrev held_level : ℕ → EpisodeInput
held_level tick = cycle tick (some (level tick)) false none

abbrev level_history : ℕ → List EpisodeInput
level_history zero = []
level_history (suc n) = held_level n ∷ level_history n

abbrev counted : ℕ → EpisodeState
counted n = record (initial false) { settle_count = n }

level_advances :
    (n : ℕ)
    → n < 1000
    → step (counted n) (held_level n)
      ≡ some (record { state = counted (suc n); requested_delta = float_zero; acks = [] })
unfolding flies_blind step next_count end_reason proceed settled initial Float64.le Float64.abs
level_advances n h = ground arith

level_start : counted 0 ≡ initial false
unfolding initial
level_start = refl

level_run : (n : ℕ) → n ≤ 1000 → Run false (level_history n) [] (counted n)
level_run zero h = start {s = counted 0} level_start
level_run (suc n) h =
    next (held_level n) _ (level_run n (omega arith)) (unfold initial in refl)
      (level_advances n (omega arith)) refl refl

abbrev horizon : EpisodeInput
horizon = record (held_level 1000) { sim_reason = some sim_horizon }

horizon_advances : step (counted 1000) horizon ≡ some (after (counted 1000) horizon)
unfolding after
horizon_advances = refl

level_run_ends :
    Run false
      (horizon ∷ level_history 1000)
      (after (counted 1000) horizon).acks
      (after (counted 1000) horizon).state
level_run_ends =
    next horizon _ (level_run 1000 (omega arith)) (unfold initial in refl) horizon_advances
      (sym (append-nil _)) refl

unstopped : (n : ℕ) → All (λ (i : EpisodeInput). i.stop_reason ≢ some stabilized) (level_history n)
unstopped zero = tt
unstopped (suc n) = ((λ e. cc), unstopped n)

Run-stabilized_example : SettledFor 1000 (horizon ∷ level_history 1000)
Run-stabilized_example =
    Run-stabilized 1000 level_run_ends ((λ e. cc), unstopped 1000) (unfold after in refl)
