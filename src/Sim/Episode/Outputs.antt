-- ===== src/Sim/Episode/Outputs.antt =====
-- The modes, the commanded angle and repeated commands of one cycle (sim/episode.py).
use tvc.Prelude.{
  ℕ, ◌≤◌, ◌≡◌, refl, ◌⊎◌, inr, Bool, true, false, Option, none, some, arith, ◌≢◌, leb,
  if◌then◌else◌, ◌&&◌,
}
use tvc.Sim.ControlRef
use tvc.Sim.ControlRef.Bounds.{IsCommand, float_zero-InRange, step-IsCommand}
use tvc.Sim.Types.{Observation}
use tvc.Sim.ControlRef.{float_zero, ControlState}
use tvc.Sim.Episode.Types.{
  AckStatus, Command, EpisodeState, EpisodeInput, EpisodeOutput, is_flying, Mode, flying,
  TerminalResult,
}
use tvc.Sim.Episode.Modes.{Edge, stay, ending, control_edge}
use tvc.Sim.Episode.Commands.{arrive, prefix, deliver, Delivery}
use tvc.Sim.Episode.{
  flies_blind, step, end_reason, delivered, next_count, proceed, terminate, control, fly, auto_mode,
}
use tvc.Sim.Episode.Invariant.{halted, ended, continued, step_view}

-- A cycle that does not raise leaves the mode or moves it along an edge of the diagram, for the reason
-- that the edge asks for: ARMED and FLYING need an ARM and a LAUNCH that arrives or waits and is due,
-- or auto-arming and a fresh sample, TERMINATED an ABORT to an armed or flying vehicle that is due, or
-- a reason of the cycle other than NONE.
pub step_mode :
    (s : EpisodeState) (i : EpisodeInput) (o : EpisodeOutput)
    → step s i ≡ some o
    → Edge s i s.mode o.state.mode
step_mode s i o h = elim (step_view s i o h) [
  | halted over e ↦ rw e stay
  | ended r live really why e ↦ rw e (unfold terminate in ending r live really why)
  | continued live why e ↦ rw e (unfold proceed in control_edge s i)
]

-- A command that `_prefix` turns away leaves nothing behind in the local variables.
arrive-refused :
    (tick : ℕ) (c : Command) (d : Delivery) (st : AckStatus)
    → prefix c d.last ≡ some st
    → (deliver tick (arrive tick (some c) d)).mode ≡ (deliver tick (arrive tick none d)).mode
unfolding arrive deliver
arrive-refused tick c d st h = ground arith

refused-proceed :
    (s : EpisodeState) (i : EpisodeInput) (n : ℕ) (c : Command) (st : AckStatus)
    → prefix c s.last_accepted ≡ some st
    → (proceed s (record i { command = some c }) n).state
      ≡ (proceed s (record i { command = none }) n).state
unfolding proceed delivered
refused-proceed s i n c st h = unfold arrive deliver in ground arith

refused-flies_blind :
    (s : EpisodeState) (i : EpisodeInput) (c : Command) (st : AckStatus)
    → prefix c s.last_accepted ≡ some st
    → flies_blind s (record i { command = some c }) ≡ flies_blind s (record i { command = none })
unfolding flies_blind delivered
refused-flies_blind s i c st h = unfold arrive deliver in ground arith

-- The PID state holds commands.
abbrev pub PidInRange : EpisodeState → Type 0
PidInRange s = IsCommand s.pid.i_state × IsCommand s.pid.last_delta

zero-IsCommand : IsCommand float_zero
zero-IsCommand = inr float_zero-InRange

-- A command and the PID state behind it.
abbrev Bounded : ℕ × ControlState → Type 0
Bounded p = IsCommand p.0 × IsCommand p.1.i_state × IsCommand p.1.last_delta

pick-Bounded :
    (b : Bool) (x y : ℕ × ControlState) → Bounded x → Bounded y → Bounded (if b then x else y)
pick-Bounded true x y hx hy = hx
pick-Bounded false x y hx hy = hy

pid_step-Bounded :
    (pid : ControlState) (o : Observation) → IsCommand pid.i_state → Bounded (ControlRef.step pid o)
pid_step-Bounded pid o h =
    let (command, integral, same) = step-IsCommand pid o h in (command, integral, rw same command)

fly-Bounded :
    (pid : ControlState) (i : EpisodeInput) (held : Option Observation)
    → IsCommand pid.i_state × IsCommand pid.last_delta
    → Bounded (fly pid i held)
unfolding fly
fly-Bounded pid i none (hi, hl) =
    let rest : Bounded (float_zero, pid) = (zero-IsCommand, hi, hl) in
    pick-Bounded i.fresh _ _ rest (pick-Bounded (leb i.staleness 8) _ _ (hl, hi, hl) rest)
fly-Bounded pid i (some o) (hi, hl) =
    pick-Bounded i.fresh _ _ (pid_step-Bounded pid o hi)
      (pick-Bounded (leb i.staleness 8) _ _ (hl, hi, hl) (zero-IsCommand, hi, hl))

control-Bounded :
    (s : EpisodeState) (i : EpisodeInput) (t : Option TerminalResult) (m : Mode)
    → PidInRange s
    → Bounded (control s i t m).1
unfolding control
control-Bounded s i (some t) m (hi, hl) = (zero-IsCommand, hi, hl)
control-Bounded s i none m (hi, hl) =
    pick-Bounded (is_flying (auto_mode (s.auto_arm && i.fresh) m)) _ _
      (fly-Bounded s.pid i i.held (hi, hl)) (zero-IsCommand, hi, hl)

-- A cycle that starts with PID state in range commands a NaN or an angle within 0.12 of zero, and
-- leaves the PID state in range.
pub step-PidInRange :
    (s : EpisodeState) (i : EpisodeInput) (o : EpisodeOutput)
    → step s i ≡ some o
    → PidInRange s
    → IsCommand o.requested_delta × PidInRange o.state
step-PidInRange s i o h p = elim (step_view s i o h) [
  | halted over e ↦ rw e (zero-IsCommand, p)
  | ended r live really why e ↦ rw e (unfold terminate in (zero-IsCommand, p))
  | continued live why e ↦
      let (command, integral, last) =
        control-Bounded s i (delivered s i).terminal (delivered s i).mode p in
      rw e (unfold proceed in (command, (integral, last)))
]

control-delta :
    (s : EpisodeState) (i : EpisodeInput) (t : Option TerminalResult) (m : Mode)
    → (control s i t m).1.0 ≢ float_zero
    → ((control s i t m).0 ≡ flying) × ((i.fresh ≡ true) ⊎ (i.staleness ≤ 8))
unfolding control fly
control-delta s i t m moving = ground arith

-- A nonzero command comes from a flying vehicle, in a cycle with a fresh sample or one at most
-- eight ticks old.
pub step-delta :
    (s : EpisodeState) (i : EpisodeInput) (o : EpisodeOutput)
    → step s i ≡ some o
    → o.requested_delta ≢ float_zero
    → (o.state.mode ≡ flying) × ((i.fresh ≡ true) ⊎ (i.staleness ≤ 8))
step-delta s i o h moving = elim (step_view s i o h) [
  | halted over e ↦ absurd (moving (rw e))
  | ended r live really why e ↦ absurd (moving (rw e (unfold terminate in refl)))
  | continued live why e ↦ rw e (
      unfold proceed in
      control-delta s i (delivered s i).terminal (delivered s i).mode
        (λ none_sent. moving (rw e (unfold proceed in none_sent))))
]

abbrev pub next_state : Option EpisodeOutput → Option EpisodeState
next_state none = none
next_state (some o) = some o.state

-- A command that `_prefix` turns away, such as a copy of the last accepted one, changes nothing:
-- the cycle leaves the state that it leaves with no command at all, or raises like it.
pub step-refused :
    (s : EpisodeState) (i : EpisodeInput) (c : Command) (st : AckStatus)
    → prefix c s.last_accepted ≡ some st
    → next_state (step s (record i { command = some c }))
      ≡ next_state (step s (record i { command = none }))
unfolding step next_count end_reason terminate
step-refused s i c st h = ground (
  arith,
  refused-proceed s i (next_count s.settle_count i.held) c st h,
  refused-flies_blind s i c st h,
)
