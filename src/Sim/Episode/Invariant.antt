-- ===== src/Sim/Episode/Invariant.antt =====
-- What holds of an episode between two cycles (sim/episode.py).
use tvc.Prelude.{
  ℕ, ◌≤◌, ◌≡◌, refl, ◌⊎◌, inl, inr, Bool, true, false, Option, none, some, arith, is_some,
  Bool-cases, [],
}
use tvc.Sim.ControlRef.{float_zero}
use tvc.Sim.Episode.Types.{
  Command, EpisodeState, EpisodeInput, EpisodeOutput, is_terminated, Reason, no_reason,
  is_no_reason,
}
use tvc.Sim.Episode.Commands.{known_opcode, apply, arrive, prefix, deliver, Delivery}
use tvc.Sim.Episode.{
  initial, step, end_reason, delivered, next_count, proceed, terminate, control, before_command,
  auto_mode, conclude,
}

abbrev pub KnownCommand : Option Command → Type 0
KnownCommand none = Unit {0}
KnownCommand (some c) = known_opcode c.opcode ≡ true

pub record IsWellFormed (s : EpisodeState) : Type 0 where
  pub counted : s.settle_count ≤ 1000
  pub ended : is_terminated s.mode ≡ is_some s.terminal
  pub idle : is_terminated s.mode ≡ true → s.pending ≡ none
  pub waiting : (s.pending ≡ none) ⊎ (s.pending ≡ s.last_accepted)
  pub known : KnownCommand s.last_accepted

pub initial-IsWellFormed : (auto_arm : Bool) → IsWellFormed (initial auto_arm)
unfolding initial
initial-IsWellFormed auto_arm = record {
  counted = omega arith;
  ended = refl;
  idle = λ h. refl;
  waiting = inl refl;
  known = tt;
}

next_count-le : (n : ℕ) (held : _) → next_count n held ≤ 1000
unfolding next_count
next_count-le n held = ground arith

-- The same facts of the local variables of a cycle.
record IsCoherent (d : Delivery) : Type 0 where
  ended : is_terminated d.mode ≡ is_some d.terminal
  idle : is_terminated d.mode ≡ true → d.pending ≡ none
  waiting : (d.pending ≡ none) ⊎ (d.pending ≡ d.last)
  known : KnownCommand d.last

prefix-known :
    (c : Command) (last : Option Command) → prefix c last ≡ none → known_opcode c.opcode ≡ true
unfolding prefix
prefix-known c last h = ground arith

arrive-IsCoherent :
    (tick : ℕ) (c : Option Command) (d : Delivery)
    → d.terminal ≡ none
    → IsCoherent d
    → IsCoherent (arrive tick c d)
unfolding arrive apply
arrive-IsCoherent tick none d t h = h
arrive-IsCoherent tick (some c) d t h = ground (arith, prefix-known c d.last)

deliver-IsCoherent : (tick : ℕ) (d : Delivery) → IsCoherent d → IsCoherent (deliver tick d)
unfolding deliver apply
deliver-IsCoherent tick d h = ground arith

delivered-IsCoherent :
    (s : EpisodeState) (i : EpisodeInput)
    → is_terminated s.mode ≡ false
    → IsWellFormed s
    → IsCoherent (delivered s i)
unfolding delivered
delivered-IsCoherent s i live w = deliver-IsCoherent i.tick _ (
    arrive-IsCoherent i.tick i.command (before_command s) refl
      (record { ended = live; idle = λ h. w.idle h; waiting = w.waiting; known = w.known }))

-- A call of `step` that does not raise: the episode was over, it ends, or it goes on.
pub data StepView (s : EpisodeState) (i : EpisodeInput) (o : EpisodeOutput) : Type 0 where
  halted :
      is_terminated s.mode ≡ true
      → o ≡ record { state = s; requested_delta = float_zero; acks = [] }
      → StepView s i o
  ended :
      (reason : Reason)
      → is_terminated s.mode ≡ false
      → is_no_reason reason ≡ false
      → end_reason i (next_count s.settle_count i.held) ≡ some reason
      → o ≡ terminate s i (next_count s.settle_count i.held) reason
      → StepView s i o
  continued :
      is_terminated s.mode ≡ false
      → end_reason i (next_count s.settle_count i.held) ≡ some no_reason
      → o ≡ proceed s i (next_count s.settle_count i.held)
      → StepView s i o

conclude_view :
    (s : EpisodeState) (i : EpisodeInput) (o : EpisodeOutput) (r : Option Reason)
    → is_terminated s.mode ≡ false
    → end_reason i (next_count s.settle_count i.held) ≡ r
    → conclude s i (next_count s.settle_count i.held) r ≡ some o
    → StepView s i o
conclude_view s i o none live e h = cc
conclude_view s i o (some no_reason) live e h = continued live e (ground arith)
conclude_view s i o (some r) live e h = ended r live refl e (ground arith)

pub step_view :
    (s : EpisodeState) (i : EpisodeInput) (o : EpisodeOutput) → step s i ≡ some o → StepView s i o
unfolding step
step_view s i o h = elim (Bool-cases (is_terminated s.mode)) [
  | inl over ↦ halted over (ground arith)
  | inr live ↦
      conclude_view s i o (end_reason i (next_count s.settle_count i.held)) live refl (rw live at h)
]

-- The vehicle's mode after `control` ends only by a command.
control-ended :
    (s : EpisodeState) (i : EpisodeInput) (d : Delivery)
    → IsCoherent d
    → is_terminated (control s i d.terminal d.mode).0 ≡ is_some d.terminal
unfolding control auto_mode
control-ended s i d h = ground arith

proceed-IsWellFormed :
    (s : EpisodeState) (i : EpisodeInput) (n : ℕ)
    → n ≤ 1000
    → is_terminated s.mode ≡ false
    → IsWellFormed s
    → IsWellFormed (proceed s i n).state
proceed-IsWellFormed s i n small live w =
    let c = delivered-IsCoherent s i live w in
    let e = control-ended s i (delivered s i) c in unfold proceed in ground arith

terminate-IsWellFormed :
    (s : EpisodeState) (i : EpisodeInput) (n : ℕ) (r : Reason)
    → n ≤ 1000
    → IsWellFormed s
    → IsWellFormed (terminate s i n r).state
unfolding terminate
terminate-IsWellFormed s i n r small w = ground arith

-- Every cycle keeps the invariant.
pub step-IsWellFormed :
    (s : EpisodeState) (i : EpisodeInput) (o : EpisodeOutput)
    → step s i ≡ some o
    → IsWellFormed s
    → IsWellFormed o.state
step-IsWellFormed s i o h w = elim (step_view s i o h) [
  | halted over e ↦ rw e w
  | ended r live really why e ↦
      rw e (terminate-IsWellFormed s i _ r (next_count-le s.settle_count i.held) w)
  | continued live why e ↦
      rw e (proceed-IsWellFormed s i _ (next_count-le s.settle_count i.held) live w)
]
