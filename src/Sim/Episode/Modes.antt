-- ===== src/Sim/Episode/Modes.antt =====
-- The modes of one cycle (sim/episode.py).
use tvc.Prelude.{
  ℕ, ◌≤◌, ◌≡◌, refl, ◌⊎◌, inl, inr, Bool, true, false, Option, none, some, arith, ◌&&◌, Bool-cases,
  Option-cases, both_true, ltb, leb, if◌then◌else◌,
}
use tvc.Sim.Episode.Types.{
  Command, EpisodeState, EpisodeInput, Mode, init, armed, flying, terminated, TerminalResult,
  Reason, arm, launch, abort, is_no_reason, is_terminated, preempted, no_reason,
}
use tvc.Sim.Episode.Commands.{
  apply, arrive, prefix, deliver, Delivery, accept, settle_pending, displaces, answer,
}
use tvc.Sim.Episode.{end_reason, delivered, next_count, before_command, control, auto_mode}

-- A command that arrives or waits, with this opcode, takes effect in the cycle.
pub IsOrdered : EpisodeState → EpisodeInput → ℕ → Type 0
IsOrdered s i opcode =
    (c : Command) × (c.opcode ≡ opcode)
    × (c.effective_tick ≤ i.tick)
    × ((i.command ≡ some c) ⊎ (s.pending ≡ some c))

-- An auto-armed vehicle got a fresh sample.
pub IsAuto : EpisodeState → EpisodeInput → Type 0
IsAuto s i = (s.auto_arm ≡ true) × (i.fresh ≡ true)

-- The edges of the mode diagram, each with what a cycle needs to take it: INIT, ARMED, FLYING and
-- TERMINATED by the commands, FLYING by auto-arming, and TERMINATED for a reason of the cycle.
pub data Edge (s : EpisodeState) (i : EpisodeInput) : Mode → Mode → Type 0 where
  stay : {m : Mode} → Edge s i m m
  arming : IsOrdered s i arm → Edge s i init armed
  launching : IsOrdered s i launch → Edge s i armed flying
  aborting_armed : IsOrdered s i abort → Edge s i armed terminated
  aborting_flying : IsOrdered s i abort → Edge s i flying terminated
  auto_launching : IsAuto s i → Edge s i init flying
  auto_flying : IsAuto s i → Edge s i armed flying
  ending :
      {m : Mode} (reason : Reason)
      → is_terminated m ≡ false
      → is_no_reason reason ≡ false
      → end_reason i (next_count s.settle_count i.held) ≡ some reason
      → Edge s i m terminated

-- What one command does to the mode.
apply_edge :
    (s : EpisodeState) (i : EpisodeInput) (m : Mode) (c : Command) (tick : ℕ)
    → ((opcode : ℕ) → c.opcode ≡ opcode → IsOrdered s i opcode)
    → Edge s i m (apply m c tick).mode
unfolding apply
apply_edge s i m c tick h = grind (
  arith,
  stay,
  arming (h arm _),
  launching (h launch _),
  aborting_armed (h abort _),
  aborting_flying (h abort _),
)

-- From `d` to `e` the arriving command was applied, and then none waits, or the mode is left.
Moved : ℕ → Option Command → Delivery → Delivery → Type 0
Moved tick o d e =
    ((e.mode ≡ d.mode) × ((e.pending ≡ d.pending) ⊎ (e.pending ≡ o)))
    ⊎ ((c : Command) × (o ≡ some c)
        × (c.effective_tick ≤ tick)
        × (e.mode ≡ (apply d.mode c tick).mode)
        × (e.pending ≡ none))

accept_cases :
    (tick : ℕ) (c : Command) (d : Delivery)
    → d.pending ≡ none
    → (((accept tick c d).mode ≡ d.mode) × ((accept tick c d).pending ≡ some c))
      ⊎ ((c.effective_tick ≤ tick)
          × ((accept tick c d).mode ≡ (apply d.mode c tick).mode)
          × ((accept tick c d).pending ≡ none))
unfolding accept
accept_cases tick c d p = elim (Bool-cases (ltb tick c.effective_tick)) [
  | inl later ↦ rw later (inl (refl, refl))
  | inr due ↦ rw due (inr (ground arith, refl, p))
]

move_of :
    (tick : ℕ) (c : Command) (d e : Delivery)
    → (((e.mode ≡ d.mode) × (e.pending ≡ some c))
        ⊎ ((c.effective_tick ≤ tick) × (e.mode ≡ (apply d.mode c tick).mode) × (e.pending ≡ none)))
    → Moved tick (some c) d e
unfolding Moved
move_of tick c d e (inl (m, p)) = inl (m, inr p)
move_of tick c d e (inr (le, m, p)) = inr (c, refl, le, m, p)

settle_pending-Moved :
    (tick : ℕ) (c : Command) (o : Option Command) (d : Delivery)
    → d.pending ≡ o
    → Moved tick (some c) d (settle_pending tick c o d)
unfolding settle_pending
settle_pending-Moved tick c none d e = move_of tick c d _ (accept_cases tick c d e)
settle_pending-Moved tick c (some w) d e = elim (Bool-cases (displaces c w)) [
  | inl yes_displaced ↦ rw yes_displaced (
      let cleared : Delivery = record d {
        pending = none;
        pending_ack = some (answer w preempted 0 d.mode no_reason);
      } in
      move_of tick c d _ (accept_cases tick c cleared refl))
  | inr kept ↦ rw kept (unfold Moved in inl (refl, inl refl))
]

arrive-Moved : (tick : ℕ) (o : Option Command) (d : Delivery) → Moved tick o d (arrive tick o d)
unfolding arrive
arrive-Moved tick none d = unfold Moved in inl (refl, inl refl)
arrive-Moved tick (some c) d = elim (Option-cases (prefix c d.last)) [
  | inl pass ↦ rw pass (settle_pending-Moved tick c d.pending d refl)
  | inr (st, e) ↦ rw e (unfold Moved in inl (refl, inl refl))
]

deliver-none : (tick : ℕ) (e : Delivery) → e.pending ≡ none → (deliver tick e).mode ≡ e.mode
unfolding deliver
deliver-none tick e h = ground arith

deliver-some :
    (tick : ℕ) (e : Delivery) (w : Command)
    → e.pending ≡ some w
    → (deliver tick e).mode
      ≡ (if leb w.effective_tick tick then (apply e.mode w tick).mode else e.mode)
unfolding deliver
deliver-some tick e w h = ground arith

waiting_from :
    (before first now arriving : Option Command) (w : Command)
    → before ≡ first
    → (now ≡ before) ⊎ (now ≡ arriving)
    → now ≡ some w
    → (arriving ≡ some w) ⊎ (first ≡ some w)
waiting_from before first now arriving w p (inl same) e = inr (cc)
waiting_from before first now arriving w p (inr same) e = inl (cc)

-- The mode after the commands of a cycle.
deliver_edge :
    (s : EpisodeState) (i : EpisodeInput) (d e : Delivery)
    → d.mode ≡ s.mode
    → d.pending ≡ s.pending
    → Moved i.tick i.command d e
    → Edge s i s.mode (deliver i.tick e).mode
unfolding Moved
deliver_edge s i d e m p (inr (c, at, le, moved, gone)) =
    rw (deliver-none i.tick e gone, moved, m)
      (apply_edge s i s.mode c i.tick (λ op o. unfold IsOrdered in (c, o, le, inl at)))
deliver_edge s i d e m p (inl (kept, waits)) = elim (Option-cases e.pending) [
  | inl gone ↦ rw (deliver-none i.tick e gone, kept, m) stay
  | inr (w, e1) ↦ elim (Bool-cases (leb w.effective_tick i.tick)) [
    | inl due ↦
        rw (deliver-some i.tick e w e1, kept, m, due)
          (apply_edge s i s.mode w i.tick (λ op o.
            unfold IsOrdered in
            (
              w,
              o,
              ground arith,
              waiting_from d.pending s.pending e.pending i.command w p waits e1,
            )))
    | inr later ↦ rw (deliver-some i.tick e w e1, later, kept, m) stay
  ]
]

delivered_edge : (s : EpisodeState) (i : EpisodeInput) → Edge s i s.mode (delivered s i).mode
unfolding delivered
delivered_edge s i =
    deliver_edge s i (before_command s) (arrive i.tick i.command (before_command s)) refl refl
      (arrive-Moved i.tick i.command (before_command s))

-- Auto-arming after a command, or without one.
auto_edge :
    (s : EpisodeState) (i : EpisodeInput) (b : Bool) {m n : Mode}
    → (b ≡ true → IsAuto s i)
    → Edge s i m n
    → Edge s i m (auto_mode b n)
unfolding auto_mode
auto_edge s i false {n = init} h e = e
auto_edge s i false {n = armed} h e = e
auto_edge s i false {n = flying} h e = e
auto_edge s i false {n = terminated} h e = e
auto_edge s i true {n = flying} h e = e
auto_edge s i true {n = terminated} h e = e
auto_edge s i true {n = init} h stay = auto_launching (h refl)
auto_edge s i true {n = armed} h stay = auto_flying (h refl)
auto_edge s i true {n = armed} h (arming o) = auto_launching (h refl)

control_from :
    {s : EpisodeState} {i : EpisodeInput} {m : Mode} (t : Option TerminalResult)
    → Edge s i s.mode m
    → Edge s i s.mode (control s i t m).0
unfolding control
control_from (some t) e = e
control_from {s = s} {i = i} none e =
    auto_edge s i (s.auto_arm && i.fresh) (λ h. unfold IsAuto in both_true s.auto_arm i.fresh h) e

-- The mode at the end of a cycle that does not end the episode.
pub control_edge :
    (s : EpisodeState) (i : EpisodeInput)
    → Edge s i s.mode (control s i (delivered s i).terminal (delivered s i).mode).0
control_edge s i = control_from (delivered s i).terminal (delivered_edge s i)
