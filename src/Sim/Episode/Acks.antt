-- ===== src/Sim/Episode/Acks.antt =====
-- The final acknowledgements of a cycle, by the number of their command (sim/episode.py).
use tvc.Prelude.{
  ℕ, ◌+◌, ◌<◌, ◌≡◌, refl, ◌⊎◌, Bool, false, if◌then◌else◌, Option, none, some, List, [], ◌∷◌, arith,
  Option-cases, Bool-cases, inl, inr, ◌∙◌,
}
use tvc.Sim.Episode.Types.{
  AckStatus, queued, preempted, rejected_pending, rejected_state, Mode, no_reason, Ack, Command,
  EpisodeState, EpisodeInput, EpisodeOutput, is_terminated, Reason, terminated,
}
use tvc.Sim.Episode.Commands.{
  apply, accept, settle_pending, answer, displaces, arrive, prefix, deliver, Delivery,
}
use tvc.Sim.Episode.{
  ack_list, step, delivered, proceed, terminate, before_command, final_arrival, final_pending,
}
use tvc.Sim.Episode.Invariant.{halted, ended, continued, step_view}

-- A QUEUED acknowledgement is followed by another one for the same command.
final_status : AckStatus → ℕ
final_status queued = 0
final_status _ = 1

-- Nothing pending is due.
abbrev pub Future : ℕ → Option Command → Type 0
Future tick none = Unit {0}
Future tick (some c) = tick < c.effective_tick

accept-Future :
    (tick : ℕ) (c : Command) (d : Delivery)
    → d.pending ≡ none
    → Future tick (accept tick c d).pending
unfolding accept
accept-Future tick c d p = ground arith

settle_pending-Future :
    (tick : ℕ) (c : Command) (o : Option Command) (d : Delivery)
    → d.pending_ack ≡ none
    → d.pending ≡ o
    → ((settle_pending tick c o d).pending_ack ≡ none)
      ⊎ Future tick (settle_pending tick c o d).pending
unfolding settle_pending
settle_pending-Future tick c none d p e = inr (accept-Future tick c d e)
settle_pending-Future tick c (some w) d p e = elim (Bool-cases (displaces c w)) [
  | inl yes_displaced ↦ rw yes_displaced (
      inr (
        accept-Future tick c
          (record d { pending = none; pending_ack = some (answer w preempted 0 d.mode no_reason) })
          refl))
  | inr kept ↦ rw kept (inl p)
]

arrive-Future :
    (tick : ℕ) (c : Option Command) (d : Delivery)
    → d.pending_ack ≡ none
    → ((arrive tick c d).pending_ack ≡ none) ⊎ Future tick (arrive tick c d).pending
unfolding arrive
arrive-Future tick none d p = inl p
arrive-Future tick (some c) d p = elim (Option-cases (prefix c d.last)) [
  | inl pass ↦ rw pass (settle_pending-Future tick c d.pending d p refl)
  | inr (st, e) ↦ rw e (inl p)
]

-- After a cycle no pending command is due.
pub deliver-Future : (tick : ℕ) (d : Delivery) → Future tick (deliver tick d).pending
unfolding deliver
deliver-Future tick d = ground arith

-- The commands of a set of numbers.
module _ (wanted : ℕ → Bool) where
  unfoldable pub is_final : Ack → ℕ
  unfolding final_status
  is_final a = if wanted a.cmd_seq then final_status a.status else 0

  -- Whether there is a command with such a number.
  abbrev pub carries : Option Command → ℕ
  carries none = 0
  carries (some c) = if wanted c.cmd_seq then 1 else 0

  abbrev pub finals : List Ack → ℕ
  finals [] = 0
  finals (a ∷ rest) = is_final a + finals rest

  abbrev final? : Option Ack → ℕ
  final? none = 0
  final? (some a) = is_final a

  apply-is_final :
      (m : Mode) (c : Command) (tick : ℕ) → is_final (apply m c tick).ack ≡ carries (some c)
  unfolding is_final apply
  apply-is_final m c tick = ground arith

  -- `_prefix` turns a command away for good.
  prefix-is_final :
      (c : Command) (last : Option Command) (st : AckStatus) (m : Mode) (r : Reason)
      → prefix c last ≡ some st
      → is_final (answer c st 0 m r) ≡ carries (some c)
  unfolding is_final prefix
  prefix-is_final c last st m r h = ground arith

  -- A plain answer with a status that is not QUEUED is final.
  answer-is_final :
      (c : Command) (m : Mode) (r : Reason)
      → (is_final (answer c queued 0 m r) ≡ 0)
        × (is_final (answer c preempted 0 m r) ≡ carries (some c))
        × (is_final (answer c rejected_pending 0 m r) ≡ carries (some c))
        × (is_final (answer c rejected_state 0 m r) ≡ carries (some c))
  unfolding is_final
  answer-is_final c m r = (ground arith, refl, refl, refl)

  -- What the answers and the pending slot of a cycle add up to.
  abbrev tally : Delivery → ℕ
  tally d = final? d.arrival_ack + final? d.pending_ack + carries d.pending

  accept-tally :
      (tick : ℕ) (c : Command) (d : Delivery)
      → d.arrival_ack ≡ none
      → d.pending ≡ none
      → tally (accept tick c d) ≡ carries (some c) + final? d.pending_ack
  unfolding accept
  accept-tally tick c d a p =
      ground (arith, apply-is_final d.mode c tick, answer-is_final c d.mode no_reason)

  settle_pending-tally :
      (tick : ℕ) (c : Command) (o : Option Command) (d : Delivery)
      → d.arrival_ack ≡ none
      → d.pending_ack ≡ none
      → d.pending ≡ o
      → tally (settle_pending tick c o d) ≡ carries (some c) + carries o
  unfolding settle_pending
  settle_pending-tally tick c none d a p e = accept-tally tick c d a e ∙ rw p
  settle_pending-tally tick c (some w) d a p e =
      let cleared : Delivery = record d {
        pending = none;
        pending_ack = some (answer w preempted 0 d.mode no_reason);
      } in
      ground (
        arith,
        accept-tally tick c cleared a refl,
        answer-is_final w d.mode no_reason,
        answer-is_final c d.mode no_reason,
      )

  arrive-tally :
      (tick : ℕ) (c : Option Command) (d : Delivery)
      → d.arrival_ack ≡ none
      → d.pending_ack ≡ none
      → tally (arrive tick c d) ≡ carries c + carries d.pending
  unfolding arrive
  arrive-tally tick none d a p = ground arith
  arrive-tally tick (some c) d a p = elim (Option-cases (prefix c d.last)) [
    | inl pass ↦ rw pass (settle_pending-tally tick c d.pending d a p refl)
    | inr (st, e) ↦ rw e (rw (prefix-is_final c d.last st d.mode no_reason e, p) (omega arith))
  ]

  deliver-tally :
      (tick : ℕ) (d : Delivery)
      → (d.pending_ack ≡ none) ⊎ Future tick d.pending
      → tally (deliver tick d) ≡ tally d
  unfolding deliver
  deliver-tally tick d h = elim (Option-cases d.pending) [
    | inl e ↦ ground (arith, e)
    | inr (w, e) ↦ ground (arith, e, apply-is_final d.mode w tick)
  ]

  finals-ack_list : (a b : Option Ack) → finals (ack_list a b) ≡ final? a + final? b
  finals-ack_list a b = ground arith

  proceed-finals :
      (s : EpisodeState) (i : EpisodeInput) (n : ℕ)
      → finals (proceed s i n).acks + carries (proceed s i n).state.pending
        ≡ carries i.command + carries s.pending
  unfolding proceed delivered
  proceed-finals s i n =
      let d = arrive i.tick i.command (before_command s) in
      omega (
        arith,
        finals-ack_list (deliver i.tick d).arrival_ack (deliver i.tick d).pending_ack,
        arrive-tally i.tick i.command (before_command s) refl refl,
        deliver-tally i.tick d (arrive-Future i.tick i.command (before_command s) refl),
      )

  final_arrival-is_final :
      (c last : Option Command) (r : Reason) → final? (final_arrival c last r) ≡ carries c
  final_arrival-is_final none last r = refl
  final_arrival-is_final (some c) last r = elim (Option-cases (prefix c last)) [
    | inl pass ↦ rw pass (unfold is_final in refl)
    | inr (st, e) ↦ rw e (prefix-is_final c last st terminated r e)
  ]

  final_pending-is_final :
      (c : Option Command) (r : Reason) → final? (final_pending c r) ≡ carries c
  final_pending-is_final none r = refl
  final_pending-is_final (some c) r = unfold is_final in refl

  terminate-finals :
      (s : EpisodeState) (i : EpisodeInput) (n : ℕ) (r : Reason)
      → finals (terminate s i n r).acks + carries (terminate s i n r).state.pending
        ≡ carries i.command + carries s.pending
  unfolding terminate
  terminate-finals s i n r = omega (
    arith,
    finals-ack_list (final_arrival i.command s.last_accepted r) (final_pending s.pending r),
    final_arrival-is_final i.command s.last_accepted r,
    final_pending-is_final s.pending r,
  )

  -- In a live cycle that does not raise, for any set of command numbers, the final acknowledgements
  -- with a number of the set, and the command left pending if it has one, are as many as the arriving
  -- and the pending command with one.
  pub step-finals :
      (s : EpisodeState) (i : EpisodeInput) (o : EpisodeOutput)
      → step s i ≡ some o
      → is_terminated s.mode ≡ false
      → finals o.acks + carries o.state.pending ≡ carries i.command + carries s.pending
  step-finals s i o h live = elim (step_view s i o h) [
    | halted over e ↦ cc
    | ended r _ really why e ↦ rw e (terminate-finals s i _ r)
    | continued _ why e ↦ rw e (proceed-finals s i _)
  ]

-- A command left waiting after a live cycle takes effect at a later tick.
pub step-Future :
    (s : EpisodeState) (i : EpisodeInput) (o : EpisodeOutput)
    → step s i ≡ some o
    → is_terminated s.mode ≡ false
    → Future i.tick o.state.pending
step-Future s i o h live = elim (step_view s i o h) [
  | halted over e ↦ cc
  | ended r _ really why e ↦ rw e (unfold terminate in tt)
  | continued _ why e ↦ rw e (unfold proceed delivered in deliver-Future i.tick _)
]
