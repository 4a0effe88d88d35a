-- ===== src/Sim/Episode/Runs.antt =====
-- Whole episodes: the cycles from `initial` on, while the episode lasts (sim/episode.py).
use tvc.Prelude.{
  ℕ, zero, suc, ◌≢◌, ◌+◌, ◌≤◌, ◌≡◌, refl, ◌⊎◌, inl, inr, Bool, true, false, Option, none, some,
  List, [], ◌∷◌, ◌++◌, arith, All, take, length, Bool-cases,
}
use tvc.Sim.Types.{Observation}
use tvc.Sim.Episode.Types.{
  Ack, EpisodeState, EpisodeInput, EpisodeOutput, is_terminated, stabilized, ground_abort,
  TerminalResult,
}
use tvc.Sim.Episode.{initial, step, end_reason, next_count, proceed, terminate, settled, delivered}
use tvc.Sim.Episode.Commands.{arrive, deliver, apply}
use tvc.Sim.Episode.Invariant.{
  IsWellFormed, initial-IsWellFormed, step-IsWellFormed, halted, ended, continued, step_view,
}
use tvc.Sim.Episode.Acks.{carries, finals, step-finals}

-- `Run a is acks s`: from `initial a`, live cycles with the inputs `is`, newest first, have sent
-- `acks` and led to `s`.
pub data Run (auto_arm : Bool) : List EpisodeInput → List Ack → EpisodeState → Type 0 where
  start : {s : EpisodeState} → s ≡ initial auto_arm → Run auto_arm [] [] s
  next :
      {is : List EpisodeInput} {acks acks' : List Ack} {s s' : EpisodeState} (i : EpisodeInput)
      (o : EpisodeOutput)
      → Run auto_arm is acks s
      → is_terminated s.mode ≡ false
      → step s i ≡ some o
      → acks' ≡ o.acks ++ acks
      → s' ≡ o.state
      → Run auto_arm (i ∷ is) acks' s'

-- Every state that an episode reaches is well formed.
pub Run-IsWellFormed :
    {a : Bool} {is : List EpisodeInput} {acks : List Ack} {s : EpisodeState}
    → Run a is acks s
    → IsWellFormed s
Run-IsWellFormed (start e) = rw e (initial-IsWellFormed _)
Run-IsWellFormed (next {s = s} i o r live h _ e) =
    rw e (step-IsWellFormed s i o h (Run-IsWellFormed r))

-- The commands of a set of numbers.
module _ (wanted : ℕ → Bool) where
  -- How many commands arrived with such a number.
  abbrev pub commands : List EpisodeInput → ℕ
  commands [] = 0
  commands (i ∷ is) = carries wanted i.command + commands is

  finals-append :
      (xs ys : List Ack) → finals wanted (xs ++ ys) ≡ finals wanted xs + finals wanted ys
  finals-append [] ys = omega arith
  finals-append (x ∷ xs) ys = omega (arith, finals-append xs ys)

  -- Over a whole episode, for any set of command numbers, the final acknowledgements with a number of
  -- the set, and the command still pending if it has one, are as many as the commands that arrived with
  -- one. For a set of one number these are the acknowledgements of that number.
  pub Run-finals :
      {a : Bool} {is : List EpisodeInput} {acks : List Ack} {s : EpisodeState}
      → Run a is acks s
      → finals wanted acks + carries wanted s.pending ≡ commands is
  Run-finals (start e) = rw e (unfold initial in refl)
  Run-finals (next {acks = acks} {s = s} i o r live h ea es) =
      rw (ea, es, finals-append) (omega (arith, Run-finals r, step-finals wanted s i o h live))

-- The cycle held an observation inside the settling box.
abbrev pub IsSettled : EpisodeInput → Type 0
IsSettled i = (o : Observation) × (i.held ≡ some o) × (settled o ≡ true)

next_count-cases :
    (n : ℕ) (i : EpisodeInput) (h : Option Observation)
    → i.held ≡ h
    → (next_count n h ≡ 0) ⊎ (IsSettled i × (next_count n h ≤ suc n))
unfolding next_count
next_count-cases n i none e = inl refl
next_count-cases n i (some o) e = elim (Bool-cases (settled o)) [
  | inl inside ↦ inr ((o, e, inside), rw inside (omega arith))
  | inr outside ↦ inl (rw outside)
]

step-settle_count :
    (s : EpisodeState) (i : EpisodeInput) (o : EpisodeOutput)
    → is_terminated s.mode ≡ false
    → step s i ≡ some o
    → o.state.settle_count ≡ next_count s.settle_count i.held
step-settle_count s i o live h = elim (step_view s i o h) [
  | halted over e ↦ cc
  | ended r _ really why e ↦ rw e (unfold terminate in refl)
  | continued _ why e ↦ rw e (unfold proceed in refl)
]

All-take_le :
    (P : EpisodeInput → Type 0) (n m : ℕ) (xs : List EpisodeInput)
    → n ≤ m
    → All P (take m xs)
    → All P (take n xs)
All-take_le P zero m xs le h = tt
All-take_le P (suc n) zero xs le h = absurd (omega arith)
All-take_le P (suc n) (suc m) [] le h = tt
All-take_le P (suc n) (suc m) (x ∷ xs) le h = (h.0, All-take_le P n m xs (omega arith) h.1)

-- The newest `n` cycles are there and held settled observations.
abbrev pub SettledFor : ℕ → List EpisodeInput → Type 0
SettledFor n is = (n ≤ length is) × All IsSettled (take n is)

SettledFor-cons :
    (n m : ℕ) (i : EpisodeInput) (is : List EpisodeInput)
    → SettledFor n is
    → (m ≡ 0) ⊎ (IsSettled i × (m ≤ suc n))
    → SettledFor m (i ∷ is)
SettledFor-cons n zero i is h d = (omega arith, tt)
SettledFor-cons n (suc m) i is h (inl e) = absurd (omega arith)
SettledFor-cons n (suc m) i is h (inr (inside, le)) =
    (omega (arith, h.0), (inside, All-take_le IsSettled m n is (omega arith) h.1))

-- The settle count counts newest cycles, each with a held observation in the settling box.
pub Run-SettledFor :
    {a : Bool} {is : List EpisodeInput} {acks : List Ack} {s : EpisodeState}
    → Run a is acks s
    → SettledFor s.settle_count is
Run-SettledFor (start e) = rw e (unfold initial in (omega arith, tt))
Run-SettledFor (next {is = is} {s = s} i o r live h ea es) =
    rw (es, step-settle_count s i o live h)
      (SettledFor-cons s.settle_count _ i is (Run-SettledFor r)
        (next_count-cases s.settle_count i i.held refl))

abbrev IsAbort : Option TerminalResult → Type 0
IsAbort none = Unit {0}
IsAbort (some t) = t.reason ≡ ground_abort

-- Commands end an episode as GROUND_ABORT only.
delivered-IsAbort : (s : EpisodeState) (i : EpisodeInput) → IsAbort (delivered s i).terminal
unfolding delivered arrive deliver apply
delivered-IsAbort s i = ground arith

end_reason-stabilized :
    (i : EpisodeInput) (n : ℕ)
    → i.stop_reason ≢ some stabilized
    → end_reason i n ≡ some stabilized
    → n ≡ 1000
unfolding end_reason
end_reason-stabilized i n own e = ground arith

-- A cycle ends the episode as STABILIZED on its own judgement only with a full settle count.
step-stabilized :
    (s : EpisodeState) (i : EpisodeInput) (o : EpisodeOutput) (tick : ℕ)
    → is_terminated s.mode ≡ false
    → step s i ≡ some o
    → i.stop_reason ≢ some stabilized
    → o.state.terminal ≡ some (record { reason = stabilized; tick = tick })
    → (o.state.settle_count ≡ 1000) × (tick ≡ i.tick)
step-stabilized s i o tick live h own fin = elim (step_view s i o h) [
  | halted over e ↦ cc
  | ended r _ really why e ↦
      let t : (terminate s i (next_count s.settle_count i.held) r).state.terminal
          ≡ some (record { reason = stabilized; tick = tick }) =
        rw e at fin in
      unfold terminate in
      ground (
        arith,
        step-settle_count s i o live h,
        end_reason-stabilized i (next_count s.settle_count i.held) own,
      )
  | continued _ why e ↦
      let a = delivered-IsAbort s i in
      let t : (proceed s i (next_count s.settle_count i.held)).state.terminal
          ≡ some (record { reason = stabilized; tick = tick }) =
        rw e at fin in
      unfold proceed in ground arith
]

-- An episode that its own judgement ended as STABILIZED had, in each of its last thousand cycles,
-- a held observation with |theta| and |omega| at most 0.02.
pub Run-stabilized :
    {a : Bool} {is : List EpisodeInput} {acks : List Ack} {s : EpisodeState} (tick : ℕ)
    → Run a is acks s
    → All (λ (i : EpisodeInput). i.stop_reason ≢ some stabilized) is
    → s.terminal ≡ some (record { reason = stabilized; tick = tick })
    → SettledFor 1000 is
Run-stabilized tick (start e) own fin = unfold initial in cc
Run-stabilized tick (next {is = is} {s = s} i o r live h ea es) own fin =
    let full = (step-stabilized s i o tick live h own.0 (rw es at fin)).0 in
    rw (es, full) at (Run-SettledFor (next {is = is} {s = s} i o r live h ea es))
