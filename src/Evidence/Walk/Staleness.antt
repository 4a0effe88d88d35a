-- ===== src/Evidence/Walk/Staleness.antt =====
-- What a walk without a mismatch says of the records and the replies.
use tvc.Prelude.{
  both_true, ap, sym, ◌∙◌, ℕ, suc, ◌+◌, ◌*◌, ◌/◌, ◌%◌, ◌≡◌, refl, Bool, true, false, not, Option,
  none, some, List, [], ◌∷◌, min, if◌then◌else◌, arith, length, ==_iff,
}
use tvc.Evidence.Walk.{
  fresh_walk, SensorRow, Logged, Reply, Round, Walked, Disagreement, is_fresh_sample, take_sample,
  mismatch_at, age_at, is_admission, is_answer, is_contiguous, walk, noncontiguous_tick,
  admission_or_staleness, held_observation, actuator_record, ack_projection, physical_diagnostics,
  nonfinite_count, nonzero_timestamp, has_bit,
}

-- The age of the observation that follows the one of age `n`.
abbrev pub next_age : ℕ → SensorRow → ℕ
next_age n s = if is_fresh_sample s then 0 else suc n

-- The rounds after an observation of age `n`: a record and its reply carry the number of rounds
-- since the last fresh sample, capped at 2^32 - 1, and the reply shows the record's state, reason
-- and command.
pub IsAgreed : ℕ → List Round → Type 0
IsAgreed n [] = Unit
IsAgreed n (q ∷ rounds) =
    (q.logged.staleness ≡ min (next_age n q.sample) 4294967295)
    × (q.reply.staleness ≡ q.logged.staleness)
    × (q.reply.delta ≡ q.logged.cmd)
    × (q.reply.status % 65536 ≡ q.logged.reason * 256 + q.logged.state)
    × IsAgreed (next_age n q.sample) rounds

-- The age of what is held before a tick.
IsAge : ℕ → Option SensorRow → ℕ → Type 0
IsAge tick none n = tick ≡ n
IsAge tick (some held) n = tick ≡ held.tick + suc n

-- The two tests of a sample, as Booleans.
held_of :
    (fresh valid : Bool) (s : SensorRow) (w : Walked)
    → (if fresh
        then record w { held = some s; admitted = suc w.admitted }
        else (if valid
            then record w { nonfinite = suc w.nonfinite }
            else record w { invalid = suc w.invalid })).held
      ≡ (if fresh then some s else w.held)
held_of true valid s w = refl
held_of false true s w = refl
held_of false false s w = refl

take_sample-held :
    (s : SensorRow) (w : Walked)
    → (take_sample s w).held ≡ (if is_fresh_sample s then some s else w.held)
take_sample-held s w = held_of (is_fresh_sample s) (has_bit s.flags 1) s w

-- The age of what is held after a sample, which is fresh or not, as `b` says.
ages :
    (b : Bool) (tick n : ℕ) (s : SensorRow) (held : Option SensorRow)
    → s.tick ≡ tick
    → IsAge tick held n
    → (age_at tick (if b then some s else held) ≡ min (if b then 0 else suc n) 4294967295)
      × IsAge (suc tick) (if b then some s else held) (if b then 0 else suc n)
unfolding IsAge
ages true tick n s held same age = (omega (arith, same), omega (arith, same))
ages false tick n s none same age = (omega (arith, age), omega (arith, age))
ages false tick n s (some h) same age = (omega (arith, age), omega (arith, age))

-- The first three checks of a tick that passes them all.
first_checks :
    (admission observed answered acked logical counted untimed : Bool)
    → (if not admission
        then some admission_or_staleness
        else if not observed
        then some held_observation
        else if not answered
        then some actuator_record
        else if not acked
        then some ack_projection
        else if not logical
        then some physical_diagnostics
        else if not counted
        then some nonfinite_count
        else if not untimed
        then some nonzero_timestamp
        else none)
      ≡ none
    → (admission ≡ true) × (answered ≡ true)
first_checks admission observed answered acked logical counted untimed h = ground arith

agreed_row :
    (age : ℕ) (r : Logged) (reply : Reply)
    → is_answer age r reply ≡ true
    → (reply.staleness ≡ age)
      × (reply.delta ≡ r.cmd)
      × (reply.status % 65536 ≡ r.reason * 256 + r.state)
agreed_row age r reply h =
    let first = both_true _ _ h in
    let second = both_true _ _ first.0 in
    let third = both_true _ _ second.0 in
    let low = (==_iff (reply.status % 256) r.state).0 third.0 in
    let high = (==_iff (reply.status / 256 % 256) r.reason).0 third.1 in
    (
      (==_iff reply.staleness age).0 first.1,
      (==_iff reply.delta r.cmd).0 second.1,
      omega (arith, low, high),
    )

contiguous_tick :
    (tick : ℕ) (q : Round)
    → is_contiguous tick q.sample q.logged q.reply q.row_tick ≡ true
    → q.sample.tick ≡ tick
contiguous_tick tick q h =
    (==_iff q.sample.tick tick).0
      (both_true _ _ (both_true _ _ (both_true _ _ (both_true _ _ h).0).0).0).0

staleness_age :
    (tick : ℕ) (held : Option SensorRow) (s : SensorRow) (r : Logged)
    → is_admission tick held s r ≡ true
    → r.staleness ≡ age_at tick held
staleness_age tick held s r h =
    (==_iff r.staleness (age_at tick held)).0 (both_true _ _ (both_true _ _ h).0).1

-- A tick that does not end the loop.
going :
    (contiguous : Bool) (m : Option Disagreement) (w after : Walked)
    (rest : Walked × Option Disagreement)
    → (if not contiguous
        then (w, some noncontiguous_tick)
        else elim m as (λ o. Walked × Option Disagreement) [
          | some found ↦ (after, some found)
          | none ↦ rest
        ]).1
      ≡ none
    → (contiguous ≡ true) × (m ≡ none) × (rest.1 ≡ none)
going true none w after rest h = (refl, refl, h)
going true (some m) w after rest h = cc
going false m w after rest h = cc

walk-IsAgreed :
    (tick n : ℕ) (w : Walked) (rounds : List Round)
    → IsAge tick w.held n
    → (walk tick w rounds).1 ≡ none
    → IsAgreed n rounds
unfolding walk IsAgreed
walk-IsAgreed tick n w [] age h = tt
walk-IsAgreed tick n w (q ∷ rounds) age h =
    let s : SensorRow = q.sample in
    let after : Walked = take_sample s w in
    let (contiguous, clean, rest) =
      going (is_contiguous tick s q.logged q.reply q.row_tick)
        (mismatch_at tick after.held s q.logged q.reply) w after (walk (suc tick) after rounds) h in
    let (same, later) =
      ages (is_fresh_sample s) tick n s w.held (contiguous_tick tick q contiguous) age in
    let (admitted, answered) = first_checks _ _ _ _ _ _ _ clean in
    let stale = staleness_age tick after.held s q.logged admitted in
    let held = take_sample-held s w in
    let (reply_age, command, status) =
      agreed_row (age_at tick after.held) q.logged q.reply answered in
    (
      stale ∙ ap (age_at tick) held ∙ same,
      reply_age ∙ sym stale,
      command,
      status,
      walk-IsAgreed (suc tick) (next_age n s) after rounds (rw held later) rest,
    )

total_of :
    (fresh valid : Bool) (s : SensorRow) (w after : Walked)
    → after ≡ (
        if fresh
        then record w { held = some s; admitted = suc w.admitted }
        else (if valid
            then record w { nonfinite = suc w.nonfinite }
            else record w { invalid = suc w.invalid }))
    → (after.admitted + after.invalid + after.nonfinite
        ≡ suc (w.admitted + w.invalid + w.nonfinite))
      × (after.admitted ≡ w.admitted + (if fresh then 1 else 0))
total_of true valid s w after e = rw e (omega arith, omega arith)
total_of false true s w after e = rw e (omega arith, omega arith)
total_of false false s w after e = rw e (omega arith, omega arith)

-- The fresh samples.
pub fresh_count : List Round → ℕ
fresh_count [] = 0
fresh_count (q ∷ rounds) = (if is_fresh_sample q.sample then 1 else 0) + fresh_count rounds

-- A walk without a mismatch counts the fresh samples as admitted, and each sample once.
pub walk-counts :
    (tick : ℕ) (w : Walked) (rounds : List Round)
    → (walk tick w rounds).1 ≡ none
    → ((walk tick w rounds).0.admitted ≡ w.admitted + fresh_count rounds)
      × ((walk tick w rounds).0.admitted
            + (walk tick w rounds).0.invalid
            + (walk tick w rounds).0.nonfinite
          ≡ w.admitted + w.invalid + w.nonfinite + length rounds)
unfolding walk fresh_count
walk-counts tick w [] h = (omega arith, omega arith)
walk-counts tick w (q ∷ rounds) h =
    let s : SensorRow = q.sample in
    let after : Walked = take_sample s w in
    let (contiguous, clean, rest) =
      going (is_contiguous tick s q.logged q.reply q.row_tick)
        (mismatch_at tick after.held s q.logged q.reply) w after (walk (suc tick) after rounds) h in
    let one = total_of (is_fresh_sample s) (has_bit s.flags 1) s w after refl in
    let more = walk-counts (suc tick) after rounds rest in
    rw contiguous (
      rw clean
        (omega (arith, one.0, one.1, more.0, more.1), omega (arith, one.0, one.1, more.0, more.1)))

pub walk_agrees : (rounds : List Round) → (walk 0 fresh_walk rounds).1 ≡ none → IsAgreed 0 rounds
unfolding IsAge
walk_agrees rounds h = walk-IsAgreed 0 0 fresh_walk rounds refl h
