-- ===== src/Evidence/Observation.antt =====
-- The observation history and the ladder of validate in scripts/latency.py, over the control
-- records of a typed recording, whose values are integers.
use tvc.Prelude.Int.{ℤ, pos, eq_ℤ}
use tvc.Prelude.{
  both_true, ℕ, suc, ◌+◌, ◌-◌, ◌%◌, ◌≤◌, ◌≡◌, Bool, true, false, ◌&&◌, ◌==◌, leb, ltb,
  if◌then◌else◌, Option, none, some, List, [], ◌∷◌, arith, min, inl, inr, ◌⊎◌, length,
}

pub record Control : Type 0 where
  pub tick : ℕ
  pub flags : ℕ
  pub sensor_tick : ℕ
  pub sensor_send_ns : ℤ
  pub staleness : ℕ

-- flags & 1
abbrev pub is_admitted : Control → Bool
is_admitted r = r.flags % 2 == 1

-- held_tick and held_stamp
pub record Held : Type 0 where
  pub held_tick : Option ℕ
  pub held_stamp : ℤ

abbrev pub not_held : Held
not_held = record { held_tick = none; held_stamp = pos 0 }

-- held_tick is None or r['sensor_tick'] > held_tick
abbrev pub is_newer : Option ℕ → ℕ → Bool
is_newer none tick = true
is_newer (some held) tick = ltb held tick

abbrev pub held_after : Held → Control → Held
held_after h r =
    if is_admitted r
    then record { held_tick = some r.sensor_tick; held_stamp = r.sensor_send_ns }
    else h

abbrev pub admission_ok : Held → Control → Bool
admission_ok h r =
    if is_admitted r then is_newer h.held_tick r.sensor_tick && leb r.sensor_tick r.tick else true

-- The condition on the age of row n and the one on its sensor tick. A negative age is no staleness.
abbrev pub age_ok : ℕ → Option ℕ → Control → Bool
age_ok n none r = r.staleness == min 4294967295 (n + 1) && r.sensor_tick == 18446744073709551615
age_ok n (some held) r =
    leb held r.tick && r.staleness == min 4294967295 (r.tick - held) && r.sensor_tick == held

-- The last three conditions of a round, for row n and what is held after it.
abbrev pub row_ok : ℕ → Held → Control → Bool
row_ok n h r = age_ok n h.held_tick r && eq_ℤ r.sensor_send_ns h.held_stamp

-- The loop from row n on.
unfoldable pub observed_from : ℕ → Held → List Control → Bool
observed_from n h [] = true
observed_from n h (r ∷ rows) =
    let rest : Bool = observed_from (suc n) (held_after h r) rows in
    admission_ok h r && row_ok n (held_after h r) r && rest

abbrev pub observation_ok : List Control → Bool
observation_ok controls = observed_from 0 not_held controls

-- The four rungs, in their order.
pub record Ladder : Type 0 where
  pub fresh : ℕ
  pub coast : ℕ
  pub neutral : ℕ
  pub lost_rung : ℕ

abbrev pub empty_ladder : Ladder
empty_ladder = record { fresh = 0; coast = 0; neutral = 0; lost_rung = 0 }

abbrev pub climb : Control → Ladder → Ladder
climb r l =
    if leb 21 r.staleness
    then record l { lost_rung = suc l.lost_rung }
    else (if is_admitted r
        then record l { fresh = suc l.fresh }
        else (if leb r.staleness 8
            then record l { coast = suc l.coast }
            else record l { neutral = suc l.neutral }))

unfoldable pub ladder : Ladder → List Control → Ladder
ladder l [] = l
ladder l (r ∷ rows) = ladder (climb r l) rows

-- The sensor ticks of the rows that admitted a sample.
pub fresh_ticks : List Control → List ℕ
fresh_ticks [] = []
fresh_ticks (r ∷ rows) =
    let rest : List ℕ = fresh_ticks rows in if is_admitted r then r.sensor_tick ∷ rest else rest

-- Strictly increasing, from `least` on.
pub IsIncreasing : ℕ → List ℕ → Type 0
IsIncreasing least [] = Unit
IsIncreasing least (t ∷ ts) = (least ≤ t) × IsIncreasing (suc t) ts

-- A row names no sensor tick, or one that is not later than its own, by which it is stale.
pub IsDated : List Control → Type 0
IsDated [] = Unit
IsDated (r ∷ rows) =
    ((r.sensor_tick ≡ 18446744073709551615)
      ⊎ ((r.sensor_tick ≤ r.tick) × (r.staleness ≡ min 4294967295 (r.tick - r.sensor_tick))))
    × IsDated rows

least_of : Option ℕ → ℕ
least_of none = 0
least_of (some held) = suc held

newer_least : (held : Option ℕ) (t : ℕ) → is_newer held t ≡ true → least_of held ≤ t
unfolding least_of
newer_least none t h = ground arith
newer_least (some held) t h = ground arith

IsDated_row :
    (n : ℕ) (held : Option ℕ) (r : Control)
    → age_ok n held r ≡ true
    → (r.sensor_tick ≡ 18446744073709551615)
      ⊎ ((r.sensor_tick ≤ r.tick) × (r.staleness ≡ min 4294967295 (r.tick - r.sensor_tick)))
IsDated_row n none r h = inl (ground arith)
IsDated_row n (some held) r h =
    let same : r.sensor_tick ≡ held = ground arith in inr (ground arith, rw same (ground arith))

-- A row is admitted or not, as `b` says.
row_increases :
    (b : Bool) (h : Held) (r : Control) (ts : List ℕ)
    → (if b then is_newer h.held_tick r.sensor_tick && leb r.sensor_tick r.tick else true) ≡ true
    → IsIncreasing
        (least_of (
          (if b
            then record { held_tick = some r.sensor_tick; held_stamp = r.sensor_send_ns }
            else h).held_tick))
        ts
    → IsIncreasing (least_of h.held_tick) (if b then r.sensor_tick ∷ ts else ts)
unfolding IsIncreasing least_of
row_increases true h r ts ok later =
    (newer_least h.held_tick r.sensor_tick (both_true _ _ ok).0, later)
row_increases false h r ts ok later = later

-- What the loop over the rows has seen, from what was held before it.
observed_from_lem :
    (n : ℕ) (h : Held) (rows : List Control)
    → observed_from n h rows ≡ true
    → IsIncreasing (least_of h.held_tick) (fresh_ticks rows) × IsDated rows
unfolding observed_from fresh_ticks IsIncreasing IsDated
observed_from_lem n h [] ok = (tt, tt)
observed_from_lem n h (r ∷ rows) ok =
    let all =
      both_true (admission_ok h r && row_ok n (held_after h r) r)
        (observed_from (suc n) (held_after h r) rows) ok in
    let now = both_true (admission_ok h r) (row_ok n (held_after h r) r) all.0 in
    let aged =
      both_true (age_ok n (held_after h r).held_tick r)
        (eq_ℤ r.sensor_send_ns (held_after h r).held_stamp) now.1 in
    let rest = observed_from_lem (suc n) (held_after h r) rows all.1 in
    (
      row_increases (is_admitted r) h r (fresh_ticks rows) now.0 rest.0,
      (IsDated_row n (held_after h r).held_tick r aged.0, rest.1),
    )

-- Of control records that pass the test of the observation history, the ones that admitted a
-- sample name strictly increasing sensor ticks, and each one names no sensor tick or one that is
-- not later than its own, whose distance, capped at 2^32 - 1, is its staleness.
pub observation_ok-IsDated :
    (controls : List Control)
    → observation_ok controls ≡ true
    → IsIncreasing 0 (fresh_ticks controls) × IsDated controls
unfolding least_of
observation_ok-IsDated controls ok = observed_from_lem 0 not_held controls ok

abbrev pub rungs : Ladder → ℕ
rungs l = l.fresh + l.coast + l.neutral + l.lost_rung

rungs-climb : (r : Control) (l : Ladder) → rungs (climb r l) ≡ suc (rungs l)
rungs-climb r l = ground arith

ladder_lem : (l : Ladder) (rows : List Control) → rungs (ladder l rows) ≡ rungs l + length rows
unfolding ladder
ladder_lem l [] = omega arith
ladder_lem l (r ∷ rows) = omega (arith, ladder_lem (climb r l) rows, rungs-climb r l)

-- The rungs of the ladder count every row once.
pub rungs-ladder : (rows : List Control) → rungs (ladder empty_ladder rows) ≡ length rows
rungs-ladder rows = omega (arith, ladder_lem empty_ladder rows)
