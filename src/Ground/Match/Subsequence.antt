-- ===== src/Ground/Match/Subsequence.antt =====
-- When `match_streams` succeeds (ground/link.py).
use tvc.Prelude.{
  ℕ, ◌+◌, ◌%◌, ◌^◌, ◌<◌, ◌≤◌, ◌≡◌, refl, inl, inr, true, Option, none, some, List, [], ◌∷◌, arith,
  Bool-cases, ◌==◌, ◌↔◌,
}
use tvc.Prelude.Result.{ok, >>=-eq-ok}
use tvc.Ground.Receiver.{same_bytes}
use tvc.Ground.Match.{
  Record, Tally, Delivery, fresh_tally, merge, merge_all, match_ground, match_equal, match_streams,
  increases, matched, unmatched,
}

same_bytes_refl : (a : List ℕ) → same_bytes a a ≡ true
same_bytes_refl [] = refl
same_bytes_refl (x ∷ a) = ground (arith, same_bytes_refl a)

same_bytes-eq : (a b : List ℕ) → same_bytes a b ≡ true → a ≡ b
same_bytes-eq [] [] h = refl
same_bytes-eq [] (y ∷ b) h = cc
same_bytes-eq (x ∷ a) [] h = cc
same_bytes-eq (x ∷ a) (y ∷ b) h = ground (arith, same_bytes-eq a b)

-- The records are numbered from `start` plus `n` on, modulo 2^32, and their ticks increase from
-- above `previous`.
abbrev pub IsSequence : ℕ → ℕ → Option ℕ → List Record → Type 0
IsSequence start n previous [] = Unit {0}
IsSequence start n previous (v ∷ rest) =
    (v.seq ≡ (start + n) % 2 ^ 32)
    × (increases previous v.tick ≡ true)
    × IsSequence start (n + 1) (some v.tick) rest

-- `IsThinned ground vehicle`: the ground records are some of the vehicle records, in their order,
-- by tick and bytes.
pub data IsThinned : List Record → List Record → Type 0 where
  done : IsThinned [] []
  lost :
      {ground vehicle : List Record} (v : Record)
      → IsThinned ground vehicle
      → IsThinned ground (v ∷ vehicle)
  kept :
      {ground vehicle : List Record} (g v : Record)
      → g.tick ≡ v.tick
      → g.raw ≡ v.raw
      → IsThinned ground vehicle
      → IsThinned (g ∷ ground) (v ∷ vehicle)

-- A ground record left over is of a later tick than the vehicle records before it.
IsThinned-later :
    (start n p : ℕ) (g : Record) (rest vehicle : List Record)
    → IsSequence start n (some p) vehicle
    → IsThinned (g ∷ rest) vehicle
    → p < g.tick
IsThinned-later start n p g rest [] q th = elim th [ ]
IsThinned-later start n p g rest (v ∷ vs) q (lost _ th) =
    let later = IsThinned-later start (n + 1) v.tick g rest vs q.2 th in ground arith
IsThinned-later start n p g rest (v ∷ vs) q (kept _ _ et er th) = ground arith

abbrev IsBehind : Option ℕ → Option ℕ → Type 0
IsBehind none previous = Unit {0}
IsBehind (some a) none = ⊥
IsBehind (some a) (some b) = a ≤ b

-- A tally of `n` vehicle records up to the tick `previous`.
abbrev IsAt : ℕ → Option ℕ → Tally → Type 0
IsAt n previous t =
    (t.vehicle_count ≡ n)
    × (t.previous_vehicle ≡ previous)
    × IsBehind t.previous_ground t.previous_vehicle

IsBehind-increases :
    (a b : Option ℕ) (tick : ℕ) → IsBehind a b → increases b tick ≡ true → increases a tick ≡ true
IsBehind-increases a b tick h i = ground arith

IsBehind-later :
    (a b : Option ℕ) (tick : ℕ) → IsBehind a b → increases b tick ≡ true → IsBehind a (some tick)
IsBehind-later a b tick h i = ground arith

abbrev IsLater : ℕ → List Record → Type 0
IsLater tick [] = Unit {0}
IsLater tick (g ∷ rest) = tick < g.tick

merge_lost :
    (start : ℕ) (v : Record) (gs : List Record) (t : Tally)
    → v.seq ≡ (start + t.vehicle_count) % 2 ^ 32
    → increases t.previous_vehicle v.tick ≡ true
    → IsLater v.tick gs
    → merge start v gs t ≡ ok (unmatched v.tick t, gs)
unfolding merge match_ground
merge_lost start v gs t hs hi l = ground arith

match_equal_kept :
    (v g : Record) (rest : List Record) (t : Tally)
    → increases t.previous_ground g.tick ≡ true
    → g.raw ≡ v.raw
    → match_equal v g rest t ≡ ok (matched v.tick t, rest)
unfolding match_equal
match_equal_kept v g rest t hi e = rw (hi, e, same_bytes_refl v.raw) refl

merge_kept :
    (start : ℕ) (v g : Record) (rest : List Record) (t : Tally)
    → v.seq ≡ (start + t.vehicle_count) % 2 ^ 32
    → increases t.previous_vehicle v.tick ≡ true
    → increases t.previous_ground g.tick ≡ true
    → g.tick ≡ v.tick
    → g.raw ≡ v.raw
    → merge start v (g ∷ rest) t ≡ ok (matched v.tick t, rest)
unfolding merge match_ground
merge_kept start v g rest t hs hv hg et er = ground (arith, match_equal_kept v g rest t hg er)

IsThinned-IsLater :
    (start n p : ℕ) (gs vehicle : List Record)
    → IsSequence start n (some p) vehicle
    → IsThinned gs vehicle
    → IsLater p gs
IsThinned-IsLater start n p [] vehicle q th = tt
IsThinned-IsLater start n p (g ∷ rest) vehicle q th = IsThinned-later start n p g rest vehicle q th

-- The rounds pass where the vehicle records are in sequence and the ground records are thinned.
merge_all_passes :
    (start n : ℕ) (previous : Option ℕ) (vehicle gs : List Record) (t : Tally)
    → IsAt n previous t
    → IsSequence start n previous vehicle
    → IsThinned gs vehicle
    → (d : Delivery) × (merge_all start vehicle gs t ≡ ok d)
unfolding merge_all
merge_all_passes start n previous [] gs t at q done = (_, refl)
merge_all_passes start n previous (v ∷ vs) gs t at q (lost _ th) =
    let next_tick : increases t.previous_vehicle v.tick ≡ true = rw at.1 q.1 in
    let number : v.seq ≡ (start + t.vehicle_count) % 2 ^ 32 = rw at.0 q.0 in
    let (d, e) =
      merge_all_passes start (n + 1) (some v.tick) vs gs (unmatched v.tick t)
        (
          omega (arith, at.0),
          refl,
          IsBehind-later t.previous_ground t.previous_vehicle v.tick at.2 next_tick,
        )
        q.2 th in
    (
      d,
      rw
          (merge_lost start v gs t number next_tick
            (IsThinned-IsLater start (n + 1) v.tick gs vs q.2 th))
          e,
    )
merge_all_passes start n previous (v ∷ vs) gs t at q (kept {ground = rest} g _ et er th) =
    let next_tick : increases t.previous_vehicle v.tick ≡ true = rw at.1 q.1 in
    let number : v.seq ≡ (start + t.vehicle_count) % 2 ^ 32 = rw at.0 q.0 in
    let (d, e) =
      merge_all_passes start (n + 1) (some v.tick) vs rest (matched v.tick t)
        (omega (arith, at.0), refl, omega arith) q.2 th in
    (
      d,
      rw
          (merge_kept start v g rest t number next_tick
            (rw et (IsBehind-increases t.previous_ground t.previous_vehicle v.tick at.2 next_tick))
            et er)
          e,
    )

-- What a round that passes has done.
data Round (v : Record) (gs : List Record) (t t' : Tally) (gs' : List Record) : Type 0 where
  passed_over : t' ≡ unmatched v.tick t → gs' ≡ gs → Round v gs t t' gs'
  took :
      (g : Record)
      → gs ≡ g ∷ gs'
      → t' ≡ matched v.tick t
      → g.tick ≡ v.tick
      → g.raw ≡ v.raw
      → Round v gs t t' gs'

match_equal_taken :
    (v g : Record) (rest : List Record) (t t' : Tally) (gs' : List Record)
    → match_equal v g rest t ≡ ok (t', gs')
    → (g.raw ≡ v.raw) × (t' ≡ matched v.tick t) × (gs' ≡ rest)
unfolding match_equal
match_equal_taken v g rest t t' gs' h = ground (arith, same_bytes-eq g.raw v.raw)

match_ground-Round :
    (v : Record) (gs : List Record) (t t' : Tally) (gs' : List Record)
    → match_ground v gs t ≡ ok (t', gs')
    → Round v gs t t' gs'
unfolding match_ground
match_ground-Round v [] t t' gs' h = passed_over (ground arith) (ground arith)
match_ground-Round v (g ∷ rest) t t' gs' h = elim (Bool-cases (g.tick == v.tick)) [
  | inl same ↦
      let taken : match_equal v g rest t ≡ ok (t', gs') = ground arith in
      let (er, et, eg) = match_equal_taken v g rest t t' gs' taken in
      took g (rw eg refl) et (ground arith) er
  | inr other ↦ passed_over (ground arith) (ground arith)
]

merge-Round :
    (start : ℕ) (v : Record) (gs : List Record) (t t' : Tally) (gs' : List Record)
    → merge start v gs t ≡ ok (t', gs')
    → (v.seq ≡ (start + t.vehicle_count) % 2 ^ 32)
      × (increases t.previous_vehicle v.tick ≡ true)
      × (match_ground v gs t ≡ ok (t', gs'))
unfolding merge
merge-Round start v gs t t' gs' h = ground arith

merge_all_sound :
    (start n : ℕ) (previous : Option ℕ) (vehicle gs : List Record) (t : Tally) (d : Delivery)
    → merge_all start vehicle gs t ≡ ok d
    → IsAt n previous t
    → IsSequence start n previous vehicle × IsThinned gs vehicle
unfolding merge_all
merge_all_sound start n previous [] [] t d h at = (tt, done)
merge_all_sound start n previous [] (g ∷ rest) t d h at = cc
merge_all_sound start n previous (v ∷ vs) gs t d h at =
    let ((t', gs'), e, h') = >>=-eq-ok (merge start v gs t) _ h in
    let (number, next_tick, e') = merge-Round start v gs t t' gs' e in
    let head : (v.seq ≡ (start + n) % 2 ^ 32) × (increases previous v.tick ≡ true) =
      (rw⁻¹ at.0 number, rw⁻¹ at.1 next_tick) in
    elim (match_ground-Round v gs t t' gs' e') [
      | passed_over et eg ↦
          let (later, thin) = merge_all_sound start (n + 1) (some v.tick) vs gs' t' d h' (
            rw et (
              omega (arith, at.0),
              refl,
              IsBehind-later t.previous_ground t.previous_vehicle v.tick at.2 next_tick,
            )) in
          ((head.0, head.1, later), lost v (rw⁻¹ eg thin))
      | took g eg et same_tick same_raw ↦
          let (later, thin) =
            merge_all_sound start (n + 1) (some v.tick) vs gs' t' d h'
              (rw et (omega (arith, at.0), refl, omega arith)) in
          ((head.0, head.1, later), rw eg (kept g v same_tick same_raw thin))
    ]

-- The streams match exactly if the vehicle records are numbered consecutively from the start ordinal,
-- modulo 2^32, with increasing ticks, and the ground records are some of them in their order, with
-- the same ticks and bytes.
pub match_streams_iff :
    (start : ℕ) (vehicle gs : List Record)
    → ((d : Delivery) × (match_streams start vehicle gs ≡ ok d))
      ↔ (IsSequence start 0 none vehicle × IsThinned gs vehicle)
unfolding match_streams
match_streams_iff start vehicle gs = (
  λ r. merge_all_sound start 0 none vehicle gs fresh_tally r.0 r.1 (refl, refl, tt),
  λ r. merge_all_passes start 0 none vehicle gs fresh_tally (refl, refl, tt) r.0 r.1,
)
