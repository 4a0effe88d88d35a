-- ===== src/Ground/Match/Accounting.antt =====
-- The counts that `match_streams` reports (ground/link.py).
use tvc.Prelude.{ℕ, ◌+◌, ◌<◌, ◌≡◌, refl, Option, none, some, List, [], ◌∷◌, arith, length}
use tvc.Prelude.Result.{ok, >>=-eq-ok}
use tvc.Ground.Match.{
  Record, Tally, Delivery, fresh_tally, merge, merge_all, match_ground, match_equal, match_streams,
}

abbrev Joins : Option ℕ → Tally → Type 0
Joins none t = (t.ground_count ≡ 0) × (t.leading ≡ 0) × (t.interior ≡ 0)
Joins (some last) t =
    (last < t.vehicle_count) × (t.leading + t.interior + t.ground_count ≡ last + 1)

-- The records before the last match and that one are the lost and the matched ones.
abbrev IsBalanced : Tally → Type 0
IsBalanced t = Joins t.last_match t

-- A round takes one vehicle record, and the ground records that it takes are counted.
record Advanced (t t' : Tally) (ground ground' : List Record) : Type 0 where
  balanced : IsBalanced t'
  one_more : t'.vehicle_count ≡ t.vehicle_count + 1
  counted : t'.ground_count + length ground' ≡ t.ground_count + length ground

match_equal-Advanced :
    (v g : Record) (rest : List Record) (t t' : Tally) (ground' : List Record)
    → match_equal v g rest t ≡ ok (t', ground')
    → IsBalanced t
    → Advanced t t' (g ∷ rest) ground'
unfolding match_equal
match_equal-Advanced v g rest t t' ground' h b = ground arith

match_ground-Advanced :
    (v : Record) (ground : List Record) (t t' : Tally) (ground' : List Record)
    → match_ground v ground t ≡ ok (t', ground')
    → IsBalanced t
    → Advanced t t' ground ground'
unfolding match_ground
match_ground-Advanced v [] t t' ground' h b = ground arith
match_ground-Advanced v (g ∷ rest) t t' ground' h b =
    ground (arith, match_equal-Advanced v g rest t t' ground')

merge-Advanced :
    (s : ℕ) (v : Record) (ground : List Record) (t t' : Tally) (ground' : List Record)
    → merge s v ground t ≡ ok (t', ground')
    → IsBalanced t
    → Advanced t t' ground ground'
unfolding merge
merge-Advanced s v gs t t' gs' h b = ground (arith, match_ground-Advanced v gs t t' gs')

pub record IsAccount (t : Tally) (vehicle ground : List Record) (d : Delivery) : Type 0 where
  pub vehicle_all : d.vehicle_records ≡ t.vehicle_count + length vehicle
  pub ground_all : d.ground_records ≡ t.ground_count + length ground
  pub all_or_lost : d.ground_lost + d.ground_records ≡ d.vehicle_records

merge_all-IsAccount :
    (s : ℕ) (vehicle ground : List Record) (t : Tally) (d : Delivery)
    → merge_all s vehicle ground t ≡ ok d
    → IsBalanced t
    → IsAccount t vehicle ground d
unfolding merge_all
merge_all-IsAccount s [] [] t d h b = ground arith
merge_all-IsAccount s [] (g ∷ rest) t d h b = cc
merge_all-IsAccount s (v ∷ vehicle) gs t d h b =
    let ((t', gs'), e, h') = >>=-eq-ok (merge s v gs t) _ h in
    let a = merge-Advanced s v gs t t' gs' e b in
    let r = merge_all-IsAccount s vehicle gs' t' d h' a.balanced in
    record {
      vehicle_all = omega (arith, a.one_more, r.vehicle_all);
      ground_all = omega (arith, a.counted, r.ground_all);
      all_or_lost = r.all_or_lost;
    }

-- If the streams match, the report counts every record of both, and every vehicle record is
-- either in the ground recording or counted as lost.
pub match_streams-IsAccount :
    (s : ℕ) (vehicle ground : List Record) (d : Delivery)
    → match_streams s vehicle ground ≡ ok d
    → IsAccount fresh_tally vehicle ground d
unfolding match_streams
match_streams-IsAccount s vehicle ground d h =
    merge_all-IsAccount s vehicle ground fresh_tally d h (refl, refl, refl)
