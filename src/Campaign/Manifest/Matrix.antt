-- ===== src/Campaign/Manifest/Matrix.antt =====
-- What a valid matrix of cases is (scripts/run_campaign.py validate_manifest).
use tvc.Prelude.{
  not, ℕ, suc, ◌+◌, ◌*◌, ◌≡◌, refl, sym, subst, ap, ◌∙◌, Bool, true, false, ◌&&◌, ◌||◌, Option,
  none, some, List, [], ◌∷◌, ◌++◌, length, both_true, ==_iff, length-append, arith, All, ◌⊎◌, inl,
  inr,
}
use tvc.Prelude.Result.{ok, require, >>=-eq-ok}
use tvc.Prelude.Unique.{IsUnique}
use tvc.Campaign.Seeds.{
  ManifestError, seed_range, wrong_aggregate, missing_case, full_matrix_required, invalid_delays,
}
use tvc.Campaign.Manifest.{
  Case, Manifest, same_pair, pair_in, pairs_in, check_cases, with_delays, matrix, is_number,
  validate_matrix, is_full, good_delays,
}
use tvc.Campaign.Manifest.Judged.{passes, IsJudged, require-ok}
use tvc.Campaign.Manifest.Cases.{
  pair_at, HasPair, IsNew, Gathered, check_cases_lem, either, same_pair_iff, same_pair_refl,
}

pub IsIn : ℕ → List ℕ → Type 0
IsIn n [] = ⊥
IsIn n (m ∷ ms) = (n ≡ m) ⊎ IsIn n ms

-- The case has a seed and a delay of the matrix.
pub IsExpected : List ℕ → List ℕ → Case → Type 0
IsExpected seeds delays c = (s d : ℕ) × (pair_at c ≡ some (s, d)) × IsIn s seeds × IsIn d delays

-- One case for each pair of the matrix, each judged, and the two numbers of the manifest.
pub IsComplete : Bool → Manifest → List ℕ → Type 0
IsComplete require_pass doc seeds =
    IsUnique pair_at doc.cases
    × All (IsExpected seeds doc.delays) doc.cases
    × ((s d : ℕ) → IsIn s seeds → IsIn d doc.delays → HasPair (s, d) doc.cases)
    × All (IsJudged require_pass) doc.cases
    × (doc.total_cases ≡ some (length seeds * length doc.delays))
    × (doc.passed_cases ≡ some (passes doc.cases))

number_there : (o : Option ℕ) (n : ℕ) → is_number o n ≡ true → o ≡ some n
number_there none n h = cc
number_there (some m) n h = ap some ((==_iff m n).0 h)

right_true : (a b : Bool) → b ≡ true → (a || b) ≡ true
right_true true b h = refl
right_true false b h = h

left_true : (a b : Bool) → a ≡ true → (a || b) ≡ true
left_true true b h = refl
left_true false b h = cc

in_append :
    (p : ℕ × ℕ) (ps qs : List (ℕ × ℕ))
    → pair_in p (ps ++ qs) ≡ true
    → (pair_in p ps ≡ true) ⊎ (pair_in p qs ≡ true)
in_append p [] qs h = inr h
in_append p (r ∷ ps) qs h = elim (either (same_pair p r) (pair_in p (ps ++ qs)) h) [
  | inl same ↦ inl (left_true _ (pair_in p ps) same)
  | inr more ↦ elim (in_append p ps qs more) [
    | inl front ↦ inl (right_true (same_pair p r) _ front)
    | inr back ↦ inr back
  ]
]

in_front : (p : ℕ × ℕ) (ps qs : List (ℕ × ℕ)) → pair_in p ps ≡ true → pair_in p (ps ++ qs) ≡ true
in_front p [] qs h = cc
in_front p (r ∷ ps) qs h = elim (either (same_pair p r) (pair_in p ps) h) [
  | inl same ↦ left_true _ (pair_in p (ps ++ qs)) same
  | inr more ↦ right_true (same_pair p r) _ (in_front p ps qs more)
]

in_back : (p : ℕ × ℕ) (ps qs : List (ℕ × ℕ)) → pair_in p qs ≡ true → pair_in p (ps ++ qs) ≡ true
in_back p [] qs h = h
in_back p (r ∷ ps) qs h = right_true (same_pair p r) _ (in_back p ps qs h)

row_in : (s d : ℕ) (delays : List ℕ) → IsIn d delays → pair_in (s, d) (with_delays s delays) ≡ true
unfolding IsIn
row_in s d [] h = elim h [ ]
row_in s d (e ∷ delays) (inl same) =
    left_true _ _ (subst (λ x. same_pair (s, d) (s, x) ≡ true) same (same_pair_refl (s, d)))
row_in s d (e ∷ delays) (inr more) = right_true _ _ (row_in s d delays more)

matrix_in :
    (s d : ℕ) (seeds delays : List ℕ)
    → IsIn s seeds
    → IsIn d delays
    → pair_in (s, d) (matrix seeds delays) ≡ true
unfolding IsIn
matrix_in s d [] delays h g = elim h [ ]
matrix_in s d (t ∷ seeds) delays (inl same) h =
    in_front (s, d) (with_delays t delays) (matrix seeds delays)
      (subst (λ x. pair_in (s, d) (with_delays x delays) ≡ true) same (row_in s d delays h))
matrix_in s d (t ∷ seeds) delays (inr more) h =
    in_back (s, d) (with_delays t delays) (matrix seeds delays) (matrix_in s d seeds delays more h)

row_from :
    (p : ℕ × ℕ) (s : ℕ) (delays : List ℕ)
    → pair_in p (with_delays s delays) ≡ true
    → (p.0 ≡ s) × IsIn p.1 delays
unfolding IsIn
row_from p s [] h = cc
row_from p s (d ∷ delays) h = elim (either (same_pair p (s, d)) _ h) [
  | inl same ↦ let e = same_pair_iff p (s, d) same in (ap (λ q. q.0) e, inl (ap (λ q. q.1) e))
  | inr more ↦ let (is, there) = row_from p s delays more in (is, inr there)
]

matrix_from :
    (p : ℕ × ℕ) (seeds delays : List ℕ)
    → pair_in p (matrix seeds delays) ≡ true
    → IsIn p.0 seeds × IsIn p.1 delays
unfolding IsIn
matrix_from p [] delays h = cc
matrix_from p (s ∷ seeds) delays h = elim (in_append p (with_delays s delays) _ h) [
  | inl row ↦ let (is, there) = row_from p s delays row in (inl is, there)
  | inr more ↦ let (is, there) = matrix_from p seeds delays more in (inr is, there)
]

pairs_in_lem :
    (p : ℕ × ℕ) (ps qs : List (ℕ × ℕ))
    → pairs_in ps qs ≡ true
    → pair_in p ps ≡ true
    → pair_in p qs ≡ true
pairs_in_lem p [] qs h i = cc
pairs_in_lem p (r ∷ ps) qs h i =
    let (first, rest) = both_true (pair_in r qs) (pairs_in ps qs) h in
    elim (either (same_pair p r) (pair_in p ps) i) [
      | inl same ↦ subst (λ q. pair_in q qs ≡ true) (sym (same_pair_iff p r same)) first
      | inr more ↦ pairs_in_lem p ps qs rest more
    ]

length-with_delays : (s : ℕ) (delays : List ℕ) → length (with_delays s delays) ≡ length delays
length-with_delays s [] = refl
length-with_delays s (d ∷ delays) = ap suc (length-with_delays s delays)

one_row : (m n : ℕ) → suc m * n ≡ n + m * n
one_row m n = grind arith

length-matrix :
    (seeds delays : List ℕ) → length (matrix seeds delays) ≡ length seeds * length delays
length-matrix [] delays = omega arith
length-matrix (s ∷ seeds) delays =
    length-append (with_delays s delays) (matrix seeds delays)
    ∙ ap (λ n. n + length (matrix seeds delays)) (length-with_delays s delays)
    ∙ ap (λ n. length delays + n) (length-matrix seeds delays)
    ∙ sym (one_row (length seeds) (length delays))

one-IsExpected :
    (seeds delays : List ℕ) (c : Case)
    → IsNew (matrix seeds delays) [] c
    → IsExpected seeds delays c
unfolding IsNew IsExpected
one-IsExpected seeds delays c (p, at, inside, fresh) =
    let (s, d) = matrix_from p seeds delays inside in (p.0, p.1, at, s, d)

All-IsExpected :
    (seeds delays : List ℕ) (cases : List Case)
    → All (IsNew (matrix seeds delays) []) cases
    → All (IsExpected seeds delays) cases
All-IsExpected seeds delays [] h = tt
All-IsExpected seeds delays (c ∷ cases) (one, h) =
    (one-IsExpected seeds delays c one, All-IsExpected seeds delays cases h)

-- A pair that is seen in the end is the pair of a case.
seen_at_end :
    (p : ℕ × ℕ) (cases : List Case) → (pair_in p [] ≡ true) ⊎ HasPair p cases → HasPair p cases
seen_at_end p cases (inl h) = cc
seen_at_end p cases (inr h) = h

require-true : (b : Bool) (e : ManifestError) → require b e ≡ ok tt → b ≡ true
require-true true e h = refl
require-true false e h = cc

-- If the matrix of a manifest is found valid, its seeds are a range, no two cases have one seed and
-- delay, each case has a pair of the matrix, each pair of the matrix has a case, each case that
-- passed ended with the reason 1 on both sides, one that is ineligible has an error, all cases
-- passed if that is required, and the two numbers of the manifest are the size of the matrix and
-- the number of cases that passed.
pub validate_matrix-IsComplete :
    (require_full require_pass : Bool) (doc : Manifest)
    → validate_matrix require_full require_pass doc ≡ ok tt
    → (seeds : List ℕ) × (seed_range doc.seed_text ≡ ok seeds) × IsComplete require_pass doc seeds
unfolding validate_matrix Gathered IsComplete
validate_matrix-IsComplete require_full require_pass doc h =
    let (seeds, e0, h0) = >>=-eq-ok (seed_range doc.seed_text) _ h in
    let (t1, h1) = require-ok (good_delays doc.delays) invalid_delays _ _ h0 in
    let (t2, h2) =
      require-ok (not require_full || is_full seeds doc.delays) full_matrix_required _ _ h1 in
    let expected : List (ℕ × ℕ) = matrix seeds doc.delays in
    let (end, e3, h3) = >>=-eq-ok (check_cases require_pass expected [] 0 doc.cases) _ h2 in
    let (whole, h4) =
      require-ok (pairs_in expected end.0 && pairs_in end.0 expected) missing_case _ _ h3 in
    let (total, passed) =
      both_true (is_number doc.total_cases (length expected)) (is_number doc.passed_cases end.1)
        (require-true _ wrong_aggregate h4) in
    let (news, unique, judged, count, after) =
      check_cases_lem require_pass expected [] 0 doc.cases end e3 in
    let (all_seen, none_else) =
      both_true (pairs_in expected end.0) (pairs_in end.0 expected) whole in
    (
      seeds,
      e0,
      (
        unique,
        All-IsExpected seeds doc.delays doc.cases news,
        (λ s d si di.
            seen_at_end (s, d) doc.cases
              (after (s, d)
                (pairs_in_lem (s, d) expected end.0 all_seen
                  (matrix_in s d seeds doc.delays si di)))),
        judged,
        number_there doc.total_cases _ total ∙ ap some (length-matrix seeds doc.delays),
        number_there doc.passed_cases _ passed ∙ ap some (count ∙ omega arith),
      ),
    )
