-- ===== src/Campaign/Manifest/Cases.antt =====
-- What the loop over the cases establishes (scripts/run_campaign.py validate_manifest).
use tvc.Prelude.{
  ℕ, suc, ◌+◌, ◌≡◌, refl, sym, subst, ap, ◌∙◌, Bool, true, false, not, ◌&&◌, ◌||◌, Option, none,
  some, List, [], ◌∷◌, if◌then◌else◌, both_true, ==_iff, ◌==◌, arith, All, ◌⊎◌, inl, inr,
}
use tvc.Prelude.Result.{ok, >>=-eq-ok, ok_injective}
use tvc.Prelude.Unique.{IsAbsent, IsUnique}
use tvc.Campaign.Manifest.{
  Case, judge_case, same_pair, pair_in, pair_of, new_pair, add_passed, check_cases,
}
use tvc.Campaign.Manifest.Judged.{
  unset, passes, IsJudged, require-ok, judge_case_lem, is_judged, found_passed,
}

abbrev pub pair_at : Case → Option (ℕ × ℕ)
pair_at c = pair_of c.seed c.delay_ticks

-- One case has the pair.
pub HasPair : ℕ × ℕ → List Case → Type 0
HasPair p [] = ⊥
HasPair p (c ∷ cases) = (pair_at c ≡ some p) ⊎ HasPair p cases

pub same_pair_iff : (p q : ℕ × ℕ) → same_pair p q ≡ true → p ≡ q
same_pair_iff (a, b) (c, d) h =
    let (l, r) = both_true (a == c) (b == d) h in
    ap (λ x. (x, b)) ((==_iff a c).0 l) ∙ ap (λ y. (c, y)) ((==_iff b d).0 r)

-- The pair of the next case, which is expected and was not seen.
new_pair_lem :
    (expected seen : List (ℕ × ℕ)) (o : Option (ℕ × ℕ)) (p : ℕ × ℕ)
    → new_pair expected seen o ≡ ok p
    → (o ≡ some p) × (pair_in p expected ≡ true) × (pair_in p seen ≡ false)
new_pair_lem expected seen none p h = cc
new_pair_lem expected seen (some q) p h =
    let (both, e) = require-ok (pair_in q expected && not (pair_in q seen)) _ _ _ h in
    let (inside, fresh) = both_true (pair_in q expected) (not (pair_in q seen)) both in
    subst (λ r. (◌≡◌ (some q) (some r)) × (pair_in r expected ≡ true) × (pair_in r seen ≡ false))
      (ok_injective q p e) (refl, inside, unset _ fresh)

unfoldable pub IsNew : List (ℕ × ℕ) → List (ℕ × ℕ) → Case → Type 0
IsNew expected seen c =
    (p : ℕ × ℕ) × (pair_at c ≡ some p) × (pair_in p expected ≡ true) × (pair_in p seen ≡ false)

neither : (a b : Bool) → (a || b) ≡ false → (a ≡ false) × (b ≡ false)
neither true b h = cc
neither false b h = (refl, h)

pub same_pair_refl : (p : ℕ × ℕ) → same_pair p p ≡ true
same_pair_refl (a, b) = ap (λ t. t && b == b) ((==_iff a a).1 refl) ∙ (==_iff b b).1 refl

-- Cases that are new after one with the pair `p` are new before it, and have other pairs.
later-IsNew :
    (expected seen : List (ℕ × ℕ)) (p : ℕ × ℕ) (cases : List Case)
    → All (IsNew expected (p ∷ seen)) cases
    → All (IsNew expected seen) cases × IsAbsent pair_at (some p) cases
unfolding IsNew
later-IsNew expected seen p [] h = (tt, tt)
later-IsNew expected seen p (c ∷ cases) ((q, at, inside, fresh), h) =
    let (other, unseen) = neither (same_pair q p) (pair_in q seen) fresh in
    let (news, absent) = later-IsNew expected seen p cases h in
    let same = same_pair_refl p in
    let one : some p ≡ pair_at c → some p ≡ some q = λ e. e ∙ at in
    (((q, at, inside, unseen), news), ((λ e. let both = one e in cc), absent))

-- All that the loop over the cases establishes: the cases are new and have different pairs, each
-- was judged, the number of those that passed was added, and what is seen in the end was seen before
-- or is the pair of a case.
unfoldable pub Gathered :
    Bool → List (ℕ × ℕ) → List (ℕ × ℕ) → ℕ → List Case → List (ℕ × ℕ) × ℕ → Type 0
Gathered require_pass expected seen passed cases end =
    All (IsNew expected seen) cases
    × IsUnique pair_at cases
    × All (IsJudged require_pass) cases
    × (end.1 ≡ passed + passes cases)
    × ((p : ℕ × ℕ) → pair_in p end.0 ≡ true → (pair_in p seen ≡ true) ⊎ HasPair p cases)

add_passed_lem :
    (success : Bool) (n m : ℕ) → add_passed success n + m ≡ n + (if success then suc m else m)
add_passed_lem true n m = omega arith
add_passed_lem false n m = refl

pub either : (a b : Bool) → (a || b) ≡ true → (a ≡ true) ⊎ (b ≡ true)
either true b h = inl refl
either false b h = inr h

-- What is seen after a case.
one_more :
    (p q : ℕ × ℕ) (seen : List (ℕ × ℕ)) (c : Case) (cases : List Case)
    → pair_at c ≡ some q
    → (pair_in p (q ∷ seen) ≡ true) ⊎ HasPair p cases
    → (pair_in p seen ≡ true) ⊎ HasPair p (c ∷ cases)
unfolding HasPair
one_more p q seen c cases at (inr later) = inr (inr later)
one_more p q seen c cases at (inl h) = elim (either (same_pair p q) (pair_in p seen) h) [
  | inl same ↦ inr (inl (at ∙ ap some (sym (same_pair_iff p q same))))
  | inr before ↦ inl before
]

pub check_cases_lem :
    (require_pass : Bool) (expected seen : List (ℕ × ℕ)) (passed : ℕ) (cases : List Case)
    (end : List (ℕ × ℕ) × ℕ)
    → check_cases require_pass expected seen passed cases ≡ ok end
    → Gathered require_pass expected seen passed cases end
unfolding Gathered check_cases IsNew
check_cases_lem require_pass expected seen passed [] end h =
    let same = ok_injective _ _ h in
    (
      tt,
      tt,
      tt,
      ap (λ r. r.1) (sym same) ∙ omega arith,
      (λ p. λ e. inl (subst (λ r. pair_in p r.0 ≡ true) (sym same) e)),
    )
check_cases_lem require_pass expected seen passed (c ∷ cases) end h =
    let (p, e1, h1) = >>=-eq-ok (new_pair expected seen (pair_at c)) _ h in
    let (success, e2, h2) = >>=-eq-ok (judge_case require_pass c) _ h1 in
    let (at, inside, fresh) = new_pair_lem expected seen (pair_at c) p e1 in
    let judged = judge_case_lem require_pass c success e2 in
    let (news, unique, all_judged, count, seen_after) =
      check_cases_lem require_pass expected (p ∷ seen) (add_passed success passed) cases end h2 in
    let (old_news, absent) = later-IsNew expected seen p cases news in
    (
      ((p, at, inside, fresh), old_news),
      (subst (λ o. IsAbsent pair_at o cases) (sym at) absent, unique),
      (is_judged require_pass c success judged, all_judged),
      count
          ∙ add_passed_lem success passed (passes cases)
          ∙ ap (λ b. passed + (if b then suc (passes cases) else passes cases))
              (found_passed require_pass c success judged),
      (λ q. λ e. one_more q p seen c cases at (seen_after q e)),
    )
