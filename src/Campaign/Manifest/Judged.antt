-- ===== src/Campaign/Manifest/Judged.antt =====
-- What the checks of one case establish (scripts/run_campaign.py validate_manifest).
use Prim.Native.String.{String}
use tvc.Prelude.{
  ℕ, suc, ◌≡◌, refl, sym, ap, Bool, true, false, not, ◌&&◌, ◌||◌, Option, none, some, List, [], ◌∷◌,
  if◌then◌else◌, both_true, ==_iff,
}
use tvc.Prelude.Result.{Result, ok, require, ◌>>◌, ok_injective}
use tvc.Campaign.Seeds.{
  ManifestError, incomplete_digests, invalid_metric_bits, invalid_reasons, wrong_reasons,
  failed_clause, ineligible_case, no_failure_reason,
}
use tvc.Campaign.Manifest.{
  Case, judge_case, judge_eligible, judge_clauses, judge_facts, all_hold, is_reason, is_there,
  same_keys, clause_names, all_bools, artifact_names, digests_valid, is_bits,
}

abbrev passed_as : Option Bool → Option (List (String × Option Bool)) → Bool
passed_as (some true) (some clauses) = all_hold clauses
passed_as (some true) none = false
passed_as (some false) clauses = false
passed_as none clauses = false

-- The case passed: it is eligible and all its clauses hold.
abbrev pub is_passed : Case → Bool
is_passed c = passed_as c.eligible c.clauses

abbrev pub passes : List Case → ℕ
passes [] = 0
passes (c ∷ cases) = if is_passed c then suc (passes cases) else passes cases

-- A case that passed ended with the reason 1 on both sides, and where all are to pass, it passed.
pub IsJudged : Bool → Case → Type 0
IsJudged require_pass c =
    (require_pass ≡ true → is_passed c ≡ true)
    × (is_passed c ≡ true → (c.sim_reason ≡ some 1) × (c.vehicle_reason ≡ some 1))
    × (is_passed c ≡ false → c.eligible ≡ some false → c.has_errors ≡ true)

pub require-ok :
    {B : Type 0} (b : Bool) (e : ManifestError) (next : Result ManifestError B) (v : B)
    → (require b e >> next) ≡ ok v
    → (b ≡ true) × (next ≡ ok v)
require-ok true e next v h = (refl, h)
require-ok false e next v h = cc

is_reason_one : (o : Option ℕ) → is_reason o ≡ true → o ≡ some 1
is_reason_one none h = cc
is_reason_one (some r) h = ap some ((==_iff r 1).0 h)

implied : (a b : Bool) → (not a || b) ≡ true → a ≡ true → b ≡ true
implied true b h e = h
implied false b h e = cc

-- What the last checks find of a case, where `success` is whether its clauses hold.
judge_facts_lem :
    (require_pass : Bool) (c : Case) (success found : Bool)
    → judge_facts require_pass c success ≡ ok found
    → (found ≡ success)
      × (require_pass ≡ true → success ≡ true)
      × (success ≡ true → (c.sim_reason ≡ some 1) × (c.vehicle_reason ≡ some 1))
judge_facts_lem require_pass c success found h =
    let (t1, h1) =
      require-ok (same_keys c.digests artifact_names && digests_valid c.digests) incomplete_digests
        _ _ h in
    let (t2, h2) =
      require-ok (is_bits c.peak_theta_bits && is_bits c.window_max_omega_bits) invalid_metric_bits
        _ _ h1 in
    let (t3, h3) =
      require-ok (is_there c.sim_reason && is_there c.vehicle_reason) invalid_reasons _ _ h2 in
    let (reasons, h4) =
      require-ok (not success || (is_reason c.sim_reason && is_reason c.vehicle_reason))
        wrong_reasons _ _ h3 in
    let (wanted, h5) = require-ok (not require_pass || success) failed_clause _ _ h4 in
    let both : success ≡ true
        → (is_reason c.sim_reason ≡ true) × (is_reason c.vehicle_reason ≡ true) =
      λ e.
        both_true (is_reason c.sim_reason) (is_reason c.vehicle_reason)
          (implied success (is_reason c.sim_reason && is_reason c.vehicle_reason) reasons e) in
    (
      sym (ok_injective _ _ h5),
      implied require_pass success wanted,
      (λ e. (is_reason_one _ (both e).0, is_reason_one _ (both e).1)),
    )

-- What the checks find of a case, and what it has then.
unfoldable pub Judged : Bool → Case → Bool → Bool → Type 0
Judged require_pass c found passed =
    (found ≡ passed)
    × (require_pass ≡ true → passed ≡ true)
    × (passed ≡ true → (c.sim_reason ≡ some 1) × (c.vehicle_reason ≡ some 1))
    × (passed ≡ false → c.eligible ≡ some false → c.has_errors ≡ true)

judge_clauses_lem :
    (require_pass : Bool) (c : Case) (clauses : Option (List (String × Option Bool))) (found : Bool)
    → c.eligible ≡ some true
    → judge_clauses require_pass c clauses ≡ ok found
    → Judged require_pass c found (passed_as (some true) clauses)
unfolding Judged
judge_clauses_lem require_pass c none found e h = cc
judge_clauses_lem require_pass c (some clauses) found e h =
    let (well, h1) = require-ok (same_keys clauses clause_names && all_bools clauses) _ _ _ h in
    let (is, wanted, reasons) = judge_facts_lem require_pass c (all_hold clauses) found h1 in
    (is, wanted, reasons, (λ p q. cc))

absurd_pass : (b : Bool) → not b ≡ true → b ≡ true → false ≡ true
absurd_pass true n e = n
absurd_pass false n e = e

pub unset : (b : Bool) → not b ≡ true → b ≡ false
unset true h = sym h
unset false h = refl

judge_eligible_lem :
    (require_pass : Bool) (c : Case) (eligible : Option Bool) (found : Bool)
    → c.eligible ≡ eligible
    → judge_eligible require_pass c eligible ≡ ok found
    → Judged require_pass c found (passed_as eligible c.clauses)
unfolding Judged
judge_eligible_lem require_pass c none found e h = cc
judge_eligible_lem require_pass c (some false) found e h =
    let (waived, h1) = require-ok (not require_pass) ineligible_case _ _ h in
    let (reason, h2) = require-ok c.has_errors no_failure_reason (ok false) found h1 in
    (
      sym (ok_injective _ _ h2),
      (λ r. absurd_pass require_pass waived r),
      (λ p. cc),
      (λ p q. reason),
    )
judge_eligible_lem require_pass c (some true) found e h =
    judge_clauses_lem require_pass c c.clauses found e h

pub judge_case_lem :
    (require_pass : Bool) (c : Case) (found : Bool)
    → judge_case require_pass c ≡ ok found
    → Judged require_pass c found (is_passed c)
unfolding judge_case
judge_case_lem require_pass c found h = judge_eligible_lem require_pass c c.eligible found refl h

pub is_judged :
    (require_pass : Bool) (c : Case) (found : Bool)
    → Judged require_pass c found (is_passed c)
    → IsJudged require_pass c
unfolding Judged IsJudged
is_judged require_pass c found (same, wanted, reasons, errors) = (wanted, reasons, errors)

pub found_passed :
    (require_pass : Bool) (c : Case) (found : Bool)
    → Judged require_pass c found (is_passed c)
    → found ≡ is_passed c
unfolding Judged
found_passed require_pass c found judged = judged.0
