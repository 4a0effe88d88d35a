-- ===== src/Tests/CampaignRuns.antt =====
-- A manifest of one seed and two delays, both of whose cases passed.
use Prim.Native.String.{String}
use tvc.Prelude.{ℕ, ◌≡◌, refl, true, false, Option, some, List, [], ◌∷◌}
use tvc.Prelude.Result.{ok, err}
use tvc.Campaign.Seeds.{
  seed_range, wrong_reasons, unexpected_case, missing_case, seeds_outside, invalid_seeds,
}
use tvc.Campaign.Manifest.{
  Case, Manifest, validate_matrix, check_cases, judge_case, artifact_names, clause_names,
}
use tvc.Campaign.Manifest.Matrix.{IsComplete, validate_matrix-IsComplete}

abbrev with_value : {A : Type 0} → A → List String → List (String × A)
with_value a [] = []
with_value a (k ∷ ks) = (k, a) ∷ with_value a ks

abbrev some_digest : Option String
some_digest = some "00112233445566778899aabbccddeeff00112233445566778899aabbccddeeff"

abbrev case_ended : ℕ → ℕ → Case
case_ended delay reason = record {
  seed = some 3;
  delay_ticks = some delay;
  eligible = some true;
  has_errors = false;
  clauses = some (with_value (some true) clause_names);
  digests = with_value some_digest artifact_names;
  peak_theta_bits = some "0x3f9eb851eb851eb8";
  window_max_omega_bits = some "0x3f50624dd2f1a9fc";
  sim_reason = some 1;
  vehicle_reason = some reason;
}

abbrev manifest_of : String → List Case → Manifest
manifest_of seeds cases = record {
  seed_text = some seeds;
  delays = 0 ∷ 1 ∷ [];
  cases = cases;
  total_cases = some 2;
  passed_cases = some 2;
}

abbrev two_cases : Manifest
two_cases = manifest_of "3" (case_ended 1 1 ∷ case_ended 0 1 ∷ [])

two_cases-valid : validate_matrix false true two_cases ≡ ok tt
unfolding validate_matrix seed_range check_cases judge_case
two_cases-valid = refl

validate_matrix-IsComplete_example :
    (seeds : List ℕ) × (seed_range (some "3") ≡ ok seeds) × IsComplete true two_cases seeds
validate_matrix-IsComplete_example = validate_matrix-IsComplete false true two_cases two_cases-valid

wrong_reason :
    validate_matrix false true (manifest_of "3" (case_ended 1 2 ∷ case_ended 0 1 ∷ []))
    ≡ err wrong_reasons
unfolding validate_matrix seed_range check_cases judge_case
wrong_reason = refl

same_case_twice :
    validate_matrix false true (manifest_of "3" (case_ended 1 1 ∷ case_ended 1 1 ∷ []))
    ≡ err unexpected_case
unfolding validate_matrix seed_range check_cases judge_case
same_case_twice = refl

one_case_left_out :
    validate_matrix false true (manifest_of "3-4" (case_ended 1 1 ∷ case_ended 0 1 ∷ []))
    ≡ err missing_case
unfolding validate_matrix seed_range check_cases judge_case
one_case_left_out = refl

many_seeds : seed_range (some "1-201") ≡ err seeds_outside
unfolding seed_range
many_seeds = refl

not_a_number : seed_range (some "07") ≡ err invalid_seeds
unfolding seed_range
not_a_number = refl

two_dashes : seed_range (some "1-2-3") ≡ err invalid_seeds
unfolding seed_range
two_dashes = refl

three_seeds : seed_range (some "9-11") ≡ ok (9 ∷ 10 ∷ 11 ∷ [])
unfolding seed_range
three_seeds = refl
