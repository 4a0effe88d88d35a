-- ===== src/Campaign/Manifest.antt =====
-- The checks of validate_manifest in scripts/run_campaign.py on the matrix of cases, from
-- the parsed manifest on and without retained artifacts. A key that is missing, or whose value is
-- no natural number or no text as it should be, is `none`. The identities of the manifest are outside.
pub mod Judged
pub mod Cases
pub mod Matrix
use Prim.Native.Char.{code}
use Prim.Native.String.{String}
use text.Mathlib.Text.{◌==◌ as str_eq}
use tvc.Prelude.{
  ℕ, zero, suc, ◌+◌, ◌-◌, ◌*◌, Bool, true, false, not, ◌&&◌, ◌||◌, Option, none, some, List, [],
  ◌∷◌, ◌++◌, length, leb, ltb, ◌==◌, if◌then◌else◌,
}
use tvc.Prelude.Result.{Result, ok, err, ◌>>=◌, ◌>>◌, require}
use tvc.Sweep.Plan.{count_up}
use tvc.Campaign.Seeds.{
  ManifestError, codes, is_digit, seed_range, invalid_delays, full_matrix_required, unexpected_case,
  invalid_eligibility, ineligible_case, no_failure_reason, invalid_clauses, incomplete_digests,
  invalid_metric_bits, invalid_reasons, wrong_reasons, failed_clause, missing_case, wrong_aggregate,
}

-- A case of the manifest: its clauses are the keys and values of a dict, `none` for no dict, and so
-- are its digests.
pub record Case : Type 0 where
  pub seed : Option ℕ
  pub delay_ticks : Option ℕ
  pub eligible : Option Bool
  pub has_errors : Bool
  pub clauses : Option (List (String × Option Bool))
  pub digests : List (String × Option String)
  pub peak_theta_bits : Option String
  pub window_max_omega_bits : Option String
  pub sim_reason : Option ℕ
  pub vehicle_reason : Option ℕ

abbrev pub clause_names : List String
clause_names = "termination" ∷ "peak" ∷ "settled" ∷ "cadence" ∷ "finiteness" ∷ []

-- ARTIFACTS
abbrev pub artifact_names : List String
artifact_names = "inputs_tvcrec" ∷ "control_tvcrec" ∷ "sim_csv" ∷ "vehicle_csv" ∷ []

abbrev pub has_key : {A : Type 0} → String → List (String × A) → Bool
has_key key [] = false
has_key key ((k, v) ∷ rest) = str_eq k key || has_key key rest

abbrev pub among : String → List String → Bool
among key [] = false
among key (k ∷ ks) = str_eq k key || among key ks

abbrev pub keys_among : {A : Type 0} → List (String × A) → List String → Bool
keys_among [] names = true
keys_among ((k, v) ∷ rest) names = among k names && keys_among rest names

abbrev pub names_present : {A : Type 0} → List String → List (String × A) → Bool
names_present [] dict = true
names_present (n ∷ names) dict = has_key n dict && names_present names dict

-- set(dict) == set(names)
abbrev pub same_keys : {A : Type 0} → List (String × A) → List String → Bool
same_keys dict names = keys_among dict names && names_present names dict

abbrev pub is_hex : ℕ → Bool
is_hex c = is_digit c || (leb 97 c && leb c 102)

abbrev pub all_hex : List ℕ → Bool
all_hex [] = true
all_hex (c ∷ cs) = is_hex c && all_hex cs

-- [0-9a-f]{n}
abbrev pub hex_digits : ℕ → List ℕ → Bool
hex_digits n cs = length cs == n && all_hex cs

abbrev pub valid_digest : Option String → Bool
valid_digest none = false
valid_digest (some text) = hex_digits 64 (codes text)

abbrev pub after_0x : List ℕ → Bool
after_0x (a ∷ b ∷ cs) = a == 48 && b == 120 && hex_digits 16 cs
after_0x _ = false

abbrev pub is_bits : Option String → Bool
is_bits none = false
is_bits (some text) = after_0x (codes text)

abbrev pub digests_valid : List (String × Option String) → Bool
digests_valid [] = true
digests_valid ((k, v) ∷ rest) = valid_digest v && digests_valid rest

abbrev pub all_bools : List (String × Option Bool) → Bool
all_bools [] = true
all_bools ((k, none) ∷ rest) = false
all_bools ((k, some b) ∷ rest) = all_bools rest

-- all(clauses.values())
abbrev pub all_hold : List (String × Option Bool) → Bool
all_hold [] = true
all_hold ((k, none) ∷ rest) = false
all_hold ((k, some b) ∷ rest) = b && all_hold rest

abbrev pub is_reason : Option ℕ → Bool
is_reason none = false
is_reason (some r) = r == 1

abbrev pub is_there : Option ℕ → Bool
is_there none = false
is_there (some r) = true

-- The checks of an eligible case after those of its clauses, which say whether it succeeded.
abbrev pub judge_facts : Bool → Case → Bool → Result ManifestError Bool
judge_facts require_pass c success = do
  require (same_keys c.digests artifact_names && digests_valid c.digests) incomplete_digests
  require (is_bits c.peak_theta_bits && is_bits c.window_max_omega_bits) invalid_metric_bits
  require (is_there c.sim_reason && is_there c.vehicle_reason) invalid_reasons
  require (not success || (is_reason c.sim_reason && is_reason c.vehicle_reason)) wrong_reasons
  require (not require_pass || success) failed_clause
  ok success

abbrev pub judge_clauses :
    Bool → Case → Option (List (String × Option Bool)) → Result ManifestError Bool
judge_clauses require_pass c none = err invalid_clauses
judge_clauses require_pass c (some clauses) =
    require (same_keys clauses clause_names && all_bools clauses) invalid_clauses
    >> judge_facts require_pass c (all_hold clauses)

abbrev pub judge_eligible : Bool → Case → Option Bool → Result ManifestError Bool
judge_eligible require_pass c none = err invalid_eligibility
judge_eligible require_pass c (some false) = do
  require (not require_pass) ineligible_case
  require c.has_errors no_failure_reason
  ok false
judge_eligible require_pass c (some true) = judge_clauses require_pass c c.clauses

-- Whether the case passed.
unfoldable pub judge_case : Bool → Case → Result ManifestError Bool
judge_case require_pass c = judge_eligible require_pass c c.eligible

abbrev pub same_pair : ℕ × ℕ → ℕ × ℕ → Bool
same_pair (a, b) (c, d) = a == c && b == d

abbrev pub pair_in : ℕ × ℕ → List (ℕ × ℕ) → Bool
pair_in p [] = false
pair_in p (q ∷ qs) = same_pair p q || pair_in p qs

abbrev pub pairs_in : List (ℕ × ℕ) → List (ℕ × ℕ) → Bool
pairs_in [] qs = true
pairs_in (p ∷ ps) qs = pair_in p qs && pairs_in ps qs

abbrev pub pair_of : Option ℕ → Option ℕ → Option (ℕ × ℕ)
pair_of (some s) (some d) = some (s, d)
pair_of _ _ = none

-- The pair of a case that is expected and was not seen.
abbrev pub new_pair : List (ℕ × ℕ) → List (ℕ × ℕ) → Option (ℕ × ℕ) → Result ManifestError (ℕ × ℕ)
new_pair expected seen none = err unexpected_case
new_pair expected seen (some p) =
    require (pair_in p expected && not (pair_in p seen)) unexpected_case >> ok p

abbrev pub add_passed : Bool → ℕ → ℕ
add_passed true n = suc n
add_passed false n = n

-- The loop over the cases, with the pairs seen and the number passed.
unfoldable pub check_cases :
    Bool → List (ℕ × ℕ) → List (ℕ × ℕ) → ℕ → List Case → Result ManifestError (List (ℕ × ℕ) × ℕ)
check_cases require_pass expected seen passed [] = ok (seen, passed)
check_cases require_pass expected seen passed (c ∷ cases) = do
  p ← new_pair expected seen (pair_of c.seed c.delay_ticks)
  success ← judge_case require_pass c
  check_cases require_pass expected (p ∷ seen) (add_passed success passed) cases

abbrev pub with_delays : ℕ → List ℕ → List (ℕ × ℕ)
with_delays s [] = []
with_delays s (d ∷ delays) = (s, d) ∷ with_delays s delays

-- {(s,d) for s in seeds for d in delays}
abbrev pub matrix : List ℕ → List ℕ → List (ℕ × ℕ)
matrix [] delays = []
matrix (s ∷ seeds) delays = with_delays s delays ++ matrix seeds delays

-- delays == sorted(set(delays)), and each of them 0 or 1
abbrev pub good_delays : List ℕ → Bool
good_delays (d ∷ []) = leb d 1
good_delays (d ∷ e ∷ []) = d == 0 && e == 1
good_delays _ = false

abbrev pub same_numbers : List ℕ → List ℕ → Bool
same_numbers [] [] = true
same_numbers (m ∷ ms) (n ∷ ns) = m == n && same_numbers ms ns
same_numbers _ _ = false

abbrev pub is_full : List ℕ → List ℕ → Bool
is_full seeds delays = same_numbers seeds (count_up 1 200) && same_numbers delays (0 ∷ 1 ∷ [])

-- The matrix of a manifest and what it says of it, where the delays are natural numbers.
pub record Manifest : Type 0 where
  pub seed_text : Option String
  pub delays : List ℕ
  pub cases : List Case
  pub total_cases : Option ℕ
  pub passed_cases : Option ℕ

abbrev pub is_number : Option ℕ → ℕ → Bool
is_number none n = false
is_number (some m) n = m == n

unfoldable pub validate_matrix : Bool → Bool → Manifest → Result ManifestError Unit
validate_matrix require_full require_pass doc = do
  seeds ← seed_range doc.seed_text
  require (good_delays doc.delays) invalid_delays
  require (not require_full || is_full seeds doc.delays) full_matrix_required
  end ← check_cases require_pass (matrix seeds doc.delays) [] 0 doc.cases
  require (pairs_in (matrix seeds doc.delays) end.0 && pairs_in end.0 (matrix seeds doc.delays))
      missing_case
  require
      (is_number doc.total_cases (length (matrix seeds doc.delays))
        && is_number doc.passed_cases end.1)
      wrong_aggregate
