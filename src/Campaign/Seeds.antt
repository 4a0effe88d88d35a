-- ===== src/Campaign/Seeds.antt =====
-- What is wrong with a manifest, the numbers in its texts, and seed_range (scripts/run_campaign.py).
use Prim.Native.Char.{code}
use Prim.Native.String.{String}
use tvc.Prelude.{
  ℕ, suc, ◌+◌, ◌-◌, ◌*◌, Bool, ◌&&◌, Option, none, some, List, [], ◌∷◌, leb, ◌==◌, if◌then◌else◌,
}
use tvc.Prelude.Result.{Result, ok, err, ◌>>◌, require}
use tvc.Sweep.Plan.{count_up}

pub data ManifestError : Type 0 where
  invalid_seeds seeds_outside invalid_delays full_matrix_required : ManifestError
  unexpected_case invalid_eligibility ineligible_case no_failure_reason invalid_clauses :
      ManifestError
  incomplete_digests invalid_metric_bits invalid_reasons wrong_reasons failed_clause : ManifestError
  missing_case wrong_aggregate : ManifestError

-- The code points of a text.
abbrev pub codes : String → List ℕ
codes String.[] = []
codes (String.◌∷◌ c s) = code c ∷ codes s

abbrev pub is_digit : ℕ → Bool
is_digit c = leb 48 c && leb c 57

-- [0-9]* after a number, and the text from the first `-` on.
abbrev pub digits : ℕ → List ℕ → Option (ℕ × Option (List ℕ))
digits n [] = some (n, none)
digits n (c ∷ cs) =
    let rest : Option (ℕ × Option (List ℕ)) = digits (n * 10 + (c - 48)) cs in
    if c == 45 then some (n, some cs) else if is_digit c then rest else none

-- [1-9][0-9]*
abbrev pub positive_number : List ℕ → Option (ℕ × Option (List ℕ))
positive_number [] = none
positive_number (c ∷ cs) = if leb 49 c && leb c 57 then digits (c - 48) cs else none

abbrev pub upper_seed : Option (List ℕ) → ℕ → Option ℕ
upper_seed none lo = some lo
upper_seed (some cs) lo = elim (positive_number cs) [
  | none ↦ none
  | some (hi, more) ↦ elim more [ none ↦ some hi | some _ ↦ none ]
]

abbrev pub seed_bounds : String → Option (ℕ × ℕ)
seed_bounds text = elim (positive_number (codes text)) [
  | none ↦ none
  | some (lo, more) ↦ elim (upper_seed more lo) [ none ↦ none | some hi ↦ some (lo, hi) ]
]

abbrev pub seeds_between : Option (ℕ × ℕ) → Result ManifestError (List ℕ)
seeds_between none = err invalid_seeds
seeds_between (some (lo, hi)) =
    require (leb 1 lo && leb lo hi && leb hi 200) seeds_outside >> ok (count_up lo (suc hi - lo))

unfoldable pub seed_range : Option String → Result ManifestError (List ℕ)
seed_range none = err invalid_seeds
seed_range (some text) = seeds_between (seed_bounds text)
