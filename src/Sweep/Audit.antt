-- ===== src/Sweep/Audit.antt =====
-- What the audit of a sweep asks of the record of a peer's CPU (peer_record_problem, peer_discipline and
-- session_peer_cpu of scripts/sweep.py).
pub mod Provenance
pub mod Session
use Prim.Native.String.{String}
use text.Mathlib.Text.{◌==◌ as str_eq}
use tvc.Float64.{of_int, le}
use tvc.Prelude.{
  ℕ, zero, suc, Bool, true, false, not, ◌&&◌, ◌||◌, Option, none, some, List, [], ◌∷◌, leb, ltb,
  ◌==◌, ◌^◌, if◌then◌else◌, is_some,
}
use tvc.Prelude.Int.{ℤ, pos, negsuc, eq_ℤ, ltb_ℤ}
use tvc.Prelude.Json.{
  Json, Items, Members, null, boolean, integer, float, string, array, object, no_item, item,
  no_member, member, value_at,
}
use tvc.Prelude.Result.{Result, ok, err, ◌>>=◌, ◌>>◌, require}

pub data RecordProblem : Type 0 where
  invalid_provenance not_verified invalid_siblings : RecordProblem

-- value == n, where True is 1, False is 0 and a float is compared if n is less than 2^53.
abbrev pub equals : Option Json → ℕ → Bool
equals (some (integer (pos m))) n = m == n
equals (some (boolean true)) n = n == 1
equals (some (boolean false)) n = n == 0
equals (some (float f)) n = ltb n (2 ^ 53) && le f (of_int 0 n) && le (of_int 0 n) f
equals _ n = false

abbrev pub is_singleton : Option Json → ℕ → Bool
is_singleton (some (array (item v no_item))) n = equals (some v) n
is_singleton _ n = false

abbrev pub is_string : Option Json → String → Bool
is_string (some (string s)) t = str_eq s t
is_string _ t = false

abbrev pub is_any_string : Option Json → Bool
is_any_string (some (string s)) = true
is_any_string _ = false

abbrev pub is_disabled_state : Json → Bool
is_disabled_state (object members) =
    is_any_string (value_at "name" members) && equals (value_at "disable" members) 1
is_disabled_state _ = false

abbrev pub all_states_disabled : Items → Bool
all_states_disabled no_item = true
all_states_disabled (item s rest) = is_disabled_state s && all_states_disabled rest

abbrev pub states_verified : Option Json → Bool
states_verified (some (array (item s rest))) = all_states_disabled (item s rest)
states_verified _ = false

abbrev pub all_integers : Items → Bool
all_integers no_item = true
all_integers (item (integer n) rest) = all_integers rest
all_integers (item _ rest) = false

abbrev pub are_integers : Option Json → Bool
are_integers (some (array items)) = all_integers items
are_integers _ = false

abbrev pub members_problem : ℕ → Members → Option RecordProblem
members_problem cpu r =
    if not (
      equals (value_at "cpu" r) cpu
      && is_singleton (value_at "affinity" r) cpu
      && is_string (value_at "policy" r) "SCHED_OTHER"
      && states_verified (value_at "idle_states" r))
    then some not_verified
    else if not (are_integers (value_at "siblings" r))
    then some invalid_siblings
    else none

-- peer_record_problem
unfoldable pub peer_record_problem : Json → Json → Option RecordProblem
peer_record_problem (integer (pos cpu)) (object r) = members_problem cpu r
peer_record_problem _ _ = some invalid_provenance

pub data DisciplineError : Type 0 where
  record_without_cpu undeclared_cpu shares_vehicle_core : DisciplineError
  record_problem : RecordProblem → DisciplineError

-- int(vehicle_cpu) in record['siblings']
abbrev pub in_items : ℕ → Items → Bool
in_items n no_item = false
in_items n (item v rest) = equals (some v) n || in_items n rest

abbrev pub in_siblings : ℕ → Json → Bool
in_siblings n (object members) = elim (value_at "siblings" members) [
  | some (array items) ↦ in_items n items
  | _ ↦ false
]
in_siblings n _ = false

abbrev pub shares_core : Json → Json → Option ℕ → Bool
shares_core cpu recorded none = false
shares_core cpu recorded (some vehicle) = equals (some cpu) vehicle || in_siblings vehicle recorded

abbrev pub is_null : Json → Bool
is_null null = true
is_null _ = false

abbrev pub verified : Option RecordProblem → Result DisciplineError Unit
verified none = ok tt
verified (some p) = err (record_problem p)

abbrev pub declared_discipline : Json → Json → Option ℕ → Result DisciplineError Unit
declared_discipline cpu recorded vehicle =
    verified (peer_record_problem cpu recorded)
    >> require (not (shares_core cpu recorded vehicle)) shares_vehicle_core

-- peer_discipline for the peer_cpu and the peer of a row, where the replay has the same.
unfoldable pub peer_discipline : Json → Json → ℤ → Option ℕ → Result DisciplineError Unit
peer_discipline null recorded cycles vehicle =
    require (is_null recorded) record_without_cpu
    >> require (ltb_ℤ cycles (pos 300000)) undeclared_cpu
peer_discipline cpu recorded cycles vehicle = declared_discipline cpu recorded vehicle

pub data SessionError : Type 0 where
  invalid_roster invalid_declaration inconsistent_declaration : SessionError
  row_problem : RecordProblem → SessionError

-- The rows of the roster, which are all objects.
abbrev pub row_members : Items → Option (List Members)
row_members no_item = some []
row_members (item (object members) rest) = elim (row_members rest) [
  | none ↦ none
  | some rows ↦ some (members ∷ rows)
]
row_members (item _ rest) = none

abbrev pub runs_of_roster : Json → Option (List Members)
runs_of_roster (object roster) = elim (value_at "runs" roster) [
  | some (array items) ↦ row_members items
  | _ ↦ none
]
runs_of_roster _ = none

-- [r for r in runs if r.get('level') == 'L8']
abbrev pub l8_rows : List Members → List Members
l8_rows [] = []
l8_rows (r ∷ rows) =
    let rest : List Members = l8_rows rows in
    if is_string (value_at "level" r) "L8" then r ∷ rest else rest

-- row.get('peer_cpu'): `none` for one that is neither None nor a natural number.
abbrev pub declared_cpu : Option Json → Option (Option ℕ)
declared_cpu none = some none
declared_cpu (some null) = some none
declared_cpu (some (integer (pos cpu))) = some (some cpu)
declared_cpu _ = none

abbrev pub declarations : List Members → Option (List (Option ℕ))
declarations [] = some []
declarations (r ∷ rows) = elim (declared_cpu (value_at "peer_cpu" r)) [
  | none ↦ none
  | some cpu ↦ elim (declarations rows) [ none ↦ none | some more ↦ some (cpu ∷ more) ]
]

abbrev pub same_cpu : Option ℕ → Option ℕ → Bool
same_cpu none none = true
same_cpu (some a) (some b) = a == b
same_cpu _ _ = false

-- len(declared) <= 1
abbrev pub all_same : Option ℕ → List (Option ℕ) → Bool
all_same cpu [] = true
all_same cpu (other ∷ more) = same_cpu cpu other && all_same cpu more

abbrev pub one_cpu : List (Option ℕ) → Result SessionError (Option ℕ)
one_cpu [] = ok none
one_cpu (cpu ∷ more) = if all_same cpu more then ok cpu else err inconsistent_declaration

-- row.get('peer')
abbrev pub peer_of : Members → Json
peer_of r = elim (value_at "peer" r) [ none ↦ null | some v ↦ v ]

abbrev pub record_ok : Option RecordProblem → Result SessionError Unit
record_ok none = ok tt
record_ok (some p) = err (row_problem p)

abbrev pub rows_verified : ℕ → List Members → Result SessionError Unit
rows_verified cpu [] = ok tt
rows_verified cpu (r ∷ rows) =
    record_ok (peer_record_problem (integer (pos cpu)) (peer_of r)) >> rows_verified cpu rows

abbrev pub some_of {ℓ} : {E A : Type ℓ} → E → Option A → Result E A
some_of e none = err e
some_of e (some a) = ok a

abbrev pub session_after : Option ℕ → List Members → Result SessionError (Option ℕ)
session_after none rows = ok none
session_after (some cpu) rows = rows_verified cpu rows >> ok (some cpu)

unfoldable pub session_peer_cpu : Json → Result SessionError (Option ℕ)
session_peer_cpu roster = do
  runs ← some_of invalid_roster (runs_of_roster roster)
  declared ← some_of invalid_declaration (declarations (l8_rows runs))
  cpu ← one_cpu declared
  session_after cpu (l8_rows runs)
