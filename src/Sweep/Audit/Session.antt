-- ===== src/Sweep/Audit/Session.antt =====
-- What a session that declares a peer CPU has in its roster (scripts/sweep.py session_peer_cpu).
use tvc.Prelude.{
  ℕ, ◌≡◌, refl, sym, subst, ap, ◌∙◌, Bool, true, false, Option, none, some, List, [], ◌∷◌,
  if◌then◌else◌, both_true, ==_iff,
}
use tvc.Prelude.Int.{pos, negsuc}
use tvc.Prelude.Json.{Json, Members, integer, value_at}
use tvc.Prelude.Result.{ok, err, >>=-eq-ok, ok_injective}
use tvc.Sweep.Audit.{
  RecordProblem, peer_record_problem, SessionError, session_peer_cpu, session_after, some_of,
  invalid_roster, invalid_declaration, runs_of_roster, declarations, l8_rows, one_cpu,
  rows_verified, declared_cpu, same_cpu, all_same, peer_of, record_ok,
}

-- Every L8 row declares the CPU and has a record that verifies it.
pub IsDeclared : ℕ → List Members → Type 0
IsDeclared cpu [] = Unit
IsDeclared cpu (r ∷ rows) =
    (value_at "peer_cpu" r ≡ some (integer (pos cpu)))
    × (peer_record_problem (integer (pos cpu)) (peer_of r) ≡ none)
    × IsDeclared cpu rows

-- The declarations of the rows are all `cpu`.
IsSame : ℕ → List (Option ℕ) → Type 0
IsSame cpu [] = Unit
IsSame cpu (d ∷ more) = (d ≡ some cpu) × IsSame cpu more

same_cpu_iff : (cpu : ℕ) (o : Option ℕ) → same_cpu (some cpu) o ≡ true → o ≡ some cpu
same_cpu_iff cpu none h = cc
same_cpu_iff cpu (some n) h = ap some (sym ((==_iff cpu n).0 h))

all_same-IsSame :
    (cpu : ℕ) (more : List (Option ℕ)) → all_same (some cpu) more ≡ true → IsSame cpu more
unfolding IsSame
all_same-IsSame cpu [] h = tt
all_same-IsSame cpu (d ∷ more) h =
    let (one, rest) = both_true (same_cpu (some cpu) d) (all_same (some cpu) more) h in
    (same_cpu_iff cpu d one, all_same-IsSame cpu more rest)

if_ok :
    (b : Bool) (a c : Option ℕ) (e : SessionError)
    → (if b then ok a else err e) ≡ ok c
    → (b ≡ true) × (a ≡ c)
if_ok true a c e h = (refl, ok_injective a c h)
if_ok false a c e h = cc

one_cpu-IsSame :
    (cpu : ℕ) (declared : List (Option ℕ)) → one_cpu declared ≡ ok (some cpu) → IsSame cpu declared
unfolding IsSame
one_cpu-IsSame cpu [] h = tt
one_cpu-IsSame cpu (d ∷ more) h =
    let (same, is_cpu) = if_ok (all_same d more) d (some cpu) _ h in
    (is_cpu, all_same-IsSame cpu more (subst (λ o. all_same o more ≡ true) is_cpu same))

declared_cpu-some :
    (o : Option Json) (cpu : ℕ) → declared_cpu o ≡ some (some cpu) → o ≡ some (integer (pos cpu))
declared_cpu-some none cpu h = cc
declared_cpu-some (some Json.null) cpu h = cc
declared_cpu-some (some (Json.boolean b)) cpu h = cc
declared_cpu-some (some (Json.integer (pos n))) cpu h = cc
declared_cpu-some (some (Json.integer (negsuc n))) cpu h = cc
declared_cpu-some (some (Json.float f)) cpu h = cc
declared_cpu-some (some (Json.string t)) cpu h = cc
declared_cpu-some (some (Json.array items)) cpu h = cc
declared_cpu-some (some (Json.object members)) cpu h = cc

-- The declarations of the rows after the first.
more_declared :
    (cpu : Option (Option ℕ)) (more : Option (List (Option ℕ))) (declared : List (Option ℕ))
    → elim cpu as (λ o. Option (List (Option ℕ))) [
      | none ↦ none
      | some c ↦ elim more as (λ o. Option (List (Option ℕ))) [
        | none ↦ none
        | some ds ↦ some (c ∷ ds)
      ]
    ]
      ≡ some declared
    → (c : Option ℕ) × (ds : List (Option ℕ)) × (cpu ≡ some c)
      × (more ≡ some ds)
      × (declared ≡ c ∷ ds)
more_declared none more declared h = cc
more_declared (some c) none declared h = cc
more_declared (some c) (some ds) declared h = (c, ds, refl, refl, cc)

record_ok-none : (o : Option RecordProblem) (u : Unit {0}) → record_ok o ≡ ok u → o ≡ none
record_ok-none none u h = refl
record_ok-none (some p) u h = cc

every_row :
    (cpu : ℕ) (rows : List Members) (declared : List (Option ℕ)) (u : Unit {0})
    → declarations rows ≡ some declared
    → IsSame cpu declared
    → rows_verified cpu rows ≡ ok u
    → IsDeclared cpu rows
unfolding IsSame IsDeclared
every_row cpu [] declared u d s v = tt
every_row cpu (r ∷ rows) declared u d s v =
    let (c, ds, first, more, whole) =
      more_declared (declared_cpu (value_at "peer_cpu" r)) (declarations rows) declared d in
    let (is_cpu, rest) = subst (IsSame cpu) whole s in
    let (w, fine, later) =
      >>=-eq-ok (record_ok (peer_record_problem (integer (pos cpu)) (peer_of r))) _ v in
    (
      declared_cpu-some (value_at "peer_cpu" r) cpu (first ∙ ap some is_cpu),
      record_ok-none _ w fine,
      every_row cpu rows ds u more rest later,
    )

some_of-some :
    {A : Type 0} (e : SessionError) (o : Option A) (a : A) → some_of e o ≡ ok a → o ≡ some a
some_of-some e none a h = cc
some_of-some e (some b) a h = ap some (ok_injective b a h)

session_end :
    (one : Option ℕ) (cpu : ℕ) (rows : List Members)
    → session_after one rows ≡ ok (some cpu)
    → (one ≡ some cpu) × (u : Unit {0}) × (rows_verified cpu rows ≡ ok u)
session_end none cpu rows h = cc
session_end (some n) cpu rows h =
    let (u, verified, last) = >>=-eq-ok (rows_verified n rows) _ h in
    let same : ◌≡◌ {A = Option ℕ} (some n) (some cpu) = ok_injective (some n) (some cpu) last in
    (same, u, subst (λ m. rows_verified m rows ≡ ok u) (cc) verified)

-- If a session declares a peer CPU, its roster has runs, and every L8 row among them declares that CPU
-- as an integer, with a record that meets peer_record_problem for it.
pub session_peer_cpu-IsDeclared :
    (roster : Json) (cpu : ℕ)
    → session_peer_cpu roster ≡ ok (some cpu)
    → (runs : List Members) × (runs_of_roster roster ≡ some runs) × IsDeclared cpu (l8_rows runs)
unfolding session_peer_cpu
session_peer_cpu-IsDeclared roster cpu h =
    let (runs, found, t1) = >>=-eq-ok (some_of invalid_roster (runs_of_roster roster)) _ h in
    let (declared, all, t2) =
      >>=-eq-ok (some_of invalid_declaration (declarations (l8_rows runs))) _ t1 in
    let (one, same, t3) = >>=-eq-ok (one_cpu declared) _ t2 in
    let (is_cpu, u, verified) = session_end one cpu (l8_rows runs) t3 in
    (
      runs,
      some_of-some _ _ runs found,
      every_row cpu (l8_rows runs) declared u (some_of-some _ _ declared all)
          (one_cpu-IsSame cpu declared (same ∙ ap ok is_cpu)) verified,
    )
