-- ===== src/Sweep/Audit/Provenance.antt =====
-- The audit of a sweep accepts the record of a peer that the runner has started (scripts/sweep.py).
use tvc.Prelude.{
  ℕ, ◌≡◌, refl, sym, ap, Bool, true, false, not, Option, none, some, List, [], ◌∷◌, ◌==◌,
  if◌then◌else◌, arith, both_true,
}
use tvc.Prelude.Int.{ℤ, pos, negsuc, eq_ℤ}
use tvc.Prelude.Json.{Json, integer}
use tvc.Prelude.Result.{Result, ok, err, >>=-eq-ok, ok_injective}
use tvc.Sweep.Peer.{
  Machine, IdleState, PeerProblem, PeerRecord, RunError, peer_cpu_problem, vehicle_problem,
  siblings_problem, states_problem, is_in, is_disabled, all_disabled, no_siblings, start_peer,
  peer_admitted, peer_provenance, launch_peer, record_json, numbers_json, states_json,
}
use tvc.Sweep.Audit.{
  peer_record_problem, peer_discipline, declared_discipline, all_states_disabled, all_integers,
  in_items, equals, states_verified,
}

-- What the kernel documents of SMT: of two CPUs with known siblings, each is a sibling of the other
-- or neither is.
unfoldable pub IsSymmetric : Machine → Type 0
IsSymmetric m =
    (a b : ℕ) (of_a of_b : List ℕ)
    → m.siblings a ≡ some of_a
    → m.siblings b ≡ some of_b
    → is_in a of_b ≡ false
    → is_in b of_a ≡ false

-- What peer_cpu_problem leaves when it finds no problem.
record IsAdmitted (m : Machine) (cpu vehicle : ℕ) (siblings : List ℕ) : Type 0 where
  pub apart : (cpu == vehicle) ≡ false
  pub known : m.siblings vehicle ≡ some siblings
  pub no_sibling : is_in cpu siblings ≡ false
  pub idle : states_problem (m.idle_states cpu) ≡ none

-- Two tests that precede a result without a problem.
past_two :
    (a b : Bool) (p q : PeerProblem) (rest : Option PeerProblem)
    → (if a then some p else if b then some q else rest) ≡ none
    → (a ≡ false) × (b ≡ false) × (rest ≡ none)
past_two true b p q rest h = cc
past_two false true p q rest h = cc
past_two false false p q rest h = (refl, refl, h)

past_one :
    (a : Bool) (p : PeerProblem) (rest : Option PeerProblem)
    → (if a then some p else rest) ≡ none
    → (a ≡ false) × (rest ≡ none)
past_one true p rest h = cc
past_one false p rest h = (refl, h)

past_siblings :
    (m : Machine) (cpu : ℕ) (known : Option (List ℕ))
    → siblings_problem m cpu known ≡ none
    → (siblings : List ℕ) × (known ≡ some siblings)
      × (is_in cpu siblings ≡ false)
      × (states_problem (m.idle_states cpu) ≡ none)
past_siblings m cpu none h = cc
past_siblings m cpu (some siblings) h =
    let (no_sibling, _, idle) = past_two (is_in cpu siblings) (is_in cpu m.isolated) _ _ _ h in
    (siblings, refl, no_sibling, idle)

past_vehicle :
    (m : Machine) (cpu : ℕ) (vehicle : Option ℕ)
    → vehicle_problem m cpu vehicle ≡ none
    → (v : ℕ) × (vehicle ≡ some v) × (siblings : List ℕ) × IsAdmitted m cpu v siblings
past_vehicle m cpu none h = cc
past_vehicle m cpu (some v) h =
    let (apart, rest) = past_one (cpu == v) _ _ h in
    let (siblings, known, no_sibling, idle) = past_siblings m cpu (m.siblings v) rest in
    (
      v,
      refl,
      siblings,
      record { apart = apart; known = known; no_sibling = no_sibling; idle = idle },
    )

peer_cpu_problem-IsAdmitted :
    (m : Machine) (affinity : List ℕ) (cpu : ℕ) (vehicle : Option ℕ)
    → peer_cpu_problem m affinity (pos cpu) vehicle ≡ none
    → (v : ℕ) × (vehicle ≡ some v) × (siblings : List ℕ) × IsAdmitted m cpu v siblings
unfolding peer_cpu_problem
peer_cpu_problem-IsAdmitted m affinity cpu vehicle h =
    let (_, _, rest) =
      past_two (not (is_in cpu m.online)) (not (is_in cpu affinity)) _ _
        (vehicle_problem m cpu vehicle) h in
    past_vehicle m cpu vehicle rest

-- The record as the audit reads it.
numbers_json-all_integers : (ns : List ℕ) → all_integers (numbers_json ns) ≡ true
numbers_json-all_integers [] = refl
numbers_json-all_integers (n ∷ ns) = numbers_json-all_integers ns

swapped : (a b : ℕ) → (a == b) ≡ (b == a)
swapped a b = ground arith

numbers_json-in_items : (v : ℕ) (ns : List ℕ) → in_items v (numbers_json ns) ≡ is_in v ns
numbers_json-in_items v [] = refl
numbers_json-in_items v (n ∷ ns) = cc (swapped n v, numbers_json-in_items v ns)

disabled_one : (z : ℤ) → eq_ℤ z (pos 1) ≡ true → equals (some (integer z)) 1 ≡ true
disabled_one (pos n) h = ground arith
disabled_one (negsuc n) h = ground arith

states_json-disabled :
    (states : List IdleState)
    → all_disabled states ≡ true
    → all_states_disabled (states_json states) ≡ true
states_json-disabled [] h = refl
states_json-disabled (s ∷ states) h =
    let (one, rest) = both_true (is_disabled s) (all_disabled states) h in
    rw (disabled_one s.disable one) (states_json-disabled states rest)

all_true : (b : Bool) (p : PeerProblem) → (if b then none else some p) ≡ none → b ≡ true
all_true true p h = refl
all_true false p h = cc

states_problem-verified :
    (states : List IdleState)
    → states_problem states ≡ none
    → states_verified (some (Json.array (states_json states))) ≡ true
states_problem-verified [] h = cc
states_problem-verified (s ∷ states) h = states_json-disabled (s ∷ states) (all_true _ _ h)

peer_admitted-none : (o : Option PeerProblem) (u : Unit {0}) → peer_admitted o ≡ ok u → o ≡ none
peer_admitted-none none u h = refl
peer_admitted-none (some p) u h = cc

provenance-siblings :
    (o : Option (List ℕ)) (ns : List ℕ)
    → elim o as (λ o. Result RunError (List ℕ)) [ none ↦ err no_siblings | some found ↦ ok found ]
      ≡ ok ns
    → o ≡ some ns
provenance-siblings none ns h = cc
provenance-siblings (some found) ns h = ap some (ok_injective found ns h)

abbrev recorded : Machine → ℕ → List ℕ → PeerRecord
recorded m cpu siblings = record {
  cpu = cpu;
  siblings = siblings;
  idle_states = m.idle_states cpu;
  affinity = cpu ∷ [];
  policy = "SCHED_OTHER";
}

same_number : (n : ℕ) → (n == n) ≡ true
same_number n = ground arith

-- The record meets peer_record_problem.
recorded-verified :
    (m : Machine) (cpu : ℕ) (siblings : List ℕ)
    → states_problem (m.idle_states cpu) ≡ none
    → peer_record_problem (integer (pos cpu)) (record_json (recorded m cpu siblings)) ≡ none
unfolding peer_record_problem
recorded-verified m cpu siblings idle =
    let states = states_problem-verified (m.idle_states cpu) idle in
    rw (same_number cpu) (rw states (rw (numbers_json-all_integers siblings) refl))

start_peer-recorded :
    (m : Machine) (affinity : List ℕ) (cpu : ℕ) (vehicle : Option ℕ) (shown : List ℕ) (policy : ℕ)
    (r : PeerRecord)
    → start_peer m affinity cpu vehicle shown policy ≡ ok r
    → (peer_cpu_problem m affinity (pos cpu) vehicle ≡ none)
      × (siblings : List ℕ) × (m.siblings cpu ≡ some siblings)
      × (r ≡ recorded m cpu siblings)
unfolding start_peer
start_peer-recorded m affinity cpu vehicle shown policy r h =
    let (u, fine, t1) =
      >>=-eq-ok (peer_admitted (peer_cpu_problem m affinity (pos cpu) vehicle)) _ h in
    let (siblings, found, t2) = >>=-eq-ok (peer_provenance m cpu) _ t1 in
    let (_, _, t3) = >>=-eq-ok (launch_peer cpu shown policy) _ t2 in
    (
      peer_admitted-none (peer_cpu_problem m affinity (pos cpu) vehicle) u fine,
      siblings,
      provenance-siblings (m.siblings cpu) siblings found,
      sym (ok_injective (recorded m cpu siblings) r t3),
    )

discipline_met :
    (m : Machine) (cpu v : ℕ) (siblings : List ℕ)
    → peer_record_problem (integer (pos cpu)) (record_json (recorded m cpu siblings)) ≡ none
    → (cpu == v) ≡ false
    → is_in v siblings ≡ false
    → declared_discipline (integer (pos cpu)) (record_json (recorded m cpu siblings)) (some v)
      ≡ ok tt
discipline_met m cpu v siblings met apart outside =
    rw met (rw apart (rw (numbers_json-in_items v siblings) (rw outside refl)))

-- If the runner starts a peer on its own CPU, on a machine whose SMT siblings are symmetric, the audit
-- accepts the record that it leaves: the record meets peer_record_problem, and peer_discipline for
-- the CPU of the vehicle, whatever the cycles.
pub start_peer-discipline :
    (m : Machine) (affinity : List ℕ) (cpu : ℕ) (vehicle : Option ℕ) (shown : List ℕ) (policy : ℕ)
    (r : PeerRecord) (cycles : ℤ)
    → IsSymmetric m
    → start_peer m affinity cpu vehicle shown policy ≡ ok r
    → (peer_record_problem (integer (pos cpu)) (record_json r) ≡ none)
      × (peer_discipline (integer (pos cpu)) (record_json r) cycles vehicle ≡ ok tt)
unfolding peer_discipline IsSymmetric
start_peer-discipline m affinity cpu vehicle shown policy r cycles symmetric h =
    let (fine, siblings, of_cpu, same) =
      start_peer-recorded m affinity cpu vehicle shown policy r h in
    let (v, is_v, of_vehicle, good) = peer_cpu_problem-IsAdmitted m affinity cpu vehicle fine in
    let outside = symmetric cpu v siblings of_vehicle of_cpu good.known good.no_sibling in
    let met = recorded-verified m cpu siblings good.idle in
    rw same (rw is_v (met, discipline_met m cpu v siblings met good.apart outside))
