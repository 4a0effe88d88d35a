-- ===== src/Sweep/Peer.antt =====
-- The CPU of the simulator peer in scripts/sweep.py: what the runner asks of the machine before it
-- starts the peer (peer_cpu_problem, peer_provenance, launch_peer in run_row). A set of CPUs is the
-- list of its numbers in order.
use Prim.Native.String.{String}
use tvc.Prelude.{
  ℕ, Bool, true, false, not, ◌&&◌, ◌||◌, Option, none, some, List, [], ◌∷◌, ◌==◌, if◌then◌else◌,
}
use tvc.Prelude.Int.{ℤ, pos, negsuc, eq_ℤ}
use tvc.Prelude.Json.{Json, Items, integer, string, array, object, no_item, item, no_member, member}
use tvc.Prelude.Result.{Result, ok, err, ◌>>=◌, ◌>>◌, require}

-- A state of cpuidle: its name, and whether it is disabled.
pub record IdleState : Type 0 where
  pub name : String
  pub disable : ℤ

-- What sysfs shows: the CPUs, the SMT siblings of each where they can be read, and the idle states.
pub record Machine : Type 0 where
  pub online : List ℕ
  pub isolated : List ℕ
  pub siblings : ℕ → Option (List ℕ)
  pub idle_states : ℕ → List IdleState

pub data PeerProblem : Type 0 where
  not_a_cpu not_online outside_affinity no_vehicle_cpu vehicle_cpu_itself unknown_siblings :
      PeerProblem
  smt_sibling isolated_cpu no_idle_states idle_state_enabled : PeerProblem

abbrev pub is_in : ℕ → List ℕ → Bool
is_in n [] = false
is_in n (m ∷ ms) = n == m || is_in n ms

abbrev pub is_disabled : IdleState → Bool
is_disabled s = eq_ℤ s.disable (pos 1)

abbrev pub all_disabled : List IdleState → Bool
all_disabled [] = true
all_disabled (s ∷ states) = is_disabled s && all_disabled states

abbrev pub states_problem : List IdleState → Option PeerProblem
states_problem [] = some no_idle_states
states_problem (s ∷ states) = if all_disabled (s ∷ states) then none else some idle_state_enabled

abbrev pub siblings_problem : Machine → ℕ → Option (List ℕ) → Option PeerProblem
siblings_problem m cpu none = some unknown_siblings
siblings_problem m cpu (some siblings) =
    if is_in cpu siblings
    then some smt_sibling
    else if is_in cpu m.isolated
    then some isolated_cpu
    else states_problem (m.idle_states cpu)

abbrev pub vehicle_problem : Machine → ℕ → Option ℕ → Option PeerProblem
vehicle_problem m cpu none = some no_vehicle_cpu
vehicle_problem m cpu (some vehicle) =
    if cpu == vehicle then some vehicle_cpu_itself else siblings_problem m cpu (m.siblings vehicle)

-- peer_cpu_problem, for a CPU that is an int.
unfoldable pub peer_cpu_problem : Machine → List ℕ → ℤ → Option ℕ → Option PeerProblem
peer_cpu_problem m affinity (negsuc n) vehicle = some not_a_cpu
peer_cpu_problem m affinity (pos cpu) vehicle =
    if not (is_in cpu m.online)
    then some not_online
    else if not (is_in cpu affinity)
    then some outside_affinity
    else vehicle_problem m cpu vehicle

-- plan['peer']: the provenance with what launch_peer verified.
pub record PeerRecord : Type 0 where
  pub cpu : ℕ
  pub siblings : List ℕ
  pub idle_states : List IdleState
  pub affinity : List ℕ
  pub policy : String

pub data RunError : Type 0 where
  peer_problem : PeerProblem → RunError
  no_siblings not_established : RunError

-- launch_peer: the affinity and the policy that the child shows, where 0 is SCHED_OTHER.
abbrev pub launch_peer : ℕ → List ℕ → ℕ → Result RunError Unit
launch_peer cpu [] policy = err not_established
launch_peer cpu (a ∷ []) policy = require (a == cpu && policy == 0) not_established
launch_peer cpu (a ∷ (b ∷ more)) policy = err not_established

abbrev pub peer_provenance : Machine → ℕ → Result RunError (List ℕ)
peer_provenance m cpu = elim (m.siblings cpu) [ none ↦ err no_siblings | some ns ↦ ok ns ]

abbrev pub peer_admitted : Option PeerProblem → Result RunError Unit
peer_admitted none = ok tt
peer_admitted (some p) = err (peer_problem p)

-- The part of run_row that starts a peer on its own CPU; `shown` and `policy` are what the child
-- shows.
unfoldable pub start_peer :
    Machine → List ℕ → ℕ → Option ℕ → List ℕ → ℕ → Result RunError PeerRecord
start_peer m affinity cpu vehicle shown policy = do
  peer_admitted (peer_cpu_problem m affinity (pos cpu) vehicle)
  siblings ← peer_provenance m cpu
  launch_peer cpu shown policy
  ok (record {
    cpu = cpu;
    siblings = siblings;
    idle_states = m.idle_states cpu;
    affinity = cpu ∷ [];
    policy = "SCHED_OTHER";
  })

-- The record as json.dumps writes it.
abbrev pub numbers_json : List ℕ → Items
numbers_json [] = no_item
numbers_json (n ∷ ns) = item (integer (pos n)) (numbers_json ns)

abbrev pub states_json : List IdleState → Items
states_json [] = no_item
states_json (s ∷ states) =
    item (object (member "name" (string s.name) (member "disable" (integer s.disable) no_member)))
      (states_json states)

abbrev pub record_json : PeerRecord → Json
record_json r = object (
    member "cpu" (integer (pos r.cpu)) (
      member "siblings" (array (numbers_json r.siblings)) (
        member "idle_states" (array (states_json r.idle_states)) (
          member "affinity" (array (numbers_json r.affinity))
            (member "policy" (string r.policy) no_member)))))
