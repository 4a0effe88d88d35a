-- ===== src/Tests/SweepRuns.antt =====
-- A sweep of two levels, each run twice, and the machine that it asks for.
use Prim.Native.String.{String}
use tvc.Float64.{is_finite, lt}
use tvc.Prelude.{
  ℕ, arith, subst, sym, false, ◌≡◌, refl, true, Option, some, none, List, [], ◌∷◌, length,
}
use tvc.Prelude.Int.{pos}
use tvc.Prelude.Result.{Result, ok, err}
use tvc.Prelude.Unique.{IsUnique}
use tvc.Sweep.Levels.{PlanError, plan_levels}
use tvc.Sweep.Plan.{Args, PlannedRun, plan_runs, check_args, plans_from, check_peer, runs_of}
use tvc.Sweep.Peer.{Machine, PeerRecord, start_peer, peer_cpu_problem, record_json, is_in}
use tvc.Sweep.Audit.{
  peer_record_problem, peer_discipline, session_peer_cpu, runs_of_roster, l8_rows,
}
use tvc.Sweep.Audit.Provenance.{IsSymmetric, start_peer-discipline}
use tvc.Sweep.Audit.Session.{IsDeclared, session_peer_cpu-IsDeclared}
use tvc.Prelude.Json.{
  Json, Members, integer, string, array, object, no_item, item, no_member, member,
}
use tvc.Sweep.Plan.Distinct.{plan_runs-IsUnique}

abbrev two_levels : Args
two_levels = record {
  cycles = pos 1000;
  warmup = pos 5;
  repeat = pos 2;
  planned_rate = 0x407f400000000000;
  cpu = some (pos 3);
  only = "L4" ∷ "L8" ∷ [];
  phases = some (pos 400 ∷ []);
  interleave = true;
  asked_peer_cpu = none;
}

abbrev planned : Result PlanError (List PlannedRun × Option String) → List PlannedRun
planned (err e) = []
planned (ok (runs, stopped)) = runs

two_levels-planned : plan_runs two_levels ≡ ok (planned (plan_runs two_levels), none)
unfolding plan_runs check_args plan_levels plans_from check_peer runs_of is_finite lt
two_levels-planned = refl

four_runs : length (planned (plan_runs two_levels)) ≡ 4
unfolding plan_runs check_args plan_levels plans_from check_peer runs_of is_finite lt
four_runs = refl

plan_runs-IsUnique_example : IsUnique (λ r. PlannedRun.run_label r) (planned (plan_runs two_levels))
plan_runs-IsUnique_example =
    plan_runs-IsUnique two_levels (planned (plan_runs two_levels)) none two_levels-planned

-- Four CPUs without SMT, whose idle states are disabled.
abbrev four_cpus : Machine
four_cpus = record {
  online = 0 ∷ 1 ∷ 2 ∷ 3 ∷ [];
  isolated = 3 ∷ [];
  siblings = λ cpu. some (cpu ∷ []);
  idle_states = λ cpu. record { name = "C1"; disable = pos 1 } ∷ [];
}

other_way : (a b : ℕ) → is_in a (b ∷ []) ≡ false → is_in b (a ∷ []) ≡ false
other_way a b h = ground arith

four_cpus-IsSymmetric : IsSymmetric four_cpus
unfolding IsSymmetric
four_cpus-IsSymmetric a b of_a of_b is_a is_b h =
    let same_a : (a ∷ []) ≡ of_a = cc (is_a) in
    let same_b : (b ∷ []) ≡ of_b = cc (is_b) in
    subst (λ ns. is_in b ns ≡ false) same_a
      (other_way a b (subst (λ ns. is_in a ns ≡ false) (sym same_b) h))

abbrev peer_on_1 : PeerRecord
peer_on_1 = record {
  cpu = 1;
  siblings = 1 ∷ [];
  idle_states = record { name = "C1"; disable = pos 1 } ∷ [];
  affinity = 1 ∷ [];
  policy = "SCHED_OTHER";
}

peer_on_1_started : start_peer four_cpus (0 ∷ 1 ∷ 2 ∷ 3 ∷ []) 1 (some 3) (1 ∷ []) 0 ≡ ok peer_on_1
unfolding start_peer peer_cpu_problem
peer_on_1_started = refl

start_peer-discipline_example :
    (peer_record_problem (integer (pos 1)) (record_json peer_on_1) ≡ none)
    × (peer_discipline (integer (pos 1)) (record_json peer_on_1) (pos 300000) (some 3) ≡ ok tt)
start_peer-discipline_example =
    start_peer-discipline four_cpus (0 ∷ 1 ∷ 2 ∷ 3 ∷ []) 1 (some 3) (1 ∷ []) 0 peer_on_1
      (pos 300000) four_cpus-IsSymmetric peer_on_1_started

abbrev l8_row : Members
l8_row =
    member "level" (string "L8")
      (member "peer_cpu" (integer (pos 1)) (member "peer" (record_json peer_on_1) no_member))

abbrev l4_row : Members
l4_row = member "level" (string "L4") no_member

abbrev one_roster : Json
one_roster =
    object (member "runs" (array (item (object l4_row) (item (object l8_row) no_item))) no_member)

one_roster_declares : session_peer_cpu one_roster ≡ ok (some 1)
unfolding session_peer_cpu peer_record_problem
one_roster_declares = refl

session_peer_cpu-IsDeclared_example :
    (runs : List Members) × (runs_of_roster one_roster ≡ some runs) × IsDeclared 1 (l8_rows runs)
session_peer_cpu-IsDeclared_example = session_peer_cpu-IsDeclared one_roster 1 one_roster_declares
