-- ===== src/Evidence/Reconcile/Checks.antt =====
-- What the checks of a lockstep run say of the evidence, each where it appends nothing (scripts/reconcile.py).
use tvc.Prelude.{
  ap, ℕ, zero, suc, ◌+◌, ◌*◌, ◌%◌, ◌^◌, ◌<◌, ◌≡◌, refl, sym, ◌∙◌, Bool, true, false, not, ◌&&◌,
  Option, none, some, List, [], ◌∷◌, ◌++◌, length, ◌==◌, arith, both_true, ==_iff,
}
use tvc.Sim.Rng.{StreamName, golden, stream_state}
use tvc.Prelude.Int.{ℤ, pos, negsuc, eq_ℤ, ltb_ℤ}
use tvc.Prelude.Trail.{clean, fault_if, fault_if-clean, then_check-clean}
use tvc.Evidence.Counters.{Problem, Counts, value, sender_errors, receiver_errors}
use tvc.Evidence.Walk.{
  SensorRow, Logged, Reply, Round, Walked, Disagreement, fresh_walk, rounds_of, walk,
}
use tvc.Evidence.Walk.Staleness.{IsAgreed, walk_agrees, walk-counts, fresh_count}
use tvc.Evidence.Reconcile.{
  Side, discrepancy, VehicleReport, SimReport, Stream, leg, leg_after, is_uplink, artifacts,
  incomplete_artifacts, walked, found, sample_totals, stream_owned, rng_ownership, all_equal,
}

-- Both counters of a leg are in order, and everything sent was received.
pub record IsDelivered (tx rx : Counts) (side : Side) : Type 0 where
  pub sender : sender_errors tx ≡ []
  pub receiver : receiver_errors rx (is_uplink side) ≡ []
  pub whole : value tx "transmitted" ≡ value rx "received_raw"

no_problem : (xs ys : List Problem) → xs ++ ys ≡ [] → (xs ≡ []) × (ys ≡ [])
no_problem [] ys h = (refl, h)
no_problem (x ∷ xs) ys h = cc

pub from_not : (b : Bool) → not b ≡ false → b ≡ true
from_not true h = refl
from_not false h = sym h

leg_after-clean :
    (side : Side) (tx rx : Counts) (problems : List Problem)
    → leg_after side tx rx problems ≡ clean
    → (problems ≡ []) × (value tx "transmitted" ≡ value rx "received_raw")
leg_after-clean side tx rx [] h =
    let first =
      then_check-clean
        (fault_if (not (value tx "transmitted" == value rx "received_raw")) (discrepancy side)) _
        h in
    (
      refl,
      (==_iff (value tx "transmitted") (value rx "received_raw")).0
          (from_not _ (fault_if-clean _ (discrepancy side) first.0)),
    )
leg_after-clean side tx rx (p ∷ problems) h = cc

pub leg-IsDelivered :
    (side : Side) (tx rx : Counts) → leg side tx rx ≡ clean → IsDelivered tx rx side
unfolding leg
leg-IsDelivered side tx rx h =
    let (none_found, whole) =
      leg_after-clean side tx rx (sender_errors tx ++ receiver_errors rx (is_uplink side)) h in
    let (sender, receiver) =
      no_problem (sender_errors tx) (receiver_errors rx (is_uplink side)) none_found in
    record { sender = sender; receiver = receiver; whole = whole }

some_positive : (n : ℕ) → ltb_ℤ (pos 0) (pos n) ≡ true → 0 < n
some_positive n h = ground arith

no_negative : (n : ℕ) → ¬ (ltb_ℤ (pos 0) (negsuc n) ≡ true)
no_negative n h = ground arith

equal_ℕ : (n : ℕ) (m : ℕ) → eq_ℤ (pos m) (pos n) ≡ true → m ≡ n
equal_ℕ n m h = ground arith

-- The artifacts of a run of `n` cycles.
pub record IsComplete (v : VehicleReport) (s : SimReport) (sensors : List SensorRow)
    (controls : List Logged) (n : ℕ) : Type 0 where
  pub cycles : v.total_cycles ≡ pos n
  pub some_cycle : 0 < n
  pub sampled : length sensors ≡ n
  pub logged : length controls ≡ n
  pub answered : length s.actuator_replies ≡ n
  pub traced : length s.rows ≡ n
  pub generated : value s.sent_up "generated" ≡ n

artifact_numbers :
    (cycles records : ℤ) (a b c d e f g h i : ℕ)
    → (ltb_ℤ (pos 0) cycles
        && eq_ℤ records cycles
        && all_equal cycles (a ∷ b ∷ c ∷ d ∷ e ∷ f ∷ g ∷ h ∷ i ∷ []))
      ≡ true
    → (n : ℕ) × (cycles ≡ pos n) × (0 < n) × (a ≡ n) × (b ≡ n) × (c ≡ n) × (d ≡ n) × (e ≡ n)
artifact_numbers (pos n) records a b c d e f g h i t =
    let (first, lengths) = both_true _ _ t in
    let (some_cycle, _) = both_true (ltb_ℤ (pos 0) (pos n)) _ first in
    let (ta, la) = both_true (eq_ℤ (pos a) (pos n)) _ lengths in
    let (tb, lb) = both_true (eq_ℤ (pos b) (pos n)) _ la in
    let (tc, lc) = both_true (eq_ℤ (pos c) (pos n)) _ lb in
    let (td, ld) = both_true (eq_ℤ (pos d) (pos n)) _ lc in
    let (te, le) = both_true (eq_ℤ (pos e) (pos n)) _ ld in
    (
      n,
      refl,
      some_positive n some_cycle,
      equal_ℕ n a ta,
      equal_ℕ n b tb,
      equal_ℕ n c tc,
      equal_ℕ n d td,
      equal_ℕ n e te,
    )
artifact_numbers (negsuc n) records a b c d e f g h i t =
    absurd (no_negative n (both_true _ _ (both_true _ _ t).0).0)

pub artifacts-IsComplete :
    (v : VehicleReport) (s : SimReport) (sensors : List SensorRow) (controls : List Logged)
    → artifacts v s sensors controls ≡ clean
    → (n : ℕ) × IsComplete v s sensors controls n
unfolding artifacts
artifacts-IsComplete v s sensors controls h =
    let all = from_not _ (fault_if-clean _ incomplete_artifacts h) in
    let (n, cycles, some_cycle, a, b, c, d, e) =
      artifact_numbers v.total_cycles v.records (length sensors) (length controls)
        (length s.actuator_replies) (length s.rows) (value s.sent_up "generated")
        (value s.sent_up "first_transmitted") (value v.link "logical_received")
        (value v.actuator "generated") (value s.received_down "logical_received") all in
    (
      n,
      record {
        cycles = cycles;
        some_cycle = some_cycle;
        sampled = a;
        logged = b;
        answered = c;
        traced = d;
        generated = e;
      },
    )

found-none : (m : Option Disagreement) → found m ≡ clean → m ≡ none
found-none none h = refl
found-none (some m) h = cc

pub walked-clean :
    (v : VehicleReport) (s : SimReport) (sensors : List SensorRow) (controls : List Logged)
    → walked v s sensors controls ≡ clean
    → let rounds : List Round = rounds_of sensors controls s.actuator_replies s.rows in
      IsAgreed 0 rounds
      × (value v.link "admitted" ≡ fresh_count rounds)
      × (value v.link "admitted" + value v.link "sample_invalid" + value v.link "sample_nonfinite"
          ≡ length rounds)
unfolding walked
walked-clean v s sensors controls h =
    let rounds : List Round = rounds_of sensors controls s.actuator_replies s.rows in
    let end : Walked × Option Disagreement = walk 0 fresh_walk rounds in
    let (none_found, totals) = then_check-clean (found end.1) _ h in
    let ended = found-none end.1 none_found in
    let (both, third) = both_true _ _ (from_not _ (fault_if-clean _ sample_totals totals)) in
    let (first, second) = both_true _ _ both in
    let (counted, whole) = walk-counts 0 fresh_walk rounds ended in
    let a = (==_iff end.0.admitted (value v.link "admitted")).0 first in
    let b = (==_iff end.0.invalid (value v.link "sample_invalid")).0 second in
    let c = (==_iff end.0.nonfinite (value v.link "sample_nonfinite")).0 third in
    (walk_agrees rounds ended, omega (arith, a, counted), omega (arith, a, b, c, whole))

pub rounds_of-length :
    (sensors : List SensorRow) (controls : List Logged) (replies : List Reply) (rows : List ℕ)
    (n : ℕ)
    → length sensors ≡ n
    → length controls ≡ n
    → length replies ≡ n
    → length rows ≡ n
    → length (rounds_of sensors controls replies rows) ≡ n
unfolding rounds_of
rounds_of-length [] controls replies rows n a b c d = a
rounds_of-length (s ∷ ss) [] replies rows n a b c d = b
rounds_of-length (s ∷ ss) (r ∷ rs) [] rows n a b c d = c
rounds_of-length (s ∷ ss) (r ∷ rs) (q ∷ qs) [] n a b c d = d
rounds_of-length (s ∷ ss) (r ∷ rs) (q ∷ qs) (t ∷ ts) zero a b c d = absurd (omega (arith, a))
rounds_of-length (s ∷ ss) (r ∷ rs) (q ∷ qs) (t ∷ ts) (suc n) a b c d =
    let rest =
      rounds_of-length ss rs qs ts n (omega (arith, a)) (omega (arith, b)) (omega (arith, c))
        (omega (arith, d)) in
    omega (arith, rest)

-- A stream starts where the seed puts it, and ends where its draws take it.
pub IsOwned : ℕ → ℕ → StreamName → Stream → Type 0
IsOwned seed generated name stream =
    (stream.draws ≡ generated)
    × (stream.start_state ≡ stream_state seed name)
    × (stream.final_state ≡ (stream_state seed name + golden * generated) % 2 ^ 64)

pub stream_owned-IsOwned :
    (seed generated : ℕ) (name : StreamName) (i : ℕ) (stream : Stream)
    → stream_owned seed generated name i stream ≡ clean
    → IsOwned seed generated name stream
unfolding IsOwned
stream_owned-IsOwned seed generated name i stream h =
    let (three, final) = both_true _ _ (from_not _ (fault_if-clean _ rng_ownership h)) in
    let (two, start) = both_true _ _ three in
    let (_, drawn) = both_true _ _ two in
    let draws = (==_iff stream.draws generated).0 drawn in
    let last =
      (==_iff stream.final_state ((stream_state seed name + golden * stream.draws) % 2 ^ 64)).0
        final in
    (
      draws,
      (==_iff stream.start_state (stream_state seed name)).0 start,
      last ∙ ap (λ n. (stream_state seed name + golden * n) % 2 ^ 64) draws,
    )
