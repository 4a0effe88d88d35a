-- ===== src/Evidence/Reconcile.antt =====
-- reconcile of scripts/reconcile.py on a lockstep run, where both reports are there. A counter that is
-- not an int counts as missing; the hexadecimal states of the streams are numbers.
pub mod Agreement
pub mod Checks
use Prim.Native.String.{String}
use text.Mathlib.Text.{◌==◌ as str_eq}
use tvc.Prelude.{
  ℕ, zero, suc, ◌+◌, ◌*◌, ◌%◌, ◌^◌, Bool, true, false, not, ◌&&◌, ◌||◌, Option, none, some, List,
  [], ◌∷◌, ◌++◌, map, length, leb, ltb, ◌==◌, if◌then◌else◌, is_some,
}
use tvc.Prelude.Int.{ℤ, pos, negsuc, ◌+ℤ◌, eq_ℤ, ltb_ℤ, is_zero}
use tvc.Prelude.Trail.{Trail, went, stopped, clean, faults_of, fault_if, ◌then_check◌, needs}
use tvc.Evidence.Counters.{
  Problem, Counts, count, all_counted, value, sender_errors, receiver_errors,
}
use tvc.Evidence.Walk.{
  SensorRow, Logged, Reply, Walked, Disagreement, admission_or_staleness, fresh_walk, rounds_of,
  walk, has_bit,
}
use tvc.Sim.Rng.{StreamName, link_loss_up, link_loss_down, golden, stream_state}

pub data Side : Type 0 where
  uplink downlink : Side

pub data Fault : Type 0 where
  counter : Side → Problem → Fault
  discrepancy : Side → Fault
  incomplete incomplete_or_invalid : Side → String → Fault
  no_original_failures original_send_failed tx_ok_disagrees mode_or_timing dropped_by_ring : Fault
  no_event_counter transition_identity push_identity incomplete_population pid_calls_exceed : Fault
  incomplete_artifacts : Fault
  mismatched : Disagreement → Fault
  sample_totals rng_ownership terminal_record simulator_reason invented_observation : Fault
  vehicle_reason_unseen unexpected_pairing incomplete_evidence : Fault

-- A random stream as the simulator's report shows it.
pub record Stream : Type 0 where
  pub stream_index : ℕ
  pub draws : ℕ
  pub start_state : ℕ
  pub final_state : ℕ

-- What is read of the vehicle's summary; `is_timing_invalid` if timing_valid is false.
pub record VehicleReport : Type 0 where
  pub mode : String
  pub is_timing_invalid : Bool
  pub total_cycles : ℤ
  pub link : Counts
  pub actuator : Counts
  pub events : Counts
  pub records : ℤ
  pub ring_dropped : ℤ
  pub vehicle_reason : Option ℕ
  pub reason_tick : Option ℕ
  pub sim_reason_seen : Option ℕ

-- What is read of the simulator's report.
pub record SimReport : Type 0 where
  pub sent_up : Counts
  pub received_down : Counts
  pub actuator_replies : List Reply
  pub rows : List ℕ
  pub seed : ℕ
  pub up_stream : Stream
  pub down_stream : Stream
  pub sim_reason : ℕ
  pub vehicle_reason_seen : Option ℕ

-- c[key], `none` for a KeyError.
abbrev pub int_at : String → Counts → Option ℤ
int_at key [] = none
int_at key ((k, v) ∷ rest) = if str_eq k key then v else int_at key rest

abbrev pub same_reason : Option ℕ → Option ℕ → Bool
same_reason none none = true
same_reason (some a) (some b) = a == b
same_reason _ _ = false

abbrev pub is_uplink : Side → Bool
is_uplink uplink = true
is_uplink downlink = false

abbrev pub pending_keys : Side → List String
pending_keys uplink =
    "decode_pending" ∷ "classification_pending" ∷ "malformed" ∷ "admission_pending" ∷ []
pending_keys downlink =
    "decode_pending" ∷ "classification_pending" ∷ "malformed" ∷ "disposition_pending" ∷ []

abbrev pub all_zero : (String → Fault) → Counts → List String → Trail Fault
all_zero fault c [] = clean
all_zero fault c (key ∷ keys) =
    fault_if (not (value c key == 0)) (fault key) then_check all_zero fault c keys

-- One turn of the loop over both directions; a problem of the counters returns.
abbrev pub leg_after : Side → Counts → Counts → List Problem → Trail Fault
leg_after side tx rx [] =
    fault_if (not (value tx "transmitted" == value rx "received_raw")) (discrepancy side)
    then_check all_zero (incomplete side) tx
        ("not_attempted" ∷ "never_transmitted" ∷ "send_pending" ∷ [])
    then_check all_zero (incomplete_or_invalid side) rx (pending_keys side)
leg_after side tx rx (p ∷ problems) = stopped (counter side p) (map (counter side) problems)

unfoldable pub leg : Side → Counts → Counts → Trail Fault
leg side tx rx = leg_after side tx rx (sender_errors tx ++ receiver_errors rx (is_uplink side))

-- The records without TX_OK.
abbrev pub not_sent : List Logged → ℕ
not_sent [] = 0
not_sent (r ∷ records) = (if has_bit r.flags 2 then 0 else 1) + not_sent records

-- The original sends of the actuator.
unfoldable pub original_sends : Counts → List Logged → Trail Fault
original_sends down_tx controls =
    fault_if (not (is_some (count "original_tx_fail" down_tx))) no_original_failures
    then_check needs incomplete_evidence (int_at "original_tx_fail" down_tx) (λ failed.
      fault_if (not (is_zero failed)) original_send_failed
      then_check fault_if (not (eq_ℤ (pos (not_sent controls)) failed)) tx_ok_disagrees)

abbrev pub event_fields : List String
event_fields =
    "episode_transitions" ∷ "pid_calls" ∷ "record_attempts" ∷ "records_pushed" ∷ "ring_drops"
    ∷ "record_pending" ∷ []

-- The checks of the mode and of the events of the vehicle.
unfoldable pub population : VehicleReport → Trail Fault
population v =
    fault_if (not (str_eq v.mode "lockstep" && v.is_timing_invalid)) mode_or_timing
    then_check fault_if (not (is_zero v.ring_dropped)) dropped_by_ring
    then_check fault_if (not (all_counted event_fields v.events)) no_event_counter
    then_check needs incomplete_evidence (int_at "episode_transitions" v.events) (λ transitions.
      needs incomplete_evidence (int_at "record_attempts" v.events) (λ attempts.
        needs incomplete_evidence (int_at "record_pending" v.events) (λ pending.
          needs incomplete_evidence (int_at "records_pushed" v.events) (λ pushed.
            needs incomplete_evidence (int_at "ring_drops" v.events) (λ drops.
              needs incomplete_evidence (int_at "pid_calls" v.events) (λ calls.
                fault_if
                  (not (eq_ℤ transitions v.total_cycles)
                    || not (eq_ℤ transitions (attempts +ℤ pending)))
                  transition_identity
                then_check fault_if (not (eq_ℤ attempts (pushed +ℤ drops))) push_identity
                then_check fault_if
                    (not (is_zero pending)
                      || not (eq_ℤ drops v.ring_dropped)
                      || not (eq_ℤ pushed v.records))
                    incomplete_population
                then_check fault_if (ltb_ℤ (pos (value v.link "admitted")) calls)
                    pid_calls_exceed))))))

abbrev pub all_equal : ℤ → List ℕ → Bool
all_equal n [] = true
all_equal n (m ∷ ms) = eq_ℤ (pos m) n && all_equal n ms

-- The lengths of the artifacts and the counters that go with them.
unfoldable pub artifacts : VehicleReport → SimReport → List SensorRow → List Logged → Trail Fault
artifacts v s sensors controls =
    fault_if
      (not (
        ltb_ℤ (pos 0) v.total_cycles
        && eq_ℤ v.records v.total_cycles
        && all_equal v.total_cycles (
            length sensors
            ∷ length controls
            ∷ length s.actuator_replies
            ∷ length s.rows
            ∷ value s.sent_up "generated"
            ∷ value s.sent_up "first_transmitted"
            ∷ value v.link "logical_received"
            ∷ value v.actuator "generated"
            ∷ value s.received_down "logical_received"
            ∷ [])))
      incomplete_artifacts

abbrev pub found : Option Disagreement → Trail Fault
found none = clean
found (some m) = went (mismatched m ∷ [])

-- The walk over the ticks, and the totals that it leaves.
unfoldable pub walked : VehicleReport → SimReport → List SensorRow → List Logged → Trail Fault
walked v s sensors controls =
    let end : Walked × Option Disagreement =
      walk 0 fresh_walk (rounds_of sensors controls s.actuator_replies s.rows) in
    found end.1
    then_check fault_if
        (not (
          end.0.admitted == value v.link "admitted"
          && end.0.invalid == value v.link "sample_invalid"
          && end.0.nonfinite == value v.link "sample_nonfinite"))
        sample_totals

abbrev pub stream_owned : ℕ → ℕ → StreamName → ℕ → Stream → Trail Fault
stream_owned seed generated name i stream =
    let start : ℕ = stream_state seed name in
    fault_if
      (not (
        stream.stream_index == i
        && stream.draws == generated
        && stream.start_state == start
        && stream.final_state == (start + golden * stream.draws) % 2 ^ 64))
      rng_ownership

unfoldable pub rng_streams : SimReport → Trail Fault
rng_streams s =
    let generated : ℕ = value s.sent_up "generated" in
    stream_owned s.seed generated link_loss_up 0 s.up_stream
    then_check stream_owned s.seed generated link_loss_down 1 s.down_stream

-- controls[-1]
abbrev pub last_record : List Logged → Option Logged
last_record [] = none
last_record (r ∷ []) = some r
last_record (r ∷ (q ∷ rest)) = last_record (q ∷ rest)

-- The pairs that are expected of themselves.
abbrev pub is_pair : ℕ → Option ℕ → Bool
is_pair sim none = false
is_pair sim (some vehicle) =
    (sim == 1 && (vehicle == 1 || vehicle == 7))
    || ((sim == 2 || sim == 3) && vehicle == 2)
    || (sim == 4 && (vehicle == 2 || vehicle == 3 || vehicle == 4))

-- For the pair (1, 4) the last observation has to be stale.
abbrev pub is_expected : ℕ → Option ℕ → Option Logged → Bool
is_expected sim vehicle last =
    if sim == 1 && same_reason vehicle (some 4)
    then elim last [ none ↦ false | some r ↦ leb 21 r.staleness ]
    else is_pair sim vehicle

abbrev pub is_final_record : VehicleReport → Option Logged → Bool
is_final_record v none = false
is_final_record v (some r) =
    r.state == 3
    && same_reason (some r.reason) v.vehicle_reason
    && same_reason v.reason_tick (some r.tick)

-- The checks of the terminal reasons.
unfoldable pub terminal_reasons : VehicleReport → SimReport → Option Logged → Trail Fault
terminal_reasons v s last =
    fault_if (not (is_final_record v last)) terminal_record
    then_check fault_if
        (ltb 0 s.sim_reason
          && leb s.sim_reason 3
          && not (same_reason v.sim_reason_seen (some s.sim_reason)))
        simulator_reason
    then_check fault_if (s.sim_reason == 4 && is_some v.sim_reason_seen) invented_observation
    then_check fault_if (not (same_reason s.vehicle_reason_seen v.vehicle_reason))
        vehicle_reason_unseen

abbrev pub no_faults : List Fault → Bool
no_faults [] = true
no_faults _ = false

-- `'admission' in e or 'staleness' in e`
abbrev pub is_admission_fault : Fault → Bool
is_admission_fault (incomplete_or_invalid side key) = str_eq key "admission_pending"
is_admission_fault (mismatched admission_or_staleness) = true
is_admission_fault _ = false

abbrev pub some_admission : List Fault → Bool
some_admission [] = false
some_admission (f ∷ faults) = is_admission_fault f || some_admission faults

pub record Reconciled : Type 0 where
  pub eligible : Bool
  pub terminal_agreement : Bool
  pub faults : List Fault

-- Everything before the terminal reasons.
unfoldable pub before_terminal :
    VehicleReport → SimReport → List SensorRow → List Logged → Trail Fault
before_terminal v s sensors controls =
    leg uplink s.sent_up v.link
    then_check leg downlink v.actuator s.received_down
    then_check original_sends v.actuator controls
    then_check population v
    then_check artifacts v s sensors controls
    then_check walked v s sensors controls
    then_check rng_streams s

abbrev pub concluded : List Fault → List Fault → Bool → Reconciled
concluded before ends paired =
    let expected : Bool = paired && no_faults ends in
    let faults : List Fault = before ++ ends in
    let all : List Fault = if expected then faults else faults ++ unexpected_pairing ∷ [] in
    record {
      eligible = no_faults all;
      terminal_agreement = expected && not (some_admission faults);
      faults = all;
    }

abbrev pub judged_after : Trail Fault → Trail Fault → Bool → Reconciled
judged_after (stopped fault more) ends paired = record {
  eligible = false;
  terminal_agreement = false;
  faults = fault ∷ more;
}
judged_after (went before) ends paired = concluded before (faults_of ends) paired

unfoldable pub reconcile : VehicleReport → SimReport → List SensorRow → List Logged → Reconciled
reconcile v s sensors controls =
    judged_after (before_terminal v s sensors controls)
      (terminal_reasons v s (last_record controls))
      (is_expected s.sim_reason v.vehicle_reason (last_record controls))
