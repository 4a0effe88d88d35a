-- ===== src/Evidence/ReconcileFreerun.antt =====
-- reconcile_freerun of scripts/reconcile.py, over reports whose numbers are natural where the code
-- asks for that. What validate_roundtrip finds is an argument. A fault is the text that is appended;
-- the one of an exception goes without its text.
pub mod Delivery
use Prim.Native.String.{String}
use text.Mathlib.Text.{◌==◌ as str_eq}
use tvc.Prelude.{
  ℕ, zero, suc, ◌+◌, ◌-◌, ◌/◌, ◌%◌, Bool, true, false, not, ◌&&◌, ◌||◌, Option, none, some, List,
  [], ◌∷◌, length, leb, ltb, ◌==◌, min, if◌then◌else◌, is_some,
}
use tvc.Prelude.Trail.{Trail, clean, went, stopped, faults_of, fault_if, ◌then_check◌, needs}
use tvc.Evidence.Counters.{value}
use tvc.Evidence.Terminal.{
  Ending, Order, vehicle_first, sim_first, terminal_order, Lifetime, Resolution, not_evaluated,
  no_residual, unresolved, terminal_residual, Leg, Cause, terminal_causes, shares, is_unexplained,
}
use tvc.Evidence.Validate.{
  Row, FreerunSummary, Validation, validate, expect, all_zero_counts, bad_keys, was_sent,
  is_terminal_row, last_row, is_empty_list,
}

-- A recorded sensor sample.
pub record SampleRow : Type 0 where
  pub sampled_tick : ℕ
  pub flags_of_sample : ℕ

-- The vehicle's summary, with what validate reads as `measured`.
pub record VehicleEnd : Type 0 where
  pub measured : FreerunSummary
  pub vehicle_ending : Ending
  pub last_sensor : Option ℕ
  pub copies_asked : ℕ
  pub up_tick_conflict : ℕ
  pub up_illegal_reason : ℕ
  pub up_future_expired : ℕ
  pub up_skew_excess : ℕ
  pub up_open : ℕ
  pub up_closed : ℕ
  pub down_first : ℕ
  pub down_last : ℕ
  pub own_reason : Option ℕ
  pub own_reason_tick : Option ℕ
  pub reason_observed : Option ℕ

-- The simulator's replay.
pub record SimulatorEnd : Type 0 where
  pub replay_mode : String
  pub sim_ending : Ending
  pub up_generated : ℕ
  pub up_lost : ℕ
  pub up_transmitted : ℕ
  pub up_tx_fail : ℕ
  pub down_received : ℕ
  pub down_selected : ℕ
  pub down_lost : ℕ
  pub down_superseded : ℕ
  pub down_malformed : ℕ
  pub down_invalid : ℕ
  pub last_actuator : Option ℕ
  pub end_attempts : ℕ
  pub end_lost : ℕ
  pub end_tx_fail : ℕ
  pub end_transmitted : ℕ
  pub end_received_raw : ℕ
  pub end_received_lost : ℕ
  pub end_survived : ℕ
  pub up_first : ℕ
  pub up_last : ℕ
  pub down_open : ℕ
  pub down_closed : ℕ
  pub is_answered : Bool
  pub ended_by : ℕ
  pub seen_of_vehicle : Option ℕ

abbrev pub exception : String
exception = "incomplete or invalid evidence"

abbrev pub is_terminal_sample : SampleRow → Bool
is_terminal_sample r = r.flags_of_sample / 2 % 2 == 1

-- normal
abbrev pub normal_ticks : List SampleRow → List ℕ
normal_ticks [] = []
normal_ticks (r ∷ rows) =
    let rest : List ℕ = normal_ticks rows in
    if is_terminal_sample r then rest else r.sampled_tick ∷ rest

abbrev pub terminal_samples : List SampleRow → ℕ
terminal_samples [] = 0
terminal_samples (r ∷ rows) = (if is_terminal_sample r then 1 else 0) + terminal_samples rows

-- sent
abbrev pub sent_ticks : List Row → List ℕ
sent_ticks [] = []
sent_ticks (r ∷ rows) =
    let rest : List ℕ = sent_ticks rows in
    if not (is_terminal_row r) && was_sent r then r.observed_control.tick ∷ rest else rest

abbrev pub occurs : ℕ → List ℕ → Bool
occurs n [] = false
occurs n (m ∷ ms) = n == m || occurs n ms

-- len(ticks) == len(set(ticks))
abbrev pub no_repeat : List ℕ → Bool
no_repeat [] = true
no_repeat (n ∷ ns) = not (occurs n ns) && no_repeat ns

-- sum(base<=tick<=last for tick in ticks)
abbrev pub inside : ℕ → ℕ → List ℕ → ℕ
inside base last [] = 0
inside base last (t ∷ ticks) = (if leb base t && leb t last then 1 else 0) + inside base last ticks

abbrev pub inside_last : ℕ → Option ℕ → List ℕ → ℕ
inside_last base none ticks = 0
inside_last base (some last) ticks = inside base last ticks

-- last in ticks if received else last is None
abbrev pub boundary_ok : ℕ → Option ℕ → List ℕ → Bool
boundary_ok received none ticks = received == 0
boundary_ok received (some last) ticks = not (received == 0) && occurs last ticks

unfoldable pub check_uplink : VehicleEnd → SimulatorEnd → List ℕ → ℕ → Trail String
check_uplink v s normal terminals =
    let received : ℕ = value v.measured.link "received" in
    expect "uplink generation" (s.up_generated == s.up_lost + s.up_transmitted + s.up_tx_fail)
    then_check expect "input recording membership" (
        length normal == s.up_transmitted
        && no_repeat normal
        && terminals == (if s.end_transmitted == 0 then 0 else 1))
    then_check expect "uplink observed boundary" (boundary_ok received v.last_sensor normal)
    then_check expect "uplink receipt"
        (inside_last v.measured.tick_base v.last_sensor normal == received)

abbrev pub unestablished : Option ℕ → List ℕ → Bool
unestablished none (t ∷ sent) = true
unestablished _ _ = false

unfoldable pub check_downlink : VehicleEnd → SimulatorEnd → List ℕ → Trail String
check_downlink v s sent =
    (if unestablished s.last_actuator sent then stopped exception [] else clean)
    then_check expect "downlink observed boundary"
        (boundary_ok s.down_received s.last_actuator sent)
    then_check expect "downlink receipt"
        (inside_last v.measured.tick_base s.last_actuator sent == s.down_received)
    then_check expect "downlink disposition"
        (s.down_received == s.down_selected + s.down_lost + s.down_superseded)
    then_check expect "link integrity" (
        all_zero_counts v.measured.link bad_keys
        && all_zero_counts v.measured.link
            ("discarded_tick_conflict" ∷ "discarded_skew_excess" ∷ "future_expired" ∷ [])
        && s.down_malformed == 0
        && s.down_invalid == 0
        && v.up_tick_conflict == 0
        && v.up_illegal_reason == 0
        && v.up_future_expired == 0
        && v.up_skew_excess == 0)

unfoldable pub check_handshake_counts : VehicleEnd → SimulatorEnd → Trail String
check_handshake_counts v s =
    expect "terminal up" (s.end_attempts == s.end_lost + s.end_tx_fail + s.end_transmitted)
    then_check expect "terminal down" (
        v.measured.down_attempts == v.measured.down_tx_fail + v.measured.down_transmitted
        && s.end_received_raw == s.end_received_lost + s.end_survived)
    then_check expect "terminal first attempt"
        (leb v.measured.terminal_cycle v.measured.down_attempts)

-- residual: `none` is a ValueError.
abbrev pub residual_of : Bool → Lifetime → Bool → Bool → Option Resolution
residual_of true l required answered = elim (terminal_residual l required answered) [
  | none ↦ none
  | some (unobserved, r) ↦ some r
]
residual_of false l required answered =
    if ltb l.transmitted l.received
    then none
    else if not required
    then some not_evaluated
    else if l.transmitted == l.received
    then some no_residual
    else some unresolved

abbrev pub is_vehicle_first : Option Order → Bool
is_vehicle_first (some vehicle_first) = true
is_vehicle_first _ = false

abbrev pub is_sim_first : Option Order → Bool
is_sim_first (some sim_first) = true
is_sim_first _ = false

-- The leg down is required if the vehicle ended first, or if it received the simulator's reason.
abbrev pub down_required : VehicleEnd → Option Order → Bool
down_required v order =
    is_vehicle_first order || (is_sim_first order && not (v.measured.up_received_raw == 0))

abbrev pub up_leg : VehicleEnd → SimulatorEnd → Option Order → Option Leg
up_leg v s order =
    let complete : Bool = not (v.measured.up_received_raw == 0) in
    elim (residual_of (shares v.vehicle_ending.clock_domain s.sim_ending.clock_domain)
      (record {
        transmitted = s.end_transmitted;
        received = v.measured.up_received_raw;
        first_send = s.up_first;
        last_send = s.up_last;
        receive_open = v.up_open;
        receive_closed = v.up_closed;
      })
      (is_sim_first order) complete) [
        | none ↦ none
        | some r ↦ some (record {
          required = is_sim_first order;
          complete = complete;
          tx_fail = s.end_tx_fail;
          opportunities = s.end_attempts;
          budget = v.copies_asked;
          intentionally_lost = s.end_lost;
          residual = r;
        })
      ]

abbrev pub down_leg : VehicleEnd → SimulatorEnd → Option Order → Option Leg
down_leg v s order =
    let complete : Bool = not (s.end_survived == 0) in
    elim (residual_of (shares v.vehicle_ending.clock_domain s.sim_ending.clock_domain)
      (record {
        transmitted = v.measured.down_transmitted;
        received = s.end_received_raw;
        first_send = v.down_first;
        last_send = v.down_last;
        receive_open = s.down_open;
        receive_closed = s.down_closed;
      })
      (down_required v order) complete) [
        | none ↦ none
        | some r ↦ some (record {
          required = down_required v order;
          complete = complete;
          tx_fail = v.measured.down_tx_fail;
          opportunities = s.end_received_raw;
          budget = min v.copies_asked 14;
          intentionally_lost = s.end_received_lost;
          residual = r;
        })
      ]

-- What the terminal handshake comes to: its order, its legs and their causes.
pub record Handshake : Type 0 where
  pub order : Option Order
  pub up : Leg
  pub down : Leg
  pub legs_complete : Option Bool
  pub causes : List Cause

abbrev pub leg_complete : Leg → Bool
leg_complete l = not l.required || l.complete

abbrev pub handshake_of : Option Order → Leg → Leg → Handshake
handshake_of none up down = record {
  order = none;
  up = up;
  down = down;
  legs_complete = none;
  causes = [];
}
handshake_of (some order) up down = record {
  order = some order;
  up = up;
  down = down;
  legs_complete = some (leg_complete up && leg_complete down);
  causes = terminal_causes (up ∷ down ∷ []);
}

abbrev pub legs_after : VehicleEnd → SimulatorEnd → Option Order → Option Handshake
legs_after v s order = elim (up_leg v s order) [
  | none ↦ none
  | some up ↦ elim (down_leg v s order) [
    | none ↦ none
    | some down ↦ some (handshake_of order up down)
  ]
]

unfoldable pub handshake : VehicleEnd → SimulatorEnd → Option Handshake
handshake v s = elim (terminal_order v.vehicle_ending s.sim_ending) [
  | none ↦ none
  | some order ↦ legs_after v s order
]

abbrev pub same_bools : Bool → Bool → Bool
same_bools true b = b
same_bools false b = not b

abbrev pub same_reasons : Option ℕ → Option ℕ → Bool
same_reasons none none = true
same_reasons (some a) (some b) = a == b
same_reasons _ _ = false

abbrev pub not_unexplained : Leg → Bool
not_unexplained l = not l.required || not (is_unexplained l.residual)

-- The pairs of reasons that are expected.
abbrev pub is_agreed_pair : ℕ → Option ℕ → Bool
is_agreed_pair sim none = false
is_agreed_pair sim (some vehicle) =
    (sim == 1 && (vehicle == 1 || vehicle == 4 || vehicle == 7))
    || ((sim == 2 || sim == 3) && (vehicle == 2 || vehicle == 4))
    || (sim == 4 && (vehicle == 1 || vehicle == 2 || vehicle == 3 || vehicle == 4 || vehicle == 7))

abbrev pub no_evidence : Option ℕ → Bool
no_evidence none = false
no_evidence (some reason) = reason == 5 || reason == 6 || reason == 8

abbrev pub is_terminal_record : VehicleEnd → Option Row → Bool
is_terminal_record v none = false
is_terminal_record v (some r) =
    r.state == 3
    && same_reasons (some r.ending_reason) v.own_reason
    && same_reasons (some r.observed_control.tick) v.own_reason_tick

abbrev pub check_observed : VehicleEnd → SimulatorEnd → Trail String
check_observed v s =
    (if is_some v.reason_observed
      then expect "simulator observation" (
          same_reasons v.reason_observed (some s.ended_by) && not (v.measured.up_received_raw == 0))
      else clean)
    then_check (if is_some s.seen_of_vehicle
        then expect "vehicle observation" (same_reasons s.seen_of_vehicle v.own_reason)
        else clean)

-- The checks after the handshake is known.
unfoldable pub check_ending : VehicleEnd → SimulatorEnd → List Row → Handshake → Trail String
check_ending v s controls h =
    expect "terminal ordering unresolved" (is_some h.order)
    then_check expect "terminal up unexplained" (not_unexplained h.up)
    then_check expect "terminal down unexplained" (not_unexplained h.down)
    then_check expect "terminal answer observation"
        (same_bools (is_some s.seen_of_vehicle) (not (s.end_survived == 0)))
    then_check expect "terminal handshake" (same_bools s.is_answered (not (s.end_survived == 0)))
    then_check check_observed v s
    then_check expect "terminal record" (is_terminal_record v (last_row controls))
    then_check (if no_evidence v.own_reason
        then went ("terminal outcome produces no evidence; pairing not evaluated" ∷ [])
        else expect "terminal agreement" (is_agreed_pair s.ended_by v.own_reason))

-- The checks before the handshake.
unfoldable pub check_delivery :
    VehicleEnd → SimulatorEnd → List String → List SampleRow → List Row → Trail String
check_delivery v s roundtrip sensors controls =
    (if str_eq v.measured.mode "freerun" && str_eq s.replay_mode "freerun"
      then clean
      else stopped exception [])
    then_check went (Validation.faults (validate v.measured controls))
    then_check went roundtrip
    then_check expect "shared sensor clock"
        (shares v.vehicle_ending.clock_domain s.sim_ending.clock_domain)
    then_check check_uplink v s (normal_ticks sensors) (terminal_samples sensors)
    then_check check_downlink v s (sent_ticks controls)
    then_check check_handshake_counts v s

pub record FreerunReconciled : Type 0 where
  pub is_eligible : Bool
  pub agreement : Option Bool
  pub required_legs_complete : Option Bool
  pub found_faults : List String

abbrev pub agreement_of : VehicleEnd → SimulatorEnd → Option Bool
agreement_of v s =
    if no_evidence v.own_reason then none else some (is_agreed_pair s.ended_by v.own_reason)

abbrev pub ended_at : VehicleEnd → SimulatorEnd → Option Bool → Trail String → FreerunReconciled
ended_at v s complete t =
    let faults : List String = faults_of t in
    record {
      is_eligible = is_empty_list faults;
      agreement = agreement_of v s;
      required_legs_complete = complete;
      found_faults = faults;
    }

abbrev pub failed_with : Trail String → FreerunReconciled
failed_with t = record {
  is_eligible = false;
  agreement = some false;
  required_legs_complete = none;
  found_faults = faults_of t;
}

abbrev pub after_delivery :
    VehicleEnd → SimulatorEnd → List Row → Trail String → Option Handshake → FreerunReconciled
after_delivery v s controls (stopped fault more) h = failed_with (stopped fault more)
after_delivery v s controls (went faults) none =
    failed_with (went faults then_check stopped exception [])
after_delivery v s controls (went faults) (some h) =
    ended_at v s h.legs_complete (went faults then_check check_ending v s controls h)

unfoldable pub reconcile_freerun :
    VehicleEnd → SimulatorEnd → List String → List SampleRow → List Row → FreerunReconciled
reconcile_freerun v s roundtrip sensors controls =
    after_delivery v s controls (check_delivery v s roundtrip sensors controls) (handshake v s)
