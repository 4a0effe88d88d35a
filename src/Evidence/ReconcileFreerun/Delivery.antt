-- ===== src/Evidence/ReconcileFreerun/Delivery.antt =====
-- What an eligible reconciliation of a free run says (scripts/reconcile.py reconcile_freerun).
use Prim.Native.String.{String}
use text.Mathlib.Text.{◌==◌ as str_eq}
use tvc.Prelude.{
  ℕ, ◌+◌, ◌≡◌, refl, ◌∙◌, Bool, true, false, not, ◌&&◌, Option, none, some, List, [], ◌∷◌, length,
  ◌==◌, ==_iff, if◌then◌else◌, is_some, both_true,
}
use tvc.Prelude.Trail.{Trail, clean, went, stopped, faults_of, then_check-clean}
use tvc.Evidence.Counters.{value, total}
use tvc.Evidence.Terminal.{shares}
use tvc.Evidence.Validate.{Row, Validation, validate, expect, dispositions, is_empty_list}
use tvc.Evidence.Validate.Coverage.{
  IsMeasured, validate-IsMeasured, validate_faultless, expect-clean,
}
use tvc.Evidence.ReconcileFreerun.{
  SampleRow, VehicleEnd, SimulatorEnd, Handshake, reconcile_freerun, check_delivery, check_uplink,
  check_downlink, check_handshake_counts, check_ending, check_observed, handshake, after_delivery,
  normal_ticks, sent_ticks, terminal_samples, inside_last, boundary_ok, no_repeat, is_agreed_pair,
  no_evidence, agreement_of, not_unexplained, unestablished, exception, same_bools,
}

-- Where the frames of a free run went.
pub record IsAccounted (v : VehicleEnd) (s : SimulatorEnd) (sensors : List SampleRow)
    (controls : List Row) : Type 0 where
  pub measured : IsMeasured v.measured controls
  pub generated : s.up_generated ≡ s.up_lost + s.up_transmitted + s.up_tx_fail
  pub transmitted : length (normal_ticks sensors) ≡ s.up_transmitted
  pub disposed :
      inside_last v.measured.tick_base v.last_sensor (normal_ticks sensors)
      ≡ total v.measured.link dispositions + v.measured.parked_at_end
  pub answered :
      inside_last v.measured.tick_base s.last_actuator (sent_ticks controls)
      ≡ s.down_selected + s.down_lost + s.down_superseded
  pub terminal_up : s.end_attempts ≡ s.end_lost + s.end_tx_fail + s.end_transmitted
  pub terminal_down :
      (v.measured.down_attempts ≡ v.measured.down_tx_fail + v.measured.down_transmitted)
      × (s.end_received_raw ≡ s.end_received_lost + s.end_survived)

check_uplink-clean :
    (v : VehicleEnd) (s : SimulatorEnd) (normal : List ℕ) (terminals : ℕ)
    → check_uplink v s normal terminals ≡ clean
    → (s.up_generated ≡ s.up_lost + s.up_transmitted + s.up_tx_fail)
      × (length normal ≡ s.up_transmitted)
      × (inside_last v.measured.tick_base v.last_sensor normal ≡ value v.measured.link "received")
unfolding check_uplink
check_uplink-clean v s normal terminals h =
    let (made, t1) =
      then_check-clean (expect _ (s.up_generated == s.up_lost + s.up_transmitted + s.up_tx_fail)) _
        h in
    let (members, t2) =
      then_check-clean
        (expect _ (
          length normal == s.up_transmitted
          && no_repeat normal
          && terminals == (if s.end_transmitted == 0 then 0 else 1)))
        _ t1 in
    let (_, t3) =
      then_check-clean
        (expect _ (boundary_ok (value v.measured.link "received") v.last_sensor normal)) _ t2 in
    (
      (==_iff s.up_generated (s.up_lost + s.up_transmitted + s.up_tx_fail)).0
          (expect-clean _ _ made),
      (==_iff (length normal) s.up_transmitted).0
          (both_true _ _ (both_true _ _ (expect-clean _ _ members)).0).0,
      (==_iff (inside_last v.measured.tick_base v.last_sensor normal)
            (value v.measured.link "received")).0
          (expect-clean _ _ t3),
    )

check_downlink-clean :
    (v : VehicleEnd) (s : SimulatorEnd) (sent : List ℕ)
    → check_downlink v s sent ≡ clean
    → inside_last v.measured.tick_base s.last_actuator sent
      ≡ s.down_selected + s.down_lost + s.down_superseded
unfolding check_downlink
check_downlink-clean v s sent h =
    let (_, t1) =
      then_check-clean (if unestablished s.last_actuator sent then stopped exception [] else clean)
        _ h in
    let (_, t2) =
      then_check-clean (expect _ (boundary_ok s.down_received s.last_actuator sent)) _ t1 in
    let (receipt, t3) =
      then_check-clean
        (expect _ (inside_last v.measured.tick_base s.last_actuator sent == s.down_received)) _
        t2 in
    let (placed, _) =
      then_check-clean
        (expect _ (s.down_received == s.down_selected + s.down_lost + s.down_superseded)) _ t3 in
    (==_iff (inside_last v.measured.tick_base s.last_actuator sent) s.down_received).0
      (expect-clean _ _ receipt)
    ∙ (==_iff s.down_received (s.down_selected + s.down_lost + s.down_superseded)).0
        (expect-clean _ _ placed)

check_handshake_counts-clean :
    (v : VehicleEnd) (s : SimulatorEnd)
    → check_handshake_counts v s ≡ clean
    → (s.end_attempts ≡ s.end_lost + s.end_tx_fail + s.end_transmitted)
      × (v.measured.down_attempts ≡ v.measured.down_tx_fail + v.measured.down_transmitted)
      × (s.end_received_raw ≡ s.end_received_lost + s.end_survived)
unfolding check_handshake_counts
check_handshake_counts-clean v s h =
    let (up, t1) =
      then_check-clean (expect _ (s.end_attempts == s.end_lost + s.end_tx_fail + s.end_transmitted))
        _ h in
    let (down, _) =
      then_check-clean
        (expect _ (
          v.measured.down_attempts == v.measured.down_tx_fail + v.measured.down_transmitted
          && s.end_received_raw == s.end_received_lost + s.end_survived))
        _ t1 in
    let (sent, received) = both_true _ _ (expect-clean _ _ down) in
    (
      (==_iff s.end_attempts (s.end_lost + s.end_tx_fail + s.end_transmitted)).0
          (expect-clean _ _ up),
      (==_iff v.measured.down_attempts (v.measured.down_tx_fail + v.measured.down_transmitted)).0
          sent,
      (==_iff s.end_received_raw (s.end_received_lost + s.end_survived)).0 received,
    )

went_empty : (faults : List String) → went faults ≡ clean → faults ≡ []
went_empty faults h = cc

check_delivery-IsAccounted :
    (v : VehicleEnd) (s : SimulatorEnd) (roundtrip : List String) (sensors : List SampleRow)
    (controls : List Row)
    → check_delivery v s roundtrip sensors controls ≡ clean
    → IsAccounted v s sensors controls
unfolding check_delivery
check_delivery-IsAccounted v s roundtrip sensors controls h =
    let (_, t1) =
      then_check-clean
        (if str_eq v.measured.mode "freerun" && str_eq s.replay_mode "freerun"
          then clean
          else stopped exception [])
        _ h in
    let (valid, t2) =
      then_check-clean (went (Validation.faults (validate v.measured controls))) _ t1 in
    let (_, t3) = then_check-clean (went roundtrip) _ t2 in
    let (_, t4) =
      then_check-clean (expect _ (shares v.vehicle_ending.clock_domain s.sim_ending.clock_domain)) _
        t3 in
    let (up, t5) =
      then_check-clean (check_uplink v s (normal_ticks sensors) (terminal_samples sensors)) _ t4 in
    let (down, ends) = then_check-clean (check_downlink v s (sent_ticks controls)) _ t5 in
    let (made, members, received) =
      check_uplink-clean v s (normal_ticks sensors) (terminal_samples sensors) up in
    let (terminal_up, sent_down, received_down) = check_handshake_counts-clean v s ends in
    let measured : IsMeasured v.measured controls =
      (validate-IsMeasured v.measured controls
        (validate_faultless v.measured controls (went_empty _ valid))).0 in
    record {
      measured = measured;
      generated = made;
      transmitted = members;
      disposed = received ∙ measured.disposed;
      answered = check_downlink-clean v s (sent_ticks controls) down;
      terminal_up = terminal_up;
      terminal_down = (sent_down, received_down);
    }

-- The handshake has an order, no required leg lost frames without an explanation, the simulator was
-- answered exactly if a terminal packet survived, and the reasons agree.
pub record IsSettled (v : VehicleEnd) (s : SimulatorEnd) (h : Handshake) : Type 0 where
  pub is_there : handshake v s ≡ some h
  pub ordered : is_some h.order ≡ true
  pub up_explained : not_unexplained h.up ≡ true
  pub down_explained : not_unexplained h.down ≡ true
  pub answered : same_bools s.is_answered (not (s.end_survived == 0)) ≡ true
  pub paired : is_agreed_pair s.ended_by v.own_reason ≡ true
  pub evidence : no_evidence v.own_reason ≡ false

last_check :
    (b paired : Bool) (f g : String)
    → (if b then went (f ∷ []) else expect g paired) ≡ clean
    → (b ≡ false) × (paired ≡ true)
last_check true paired f g h = cc
last_check false paired f g h = (refl, expect-clean g paired h)

check_ending-IsSettled :
    (v : VehicleEnd) (s : SimulatorEnd) (controls : List Row) (h : Handshake)
    → handshake v s ≡ some h
    → check_ending v s controls h ≡ clean
    → IsSettled v s h
unfolding check_ending
check_ending-IsSettled v s controls h there c =
    let (ordered, t1) = then_check-clean (expect _ (is_some h.order)) _ c in
    let (up, t2) = then_check-clean (expect _ (not_unexplained h.up)) _ t1 in
    let (down, t3) = then_check-clean (expect _ (not_unexplained h.down)) _ t2 in
    let (_, t4) =
      then_check-clean
        (expect _ (same_bools (is_some s.seen_of_vehicle) (not (s.end_survived == 0)))) _ t3 in
    let (answered, t5) =
      then_check-clean (expect _ (same_bools s.is_answered (not (s.end_survived == 0)))) _ t4 in
    let (_, t6) = then_check-clean (check_observed v s) _ t5 in
    let (_, t7) = then_check-clean (expect _ _) _ t6 in
    let (evidence, paired) =
      last_check (no_evidence v.own_reason) (is_agreed_pair s.ended_by v.own_reason) _ _ t7 in
    record {
      is_there = there;
      ordered = expect-clean _ _ ordered;
      up_explained = expect-clean _ _ up;
      down_explained = expect-clean _ _ down;
      answered = expect-clean _ _ answered;
      paired = paired;
      evidence = evidence;
    }

empty_faults : (t : Trail String) → is_empty_list (faults_of t) ≡ true → t ≡ clean
empty_faults (went []) h = refl
empty_faults (went (f ∷ fs)) h = cc
empty_faults (stopped f fs) h = cc

after_delivery-eligible :
    (v : VehicleEnd) (s : SimulatorEnd) (controls : List Row) (t : Trail String)
    (o : Option Handshake)
    → (after_delivery v s controls t o).is_eligible ≡ true
    → (t ≡ clean)
      × (h : Handshake) × (o ≡ some h)
      × (check_ending v s controls h ≡ clean)
      × ((after_delivery v s controls t o).agreement ≡ agreement_of v s)
after_delivery-eligible v s controls (stopped f fs) o e = cc
after_delivery-eligible v s controls (went faults) none e = cc
after_delivery-eligible v s controls (went faults) (some h) e =
    let (first, rest) =
      then_check-clean (went faults) (check_ending v s controls h) (empty_faults _ e) in
    (first, h, refl, rest, refl)

agreed_of :
    (b paired : Bool)
    → b ≡ false
    → paired ≡ true
    → ◌≡◌ {A = Option Bool} (if b then none else some paired) (some true)
agreed_of b paired none_lost h = rw none_lost (rw h refl)

-- If the reconciliation of a free run is eligible, the summary is measured by its records; every
-- sensor frame generated was lost on purpose, sent or refused, and the recorded ones are as many as
-- were sent; every one of the vehicle's window was disposed of once or is still parked; every
-- actuator frame of it was selected, lost on purpose or superseded; the terminal packets of both
-- sides are accounted for; the handshake has an order in which no required leg lost packets without
-- explanation, and was answered exactly if a packet survived; and the terminal reasons agree.
pub reconcile_freerun-IsAccounted :
    (v : VehicleEnd) (s : SimulatorEnd) (roundtrip : List String) (sensors : List SampleRow)
    (controls : List Row)
    → (reconcile_freerun v s roundtrip sensors controls).is_eligible ≡ true
    → IsAccounted v s sensors controls
      × ((h : Handshake) × IsSettled v s h)
      × ((reconcile_freerun v s roundtrip sensors controls).agreement ≡ some true)
unfolding reconcile_freerun
reconcile_freerun-IsAccounted v s roundtrip sensors controls e =
    let (fine, h, there, ended, agreement) =
      after_delivery-eligible v s controls (check_delivery v s roundtrip sensors controls)
        (handshake v s) e in
    let settled = check_ending-IsSettled v s controls h there ended in
    (
      check_delivery-IsAccounted v s roundtrip sensors controls fine,
      (h, settled),
      agreement ∙ agreed_of (no_evidence v.own_reason) _ settled.evidence settled.paired,
    )
