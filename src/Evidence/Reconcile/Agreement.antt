-- ===== src/Evidence/Reconcile/Agreement.antt =====
-- What an eligible reconciliation of a lockstep run says of the evidence (scripts/reconcile.py).
use tvc.Prelude.{
  ap, ℕ, ◌+◌, ◌<◌, ◌≡◌, refl, subst, sym, ◌∙◌, Bool, true, false, not, ◌&&◌, Option, none, some,
  List, [], ◌∷◌, length, leb, ltb, ◌==◌, is_some, both_true, ==_iff,
}
use tvc.Sim.Rng.{StreamName, link_loss_up, link_loss_down}
use tvc.Prelude.Int.{pos}
use tvc.Prelude.Trail.{
  went, stopped, faults_of, faults_of-clean, Trail, clean, fault_if, fault_if-clean,
  then_check-clean,
}
use tvc.Evidence.Counters.{value}
use tvc.Evidence.Walk.{SensorRow, Logged, rounds_of}
use tvc.Evidence.Walk.Staleness.{IsAgreed, fresh_count}
use tvc.Evidence.Reconcile.{
  uplink, downlink, Fault, VehicleReport, SimReport, Stream, leg, artifacts, walked, rng_streams,
  stream_owned, terminal_reasons, terminal_record, simulator_reason, invented_observation,
  vehicle_reason_unseen, last_record, is_final_record, before_terminal, concluded, judged_after,
  reconcile, is_expected, original_sends, population, same_reason,
}
use tvc.Evidence.Reconcile.Checks.{
  IsDelivered, leg-IsDelivered, artifacts-IsComplete, walked-clean, rounds_of-length, IsOwned,
  stream_owned-IsOwned, from_not,
}

-- The run of `n` ticks that an eligible reconciliation is about.
pub record IsReconciled (v : VehicleReport) (s : SimReport) (sensors : List SensorRow)
    (controls : List Logged) (n : ℕ) : Type 0 where
  pub cycles : v.total_cycles ≡ pos n
  pub some_cycle : 0 < n
  pub ticks : length (rounds_of sensors controls s.actuator_replies s.rows) ≡ n
  pub generated : value s.sent_up "generated" ≡ n
  pub up : IsDelivered s.sent_up v.link uplink
  pub down : IsDelivered v.actuator s.received_down downlink
  pub rows_agree : IsAgreed 0 (rounds_of sensors controls s.actuator_replies s.rows)
  pub admitted :
      value v.link "admitted" ≡ fresh_count (rounds_of sensors controls s.actuator_replies s.rows)
  pub disposed :
      value v.link "admitted" + value v.link "sample_invalid" + value v.link "sample_nonfinite" ≡ n
  pub up_stream : IsOwned s.seed n link_loss_up s.up_stream
  pub down_stream : IsOwned s.seed n link_loss_down s.down_stream

before_terminal-IsReconciled :
    (v : VehicleReport) (s : SimReport) (sensors : List SensorRow) (controls : List Logged)
    → before_terminal v s sensors controls ≡ clean
    → (n : ℕ) × IsReconciled v s sensors controls n
unfolding before_terminal rng_streams
before_terminal-IsReconciled v s sensors controls h =
    let (up, t1) = then_check-clean (leg uplink s.sent_up v.link) _ h in
    let (down, t2) = then_check-clean (leg downlink v.actuator s.received_down) _ t1 in
    let (_, t3) = then_check-clean (original_sends v.actuator controls) _ t2 in
    let (_, t4) = then_check-clean (population v) _ t3 in
    let (whole, t5) = then_check-clean (artifacts v s sensors controls) _ t4 in
    let (seen, t6) = then_check-clean (walked v s sensors controls) _ t5 in
    let (first, second) =
      then_check-clean
        (stream_owned s.seed (value s.sent_up "generated") link_loss_up 0 s.up_stream) _ t6 in
    let (n, full) = artifacts-IsComplete v s sensors controls whole in
    let (rows_agree, admitted, disposed) = walked-clean v s sensors controls seen in
    let ticks =
      rounds_of-length sensors controls s.actuator_replies s.rows n full.sampled full.logged
        full.answered full.traced in
    let owned =
      λ (name : StreamName) (stream : Stream)
          (o : IsOwned s.seed (value s.sent_up "generated") name stream).
        subst (λ m. IsOwned s.seed m name stream) full.generated o in
    (
      n,
      record {
        cycles = full.cycles;
        some_cycle = full.some_cycle;
        ticks = ticks;
        generated = full.generated;
        up = leg-IsDelivered uplink s.sent_up v.link up;
        down = leg-IsDelivered downlink v.actuator s.received_down down;
        rows_agree = rows_agree;
        admitted = admitted;
        disposed = disposed ∙ ticks;
        up_stream =
            owned link_loss_up s.up_stream
              (stream_owned-IsOwned s.seed _ link_loss_up 0 s.up_stream first);
        down_stream =
            owned link_loss_down s.down_stream
              (stream_owned-IsOwned s.seed _ link_loss_down 1 s.down_stream second);
      },
    )

concluded-eligible :
    (before ends : List Fault) (paired : Bool)
    → (concluded before ends paired).eligible ≡ true
    → (before ≡ [])
      × (ends ≡ [])
      × (paired ≡ true)
      × ((concluded before ends paired).terminal_agreement ≡ true)
concluded-eligible [] [] true h = (refl, refl, refl, refl)
concluded-eligible [] [] false h = cc
concluded-eligible [] (e ∷ ends) true h = cc
concluded-eligible [] (e ∷ ends) false h = cc
concluded-eligible (b ∷ before) [] true h = cc
concluded-eligible (b ∷ before) [] false h = cc
concluded-eligible (b ∷ before) (e ∷ ends) true h = cc
concluded-eligible (b ∷ before) (e ∷ ends) false h = cc

judged_after-eligible :
    (before ends : Trail Fault) (paired : Bool)
    → (judged_after before ends paired).eligible ≡ true
    → (before ≡ clean)
      × (ends ≡ clean)
      × (paired ≡ true)
      × ((judged_after before ends paired).terminal_agreement ≡ true)
judged_after-eligible (stopped f fs) ends paired h = cc
judged_after-eligible (went before) ends paired h =
    let (none_before, none_after, expected, rows_agree) =
      concluded-eligible before (faults_of ends) paired h in
    (ap went none_before, faults_of-clean ends none_after, expected, rows_agree)

-- The last record is the terminal one, both sides know its reason, and the pair of reasons is one
-- of those expected.
pub record IsEnded (v : VehicleReport) (s : SimReport) (controls : List Logged) (last : Logged)
    : Type 0 where
  pub is_there : last_record controls ≡ some last
  pub state : last.state ≡ 3
  pub reason : v.vehicle_reason ≡ some last.reason
  pub tick : v.reason_tick ≡ some last.tick
  pub seen : s.vehicle_reason_seen ≡ some last.reason
  pub expected : is_expected s.sim_reason (some last.reason) (some last) ≡ true

same_reason_iff : (a b : Option ℕ) → same_reason a b ≡ true → a ≡ b
same_reason_iff none none h = refl
same_reason_iff (some a) (some b) h = ap some ((==_iff a b).0 h)
same_reason_iff none (some b) h = cc
same_reason_iff (some a) none h = cc

is_final_record-some :
    (v : VehicleReport) (o : Option Logged)
    → is_final_record v o ≡ true
    → (last : Logged) × (o ≡ some last)
      × (last.state ≡ 3)
      × (v.vehicle_reason ≡ some last.reason)
      × (v.reason_tick ≡ some last.tick)
is_final_record-some v none h = cc
is_final_record-some v (some r) h =
    let (two, tick) = both_true _ _ h in
    let (state, reason) = both_true _ _ two in
    (
      r,
      refl,
      (==_iff r.state 3).0 state,
      sym (same_reason_iff (some r.reason) v.vehicle_reason reason),
      same_reason_iff v.reason_tick (some r.tick) tick,
    )

terminal_reasons-IsEnded :
    (v : VehicleReport) (s : SimReport) (controls : List Logged)
    → terminal_reasons v s (last_record controls) ≡ clean
    → is_expected s.sim_reason v.vehicle_reason (last_record controls) ≡ true
    → (last : Logged) × IsEnded v s controls last
unfolding terminal_reasons
terminal_reasons-IsEnded v s controls h paired =
    let (last, t1) =
      then_check-clean (fault_if (not (is_final_record v (last_record controls))) terminal_record) _
        h in
    let (_, t2) =
      then_check-clean
        (fault_if
          (ltb 0 s.sim_reason
            && leb s.sim_reason 3
            && not (same_reason v.sim_reason_seen (some s.sim_reason)))
          simulator_reason)
        _ t1 in
    let (_, t3) =
      then_check-clean
        (fault_if (s.sim_reason == 4 && is_some v.sim_reason_seen) invented_observation) _ t2 in
    let seen = from_not _ (fault_if-clean _ vehicle_reason_unseen t3) in
    let (r, there, state, reason, tick) =
      is_final_record-some v (last_record controls)
        (from_not _ (fault_if-clean _ terminal_record last)) in
    (
      r,
      record {
        is_there = there;
        state = state;
        reason = reason;
        tick = tick;
        seen = same_reason_iff s.vehicle_reason_seen v.vehicle_reason seen ∙ reason;
        expected =
            subst (λ o. is_expected s.sim_reason (some r.reason) o ≡ true) there
              (subst (λ o. is_expected s.sim_reason o (last_record controls) ≡ true) reason paired);
      },
    )

-- If the reconciliation of a lockstep run is eligible, there is a positive number of ticks with a row
-- in each of the four records, the counters of both directions satisfy their equations and all that
-- was sent was received; in every record and its reply the staleness is the number of ticks since the
-- last fresh sample, capped at 2^32 - 1, and the reply shows the state, the reason and the command of
-- the record; as many samples were admitted as are fresh, each was disposed of once, and both streams
-- have drawn once for each tick from the seed; the last record is terminal, with the reason and tick
-- of the vehicle's report and of what the simulator saw, its pair of reasons is expected, and the
-- terminal agreement is found.
pub reconcile-IsReconciled :
    (v : VehicleReport) (s : SimReport) (sensors : List SensorRow) (controls : List Logged)
    → (reconcile v s sensors controls).eligible ≡ true
    → ((n : ℕ) × IsReconciled v s sensors controls n)
      × ((last : Logged) × IsEnded v s controls last)
      × ((reconcile v s sensors controls).terminal_agreement ≡ true)
unfolding reconcile
reconcile-IsReconciled v s sensors controls h =
    let (before, ends, paired, rows_agree) =
      judged_after-eligible (before_terminal v s sensors controls)
        (terminal_reasons v s (last_record controls))
        (is_expected s.sim_reason v.vehicle_reason (last_record controls)) h in
    (
      before_terminal-IsReconciled v s sensors controls before,
      terminal_reasons-IsEnded v s controls ends paired,
      rows_agree,
    )
