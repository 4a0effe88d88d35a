-- ===== src/Ground/Audit/Soundness.antt =====
-- What a valid delivery of `check` (ground/link.py) says of the two recordings.
use Prim.Native.String.{String}
use tvc.Prelude.{
  ℕ, ◌+◌, ◌-◌, ◌≤◌, ◌≡◌, refl, Bool, true, false, not, if◌then◌else◌, none, List, [], ◌∷◌, length,
  arith, leb, ◌==◌, ◌&&◌, ltb,
}
use tvc.Prelude.Json.{Members}
use tvc.Prelude.Result.{Result, ok, err, >>=-eq-ok, require, Returns, bind-Returns, Returns-of_ok}
use tvc.Ground.Match.{Record, Delivery, Mismatch, match_streams}
use tvc.Ground.Match.Accounting.{match_streams-IsAccount}
use tvc.Ground.Match.Subsequence.{IsSequence, IsThinned, lost, kept, match_streams_iff}
use tvc.Ground.Audit.{
  Audit, invalid, Report, Summary, Refusal, check, check_report, check_summary, check_populations,
  matched_streams,
}

-- The bytes of the frames.
abbrev pub frames : List Record → List (List ℕ)
frames [] = []
frames (r ∷ rest) = r.raw ∷ frames rest

IsThinned-le :
    (ground vehicle : List Record) → IsThinned ground vehicle → length ground ≤ length vehicle
IsThinned-le [] vehicle th = omega arith
IsThinned-le (g ∷ ground) [] th = elim th [ ]
IsThinned-le (g ∷ ground) (v ∷ vehicle) (lost _ th) =
    omega (arith, IsThinned-le (g ∷ ground) vehicle th)
IsThinned-le (g ∷ ground) (v ∷ vehicle) (kept _ _ et er th) =
    omega (arith, IsThinned-le ground vehicle th)

-- A part of the frames that is as long as the whole is the whole.
IsThinned-frames :
    (ground vehicle : List Record)
    → IsThinned ground vehicle
    → length ground ≡ length vehicle
    → frames ground ≡ frames vehicle
IsThinned-frames [] [] th e = refl
IsThinned-frames [] (v ∷ vehicle) th e = absurd (omega arith)
IsThinned-frames (g ∷ ground) [] th e = elim th [ ]
IsThinned-frames (g ∷ ground) (v ∷ vehicle) (lost _ th) e =
    let shorter = IsThinned-le (g ∷ ground) vehicle th in absurd (omega (arith, shorter, e))
IsThinned-frames (g ∷ ground) (v ∷ vehicle) (kept _ _ et er th) e =
    let rest = IsThinned-frames ground vehicle th (omega (arith, e)) in cc

-- A valid delivery of a vehicle recording to a ground recording.
pub record IsDelivery (vehicle ground : List Record) (a : Audit) : Type 0 where
  pub numbered : IsSequence 0 0 none vehicle
  pub part : IsThinned ground vehicle
  pub each_attempted : a.attempted ≡ length vehicle
  pub sent_or_failed : a.attempted ≡ a.sent + a.send_errors
  pub recorded_sent : length ground + a.not_recorded_after_success ≡ a.sent
  pub complete : a.delivery_complete ≡ true → frames ground ≡ frames vehicle

matched_streams-ok :
    (r : Result Mismatch Delivery) (d : Delivery) → matched_streams r ≡ ok d → r ≡ ok d
matched_streams-ok (err m) d h = cc
matched_streams-ok (ok found) d h = cc

-- What the requirements on the populations let through.
record IsAudited (d : Delivery) (a : Audit) : Type 0 where
  pub attempted : a.attempted ≡ d.vehicle_records
  pub outcomes : a.attempted ≡ a.sent + a.send_errors
  pub recorded : d.ground_records + a.not_recorded_after_success ≡ a.sent
  pub complete : a.delivery_complete ≡ true → d.ground_records ≡ d.vehicle_records

require-true : (b : Bool) (e : Refusal) (u : Unit {0}) → require b e ≡ ok u → b ≡ true
require-true true e u h = refl
require-true false e u h = cc

accounted :
    (v observed attempted sent failed missing : ℕ)
    → (attempted == sent + failed && attempted == v) ≡ true
    → (leb observed sent && leb sent attempted && leb failed missing) ≡ true
    → (attempted ≡ v)
      × (attempted ≡ sent + failed)
      × (observed + (sent - observed) ≡ sent)
      × ((observed == v && ltb 0 v) ≡ true → observed ≡ v)
accounted v observed attempted sent failed missing h k = ground arith

check_populations-IsAudited :
    (report : Report) (summary : Summary) (d : Delivery)
    → Returns (IsAudited d) (check_populations report summary d)
check_populations-IsAudited report summary d =
    let g = summary.ground in
    bind-Returns (IsAudited d)
      (require (d.vehicle_records == summary.records && summary.records == summary.total_cycles)
        invalid)
      _
      (λ u1 e1.
        bind-Returns (IsAudited d)
          (require
            (d.ground_records == report.frame_count
              && report.frame_count == report.counters.recorded)
            invalid)
          _
          (λ u2 e2.
            bind-Returns (IsAudited d)
              (require
                (if report.has_source then not (d.ground_records == 0) else d.ground_records == 0)
                invalid)
              _
              (λ u3 e3.
                bind-Returns (IsAudited d)
                  (require
                    (g.attempted == g.sent + g.send_errors && g.attempted == d.vehicle_records)
                    invalid)
                  _
                  (λ u4 e4.
                    bind-Returns (IsAudited d)
                      (require
                        (leb d.ground_records g.sent
                          && leb g.sent g.attempted
                          && leb g.send_errors d.ground_lost)
                        invalid)
                      _
                      (λ u5 e5.
                        bind-Returns (IsAudited d)
                          (require (d.vehicle_records == d.ground_records + d.ground_lost) invalid)
                          _
                          (λ u6 e6.
                            bind-Returns (IsAudited d)
                              (require
                                (d.ground_lost == g.send_errors + (g.sent - d.ground_records))
                                invalid)
                              _
                              (λ u7 e7.
                                let (all, outcomes, recorded, complete) =
                                  accounted d.vehicle_records d.ground_records g.attempted g.sent
                                    g.send_errors d.ground_lost (require-true _ invalid u4 e4)
                                    (require-true _ invalid u5 e5) in
                                record {
                                  attempted = all;
                                  outcomes = outcomes;
                                  recorded = recorded;
                                  complete = complete;
                                })))))))

module _ (is_address : String → Bool) where
  -- If the check finds a delivery valid, the vehicle records are numbered consecutively from 0 with
  -- increasing ticks and the ground records are some of them in their order; each was attempted, every
  -- attempt was sent or failed, and what was sent is what the ground recorded and what it did not. A
  -- complete delivery has the same frames on both sides.
  pub check-IsDelivery :
      (digest : String) (vehicle_exit receiver_exit : ℕ) (summary report : Members)
      (vehicle ground : List Record) (a : Audit)
      → check is_address digest vehicle_exit receiver_exit summary report vehicle ground ≡ ok a
      → IsDelivery vehicle ground a
  unfolding check
  check-IsDelivery digest vehicle_exit receiver_exit summary report vehicle gs a h =
      let (received, e0, h0) =
        >>=-eq-ok (check_report is_address digest vehicle_exit receiver_exit report) _ h in
      let (flown, e1, h1) = >>=-eq-ok (check_summary is_address received.bound summary) _ h0 in
      let (d, e2, h2) = >>=-eq-ok (matched_streams (match_streams 0 vehicle gs)) _ h1 in
      let matched = matched_streams-ok (match_streams 0 vehicle gs) d e2 in
      let audited =
        Returns-of_ok (IsAudited d) (check_populations received flown d) a
          (check_populations-IsAudited received flown d) h2 in
      let (numbered, part) = (match_streams_iff 0 vehicle gs).0 (d, matched) in
      let account = match_streams-IsAccount 0 vehicle gs d matched in
      record {
        numbered = numbered;
        part = part;
        each_attempted = omega (arith, audited.attempted, account.vehicle_all);
        sent_or_failed = audited.outcomes;
        recorded_sent = omega (arith, audited.recorded, account.ground_all);
        complete = λ c.
            IsThinned-frames gs vehicle part
              (omega (arith, audited.complete c, account.vehicle_all, account.ground_all));
      }
