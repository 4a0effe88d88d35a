-- ===== src/Tests/AuditRuns.antt =====
-- The check of a delivery on a summary, a report and two short recordings.
use Prim.Native.String.{String}
use tvc.Prelude.{ℕ, ◌+◌, ◌≡◌, refl, Bool, true, false, List, [], ◌∷◌}
use tvc.Prelude.Int.{pos}
use tvc.Prelude.Json.{
  Json, Members, boolean, integer, string, array, object, no_item, item, no_member, member,
}
use tvc.Prelude.Result.{ok, err}
use tvc.Ground.Match.{Record, match_streams, merge_all, merge, match_ground, match_equal}
use tvc.Ground.Audit.{Audit, check, disabled}
use tvc.Ground.Audit.Soundness.{IsDelivery, check-IsDelivery}

abbrev any_address : String → Bool
any_address host = true

abbrev count_of : ℕ → Json
count_of n = integer (pos n)

abbrev receiver_report : Members
receiver_report = member "format" (string "tvc-ground-receiver-1") (
    member "interrupted" (boolean false) (
      member "shutdown_truncated" (boolean false) (
        member "counters"
          (object (
            member "received" (count_of 3) (
              member "foreign" (count_of 0) (
                member "malformed" (count_of 0) (
                  member "duplicate" (count_of 1) (
                    member "out_of_order" (count_of 0) (
                      member "conflict" (count_of 0) (
                        member "recorded" (count_of 2) (
                          member "write_failed_datagrams" (count_of 0) (
                            member "socket_errors" (count_of 0)
                              (member "last_errno" (count_of 0) no_member)))))))))))
          (member "bound" (array (item (string "127.0.0.1") (item (count_of 9105) no_item))) (
            member "source" (array (item (string "127.0.0.1") (item (count_of 40000) no_item))) (
              member "recording" (string "run.ground.tvcrec") (
                member "recording_sha256" (string "d1")
                  (member "frame_count" (count_of 2) no_member))))))))

abbrev ground_summary : Bool → Members
ground_summary requested = member "requested" (boolean requested) (
    member "attempted" (count_of 3) (
      member "sent" (count_of 3) (
        member "send_errors" (count_of 0) (
          member "last_errno" (count_of 0) (
            member "short_sends" (count_of 0) (
              member "setup_errno" (count_of 0) (
                member "resolver_error" (count_of 0)
                  (member "endpoint" (string "127.0.0.1:9105") no_member))))))))

abbrev vehicle_summary : Bool → Members
vehicle_summary requested = member "mode" (string "freerun") (
    member "total_cycles" (count_of 3) (
      member "telemetry"
        (object (member "records" (count_of 3) (member "dropped" (count_of 0) no_member)))
        (member "ground" (object (ground_summary requested))
          (member "applied" (object (member "ground" (boolean true) no_member)) no_member))))

abbrev frame : ℕ → Record
frame n = record { seq = n; tick = n + 10; raw = n ∷ [] }

-- The second of three frames is lost on the way.
abbrev flown : List Record
flown = frame 0 ∷ frame 1 ∷ frame 2 ∷ []

abbrev heard : List Record
heard = frame 0 ∷ frame 2 ∷ []

abbrev verdict : Audit
verdict = record {
  populations = record {
    vehicle_records = 3;
    ground_records = 2;
    leading_lost = 0;
    interior_lost = 1;
    trailing_lost = 0;
    ground_lost = 1;
  };
  attempted = 3;
  sent = 3;
  send_errors = 0;
  not_recorded_after_success = 1;
  delivery_complete = false;
  is_empty = false;
}

delivery_checked :
    (check any_address "d1" 0 0 (vehicle_summary true) receiver_report flown heard ≡ ok verdict)
    × (check any_address "d1" 0 0 (vehicle_summary false) receiver_report flown heard
        ≡ err disabled)
unfolding check match_streams merge_all merge match_ground match_equal
delivery_checked = (refl, refl)

check-IsDelivery_example : IsDelivery flown heard verdict
check-IsDelivery_example =
    check-IsDelivery any_address "d1" 0 0 (vehicle_summary true) receiver_report flown heard verdict
      delivery_checked.0
