-- ===== src/Ground/Audit.antt =====
-- The checks of a delivery in `check` of ground/link.py: the parsed summary of the vehicle, the parsed
-- report of the receiver and the frames of the two recordings. The digests are compared where the
-- reports carry them; reading the files is outside.
pub mod Soundness
use Prim.Native.String.{String, ◌++◌ as ◌<>◌}
use text.Mathlib.Text.{◌==◌ as str_eq}
use tvc.Prelude.{
  ℕ, zero, suc, ◌+◌, ◌-◌, ◌/◌, ◌%◌, Bool, true, false, not, ◌&&◌, ◌||◌, Option, none, some, List,
  [], ◌∷◌, ltb, leb, ◌==◌, if◌then◌else◌, is_some,
}
use tvc.Prelude.Int.{ℤ, pos, negsuc, is_zero}
use tvc.Prelude.Json.{
  Json, Items, Members, null, boolean, integer, string, array, object, no_item, item, value_at,
}
use tvc.Prelude.Result.{Result, ok, err, ◌>>=◌, ◌>>◌, require}
use tvc.Ground.Collect.{eintr}
use tvc.Ground.Receiver.{Counters}
use tvc.Ground.Match.{Record, Delivery, Mismatch, match_streams}

-- How a check ends that is not valid: its status `invalid`, or `disabled`.
pub data Refusal : Type 0 where
  invalid disabled : Refusal

abbrev pub demand : {A : Type 0} → Option A → Result Refusal A
demand none = err invalid
demand (some a) = ok a

-- integer(value, name)
abbrev natural : Option Json → Option ℕ
natural (some (integer (pos n))) = some n
natural _ = none

-- integer(value, name, signed=True)
abbrev signed : Option Json → Option ℤ
signed (some (integer n)) = some n
signed _ = none

-- boolean(value, name)
abbrev flag : Option Json → Option Bool
flag (some (boolean b)) = some b
flag _ = none

abbrev members_of : Option Json → Option Members
members_of (some (object members)) = some members
members_of _ = none

abbrev text_of : Option Json → Option String
text_of (some (string s)) = some s
text_of _ = none

abbrev is_text : Option Json → String → Bool
is_text (some (string s)) expected = str_eq s expected
is_text _ expected = false

abbrev pub natural_at : Members → String → Result Refusal ℕ
natural_at members key = demand (natural (value_at key members))

abbrev pub flag_at : Members → String → Result Refusal Bool
flag_at members key = demand (flag (value_at key members))

abbrev pub members_at : Members → String → Result Refusal Members
members_at members key = demand (members_of (value_at key members))

-- str(n), where one unit of fuel is used for a digit.
abbrev digit : ℕ → String
digit n =
    if n == 0
    then "0"
    else if n == 1
    then "1"
    else if n == 2
    then "2"
    else if n == 3
    then "3"
    else if n == 4
    then "4"
    else if n == 5
    then "5"
    else if n == 6
    then "6"
    else if n == 7
    then "7"
    else if n == 8
    then "8"
    else "9"

abbrev decimal : ℕ → ℕ → String
decimal zero n = digit n
decimal (suc fuel) n =
    let front : String = decimal fuel (n / 10) in
    if ltb n 10 then digit n else front <> digit (n % 10)

-- A port has five digits at most.
abbrev endpoint_text : String → ℕ → String
endpoint_text host port = host <> ":" <> decimal 5 port

abbrev checked_endpoint : Bool → String → Option ℕ → Option String
checked_endpoint false host port = none
checked_endpoint true host none = none
checked_endpoint true host (some port) =
    if ltb 0 port && leb port 65535 then some (endpoint_text host port) else none

abbrev pub read_counters : Members → Result Refusal Counters
read_counters c = do
  received ← natural_at c "received"
  foreign ← natural_at c "foreign"
  malformed ← natural_at c "malformed"
  duplicate ← natural_at c "duplicate"
  out_of_order ← natural_at c "out_of_order"
  conflict ← natural_at c "conflict"
  recorded ← natural_at c "recorded"
  write_failed ← natural_at c "write_failed_datagrams"
  socket_errors ← natural_at c "socket_errors"
  last_errno ← natural_at c "last_errno"
  ok (record {
    received = received;
    foreign = foreign;
    malformed = malformed;
    duplicate = duplicate;
    out_of_order = out_of_order;
    conflict = conflict;
    recorded = recorded;
    write_failed_datagrams = write_failed;
    socket_errors = socket_errors;
    last_errno = last_errno;
  })

abbrev check_counters : Counters → Result Refusal Unit
check_counters c =
    require
      (c.received
        == c.foreign + c.malformed + c.duplicate + c.out_of_order + c.conflict + c.recorded
          + c.write_failed_datagrams)
      invalid
    >> require (c.malformed == 0 && c.conflict == 0 && c.write_failed_datagrams == 0) invalid
    >> require
        ((c.socket_errors == 0 && c.last_errno == 0)
          || (ltb 0 c.socket_errors && c.last_errno == eintr))
        invalid

-- What the summary of the vehicle says of its ground link.
pub record GroundCounts : Type 0 where
  pub attempted : ℕ
  pub sent : ℕ
  pub send_errors : ℕ
  pub last_errno : ℕ
  pub short_sends : ℕ
  pub setup_errno : ℕ

abbrev pub read_ground : Members → Result Refusal GroundCounts
read_ground g = do
  attempted ← natural_at g "attempted"
  sent ← natural_at g "sent"
  send_errors ← natural_at g "send_errors"
  last_errno ← natural_at g "last_errno"
  short_sends ← natural_at g "short_sends"
  setup_errno ← natural_at g "setup_errno"
  ok (record {
    attempted = attempted;
    sent = sent;
    send_errors = send_errors;
    last_errno = last_errno;
    short_sends = short_sends;
    setup_errno = setup_errno;
  })

abbrev check_ground : GroundCounts → Result Refusal Unit
check_ground g =
    require (leb g.short_sends g.send_errors) invalid
    >> require
        ((g.send_errors == 0 && g.last_errno == 0) || (ltb 0 g.send_errors && ltb 0 g.last_errno))
        invalid

-- The source of a report: the outer `none` for a missing key, the inner one for null.
abbrev source_of : Option Json → Option (Option Json)
source_of none = none
source_of (some null) = some none
source_of (some v) = some (some v)

abbrev is_nonempty : Option String → Bool
is_nonempty none = false
is_nonempty (some s) = not (str_eq s "")

-- What the checks of the report leave: its counters, its frame count, whether it has a source, and
-- the endpoint that it was bound to.
pub record Report : Type 0 where
  pub counters : Counters
  pub frame_count : ℕ
  pub has_source : Bool
  pub bound : String

pub record Summary : Type 0 where
  pub total_cycles : ℕ
  pub records : ℕ
  pub ground : GroundCounts

-- A valid delivery.
pub record Audit : Type 0 where
  pub populations : Delivery
  pub attempted : ℕ
  pub sent : ℕ
  pub send_errors : ℕ
  pub not_recorded_after_success : ℕ
  pub delivery_complete : Bool
  pub is_empty : Bool

abbrev pub matched_streams : Result Mismatch Delivery → Result Refusal Delivery
matched_streams (err m) = err invalid
matched_streams (ok d) = ok d

-- The requirements on the populations.
abbrev pub check_populations : Report → Summary → Delivery → Result Refusal Audit
check_populations report summary d =
    let v : ℕ = d.vehicle_records in
    let observed : ℕ = d.ground_records in
    let g : GroundCounts = summary.ground in
    do
      require (v == summary.records && summary.records == summary.total_cycles) invalid
      require (observed == report.frame_count && report.frame_count == report.counters.recorded)
          invalid
      require (if report.has_source then not (observed == 0) else observed == 0) invalid
      require (g.attempted == g.sent + g.send_errors && g.attempted == v) invalid
      require (leb observed g.sent && leb g.sent g.attempted && leb g.send_errors d.ground_lost)
          invalid
      require (v == observed + d.ground_lost) invalid
      require (d.ground_lost == g.send_errors + (g.sent - observed)) invalid
      ok (record {
        populations = d;
        attempted = g.attempted;
        sent = g.sent;
        send_errors = g.send_errors;
        not_recorded_after_success = g.sent - observed;
        delivery_complete = observed == v && ltb 0 v;
        is_empty = v == 0;
      })

-- `is_address host` stands for socket.inet_pton, which raises for what is not an IPv4 address.
module _ (is_address : String → Bool) where
  abbrev pub endpoint : Option Json → Option String
  endpoint (some (array (item (string host) (item port no_item)))) =
      checked_endpoint (is_address host) host (natural (some port))
  endpoint _ = none

  abbrev source_fits : Option (Option Json) → Bool
  source_fits none = false
  source_fits (some none) = true
  source_fits (some (some v)) = is_some (endpoint (some v))

  -- The checks of the receiver's report, whose recording has the digest `digest`.
  abbrev pub check_report : String → ℕ → ℕ → Members → Result Refusal Report
  check_report digest vehicle_exit receiver_exit report = do
    require (is_text (value_at "format" report) "tvc-ground-receiver-1") invalid
    require (vehicle_exit == 0 && receiver_exit == 0) invalid
    interrupted ← flag_at report "interrupted"
    truncated ← flag_at report "shutdown_truncated"
    require (not interrupted && not truncated) invalid
    c ← members_at report "counters"
    counters ← read_counters c
    check_counters counters
    bound ← demand (endpoint (value_at "bound" report))
    require (source_fits (source_of (value_at "source" report))) invalid
    require (is_nonempty (text_of (value_at "recording" report))) invalid
    require (is_text (value_at "recording_sha256" report) digest) invalid
    frame_count ← natural_at report "frame_count"
    ok (record {
      counters = counters;
      frame_count = frame_count;
      has_source = elim (source_of (value_at "source" report)) [
        | none ↦ false
        | some source ↦ is_some source
      ];
      bound = bound;
    })

  -- The checks of the vehicle's summary.
  abbrev pub check_summary : String → Members → Result Refusal Summary
  check_summary bound summary = do
    require (is_text (value_at "mode" summary) "freerun") invalid
    total ← natural_at summary "total_cycles"
    telemetry ← members_at summary "telemetry"
    records ← natural_at telemetry "records"
    dropped ← natural_at telemetry "dropped"
    require (dropped == 0) invalid
    g ← members_at summary "ground"
    applied ← members_at summary "applied"
    requested ← flag_at g "requested"
    is_applied ← flag_at applied "ground"
    counts ← read_ground g
    resolver_error ← demand (signed (value_at "resolver_error" g))
    require requested disabled
    require (is_applied && counts.setup_errno == 0 && is_zero resolver_error) invalid
    require (is_text (value_at "endpoint" g) bound) invalid
    check_ground counts
    ok (record { total_cycles = total; records = records; ground = counts })

  -- check, from the parsed documents on.
  unfoldable pub check :
      String → ℕ → ℕ → Members → Members → List Record → List Record → Result Refusal Audit
  check digest vehicle_exit receiver_exit summary report vehicle ground = do
    receiver ← check_report digest vehicle_exit receiver_exit report
    flown ← check_summary receiver.bound summary
    populations ← matched_streams (match_streams 0 vehicle ground)
    check_populations receiver flown populations
