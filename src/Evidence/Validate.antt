-- ===== src/Evidence/Validate.antt =====
-- validate of scripts/latency.py: the populations of a free-running summary against its control
-- records. The link counters may be missing or no natural numbers, which raises; the other numbers
-- of the summary are natural. A fault is the text that is appended.
pub mod Coverage
use Prim.Native.String.{String, ◌++◌ as ◌<>◌}
use text.Mathlib.Text.{◌==◌ as str_eq}
use tvc.Prelude.{
  ℕ, zero, suc, ◌+◌, ◌-◌, ◌*◌, ◌/◌, ◌%◌, Bool, true, false, not, ◌&&◌, ◌||◌, Option, none, some,
  List, [], ◌∷◌, map, length, drop, leb, ltb, ◌==◌, if◌then◌else◌, is_some,
}
use tvc.Prelude.Int.{ℤ, pos, ◌+ℤ◌, eq_ℤ, sub_ℤ, leb_ℤ}
use tvc.Prelude.Trail.{Trail, clean, went, stopped, faults_of, fault_if, ◌then_check◌, needs}
use tvc.Evidence.Counters.{Counts, all_counted, value, total}
use tvc.Evidence.Observation.{Control, is_admitted, observation_ok, Ladder, empty_ladder, ladder}

-- A control record.
pub record Row : Type 0 where
  pub observed_control : Control
  pub deadline_ns : ℤ
  pub woke_ns : ℤ
  pub rx_ns : ℤ
  pub tx_ns : ℤ
  pub done_ns : ℤ
  pub state : ℕ
  pub ending_reason : ℕ
  pub rx_count : ℕ
  pub discarded_old : ℕ
  pub discarded_superseded : ℕ
  pub discarded_other : ℕ
  pub drops : ℕ

-- The count, sum and drops of a histogram.
pub record Population : Type 0 where
  pub hist_count : ℕ
  pub sum_ns : ℕ
  pub hist_dropped : ℕ

pub record FreerunSummary : Type 0 where
  pub mode : String
  pub total_cycles : ℕ
  pub warmup : ℕ
  pub cycles : ℕ
  pub records : ℕ
  pub records_dropped : ℕ
  pub episode_transitions : ℕ
  pub record_attempts : ℕ
  pub records_pushed : ℕ
  pub link : Counts
  pub link_recorded : Counts
  pub parked_at_end : ℕ
  pub parked_at_warmup : Option ℕ
  pub terminal_cycle : ℕ
  pub down_attempts : ℕ
  pub down_transmitted : ℕ
  pub down_tx_fail : ℕ
  pub first_tx_ok : Option Bool
  pub up_received_raw : ℕ
  pub up_received_raw_recorded : ℕ
  pub actuator_generated : ℕ
  pub actuator_transmitted : ℕ
  pub actuator_tx_fail : ℕ
  pub tick_base : ℕ
  pub origin_ns : ℤ
  pub latency : Population
  pub uplink_wait : Population
  pub vehicle_compute : Population
  pub jitter_count : ℕ
  pub exec_count : ℕ
  pub dropped_samples : ℕ
  pub discard_age : Population

abbrev pub dispositions : List String
dispositions =
    "consumed" ∷ "discarded_old" ∷ "discarded_superseded" ∷ "discarded_nonfinite"
    ∷ "discarded_skew_excess" ∷ "discarded_duplicate" ∷ "discarded_tick_conflict"
    ∷ "discarded_invalid" ∷ "future_expired" ∷ []

abbrev pub bad_keys : List String
bad_keys = "bad_sync" ∷ "bad_version" ∷ "bad_type" ∷ "bad_length" ∷ "bad_crc" ∷ []

abbrev pub ladder_keys : List String
ladder_keys = "fresh" ∷ "coast" ∷ "neutral" ∷ "lost" ∷ []

-- COUNTERS
abbrev pub link_keys : List String
link_keys =
    "received" ∷ "consumed" ∷ "discarded_old" ∷ "discarded_superseded" ∷ "discarded_nonfinite"
    ∷ "discarded_skew_excess" ∷ "discarded_duplicate" ∷ "discarded_tick_conflict"
    ∷ "discarded_invalid" ∷ "future_expired" ∷ "bad_sync" ∷ "bad_version" ∷ "bad_type"
    ∷ "bad_length" ∷ "bad_crc" ∷ "fresh" ∷ "coast" ∷ "neutral" ∷ "lost" ∷ "actuator_transmitted"
    ∷ "actuator_tx_fail" ∷ "served" ∷ []

-- check(name, condition)
abbrev pub expect : String → Bool → Trail String
expect name condition = fault_if (not condition) name

-- all(test(r) for r in rows), sum(r[key] for r in rows), and how many rows pass a test.
abbrev pub every_row : (Row → Bool) → List Row → Bool
every_row test [] = true
every_row test (r ∷ rows) = test r && every_row test rows

abbrev pub sum_rows : (Row → ℕ) → List Row → ℕ
sum_rows key [] = 0
sum_rows key (r ∷ rows) = key r + sum_rows key rows

abbrev pub indicator : Bool → ℕ
indicator true = 1
indicator false = 0

abbrev pub count_rows : (Row → Bool) → List Row → ℕ
count_rows test rows = sum_rows (λ r. indicator (test r)) rows

abbrev pub was_sent : Row → Bool
was_sent r = r.observed_control.flags / 2 % 2 == 1

-- (r['flags']&3) == 3
abbrev pub is_served : Row → Bool
is_served r = is_admitted r.observed_control && was_sent r

abbrev pub is_terminal_row : Row → Bool
is_terminal_row r = r.state == 3

abbrev pub controls_of : List Row → List Control
controls_of [] = []
controls_of (r ∷ rows) = r.observed_control ∷ controls_of rows

abbrev pub all_zero_counts : Counts → List String → Bool
all_zero_counts c [] = true
all_zero_counts c (key ∷ keys) = value c key == 0 && all_zero_counts c keys

-- max(0, total - warmup)
abbrev pub window : FreerunSummary → ℕ
window s = s.total_cycles - s.warmup

-- The checks on the recording and its owners.
unfoldable pub check_recording : FreerunSummary → List Row → Trail String
check_recording s rows =
    expect "actual recorded window" (s.cycles == window s)
    then_check expect "recording count"
        (length rows == s.total_cycles && s.total_cycles == s.records)
    then_check expect "recording drops"
        (s.records_dropped == 0 && every_row (λ r. r.drops == 0) rows)
    then_check expect "record ownership" (
        s.episode_transitions == s.total_cycles
        && s.record_attempts == s.total_cycles
        && s.records_pushed == s.total_cycles)

-- What is known of the samples that were parked when the window opened.
abbrev pub parked_identity : FreerunSummary → Option ℕ → Trail String
parked_identity s none = stopped "incomplete or invalid measurement evidence" []
parked_identity s (some initial) = expect "T4" (
    value s.link_recorded "received" + initial
    == total s.link_recorded dispositions + s.parked_at_end)

abbrev pub check_window : FreerunSummary → Trail String
check_window s =
    if window s == 0
    then expect "unopened window"
        (not (is_some s.parked_at_warmup) && all_zero_counts s.link_recorded link_keys)
    else parked_identity s s.parked_at_warmup

unfoldable pub check_identities : FreerunSummary → Trail String
check_identities s =
    check_window s
    then_check expect "E3" (value s.link "received" == total s.link dispositions + s.parked_at_end)
    then_check expect "E2" (total s.link ladder_keys == s.total_cycles)
    then_check expect "recorded ladder" (total s.link_recorded ladder_keys == window s)

abbrev pub last_row : List Row → Option Row
last_row [] = none
last_row (r ∷ []) = some r
last_row (r ∷ (q ∷ rest)) = last_row (q ∷ rest)

abbrev pub same_flag : Bool → Bool → Bool
same_flag true b = b
same_flag false b = not b

abbrev pub first_send_ok : FreerunSummary → Bool → Row → Bool
first_send_ok s sent r =
    same_flag sent (was_sent r)
    && leb (indicator sent) s.down_transmitted
    && leb (indicator (not sent)) s.down_tx_fail

-- The outcome of the first terminal send; the last row is only looked up for a bool.
abbrev pub first_send_check : FreerunSummary → List Row → Option Bool → Trail String
first_send_check s rows none = expect "terminal first send" false
first_send_check s rows (some sent) =
    needs "incomplete or invalid measurement evidence" (last_row rows)
      (λ r. expect "terminal first send" (first_send_ok s sent r))

abbrev pub check_first_send : FreerunSummary → List Row → Trail String
check_first_send s rows =
    if s.terminal_cycle == 0
    then expect "terminal first send" (not (is_some s.first_tx_ok))
    else first_send_check s rows s.first_tx_ok

-- The checks on the terminal cycle and the actuator.
unfoldable pub check_terminal : FreerunSummary → List Row → Trail String
check_terminal s rows =
    expect "terminal cycle"
      (s.terminal_cycle == count_rows is_terminal_row rows && leb s.terminal_cycle 1)
    then_check expect "terminal partition" (
        s.down_attempts == s.down_transmitted + s.down_tx_fail
        && (if s.terminal_cycle == 0 then s.down_attempts == 0 else leb 1 s.down_attempts))
    then_check check_first_send s rows
    then_check expect "E1" (
        value s.link "actuator_transmitted" + value s.link "actuator_tx_fail" + s.terminal_cycle
        == s.total_cycles)
    then_check expect "actuator totals" (
        s.actuator_generated + s.terminal_cycle == s.total_cycles
        && s.actuator_transmitted == value s.link "actuator_transmitted"
        && s.actuator_tx_fail == value s.link "actuator_tx_fail")

abbrev pub ticks_ok : FreerunSummary → ℕ → List Row → Bool
ticks_ok s n [] = true
ticks_ok s n (r ∷ rows) =
    r.observed_control.tick == s.tick_base + n
    && eq_ℤ r.deadline_ns (s.origin_ns +ℤ pos (n * 2000000))
    && ticks_ok s (suc n) rows

abbrev pub times_ordered : Row → Bool
times_ordered r =
    leb_ℤ (pos 0) r.woke_ns
    && leb_ℤ r.woke_ns r.rx_ns
    && leb_ℤ r.rx_ns r.tx_ns
    && leb_ℤ r.tx_ns r.done_ns

abbrev pub receipts_bounded : List Row → Bool
receipts_bounded [] = true
receipts_bounded (r ∷ rows) = leb r.rx_count 9 && every_row (λ q. leb q.rx_count 8) rows

unfoldable pub check_rows : FreerunSummary → List Row → Trail String
check_rows s rows =
    expect "record ticks" (ticks_ok s 0 rows)
    then_check expect "timestamp order" (every_row times_ordered rows)
    then_check expect "receive bounds" (receipts_bounded rows)
    then_check expect "admitted observation history" (observation_ok (controls_of rows))

abbrev pub same_ladder : Ladder → Counts → Bool
same_ladder l c =
    l.fresh == value c "fresh"
    && l.coast == value c "coast"
    && l.neutral == value c "neutral"
    && l.lost_rung == value c "lost"

-- The counters of the episode, or of the recorded window, against their rows.
unfoldable pub check_counts : String → Counts → List Row → ℕ → Trail String
check_counts name c rows terminal_rx =
    expect (name <> " ladder flags") (same_ladder (ladder empty_ladder (controls_of rows)) c)
    then_check expect (name <> " consumption")
        (value c "consumed" == count_rows (λ r. is_admitted r.observed_control) rows)
    then_check expect (name <> " served") (value c "served" == count_rows is_served rows)
    then_check expect (name <> " ordinary send") (
        value c "actuator_transmitted"
        == count_rows (λ r. not (is_terminal_row r) && was_sent r) rows)
    then_check expect (name <> " ordinary failure") (
        value c "actuator_tx_fail"
        == count_rows (λ r. not (is_terminal_row r) && not (was_sent r)) rows)
    then_check expect (name <> " discarded_old")
        (value c "discarded_old" == sum_rows (λ r. r.discarded_old) rows)
    then_check expect (name <> " discarded_superseded")
        (value c "discarded_superseded" == sum_rows (λ r. r.discarded_superseded) rows)
    then_check expect (name <> " discarded_other") (
        value c "discarded_nonfinite" + value c "discarded_skew_excess"
        == sum_rows (λ r. r.discarded_other) rows)
    then_check expect (name <> " raw receipt")
        (sum_rows (λ r. r.rx_count) rows == value c "received" + total c bad_keys + terminal_rx)

abbrev pub served_rows : List Row → List Row
served_rows [] = []
served_rows (r ∷ rows) =
    let rest : List Row = served_rows rows in if is_served r then r ∷ rest else rest

abbrev pub sum_ℤ : (Row → ℤ) → List Row → ℤ
sum_ℤ key [] = pos 0
sum_ℤ key (r ∷ rows) = key r +ℤ sum_ℤ key rows

-- One histogram against the times `key` of the served rows.
abbrev pub check_population : String → Population → (Row → ℤ) → List Row → Trail String
check_population name d key served =
    expect (name <> " population") (d.hist_count == length served)
    then_check expect (name <> " formula") (
        eq_ℤ (pos d.sum_ns) (sum_ℤ key served)
        && every_row (λ r. leb_ℤ (pos 0) (key r) && leb_ℤ (key r) (pos 10000000000)) served)
    then_check expect (name <> " drops") (d.hist_dropped == 0)

unfoldable pub check_histograms : FreerunSummary → List Row → Trail String
check_histograms s served =
    check_population "latency_us" s.latency (λ r. sub_ℤ r.tx_ns r.observed_control.sensor_send_ns)
      served
    then_check check_population "uplink_wait_us" s.uplink_wait
        (λ r. sub_ℤ r.rx_ns r.observed_control.sensor_send_ns) served
    then_check check_population "vehicle_compute_us" s.vehicle_compute (λ r. sub_ℤ r.tx_ns r.rx_ns)
        served
    then_check expect "T1" (
        s.jitter_count == s.exec_count
        && s.exec_count == s.cycles
        && s.cycles == window s
        && s.dropped_samples == 0)
    then_check expect "T2" (s.latency.hist_count == value s.link_recorded "served")
    then_check expect "T3" (
        s.discard_age.hist_count
        == total s.link_recorded (
            "discarded_old" ∷ "discarded_superseded" ∷ "discarded_nonfinite"
            ∷ "discarded_skew_excess" ∷ []))
    then_check expect "discard histogram drops" (s.discard_age.hist_dropped == 0)
    then_check (if window s == 0
        then expect "empty discard population" (s.discard_age.sum_ns == 0)
        else clean)

-- The coverages are quotients, kept as their terms.
pub record Validation : Type 0 where
  pub valid : Bool
  pub faults : List String
  pub observation_coverage : Option (ℕ × ℕ)
  pub served_coverage : Option (ℕ × ℕ)

abbrev pub is_empty_list : List String → Bool
is_empty_list [] = true
is_empty_list _ = false

abbrev pub concluded_validation : FreerunSummary → Trail String → Validation
concluded_validation s (stopped fault more) = record {
  valid = false;
  faults = fault ∷ more;
  observation_coverage = none;
  served_coverage = none;
}
concluded_validation s (went faults) = record {
  valid = is_empty_list faults;
  faults = faults;
  observation_coverage =
      if window s == 0 then none else some (value s.link_recorded "consumed", window s);
  served_coverage = if window s == 0 then none else some (value s.link_recorded "served", window s);
}

-- The checks that follow those of the mode, the recording and the link counters.
unfoldable pub checks_of : FreerunSummary → List Row → Trail String
checks_of s rows =
    check_identities s
    then_check check_terminal s rows
    then_check check_rows s rows
    then_check check_counts "episode" s.link rows s.up_received_raw
    then_check check_counts "recorded" s.link_recorded (drop s.warmup rows)
        s.up_received_raw_recorded
    then_check check_histograms s (served_rows (drop s.warmup rows))

abbrev pub counters_there : FreerunSummary → Bool
counters_there s = all_counted link_keys s.link && all_counted link_keys s.link_recorded

abbrev pub trail_of : FreerunSummary → List Row → Trail String
trail_of s rows =
    if not (str_eq s.mode "freerun")
    then stopped "incomplete or invalid measurement evidence" []
    else check_recording s rows
      then_check (if not (counters_there s)
          then stopped "incomplete or invalid measurement evidence" []
          else checks_of s rows)

-- validate, where the fault of an exception goes without its text.
unfoldable pub validate : FreerunSummary → List Row → Validation
validate s rows = concluded_validation s (trail_of s rows)
