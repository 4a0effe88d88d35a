-- ===== src/Evidence/Validate/Coverage.antt =====
-- The coverage of a free-running summary that is found valid (scripts/latency.py validate).
use Prim.Native.String.{String}
use text.Mathlib.Text.{◌==◌ as str_eq}
use tvc.Prelude.{
  ℕ, ◌+◌, ◌≤◌, ◌<◌, ◌≡◌, refl, sym, subst, Bool, true, false, not, ◌&&◌, Option, none, some, List,
  [], ◌∷◌, length, drop, length-drop, ◌==◌, ==_iff, if◌then◌else◌, arith, both_true, Bool-cases,
  inl, inr,
}
use tvc.Prelude.Trail.{Trail, clean, went, stopped, fault_if-clean, then_check-clean}
use tvc.Evidence.Counters.{Counts, value, total}
use tvc.Evidence.Observation.{
  is_admitted, observation_ok, fresh_ticks, IsIncreasing, IsDated, observation_ok-IsDated,
}
use tvc.Evidence.Validate.{
  Row, FreerunSummary, validate, concluded_validation, counters_there, trail_of, checks_of,
  check_recording, check_identities, check_terminal, check_rows, check_counts, expect, count_rows,
  indicator, is_served, controls_of, window, dispositions, check_window, check_first_send,
}

-- What a valid summary says of the control records.
pub record IsMeasured (s : FreerunSummary) (rows : List Row) : Type 0 where
  pub recorded : length rows ≡ s.total_cycles
  pub disposed : value s.link "received" ≡ total s.link dispositions + s.parked_at_end
  pub answered :
      value s.link "actuator_transmitted" + value s.link "actuator_tx_fail" + s.terminal_cycle
      ≡ s.total_cycles
  pub observed : IsIncreasing 0 (fresh_ticks (controls_of rows)) × IsDated (controls_of rows)
  pub served : value s.link_recorded "served" ≤ value s.link_recorded "consumed"
  pub consumed : value s.link_recorded "consumed" ≤ window s

pub from_not : (b : Bool) → not b ≡ false → b ≡ true
from_not true h = refl
from_not false h = sym h

pub expect-clean : (name : String) (b : Bool) → expect name b ≡ clean → b ≡ true
expect-clean name b h = from_not b (fault_if-clean (not b) name h)

indicator-le_one : (b : Bool) → indicator b ≤ 1
indicator-le_one true = omega arith
indicator-le_one false = omega arith

count_rows-length : (test : Row → Bool) (rows : List Row) → count_rows test rows ≤ length rows
count_rows-length test [] = omega arith
count_rows-length test (r ∷ rows) =
    omega (arith, indicator-le_one (test r), count_rows-length test rows)

indicator-and : (a b : Bool) → indicator (a && b) ≤ indicator a
indicator-and true true = omega arith
indicator-and true false = omega arith
indicator-and false b = omega arith

count_rows-served :
    (rows : List Row)
    → count_rows is_served rows ≤ count_rows (λ r. is_admitted r.observed_control) rows
count_rows-served [] = omega arith
count_rows-served (r ∷ rows) =
    omega (arith, indicator-and (is_admitted r.observed_control) _, count_rows-served rows)

-- The counters of the window against its rows.
check_counts-clean :
    (name : String) (c : Counts) (rows : List Row) (terminal_rx : ℕ)
    → check_counts name c rows terminal_rx ≡ clean
    → (value c "consumed" ≡ count_rows (λ r. is_admitted r.observed_control) rows)
      × (value c "served" ≡ count_rows is_served rows)
unfolding check_counts
check_counts-clean name c rows terminal_rx h =
    let (_, t1) = then_check-clean (expect _ _) _ h in
    let (consumed, t2) =
      then_check-clean
        (expect _ (value c "consumed" == count_rows (λ r. is_admitted r.observed_control) rows)) _
        t1 in
    let (served, t3) =
      then_check-clean (expect _ (value c "served" == count_rows is_served rows)) _ t2 in
    (
      (==_iff (value c "consumed") (count_rows (λ r. is_admitted r.observed_control) rows)).0
          (expect-clean _ _ consumed),
      (==_iff (value c "served") (count_rows is_served rows)).0 (expect-clean _ _ served),
    )

check_recording-clean :
    (s : FreerunSummary) (rows : List Row)
    → check_recording s rows ≡ clean
    → length rows ≡ s.total_cycles
unfolding check_recording
check_recording-clean s rows h =
    let (_, t1) = then_check-clean (expect _ (s.cycles == window s)) _ h in
    let (counted, _) =
      then_check-clean (expect _ (length rows == s.total_cycles && s.total_cycles == s.records)) _
        t1 in
    (==_iff (length rows) s.total_cycles).0 (both_true _ _ (expect-clean _ _ counted)).0

check_identities-clean :
    (s : FreerunSummary)
    → check_identities s ≡ clean
    → value s.link "received" ≡ total s.link dispositions + s.parked_at_end
unfolding check_identities
check_identities-clean s h =
    let (_, t1) = then_check-clean (check_window s) _ h in
    let (e3, _) =
      then_check-clean
        (expect _ (value s.link "received" == total s.link dispositions + s.parked_at_end)) _ t1 in
    (==_iff (value s.link "received") (total s.link dispositions + s.parked_at_end)).0
      (expect-clean _ _ e3)

check_terminal-clean :
    (s : FreerunSummary) (rows : List Row)
    → check_terminal s rows ≡ clean
    → value s.link "actuator_transmitted" + value s.link "actuator_tx_fail" + s.terminal_cycle
      ≡ s.total_cycles
unfolding check_terminal
check_terminal-clean s rows h =
    let (_, t1) = then_check-clean (expect _ _) _ h in
    let (_, t2) = then_check-clean (expect _ _) _ t1 in
    let (_, t3) = then_check-clean (check_first_send s rows) _ t2 in
    let (e1, _) =
      then_check-clean
        (expect _ (
          value s.link "actuator_transmitted" + value s.link "actuator_tx_fail" + s.terminal_cycle
          == s.total_cycles))
        _ t3 in
    (==_iff
        (value s.link "actuator_transmitted" + value s.link "actuator_tx_fail" + s.terminal_cycle)
        s.total_cycles).0
      (expect-clean _ _ e1)

check_rows-clean :
    (s : FreerunSummary) (rows : List Row)
    → check_rows s rows ≡ clean
    → observation_ok (controls_of rows) ≡ true
unfolding check_rows
check_rows-clean s rows h =
    let (_, t1) = then_check-clean (expect _ _) _ h in
    let (_, t2) = then_check-clean (expect _ _) _ t1 in
    let (_, t3) = then_check-clean (expect _ _) _ t2 in expect-clean _ _ t3

checks_of-IsMeasured :
    (s : FreerunSummary) (rows : List Row)
    → check_recording s rows ≡ clean
    → checks_of s rows ≡ clean
    → IsMeasured s rows
unfolding checks_of
checks_of-IsMeasured s rows first h =
    let inside : List Row = drop s.warmup rows in
    let (identities, t1) = then_check-clean (check_identities s) _ h in
    let (ended, t2) = then_check-clean (check_terminal s rows) _ t1 in
    let (timed, t3) = then_check-clean (check_rows s rows) _ t2 in
    let (_, t4) = then_check-clean (check_counts "episode" s.link rows s.up_received_raw) _ t3 in
    let (counted, t5) =
      then_check-clean (check_counts "recorded" s.link_recorded inside s.up_received_raw_recorded) _
        t4 in
    let whole = check_recording-clean s rows first in
    let (consumed, served) =
      check_counts-clean "recorded" s.link_recorded inside s.up_received_raw_recorded counted in
    let most = count_rows-length (λ r. is_admitted r.observed_control) inside in
    let fewer = count_rows-served inside in
    let left = length-drop s.warmup rows in
    record {
      recorded = whole;
      disposed = check_identities-clean s identities;
      answered = check_terminal-clean s rows ended;
      observed = observation_ok-IsDated (controls_of rows) (check_rows-clean s rows timed);
      served = omega (arith, consumed, served, fewer);
      consumed = omega (arith, consumed, most, left, whole);
    }

concluded-clean :
    (s : FreerunSummary) (t : Trail String) → (concluded_validation s t).valid ≡ true → t ≡ clean
concluded-clean s (stopped f fs) h = cc
concluded-clean s (went []) h = refl
concluded-clean s (went (f ∷ fs)) h = cc

concluded_faultless :
    (s : FreerunSummary) (t : Trail String)
    → (concluded_validation s t).faults ≡ []
    → (concluded_validation s t).valid ≡ true
concluded_faultless s (stopped f fs) h = cc
concluded_faultless s (went []) h = refl
concluded_faultless s (went (f ∷ fs)) h = cc

pub validate_faultless :
    (s : FreerunSummary) (rows : List Row)
    → (validate s rows).faults ≡ []
    → (validate s rows).valid ≡ true
unfolding validate
validate_faultless s rows h = concluded_faultless s (trail_of s rows) h

unless_stopped :
    (b : Bool) (f : String) (t : Trail String) → (if b then stopped f [] else t) ≡ clean → t ≡ clean
unless_stopped true f t h = cc
unless_stopped false f t h = h

-- A coverage that is there is a part of a positive number of cycles, as large as `count`.
unfoldable pub IsPart : ℕ → Option (ℕ × ℕ) → Type 0
IsPart hist_count none = Unit
IsPart hist_count (some (n, d)) = (n ≡ hist_count) × (n ≤ d) × (0 < d)

bounded_quotient :
    (hist_count cycles : ℕ)
    → hist_count ≤ cycles
    → IsPart hist_count (if cycles == 0 then none else some (hist_count, cycles))
unfolding IsPart
bounded_quotient hist_count cycles h = elim (Bool-cases (cycles == 0)) [
  | inl none_left ↦ rw none_left tt
  | inr some_left ↦ rw some_left (refl, h, ground arith)
]

-- If a summary is found valid against its control records, there is a record for each cycle; what
-- the link received was disposed of once or is still parked; a cycle is terminal or had its actuator
-- datagram sent or failed; the admitted samples are in order and date every record; and the coverages
-- are parts of a positive number of recorded cycles, the one of the served no more than the one of
-- the consumed samples.
pub validate-IsMeasured :
    (s : FreerunSummary) (rows : List Row)
    → (validate s rows).valid ≡ true
    → IsMeasured s rows
      × IsPart (value s.link_recorded "served") (validate s rows).served_coverage
      × IsPart (value s.link_recorded "consumed") (validate s rows).observation_coverage
unfolding validate
validate-IsMeasured s rows h =
    let whole = concluded-clean s (trail_of s rows) h in
    let counted = unless_stopped (not (str_eq s.mode "freerun")) _ _ whole in
    let (first, rest) = then_check-clean (check_recording s rows) _ counted in
    let checked = unless_stopped (not (counters_there s)) _ (checks_of s rows) rest in
    let measured = checks_of-IsMeasured s rows first checked in
    (
      measured,
      subst
          (λ t. IsPart (value s.link_recorded "served") (concluded_validation s t).served_coverage)
          (sym whole)
          (bounded_quotient (value s.link_recorded "served") (window s)
            (omega (arith, measured.served, measured.consumed))),
      subst
          (λ t.
            IsPart (value s.link_recorded "consumed")
              (concluded_validation s t).observation_coverage)
          (sym whole)
          (bounded_quotient (value s.link_recorded "consumed") (window s) measured.consumed),
    )
