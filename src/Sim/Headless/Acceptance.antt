-- ===== src/Sim/Headless/Acceptance.antt =====
-- evaluate and evaluate_rows of sim/trace.py.
use tvc.Prelude.{
  ℕ, ◌+◌, ◌-◌, Bool, true, false, ◌&&◌, Option, none, some, List, [], ◌∷◌, ltb, leb, ◌==◌, length,
  drop,
}
use tvc.Float64
use tvc.Sim.Episode.Types.{
  Mode, Reason, stabilized, is_terminated, sim_horizon, TerminalResult, EpisodeState,
}
use tvc.Sim.Headless.{Row, Trace}

pub record Acceptance : Type 0 where
  pub termination : Bool
  pub peak : Bool
  pub has_settled : Bool
  pub cadence : Bool
  pub finiteness : Bool

-- all(self)
abbrev pub passed : Acceptance → Bool
passed a = a.termination && a.peak && a.has_settled && a.cadence && a.finiteness

pub record EvidenceRow : Type 0 where
  pub tick : ℕ
  pub theta : ℕ
  pub omega : ℕ
  pub delta : ℕ
  pub i_state : ℕ
  pub d_prev : ℕ

-- 0.15 and 0.02
abbrev peak_bound : ℕ
peak_bound = 0x3fc3333333333333

abbrev still_bound : ℕ
still_bound = 0x3f947ae147ae147b

abbrev within_bound : ℕ → ℕ → Bool
within_bound value bound = Float64.le (Float64.abs value) bound

abbrev pub every : (EvidenceRow → Bool) → List EvidenceRow → Bool
every p [] = true
every p (row ∷ rows) = p row && every p rows

-- The rows carry the ticks from `tick` on, and pass a test.
abbrev pub consecutive : (EvidenceRow → Bool) → ℕ → List EvidenceRow → Bool
consecutive p tick [] = true
consecutive p tick (row ∷ rows) = row.tick == tick && p row && consecutive p (tick + 1) rows

-- rows[-1].tick == ticks - 1, where there are rows.
abbrev pub ends_at : ℕ → List EvidenceRow → Bool
ends_at ticks [] = false
ends_at ticks (row ∷ []) = row.tick + 1 == ticks
ends_at ticks (row ∷ next ∷ rows) = ends_at ticks (next ∷ rows)

abbrev some_rows : List EvidenceRow → Bool
some_rows [] = false
some_rows (row ∷ rows) = true

abbrev is_horizon : Option ℕ → Bool
is_horizon none = false
is_horizon (some reason) = reason == sim_horizon

abbrev is_ended : Option Mode → Bool
is_ended none = false
is_ended (some mode) = is_terminated mode

abbrev is_stabilized : Reason → Bool
is_stabilized stabilized = true
is_stabilized _ = false

abbrev stabilized_at : ℕ → Option TerminalResult → Bool
stabilized_at ticks none = false
stabilized_at ticks (some terminal) = is_stabilized terminal.reason && terminal.tick + 1 == ticks

abbrev is_still : EvidenceRow → Bool
is_still row = within_bound row.theta still_bound && within_bound row.omega still_bound

abbrev is_finite_row : EvidenceRow → Bool
is_finite_row row =
    Float64.is_finite row.theta
    && Float64.is_finite row.omega
    && Float64.is_finite row.delta
    && Float64.is_finite row.i_state
    && Float64.is_finite row.d_prev

unfoldable pub evaluate_rows :
    List EvidenceRow → ℕ → Option ℕ → Option Mode → Option TerminalResult → Acceptance
evaluate_rows rows ticks_declared sim_reason vehicle_state terminal =
    let window : List EvidenceRow = drop (length rows - 1000) rows in
    record {
      termination =
          ends_at ticks_declared rows
          && is_horizon sim_reason
          && is_ended vehicle_state
          && stabilized_at ticks_declared terminal;
      peak = some_rows rows && every (λ row. within_bound row.theta peak_bound) rows;
      has_settled =
          leb 1000 ticks_declared
          && length window == 1000
          && consecutive is_still (ticks_declared - 1000) window;
      cadence =
          ltb 0 ticks_declared && length rows == ticks_declared && consecutive (λ row. true) 0 rows;
      finiteness = some_rows rows && every is_finite_row rows;
    }

abbrev pub evidence_row : Row → EvidenceRow
evidence_row r = record {
  tick = r.tick;
  theta = r.truth.theta;
  omega = r.truth.omega;
  delta = r.episode.requested_delta;
  i_state = r.episode.state.pid.i_state;
  d_prev = r.episode.state.pid.d_prev;
}

abbrev pub evidence_rows : List Row → List EvidenceRow
evidence_rows [] = []
evidence_rows (row ∷ rows) = evidence_row row ∷ evidence_rows rows

abbrev last_state : List Row → Option EpisodeState
last_state [] = none
last_state (row ∷ []) = some row.episode.state
last_state (row ∷ next ∷ rows) = last_state (next ∷ rows)

abbrev mode_of : Option EpisodeState → Option Mode
mode_of none = none
mode_of (some state) = some state.mode

abbrev terminal_of : Option EpisodeState → Option TerminalResult
terminal_of none = none
terminal_of (some state) = state.terminal

unfoldable pub evaluate : Trace → Acceptance
evaluate trace =
    let state = last_state trace.rows in
    evaluate_rows (evidence_rows trace.rows) trace.ticks_declared trace.sim_reason (mode_of state)
      (terminal_of state)
