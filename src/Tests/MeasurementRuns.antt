-- ===== src/Tests/MeasurementRuns.antt =====
-- A free-running summary of three cycles with its control records.
use tvc.Prelude.{ℕ, ◌+◌, ◌*◌, ◌≡◌, refl, true, false, Bool, none, some, List, [], ◌∷◌}
use tvc.Prelude.Int.{pos, ◌+ℤ◌}
use tvc.Evidence.Counters.{Counts}
use tvc.Evidence.Observation.{observed_from, ladder}
use tvc.Evidence.Validate.{
  Row, FreerunSummary, Population, validate, check_recording, check_identities, check_terminal,
  check_rows, check_counts, check_histograms, checks_of,
}
use tvc.Evidence.Terminal.{Ending, terminal_order, terminal_residual, terminal_causes}
use tvc.Evidence.ReconcileFreerun.{
  SampleRow, VehicleEnd, SimulatorEnd, Handshake, reconcile_freerun, check_delivery, check_uplink,
  check_downlink, check_handshake_counts, check_ending, handshake,
}
use tvc.Evidence.ReconcileFreerun.Delivery.{IsAccounted, IsSettled, reconcile_freerun-IsAccounted}
use tvc.Evidence.Validate.Coverage.{IsMeasured, IsPart, validate-IsMeasured}

-- The counters that are not 0 in either window.
abbrev counts : ℕ → ℕ → Counts
counts coasting failing =
    ("received", some (pos 1))
    ∷ ("consumed", some (pos 1))
    ∷ ("discarded_old", some (pos 0))
    ∷ ("discarded_superseded", some (pos 0))
    ∷ ("discarded_nonfinite", some (pos 0))
    ∷ ("discarded_skew_excess", some (pos 0))
    ∷ ("discarded_duplicate", some (pos 0))
    ∷ ("discarded_tick_conflict", some (pos 0))
    ∷ ("discarded_invalid", some (pos 0))
    ∷ ("future_expired", some (pos 0))
    ∷ ("bad_sync", some (pos 0))
    ∷ ("bad_version", some (pos 0))
    ∷ ("bad_type", some (pos 0))
    ∷ ("bad_length", some (pos 0))
    ∷ ("bad_crc", some (pos 0))
    ∷ ("fresh", some (pos 1))
    ∷ ("coast", some (pos coasting))
    ∷ ("neutral", some (pos 0))
    ∷ ("lost", some (pos 0))
    ∷ ("actuator_transmitted", some (pos 1))
    ∷ ("actuator_tx_fail", some (pos failing))
    ∷ ("served", some (pos 1))
    ∷ []

abbrev one_sample : ℕ → Population
one_sample sum = record { hist_count = 1; sum_ns = sum; hist_dropped = 0 }

abbrev three_cycles : FreerunSummary
three_cycles = record {
  mode = "freerun";
  total_cycles = 3;
  warmup = 1;
  cycles = 2;
  records = 3;
  records_dropped = 0;
  episode_transitions = 3;
  record_attempts = 3;
  records_pushed = 3;
  link = counts 2 1;
  link_recorded = counts 1 0;
  parked_at_end = 0;
  parked_at_warmup = some 0;
  terminal_cycle = 1;
  down_attempts = 1;
  down_transmitted = 1;
  down_tx_fail = 0;
  first_tx_ok = some true;
  up_received_raw = 0;
  up_received_raw_recorded = 0;
  actuator_generated = 2;
  actuator_transmitted = 1;
  actuator_tx_fail = 1;
  tick_base = 7;
  origin_ns = pos 0;
  latency = one_sample 1000;
  uplink_wait = one_sample 500;
  vehicle_compute = one_sample 500;
  jitter_count = 2;
  exec_count = 2;
  dropped_samples = 0;
  discard_age = record { hist_count = 0; sum_ns = 0; hist_dropped = 0 };
}

-- The row of a cycle with the tick, flags, sensor tick and staleness given.
abbrev row_of : ℕ → ℕ → ℕ → ℕ → ℕ → ℕ → ℕ → Row
row_of cycle flags sensor_tick sent staleness received state = record {
  observed_control = record {
    tick = 7 + cycle;
    flags = flags;
    sensor_tick = sensor_tick;
    sensor_send_ns = pos sent;
    staleness = staleness;
  };
  deadline_ns = pos (cycle * 2000000);
  woke_ns = pos 900;
  rx_ns = pos 1000;
  tx_ns = pos 1500;
  done_ns = pos 1600;
  state = state;
  ending_reason = 1;
  rx_count = received;
  discarded_old = 0;
  discarded_superseded = 0;
  discarded_other = 0;
  drops = 0;
}

abbrev cycle_rows : List Row
cycle_rows =
    row_of 0 0 18446744073709551615 0 1 0 1 ∷ row_of 1 3 7 500 1 1 1 ∷ row_of 2 2 7 500 2 0 3 ∷ []

three_cycles-valid : (validate three_cycles cycle_rows).valid ≡ true
unfolding validate check_recording check_identities check_terminal check_rows check_counts
    check_histograms checks_of observed_from ladder ◌+ℤ◌
three_cycles-valid = refl

validate-IsMeasured_example :
    IsMeasured three_cycles cycle_rows
    × IsPart 1 (validate three_cycles cycle_rows).served_coverage
    × IsPart 1 (validate three_cycles cycle_rows).observation_coverage
validate-IsMeasured_example = validate-IsMeasured three_cycles cycle_rows three_cycles-valid

abbrev ending : Bool → Ending
ending caused = record {
  is_caused = caused;
  clock_domain = some 1;
  termination_ns = some 40;
  termination_before_ns = some 30;
}

-- The vehicle ended first, and the simulator answered one terminal packet.
abbrev vehicle_end : VehicleEnd
vehicle_end = record {
  measured = three_cycles;
  vehicle_ending = ending false;
  last_sensor = some 7;
  copies_asked = 12;
  up_tick_conflict = 0;
  up_illegal_reason = 0;
  up_future_expired = 0;
  up_skew_excess = 0;
  up_open = 1;
  up_closed = 100;
  down_first = 50;
  down_last = 50;
  own_reason = some 1;
  own_reason_tick = some 9;
  reason_observed = none;
}

abbrev simulator_end : SimulatorEnd
simulator_end = record {
  replay_mode = "freerun";
  sim_ending = ending true;
  up_generated = 1;
  up_lost = 0;
  up_transmitted = 1;
  up_tx_fail = 0;
  down_received = 1;
  down_selected = 1;
  down_lost = 0;
  down_superseded = 0;
  down_malformed = 0;
  down_invalid = 0;
  last_actuator = some 8;
  end_attempts = 1;
  end_lost = 0;
  end_tx_fail = 0;
  end_transmitted = 1;
  end_received_raw = 1;
  end_received_lost = 0;
  end_survived = 1;
  up_first = 60;
  up_last = 60;
  down_open = 1;
  down_closed = 100;
  is_answered = true;
  ended_by = 4;
  seen_of_vehicle = some 1;
}

abbrev samples : List SampleRow
samples =
    record { sampled_tick = 7; flags_of_sample = 1 }
    ∷ record { sampled_tick = 10; flags_of_sample = 3 }
    ∷ []

free_run_eligible :
    (reconcile_freerun vehicle_end simulator_end [] samples cycle_rows).is_eligible ≡ true
unfolding reconcile_freerun check_delivery check_uplink check_downlink check_handshake_counts
    check_ending handshake terminal_order terminal_residual terminal_causes validate check_recording
    check_identities check_terminal check_rows check_counts check_histograms checks_of observed_from
    ladder ◌+ℤ◌
free_run_eligible = refl

reconcile_freerun-IsAccounted_example :
    IsAccounted vehicle_end simulator_end samples cycle_rows
    × ((h : Handshake) × IsSettled vehicle_end simulator_end h)
    × ((reconcile_freerun vehicle_end simulator_end [] samples cycle_rows).agreement ≡ some true)
reconcile_freerun-IsAccounted_example =
    reconcile_freerun-IsAccounted vehicle_end simulator_end [] samples cycle_rows free_run_eligible
