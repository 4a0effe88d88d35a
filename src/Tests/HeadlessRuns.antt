-- ===== src/Tests/HeadlessRuns.antt =====
-- A headless run at a concrete scenario, and the lookups of a scenario by tick.
use tvc.Prelude.{◌≡◌, refl, inr, true, false, some, none, [], ◌∷◌, arith}
use tvc.Float64
use tvc.Sim.Scenario.{Scenario, arm_name, up, down, forced_drop_at, command_at}
use tvc.Sim.Headless.Completion.{IsComplete, run_headless_completes}

-- Four ticks of a vehicle tilted by 0.025 with a loss rate of 0.5 on the uplink.
abbrev short_flight : Scenario
short_flight = record {
  id = "short";
  ticks = 4;
  initial = record { theta = 0x3f9999999999999a; omega = 0 };
  gusts = (1, 2, 0x3f9999999999999a) ∷ [];
  loss_up = 0x3fe0000000000000;
  loss_down = 0;
  loss_start_tick = 1;
  blackout_up = none;
  blackout_down = some (2, 4);
  commands = (1, arm_name) ∷ [];
  auto_arm = true;
}

short_flight_lookups :
    (forced_drop_at short_flight 0 up ≡ some (some false))
    × (forced_drop_at short_flight 1 up ≡ some none)
    × (forced_drop_at short_flight 3 down ≡ some (some true))
    × (forced_drop_at short_flight 4 down ≡ none)
    × (command_at short_flight 1 ≡ some (some arm_name))
unfolding forced_drop_at command_at
short_flight_lookups = (refl, refl, refl, refl, refl)

run_headless_completes_example : IsComplete short_flight 1 1
run_headless_completes_example =
    run_headless_completes short_flight 1 1 (unfold Float64.le in refl) (unfold Float64.le in refl)
      (omega arith) (inr refl) (omega arith)
