-- ===== src/Tests/ScenarioRuns.antt =====
-- The loader on concrete documents.
use tvc.Prelude.{ℕ, ◌≡◌, refl, true, inr, some, none, [], ◌∷◌, arith, ◌↔◌, length, false}
use tvc.Prelude.Int.{pos}
use tvc.Prelude.Result.{ok, err}
use tvc.Float64
use tvc.Sim.Scenario.{Scenario, arm_name}
use tvc.Prelude.Json.{
  Json, Items, Members, null, boolean, integer, float, string, array, object, no_item, item,
  no_member, member, is_unique,
}
use tvc.Sim.Scenario.Load.{
  load, load_members, gusts_from, commands_from, duplicate_key, wrong_keys, overlapping_gusts,
}
use tvc.Sim.Scenario.Load.Soundness.{IsScenario, load-IsScenario}
use tvc.Sim.Headless.Completion.{IsComplete}
use tvc.Sim.Headless.Acceptance.{EvidenceRow, evaluate, evaluate_rows}
use tvc.Sim.Headless.Cadence.{evaluate_cadence}
use tvc.Sim.Episode.Types.{terminated, stabilized}
use tvc.Sim.Headless.Loaded.{load_completes}

abbrev gust : ℕ → ℕ → Json
gust start end = array (
    item (integer (pos start)) (item (integer (pos end)) (item (float 0x3f9999999999999a) no_item)))

abbrev members_with : Items → Members
members_with gusts = member "ticks" (integer (pos 9)) (
    member "theta0" (float 0x3f9999999999999a) (
      member "omega0" (integer (pos 0)) (
        member "gusts" (array gusts) (
          member "loss_up" (float 0x3fe0000000000000) (
            member "loss_down" (integer (pos 0)) (
              member "loss_start_tick" (integer (pos 1)) (
                member "blackout_up" null (
                  member "blackout_down"
                    (array (item (integer (pos 2)) (item (integer (pos 9)) no_item)))
                    (member "commands"
                      (array (
                        item
                          (object (
                            member "opcode" (string "ARM")
                              (member "tick" (integer (pos 1)) no_member)))
                          no_item))
                      (member "auto_arm" (boolean true) no_member))))))))))

abbrev gusty : Json
gusty = object (members_with (item (gust 1 2) (item (gust 2 5) no_item)))

abbrev gusty_scenario : Scenario
gusty_scenario = record {
  id = "gusty";
  ticks = 9;
  initial = record { theta = 0x3f9999999999999a; omega = 0 };
  gusts = (1, 2, 0x3f9999999999999a) ∷ (2, 5, 0x3f9999999999999a) ∷ [];
  loss_up = 0x3fe0000000000000;
  loss_down = 0;
  loss_start_tick = 1;
  blackout_up = none;
  blackout_down = some (2, 9);
  commands = (1, arm_name) ∷ [];
  auto_arm = true;
}

gusty_loaded : load "gusty" gusty ≡ ok gusty_scenario
unfolding load is_unique load_members gusts_from commands_from Float64.is_finite Float64.le
    Float64.of_int
gusty_loaded = refl

refused :
    (load "overlap" (object (members_with (item (gust 1 3) (item (gust 2 5) no_item))))
      ≡ err overlapping_gusts)
    × (load "twice" (object (member "ticks" null (member "ticks" null no_member)))
        ≡ err duplicate_key)
    × (load "few" (object (member "ticks" null no_member)) ≡ err wrong_keys)
unfolding load is_unique load_members gusts_from commands_from Float64.is_finite Float64.le
    Float64.of_int
refused = (refl, refl, refl)

load-IsScenario_example : IsScenario gusty_scenario
load-IsScenario_example = load-IsScenario "gusty" gusty gusty_scenario gusty_loaded

load_completes_example : IsComplete gusty_scenario 1 1
load_completes_example =
    load_completes "gusty" gusty gusty_scenario 1 1 gusty_loaded (omega arith) (inr refl)

gusty_completed : IsComplete gusty_scenario 1 1
gusty_completed =
    load_completes "gusty" gusty gusty_scenario 1 1 gusty_loaded (omega arith) (inr refl)

evaluate_cadence_example :
    (((evaluate gusty_completed.trace).cadence ≡ true)
      ↔ (length gusty_completed.trace.rows ≡ gusty_completed.trace.ticks_declared))
    × ((evaluate gusty_completed.trace).termination ≡ true
        → (evaluate gusty_completed.trace).cadence ≡ true)
evaluate_cadence_example =
    evaluate_cadence "gusty" gusty gusty_scenario 1 1 gusty_completed.trace gusty_loaded
      (omega arith) (inr refl) gusty_completed.computed

abbrev still_row : ℕ → EvidenceRow
still_row tick = record {
  tick = tick;
  theta = 0x3f847ae147ae147b;
  omega = 0;
  delta = 0;
  i_state = 0;
  d_prev = 0;
}

-- Two rows of two ticks: too few to be settled.
two_rows :
    evaluate_rows
      (still_row 0 ∷ still_row 1 ∷ [])
      2
      (some 1)
      (some terminated)
      (some (record { reason = stabilized; tick = 1 }))
    ≡ record {
      termination = true;
      peak = true;
      has_settled = false;
      cadence = true;
      finiteness = true;
    }
unfolding evaluate_rows Float64.le Float64.abs Float64.is_finite
two_rows = refl
