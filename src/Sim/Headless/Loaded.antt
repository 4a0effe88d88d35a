-- ===== src/Sim/Headless/Loaded.antt =====
-- A document that `load` of sim/scenario.py lets through is run to its end by run_headless.
use Prim.Native.String.{String}
use tvc.Prelude.{ℕ, ◌^◌, ◌<◌, ◌≡◌, ◌⊎◌}
use tvc.Prelude.Result.{ok}
use tvc.Sim.Scenario.{Scenario}
use tvc.Prelude.Json.{Json}
use tvc.Sim.Scenario.Load.{load}
use tvc.Sim.Scenario.Load.Soundness.{load-IsScenario}
use tvc.Sim.Headless.Completion.{IsComplete, run_headless_completes}

-- With any 64-bit seed and a delay of 0 or 1, `run_headless` raises nothing on a scenario that is
-- loaded: it returns rows for the consecutive ticks from 0, at least one and at most one for each tick
-- declared, a reason to stop, a terminal result of the episode in the last row, and streams with one
-- draw for each row.
pub load_completes :
    (id : String) (document : Json) (s : Scenario) (seed delay_ticks : ℕ)
    → load id document ≡ ok s
    → seed < 2 ^ 64
    → (delay_ticks ≡ 0) ⊎ (delay_ticks ≡ 1)
    → IsComplete s seed delay_ticks
load_completes id document s seed delay_ticks loaded hs hd =
    let valid = load-IsScenario id document s loaded in
    run_headless_completes s seed delay_ticks valid.rate_up valid.rate_down hs hd
      valid.positive_ticks
