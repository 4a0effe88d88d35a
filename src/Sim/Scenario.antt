-- ===== src/Sim/Scenario.antt =====
-- sim/scenario.py: a loaded scenario and what it says of a tick. `none` is the ValueError on a tick
-- out of range.
pub mod Load
use Prim.Native.String.{String}
use tvc.Prelude.{
  ℕ, Bool, true, false, ◌&&◌, Option, none, some, List, [], ◌∷◌, ltb, leb, ◌==◌, if◌then◌else◌,
}
use tvc.Float64.{mul}
use tvc.Sim.Types.{TruthState, Environment, Disturbance}

-- The opcodes that `load` lets through, by their names.
pub data OpcodeName : Type 0 where
  arm_name launch_name abort_name : OpcodeName

pub record Scenario : Type 0 where
  pub id : String
  pub ticks : ℕ
  pub initial : TruthState
  pub gusts : List (ℕ × ℕ × ℕ)
  pub loss_up : ℕ
  pub loss_down : ℕ
  pub loss_start_tick : ℕ
  pub blackout_up : Option (ℕ × ℕ)
  pub blackout_down : Option (ℕ × ℕ)
  pub commands : List (ℕ × OpcodeName)
  pub auto_arm : Bool

-- start <= tick < end
abbrev pub within : ℕ → ℕ → ℕ → Bool
within start end tick = leb start tick && ltb tick end

abbrev pub gust_at : List (ℕ × ℕ × ℕ) → ℕ → Environment → Disturbance
gust_at [] tick environment = record { tau_d = 0x0000000000000000 }
gust_at ((start, end, alpha_g) ∷ gusts) tick environment =
    if within start end tick
    then record { tau_d = mul environment.k_a alpha_g }
    else gust_at gusts tick environment

unfoldable pub disturbance_at : Scenario → ℕ → Environment → Option Disturbance
disturbance_at scenario tick environment =
    if ltb tick scenario.ticks then some (gust_at scenario.gusts tick environment) else none

abbrev pub find_command : List (ℕ × OpcodeName) → ℕ → Option OpcodeName
find_command [] tick = none
find_command ((request_tick, opcode) ∷ commands) tick =
    if tick == request_tick then some opcode else find_command commands tick

unfoldable pub command_at : Scenario → ℕ → Option (Option OpcodeName)
command_at scenario tick =
    if ltb tick scenario.ticks then some (find_command scenario.commands tick) else none

pub data Direction : Type 0 where
  up down : Direction

abbrev pub blackout : Scenario → Direction → Option (ℕ × ℕ)
blackout scenario up = scenario.blackout_up
blackout scenario down = scenario.blackout_down

abbrev pub in_blackout : Option (ℕ × ℕ) → ℕ → Bool
in_blackout none tick = false
in_blackout (some (start, end)) tick = within start end tick

abbrev pub override : Scenario → ℕ → Direction → Option Bool
override scenario tick direction =
    if in_blackout (blackout scenario direction) tick
    then some true
    else if ltb tick scenario.loss_start_tick
    then some false
    else none

unfoldable pub forced_drop_at : Scenario → ℕ → Direction → Option (Option Bool)
forced_drop_at scenario tick direction =
    if ltb tick scenario.ticks then some (override scenario tick direction) else none
