-- ===== src/Sim/Scenario/Load.antt =====
-- load of sim/scenario.py, from the parsed document on. A ValueError is told by its message.
pub mod Soundness
use Prim.Native.String.{String}
use text.Mathlib.Text.{◌==◌ as str_eq}
use tvc.Prelude.{
  ℕ, ◌+◌, Bool, true, false, not, ◌&&◌, ◌||◌, Option, none, some, List, [], ◌∷◌, ltb, leb,
  if◌then◌else◌, is_some,
}
use tvc.Prelude.Int.{ℤ, pos, negsuc, pos_part, neg_part}
use tvc.Prelude.Result.{Result, ok, err, ◌>>=◌, ◌>>◌, require}
use tvc.Float64
use tvc.Prelude.Json.{
  Json, Items, Members, null, boolean, integer, float, string, array, object, no_item, item,
  no_member, member, value_at, is_unique, field,
}
use tvc.Sim.Types.{TruthState}
use tvc.Sim.Scenario.{Scenario, OpcodeName, arm_name, launch_name, abort_name}

pub data LoadError : Type 0 where
  duplicate_key not_an_object wrong_keys : LoadError
  not_an_integer not_a_number not_finite outside_unit : LoadError
  malformed_interval interval_out_of_range : LoadError
  ticks_not_positive loss_start_out_of_range auto_arm_not_boolean : LoadError
  gusts_not_a_list malformed_gust overlapping_gusts : LoadError
  commands_not_a_list malformed_command tick_out_of_range : LoadError
  commands_not_increasing unknown_opcode : LoadError

abbrev contains_key : List String → String → Bool
contains_key [] key = false
contains_key (k ∷ keys) key = str_eq k key || contains_key keys key

abbrev all_known : List String → Members → Bool
all_known keys no_member = true
all_known keys (member k v rest) = contains_key keys k && all_known keys rest

abbrev all_present : List String → Members → Bool
all_present [] members = true
all_present (key ∷ keys) members = is_some (value_at key members) && all_present keys members

-- data.keys() == keys
abbrev pub has_keys : List String → Members → Bool
has_keys keys members = all_present keys members && all_known keys members

abbrev pub scenario_keys : List String
scenario_keys =
    "ticks" ∷ "theta0" ∷ "omega0" ∷ "gusts" ∷ "loss_up" ∷ "loss_down" ∷ "loss_start_tick"
    ∷ "blackout_up" ∷ "blackout_down" ∷ "commands" ∷ "auto_arm" ∷ []

-- _integer
abbrev pub integer_of : Json → Result LoadError ℤ
integer_of (integer n) = ok n
integer_of _ = err not_an_integer

abbrev sign : ℤ → ℕ
sign (pos n) = 0
sign (negsuc n) = 1

-- float(value): the infinity where Python raises OverflowError, for the same ValueError.
abbrev pub finite : ℕ → Result LoadError ℕ
finite number = require (Float64.is_finite number) not_finite >> ok number

-- _number
abbrev pub number_of : Json → Result LoadError ℕ
number_of (integer n) = finite (Float64.of_int (sign n) (pos_part n + neg_part n))
number_of (float bits) = finite bits
number_of _ = err not_a_number

-- _probability
abbrev pub probability_of : Json → Result LoadError ℕ
probability_of value = do
  number ← number_of value
  require (Float64.le 0 number && Float64.le number 0x3ff0000000000000) outside_unit
  ok number

abbrev pub interval_between : ℕ → ℤ → ℤ → Result LoadError (ℕ × ℕ)
interval_between ticks (pos start) (pos end) =
    require (ltb start end && leb end ticks) interval_out_of_range >> ok (start, end)
interval_between ticks _ _ = err interval_out_of_range

-- _interval of two elements
abbrev pub interval_of : ℕ → Json → Json → Result LoadError (ℕ × ℕ)
interval_of ticks first last = do
  start ← integer_of first
  end ← integer_of last
  interval_between ticks start end

abbrev pub window_of : ℕ → Json → Result LoadError (Option (ℕ × ℕ))
window_of ticks null = ok none
window_of ticks (array (item first (item last no_item))) =
    interval_of ticks first last >>= λ window. ok (some window)
window_of ticks _ = err malformed_interval

abbrev pub gust_of : ℕ → ℕ → Json → Result LoadError (ℕ × ℕ × ℕ)
gust_of ticks previous_end (array (item first (item last (item angle no_item)))) = do
  (start, end) ← interval_of ticks first last
  require (leb previous_end start) overlapping_gusts
  number ← number_of angle
  ok (start, end, number)
gust_of ticks previous_end _ = err malformed_gust

unfoldable pub gusts_from : ℕ → ℕ → Items → Result LoadError (List (ℕ × ℕ × ℕ))
gusts_from ticks previous_end no_item = ok []
gusts_from ticks previous_end (item value rest) = do
  (start, end, angle) ← gust_of ticks previous_end value
  gusts ← gusts_from ticks end rest
  ok ((start, end, angle) ∷ gusts)

abbrev pub gusts_of : ℕ → Json → Result LoadError (List (ℕ × ℕ × ℕ))
gusts_of ticks (array items) = gusts_from ticks 0 items
gusts_of ticks _ = err gusts_not_a_list

-- _check_tick
abbrev pub tick_between : ℕ → ℤ → Result LoadError ℕ
tick_between ticks (pos tick) = require (ltb tick ticks) tick_out_of_range >> ok tick
tick_between ticks (negsuc n) = err tick_out_of_range

abbrev pub opcode_of : Json → Result LoadError OpcodeName
opcode_of (string name) =
    if str_eq name "ARM"
    then ok arm_name
    else if str_eq name "LAUNCH"
    then ok launch_name
    else if str_eq name "ABORT"
    then ok abort_name
    else err unknown_opcode
opcode_of _ = err unknown_opcode

-- A command whose tick is `least`, one more than the previous, or greater.
abbrev pub command_of : ℕ → ℕ → Json → Result LoadError (ℕ × OpcodeName)
command_of ticks least (object members) = do
  require (has_keys ("tick" ∷ "opcode" ∷ []) members) malformed_command
  number ← integer_of (field "tick" members)
  tick ← tick_between ticks number
  require (leb least tick) commands_not_increasing
  opcode ← opcode_of (field "opcode" members)
  ok (tick, opcode)
command_of ticks least _ = err malformed_command

unfoldable pub commands_from : ℕ → ℕ → Items → Result LoadError (List (ℕ × OpcodeName))
commands_from ticks least no_item = ok []
commands_from ticks least (item value rest) = do
  (tick, opcode) ← command_of ticks least value
  commands ← commands_from ticks (tick + 1) rest
  ok ((tick, opcode) ∷ commands)

abbrev pub commands_of : ℕ → Json → Result LoadError (List (ℕ × OpcodeName))
commands_of ticks (array items) = commands_from ticks 0 items
commands_of ticks _ = err commands_not_a_list

abbrev pub positive : ℤ → Result LoadError ℕ
positive (pos n) = require (ltb 0 n) ticks_not_positive >> ok n
positive (negsuc n) = err ticks_not_positive

abbrev pub at_most : ℕ → ℤ → Result LoadError ℕ
at_most ticks (pos n) = require (leb n ticks) loss_start_out_of_range >> ok n
at_most ticks (negsuc n) = err loss_start_out_of_range

abbrev pub flag_of : Json → Result LoadError Bool
flag_of (boolean b) = ok b
flag_of _ = err auto_arm_not_boolean

-- A document with the keys of a scenario; `id` is the stem of its file name.
unfoldable pub load_members : String → Members → Result LoadError Scenario
load_members id members = do
  ticks ← integer_of (field "ticks" members) >>= positive
  loss_start ← integer_of (field "loss_start_tick" members) >>= at_most ticks
  auto_arm ← flag_of (field "auto_arm" members)
  gusts ← gusts_of ticks (field "gusts" members)
  blackout_up ← window_of ticks (field "blackout_up" members)
  blackout_down ← window_of ticks (field "blackout_down" members)
  commands ← commands_of ticks (field "commands" members)
  theta ← number_of (field "theta0" members)
  omega ← number_of (field "omega0" members)
  loss_up ← probability_of (field "loss_up" members)
  loss_down ← probability_of (field "loss_down" members)
  ok (record {
    id = id;
    ticks = ticks;
    initial = record { theta = theta; omega = omega };
    gusts = gusts;
    loss_up = loss_up;
    loss_down = loss_down;
    loss_start_tick = loss_start;
    blackout_up = blackout_up;
    blackout_down = blackout_down;
    commands = commands;
    auto_arm = auto_arm;
  })

abbrev pub load_object : String → Json → Result LoadError Scenario
load_object id (object members) =
    require (has_keys scenario_keys members) wrong_keys >> load_members id members
load_object id _ = err not_an_object

-- load
unfoldable pub load : String → Json → Result LoadError Scenario
load id document = require (is_unique document) duplicate_key >> load_object id document
