-- ===== src/Sim/Scenario/Load/Soundness.antt =====
-- What `load` of sim/scenario.py lets through.
use Prim.Native.String.{String}
use tvc.Prelude.{ℕ, ◌+◌, ◌≤◌, ◌<◌, ◌≡◌, true, ◌&&◌, Option, none, some, List, [], ◌∷◌, arith}
use tvc.Prelude.Result.{ok, ◌>>=◌, require, >>=-eq-ok, Returns, bind-Returns, Returns-of_ok}
use tvc.Float64
use tvc.Sim.Scenario.{Scenario, OpcodeName}
use tvc.Prelude.Json.{Json, Items, array, object, Members, is_unique, field, no_item, item}
use tvc.Sim.Scenario.Load.{
  wrong_keys, duplicate_key, has_keys, scenario_keys, load_object, flag_of, gust_of, gusts_from,
  command_of, commands_from, window_of, number_of, probability_of, positive, at_most, load,
  load_members, interval_of, integer_of, gusts_of, commands_of,
}

abbrev pub IsFinite : ℕ → Type 0
IsFinite p = Float64.is_finite p ≡ true

abbrev pub IsRate : ℕ → Type 0
IsRate p = (Float64.le 0 p && Float64.le p 0x3ff0000000000000) ≡ true

-- Gusts from `previous_end` on, each after the one before.
abbrev pub AreGusts : ℕ → ℕ → List (ℕ × ℕ × ℕ) → Type 0
AreGusts ticks previous_end [] = Unit {0}
AreGusts ticks previous_end ((start, end, angle) ∷ gusts) =
    (previous_end ≤ start)
    × (start < end)
    × (end ≤ ticks)
    × IsFinite angle
    × AreGusts ticks end gusts

abbrev pub IsWindow : ℕ → Option (ℕ × ℕ) → Type 0
IsWindow ticks none = Unit {0}
IsWindow ticks (some (start, end)) = (start < end) × (end ≤ ticks)

-- Commands at strictly increasing ticks from `least` on.
abbrev pub AreCommands : ℕ → ℕ → List (ℕ × OpcodeName) → Type 0
AreCommands ticks least [] = Unit {0}
AreCommands ticks least ((tick, opcode) ∷ commands) =
    (least ≤ tick) × (tick < ticks) × AreCommands ticks (tick + 1) commands

pub record IsScenario (s : Scenario) : Type 0 where
  pub positive_ticks : 0 < s.ticks
  pub loss_start : s.loss_start_tick ≤ s.ticks
  pub gusts : AreGusts s.ticks 0 s.gusts
  pub window_up : IsWindow s.ticks s.blackout_up
  pub window_down : IsWindow s.ticks s.blackout_down
  pub commands : AreCommands s.ticks 0 s.commands
  pub theta : IsFinite s.initial.theta
  pub omega : IsFinite s.initial.omega
  pub rate_up : IsRate s.loss_up
  pub rate_down : IsRate s.loss_down

number_of-IsFinite : (v : Json) (p : ℕ) → number_of v ≡ ok p → IsFinite p
number_of-IsFinite v p h = ground arith

probability_of-IsRate : (v : Json) (p : ℕ) → probability_of v ≡ ok p → IsRate p
probability_of-IsRate v p h = ground arith

interval_of-IsWindow :
    (ticks : ℕ) (first last : Json) (start end : ℕ)
    → interval_of ticks first last ≡ ok (start, end)
    → IsWindow ticks (some (start, end))
interval_of-IsWindow ticks first last start end h = ground arith

window_of-IsWindow :
    (ticks : ℕ) (v : Json) (w : Option (ℕ × ℕ)) → window_of ticks v ≡ ok w → IsWindow ticks w
window_of-IsWindow ticks v w h = ground arith

gust_of-facts :
    (ticks previous_end : ℕ) (v : Json) (start end angle : ℕ)
    → gust_of ticks previous_end v ≡ ok (start, end, angle)
    → (previous_end ≤ start) × (start < end) × (end ≤ ticks) × IsFinite angle
gust_of-facts ticks previous_end v start end angle h = ground arith

gusts_from-AreGusts :
    (ticks previous_end : ℕ) (items : Items) (gusts : List (ℕ × ℕ × ℕ))
    → gusts_from ticks previous_end items ≡ ok gusts
    → AreGusts ticks previous_end gusts
unfolding gusts_from
gusts_from-AreGusts ticks previous_end no_item gusts h = ground arith
gusts_from-AreGusts ticks previous_end (item v rest) gusts h =
    let ((start, end, angle), first, h1) = >>=-eq-ok (gust_of ticks previous_end v) _ h in
    let (more, others, h2) = >>=-eq-ok (gusts_from ticks end rest) _ h1 in
    let (after, before, within, number) =
      gust_of-facts ticks previous_end v start end angle first in
    let same : gusts ≡ (start, end, angle) ∷ more = ground arith in
    rw same (after, before, within, number, gusts_from-AreGusts ticks end rest more others)

command_of-facts :
    (ticks least : ℕ) (v : Json) (tick : ℕ) (opcode : OpcodeName)
    → command_of ticks least v ≡ ok (tick, opcode)
    → (least ≤ tick) × (tick < ticks)
command_of-facts ticks least v tick opcode h = ground arith

commands_from-AreCommands :
    (ticks least : ℕ) (items : Items) (commands : List (ℕ × OpcodeName))
    → commands_from ticks least items ≡ ok commands
    → AreCommands ticks least commands
unfolding commands_from
commands_from-AreCommands ticks least no_item commands h = ground arith
commands_from-AreCommands ticks least (item v rest) commands h =
    let ((tick, opcode), first, h1) = >>=-eq-ok (command_of ticks least v) _ h in
    let (more, others, h2) = >>=-eq-ok (commands_from ticks (tick + 1) rest) _ h1 in
    let (after, within) = command_of-facts ticks least v tick opcode first in
    let same : commands ≡ (tick, opcode) ∷ more = ground arith in
    rw same (after, within, commands_from-AreCommands ticks (tick + 1) rest more others)

gusts_of-AreGusts :
    (ticks : ℕ) (v : Json) (gusts : List (ℕ × ℕ × ℕ))
    → gusts_of ticks v ≡ ok gusts
    → AreGusts ticks 0 gusts
gusts_of-AreGusts ticks (array items) gusts h = gusts_from-AreGusts ticks 0 items gusts h
gusts_of-AreGusts ticks _ gusts h = cc

commands_of-AreCommands :
    (ticks : ℕ) (v : Json) (commands : List (ℕ × OpcodeName))
    → commands_of ticks v ≡ ok commands
    → AreCommands ticks 0 commands
commands_of-AreCommands ticks (array items) commands h =
    commands_from-AreCommands ticks 0 items commands h
commands_of-AreCommands ticks _ commands h = cc

positive_lem : (v : Json) (ticks : ℕ) → (integer_of v >>= positive) ≡ ok ticks → 0 < ticks
positive_lem v ticks h = ground arith

at_most_lem :
    (ticks : ℕ) (v : Json) (start : ℕ) → (integer_of v >>= at_most ticks) ≡ ok start → start ≤ ticks
at_most_lem ticks v start h = ground arith

load_members-IsScenario :
    (id : String) (members : Members) → Returns IsScenario (load_members id members)
unfolding load_members
load_members-IsScenario id members =
    bind-Returns IsScenario (integer_of (field "ticks" members) >>= positive) _ (λ ticks e0.
      bind-Returns IsScenario (integer_of (field "loss_start_tick" members) >>= at_most ticks) _
        (λ start e1. bind-Returns IsScenario (flag_of (field "auto_arm" members)) _ (λ auto_arm e2.
          bind-Returns IsScenario (gusts_of ticks (field "gusts" members)) _ (λ gusts e3.
            bind-Returns IsScenario (window_of ticks (field "blackout_up" members)) _ (λ up e4.
              bind-Returns IsScenario (window_of ticks (field "blackout_down" members)) _
                (λ down e5.
                  bind-Returns IsScenario (commands_of ticks (field "commands" members)) _
                    (λ commands e6.
                      bind-Returns IsScenario (number_of (field "theta0" members)) _ (λ theta e7.
                        bind-Returns IsScenario (number_of (field "omega0" members)) _ (λ omega e8.
                          bind-Returns IsScenario (probability_of (field "loss_up" members)) _
                            (λ loss_up e9.
                              bind-Returns IsScenario (probability_of (field "loss_down" members)) _
                                (λ loss_down e10. record {
                                  positive_ticks = positive_lem (field "ticks" members) ticks e0;
                                  loss_start =
                                      at_most_lem ticks (field "loss_start_tick" members) start e1;
                                  gusts = gusts_of-AreGusts ticks (field "gusts" members) gusts e3;
                                  window_up =
                                      window_of-IsWindow ticks (field "blackout_up" members) up e4;
                                  window_down =
                                      window_of-IsWindow ticks (field "blackout_down" members) down
                                        e5;
                                  commands =
                                      commands_of-AreCommands ticks (field "commands" members)
                                        commands e6;
                                  theta = number_of-IsFinite (field "theta0" members) theta e7;
                                  omega = number_of-IsFinite (field "omega0" members) omega e8;
                                  rate_up =
                                      probability_of-IsRate (field "loss_up" members) loss_up e9;
                                  rate_down =
                                      probability_of-IsRate (field "loss_down" members) loss_down
                                        e10;
                                })))))))))))

load_object-IsScenario :
    (id : String) (document : Json) → Returns IsScenario (load_object id document)
load_object-IsScenario id (object members) =
    bind-Returns IsScenario (require (has_keys scenario_keys members) wrong_keys) _
      (λ passed e. load_members-IsScenario id members)
load_object-IsScenario id _ = tt

-- A scenario that is loaded has a positive number of ticks, gusts of finite angles in order and apart
-- within them, blackouts within them, commands at strictly increasing ticks below their number, a
-- finite initial state and loss rates from 0 to 1.
pub load-IsScenario :
    (id : String) (document : Json) (s : Scenario) → load id document ≡ ok s → IsScenario s
unfolding load
load-IsScenario id document s h =
    Returns-of_ok IsScenario (load id document) s
      (bind-Returns IsScenario (require (is_unique document) duplicate_key) _
        (λ passed e. load_object-IsScenario id document))
      h
