-- ===== src/Sweep/Plan.antt =====
-- plan_runs of scripts/sweep.py.
-- and a planned one is a text with the number of the CPU after it. A label is the parts that the
-- source joins to a text; `phases` are the numbers of the text --phase-us, `none` where int raises.
pub mod Labels
pub mod Keys
pub mod Distinct
use Prim.Native.String.{String}
use text.Mathlib.Text.{◌==◌ as str_eq}
use tvc.Float64.{is_finite, lt}
use tvc.Prelude.{
  ℕ, zero, suc, ◌+◌, Bool, true, false, not, ◌&&◌, ◌||◌, Option, none, some, List, [], ◌∷◌, ◌++◌,
  map, length, leb, ltb, ◌==◌, if◌then◌else◌, is_some,
}
use tvc.Prelude.Int.{ℤ, pos, negsuc, pos_part, eq_ℤ, ltb_ℤ}
use tvc.Prelude.Result.{Result, ok, err, ◌>>=◌, ◌>>◌, require}
use tvc.Sweep.Levels.{
  Flag, Level, levels, qualified_cycles, PlanError, is_lockstep, is_pinned, any_flag, level_after,
  plan_levels, plain, before_cpu, lockstep_level, invalid_numbers, invalid_cpu,
  unknown_or_duplicate_level, invalid_phase, phase_range, phase_grid, invalid_peer_cpu, l8_range,
  peer_cpu_required, peer_cpu_without_l8,
}

-- The arguments of plan_runs. A rate is the binary64 pattern of a float; an `only` that is None or
-- empty is the empty list.
pub record Args : Type 0 where
  pub cycles : ℤ
  pub warmup : ℤ
  pub repeat : ℤ
  pub planned_rate : ℕ
  pub cpu : Option ℤ
  pub only : List String
  pub phases : Option (List ℤ)
  pub interleave : Bool
  pub asked_peer_cpu : Option ℤ

pub record Argument : Type 0 where
  pub words : String
  pub number : Option ℤ

-- f.format(cpu=cpu)
abbrev pub format : Option ℤ → Flag → Argument
format cpu (plain f) = record { words = f; number = none }
format cpu (before_cpu f) = record { words = f; number = cpu }

-- `plan_peer` is the outer `none` for a plan without the key.
pub record LevelPlan : Type 0 where
  pub level : String
  pub description : String
  pub arguments : List Argument
  pub phase_us : Option ℤ
  pub cycles : ℤ
  pub warmup : ℤ
  pub planned_rate : ℕ
  pub plan_peer : Option (Option ℤ)

pub record Label : Type 0 where
  pub of_level : String
  pub of_phase : Option (Option ℤ)
  pub of_repeat : Option ℕ

pub record PlannedRun : Type 0 where
  pub of_plan : LevelPlan
  pub repetition : ℕ
  pub run_label : Label

abbrev pub is_listed : String → List String → Bool
is_listed s [] = false
is_listed s (t ∷ ts) = str_eq s t || is_listed s ts

-- len(set(only)) == len(only)
abbrev pub all_different : List String → Bool
all_different [] = true
all_different (s ∷ ss) = not (is_listed s ss) && all_different ss

abbrev pub known_labels : List Level → List String
known_labels [] = []
known_labels (l ∷ ls) = l.label ∷ known_labels ls

abbrev pub all_in : List String → List String → Bool
all_in known [] = true
all_in known (s ∷ ss) = is_listed s known && all_in known ss

abbrev pub phase_outside : List ℤ → Bool
phase_outside [] = false
phase_outside (p ∷ ps) = not (ltb_ℤ (pos 0) p) || not (ltb_ℤ p (pos 2000)) || phase_outside ps

-- phases == [200,400,800] and only == ['L8']
abbrev pub is_grid_phases : List ℤ → Bool
is_grid_phases (a ∷ b ∷ c ∷ []) = eq_ℤ a (pos 200) && eq_ℤ b (pos 400) && eq_ℤ c (pos 800)
is_grid_phases _ = false

abbrev pub only_l8 : List String → Bool
only_l8 (s ∷ []) = str_eq s "L8"
only_l8 _ = false

abbrev pub is_negative : Option ℤ → Bool
is_negative none = false
is_negative (some n) = ltb_ℤ n (pos 0)

abbrev pub is_l8 : Level → Bool
is_l8 level = str_eq level.label "L8"

-- args.rate != 500 or args.cycles < 1000 or cycles + warmup outside the scheduling range, which
-- ends at (2**63-1)//2000000 - 64
abbrev pub outside_l8 : Args → Bool
outside_l8 a =
    not (a.planned_rate == 0x407f400000000000)
    || ltb_ℤ a.cycles (pos 1000)
    || ltb 4611686018363 (pos_part a.cycles + pos_part a.warmup)

-- args.only and level not in args.only
abbrev pub is_left_out : List String → Level → Bool
is_left_out [] level = false
is_left_out (s ∷ only) level = not (is_listed level.label (s ∷ only))

abbrev pub plan_of : Args → List Argument → Level → Option ℤ → LevelPlan
plan_of a arguments level phase = record {
  level = level.label;
  description = level.description;
  arguments = arguments;
  phase_us = phase;
  cycles = a.cycles;
  warmup = a.warmup;
  planned_rate = a.planned_rate;
  plan_peer = if is_l8 level then some a.asked_peer_cpu else none;
}

-- for phase in phases if level == 'L8' else [None]
abbrev pub phases_of : List ℤ → Level → List (Option ℤ)
phases_of phases level = if is_l8 level then map some phases else none ∷ []

abbrev pub plans_before :
    List LevelPlan → Result PlanError (List LevelPlan) → Result PlanError (List LevelPlan)
plans_before plans (err e) = err e
plans_before plans (ok more) = ok (plans ++ more)

-- The loop over the runnable levels, whose flags are cumulative.
unfoldable pub plans_from :
    Args → List ℤ → List Argument → List Level → Result PlanError (List LevelPlan)
plans_from a phases arguments [] = ok []
plans_from a phases arguments (level ∷ rest) =
    let all : List Argument = arguments ++ map (format a.cpu) level.extra_flags in
    let later : Result PlanError (List LevelPlan) = plans_from a phases all rest in
    if is_left_out a.only level
    then later
    else if is_l8 level && outside_l8 a
    then err l8_range
    else plans_before (map (plan_of a all level) (phases_of phases level)) later

abbrev pub plans_l8 : List LevelPlan → Bool
plans_l8 [] = false
plans_l8 (p ∷ plans) = str_eq p.level "L8" || plans_l8 plans

-- range(start, start + n)
abbrev pub count_up : ℕ → ℕ → List ℕ
count_up start zero = []
count_up start (suc n) = start ∷ count_up (suc start) n

abbrev pub label_of : Bool → Bool → ℕ → LevelPlan → Label
label_of grid many repeat of_plan = record {
  of_level = of_plan.level;
  of_phase = if grid then some of_plan.phase_us else none;
  of_repeat = if many then some repeat else none;
}

abbrev pub run_of : Bool → Bool → ℕ → LevelPlan → PlannedRun
run_of grid many repeat of_plan = record {
  of_plan = of_plan;
  repetition = repeat;
  run_label = label_of grid many repeat of_plan;
}

-- for r in repeats for p in plans
abbrev pub interleaved : (ℕ → LevelPlan → PlannedRun) → List ℕ → List LevelPlan → List PlannedRun
interleaved run [] plans = []
interleaved run (r ∷ repeats) plans = map (run r) plans ++ interleaved run repeats plans

-- for p in plans for r in repeats
abbrev pub grouped : (ℕ → LevelPlan → PlannedRun) → List ℕ → List LevelPlan → List PlannedRun
grouped run repeats [] = []
grouped run repeats (p ∷ plans) = map (λ r. run r p) repeats ++ grouped run repeats plans

abbrev pub is_grid : List ℤ → Bool
is_grid phases = ltb 1 (length phases)

-- The runs of the plans, in their order.
unfoldable pub runs_of : Args → List ℤ → List LevelPlan → List PlannedRun
runs_of a phases plans =
    let repeats : List ℕ = count_up 1 (pos_part a.repeat) in
    let run : ℕ → LevelPlan → PlannedRun = run_of (is_grid phases) (ltb_ℤ (pos 1) a.repeat) in
    if a.interleave then interleaved run repeats plans else grouped run repeats plans

abbrev pub good_numbers : Args → Bool
good_numbers a =
    ltb_ℤ (pos 0) a.cycles
    && not (ltb_ℤ a.warmup (pos 0))
    && ltb_ℤ (pos 0) a.repeat
    && is_finite a.planned_rate
    && lt 0 a.planned_rate

abbrev pub good_levels : List String → Bool
good_levels only = all_different only && all_in (known_labels levels) only

-- not grid, or a grid of 200, 400 and 800 with only L8, three repetitions and interleave
abbrev pub fits_grid : Args → List ℤ → Bool
fits_grid a phases =
    not (is_grid phases)
    || (is_grid_phases phases && (only_l8 a.only && (eq_ℤ a.repeat (pos 3) && a.interleave)))

abbrev pub parsed_phases : Args → Result PlanError (List ℤ)
parsed_phases a = elim a.phases [ none ↦ err invalid_phase | some ps ↦ ok ps ]

-- The checks before the levels, which leave the phases.
unfoldable pub check_args : Args → Result PlanError (List ℤ)
check_args a = do
  require (good_numbers a) invalid_numbers
  require (not (is_negative a.cpu)) invalid_cpu
  require (good_levels a.only) unknown_or_duplicate_level
  phases ← parsed_phases a
  require (not (phase_outside phases)) phase_range
  require (fits_grid a phases) phase_grid
  require (not (is_negative a.asked_peer_cpu)) invalid_peer_cpu
  ok phases

-- The checks on the peer's CPU.
unfoldable pub check_peer : Args → List ℤ → List LevelPlan → Result PlanError Unit
check_peer a phases plans =
    require
      (is_some a.asked_peer_cpu
        || not (plans_l8 plans)
        || not (is_grid phases || not (ltb_ℤ a.cycles (pos qualified_cycles))))
      peer_cpu_required
    >> require (not (is_some a.asked_peer_cpu) || plans_l8 plans) peer_cpu_without_l8

unfoldable pub plan_runs : Args → Result PlanError (List PlannedRun × Option String)
plan_runs a = do
  phases ← check_args a
  runnable ← plan_levels levels a.cpu
  plans ← plans_from a phases [] runnable.0
  check_peer a phases plans
  ok (runs_of a phases plans, runnable.1)
