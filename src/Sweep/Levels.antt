-- ===== src/Sweep/Levels.antt =====
-- The levels of scripts/sweep.py and plan_levels. An extra flag is a text, or the text before `{cpu}`.
use Prim.Native.String.{String}
use text.Mathlib.Text.{◌==◌ as str_eq}
use tvc.Prelude.{
  ℕ, Bool, true, false, not, ◌&&◌, ◌||◌, Option, none, some, List, [], ◌∷◌, if◌then◌else◌, is_some,
}
use tvc.Prelude.Int.{ℤ}
use tvc.Prelude.Result.{Result, ok, err}

pub data Flag : Type 0 where
  plain : String → Flag
  before_cpu : String → Flag

pub record Level : Type 0 where
  pub label : String
  pub description : String
  pub extra_flags : List Flag
  pub peer : Option String

-- LEVELS
abbrev pub levels : List Level
levels =
    record {
      label = "L0";
      description = "baseline: sleep_for, allocating telemetry path";
      extra_flags = [];
      peer = none;
    }
    ∷ record {
      label = "L1";
      description = "absolute deadlines (clock_nanosleep TIMER_ABSTIME)";
      extra_flags = plain "--abs-deadline" ∷ [];
      peer = none;
    }
    ∷ record {
      label = "L2";
      description = "+ mlockall and pre-faulted stack and heap";
      extra_flags = plain "--mlock" ∷ [];
      peer = none;
    }
    ∷ record {
      label = "L3";
      description = "+ SCHED_FIFO priority 80";
      extra_flags = plain "--fifo=80" ∷ [];
      peer = none;
    }
    ∷ record {
      label = "L4";
      description = "+ pinned to an isolated core";
      extra_flags = before_cpu "--cpu=" ∷ [];
      peer = none;
    }
    ∷ record {
      label = "L5";
      description = "+ allocation-free hot path";
      extra_flags = plain "--no-naive-log" ∷ plain "--alloc-guard=abort" ∷ [];
      peer = none;
    }
    ∷ record {
      label = "L6";
      description = "+ telemetry ring + drain thread";
      extra_flags = plain "--telemetry" ∷ [];
      peer = none;
    }
    ∷ record {
      label = "L7";
      description = "+ control record (128 B)";
      extra_flags = plain "--telemetry" ∷ plain "--record=control" ∷ [];
      peer = none;
    }
    ∷ record {
      label = "L8";
      description = "+ sensor and actuator sockets, PID, episode machine";
      extra_flags =
          plain "--mode=freerun"
          ∷ plain "--auto-arm"
          ∷ plain "--telemetry"
          ∷ plain "--record=control"
          ∷ [];
      peer = some "S1-hold";
    }
    ∷ []

-- QUALIFIED_CYCLES
abbrev pub qualified_cycles : ℕ
qualified_cycles = 300000

pub data PlanError : Type 0 where
  lockstep_level invalid_numbers invalid_cpu unknown_or_duplicate_level invalid_phase : PlanError
  phase_range phase_grid invalid_peer_cpu l8_range peer_cpu_required peer_cpu_without_l8 : PlanError

abbrev pub is_lockstep : Flag → Bool
is_lockstep (plain f) = str_eq f "--mode=lockstep"
is_lockstep (before_cpu f) = false

abbrev pub is_pinned : Flag → Bool
is_pinned (plain f) = false
is_pinned (before_cpu f) = true

abbrev pub any_flag : (Flag → Bool) → List Flag → Bool
any_flag test [] = false
any_flag test (f ∷ fs) = test f || any_flag test fs

abbrev pub level_after :
    Level
    → Result PlanError (List Level × Option String)
    → Result PlanError (List Level × Option String)
level_after level (err e) = err e
level_after level (ok (runnable, stopped)) = ok (level ∷ runnable, stopped)

-- The levels that can run, and the label of the one at which the campaign stops.
unfoldable pub plan_levels : List Level → Option ℤ → Result PlanError (List Level × Option String)
plan_levels [] cpu = ok ([], none)
plan_levels (level ∷ rest) cpu =
    let later : Result PlanError (List Level × Option String) = plan_levels rest cpu in
    if any_flag is_lockstep level.extra_flags
    then err lockstep_level
    else if any_flag is_pinned level.extra_flags && not (is_some cpu)
    then ok ([], some level.label)
    else level_after level later
