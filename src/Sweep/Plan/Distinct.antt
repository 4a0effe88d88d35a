-- ===== src/Sweep/Plan/Distinct.antt =====
-- No two planned runs have one label (scripts/sweep.py plan_runs).
use Prim.Native.String.{String}
use tvc.Prelude.{
  ◌≡◌, refl, ap, subst, Bool, true, false, not, ◌&&◌, Option, none, some, List, [], ◌∷◌, ◌++◌, map,
  if◌then◌else◌, Bool-cases, inl, inr,
}
use tvc.Prelude.Int.{ℤ}
use tvc.Prelude.Result.{ok_injective, Result, Returns, Returns-of_ok, ok, err, require, >>=-eq-ok}
use tvc.Prelude.Unique.{IsAbsent, IsUnique, IsAbsent-append, IsUnique-append, IsUnique-front}
use tvc.Sweep.Levels.{
  Level, levels, PlanError, plan_levels, l8_range, invalid_numbers, invalid_cpu,
  unknown_or_duplicate_level, phase_range, phase_grid, invalid_peer_cpu,
}
use tvc.Sweep.Plan.{
  Args, LevelPlan, PlannedRun, plan_runs, plans_from, runs_of, check_args, check_peer, outside_l8,
  format, Argument, fits_grid, parsed_phases, good_numbers, good_levels, is_negative, phase_outside,
  is_grid, is_l8, phases_of, plan_of, plans_before, is_left_out,
}
use tvc.Sweep.Plan.Labels.{key_of, interleaved-IsUnique, grouped-IsUnique}
use tvc.Sweep.Plan.Keys.{
  IsKeyed, IsPlanned, level_label, plan_level, phase_tag, repeats-IsUnique, phases-IsUnique,
  all_different-IsUnique, plan_levels-IsPlanned, block-IsUnique, block-IsApart, block-names,
}

some_level :
    (phases : List ℤ) (grid l8 : Bool)
    → IsUnique (phase_tag grid) (map some phases)
    → IsUnique (phase_tag grid) (if l8 then map some phases else none ∷ [])
some_level phases grid true u = u
some_level phases grid false u = (tt, tt)

module _ (a : Args) (phases : List ℤ)
    (different : IsUnique (phase_tag (is_grid phases)) (map some phases)) where
  grid : Bool
  grid = is_grid phases

  -- One level, whose plans are `block`, before the others.
  IsKeyed-level :
      (out bad : Bool) (level : Level) (ls : List Level) (arguments : List Argument)
      (later : Result PlanError (List LevelPlan))
      → IsAbsent level_label level.label ls
      → Returns (IsKeyed (is_grid phases) ls) later
      → Returns (IsKeyed (is_grid phases) (level ∷ ls)) (
          if out
          then later
          else if bad
          then err l8_range
          else plans_before (map (plan_of a arguments level) (phases_of phases level)) later)
  IsKeyed-level true bad level ls arguments (err e) n h = tt
  IsKeyed-level true bad level ls arguments (ok plans) n h = record {
    unique = h.unique;
    from = λ s (k, m). h.from s m;
  }
  IsKeyed-level false true level ls arguments later n h = tt
  IsKeyed-level false false level ls arguments (err e) n h = tt
  IsKeyed-level false false level ls arguments (ok plans) n h =
      let make : Option ℤ → LevelPlan = plan_of a arguments level in
      let named : (q : Option ℤ) → (make q).level ≡ level.label = λ q. refl in
      let block : List (Option ℤ) = phases_of phases level in
      record {
        unique =
            IsUnique-append (key_of (is_grid phases)) (map make block) plans
              (block-IsUnique (is_grid phases) make level.label named (λ q. refl) block
                (some_level phases (is_grid phases) (is_l8 level) different))
              h.unique
              (block-IsApart (is_grid phases) make level.label named (λ q. refl) block plans
                (h.from level.label n));
        from = λ s (k, m).
            IsAbsent-append plan_level s (map make block) plans
              (block-names (is_grid phases) make level.label named (λ q. refl) s block k)
              (h.from s m);
      }

  plans_from-IsKeyed :
      (arguments : List Argument) (ls : List Level)
      → IsUnique level_label ls
      → Returns (IsKeyed (is_grid phases) ls) (plans_from a phases arguments ls)
  unfolding plans_from
  plans_from-IsKeyed arguments [] u = record { unique = tt; from = λ s n. tt }
  plans_from-IsKeyed arguments (level ∷ ls) (n, u) =
      let all : List Argument = arguments ++ map (format a.cpu) level.extra_flags in
      IsKeyed-level (is_left_out a.only level) (is_l8 level && outside_l8 a) level ls all
        (plans_from a phases all ls) n (plans_from-IsKeyed all ls u)

  runs_of-IsUnique :
      (plans : List LevelPlan)
      → IsUnique (key_of (is_grid phases)) plans
      → IsUnique (λ r. r.run_label) (runs_of a phases plans)
  unfolding runs_of
  runs_of-IsUnique plans u = elim (Bool-cases a.interleave) [
    | inl mixed ↦
        rw mixed (interleaved-IsUnique (is_grid phases) _ _ plans (repeats-IsUnique a.repeat) u)
    | inr apart ↦
        rw apart (grouped-IsUnique (is_grid phases) _ _ plans (repeats-IsUnique a.repeat) u)
  ]

levels-IsUnique : IsUnique level_label levels
levels-IsUnique = all_different-IsUnique levels refl

-- The phases that the checks let through.
IsPhased : List ℤ → Type 0
IsPhased phases = IsUnique (phase_tag (is_grid phases)) (map some phases)

require-true : (b : Bool) (e : PlanError) (u : Unit {0}) → require b e ≡ ok u → b ≡ true
require-true true e u h = refl
require-true false e u h = cc

check_args-IsPhased : (a : Args) (phases : List ℤ) → check_args a ≡ ok phases → IsPhased phases
unfolding check_args IsPhased
check_args-IsPhased a phases h =
    let (_, _, t1) = >>=-eq-ok (require (good_numbers a) invalid_numbers) _ h in
    let (_, _, t2) = >>=-eq-ok (require (not (is_negative a.cpu)) invalid_cpu) _ t1 in
    let (_, _, t3) = >>=-eq-ok (require (good_levels a.only) unknown_or_duplicate_level) _ t2 in
    let (found, _, t4) = >>=-eq-ok (parsed_phases a) _ t3 in
    let (_, _, t5) = >>=-eq-ok (require (not (phase_outside found)) phase_range) _ t4 in
    let (_, fits, t6) = >>=-eq-ok (require (fits_grid a found) phase_grid) _ t5 in
    let (_, _, t7) =
      >>=-eq-ok (require (not (is_negative a.asked_peer_cpu)) invalid_peer_cpu) _ t6 in
    subst IsPhased (ok_injective found phases t7)
      (phases-IsUnique found _ (require-true (fits_grid a found) phase_grid _ fits))

-- If a sweep is planned, no two of its runs have the same label.
pub plan_runs-IsUnique :
    (a : Args) (runs : List PlannedRun) (stopped : Option String)
    → plan_runs a ≡ ok (runs, stopped)
    → IsUnique (λ r. r.run_label) runs
unfolding plan_runs IsPlanned IsPhased
plan_runs-IsUnique a runs stopped h =
    let (phases, checked, t1) = >>=-eq-ok (check_args a) _ h in
    let (runnable, planned, t2) = >>=-eq-ok (plan_levels levels a.cpu) _ t1 in
    let (plans, made, t3) = >>=-eq-ok (plans_from a phases [] runnable.0) _ t2 in
    let (_, _, t4) = >>=-eq-ok (check_peer a phases plans) _ t3 in
    let different = check_args-IsPhased a phases checked in
    let (rest, whole) =
      Returns-of_ok (IsPlanned levels) (plan_levels levels a.cpu) runnable
        (plan_levels-IsPlanned levels a.cpu) planned in
    let names : IsUnique level_label runnable.0 =
      IsUnique-front level_label runnable.0 rest
        (subst (λ ls. IsUnique level_label ls) whole levels-IsUnique) in
    let keyed =
      Returns-of_ok (IsKeyed (is_grid phases) runnable.0) (plans_from a phases [] runnable.0) plans
        (plans_from-IsKeyed a phases different [] runnable.0 names) made in
    subst (λ rs. IsUnique (λ r. r.run_label) rs)
      (ap (λ pair. pair.0) (ok_injective (runs_of a phases plans, runnable.1) (runs, stopped) t4))
      (runs_of-IsUnique a phases different plans keyed.unique)
