-- ===== src/Sweep/Plan/Keys.antt =====
-- The planned runs have different labels (scripts/sweep.py plan_runs).
use Prim.Native.String.{String}
use text.Mathlib.Text.{◌==◌ as str_eq}
use text.Mathlib.TextEquality.{eq_iff}
use tvc.Prelude.{
  ℕ, zero, suc, ◌≡◌, refl, sym, ap, ◌∙◌, ◌≢◌, Bool, true, false, not, ◌&&◌, ◌||◌, Option, none,
  some, List, [], ◌∷◌, ◌++◌, map, if◌then◌else◌, arith, both_true, ◌<◌,
}
use tvc.Prelude.Int.{ℤ, pos, negsuc, pos_part, eq_ℤ, ltb_ℤ}
use tvc.Prelude.Result.{Result, Returns, ok, err}
use tvc.Prelude.Unique.{IsAbsent, IsUnique, IsApart}
use tvc.Sweep.Levels.{Level, PlanError, plan_levels, lockstep_level, level_after}
use tvc.Sweep.Plan.{
  LevelPlan, count_up, is_grid, is_grid_phases, is_listed, all_different, known_labels,
}
use tvc.Sweep.Plan.Labels.{key_of, tag_of}

-- The repetitions.
tags_differ : (many : Bool) (r s : ℕ) → many ≡ true → r < s → tag_of many r ≢ tag_of many s
tags_differ true r s m h = λ e. ground arith
tags_differ false r s m h = cc

count_up-IsAbsent :
    (many : Bool) (r start n : ℕ)
    → r < start
    → many ≡ true
    → IsAbsent (tag_of many) (tag_of many r) (count_up start n)
count_up-IsAbsent many r start zero h m = tt
count_up-IsAbsent many r start (suc n) h m =
    (tags_differ many r start m h, count_up-IsAbsent many r (suc start) n (omega (arith, h)) m)

count_up-IsUnique :
    (many : Bool) (start n : ℕ) → many ≡ true → IsUnique (tag_of many) (count_up start n)
count_up-IsUnique many start zero m = tt
count_up-IsUnique many start (suc n) m = (
  count_up-IsAbsent many start (suc start) n (omega arith) m,
  count_up-IsUnique many (suc start) n m,
)

pub repeats-IsUnique :
    (repeat : ℤ) → IsUnique (tag_of (ltb_ℤ (pos 1) repeat)) (count_up 1 (pos_part repeat))
repeats-IsUnique (negsuc n) = tt
repeats-IsUnique (pos zero) = tt
repeats-IsUnique (pos (suc zero)) = (tt, tt)
repeats-IsUnique (pos (suc (suc n))) = count_up-IsUnique _ 1 (suc (suc n)) (ground arith)

-- The phases of a grid are different, and other phases do not show.
unfoldable pub phase_tag : Bool → Option ℤ → Option (Option ℤ)
phase_tag grid phase = if grid then some phase else none

equal_parts :
    (a b : ℤ) (m n : ℕ)
    → eq_ℤ a (pos (suc m)) ≡ true
    → eq_ℤ b (pos (suc n)) ≡ true
    → pos_part a ≡ pos_part b
    → m ≡ n
equal_parts (pos a) (pos b) m n h k e = ground arith
equal_parts (negsuc a) b m n h k e = ground arith
equal_parts (pos a) (negsuc b) m n h k e = ground arith

-- Different phases, as their natural numbers.
phase_number : Option (Option ℤ) → ℕ
phase_number none = 0
phase_number (some none) = 0
phase_number (some (some n)) = pos_part n

phases_differ :
    (a b : ℤ) (m n : ℕ)
    → eq_ℤ a (pos (suc m)) ≡ true
    → eq_ℤ b (pos (suc n)) ≡ true
    → m ≢ n
    → ◌≢◌ {A = Option (Option ℤ)} (some (some a)) (some (some b))
unfolding phase_number
phases_differ a b m n h k different = λ e.
    let same : pos_part a ≡ pos_part b = ap phase_number e in
    different (equal_parts a b m n h k same)

pub phases-IsUnique :
    (phases : List ℤ) (rest : Bool)
    → (not (is_grid phases) || (is_grid_phases phases && rest)) ≡ true
    → IsUnique (phase_tag (is_grid phases)) (map some phases)
unfolding phase_tag
phases-IsUnique [] rest h = tt
phases-IsUnique (a ∷ []) rest h = (tt, tt)
phases-IsUnique (a ∷ b ∷ []) rest h = ground arith
phases-IsUnique (a ∷ b ∷ c ∷ []) rest h =
    let (all, _) = both_true (is_grid_phases (a ∷ b ∷ c ∷ [])) rest h in
    let (two, third) = both_true (eq_ℤ a (pos 200) && eq_ℤ b (pos 400)) _ all in
    let (first, second) = both_true (eq_ℤ a (pos 200)) _ two in
    (
      (
        phases_differ a b 199 399 first second (ground arith),
        (phases_differ a c 199 799 first third (ground arith), tt),
      ),
      ((phases_differ b c 399 799 second third (ground arith), tt), (tt, tt)),
    )
phases-IsUnique (a ∷ b ∷ c ∷ d ∷ more) rest h = ground arith

neither : (a b : Bool) → (a || b) ≡ false → (a ≡ false) × (b ≡ false)
neither false b h = (refl, h)
neither true b h = ground arith

other_text : (s t : String) → str_eq s t ≡ false → s ≢ t
other_text s t h = ground (arith, eq_iff s t)

is_listed-IsAbsent :
    (s : String) (ls : List Level)
    → is_listed s (known_labels ls) ≡ false
    → IsAbsent (λ l. Level.label l) s ls
is_listed-IsAbsent s [] h = tt
is_listed-IsAbsent s (l ∷ ls) h =
    let (here, later) = neither (str_eq s l.label) (is_listed s (known_labels ls)) h in
    (other_text s l.label here, is_listed-IsAbsent s ls later)

pub all_different-IsUnique :
    (ls : List Level) → all_different (known_labels ls) ≡ true → IsUnique (λ l. Level.label l) ls
all_different-IsUnique [] h = tt
all_different-IsUnique (l ∷ ls) h =
    let (absent, rest) = both_true (not (is_listed l.label (known_labels ls))) _ h in
    (is_listed-IsAbsent l.label ls (ground arith), all_different-IsUnique ls rest)

-- The levels that can run come first, in their order.
unfoldable pub IsPlanned : List Level → List Level × Option String → Type 0
IsPlanned ls (runnable, stopped) = (rest : List Level) × (ls ≡ runnable ++ rest)

IsPlanned-level :
    (lockstep unpinned : Bool) (level : Level) (ls : List Level)
    (later : Result PlanError (List Level × Option String))
    → Returns (IsPlanned ls) later
    → Returns (IsPlanned (level ∷ ls)) (
        if lockstep
        then err lockstep_level
        else if unpinned
        then ok ([], some level.label)
        else level_after level later)
unfolding IsPlanned
IsPlanned-level true unpinned level ls later h = tt
IsPlanned-level false true level ls later h = (level ∷ ls, refl)
IsPlanned-level false false level ls (err e) h = tt
IsPlanned-level false false level ls (ok (run, stopped)) (rest, e) =
    (rest, ap (λ more. level ∷ more) e)

pub plan_levels-IsPlanned :
    (ls : List Level) (cpu : Option ℤ) → Returns (IsPlanned ls) (plan_levels ls cpu)
unfolding plan_levels IsPlanned
plan_levels-IsPlanned [] cpu = ([], refl)
plan_levels-IsPlanned (l ∷ ls) cpu =
    IsPlanned-level _ _ l ls (plan_levels ls cpu) (plan_levels-IsPlanned ls cpu)

abbrev pub level_label : Level → String
level_label l = l.label

abbrev pub plan_level : LevelPlan → String
plan_level p = p.level

-- The plans of the levels `ls` have different keys, and levels of `ls`.
pub record IsKeyed (grid : Bool) (ls : List Level) (plans : List LevelPlan) : Type 0 where
  pub unique : IsUnique (key_of grid) plans
  pub from : (s : String) → IsAbsent level_label s ls → IsAbsent plan_level s plans

module _ (grid : Bool) (make : Option ℤ → LevelPlan) (name : String)
    (named : (phase : Option ℤ) → (make phase).level ≡ name)
    (phased : (phase : Option ℤ) → (make phase).phase_us ≡ phase) where
  block-IsAbsent :
      (phase : Option ℤ) (phases : List (Option ℤ))
      → IsAbsent (phase_tag grid) (phase_tag grid phase) phases
      → IsAbsent (key_of grid) (key_of grid (make phase)) (map make phases)
  unfolding phase_tag
  block-IsAbsent phase [] n = tt
  block-IsAbsent phase (q ∷ phases) (n, m) = (
    λ e. n (
        sym (ap (phase_tag grid) (phased phase))
        ∙ ap (λ l. l.of_phase) e
        ∙ ap (phase_tag grid) (phased q)),
    block-IsAbsent phase phases m,
  )

  pub block-IsUnique :
      (phases : List (Option ℤ))
      → IsUnique (phase_tag grid) phases
      → IsUnique (key_of grid) (map make phases)
  block-IsUnique [] u = tt
  block-IsUnique (p ∷ phases) (n, u) = (block-IsAbsent p phases n, block-IsUnique phases u)

  level_apart :
      (of_plan : LevelPlan) (plans : List LevelPlan)
      → of_plan.level ≡ name
      → IsAbsent plan_level name plans
      → IsAbsent (key_of grid) (key_of grid of_plan) plans
  level_apart of_plan [] e n = tt
  level_apart of_plan (q ∷ plans) e (n, m) =
      (λ k. n (sym e ∙ ap (λ l. l.of_level) k), level_apart of_plan plans e m)

  pub block-IsApart :
      (phases : List (Option ℤ)) (plans : List LevelPlan)
      → IsAbsent plan_level name plans
      → IsApart (key_of grid) (map make phases) plans
  block-IsApart [] plans n = tt
  block-IsApart (p ∷ phases) plans n =
      (level_apart (make p) plans (named p) n, block-IsApart phases plans n)

  pub block-names :
      (s : String) (phases : List (Option ℤ)) → s ≢ name → IsAbsent plan_level s (map make phases)
  block-names s [] n = tt
  block-names s (p ∷ phases) n = (λ e. n (e ∙ named p), block-names s phases n)
