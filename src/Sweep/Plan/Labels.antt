-- ===== src/Sweep/Plan/Labels.antt =====
-- The labels of the planned runs (scripts/sweep.py), which name the files that a run writes.
use tvc.Prelude.{ℕ, ◌≡◌, ap, Bool, false, Option, none, some, List, [], ◌∷◌, map, if◌then◌else◌}
use tvc.Prelude.Unique.{
  IsAbsent, IsUnique, IsApart, IsAbsent-append, IsUnique-append, other_tags, one_row,
}
use tvc.Sweep.Plan.{LevelPlan, Label, PlannedRun, label_of, run_of, interleaved, grouped}

-- The key of a plan, and the tag of a repetition: the parts of a label that show them.
abbrev pub key_of : Bool → LevelPlan → Label
key_of grid of_plan = label_of grid false 0 of_plan

abbrev pub tag_of : Bool → ℕ → Option ℕ
tag_of many r = if many then some r else none

abbrev without_repeat : Label → Label
without_repeat l = record l { of_repeat = none }

module _ (grid many : Bool) where
  abbrev pub run : ℕ → LevelPlan → PlannedRun
  run = run_of grid many

  abbrev pub label : PlannedRun → Label
  label r = r.run_label

  same_tag :
      (r r' : ℕ) (p p' : LevelPlan)
      → label (run r p) ≡ label (run r' p')
      → tag_of many r ≡ tag_of many r'
  same_tag r r' p p' e = ap (λ l. l.of_repeat) e

  same_key :
      (r r' : ℕ) (p p' : LevelPlan)
      → label (run r p) ≡ label (run r' p')
      → key_of grid p ≡ key_of grid p'
  same_key r r' p p' e = ap without_repeat e

  interleaved-IsAbsent :
      (r : ℕ) (rs : List ℕ) (p : LevelPlan) (plans : List LevelPlan)
      → IsAbsent (tag_of many) (tag_of many r) rs
      → IsAbsent label (label (run r p)) (interleaved run rs plans)
  interleaved-IsAbsent r [] p plans n = tt
  interleaved-IsAbsent r (r' ∷ rs) p plans (n, m) =
      IsAbsent-append label (label (run r p)) (map (run r') plans) (interleaved run rs plans)
        (other_tags (tag_of many) (key_of grid) label run same_tag same_key r r' p plans n)
        (interleaved-IsAbsent r rs p plans m)

  interleaved-IsApart :
      (r : ℕ) (rs : List ℕ) (part plans : List LevelPlan)
      → IsAbsent (tag_of many) (tag_of many r) rs
      → IsApart label (map (run r) part) (interleaved run rs plans)
  interleaved-IsApart r rs [] plans n = tt
  interleaved-IsApart r rs (p ∷ part) plans n =
      (interleaved-IsAbsent r rs p plans n, interleaved-IsApart r rs part plans n)

  pub interleaved-IsUnique :
      (rs : List ℕ) (plans : List LevelPlan)
      → IsUnique (tag_of many) rs
      → IsUnique (key_of grid) plans
      → IsUnique label (interleaved run rs plans)
  interleaved-IsUnique [] plans u v = tt
  interleaved-IsUnique (r ∷ rs) plans (n, u) v =
      IsUnique-append label (map (run r) plans) (interleaved run rs plans)
        (one_row (tag_of many) (key_of grid) label run same_tag same_key r plans v)
        (interleaved-IsUnique rs plans u v) (interleaved-IsApart r rs plans plans n)

  abbrev run_at : LevelPlan → ℕ → PlannedRun
  run_at p r = run r p

  grouped-IsAbsent :
      (r : ℕ) (rs : List ℕ) (p : LevelPlan) (plans : List LevelPlan)
      → IsAbsent (key_of grid) (key_of grid p) plans
      → IsAbsent label (label (run r p)) (grouped run rs plans)
  grouped-IsAbsent r rs p [] n = tt
  grouped-IsAbsent r rs p (p' ∷ plans) (n, m) =
      IsAbsent-append label (label (run r p)) (map (run_at p') rs) (grouped run rs plans)
        (other_tags (key_of grid) (tag_of many) label run_at (λ a b c d. same_key c d a b)
          (λ a b c d. same_tag c d a b) p p' r rs n)
        (grouped-IsAbsent r rs p plans m)

  grouped-IsApart :
      (part rs : List ℕ) (p : LevelPlan) (plans : List LevelPlan)
      → IsAbsent (key_of grid) (key_of grid p) plans
      → IsApart label (map (run_at p) part) (grouped run rs plans)
  grouped-IsApart [] rs p plans n = tt
  grouped-IsApart (r ∷ part) rs p plans n =
      (grouped-IsAbsent r rs p plans n, grouped-IsApart part rs p plans n)

  pub grouped-IsUnique :
      (rs : List ℕ) (plans : List LevelPlan)
      → IsUnique (tag_of many) rs
      → IsUnique (key_of grid) plans
      → IsUnique label (grouped run rs plans)
  grouped-IsUnique rs [] u v = tt
  grouped-IsUnique rs (p ∷ plans) u (n, v) =
      IsUnique-append label (map (run_at p) rs) (grouped run rs plans)
        (one_row (key_of grid) (tag_of many) label run_at (λ a b c d. same_key c d a b)
          (λ a b c d. same_tag c d a b) p rs u)
        (grouped-IsUnique rs plans u v) (grouped-IsApart rs rs p plans n)
