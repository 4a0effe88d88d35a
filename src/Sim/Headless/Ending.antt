-- ===== src/Sim/Headless/Ending.antt =====
-- Why the loop of sim/run_headless.py leaves an ended episode behind.
use tvc.Prelude.{
  ℕ, ◌≡◌, ◌≢◌, refl, ◌⊎◌, inl, inr, true, Option, none, some, List, [], ◌∷◌, arith, Option-cases,
  is_some,
}
use tvc.Sim.Types.{TruthState}
use tvc.Sim.Episode.Types.{
  EpisodeState, EpisodeInput, EpisodeOutput, sim_loc_angle, sim_loc_nonfinite, no_reason,
}
use tvc.Sim.Episode as Episode
use tvc.Sim.Episode.{end_reason, terminate}
use tvc.Sim.Episode.Invariant.{IsWellFormed, halted, ended, continued, step_view}
use tvc.Sim.Headless.{Row, Loop, plant_reason, sim_reason_at, break_reason}

abbrev pub IsPlantReason : Option ℕ → Type 0
IsPlantReason none = Unit {0}
IsPlantReason (some r) = (r ≡ sim_loc_angle) ⊎ (r ≡ sim_loc_nonfinite)

pub plant_reason-IsPlantReason :
    (t : TruthState) (p : Option ℕ) → IsPlantReason p → IsPlantReason (plant_reason t p)
plant_reason-IsPlantReason t p h = ground arith

-- The variables of a round: a well-formed episode and a reason of the plant, if any.
abbrev pub IsReady : Loop → Type 0
IsReady w = IsWellFormed w.state × IsPlantReason w.pending_reason

end_reason-given :
    (i : EpisodeInput) (n ticks tick : ℕ) (p : Option ℕ) (r : ℕ)
    → i.stop_reason ≡ none
    → i.sim_reason ≡ sim_reason_at ticks tick p
    → sim_reason_at ticks tick p ≡ some r
    → IsPlantReason p
    → end_reason i n ≢ some no_reason
unfolding end_reason
end_reason-given i n ticks tick p r hs hi hr hp = ground arith

-- A cycle that is given a reason ends the episode.
step-ended :
    (s : EpisodeState) (i : EpisodeInput) (o : EpisodeOutput) (ticks tick : ℕ) (p : Option ℕ)
    (r : ℕ)
    → Episode.step s i ≡ some o
    → IsWellFormed s
    → i.stop_reason ≡ none
    → i.sim_reason ≡ sim_reason_at ticks tick p
    → sim_reason_at ticks tick p ≡ some r
    → IsPlantReason p
    → is_some o.state.terminal ≡ true
step-ended s i o ticks tick p r h w hs hi hr hp = elim (step_view s i o h) [
  | halted over e ↦ rw e (rw⁻¹ w.ended over)
  | ended why live really because e ↦ rw e (unfold terminate in refl)
  | continued live because e ↦ absurd (end_reason-given i _ ticks tick p r hs hi hr hp because)
]

-- A round that breaks the loop leaves a terminal result.
pub break_reason-ended :
    (s : EpisodeState) (i : EpisodeInput) (o : EpisodeOutput) (ticks tick stop : ℕ) (p : Option ℕ)
    → Episode.step s i ≡ some o
    → IsWellFormed s
    → i.stop_reason ≡ none
    → i.sim_reason ≡ sim_reason_at ticks tick p
    → IsPlantReason p
    → some stop ≡ break_reason (sim_reason_at ticks tick p) o
    → is_some o.state.terminal ≡ true
break_reason-ended s i o ticks tick stop p h w hs hi hp b =
    elim (Option-cases (sim_reason_at ticks tick p)) [
      | inl e ↦ ground (arith, e)
      | inr (r, e) ↦ step-ended s i o ticks tick p r h w hs hi e hp
    ]

-- The newest row's episode has a terminal result.
abbrev pub LastEnded : List Row → Type 0
LastEnded [] = ⊥
LastEnded (row ∷ []) = is_some row.episode.state.terminal ≡ true
LastEnded (row ∷ next ∷ rest) = LastEnded (next ∷ rest)

pub LastEnded-cons : (row : Row) (rows : List Row) → LastEnded rows → LastEnded (row ∷ rows)
LastEnded-cons row [] h = absurd h
LastEnded-cons row (next ∷ rest) h = h
