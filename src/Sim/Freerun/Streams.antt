-- ===== src/Sim/Freerun/Streams.antt =====
-- The loss streams of the free-running model are drawn from once for each draw it counts
-- (sim/freerun.py, Model.loss).
use tvc.Prelude.{
  ℕ, ◌+◌, ◌*◌, ◌%◌, ◌^◌, ◌≡◌, Bool, false, Option, some, List, arith, Option-cases, inl, inr,
}
use tvc.Prelude.Raising.{Outcome, Always}
use tvc.Sim.Rng.{
  SplitMix64, golden, draw_drop, next_double, next_u64, stream_state, link_loss_up, link_loss_down,
}
use tvc.Sim.Scenario.{Scenario, Direction, up, down}
use tvc.Sim.Freerun.Receipt.{receive_keeps}
use tvc.Sim.Freerun.{Model, loss, receive, advance_model}

-- The states of both streams are their starts plus the increment for each draw.
abbrev pub IsOwned : ℕ → Model → Type 0
IsOwned seed m =
    (m.up_stream.state ≡ (stream_state seed link_loss_up + m.up_draws * golden) % 2 ^ 64)
    × (m.down_stream.state ≡ (stream_state seed link_loss_down + m.down_draws * golden) % 2 ^ 64)

abbrev pub Owns : {A : Type 0} → ℕ → Outcome Model A → Type 0
Owns seed = Always (IsOwned seed)

-- A draw moves the stream on by one increment.
draw_drop-state :
    (s s' : SplitMix64) (p : ℕ) (b : Bool)
    → draw_drop s p ≡ some (b, s')
    → s'.state ≡ (s.state + golden) % 2 ^ 64
unfolding draw_drop next_double next_u64
draw_drop-state s s' p b h = ground arith

pub loss-IsOwned :
    (spec : Scenario) (d : Direction) (tick seed : ℕ) (terminal prologue : Bool) (m : Model)
    → IsOwned seed m
    → Owns seed (loss spec d tick terminal prologue m)
unfolding loss
loss-IsOwned spec up tick seed terminal prologue m h =
    elim (Option-cases (draw_drop m.up_stream spec.loss_up)) [
      | inl e ↦ rw e h
      | inr ((b, s'), e) ↦ ground (arith, draw_drop-state m.up_stream s' spec.loss_up b e)
    ]
loss-IsOwned spec down tick seed terminal prologue m h =
    elim (Option-cases (draw_drop m.down_stream spec.loss_down)) [
      | inl e ↦ rw e h
      | inr ((b, s'), e) ↦ ground (arith, draw_drop-state m.down_stream s' spec.loss_down b e)
    ]

pub advance_model-IsOwned :
    (spec : Scenario) (k seed : ℕ) (selected : Option ℕ) (m : Model)
    → IsOwned seed m
    → Owns seed (advance_model spec k selected m)
unfolding advance_model
advance_model-IsOwned spec k seed selected m h = ground arith

module _ (crc32c : List ℕ → ℕ) where
  -- Whatever packets arrive, and also when the receipt raises, the loss streams stand where the counted
  -- draws have taken them.
  pub receive-IsOwned :
      (spec : Scenario) (packets : List (List ℕ)) (k seed : ℕ) (m : Model)
      → IsOwned seed m
      → Owns seed (receive crc32c spec packets k m)
  receive-IsOwned spec packets k seed m h =
      receive_keeps (IsOwned seed) spec k
        (λ terminal m'. loss-IsOwned spec down k seed terminal false m')
        (λ m' counts reason seen raw lost survived h'. h') crc32c packets m h
