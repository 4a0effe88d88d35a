-- ===== src/Sim/Headless/Rounds.antt =====
-- The rounds of a headless run (sim/run_headless.py).
use tvc.Prelude.{
  ◌≢◌, ℕ, zero, suc, ◌+◌, ◌≤◌, ◌<◌, ◌≡◌, refl, ◌⊎◌, inl, inr, Bool, true, false, ◌&&◌, Option, none,
  some, List, [], ◌∷◌, ◌∙◌, sym, arith, ltb, lt→ltb, length, Bool-cases, Option-cases, is_some,
}
use tvc.Prelude.Result.{ok}
use tvc.Float64
use tvc.Sim.Types.{Observation}
use tvc.Sim.Plant.{fixed}
use tvc.Sim.Episode.Types.{EpisodeState, EpisodeInput, EpisodeOutput}
use tvc.Sim.Episode as Episode
use tvc.Sim.Episode.{end_reason, next_count, conclude, flies_blind}
use tvc.Sim.Rng.{SplitMix64, next_double, draw_drop, draws}
use tvc.Sim.Scenario.{
  override, find_command, gust_at, Scenario, up, down, disturbance_at, command_at, forced_drop_at,
}
use tvc.Sim.Headless.{
  dropped, sense, hold, is_fresh, Row, Loop, round, rounds, finish, episode_input, break_reason,
  sim_reason_at,
}
use tvc.Sim.Episode.Invariant.{step-IsWellFormed}
use tvc.Sim.Headless.Ending.{
  IsPlantReason, plant_reason-IsPlantReason, IsReady, LastEnded, LastEnded-cons, break_reason-ended,
}

-- A loss rate from 0 to 1.
abbrev pub IsProbability : ℕ → Type 0
IsProbability p = (Float64.le 0 p && Float64.le p 0x3ff0000000000000) ≡ true

draw_drop-of :
    (s : SplitMix64) (p : ℕ)
    → IsProbability p
    → draw_drop s p ≡ some (Float64.lt (next_double s).0 p, draws 1 s)
unfolding draw_drop next_double draws
draw_drop-of s p h = rw h refl

end_reason_present :
    (i : EpisodeInput) (n : ℕ) → (i.fresh ≡ false) ⊎ (is_some i.held ≡ true) → end_reason i n ≢ none
unfolding end_reason
end_reason_present i n h = ground arith

flies_blind-held :
    (s : EpisodeState) (i : EpisodeInput)
    → (i.fresh ≡ false) ⊎ (is_some i.held ≡ true)
    → flies_blind s i ≡ false
unfolding flies_blind
flies_blind-held s i h = ground arith

step_present :
    (s : EpisodeState) (i : EpisodeInput)
    → (i.fresh ≡ false) ⊎ (is_some i.held ≡ true)
    → Episode.step s i ≢ none
unfolding Episode.step
step_present s i h =
    ground
      (arith, end_reason_present i (next_count s.settle_count i.held) h, flies_blind-held s i h)

-- A cycle that is not fresh, or that has a held observation, does not raise.
step-output :
    (s : EpisodeState) (i : EpisodeInput)
    → (i.fresh ≡ false) ⊎ (is_some i.held ≡ true)
    → (o : EpisodeOutput) × (Episode.step s i ≡ some o)
step-output s i h = elim (Option-cases (Episode.step s i)) [
  | inl e ↦ absurd (step_present s i h e)
  | inr r ↦ r
]

-- A fresh sample is held.
hold-is_fresh :
    (o : Observation) (held : Option Observation)
    → (is_fresh o ≡ false) ⊎ (is_some (hold o held) ≡ true)
hold-is_fresh o held = elim (Bool-cases (is_fresh o)) [ inl h ↦ inr (rw h refl) | inr h ↦ inl h ]

-- What a round does.
record Rounded (spec : Scenario) (tick : ℕ) (w : Loop) (row : Row) (w' : Loop) (reason : Option ℕ)
    : Type 0 where
  input : EpisodeInput
  computed : round spec tick w ≡ ok (row, w', reason)
  at_tick : row.tick ≡ tick
  stepped : Episode.step w.state input ≡ some row.episode
  next_state : w'.state ≡ row.episode.state
  up_draw : w'.up_stream ≡ draws 1 w.up_stream
  down_draw : w'.down_stream ≡ draws 1 w.down_stream
  broken : reason ≡ break_reason (sim_reason_at spec.ticks tick w.pending_reason) row.episode
  no_stop : input.stop_reason ≡ none
  given : input.sim_reason ≡ sim_reason_at spec.ticks tick w.pending_reason
  pending : IsPlantReason w.pending_reason → IsPlantReason w'.pending_reason

round-Rounded :
    (spec : Scenario) (tick : ℕ) (w : Loop)
    → IsProbability spec.loss_up
    → IsProbability spec.loss_down
    → tick < spec.ticks
    → (row : Row) × (w' : Loop) × (reason : Option ℕ) × Rounded spec tick w row w' reason
unfolding round disturbance_at command_at forced_drop_at finish episode_input
round-Rounded spec tick w pu pd h =
    let on_time : ltb tick spec.ticks ≡ true = lt→ltb tick spec.ticks h in
    let up_draw : Bool × SplitMix64 =
      (Float64.lt (next_double w.up_stream).0 spec.loss_up, draws 1 w.up_stream) in
    let down_draw : Bool × SplitMix64 =
      (Float64.lt (next_double w.down_stream).0 spec.loss_down, draws 1 w.down_stream) in
    let up_drop = dropped (override spec tick up) up_draw.0 in
    let drops : Bool × Bool = (up_drop, dropped (override spec tick down) down_draw.0) in
    let opcode = find_command spec.commands tick in
    let observation = sense tick w.truth up_drop in
    let input = episode_input spec tick w up_drop opcode in
    let (o, e) : (o : EpisodeOutput) × (Episode.step w.state input ≡ some o) =
      step-output w.state input (unfold episode_input in hold-is_fresh observation w.held) in
    let out =
      finish w input observation up_draw down_draw drops (gust_at spec.gusts tick fixed) opcode o in
    (
      out.0,
      out.1,
      out.2,
      record {
        input = input;
        computed =
            rw
              (
                draw_drop-of w.up_stream spec.loss_up pu,
                draw_drop-of w.down_stream spec.loss_down pd,
                on_time,
                e,
              )
              refl;
        at_tick = refl;
        stepped = e;
        next_state = refl;
        up_draw = refl;
        down_draw = refl;
        broken = refl;
        no_stop = refl;
        given = refl;
        pending = plant_reason-IsPlantReason _ _;
      },
    )

-- The rows are for consecutive ticks from `tick` on.
abbrev pub IsTicks : ℕ → List Row → Type 0
IsTicks tick [] = Unit {0}
IsTicks tick (row ∷ rest) = (row.tick ≡ tick) × IsTicks (tick + 1) rest

pub record Completed (spec : Scenario) (n tick : ℕ) (w : Loop) : Type 0 where
  pub rows : List Row
  pub last : Loop
  pub stop : ℕ
  pub computed : rounds spec n tick w ≡ ok (rows, last, some stop)
  pub in_order : IsTicks tick rows
  pub at_most : length rows ≤ n
  pub at_least : 1 ≤ length rows
  pub up_draws : last.up_stream ≡ draws (length rows) w.up_stream
  pub down_draws : last.down_stream ≡ draws (length rows) w.down_stream
  pub ended : IsReady w → LastEnded rows

-- The last tick has a reason to stop.
last_tick-breaks :
    (ticks tick : ℕ) (pending : Option ℕ) (o : EpisodeOutput)
    → tick + 1 ≡ ticks
    → break_reason (sim_reason_at ticks tick pending) o ≢ none
last_tick-breaks ticks tick pending o h = ground arith

one_round :
    (spec : Scenario) (n tick stop : ℕ) (w w' : Loop) (row : Row)
    → Rounded spec tick w row w' (some stop)
    → Completed spec (suc n) tick w
unfolding rounds
one_round spec n tick stop w w' row r = record {
  rows = row ∷ [];
  last = w';
  stop = stop;
  computed = rw r.computed refl;
  in_order = (r.at_tick, tt);
  at_most = omega arith;
  at_least = omega arith;
  up_draws = r.up_draw;
  down_draws = r.down_draw;
  ended = λ ready.
      break_reason-ended w.state r.input row.episode spec.ticks tick stop w.pending_reason r.stepped
        ready.0 r.no_stop r.given ready.1 r.broken;
}

Rounded-IsReady :
    (spec : Scenario) (tick : ℕ) (w w' : Loop) (row : Row) (reason : Option ℕ)
    → Rounded spec tick w row w' reason
    → IsReady w
    → IsReady w'
Rounded-IsReady spec tick w w' row reason r ready = (
  rw r.next_state (step-IsWellFormed w.state r.input row.episode r.stepped ready.0),
  r.pending ready.1,
)

one_more_round :
    (spec : Scenario) (n tick : ℕ) (w w' : Loop) (row : Row)
    → Rounded spec tick w row w' none
    → Completed spec n (tick + 1) w'
    → Completed spec (suc n) tick w
unfolding rounds draws
one_more_round spec n tick w w' row r c = record {
  rows = row ∷ c.rows;
  last = c.last;
  stop = c.stop;
  computed = rw (r.computed, c.computed) refl;
  in_order = (r.at_tick, c.in_order);
  at_most = omega (arith, c.at_most);
  at_least = omega (arith, c.at_least);
  up_draws = c.up_draws ∙ rw r.up_draw refl;
  down_draws = c.down_draws ∙ rw r.down_draw refl;
  ended = λ ready.
      LastEnded-cons row c.rows (c.ended (Rounded-IsReady spec tick w w' row none r ready));
}

last_round :
    (spec : Scenario) (tick : ℕ) (w w' : Loop) (row : Row) (reason : Option ℕ)
    → tick + 1 ≡ spec.ticks
    → Rounded spec tick w row w' reason
    → Completed spec 1 tick w
last_round spec tick w w' row none h r =
    absurd (last_tick-breaks spec.ticks tick w.pending_reason row.episode h (sym r.broken))
last_round spec tick w w' row (some stop) h r = one_round spec 0 tick stop w w' row r

earlier_round :
    (spec : Scenario) (n tick : ℕ) (w w' : Loop) (row : Row) (reason : Option ℕ)
    → Rounded spec tick w row w' reason
    → Completed spec n (tick + 1) w'
    → Completed spec (suc n) tick w
earlier_round spec n tick w w' row none r c = one_more_round spec n tick w w' row r c
earlier_round spec n tick w w' row (some stop) r c = one_round spec n tick stop w w' row r

pub rounds-Completed :
    (spec : Scenario) (n tick : ℕ) (w : Loop)
    → IsProbability spec.loss_up
    → IsProbability spec.loss_down
    → tick + suc n ≡ spec.ticks
    → Completed spec (suc n) tick w
rounds-Completed spec zero tick w pu pd h =
    let (row, w', reason, r) = round-Rounded spec tick w pu pd (omega (arith, h)) in
    last_round spec tick w w' row reason (omega (arith, h)) r
rounds-Completed spec (suc n) tick w pu pd h =
    let (row, w', reason, r) = round-Rounded spec tick w pu pd (omega (arith, h)) in
    earlier_round spec (suc n) tick w w' row reason r
      (rounds-Completed spec n (tick + 1) w' pu pd (omega (arith, h)))
