-- ===== src/Sim/Headless/Completion.antt =====
-- A headless run completes (sim/run_headless.py).
use tvc.Prelude.{
  ℕ, suc, ◌+◌, ◌*◌, ◌-◌, ◌%◌, ◌^◌, ◌≤◌, ◌<◌, ◌≡◌, refl, ◌⊎◌, true, ◌||◌, some, [], ◌∷◌, arith, ltb,
  lt→ltb, ◌==◌, length, is_some,
}
use tvc.Prelude.Result.{ok}
use tvc.Sim.Rng.{
  SplitMix64, StreamName, draws, golden, stream_state, link_loss_up, link_loss_down, seeded,
}
use tvc.Sim.Rng.Period.{draws-state}
use tvc.Sim.Scenario.{Scenario}
use tvc.Sim.Headless.{Trace, rounds, begin, run_headless, StreamResult, stream_result}
use tvc.Sim.Headless.Rounds.{IsProbability, IsTicks, Completed, rounds-Completed}
use tvc.Sim.Episode.Invariant.{initial-IsWellFormed}
use tvc.Sim.Headless.Ending.{LastEnded}

-- The account of a stream with `n` draws.
abbrev pub drawn : ℕ → StreamName → ℕ → StreamResult
drawn seed name n = record {
  name = name;
  start_state = stream_state seed name;
  final_state = (stream_state seed name + n * golden) % 2 ^ 64;
  draws = n;
}

-- A completed run: rows for the first ticks, at least one, a reason to stop, a terminal result of
-- the episode in the last row, and one draw from each
-- loss stream for each row.
pub record IsComplete (spec : Scenario) (seed delay_ticks : ℕ) : Type 0 where
  pub trace : Trace
  pub computed : run_headless spec seed delay_ticks ≡ ok trace
  pub declared : trace.ticks_declared ≡ spec.ticks
  pub in_order : IsTicks 0 trace.rows
  pub at_most : length trace.rows ≤ spec.ticks
  pub at_least : 1 ≤ length trace.rows
  pub stopped : is_some trace.sim_reason ≡ true
  pub ended : LastEnded trace.rows
  pub streams :
      trace.rng
      ≡ drawn seed link_loss_up (length trace.rows)
        ∷ drawn seed link_loss_down (length trace.rows)
        ∷ []

stream_result-drawn :
    (seed n : ℕ) (name : StreamName) (s : SplitMix64)
    → s ≡ draws n (seeded (stream_state seed name))
    → stream_result seed name s n ≡ drawn seed name n
stream_result-drawn seed n name s h = rw (h, draws-state (stream_state seed name) n) refl

Completed-IsComplete :
    (spec : Scenario) (seed delay_ticks n : ℕ)
    → seed < 2 ^ 64
    → (delay_ticks ≡ 0) ⊎ (delay_ticks ≡ 1)
    → spec.ticks ≡ suc n
    → Completed spec (suc n) 0 (begin spec seed delay_ticks)
    → IsComplete spec seed delay_ticks
unfolding run_headless begin
Completed-IsComplete spec seed delay_ticks n hs hd ht c =
    let all : rounds spec spec.ticks 0 (begin spec seed delay_ticks)
        ≡ ok (c.rows, c.last, some c.stop) =
      simp ht c.computed in
    let seed_fits : ltb seed (2 ^ 64) ≡ true = lt→ltb seed (2 ^ 64) hs in
    let delay_fits : (delay_ticks == 0 || delay_ticks == 1) ≡ true = ground arith in
    let some_ticks : ltb 0 spec.ticks ≡ true = ground arith in
    record {
      trace = record {
        ticks_declared = spec.ticks;
        seed = seed;
        delay_ticks = delay_ticks;
        rows = c.rows;
        rng =
            stream_result seed link_loss_up c.last.up_stream (length c.rows)
            ∷ stream_result seed link_loss_down c.last.down_stream (length c.rows)
            ∷ [];
        sim_reason = some c.stop;
      };
      computed = rw (seed_fits, delay_fits, some_ticks, all) refl;
      declared = refl;
      in_order = c.in_order;
      at_most = omega (arith, ht, c.at_most);
      at_least = c.at_least;
      stopped = refl;
      ended = c.ended (initial-IsWellFormed spec.auto_arm, tt);
      streams =
          rw
            (
              stream_result-drawn seed (length c.rows) link_loss_up c.last.up_stream c.up_draws,
              stream_result-drawn seed (length c.rows) link_loss_down c.last.down_stream
                  c.down_draws,
            )
            refl;
    }

-- From any scenario with a positive number of ticks and loss rates from 0 to 1, any 64-bit seed and a
-- delay of 0 or 1, `run_headless` raises nothing: it returns rows for the consecutive ticks from 0, at
-- least one and at most one for each tick declared, a reason to stop, a terminal result of the
-- episode in the last row, and streams with one draw for each row, their final states the start plus
-- that many increments.
pub run_headless_completes :
    (spec : Scenario) (seed delay_ticks : ℕ)
    → IsProbability spec.loss_up
    → IsProbability spec.loss_down
    → seed < 2 ^ 64
    → (delay_ticks ≡ 0) ⊎ (delay_ticks ≡ 1)
    → 0 < spec.ticks
    → IsComplete spec seed delay_ticks
run_headless_completes spec seed delay_ticks pu pd hs hd ht =
    let count : spec.ticks ≡ suc (spec.ticks - 1) = omega (arith, ht) in
    Completed-IsComplete spec seed delay_ticks (spec.ticks - 1) hs hd count (
      rounds-Completed spec (spec.ticks - 1) 0 (begin spec seed delay_ticks) pu pd
        (omega (arith, ht)))
