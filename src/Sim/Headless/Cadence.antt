-- ===== src/Sim/Headless/Cadence.antt =====
-- How the clauses of evaluate (sim/trace.py) fit the traces of run_headless.
use Prim.Native.String.{String}
use tvc.Prelude.{
  ℕ, suc, ◌+◌, ◌^◌, ◌<◌, ◌≡◌, refl, sym, ◌↔◌, ◌⊎◌, Bool, true, false, List, [], ◌∷◌, length, arith,
  ◌==◌, ltb, ap, ◌&&◌,
}
use mathlib.Core.Path.{subst}
use tvc.Prelude.Result.{ok}
use tvc.Sim.Scenario.{Scenario}
use tvc.Sim.Headless.{Row, Trace, run_headless}
use tvc.Prelude.Json.{Json}
use tvc.Sim.Scenario.Load.{load}
use tvc.Sim.Scenario.Load.Soundness.{load-IsScenario}
use tvc.Sim.Headless.Loaded.{load_completes}
use tvc.Sim.Headless.Rounds.{IsTicks}
use tvc.Sim.Headless.Acceptance.{evaluate, evaluate_rows, evidence_rows, consecutive, ends_at}

consecutive-evidence_rows :
    (tick : ℕ) (rows : List Row)
    → IsTicks tick rows
    → consecutive (λ row. true) tick (evidence_rows rows) ≡ true
consecutive-evidence_rows tick [] h = refl
consecutive-evidence_rows tick (row ∷ rows) h =
    let rest = consecutive-evidence_rows (tick + 1) rows h.1 in ground arith

ends_at-evidence_rows :
    (tick ticks : ℕ) (rows : List Row)
    → IsTicks tick rows
    → ends_at ticks (evidence_rows rows) ≡ true
    → tick + length rows ≡ ticks
ends_at-evidence_rows tick ticks [] h e = cc
ends_at-evidence_rows tick ticks (row ∷ []) h e = ground arith
ends_at-evidence_rows tick ticks (row ∷ next ∷ rows) h e =
    let rest = ends_at-evidence_rows (tick + 1) ticks (next ∷ rows) h.1 e in omega (arith, rest)

length-evidence_rows : (rows : List Row) → length (evidence_rows rows) ≡ length rows
length-evidence_rows [] = refl
length-evidence_rows (row ∷ rows) = ap suc (length-evidence_rows rows)

counted :
    (n ticks : ℕ) (steady : Bool)
    → steady ≡ true
    → 0 < ticks
    → ((ltb 0 ticks && n == ticks && steady) ≡ true) ↔ (n ≡ ticks)
counted n ticks steady h positive = ground arith

first_test : (a b : Bool) → (a && b) ≡ true → a ≡ true
first_test true b h = refl
first_test false b h = h

-- What the clauses say of consecutive rows from tick 0.
abbrev pub Agrees : Trace → Type 0
Agrees trace =
    (((evaluate trace).cadence ≡ true) ↔ (length trace.rows ≡ trace.ticks_declared))
    × ((evaluate trace).termination ≡ true → (evaluate trace).cadence ≡ true)

IsTicks-Agrees : (trace : Trace) → IsTicks 0 trace.rows → 0 < trace.ticks_declared → Agrees trace
unfolding evaluate evaluate_rows
IsTicks-Agrees trace h positive =
    let cadence =
      subst
        (λ n.
          (((ltb 0 trace.ticks_declared
                && length (evidence_rows trace.rows) == trace.ticks_declared
                && consecutive (λ row. true) 0 (evidence_rows trace.rows))
              ≡ true)
            ↔ (n ≡ trace.ticks_declared)))
        (length-evidence_rows trace.rows)
        (counted (length (evidence_rows trace.rows)) trace.ticks_declared _
          (consecutive-evidence_rows 0 trace.rows h) positive) in
    let last = ends_at-evidence_rows 0 trace.ticks_declared trace.rows h in
    (
      cadence,
      λ ended.
          cadence.1 (omega (arith, last (first_test _ _ (first_test _ _ (first_test _ _ ended))))),
    )

-- The trace that run_headless returns for a loaded scenario passes the cadence clause exactly if it has
-- a row for every tick declared, and passes it if it passes the termination clause.
pub evaluate_cadence :
    (id : String) (document : Json) (s : Scenario) (seed delay_ticks : ℕ) (trace : Trace)
    → load id document ≡ ok s
    → seed < 2 ^ 64
    → (delay_ticks ≡ 0) ⊎ (delay_ticks ≡ 1)
    → run_headless s seed delay_ticks ≡ ok trace
    → (((evaluate trace).cadence ≡ true) ↔ (length trace.rows ≡ trace.ticks_declared))
      × ((evaluate trace).termination ≡ true → (evaluate trace).cadence ≡ true)
evaluate_cadence id document s seed delay_ticks trace loaded hs hd computed =
    let c = load_completes id document s seed delay_ticks loaded hs hd in
    let e1 = c.computed in
    let same : trace ≡ c.trace = cc in
    let some_ticks = (load-IsScenario id document s loaded).positive_ticks in
    let positive : 0 < c.trace.ticks_declared = omega (arith, c.declared, some_ticks) in
    subst Agrees (sym same) (IsTicks-Agrees c.trace c.in_order positive)
