-- ===== src/Evidence/Terminal.antt =====
-- terminal_residual, terminal_order and terminal_causes of scripts/reconcile.py.
use tvc.Prelude.{
  ℕ, ◌-◌, ◌≡◌, Bool, true, false, not, ◌&&◌, ◌||◌, Option, none, some, List, [], ◌∷◌, ◌++◌, ltb,
  leb, ◌==◌, if◌then◌else◌, arith,
}

pub data Resolution : Type 0 where
  not_evaluated no_residual trailing unexplained unresolved : Resolution

-- The natural numbers that terminal_residual takes.
pub record Lifetime : Type 0 where
  pub transmitted : ℕ
  pub received : ℕ
  pub first_send : ℕ
  pub last_send : ℕ
  pub receive_open : ℕ
  pub receive_closed : ℕ

abbrev resolution : Lifetime → Bool → Bool → Option Resolution
resolution l required answered =
    if not required
    then some not_evaluated
    else if l.transmitted - l.received == 0
    then some no_residual
    else if l.first_send == 0 || l.last_send == 0
    then none
    else if ltb l.receive_closed l.first_send
    then some trailing
    else if leb l.receive_open l.first_send && leb l.last_send l.receive_closed && not answered
    then some unexplained
    else some unresolved

-- terminal_residual: `none` is a ValueError.
unfoldable pub terminal_residual : Lifetime → Bool → Bool → Option (ℕ × Resolution)
terminal_residual l required answered =
    if ltb l.transmitted l.received
    then none
    else if ltb l.receive_closed l.receive_open || ltb l.last_send l.first_send
    then none
    else elim (resolution l required answered) [
      | none ↦ none
      | some r ↦ some (l.transmitted - l.received, r)
    ]

-- What terminal_order reads of a report: whether its termination_source names the other side, its
-- clock domain as a number, `none` for an empty or missing one, and its termination times, where
-- `none` is a value that is not an int.
pub record Ending : Type 0 where
  pub is_caused : Bool
  pub clock_domain : Option ℕ
  pub termination_ns : Option ℕ
  pub termination_before_ns : Option ℕ

pub data Order : Type 0 where
  vehicle_first sim_first : Order

abbrev same_order : Order → Order → Bool
same_order vehicle_first vehicle_first = true
same_order sim_first sim_first = true
same_order _ _ = false

abbrev pub shares : Option ℕ → Option ℕ → Bool
shares (some a) (some b) = a == b
shares _ _ = false

-- begin and end, if both are positive.
abbrev interval : Ending → Option (ℕ × ℕ)
interval e = elim e.termination_before_ns [
  | none ↦ none
  | some begin ↦ elim e.termination_ns [
    | none ↦ none
    | some end ↦ if ltb 0 begin && ltb 0 end then some (begin, end) else none
  ]
]

abbrev causal_order : Ending → Ending → Option Order
causal_order vehicle simulator =
    if simulator.is_caused
    then some vehicle_first
    else if vehicle.is_caused
    then some sim_first
    else none

abbrev clock_order : ℕ × ℕ → ℕ × ℕ → Option Order
clock_order (begin_a, a) (begin_b, b) =
    if ltb a begin_b then some vehicle_first else if ltb b begin_a then some sim_first else none

-- `causal or order`, unless they contradict each other.
abbrev agreed : Option Order → Option Order → Option (Option Order)
agreed none order = some order
agreed (some causal) none = some (some causal)
agreed (some causal) (some order) = if same_order causal order then some (some causal) else none

abbrev judged : Option Order → Option (ℕ × ℕ) → Option (ℕ × ℕ) → Option (Option Order)
judged causal (some (begin_a, a)) (some (begin_b, b)) =
    if ltb a begin_a || ltb b begin_b
    then none
    else agreed causal (clock_order (begin_a, a) (begin_b, b))
judged causal _ _ = some causal

-- terminal_order
unfoldable pub terminal_order : Ending → Ending → Option (Option Order)
terminal_order vehicle simulator =
    if simulator.is_caused && vehicle.is_caused
    then none
    else if shares vehicle.clock_domain simulator.clock_domain
    then judged (causal_order vehicle simulator) (interval vehicle) (interval simulator)
    else some (causal_order vehicle simulator)

-- A leg of the terminal handshake, as terminal_causes reads it.
pub record Leg : Type 0 where
  pub required : Bool
  pub complete : Bool
  pub tx_fail : ℕ
  pub opportunities : ℕ
  pub budget : ℕ
  pub intentionally_lost : ℕ
  pub residual : Resolution

pub data Cause : Type 0 where
  send_failure opportunity_shortfall unexplained_transport_loss impairment_model : Cause

abbrev pub is_unexplained : Resolution → Bool
is_unexplained unexplained = true
is_unexplained _ = false

abbrev failed : List Leg → List Leg
failed [] = []
failed (leg ∷ legs) =
    let rest = failed legs in if leg.required && not leg.complete then leg ∷ rest else rest

abbrev some_leg : (Leg → Bool) → List Leg → Bool
some_leg p [] = false
some_leg p (leg ∷ legs) = p leg || some_leg p legs

abbrev every_leg : (Leg → Bool) → List Leg → Bool
every_leg p [] = true
every_leg p (leg ∷ legs) = p leg && every_leg p legs

abbrev when : Bool → Cause → List Cause
when b cause = if b then cause ∷ [] else []

abbrev is_impaired : Leg → Bool
is_impaired leg =
    leb leg.budget leg.opportunities
    && leg.tx_fail == 0
    && leg.intentionally_lost == leg.opportunities

abbrev causes_of : List Leg → List Cause
causes_of [] = []
causes_of (leg ∷ rest) =
    let legs : List Leg = leg ∷ rest in
    let causes : List Cause =
      when (some_leg (λ v. not (v.tx_fail == 0)) legs) send_failure
      ++ when (some_leg (λ v. ltb v.opportunities v.budget) legs) opportunity_shortfall
      ++ when (some_leg (λ v. is_unexplained v.residual) legs) unexplained_transport_loss in
    elim causes [
      | [] ↦ when (every_leg is_impaired legs) impairment_model
      | cause ∷ more ↦ cause ∷ more
    ]

-- terminal_causes
unfoldable pub terminal_causes : List Leg → List Cause
terminal_causes legs = causes_of (failed legs)

abbrev pub flip : Order → Order
flip vehicle_first = sim_first
flip sim_first = vehicle_first

abbrev pub flipped : Option (Option Order) → Option (Option Order)
flipped none = none
flipped (some none) = some none
flipped (some (some order)) = some (some (flip order))

-- The order of two ends does not depend on which of them is called the vehicle's: exchanged, they
-- raise alike, and what comes first is exchanged too.
pub terminal_order_flip : (a b : Ending) → terminal_order b a ≡ flipped (terminal_order a b)
unfolding terminal_order
terminal_order_flip a b = ground arith
