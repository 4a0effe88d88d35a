-- ===== src/Sim/Freerun/Conservation.antt =====
-- The counters of the free-running model add up (sim/freerun.py, Model.receive).
use tvc.Prelude.{
  ℕ, ◌+◌, ◌≡◌, Bool, true, false, Option, none, some, List, [], ◌∷◌, arith, length, length-append,
}
use tvc.Prelude.Raising.{Outcome, Ensures, and_then-Ensures}
use tvc.Wire.Actuator.{ActuatorReply}
use tvc.Sim.Scenario.{Scenario, Direction, up, down}
use tvc.Sim.Freerun.{
  Model, loss, receive_one, receive_all, select, receive, decoded, survive, count_receipt,
  after_loss, is_terminal,
}

-- Every ordinary packet is lost on purpose, selected, superseded or among the `n` that wait for the
-- choice.
abbrev pub IsConserved : ℕ → Model → Type 0
IsConserved n m =
    (m.down_counts.received
      ≡ m.down_counts.intentionally_lost + m.down_counts.actuator_selected
        + m.down_counts.superseded + n)
    × (m.term.down_received_raw ≡ m.term.down_intentionally_lost + m.term.down_survived)

-- Also after an exception the terminal packets are partitioned.
abbrev pub IsPartitioned : Model → Type 0
IsPartitioned m = m.term.down_received_raw ≡ m.term.down_intentionally_lost + m.term.down_survived

abbrev Conserves : Outcome Model (List ActuatorReply) → Type 0
Conserves = Ensures IsPartitioned (λ survivors m. IsConserved (length survivors) m)

-- A draw changes no counter.
pub loss-counts :
    (spec : Scenario) (d : Direction) (tick : ℕ) (terminal prologue : Bool) (m : Model)
    → ((loss spec d tick terminal prologue m).0.down_counts ≡ m.down_counts)
      × ((loss spec d tick terminal prologue m).0.term ≡ m.term)
      × ((loss spec d tick terminal prologue m).0.up_counts ≡ m.up_counts)
unfolding loss
loss-counts spec up tick terminal prologue m = ground arith
loss-counts spec down tick terminal prologue m = ground arith

survive-Conserves :
    (value : ActuatorReply) (terminal : Bool) (survivors : List ActuatorReply) (m : Model)
    → IsConserved (length survivors) m
    → Conserves (survive value terminal survivors (count_receipt value terminal false m))
survive-Conserves value true survivors m h = ground arith
survive-Conserves value false survivors m h =
    ground (arith, length-append {0} survivors (value ∷ []))

after_loss-Conserves :
    (value : ActuatorReply) (terminal : Bool) (survivors : List ActuatorReply) (m : Model)
    (r : Option (Bool × Bool))
    → IsConserved (length survivors) m
    → Conserves (after_loss value terminal survivors (m, r))
after_loss-Conserves value terminal survivors m none h = h.1
after_loss-Conserves value true survivors m (some (raw, true)) h = ground arith
after_loss-Conserves value false survivors m (some (raw, true)) h = ground arith
after_loss-Conserves value terminal survivors m (some (raw, false)) h =
    survive-Conserves value terminal survivors m h

receive_one-Conserves :
    (spec : Scenario) (k : ℕ) (packet : Option ActuatorReply) (survivors : List ActuatorReply)
    (m : Model)
    → IsConserved (length survivors) m
    → Conserves (receive_one spec k packet survivors m)
unfolding receive_one
receive_one-Conserves spec k none survivors m h = h
receive_one-Conserves spec k (some value) survivors m h =
    let (downs, terms, _) = loss-counts spec down k (is_terminal value) false m in
    let (m', r) = loss spec down k (is_terminal value) false m in
    after_loss-Conserves value (is_terminal value) survivors m' r (rw (downs, terms) h)

receive_all-Conserves :
    (spec : Scenario) (k : ℕ) (packets : List (Option ActuatorReply))
    (survivors : List ActuatorReply) (m : Model)
    → IsConserved (length survivors) m
    → Conserves (receive_all spec k packets survivors m)
unfolding receive_all
receive_all-Conserves spec k [] survivors m h = h
receive_all-Conserves spec k (packet ∷ packets) survivors m h =
    and_then-Ensures IsPartitioned (λ kept m'. IsConserved (length kept) m')
      (λ kept m'. IsConserved (length kept) m') (receive_one spec k packet survivors m) _
      (receive_one-Conserves spec k packet survivors m h)
      (λ kept m'. receive_all-Conserves spec k packets kept m')

abbrev pub ConservesSelected : Outcome Model (Option ℕ) → Type 0
ConservesSelected = Ensures IsPartitioned (λ selected m. IsConserved 0 m)

select-Conserves :
    (survivors : List ActuatorReply) (m : Model)
    → IsConserved (length survivors) m
    → ConservesSelected (select survivors m)
unfolding select
select-Conserves survivors m h = ground arith

module _ (crc32c : List ℕ → ℕ) where
  -- A receipt of packets keeps the terminal packets partitioned into those lost on purpose and those
  -- that survived, and, where it does not raise, the ordinary ones into those lost on purpose, selected
  -- and superseded.
  pub receive-Conserves :
      (spec : Scenario) (packets : List (List ℕ)) (k : ℕ) (m : Model)
      → IsConserved 0 m
      → ConservesSelected (receive crc32c spec packets k m)
  unfolding receive
  receive-Conserves spec packets k m h =
      and_then-Ensures IsPartitioned (λ kept m'. IsConserved (length kept) m')
        (λ selected m'. IsConserved 0 m') (receive_all spec k (decoded crc32c packets) [] m) _
        (receive_all-Conserves spec k (decoded crc32c packets) [] m h) select-Conserves
