-- ===== src/Sim/Freerun/Peer/Balance.antt =====
-- The counters that `execute` of sim/freerun.py leaves add up.
use tvc.Prelude.{ℕ, ◌+◌, ◌≡◌, Bool, true, false, not, Option, none, some, List, arith}
use tvc.Prelude.Result.{Result, ok, err}
use tvc.Prelude.Raising.{Outcome, Ensures, Always, Always-state, Ensures-of_state}
use tvc.Wire.Errors.{Error}
use tvc.Sim.Rng.{seeded}
use tvc.Sim.Scenario.{Scenario, up, down}
use tvc.Sim.Freerun.{Model, loss, receive, advance_model, fresh_model, as_count}
use tvc.Sim.Freerun.Receipt.{receive_keeps}
use tvc.Sim.Freerun.Conservation.{IsConserved, IsPartitioned, receive-Conserves, loss-counts}
use tvc.Sim.Freerun.Streams.{IsOwned, loss-IsOwned, receive-IsOwned}
use tvc.Sim.Freerun.Peer.{
  Peer, Sending, with_model, count_observation, count_offer, count_lost, count_failed, count_sent,
  time_terminal, transmit, frame_for, dispatch,
}

-- The frames offered, ordinary and terminal, were lost on purpose, sent or refused by the socket, but
-- for those still in hand.
abbrev pub IsOffered : ℕ → ℕ → Model → Type 0
IsOffered ordinary terminal m =
    (m.up_counts.generated
      ≡ m.up_counts.intentionally_lost + m.up_counts.transmitted + m.up_counts.sensor_tx_fail
        + ordinary)
    × (m.term.up_attempts
        ≡ m.term.up_intentionally_lost + m.term.up_tx_fail + m.term.up_transmitted + terminal)

-- What scripts/reconcile.py asks of the counters.
abbrev pub IsReconciled : ℕ → Model → Type 0
IsReconciled seed m = IsOffered 0 0 m × IsConserved 0 m × IsOwned seed m

abbrev pub Reconciles : {A : Type 0} → ℕ → Outcome Peer A → Type 0
Reconciles seed = Ensures (λ p. IsOwned seed p.model) (λ a p. IsReconciled seed p.model)

with_model-Reconciles :
    {A : Type 0} (seed : ℕ) (p : Peer) (o : Outcome Model A)
    → Always (IsOffered 0 0) o
    → Ensures IsPartitioned (λ a m. IsConserved 0 m) o
    → Always (IsOwned seed) o
    → Reconciles seed (with_model p o)
with_model-Reconciles seed p (m, none) offered conserved owned = owned
with_model-Reconciles seed p (m, some a) offered conserved owned = (offered, conserved, owned)

pub receive-Reconciles :
    (crc32c : List ℕ → ℕ) (spec : Scenario) (packets : List (List ℕ)) (k seed : ℕ) (p : Peer)
    → IsReconciled seed p.model
    → Reconciles seed (with_model p (receive crc32c spec packets k p.model))
receive-Reconciles crc32c spec packets k seed p (offered, conserved, owned) =
    with_model-Reconciles seed p (receive crc32c spec packets k p.model)
      (receive_keeps (IsOffered 0 0) spec k
        (λ terminal m h.
          Always-state (IsOffered 0 0) (loss spec down k terminal false m)
            (let (_, term, ups) = loss-counts spec down k terminal false m in rw (term, ups) h))
        (λ m counts reason seen raw lost survived h. h) crc32c packets p.model offered)
      (receive-Conserves crc32c spec packets k p.model conserved)
      (receive-IsOwned crc32c spec packets k seed p.model owned)

pub advance_model-Reconciles :
    (spec : Scenario) (k seed : ℕ) (selected : Option ℕ) (p : Peer)
    → IsReconciled seed p.model
    → Reconciles seed (with_model p (advance_model spec k selected p.model))
unfolding advance_model
advance_model-Reconciles spec k seed selected p h = ground arith

pub loss-Reconciles :
    (spec : Scenario) (tick seed : ℕ) (terminal prologue : Bool) (p : Peer)
    → IsReconciled seed p.model
    → Reconciles seed (with_model p (loss spec up tick terminal prologue p.model))
loss-Reconciles spec tick seed terminal prologue p (offered, conserved, owned) =
    let o = loss spec up tick terminal prologue p.model in
    let (downs, term, ups) = loss-counts spec up tick terminal prologue p.model in
    with_model-Reconciles seed p o (Always-state (IsOffered 0 0) o (rw (term, ups) offered))
      (Ensures-of_state IsPartitioned (λ drawn m. IsConserved 0 m) o (rw (term) conserved.1)
        (λ drawn. rw (downs, term) conserved))
      (loss-IsOwned spec up tick seed terminal prologue p.model owned)

-- A counted offer, whose fate is not counted yet.
abbrev pub IsPending : Bool → ℕ → Peer → Type 0
IsPending terminal seed p =
    IsOffered (as_count (not terminal)) (as_count terminal) p.model
    × IsConserved 0 p.model
    × IsOwned seed p.model

pub count_offer-IsPending :
    (terminal prologue : Bool) (sent_ns seed : ℕ) (p : Peer)
    → IsReconciled seed p.model
    → IsPending terminal seed (count_offer terminal prologue sent_ns p)
count_offer-IsPending true prologue sent_ns seed p h = ground arith
count_offer-IsPending false prologue sent_ns seed p h = ground arith

count_lost-IsReconciled :
    (terminal raw : Bool) (seed : ℕ) (p : Peer)
    → IsPending terminal seed p
    → IsReconciled seed (count_lost terminal raw p).model
count_lost-IsReconciled true raw seed p h = ground arith
count_lost-IsReconciled false raw seed p h = ground arith

count_failed-IsReconciled :
    (terminal : Bool) (seed : ℕ) (p : Peer)
    → IsPending terminal seed p
    → IsReconciled seed (count_failed terminal p).model
count_failed-IsReconciled true seed p h = ground arith
count_failed-IsReconciled false seed p h = ground arith

count_sent-IsReconciled :
    (terminal raw : Bool) (seed : ℕ) (p : Peer)
    → IsPending terminal seed p
    → IsReconciled seed (count_sent terminal raw p).model
count_sent-IsReconciled true raw seed p h = ground arith
count_sent-IsReconciled false raw seed p h = ground arith

transmit-Reconciles :
    (fail_sensor : Option ℕ) (tick seed : ℕ) (terminal prologue raw : Bool) (frame : List ℕ)
    (io : Sending) (p : Peer)
    → IsPending terminal seed p
    → Reconciles seed (transmit fail_sensor tick terminal prologue raw frame io p)
unfolding transmit
transmit-Reconciles fail_sensor tick seed true prologue raw frame io p h =
    let timed = time_terminal true io p in
    let sent = count_sent-IsReconciled true raw seed timed h in
    let failed = count_failed-IsReconciled true seed timed h in ground arith
transmit-Reconciles fail_sensor tick seed false prologue raw frame io p h =
    let sent = count_sent-IsReconciled false raw seed p h in
    let failed = count_failed-IsReconciled false seed p h in ground arith

abbrev pub IsPendingOutcome : Bool → ℕ → Outcome Peer (List ℕ) → Type 0
IsPendingOutcome terminal seed =
    Ensures (λ p. IsOwned seed p.model) (λ frame p. IsPending terminal seed p)

pub frame_for-IsPending :
    (terminal : Bool) (cached : Option (List ℕ)) (new : Result Error (List ℕ)) (seed : ℕ) (p : Peer)
    → IsPending terminal seed p
    → IsPendingOutcome terminal seed (frame_for terminal cached new p)
frame_for-IsPending true (some frame) new seed p h = h
frame_for-IsPending true none (err e) seed p h = h.2
frame_for-IsPending true none (ok frame) seed p h = h
frame_for-IsPending false cached (err e) seed p h = h.2
frame_for-IsPending false cached (ok frame) seed p h = h

pub count_observation-IsReconciled :
    (is_new : Bool) (seed : ℕ) (p : Peer)
    → IsReconciled seed p.model
    → IsReconciled seed (count_observation is_new p).model
count_observation-IsReconciled true seed p h = h
count_observation-IsReconciled false seed p h = h

pub new_model-IsReconciled :
    (spec : Scenario) (seed delay_ticks : ℕ) → IsReconciled seed (fresh_model spec seed delay_ticks)
unfolding fresh_model seeded
new_model-IsReconciled spec seed delay_ticks = ground arith

pub dispatch-Reconciles :
    (fail_sensor : Option ℕ) (tick seed : ℕ) (terminal prologue : Bool) (draw : Bool × Bool)
    (frame : List ℕ) (io : Sending) (p : Peer)
    → IsPending terminal seed p
    → Reconciles seed (dispatch fail_sensor tick terminal prologue draw frame io p)
dispatch-Reconciles fail_sensor tick seed terminal prologue (raw, true) frame io p h =
    count_lost-IsReconciled terminal raw seed p h
dispatch-Reconciles fail_sensor tick seed terminal prologue (raw, false) frame io p h =
    transmit-Reconciles fail_sensor tick seed terminal prologue raw frame io p h
