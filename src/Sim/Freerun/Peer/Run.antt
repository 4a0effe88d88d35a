-- ===== src/Sim/Freerun/Peer/Run.antt =====
-- The offers, the bodies and the copies of `execute` in sim/freerun.py keep the counters balanced.
use tvc.Prelude.{
  ℕ, zero, suc, ◌+◌, ◌-◌, Bool, true, false, Option, none, some, List, arith, ltb, is_some,
}
use tvc.Prelude.Raising.{Outcome, Ensures, and_then-Ensures, and_then, return_if, return_if-Ensures}
use tvc.Sim.Plant.{observe}
use tvc.Sim.Scenario.{Scenario, up}
use tvc.Sim.Freerun.{loss, receive, advance_model, fresh_model}
use tvc.Sim.Freerun.Streams.{IsOwned}
use tvc.Sim.Freerun.Peer.Balance.{
  IsReconciled, Reconciles, IsPending, frame_for-IsPending, count_observation-IsReconciled,
  count_offer-IsPending, dispatch-Reconciles, loss-Reconciles, receive-Reconciles,
  advance_model-Reconciles, new_model-IsReconciled,
}
use tvc.Sim.Freerun.Peer.{
  Peer, Sending, Wake, with_model, count_observation, count_offer, frame_for, is_new, sleep, more,
  last_copies, offer, bodies, copies, execute, new_peer, sensor_frame, add_row,
}

sleep-Reconciles :
    (wake : Wake) (seed : ℕ) (p : Peer) → IsReconciled seed p.model → Reconciles seed (sleep wake p)
sleep-Reconciles wake seed p h = ground arith

-- The next call, from a state whose counters add up.
next-Reconciles :
    {A B : Type 0} (seed : ℕ) (o : Outcome Peer A) (next : A → Peer → Outcome Peer B)
    → Reconciles seed o
    → ((a : A) (p : Peer) → IsReconciled seed p.model → Reconciles seed (next a p))
    → Reconciles seed (and_then o next)
next-Reconciles seed o next h k =
    and_then-Ensures (λ p. IsOwned seed p.model) (λ a p. IsReconciled seed p.model)
      (λ b p. IsReconciled seed p.model) o next h k

return_if-Reconciles :
    {A : Type 0} (seed : ℕ) (b : Bool) (value : A) (p : Peer) (next : Peer → Outcome Peer A)
    → IsReconciled seed p.model
    → Reconciles seed (next p)
    → Reconciles seed (return_if b value p next)
return_if-Reconciles seed b value p next =
    return_if-Ensures (λ p'. IsOwned seed p'.model) (λ a p'. IsReconciled seed p'.model) b value p
      next

module _ (crc32c : List ℕ → ℕ) (spec : Scenario) (fail_sensor : Option ℕ) (seed : ℕ) where
  offer-Reconciles :
      (tick : ℕ) (terminal prologue : Bool) (io : Sending) (p : Peer)
      → IsReconciled seed p.model
      → Reconciles seed (offer crc32c spec fail_sensor tick terminal prologue io p)
  unfolding offer
  offer-Reconciles tick terminal prologue io p h =
      let seen = count_observation (is_new terminal p.cached_terminal) p in
      next-Reconciles seed (with_model seen (loss spec up tick terminal prologue seen.model)) _
        (loss-Reconciles spec tick seed terminal prologue seen
          (count_observation-IsReconciled (is_new terminal p.cached_terminal) seed p h))
        (λ draw p' h'.
          and_then-Ensures (λ s. IsOwned seed s.model) (λ frame s. IsPending terminal seed s)
            (λ done s. IsReconciled seed s.model)
            (frame_for terminal p.cached_terminal
              (sensor_frame crc32c tick terminal p.model.reason (observe tick p.model.truth)
                io.sent_ns)
              (count_offer terminal prologue io.sent_ns p'))
            _
            (frame_for-IsPending terminal p.cached_terminal _ seed _
              (count_offer-IsPending terminal prologue io.sent_ns seed p' h'))
            (λ frame. dispatch-Reconciles fail_sensor tick seed terminal prologue draw frame io))

  receive_next :
      {A : Type 0} (wake : Wake) (k : ℕ) (value : A) (p : Peer)
      (next : Option ℕ → Peer → Outcome Peer A)
      → IsReconciled seed p.model
      → ((selected : Option ℕ) (p' : Peer)
          → IsReconciled seed p'.model
          → Reconciles seed (next selected p'))
      → Reconciles seed (
          and_then (sleep wake p) (λ woken p0.
            and_then
              (with_model p0 (receive crc32c spec wake.packets k p0.model))
              (λ selected p1. return_if (is_some p1.model.vehicle_seen) value p1 (next selected))))
  receive_next wake k value p next h go =
      next-Reconciles seed (sleep wake p) _ (sleep-Reconciles wake seed p h) (λ woken p0 h0.
        next-Reconciles seed (with_model p0 (receive crc32c spec wake.packets k p0.model)) _
          (receive-Reconciles crc32c spec wake.packets k seed p0 h0)
          (λ selected p1 h1.
            return_if-Reconciles seed (is_some p1.model.vehicle_seen) value p1 (next selected) h1
              (go selected p1 h1)))

  bodies-Reconciles :
      (wakes : ℕ → Wake) (n k : ℕ) (p : Peer)
      → IsReconciled seed p.model
      → Reconciles seed (bodies crc32c spec fail_sensor wakes n k p)
  unfolding bodies
  bodies-Reconciles wakes zero k p h = h
  bodies-Reconciles wakes (suc n) k p h = receive_next (wakes k) k none p _ h (λ selected p1 h1.
      next-Reconciles seed (with_model p1 (advance_model spec k selected p1.model)) _
        (advance_model-Reconciles spec k seed selected p1 h1)
        (λ arriving p2 h2.
          let terminal = is_some p2.model.reason in
          next-Reconciles seed
            (offer crc32c spec fail_sensor (k + 1) terminal false (wakes k).sending
              (add_row (k + 1) (is_some arriving) p2))
            _
            (offer-Reconciles (k + 1) terminal false (wakes k).sending
              (add_row (k + 1) (is_some arriving) p2) h2)
            (λ done p3 h3.
              return_if-Reconciles seed terminal (some k) p3 _ h3
                (bodies-Reconciles wakes n (k + 1) p3 h3))))

  more-Reconciles :
      (b : Bool) (terminal_tick : ℕ) (wake : Wake) (p : Peer)
      → IsReconciled seed p.model
      → Reconciles seed (more crc32c b spec fail_sensor terminal_tick wake p)
  more-Reconciles true terminal_tick wake p h =
      offer-Reconciles (terminal_tick + 1) true false wake.sending p h
  more-Reconciles false terminal_tick wake p h = h

  copies-Reconciles :
      (wakes : ℕ → Wake) (terminal_copies terminal_tick n offset : ℕ) (p : Peer)
      → IsReconciled seed p.model
      → Reconciles seed
          (copies crc32c spec fail_sensor wakes terminal_copies terminal_tick n offset p)
  unfolding copies
  copies-Reconciles wakes terminal_copies terminal_tick zero offset p h = h
  copies-Reconciles wakes terminal_copies terminal_tick (suc n) offset p h =
      receive_next (wakes offset) terminal_tick tt p _ h (λ selected p1 h1.
        next-Reconciles seed
          (more crc32c (ltb offset terminal_copies) spec fail_sensor terminal_tick (wakes offset)
            p1)
          _ (more-Reconciles (ltb offset terminal_copies) terminal_tick (wakes offset) p1 h1)
          (λ done. copies-Reconciles wakes terminal_copies terminal_tick n (offset + 1)))

  last_copies-Reconciles :
      (terminal_copies : ℕ) (late : ℕ → Wake) (ended : Option ℕ) (p : Peer)
      → IsReconciled seed p.model
      → Reconciles seed (last_copies crc32c spec fail_sensor terminal_copies late ended p)
  last_copies-Reconciles terminal_copies late none p h = h
  last_copies-Reconciles terminal_copies late (some terminal_tick) p h =
      copies-Reconciles late terminal_copies terminal_tick _ 1 p h

  -- A run from a new model leaves, also when it raises, both loss streams where the counted draws
  -- have taken them. When it does not raise, every sensor frame offered is counted as lost on purpose,
  -- sent or refused, every ordinary command received as lost on purpose, selected or superseded, and
  -- every terminal packet as lost on purpose or survived.
  pub execute-IsReconciled :
      (terminal_copies delay_ticks : ℕ) (first : Sending) (body late : ℕ → Wake)
      → Ensures
          (λ p. IsOwned seed p.model)
          (λ done p. IsReconciled seed p.model)
          (execute crc32c spec fail_sensor terminal_copies first body late
            (fresh_model spec seed delay_ticks))
  unfolding execute
  execute-IsReconciled terminal_copies delay_ticks first body late =
      let m = fresh_model spec seed delay_ticks in
      next-Reconciles seed (offer crc32c spec fail_sensor 0 false true first (new_peer m)) _
        (offer-Reconciles 0 false true first (new_peer m)
          (new_model-IsReconciled spec seed delay_ticks))
        (λ started p1 h1.
          next-Reconciles seed
            (bodies crc32c spec fail_sensor body (spec.ticks - 1) 0 (add_row 0 false p1)) _
            (bodies-Reconciles body (spec.ticks - 1) 0 (add_row 0 false p1) h1)
            (λ ended. last_copies-Reconciles terminal_copies late ended))
