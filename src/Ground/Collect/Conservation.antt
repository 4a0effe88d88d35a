-- ===== src/Ground/Collect/Conservation.antt =====
-- The receiver that collect leaves (ground/link.py).
use tvc.Prelude.{ℕ, ◌≡◌, refl, Bool, true, false, Option, none, some, List, [], ◌∷◌, arith, take}
use tvc.Prelude.Raising.{
  Outcome, Always, Always-state, and_then-Always, or_else-Ensures, return_if-Ensures, Ensures-state,
}
use tvc.Ground.Receiver.{Receiver, accept, accept_all, opened}
use tvc.Ground.Receiver.Conservation.{disposed, accept-disposed}
use tvc.Ground.Receiver.Recording.{IsKept, accept-IsKept, accept_all-IsKept}
use tvc.Ground.Collect.{
  Arrival, datagram, would_block, socket_error, Turn, Round, Step, leave, finish, outcome_of,
  arrive_at, drain, drain_if, collect, next_round, wait, is_past,
}

-- Every datagram has a disposition, and the recording is as the counters say.
abbrev pub IsSound : (List ℕ → ℕ) → Receiver → Type 0
IsSound crc32c r = (r.counters.received ≡ disposed r.counters) × IsKept crc32c r

module _ (crc32c : List ℕ → ℕ) where
  abbrev Keeps : {A : Type 0} → Outcome Receiver A → Type 0
  Keeps = Always (IsSound crc32c)

  outcome_of-Keeps : (o : Receiver × Bool) → IsSound crc32c o.0 → Keeps (outcome_of o)
  outcome_of-Keeps (r, true) h = h
  outcome_of-Keeps (r, false) h = h

  arrive_at-Keeps :
      (deadline : Option ℕ) (arrival : Arrival) (r : Receiver)
      → IsSound crc32c r
      → Keeps (arrive_at crc32c deadline arrival r)
  arrive_at-Keeps deadline (datagram bytes source written) r h =
      outcome_of-Keeps (accept crc32c bytes source written r) (
        omega (arith, h.0, accept-disposed crc32c bytes source written r),
        accept-IsKept crc32c bytes source written r h.1,
      )
  arrive_at-Keeps deadline would_block r h = h
  arrive_at-Keeps deadline (socket_error n) r h =
      Always-state (IsSound crc32c) (arrive_at crc32c deadline (socket_error n) r) h

  drain-Keeps :
      (deadline : Option ℕ) (turns : List Turn) (r : Receiver)
      → IsSound crc32c r
      → Keeps (drain crc32c deadline turns r)
  unfolding drain
  drain-Keeps deadline [] r h = h
  drain-Keeps deadline (turn ∷ turns) r h =
      return_if-Ensures (IsSound crc32c) (λ step. IsSound crc32c) turn.is_stopped _ r _ h
        (return_if-Ensures (IsSound crc32c) (λ step. IsSound crc32c) (is_past deadline turn.now_ns)
          (some (finish true)) r _ h
          (and_then-Always (IsSound crc32c) (arrive_at crc32c deadline turn.arrival r) _
            (arrive_at-Keeps deadline turn.arrival r h)
            (λ step r' h'.
              or_else-Ensures (IsSound crc32c) (λ step. IsSound crc32c) step r'
                (drain crc32c deadline turns) h' (drain-Keeps deadline turns r'))))

  drain_if-Keeps :
      (b : Bool) (deadline : Option ℕ) (turns : List Turn) (r : Receiver)
      → IsSound crc32c r
      → Keeps (drain_if crc32c b deadline turns r)
  drain_if-Keeps true deadline turns r h = drain-Keeps deadline (take 512 turns) r h
  drain_if-Keeps false deadline turns r h = h

  next_round-Keeps :
      (step : Option Step) (r : Receiver) (next : Receiver → Outcome Receiver (Option Bool))
      → IsSound crc32c r
      → Keeps (next r)
      → Keeps (next_round step r next)
  next_round-Keeps (some (finish truncated)) r next h k = h
  next_round-Keeps (some leave) r next h k = k
  next_round-Keeps none r next h k = k

  collect-Keeps :
      (deadline : Option ℕ) (rounds : List Round) (r : Receiver)
      → IsSound crc32c r
      → Keeps (collect crc32c deadline rounds r)
  unfolding collect
  collect-Keeps deadline [] r h = h
  collect-Keeps deadline (round ∷ rounds) r h =
      let later = wait deadline round in
      return_if-Ensures (IsSound crc32c) (λ done. IsSound crc32c) round.is_stopped _ r _ h
        (and_then-Always (IsSound crc32c) (drain_if crc32c later.0 later.1 round.turns r) _
          (drain_if-Keeps later.0 later.1 round.turns r h)
          (λ step r' h'.
            next_round-Keeps step r' (collect crc32c later.1 rounds) h'
              (collect-Keeps later.1 rounds r' h')))

  -- Whatever the clock, the input and the socket answer, and also when a write or the socket fails,
  -- collect leaves a receiver whose datagrams are counted once each, and whose recording holds valid
  -- control frames of strictly increasing ticks, as many as its counter says.
  pub collect-IsSound : (rounds : List Round) → IsSound crc32c (collect crc32c none rounds opened).0
  collect-IsSound rounds = Ensures-state (IsSound crc32c) (collect crc32c none rounds opened) (
      collect-Keeps none rounds opened
        (unfold opened in refl, unfold accept_all in accept_all-IsKept crc32c []))
