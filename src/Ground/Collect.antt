-- ===== src/Ground/Collect.antt =====
-- collect of ground/link.py: the loop of the receiver around its socket. The clock, `select`, the
-- standard input and the socket answer through arguments, one for each round.
pub mod Conservation
use tvc.Prelude.{
  ℕ, ◌+◌, Bool, true, false, Option, none, some, List, [], ◌∷◌, leb, ◌==◌, if◌then◌else◌, is_some,
  take,
}
use tvc.Prelude.Raising.{Outcome, and_then, or_else, return_if}
use tvc.Ground.Receiver.{Endpoint, Receiver, accept}

-- What recvfrom gives: a datagram, its source and the answer of the write that it may lead to;
-- BlockingIOError; or another OSError with its errno, 0 where there is none.
pub data Arrival : Type 0 where
  datagram : List ℕ → Endpoint → Option ℕ → Arrival
  would_block : Arrival
  socket_error : ℕ → Arrival

-- One round of the inner loop: stopped(), the time, and the arrival.
pub record Turn : Type 0 where
  pub is_stopped : Bool
  pub now_ns : ℕ
  pub arrival : Arrival

-- One round of the outer loop: stopped(); whether the socket and the standard input are readable,
-- `none` for an InterruptedError; whether the read ends the input, `none` for an InterruptedError; the
-- time; and the rounds of the inner loop.
pub record Round : Type 0 where
  pub is_stopped : Bool
  pub selected : Option (Bool × Bool)
  pub read : Option Bool
  pub now_ns : ℕ
  pub turns : List Turn

-- How the inner loop is left: by `break`, or by a return from collect.
pub data Step : Type 0 where
  leave : Step
  finish : Bool → Step

abbrev eio : ℕ
eio = 5

abbrev pub eintr : ℕ
eintr = 4

abbrev pub is_past : Option ℕ → ℕ → Bool
is_past none now = false
is_past (some deadline) now = leb deadline now

abbrev count_error : ℕ → Receiver → Receiver
count_error n r = record r {
  counters = record r.counters {
    socket_errors = r.counters.socket_errors + 1;
    last_errno = if n == 0 then eio else n;
  };
}

abbrev pub outcome_of : Receiver × Bool → Outcome Receiver (Option Step)
outcome_of (r, true) = (r, none)
outcome_of (r, false) = (r, some none)

-- Whether the outer loop has more to do after the inner one, and with which deadline.
abbrev pub waited : Option (Bool × Bool) → Option Bool → ℕ → Bool × Option ℕ
waited none read now = (false, none)
waited (some (peer, false)) read now = (peer, none)
waited (some (peer, true)) none now = (false, none)
waited (some (peer, true)) (some false) now = (peer, none)
waited (some (peer, true)) (some true) now = (true, some (now + 100000000))

abbrev pub wait : Option ℕ → Round → Bool × Option ℕ
wait (some deadline) round = (true, some deadline)
wait none round = waited round.selected round.read round.now_ns

abbrev pub next_round :
    Option Step
    → Receiver
    → (Receiver → Outcome Receiver (Option Bool))
    → Outcome Receiver (Option Bool)
next_round (some (finish truncated)) r next = (r, some (some truncated))
next_round (some leave) r next = next r
next_round none r next = next r

module _ (crc32c : List ℕ → ℕ) where
  abbrev pub arrive_at : Option ℕ → Arrival → Receiver → Outcome Receiver (Option Step)
  arrive_at deadline (datagram bytes source written) r =
      outcome_of (accept crc32c bytes source written r)
  arrive_at deadline would_block r =
      (r, some (some (if is_some deadline then finish false else leave)))
  arrive_at deadline (socket_error n) r = (count_error n r, if n == eintr then some none else none)

  -- The inner loop.
  unfoldable pub drain : Option ℕ → List Turn → Receiver → Outcome Receiver (Option Step)
  drain deadline [] r = (r, some none)
  drain deadline (turn ∷ turns) r = return_if turn.is_stopped (some (finish false)) r (λ r.
      return_if (is_past deadline turn.now_ns) (some (finish true)) r (λ r.
        and_then (arrive_at deadline turn.arrival r)
          (λ step r'. or_else step r' (drain deadline turns))))

  abbrev pub drain_if : Bool → Option ℕ → List Turn → Receiver → Outcome Receiver (Option Step)
  drain_if false deadline turns r = (r, some none)
  drain_if true deadline turns r = drain deadline (take 512 turns) r

  -- collect: whether the shutdown was truncated, `none` while there is no answer left to the loop.
  unfoldable pub collect : Option ℕ → List Round → Receiver → Outcome Receiver (Option Bool)
  unfolding drain
  collect deadline [] r = (r, some none)
  collect deadline (round ∷ rounds) r = return_if round.is_stopped (some false) r (λ r.
      let later : Bool × Option ℕ = wait deadline round in
      and_then (drain_if later.0 later.1 round.turns r)
        (λ step r'. next_round step r' (collect later.1 rounds)))
