-- ===== src/Sim/Lockstep/Balance.antt =====
-- The counters of the lockstep peer (sim/run_sim.py) add up after every send and every datagram.
use tvc.Prelude.{
  ℕ, zero, suc, ◌+◌, ◌≤◌, ◌≡◌, Bool, true, false, not, ◌&&◌, Option, none, some, List, [], ◌∷◌,
  arith, ◌==◌, is_some,
}
use tvc.Prelude.Raising.{Outcome, Ensures, and_then-Ensures, or_else-Ensures}
use tvc.Wire.Actuator.{ActuatorReply, decode_actuator, accepted}
use tvc.Sim.Freerun.{as_count}
use tvc.Sim.Lockstep.{
  Sender, Receipts, Exchange, Attempt, count_attempt, sent_or_refused, classify, kept_reply,
  receive_until, attempt, attempts, injected, sent_whole,
}

-- The equations of sender_errors.
abbrev pub IsSent : Sender → Type 0
IsSent c =
    (c.generated ≡ c.original_attempts + c.not_attempted)
    × (c.send_attempts ≡ c.original_attempts + c.retry_attempts)
    × (c.send_attempts ≡ c.tx_fail + c.transmitted + c.send_pending)
    × (c.transmitted ≡ c.first_transmitted + c.additional_copies)
    × (c.generated ≡ c.first_transmitted + c.never_transmitted)

-- The equations of receiver_errors, with `n` answers whose disposition is not counted yet.
abbrev pub IsReceived : ℕ → Receipts → Type 0
IsReceived n c =
    (c.received_raw ≡ c.malformed + c.received + c.decode_pending)
    × (c.received
        ≡ c.logical_received + c.discarded_duplicate + c.rejected_received
          + c.classification_pending)
    × (c.logical_received
        ≡ c.modeled_command_loss + c.forwarded_to_delay + c.disposition_pending + n)

-- A frame that is not sent yet is counted as such.
abbrev pub IsOpen : Bool → Sender → Type 0
IsOpen true c = Unit {0}
IsOpen false c = 1 ≤ c.never_transmitted

abbrev pub IsBalanced : ℕ → Exchange → Type 0
IsBalanced n x = IsSent x.up × IsReceived n x.down

-- The same within a tick.
abbrev pub IsSending : ℕ → Exchange → Type 0
IsSending n x = IsBalanced n x × IsOpen x.logged x.up

abbrev pub Answers : Outcome Exchange (Option ActuatorReply) → Type 0
Answers = Ensures (IsBalanced 0) (λ answer x. IsSending (as_count (is_some answer)) x)

sent_or_refused-IsSending :
    (first sent recorded : Bool) (frame : List ℕ) (x : Exchange)
    → IsSending 0 x
    → (first ≡ true → 1 ≤ x.up.not_attempted)
    → Ensures
        (IsBalanced 0)
        (λ done x'. IsSending 0 x')
        (sent_or_refused sent recorded frame (count_attempt first x))
sent_or_refused-IsSending true true true frame x h f = ground arith
sent_or_refused-IsSending true true false frame x h f = ground arith
sent_or_refused-IsSending true false recorded frame x h f = ground arith
sent_or_refused-IsSending false true true frame x h f = ground arith
sent_or_refused-IsSending false true false frame x h f = ground arith
sent_or_refused-IsSending false false recorded frame x h f = ground arith

classify-IsReceived :
    (drop_actuator : Option ℕ) (tick : ℕ) (bytes : List ℕ) (last : Option (List ℕ))
    (value : Option ActuatorReply) (c : Receipts)
    → IsReceived 0 c
    → Ensures
        (IsReceived 0)
        (λ answer. IsReceived (as_count (is_some answer)))
        (classify drop_actuator tick bytes last value c)
unfolding classify
classify-IsReceived drop_actuator tick bytes last none c h = ground arith
classify-IsReceived drop_actuator tick bytes last (some value) c h = ground arith

kept_reply-IsSending :
    (bytes : List ℕ) (x : Exchange) (o : Outcome Receipts (Option ActuatorReply))
    → IsSending 0 x
    → Ensures (IsReceived 0) (λ answer. IsReceived (as_count (is_some answer))) o
    → Answers (kept_reply bytes x o)
kept_reply-IsSending bytes x (c, none) h k = (h.0.0, k)
kept_reply-IsSending bytes x (c, some none) h k = ((h.0.0, k), h.1)
kept_reply-IsSending bytes x (c, some (some value)) h k = ((h.0.0, k), h.1)

module _ (crc32c : List ℕ → ℕ) (drop_actuator : Option ℕ) (tick : ℕ) where
  receive_until-IsSending :
      (arrivals : List (Option (List ℕ))) (x : Exchange)
      → IsSending 0 x
      → Answers (receive_until crc32c drop_actuator tick arrivals x)
  unfolding receive_until
  receive_until-IsSending [] x h = h
  receive_until-IsSending (none ∷ rest) x h = h.0
  receive_until-IsSending (some bytes ∷ rest) x h =
      let o =
        classify drop_actuator tick bytes x.last_reply (accepted (decode_actuator crc32c bytes))
          x.down in
      and_then-Ensures (IsBalanced 0) (λ answer x'. IsSending (as_count (is_some answer)) x')
        (λ answer x'. IsSending (as_count (is_some answer)) x') (kept_reply bytes x o) _
        (kept_reply-IsSending bytes x o h (
          classify-IsReceived drop_actuator tick bytes x.last_reply
            (accepted (decode_actuator crc32c bytes)) x.down h.0.1))
        (λ answer x' h'.
          or_else-Ensures (IsBalanced 0) (λ answer x'. IsSending (as_count (is_some answer)) x')
            answer x' (receive_until crc32c drop_actuator tick rest) h'
            (receive_until-IsSending rest x'))

  module _ (fail_sensor : Option ℕ) (frame : List ℕ) where
    attempt-IsSending :
        (first : Bool) (io : Attempt) (x : Exchange)
        → IsSending 0 x
        → (first ≡ true → 1 ≤ x.up.not_attempted)
        → Answers (attempt crc32c fail_sensor drop_actuator tick frame first io x)
    unfolding attempt
    attempt-IsSending first io x h f =
        let sent = not (injected fail_sensor tick first) && sent_whole frame io.sent in
        and_then-Ensures (IsBalanced 0) (λ done x'. IsSending 0 x')
          (λ answer x'. IsSending (as_count (is_some answer)) x')
          (sent_or_refused sent io.recorded frame (count_attempt first x)) _
          (sent_or_refused-IsSending first sent io.recorded frame x h f)
          (λ done. receive_until-IsSending io.arrivals)

    pub attempts-IsSending :
        (io : ℕ → Attempt) (n k : ℕ) (x : Exchange)
        → IsSending 0 x
        → ((k == 0) ≡ true → 1 ≤ x.up.not_attempted)
        → Answers (attempts crc32c fail_sensor drop_actuator tick frame io n k x)
    unfolding attempts
    attempts-IsSending io zero k x h f = h
    attempts-IsSending io (suc n) k x h f =
        and_then-Ensures (IsBalanced 0) (λ answer x'. IsSending (as_count (is_some answer)) x')
          (λ answer x'. IsSending (as_count (is_some answer)) x')
          (attempt crc32c fail_sensor drop_actuator tick frame (k == 0) (io k) x) _
          (attempt-IsSending (k == 0) (io k) x h f)
          (λ answer x' h'.
            or_else-Ensures (IsBalanced 0) (λ answer x'. IsSending (as_count (is_some answer)) x')
              answer x' (attempts crc32c fail_sensor drop_actuator tick frame io n (k + 1)) h'
              (λ again. attempts-IsSending io n (k + 1) x' again (λ e. ground arith)))
