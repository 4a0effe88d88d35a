-- ===== src/Sim/Lockstep.antt =====
-- The exchange of the lockstep peer with the vehicle, in `execute` of sim/run_sim.py: its counters, a
-- send, and the datagrams that arrive until the deadline. The socket and the file answer through
-- arguments.
pub mod Run
pub mod Balance
pub mod Ledger
use tvc.Prelude.{
  ℕ, zero, suc, length, ◌+◌, ◌-◌, Bool, true, false, not, ◌&&◌, ◌||◌, Option, none, some, List, [],
  ◌∷◌, ◌==◌, if◌then◌else◌,
}
use tvc.Prelude.Int.{is_zero}
use tvc.Prelude.Raising.{Outcome, and_then, or_else}
use tvc.Float64
use tvc.Wire.Actuator.{ActuatorReply, decode_actuator, accepted}
use tvc.Ground.Receiver.{same_bytes}

-- sender_counts, with the ticks and the losses that `execute` adds.
pub record Sender : Type 0 where
  pub generated : ℕ
  pub original_attempts : ℕ
  pub retry_attempts : ℕ
  pub not_attempted : ℕ
  pub send_attempts : ℕ
  pub send_pending : ℕ
  pub tx_fail : ℕ
  pub transmitted : ℕ
  pub first_transmitted : ℕ
  pub additional_copies : ℕ
  pub never_transmitted : ℕ
  pub modeled_sample_loss : ℕ
  pub first_tick : Option ℕ
  pub last_tick : Option ℕ

-- receiver_counts
pub record Receipts : Type 0 where
  pub received_raw : ℕ
  pub malformed : ℕ
  pub received : ℕ
  pub decode_pending : ℕ
  pub logical_received : ℕ
  pub discarded_duplicate : ℕ
  pub rejected_received : ℕ
  pub classification_pending : ℕ
  pub modeled_command_loss : ℕ
  pub forwarded_to_delay : ℕ
  pub disposition_pending : ℕ
  pub test_discarded : ℕ
  pub discarded_old : ℕ

abbrev pub sender_counts : Sender
sender_counts = record {
  generated = 0;
  original_attempts = 0;
  retry_attempts = 0;
  not_attempted = 0;
  send_attempts = 0;
  send_pending = 0;
  tx_fail = 0;
  transmitted = 0;
  first_transmitted = 0;
  additional_copies = 0;
  never_transmitted = 0;
  modeled_sample_loss = 0;
  first_tick = none;
  last_tick = none;
}

abbrev pub receiver_counts : Receipts
receiver_counts = record {
  received_raw = 0;
  malformed = 0;
  received = 0;
  decode_pending = 0;
  logical_received = 0;
  discarded_duplicate = 0;
  rejected_received = 0;
  classification_pending = 0;
  modeled_command_loss = 0;
  forwarded_to_delay = 0;
  disposition_pending = 0;
  test_discarded = 0;
  discarded_old = 0;
}

-- One attempt as the socket and the file answer: the bytes sent, `none` for an OSError; whether the
-- file takes the frame; and the datagrams before the deadline, where `none` is an OSError of `recv`.
pub record Attempt : Type 0 where
  pub sent : Option ℕ
  pub recorded : Bool
  pub arrivals : List (Option (List ℕ))

-- The variables of `execute` that the exchange of a tick changes.
pub record Exchange : Type 0 where
  pub up : Sender
  pub down : Receipts
  pub logged : Bool
  pub last_reply : Option (List ℕ)
  pub inputs : List (List ℕ)

-- The counters at the start of an attempt.
abbrev pub count_attempt : Bool → Exchange → Exchange
count_attempt true x = record x {
  up = record x.up {
    send_attempts = x.up.send_attempts + 1;
    send_pending = x.up.send_pending + 1;
    original_attempts = x.up.original_attempts + 1;
    not_attempted = x.up.not_attempted - 1;
  };
}
count_attempt false x = record x {
  up = record x.up {
    send_attempts = x.up.send_attempts + 1;
    send_pending = x.up.send_pending + 1;
    retry_attempts = x.up.retry_attempts + 1;
  };
}

-- The `else` branch before the file is written, and the `finally` branch.
abbrev pub count_transmitted : Bool → Exchange → Exchange
count_transmitted true x = record x {
  up = record x.up {
    transmitted = x.up.transmitted + 1;
    additional_copies = x.up.additional_copies + 1;
    send_pending = x.up.send_pending - 1;
  };
}
count_transmitted false x = record x {
  up = record x.up {
    transmitted = x.up.transmitted + 1;
    first_transmitted = x.up.first_transmitted + 1;
    never_transmitted = x.up.never_transmitted - 1;
    send_pending = x.up.send_pending - 1;
  };
}

-- The `except` and the `finally` branch.
abbrev pub count_refused : Exchange → Exchange
count_refused x = record x {
  up = record x.up { tx_fail = x.up.tx_fail + 1; send_pending = x.up.send_pending - 1 };
}

abbrev pub log_frame : Bool → Bool → List ℕ → Exchange → Outcome Exchange (Unit {0})
log_frame true recorded frame x = (x, some tt)
log_frame false true frame x = (record x { logged = true; inputs = frame ∷ x.inputs }, some tt)
log_frame false false frame x = (x, none)

abbrev pub sent_or_refused : Bool → Bool → List ℕ → Exchange → Outcome Exchange (Unit {0})
sent_or_refused true recorded frame x =
    log_frame x.logged recorded frame (count_transmitted x.logged x)
sent_or_refused false recorded frame x = (count_refused x, some tt)

abbrev count_raw : Receipts → Receipts
count_raw c = record c { received_raw = c.received_raw + 1 }

abbrev count_received : Receipts → Receipts
count_received c = record c { received = c.received + 1 }

abbrev count_rejected : Receipts → Receipts
count_rejected c = record c { rejected_received = c.rejected_received + 1 }

abbrev is_dropped : Option ℕ → ℕ → Bool
is_dropped none received_raw = false
is_dropped (some n) received_raw = received_raw == n

abbrev is_last : List ℕ → Option (List ℕ) → Bool
is_last bytes none = false
is_last bytes (some last) = same_bytes bytes last

-- A datagram from `received_raw` on: the answer, if it is one; `none` for a ValueError.
unfoldable pub classify :
    Option ℕ
    → ℕ
    → List ℕ
    → Option (List ℕ)
    → Option ActuatorReply
    → Receipts
    → Outcome Receipts (Option ActuatorReply)
classify drop_actuator tick bytes last none c =
    (record (count_raw c) { malformed = c.malformed + 1 }, some none)
classify drop_actuator tick bytes last (some value) c =
    let got : Receipts = count_received (count_raw c) in
    if is_dropped drop_actuator got.received_raw
    then (record (count_rejected got) { test_discarded = c.test_discarded + 1 }, some none)
    else if not (value.tick == tick)
    then (if is_last bytes last
        then (record got { discarded_duplicate = c.discarded_duplicate + 1 }, some none)
        else (record (count_rejected got) { discarded_old = c.discarded_old + 1 }, some none))
    else if not (value.veh_tick == tick) || not (Float64.is_finite value.delta)
    then (count_rejected got, none)
    else if not (is_zero value.t_sensor_send_ns) || not (is_zero value.t_veh_send_ns)
    then (count_rejected got, none)
    else (record got { logical_received = c.logical_received + 1 }, some (some value))

-- The reply that `last_reply` keeps.
abbrev pub kept_reply :
    List ℕ
    → Exchange
    → Outcome Receipts (Option ActuatorReply)
    → Outcome Exchange (Option ActuatorReply)
kept_reply bytes x (c, none) = (record x { down = c }, none)
kept_reply bytes x (c, some none) = (record x { down = c }, some none)
kept_reply bytes x (c, some (some value)) =
    (record x { down = c; last_reply = some bytes }, some (some value))

abbrev pub injected : Option ℕ → ℕ → Bool → Bool
injected none tick first = false
injected (some failing) tick first = first && tick == failing

abbrev pub sent_whole : List ℕ → Option ℕ → Bool
sent_whole frame none = false
sent_whole frame (some n) = n == length frame

module _ (crc32c : List ℕ → ℕ) where
  -- `while True`, until an answer or the deadline.
  unfoldable pub receive_until :
      Option ℕ → ℕ → List (Option (List ℕ)) → Exchange → Outcome Exchange (Option ActuatorReply)
  receive_until drop_actuator tick [] x = (x, some none)
  receive_until drop_actuator tick (none ∷ rest) x = (x, none)
  receive_until drop_actuator tick (some bytes ∷ rest) x =
      and_then
        (kept_reply bytes x (
          classify drop_actuator tick bytes x.last_reply (accepted (decode_actuator crc32c bytes))
            x.down))
        (λ answer x'. or_else answer x' (receive_until drop_actuator tick rest))

  -- One round of `for attempt in range(26)`.
  unfoldable pub attempt :
      Option ℕ
      → Option ℕ
      → ℕ
      → List ℕ
      → Bool
      → Attempt
      → Exchange
      → Outcome Exchange (Option ActuatorReply)
  unfolding receive_until
  attempt fail_sensor drop_actuator tick frame first io x =
      and_then
        (sent_or_refused (not (injected fail_sensor tick first) && sent_whole frame io.sent)
          io.recorded frame (count_attempt first x))
        (λ done. receive_until drop_actuator tick io.arrivals)

  -- The rounds from number `k` on, of which `n` are left; `some none` after the last.
  unfoldable pub attempts :
      Option ℕ
      → Option ℕ
      → ℕ
      → List ℕ
      → (ℕ → Attempt)
      → ℕ
      → ℕ
      → Exchange
      → Outcome Exchange (Option ActuatorReply)
  unfolding attempt
  attempts fail_sensor drop_actuator tick frame io zero k x = (x, some none)
  attempts fail_sensor drop_actuator tick frame io (suc n) k x =
      and_then (attempt fail_sensor drop_actuator tick frame (k == 0) (io k) x) (λ answer x'.
        or_else answer x' (attempts fail_sensor drop_actuator tick frame io n (k + 1)))
