-- ===== src/Sim/Freerun/Peer.antt =====
-- `execute` of sim/freerun.py: the offers of sensor frames, the bodies and the terminal copies. The
-- clock, the socket and the recording file answer through arguments. The exit code, the timings and
-- the report are left out; an exception of any kind ends the run as `none`.
pub mod Balance
pub mod Run
use tvc.Prelude.{
  ℕ, zero, suc, ◌+◌, ◌-◌, Bool, true, false, not, ◌&&◌, ◌||◌, Option, none, some, List, [], ◌∷◌,
  ltb, ◌==◌, if◌then◌else◌, length, is_some,
}
use tvc.Prelude.Int.{pos}
use tvc.Prelude.Result.{Result, ok, err, ◌>>=◌}
use tvc.Prelude.Raising.{Outcome, and_then, return_if}
use tvc.Wire.Errors.{Error}
use tvc.Wire.Frame.{encode_frame}
use tvc.Wire.Payload.{int, float, encode_payload}
use tvc.Sim.Types.{TruthState, Observation}
use tvc.Sim.Plant.{observe}
use tvc.Sim.Scenario.{Scenario, up}
use tvc.Sim.Freerun.{Model, fresh_model, loss, receive, advance_model, as_count}

-- What the clock, the socket and the file answer to one offer: the times before and after, the bytes
-- sent, `none` for an OSError, and whether the file took the frame.
pub record Sending : Type 0 where
  pub sent_ns : ℕ
  pub done_ns : ℕ
  pub sent : Option ℕ
  pub recorded : Bool

-- One wake-up: the signal that ends the sleep, or the packets that `drain` finds.
pub record Wake : Type 0 where
  pub interrupted : Bool
  pub packets : List (List ℕ)
  pub sending : Sending

pub record Row : Type 0 where
  pub tick : ℕ
  pub applied : Bool
  pub truth : TruthState
  pub cmd_applied : ℕ

-- The local variables of `execute`, newest entries first.
pub record Peer : Type 0 where
  pub model : Model
  pub cached_terminal : Option (List ℕ)
  pub terminal_logged : Bool
  pub first_terminal_send : ℕ
  pub last_terminal_send : ℕ
  pub origin : ℕ
  pub inputs : List (List ℕ)
  pub rows : List Row

abbrev pub with_model : {A : Type 0} → Peer → Outcome Model A → Outcome Peer A
with_model p (m, r) = (record p { model = m }, r)

abbrev pub count_observation : Bool → Peer → Peer
count_observation false p = p
count_observation true p = record p {
  model = record p.model {
    events = record p.model.events { sensor_observations = p.model.events.sensor_observations + 1 };
  };
}

-- up_attempts or generated, and the origin of the prologue.
abbrev pub count_offer : Bool → Bool → ℕ → Peer → Peer
count_offer true prologue sent_ns p = record p {
  model = record p.model {
    term = record p.model.term { up_attempts = p.model.term.up_attempts + 1 };
  };
  origin = if prologue then sent_ns else p.origin;
}
count_offer false prologue sent_ns p = record p {
  model = record p.model {
    up_counts = record p.model.up_counts { generated = p.model.up_counts.generated + 1 };
  };
  origin = if prologue then sent_ns else p.origin;
}

abbrev pub count_lost : Bool → Bool → Peer → Peer
count_lost true raw p = record p {
  model = record p.model {
    term = record p.model.term { up_intentionally_lost = p.model.term.up_intentionally_lost + 1 };
  };
}
count_lost false raw p = record p {
  model = record p.model {
    up_counts = record p.model.up_counts {
      intentionally_lost = p.model.up_counts.intentionally_lost + 1;
      forced_drop = p.model.up_counts.forced_drop + as_count (not raw);
    };
  };
}

abbrev pub count_failed : Bool → Peer → Peer
count_failed true p = record p {
  model = record p.model {
    term = record p.model.term { up_tx_fail = p.model.term.up_tx_fail + 1 };
  };
}
count_failed false p = record p {
  model = record p.model {
    up_counts = record p.model.up_counts { sensor_tx_fail = p.model.up_counts.sensor_tx_fail + 1 };
  };
}

abbrev pub count_sent : Bool → Bool → Peer → Peer
count_sent true raw p = record p {
  model = record p.model {
    term = record p.model.term { up_transmitted = p.model.term.up_transmitted + 1 };
  };
}
count_sent false raw p = record p {
  model = record p.model {
    up_counts = record p.model.up_counts {
      transmitted = p.model.up_counts.transmitted + 1;
      forced_transmit = p.model.up_counts.forced_transmit + as_count raw;
    };
  };
}

-- The times of the terminal sends.
abbrev pub time_terminal : Bool → Sending → Peer → Peer
time_terminal false io p = p
time_terminal true io p = record p {
  first_terminal_send = if p.first_terminal_send == 0 then io.sent_ns else p.first_terminal_send;
  last_terminal_send = io.done_ns;
}

-- inputs.write(frame), once for a terminal frame.
abbrev pub record_frame : Bool → List ℕ → Sending → Peer → Outcome Peer (Unit {0})
record_frame terminal frame io p =
    if terminal && p.terminal_logged
    then (p, some tt)
    else if io.recorded
    then (
      record p { inputs = frame ∷ p.inputs; terminal_logged = terminal || p.terminal_logged },
      some tt,
    )
    else (p, none)

abbrev sent_whole : List ℕ → Option ℕ → Bool
sent_whole frame none = false
sent_whole frame (some n) = n == length frame

abbrev injected : Option ℕ → ℕ → Bool → ℕ → Bool
injected none tick terminal attempts = false
injected (some failing) tick terminal attempts = tick == failing && (not terminal || attempts == 1)

-- The `try` around `sock.send`.
unfoldable pub transmit :
    Option ℕ → ℕ → Bool → Bool → Bool → List ℕ → Sending → Peer → Outcome Peer (Unit {0})
transmit fail_sensor tick terminal prologue raw frame io p =
    let timed = time_terminal terminal io p in
    if not (injected fail_sensor tick terminal p.model.term.up_attempts) && sent_whole frame io.sent
    then record_frame terminal frame io (count_sent terminal raw timed)
    else (count_failed terminal timed, if prologue then none else some tt)

abbrev pub cache : Bool → List ℕ → Peer → Peer
cache terminal frame p = if terminal then record p { cached_terminal = some frame } else p

abbrev pub built : Bool → Result Error (List ℕ) → Peer → Outcome Peer (List ℕ)
built terminal (err e) p = (p, none)
built terminal (ok frame) p = (cache terminal frame p, some frame)

-- A new frame, or the cached terminal one.
abbrev pub frame_for : Bool → Option (List ℕ) → Result Error (List ℕ) → Peer → Outcome Peer (List ℕ)
frame_for true (some frame) new p = (p, some frame)
frame_for true none new p = built true new p
frame_for false cached new p = built false new p

abbrev pub is_new : Bool → Option (List ℕ) → Bool
is_new terminal cached = not terminal || not (is_some cached)

abbrev pub add_row : ℕ → Bool → Peer → Peer
add_row tick applied p = record p {
  rows =
      record {
        tick = tick;
        applied = applied;
        truth = p.model.truth;
        cmd_applied = p.model.act.applied;
      }
      ∷ p.rows;
}

abbrev pub grace_ticks : ℕ
grace_ticks = 16

abbrev pub new_peer : Model → Peer
new_peer m = record {
  model = m;
  cached_terminal = none;
  terminal_logged = false;
  first_terminal_send = 0;
  last_terminal_send = 0;
  origin = 0;
  inputs = [];
  rows = [];
}

-- What becomes of a frame whose draw, raw and settled, is given.
abbrev pub dispatch :
    Option ℕ → ℕ → Bool → Bool → Bool × Bool → List ℕ → Sending → Peer → Outcome Peer (Unit {0})
dispatch fail_sensor tick terminal prologue (raw, true) frame io p =
    (count_lost terminal raw p, some tt)
dispatch fail_sensor tick terminal prologue (raw, false) frame io p =
    transmit fail_sensor tick terminal prologue raw frame io p

-- sleep_until, which a signal interrupts.
abbrev pub sleep : Wake → Peer → Outcome Peer (Unit {0})
sleep wake p = (p, if wake.interrupted then none else some tt)

module _ (crc32c : List ℕ → ℕ) where
  unfoldable pub sensor_frame : ℕ → Bool → Option ℕ → Observation → ℕ → Result Error (List ℕ)
  sensor_frame tick terminal reason obs sent_ns = do
    payload ← encode_payload 4 (
        ("tick", int (pos tick))
        ∷ ("t_send_ns", int (pos sent_ns))
        ∷ ("theta", float obs.theta)
        ∷ ("omega", float obs.omega)
        ∷ ("flags", int (pos (if terminal then 3 else 1)))
        ∷ ("cmd_seq", int (pos 0))
        ∷ ("sim_reason", int (pos (elim reason [ none ↦ 0 | some r ↦ if terminal then r else 0 ])))
        ∷ [])
    encode_frame crc32c 4 tick payload

  -- offer
  unfoldable pub offer :
      Scenario → Option ℕ → ℕ → Bool → Bool → Sending → Peer → Outcome Peer (Unit {0})
  unfolding loss transmit
  offer spec fail_sensor tick terminal prologue io p =
      let obs = observe tick p.model.truth in
      let seen = count_observation (is_new terminal p.cached_terminal) p in
      and_then (with_model seen (loss spec up tick terminal prologue seen.model)) (λ draw p'.
        let counted = count_offer terminal prologue io.sent_ns p' in
        and_then
          (frame_for terminal p.cached_terminal
            (sensor_frame tick terminal p.model.reason obs io.sent_ns) counted)
          (λ frame. dispatch fail_sensor tick terminal prologue draw frame io))

  -- The bodies from `k` on, of which `n` are left: the body that ended the run by its own reason.
  unfoldable pub bodies : Scenario → Option ℕ → (ℕ → Wake) → ℕ → ℕ → Peer → Outcome Peer (Option ℕ)
  unfolding offer
  bodies spec fail_sensor wakes zero k p = (p, some none)
  bodies spec fail_sensor wakes (suc n) k p = and_then (sleep (wakes k) p) (λ woken p0.
      and_then (with_model p0 (receive crc32c spec (wakes k).packets k p0.model)) (λ selected p1.
        return_if (is_some p1.model.vehicle_seen) none p1 (λ p1.
          and_then (with_model p1 (advance_model spec k selected p1.model)) (λ arriving p2.
            let terminal : Bool = is_some p2.model.reason in
            and_then
              (offer spec fail_sensor (k + 1) terminal false (wakes k).sending
                (add_row (k + 1) (is_some arriving) p2))
              (λ done p3.
                return_if terminal (some k) p3 (bodies spec fail_sensor wakes n (k + 1)))))))

  -- One more copy, while there are some to send.
  abbrev pub more : Bool → Scenario → Option ℕ → ℕ → Wake → Peer → Outcome Peer (Unit {0})
  more false spec fail_sensor terminal_tick wake p = (p, some tt)
  more true spec fail_sensor terminal_tick wake p =
      offer spec fail_sensor (terminal_tick + 1) true false wake.sending p

  -- The terminal copies: `n` wake-ups are left.
  unfoldable pub copies :
      Scenario → Option ℕ → (ℕ → Wake) → ℕ → ℕ → ℕ → ℕ → Peer → Outcome Peer (Unit {0})
  unfolding offer
  copies spec fail_sensor wakes terminal_copies terminal_tick zero offset p = (p, some tt)
  copies spec fail_sensor wakes terminal_copies terminal_tick (suc n) offset p =
      and_then (sleep (wakes offset) p) (λ woken p0.
        and_then (with_model p0 (receive crc32c spec (wakes offset).packets terminal_tick p0.model))
          (λ selected p1. return_if (is_some p1.model.vehicle_seen) tt p1 (λ p1.
            and_then
              (more (ltb offset terminal_copies) spec fail_sensor terminal_tick (wakes offset) p1)
              (λ done.
                copies spec fail_sensor wakes terminal_copies terminal_tick n (offset + 1)))))

  -- The copies, if the run ended by its own reason.
  abbrev pub last_copies :
      Scenario → Option ℕ → ℕ → (ℕ → Wake) → Option ℕ → Peer → Outcome Peer (Unit {0})
  last_copies spec fail_sensor terminal_copies late none p = (p, some tt)
  last_copies spec fail_sensor terminal_copies late (some terminal_tick) p =
      copies spec fail_sensor late terminal_copies terminal_tick (terminal_copies + grace_ticks - 1)
        1 p

  -- The run from the prologue on; `body` and `late` answer for the bodies and for the copies.
  unfoldable pub execute :
      Scenario → Option ℕ → ℕ → Sending → (ℕ → Wake) → (ℕ → Wake) → Model → Outcome Peer (Unit {0})
  unfolding bodies copies
  execute spec fail_sensor terminal_copies first body late m =
      and_then (offer spec fail_sensor 0 false true first (new_peer m)) (λ started p1.
        and_then (bodies spec fail_sensor body (spec.ticks - 1) 0 (add_row 0 false p1))
          (λ ended p2. last_copies spec fail_sensor terminal_copies late ended p2))
