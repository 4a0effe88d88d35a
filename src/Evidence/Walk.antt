-- ===== src/Evidence/Walk.antt =====
-- The walk of reconcile (scripts/reconcile.py) over the ticks of a lockstep run: the typed rows of the
-- two recordings, and the actuator replies and rows of the simulator's report, whose numbers are
-- read as natural ones. A float is its binary64 pattern, so that `same` compares numbers.
pub mod Staleness
use tvc.Float64.{is_finite}
use tvc.Prelude.{
  ℕ, suc, ◌+◌, ◌-◌, ◌/◌, ◌%◌, Bool, true, false, not, ◌&&◌, ◌||◌, Option, none, some, List, [], ◌∷◌,
  min, ◌==◌, if◌then◌else◌,
}
use tvc.Prelude.Int.{ℤ, is_zero}

-- What the walk reads of a sensor sample.
pub record SensorRow : Type 0 where
  pub tick : ℕ
  pub t_send_ns : ℤ
  pub theta : ℕ
  pub omega : ℕ
  pub flags : ℕ

-- What it reads of a control record.
pub record Logged : Type 0 where
  pub tick : ℕ
  pub deadline_ns : ℤ
  pub woke_ns : ℤ
  pub done_ns : ℤ
  pub sensor_send_ns : ℤ
  pub rx_ns : ℤ
  pub tx_ns : ℤ
  pub sensor_tick : ℕ
  pub theta : ℕ
  pub omega : ℕ
  pub cmd : ℕ
  pub staleness : ℕ
  pub rx_count : ℕ
  pub discarded_old : ℕ
  pub discarded_superseded : ℕ
  pub discarded_other : ℕ
  pub state : ℕ
  pub reason : ℕ
  pub flags : ℕ
  pub ack_status : ℕ

-- What it reads of an actuator reply.
pub record Reply : Type 0 where
  pub tick : ℕ
  pub veh_tick : ℕ
  pub delta : ℕ
  pub status : ℕ
  pub staleness : ℕ

pub data Disagreement : Type 0 where
  noncontiguous_tick admission_or_staleness held_observation actuator_record : Disagreement
  ack_projection physical_diagnostics nonfinite_count nonzero_timestamp : Disagreement

-- n & mask, for a mask of one bit.
abbrev pub has_bit : ℕ → ℕ → Bool
has_bit n mask = n / mask % 2 == 1

-- bool(sample['flags']&1) and math.isfinite(...) and math.isfinite(...)
abbrev pub is_fresh_sample : SensorRow → Bool
is_fresh_sample s = has_bit s.flags 1 && is_finite s.theta && is_finite s.omega

-- The loop's variables.
pub record Walked : Type 0 where
  pub held : Option SensorRow
  pub admitted : ℕ
  pub invalid : ℕ
  pub nonfinite : ℕ

abbrev pub fresh_walk : Walked
fresh_walk = record { held = none; admitted = 0; invalid = 0; nonfinite = 0 }

abbrev pub take_sample : SensorRow → Walked → Walked
take_sample s w =
    if is_fresh_sample s
    then record w { held = some s; admitted = suc w.admitted }
    else (if has_bit s.flags 1
        then record w { nonfinite = suc w.nonfinite }
        else record w { invalid = suc w.invalid })

-- age, where a held sample is not of a later tick.
abbrev pub age_at : ℕ → Option SensorRow → ℕ
age_at tick none = min (tick + 1) 4294967295
age_at tick (some held) = min (tick - held.tick) 4294967295

abbrev pub held_tick : Option SensorRow → ℕ
held_tick none = 18446744073709551615
held_tick (some held) = held.tick

abbrev pub held_theta : Option SensorRow → ℕ
held_theta none = 0
held_theta (some held) = held.theta

abbrev pub held_omega : Option SensorRow → ℕ
held_omega none = 0
held_omega (some held) = held.omega

-- 0x80 | n
abbrev pub or_128 : ℕ → ℕ
or_128 n = if has_bit n 128 then n else n + 128

abbrev pub ack_byte : Logged → ℕ
ack_byte r = if has_bit r.flags 64 then or_128 r.ack_status else 0

abbrev same_bool : Bool → Bool → Bool
same_bool true b = b
same_bool false b = not b

abbrev pub is_contiguous : ℕ → SensorRow → Logged → Reply → ℕ → Bool
is_contiguous tick s r reply row_tick =
    s.tick == tick
    && r.tick == tick
    && reply.tick == tick
    && row_tick == tick
    && reply.veh_tick == tick

abbrev pub is_admission : ℕ → Option SensorRow → SensorRow → Logged → Bool
is_admission tick held s r =
    r.sensor_tick == held_tick held
    && r.staleness == age_at tick held
    && same_bool (has_bit r.flags 1) (is_fresh_sample s)

abbrev pub is_held : Option SensorRow → Logged → Bool
is_held held r = r.theta == held_theta held && r.omega == held_omega held

abbrev pub is_answer : ℕ → Logged → Reply → Bool
is_answer age r reply =
    reply.status % 256 == r.state
    && reply.status / 256 % 256 == r.reason
    && reply.delta == r.cmd
    && reply.staleness == age

abbrev pub is_logical : Logged → Bool
is_logical r =
    r.rx_count == 1
    && r.discarded_old == 0
    && r.discarded_superseded == 0
    && not (has_bit r.flags 32)

abbrev pub dropped_sample : SensorRow → ℕ
dropped_sample s = if has_bit s.flags 1 && not (is_fresh_sample s) then 1 else 0

abbrev pub is_untimed : SensorRow → Logged → Bool
is_untimed s r =
    is_zero r.deadline_ns
    && is_zero r.woke_ns
    && is_zero r.done_ns
    && is_zero r.sensor_send_ns
    && is_zero r.rx_ns
    && is_zero r.tx_ns
    && is_zero s.t_send_ns

-- The checks of one tick after the first, in their order, for what is held after its sample.
abbrev pub mismatch_at : ℕ → Option SensorRow → SensorRow → Logged → Reply → Option Disagreement
mismatch_at tick held s r reply =
    if not (is_admission tick held s r)
    then some admission_or_staleness
    else if not (is_held held r)
    then some held_observation
    else if not (is_answer (age_at tick held) r reply)
    then some actuator_record
    else if not (reply.status / 16777216 == ack_byte r)
    then some ack_projection
    else if not (is_logical r)
    then some physical_diagnostics
    else if not (r.discarded_other == dropped_sample s)
    then some nonfinite_count
    else if not (is_untimed s r)
    then some nonzero_timestamp
    else none

-- The sample, record, reply and row of a tick, where a row is its tick.
pub record Round : Type 0 where
  pub sample : SensorRow
  pub logged : Logged
  pub reply : Reply
  pub row_tick : ℕ

-- zip
unfoldable pub rounds_of : List SensorRow → List Logged → List Reply → List ℕ → List Round
rounds_of (s ∷ samples) (r ∷ records) (reply ∷ replies) (row_tick ∷ rows) =
    record { sample = s; logged = r; reply = reply; row_tick = row_tick }
    ∷ rounds_of samples records replies rows
rounds_of _ _ _ _ = []

-- The loop from a tick on, which ends at the first mismatch.
unfoldable pub walk : ℕ → Walked → List Round → Walked × Option Disagreement
walk tick w [] = (w, none)
walk tick w (q ∷ rounds) =
    let after : Walked = take_sample q.sample w in
    let rest : Walked × Option Disagreement = walk (suc tick) after rounds in
    if not (is_contiguous tick q.sample q.logged q.reply q.row_tick)
    then (w, some noncontiguous_tick)
    else elim (mismatch_at tick after.held q.sample q.logged q.reply) [
      | some m ↦ (after, some m)
      | none ↦ rest
    ]
