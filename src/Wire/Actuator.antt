-- ===== src/Wire/Actuator.antt =====
-- Actuator datagrams (type 5 of ground/wire.py) as sim/run_sim.py and sim/freerun.py read them.
pub mod Errors
use tvc.Prelude.{ℕ, Option, none, some, List, [], ◌∷◌}
use tvc.Prelude.Int.{ℤ, pos_part}
use tvc.Prelude.Result.{Result, ok, err, ◌>>=◌}
use tvc.Wire.Errors.{Error, not_a_float}
use tvc.Wire.Frame.{decode_datagram}
use tvc.Wire.Payload.{Value, int, float, Fields, get, as_int, decode_payload}

-- The decoded fields of an actuator payload. Ticks, status and staleness are unsigned.
pub record ActuatorReply : Type 0 where
  pub tick : ℕ
  pub veh_tick : ℕ
  pub t_sensor_send_ns : ℤ
  pub t_veh_send_ns : ℤ
  pub delta : ℕ
  pub status : ℕ
  pub staleness : ℕ

abbrev as_float : Value → Result Error ℕ
as_float (float b) = ok b
as_float (int n) = err not_a_float

unfoldable pub actuator_reply : Fields → Result Error ActuatorReply
actuator_reply fields = do
  tick ← get fields "tick" >>= as_int
  veh_tick ← get fields "veh_tick" >>= as_int
  t_sensor_send_ns ← get fields "t_sensor_send_ns" >>= as_int
  t_veh_send_ns ← get fields "t_veh_send_ns" >>= as_int
  delta ← get fields "delta" >>= as_float
  status ← get fields "status" >>= as_int
  staleness ← get fields "staleness" >>= as_int
  ok (record {
    tick = pos_part tick;
    veh_tick = pos_part veh_tick;
    t_sensor_send_ns = t_sensor_send_ns;
    t_veh_send_ns = t_veh_send_ns;
    delta = delta;
    status = pos_part status;
    staleness = pos_part staleness;
  })

module _ (crc32c : List ℕ → ℕ) where
  -- wire.decode_datagram(data, {5}) and wire.decode_payload(5, payload)
  unfoldable pub decode_actuator : List ℕ → Result Error ActuatorReply
  decode_actuator bytes = do
    (_, _, payload) ← decode_datagram crc32c bytes (5 ∷ [])
    fields ← decode_payload 5 payload
    actuator_reply fields

-- The same, under a `try` that catches ValueError: `none` for a datagram that is turned away.
abbrev pub accepted : Result Error ActuatorReply → Option ActuatorReply
accepted (err e) = none
accepted (ok reply) = some reply
