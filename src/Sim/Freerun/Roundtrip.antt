-- ===== src/Sim/Freerun/Roundtrip.antt =====
-- roundtrip_observation and roundtrip_ns of sim/freerun.py: the age of the sensor sample that an
-- ordinary actuator datagram answers.
use Prim.Native.Nat.{bit_and}
use tvc.Prelude.{ℕ, ◌+◌, ◌/◌, ◌^◌, not, ◌||◌, Option, none, some, List, ◌==◌, if◌then◌else◌}
use tvc.Prelude.Int.{ℤ, pos_part, neg_part, sub_ℕ, is_zero}
use tvc.Wire.Actuator.{ActuatorReply, decode_actuator, accepted}
use tvc.Sim.Freerun.{is_terminal}

pub record Sample : Type 0 where
  pub received_ns : ℕ
  pub sensor_send_ns : ℤ
  pub status : ℕ

abbrev sample_of : Option ActuatorReply → ℕ → Option Sample
sample_of none received_ns = none
sample_of (some value) received_ns =
    if is_terminal value
      || not (bit_and (value.status / 2 ^ 16) 255 == 0)
      || is_zero value.t_sensor_send_ns
    then none
    else some (record {
      received_ns = received_ns;
      sensor_send_ns = value.t_sensor_send_ns;
      status = value.status;
    })

abbrev age_of : Option Sample → Option ℤ
age_of none = none
age_of (some sample) =
    some
      (sub_ℕ (sample.received_ns + neg_part sample.sensor_send_ns) (pos_part sample.sensor_send_ns))

module _ (crc32c : List ℕ → ℕ) where
  unfoldable pub roundtrip_observation : List ℕ → ℕ → Option Sample
  roundtrip_observation bytes received_ns =
      sample_of (accepted (decode_actuator crc32c bytes)) received_ns

  unfoldable pub roundtrip_ns : List ℕ → ℕ → Option ℤ
  roundtrip_ns bytes received_ns = age_of (roundtrip_observation bytes received_ns)
