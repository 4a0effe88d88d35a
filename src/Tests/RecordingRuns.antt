-- ===== src/Tests/RecordingRuns.antt =====
-- A recording of two sensor samples with a small checksum in the place of CRC-32C.
use tvc.Prelude.{ℕ, ◌≡◌, refl, inl, inr, some, List, [], ◌∷◌, ◌++◌, arith, map, All}
use tvc.Prelude.Int.{pos}
use tvc.Prelude.Result.{ok, err}
use tvc.Wire.Errors.{wrong_schema}
use tvc.Wire.Bytes.{le_bytes, of_le}
use tvc.Wire.Payload.{
  Fields, int, float, payload_fields, sensor_fields, check_payload_counts, encode_payload,
  encode_fields, mask_flags, pack_value,
}
use tvc.Wire.Payload.RoundTrip.{HasNative, sent}
use tvc.Wire.Stream.RoundTrip.{written}
use tvc.Wire.Recording.{schema_of, pack_header, unpack_header, read_typed_recording}
use tvc.Wire.Recording.RoundTrip.{header_of, messages, clean, read_typed_recording-written}
use tvc.Tests.WireRuns.{toy_crc, toy_crc-lt}

abbrev sample : ℕ → ℕ → Fields
sample tick theta =
    ("tick", int (pos tick))
    ∷ ("t_send_ns", int (pos 0))
    ∷ ("theta", float theta)
    ∷ ("omega", float 0)
    ∷ ("flags", int (pos 1))
    ∷ ("cmd_seq", int (pos 0))
    ∷ ("sim_reason", int (pos 0))
    ∷ []

abbrev samples : List Fields
samples = sample 0 0x3f9999999999999a ∷ sample 1 0 ∷ []

abbrev payload_of : ℕ → ℕ → List ℕ
payload_of tick theta =
    le_bytes 8 tick
    ++ (le_bytes 8 0 ++ (le_bytes 8 theta ++ (le_bytes 8 0 ++ (1 ∷ 0 ∷ 0 ∷ 0 ∷ le_bytes 8 0))))

samples_encoded :
    messages 4 samples ≡ ok ((4, payload_of 0 0x3f9999999999999a) ∷ (4, payload_of 1 0) ∷ [])
unfolding encode_payload payload_fields check_payload_counts encode_fields mask_flags pack_value
    sensor_fields le_bytes
samples_encoded = refl

sensor_layout : payload_fields 4 ≡ some (sensor_fields, 44)
unfolding payload_fields
sensor_layout = refl

samples_native : All (λ fields. HasNative 4 fields sensor_fields) samples
unfolding sensor_fields mask_flags
samples_native = ground arith

-- The same file asked for as a telemetry recording.
wrong_type :
    read_typed_recording toy_crc (pack_header (schema_of 4) 5 6) 1 ≡ some (err wrong_schema)
unfolding read_typed_recording unpack_header pack_header le_bytes of_le
wrong_type = refl

read_typed_recording-written_example :
    read_typed_recording toy_crc
      (pack_header (schema_of 4) 5 6
        ++ written toy_crc 9 ((4, payload_of 0 0x3f9999999999999a) ∷ (4, payload_of 1 0) ∷ []))
      4
    ≡ some (ok (header_of 4 5 6, map (λ fields. sent 4 fields sensor_fields) samples, clean 2))
read_typed_recording-written_example =
    read_typed_recording-written toy_crc toy_crc-lt 4 5 6 9 sensor_fields 44 samples
      ((4, payload_of 0 0x3f9999999999999a) ∷ (4, payload_of 1 0) ∷ []) (inr (inl refl))
      (omega arith) (omega arith) sensor_layout samples_native samples_encoded
