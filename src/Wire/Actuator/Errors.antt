-- ===== src/Wire/Actuator/Errors.antt =====
-- What decoding an actuator datagram can raise: its callers catch a ValueError only.
use tvc.Wire.Bytes.{of_le, slice}
use tvc.Prelude.{◌^◌, ltb, Bool-cases, inl, inr, ℕ, ◌≡◌, List, [], ◌∷◌, length, ◌==◌}
use tvc.Prelude.Result.{ok, require, >>=-eq-ok}
use tvc.Wire.Errors.{wrong_payload_length}
use tvc.Wire.Frame.{decode_datagram}
use tvc.Wire.Payload.{
  Fields, decode_payload, payload_fields, actuator_fields, decode_fields, unpack_value,
  check_payload_counts,
}
use tvc.Wire.Raises.{
  RaisesValueErrors, bind-RaisesValueErrors, require-RaisesValueErrors,
  decode_datagram-RaisesValueErrors,
}
use tvc.Wire.Actuator.{decode_actuator, actuator_reply}

actuator_payload-RaisesValueErrors :
    (payload : List ℕ) → RaisesValueErrors (decode_payload 5 payload)
unfolding decode_payload payload_fields check_payload_counts
actuator_payload-RaisesValueErrors payload = search (require-RaisesValueErrors)

actuator_payload-fields :
    (payload : List ℕ) (fields : Fields)
    → decode_payload 5 payload ≡ ok fields
    → fields ≡ decode_fields actuator_fields payload
unfolding decode_payload payload_fields check_payload_counts
actuator_payload-fields payload fields h =
    let (_, e1, h1) = >>=-eq-ok (require (length payload == 48) wrong_payload_length) _ h in cc

actuator_reply-RaisesValueErrors :
    (payload : List ℕ) → RaisesValueErrors (actuator_reply (decode_fields actuator_fields payload))
unfolding actuator_reply actuator_fields decode_fields unpack_value
actuator_reply-RaisesValueErrors payload =
    elim (Bool-cases (ltb (of_le (slice 16 8 payload)) (2 ^ 63))) [
      | inl sensor ↦ elim (Bool-cases (ltb (of_le (slice 24 8 payload)) (2 ^ 63))) [
        | inl vehicle ↦ rw (sensor, vehicle) tt
        | inr vehicle ↦ rw (sensor, vehicle) tt
      ]
      | inr sensor ↦ elim (Bool-cases (ltb (of_le (slice 24 8 payload)) (2 ^ 63))) [
        | inl vehicle ↦ rw (sensor, vehicle) tt
        | inr vehicle ↦ rw (sensor, vehicle) tt
      ]
    ]

module _ (crc32c : List ℕ → ℕ) where
  -- On any bytes, decoding an actuator datagram returns a reply or raises a ValueError.
  pub decode_actuator-RaisesValueErrors :
      (bytes : List ℕ) → RaisesValueErrors (decode_actuator crc32c bytes)
  unfolding decode_actuator
  decode_actuator-RaisesValueErrors bytes =
      bind-RaisesValueErrors (decode_datagram crc32c bytes (5 ∷ [])) _
        (decode_datagram-RaisesValueErrors crc32c bytes (5 ∷ []))
        (λ (_, _, payload) _.
          bind-RaisesValueErrors (decode_payload 5 payload) _
            (actuator_payload-RaisesValueErrors payload)
            (λ fields e.
              rw (actuator_payload-fields payload fields e)
                (actuator_reply-RaisesValueErrors payload)))
