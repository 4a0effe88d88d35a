-- ===== src/Ground/Receiver/Errors.antt =====
-- What `control_frame` of ground/link.py can raise: `Receiver.accept` catches a ValueError only.
use tvc.Prelude.{ℕ, ◌≡◌, List, [], ◌∷◌, ◌==◌, length}
use tvc.Prelude.Result.{ok, require, >>=-eq-ok}
use tvc.Wire.Errors.{wrong_payload_length}
use tvc.Wire.Raises.{
  RaisesValueErrors, bind-RaisesValueErrors, require-RaisesValueErrors,
  decode_datagram-RaisesValueErrors,
}
use tvc.Wire.Frame.{decode_datagram}
use tvc.Wire.Payload.{
  Fields, decode_payload, payload_fields, control_fields, decode_fields, check_payload_counts,
  unpack_value,
}
use tvc.Ground.Receiver.{control_frame, control_tick}

control_payload-RaisesValueErrors :
    (payload : List ℕ) → RaisesValueErrors (decode_payload 6 payload)
unfolding decode_payload payload_fields control_fields decode_fields check_payload_counts
    unpack_value
control_payload-RaisesValueErrors payload = search (require-RaisesValueErrors)

control_payload-fields :
    (payload : List ℕ) (fields : Fields)
    → decode_payload 6 payload ≡ ok fields
    → fields ≡ decode_fields control_fields payload
unfolding decode_payload payload_fields
control_payload-fields payload fields h =
    let (_, e1, h1) = >>=-eq-ok (require (length payload == 128) wrong_payload_length) _ h in
    let (_, e2, h2) =
      >>=-eq-ok (check_payload_counts 6 (decode_fields control_fields payload)) _ h1 in
    cc

control_tick-RaisesValueErrors :
    (payload : List ℕ) → RaisesValueErrors (control_tick (decode_fields control_fields payload))
unfolding control_tick control_fields decode_fields unpack_value
control_tick-RaisesValueErrors payload = search (require-RaisesValueErrors)

module _ (crc32c : List ℕ → ℕ) where
  -- On any bytes, `control_frame` returns or raises a ValueError: the head and the checksum are not
  -- unpacked from too few bytes, no field is missing and none has the wrong type.
  pub control_frame-RaisesValueErrors :
      (bytes : List ℕ) → RaisesValueErrors (control_frame crc32c bytes)
  unfolding control_frame
  control_frame-RaisesValueErrors bytes =
      bind-RaisesValueErrors (decode_datagram crc32c bytes (6 ∷ [])) _
        (decode_datagram-RaisesValueErrors crc32c bytes (6 ∷ []))
        (λ (_, _, payload) _.
          bind-RaisesValueErrors (decode_payload 6 payload) _
            (control_payload-RaisesValueErrors payload)
            (λ fields e.
              bind-RaisesValueErrors (control_tick fields) _
                (rw (control_payload-fields payload fields e)
                  (control_tick-RaisesValueErrors payload))
                (λ tick _. tt)))
