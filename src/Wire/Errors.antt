-- ===== src/Wire/Errors.antt =====
-- The exceptions of ground/wire.py and ground/link.py: a constructor for each message of a ValueError, and the KeyError,
-- TypeError and OverflowError of the typed payloads, and the struct.error of `unpack_from` on bytes that
-- are too short.
pub data Error : Type 0 where
  bad_frame_type payload_too_long truncated bad_sync bad_version bad_type bad_length bad_crc : Error
  bad_payload_type wrong_payload_length invalid_control_counts : Error
  missing_key not_an_integer not_a_float out_of_range struct_error : Error
  unsupported_type short_recording bad_magic bad_recording_version nonzero_reserved : Error
  unknown_schema wrong_schema recovered_type encoder_bug nonfinite_control : Error
