-- ===== src/Tests/WireRuns.antt =====
-- The wire codec with a small checksum in the place of CRC-32C.
use tvc.Prelude.{
  ℕ, ◌+◌, ◌*◌, ◌%◌, ◌^◌, ◌≤◌, ◌<◌, ◌≡◌, refl, some, List, [], ◌∷◌, ◌++◌, arith, length,
}
use tvc.Prelude.Int.{pos}
use tvc.Prelude.Result.{ok, ◌>>=◌}
use tvc.Wire.Bytes.{le_bytes, of_le}
use tvc.Wire.Frame.{
  payload_size, encode_frame, frame_bytes, decode_datagram, pack_head, unpack_head,
}
use tvc.Wire.Frame.RoundTrip.{decode_datagram-encode_frame}
use tvc.Wire.Stream.{
  Frame, Counters, decode_stream, find_sync, scan, round, examine, take_frame, lose_lock, account,
  start,
}
use tvc.Wire.Stream.Totality.{frame_size, decode_stream_total}
use tvc.Wire.Stream.RoundTrip.{written, numbered, decode_stream-written}
use tvc.Wire.Payload.{
  int, Fields, payload_fields, command_fields, encode_payload, decode_payload, check_payload_counts,
  mask_flags, pack_value, encode_fields,
}
use tvc.Wire.Payload.RoundTrip.{HasNative, sent}
use tvc.Wire.Payload.Codec.{decode_payload-encode_payload}

unfoldable pub toy_crc : List ℕ → ℕ
toy_crc [] = 7
toy_crc (b ∷ bs) = (b + 31 * toy_crc bs) % 2 ^ 32

pub toy_crc-lt : (bytes : List ℕ) → toy_crc bytes < 2 ^ 32
unfolding toy_crc
toy_crc-lt [] = omega arith
toy_crc-lt (b ∷ bs) = omega arith

abbrev ack_payload : List ℕ
ack_payload = 9 ∷ 0 ∷ 0 ∷ 0 ∷ 0 ∷ 0 ∷ 0 ∷ 0 ∷ 1 ∷ 0 ∷ 0 ∷ 0 ∷ 1 ∷ 0 ∷ 2 ∷ 0 ∷ []

ack_size : payload_size 3 ≡ some (length ack_payload)
unfolding payload_size
ack_size = refl

decode_datagram-encode_frame_example :
    (encode_frame toy_crc 3 (2 ^ 32 + 5) ack_payload >>= λ bytes.
    decode_datagram toy_crc bytes (2 ∷ 3 ∷ []))
    ≡ ok (3, 5, ack_payload)
decode_datagram-encode_frame_example =
    decode_datagram-encode_frame toy_crc toy_crc-lt 3 (2 ^ 32 + 5) ack_payload (2 ∷ 3 ∷ []) ack_size
      refl

abbrev messages : List (ℕ × List ℕ)
messages = (3, ack_payload) ∷ (1, 0x90 ∷ 0xeb ∷ []) ∷ (6, []) ∷ []

-- Two lost frames between two that arrive, and three bytes that belong to none.
gapped :
    decode_stream toy_crc
      (frame_bytes toy_crc 6 4 (1 ∷ []) ++ (0x90 ∷ 0xeb ∷ 5 ∷ frame_bytes toy_crc 6 7 (2 ∷ [])))
    ≡ some (
      record { ftype = 6; seq = 4; payload = 1 ∷ [] }
          ∷ record { ftype = 6; seq = 7; payload = 2 ∷ [] }
          ∷ [],
      record {
        frames_ok = 2;
        crc_errors = 0;
        version_mismatch = 1;
        resyncs = 1;
        seq_discontinuities = 0;
        lost = 2;
        skipped_bytes = 3;
      },
    )
unfolding decode_stream scan round find_sync examine take_frame lose_lock account start frame_bytes
    pack_head unpack_head le_bytes of_le toy_crc
gapped = refl

decode_stream-written_example :
    decode_stream toy_crc (written toy_crc (4294967295) messages)
    ≡ some (
      numbered (4294967295) messages,
      record {
        frames_ok = 3;
        crc_errors = 0;
        version_mismatch = 0;
        resyncs = 0;
        seq_discontinuities = 0;
        lost = 0;
        skipped_bytes = 0;
      },
    )
decode_stream-written_example =
    decode_stream-written toy_crc toy_crc-lt (4294967295) messages (ground arith)

decode_stream_total_example :
    (fs : List Frame) × (c : Counters) × (decode_stream toy_crc ack_payload ≡ some (fs, c))
    × (c.frames_ok ≡ length fs)
    × (frame_size fs + c.skipped_bytes ≡ 16)
    × (c.resyncs ≤ c.frames_ok + 1)
decode_stream_total_example = decode_stream_total toy_crc ack_payload

-- A command with a stray flag bit, which is masked away.
abbrev command : Fields
command =
    ("opcode", int (pos 2))
    ∷ ("flags", int (pos 3))
    ∷ ("cmd_seq", int (pos 300))
    ∷ ("effective_tick", int (pos 50))
    ∷ []

abbrev command_bytes : List ℕ
command_bytes = 44 ∷ 1 ∷ 0 ∷ 0 ∷ 2 ∷ 0 ∷ 1 ∷ 0 ∷ 50 ∷ 0 ∷ 0 ∷ 0 ∷ 0 ∷ 0 ∷ 0 ∷ 0 ∷ []

command_encoded : encode_payload 2 command ≡ ok command_bytes
unfolding encode_payload payload_fields command_fields check_payload_counts encode_fields mask_flags
    pack_value le_bytes
command_encoded = refl

command_layout : payload_fields 2 ≡ some (command_fields, 16)
unfolding payload_fields
command_layout = refl

command_native : HasNative 2 command command_fields
unfolding command_fields mask_flags
command_native = (tt, (tt, (tt, (tt, tt))))

decode_payload-encode_payload_example :
    (length command_bytes ≡ 16)
    × (decode_payload 2 command_bytes ≡ ok (sent 2 command command_fields))
decode_payload-encode_payload_example =
    decode_payload-encode_payload 2 command command_fields 16 command_bytes command_layout
      command_native command_encoded
