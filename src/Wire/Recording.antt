-- ===== src/Wire/Recording.antt =====
-- The recordings of ground/wire.py: read_recording and read_typed_recording of a file's bytes, and the
-- header that its writers pack. `none` is the fuel of decode_stream, which never runs out
-- (Wire/Stream/Totality).
pub mod RoundTrip
use tvc.Prelude.{
  ℕ, ◌+◌, ◌-◌, ◌^◌, Bool, true, false, not, ◌||◌, Option, none, some, List, [], ◌∷◌, ◌++◌, ltb,
  ◌==◌, if◌then◌else◌, length, drop, is_some, map,
}
use tvc.Prelude.Int.{ℤ, pos, negsuc}
use tvc.Prelude.Result.{Result, ok, err, ◌>>=◌, ◌>>◌, require}
use tvc.Wire.Errors.{
  Error, unsupported_type, short_recording, bad_magic, bad_recording_version, nonzero_reserved,
  unknown_schema, wrong_schema, recovered_type, encoder_bug,
}
use tvc.Wire.Bytes.{le_bytes, of_le, slice}
use tvc.Wire.Frame.{version}
use tvc.Wire.Payload.{Fields, decode_payload}
use tvc.Wire.Stream.{Frame, Counters, decode_stream}

-- "TVCRECRD", read as a little-endian number.
abbrev pub magic : ℕ
magic = 0x4452434552435654

abbrev pub header_size : ℕ
header_size = 32

pub record Header : Type 0 where
  pub magic_word : ℕ
  pub version_word : ℕ
  pub reserved : ℕ
  pub schema_hash : ℕ
  pub start_monotonic_ns : ℤ
  pub start_epoch_ns : ℤ

-- SCHEMA_HASHES of the types that have files, and FILE_SCHEMAS.
abbrev pub schema_of : ℕ → ℕ
schema_of ftype = if ftype == 1 then 0xa871cd84 else if ftype == 4 then 0xd23a4196 else 0xadfa94c8

abbrev pub file_type : ℕ → Option ℕ
file_type hash =
    if hash == 0xa871cd84
    then some 1
    else if hash == 0xd23a4196
    then some 4
    else if hash == 0xadfa94c8
    then some 6
    else none

abbrev pub signed_of : List ℕ → ℤ
signed_of bytes =
    let n : ℕ = of_le bytes in if ltb n (2 ^ 63) then pos n else negsuc (2 ^ 64 - 1 - n)

-- HEADER.unpack_from
unfoldable pub unpack_header : List ℕ → Header
unpack_header bytes = record {
  magic_word = of_le (slice 0 8 bytes);
  version_word = of_le (slice 8 2 bytes);
  reserved = of_le (slice 10 2 bytes);
  schema_hash = of_le (slice 12 4 bytes);
  start_monotonic_ns = signed_of (slice 16 8 bytes);
  start_epoch_ns = signed_of (slice 24 8 bytes);
}

-- HEADER.pack(MAGIC, VERSION, 0, hash, monotonic, epoch), for times that are not negative.
unfoldable pub pack_header : ℕ → ℕ → ℕ → List ℕ
pack_header hash monotonic epoch =
    le_bytes 8 magic
    ++ (le_bytes 2 version
        ++ (le_bytes 2 0 ++ (le_bytes 4 hash ++ (le_bytes 8 monotonic ++ le_bytes 8 epoch))))

-- A telemetry record, `struct` "<QqqqddQ".
pub record Telemetry : Type 0 where
  pub tick : ℕ
  pub deadline_ns : ℤ
  pub woke_ns : ℤ
  pub done_ns : ℤ
  pub theta : ℕ
  pub cmd : ℕ
  pub drops : ℕ

abbrev pub record_size : ℕ
record_size = 56

unfoldable pub unpack_record : List ℕ → Telemetry
unpack_record bytes = record {
  tick = of_le (slice 0 8 bytes);
  deadline_ns = signed_of (slice 8 8 bytes);
  woke_ns = signed_of (slice 16 8 bytes);
  done_ns = signed_of (slice 24 8 bytes);
  theta = of_le (slice 32 8 bytes);
  cmd = of_le (slice 40 8 bytes);
  drops = of_le (slice 48 8 bytes);
}

abbrev pub check_start : List ℕ → Result Error Header
check_start bytes = do
  require (not (ltb (length bytes) header_size)) short_recording
  let header : Header = unpack_header bytes
  require (header.magic_word == magic) bad_magic
  require (header.version_word == version) bad_recording_version
  ok header

-- The records of the telemetry frames.
abbrev pub telemetry_of : List Frame → Result Error (List Telemetry)
telemetry_of [] = ok []
telemetry_of (f ∷ fs) =
    let rest = telemetry_of fs in
    if not (f.ftype == 1)
    then rest
    else (require (length f.payload == record_size) encoder_bug
        >> (rest >>= λ records. ok (unpack_record f.payload ∷ records)))

-- The decoded payloads of frames of one type.
abbrev pub typed_of : ℕ → List Frame → Result Error (List Fields)
typed_of expected [] = ok []
typed_of expected (f ∷ fs) =
    let rest = typed_of expected fs in
    require (f.ftype == expected) recovered_type
    >> (decode_payload f.ftype f.payload >>= λ fields. (rest >>= λ records. ok (fields ∷ records)))

abbrev pub with_records :
    {A : Type 0}
    → Header
    → Option (List Frame × Counters)
    → (List Frame → Result Error A)
    → Option (Result Error (Header × A × Counters))
with_records header none read = none
with_records header (some (frames, counters)) read =
    some (read frames >>= λ records. ok (header, records, counters))

abbrev pub check_types : ℕ → Header → Result Error Header
check_types expected header = do
  require (header.reserved == 0) nonzero_reserved
  require (is_some (file_type header.schema_hash)) unknown_schema
  require (elim (file_type header.schema_hash) [ none ↦ false | some t ↦ t == expected ])
      wrong_schema
  ok header

abbrev pub typed_header : ℕ → List ℕ → Result Error Header
typed_header expected bytes =
    require (expected == 1 || expected == 4 || expected == 6) unsupported_type
    >> (check_start bytes >>= check_types expected)

module _ (crc32c : List ℕ → ℕ) where
  abbrev pub read_after :
      {A : Type 0}
      → List ℕ
      → Result Error Header
      → (List Frame → Result Error A)
      → Option (Result Error (Header × A × Counters))
  read_after bytes (err e) read = some (err e)
  read_after bytes (ok header) read =
      with_records header (decode_stream crc32c (drop header_size bytes)) read

  -- read_recording of a file's bytes. Whether the schema is known is told with the header.
  unfoldable pub read_recording :
      List ℕ → Option (Result Error (Header × List Telemetry × Counters))
  read_recording bytes = read_after bytes (check_start bytes) telemetry_of

  abbrev pub schema_known : Header → Bool
  schema_known header = header.schema_hash == schema_of 1

  -- read_typed_recording of a file's bytes.
  unfoldable pub read_typed_recording :
      List ℕ → ℕ → Option (Result Error (Header × List Fields × Counters))
  read_typed_recording bytes expected_type =
      read_after bytes (typed_header expected_type bytes) (typed_of expected_type)
