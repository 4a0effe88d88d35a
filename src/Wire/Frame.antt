-- ===== src/Wire/Frame.antt =====
-- The frame head, `encode_frame` and `decode_datagram` of ground/wire.py. `crc32c` stands for the
-- third-party checksum.
pub mod RoundTrip
use tvc.Prelude.{
  ℕ, ◌+◌, ◌-◌, ◌*◌, ◌/◌, ◌%◌, ◌^◌, Bool, true, false, not, ◌&&◌, ◌||◌, Option, none, some, List, [],
  ◌∷◌, ◌++◌, ltb, leb, ◌==◌, if◌then◌else◌, length, take, drop,
}
use tvc.Prelude.Result.{Result, ok, err, ◌>>=◌, ◌>>◌, require}
use tvc.Wire.Errors.{
  Error, bad_frame_type, payload_too_long, truncated, bad_sync, bad_version, bad_type, bad_length,
  bad_crc, struct_error,
}
use tvc.Wire.Bytes.{le_bytes, of_le, slice}

abbrev pub sync : ℕ
sync = 0xEB90

abbrev pub version : ℕ
version = 1

abbrev pub max_payload : ℕ
max_payload = 498

-- PAYLOAD_SIZES, with `none` for a type that it lacks.
unfoldable pub payload_size : ℕ → Option ℕ
payload_size t =
    if t == 1
    then some 56
    else if t == 2
    then some 16
    else if t == 3
    then some 16
    else if t == 4
    then some 44
    else if t == 5
    then some 48
    else if t == 6
    then some 128
    else none

-- `ftype in TYPES`
abbrev pub known_type : ℕ → Bool
known_type t = leb 1 t && leb t 6

-- The fields of FRAME_HEAD after the version, sync and version first in `Head`.
pub record Head : Type 0 where
  pub sync_word : ℕ
  pub version_byte : ℕ
  pub ftype : ℕ
  pub payload_length : ℕ
  pub seq : ℕ

abbrev pub head_size : ℕ
head_size = 10

abbrev pub crc_size : ℕ
crc_size = 4

-- FRAME_HEAD.pack
unfoldable pub pack_head : ℕ → ℕ → ℕ → List ℕ
pack_head ftype payload_length seq =
    le_bytes 2 sync
    ++ (le_bytes 1 version ++ (le_bytes 1 ftype ++ (le_bytes 2 payload_length ++ le_bytes 4 seq)))

-- What FRAME_HEAD.unpack_from reads from ten bytes or more.
unfoldable pub unpack_head : List ℕ → Head
unpack_head bytes = record {
  sync_word = of_le (slice 0 2 bytes);
  version_byte = of_le (slice 2 1 bytes);
  ftype = of_le (slice 3 1 bytes);
  payload_length = of_le (slice 4 2 bytes);
  seq = of_le (slice 6 4 bytes);
}

-- FRAME_HEAD.unpack_from(data)
abbrev pub head_from : List ℕ → Result Error Head
head_from bytes = require (leb head_size (length bytes)) struct_error >> ok (unpack_head bytes)

-- CRC.unpack_from(data, len(data) - CRC.size)
abbrev pub crc_from : List ℕ → Result Error ℕ
crc_from bytes =
    require (leb crc_size (length bytes)) struct_error
    >> ok (of_le (drop (length bytes - crc_size) bytes))

abbrev pub contains : List ℕ → ℕ → Bool
contains [] t = false
contains (x ∷ xs) t = x == t || contains xs t

abbrev pub size_matches : Option ℕ → ℕ → Bool
size_matches none n = false
size_matches (some size) n = size == n

abbrev pub has_size : Option ℕ → Bool
has_size none = false
has_size (some size) = true

module _ (crc32c : List ℕ → ℕ) where
  -- The bytes of a frame, its arguments checked by the caller.
  unfoldable pub frame_bytes : ℕ → ℕ → List ℕ → List ℕ
  frame_bytes ftype seq payload =
      let head : List ℕ = pack_head ftype (length payload) (seq % 2 ^ 32) in
      head ++ (payload ++ le_bytes 4 (crc32c (drop 2 head ++ payload)))

  unfoldable pub encode_frame : ℕ → ℕ → List ℕ → Result Error (List ℕ)
  encode_frame ftype seq payload = do
    require (known_type ftype) bad_frame_type
    require (leb (length payload) max_payload) payload_too_long
    ok (frame_bytes ftype seq payload)

  unfoldable pub decode_datagram : List ℕ → List ℕ → Result Error (ℕ × ℕ × List ℕ)
  decode_datagram bytes accepted_types = do
    require (leb (head_size + crc_size) (length bytes)) truncated
    h ← head_from bytes
    require (h.sync_word == sync) bad_sync
    require (h.version_byte == version) bad_version
    require (has_size (payload_size h.ftype) && contains accepted_types h.ftype) bad_type
    require
        (size_matches (payload_size h.ftype) h.payload_length
          && (length bytes == head_size + h.payload_length + crc_size))
        bad_length
    crc ← crc_from bytes
    require (crc == crc32c (slice 2 (length bytes - crc_size - 2) bytes)) bad_crc
    ok (h.ftype, h.seq, slice head_size (length bytes - crc_size - head_size) bytes)
