-- ===== src/Wire/Recording/RoundTrip.antt =====
-- What is written to a recording is read back (ground/wire.py, read_typed_recording).
use tvc.Prelude.{
  ℕ, ◌+◌, ◌^◌, ◌<◌, ◌≤◌, ◌≡◌, refl, ◌⊎◌, inl, inr, true, false, ltb, some, List, [], ◌∷◌, ◌++◌,
  length, drop, arith, All, map, ◌==◌, ◌||◌,
}
use tvc.Prelude.Int.{pos}
use tvc.Prelude.Result.{Result, ok, ◌>>=◌, >>=-eq-ok}
use tvc.Wire.Errors.{Error}
use tvc.Wire.Bytes.{le_bytes, of_le}
use tvc.Wire.Frame.{version, known_type, max_payload}
use tvc.Wire.Payload.{Field, Fields, payload_fields, encode_payload}
use tvc.Wire.Payload.RoundTrip.{HasNative, sent}
use tvc.Wire.Payload.Codec.{decode_payload-encode_payload}
use tvc.Wire.Stream.{Counters}
use tvc.Wire.Stream.RoundTrip.{IsSendable, numbered, written, decode_stream-written}
use tvc.Wire.Recording.{
  Header, magic, schema_of, file_type, pack_header, unpack_header, header_size, typed_header,
  typed_of, read_typed_recording,
}

-- The header of a file of a type.
abbrev pub header_of : ℕ → ℕ → ℕ → Header
header_of ftype monotonic epoch = record {
  magic_word = magic;
  version_word = version;
  reserved = 0;
  schema_hash = schema_of ftype;
  start_monotonic_ns = pos monotonic;
  start_epoch_ns = pos epoch;
}

-- The payloads of the rows, each with the type.
abbrev pub messages : ℕ → List Fields → Result Error (List (ℕ × List ℕ))
messages ftype [] = ok []
messages ftype (fields ∷ rows) = encode_payload ftype fields >>= λ payload.
    (messages ftype rows >>= λ rest. ok ((ftype, payload) ∷ rest))

abbrev IsFileType : ℕ → Type 0
IsFileType t = (t ≡ 1) ⊎ (t ≡ 4) ⊎ (t ≡ 6)

unpack_header-pack_header :
    (ftype monotonic epoch : ℕ) (rest : List ℕ)
    → monotonic < 2 ^ 63
    → epoch < 2 ^ 63
    → unpack_header (pack_header (schema_of ftype) monotonic epoch ++ rest)
      ≡ header_of ftype monotonic epoch
unfolding unpack_header pack_header le_bytes of_le
unpack_header-pack_header ftype monotonic epoch rest hm he = ground arith

drop_header :
    (hash monotonic epoch : ℕ) (rest : List ℕ)
    → (drop header_size (pack_header hash monotonic epoch ++ rest) ≡ rest)
      × (header_size ≤ length (pack_header hash monotonic epoch ++ rest))
unfolding pack_header le_bytes
drop_header hash monotonic epoch rest = (refl, omega arith)

file_type-schema_of :
    (t : ℕ)
    → IsFileType t
    → ((t == 1 || t == 4 || t == 6) ≡ true)
      × (file_type (schema_of t) ≡ some t)
      × (known_type t ≡ true)
file_type-schema_of t h = elim h [
  | inl one ↦ rw one (refl, refl, refl)
  | inr other ↦ elim other [
    | inl four ↦ rw four (refl, refl, refl)
    | inr six ↦ rw six (refl, refl, refl)
  ]
]

typed_header-pack_header :
    (ftype monotonic epoch : ℕ) (rest : List ℕ)
    → IsFileType ftype
    → monotonic < 2 ^ 63
    → epoch < 2 ^ 63
    → typed_header ftype (pack_header (schema_of ftype) monotonic epoch ++ rest)
      ≡ ok (header_of ftype monotonic epoch)
typed_header-pack_header ftype monotonic epoch rest h hm he =
    let bytes : List ℕ = pack_header (schema_of ftype) monotonic epoch ++ rest in
    let size = (drop_header (schema_of ftype) monotonic epoch rest).1 in
    let long : ltb (length bytes) header_size ≡ false = ground arith in
    let read = unpack_header-pack_header ftype monotonic epoch rest hm he in
    let (allowed, typed, _) = file_type-schema_of ftype h in
    let equal : (ftype == ftype) ≡ true = ground arith in
    rw (allowed, long, read, typed, equal) refl

-- The frames of encoded rows are decoded to the rows.
typed_of-numbered :
    (ftype n : ℕ) (table : List Field) (size : ℕ) (rows : List Fields) (ms : List (ℕ × List ℕ))
    → payload_fields ftype ≡ some (table, size)
    → All (λ fields. HasNative ftype fields table) rows
    → messages ftype rows ≡ ok ms
    → typed_of ftype (numbered n ms) ≡ ok (map (λ fields. sent ftype fields table) rows)
typed_of-numbered ftype n table size [] ms e native h = ground arith
typed_of-numbered ftype n table size (fields ∷ rows) ms e native h =
    let (payload, encoded, h1) = >>=-eq-ok (encode_payload ftype fields) _ h in
    let (rest, more, h2) = >>=-eq-ok (messages ftype rows) _ h1 in
    let back = typed_of-numbered ftype (n + 1) table size rows rest e native.1 more in
    let decoded =
      (decode_payload-encode_payload ftype fields table size payload e native.0 encoded).1 in
    let same : ms ≡ (ftype, payload) ∷ rest = ground arith in
    let equal : (ftype == ftype) ≡ true = ground arith in rw (same, equal, decoded, back) refl

messages-IsSendable :
    (ftype : ℕ) (table : List Field) (size : ℕ) (rows : List Fields) (ms : List (ℕ × List ℕ))
    → payload_fields ftype ≡ some (table, size)
    → size ≤ max_payload
    → known_type ftype ≡ true
    → All (λ fields. HasNative ftype fields table) rows
    → messages ftype rows ≡ ok ms
    → All IsSendable ms
messages-IsSendable ftype table size [] ms e l k native h = ground arith
messages-IsSendable ftype table size (fields ∷ rows) ms e l k native h =
    let (payload, encoded, h1) = >>=-eq-ok (encode_payload ftype fields) _ h in
    let (rest, more, h2) = >>=-eq-ok (messages ftype rows) _ h1 in
    let full =
      (decode_payload-encode_payload ftype fields table size payload e native.0 encoded).0 in
    let same : ms ≡ (ftype, payload) ∷ rest = ground arith in
    rw same (
      (k, omega (arith, l, full)),
      messages-IsSendable ftype table size rows rest e l k native.1 more,
    )

payload_fields-le :
    (t : ℕ) (table : List Field) (size : ℕ)
    → payload_fields t ≡ some (table, size)
    → size ≤ max_payload
unfolding payload_fields
payload_fields-le t table size e = ground arith

-- The counters of a decoder that meets `n` whole frames and nothing else.
abbrev pub clean : ℕ → Counters
clean n = record {
  frames_ok = n;
  crc_errors = 0;
  version_mismatch = 0;
  resyncs = 0;
  seq_discontinuities = 0;
  lost = 0;
  skipped_bytes = 0;
}

module _ (crc32c : List ℕ → ℕ) (crc_32 : (bytes : List ℕ) → crc32c bytes < 2 ^ 32) where
  -- A recording of one of the three types with files, whose start times are less than 2^63 and whose
  -- rows have values of their kinds and can be encoded, numbered in order from any number on, is read
  -- back whole: the header, the rows with the flags of sensor samples masked, and clean counters.
  pub read_typed_recording-written :
      (ftype monotonic epoch n : ℕ) (table : List Field) (size : ℕ) (rows : List Fields)
      (ms : List (ℕ × List ℕ))
      → (ftype ≡ 1) ⊎ (ftype ≡ 4) ⊎ (ftype ≡ 6)
      → monotonic < 2 ^ 63
      → epoch < 2 ^ 63
      → payload_fields ftype ≡ some (table, size)
      → All (λ fields. HasNative ftype fields table) rows
      → messages ftype rows ≡ ok ms
      → read_typed_recording crc32c
          (pack_header (schema_of ftype) monotonic epoch ++ written crc32c n ms)
          ftype
        ≡ some (
            ok (
              header_of ftype monotonic epoch,
              map (λ fields. sent ftype fields table) rows,
              clean (length ms),
            ))
  unfolding read_typed_recording
  read_typed_recording-written ftype monotonic epoch n table size rows ms t hm he e native h =
      let file = written crc32c n ms in
      let (_, _, known) = file_type-schema_of ftype t in
      let header = typed_header-pack_header ftype monotonic epoch file t hm he in
      let body = (drop_header (schema_of ftype) monotonic epoch file).0 in
      let small : size ≤ max_payload = payload_fields-le ftype table size e in
      let frames =
        decode_stream-written crc32c crc_32 n ms
          (messages-IsSendable ftype table size rows ms e small known native h) in
      rw (header, body, frames, typed_of-numbered ftype n table size rows ms e native h) refl
