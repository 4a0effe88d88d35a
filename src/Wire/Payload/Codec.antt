-- ===== src/Wire/Payload/Codec.antt =====
-- `encode_payload` and `decode_payload` on whole payloads, over the tables of ground/wire.py.
use tvc.Prelude.{
  ℕ, ◌≡◌, sym, ◌∙◌, Bool, true, false, Option, none, some, List, ◌==◌, if◌then◌else◌, length,
  length-replicate, replicate, arith, Bool-cases, inl, inr, ==_iff,
}
use mathlib.Core.Path.{subst}
use tvc.Prelude.Result.{ok, ◌>>=◌, >>=-eq-ok}
use tvc.Wire.Payload.{
  Field, Fields, mask_flags, check_payload_counts, payload_fields, telemetry_fields, command_fields,
  ack_fields, sensor_fields, actuator_fields, control_fields, encode_fields, decode_fields,
  encode_payload, decode_payload,
}
use tvc.Wire.Payload.RoundTrip.{Tiles, sent, HasNative, encode_fields-inv}

-- A table that tiles its size, if there is one.
abbrev IsLayout : Option (List Field × ℕ) → Type 0
IsLayout none = Unit {0}
IsLayout (some (table, size)) = Tiles 0 table size

if-IsLayout :
    (b : Bool) (x y : Option (List Field × ℕ))
    → IsLayout x
    → IsLayout y
    → IsLayout (if b then x else y)
if-IsLayout true x y hx hy = hx
if-IsLayout false x y hx hy = hy

-- In every table the fields follow one another with no gap or overlap and fill the payload.
pub payload_fields-IsLayout : (t : ℕ) → IsLayout (payload_fields t)
unfolding payload_fields telemetry_fields command_fields ack_fields sensor_fields actuator_fields
    control_fields
payload_fields-IsLayout t = if-IsLayout (t == 1) _ _ (omega arith) (
    if-IsLayout (t == 2) _ _ (omega arith) (
      if-IsLayout (t == 3) _ _ (omega arith) (
        if-IsLayout (t == 4) _ _ (omega arith)
          (if-IsLayout (t == 5) _ _ (omega arith) (if-IsLayout (t == 6) _ _ (omega arith) tt)))))

counts_control :
    (fields : Fields)
    → check_payload_counts 6 fields ≡ ok tt
    → check_payload_counts 6 (sent 6 fields control_fields) ≡ ok tt
unfolding check_payload_counts control_fields mask_flags
counts_control fields h = ground arith

counts_kept :
    (t : ℕ) (fields : Fields) (table : List Field) (size : ℕ)
    → payload_fields t ≡ some (table, size)
    → check_payload_counts t fields ≡ ok tt
    → check_payload_counts t (sent t fields table) ≡ ok tt
counts_kept t fields table size e h = elim (Bool-cases (t == 6)) [
  | inl six ↦ allowed ((==_iff t 6).0 six)
  | inr other ↦ unfold check_payload_counts in rw other
]
  where
    allowed : t ≡ 6 → check_payload_counts t (sent t fields table) ≡ ok tt
    allowed six =
        let at6 : payload_fields 6 ≡ some (table, size) = rw six at e in
        let same : table ≡ control_fields = unfold payload_fields in ground arith in
        rw (six, same) (counts_control fields (rw six at h))

encode_payload-inv :
    (t : ℕ) (fields : Fields) (table : List Field) (size : ℕ) (bytes : List ℕ)
    → payload_fields t ≡ some (table, size)
    → encode_payload t fields ≡ ok bytes
    → (check_payload_counts t fields ≡ ok tt)
      × (encode_fields t fields table (replicate size 0) ≡ ok bytes)
unfolding encode_payload
encode_payload-inv t fields table size bytes e h =
    let h' : (check_payload_counts t fields >>= λ _.
    encode_fields t fields table (replicate size 0))
        ≡ ok bytes =
      rw e at h in
    let (u, c, w) = >>=-eq-ok (check_payload_counts t fields) _ h' in (c, w)

decode_payload-of :
    (t : ℕ) (table : List Field) (size : ℕ) (bytes : List ℕ) (fields : Fields)
    → payload_fields t ≡ some (table, size)
    → length bytes ≡ size
    → decode_fields table bytes ≡ fields
    → check_payload_counts t fields ≡ ok tt
    → decode_payload t bytes ≡ ok fields
unfolding decode_payload
decode_payload-of t table size bytes fields e l d c =
    let equal : (size == size) ≡ true = ground arith in rw (e, l, d) (rw (equal, c))

-- A payload whose fields have values of their kinds, if it can be encoded, decodes to those values, the
-- flags of commands and sensor samples masked, in the table's order.
pub decode_payload-encode_payload :
    (t : ℕ) (fields : Fields) (table : List Field) (size : ℕ) (bytes : List ℕ)
    → payload_fields t ≡ some (table, size)
    → HasNative t fields table
    → encode_payload t fields ≡ ok bytes
    → (length bytes ≡ size) × (decode_payload t bytes ≡ ok (sent t fields table))
decode_payload-encode_payload t fields table size bytes e n h =
    let tiles : Tiles 0 table size = subst IsLayout e (payload_fields-IsLayout t) in
    let (counts, written) = encode_payload-inv t fields table size bytes e h in
    let blank = length-replicate size 0 in
    let (long, _, back) =
      encode_fields-inv t fields table 0 (replicate size 0) bytes
        (subst (Tiles 0 table) (sym blank) tiles) n written in
    let full : length bytes ≡ size = long ∙ blank in
    (
      full,
      decode_payload-of t table size bytes (sent t fields table) e full back
          (counts_kept t fields table size e counts),
    )
