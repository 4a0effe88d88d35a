-- ===== src/Wire/Payload.antt =====
-- `encode_payload` and `decode_payload` of ground/wire.py. A Python value is an integer or a float,
-- a float is its bit pattern, and a dict is a list of keys and values.
pub mod RoundTrip
pub mod Codec
use Prim.Native.Nat.{bit_and}
use Prim.Native.String.{String}
use text.Mathlib.Text.{◌==◌ as str_eq}
use tvc.Prelude.{
  ℕ, ◌+◌, ◌-◌, ◌^◌, Bool, true, false, not, ◌&&◌, ◌||◌, Option, none, some, List, [], ◌∷◌, ◌++◌,
  ltb, leb, ◌==◌, if◌then◌else◌, length, take, drop, replicate,
}
use tvc.Float64
use tvc.Prelude.Int.{ℤ, pos, negsuc, ◌+ℤ◌, ltb_ℤ}
use tvc.Prelude.Result.{Result, ok, err, ◌>>=◌, ◌>>◌, require}
use tvc.Wire.Errors.{
  Error, bad_payload_type, wrong_payload_length, invalid_control_counts, missing_key,
  not_an_integer, out_of_range,
}
use tvc.Wire.Bytes.{le_bytes, of_le, slice}

pub data Value : Type 0 where
  int : ℤ → Value
  float : ℕ → Value

pub data Kind : Type 0 where
  u8 u16 u32 u64 i64 f64 : Kind

-- _FIELD_WIDTHS
abbrev pub width : Kind → ℕ
width u8 = 1
width u16 = 2
width u32 = 4
width u64 = 8
width i64 = 8
width f64 = 8

pub record Field : Type 0 where
  pub name : String
  pub offset : ℕ
  pub kind : Kind

abbrev pub Fields : Type 0
Fields = List (String × Value)

abbrev pub lookup : String → Fields → Option Value
lookup k [] = none
lookup k ((j, v) ∷ m) = if str_eq j k then some v else lookup k m

-- fields[name]
abbrev pub get : Fields → String → Result Error Value
get fields name = elim (lookup name fields) [ none ↦ err missing_key | some v ↦ ok v ]

abbrev pub as_int : Value → Result Error ℤ
as_int (int n) = ok n
as_int (float b) = err not_an_integer

abbrev pub row : String → ℕ → Kind → Field
row name offset kind = record { name = name; offset = offset; kind = kind }

-- _PAYLOAD_FIELDS
unfoldable pub telemetry_fields : List Field
telemetry_fields =
    row "tick" 0 u64
    ∷ row "deadline_ns" 8 i64
    ∷ row "woke_ns" 16 i64
    ∷ row "done_ns" 24 i64
    ∷ row "theta" 32 f64
    ∷ row "cmd" 40 f64
    ∷ row "drops" 48 u64
    ∷ []

unfoldable pub command_fields : List Field
command_fields =
    row "cmd_seq" 0 u32 ∷ row "opcode" 4 u16 ∷ row "flags" 6 u16 ∷ row "effective_tick" 8 u64 ∷ []

unfoldable pub ack_fields : List Field
ack_fields =
    row "applied_tick" 0 u64
    ∷ row "cmd_seq" 8 u32
    ∷ row "status" 12 u16
    ∷ row "state" 14 u8
    ∷ row "reason" 15 u8
    ∷ []

unfoldable pub sensor_fields : List Field
sensor_fields =
    row "tick" 0 u64
    ∷ row "t_send_ns" 8 i64
    ∷ row "theta" 16 f64
    ∷ row "omega" 24 f64
    ∷ row "flags" 32 u32
    ∷ row "cmd_seq" 36 u32
    ∷ row "sim_reason" 40 u32
    ∷ []

unfoldable pub actuator_fields : List Field
actuator_fields =
    row "tick" 0 u64
    ∷ row "veh_tick" 8 u64
    ∷ row "t_sensor_send_ns" 16 i64
    ∷ row "t_veh_send_ns" 24 i64
    ∷ row "delta" 32 f64
    ∷ row "status" 40 u32
    ∷ row "staleness" 44 u32
    ∷ []

unfoldable pub control_fields : List Field
control_fields =
    row "tick" 0 u64
    ∷ row "deadline_ns" 8 i64
    ∷ row "woke_ns" 16 i64
    ∷ row "done_ns" 24 i64
    ∷ row "sensor_send_ns" 32 i64
    ∷ row "rx_ns" 40 i64
    ∷ row "tx_ns" 48 i64
    ∷ row "sensor_tick" 56 u64
    ∷ row "theta" 64 f64
    ∷ row "omega" 72 f64
    ∷ row "cmd" 80 f64
    ∷ row "i_state" 88 f64
    ∷ row "d_prev" 96 f64
    ∷ row "drops" 104 u64
    ∷ row "staleness" 112 u32
    ∷ row "ack_cmd_seq" 116 u32
    ∷ row "rx_count" 120 u8
    ∷ row "discarded_old" 121 u8
    ∷ row "discarded_superseded" 122 u8
    ∷ row "discarded_other" 123 u8
    ∷ row "state" 124 u8
    ∷ row "reason" 125 u8
    ∷ row "flags" 126 u8
    ∷ row "ack_status" 127 u8
    ∷ []

-- A type's table and PAYLOAD_SIZES entry.
unfoldable pub payload_fields : ℕ → Option (List Field × ℕ)
payload_fields t =
    if t == 1
    then some (telemetry_fields, 56)
    else if t == 2
    then some (command_fields, 16)
    else if t == 3
    then some (ack_fields, 16)
    else if t == 4
    then some (sensor_fields, 44)
    else if t == 5
    then some (actuator_fields, 48)
    else if t == 6
    then some (control_fields, 128)
    else none

-- _check_payload_counts. A float here raises at once; in the source its later `to_bytes` does.
unfoldable pub check_payload_counts : ℕ → Fields → Result Error Unit
check_payload_counts ftype fields =
    if ftype == 6
    then (do
      old ← get fields "discarded_old" >>= as_int
      superseded ← get fields "discarded_superseded" >>= as_int
      other ← get fields "discarded_other" >>= as_int
      rx_count ← get fields "rx_count" >>= as_int
      require (not (ltb_ℤ (pos 9) rx_count || ltb_ℤ rx_count (old +ℤ superseded +ℤ other)))
          invalid_control_counts)
    else ok tt

-- `value & mask` on a Python integer: the bits of -(n + 1) are those that n lacks.
abbrev pub mask_bits : ℕ → Value → Result Error Value
mask_bits m (int (pos n)) = ok (int (pos (bit_and n m)))
mask_bits m (int (negsuc n)) = ok (int (pos (m - bit_and n m)))
mask_bits m (float b) = err not_an_integer

unfoldable pub mask_flags : ℕ → String → Value → Result Error Value
mask_flags ftype name value =
    if str_eq name "flags" && (ftype == 2 || ftype == 4)
    then mask_bits (if ftype == 2 then 0x0001 else 0x0000FF07) value
    else ok value

-- struct.pack("<d", n) converts the integer, or raises OverflowError.
abbrev pack_converted : ℕ → Result Error (List ℕ)
pack_converted b = if Float64.is_finite b then ok (le_bytes 8 b) else err out_of_range

-- value.to_bytes(width, "little", signed=...) and struct.pack("<d", value)
unfoldable pub pack_value : Kind → Value → Result Error (List ℕ)
pack_value f64 (float b) = ok (le_bytes 8 b)
pack_value f64 (int (pos n)) = pack_converted (Float64.of_int 0 n)
pack_value f64 (int (negsuc n)) = pack_converted (Float64.of_int 1 (n + 1))
pack_value i64 (int (pos n)) = if ltb n (2 ^ 63) then ok (le_bytes 8 n) else err out_of_range
pack_value i64 (int (negsuc n)) =
    if ltb n (2 ^ 63) then ok (le_bytes 8 (2 ^ 64 - 1 - n)) else err out_of_range
pack_value kind (int (pos n)) =
    if ltb n (256 ^ width kind) then ok (le_bytes (width kind) n) else err out_of_range
pack_value kind (int (negsuc n)) = err out_of_range
pack_value kind (float b) = err not_an_integer

unfoldable pub unpack_value : Kind → List ℕ → Value
unpack_value f64 bytes = float (of_le bytes)
unpack_value i64 bytes =
    if ltb (of_le bytes) (2 ^ 63)
    then int (pos (of_le bytes))
    else int (negsuc (2 ^ 64 - 1 - of_le bytes))
unpack_value kind bytes = int (pos (of_le bytes))

-- payload[offset:offset + width] = scalar
abbrev pub splice : ℕ → ℕ → List ℕ → List ℕ → List ℕ
splice offset w scalar payload = take offset payload ++ (scalar ++ drop (offset + w) payload)

unfoldable pub encode_fields : ℕ → Fields → List Field → List ℕ → Result Error (List ℕ)
encode_fields ftype fields [] payload = ok payload
encode_fields ftype fields (f ∷ fs) payload = do
  value ← get fields f.name
  masked ← mask_flags ftype f.name value
  scalar ← pack_value f.kind masked
  encode_fields ftype fields fs (splice f.offset (width f.kind) scalar payload)

unfoldable pub decode_fields : List Field → List ℕ → Fields
decode_fields [] bytes = []
decode_fields (f ∷ fs) bytes =
    (f.name, unpack_value f.kind (slice f.offset (width f.kind) bytes)) ∷ decode_fields fs bytes

-- `if ftype not in _PAYLOAD_FIELDS: raise ValueError`
abbrev pub known_layout : Option (List Field × ℕ) → Result Error (List Field × ℕ)
known_layout none = err bad_payload_type
known_layout (some l) = ok l

unfoldable pub encode_payload : ℕ → Fields → Result Error (List ℕ)
encode_payload ftype fields = do
  (table, size) ← known_layout (payload_fields ftype)
  check_payload_counts ftype fields
  encode_fields ftype fields table (replicate size 0)

unfoldable pub decode_payload : ℕ → List ℕ → Result Error Fields
decode_payload ftype bytes = do
  (table, size) ← known_layout (payload_fields ftype)
  require (length bytes == size) wrong_payload_length
  let fields = decode_fields table bytes
  check_payload_counts ftype fields
  ok fields
