-- ===== src/Wire/Payload/RoundTrip.antt =====
-- `decode_payload` reads back the fields that `encode_payload` wrote (ground/wire.py).
use Prim.Native.String.{String}
use tvc.Prelude.{
  ℕ, zero, suc, ◌+◌, ◌-◌, ◌^◌, ◌≤◌, ◌<◌, ◌≡◌, refl, sym, ap, ◌∙◌, Option, none, some, List, [], ◌∷◌,
  ◌++◌, length, take, drop, arith, length-append, length-take, length-drop, take_prefix,
  drop_prefix, take_nil,
}
use Prim.Native.Nat.add
use native.Mathlib.Nat.{zero-add}
use mathlib.Core.Path.{subst}
use mathlib.Core.List.{append_assoc}
use tvc.Prelude.Int.{pos, negsuc}
use tvc.Prelude.Result.{ok, err, >>=-eq-ok}
use tvc.Wire.Bytes.{slice, length-le_bytes, of_le-le_bytes}
use tvc.Wire.Payload.{
  Value, int, float, Kind, u8, u16, u32, u64, i64, f64, width, Field, Fields, lookup, get,
  mask_flags, pack_value, unpack_value, splice, encode_fields, decode_fields,
}

-- A value that its field can hold without conversion.
abbrev pub IsNative : Kind → Value → Type 0
IsNative f64 (float b) = b < 2 ^ 64
IsNative f64 (int n) = ⊥
IsNative kind v = Unit {0}

-- A packed value has the field's width and is read back.
pack_value-inv :
    (k : Kind) (v : Value) (bytes : List ℕ)
    → IsNative k v
    → pack_value k v ≡ ok bytes
    → (length bytes ≡ width k) × (unpack_value k bytes ≡ v)
unfolding pack_value unpack_value
pack_value-inv f64 (float b) bytes h e = ground (arith, length-le_bytes 8 b, of_le-le_bytes 8 b h)
pack_value-inv f64 (int n) bytes h e = absurd h
pack_value-inv i64 (int (pos n)) bytes h e = ground (arith, length-le_bytes 8 n, of_le-le_bytes 8 n)
pack_value-inv i64 (int (negsuc n)) bytes h e =
    ground
      (arith, length-le_bytes 8 (2 ^ 64 - 1 - n), of_le-le_bytes 8 (2 ^ 64 - 1 - n) (omega arith))
pack_value-inv i64 (float b) bytes h e = cc
pack_value-inv u8 (int (pos n)) bytes h e = ground (arith, length-le_bytes 1 n, of_le-le_bytes 1 n)
pack_value-inv u8 _ bytes h e = ground arith
pack_value-inv u16 (int (pos n)) bytes h e = ground (arith, length-le_bytes 2 n, of_le-le_bytes 2 n)
pack_value-inv u16 _ bytes h e = ground arith
pack_value-inv u32 (int (pos n)) bytes h e = ground (arith, length-le_bytes 4 n, of_le-le_bytes 4 n)
pack_value-inv u32 _ bytes h e = ground arith
pack_value-inv u64 (int (pos n)) bytes h e = ground (arith, length-le_bytes 8 n, of_le-le_bytes 8 n)
pack_value-inv u64 _ bytes h e = ground arith

-- The fields tile `size` bytes from offset `o` on.
abbrev pub Tiles : ℕ → List Field → ℕ → Type 0
Tiles o [] size = o ≡ size
Tiles o (f ∷ fs) size = (f.offset ≡ o) × Tiles (o + width f.kind) fs size

Tiles-le : (o : ℕ) (fs : List Field) (size : ℕ) → Tiles o fs size → o ≤ size
Tiles-le o [] size h = omega arith
Tiles-le o (f ∷ fs) size h = omega (arith, Tiles-le (o + width f.kind) fs size h.1)

-- What decoding returns for the fields of a table: each with its value, masked as it was sent.
abbrev masked : ℕ → String → Option Value → Value
masked ftype name none = int (pos 0)
masked ftype name (some v) = elim (mask_flags ftype name v) [ ok m ↦ m | err e ↦ int (pos 0) ]

abbrev pub sent : ℕ → Fields → List Field → Fields
sent ftype fields [] = []
sent ftype fields (f ∷ fs) =
    (f.name, masked ftype f.name (lookup f.name fields)) ∷ sent ftype fields fs

-- Every field of the table has a value of its kind.
abbrev pub HasNative : ℕ → Fields → List Field → Type 0
HasNative ftype fields [] = Unit {0}
HasNative ftype fields (f ∷ fs) =
    IsNative f.kind (masked ftype f.name (lookup f.name fields)) × HasNative ftype fields fs

take_of_length : (n : ℕ) (xs ys : List ℕ) → length xs ≡ n → take n (xs ++ ys) ≡ xs
take_of_length n xs ys h = rw (← h) (take_prefix xs ys)

drop_of_length : (n : ℕ) (xs ys : List ℕ) → length xs ≡ n → drop n (xs ++ ys) ≡ ys
drop_of_length n xs ys h = rw (← h) (drop_prefix xs ys)

splice_facts :
    (o w : ℕ) (scalar payload : List ℕ)
    → length scalar ≡ w
    → o + w ≤ length payload
    → (length (splice o w scalar payload) ≡ length payload)
      × (take (o + w) (splice o w scalar payload) ≡ take o payload ++ scalar)
splice_facts o w scalar payload l h =
    let tail : List ℕ = drop (o + w) payload in
    let known = length-take o payload in
    let front : length (take o payload ++ scalar) ≡ o + w =
      omega (arith, length-append (take o payload) scalar, known) in
    (
      omega (
        arith,
        length-append (take o payload) (scalar ++ tail),
        length-append scalar tail,
        known,
        length-drop (o + w) payload,
      ),
      ap (take (o + w)) (sym (append_assoc (take o payload) scalar tail))
          ∙ take_of_length (o + w) (take o payload ++ scalar) tail front,
    )

slice-take : (o w : ℕ) (bytes : List ℕ) → slice o w bytes ≡ drop o (take (o + w) bytes)
slice-take zero w bytes = rw zero-add
slice-take (suc o) w [] = rw add.suc (sym (take_nil w))
slice-take (suc o) w (b ∷ bs) = rw add.suc (slice-take o w bs)

take-take : (o w : ℕ) (bytes : List ℕ) → take o (take (o + w) bytes) ≡ take o bytes
take-take zero w bytes = refl
take-take (suc o) w [] = rw add.suc
take-take (suc o) w (b ∷ bs) = rw (add.suc, take-take o w bs)

get-ok :
    (fields : Fields) (name : String) (v : Value) (o : Option Value)
    → lookup name fields ≡ o
    → get fields name ≡ ok v
    → lookup name fields ≡ some v
get-ok fields name v o h e = ground arith

masked-eq :
    (ftype : ℕ) (name : String) (o : Option Value) (v m : Value)
    → o ≡ some v
    → mask_flags ftype name v ≡ ok m
    → masked ftype name o ≡ m
masked-eq ftype name o v m e h = ground arith

-- A field that is written: its bytes, and the rest of the loop on the payload that holds them.
encode_field-inv :
    (ftype : ℕ) (fields : Fields) (f : Field) (fs : List Field) (payload bytes : List ℕ)
    → IsNative f.kind (masked ftype f.name (lookup f.name fields))
    → encode_fields ftype fields (f ∷ fs) payload ≡ ok bytes
    → (scalar : List ℕ) × (length scalar ≡ width f.kind)
      × (unpack_value f.kind scalar ≡ masked ftype f.name (lookup f.name fields))
      × (encode_fields ftype fields fs (splice f.offset (width f.kind) scalar payload) ≡ ok bytes)
unfolding encode_fields
encode_field-inv ftype fields f fs payload bytes n e =
    let (value, found, e1) = >>=-eq-ok (get fields f.name) _ e in
    let (m, mask, e2) = >>=-eq-ok (mask_flags ftype f.name value) _ e1 in
    let (scalar, packed, e3) = >>=-eq-ok (pack_value f.kind m) _ e2 in
    let same =
      masked-eq ftype f.name (lookup f.name fields) value m
        (get-ok fields f.name value (lookup f.name fields) refl found) mask in
    let (l, back) = pack_value-inv f.kind m scalar (subst (IsNative f.kind) same n) packed in
    (scalar, l, back ∙ sym same, e3)

-- A slice of the bytes that the rest of the loop leaves alone.
kept_slice :
    (o w : ℕ) (scalar payload bytes : List ℕ)
    → length scalar ≡ w
    → o + w ≤ length payload
    → take (o + w) bytes ≡ take (o + w) (splice o w scalar payload)
    → (slice o w bytes ≡ scalar) × (take o bytes ≡ take o payload)
kept_slice o w scalar payload bytes l room kept =
    let (size, front) = splice_facts o w scalar payload l room in
    let known : length (take o payload) ≡ o = omega (arith, length-take o payload) in
    (
      slice-take o w bytes
          ∙ ap (drop o) (kept ∙ front)
          ∙ drop_of_length o (take o payload) scalar known,
      sym (take-take o w bytes)
          ∙ ap (take o) (kept ∙ front)
          ∙ take_of_length o (take o payload) scalar known,
    )

decoded :
    (ftype : ℕ) (fields : Fields) (f : Field) (fs : List Field) (bytes scalar : List ℕ)
    → slice f.offset (width f.kind) bytes ≡ scalar
    → unpack_value f.kind scalar ≡ masked ftype f.name (lookup f.name fields)
    → decode_fields fs bytes ≡ sent ftype fields fs
    → decode_fields (f ∷ fs) bytes ≡ sent ftype fields (f ∷ fs)
unfolding decode_fields
decoded ftype fields f fs bytes scalar here back rest = rw (here, back, rest)

pub encode_fields-inv :
    (ftype : ℕ) (fields : Fields) (fs : List Field) (o : ℕ) (payload bytes : List ℕ)
    → Tiles o fs (length payload)
    → HasNative ftype fields fs
    → encode_fields ftype fields fs payload ≡ ok bytes
    → (length bytes ≡ length payload)
      × (take o bytes ≡ take o payload)
      × (decode_fields fs bytes ≡ sent ftype fields fs)
encode_fields-inv ftype fields [] o payload bytes h n e =
    unfold encode_fields decode_fields in ground arith
encode_fields-inv ftype fields (f ∷ fs) o payload bytes h n e =
    let w : ℕ = width f.kind in
    let (scalar, l, back, e3) = encode_field-inv ftype fields f fs payload bytes n.0 e in
    let p' : List ℕ = splice f.offset w scalar payload in
    let at : p' ≡ splice o w scalar payload = ap (λ (k : ℕ). splice k w scalar payload) h.0 in
    let room : o + w ≤ length payload = Tiles-le (o + w) fs (length payload) h.1 in
    let (size, front) = splice_facts o w scalar payload l room in
    let same : length p' ≡ length payload = ap length at ∙ size in
    let (long, kept, rest) =
      encode_fields-inv ftype fields fs (o + w) p' bytes (subst (Tiles (o + w) fs) (sym same) h.1)
        n.1 e3 in
    let (here, before) = kept_slice o w scalar payload bytes l room (kept ∙ ap (take (o + w)) at) in
    (
      long ∙ same,
      before,
      decoded ftype fields f fs bytes scalar (ap (λ (k : ℕ). slice k w bytes) h.0 ∙ here) back rest,
    )
