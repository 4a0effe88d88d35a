-- ===== src/Wire/Raises.antt =====
-- Which exceptions the decoders of ground/wire.py can raise.
use tvc.Prelude.{
  ◌&&◌, ◌+◌, ℕ, ◌≡◌, refl, Bool, true, false, List, Bool-cases, inl, inr, leb, length, arith, drop,
  ◌-◌, ◌==◌,
}
use tvc.Prelude.Result.{Result, ok, err, ◌>>=◌, ◌>>◌, require}
use tvc.Wire.Errors.{
  Error, missing_key, not_an_integer, not_a_float, out_of_range, struct_error, bad_sync,
  bad_version, bad_type, bad_length, bad_crc,
}
use tvc.Wire.Bytes.{of_le, slice}
use tvc.Wire.Frame.{
  decode_datagram, Head, unpack_head, sync, version, has_size, payload_size, contains, size_matches,
}

-- Not a KeyError, a TypeError, an OverflowError or a struct.error.
abbrev pub IsValueError : Error → Type 0
IsValueError missing_key = ⊥
IsValueError not_an_integer = ⊥
IsValueError not_a_float = ⊥
IsValueError out_of_range = ⊥
IsValueError struct_error = ⊥
IsValueError _ = Unit {0}

abbrev pub RaisesValueErrors : {A : Type 0} → Result Error A → Type 0
RaisesValueErrors (err e) = IsValueError e
RaisesValueErrors (ok a) = Unit {0}

pub bind-RaisesValueErrors :
    {A B : Type 0} (m : Result Error A) (f : A → Result Error B)
    → RaisesValueErrors m
    → ((a : A) → m ≡ ok a → RaisesValueErrors (f a))
    → RaisesValueErrors (m >>= f)
bind-RaisesValueErrors (err e) f h k = h
bind-RaisesValueErrors (ok a) f h k = k a refl

pub require-RaisesValueErrors :
    {B : Type 0} (b : Bool) (e : Error) (rest : Result Error B)
    → IsValueError e
    → RaisesValueErrors rest
    → RaisesValueErrors (require b e >> rest)
require-RaisesValueErrors false e rest h k = h
require-RaisesValueErrors true e rest h k = k

module _ (crc32c : List ℕ → ℕ) where
  pub decode_datagram-RaisesValueErrors :
      (bytes types : List ℕ) → RaisesValueErrors (decode_datagram crc32c bytes types)
  unfolding decode_datagram
  decode_datagram-RaisesValueErrors bytes types = elim (Bool-cases (leb 14 (length bytes))) [
    | inl long ↦
        let head : leb 10 (length bytes) ≡ true = ground arith in
        let foot : leb 4 (length bytes) ≡ true = ground arith in
        let h : Head = unpack_head bytes in
        let matches : ℕ → Bool = λ crc. crc == crc32c (slice 2 (length bytes - 4 - 2) bytes) in
        let read : Result Error (ℕ × ℕ × List ℕ) = ok (
          (unpack_head bytes).ftype,
          (unpack_head bytes).seq,
          slice 10 (length bytes - 4 - 10) bytes,
        ) in
        let crc_checked : RaisesValueErrors (
            (require true struct_error >> ok (of_le (drop (length bytes - 4) bytes)))
            >>= (λ crc. require (matches crc) bad_crc >> read)) =
          require-RaisesValueErrors (matches (of_le (drop (length bytes - 4) bytes))) bad_crc read
            tt tt in
        rw (long, head, foot)
          (require-RaisesValueErrors (h.sync_word == sync) bad_sync _ tt (
            require-RaisesValueErrors (h.version_byte == version) bad_version _ tt (
              require-RaisesValueErrors (has_size (payload_size h.ftype) && contains types h.ftype)
                bad_type _ tt
                (require-RaisesValueErrors
                  (size_matches (payload_size h.ftype) h.payload_length
                    && (length bytes == 10 + h.payload_length + 4))
                  bad_length _ tt crc_checked))))
    | inr short ↦ rw short tt
  ]
