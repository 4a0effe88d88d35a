-- ===== src/Wire/Frame/RoundTrip.antt =====
-- `decode_datagram` reads back what `encode_frame` wrote (ground/wire.py).
use tvc.Prelude.{
  ℕ, ◌+◌, ◌-◌, ◌%◌, ◌^◌, ◌≤◌, ◌<◌, ◌≡◌, refl, true, some, List, [], ◌∷◌, ◌++◌, leb, ◌==◌, length,
  take, drop, arith, length-append, take_prefix, drop_prefix, zero, suc, drop_nil, take_nil,
}
use Prim.Native.Nat.add
use native.Mathlib.Nat.{zero-add}
use mathlib.Core.List.{append_assoc, append-nil}
use tvc.Prelude.Result.{ok, ◌>>=◌}
use tvc.Wire.Bytes.{le_bytes, of_le, slice, length-le_bytes, of_le-le_bytes}
use tvc.Wire.Frame.{
  pack_head, unpack_head, sync, version, frame_bytes, encode_frame, decode_datagram, payload_size,
  contains, known_type, max_payload,
}

-- The head is read back, whatever follows it.
pub unpack_head-pack_head :
    (ftype n seq : ℕ) (rest : List ℕ)
    → ftype < 256
    → n < 65536
    → seq < 2 ^ 32
    → unpack_head (pack_head ftype n seq ++ rest) ≡ record {
      sync_word = sync;
      version_byte = version;
      ftype = ftype;
      payload_length = n;
      seq = seq;
    }
unfolding unpack_head pack_head le_bytes of_le
unpack_head-pack_head ftype n seq rest ht hn hs = ground arith

pub length-pack_head : (ftype n seq : ℕ) → length (pack_head ftype n seq) ≡ 10
unfolding pack_head le_bytes
length-pack_head ftype n seq = refl

payload_size-lt :
    (t n : ℕ)
    → payload_size t ≡ some n
    → (t < 256) × (n < 65536) × (n ≤ max_payload) × (known_type t ≡ true)
unfolding payload_size
payload_size-lt t n h = ground arith

drop-add {ℓ} : {A : Type ℓ} (n m : ℕ) (xs : List A) → drop (n + m) xs ≡ drop m (drop n xs)
drop-add zero m xs = rw zero-add
drop-add (suc n) m [] = rw add.suc (drop_nil m)
drop-add (suc n) m (x ∷ xs) = rw add.suc (drop-add n m xs)

take-add {ℓ} :
    {A : Type ℓ} (n m : ℕ) (xs : List A) → take (n + m) xs ≡ take n xs ++ take m (drop n xs)
take-add zero m xs = rw zero-add
take-add (suc n) m [] = rw add.suc (take_nil m)
take-add (suc n) m (x ∷ xs) = rw (add.suc, take-add n m xs)

module _ (crc32c : List ℕ → ℕ) where
  -- The checksum that a frame carries.
  abbrev pub frame_crc : ℕ → ℕ → List ℕ → ℕ
  frame_crc t s p = crc32c (drop 2 (pack_head t (length p) (s % 2 ^ 32)) ++ p)

  module _ (t s : ℕ) (p rest : List ℕ) where
    pub head-at :
        t < 256
        → length p < 65536
        → unpack_head (frame_bytes crc32c t s p ++ rest) ≡ record {
          sync_word = sync;
          version_byte = version;
          ftype = t;
          payload_length = length p;
          seq = s % 2 ^ 32;
        }
    unfolding frame_bytes
    head-at ht hp =
        rw append_assoc (unpack_head-pack_head t (length p) (s % 2 ^ 32) _ ht hp (omega arith))

    pub payload-at : slice 10 (length p) (frame_bytes crc32c t s p ++ rest) ≡ p
    unfolding frame_bytes pack_head le_bytes
    payload-at = rw append_assoc (take_prefix p _)

    pub crc-at :
        drop (10 + length p) (frame_bytes crc32c t s p ++ rest)
        ≡ le_bytes 4 (frame_crc t s p) ++ rest
    crc-at =
        rw drop-add (unfold frame_bytes pack_head le_bytes in rw append_assoc (drop_prefix p _))

    pub covered-at :
        slice 2 (8 + length p) (frame_bytes crc32c t s p ++ rest)
        ≡ drop 2 (pack_head t (length p) (s % 2 ^ 32)) ++ p
    covered-at =
        rw take-add (unfold frame_bytes pack_head le_bytes in rw (append_assoc, take_prefix p _))

    pub rest-at : drop (14 + length p) (frame_bytes crc32c t s p ++ rest) ≡ rest
    rest-at =
        let regroup : 14 + length p ≡ 10 + length p + 4 = omega arith in
        rw (regroup, drop-add (10 + length p) 4, crc-at) (unfold le_bytes in refl)

  pub length-frame_bytes :
      (t s : ℕ) (p : List ℕ) → length (frame_bytes crc32c t s p) ≡ 14 + length p
  unfolding frame_bytes
  length-frame_bytes t s p = omega (
    arith,
    length-append (pack_head t (length p) (s % 2 ^ 32)) (p ++ le_bytes 4 (frame_crc t s p)),
    length-append p (le_bytes 4 (frame_crc t s p)),
    length-le_bytes 4 (frame_crc t s p),
    length-pack_head t (length p) (s % 2 ^ 32),
  )

  -- What `decode_datagram` looks at, and its result when every check passes.
  decode_datagram_accepts :
      (bytes accepted p tail covered : List ℕ) (t s : ℕ)
      → length bytes ≡ 14 + length p
      → unpack_head bytes ≡ record {
        sync_word = sync;
        version_byte = version;
        ftype = t;
        payload_length = length p;
        seq = s;
      }
      → drop (10 + length p) bytes ≡ tail
      → slice 2 (8 + length p) bytes ≡ covered
      → of_le tail ≡ crc32c covered
      → slice 10 (length p) bytes ≡ p
      → payload_size t ≡ some (length p)
      → contains accepted t ≡ true
      → decode_datagram crc32c bytes accepted ≡ ok (t, s, p)
  unfolding decode_datagram
  decode_datagram_accepts bytes accepted p tail covered t s l h e c crc body size member =
      let e6 : length bytes - 4 ≡ 10 + length p = omega (arith, l) in
      let e7 : 10 + length p - 2 ≡ 8 + length p = omega arith in
      let e8 : 10 + length p - 10 ≡ length p = omega arith in
      let enough : leb 14 (length bytes) ≡ true = ground arith in
      let head : leb 10 (length bytes) ≡ true = ground arith in
      let foot : leb 4 (length bytes) ≡ true = ground arith in
      let same : (length bytes == 10 + length p + 4) ≡ true = ground arith in
      let equal : (length p == length p) ≡ true = ground arith in
      let crcs : (crc32c covered == crc32c covered) ≡ true = ground arith in
      rw (enough, head, h)
        (rw (size, member, same, equal, foot) (rw (e6, e7, e8, e, c, crc, body) (rw crcs)))

  module _ (bounded : (bytes : List ℕ) → crc32c bytes < 2 ^ 32) where
    -- A datagram built from a payload of its type's size, of a type that is accepted, is decoded
    -- to the type, the sequence number modulo 2^32 and the payload.
    pub decode_datagram-encode_frame :
        (t s : ℕ) (p accepted : List ℕ)
        → payload_size t ≡ some (length p)
        → contains accepted t ≡ true
        → (encode_frame crc32c t s p >>= λ bytes. decode_datagram crc32c bytes accepted)
          ≡ ok (t, s % 2 ^ 32, p)
    unfolding encode_frame
    decode_datagram-encode_frame t s p accepted size member =
        let (small, short, fits, known) = payload_size-lt t (length p) size in
        let at = frame_bytes crc32c t s p in
        let whole : at ++ [] ≡ at = append-nil at in
        let within : leb (length p) max_payload ≡ true = ground arith in
        rw (known, within)
          (decode_datagram_accepts at accepted p (le_bytes 4 (frame_crc t s p) ++ [])
            (drop 2 (pack_head t (length p) (s % 2 ^ 32)) ++ p) t (s % 2 ^ 32)
            (length-frame_bytes t s p) (rw whole at (head-at t s p [] small short))
            (rw whole at (crc-at t s p [])) (rw whole at (covered-at t s p []))
            (rw append-nil (of_le-le_bytes 4 (frame_crc t s p) (bounded _)))
            (rw whole at (payload-at t s p [])) size member)
