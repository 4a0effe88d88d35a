-- ===== src/Wire/Bytes.antt =====
-- Little-endian numbers and byte slices: `struct`, `int.to_bytes` and `int.from_bytes`.
use tvc.Prelude.{
  ℕ, zero, suc, ◌+◌, ◌*◌, ◌/◌, ◌%◌, ◌^◌, ◌<◌, ◌≡◌, refl, ap, List, [], ◌∷◌, arith, length, take,
  drop, All,
}

abbrev pub IsByte : ℕ → Type 0
IsByte b = b < 256

-- The low `w` bytes of a number, lowest first.
unfoldable pub le_bytes : ℕ → ℕ → List ℕ
le_bytes zero n = []
le_bytes (suc w) n = (n % 256) ∷ le_bytes w (n / 256)

-- int.from_bytes(data, "little")
unfoldable pub of_le : List ℕ → ℕ
of_le [] = 0
of_le (b ∷ bs) = b + 256 * of_le bs

-- data[start:start + width]
abbrev pub slice : ℕ → ℕ → List ℕ → List ℕ
slice start width bytes = take width (drop start bytes)

pub length-le_bytes : (w n : ℕ) → length (le_bytes w n) ≡ w
unfolding le_bytes
length-le_bytes zero n = refl
length-le_bytes (suc w) n = ap suc (length-le_bytes w (n / 256))

pub le_bytes-IsByte : (w n : ℕ) → All IsByte (le_bytes w n)
unfolding le_bytes
le_bytes-IsByte zero n = tt
le_bytes-IsByte (suc w) n = (omega arith, le_bytes-IsByte w (n / 256))

-- What fits the width is read back.
pub of_le-le_bytes : (w n : ℕ) → n < 256 ^ w → of_le (le_bytes w n) ≡ n
unfolding le_bytes of_le
of_le-le_bytes zero n h = omega arith
of_le-le_bytes (suc w) n h = omega (arith, of_le-le_bytes w (n / 256) (omega arith))

-- Bytes are written back.
pub le_bytes-of_le : (bs : List ℕ) → All IsByte bs → le_bytes (length bs) (of_le bs) ≡ bs
unfolding le_bytes of_le
le_bytes-of_le [] h = refl
le_bytes-of_le (b ∷ bs) h =
    let low : (b + 256 * of_le bs) % 256 ≡ b = omega (arith, h.0) in
    let high : (b + 256 * of_le bs) / 256 ≡ of_le bs = omega (arith, h.0) in
    rw (low, high) (ap (λ (t : List ℕ). b ∷ t) (le_bytes-of_le bs h.1))

pub of_le-lt : (w : ℕ) (bs : List ℕ) → length bs ≡ w → All IsByte bs → of_le bs < 256 ^ w
unfolding of_le
of_le-lt w [] e h = ground arith
of_le-lt zero (b ∷ bs) e h = absurd (omega arith)
of_le-lt (suc w) (b ∷ bs) e h = omega (arith, of_le-lt w bs (omega arith) h.1)
