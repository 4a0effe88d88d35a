-- ===== src/Evidence/Histogram.antt =====
-- The buckets of recorded_statistics in scripts/latency.py: the upper end `high` of the bucket of a number
-- of nanoseconds, in a histogram of three significant figures. What `reported` makes of `high`, the
-- division by 1000 and the rounding to six figures by its format, is outside.
use native.Mathlib.Nat.{
  pow-le-pow_right, div-lt_iff_lt-mul, mul-le-mul_right, lt-div-mul-add, div-eq_of_lt-le,
  eq-zero-or-pos, add-mul, mul_assoc, div-add-mod', mod-lt, one-le-pow,
}
use tvc.Prelude.{
  leb, ap, ◌∙◌, ℕ, zero, suc, ◌+◌, ◌-◌, ◌*◌, ◌/◌, ◌%◌, ◌^◌, ◌≤◌, ◌<◌, ◌≡◌, refl, ◌==◌,
  if◌then◌else◌, arith, Bool-cases, inl, inr, ==_iff,
}

-- int.bit_length, a unit of fuel for each bit.
unfoldable pub bits : ℕ → ℕ → ℕ
bits zero n = 0
bits (suc fuel) n = let rest : ℕ = bits fuel (n / 2) in if n == 0 then 0 else suc rest

abbrev pub bit_length : ℕ → ℕ
bit_length n = bits n n

-- max(0, value.bit_length() - 11)
abbrev pub shift_of : ℕ → ℕ
shift_of value = bit_length value - 11

-- ((value >> shift) + 1) * (1 << shift) - 1
unfoldable pub bucket_high : ℕ → ℕ
bucket_high value = (value / 2 ^ shift_of value + 1) * 2 ^ shift_of value - 1

pow_suc : (k : ℕ) → 2 ^ suc k ≡ 2 * 2 ^ k
pow_suc k = omega arith

bits-zero : (fuel : ℕ) → bits fuel 0 ≡ 0
unfolding bits
bits-zero zero = refl
bits-zero (suc fuel) = refl

-- One more bit.
one_more :
    (n k : ℕ)
    → 0 < n
    → n / 2 < 2 ^ k
    → (0 < n / 2 → 2 ^ k ≤ 2 * (n / 2))
    → (n / 2 ≡ 0 → k ≡ 0)
    → (n < 2 ^ suc k) × (2 ^ suc k ≤ 2 * n)
one_more n k positive above below last = elim (Bool-cases (n / 2 == 0)) [
  | inl one ↦
      let half = (==_iff (n / 2) 0).0 one in
      let none : k ≡ 0 = last half in rw none (omega (arith, half), omega (arith, positive))
  | inr more ↦
      let some_half : 0 < n / 2 = ground arith in
      let double = pow_suc k in
      (omega (arith, above, double), omega (arith, below some_half, double))
]

half_bound : (n fuel : ℕ) → n ≤ suc fuel → n / 2 ≤ fuel
half_bound n fuel h = omega (arith, h)

bits_bounds : (fuel n : ℕ) → n ≤ fuel → (n < 2 ^ bits fuel n) × (0 < n → 2 ^ bits fuel n ≤ 2 * n)
unfolding bits
bits_bounds zero n h = (omega (arith, h), λ p. absurd (omega (arith, h, p)))
bits_bounds (suc fuel) n h =
    let half = bits_bounds fuel (n / 2) (half_bound n fuel h) in
    elim (Bool-cases (n == 0)) [
      | inl none ↦
          let is_zero = (==_iff n 0).0 none in
          rw none (omega (arith, is_zero), λ p. absurd (omega (arith, is_zero, p)))
      | inr some_n ↦
          let p : 0 < n = ground arith in
          let both =
            one_more n (bits fuel (n / 2)) p half.0 half.1 (λ gone. rw gone (bits-zero fuel)) in
          rw some_n (both.0, λ q. both.1)
    ]

-- The number v of the bucket with quotient q, width w and remainder r.
in_bucket :
    (v q w r : ℕ)
    → q * w + r ≡ v
    → r < w
    → (w - 1) * 1024 ≤ v
    → (v ≤ (q + 1) * w - 1) × (((q + 1) * w - 1 - v) * 1024 ≤ v)
in_bucket v q w r whole small width =
    let top : (q + 1) * w ≡ q * w + w = grind (arith, add-mul q 1 w) in
    rw top (omega (arith, whole, small), omega (arith, whole, small, width))

pow_add : (j k : ℕ) → 2 ^ (j + k) ≡ 2 ^ j * 2 ^ k
pow_add zero k = let same : 0 + k ≡ k = omega arith in rw same (omega arith)
pow_add (suc j) k =
    let whole : suc j + k ≡ suc (j + k) = omega arith in
    rw whole (grind (arith, pow_suc (j + k), pow_add j k, pow_suc j, mul_assoc 2 (2 ^ j) (2 ^ k)))

-- Of b bits, 11 are kept.
kept_bits : (b v : ℕ) → 2 ^ b ≤ 2 * v → (2 ^ (b - 11) - 1) * 1024 ≤ v
kept_bits b v h = elim (Bool-cases (leb b 11)) [
  | inl few ↦ let none : b - 11 ≡ 0 = ground arith in rw none (omega arith)
  | inr many ↦
      let split : b ≡ 11 + (b - 11) = ground arith in
      let whole : 2 ^ b ≡ 2048 * 2 ^ (b - 11) = ap (λ n. 2 ^ n) split ∙ pow_add 11 (b - 11) in
      omega (arith, h, whole)
]

-- A bucket is narrow next to the numbers in it.
narrow : (v : ℕ) → (2 ^ shift_of v - 1) * 1024 ≤ v
unfolding bits
narrow v = elim (eq-zero-or-pos v) [
  | inl none ↦ rw none (omega arith)
  | inr some_v ↦ kept_bits (bit_length v) v ((bits_bounds v v (omega arith)).1 some_v)
]

pow_close : (j k w : ℕ) → w < 2 ^ j → 2 ^ k ≤ 2 * w → k ≤ j
pow_close j k w above below = elim (Bool-cases (leb k j)) [
  | inl h ↦ ground arith
  | inr h ↦
      let longer : suc j ≤ k = ground arith in
      absurd (omega (arith, pow-le-pow_right {n = 2} (omega arith) longer, pow_suc j, above, below))
]

-- The bit length of a number is the only one with these bounds.
bits_unique : (b w : ℕ) → 0 < w → w < 2 ^ b → 2 ^ b ≤ 2 * w → bit_length w ≡ b
bits_unique b w positive above below =
    let (short, long) = bits_bounds w w (omega arith) in
    omega (
      arith,
      pow_close (bit_length w) b w short below,
      pow_close b (bit_length w) w above (long positive),
    )

-- The bucket of a number ends before the next power of two.
bucket_fits : (b v : ℕ) → v < 2 ^ b → (v / 2 ^ (b - 11) + 1) * 2 ^ (b - 11) ≤ 2 ^ b
bucket_fits b v above =
    let split : 2 ^ b ≡ 2 ^ (b - (b - 11)) * 2 ^ (b - 11) =
      ap (λ n. 2 ^ n) (omega arith) ∙ pow_add (b - (b - 11)) (b - 11) in
    let small : v / 2 ^ (b - 11) < 2 ^ (b - (b - 11)) =
      (div-lt_iff_lt-mul (one-le-pow (b - 11) 2 (omega arith))).1 (rw split at above) in
    rw split (mul-le-mul_right (2 ^ (b - 11)) (omega (arith, small)))

same_bucket : (v w : ℕ) → 0 < v → v ≤ w → w ≤ bucket_high v → bucket_high w ≡ bucket_high v
unfolding bucket_high
same_bucket v w positive from to =
    let (above, below) = bits_bounds v v (omega arith) in
    let width : ℕ = 2 ^ shift_of v in
    let q : ℕ = v / width in
    let top : (q + 1) * width ≡ q * width + width = grind (arith, add-mul q 1 width) in
    let inside : v < q * width + width = lt-div-mul-add (one-le-pow (shift_of v) 2 (omega arith)) in
    let fits = bucket_fits (bit_length v) v above in
    let before : w < (q + 1) * width = omega (arith, to, top, inside) in
    let start : q * width ≤ w = omega (arith, div-add-mod' v width, from) in
    let same : bit_length w ≡ bit_length v =
      bits_unique (bit_length v) w (omega (arith, positive, from)) (omega (arith, before, fits))
        (omega (arith, below positive, from)) in
    let shifted : shift_of w ≡ shift_of v = ap (λ n. n - 11) same in
    let quotient : w / width ≡ q = div-eq_of_lt-le width start before in rw (shifted, quotient) refl

value_bounds : (v : ℕ) → (v ≤ bucket_high v) × ((bucket_high v - v) * 1024 ≤ v)
unfolding bucket_high
value_bounds v =
    in_bucket v (v / 2 ^ shift_of v) (2 ^ shift_of v) (v % 2 ^ shift_of v)
      (div-add-mod' v (2 ^ shift_of v)) (mod-lt v (one-le-pow (shift_of v) 2 (omega arith)))
      (narrow v)

-- The upper end of the bucket of a number of nanoseconds, before it is divided and formatted, is at
-- least that number, exceeds it by at most one part in 1024 of it, and is the upper end of its own bucket.
pub bucket_high_bounds :
    (v : ℕ)
    → (v ≤ bucket_high v)
      × ((bucket_high v - v) * 1024 ≤ v)
      × (bucket_high (bucket_high v) ≡ bucket_high v)
bucket_high_bounds v =
    let (above, close) = value_bounds v in
    elim (eq-zero-or-pos v) [
      | inl none ↦ (above, close, rw none (unfold bucket_high bits in refl))
      | inr some_v ↦ (above, close, same_bucket v (bucket_high v) some_v above (omega arith))
    ]
