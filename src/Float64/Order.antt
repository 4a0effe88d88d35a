-- ===== src/Float64/Order.antt =====
-- Signs, comparisons and classification of binary64 numbers.
use tvc.Prelude.{
  ℕ, ◌+◌, ◌%◌, ◌^◌, ◌<◌, ◌≡◌, Bool, true, false, not, ◌&&◌, ◌||◌, ltb, leb, arith, if◌then◌else◌,
}

-- A binary64 bit pattern.
abbrev pub IsFloat : ℕ → Type 0
IsFloat b = b < 2 ^ 64

-- math.isfinite
unfoldable pub is_finite : ℕ → Bool
is_finite b = ltb (b % 2 ^ 63) 0x7ff0000000000000

unfoldable pub is_nan : ℕ → Bool
is_nan b = ltb 0x7ff0000000000000 (b % 2 ^ 63)

-- abs(x) on a float
unfoldable pub abs : ℕ → ℕ
abs b = b % 2 ^ 63

-- The distance above zero, and below: the order is that of the difference of the two.
above : ℕ → ℕ
above b = if ltb b (2 ^ 63) then b else 0

below : ℕ → ℕ
below b = if ltb b (2 ^ 63) then 0 else b % 2 ^ 63

-- a < b, false on a NaN
unfoldable pub lt : ℕ → ℕ → Bool
unfolding is_nan above below
lt a b = not (is_nan a || is_nan b) && ltb (above a + below b) (above b + below a)

-- a <= b, false on a NaN
unfoldable pub le : ℕ → ℕ → Bool
unfolding is_nan above below
le a b = not (is_nan a || is_nan b) && leb (above a + below b) (above b + below a)

module _ (a b : ℕ) where
  -- Of two numbers that are no NaN, one is below the other or not above it.
  pub le-of_not_lt : is_nan a ≡ false → is_nan b ≡ false → lt a b ≡ false → le b a ≡ true
  unfolding lt le
  le-of_not_lt ha hb h = ground arith
