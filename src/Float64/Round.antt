-- ===== src/Float64/Round.antt =====
-- The arithmetic of binary64: exact integer results, rounded once to nearest, ties to even.
use tvc.Prelude.{
  ℕ, zero, suc, ◌+◌, ◌-◌, ◌*◌, ◌/◌, ◌%◌, ◌^◌, Bool, ◌&&◌, ◌||◌, ltb, leb, ◌==◌, if◌then◌else◌, max,
}

abbrev sign_bit : ℕ → ℕ
sign_bit b = b / 2 ^ 63

abbrev magnitude : ℕ → ℕ
magnitude b = b % 2 ^ 63

abbrev infinity : ℕ
infinity = 0x7ff0000000000000

abbrev quiet_nan : ℕ
quiet_nan = 0x7ff8000000000000

abbrev nan? : ℕ → Bool
nan? b = ltb infinity (magnitude b)

abbrev inf? : ℕ → Bool
inf? b = magnitude b == infinity

-- The biased exponent of a finite number, 1 for a subnormal one.
exponent : ℕ → ℕ
exponent b = max 1 (magnitude b / 2 ^ 52)

-- The integer significand: the number is `significand * 2 ^ (exponent - 1075)`.
significand : ℕ → ℕ
significand b = if ltb (magnitude b) (2 ^ 52) then magnitude b else magnitude b % 2 ^ 52 + 2 ^ 52

-- Bits needed for `m`, by halving the range `k` times; exact below 2 ^ 2 ^ k.
bit_length_from : ℕ → ℕ → ℕ → ℕ
bit_length_from zero m acc = acc + m
bit_length_from (suc k) m acc =
    let wide = leb (2 ^ 2 ^ k) m in
    bit_length_from k (if wide then m / 2 ^ 2 ^ k else m) (if wide then acc + 2 ^ k else acc)

bit_length : ℕ → ℕ
unfolding bit_length_from
bit_length m = bit_length_from 13 m 0

-- `q / 2 ^ r`, rounded to nearest, ties to even.
round_shift : ℕ → ℕ → ℕ
round_shift m zero = m
round_shift m (suc r) =
    let q : ℕ = m / 2 ^ suc r in
    let rest : ℕ = m % 2 ^ suc r in
    if ltb (2 ^ r) rest || (rest == 2 ^ r && q % 2 == 1) then q + 1 else q

-- The binary64 nearest to `m * 2 ^ (x - 4000)` with sign `s`, for 0 < m.
round : ℕ → ℕ → ℕ → ℕ
unfolding round_shift bit_length
round s m x =
    let e : ℕ = max 1 (x + bit_length m - 2978) in
    let exact : ℕ =
      if leb x (e + 2925) then round_shift m (e + 2925 - x) else m * 2 ^ (x - e - 2925) in
    let bits : ℕ = (e - 1) * 2 ^ 52 + exact in
    s * 2 ^ 63 + (if ltb bits infinity then bits else infinity)

abbrev xor_sign : ℕ → ℕ → ℕ
xor_sign a b = (sign_bit a + sign_bit b) % 2

unfoldable pub neg : ℕ → ℕ
neg b = (b + 2 ^ 63) % 2 ^ 64

-- The exact sum of two finite numbers counts units of 2 ^ -1074.
add_finite : ℕ → ℕ → ℕ
unfolding exponent significand round
add_finite a b =
    let p : ℕ = significand a * 2 ^ (exponent a - 1) in
    let q : ℕ = significand b * 2 ^ (exponent b - 1) in
    if sign_bit a == sign_bit b
    then (if p + q == 0 then sign_bit a * 2 ^ 63 else round (sign_bit a) (p + q) 2926)
    else if p == q
    then 0
    else if ltb q p
    then round (sign_bit a) (p - q) 2926
    else round (sign_bit b) (q - p) 2926

unfoldable pub add : ℕ → ℕ → ℕ
unfolding add_finite
add a b =
    if nan? a || nan? b
    then quiet_nan
    else if inf? a
    then (if inf? b && (sign_bit a == sign_bit b) then a else if inf? b then quiet_nan else a)
    else if inf? b
    then b
    else add_finite a b

unfoldable pub sub : ℕ → ℕ → ℕ
unfolding add neg
sub a b = add a (neg b)

unfoldable pub mul : ℕ → ℕ → ℕ
unfolding exponent significand round
mul a b =
    if nan? a || nan? b
    then quiet_nan
    else if inf? a || inf? b
    then (if magnitude a == 0 || magnitude b == 0
        then quiet_nan
        else xor_sign a b * 2 ^ 63 + infinity)
    else if magnitude a == 0 || magnitude b == 0
    then xor_sign a b * 2 ^ 63
    else round (xor_sign a b) (significand a * significand b) (exponent a + exponent b + 1850)

-- The sources divide by nonzero constants only; Python raises on a zero divisor.
unfoldable pub div : ℕ → ℕ → ℕ
unfolding exponent significand round
div a b =
    if nan? a || nan? b || (inf? a && inf? b) || (magnitude b == 0)
    then quiet_nan
    else if inf? a
    then xor_sign a b * 2 ^ 63 + infinity
    else if inf? b || magnitude a == 0
    then xor_sign a b * 2 ^ 63
    else let scaled : ℕ = significand a * 2 ^ 120 in
      let sticky : ℕ = if scaled % significand b == 0 then 0 else 1 in
      round (xor_sign a b) (2 * (scaled / significand b) + sticky) (exponent a + 3879 - exponent b)

-- float(n) for the integer of sign `s` and absolute value `m`: the infinity pattern where Python
-- raises OverflowError.
unfoldable pub of_int : ℕ → ℕ → ℕ
unfolding round
of_int s m = if m == 0 then 0 else round s m 4000
