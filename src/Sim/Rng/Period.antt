-- ===== src/Sim/Rng/Period.antt =====
-- The states that a SplitMix64 stream goes through (sim/rng.py).
use tvc.Prelude.{ℕ, zero, suc, ◌+◌, ◌*◌, ◌%◌, ◌^◌, ◌<◌, ◌≡◌, arith}
use tvc.Sim.Rng.{golden, SplitMix64, seeded, next_u64, draws}

draws_from :
    (n : ℕ) (s : SplitMix64)
    → s.state < 2 ^ 64
    → (draws n s).state ≡ (s.state + n * golden) % 2 ^ 64
unfolding draws next_u64
draws_from zero s h = omega arith
draws_from (suc n) s h =
    omega (arith, draws_from n (record { state = (s.state + golden) % 2 ^ 64 }) (omega arith))

-- After `n` draws the state of a stream is its start plus `n` times the increment, modulo 2^64.
pub draws-state : (start n : ℕ) → (draws n (seeded start)).state ≡ (start + n * golden) % 2 ^ 64
unfolding seeded
draws-state start n = omega (arith, draws_from n (record { state = start % 2 ^ 64 }) (omega arith))

-- Two numbers of draws below 2^64 that leave a stream in the same state are the same: a stream
-- goes through all 2^64 states before one comes back.
pub draws-period :
    (start i j : ℕ)
    → i < 2 ^ 64
    → j < 2 ^ 64
    → (draws i (seeded start)).state ≡ (draws j (seeded start)).state
    → i ≡ j
draws-period start i j hi hj e = omega (arith, draws-state start i, draws-state start j)
