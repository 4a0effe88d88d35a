-- ===== src/Sim/Rng.antt =====
-- sim/rng.py and sim/link.py: the SplitMix64 streams and the loss draw.
pub mod Period
use Prim.Native.Nat.{bit_xor}
use tvc.Prelude.{
  ℕ, zero, suc, ◌+◌, ◌*◌, ◌/◌, ◌%◌, ◌^◌, Bool, ◌&&◌, Option, none, some, if◌then◌else◌,
}
use tvc.Float64
use tvc.Float64.{mul, div, of_int}

abbrev pub golden : ℕ
golden = 0x9E3779B97F4A7C15

abbrev mix1 : ℕ
mix1 = 0xBF58476D1CE4E5B9

abbrev mix2 : ℕ
mix2 = 0x94D049BB133111EB

-- 1.0 / 9007199254740992.0
unfoldable pub two_m53 : ℕ
two_m53 = div 0x3ff0000000000000 (of_int 0 (2 ^ 53))

-- STREAMS
pub data StreamName : Type 0 where
  link_loss_up link_loss_down sensor_noise actuator_fault environment_disturbance : StreamName
  parameter_sampling scenario : StreamName

-- STREAMS.index(name)
abbrev pub index : StreamName → ℕ
index link_loss_up = 0
index link_loss_down = 1
index sensor_noise = 2
index actuator_fault = 3
index environment_disturbance = 4
index parameter_sampling = 5
index scenario = 6

-- `& MASK` is `% 2 ^ 64`.
unfoldable pub mix : ℕ → ℕ
mix value =
    let v0 : ℕ = value % 2 ^ 64 in
    let v1 : ℕ = (bit_xor v0 (v0 / 2 ^ 30) * mix1) % 2 ^ 64 in
    let v2 : ℕ = (bit_xor v1 (v1 / 2 ^ 27) * mix2) % 2 ^ 64 in bit_xor v2 (v2 / 2 ^ 31)

unfoldable pub stream_state : ℕ → StreamName → ℕ
stream_state master name = mix ((master + (index name + 1) * golden) % 2 ^ 64)

pub record SplitMix64 : Type 0 where
  pub state : ℕ

-- SplitMix64.__init__
unfoldable pub seeded : ℕ → SplitMix64
seeded state = record { state = state % 2 ^ 64 }

unfoldable pub next_u64 : SplitMix64 → ℕ × SplitMix64
next_u64 stream =
    let state : ℕ = (stream.state + golden) % 2 ^ 64 in (mix state, record { state = state })

unfoldable pub next_double : SplitMix64 → ℕ × SplitMix64
unfolding next_u64
next_double stream =
    let (value, stream') = next_u64 stream in (mul (of_int 0 (value / 2 ^ 11)) two_m53, stream')

-- draw_drop with a float `p`; `none` is the ValueError.
unfoldable pub draw_drop : SplitMix64 → ℕ → Option (Bool × SplitMix64)
unfolding next_double
draw_drop stream p =
    if Float64.le 0 p && Float64.le p 0x3ff0000000000000
    then (let (u, stream') = next_double stream in some (Float64.lt u p, stream'))
    else none

-- The stream after a number of draws.
unfoldable pub draws : ℕ → SplitMix64 → SplitMix64
draws zero stream = stream
draws (suc n) stream = draws n (next_u64 stream).1
