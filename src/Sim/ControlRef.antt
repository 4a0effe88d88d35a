-- ===== src/Sim/ControlRef.antt =====
-- sim/control_ref.py: the PID arithmetic of one fresh, finite observation.
use tvc.Prelude.{ℕ, Bool, ◌&&◌, ◌||◌, if◌then◌else◌}
use tvc.Float64
pub mod Bounds
use tvc.Float64.{add, sub, mul, div, neg}
use tvc.Sim.Types.{Observation}

-- 0.0, 3.277, 7.68, 0.309 and 0.12
abbrev pub float_zero : ℕ
float_zero = 0x0000000000000000

abbrev kp : ℕ
kp = 0x400a374bc6a7ef9e

abbrev ki : ℕ
ki = 0x401eb851eb851eb8

abbrev kd : ℕ
kd = 0x3fd3c6a7ef9db22d

abbrev pub delta_max : ℕ
delta_max = 0x3fbeb851eb851eb8

abbrev pub i_max : ℕ
i_max = delta_max

-- 1.0 / 500.0
unfoldable pub dt : ℕ
dt = div 0x3ff0000000000000 0x407f400000000000

unfoldable pub ki_dt : ℕ
ki_dt = mul ki dt

-- 1.0 / 3.0
unfoldable pub beta_d : ℕ
beta_d = div 0x3ff0000000000000 0x4008000000000000

-- +0.0
abbrev theta_sp : ℕ
theta_sp = 0x0000000000000000

unfoldable pub neg_delta_max : ℕ
neg_delta_max = neg delta_max

unfoldable pub neg_i_max : ℕ
neg_i_max = neg i_max

pub record ControlState : Type 0 where
  pub i_state : ℕ
  pub d_prev : ℕ
  pub last_delta : ℕ

unfoldable pub initial : ControlState
initial = record { i_state = float_zero; d_prev = float_zero; last_delta = float_zero }

-- The two clamps of the integrator candidate.
unfoldable pub clamp_integral : ℕ → ℕ
clamp_integral i_unclamped =
    let upper : ℕ = if Float64.lt i_max i_unclamped then i_max else i_unclamped in
    if Float64.lt upper neg_i_max then neg_i_max else upper

unfoldable pub saturate : ℕ → ℕ
saturate u =
    if Float64.lt delta_max u
    then delta_max
    else if Float64.lt u neg_delta_max
    then neg_delta_max
    else u

-- The integrator holds while the output saturates in the error's direction.
unfoldable pub hold : ℕ → ℕ → Bool
hold u e =
    Float64.lt delta_max u && Float64.lt float_zero e
    || Float64.lt u neg_delta_max && Float64.lt e float_zero

unfoldable pub step : ControlState → Observation → ℕ × ControlState
unfolding clamp_integral saturate hold
step state observation =
    let e : ℕ = sub observation.theta theta_sp in
    let d : ℕ = add state.d_prev (mul beta_d (sub observation.omega state.d_prev)) in
    let i_cand : ℕ = clamp_integral (add state.i_state (mul ki_dt e)) in
    let u : ℕ = add (add (mul kp e) i_cand) (mul kd d) in
    let delta : ℕ = saturate u in
    let i_next : ℕ = if hold u e then state.i_state else i_cand in
    (delta, record { i_state = i_next; d_prev = d; last_delta = delta })
