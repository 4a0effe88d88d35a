-- ===== src/Sim/ControlRef/Bounds.antt =====
-- The command and the integrator stay within the actuator's range (sim/control_ref.py).
use tvc.Prelude.{ℕ, ◌≡◌, ◌⊎◌, inl, inr, Bool, true, false, arith, Bool-cases, refl}
use tvc.Float64.{neg, lt, le, is_nan}
use tvc.Sim.Types.{Observation}
use tvc.Sim.ControlRef.{
  ControlState, delta_max, neg_delta_max, neg_i_max, saturate, clamp_integral, hold, step,
  float_zero,
}
use tvc.Prelude.{if◌then◌else◌}

-- A number in [-0.12, 0.12]; no NaN is.
abbrev pub InRange : ℕ → Type 0
InRange x = (le neg_delta_max x ≡ true) × (le x delta_max ≡ true)

saturate-InRange : (u : ℕ) → is_nan u ≡ false → InRange (saturate u)
unfolding saturate lt le neg_delta_max neg is_nan
saturate-InRange u h = ground arith

clamp_integral-InRange : (u : ℕ) → is_nan u ≡ false → InRange (clamp_integral u)
unfolding clamp_integral lt le neg_delta_max neg_i_max neg is_nan
clamp_integral-InRange u h = ground arith

-- A NaN, or a number in range.
abbrev pub IsCommand : ℕ → Type 0
IsCommand x = (is_nan x ≡ true) ⊎ InRange x

saturate-IsCommand : (u : ℕ) → IsCommand (saturate u)
saturate-IsCommand u = elim (Bool-cases (is_nan u)) [
  | inl nan ↦ inl (unfold saturate lt in rw nan nan)
  | inr number ↦ inr (saturate-InRange u number)
]

clamp_integral-IsCommand : (u : ℕ) → IsCommand (clamp_integral u)
clamp_integral-IsCommand u = elim (Bool-cases (is_nan u)) [
  | inl nan ↦ inl (unfold clamp_integral lt in rw nan (rw nan nan))
  | inr number ↦ inr (clamp_integral-InRange u number)
]

pick-IsCommand : (b : Bool) (x y : ℕ) → IsCommand x → IsCommand y → IsCommand (if b then x else y)
pick-IsCommand true x y hx hy = hx
pick-IsCommand false x y hx hy = hy

-- Whatever is observed, the new command and the new integrator state are each a NaN or within
-- 0.12 of zero, if the integrator was; and the command is remembered as the last one.
pub step-IsCommand :
    (state : ControlState) (observation : Observation)
    → IsCommand state.i_state
    → IsCommand (step state observation).0
      × IsCommand (step state observation).1.i_state
      × ((step state observation).1.last_delta ≡ (step state observation).0)
unfolding step
step-IsCommand state observation h = (
  saturate-IsCommand _,
  pick-IsCommand (hold _ _) state.i_state _ h (clamp_integral-IsCommand _),
  refl,
)

pub float_zero-InRange : InRange float_zero
unfolding le neg_delta_max neg is_nan
float_zero-InRange = ground arith
