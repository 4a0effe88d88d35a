-- ===== src/Sim/Plant.antt =====
-- The physics side: sim/fixmath.py, sim/actuator.py, sim/plant.py, sim/environment.py and
-- sim/sensor.py.
use tvc.Prelude.{ℕ, true, Option, none, some, if◌then◌else◌}
use tvc.Float64
use tvc.Float64.{add, sub, mul, div, neg}
use tvc.Sim.Types.{TruthState, Observation, ActuatorState, Environment, Disturbance}

-- The literals 0.0, 1.0, 0.12, 9.0, 27.0 and 0.36.
abbrev zero_float : ℕ
zero_float = 0x0000000000000000

abbrev one_float : ℕ
one_float = 0x3ff0000000000000

abbrev pub actuator_delta_max : ℕ
actuator_delta_max = 0x3fbeb851eb851eb8

abbrev fl : ℕ
fl = 0x403b000000000000

abbrev inertia : ℕ
inertia = 0x3fd70a3d70a3d70a

-- -1.0 / 6.0, 1.0 / 120.0 and -1.0 / 5040.0
unfoldable pub c1 : ℕ
c1 = div 0xbff0000000000000 0x4018000000000000

unfoldable pub c2 : ℕ
c2 = div 0x3ff0000000000000 0x405e000000000000

unfoldable pub c3 : ℕ
c3 = div 0xbff0000000000000 0x40b3b00000000000

unfoldable pub psin : ℕ → ℕ
psin x =
    let x2 : ℕ = mul x x in mul x (add one_float (mul x2 (add c1 (mul x2 (add c2 (mul x2 c3))))))

unfoldable pub initial : ActuatorState
initial = record { applied = zero_float }

clamp_high : ℕ → ℕ
clamp_high x = if Float64.lt actuator_delta_max x then actuator_delta_max else x

clamp_low : ℕ → ℕ
clamp_low x = if Float64.lt x (neg actuator_delta_max) then neg actuator_delta_max else x

-- actuator.step
unfoldable pub actuate : ActuatorState → Option ℕ → ActuatorState
unfolding clamp_high clamp_low
actuate state none = state
actuate state (some arriving) = record { applied = clamp_low (clamp_high arriving) }

-- plant.step
unfoldable pub advance : TruthState → ActuatorState → Environment → Disturbance → ℕ → TruthState
advance truth actuator environment disturbance dt =
    let tau : ℕ =
      add (sub (mul environment.k_a truth.theta) (mul fl (psin actuator.applied)))
        disturbance.tau_d in
    let omega_next : ℕ = add truth.omega (mul (div tau inertia) dt) in
    let theta_next : ℕ = add truth.theta (mul omega_next dt) in
    record { theta = theta_next; omega = omega_next }

-- environment.fixed
unfoldable pub fixed : Environment
fixed = record { k_a = 0x4022000000000000 }

-- sensor.observe
unfoldable pub observe : ℕ → TruthState → Observation
observe tick truth = record { tick = tick; theta = truth.theta; omega = truth.omega; valid = true }
