-- ===== src/Sim/Types.antt =====
-- sim/types.py: the values that the components exchange. Angles and rates are binary64 patterns.
use tvc.Prelude.{ℕ, Bool}

pub record TruthState : Type 0 where
  pub theta : ℕ
  pub omega : ℕ

pub record Observation : Type 0 where
  pub tick : ℕ
  pub theta : ℕ
  pub omega : ℕ
  pub valid : Bool

pub record ActuatorState : Type 0 where
  pub applied : ℕ

pub record Environment : Type 0 where
  pub k_a : ℕ

pub record Disturbance : Type 0 where
  pub tau_d : ℕ
