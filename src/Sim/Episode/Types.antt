-- ===== src/Sim/Episode/Types.antt =====
-- The data of sim/episode.py. Integers that the wire or a caller supplies (opcodes, simulator
-- reasons) are numbers, as in the source; they are compared with the enum's values.
use tvc.Prelude.{ℕ, Bool, true, false, Option, List}
use tvc.Sim.Types.{Observation}
use tvc.Sim.ControlRef.{ControlState}

pub data Mode : Type 0 where
  init armed flying terminated : Mode

pub data Reason : Type 0 where
  no_reason stabilized diverged ground_abort sensor_lost peer_lost signal not_settled : Reason
  internal : Reason

-- Opcode
abbrev pub arm : ℕ
arm = 1

abbrev pub launch : ℕ
launch = 2

abbrev pub abort : ℕ
abort = 3

pub data AckStatus : Type 0 where
  queued applied applied_late duplicate rejected_pending rejected_state : AckStatus
  rejected_identity rejected_opcode rejected_stale preempted rejected_overflow : AckStatus

-- SimReason
abbrev pub sim_horizon : ℕ
sim_horizon = 1

abbrev pub sim_loc_angle : ℕ
sim_loc_angle = 2

abbrev pub sim_loc_nonfinite : ℕ
sim_loc_nonfinite = 3

abbrev pub sim_vehicle_terminal : ℕ
sim_vehicle_terminal = 4

abbrev pub sim_peer_lost : ℕ
sim_peer_lost = 6

pub record Command : Type 0 where
  pub cmd_seq : ℕ
  pub opcode : ℕ
  pub effective_tick : ℕ

pub record Ack : Type 0 where
  pub cmd_seq : ℕ
  pub status : AckStatus
  pub applied_tick : ℕ
  pub state : Mode
  pub reason : Reason

pub record TerminalResult : Type 0 where
  pub reason : Reason
  pub tick : ℕ

pub record EpisodeState : Type 0 where
  pub mode : Mode
  pub pid : ControlState
  pub settle_count : ℕ
  pub pending : Option Command
  pub last_accepted : Option Command
  pub terminal : Option TerminalResult
  pub auto_arm : Bool

pub record EpisodeInput : Type 0 where
  pub tick : ℕ
  pub held : Option Observation
  pub fresh : Bool
  pub staleness : ℕ
  pub command : Option Command
  pub horizon_reached : Bool
  pub sim_reason : Option ℕ
  pub stop_reason : Option Reason

pub record EpisodeOutput : Type 0 where
  pub state : EpisodeState
  pub requested_delta : ℕ
  pub acks : List Ack

-- `mode == Mode.X`
abbrev pub is_init : Mode → Bool
is_init init = true
is_init _ = false

abbrev pub is_armed : Mode → Bool
is_armed armed = true
is_armed _ = false

abbrev pub is_flying : Mode → Bool
is_flying flying = true
is_flying _ = false

abbrev pub is_terminated : Mode → Bool
is_terminated terminated = true
is_terminated _ = false

-- `reason == Reason.NONE`
abbrev pub is_no_reason : Reason → Bool
is_no_reason no_reason = true
is_no_reason _ = false
