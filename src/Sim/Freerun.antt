-- ===== src/Sim/Freerun.antt =====
-- The class Model of sim/freerun.py. A method returns the model that it leaves, also when it raises,
-- and its value, `none` for a ValueError.
pub mod Receipt
pub mod Roundtrip
pub mod Conservation
pub mod Streams
pub mod Peer
use Prim.Native.Nat.{bit_and}
use tvc.Prelude.{
  ℕ, suc, ◌+◌, ◌-◌, ◌/◌, ◌%◌, ◌^◌, ◌≤◌, max, Bool, true, false, not, ◌&&◌, ◌||◌, Option, none, some,
  List, [], ◌∷◌, ◌++◌, ltb, leb, ◌==◌, if◌then◌else◌, length, replicate, is_some,
}
use tvc.Prelude.Raising.{Outcome, and_then}
use tvc.Float64
use tvc.Sim.Types.{TruthState, ActuatorState, Disturbance}
use tvc.Sim.Plant as Plant
use tvc.Sim.Plant.{actuate, advance, fixed}
use tvc.Sim.ControlRef.{dt}
use tvc.Sim.Episode.Types.{sim_horizon, sim_loc_angle, sim_loc_nonfinite, sim_vehicle_terminal}
use tvc.Sim.Episode.{angle_bound}
use tvc.Sim.Rng.{SplitMix64, link_loss_up, link_loss_down, stream_state, seeded, draw_drop}
use tvc.Sim.Scenario.{Scenario, Direction, up, down, disturbance_at, forced_drop_at}
use tvc.Sim.Headless.{dropped}
use tvc.Wire.Actuator.{ActuatorReply, decode_actuator, accepted}

pub record UpCounts : Type 0 where
  pub generated : ℕ
  pub intentionally_lost : ℕ
  pub transmitted : ℕ
  pub sensor_tx_fail : ℕ
  pub forced_transmit : ℕ
  pub forced_drop : ℕ

pub record DownCounts : Type 0 where
  pub received : ℕ
  pub intentionally_lost : ℕ
  pub actuator_selected : ℕ
  pub superseded : ℕ
  pub malformed : ℕ
  pub invalid : ℕ
  pub last_received_tick : Option ℕ

pub record TermCounts : Type 0 where
  pub up_attempts : ℕ
  pub up_intentionally_lost : ℕ
  pub up_tx_fail : ℕ
  pub up_transmitted : ℕ
  pub down_received_raw : ℕ
  pub down_intentionally_lost : ℕ
  pub down_survived : ℕ

pub record Events : Type 0 where
  pub plant_steps : ℕ
  pub actuator_updates : ℕ
  pub fifo_advances : ℕ
  pub sensor_observations : ℕ

pub record Model : Type 0 where
  pub truth : TruthState
  pub act : ActuatorState
  pub delay : List (Option ℕ)
  pub up_stream : SplitMix64
  pub down_stream : SplitMix64
  pub up_draws : ℕ
  pub down_draws : ℕ
  pub up_counts : UpCounts
  pub down_counts : DownCounts
  pub term : TermCounts
  pub events : Events
  pub reason : Option ℕ
  pub vehicle_seen : Option ℕ

abbrev probability : ℕ → Bool
probability p = Float64.is_finite p && Float64.le 0 p && Float64.le p 0x3ff0000000000000

abbrev no_commands : Scenario → Bool
no_commands spec = elim spec.commands [ [] ↦ true | c ∷ rest ↦ false ]

-- The attributes that __init__ sets once its arguments are checked.
unfoldable pub fresh_model : Scenario → ℕ → ℕ → Model
fresh_model spec seed delay_ticks = record {
  truth = spec.initial;
  act = Plant.initial;
  delay = replicate delay_ticks none;
  up_stream = seeded (stream_state seed link_loss_up);
  down_stream = seeded (stream_state seed link_loss_down);
  up_draws = 0;
  down_draws = 0;
  up_counts = record {
    generated = 0;
    intentionally_lost = 0;
    transmitted = 0;
    sensor_tx_fail = 0;
    forced_transmit = 0;
    forced_drop = 0;
  };
  down_counts = record {
    received = 0;
    intentionally_lost = 0;
    actuator_selected = 0;
    superseded = 0;
    malformed = 0;
    invalid = 0;
    last_received_tick = none;
  };
  term = record {
    up_attempts = 0;
    up_intentionally_lost = 0;
    up_tx_fail = 0;
    up_transmitted = 0;
    down_received_raw = 0;
    down_intentionally_lost = 0;
    down_survived = 0;
  };
  events = record {
    plant_steps = 0;
    actuator_updates = 0;
    fifo_advances = 0;
    sensor_observations = 0;
  };
  reason = none;
  vehicle_seen = none;
}

-- Model.__init__
unfoldable pub new_model : Scenario → ℕ → ℕ → Option Model
new_model spec seed delay_ticks =
    if leb 2 spec.ticks
      && no_commands spec
      && (delay_ticks == 0 || delay_ticks == 1)
      && probability spec.loss_up
      && probability spec.loss_down
    then some (fresh_model spec seed delay_ticks)
    else none

abbrev rate : Scenario → Direction → ℕ
rate spec up = spec.loss_up
rate spec down = spec.loss_down

abbrev stream_of : Direction → Model → SplitMix64
stream_of up m = m.up_stream
stream_of down m = m.down_stream

abbrev pub count_draw : Direction → SplitMix64 → Model → Model
count_draw up stream m = record m { up_stream = stream; up_draws = m.up_draws + 1 }
count_draw down stream m = record m { down_stream = stream; down_draws = m.down_draws + 1 }

-- The override of a draw; `some none` for no override.
abbrev override_at : Scenario → Direction → ℕ → Bool → Bool → Option (Option Bool)
override_at spec direction tick terminal prologue =
    if prologue
    then some (some false)
    else if terminal
    then some none
    else forced_drop_at spec tick direction

abbrev settle_draw : Option (Option Bool) → Bool → Model → Outcome Model (Bool × Bool)
settle_draw none raw m = (m, none)
settle_draw (some forced) raw m = (m, some (raw, dropped forced raw))

abbrev after_draw :
    Option (Bool × SplitMix64)
    → Direction
    → Option (Option Bool)
    → Model
    → Outcome Model (Bool × Bool)
after_draw none direction forced m = (m, none)
after_draw (some (raw, stream)) direction forced m =
    settle_draw forced raw (count_draw direction stream m)

-- Model.loss: the raw draw and the drop.
unfoldable pub loss : Scenario → Direction → ℕ → Bool → Bool → Model → Outcome Model (Bool × Bool)
loss spec direction tick terminal prologue m =
    after_draw (draw_drop (stream_of direction m) (rate spec direction)) direction
      (override_at spec direction tick terminal prologue) m

-- value['status'] & 255 == 3
abbrev pub is_terminal : ActuatorReply → Bool
is_terminal value = bit_and value.status 255 == 3

-- (value['status'] >> 8) & 255
abbrev pub status_reason : ℕ → ℕ
status_reason status = bit_and (status / 2 ^ 8) 255

abbrev latest : ℕ → Option ℕ → ℕ
latest tick none = tick
latest tick (some last) = max last tick

abbrev pub as_count : Bool → ℕ
as_count true = 1
as_count false = 0

-- The counters of a received packet.
abbrev pub count_receipt : ActuatorReply → Bool → Bool → Model → Model
count_receipt value true drop m = record m {
  term = record m.term {
    down_received_raw = m.term.down_received_raw + 1;
    down_intentionally_lost = m.term.down_intentionally_lost + as_count drop;
    down_survived = m.term.down_survived + as_count (not drop);
  };
}
count_receipt value false drop m = record m {
  down_counts = record m.down_counts {
    received = m.down_counts.received + 1;
    intentionally_lost = m.down_counts.intentionally_lost + as_count drop;
    last_received_tick = some (latest value.tick m.down_counts.last_received_tick);
  };
}

-- What becomes of a packet that was not dropped: the survivors with it, or an exception.
abbrev pub survive :
    ActuatorReply → Bool → List ActuatorReply → Model → Outcome Model (List ActuatorReply)
survive value true survivors m =
    let reason : ℕ = status_reason value.status in
    if leb 1 reason && leb reason 8
    then (record m { vehicle_seen = some reason }, some survivors)
    else (m, none)
survive value false survivors m =
    if Float64.is_finite value.delta then (m, some (survivors ++ (value ∷ []))) else (
      record m { down_counts = record m.down_counts { invalid = m.down_counts.invalid + 1 } },
      none,
    )

abbrev pub after_loss :
    ActuatorReply
    → Bool
    → List ActuatorReply
    → Outcome Model (Bool × Bool)
    → Outcome Model (List ActuatorReply)
after_loss value terminal survivors (m, none) = (m, none)
after_loss value terminal survivors (m, some (raw, drop)) =
    let counted = count_receipt value terminal drop m in
    if drop then (counted, some survivors) else survive value terminal survivors counted

-- A round of the loop of `receive` over the packets.
unfoldable pub receive_one :
    Scenario
    → ℕ
    → Option ActuatorReply
    → List ActuatorReply
    → Model
    → Outcome Model (List ActuatorReply)
unfolding loss
receive_one spec body_tick none survivors m = (
  record m { down_counts = record m.down_counts { malformed = m.down_counts.malformed + 1 } },
  some survivors,
)
receive_one spec body_tick (some value) survivors m =
    after_loss value (is_terminal value) survivors
      (loss spec down body_tick (is_terminal value) false m)

-- The loop, over the packets as `accepted` has them.
unfoldable pub receive_all :
    Scenario
    → ℕ
    → List (Option ActuatorReply)
    → List ActuatorReply
    → Model
    → Outcome Model (List ActuatorReply)
receive_all spec body_tick [] survivors m = (m, some survivors)
receive_all spec body_tick (packet ∷ packets) survivors m =
    and_then (receive_one spec body_tick packet survivors m)
      (λ survivors' m'. receive_all spec body_tick packets survivors' m')

-- max(survivors, key=lambda v: v['tick']): the first of the greatest tick.
abbrev pub newest : ActuatorReply → List ActuatorReply → ActuatorReply
newest best [] = best
newest best (v ∷ rest) = newest (if ltb best.tick v.tick then v else best) rest

abbrev supersede : ℕ → Model → Model
supersede n m = record m {
  down_counts = record m.down_counts { superseded = m.down_counts.superseded + n };
}

-- The rest of `receive`: the selected command.
unfoldable pub select : List ActuatorReply → Model → Outcome Model (Option ℕ)
select survivors m = elim m.vehicle_seen [
  | some seen ↦
      let ended = supersede (length survivors) m in
      (
        record ended {
          reason = elim m.reason [ none ↦ some sim_vehicle_terminal | some r ↦ some r ];
        },
        some none,
      )
  | none ↦ elim survivors [
    | [] ↦ (m, some none)
    | first ∷ rest ↦ (
      supersede (length rest) (record m {
        down_counts = record m.down_counts {
          actuator_selected = m.down_counts.actuator_selected + 1;
        };
      }),
      some (some (newest first rest).delta),
    )
  ]
]

-- deque.append and popleft
abbrev pub shift : List (Option ℕ) → Option ℕ → Option ℕ × List (Option ℕ)
shift [] selected = (selected, [])
shift (oldest ∷ rest) selected = (oldest, rest ++ (selected ∷ []))

abbrev reason_after : ℕ → ℕ → TruthState → Option ℕ
reason_after ticks k truth =
    if not (Float64.is_finite truth.theta) || not (Float64.is_finite truth.omega)
    then some sim_loc_nonfinite
    else if Float64.lt angle_bound (Float64.abs truth.theta)
    then some sim_loc_angle
    else if k + 1 == ticks - 1
    then some sim_horizon
    else none

-- The FIFO and the actuator, before the disturbance is looked up.
abbrev actuated : Option ℕ → Model → Option ℕ × Model
actuated selected m =
    let (arriving, delay) = shift m.delay selected in
    (
      arriving,
      record m {
        delay = delay;
        act = actuate m.act arriving;
        events = record m.events {
          fifo_advances = m.events.fifo_advances + 1;
          actuator_updates = m.events.actuator_updates + 1;
        };
      },
    )

abbrev stepped : ℕ → ℕ → Option Disturbance → Option ℕ × Model → Outcome Model (Option ℕ)
stepped ticks k none (arriving, m) = (m, none)
stepped ticks k (some disturbance) (arriving, m) =
    let truth = advance m.truth m.act fixed disturbance dt in
    (
      record m {
        truth = truth;
        events = record m.events { plant_steps = m.events.plant_steps + 1 };
        reason = reason_after ticks k truth;
      },
      some arriving,
    )

-- Model.advance
unfoldable pub advance_model : Scenario → ℕ → Option ℕ → Model → Outcome Model (Option ℕ)
advance_model spec k selected m =
    if is_some m.reason
    then (m, none)
    else stepped spec.ticks k (disturbance_at spec k fixed) (actuated selected m)

module _ (crc32c : List ℕ → ℕ) where
  -- The packets of a body, decoded under `try`.
  abbrev pub decoded : List (List ℕ) → List (Option ActuatorReply)
  decoded [] = []
  decoded (bytes ∷ rest) = accepted (decode_actuator crc32c bytes) ∷ decoded rest

  -- Model.receive
  unfoldable pub receive : Scenario → List (List ℕ) → ℕ → Model → Outcome Model (Option ℕ)
  unfolding receive_all select
  receive spec packets body_tick m =
      and_then (receive_all spec body_tick (decoded packets) [] m) select
