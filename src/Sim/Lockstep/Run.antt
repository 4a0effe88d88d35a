-- ===== src/Sim/Lockstep/Run.antt =====
-- The ticks of the lockstep peer, `execute` of sim/run_sim.py from the first tick on. An exception
-- ends the run as `none`, with the variables that the report shows. The report's text, the exit code
-- and the SIGKILL of a test are left out.
use tvc.Prelude.{
  ℕ, zero, suc, ◌+◌, ◌*◌, ◌%◌, ◌^◌, Bool, true, false, not, ◌&&◌, Option, none, some, List, [], ◌∷◌,
  ◌==◌, if◌then◌else◌, replicate, is_some,
}
use Prim.Native.Nat.{bit_and}
use tvc.Prelude.Int.{pos}
use tvc.Prelude.Result.{Result, ok, err, ◌>>=◌}
use tvc.Prelude.Raising.{Outcome, and_then, or_else}
use tvc.Float64
use tvc.Wire.Errors.{Error}
use tvc.Wire.Frame.{encode_frame}
use tvc.Wire.Payload.{int, float, encode_payload}
use tvc.Wire.Actuator.{ActuatorReply}
use tvc.Sim.Types.{TruthState, ActuatorState, Observation, Disturbance}
use tvc.Sim.Plant as Plant
use tvc.Sim.Plant.{actuate, advance, observe, fixed}
use tvc.Sim.ControlRef.{dt}
use tvc.Sim.Episode.Types.{sim_peer_lost, sim_vehicle_terminal}
use tvc.Sim.Rng.{SplitMix64, link_loss_up, link_loss_down, stream_state, seeded, draw_drop}
use tvc.Sim.Scenario.{Scenario, OpcodeName, up, down, disturbance_at, forced_drop_at, command_at}
use tvc.Sim.Headless.{dropped, opcode_value, sim_reason_at, plant_reason}
use tvc.Sim.Freerun.{shift, as_count, status_reason}
use tvc.Sim.Lockstep.{Sender, Receipts, Exchange, Attempt, sender_counts, receiver_counts, attempts}

-- A row of the report: has_sample and applied are 0 or 1 there.
pub record Row : Type 0 where
  pub tick : ℕ
  pub has_sample : Bool
  pub applied : Bool
  pub truth : TruthState
  pub cmd_applied : ℕ

-- The variables of `execute`, newest entries of its lists first.
pub record Run : Type 0 where
  pub exchange : Exchange
  pub up_stream : SplitMix64
  pub down_stream : SplitMix64
  pub draws : ℕ
  pub truth : TruthState
  pub act : ActuatorState
  pub delay : List (Option ℕ)
  pub rows : List Row
  pub replies : List ActuatorReply
  pub command_seq : ℕ
  pub pending_reason : Option ℕ
  pub final_reason : ℕ
  pub vehicle_seen : Option ℕ

unfoldable pub new_run : Scenario → ℕ → ℕ → Run
new_run spec seed delay_ticks = record {
  exchange = record {
    up = sender_counts;
    down = receiver_counts;
    logged = false;
    last_reply = none;
    inputs = [];
  };
  up_stream = seeded (stream_state seed link_loss_up);
  down_stream = seeded (stream_state seed link_loss_down);
  draws = 0;
  truth = spec.initial;
  act = Plant.initial;
  delay = replicate delay_ticks none;
  rows = [];
  replies = [];
  command_seq = 0;
  pending_reason = none;
  final_reason = sim_peer_lost;
  vehicle_seen = none;
}

-- A call that raises and changes no variable.
abbrev pub demanded : {A : Type 0} → Option A → Run → Outcome Run A
demanded result run = (run, result)

-- raw_up and raw_down
abbrev pub draw_up : Option (Bool × SplitMix64) → Run → Outcome Run Bool
draw_up none run = (run, none)
draw_up (some (raw, stream)) run = (record run { up_stream = stream }, some raw)

abbrev pub draw_down : Option (Bool × SplitMix64) → Run → Outcome Run Bool
draw_down none run = (run, none)
draw_down (some (raw, stream)) run =
    (record run { down_stream = stream; draws = run.draws + 1 }, some raw)

-- What the tick knows before its sample is sent.
pub record Plan : Type 0 where
  pub up_drop : Bool
  pub down_drop : Bool
  pub disturbance : Disturbance
  pub opcode : Option OpcodeName

abbrev count_sample_loss : Bool → Run → Run
count_sample_loss lost run = record run {
  exchange = record run.exchange {
    up = record run.exchange.up {
      modeled_sample_loss = run.exchange.up.modeled_sample_loss + as_count lost;
    };
  };
}

-- From the draws to command_at.
unfoldable pub plan : Scenario → ℕ → Run → Outcome Run Plan
plan spec tick run = and_then (draw_up (draw_drop run.up_stream spec.loss_up) run) (λ raw_up run1.
    and_then (draw_down (draw_drop run1.down_stream spec.loss_down) run1) (λ raw_down run2.
      and_then (demanded (forced_drop_at spec tick up) run2) (λ forced_up run3.
        and_then (demanded (forced_drop_at spec tick down) run3) (λ forced_down run4.
          let up_drop : Bool = dropped forced_up raw_up in
          and_then (demanded (disturbance_at spec tick fixed) (count_sample_loss up_drop run4))
            (λ dist run5. and_then (demanded (command_at spec tick) run5) (λ opcode run6. (
              run6,
              some (record {
                up_drop = up_drop;
                down_drop = dropped forced_down raw_down;
                disturbance = dist;
                opcode = opcode;
              }),
            )))))))

-- flags: the opcode stands from bit 8 on, and bits 0, 1 and 2 are set apart from it.
abbrev opcode_flags : Option OpcodeName → ℕ
opcode_flags none = 0
opcode_flags (some opcode) = 4 + opcode_value opcode * 2 ^ 8

abbrev sample_flags : Bool → Option ℕ → Option OpcodeName → ℕ
sample_flags up_drop sim_reason opcode =
    as_count (not up_drop) + 2 * as_count (is_some sim_reason) + opcode_flags opcode

abbrev next_seq : ℕ → Option OpcodeName → ℕ
next_seq seq none = seq
next_seq seq (some opcode) = (seq + 1) % 2 ^ 32

abbrev sent_seq : ℕ → Option OpcodeName → ℕ
sent_seq seq none = 0
sent_seq seq (some opcode) = seq

abbrev reason_code : Option ℕ → ℕ
reason_code none = 0
reason_code (some reason) = reason

abbrev sensed : Bool → ℕ → ℕ
sensed lost value = if lost then 0 else value

-- first_tick and last_tick, and the counters of a new sample.
abbrev pub count_generated : ℕ → Sender → Sender
count_generated tick c = record c {
  generated = c.generated + 1;
  not_attempted = c.not_attempted + 1;
  never_transmitted = c.never_transmitted + 1;
  first_tick = elim c.first_tick [ none ↦ some tick | some first ↦ some first ];
  last_tick = some tick;
}

abbrev pub framed : ℕ → Result Error (List ℕ) → Run → Outcome Run (List ℕ)
framed tick (err e) run = (run, none)
framed tick (ok frame) run = (
  record run {
    exchange = record run.exchange { up = count_generated tick run.exchange.up; logged = false };
  },
  some frame,
)

abbrev pub with_exchange : {A : Type 0} → Run → Outcome Exchange A → Outcome Run A
with_exchange run (x, r) = (record run { exchange = x }, r)

-- modeled_command_loss or forwarded_to_delay
abbrev pub count_disposition : Bool → Receipts → Receipts
count_disposition true c = record c { modeled_command_loss = c.modeled_command_loss + 1 }
count_disposition false c = record c { forwarded_to_delay = c.forwarded_to_delay + 1 }

-- final_reason of the tick, if it is the last.
abbrev pub ending : Option ℕ → ℕ → Option ℕ
ending (some reason) status = some reason
ending none status = if bit_and status 255 == 3 then some sim_vehicle_terminal else none

-- The end of a tick, from the answer on: the final reason, if the tick is the last.
unfoldable pub settle :
    ℕ → Observation → Option ℕ → Plan → ActuatorReply → Run → Outcome Run (Option ℕ)
settle tick obs sim_reason chosen answer run =
    let (arriving, delay) =
      shift run.delay (if chosen.down_drop then none else some answer.delta) in
    let act = actuate run.act arriving in
    let counted : Run = record run {
      exchange = record run.exchange {
        down = count_disposition chosen.down_drop run.exchange.down;
      };
      replies = answer ∷ run.replies;
      delay = delay;
      act = act;
      rows =
          record {
            tick = tick;
            has_sample =
                not chosen.up_drop && Float64.is_finite obs.theta && Float64.is_finite obs.omega;
            applied = is_some arriving;
            truth = run.truth;
            cmd_applied = act.applied;
          }
          ∷ run.rows;
      vehicle_seen =
          if bit_and answer.status 255 == 3
          then some (status_reason answer.status)
          else run.vehicle_seen;
    } in
    let moved = advance run.truth act fixed chosen.disturbance dt in
    elim (ending sim_reason answer.status) [
      | some reason ↦ (record counted { final_reason = reason }, some (some reason))
      | none ↦ (
        record counted { truth = moved; pending_reason = plant_reason moved run.pending_reason },
        some none,
      )
    ]

abbrev pub numbered : Option OpcodeName → Run → Run
numbered opcode run = record run { command_seq = next_seq run.command_seq opcode }

module _ (crc32c : List ℕ → ℕ) where
  unfoldable pub sample_frame :
      ℕ → Observation → Bool → Option ℕ → Option OpcodeName → ℕ → Result Error (List ℕ)
  sample_frame tick obs up_drop sim_reason opcode command_seq = do
    payload ← encode_payload 4 (
        ("tick", int (pos tick))
        ∷ ("t_send_ns", int (pos 0))
        ∷ ("theta", float (sensed up_drop obs.theta))
        ∷ ("omega", float (sensed up_drop obs.omega))
        ∷ ("flags", int (pos (sample_flags up_drop sim_reason opcode)))
        ∷ ("cmd_seq", int (pos (sent_seq command_seq opcode)))
        ∷ ("sim_reason", int (pos (reason_code sim_reason)))
        ∷ [])
    encode_frame crc32c 4 tick payload

  -- One round of `for tick in range(spec.ticks)`; `io` answers for its 26 attempts.
  unfoldable pub tick_round :
      Scenario → Option ℕ → Option ℕ → ℕ → (ℕ → Attempt) → Run → Outcome Run (Option ℕ)
  unfolding plan settle
  tick_round spec fail_sensor drop_actuator tick io run =
      and_then (plan spec tick run) (λ chosen run1.
        let obs = observe tick run1.truth in
        let sim_reason = sim_reason_at spec.ticks tick run1.pending_reason in
        let run2 = numbered chosen.opcode run1 in
        and_then
          (framed tick
            (sample_frame tick obs chosen.up_drop sim_reason chosen.opcode run2.command_seq) run2)
          (λ frame run3.
            and_then
              (with_exchange run3
                (attempts crc32c fail_sensor drop_actuator tick frame io 26 0 run3.exchange))
              (λ answer run4. and_then (demanded answer run4) (settle tick obs sim_reason chosen))))

  -- The ticks from `tick` on, of which `n` are left.
  unfoldable pub ticks_from :
      Scenario → Option ℕ → Option ℕ → (ℕ → ℕ → Attempt) → ℕ → ℕ → Run → Outcome Run (Option ℕ)
  unfolding tick_round
  ticks_from spec fail_sensor drop_actuator io zero tick run = (run, some none)
  ticks_from spec fail_sensor drop_actuator io (suc n) tick run =
      and_then (tick_round spec fail_sensor drop_actuator tick (io tick) run) (λ reason run'.
        or_else reason run' (ticks_from spec fail_sensor drop_actuator io n (tick + 1)))

  unfoldable pub execute :
      Scenario → Option ℕ → Option ℕ → ℕ → ℕ → (ℕ → ℕ → Attempt) → Outcome Run (Option ℕ)
  unfolding ticks_from new_run
  execute spec fail_sensor drop_actuator seed delay_ticks io =
      ticks_from spec fail_sensor drop_actuator io spec.ticks 0 (new_run spec seed delay_ticks)
