-- ===== src/Tests/FreerunRuns.antt =====
-- The free-running peer at a concrete scenario.
use tvc.Prelude.{ℕ, ◌≡◌, refl, true, false, some, none, [], ◌∷◌, is_some, length}
use tvc.Prelude.Raising.{Ensures, Outcome}
use tvc.Float64
use tvc.Sim.Rng.{draw_drop}
use tvc.Wire.Frame.{encode_frame, frame_bytes, pack_head}
use tvc.Wire.Bytes.{le_bytes}
use tvc.Wire.Payload.{
  encode_payload, payload_fields, check_payload_counts, encode_fields, sensor_fields, mask_flags,
  pack_value,
}
use tvc.Tests.WireRuns.{toy_crc}
use tvc.Sim.Scenario.{Scenario}
use tvc.Sim.Freerun.{fresh_model, receive}
use tvc.Sim.Freerun.Conservation.{IsConserved, ConservesSelected, receive-Conserves}
use tvc.Sim.Freerun.Streams.{IsOwned}
use tvc.Sim.Freerun.Peer.{Peer, Sending, Wake, execute, offer, new_peer, sensor_frame}
use tvc.Sim.Freerun.Peer.Balance.{IsReconciled}
use tvc.Sim.Freerun.Peer.Run.{execute-IsReconciled}

-- One body, then the terminal copies.
abbrev pub hover : Scenario
hover = record {
  id = "hover";
  ticks = 2;
  initial = record { theta = 0; omega = 0 };
  gusts = [];
  loss_up = 0;
  loss_down = 0;
  loss_start_tick = 0;
  blackout_up = none;
  blackout_down = none;
  commands = [];
  auto_arm = true;
}

abbrev refused_send : Sending
refused_send = record { sent_ns = 9; done_ns = 10; sent = none; recorded = true }

abbrev whole_send : Sending
whole_send = record { sent_ns = 7; done_ns = 8; sent = some 58; recorded = true }

abbrev quiet_wake : ℕ → Wake
quiet_wake k = record { interrupted = false; packets = (1 ∷ 2 ∷ []) ∷ []; sending = refused_send }

abbrev prologue : Outcome Peer (Unit {0})
prologue = offer toy_crc hover none 0 false true whole_send (new_peer (fresh_model hover 1 1))

prologue_run :
    (is_some prologue.1 ≡ true)
    × (prologue.0.model.up_counts.transmitted ≡ 1)
    × (length prologue.0.inputs ≡ 1)
    × (prologue.0.origin ≡ 7)
unfolding fresh_model offer toy_crc draw_drop Float64.le sensor_frame encode_payload payload_fields
    check_payload_counts encode_fields sensor_fields mask_flags pack_value encode_frame le_bytes
    frame_bytes pack_head prologue
prologue_run = (refl, refl, refl, refl)

execute-IsReconciled_example :
    Ensures
      (λ p. IsOwned 1 p.model)
      (λ done p. IsReconciled 1 p.model)
      (execute toy_crc hover none 2 whole_send quiet_wake quiet_wake (fresh_model hover 1 1))
execute-IsReconciled_example =
    execute-IsReconciled toy_crc hover none 1 2 1 whole_send quiet_wake quiet_wake

fresh_model-IsConserved : IsConserved 0 (fresh_model hover 1 1)
unfolding fresh_model
fresh_model-IsConserved = (refl, refl)

receive-Conserves_example :
    ConservesSelected (receive toy_crc hover ((1 ∷ 2 ∷ []) ∷ []) 0 (fresh_model hover 1 1))
receive-Conserves_example =
    receive-Conserves toy_crc hover ((1 ∷ 2 ∷ []) ∷ []) 0 (fresh_model hover 1 1)
      fresh_model-IsConserved
