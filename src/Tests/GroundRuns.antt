-- ===== src/Tests/GroundRuns.antt =====
-- The ground side and the random streams on concrete inputs.
use tvc.Prelude.{
  ℕ, ◌+◌, ◌*◌, ◌%◌, ◌^◌, ◌≡◌, refl, ◌↔◌, true, false, Option, none, some, List, [], ◌∷◌, ◌++◌,
  replicate, arith,
}
use tvc.Prelude.Int.{◌+ℤ◌}
use tvc.Prelude.Result.{ok}
use tvc.Float64
use tvc.Sim.Rng.{golden, draws, seeded, next_u64, mix}
use tvc.Sim.Rng.Period.{draws-state, draws-period}
use tvc.Wire.Bytes.{le_bytes, of_le}
use tvc.Wire.Frame.{frame_bytes, decode_datagram, payload_size, pack_head, unpack_head}
use tvc.Wire.Payload.{
  decode_payload, payload_fields, control_fields, check_payload_counts, decode_fields, unpack_value,
}
use tvc.Ground.Receiver.{
  Endpoint, opened, accept, accept_all, control_frame, control_tick, dispose, settle, write,
}
use tvc.Ground.Receiver.Conservation.{disposed, accept_all_conserves}
use tvc.Ground.Receiver.Recording.{IsKept, accept_all-IsKept}
use tvc.Wire.Raises.{RaisesValueErrors}
use tvc.Ground.Receiver.Errors.{control_frame-RaisesValueErrors}
use tvc.Ground.Collect.{Round, datagram, would_block, socket_error, collect}
use tvc.Ground.Collect.Conservation.{IsSound, collect-IsSound}
use tvc.Ground.Match.{
  Record, Delivery, match_streams, merge_all, merge, match_ground, match_equal, fresh_tally,
}
use tvc.Ground.Match.Accounting.{IsAccount, match_streams-IsAccount}
use tvc.Ground.Match.Subsequence.{match_streams_iff, IsSequence, IsThinned}
use tvc.Tests.WireRuns.{toy_crc}

draws-state_example : (draws 3 (seeded 42)).state ≡ (42 + 3 * golden) % 2 ^ 64
draws-state_example = draws-state 42 3

draws-period_example : ◌≡◌ {A = ℕ} 4 4
draws-period_example = draws-period 7 4 4 (omega arith) (omega arith) refl

-- A known output of SplitMix64 seeded with 0.
first_output : (next_u64 (seeded 0)).0 ≡ 0xE220A8397B1DCDAF
unfolding next_u64 seeded mix
first_output = refl

-- A control frame of a tick with all other fields zero.
abbrev frame_of : ℕ → List ℕ
frame_of tick = frame_bytes toy_crc 6 tick (le_bytes 8 tick ++ replicate 120 0)

abbrev vehicle_host : Endpoint
vehicle_host = ("127.0.0.1", 4000)

abbrev other_host : Endpoint
other_host = ("127.0.0.1", 4001)

-- Two frames, a copy, an older one, noise, a frame from elsewhere and one that cannot be written.
abbrev datagrams : List (List ℕ × Endpoint × Option ℕ)
datagrams =
    (frame_of 3, vehicle_host, some 142)
    ∷ (frame_of 5, vehicle_host, some 142)
    ∷ (frame_of 5, vehicle_host, some 142)
    ∷ (frame_of 4, vehicle_host, some 142)
    ∷ (7 ∷ [], vehicle_host, some 1)
    ∷ (frame_of 6, other_host, some 142)
    ∷ (frame_of 8, vehicle_host, none)
    ∷ []

datagrams_disposed :
    ((accept_all toy_crc datagrams opened).0.counters.received ≡ 7)
    × ((accept_all toy_crc datagrams opened).0.counters.recorded ≡ 2)
    × ((accept_all toy_crc datagrams opened).0.counters.foreign ≡ 1)
    × ((accept_all toy_crc datagrams opened).0.counters.malformed ≡ 1)
unfolding accept_all accept control_frame control_tick dispose settle write opened decode_datagram
    payload_size pack_head unpack_head le_bytes of_le frame_bytes toy_crc decode_payload
    payload_fields control_fields check_payload_counts decode_fields unpack_value Float64.is_finite
    ◌+ℤ◌
datagrams_disposed = (refl, refl, refl, refl)

accept_all_conserves_example :
    (accept_all toy_crc datagrams opened).0.counters.received
    ≡ disposed (accept_all toy_crc datagrams opened).0.counters
accept_all_conserves_example = accept_all_conserves toy_crc datagrams

accept_all-IsKept_example : IsKept toy_crc (accept_all toy_crc datagrams opened).0
accept_all-IsKept_example = accept_all-IsKept toy_crc datagrams

control_frame-RaisesValueErrors_example : RaisesValueErrors (control_frame toy_crc (frame_of 3))
control_frame-RaisesValueErrors_example = control_frame-RaisesValueErrors toy_crc (frame_of 3)

abbrev numbered_record : ℕ → ℕ → Record
numbered_record seq tick = record { seq = seq; tick = tick; raw = tick ∷ [] }

-- The ordinals pass 2^32.
abbrev vehicle_stream : List Record
vehicle_stream =
    numbered_record 4294967295 3
    ∷ numbered_record 0 5
    ∷ numbered_record 1 9
    ∷ numbered_record 2 12
    ∷ []

abbrev ground_stream : List Record
ground_stream = numbered_record 0 5 ∷ numbered_record 2 12 ∷ []

abbrev both : Delivery
both = record {
  vehicle_records = 4;
  ground_records = 2;
  leading_lost = 1;
  interior_lost = 1;
  trailing_lost = 0;
  ground_lost = 2;
}

streams_match : match_streams 4294967295 vehicle_stream ground_stream ≡ ok both
unfolding match_streams merge_all merge match_ground match_equal
streams_match = refl

match_streams-IsAccount_example : IsAccount fresh_tally vehicle_stream ground_stream both
match_streams-IsAccount_example =
    match_streams-IsAccount 4294967295 vehicle_stream ground_stream both streams_match

match_streams_iff_example :
    ((d : Delivery) × (match_streams 4294967295 vehicle_stream ground_stream ≡ ok d))
    ↔ (IsSequence 4294967295 0 none vehicle_stream × IsThinned ground_stream vehicle_stream)
match_streams_iff_example = match_streams_iff 4294967295 vehicle_stream ground_stream

-- Noise, an interrupted receive, then the end of the input and the deadline.
abbrev noisy_rounds : List Round
noisy_rounds =
    record {
      is_stopped = false;
      selected = some (true, false);
      read = none;
      now_ns = 1;
      turns =
          record {
            is_stopped = false;
            now_ns = 1;
            arrival = datagram (1 ∷ 2 ∷ []) ("10.0.0.9", 9) none;
          }
          ∷ record { is_stopped = false; now_ns = 1; arrival = socket_error 4 }
          ∷ record { is_stopped = false; now_ns = 1; arrival = would_block }
          ∷ [];
    }
    ∷ record {
      is_stopped = false;
      selected = some (false, true);
      read = some true;
      now_ns = 5;
      turns = record { is_stopped = false; now_ns = 100000005; arrival = would_block } ∷ [];
    }
    ∷ []

noisy_end :
    ((collect toy_crc none noisy_rounds opened).1 ≡ some (some true))
    × ((collect toy_crc none noisy_rounds opened).0.counters.socket_errors ≡ 1)
    × ((collect toy_crc none noisy_rounds opened).0.counters.malformed ≡ 1)
unfolding collect accept dispose control_frame decode_datagram opened
noisy_end = (refl, refl, refl)

collect-IsSound_example : IsSound toy_crc (collect toy_crc none noisy_rounds opened).0
collect-IsSound_example = collect-IsSound toy_crc noisy_rounds
