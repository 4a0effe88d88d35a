-- ===== src/Lib.antt =====
-- tvc: the pitch control of a thrust-vectored vehicle, its reference simulator and its ground link.
--
-- The repository's program has three sides. The simulator (sim/) steps a linearised pitch plant, draws
-- the losses of the two links and, on the reference path, runs the vehicle's episode policy and PID
-- controller in Python. The vehicle (src/, C++) is tested against that policy. The ground side
-- (ground/) frames and decodes what the two exchange, records telemetry and accounts for what was
-- lost. One cycle of an episode takes the held observation of the sensor, a command from the ground and
-- the simulator's reason to end, steps the policy, and sends the commanded angle to the actuator and
-- acknowledgements to the ground.
--
-- Files and the code they are about:
--   Prelude      shared names: tests on numbers, lists, integers, results of calls that may raise;
--                Prelude/Raising has methods that may raise and leave a state, Prelude/Json parsed
--                JSON documents
--   Float64      binary64 arithmetic on bit patterns, rounding to nearest even, as Python's floats
--   Sim/Types    sim/types.py: TruthState, Observation, ActuatorState, Environment, Disturbance
--   Sim/Plant    sim/fixmath.py psin, sim/actuator.py step (`actuate`), sim/plant.py step (`advance`),
--                sim/environment.py fixed, sim/sensor.py observe
--   Sim/ControlRef        sim/control_ref.py step; its bounds in ControlRef/Bounds
--   Sim/Episode           sim/episode.py step; Episode/Types has its enums and records,
--                         Episode/Commands `_prefix`, `_apply` and the arrival and delivery of commands
--   Sim/Episode/{Invariant, Acks, Modes, Outputs, Runs}   theorems on one cycle and on whole episodes
--   Sim/Rng      sim/rng.py SplitMix64 and sim/link.py draw_drop
--   Sim/Scenario sim/scenario.py Scenario, disturbance_at, command_at, forced_drop_at;
--                Scenario/Load has load from the parsed document on, Load/Soundness what it lets
--                through
--   Sim/Headless sim/run_headless.py run_headless, with the records of sim/trace.py; Headless/Rounds,
--                Headless/Ending and Headless/Completion are about its rounds and its end,
--                Headless/Loaded about scenarios that load lets through; Headless/Acceptance has
--                evaluate_rows of sim/trace.py, Headless/Cadence what it says of a trace
--   Sim/Freerun  sim/freerun.py Model, with its receipts (Freerun/Receipt, Freerun/Conservation), its
--                loss streams (Freerun/Streams) and roundtrip_observation (Freerun/Roundtrip);
--                Freerun/Peer has `execute`, Peer/Balance and Peer/Run its counters
--   Sim/Lockstep sim/run_sim.py `execute`: the exchange of a tick; Lockstep/Run has the ticks,
--                Lockstep/Balance and Lockstep/Ledger the counters
--   Wire/Frame   ground/wire.py encode_frame, decode_datagram
--   Wire/Stream  ground/wire.py decode_stream
--   Wire/Payload ground/wire.py encode_payload, decode_payload and the field tables
--   Wire/Actuator         actuator datagrams as the simulator's peers decode them
--   Wire/Recording        ground/wire.py read_recording, read_typed_recording
--   Ground/Receiver       ground/link.py control_frame, write_all and Receiver
--   Ground/Collect        ground/link.py collect, its rounds answered by an argument
--   Ground/Match          ground/link.py match_streams
--   Ground/Audit          ground/link.py check, from the parsed reports on
--   Evidence     scripts/reconcile.py: Evidence/Counters has sender_errors and receiver_errors,
--                Evidence/Terminal terminal_residual, terminal_order and terminal_causes,
--                Evidence/Walk the ticks that reconcile walks, Evidence/Reconcile its lockstep checks,
--                Evidence/ReconcileFreerun reconcile_freerun,
--                Evidence/Lockstep what they say of the lockstep peer's report,
--                Evidence/Observation the observation history and the ladder of
--                scripts/latency.py validate, Evidence/Validate the rest of it, Evidence/Histogram the
--                upper end of a bucket of the statistics, before it is divided and formatted
--   Sweep        scripts/sweep.py: Sweep/Levels has plan_levels, Sweep/Plan plan_runs, Sweep/Peer the
--                admission of a CPU for the peer and its record, Sweep/Audit the audits of it
--   Campaign     scripts/run_campaign.py: Campaign/Seeds has seed_range, Campaign/Manifest the matrix of cases
--                of validate_manifest, its modules Judged, Cases and Matrix what a valid one is
--   Tests        runs on concrete inputs
--
-- A Python function that may raise returns an option or a result; a method returns the new state of its
-- object with its value. A float is its 64-bit pattern, so NaNs and signed zeros are there. An integer
-- that Python masks is reduced modulo 2^32 or 2^64 where the source masks it. A dict of payload fields
-- is a list of names and values. The bytes that decode_stream has not looked at stand for its position;
-- its loop has one unit of fuel more than there are bytes, which is enough as each round that goes on
-- takes a byte (Wire/Stream/Totality). The other loops are recursion on their lists or on the ticks left.
--
-- The two peers of the simulator take the answers of the clock, the socket and the file as arguments: a
-- function from the number of a tick, a wake-up or an attempt to what was sent, recorded and received.
-- An exception of any kind ends a run as `none`, with the state that it leaves. Their loops are recursion
-- on the bodies, copies, attempts and ticks that are left, which the source bounds.
--
-- Outside the model: CRC-32C, from the google_crc32c package, is a parameter, of which only that
-- its values have 32 bits is assumed, and so is inet_pton; sockets, files and clocks, and the
-- parsing of JSON text; the exit codes, signal handlers and report texts of the peers; the
-- rest of the analysis, sweep and campaign scripts; and the C++ vehicle.
pub mod Prelude
pub mod Float64
pub mod Sim
pub mod Wire
pub mod Ground
pub mod Evidence
pub mod Sweep
pub mod Campaign
mod Tests
