-- ===== src/Wire.antt =====
-- ground/wire.py: frames, typed payloads, datagrams and recordings.
pub mod Errors
pub mod Bytes
pub mod Frame
pub mod Stream
pub mod Payload
pub mod Raises
pub mod Actuator
pub mod Recording
