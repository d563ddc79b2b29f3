-- ===== src/Wire.antt =====
-- The MQTT helpers of broker/conveyor_subscriber.py, which conveyor_event_daemon.py and
-- broker/conveyor_web.py repeat letter by letter: what they write is in Encode, what they read in
-- Receive, and the proofs are in the other children.
pub mod Encode
pub mod Receive
pub mod Groups
pub mod Remlen
pub mod Segments
pub mod Packets
pub mod Names
pub mod Published
pub mod Plain
pub mod Frames
pub mod Progress
mod Examples
