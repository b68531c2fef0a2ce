-- ===== src/Protocol.antt =====
-- The client and the program together: what the client encodes and signs is what the program
-- decodes, verifies and replays.
pub mod Encoding
pub mod Replay
pub mod Loaded
pub mod Advance
pub mod Registration
pub mod Session
pub mod Account
