-- ===== src/Cli.antt =====
-- The command-line client (cli/src): its commands, its local state, and the transactions it sends.
pub mod Message
pub mod Recover
pub mod Json
pub mod Host
pub mod Terminal
pub mod State
pub mod Send
pub mod Commands
