-- ===== src/Program.antt =====
-- The on-chain program (program/src), a module for each source file.
pub mod State
pub mod Advance
pub mod Initialize
pub mod Withdraw
pub mod Close
pub mod Entrypoint
