-- ===== src/Cli/Commands.antt =====
-- cli/src/commands and cli/src/main.rs: the commands, and the choice between them.
pub mod Session
pub mod Withdraw
pub mod Close
pub mod Transfer
pub mod Init
pub mod Create
pub mod Info
pub mod Rescan
pub mod Local
pub mod Main
pub mod Persisted
