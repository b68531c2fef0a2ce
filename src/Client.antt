-- ===== src/Client.antt =====
-- The off-chain client (client/src), a module for each source file.
pub mod Error
pub mod Instruction
pub mod Preimage
pub mod Plan
pub mod State
pub mod Pda
pub mod Position
pub mod Transaction
pub mod Wallet
