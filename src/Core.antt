-- ===== src/Core.antt =====
-- The crate winterwallet_core (core/src): Winternitz one-time signatures and their keys, a module
-- for each source file, and Merkle for `merklize`.
pub mod Hash
pub mod Error
pub mod Layout
pub mod Privkey
pub mod Signature
pub mod Pubkey
pub mod Merkle
pub mod Verify
pub mod Checksum
pub mod Wire
pub mod Keypair
