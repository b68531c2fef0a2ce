-- ===== src/Lib.antt =====
-- WinterWallet is a wallet on Solana that is controlled by Winternitz one-time signatures. A wallet is
-- an account of an on-chain program that stores an id, a root and a bump. The root is the Merkle root of
-- the public key of the next one-time key pair. An Advance is signed by that key over the current root,
-- the new root, the accounts and the inner instructions; the program checks it, stores the new root, and
-- makes the inner calls with the wallet as a signer. Withdraw and Close are inner calls of the program
-- itself. The clients derive keys from a seed by position, plan, sign and persist an Advance, and send it.
--
-- Parts and files (the paths of the code are from the root of the repository):
--   Core       core/src. Hash is lib.rs (chain, hash); Privkey, Signature and Pubkey are the key types
--              with the layout that they share in Layout; Verify is `verify`; Merkle is `merklize`, whose
--              stack is a list with the top first; Keypair is keypair.rs, with Mnemonic for its words and seeds. Checksum,
--              Wire and the child modules hold proofs.
--   Common     common/src/lib.rs.
--   Solana     the types and services of the Solana crates that the code is written against, and in
--              System what the system program documents of its instructions.
--   Program    program/src: State, Advance, Initialize, Withdraw, Close, and Entrypoint (lib.rs). The
--              ledger is a function from addresses to accounts that each handler takes and returns, so that
--              two views of one address share their account.
--   Client     client/src, a module for each file; Position is the first part of wallet.rs.
--   Cli        cli/src: Message is the message building of helpers.rs, Send its requests and its pipeline,
--              Terminal its `trim`; State is state.rs; Recover is the scan of commands/recover.rs; Commands has a module for each
--              file of commands (Rescan is recover.rs, Local is state.rs), Session for what withdraw, transfer
--              and close repeat, and Main for main.rs. Host is the machine, and Json the values of serde_json.
--   Protocol   proofs that put the client and the program together.
--   Examples   concrete services and runs.
--   Prelude and Bytes hold what all parts share.
--
-- Conventions. An operation has the name of its function in the code. A Rust Result is a Result, `?` is
-- its bind; an error of the program leaves no ledger, as a failed transaction is rolled back. A panic is
-- `none`, or an error of its own (`panic`, Panic). A u8, u16, u32 or u64 is a natural number with the
-- wrap-around, the saturation or the check of the code written out, and a byte string is a list of
-- numbers. The const parameter N is an argument.
--
-- Bounds. Loops over slices are recursion on lists. `while` loops that shift a number have a number of
-- rounds: 9 after the first for `compact_u16_len` on a usize (7 bits each), 3 for `encode_compact_u16` on
-- a u16. The specification of the Merkle tree has as many rounds as leaves.
--
-- Interfaces. SHA-256 is Hasher: 32 bytes, and a digest of slices is that of their concatenation.
-- HMAC-SHA512 is Hmac: 64 bytes. The addresses of programs are Programs, the calls of the program into
-- the runtime are Runtime, and the search for an address is AddressFinder. What a theorem relies on of
-- these is among its hypotheses. Nothing is assumed on the strength of the hash.
--
-- The command-line client. A command is a function of a World (disk, directories, locks, printed lines and
-- a history) that returns the world after it, also with an error. The history holds the disk after each
-- system call that may change it and the requests with the disk of that moment, so that a claim on the
-- history is one on every moment at which the process may be interrupted. Host says which system call
-- fails and what the server answers, by the number of calls so far. One process runs: that another one
-- holds the lock is a failing call. What a power failure leaves of unsynced data is not modelled. A
-- `String` error and a printed line are templates with their arguments. SHA-256 of the crate sha2 and
-- PBKDF2 are Digests; the word list is written out in Core/Keypair/Mnemonic/Wordlist.
--
-- Not modelled: Display and Debug of the errors and keys, zeroizing, the parsing of the
-- arguments (clap), the progress lines and times of the scan, the
-- TypeScript client, tests and scripts. The MaybeUninit arrays are lists.
pub mod Prelude
pub mod Bytes
pub mod Core
pub mod Common
pub mod Solana
pub mod Program
pub mod Client
pub mod Cli
pub mod Protocol
pub mod Examples
