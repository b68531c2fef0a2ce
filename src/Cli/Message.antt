-- ===== src/Cli/Message.antt =====
-- cli/src/helpers.rs: the legacy message and the wire transaction.
pub mod Bodies
pub mod Size
pub mod Budget
use Prim.Native.String.{String}
use winterwallet.Prelude.{
  ℕ, zero, suc, ◌+◌, ◌*◌, ◌-◌, ◌/◌, ◌%◌, Bool, true, not, ◌&&◌, List, [], ◌∷◌, ◌++◌, ltb, length,
  min, max, replicate, if◌then◌else◌, Option, none, some, Result, ok, ◌>>=◌, ok_or,
}
use mathlib.Core.Option
use winterwallet.Bytes.{Bytes, bytes_eq, u16_mod, u32_mod, u64_mod}
use winterwallet.Solana.{Address, AccountMeta, Instruction}
use winterwallet.Client.Transaction.{AccountEntry, upsert, upsert_all, sort_entries}

-- The `loop` of `encode_compact_u16`, with rounds for any u16.
unfoldable pub encode_compact_loop : ℕ → ℕ → Bytes
encode_compact_loop zero v = []
encode_compact_loop (suc rounds) v =
    let rest = encode_compact_loop rounds (v / 128) in
    if ltb 0 (v / 128) then (v % 128 + 128) ∷ rest else (v % 128) ∷ []

unfoldable pub encode_compact_u16 : ℕ → Bytes
encode_compact_u16 val = encode_compact_loop 3 val

-- `accounts.iter().position(|a| a.pubkey == key)`
unfoldable pub position : Address → List AccountEntry → Option ℕ
position key [] = none
position key (a ∷ accounts) =
    let rest = position key accounts in
    if bytes_eq a.pubkey key then some 0 else Option.map suc rest

-- The panic of `expect`.
pub data Panic : Type 0 where
  expected : String → Panic

-- The indices of an instruction's accounts.
unfoldable pub account_indices : List AccountEntry → List AccountMeta → Result Panic Bytes
account_indices accounts [] = ok []
account_indices accounts (meta ∷ metas) = do
  idx ←
      ok_or (position meta.pubkey accounts)
        (expected "account missing from account list; upsert bug")
  rest ← account_indices accounts metas
  ok ((idx % 256) ∷ rest)

-- What the loop appends for one instruction.
unfoldable pub message_instruction : List AccountEntry → Instruction → Result Panic Bytes
message_instruction accounts ix = do
  prog_idx ←
      ok_or (position ix.program_id accounts)
        (expected "program ID missing from account list; upsert bug")
  indices ← account_indices accounts ix.accounts
  ok (
      (prog_idx % 256)
      ∷ (encode_compact_u16 (length ix.accounts % u16_mod)
          ++ (indices ++ (encode_compact_u16 (length ix.data_bytes % u16_mod) ++ ix.data_bytes))))

unfoldable pub message_instructions : List AccountEntry → List Instruction → Result Panic Bytes
message_instructions accounts [] = ok []
message_instructions accounts (ix ∷ ixs) = do
  first ← message_instruction accounts ix
  rest ← message_instructions accounts ixs
  ok (first ++ rest)

-- `accounts.iter().filter(test).count()`
unfoldable pub count : (AccountEntry → Bool) → List AccountEntry → ℕ
count test [] = 0
count test (a ∷ accounts) = (if test a then 1 else 0) + count test accounts

-- The addresses of the accounts, in order.
unfoldable pub key_bytes : List AccountEntry → Bytes
key_bytes [] = []
key_bytes (a ∷ accounts) = a.pubkey ++ key_bytes accounts

-- The parts of the message, in order.
abbrev pub assemble : List AccountEntry → ℕ → Bytes → Bytes → Bytes
assemble accounts num_instructions blockhash bodies =
    (count (λ a. a.is_signer) accounts % 256)
    ∷ (count (λ a. a.is_signer && not a.is_writable) accounts % 256)
    ∷ (count (λ a. not a.is_signer && not a.is_writable) accounts % 256)
    ∷ (encode_compact_u16 (length accounts % u16_mod)
        ++ (key_bytes accounts
            ++ (blockhash ++ (encode_compact_u16 (num_instructions % u16_mod) ++ bodies))))

-- `build_message` from the header on.
unfoldable pub message_of : List AccountEntry → List Instruction → Bytes → Result Panic Bytes
message_of accounts instructions blockhash = do
  bodies ← message_instructions accounts instructions
  ok (assemble accounts (length instructions) blockhash bodies)

unfoldable pub build_message : Address → List Instruction → Bytes → Result Panic Bytes
build_message payer instructions blockhash =
    message_of (sort_entries (upsert_all (upsert [] payer true true) instructions)) instructions
      blockhash

unfoldable pub build_unsigned_wire_tx : Bytes → ℕ → Bytes
build_unsigned_wire_tx message num_sigs =
    encode_compact_u16 (num_sigs % u16_mod) ++ (replicate (num_sigs * 64) 0 ++ message)

unfoldable pub build_signed_wire_tx : Bytes → Bytes → Bytes
build_signed_wire_tx message signature = encode_compact_u16 1 ++ (signature ++ message)

-- `saturating_mul(11).saturating_add(9) / 10`, in bounds.
unfoldable pub padded_compute_unit_limit : ℕ → ℕ
padded_compute_unit_limit units_consumed =
    let padded = min (min (units_consumed * 11) (u64_mod - 1) + 9) (u64_mod - 1) / 10 in
    min (max padded 10000) (u32_mod - 1)
