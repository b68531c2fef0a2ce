-- ===== src/Client/Instruction.antt =====
-- client/src/instruction.rs: the instruction builders, and the encoding of inner instructions for
-- Advance.
use winterwallet.Prelude.{
  ℕ, ◌+◌, ◌%◌, ◌^◌, true, false, List, [], ◌∷◌, ◌++◌, map, ltb, length, Result, ok, ◌>>◌, fail_if,
  if◌then◌else◌,
}
use winterwallet.Bytes.{Bytes, to_le_bytes}
use winterwallet.Common.{max_passthrough_accounts, max_cpi_instruction_accounts}
use winterwallet.Common.Discriminator
use winterwallet.Solana.{Address, AccountMeta, Instruction, Programs, writable, readonly}
use winterwallet.Client.Error.{Error, payload_too_large}

module _ ⦃ids : Programs⦄ where
  unfoldable pub initialize : Address → Address → Bytes → Bytes → Instruction
  initialize payer wallet_pda signature_bytes next_root = record {
    program_id = ids.winterwallet_id;
    accounts = writable payer true ∷ writable wallet_pda false ∷ readonly ids.system_id false ∷ [];
    data_bytes = Discriminator.initialize ∷ (signature_bytes ++ next_root);
  }

  unfoldable pub advance : Address → List AccountMeta → Bytes → Bytes → Bytes → Instruction
  advance wallet_pda passthrough_accounts signature_bytes new_root payload = record {
    program_id = ids.winterwallet_id;
    accounts = writable wallet_pda false ∷ passthrough_accounts;
    data_bytes = Discriminator.advance ∷ (signature_bytes ++ (new_root ++ payload));
  }

  unfoldable pub withdraw : Address → Address → ℕ → Instruction
  withdraw wallet_pda receiver lamports = record {
    program_id = ids.winterwallet_id;
    accounts = writable wallet_pda false ∷ writable receiver false ∷ [];
    data_bytes = Discriminator.withdraw ∷ to_le_bytes 8 lamports;
  }

  unfoldable pub close : Address → Address → Instruction
  close wallet_pda receiver = record {
    program_id = ids.winterwallet_id;
    accounts = writable wallet_pda false ∷ writable receiver false ∷ [];
    data_bytes = Discriminator.close ∷ [];
  }

pub record AdvancePayload : Type 0 where
  pub data_bytes : Bytes
  pub accounts : List AccountMeta

-- `inner_instructions.iter().map(|ix| 1 + ix.accounts.len()).sum()`
abbrev pub total_accounts : List Instruction → ℕ
total_accounts [] = 0
total_accounts (ix ∷ ixs) = 1 + length ix.accounts + total_accounts ixs

-- A meta of the outer transaction: writable as before, and not a signer.
abbrev pub passthrough : AccountMeta → AccountMeta
passthrough meta =
    if meta.is_writable then writable meta.pubkey false else readonly meta.pubkey false

-- What one round of the loop appends to `data` and to `accounts`.
abbrev pub entry_bytes : Instruction → Bytes
entry_bytes ix =
    (length ix.accounts % 256) ∷ (to_le_bytes 2 (length ix.data_bytes % 2 ^ 16) ++ ix.data_bytes)

abbrev pub entry_accounts : Instruction → List AccountMeta
entry_accounts ix = readonly ix.program_id false ∷ map passthrough ix.accounts

-- The loop of `encode_advance` from `data` and `accounts` on.
unfoldable pub encode_loop :
    List Instruction → Bytes → List AccountMeta → Result Error AdvancePayload
encode_loop [] data_bytes accounts = ok (record { data_bytes = data_bytes; accounts = accounts })
encode_loop (ix ∷ ixs) data_bytes accounts = do
  fail_if (ltb max_cpi_instruction_accounts (length ix.accounts))
      (payload_too_large "inner instruction exceeds MAX_CPI_INSTRUCTION_ACCOUNTS (16)")
  fail_if (ltb 65535 (length ix.data_bytes))
      (payload_too_large "inner instruction data exceeds u16::MAX")
  encode_loop ixs (data_bytes ++ entry_bytes ix) (accounts ++ entry_accounts ix)

unfoldable pub encode_advance : List Instruction → Result Error AdvancePayload
encode_advance inner_instructions = do
  fail_if (ltb 255 (length inner_instructions))
      (payload_too_large "more than 255 inner instructions")
  fail_if (ltb max_passthrough_accounts (total_accounts inner_instructions))
      (payload_too_large "total passthrough accounts exceeds MAX_PASSTHROUGH_ACCOUNTS (128)")
  encode_loop inner_instructions ((length inner_instructions % 256) ∷ []) []
