-- ===== src/Examples/Clients.antt =====
-- Runs of the clients (client/src and cli/src).
use winterwallet.Prelude.{
  ◌⊎◌, ◌<◌, ◌*◌, List, [], ap, arith, length, none, ok, ok_or, refl, replicate, some, true, ℕ, ◌+◌,
  ◌∷◌, ◌≡◌, ◌≢◌, ◌≤◌,
}
use mathlib.Core.Option
use winterwallet.Bytes.{u32_mod, Bytes, bytes_eq, bytes_eq_refl}
use winterwallet.Core.Merkle.{merklize}
use winterwallet.Core.Merkle.Width.{length-merklize}
use winterwallet.Core.Privkey
use winterwallet.Core.Privkey.{to_pubkey}
use winterwallet.Core.Signature
use winterwallet.Core.Verify.{verify}
use winterwallet.Core.Keypair.{derive, increment_child, sign_and_increment}
use winterwallet.Core.Keypair.Position.{IsInRange, position}
use winterwallet.Client.Error.{position_overflow}
use winterwallet.Client.Plan.{AdvancePlan}
use winterwallet.Client.Transaction.{
  with_compute_budget, set_compute_unit_limit, set_compute_unit_price, validate_payer_only_signers,
  check_signers, validate_legacy_transaction_size, estimate_legacy_transaction_size,
  collect_accounts, sort_entries, insert_entry, rank, upsert_all, upsert_metas, upsert,
  legacy_message_size, size_loop, instruction_size, check_metas, is_missing, compact_u16_len,
  compact_loop, count_signers,
}
use winterwallet.Cli.Message.Budget.{padded_compute_unit_limit_lem}
use winterwallet.Cli.Message.{padded_compute_unit_limit, build_message, build_signed_wire_tx}
use winterwallet.Cli.Message.Size.{validate-build_signed_wire_tx}
use winterwallet.Solana.{Instruction, writable}
use winterwallet.Client.Position.{next, ensure_can_advance, from_keypair, next-increment_child}
use winterwallet.Client.Wallet.{
  UnsignedAdvance, SignedAdvance, preimage, signed, check_signer, sign,
}
use winterwallet.Client.Wallet.Signing.{sign_total, sign-verify}
use winterwallet.Cli.Recover.{root_at, recover, recover_finds, recover_fails}
use winterwallet.Examples.World.{
  test_programs, test_hasher, test_hmac, keypair, next_keypair, address,
}

abbrev plan : AdvancePlan
plan = record {
  wallet_pda = address 3;
  new_root = address 4;
  payload = record { data_bytes = 0 ∷ []; accounts = [] };
  account_addresses = [];
}

abbrev unsigned : UnsignedAdvance
unsigned = record {
  wallet_id = address 6;
  current_root = merklize (to_pubkey (derive 22 keypair));
  position = from_keypair keypair;
  plan = plan;
}

abbrev signature : Signature.WinternitzSignature
signature = Privkey.sign 22 (derive 22 keypair) (preimage unsigned)

abbrev made : SignedAdvance
made = signed unsigned (Signature.as_bytes signature) next_keypair

signs : sign unsigned keypair ≡ some (ok (made, next_keypair))
unfolding sign check_signer ensure_can_advance next sign_and_increment increment_child
signs = rw (bytes_eq_refl (merklize (to_pubkey (derive 22 keypair))))

keypair-IsInRange : IsInRange keypair
keypair-IsInRange = record { parent = omega arith; child = omega arith }

sign-verify_example :
    (sig : Signature.WinternitzSignature) × (made
      ≡ signed unsigned (Signature.as_bytes sig) next_keypair)
    × (verify 22 sig (preimage unsigned) unsigned.current_root ≡ true)
    × (from_keypair keypair ≡ unsigned.position)
    × (position next_keypair ≡ position keypair + 1)
sign-verify_example = sign-verify unsigned keypair next_keypair made keypair-IsInRange signs

sign_total_example : sign unsigned keypair ≢ none
sign_total_example = sign_total unsigned keypair

next-increment_child_example :
    next (from_keypair keypair)
    ≡ ok_or (Option.map from_keypair (increment_child keypair)) position_overflow
next-increment_child_example = next-increment_child keypair

recover_finds_example : recover keypair (root_at keypair 1) 3 ≡ some 1
recover_finds_example =
    recover_finds keypair (root_at keypair 1) 3 1 (omega arith) (omega arith) refl
      (λ c lo hi. absurd (omega arith))

no_root : (c : ℕ) → root_at keypair c ≢ []
no_root c e = absurd (
    omega (
      arith,
      ap length e,
      length-merklize
          (to_pubkey (derive 22 (record keypair { wallet = 0; parent = 0; child = c }))),
    ))

recover_fails_example : recover keypair [] 3 ≡ none
recover_fails_example = recover_fails keypair [] 3 (λ c lo hi. no_root c)

-- A transfer of the payer to itself, with a compute limit.
abbrev instructions : List Instruction
instructions =
    with_compute_budget
      (record {
        program_id = address 0;
        accounts = writable (address 7) true ∷ [];
        data_bytes = 5 ∷ [];
      }
        ∷ [])
      800000 0

validate-build_signed_wire_tx_example :
    (message : Bytes) × (build_message (address 7) instructions (address 8) ≡ ok message)
    × (length (build_signed_wire_tx message (replicate 64 1)) ≡ 223)
    × (223 ≤ 1232)
unfolding bytes_eq validate_payer_only_signers check_signers validate_legacy_transaction_size
    estimate_legacy_transaction_size collect_accounts sort_entries insert_entry rank upsert_all
    upsert_metas upsert legacy_message_size size_loop instruction_size check_metas is_missing
    compact_u16_len compact_loop count_signers with_compute_budget set_compute_unit_limit
    set_compute_unit_price
validate-build_signed_wire_tx_example =
    validate-build_signed_wire_tx (address 7) instructions (address 8) (replicate 64 1) 223 refl
      (refl, tt, (refl, tt, (refl, (refl, tt), tt))) refl refl refl refl

padded_compute_unit_limit_lem_example :
    (10000 ≤ padded_compute_unit_limit 250000)
    × (padded_compute_unit_limit 250000 < u32_mod)
    × (11 * 250000 ≤ 10 * padded_compute_unit_limit 250000
        ⊎ (padded_compute_unit_limit 250000 + 1 ≡ u32_mod))
padded_compute_unit_limit_lem_example = padded_compute_unit_limit_lem 250000 (omega arith)
