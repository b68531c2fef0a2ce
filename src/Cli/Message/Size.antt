-- ===== src/Cli/Message/Size.antt =====
-- cli/src/helpers.rs and client/src/transaction.rs: the size that is validated before a transaction is
-- sent, and the bytes that are sent.
use winterwallet.Prelude.{
  ℕ, ◌+◌, ◌*◌, ◌≤◌, ◌≡◌, inl, inr, refl, sym, ap, ◌∙◌, true, List, [], ◌++◌, ltb, length, arith,
  Bool-cases, ok, >>=-eq-ok, ok_injective, length-append,
}
use winterwallet.Bytes.{Bytes}
use winterwallet.Solana.{Address, Instruction}
use winterwallet.Client.Transaction.{
  AccountEntry, upsert, upsert_all, sort_entries, collect_accounts, compact_u16_len,
  legacy_message_size, count_signers, estimate_legacy_transaction_size,
  validate_legacy_transaction_size, validate_payer_only_signers, legacy_transaction_size_limit,
}
use winterwallet.Client.Transaction.Accounts.{
  AddressesHave, upsert_all-All, sort_entries-All, sort_entries-signers, upsert_all-Led,
  Led-signers,
}
use winterwallet.Cli.Message.{encode_compact_u16, build_message, build_signed_wire_tx}
use winterwallet.Cli.Message.Bodies.{length-encode_compact_u16, message_fits}

collected :
    (payer : Address) (ixs : List Instruction) (accounts : List AccountEntry)
    → collect_accounts payer ixs ≡ ok accounts
    → sort_entries (upsert_all (upsert [] payer true true) ixs) ≡ accounts
unfolding collect_accounts
collected payer ixs accounts h = ground arith

-- What the estimate is made of.
estimate_inv :
    (payer : Address) (ixs : List Instruction) (size : ℕ)
    → estimate_legacy_transaction_size payer ixs ≡ ok size
    → (accounts : List AccountEntry) × (t : ℕ) × (sort_entries
          (upsert_all (upsert [] payer true true) ixs)
        ≡ accounts)
      × (legacy_message_size accounts ixs ≡ ok t)
      × (compact_u16_len (count_signers accounts) + count_signers accounts * 64 + t ≡ size)
unfolding estimate_legacy_transaction_size
estimate_inv payer ixs size h =
    let (accounts, found, h1) = >>=-eq-ok (collect_accounts payer ixs) _ h in
    let (t, sized, h2) = >>=-eq-ok (legacy_message_size accounts ixs) _ h1 in
    (accounts, t, collected payer ixs accounts found, sized, ok_injective h2)

validate_inv :
    (payer : Address) (ixs : List Instruction) (size : ℕ)
    → validate_legacy_transaction_size payer ixs ≡ ok size
    → (estimate_legacy_transaction_size payer ixs ≡ ok size)
      × (size ≤ legacy_transaction_size_limit)
unfolding validate_legacy_transaction_size
validate_inv payer ixs size h =
    let (estimated, e, h1) = >>=-eq-ok (estimate_legacy_transaction_size payer ixs) _ h in
    elim (Bool-cases (ltb legacy_transaction_size_limit estimated)) [
      | inl b ↦ cc (b, h1)
      | inr b ↦
          let same : estimated ≡ size = ok_injective (rw b at h1) in
          (e ∙ ap (λ t. ok t) same, ground (arith, same))
    ]

-- If the addresses and the blockhash have 32 bytes and the signature 64, only the payer has to
-- sign, and the validation of the size succeeds, then `build_message` does not panic, and the
-- signed wire transaction over its message has exactly the validated number of bytes, at most
-- 1232.
pub validate-build_signed_wire_tx :
    (payer : Address) (ixs : List Instruction) (blockhash signature : Bytes) (size : ℕ)
    {u : Unit {0}}
    → length payer ≡ 32
    → AddressesHave (λ a. length a ≡ 32) ixs
    → length blockhash ≡ 32
    → length signature ≡ 64
    → validate_payer_only_signers payer ixs ≡ ok u
    → validate_legacy_transaction_size payer ixs ≡ ok size
    → (message : Bytes) × (build_message payer ixs blockhash ≡ ok message)
      × (length (build_signed_wire_tx message signature) ≡ size)
      × (size ≤ 1232)
unfolding build_message build_signed_wire_tx upsert count_signers
validate-build_signed_wire_tx payer ixs blockhash signature size payer_len keys hash_len sig_len
      signers valid =
    let (estimated, small) = validate_inv payer ixs size valid in
    let (accounts, t, sorted, sized, sum) = estimate_inv payer ixs size estimated in
    let start = upsert [] payer true true in
    let all =
      sort_entries-All (λ a. length a ≡ 32) (upsert_all start ixs)
        (upsert_all-All (λ a. length a ≡ 32) start ixs (payer_len, tt) keys) in
    let one : count_signers (sort_entries (upsert_all start ixs)) ≡ 1 =
      sort_entries-signers (upsert_all start ixs)
      ∙ Led-signers payer (upsert_all start ixs)
          (upsert_all-Led payer start ixs signers (refl, refl, refl)) in
    let total : compact_u16_len 1 + 1 * 64 + t ≡ size =
      rw (ap count_signers (sym sorted) ∙ one) at sum in
    let (message, built, l) =
      message_fits (sort_entries (upsert_all start ixs)) ixs blockhash t all hash_len
        (rw sorted sized) (omega arith) in
    (
      message,
      built,
      omega (
        arith,
        length-append (encode_compact_u16 1) (signature ++ message),
        length-append signature message,
        length-encode_compact_u16 1 (omega arith),
        total,
        l,
        sig_len,
      ),
      small,
    )
