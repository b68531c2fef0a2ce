-- ===== src/Cli/Message/Bodies.antt =====
-- cli/src/helpers.rs: the bytes of a message against the size that client/src/transaction.rs counts.
use winterwallet.Prelude.{
  ℕ, suc, ◌+◌, ◌*◌, ◌%◌, ◌≤◌, ◌<◌, ◌≡◌, inl, inr, refl, ap, false, List, [], ◌∷◌, ◌++◌, length,
  arith, All, Bool-cases, some, ok, fail_if, >>=-eq-ok, ok_injective, length-append,
}
use winterwallet.Bytes.{Bytes, bytes_eq, u16_mod}
use winterwallet.Solana.{Address, AccountMeta, Instruction}
use winterwallet.Client.Transaction.{
  AccountEntry, compact_loop, compact_u16_len, is_missing, check_metas, instruction_size, size_loop,
  legacy_message_size,
}
use winterwallet.Cli.Message.{
  encode_compact_loop, encode_compact_u16, position, account_indices, message_instruction,
  message_instructions, key_bytes, assemble, message_of,
}

-- The client's length of a compact number is the number of bytes that are written.
pub length-encode_compact_u16 :
    (v : ℕ) → v < u16_mod → length (encode_compact_u16 (v % u16_mod)) ≡ compact_u16_len v
unfolding encode_compact_u16 encode_compact_loop compact_u16_len compact_loop
length-encode_compact_u16 v h = let e : v % u16_mod ≡ v = omega arith in rw e (ground arith)

position_found :
    (key : Address) (accounts : List AccountEntry)
    → is_missing key accounts ≡ false
    → (i : ℕ) × (position key accounts ≡ some i)
unfolding is_missing position
position_found key [] h = cc
position_found key (a ∷ accounts) h = elim (Bool-cases (bytes_eq a.pubkey key)) [
  | inl b ↦ (0, rw b)
  | inr b ↦ let (i, e) = position_found key accounts (rw b at h) in (suc i, rw (b, e))
]

indices_found :
    (accounts : List AccountEntry) (ms : List AccountMeta) {u : Unit {0}}
    → check_metas accounts ms ≡ ok u
    → (bs : Bytes) × (account_indices accounts ms ≡ ok bs) × (length bs ≡ length ms)
unfolding check_metas account_indices
indices_found accounts [] c = ([], refl, refl)
indices_found accounts (m ∷ ms) c = elim (Bool-cases (is_missing m.pubkey accounts)) [
  | inl b ↦ cc (b, c)
  | inr b ↦
      let (i, at) = position_found m.pubkey accounts b in
      let (bs, e, l) = indices_found accounts ms (rw b at c) in
      ((i % 256) ∷ bs, rw (at, e), ap suc l)
]

-- The bytes of one instruction have the size that is counted for it.
instruction_fits :
    (accounts : List AccountEntry) (ix : Instruction) {u : Unit {0}}
    → is_missing ix.program_id accounts ≡ false
    → check_metas accounts ix.accounts ≡ ok u
    → instruction_size ix < u16_mod
    → (bs : Bytes) × (message_instruction accounts ix ≡ ok bs) × (length bs ≡ instruction_size ix)
unfolding message_instruction instruction_size
instruction_fits accounts ix here checked small =
    let (i, at) = position_found ix.program_id accounts here in
    let (is, e, l) = indices_found accounts ix.accounts checked in
    let n = encode_compact_u16 (length ix.accounts % u16_mod) in
    let d = encode_compact_u16 (length ix.data_bytes % u16_mod) in
    (
      (i % 256) ∷ (n ++ (is ++ (d ++ ix.data_bytes))),
      rw (at, e),
      omega (
        arith,
        length-append n (is ++ (d ++ ix.data_bytes)),
        length-append is (d ++ ix.data_bytes),
        length-append d ix.data_bytes,
        length-encode_compact_u16 (length ix.accounts) (omega arith),
        length-encode_compact_u16 (length ix.data_bytes) (omega arith),
        l,
      ),
    )

size_loop_grows :
    (accounts : List AccountEntry) (ixs : List Instruction) (s t : ℕ)
    → size_loop accounts ixs s ≡ ok t
    → s + length ixs ≤ t
unfolding size_loop instruction_size
size_loop_grows accounts [] s t h = omega (arith, ok_injective h)
size_loop_grows accounts (ix ∷ ixs) s t h =
    let (_, _, h1) = >>=-eq-ok (fail_if (is_missing ix.program_id accounts) _) _ h in
    let (_, _, h2) = >>=-eq-ok (check_metas accounts ix.accounts) _ h1 in
    omega (arith, size_loop_grows accounts ixs _ t h2)

-- The bytes of the instructions have the size that `legacy_message_size` adds for them.
size_loop_fits :
    (accounts : List AccountEntry) (ixs : List Instruction) (s t : ℕ)
    → size_loop accounts ixs s ≡ ok t
    → t < u16_mod
    → (bs : Bytes) × (message_instructions accounts ixs ≡ ok bs) × (s + length bs ≡ t)
unfolding size_loop message_instructions
size_loop_fits accounts [] s t h small = ([], refl, omega (arith, ok_injective h))
size_loop_fits accounts (ix ∷ ixs) s t h small =
    elim (Bool-cases (is_missing ix.program_id accounts)) [
      | inl b ↦ cc (b, h)
      | inr b ↦
          let (_, metas, rest) = >>=-eq-ok (check_metas accounts ix.accounts) _ (rw b at h) in
          let (more, e, sum) = size_loop_fits accounts ixs (s + instruction_size ix) t rest small in
          let (one, f, l) = instruction_fits accounts ix b metas (omega arith) in
          (one ++ more, rw (f, e), omega (arith, length-append one more))
    ]

length-key_bytes :
    (accounts : List AccountEntry)
    → All (λ a. length a.pubkey ≡ 32) accounts
    → length (key_bytes accounts) ≡ length accounts * 32
unfolding key_bytes
length-key_bytes [] h = refl
length-key_bytes (a ∷ accounts) h =
    omega (arith, length-append a.pubkey (key_bytes accounts), h.0, length-key_bytes accounts h.1)

-- The message that the command-line client builds over a list of accounts has the size that the
-- library estimates for it.
pub message_fits :
    (accounts : List AccountEntry) (ixs : List Instruction) (blockhash : Bytes) (t : ℕ)
    → All (λ a. length a.pubkey ≡ 32) accounts
    → length blockhash ≡ 32
    → legacy_message_size accounts ixs ≡ ok t
    → t < u16_mod
    → (message : Bytes) × (message_of accounts ixs blockhash ≡ ok message) × (length message ≡ t)
unfolding legacy_message_size message_of
message_fits accounts ixs blockhash t keys hash_len h small =
    let (bs, e, sum) = size_loop_fits accounts ixs _ t h small in
    let many = size_loop_grows accounts ixs _ t h in
    let n = encode_compact_u16 (length accounts % u16_mod) in
    let k = encode_compact_u16 (length ixs % u16_mod) in
    (
      assemble accounts (length ixs) blockhash bs,
      rw e,
      omega (
        arith,
        sum,
        hash_len,
        length-key_bytes accounts keys,
        length-append n (key_bytes accounts ++ (blockhash ++ (k ++ bs))),
        length-append (key_bytes accounts) (blockhash ++ (k ++ bs)),
        length-append blockhash (k ++ bs),
        length-append k bs,
        length-encode_compact_u16 (length accounts) (omega arith),
        length-encode_compact_u16 (length ixs) (omega arith),
      ),
    )
