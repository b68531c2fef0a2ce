-- ===== src/Protocol/Encoding.antt =====
-- client/src/instruction.rs: what `encode_advance` writes when it succeeds.
use winterwallet.Prelude.{
  ◌≤◌, ◌%◌, ◌≡◌, sym, ap, ◌∙◌, List, [], ◌∷◌, ◌++◌, ltb, length, ok, arith, append_assoc,
  append-nil, All, Bool-cases, inl, inr,
}
use winterwallet.Bytes.{Bytes}
use winterwallet.Common.{max_passthrough_accounts}
use winterwallet.Solana.{AccountMeta, Instruction}
use winterwallet.Client.Instruction.{
  AdvancePayload, total_accounts, entry_bytes, entry_accounts, encode_loop, encode_advance,
}

-- An inner instruction within the limits.
pub record Fits (ix : Instruction) : Type 0 where
  pub accounts : length ix.accounts ≤ 16
  pub data_bytes : length ix.data_bytes ≤ 65535

abbrev pub bodies : List Instruction → Bytes
bodies [] = []
bodies (ix ∷ ixs) = entry_bytes ix ++ bodies ixs

abbrev pub all_accounts : List Instruction → List AccountMeta
all_accounts [] = []
all_accounts (ix ∷ ixs) = entry_accounts ix ++ all_accounts ixs

encode_loop_lem :
    (ixs : List Instruction) (d : Bytes) (a : List AccountMeta) (p : AdvancePayload)
    → encode_loop ixs d a ≡ ok p
    → (p.data_bytes ≡ d ++ bodies ixs) × (p.accounts ≡ a ++ all_accounts ixs) × All Fits ixs
unfolding encode_loop
encode_loop_lem [] d a p h =
    let same : record { data_bytes = d; accounts = a } ≡ p = cc in
    (
      ap (λ t. t.data_bytes) (sym same) ∙ sym (append-nil d),
      ap (λ t. t.accounts) (sym same) ∙ sym (append-nil a),
      tt,
    )
encode_loop_lem (ix ∷ ixs) d a p h = elim (Bool-cases (ltb 16 (length ix.accounts))) [
  | inl big ↦ cc (big, h)
  | inr e ↦ elim (Bool-cases (ltb 65535 (length ix.data_bytes))) [
    | inl big ↦ cc (big, e, h)
    | inr f ↦
        let (hd, ha, all) =
          encode_loop_lem ixs (d ++ entry_bytes ix) (a ++ entry_accounts ix) p (rw (e, f) at h) in
        (
          hd ∙ append_assoc d (entry_bytes ix) (bodies ixs),
          ha ∙ append_assoc a (entry_accounts ix) (all_accounts ixs),
          (record { accounts = ground arith; data_bytes = ground arith }, all),
        )
  ]
]

-- Where `encode_advance` succeeds, its bytes are the count and the entries in order, its accounts
-- are the entries' in order, and every limit holds.
pub encode_advance_lem :
    (ixs : List Instruction) (p : AdvancePayload)
    → encode_advance ixs ≡ ok p
    → (p.data_bytes ≡ length ixs ∷ bodies ixs)
      × (p.accounts ≡ all_accounts ixs)
      × (length ixs ≤ 255)
      × (total_accounts ixs ≤ max_passthrough_accounts)
      × All Fits ixs
unfolding encode_advance
encode_advance_lem ixs p h = elim (Bool-cases (ltb 255 (length ixs))) [
  | inl big ↦ cc (big, h)
  | inr e ↦ elim (Bool-cases (ltb max_passthrough_accounts (total_accounts ixs))) [
    | inl big ↦ cc (big, e, h)
    | inr f ↦
        let (hd, ha, all) = encode_loop_lem ixs ((length ixs % 256) ∷ []) [] p (rw (e, f) at h) in
        let small : length ixs % 256 ≡ length ixs = ground arith in
        (hd ∙ ap (λ t. t ∷ bodies ixs) small, ha, ground arith, ground arith, all)
  ]
]
