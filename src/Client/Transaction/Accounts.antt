-- ===== src/Client/Transaction/Accounts.antt =====
-- client/src/transaction.rs: the account list of a message, its addresses and its signers.
use winterwallet.Prelude.{
  ◌+◌, ◌≡◌, inl, inr, refl, ap, ◌∙◌, Bool, true, false, not, ◌&&◌, List, [], ◌∷◌, leb,
  if◌then◌else◌, arith, All, Bool-cases, ok, >>=-eq-ok,
}
use winterwallet.Bytes.{bytes_eq, bytes_eq→eq, bytes_eq_refl}
use winterwallet.Solana.{Address, AccountMeta, Instruction}
use winterwallet.Client.Transaction.{
  AccountEntry, upsert, upsert_metas, upsert_all, rank, insert_entry, sort_entries, count_signers,
  check_signers, validate_payer_only_signers,
}

-- Every address of the instructions.
abbrev pub AddressesHave {ℓ} : (Address → Type ℓ) → List Instruction → Type ℓ
AddressesHave P [] = Unit
AddressesHave P (ix ∷ ixs) =
    P ix.program_id × All (λ m. P m.pubkey) ix.accounts × AddressesHave P ixs

module _ {ℓ} (P : Address → Type ℓ) where
  abbrev Keyed : List AccountEntry → Type ℓ
  Keyed = All (λ a. P a.pubkey)

  upsert-All :
      (as' : List AccountEntry) (key : Address) (s w : Bool)
      → Keyed as'
      → P key
      → Keyed (upsert as' key s w)
  unfolding upsert
  upsert-All [] key s w h p = (p, tt)
  upsert-All (a ∷ as') key s w h p = elim (Bool-cases (bytes_eq a.pubkey key)) [
    | inl b ↦ rw b (h.0, h.1)
    | inr b ↦ rw b (h.0, upsert-All as' key s w h.1 p)
  ]

  upsert_metas-All :
      (as' : List AccountEntry) (ms : List AccountMeta)
      → Keyed as'
      → All (λ m. P m.pubkey) ms
      → Keyed (upsert_metas as' ms)
  unfolding upsert_metas
  upsert_metas-All as' [] h p = h
  upsert_metas-All as' (m ∷ ms) h p =
      upsert_metas-All (upsert as' m.pubkey m.is_signer m.is_writable) ms
        (upsert-All as' m.pubkey m.is_signer m.is_writable h p.0) p.1

  pub upsert_all-All :
      (as' : List AccountEntry) (ixs : List Instruction)
      → Keyed as'
      → AddressesHave P ixs
      → Keyed (upsert_all as' ixs)
  unfolding upsert_all
  upsert_all-All as' [] h p = h
  upsert_all-All as' (ix ∷ ixs) h p =
      upsert_all-All (upsert_metas (upsert as' ix.program_id false false) ix.accounts) ixs
        (upsert_metas-All (upsert as' ix.program_id false false) ix.accounts
          (upsert-All as' ix.program_id false false h p.0) p.1)
        p.2

  insert_entry-All :
      (a : AccountEntry) (xs : List AccountEntry)
      → P a.pubkey
      → Keyed xs
      → Keyed (insert_entry a xs)
  unfolding insert_entry
  insert_entry-All a [] p h = (p, tt)
  insert_entry-All a (x ∷ xs) p h = elim (Bool-cases (leb (rank a) (rank x))) [
    | inl b ↦ rw b (p, (h.0, h.1))
    | inr b ↦ rw b (h.0, insert_entry-All a xs p h.1)
  ]

  pub sort_entries-All : (xs : List AccountEntry) → Keyed xs → Keyed (sort_entries xs)
  unfolding sort_entries
  sort_entries-All [] h = tt
  sort_entries-All (x ∷ xs) h = insert_entry-All x (sort_entries xs) h.0 (sort_entries-All xs h.1)

insert_entry-signers :
    (a : AccountEntry) (xs : List AccountEntry)
    → count_signers (insert_entry a xs) ≡ count_signers (a ∷ xs)
unfolding insert_entry count_signers
insert_entry-signers a [] = refl
insert_entry-signers a (x ∷ xs) = elim (Bool-cases (leb (rank a) (rank x))) [
  | inl b ↦ rw b
  | inr b ↦ rw b (omega (arith, insert_entry-signers a xs))
]

pub sort_entries-signers :
    (xs : List AccountEntry) → count_signers (sort_entries xs) ≡ count_signers xs
unfolding sort_entries count_signers
sort_entries-signers [] = refl
sort_entries-signers (x ∷ xs) =
    insert_entry-signers x (sort_entries xs)
    ∙ ap (λ t. (if x.is_signer then 1 else 0) + t) (sort_entries-signers xs)

-- The payer is the first entry and the only signer.
abbrev pub Led : Address → List AccountEntry → Type 0
Led payer [] = ⊥
Led payer (a ∷ as') = (a.pubkey ≡ payer) × (a.is_signer ≡ true) × (count_signers as' ≡ 0)

upsert-signers :
    (as' : List AccountEntry) (key : Address) (w : Bool)
    → count_signers as' ≡ 0
    → count_signers (upsert as' key false w) ≡ 0
unfolding upsert count_signers
upsert-signers [] key w h = refl
upsert-signers (a ∷ as') key w h = elim (Bool-cases a.is_signer) [
  | inl s ↦ absurd (omega (arith, rw s at h))
  | inr s ↦ elim (Bool-cases (bytes_eq a.pubkey key)) [
    | inl b ↦ rw (b, s) (omega (arith, rw s at h))
    | inr b ↦
        let ih = upsert-signers as' key w (omega (arith, rw s at h)) in
        rw (b, s) (omega (arith, ih))
  ]
]

-- An upsert that does not ask for another signature than the payer's.
upsert-Led :
    (payer : Address) (as' : List AccountEntry) (key : Address) (s w : Bool)
    → (s && not (bytes_eq key payer)) ≡ false
    → Led payer as'
    → Led payer (upsert as' key s w)
unfolding upsert
upsert-Led payer [] key s w ok_key h = absurd h
upsert-Led payer (a ∷ as') key s w ok_key h = elim (Bool-cases (bytes_eq a.pubkey key)) [
  | inl b ↦ rw b (h.0, rw h.1, h.2)
  | inr b ↦ elim (Bool-cases s) [
    | inr off ↦ rw (b, off) (h.0, h.1, upsert-signers as' key w h.2)
    | inl on ↦
        let here : bytes_eq key payer ≡ true = ground arith in
        let found : bytes_eq a.pubkey key ≡ true =
          rw (h.0, bytes_eq→eq key payer here) (bytes_eq_refl payer) in
        cc (found, b)
  ]
]

upsert_metas-Led :
    (payer : Address) (as' : List AccountEntry) (ms : List AccountMeta) {u : Unit {0}}
    → check_signers payer ms ≡ ok u
    → Led payer as'
    → Led payer (upsert_metas as' ms)
unfolding upsert_metas check_signers
upsert_metas-Led payer as' [] c h = h
upsert_metas-Led payer as' (m ∷ ms) c h =
    elim (Bool-cases (m.is_signer && not (bytes_eq m.pubkey payer))) [
      | inl bad ↦ cc (bad, c)
      | inr fine ↦
          upsert_metas-Led payer (upsert as' m.pubkey m.is_signer m.is_writable) ms (rw fine at c)
            (upsert-Led payer as' m.pubkey m.is_signer m.is_writable fine h)
    ]

pub upsert_all-Led :
    (payer : Address) (as' : List AccountEntry) (ixs : List Instruction) {u : Unit {0}}
    → validate_payer_only_signers payer ixs ≡ ok u
    → Led payer as'
    → Led payer (upsert_all as' ixs)
unfolding upsert_all validate_payer_only_signers
upsert_all-Led payer as' [] c h = h
upsert_all-Led payer as' (ix ∷ ixs) c h =
    let (_, metas, rest) = >>=-eq-ok (check_signers payer ix.accounts) _ c in
    let start = upsert as' ix.program_id false false in
    upsert_all-Led payer (upsert_metas start ix.accounts) ixs rest (
      upsert_metas-Led payer start ix.accounts metas
        (upsert-Led payer as' ix.program_id false false refl h))

-- A led list has one signer.
pub Led-signers :
    (payer : Address) (as' : List AccountEntry) → Led payer as' → count_signers as' ≡ 1
unfolding count_signers
Led-signers payer [] h = absurd h
Led-signers payer (a ∷ as') h = rw h.1 (omega (arith, h.2))
