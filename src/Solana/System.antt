-- ===== src/Solana/System.antt =====
-- What the system program documents of its instructions, where the accounts let them succeed.
use winterwallet.Prelude.{
  ℕ, ◌+◌, ◌-◌, ◌≤◌, ◌<◌, ◌≡◌, ◌≢◌, List, [], ◌∷◌, ◌++◌, true, false, some, ok, replicate,
}
use winterwallet.Bytes.{Bytes, u64_mod}
use winterwallet.Solana.{Account, AccountView, Address, Ledger, Programs, Runtime, update}

-- The bytes that one call may add to an account.
abbrev pub max_data_increase : ℕ
max_data_increase = 10240

abbrev pub debit : AccountView → ℕ → Ledger → Ledger
debit payer n l =
    update l payer.address (record (l payer.address) { lamports = (l payer.address).lamports - n })

module _ ⦃ids : Programs⦄ where
  -- An account of the system program without data, that nobody borrows.
  abbrev pub IsPlain : Account → Type 0
  IsPlain a = (a.owner ≡ ids.system_id) × (a.contents ≡ []) × (a.borrowed ≡ false)

  -- A payer that the transaction lets spend, beside another account.
  abbrev pub CanPay : AccountView → AccountView → Ledger → Type 0
  CanPay payer target l =
      (payer.is_signer ≡ true)
      × (payer.is_writable ≡ true)
      × (target.is_writable ≡ true)
      × (payer.address ≢ target.address)
      × IsPlain (l payer.address)

  -- The seeds with their bump are a signature of the program for its derived address.
  abbrev pub Signs : Runtime → List Bytes → Address → Type 0
  Signs rt seeds a =
      (front : List Bytes) × (bump : ℕ) × (seeds ≡ front ++ ((bump ∷ []) ∷ []))
      × (rt.derive_program_address front ids.winterwallet_id ≡ some (a, bump))

  pub record SystemProgram (rt : Runtime) : Type 0 where
    pub creates :
        (payer target : AccountView) (n space : ℕ) (owner : Address) (seeds : List Bytes)
        (l : Ledger)
        → CanPay payer target l
        → Signs rt seeds target.address
        → IsPlain (l target.address)
        → (l target.address).lamports ≡ 0
        → n ≤ (l payer.address).lamports
        → space ≤ max_data_increase
        → rt.create_account payer target n space owner seeds l
          ≡ ok (
              update (debit payer n l) target.address (record {
                lamports = n;
                owner = owner;
                contents = replicate space 0;
                borrowed = false;
              }))
    pub transfers :
        (payer target : AccountView) (n : ℕ) (seeds : List Bytes) (l : Ledger)
        → CanPay payer target l
        → (l target.address).borrowed ≡ false
        → n ≤ (l payer.address).lamports
        → (l target.address).lamports + n < u64_mod
        → rt.transfer payer target n seeds l
          ≡ ok (
              update
                (debit payer n l)
                target.address
                (record (l target.address) { lamports = (l target.address).lamports + n }))
    pub allocates :
        (target : AccountView) (space : ℕ) (seeds : List Bytes) (l : Ledger)
        → target.is_writable ≡ true
        → Signs rt seeds target.address
        → IsPlain (l target.address)
        → space ≤ max_data_increase
        → rt.allocate target space seeds l
          ≡ ok
              (update l target.address (record (l target.address) { contents = replicate space 0 }))
    pub assigns :
        (target : AccountView) (owner : Address) (seeds : List Bytes) (l : Ledger)
        → target.is_writable ≡ true
        → Signs rt seeds target.address
        → (l target.address).owner ≡ ids.system_id
        → (l target.address).borrowed ≡ false
        → rt.assign target owner seeds l
          ≡ ok (update l target.address (record (l target.address) { owner = owner }))
