-- ===== src/Protocol/Registration.antt =====
-- An Initialize from end to end: the client's instruction (client/src/instruction.rs), signed by the
-- first key, and the program's handling of it (program/src/instructions/initialize.rs).
use winterwallet.Prelude.{
  ℕ, ◌+◌, ◌-◌, ◌≤◌, ◌<◌, ◌==◌, ◌≡◌, ◌≢◌, refl, ap, ◌∙◌, [], ◌∷◌, ◌++◌, length, ok, arith, some,
  true, false,
}
use mathlib.Core.Path.{subst}
use winterwallet.Bytes.{Bytes, u64_mod, bytes_eq_refl, split_first_chunk-append}
use winterwallet.Common.{winternitz_scalars, signature_len, winterwallet_seed, wallet_account_len}
use winterwallet.Core.Hash.{Hasher}
use winterwallet.Core.Keypair.{Hmac, WinternitzKeypair, derive}
use winterwallet.Core.Keypair.Position.{derive-IsLaidOut}
use winterwallet.Core.Layout.{IsLaidOut}
use winterwallet.Core.Merkle.{merklize}
use winterwallet.Core.Privkey.{sign}
use winterwallet.Core.Privkey.Recover.{sign-IsLaidOut, recover_pubkey-sign}
use winterwallet.Core.Signature
use winterwallet.Core.Signature.{WinternitzSignature}
use winterwallet.Core.Wire.{length-as_bytes, signature_parsed}
use winterwallet.Solana.{Account, AccountView, Ledger, Runtime, Programs, update}
use winterwallet.Solana.System.{SystemProgram, CanPay, IsPlain}
use winterwallet.Client.Instruction
use winterwallet.Client.Preimage.{initialize_preimage}
use winterwallet.Client.Pda.{wallet_id}
use winterwallet.Program.State
use winterwallet.Program.Initialize
use winterwallet.Program.Initialize.{recover_initialize_id}
use winterwallet.Program.Initialize.Opening.{Paid, rewritten, create_account-Opens}
use winterwallet.Program.Entrypoint.{dispatch, process_instruction}

-- The write of the wallet's fields into the account that was opened.
initialize_stores :
    (payer wallet : AccountView) (n : ℕ) (id root : Bytes) (bump : ℕ) (l l1 : Ledger)
    (account : Account)
    → payer.address ≢ wallet.address
    → Paid payer wallet n account l l1
    → length account.contents ≡ wallet_account_len
    → account.borrowed ≡ false
    → (l2 : Ledger) × (State.initialize wallet id root bump l1 ≡ ok l2)
      × Paid payer wallet n (record account { contents = id ++ (root ++ (bump ∷ [])) }) l l2
unfolding State.initialize State.try_from State.write State.to_bytes
initialize_stores payer wallet n id root bump l l1 account ne paid1 long free =
    let contents = id ++ (root ++ (bump ∷ [])) in
    let next : Account → Account = λ x. record x { contents = contents } in
    let before = l1 wallet.address in
    let borrow : before.borrowed ≡ false = ap (λ x. x.borrowed) paid1.0 ∙ free in
    let size : length before.contents ≡ wallet_account_len =
      ap (λ x. length x.contents) paid1.0 ∙ long in
    let fits : (length before.contents == wallet_account_len) ≡ true = ground arith in
    let l2 = update l1 wallet.address (next before) in
    (
      l2,
      rw (borrow, fits) refl,
      subst (λ x. Paid payer wallet n x l l2) (ap next paid1.0)
          (rewritten payer wallet n account (next before) l l1 ne paid1),
    )

module _ ⦃sha : Hasher⦄ ⦃mac : Hmac⦄ ⦃ids : Programs⦄ ⦃rt : Runtime⦄ where
  -- The signature that the wallet's first key makes for Initialize.
  abbrev pub first_signature : WinternitzKeypair → WinternitzSignature
  first_signature kp = sign winternitz_scalars (derive winternitz_scalars kp) initialize_preimage

  try_from_initialize :
      (payer wallet system_program : AccountView) (sig : WinternitzSignature) (root : Bytes)
      (l : Ledger)
      → (l wallet.address).owner ≡ ids.system_id
      → IsLaidOut winternitz_scalars (Signature.fields sig)
      → length root ≡ 32
      → Initialize.try_from
          (payer ∷ wallet ∷ system_program ∷ [])
          (Signature.as_bytes sig ++ root)
          l
        ≡ ok (record { payer = payer; wallet = wallet; signature = sig; root = root })
  unfolding Initialize.try_from
  try_from_initialize payer wallet system_program sig root l owned laid root_len = rw (
    owned,
    bytes_eq_refl ids.system_id,
    split_first_chunk-append signature_len (Signature.as_bytes sig) root
        (length-as_bytes winternitz_scalars sig laid),
    signature_parsed winternitz_scalars sig laid,
    root_len,
  )

  -- The program recovers the id that the client derives.
  recover_initialize_id-first :
      (kp : WinternitzKeypair) (payer wallet : AccountView) (root : Bytes)
      → recover_initialize_id
          (record { payer = payer; wallet = wallet; signature = first_signature kp; root = root })
        ≡ wallet_id kp
  unfolding recover_initialize_id wallet_id initialize_preimage
  recover_initialize_id-first kp payer wallet root = ap merklize (
      recover_pubkey-sign winternitz_scalars (derive winternitz_scalars kp) initialize_preimage
        (omega arith) (derive-IsLaidOut winternitz_scalars kp).0)

  -- If the system program does what it documents, a payer signs that is another account than the
  -- wallet's, both accounts are writable, the system program's, without data and unborrowed, the
  -- rent is a u64, the payer covers what the wallet's account lacks of the rent, the new root has
  -- 32 bytes, and the id that the client derives from the keypair has the wallet's account as its
  -- derived address, the program's run on the client's Initialize, signed by that keypair's key,
  -- succeeds. Then the wallet's account is the program's, holds that id, the root and the bump,
  -- and has at least the rent; the payer has paid what was lacking, and no other account has
  -- changed.
  pub initialize_registers :
      (kp : WinternitzKeypair) (payer wallet system_program : AccountView) (root : Bytes) (bump : ℕ)
      (l : Ledger) (rent : ℕ)
      → SystemProgram rt
      → CanPay payer wallet l
      → IsPlain (l wallet.address)
      → rt.minimum_balance wallet_account_len ≡ ok rent
      → rent < u64_mod
      → rent - (l wallet.address).lamports ≤ (l payer.address).lamports
      → length root ≡ 32
      → rt.derive_program_address (winterwallet_seed ∷ wallet_id kp ∷ []) ids.winterwallet_id
        ≡ some (wallet.address, bump)
      → (l' : Ledger) × (process_instruction
            (payer ∷ wallet ∷ system_program ∷ [])
            (Instruction.initialize payer.address wallet.address
              (Signature.as_bytes (first_signature kp))
              root).data_bytes
            l
          ≡ ok l')
        × Paid payer wallet
            (rent - (l wallet.address).lamports)
            (record {
              lamports = (l wallet.address).lamports + (rent - (l wallet.address).lamports);
              owner = ids.winterwallet_id;
              contents = wallet_id kp ++ (root ++ (bump ∷ []));
              borrowed = false;
            })
            l
            l'
  unfolding process_instruction dispatch Initialize.process Initialize.execute
      Instruction.initialize
  initialize_registers kp payer wallet system_program root bump l rent system pays plain rents small
        enough root_len derived =
      let sk = derive winternitz_scalars kp in
      let laid =
        sign-IsLaidOut winternitz_scalars sk initialize_preimage (omega arith)
          (derive-IsLaidOut winternitz_scalars kp) in
      let self : Initialize.Initialize = record {
        payer = payer;
        wallet = wallet;
        signature = first_signature kp;
        root = root;
      } in
      let front = winterwallet_seed ∷ wallet_id kp ∷ [] in
      let seeds = front ++ ((bump ∷ []) ∷ []) in
      let (l1, created, paid1) =
        create_account-Opens system self seeds l rent pays plain enough small
          (front, bump, refl, derived) rents in
      let (l2, stored, paid2) =
        initialize_stores payer wallet (rent - (l wallet.address).lamports) (wallet_id kp) root bump
          l l1 _ pays.3 paid1 refl refl in
      (
        l2,
        rw (
          try_from_initialize payer wallet system_program (first_signature kp) root l plain.0 laid
              root_len,
          recover_initialize_id-first kp payer wallet root,
          derived,
          bytes_eq_refl wallet.address,
          created,
          stored,
        ),
        paid2,
      )
