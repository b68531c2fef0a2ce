-- ===== src/Cli/Commands/Init.antt =====
-- cli/src/commands/init.rs.
use winterwallet.Prelude.{
  Bool, true, not, Option, none, some, [], ◌∷◌, Result, ok, err, replicate, length, ◌==◌,
  if◌then◌else◌,
}
use winterwallet.Bytes.{Bytes}
use winterwallet.Common.{ascii, winternitz_scalars, signature_len}
use winterwallet.Core.Hash.{Hasher}
use winterwallet.Core.Keypair.{Hmac, WinternitzKeypair, derive, sign_and_increment}
use winterwallet.Core.Keypair.Mnemonic.{Digests, from_mnemonic, from_mnemonic_at}
use winterwallet.Core.Merkle.{merklize}
use winterwallet.Core.Privkey.{to_pubkey}
use winterwallet.Core.Signature
use winterwallet.Core.Signature.{WinternitzSignature}
use winterwallet.Solana.{Address, Programs, AddressFinder}
use winterwallet.Client.Instruction.{initialize}
use winterwallet.Client.Pda.{find_wallet_address, wallet_id_from_mnemonic}
use winterwallet.Client.Position.{SigningPosition, next, from_keypair}
use winterwallet.Client.Preimage.{initialize_preimage}
use winterwallet.Cli.Json.{string, boolean}
use winterwallet.Cli.Host.{
  Host, WalletState, Command, Message, format, text, count, pure, lift, fail_if, println, ◌>>=◌,
  ◌>>◌,
}
use winterwallet.Cli.State.{hex_encode, acquire_lock, load, save, unless}
use winterwallet.Cli.Send.{
  SigningKey, TransactionPreview, or_client, pubkey, read_keypair, read_mnemonic,
  transaction_preview, simulate_sign_send,
}
use winterwallet.Cli.Commands.Session.{
  Options, or_core, preview_fields, print_preview, print_position, print_json, position_json,
}

-- `if let Some(existing)`
unfoldable pub refuse_existing : Option WalletState → Command (Unit {0})
refuse_existing none = pure tt
refuse_existing (some existing) = lift (
    err (
      format "wallet {} already initialized at position ({}, {})"
        (text existing.pda ∷ count existing.parent ∷ count existing.child ∷ [])))

-- The panic of `sign_and_increment`.
unfoldable pub or_overflow :
    Option (WinternitzSignature × WinternitzKeypair)
    → Result Message (WinternitzSignature × WinternitzKeypair)
or_overflow none = err (format "panicked" [])
or_overflow (some done) = ok done

-- The position that signs the Initialize preimage.
abbrev pub first_position : SigningPosition
first_position = record { wallet = 0; parent = 0; child = 0 }

-- The variables of `run` up to the preview.
pub record Start : Type 0 where
  pub payer : SigningKey
  pub id_hex : Bytes
  pub pda : Address
  pub keypair : WinternitzKeypair
  pub next_position : SigningPosition
  pub next_root : Bytes

module _ ⦃host : Host⦄ where
  unfoldable pub report_dry_run : Bool → Start → TransactionPreview → Command (Unit {0})
  report_dry_run json_output s preview =
      if json_output
      then print_json (
          ("dry_run", boolean true)
          ∷ ("action", string (ascii "init"))
          ∷ ("wallet_id", string s.id_hex)
          ∷ ("pda", string (host.display s.pda))
          ∷ preview_fields s.next_position preview)
      else do
        println "Dry run: initialize wallet" []
        println "  PDA:       {pda}" (text (host.display s.pda) ∷ [])
        print_preview s.next_position preview
        println "  Note:      live simulation requires signing and burns position (0, 0)" []

  unfoldable pub report_sent : Bool → Start → Bytes → SigningPosition → Command (Unit {0})
  report_sent json_output s signature position =
      if json_output
      then print_json (
          ("action", string (ascii "init"))
          ∷ ("wallet_id", string s.id_hex)
          ∷ ("pda", string (host.display s.pda))
          ∷ ("signature", string signature)
          ∷ ("position", position_json position)
          ∷ ("position_persisted_before_send", boolean true)
          ∷ [])
      else do
        println "Wallet initialized!" []
        println "  PDA:       {pda}" (text (host.display s.pda) ∷ [])
        println "  Tx:        {signature}" (text signature ∷ [])
        print_position position

  module _ ⦃mac : Hmac⦄ ⦃sha : Hasher⦄ ⦃digests : Digests⦄ ⦃ids : Programs⦄
      ⦃finder : AddressFinder⦄ where
    -- `run` up to the preview.
    unfoldable pub prepare : Options → Command Start
    prepare options = do
      payer ← read_keypair options.keypair_path
      mnemonic ← read_mnemonic
      id ← or_client "failed to derive wallet ID: {e}" (wallet_id_from_mnemonic mnemonic)
      let id_hex = hex_encode id
      acquire_lock id_hex
      loaded ← load id_hex
      refuse_existing loaded
      keypair ← or_core "invalid mnemonic: {e}" (from_mnemonic mnemonic 0)
      next_position ← or_client "failed to derive next position: {e}" (next first_position)
      next_keypair ←
          or_core "failed to derive next position: {e}" (
            from_mnemonic_at mnemonic next_position.wallet next_position.parent next_position.child)
      pure (record {
        payer = payer;
        id_hex = id_hex;
        pda = (find_wallet_address id).0;
        keypair = keypair;
        next_position = next_position;
        next_root = merklize (to_pubkey (derive winternitz_scalars next_keypair));
      })

    -- The state that is saved, by the keypair after the signature.
    unfoldable pub state_of : Start → WinternitzKeypair → WalletState
    state_of s keypair = record {
      wallet_id = s.id_hex;
      pda = host.display s.pda;
      parent = keypair.parent;
      child = keypair.child;
    }

    -- `run` from the signature on.
    unfoldable pub sign_and_send : Options → Start → Command (Unit {0})
    sign_and_send options s = do
      unless options.json_output (
          println
            "Static checks passed. Signing burns position (0, 0); local state will be advanced before network submission."
            [])
      done ←
          lift (or_overflow (sign_and_increment winternitz_scalars s.keypair initialize_preimage))
      let sig_bytes = Signature.as_bytes done.0
      fail_if (not (length sig_bytes == signature_len)) (format "signature size mismatch" [])
      let ix = initialize (pubkey s.payer) s.pda sig_bytes s.next_root
      let wallet_state = state_of s done.1
      save wallet_state
      signature ←
          simulate_sign_send options.rpc_url options.commitment s.payer (ix ∷ [])
            options.priority_fee_micro_lamports
      report_sent options.json_output s signature (from_keypair done.1)

    unfoldable pub run : Options → Command (Unit {0})
    run options = do
      s ← prepare options
      preview ←
          transaction_preview s.payer
            (initialize (pubkey s.payer) s.pda (replicate signature_len 0) s.next_root ∷ [])
            options.priority_fee_micro_lamports
      if options.dry_run
          then report_dry_run options.json_output s preview
          else sign_and_send options s
