-- ===== src/Cli/Commands/Persisted/Inspecting.antt =====
-- cli/src/commands/{create, info, recover, state}.rs: no request carries a signature.
use winterwallet.Prelude.{ℕ, ◌≡◌, ◌⊎◌, refl, [], Bool, Option, none, some, ok, err, inr}
use winterwallet.Bytes.{Bytes}
use winterwallet.Core.Hash.{Hasher}
use winterwallet.Core.Keypair.{Hmac}
use winterwallet.Core.Keypair.Mnemonic.{Digests}
use winterwallet.Solana.{Address, Programs, AddressFinder}
use winterwallet.Cli.Host.{Host, World, WalletState, Disk, Message, Command, ◌>>◌}
use winterwallet.Cli.Host.Invariant.{
  Keeps, Turns, Yields-Keeps, Yields-lift, Keeps-println, Keeps→Leads, Yields-seq,
}
use winterwallet.Cli.State.{hex_encode, state_path, load, save, tick}
use winterwallet.Cli.State.Access.{Keeps-acquire_lock, Keeps-load}
use winterwallet.Cli.State.Save.{saved}
use winterwallet.Cli.Send.{or_client, ok_or_fail}
use winterwallet.Cli.Send.Exposure.{Keeps-read_mnemonic, Keeps-get_account, Keeps-or_foreign}
use winterwallet.Cli.Commands.Session.{or_core}
use winterwallet.Cli.Commands.Create
use winterwallet.Cli.Commands.Info
use winterwallet.Cli.Commands.Rescan
use winterwallet.Cli.Commands.Local
use winterwallet.Cli.Commands.Persisted.Sending.{IsCovered, Covered, At, AtStart, Saved, Turns-save}
use winterwallet.Cli.Commands.Persisted.Opening.{Starts, Starts-AtStart}
use winterwallet.Cli.Commands.Persisted.Printing

module _ ⦃host : Host⦄ ⦃mac : Hmac⦄ ⦃sha : Hasher⦄ ⦃digests : Digests⦄ ⦃ids : Programs⦄
    ⦃finder : AddressFinder⦄ (start : Disk) where
  abbrev L : World → Type 0
  L = Covered start

  abbrev Done : Unit {0} → World → Type 0
  Done _ = L

  Keeps-fill_random : Keeps (Starts start) Create.fill_random
  unfolding Create.fill_random tick
  Keeps-fill_random w h = Keeps-or_foreign (Starts start) _ (host.random w.clock) _ h

  -- A world on the disk of the start is at any wallet's stored position.
  from_start :
      (id : Bytes) (m : Command (Unit {0}))
      → Turns (AtStart start id) L L m
      → (w : World) → Starts start w
      → ((u : Unit {0}) × ((m w).0 ≡ ok u) × L (m w).1)
        ⊎ (((e : Message) × ((m w).0 ≡ err e)) × L (m w).1)
  from_start id m t w h = t w (Starts-AtStart start id w h)

  pub Turns-create : (json_output : Bool) → Turns (Starts start) L L (Create.run json_output)
  unfolding Create.run or_client ok_or_fail
  Turns-create json_output =
      let I = Starts start in
      Yields-Keeps I Done L Create.fill_random _ (λ w h. h.1) Keeps-fill_random
        (λ entropy.
          Yields-lift I Done L _ _ (λ w h. h.1)
            (λ words _.
              Yields-lift I Done L _ _ (λ w h. h.1)
                (λ id _.
                  let printed = Create.report json_output _ (hex_encode id) _ in
                  from_start [] printed (
                    Keeps→Leads (AtStart start []) L printed (λ w h. h.1)
                      (Printing.Keeps-create_report start [] _ json_output _ _ _)))))

  pub Turns-path : (json_output : Bool) → Turns (Starts start) L L (Local.path json_output)
  Turns-path json_output = from_start [] (Local.path json_output) (
      Keeps→Leads (AtStart start []) L (Local.path json_output) (λ w h. h.1)
        (Printing.Keeps-path start [] _ json_output))

  pub Turns-show : (json_output : Bool) → Turns (Starts start) L L (Local.show json_output)
  unfolding Local.show or_client tick
  Turns-show json_output =
      let I = Starts start in
      Yields-Keeps I Done L _ _ (λ w h. h.1) (Keeps-read_mnemonic I (λ w h. h))
        (λ mnemonic.
          Yields-lift I Done L _ _ (λ w h. h.1)
            (λ id _ w h.
              let hex = hex_encode id in
              let J = AtStart start hex in
              Yields-Keeps J Done L (load hex) _ (λ w h. h.1) (Keeps-load hex _ (IsCovered start))
                (λ loaded.
                  Keeps→Leads J L (Local.report json_output hex loaded) (λ w h. h.1)
                    (Printing.Keeps-local_report start hex _ json_output hex loaded))
                w (Starts-AtStart start hex w h)))

  Keeps-try_account :
      {A : Type 0} (I : World → Type 0) (m : Command A) → Keeps I m → Keeps I (Info.try_account m)
  unfolding Info.try_account
  Keeps-try_account I m k w h = k w h

  pub Turns-info :
      (rpc_url commitment : Bytes) (json_output : Bool)
      → Turns (Starts start) L L (Info.run rpc_url commitment json_output)
  unfolding Info.run or_client tick
  Turns-info rpc_url commitment json_output =
      let I = Starts start in
      Yields-Keeps I Done L _ _ (λ w h. h.1) (Keeps-read_mnemonic I (λ w h. h))
        (λ mnemonic.
          Yields-lift I Done L _ _ (λ w h. h.1)
            (λ id _ w h.
              let hex = hex_encode id in
              let J = AtStart start hex in
              Yields-Keeps J Done L (load hex) _ (λ w h. h.1) (Keeps-load hex _ (IsCovered start))
                (λ loaded.
                  Yields-Keeps J Done L _ _ (λ w h. h.1)
                    (Keeps-try_account J _ (
                      Keeps-get_account (state_path hex) _ (IsCovered start) (λ d m p _ q x. cc)
                        rpc_url commitment _))
                    (λ account.
                      Yields-lift J Done L _ _ (λ w h. h.1)
                        (λ wallet _.
                          Keeps→Leads J L (Info.report json_output hex _ loaded account wallet)
                            (λ w h. h.1)
                            (Printing.Keeps-info_report start hex _ json_output hex _ loaded account
                              wallet))))
                w (Starts-AtStart start hex w h)))

  Turns-settle_scan :
      (json_output : Bool) (hex : Bytes) (pda : Address) (max_depth : ℕ) (o : Option ℕ)
      → Turns (AtStart start hex) L L (Rescan.settle_scan json_output hex pda max_depth o)
  unfolding Rescan.settle_scan
  Turns-settle_scan json_output hex pda max_depth none = λ w h. inr ((_, refl), h.1)
  Turns-settle_scan json_output hex pda max_depth (some child) =
      let new : WalletState = record {
        wallet_id = hex;
        pda = host.display pda;
        parent = 0;
        child = child;
      } in
      Yields-seq (AtStart start hex) (Saved start new) Done L (save new) _ (Turns-save start new)
        (λ w (after, _, there).
          let printed = Rescan.report json_output hex pda child in
          Keeps→Leads (At start hex (saved after)) L printed (λ v k. k.1)
            (Printing.Keeps-rescan_report start hex _ json_output hex pda child) w there)

  pub Turns-rescan :
      (rpc_url commitment : Bytes) (max_depth : ℕ) (json_output : Bool)
      → Turns (Starts start) L L (Rescan.run rpc_url commitment max_depth json_output)
  unfolding Rescan.run or_client or_core ◌>>◌ tick
  Turns-rescan rpc_url commitment max_depth json_output =
      let I = Starts start in
      Yields-Keeps I Done L _ _ (λ w h. h.1) (Keeps-read_mnemonic I (λ w h. h))
        (λ mnemonic.
          Yields-lift I Done L _ _ (λ w h. h.1)
            (λ id _ w h.
              let hex = hex_encode id in
              let J = AtStart start hex in
              Yields-Keeps J Done L _ _ (λ w h. h.1)
                (Keeps-acquire_lock hex _ (IsCovered start) (λ d e. tt))
                (λ _.
                  Yields-Keeps J Done L _ _ (λ w h. h.1)
                    (Keeps-get_account (state_path hex) _ (IsCovered start) (λ d m p _ q x. cc)
                      rpc_url commitment _)
                    (λ account.
                      Yields-lift J Done L _ _ (λ w h. h.1)
                        (λ on_chain _.
                          Yields-Keeps J Done L _ _ (λ w h. h.1) (Keeps-println _ _ _ _ _)
                            (λ _.
                              Yields-lift J Done L _ _ (λ w h. h.1)
                                (λ master _. Turns-settle_scan json_output hex _ max_depth _)))))
                w (Starts-AtStart start hex w h)))
