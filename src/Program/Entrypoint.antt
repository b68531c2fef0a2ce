-- ===== src/Program/Entrypoint.antt =====
-- program/src/lib.rs: the dispatch on the discriminator.
use winterwallet.Prelude.{ℕ, List, ◌==◌, err, ◌>>=◌, ok_or, if◌then◌else◌}
use winterwallet.Bytes.{Bytes, split_first}
use winterwallet.Common.Discriminator
use winterwallet.Core.Hash.{Hasher}
use winterwallet.Solana.{
  AccountView, Ledger, Runtime, Programs, ProgramResult, invalid_instruction_data,
}
use winterwallet.Program.Initialize
use winterwallet.Program.Advance
use winterwallet.Program.Withdraw
use winterwallet.Program.Close

module _ ⦃sha : Hasher⦄ ⦃ids : Programs⦄ ⦃rt : Runtime⦄ where
  -- The `match` on the discriminator.
  unfoldable pub dispatch : ℕ → List AccountView → Bytes → Ledger → ProgramResult
  dispatch disc accounts rest ledger =
      if disc == Discriminator.initialize
      then Initialize.process accounts rest ledger
      else if disc == Discriminator.advance
      then Advance.process accounts rest ledger
      else if disc == Discriminator.withdraw
      then Withdraw.process accounts rest ledger
      else if disc == Discriminator.close
      then Close.process accounts rest ledger
      else err invalid_instruction_data

  unfoldable pub process_instruction : List AccountView → Bytes → Ledger → ProgramResult
  unfolding dispatch
  process_instruction accounts input ledger = do
    (disc, rest) ← ok_or (split_first input) invalid_instruction_data
    dispatch disc accounts rest ledger
