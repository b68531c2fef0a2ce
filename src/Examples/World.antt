-- ===== src/Examples/World.antt =====
-- Concrete services, a keypair and a wallet for the tests.
use winterwallet.Prelude.{
  ℕ, zero, suc, ◌+◌, ◌*◌, ◌%◌, ◌≡◌, refl, ap, List, [], ◌∷◌, true, false, arith, length, replicate,
  All, concat, append-nil, some, ok,
}
use winterwallet.Bytes.{Bytes, IsByte}
use winterwallet.Core.Hash.{Hasher}
use winterwallet.Core.Keypair.{Hmac, WinternitzKeypair}
use winterwallet.Solana.{Address, AccountView, Programs, Runtime, AddressFinder, update}
use winterwallet.Solana.System.{debit}

abbrev pub total : Bytes → ℕ
total [] = 0
total (b ∷ bs) = b + 3 * total bs

pub All-replicate {ℓ κ} :
    {A : Type ℓ} (P : A → Type κ) (n : ℕ) (x : A) → P x → All P (replicate n x)
All-replicate P zero x h = tt
All-replicate P (suc n) x h = (h, All-replicate P n x h)

-- A digest of the sum and the length.
abbrev pub digest : Bytes → Bytes
digest bs = (total bs % 256) ∷ (length bs % 256) ∷ replicate 30 7

instance abbrev pub test_hasher : Hasher
test_hasher = record {
  hashv = λ parts. digest (concat parts);
  length-hashv = λ parts. refl;
  hashv-IsBytes = λ parts. (omega arith, (omega arith, All-replicate IsByte 30 7 (omega arith)));
  hashv-concat = λ parts. ap digest (concat_one parts);
}
  where
    concat_one : (parts : List Bytes) → concat parts ≡ concat (concat parts ∷ [])
    concat_one parts = rw append-nil

instance abbrev pub test_hmac : Hmac
test_hmac = record {
  hmac_sha512 = λ key message. (total key % 256) ∷ (total message % 256) ∷ replicate 62 5;
  length-hmac_sha512 = λ key message. refl;
}

-- The address of 32 bytes `b`.
abbrev pub address : ℕ → Address
address b = replicate 32 b

instance abbrev pub test_programs : Programs
test_programs = record {
  winterwallet_id = address 1;
  system_id = address 0;
  compute_budget_id = address 2;
}

abbrev pub wallet_bump : ℕ
wallet_bump = 254

-- Inner calls succeed and change nothing; the account services do what their names say.
instance abbrev pub test_runtime : Runtime
test_runtime = record {
  invoke_signed = λ instruction views seeds ledger. ok ledger;
  minimum_balance = λ len. ok (len * 10);
  derive_program_address = λ seeds program. some (address 3, wallet_bump);
  create_account = λ payer target lamports space owner seeds ledger. ok (
      update (debit payer lamports ledger) target.address (record {
        lamports = lamports;
        owner = owner;
        contents = replicate space 0;
        borrowed = false;
      }));
  transfer = λ payer target n seeds ledger. ok (
      update (debit payer n ledger) target.address
        (record (ledger target.address) { lamports = (ledger target.address).lamports + n }));
  allocate = λ target space seeds ledger. ok (
      update ledger target.address
        (record (ledger target.address) { contents = replicate space 0 }));
  assign = λ target owner seeds ledger.
      ok (update ledger target.address (record (ledger target.address) { owner = owner }));
  close_account = λ view ledger. ok (
      update ledger view.address
        (record { lamports = 0; owner = address 0; contents = []; borrowed = false }));
}

instance abbrev pub test_finder : AddressFinder
test_finder = record { find_program_address = λ seeds program. (address 3, wallet_bump) }

abbrev pub keypair : WinternitzKeypair
keypair = record {
  key = replicate 32 8;
  chain_code = replicate 32 9;
  wallet = 0;
  parent = 0;
  child = 0;
}

abbrev pub next_keypair : WinternitzKeypair
next_keypair = record keypair { child = 1 }

-- A view without flags.
abbrev pub view : ℕ → AccountView
view b = record { address = address b; is_signer = false; is_writable = true; executable = false }

abbrev pub program_view : ℕ → AccountView
program_view b = record {
  address = address b;
  is_signer = false;
  is_writable = false;
  executable = true;
}
