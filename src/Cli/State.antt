-- ===== src/Cli/State.antt =====
-- cli/src/state.rs: the position file of a wallet and its lock. The disk is what the process and
-- later processes see; what a power failure leaves of unsynced data is the file system's.
pub mod Steps
pub mod Atomic
pub mod Save
pub mod Access
use Prim.Native.String.{String}
use winterwallet.Prelude.{
  ℕ, zero, suc, ◌+◌, ◌-◌, ◌/◌, ◌%◌, Bool, true, false, not, Option, none, some, List, [], ◌∷◌, ◌++◌,
  Result, ok, err, map_err, if◌then◌else◌, take, ltb, ◌==◌,
}
use mathlib.Core.Option
use winterwallet.Bytes.{Bytes, bytes_eq}
use winterwallet.Common.{ascii}
use winterwallet.Client.Wallet.{SignedAdvance}
use winterwallet.Cli.Host.{
  Host, World, WalletState, Command, Message, format, Arg, text, foreign, File, Disk, wrote, pure,
  fail, lift, ◌>>=◌, ◌>>◌,
}

-- The last character.
unfoldable pub last : Bytes → Option ℕ
last [] = none
last (c ∷ []) = some c
last (c ∷ d ∷ cs) = last (d ∷ cs)

unfoldable pub separator : Option ℕ → Bytes
separator none = []
separator (some c) = if c == 47 then [] else 47 ∷ []

-- `dir.join(name)` of a relative name.
unfoldable pub join : Bytes → Bytes → Bytes
join dir name = dir ++ (separator (last dir) ++ name)

unfoldable pub state_path_in : Bytes → Bytes → Bytes
state_path_in dir wallet_id_hex = join dir (wallet_id_hex ++ ascii ".json")

unfoldable pub lock_path_in : Bytes → Bytes → Bytes
lock_path_in dir wallet_id_hex = join dir (wallet_id_hex ++ ascii ".lock")

unfoldable pub hex_digit : ℕ → ℕ
hex_digit n = if ltb n 10 then 48 + n else 87 + n

-- `hex_encode`
unfoldable pub hex_encode : Bytes → Bytes
hex_encode [] = []
hex_encode (b ∷ bs) = hex_digit (b / 16) ∷ hex_digit (b % 16) ∷ hex_encode bs

-- The disk with a file replaced, or removed.
unfoldable pub put_file : Bytes → Option File → Disk → Disk
put_file path file disk p = if bytes_eq path p then file else disk p

unfoldable pub change_disk : (Disk → Disk) → World → World
change_disk change w = record w {
  disk = change w.disk;
  history = wrote (change w.disk) ∷ w.history;
}

unfoldable pub tick : World → World
tick w = record w { clock = suc w.clock }

-- A system call that fails or has its effect.
unfoldable pub attempt : Option Bytes → String → List Arg → (World → World) → Command (Unit {0})
attempt none template args effect w = (ok tt, effect (tick w))
attempt (some e) template args effect w = (err (format template (args ++ (foreign e ∷ []))), tick w)

-- The contents that a read returns.
unfoldable pub found : Option File → String → List Arg → Command Bytes
found (some file) template args = pure file.contents
found none template args =
    fail (format template (args ++ (foreign (ascii "No such file or directory") ∷ [])))

-- The file of a name that `open` leaves, with and without `truncate`.
unfoldable pub truncated : ℕ → Option File → Option File
truncated new_mode none = some (record { contents = []; mode = new_mode })
truncated new_mode (some file) = some (record file { contents = [] })

unfoldable pub kept : ℕ → Option File → Option File
kept new_mode none = some (record { contents = []; mode = new_mode })
kept new_mode (some file) = some file

unfoldable pub with_contents : Bytes → Option File → Option File
with_contents bytes file = Option.map (λ (f : File). record f { contents = bytes }) file

unfoldable pub with_mode : ℕ → Option File → Option File
with_mode mode file = Option.map (λ (f : File). record f { mode = mode }) file

-- A change of one file, by its old value.
unfoldable pub change_file : Bytes → (Option File → Option File) → Disk → Disk
change_file path change disk = put_file path (change (disk path)) disk

-- The permission bits of the state directory (0o700) and of the state file (0o600).
abbrev pub private_directory : ℕ
private_directory = 448

abbrev pub private_file : ℕ
private_file = 384

unfoldable pub set_directory : Bytes → ℕ → World → World
set_directory dir mode w = record w {
  directories = λ d. if bytes_eq dir d then some mode else w.directories d;
}

unfoldable pub is_some {ℓ} : {A : Type ℓ} → Option A → Bool
is_some none = false
is_some (some a) = true

-- `if !test { .. }`
unfoldable pub unless : Bool → Command (Unit {0}) → Command (Unit {0})
unless true m = pure tt
unless false m = m

-- `remove_file(&tmp_path)`, its own error ignored, after an error.
unfoldable pub discarded :
    (World → World) → Result Message (Unit {0}) → World → Result Message (Unit {0}) × World
discarded remove (ok u) w = (ok u, w)
discarded remove (err e) w = (err e, remove w)

unfoldable pub discard_on_error : (World → World) → Command (Unit {0}) → Command (Unit {0})
discard_on_error remove m w = discarded remove (m w).0 (m w).1

module _ ⦃host : Host⦄ where
  unfoldable pub syscall : String → List Arg → (World → World) → Command (Unit {0})
  syscall template args effect w = attempt (host.fault w.clock) template args effect w

  -- `fs::read_to_string(path)`
  unfoldable pub read_to_string : Bytes → String → List Arg → Command Bytes
  read_to_string path template args = do
    syscall template args (λ w. w)
    λ w. found (w.disk path) template args w

  -- `dirs_or_default` and `state_dir`
  unfoldable pub state_dir : Bytes
  state_dir = join (elim host.home [ none ↦ ascii "." | some home ↦ home ]) (ascii ".winterwallet")

  unfoldable pub state_path : Bytes → Bytes
  state_path wallet_id_hex = state_path_in state_dir wallet_id_hex

  unfoldable pub ensure_state_dir : Bytes → Command (Unit {0})
  ensure_state_dir dir = do
    λ w.
        unless (is_some (w.directories dir))
          (syscall "failed to create {}: {e}" (text dir ∷ []) (set_directory dir host.new_mode)) w
    syscall "failed to set dir permissions: {e}" [] (set_directory dir private_directory)

  -- `load_in_dir`
  unfoldable pub load_found : Bytes → Option File → Command (Option WalletState)
  load_found path none = pure none
  load_found path (some _) = do
    contents ← read_to_string path "failed to read state file {}: {e}" (text path ∷ [])
    state ← lift (
        map_err (λ e. format "failed to parse state file: {e}" (foreign e ∷ []))
          (host.state_from_str contents))
    pure (some state)

  unfoldable pub load_in_dir : Bytes → Bytes → Command (Option WalletState)
  load_in_dir dir wallet_id_hex w =
      let path = state_path_in dir wallet_id_hex in load_found path (w.disk path) w

  unfoldable pub load : Bytes → Command (Option WalletState)
  load wallet_id_hex = load_in_dir state_dir wallet_id_hex

  -- `file.write_all(bytes)`, which may leave a part behind.
  unfoldable pub write_all : Bytes → Bytes → Command (Unit {0})
  write_all path bytes w =
      syscall "failed to write temp state file {}: {e}" (text path ∷ [])
        (change_disk (change_file path (with_contents bytes)))
        (change_disk (change_file path (with_contents (take (host.written w.clock) bytes))) w)

  -- `.{}.tmp.{}` beside the state file
  unfoldable pub tmp_path_in : Bytes → Bytes → Bytes
  tmp_path_in dir wallet_id_hex =
      join dir
        (ascii "." ++ ((wallet_id_hex ++ ascii ".json") ++ (ascii ".tmp." ++ host.process_id)))

  -- The closure of `save_in_dir`.
  unfoldable pub write_state : Bytes → Bytes → Bytes → Bytes → Command (Unit {0})
  write_state dir path tmp_path contents = do
    syscall "failed to open temp state file {}: {e}" (text tmp_path ∷ [])
        (change_disk (change_file tmp_path (truncated host.new_mode)))
    write_all tmp_path contents
    syscall "failed to set temp file permissions: {e}" []
        (change_disk (change_file tmp_path (with_mode private_file)))
    syscall "failed to sync temp state file {}: {e}" (text tmp_path ∷ []) (λ w. w)
    syscall "failed to replace state file {} with {}: {e}" (text path ∷ text tmp_path ∷ [])
        (change_disk (λ disk. put_file tmp_path none (put_file path (disk tmp_path) disk)))
    syscall "failed to open state dir {}: {e}" (text dir ∷ []) (λ w. w)
    syscall "failed to sync state dir {}: {e}" (text dir ∷ []) (λ w. w)

  unfoldable pub remove_file : Bytes → World → World
  remove_file path w = (syscall "" [] (change_disk (change_file path (λ _. none))) w).1

  unfoldable pub save_in_dir : Bytes → WalletState → Command (Unit {0})
  save_in_dir dir state = do
    ensure_state_dir dir
    contents ← lift (
        map_err (λ e. format "failed to serialize state: {e}" (foreign e ∷ []))
          (host.to_string_pretty state))
    let path = state_path_in dir state.wallet_id
    let tmp_path = tmp_path_in dir state.wallet_id
    discard_on_error (remove_file tmp_path) (write_state dir path tmp_path contents)

  unfoldable pub save : WalletState → Command (Unit {0})
  save state = save_in_dir state_dir state

  unfoldable pub acquire_lock_in_dir : Bytes → Bytes → Command (Unit {0})
  acquire_lock_in_dir dir wallet_id_hex = do
    ensure_state_dir dir
    let path = lock_path_in dir wallet_id_hex
    syscall "failed to open state lock {}: {e}" (text path ∷ [])
        (change_disk (change_file path (kept host.new_mode)))
    syscall "wallet state is locked by another process ({}): {e}" (text path ∷ [])
        (λ (w : World). record w { locks = path ∷ w.locks })

  unfoldable pub acquire_lock : Bytes → Command (Unit {0})
  acquire_lock wallet_id_hex = acquire_lock_in_dir state_dir wallet_id_hex

  -- `StateStore::persist_signed_advance`
  unfoldable pub state_after : SignedAdvance → WalletState
  state_after advance = record {
    wallet_id = hex_encode advance.wallet_id;
    pda = host.display advance.plan.wallet_pda;
    parent = advance.next_position.parent;
    child = advance.next_position.child;
  }

  unfoldable pub persist_signed_advance : SignedAdvance → Command (Unit {0})
  persist_signed_advance advance = save (state_after advance)
