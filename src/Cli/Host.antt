-- ===== src/Cli/Host.antt =====
-- The machine that cli/src runs on: the file system, the RPC server, the terminal, and the crates
-- that the commands call. A command is a function of the world that returns the world after it, also
-- where it fails.
pub mod Invariant
use Prim.Native.String.{String}
use winterwallet.Prelude.{
  ℕ, ◌+◌, Bool, true, false, not, Option, none, some, List, [], ◌∷◌, ◌++◌, Result, ok, err, map_err,
  if◌then◌else◌, take,
}
use winterwallet.Prelude
use winterwallet.Bytes.{Bytes, bytes_eq}
use winterwallet.Common.{ascii}
use winterwallet.Solana.{Address}
use winterwallet.Core.Error.{WinternitzError}
use winterwallet.Client.Error.{Error}
use winterwallet.Cli.Json.{Json}

-- The arguments of `format!`.
pub data Arg : Type 0 where
  text : Bytes → Arg
  count : ℕ → Arg
  json : Json → Arg
  core_error : WinternitzError → Arg
  client_error : Error → Arg
  -- an error of the operating system or of a crate, by its text
  foreign : Bytes → Arg

-- A `String` error or a printed line, as the program builds it: a template with its arguments, and
-- a message with a text behind it.
pub data Message : Type 0 where
  format : String → List Arg → Message
  followed : Message → String → Message

-- The bytes and the permission bits of a file.
pub record File : Type 0 where
  pub contents : Bytes
  pub mode : ℕ

abbrev pub Disk : Type 0
Disk = Bytes → Option File

-- What can be observed of a run from outside: the disk after each system call that may change it,
-- and the requests to the server, with the disk as it was then.
pub data Event : Type 0 where
  wrote : Disk → Event
  posted : Disk → String → Json → Event

pub record World : Type 0 where
  pub disk : Disk
  -- the permission bits of a directory that exists
  pub directories : Bytes → Option ℕ
  -- the newest event first
  pub history : List Event
  pub locks : List Bytes
  pub printed : List Message
  -- the number of calls so far: what the machine answers may depend on it
  pub clock : ℕ

abbrev pub Command : Type 0 → Type 0
Command A = World → Result Message A × World

abbrev pub pure : {A : Type 0} → A → Command A
pure a w = (ok a, w)

abbrev pub fail : {A : Type 0} → Message → Command A
fail e w = (err e, w)

-- The rest of a command, behind the result of its first part.
unfoldable pub resume :
    {A B : Type 0} → (A → Command B) → Result Message A → World → Result Message B × World
resume f (ok a) w = f a w
resume f (err e) w = (err e, w)

infixl 5 ◌>>=◌ ◌>>◌
unfoldable pub ◌>>=◌ : {A B : Type 0} → Command A → (A → Command B) → Command B
◌>>=◌ m f w = resume f (m w).0 (m w).1

unfoldable pub ◌>>◌ : {B : Type 0} → Command (Unit {0}) → Command B → Command B
◌>>◌ m k = m >>= λ _. k

-- `?` on a value.
unfoldable pub lift : {A : Type 0} → Result Message A → Command A
lift r w = (r, w)

unfoldable pub fail_if : Bool → Message → Command (Unit {0})
fail_if test e w = (Prelude.fail_if test e, w)

-- `map_err` on a call.
unfoldable pub on_error : {A : Type 0} → (Message → Message) → Command A → Command A
on_error f m w = (map_err f (m w).0, (m w).1)

-- `println!` and `eprintln!`
unfoldable pub println : String → List Arg → Command (Unit {0})
println template args w = (ok tt, record w { printed = format template args ∷ w.printed })

-- `WalletState` of cli/src/state.rs
pub record WalletState : Type 0 where
  pub wallet_id : Bytes
  pub pda : Bytes
  pub parent : ℕ
  pub child : ℕ

-- The services. An error is the text of the operating system's or the crate's error.
pub record Host : Type 0 where
  -- The error of the system call at a time, and how much of a buffer a write leaves by then.
  pub fault : ℕ → Option Bytes
  pub written : ℕ → ℕ
  -- The permission bits of a file that `open` creates.
  pub new_mode : ℕ
  pub process_id : Bytes
  -- `HOME`
  pub home : Option Bytes
  -- The server's answer to a request: the transport's error, or the body's, which may not parse.
  pub respond : ℕ → Bytes → Json → Result Bytes (Result Bytes Json)
  -- The line of `prompt_password` where the input is a terminal, and of `read_line` where it is not,
  -- and `getrandom::fill`.
  pub is_terminal : Bool
  pub prompt_password : ℕ → Result Bytes Bytes
  pub read_line : ℕ → Result Bytes Bytes
  pub random : ℕ → Result Bytes Bytes
  -- serde_json
  pub to_string_pretty : WalletState → Result Bytes Bytes
  pub state_from_str : Bytes → Result Bytes WalletState
  pub bytes_from_str : Bytes → Result Bytes Bytes
  -- base64 and bs58
  pub encode_base64 : Bytes → Bytes
  pub decode_base64 : Bytes → Result Bytes Bytes
  pub decode_bs58 : Bytes → Result Bytes Bytes
  -- solana_address
  pub display : Address → Bytes
  pub parse : Bytes → Result Bytes Address
  -- ed25519_dalek: the verifying key and the signature, by the secret
  pub verifying_key : Bytes → Bytes
  pub sign : Bytes → Bytes → Bytes
