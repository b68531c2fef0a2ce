-- ===== src/Protocol/Replay.antt =====
-- program/src/instructions/advance.rs: the program replays the inner instructions that the client
-- encoded.
use winterwallet.Prelude.{
  ℕ, suc, ◌+◌, ◌≤◌, ◌<◌, ◌^◌, leb, ◌%◌, ◌≡◌, refl, sym, ap, ap₂, ◌||◌, ◌∙◌, List, [], ◌∷◌, ◌++◌,
  map, ltb, length, take, drop, ok, err, ◌>>=◌, arith, append_assoc, append-nil, All, Bool-cases,
  inl, inr, Result-cases, ◌==◌, true, false, le→ltb, lt→ltb, le→leb, get_elem?-drop, drop-suc,
  drop-drop, take-append, drop-append, length-append, length-drop,
}
use winterwallet.Bytes.{Bytes, to_le_bytes, from-to_u16, u64_mod, bytes_eq}
use winterwallet.Solana.{
  Address, AccountMeta, Instruction, AccountView, InstructionAccount, Ledger, Runtime,
  ProgramResult, panic,
}
use winterwallet.Client.Instruction.{entry_bytes}
use winterwallet.Program.Advance.{
  read_u8, read_u16, promote, decode_next, invoke_next, invoke_loop, replay,
}
use winterwallet.Protocol.Encoding.{Fits, bodies}

-- `read_u16` reads what `to_le_bytes` wrote.
pub read_u16-to_le_bytes :
    (v : ℕ) (rest : Bytes) → v < 2 ^ 16 → read_u16 (to_le_bytes 2 v ++ rest) ≡ ok (v, rest)
unfolding read_u16
read_u16-to_le_bytes v rest h =
    let fits : leb 2 (length (to_le_bytes 2 v ++ rest)) ≡ true = le→leb _ _ (omega arith) in
    rw (fits, from-to_u16 v h)

-- The views that the accounts of the encoded instructions were loaded as: each program is
-- executable, and the instruction's accounts follow it in order.
abbrev pub Serves : List Instruction → List AccountView → Type 0
Serves [] views = length views ≡ 0
Serves (ix ∷ ixs) [] = ⊥
Serves (ix ∷ ixs) (p ∷ vs) =
    (p.address ≡ ix.program_id)
    × (p.executable ≡ true)
    × (map (λ v. v.address) (take (length ix.accounts) vs) ≡ map (λ m. m.pubkey) ix.accounts)
    × Serves ixs (drop (length ix.accounts) vs)

-- The accounts that an inner instruction is called with: its own addresses, with the flags of the
-- outer transaction, and the wallet as a signer.
abbrev pub called : Bytes → List AccountMeta → List AccountView → List InstructionAccount
called wallet_address [] views = []
called wallet_address (m ∷ ms) [] = []
called wallet_address (m ∷ ms) (v ∷ vs) =
    record {
      address = m.pubkey;
      is_signer = bytes_eq m.pubkey wallet_address || v.is_signer;
      is_writable = v.is_writable;
    }
    ∷ called wallet_address ms vs

promote_lem :
    (wallet_address : Bytes) (a : Address) (v : AccountView)
    → v.address ≡ a
    → promote wallet_address v ≡ record {
      address = a;
      is_signer = bytes_eq a wallet_address || v.is_signer;
      is_writable = v.is_writable;
    }
unfolding promote
promote_lem wallet_address a v e = elim (Bool-cases (bytes_eq a wallet_address)) [
  | inl b ↦ rw (e, b)
  | inr b ↦ rw (e, b)
]

map-promote :
    (wallet_address : Bytes) (ms : List AccountMeta) (vs : List AccountView)
    → map (λ v. v.address) (take (length ms) vs) ≡ map (λ m. m.pubkey) ms
    → map (promote wallet_address) (take (length ms) vs) ≡ called wallet_address ms vs
map-promote wallet_address [] vs e = refl
map-promote wallet_address (m ∷ ms) [] e = cc
map-promote wallet_address (m ∷ ms) (v ∷ vs) e =
    ap₂ ◌∷◌ (promote_lem wallet_address m.pubkey v (cc)) (map-promote wallet_address ms vs (cc))

-- As many views as metas.
loaded_length :
    (ms : List AccountMeta) (vs : List AccountView)
    → map (λ v. v.address) (take (length ms) vs) ≡ map (λ m. m.pubkey) ms
    → length ms ≤ length vs
loaded_length [] vs e = omega arith
loaded_length (m ∷ ms) [] e = cc
loaded_length (m ∷ ms) (v ∷ vs) e = let ih = loaded_length ms vs (cc) in omega arith

module _ ⦃rt : Runtime⦄ where
  -- The program's call for one inner instruction, over the accounts behind its program's.
  abbrev pub invoke : Instruction → List AccountView → List Bytes → Bytes → Ledger → ProgramResult
  invoke ix views seeds wallet_address ledger =
      rt.invoke_signed
        (record {
          program_id = ix.program_id;
          accounts = called wallet_address ix.accounts views;
          data_bytes = ix.data_bytes;
        })
        (take (length ix.accounts) views) seeds ledger

  invoke_next-entry :
      (remaining : List AccountView) (seeds : List Bytes) (wallet_address : Bytes)
      (ix : Instruction) (rest : Bytes) (cursor : ℕ) (ledger : Ledger) (p : AccountView)
      (vs : List AccountView)
      → drop cursor remaining ≡ p ∷ vs
      → length remaining ≤ 128
      → p.executable ≡ true
      → p.address ≡ ix.program_id
      → map (λ v. v.address) (take (length ix.accounts) vs) ≡ map (λ m. m.pubkey) ix.accounts
      → Fits ix
      → invoke_next remaining seeds wallet_address (entry_bytes ix ++ rest) cursor ledger ≡ (
          invoke ix vs seeds wallet_address ledger >>= λ l.
          ok (rest, cursor + (1 + length ix.accounts), l))
  unfolding invoke_next decode_next read_u8 read_u16
  invoke_next-entry remaining seeds wallet_address ix rest cursor ledger p vs cut small ex ad loaded
        fits =
      let long = loaded_length ix.accounts vs loaded in
      let n = length ix.accounts in
      let size = length ix.data_bytes in
      let num : n % 256 ≡ n = omega (arith, fits.accounts) in
      let low : size % 65536 ≡ size = omega (arith, fits.data_bytes) in
      let word = read_u16-to_le_bytes (size % 65536) (ix.data_bytes ++ rest) (omega arith) in
      let room : length remaining ≡ cursor + (1 + length vs) =
        omega (arith, length-drop cursor remaining, ap length cut) in
      let few : ltb 16 n ≡ false = le→ltb 16 n fits.accounts in
      let whole : ltb (length (ix.data_bytes ++ rest)) size ≡ false =
        le→ltb _ _ (omega (arith, length-append ix.data_bytes rest)) in
      let no_wrap : ltb (cursor + (1 + n)) u64_mod ≡ true = lt→ltb _ _ (omega arith) in
      let present : ltb (length remaining) (cursor + (1 + n)) ≡ false = le→ltb _ _ (omega arith) in
      rw (
        word,
        low,
        num,
        few,
        whole,
        no_wrap,
        present,
        get_elem?-drop cursor remaining cut,
        ex,
        ad,
        drop-suc cursor remaining cut,
        map-promote wallet_address ix.accounts vs loaded,
        take-append size ix.data_bytes rest refl,
        drop-append size ix.data_bytes rest refl,
      )

  -- The specification of Advance's effect: the calls of the inner instructions, in order.
  abbrev pub invoke_all :
      List Instruction → List AccountView → List Bytes → Bytes → Ledger → ProgramResult
  invoke_all [] views seeds wallet_address ledger = ok ledger
  invoke_all (ix ∷ ixs) [] seeds wallet_address ledger = err panic
  invoke_all (ix ∷ ixs) (p ∷ vs) seeds wallet_address ledger = do
    ledger ← invoke ix vs seeds wallet_address ledger
    invoke_all ixs (drop (length ix.accounts) vs) seeds wallet_address ledger

  invoke_loop-bodies :
      (ixs : List Instruction) (remaining : List AccountView) (seeds : List Bytes)
      (wallet_address : Bytes) (rest : Bytes) (cursor : ℕ) (ledger : Ledger)
      (views : List AccountView)
      → drop cursor remaining ≡ views
      → length remaining ≤ 128
      → cursor ≤ length remaining
      → All Fits ixs
      → Serves ixs views
      → invoke_loop (length ixs) remaining seeds wallet_address (bodies ixs ++ rest) cursor ledger
        ≡ (invoke_all ixs views seeds wallet_address ledger >>= λ l. ok (rest, length remaining, l))
  unfolding invoke_loop
  invoke_loop-bodies [] remaining seeds wallet_address rest cursor ledger views cut small le fits
        s =
      ap (λ t. ok (rest, t, ledger)) (omega (arith, length-drop cursor remaining, ap length cut))
  invoke_loop-bodies (ix ∷ ixs) remaining seeds wallet_address rest cursor ledger [] cut small le
        fits s =
      elim s [ ]
  invoke_loop-bodies (ix ∷ ixs) remaining seeds wallet_address rest cursor ledger (p ∷ vs) cut small
        le fits s =
      let k = 1 + length ix.accounts in
      let next =
        invoke_next-entry remaining seeds wallet_address ix (bodies ixs ++ rest) cursor ledger p vs
          cut small s.1 s.0 s.2 fits.0 in
      let cut' : drop (cursor + k) remaining ≡ drop (length ix.accounts) vs =
        ap (λ t. drop t remaining) (omega arith)
        ∙ sym (drop-drop cursor (suc (length ix.accounts)) remaining)
        ∙ ap (drop (suc (length ix.accounts))) cut in
      let inside : cursor + k ≤ length remaining =
        omega
          (arith, length-drop cursor remaining, ap length cut, loaded_length ix.accounts vs s.2) in
      rw (append_assoc ix.data_bytes (bodies ixs) rest, next)
        (elim (Result-cases (invoke ix vs seeds wallet_address ledger)) [
          | inl (l, e) ↦ rw e (
              invoke_loop-bodies ixs remaining seeds wallet_address rest (cursor + k) l
                (drop (length ix.accounts) vs) cut' small inside fits.1 s.3)
          | inr (x, e) ↦ rw e
        ])

  -- For instructions within the encoder's limits and at most 128 views that serve them in order,
  -- the payload of the encoded instructions is replayed as their calls, in order, and every byte
  -- and every account is used.
  pub replay-bodies :
      (ixs : List Instruction) (views : List AccountView) (seeds : List Bytes)
      (wallet_address : Bytes) (ledger : Ledger)
      → length views ≤ 128
      → All Fits ixs
      → Serves ixs views
      → replay views seeds wallet_address (length ixs ∷ bodies ixs) ledger
        ≡ invoke_all ixs views seeds wallet_address ledger
  unfolding replay read_u8
  replay-bodies ixs views seeds wallet_address ledger small fits s =
      let loop = rw append-nil at (
        invoke_loop-bodies ixs views seeds wallet_address [] 0 ledger views refl small (omega arith)
          fits s) in
      let all_used : (length views == length views) ≡ true = ground arith in
      rw loop (elim (Result-cases (invoke_all ixs views seeds wallet_address ledger)) [
        | inl (l, e) ↦ rw (e, all_used)
        | inr (x, e) ↦ rw e
      ])
