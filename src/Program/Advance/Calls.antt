-- ===== src/Program/Advance/Calls.antt =====
-- program/src/instructions/advance.rs: the inner calls that the payload of an Advance holds, and
-- what a ledger keeps across them.
use winterwallet.Prelude.{
  ℕ, zero, suc, ◌≡◌, refl, sym, ap, List, [], ◌∷◌, length, ok, err, fail_if, >>=-eq-ok,
  ok_injective, ltb, ◌==◌, ◌||◌, not, All,
}
use mathlib.Core.Path.{subst}
use winterwallet.Bytes.{Bytes}
use winterwallet.Solana.{AccountView, InstructionView, Ledger, Runtime, invalid_instruction_data}
use winterwallet.Program.Advance.{read_u8, decode_next, invoke_next, invoke_loop, replay}

-- The calls that a number of rounds of the loop decodes, up to the first that does not decode.
abbrev pub decoded :
    ℕ → List AccountView → Bytes → Bytes → ℕ → List (InstructionView × List AccountView)
decoded zero remaining wallet payload cursor = []
decoded (suc rounds) remaining wallet payload cursor =
    elim (decode_next remaining wallet payload cursor) [
      | ok (i, views, rest, end) ↦ (i, views) ∷ decoded rounds remaining wallet rest end
      | err e ↦ []
    ]

-- The inner calls of a payload.
abbrev pub calls : List AccountView → Bytes → Bytes → List (InstructionView × List AccountView)
calls accounts wallet payload = elim (read_u8 payload) [
  | ok (rounds, rest) ↦ decoded rounds accounts wallet rest 0
  | err e ↦ []
]

decoded-suc :
    (rounds : ℕ) (remaining : List AccountView) (wallet payload : Bytes) (cursor : ℕ)
    {i : InstructionView} {views : List AccountView} {rest : Bytes} {end : ℕ}
    → decode_next remaining wallet payload cursor ≡ ok (i, views, rest, end)
    → decoded (suc rounds) remaining wallet payload cursor
      ≡ (i, views) ∷ decoded rounds remaining wallet rest end
decoded-suc rounds remaining wallet payload cursor e = rw (decoded, e) refl

calls_lem :
    (accounts : List AccountView) (wallet payload : Bytes) {rounds : ℕ} {rest : Bytes}
    → read_u8 payload ≡ ok (rounds, rest)
    → calls accounts wallet payload ≡ decoded rounds accounts wallet rest 0
calls_lem accounts wallet payload e = rw (calls, e) refl

module _ ⦃rt : Runtime⦄ (P : Ledger → Type 0) (Q : InstructionView × List AccountView → Type 0)
    (keeps : (i : InstructionView) (views : List AccountView) (seeds : List Bytes) (l l' : Ledger)
      → Q (i, views)
      → P l
      → rt.invoke_signed i views seeds l ≡ ok l'
      → P l') where
  invoke_loop_keeps :
      (rounds : ℕ) (remaining : List AccountView) (seeds : List Bytes) (wallet payload : Bytes)
      (cursor : ℕ) (l : Ledger) (r : Bytes × ℕ × Ledger)
      → All Q (decoded rounds remaining wallet payload cursor)
      → P l
      → invoke_loop rounds remaining seeds wallet payload cursor l ≡ ok r
      → P r.2
  unfolding invoke_loop invoke_next
  invoke_loop_keeps zero remaining seeds wallet payload cursor l r q p h =
      subst P (ap (λ t. t.2) (ok_injective h)) p
  invoke_loop_keeps (suc rounds) remaining seeds wallet payload cursor l r q p h =
      let ((payload', cursor', l1), one, h) =
        >>=-eq-ok (invoke_next remaining seeds wallet payload cursor l) _ h in
      let ((i, views, rest, end), dec, one) =
        >>=-eq-ok (decode_next remaining wallet payload cursor) _ one in
      let (l', call, one) = >>=-eq-ok (rt.invoke_signed i views seeds l) _ one in
      let (now, later) : Q (i, views) × All Q (decoded rounds remaining wallet rest end) =
        subst (All Q) (decoded-suc rounds remaining wallet payload cursor dec) q in
      invoke_loop_keeps rounds remaining seeds wallet rest end l' r later
        (keeps i views seeds l l' now p call)
        (subst (λ s. invoke_loop rounds remaining seeds wallet s.0 s.1 s.2 ≡ ok r)
          (sym (ok_injective one)) h)

  -- What every one of the decoded calls keeps, a replay that succeeds keeps.
  pub replay_keeps :
      (accounts : List AccountView) (seeds : List Bytes) (wallet payload : Bytes) (l l' : Ledger)
      → All Q (calls accounts wallet payload)
      → P l
      → replay accounts seeds wallet payload l ≡ ok l'
      → P l'
  unfolding replay
  replay_keeps accounts seeds wallet payload l l' q p h =
      let ((rounds, rest), read, h) = >>=-eq-ok (read_u8 payload) _ h in
      let (r, loop, h) = >>=-eq-ok (invoke_loop rounds accounts seeds wallet rest 0 l) _ h in
      let (_, _, h) =
        >>=-eq-ok
          (fail_if (ltb 0 (length r.0) || not (r.1 == length accounts)) invalid_instruction_data) _
          h in
      let q' : All Q (decoded rounds accounts wallet rest 0) =
        subst (All Q) (calls_lem accounts wallet payload read) q in
      subst P (ok_injective h) (invoke_loop_keeps rounds accounts seeds wallet rest 0 l r q' p loop)
