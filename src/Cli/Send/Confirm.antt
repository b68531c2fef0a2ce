-- ===== src/Cli/Send/Confirm.antt =====
-- cli/src/helpers.rs: how `confirm_transaction` ends.
use winterwallet.Prelude.{
  ℕ, zero, suc, ◌+◌, ◌<◌, ◌≡◌, refl, ap, ◌∙◌, Option, none, some, [], ◌∷◌, Result, ok, err, arith,
  length,
}
use winterwallet.Bytes.{Bytes}
use winterwallet.Cli.Json.{Json, list, string, at_key, at_index}
use winterwallet.Cli.Host.{Host, World, Command, Message, format, ◌>>=◌, resume, lift}
use winterwallet.Cli.Send.{rpc_body, received, verdict, settle, poll, confirm_transaction, rpc_post}

-- The verdict on an answer; an error of the call ends the loop.
unfoldable pub verdict_of : Result Message Json → Option (Result Message (Unit {0}))
verdict_of (ok result) = verdict (at_index (at_key result "value") 0)
verdict_of (err e) = some (err e)

resume-verdict_of :
    (o : Result Message Json) (rest : Command (Unit {0})) (w : World)
    → resume (λ result. settle (verdict (at_index (at_key result "value") 0)) rest) o w
      ≡ settle (verdict_of o) rest w
unfolding verdict_of resume settle lift
resume-verdict_of (ok result) rest w = refl
resume-verdict_of (err e) rest w = refl

module _ ⦃host : Host⦄ where
  -- The server's answer at a time to the question for a signature's status.
  abbrev answer : Bytes → Bytes → ℕ → Result Message Json
  answer rpc_url signature time = received (
      host.respond time rpc_url
        (rpc_body "getSignatureStatuses" (list (list (string signature ∷ []) ∷ []))))

  -- The verdict at a time: none where the answer is neither a failure nor a confirmation.
  unfoldable pub verdict_at : Bytes → Bytes → ℕ → Option (Result Message (Unit {0}))
  verdict_at rpc_url signature time = verdict_of (answer rpc_url signature time)

  -- The world after one question.
  abbrev asked : Bytes → Bytes → World → World
  asked rpc_url signature w =
      (rpc_post rpc_url "getSignatureStatuses" (list (list (string signature ∷ []) ∷ [])) w).1

  -- One round.
  poll_step :
      (rpc_url signature : Bytes) (rounds : ℕ) (w : World)
      → poll rpc_url signature (suc rounds) w
        ≡ settle
            (verdict_at rpc_url signature w.clock)
            (poll rpc_url signature rounds)
            (asked rpc_url signature w)
  unfolding poll rpc_post verdict_at ◌>>=◌
  poll_step rpc_url signature rounds w =
      resume-verdict_of (answer rpc_url signature w.clock) (poll rpc_url signature rounds)
        (asked rpc_url signature w)

  poll-some :
      (rpc_url signature : Bytes) (rounds : ℕ) (w : World) (r : Result Message (Unit {0}))
      → verdict_at rpc_url signature w.clock ≡ some r
      → poll rpc_url signature (suc rounds) w ≡ (r, asked rpc_url signature w)
  unfolding settle lift
  poll-some rpc_url signature rounds w r here = poll_step rpc_url signature rounds w ∙ rw here refl

  poll-none :
      (rpc_url signature : Bytes) (rounds : ℕ) (w : World)
      → verdict_at rpc_url signature w.clock ≡ none
      → poll rpc_url signature (suc rounds) w
        ≡ poll rpc_url signature rounds (asked rpc_url signature w)
  unfolding settle
  poll-none rpc_url signature rounds w here = poll_step rpc_url signature rounds w ∙ rw here refl

  poll-verdict_at :
      (rpc_url signature : Bytes) (rounds n : ℕ) (w : World) (r : Result Message (Unit {0}))
      → n < rounds
      → ((i : ℕ) → i < n → verdict_at rpc_url signature (w.clock + i) ≡ none)
      → verdict_at rpc_url signature (w.clock + n) ≡ some r
      → ((poll rpc_url signature rounds w).0 ≡ r)
        × (length ((poll rpc_url signature rounds w).1).history ≡ length w.history + suc n)
  unfolding rpc_post
  poll-verdict_at rpc_url signature zero n w r lt before here = absurd (omega arith)
  poll-verdict_at rpc_url signature (suc rounds) zero w r lt before here =
      rw
        (poll-some rpc_url signature rounds w r
          (ap (verdict_at rpc_url signature) (omega arith) ∙ here))
        (refl, omega arith)
  poll-verdict_at rpc_url signature (suc rounds) (suc n) w r lt before here =
      let next = asked rpc_url signature w in
      let (result, posts) =
        poll-verdict_at rpc_url signature rounds n next r (omega arith)
          (λ i lt. ap (verdict_at rpc_url signature) (omega arith) ∙ before (suc i) (omega arith))
          (ap (verdict_at rpc_url signature) (omega arith) ∙ here) in
      rw
        (poll-none rpc_url signature rounds w
          (ap (verdict_at rpc_url signature) (omega arith) ∙ before 0 (omega arith)))
        (result, posts ∙ omega arith)

  poll-timeout :
      (rpc_url signature : Bytes) (rounds : ℕ) (w : World)
      → ((i : ℕ) → i < rounds → verdict_at rpc_url signature (w.clock + i) ≡ none)
      → ((poll rpc_url signature rounds w).0
          ≡ err (format "transaction confirmation timeout (30s)" []))
        × (length ((poll rpc_url signature rounds w).1).history ≡ length w.history + rounds)
  unfolding poll rpc_post
  poll-timeout rpc_url signature zero w never = (refl, omega arith)
  poll-timeout rpc_url signature (suc rounds) w never =
      let (result, posts) =
        poll-timeout rpc_url signature rounds (asked rpc_url signature w)
          (λ i lt. ap (verdict_at rpc_url signature) (omega arith) ∙ never (suc i) (omega arith)) in
      rw
        (poll-none rpc_url signature rounds w
          (ap (verdict_at rpc_url signature) (omega arith) ∙ never 0 (omega arith)))
        (result, posts ∙ omega arith)

  -- If one of the first 60 answers about the signature is a failure or a confirmation and no
  -- earlier one is, `confirm_transaction` ends with the verdict on it, after as many requests.
  pub confirm_transaction-verdict_at :
      (rpc_url signature : Bytes) (n : ℕ) (w : World) (r : Result Message (Unit {0}))
      → n < 60
      → ((i : ℕ) → i < n → verdict_at rpc_url signature (w.clock + i) ≡ none)
      → verdict_at rpc_url signature (w.clock + n) ≡ some r
      → ((confirm_transaction rpc_url signature w).0 ≡ r)
        × (length ((confirm_transaction rpc_url signature w).1).history ≡ length w.history + suc n)
  unfolding confirm_transaction
  confirm_transaction-verdict_at rpc_url signature n w r =
      poll-verdict_at rpc_url signature 60 n w r

  -- If none of the first 60 answers about the signature is a failure or a confirmation,
  -- `confirm_transaction` ends with the error of the timeout, after 60 requests.
  pub confirm_transaction-timeout :
      (rpc_url signature : Bytes) (w : World)
      → ((i : ℕ) → i < 60 → verdict_at rpc_url signature (w.clock + i) ≡ none)
      → ((confirm_transaction rpc_url signature w).0
          ≡ err (format "transaction confirmation timeout (30s)" []))
        × (length ((confirm_transaction rpc_url signature w).1).history ≡ length w.history + 60)
  unfolding confirm_transaction
  confirm_transaction-timeout rpc_url signature w = poll-timeout rpc_url signature 60 w
