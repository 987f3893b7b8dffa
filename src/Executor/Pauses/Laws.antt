-- ===== src/Executor/Pauses/Laws.antt =====
-- The loop that answers pauses ends after a bounded number of calls, and hides every request id.
use mcp_adapter.Prelude.{
  ℕ, zero, suc, ◌+◌, ◌≤◌, Bool, true, false, Option, none, some, ◌≡◌, arith, inl, inr,
  if◌then◌else◌, Bool-cases,
}
use mcp_adapter.Connection.Recovery.{Awaited, resolved, rejected}
use mcp_adapter.Executor.Pauses.{
  ExecutorPause, Parsed, no_pause, malformed, pause, Decision, response_to, Request, resume,
  original, Ended, result, threw, too_many_pauses, request_aborted, resume_failed, Executor,
  holds_request_id, redact_executor_outcome, after_resume, after_prompt, round, answer_rest,
  after_call, answer_pauses,
}

if_holds {ℓ κ} :
    {A : Type ℓ} (P : A → Type κ) (b : Bool) {x y : A} → P x → P y → P (if b then x else y)
if_holds P true f g = f
if_holds P false f g = g

-- `calls` counts the calls to the server and `prompts` the dialogs.
pub record Counts {ℓ κ} {W : Type ℓ} {T : Type κ} (executor : Executor W T) (calls prompts : W → ℕ)
    : Type ℓ where
  pub called :
      (r : Request) (w : W)
      → (calls (executor.call r w).1 ≡ calls w + 1) × (prompts (executor.call r w).1 ≡ prompts w)
  pub prompted :
      (p : ExecutorPause) (w : W)
      → (calls (executor.prompt_form_elicitation p w).1 ≡ calls w)
        × (prompts (executor.prompt_form_elicitation p w).1 ≡ prompts w + 1)

module _ {ℓ κ} {W : Type ℓ} {T : Type κ} (executor : Executor W T) (calls prompts : W → ℕ)
    (counts : Counts executor calls prompts) where
  -- At most so many calls and so many dialogs more than in `w`.
  abbrev Within : ℕ → ℕ → W → Ended T × W → Type 0
  Within n m w e = (calls e.1 ≤ calls w + n) × (prompts e.1 ≤ prompts w + m)

  Within-resume :
      (n : ℕ) (next : T → W → Ended T × W) (w : W) (a : Awaited T × W)
      → ((r : T) (v : W) → Within n n v (next r v))
      → (calls a.1 ≡ calls w + 1) × (prompts a.1 ≡ prompts w)
      → Within (suc n) n w (after_resume executor next a)
  unfolding after_resume
  Within-resume n next w (resolved r, v) goes h =
      let k = goes r v in (omega (arith, h.0, k.0), omega (arith, h.1, k.1))
  Within-resume n next w (rejected e, v) goes h =
      if_holds (Within (suc n) n w) (executor.aborted v) (omega (arith, h.0), omega (arith, h.1))
        (omega (arith, h.0), omega (arith, h.1))

  Within-prompt :
      (n : ℕ) (next : T → W → Ended T × W) (p : ExecutorPause) (w : W)
      (a : Awaited (Option Decision) × W)
      → ((r : T) (v : W) → Within n n v (next r v))
      → (calls a.1 ≡ calls w) × (prompts a.1 ≡ prompts w + 1)
      → Within (suc n) (suc n) w (after_prompt executor next p a)
  unfolding after_prompt
  Within-prompt n next p w (rejected e, v) goes h = (omega (arith, h.0), omega (arith, h.1))
  Within-prompt n next p w (resolved none, v) goes h = (omega (arith, h.0), omega (arith, h.1))
  Within-prompt n next p w (resolved (some d), v) goes h =
      let request = resume p.request_id (response_to p.is_approval d) in
      let k = Within-resume n next v (executor.call request v) goes (counts.called request v) in
      if_holds (Within (suc n) (suc n) w) (executor.aborted v)
        (omega (arith, h.0), omega (arith, h.1)) (omega (arith, h.0, k.0), omega (arith, h.1, k.1))

  Within-round :
      (n : ℕ) (on_pause : ExecutorPause → W → Ended T × W) (r : T) (w : W) (parsed : Parsed)
      → ((p : ExecutorPause) (v : W) → Within n n v (on_pause p v))
      → Within n n w (round executor on_pause r w parsed)
  unfolding round
  Within-round n on_pause r w no_pause goes = (omega arith, omega arith)
  Within-round n on_pause r w malformed goes = (omega arith, omega arith)
  Within-round n on_pause r w (pause p) goes = goes p w

  Within-rest : (n : ℕ) (r : T) (w : W) → Within n n w (answer_rest executor n r w)
  unfolding answer_rest
  Within-rest zero r w =
      Within-round zero (λ p v. (too_many_pauses, v)) r w _ (λ p v. (omega arith, omega arith))
  Within-rest (suc n) r w =
      Within-round (suc n)
        (λ p v.
          after_prompt executor (answer_rest executor n) p (executor.prompt_form_elicitation p v))
        r w _
        (λ p v.
          Within-prompt n (answer_rest executor n) p v (executor.prompt_form_elicitation p v)
            (Within-rest n) (counts.prompted p v))

  -- Whatever the server answers, one run of the loop that answers the pauses makes at most seventeen
  -- calls to the server and opens at most sixteen dialogs. (A call of a tool runs the loop a second time
  -- after an account was connected.)
  pub answer_pauses-Within :
      (w : W)
      → (calls (answer_pauses executor w).1 ≤ calls w + 17)
        × (prompts (answer_pauses executor w).1 ≤ prompts w + 16)
  unfolding answer_pauses after_call
  answer_pauses-Within w = go (executor.call original w) (counts.called original w)
    where
      go :
          (a : Awaited T × W)
          → (calls a.1 ≡ calls w + 1) × (prompts a.1 ≡ prompts w)
          → Within 17 16 w (after_call executor a)
      go (rejected e, v) h = (omega (arith, h.0), omega (arith, h.1))
      go (resolved r, v) h =
          let k = Within-rest 16 r v in (omega (arith, h.0, k.0), omega (arith, h.1, k.1))

module _ {ℓ κ} {W : Type ℓ} {T : Type κ} (executor : Executor W T) where
  -- A result of the server is shown only if it holds no request id.
  unfoldable pub IsRedacted : Ended T × W → Type 0
  IsRedacted (result r, w) = holds_request_id (executor.structured_content r) ≡ false
  IsRedacted (_, w) = Unit

  redact-IsRedacted : (r : T) (w : W) → IsRedacted (redact_executor_outcome executor r, w)
  unfolding redact_executor_outcome IsRedacted
  redact-IsRedacted r w = elim (Bool-cases (holds_request_id (executor.structured_content r))) [
    | inl holds ↦ rw holds tt
    | inr clean ↦ rw clean clean
  ]

  resume-IsRedacted :
      (next : T → W → Ended T × W) (a : Awaited T × W)
      → ((r : T) (v : W) → IsRedacted (next r v))
      → IsRedacted (after_resume executor next a)
  unfolding after_resume IsRedacted
  resume-IsRedacted next (resolved r, w) goes = goes r w
  resume-IsRedacted next (rejected e, w) goes =
      if_holds IsRedacted (executor.aborted w) {x = (threw e, w)} {y = (resume_failed e, w)} tt tt

  prompt-IsRedacted :
      (next : T → W → Ended T × W) (p : ExecutorPause) (a : Awaited (Option Decision) × W)
      → ((r : T) (v : W) → IsRedacted (next r v))
      → IsRedacted (after_prompt executor next p a)
  unfolding after_prompt IsRedacted
  prompt-IsRedacted next p (rejected e, w) goes = tt
  prompt-IsRedacted next p (resolved none, w) goes = tt
  prompt-IsRedacted next p (resolved (some d), w) goes =
      if_holds IsRedacted (executor.aborted w) {x = (request_aborted, w)} tt
        (resume-IsRedacted next _ goes)

  round-IsRedacted :
      (on_pause : ExecutorPause → W → Ended T × W) (r : T) (w : W) (parsed : Parsed)
      → ((p : ExecutorPause) (v : W) → IsRedacted (on_pause p v))
      → IsRedacted (round executor on_pause r w parsed)
  unfolding round IsRedacted
  round-IsRedacted on_pause r w no_pause goes = redact-IsRedacted r w
  round-IsRedacted on_pause r w malformed goes = tt
  round-IsRedacted on_pause r w (pause p) goes = goes p w

  rest-IsRedacted : (n : ℕ) (r : T) (w : W) → IsRedacted (answer_rest executor n r w)
  unfolding answer_rest IsRedacted
  rest-IsRedacted zero r w = round-IsRedacted (λ p v. (too_many_pauses, v)) r w _ (λ p v. tt)
  rest-IsRedacted (suc n) r w = round-IsRedacted _ r w _ (λ p v.
      prompt-IsRedacted (answer_rest executor n) p (executor.prompt_form_elicitation p v)
        (rest-IsRedacted n))

  after_call-IsRedacted : (a : Awaited T × W) → IsRedacted (after_call executor a)
  unfolding after_call IsRedacted
  after_call-IsRedacted (rejected e, w) = tt
  after_call-IsRedacted (resolved r, w) = rest-IsRedacted 16 r w

  -- Whatever the server answers and however its pauses are decided, a result of the server that is
  -- handed on has no request id: no pause and no outcome that could be resumed gets through.
  pub answer_pauses-IsRedacted : (w : W) → IsRedacted (answer_pauses executor w)
  unfolding answer_pauses
  answer_pauses-IsRedacted w = after_call-IsRedacted (executor.call original w)
