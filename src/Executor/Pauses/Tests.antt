-- ===== src/Executor/Pauses/Tests.antt =====
-- A program that pauses twice.
use mcp_adapter.Prelude.{ℕ, ◌+◌, ◌≤◌, false, some, ◌≡◌, refl, if◌then◌else◌, ltb}
use mcp_adapter.Json.{Value, undefined, obj, str, member, no_members}
use mcp_adapter.Connection.Recovery.{resolved}
use mcp_adapter.Executor.Pauses.{accept, Executor, result, answer_pauses}
use mcp_adapter.Executor.Pauses.Laws.{
  Counts, answer_pauses-Within, IsRedacted, answer_pauses-IsRedacted,
}

abbrev form : Value
form = obj (
    member "mode" (str "form") (
      member "message" (str "Delete it?") (
        member "requestedSchema"
          (obj (member "type" (str "object") (member "properties" (obj no_members) no_members)))
          no_members)))

abbrev waiting : Value
waiting = obj (
    member "status" (str "approval-required")
      (member "requestId" (str "r1") (member "elicitation" form no_members)))

abbrev finished : Value
finished = obj (member "status" (str "done") no_members)

-- The state is the number of calls and the number of dialogs.
abbrev pausing : Executor (ℕ × ℕ) Value
pausing = record {
  structured_content = λ v. v;
  is_error = λ v. false;
  call = λ r w. (resolved (if ltb w.0 2 then waiting else finished), (w.0 + 1, w.1));
  prompt_form_elicitation =
      λ p w. (resolved (some record { action = accept; content = undefined }), (w.0, w.1 + 1));
  aborted = λ w. false;
}

pausing-Counts : Counts pausing (λ w. w.0) (λ w. w.1)
pausing-Counts = record { called = λ r w. (refl, refl); prompted = λ p w. (refl, refl) }

pausing_answered : answer_pauses pausing (0, 0) ≡ (result finished, (3, 2))
unfolding answer_pauses
pausing_answered = refl

answer_pauses-Within_example :
    ((answer_pauses pausing (0, 0)).1.0 ≤ 0 + 17) × ((answer_pauses pausing (0, 0)).1.1 ≤ 0 + 16)
answer_pauses-Within_example =
    answer_pauses-Within pausing (λ w. w.0) (λ w. w.1) pausing-Counts (0, 0)

answer_pauses-IsRedacted_example : IsRedacted pausing (answer_pauses pausing (0, 0))
answer_pauses-IsRedacted_example = answer_pauses-IsRedacted pausing (0, 0)
