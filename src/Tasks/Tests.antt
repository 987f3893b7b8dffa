-- ===== src/Tasks/Tests.antt =====
-- A task that is handed over to a fresh connection and then recorded by its stopping session.
use mcp_adapter.Prelude.{
  ◌⊎◌, nat_beq, ◌&&◌, ◌+◌, ◌≤◌, true, false, List, [], ◌∷◌, ◌≡◌, refl, length, keep,
}
use mcp_adapter.Tasks.{
  following, handing_over, persisting, settling, Continuation, TaskEntry, Answer, advance,
  hand_over, hand_off_for_shutdown, abort_owner, stop, entry, start,
}
use mcp_adapter.Tasks.Pick.{here}
use mcp_adapter.Tasks.Steps.{Reach, started, step, turn, replaced, shut_down}
use mcp_adapter.Tasks.Laws.{is_owner, Reach-once, Reach-owners}

abbrev success : Answer
success = record { succeeds = true; has_session = true; is_closed = false }

abbrev task : TaskEntry
task = start (entry false true false)

abbrev moving : TaskEntry
moving = hand_over task

abbrev stopping_task : TaskEntry
stopping_task = hand_off_for_shutdown moving

abbrev earlier : List Continuation
earlier =
    record { awaits = handing_over; generation = 1 }
    ∷ record { awaits = following; generation = 0 }
    ∷ []

abbrev recorded : TaskEntry
recorded = advance persisting 2 success (record stopping_task { continuations = earlier })

recorded-Reach : Reach recorded
unfolding start entry hand_over hand_off_for_shutdown advance
recorded-Reach =
    step (step (step (started false true false) (replaced task)) (shut_down moving)) (
      turn stopping_task (record { awaits = persisting; generation = 2 }) earlier success here refl)

task_tests :
    (recorded.released ≡ 0)
    × (recorded.persisted ≡ 1)
    × ((advance settling 2 success recorded).released ≡ 1)
    × ((abort_owner recorded).cancels ≡ 0)
    × ((abort_owner task).cancels ≡ 1)
    × ((stop task).0 ≡ true)
    × ((stop recorded).0 ≡ false)
unfolding start entry hand_over hand_off_for_shutdown advance abort_owner stop
task_tests = (refl, refl, refl, refl, refl, refl, refl)

Reach-once_example :
    (recorded.released ≤ 1)
    × (recorded.delivered + recorded.persisted ≤ 1)
    × (recorded.delivered ≤ recorded.released)
    × ((nat_beq recorded.persisted 1 && recorded.is_armed) ≡ false)
Reach-once_example = Reach-once recorded recorded-Reach

Reach-owners_example :
    let owners = length (keep (is_owner recorded) recorded.continuations) in
    (owners + recorded.released ≡ 1)
    ⊎ ((owners + recorded.released ≡ 0) × (1 ≤ recorded.rejections))
Reach-owners_example = Reach-owners recorded recorded-Reach
