-- ===== src/Tasks.antt =====
-- task-jobs.ts: `BackgroundTaskRegistry`, for one task. What the code has left to do after an await
-- is a continuation here, with the generation that it started from.
pub mod Pick
pub mod Steps
pub mod Ownership
pub mod Phases
pub mod Laws
mod Tests
use mcp_adapter.Prelude.{
  ℕ, zero, suc, ◌+◌, Bool, true, false, not, ◌&&◌, ◌||◌, Option, none, some, List, [], ◌∷◌,
  if◌then◌else◌, nat_beq,
}

-- What is awaited. A hand-over of a restore waits for the restore of a generation, and `has_old` says
-- that there is a replaced execution.
pub data Await : Type 0 where
  following rendering handing_over failing persisting settling : Await
  handing_over_restore : (restore : ℕ) → Await
  resuming_task : (has_old : Bool) → Await

pub record Continuation : Type 0 where
  pub awaits : Await
  pub generation : ℕ

-- A task's entry, with what the registry and the owner's signal say of it: `running` is
-- `running.get(key) === entry`, `resuming` is the generation of the restore that `resuming` has for
-- the entry, `is_armed` says that the abort of the owner cancels the execution. The last five
-- count what is done for the task; `rejections` counts the hand-overs that were rejected.
pub record TaskEntry : Type 0 where
  pub generation : ℕ
  pub running : Bool
  pub resuming : Option ℕ
  pub stopping : Bool
  pub persists : Bool
  pub owner_aborted : Bool
  pub is_armed : Bool
  pub continuations : List Continuation
  pub released : ℕ
  pub delivered : ℕ
  pub persisted : ℕ
  pub cancels : ℕ
  pub rejections : ℕ

-- How an await ends, and what the connection says then: whether it has a task session, and whether it
-- was closed.
pub record Answer : Type 0 where
  pub succeeds : Bool
  pub has_session : Bool
  pub is_closed : Bool

abbrev pub wait : Await → ℕ → TaskEntry → TaskEntry
wait awaits g t = record t {
  continuations = record { awaits = awaits; generation = g } ∷ t.continuations;
}

abbrev pub take_over : TaskEntry → TaskEntry
take_over t = record t { generation = suc t.generation; is_armed = false }

abbrev pub owns : TaskEntry → ℕ → Bool
owns t g = nat_beq t.generation g && not t.stopping

abbrev pub remove_task : TaskEntry → TaskEntry
remove_task t = record t { running = false }

abbrev pub release : TaskEntry → TaskEntry
release t = record t { running = false; is_armed = false; released = suc t.released }

abbrev pub deliver : TaskEntry → TaskEntry
deliver t = record t { delivered = suc t.delivered }

abbrev pub cancel : TaskEntry → TaskEntry
cancel t = record t { cancels = suc t.cancels }

unfoldable pub relinquish : TaskEntry → ℕ → TaskEntry
relinquish t g = if nat_beq t.generation g then release (take_over t) else t

abbrev pub arm : TaskEntry → TaskEntry
arm t = record t {
  is_armed = not t.owner_aborted;
  cancels = if t.owner_aborted then suc t.cancels else t.cancels;
}

unfoldable pub follow : TaskEntry → ℕ → TaskEntry
unfolding relinquish
follow t g =
    if owns t g then wait following g (arm (record t { running = true })) else relinquish t g

-- The catch of `resumeOn`.
unfoldable pub resume_failed : TaskEntry → ℕ → Bool → Answer → TaskEntry
unfolding relinquish
resume_failed t g has_old a =
    if not (owns t g)
    then relinquish t g
    else if t.owner_aborted || a.is_closed
    then if has_old then wait failing g (cancel (remove_task t)) else release (remove_task t)
    else wait failing g (remove_task t)

unfoldable pub resume_on : TaskEntry → ℕ → Bool → Answer → TaskEntry
unfolding resume_failed
resume_on t g has_old a =
    if not a.has_session
    then resume_failed t g has_old a
    else if has_old
    then wait (resuming_task true) g t
    else wait (resuming_task false) g (record t { resuming = some g })

-- `resuming.delete(entry)` where the restore is still the one of this call.
abbrev forget_resuming : Option ℕ → ℕ → TaskEntry → TaskEntry
forget_resuming none g t = t
forget_resuming (some h) g t = if nat_beq h g then record t { resuming = none } else t

-- `resumeOn` after its await.
unfoldable pub after_resume_task : TaskEntry → ℕ → Bool → Answer → TaskEntry
unfolding resume_failed follow
after_resume_task t g has_old a =
    if not a.succeeds
    then resume_failed t g has_old a
    else if not has_old && t.owner_aborted
    then relinquish t g
    else follow t g

-- The `then` and the `finally` of `follow`.
unfoldable pub after_settle : TaskEntry → ℕ → Answer → TaskEntry
after_settle t g a =
    if a.succeeds && owns t g
    then wait rendering g (remove_task t)
    else if nat_beq t.generation g
    then release t
    else t

abbrev delivered_if : Bool → TaskEntry → TaskEntry
delivered_if succeeds t = if succeeds then deliver t else t

unfoldable pub after_render : TaskEntry → ℕ → Answer → TaskEntry
after_render t g a =
    if nat_beq t.generation g
    then release (delivered_if a.succeeds t)
    else delivered_if a.succeeds t

unfoldable pub after_hand_over : TaskEntry → ℕ → Bool → Answer → TaskEntry
unfolding relinquish resume_on
after_hand_over t g has_old a =
    if not a.succeeds
    then record t { rejections = suc t.rejections }
    else if owns t g
    then resume_on t g has_old a
    else relinquish t g

-- `persistOnStop` after the hand-off.
unfoldable pub after_hand_off : TaskEntry → ℕ → Answer → TaskEntry
after_hand_off t g a =
    if a.succeeds then wait settling g (record t { persisted = suc t.persisted }) else release t

-- The continuation goes on. It is no longer one of the entry's.
unfoldable pub advance : Await → ℕ → Answer → TaskEntry → TaskEntry
unfolding after_settle after_render after_hand_over after_resume_task after_hand_off
advance following g a t = after_settle t g a
advance rendering g a t = after_render t g a
advance handing_over g a t = after_hand_over t g true a
advance (handing_over_restore restore) g a t = after_hand_over t g false a
advance (resuming_task true) g a t = after_resume_task t g true a
advance (resuming_task false) g a t = after_resume_task (forget_resuming t.resuming g t) g false a
advance failing g a t = release (delivered_if a.succeeds t)
advance persisting g a t = after_hand_off t g a
advance settling g a t = release t

abbrev hand_over_running : TaskEntry → TaskEntry
hand_over_running t = if t.running then wait handing_over (suc t.generation) (take_over t) else t

abbrev hand_over_restore : Option ℕ → TaskEntry → TaskEntry
hand_over_restore none t = t
hand_over_restore (some restore) t =
    wait (handing_over_restore restore) (suc t.generation) (take_over t)

-- `handOver` up to its first awaits.
unfoldable pub hand_over : TaskEntry → TaskEntry
hand_over t = hand_over_restore t.resuming (hand_over_running t)

unfoldable pub hand_off_for_shutdown : TaskEntry → TaskEntry
hand_off_for_shutdown t =
    if not t.persists
    then t
    else if t.running
    then wait persisting (suc t.generation) (remove_task (take_over (record t { stopping = true })))
    else record t { stopping = true }

unfoldable pub stop : TaskEntry → Bool × TaskEntry
stop t = if t.running then (true, cancel t) else (false, t)

-- The abort of the owner's signal.
unfoldable pub abort_owner : TaskEntry → TaskEntry
abort_owner t =
    if t.is_armed && not t.owner_aborted
    then record t { owner_aborted = true; is_armed = false; cancels = suc t.cancels }
    else record t { owner_aborted = true }

-- `entry`, in a registry with these flags.
unfoldable pub entry : Bool → Bool → Bool → TaskEntry
entry stopping persists owner_aborted = record {
  generation = 0;
  running = false;
  resuming = none;
  stopping = stopping;
  persists = persists;
  owner_aborted = owner_aborted;
  is_armed = false;
  continuations = [];
  released = 0;
  delivered = 0;
  persisted = 0;
  cancels = 0;
  rejections = 0;
}

unfoldable pub start : TaskEntry → TaskEntry
unfolding follow
start t = if t.stopping then wait persisting t.generation t else follow t t.generation

unfoldable pub restore : TaskEntry → Answer → TaskEntry
unfolding resume_on
restore t a = resume_on t t.generation false a
