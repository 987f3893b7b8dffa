-- ===== src/Tasks/Steps.antt =====
-- What happens to a task: its continuations go on in any order and with any answers, its connection is
-- replaced, its session stops, its owner is aborted, and it is stopped.
use mcp_adapter.Prelude.{ℕ, Bool, true, not, Option, none, some, List, ◌≡◌, nat_beq}
use mcp_adapter.Tasks.{
  TaskEntry, Continuation, Await, handing_over_restore, Answer, remove_task, advance, hand_over,
  hand_off_for_shutdown, abort_owner, stop, entry, start, restore,
}
use mcp_adapter.Tasks.Pick.{Pick}

abbrev pub is_over : Option ℕ → ℕ → Bool
is_over none g = true
is_over (some h) g = not (nat_beq h g)

-- The restore that a hand-over waits for is out of `resuming` when the hand-over goes on: the
-- restore's own continuation was the first to wait for the same promise.
abbrev pub is_ready : Await → Option ℕ → Bool
is_ready (handing_over_restore restore) resuming = is_over resuming restore
is_ready awaits resuming = true

pub data Step : TaskEntry → TaskEntry → Type 0 where
  turn :
      (t : TaskEntry) (c : Continuation) (rest : List Continuation) (a : Answer)
      → Pick c rest t.continuations
      → is_ready c.awaits t.resuming ≡ true
      → Step t (advance c.awaits c.generation a (record t { continuations = rest }))
  replaced : (t : TaskEntry) → Step t (hand_over t)
  shut_down : (t : TaskEntry) → Step t (hand_off_for_shutdown t)
  aborted : (t : TaskEntry) → Step t (abort_owner t)
  stopped : (t : TaskEntry) → Step t (stop t).1
  -- Another entry takes the key in `running`.
  displaced : (t : TaskEntry) → Step t (remove_task t)

pub data Reach : TaskEntry → Type 0 where
  started :
      (stopping persists owner_aborted : Bool)
      → Reach (start (entry stopping persists owner_aborted))
  restored :
      (stopping persists owner_aborted : Bool) (a : Answer)
      → Reach (restore (entry stopping persists owner_aborted) a)
  step : {t u : TaskEntry} → Reach t → Step t u → Reach u
