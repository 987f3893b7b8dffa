-- ===== src/Tasks/Ownership.antt =====
-- At most one continuation owns a task: the invariant of the note on ownership in the class.
pub mod Owner
pub mod May
pub mod Turn
use mcp_adapter.Prelude.{
  ℕ, zero, suc, ◌+◌, ◌≤◌, ◌<◌, Bool, true, false, not, ◌&&◌, ◌||◌, Option, none, some, List, [],
  ◌∷◌, ◌≡◌, refl, sym, subst, ap, ◌∙◌, ◌⊎◌, inl, inr, arith, if◌then◌else◌, nat_beq, ltb, all,
  and→both, Bool-cases,
}
use mcp_adapter.Tasks.{
  Await, following, rendering, handing_over, handing_over_restore, resuming_task, failing,
  persisting, settling, Continuation, TaskEntry, Answer, wait, take_over, owns, remove_task,
  release, deliver, cancel, relinquish, arm, follow, resume_failed, resume_on, forget_resuming,
  after_resume_task, after_settle, after_render, after_hand_over, after_hand_off, advance,
  hand_over, hand_over_running, hand_over_restore, hand_off_for_shutdown, stop, abort_owner,
  delivered_if,
}
use mcp_adapter.Tasks.Pick.{Pick, here, there, Pick-two, all-Pick}
use mcp_adapter.Tasks.Steps.{is_over, is_ready}

-- The waits after which the task is released whatever its generation.
abbrev pub is_finishing : Await → Bool
is_finishing rendering = true
is_finishing failing = true
is_finishing persisting = true
is_finishing settling = true
is_finishing awaits = false

abbrev pub is_stale : ℕ → Continuation → Bool
is_stale n c = ltb c.generation n && not (is_finishing c.awaits)

abbrev pub is_none : Option ℕ → Bool
is_none none = true
is_none (some g) = false

abbrev pub is_some_of : Option ℕ → ℕ → Bool
is_some_of none g = false
is_some_of (some h) g = nat_beq h g

-- What is so of a task while its owner waits, by the generation, `running`, `resuming`,
-- `is_armed` and `persisted`.
abbrev pub may_wait : Await → ℕ → Bool → Option ℕ → Bool → ℕ → Bool
may_wait following g running resuming armed n = is_none resuming && nat_beq n 0
may_wait rendering g running resuming armed n = not running && (is_none resuming && nat_beq n 0)
may_wait (handing_over_restore h) g running resuming armed n =
    not running && ((is_none resuming || is_some_of resuming h) && (not armed && nat_beq n 0))
may_wait (resuming_task false) g running resuming armed n =
    not running && (is_some_of resuming g && (not armed && nat_beq n 0))
may_wait failing g running resuming armed n =
    not running && (is_none resuming && (not armed && nat_beq n 0))
may_wait persisting g running resuming armed n =
    not running && (is_none resuming && (not armed && nat_beq n 0))
may_wait settling g running resuming armed n =
    not running && (is_none resuming && (not armed && nat_beq n 1))
may_wait awaits g running resuming armed n = is_none resuming && (not armed && nat_beq n 0)

abbrev pub may : Await → TaskEntry → Bool
may awaits t = may_wait awaits t.generation t.running t.resuming t.is_armed t.persisted

-- No continuation owns the task, and nothing was done with it.
abbrev pub Free : TaskEntry → Type 0
Free t = (all (is_stale t.generation) t.continuations ≡ true) × (t.released ≡ 0) × (t.delivered ≡ 0)

-- A task has one owner, all other continuations being stale, or it was released, once, or a hand-over
-- that owned it was rejected.
pub data Phase (t : TaskEntry) : Type 0 where
  held :
      (c : Continuation) (rest : List Continuation)
      → Pick c rest t.continuations
      → Free (record t { continuations = rest })
      → c.generation ≡ t.generation
      → may c.awaits t ≡ true
      → Phase t
  over :
      all (is_stale t.generation) t.continuations ≡ true
      → t.running ≡ false
      → t.resuming ≡ none
      → t.is_armed ≡ false
      → t.released ≡ 1
      → t.delivered + t.persisted ≤ 1
      → Phase t
  dropped :
      Free t → t.resuming ≡ none → t.is_armed ≡ false → t.persisted ≡ 0 → 1 ≤ t.rejections → Phase t

pub stale-later :
    (n : ℕ) (cs : List Continuation) → all (is_stale n) cs ≡ true → all (is_stale (suc n)) cs ≡ true
stale-later n [] h = refl
stale-later n (c ∷ cs) h =
    let b = and→both (is_stale n c) (all (is_stale n) cs) h in
    let rest = stale-later n cs b.1 in
    let now : is_stale (suc n) c ≡ true = ground (arith, b.0) in ground (arith, now, rest)
