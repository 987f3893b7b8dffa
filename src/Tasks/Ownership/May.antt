-- ===== src/Tasks/Ownership/May.antt =====
-- What the waits of an owner say of a task that is taken over, aborted or displaced.
use mcp_adapter.Prelude.{ℕ, suc, Bool, true, false, Option, some, List, ◌≡◌, refl, arith}
use mcp_adapter.Tasks.{
  Await, following, rendering, handing_over, handing_over_restore, resuming_task, failing,
  persisting, settling, Continuation, TaskEntry, take_over,
}
use mcp_adapter.Tasks.Pick.{Pick, Pick-all}
use mcp_adapter.Tasks.Ownership.{is_finishing, is_stale, is_none, may_wait, Free, stale-later}

-- A task that is in `running` or in `resuming` can be taken over.
pub running-may :
    (awaits : Await) (n : ℕ) (r : Option ℕ) (armed : Bool) (p : ℕ)
    → may_wait awaits n true r armed p ≡ true
    → (is_finishing awaits ≡ false) × (is_none r ≡ true) × (p ≡ 0)
running-may following n r armed p m = (refl, ground (arith, m), ground (arith, m))
running-may handing_over n r armed p m = (refl, ground (arith, m), ground (arith, m))
running-may (resuming_task true) n r armed p m = (refl, ground (arith, m), ground (arith, m))
running-may rendering n r armed p m = cc
running-may (handing_over_restore h) n r armed p m = cc
running-may (resuming_task false) n r armed p m = cc
running-may failing n r armed p m = cc
running-may persisting n r armed p m = cc
running-may settling n r armed p m = cc

pub resuming-may :
    (awaits : Await) (n g : ℕ) (running armed : Bool) (p : ℕ)
    → may_wait awaits n running (some g) armed p ≡ true
    → (is_finishing awaits ≡ false) × (running ≡ false) × (p ≡ 0)
resuming-may (handing_over_restore h) n g running armed p m =
    (refl, ground (arith, m), ground (arith, m))
resuming-may (resuming_task false) n g running armed p m =
    (refl, ground (arith, m), ground (arith, m))
resuming-may following n g running armed p m = cc
resuming-may handing_over n g running armed p m = cc
resuming-may (resuming_task true) n g running armed p m = cc
resuming-may rendering n g running armed p m = ground (arith, m)
resuming-may failing n g running armed p m = ground (arith, m)
resuming-may persisting n g running armed p m = ground (arith, m)
resuming-may settling n g running armed p m = ground (arith, m)

-- An owner that is taken over is stale, as the others are.
pub taken_over-Free :
    (t : TaskEntry) (c : Continuation) (rest : List Continuation)
    → Pick c rest t.continuations
    → Free (record t { continuations = rest })
    → c.generation ≡ t.generation
    → is_finishing c.awaits ≡ false
    → Free (take_over t)
taken_over-Free t c rest p f e n =
    let now : is_stale (suc t.generation) c ≡ true = ground (arith, e, n) in
    (Pick-all (is_stale (suc t.generation)) p now (stale-later t.generation rest f.0), f.1, f.2)

pub displaced-may :
    (awaits : Await) (n : ℕ) (running : Bool) (r : Option ℕ) (armed : Bool) (p : ℕ)
    → may_wait awaits n running r armed p ≡ true
    → may_wait awaits n false r armed p ≡ true
displaced-may awaits n false r armed p m = m
displaced-may awaits n true r armed p m =
    elim awaits as (λ w. may_wait w n true r armed p ≡ true → may_wait w n false r armed p ≡ true) [
      | following ↦ λ k. k
      | rendering ↦ λ k. cc
      | handing_over ↦ λ k. k
      | failing ↦ λ k. cc
      | persisting ↦ λ k. cc
      | settling ↦ λ k. cc
      | handing_over_restore h ↦ λ k. cc
      | resuming_task true ↦ λ k. k
      | resuming_task false ↦ λ k. cc
    ]
      m

pub unarmed-may :
    (awaits : Await) (n : ℕ) (running : Bool) (r : Option ℕ) (armed : Bool) (p : ℕ)
    → may_wait awaits n running r armed p ≡ true
    → may_wait awaits n running r false p ≡ true
unarmed-may awaits n running r false p m = m
unarmed-may following n running r true p m = m
unarmed-may rendering n running r true p m = m
unarmed-may awaits n running r true p m = ground (arith, m)
