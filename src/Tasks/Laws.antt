-- ===== src/Tasks/Laws.antt =====
-- A task is released once, and its outcome goes one way, in any order of what happens to it.
use mcp_adapter.Prelude.{
  ◌&&◌, Bool-cases, ◌⊎◌, inl, inr, ℕ, suc, ◌+◌, ◌≤◌, Bool, true, false, Option, none, List, [], ◌∷◌,
  ◌≡◌, refl, subst, arith, nat_beq, length, keep, all, and→both,
}
use mcp_adapter.Tasks.{
  Await, following, rendering, resuming_task, settling, Continuation, TaskEntry,
}
use mcp_adapter.Tasks.Pick.{Pick, here, there}
use mcp_adapter.Tasks.Steps.{Reach}
use mcp_adapter.Tasks.Ownership.{is_stale, may_wait, Phase, held, over, dropped}
use mcp_adapter.Tasks.Ownership.Owner.{is_none→none}
use mcp_adapter.Tasks.Phases.{Reach-Phase}

persisted_most :
    (awaits : Await) (n : ℕ) (running : Bool) (r : Option ℕ) (armed : Bool) (p : ℕ)
    → may_wait awaits n running r armed p ≡ true
    → p ≤ 1
persisted_most following n running r armed p m = ground (arith, m)
persisted_most rendering n running r armed p m = ground (arith, m)
persisted_most (resuming_task true) n running r armed p m = ground (arith, m)
persisted_most (resuming_task false) n running r armed p m = ground (arith, m)
persisted_most awaits n running r armed p m = ground (arith, m)

-- A recorded task is one that is not followed any more.
persisted-may :
    (awaits : Await) (n : ℕ) (running : Bool) (r : Option ℕ) (armed : Bool)
    → may_wait awaits n running r armed 1 ≡ true
    → (armed ≡ false) × (running ≡ false) × (r ≡ none)
persisted-may settling n running r armed m =
    (ground (arith, m), ground (arith, m), is_none→none r (ground (arith, m)))
persisted-may (resuming_task true) n running r armed m = ground (arith, m)
persisted-may (resuming_task false) n running r armed m = ground (arith, m)
persisted-may awaits n running r armed m = ground (arith, m)

abbrev pub is_owner : TaskEntry → Continuation → Bool
is_owner t c = nat_beq c.generation t.generation

stale-owners :
    (n : ℕ) (cs : List Continuation)
    → all (is_stale n) cs ≡ true
    → length (keep (λ c. nat_beq c.generation n) cs) ≡ 0
stale-owners n [] h = refl
stale-owners n (c ∷ cs) h =
    let b = and→both (is_stale n c) (all (is_stale n) cs) h in
    let other : nat_beq c.generation n ≡ false = ground (arith, b.0) in
    rw other (stale-owners n cs b.1)

Pick-owners :
    {c : Continuation} {rest cs : List Continuation} (f : Continuation → Bool)
    → Pick c rest cs
    → f c ≡ true
    → length (keep f cs) ≡ suc (length (keep f rest))
Pick-owners f here h = rw h refl
Pick-owners f (there {y = y} p) h = let rest = Pick-owners f p h in ground (arith, rest)

-- No abort of the owner cancels a task that was recorded for the next session.
Reach-unarmed :
    (t : TaskEntry)
    → Reach t
    → t.persisted ≡ 1
    → (t.is_armed ≡ false) × (t.running ≡ false) × (t.resuming ≡ none)
Reach-unarmed t r h = safe (Reach-Phase r)
  where
    safe : Phase t → (t.is_armed ≡ false) × (t.running ≡ false) × (t.resuming ≡ none)
    safe (over s n q d x y) = (d, n, q)
    safe (dropped f n d x y) = ground (arith, x, h)
    safe (held c rest p f e m) =
        persisted-may c.awaits t.generation t.running t.resuming t.is_armed
          (subst (λ n. may_wait c.awaits t.generation t.running t.resuming t.is_armed n ≡ true) h m)

-- In whatever order its continuations go on, its connection is replaced, its session stops and its
-- owner is aborted, the count in flight of a task is released at most once, and its outcome is
-- delivered to the model or recorded for the next session, never both and never twice. No abort of the
-- owner cancels a task that was recorded.
pub Reach-once :
    (t : TaskEntry)
    → Reach t
    → (t.released ≤ 1)
      × (t.delivered + t.persisted ≤ 1)
      × (t.delivered ≤ t.released)
      × ((nat_beq t.persisted 1 && t.is_armed) ≡ false)
Reach-once t r =
    let o = once (Reach-Phase r) in (o.0, o.1, o.2, unarmed (Bool-cases (nat_beq t.persisted 1)))
  where
    once : Phase t → (t.released ≤ 1) × (t.delivered + t.persisted ≤ 1) × (t.delivered ≤ t.released)
    once (over s n q d x y) = (omega (arith, x), y, omega (arith, x, y))
    once (dropped f n d x y) = (omega (arith, f.1), omega (arith, f.2, x), omega (arith, f.2))
    once (held c rest p f e m) =
        let most =
          persisted_most c.awaits t.generation t.running t.resuming t.is_armed t.persisted m in
        (omega (arith, f.1), omega (arith, f.2, most), omega (arith, f.2))

    unarmed :
        (nat_beq t.persisted 1 ≡ true) ⊎ (nat_beq t.persisted 1 ≡ false)
        → (nat_beq t.persisted 1 && t.is_armed) ≡ false
    unarmed (inl kept) = ground (arith, kept, (Reach-unarmed t r (ground (arith, kept))).0)
    unarmed (inr other) = rw other refl

-- Either exactly one of a continuation that owns the task and a release of its count in flight is
-- there, or there is neither, and that only after a hand-over was rejected: its handoff or the
-- result of the old execution, for which the code has no catch.
pub Reach-owners :
    (t : TaskEntry)
    → Reach t
    → let owners = length (keep (is_owner t) t.continuations) in
      (owners + t.released ≡ 1) ⊎ ((owners + t.released ≡ 0) × (1 ≤ t.rejections))
Reach-owners t r = counted (Reach-Phase r)
  where
    counted :
        Phase t
        → let owners = length (keep (is_owner t) t.continuations) in
          (owners + t.released ≡ 1) ⊎ ((owners + t.released ≡ 0) × (1 ≤ t.rejections))
    counted (over s n q d x y) = inl (omega (arith, stale-owners t.generation t.continuations s, x))
    counted (dropped f n d x y) =
        inr (omega (arith, stale-owners t.generation t.continuations f.0, f.1), y)
    counted (held c rest p f e m) = inl (
        omega (
          arith,
          Pick-owners (is_owner t) p (ground (arith, e)),
          stale-owners t.generation rest f.0,
          f.1,
        ))
