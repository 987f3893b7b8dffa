-- ===== src/Tasks/Ownership/Owner.antt =====
-- The owner of a task goes on: it waits again, or it releases the task.
use mcp_adapter.Prelude.{
  ℕ, suc, ◌+◌, ◌≤◌, Bool, true, false, not, ◌&&◌, ◌||◌, Option, none, some, ◌≡◌, refl, sym, subst,
  ap, arith, if◌then◌else◌, nat_beq, all,
}
use mcp_adapter.Tasks.{
  Await, following, rendering, handing_over, handing_over_restore, resuming_task, failing,
  persisting, settling, TaskEntry, Answer, wait, owns, remove_task, release, deliver, cancel,
  relinquish, arm, follow, resume_failed, resume_on, after_resume_task, after_settle, after_render,
  after_hand_over, after_hand_off, advance, delivered_if,
}
use mcp_adapter.Tasks.Pick.{here}
use mcp_adapter.Tasks.Steps.{is_over, is_ready}
use mcp_adapter.Tasks.Ownership.{
  is_stale, is_none, is_some_of, may_wait, may, Free, Phase, held, over, dropped, stale-later,
}

-- The parts of a condition under which both branches of a test are in a phase.
pub if_Phase :
    {x y : TaskEntry} (b : Bool)
    → (b ≡ true → Phase x)
    → (b ≡ false → Phase y)
    → Phase (if b then x else y)
if_Phase true f g = f refl
if_Phase false f g = g refl

pub wait-held :
    (awaits : Await) (t : TaskEntry)
    → Free t
    → may awaits t ≡ true
    → Phase (wait awaits t.generation t)
wait-held awaits t f h =
    held (record { awaits = awaits; generation = t.generation }) t.continuations here f refl h

release-over :
    (t : TaskEntry)
    → all (is_stale t.generation) t.continuations ≡ true
    → t.released ≡ 0
    → t.resuming ≡ none
    → t.delivered + t.persisted ≤ 1
    → Phase (release t)
release-over t s r n d = over s refl n refl (ap suc r) d

-- Nothing was done with the task, nor is it being restored.
abbrev pub Calm : TaskEntry → Type 0
Calm t = Free t × (t.resuming ≡ none) × (t.persisted ≡ 0)

pub is_none→none : (o : Option ℕ) → is_none o ≡ true → o ≡ none
is_none→none none h = refl
is_none→none (some g) h = cc

nat_beq_self : (n : ℕ) → nat_beq n n ≡ true
nat_beq_self n = ground arith

release-Calm : (t : TaskEntry) → Calm t → Phase (release t)
release-Calm t c = release-over t c.0.0 c.0.1 c.1 (omega (arith, c.0.2, c.2))

relinquish-Calm : (t : TaskEntry) → Calm t → Phase (relinquish t t.generation)
unfolding relinquish
relinquish-Calm t c = rw (nat_beq_self t.generation) (
    over (stale-later t.generation t.continuations c.0.0) refl c.1 refl (ap suc c.0.1)
      (omega (arith, c.0.2, c.2)))

wait-Calm :
    (awaits : Await) (t : TaskEntry)
    → Calm t
    → may_wait awaits t.generation t.running none t.is_armed 0 ≡ true
    → Phase (wait awaits t.generation t)
wait-Calm awaits t c h = wait-held awaits t c.0 (
    subst (λ r. may_wait awaits t.generation t.running r t.is_armed t.persisted ≡ true) (sym c.1)
      (subst (λ n. may_wait awaits t.generation t.running none t.is_armed n ≡ true) (sym c.2) h))

pub follow-Calm : (t : TaskEntry) → Calm t → Phase (follow t t.generation)
unfolding follow
follow-Calm t c =
    if_Phase (owns t t.generation)
      (λ mine. wait-Calm following (arm (record t { running = true })) c refl)
      (λ lost. relinquish-Calm t c)

resume_failed-Calm :
    (t : TaskEntry) (has_old : Bool) (a : Answer)
    → Calm t
    → t.is_armed ≡ false
    → Phase (resume_failed t t.generation has_old a)
unfolding resume_failed
resume_failed-Calm t has_old a c d =
    if_Phase (not (owns t t.generation)) (λ lost. relinquish-Calm t c)
      (λ mine.
        if_Phase (t.owner_aborted || a.is_closed)
          (λ closed.
            if_Phase has_old
              (λ old. wait-Calm failing (cancel (remove_task t)) c (ground (arith, d)))
              (λ fresh. release-Calm (remove_task t) c))
          (λ followable. wait-Calm failing (remove_task t) c (ground (arith, d))))

pub resume_on-Calm :
    (t : TaskEntry) (has_old : Bool) (a : Answer)
    → Calm t
    → t.is_armed ≡ false
    → (has_old ≡ false → t.running ≡ false)
    → Phase (resume_on t t.generation has_old a)
unfolding resume_on
resume_on-Calm t has_old a c d r =
    if_Phase (not a.has_session) (λ lost. resume_failed-Calm t has_old a c d)
      (λ session.
        if_Phase has_old (λ old. wait-Calm (resuming_task true) t c (ground (arith, d)))
          (λ fresh.
            wait-held (resuming_task false) (record t { resuming = some t.generation }) c.0
              (ground (arith, d, r fresh, c.2, nat_beq_self t.generation))))

after_resume_task-Calm :
    (t : TaskEntry) (has_old : Bool) (a : Answer)
    → Calm t
    → t.is_armed ≡ false
    → Phase (after_resume_task t t.generation has_old a)
unfolding after_resume_task
after_resume_task-Calm t has_old a c d =
    if_Phase (not a.succeeds) (λ lost. resume_failed-Calm t has_old a c d)
      (λ ok.
        if_Phase (not has_old && t.owner_aborted) (λ stop. relinquish-Calm t c)
          (λ go. follow-Calm t c))

after_hand_over-Calm :
    (t : TaskEntry) (has_old : Bool) (a : Answer)
    → Calm t
    → t.is_armed ≡ false
    → (has_old ≡ false → t.running ≡ false)
    → Phase (after_hand_over t t.generation has_old a)
unfolding after_hand_over
after_hand_over-Calm t has_old a c d r =
    if_Phase (not a.succeeds) (λ lost. dropped c.0 c.1 d c.2 (omega arith))
      (λ ok.
        if_Phase (owns t t.generation) (λ mine. resume_on-Calm t has_old a c d r)
          (λ taken. relinquish-Calm t c))

after_settle-Calm : (t : TaskEntry) (a : Answer) → Calm t → Phase (after_settle t t.generation a)
unfolding after_settle
after_settle-Calm t a c =
    if_Phase (a.succeeds && owns t t.generation)
      (λ mine. wait-Calm rendering (remove_task t) c refl)
      (λ lost. rw (nat_beq_self t.generation) (release-Calm t c))

-- A finishing continuation delivers at most one message.
release-delivered_if : (t : TaskEntry) (b : Bool) → Calm t → Phase (release (delivered_if b t))
release-delivered_if t true c = release-over (deliver t) c.0.0 c.0.1 c.1 (omega (arith, c.0.2, c.2))
release-delivered_if t false c = release-Calm t c

after_render-Calm : (t : TaskEntry) (a : Answer) → Calm t → Phase (after_render t t.generation a)
unfolding after_render
after_render-Calm t a c = rw (nat_beq_self t.generation) (release-delivered_if t a.succeeds c)

after_hand_off-Calm :
    (t : TaskEntry) (a : Answer)
    → Calm t
    → t.running ≡ false
    → t.is_armed ≡ false
    → Phase (after_hand_off t t.generation a)
unfolding after_hand_off
after_hand_off-Calm t a c r d =
    if_Phase a.succeeds
      (λ ok.
        wait-held settling (record t { persisted = suc t.persisted }) c.0
          (rw c.1 (ground (arith, r, d, c.2))))
      (λ lost. release-Calm t c)

pub is_some_of→some : (o : Option ℕ) (g : ℕ) → is_some_of o g ≡ true → o ≡ some g
is_some_of→some none g h = cc
is_some_of→some (some n) g h = ap some (ground (arith, h))

ready→none :
    (o : Option ℕ) (g : ℕ) → is_over o g ≡ true → (is_none o || is_some_of o g) ≡ true → o ≡ none
ready→none none g r h = refl
ready→none (some n) g r h = ground (arith, r, h)

-- The owner goes on.
pub owner-advance :
    (awaits : Await) (t : TaskEntry) (a : Answer)
    → Free t
    → may awaits t ≡ true
    → is_ready awaits t.resuming ≡ true
    → Phase (advance awaits t.generation a t)
unfolding advance
owner-advance following t a f h r =
    after_settle-Calm t a (f, is_none→none t.resuming (ground (arith, h)), ground (arith, h))
owner-advance rendering t a f h r =
    after_render-Calm t a (f, is_none→none t.resuming (ground (arith, h)), ground (arith, h))
owner-advance handing_over t a f h r =
    after_hand_over-Calm t true a
      (f, is_none→none t.resuming (ground (arith, h)), ground (arith, h)) (ground (arith, h))
      (λ e. cc)
owner-advance (handing_over_restore g) t a f h r =
    after_hand_over-Calm t false a
      (f, ready→none t.resuming g r (ground (arith, h)), ground (arith, h)) (ground (arith, h))
      (λ e. ground (arith, h))
owner-advance (resuming_task true) t a f h r =
    after_resume_task-Calm t true a
      (f, is_none→none t.resuming (ground (arith, h)), ground (arith, h)) (ground (arith, h))
owner-advance (resuming_task false) t a f h r =
    rw (is_some_of→some t.resuming t.generation (ground (arith, h))) (
      rw (nat_beq_self t.generation) (
        after_resume_task-Calm (record t { resuming = none }) false a (f, refl, ground (arith, h))
          (ground (arith, h))))
owner-advance failing t a f h r =
    release-delivered_if t a.succeeds
      (f, is_none→none t.resuming (ground (arith, h)), ground (arith, h))
owner-advance persisting t a f h r =
    after_hand_off-Calm t a (f, is_none→none t.resuming (ground (arith, h)), ground (arith, h))
      (ground (arith, h)) (ground (arith, h))
owner-advance settling t a f h r =
    release-over t f.0 f.1 (is_none→none t.resuming (ground (arith, h))) (ground (arith, h, f.2))
