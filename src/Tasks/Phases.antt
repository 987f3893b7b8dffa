-- ===== src/Tasks/Phases.antt =====
-- Every step keeps a task in a phase: one owner, or released once.
use mcp_adapter.Prelude.{
  ℕ, suc, Bool, true, false, not, ◌&&◌, Option, none, some, List, ◌≡◌, ◌⊎◌, refl, sym, ◌∙◌, subst,
  inl, inr, arith, if◌then◌else◌,
}
use mcp_adapter.Tasks.{
  Await, handing_over, handing_over_restore, persisting, Continuation, TaskEntry, wait, take_over,
  remove_task, hand_over, hand_over_running, hand_over_restore, hand_off_for_shutdown, abort_owner,
  stop, entry, start, restore, cancel,
}
use mcp_adapter.Tasks.Pick.{Pick}
use mcp_adapter.Tasks.Steps.{
  Step, turn, replaced, shut_down, aborted, stopped, displaced, Reach, started, restored, step,
}
use mcp_adapter.Tasks.Ownership.{
  is_finishing, may_wait, Free, Phase, held, over, dropped, stale-later,
}
use mcp_adapter.Tasks.Ownership.Owner.{
  if_Phase, wait-held, is_none→none, follow-Calm, resume_on-Calm,
}
use mcp_adapter.Tasks.Ownership.Turn.{turn-Phase}
use mcp_adapter.Tasks.Ownership.May.{
  running-may, resuming-may, taken_over-Free, displaced-may, unarmed-may,
}

-- A task is taken over by a continuation that waits for something else.
take_over-Phase :
    (t : TaskEntry) (c : Continuation) (rest : List Continuation) (awaits : Await)
    (running stopping : Bool)
    → Pick c rest t.continuations
    → Free (record t { continuations = rest })
    → c.generation ≡ t.generation
    → is_finishing c.awaits ≡ false
    → may_wait awaits (suc t.generation) running t.resuming false t.persisted ≡ true
    → Phase (
        wait awaits (suc t.generation) (record t {
          generation = suc t.generation;
          running = running;
          stopping = stopping;
          is_armed = false;
        }))
take_over-Phase t c rest awaits running stopping p f e n m =
    wait-held awaits
      (record t {
        generation = suc t.generation;
        running = running;
        stopping = stopping;
        is_armed = false;
      })
      (taken_over-Free t c rest p f e n) m

-- A restore that is in `resuming` can be taken over, and its task is not in `running`.
resuming-taken :
    (t : TaskEntry) (g : ℕ)
    → t.resuming ≡ some g
    → Phase t
    → (t.running ≡ false) × Phase (wait (handing_over_restore g) (suc t.generation) (take_over t))
resuming-taken t g o (dropped f n d x y) = cc
resuming-taken t g o (over s n r d x y) = cc
resuming-taken t g o (held c rest p f e m) =
    let b =
      resuming-may c.awaits t.generation g t.running t.is_armed t.persisted (
        subst (λ r. may_wait c.awaits t.generation t.running r t.is_armed t.persisted ≡ true) o
          m) in
    (
      b.1,
      take_over-Phase t c rest (handing_over_restore g) t.running t.stopping p f e b.0 (
          subst
            (λ r.
              may_wait (handing_over_restore g) (suc t.generation) t.running r false t.persisted
              ≡ true)
            (sym o) (ground (arith, b.1, b.2))),
    )

running-taken :
    (t : TaskEntry) (awaits : Await) (running stopping : Bool)
    → may_wait awaits (suc t.generation) running none false 0 ≡ true
    → t.running ≡ true
    → Phase t
    → Phase (
        wait awaits (suc t.generation) (record t {
          generation = suc t.generation;
          running = running;
          stopping = stopping;
          is_armed = false;
        }))
running-taken t awaits running stopping k h (dropped f n d x y) =
    wait-held awaits
      record t {
        generation = suc t.generation;
        running = running;
        stopping = stopping;
        is_armed = false;
      }
      (stale-later t.generation t.continuations f.0, f.1, f.2)
      (subst (λ r. may_wait awaits (suc t.generation) running r false t.persisted ≡ true) (sym n)
        (subst (λ m. may_wait awaits (suc t.generation) running none false m ≡ true) (sym x) k))
running-taken t awaits running stopping k h (over s n r d x y) = cc
running-taken t awaits running stopping k h (held c rest p f e m) =
    let b = running-may c.awaits t.generation t.resuming t.is_armed t.persisted (
      subst (λ r. may_wait c.awaits t.generation r t.resuming t.is_armed t.persisted ≡ true) h m) in
    take_over-Phase t c rest awaits running stopping p f e b.0 (
      subst (λ r. may_wait awaits (suc t.generation) running r false t.persisted ≡ true)
        (sym (is_none→none t.resuming b.1))
        (subst (λ n. may_wait awaits (suc t.generation) running none false n ≡ true) (sym b.2) k))

restore-Phase :
    (o : Option ℕ) (t : TaskEntry)
    → (o ≡ none → Phase t)
    → ((g : ℕ)
        → o ≡ some g
        → Phase (wait (handing_over_restore g) (suc t.generation) (take_over t)))
    → Phase (hand_over_restore o t)
restore-Phase none t f g = f refl
restore-Phase (some n) t f g = g n refl

not_running : (t : TaskEntry) → t.running ≡ false → hand_over_running t ≡ t
not_running t h = rw h refl

hand_over-Phase : (t : TaskEntry) → Phase t → Phase (hand_over t)
unfolding hand_over
hand_over-Phase t ph =
    restore-Phase t.resuming (hand_over_running t)
      (λ o.
        if_Phase t.running (λ r. running-taken t handing_over t.running t.stopping refl r ph)
          (λ r. ph))
      (λ g o.
        let b = resuming-taken t g o ph in
        subst (λ u. Phase (wait (handing_over_restore g) (suc u.generation) (take_over u)))
          (sym (not_running t b.0)) b.1)

stopping-Phase : (t : TaskEntry) → Phase t → Phase (record t { stopping = true })
stopping-Phase t (dropped f n d x y) = dropped f n d x y
stopping-Phase t (over s n r d x y) = over s n r d x y
stopping-Phase t (held c rest p f e m) = held c rest p f e m

shut_down-Phase : (t : TaskEntry) → Phase t → Phase (hand_off_for_shutdown t)
unfolding hand_off_for_shutdown
shut_down-Phase t ph =
    if_Phase (not t.persists) (λ n. ph)
      (λ y.
        if_Phase t.running (λ r. running-taken t persisting false true refl r ph)
          (λ r. stopping-Phase t ph))

aborted-Phase :
    (t : TaskEntry) (n : ℕ) (armed : Bool)
    → (armed ≡ t.is_armed) ⊎ (armed ≡ false)
    → Phase t
    → Phase (record t { owner_aborted = true; is_armed = armed; cancels = n })
aborted-Phase t n armed k (dropped f q d x y) =
    dropped f q (elim k [ inl same ↦ same ∙ d | inr off ↦ off ]) x y
aborted-Phase t n armed k (over s q r d x y) =
    over s q r (elim k [ inl same ↦ same ∙ d | inr off ↦ off ]) x y
aborted-Phase t n armed k (held c rest p f e m) = held c rest p f e (elim k [
  | inl same ↦
      subst (λ b. may_wait c.awaits t.generation t.running t.resuming b t.persisted ≡ true)
        (sym same) m
  | inr off ↦
      subst (λ b. may_wait c.awaits t.generation t.running t.resuming b t.persisted ≡ true)
        (sym off) (unarmed-may c.awaits t.generation t.running t.resuming t.is_armed t.persisted m)
])

abort_owner-Phase : (t : TaskEntry) → Phase t → Phase (abort_owner t)
unfolding abort_owner
abort_owner-Phase t ph =
    if_Phase (t.is_armed && not t.owner_aborted)
      (λ arms. aborted-Phase t (suc t.cancels) false (inr refl) ph)
      (λ idle. aborted-Phase t t.cancels t.is_armed (inl refl) ph)

cancel-Phase : (t : TaskEntry) → Phase t → Phase (cancel t)
cancel-Phase t (dropped f n d x y) = dropped f n d x y
cancel-Phase t (over s n r d x y) = over s n r d x y
cancel-Phase t (held c rest p f e m) = held c rest p f e m

if_pair-Phase :
    (b : Bool) (x y : Bool × TaskEntry) → Phase x.1 → Phase y.1 → Phase (if b then x else y).1
if_pair-Phase true x y p q = p
if_pair-Phase false x y p q = q

stop-Phase : (t : TaskEntry) → Phase t → Phase (stop t).1
unfolding stop
stop-Phase t ph = if_pair-Phase t.running (true, cancel t) (false, t) (cancel-Phase t ph) ph

displaced-Phase : (t : TaskEntry) → Phase t → Phase (remove_task t)
displaced-Phase t (dropped f n d x y) = dropped f n d x y
displaced-Phase t (over s n r d x y) = over s refl r d x y
displaced-Phase t (held c rest p f e m) =
    held c rest p f e
      (displaced-may c.awaits t.generation t.running t.resuming t.is_armed t.persisted m)

Step-Phase : {t u : TaskEntry} → Step t u → Phase t → Phase u
Step-Phase (turn t c rest a p r) ph = turn-Phase t c rest a p r ph
Step-Phase (replaced t) ph = hand_over-Phase t ph
Step-Phase (shut_down t) ph = shut_down-Phase t ph
Step-Phase (aborted t) ph = abort_owner-Phase t ph
Step-Phase (stopped t) ph = stop-Phase t ph
Step-Phase (displaced t) ph = displaced-Phase t ph

pub Reach-Phase : {t : TaskEntry} → Reach t → Phase t
unfolding start restore entry
Reach-Phase (started true persists owner_aborted) =
    wait-held persisting (entry true persists owner_aborted) (refl, refl, refl) refl
Reach-Phase (started false persists owner_aborted) =
    follow-Calm (entry false persists owner_aborted) ((refl, refl, refl), refl, refl)
Reach-Phase (restored stopping persists owner_aborted a) =
    resume_on-Calm (entry stopping persists owner_aborted) false a ((refl, refl, refl), refl, refl)
      refl (λ e. refl)
Reach-Phase (step r s) = Step-Phase s (Reach-Phase r)
