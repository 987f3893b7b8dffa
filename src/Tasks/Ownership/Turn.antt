-- ===== src/Tasks/Ownership/Turn.antt =====
-- A continuation goes on, the owner or a stale one.
use mcp_adapter.Prelude.{
  suc, ℕ, Bool, true, false, not, Option, none, some, List, ◌≡◌, refl, sym, subst, inl, inr, arith,
  nat_beq, ltb, and→both, Bool-cases,
}
use mcp_adapter.Tasks.{
  Await, following, rendering, handing_over, handing_over_restore, resuming_task, failing,
  persisting, settling, Continuation, TaskEntry, Answer, relinquish, follow, resume_failed,
  forget_resuming, after_resume_task, after_settle, after_hand_over, advance,
}
use mcp_adapter.Tasks.Pick.{Pick, Pick-two, all-Pick}
use mcp_adapter.Tasks.Steps.{is_ready}
use mcp_adapter.Tasks.Ownership.{is_finishing, is_stale, may_wait, Phase, held, over, dropped}
use mcp_adapter.Tasks.Ownership.Owner.{owner-advance}

-- What a stale continuation may do: nothing, fail, or take its own restore out of `resuming`.
data Idle (g : ℕ) (t : TaskEntry) : TaskEntry → Type 0 where
  unchanged : Idle g t t
  failed : Idle g t (record t { rejections = suc t.rejections })
  forgot : t.resuming ≡ some g → Idle g t (record t { resuming = none })

module _ (g : ℕ) (t : TaskEntry) (other : nat_beq t.generation g ≡ false) where
  relinquish-stale : relinquish t g ≡ t
  unfolding relinquish
  relinquish-stale = rw other refl

  follow-stale : follow t g ≡ t
  unfolding follow
  follow-stale = rw other refl

  resume_failed-stale : (has_old : Bool) (a : Answer) → resume_failed t g has_old a ≡ t
  unfolding resume_failed
  resume_failed-stale has_old a = rw other refl

  after_resume_task-stale : (has_old : Bool) (a : Answer) → after_resume_task t g has_old a ≡ t
  unfolding after_resume_task
  after_resume_task-stale has_old a =
      ground (arith, resume_failed-stale has_old a, relinquish-stale, follow-stale)

  after_settle-stale : (a : Answer) → after_settle t g a ≡ t
  unfolding after_settle
  after_settle-stale a = ground (arith, other)

  after_hand_over-Idle : (has_old : Bool) (a : Answer) → Idle g t (after_hand_over t g has_old a)
  unfolding after_hand_over
  after_hand_over-Idle has_old a = elim (Bool-cases a.succeeds) [
    | inl ok ↦ rw ok (rw other unchanged)
    | inr lost ↦ rw lost failed
  ]

-- A continuation of another generation does nothing more after its own restore was forgotten.
resuming-Idle :
    (o : Option ℕ) (g : ℕ) (t : TaskEntry) (a : Answer)
    → nat_beq t.generation g ≡ false
    → t.resuming ≡ o
    → Idle g t (after_resume_task (forget_resuming o g t) g false a)
resuming-Idle none g t a other e =
    subst (Idle g t) (sym (after_resume_task-stale g t other false a)) unchanged
resuming-Idle (some h) g t a other e = elim (Bool-cases (nat_beq h g)) [
  | inl mine ↦ rw mine (
      subst (Idle g t)
        (sym (after_resume_task-stale g (record t { resuming = none }) other false a))
        (forgot (ground (arith, e, mine))))
  | inr theirs ↦
      rw theirs (subst (Idle g t) (sym (after_resume_task-stale g t other false a)) unchanged)
]

stale-advance :
    (awaits : Await) (g : ℕ) (t : TaskEntry) (a : Answer)
    → ltb g t.generation ≡ true
    → is_finishing awaits ≡ false
    → Idle g t (advance awaits g a t)
unfolding advance
stale-advance following g t a l n =
    subst (Idle g t) (sym (after_settle-stale g t (ground (arith, l)) a)) unchanged
stale-advance rendering g t a l n = cc
stale-advance handing_over g t a l n = after_hand_over-Idle g t (ground (arith, l)) true a
stale-advance (handing_over_restore h) g t a l n =
    after_hand_over-Idle g t (ground (arith, l)) false a
stale-advance (resuming_task true) g t a l n =
    subst (Idle g t) (sym (after_resume_task-stale g t (ground (arith, l)) true a)) unchanged
stale-advance (resuming_task false) g t a l n =
    resuming-Idle t.resuming g t a (ground (arith, l)) refl
stale-advance failing g t a l n = cc
stale-advance persisting g t a l n = cc
stale-advance settling g t a l n = cc

may-forgot :
    (awaits : Await) (n g : ℕ) (running armed : Bool) (p : ℕ)
    → ltb g n ≡ true
    → may_wait awaits n running (some g) armed p ≡ true
    → may_wait awaits n running none armed p ≡ true
may-forgot (handing_over_restore h) n g running armed p l m = ground (arith, m)
may-forgot (resuming_task false) n g running armed p l m = ground (arith, l, m)
may-forgot awaits n g running armed p l m = ground (arith, m)

Idle-Phase : {t u : TaskEntry} (g : ℕ) → ltb g t.generation ≡ true → Idle g t u → Phase t → Phase u
Idle-Phase g l unchanged ph = ph
Idle-Phase g l failed (held c rest p f e m) = held c rest p f e m
Idle-Phase g l failed (over s r n d x y) = over s r n d x y
Idle-Phase g l failed (dropped f n d x y) = dropped f n d x (omega arith)
Idle-Phase {t} g l (forgot o) (held c rest p f e m) = held c rest p f e (
    may-forgot c.awaits t.generation g t.running t.is_armed t.persisted l
      (subst (λ r. may_wait c.awaits t.generation t.running r t.is_armed t.persisted ≡ true) o m))
Idle-Phase g l (forgot o) (over s r n d x y) = over s r refl d x y
Idle-Phase g l (forgot o) (dropped f n d x y) = dropped f refl d x y

abbrev left : List Continuation → TaskEntry → TaskEntry
left rest t = record t { continuations = rest }

-- A continuation that goes on leaves one owner or a task that was released once.
pub turn-Phase :
    (t : TaskEntry) (c : Continuation) (rest : List Continuation) (a : Answer)
    → Pick c rest t.continuations
    → is_ready c.awaits t.resuming ≡ true
    → Phase t
    → Phase (advance c.awaits c.generation a (left rest t))
turn-Phase t c rest a p r (held o others q f e m) = elim (Pick-two p q) [
  | inl (same, equal) ↦
      subst (λ x. Phase (advance x.awaits x.generation a (left rest t))) (sym same)
        (subst (λ y. Phase (advance o.awaits o.generation a (left y t))) (sym equal)
          (subst (λ n. Phase (advance o.awaits n a (left others t))) (sym e)
            (owner-advance o.awaits (left others t) a f m
              (subst (λ x. is_ready x.awaits t.resuming ≡ true) same r))))
  | inr (both, q', p') ↦
      let s = all-Pick (is_stale t.generation) p' f.0 in
      let b = and→both (ltb c.generation t.generation) (not (is_finishing c.awaits)) s.0 in
      Idle-Phase c.generation b.0
        (stale-advance c.awaits c.generation (left rest t) a b.0 (ground (arith, b.1)))
        (held o both q' (s.1, f.1, f.2) e m)
]
turn-Phase t c rest a p r (over all_stale n d x y z) =
    let s = all-Pick (is_stale t.generation) p all_stale in
    let b = and→both (ltb c.generation t.generation) (not (is_finishing c.awaits)) s.0 in
    Idle-Phase c.generation b.0
      (stale-advance c.awaits c.generation (left rest t) a b.0 (ground (arith, b.1)))
      (over s.1 n d x y z)
turn-Phase t c rest a p r (dropped f n d x y) =
    let s = all-Pick (is_stale t.generation) p f.0 in
    let b = and→both (ltb c.generation t.generation) (not (is_finishing c.awaits)) s.0 in
    Idle-Phase c.generation b.0
      (stale-advance c.awaits c.generation (left rest t) a b.0 (ground (arith, b.1)))
      (dropped (s.1, f.1, f.2) n d x y)
