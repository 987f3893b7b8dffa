-- ===== src/Connection/Arbitration.antt =====
-- server-manager.ts: `arbitrateConnectionAttempt`, which lets callers share one attempt to connect
-- to a server. Promises, authorities and controllers are named by numbers, their identities.
mod Tests
use mcp_adapter.Prelude.{
  ℕ, String, Bool, true, false, not, Option, none, some, List, [], ◌∷◌, ◌==◌, ◌≡◌, ◌≢◌, ◌⊎◌, inl,
  inr, refl, sym, ◌∙◌, arith, if◌then◌else◌, nat_beq, Map, get, delete, get-delete, eq_refl, eq_iff,
  ap, Bool-cases, Option-cases,
}

pub record Attempts : Type 0 where
  pub promises : Map ℕ
  pub authorities : Map ℕ
  pub attempts : Map ℕ

-- `map.get(name) === value`, for a value that is present.
abbrev is_value : Option ℕ → ℕ → Bool
is_value none v = false
is_value (some w) v = nat_beq w v

-- `if (map.get(name) === value) map.delete(name)`; a missing value deletes nothing.
unfoldable pub delete_if : String → Option ℕ → Map ℕ → Map ℕ
unfolding get delete
delete_if name none m = m
delete_if name (some v) m = if is_value (get name m) v then delete name m else m

-- Whether a caller with an authority, or without one, shares an attempt; `alive` tells that an
-- authority does not throw.
abbrev pub reusable : (ℕ → Bool) → Option ℕ → Option ℕ → Bool
reusable alive none none = true
reusable alive (some mine) (some existing) = alive existing
reusable alive none (some existing) = false
reusable alive (some mine) none = false

-- `abort` is what the listeners of a controller do to the maps when it is aborted.
module _ (alive : ℕ → Bool) (abort : ℕ → Attempts → Attempts) where
  abort_attempt : Option ℕ → Attempts → Attempts
  abort_attempt none s = s
  abort_attempt (some controller) s = abort controller s

  drop_attempt : String → ℕ → Option ℕ → Option ℕ → Attempts → Attempts
  unfolding delete_if
  drop_attempt name promise authority controller s = record {
    promises = delete_if name (some promise) s.promises;
    authorities = delete_if name authority s.authorities;
    attempts = delete_if name controller s.attempts;
  }

  arbitrate : String → Option ℕ → Option ℕ → Attempts → Option ℕ × Attempts
  unfolding abort_attempt drop_attempt get
  arbitrate name mine none s = (none, s)
  arbitrate name mine (some promise) s =
      let authority = get name s.authorities in
      let controller = get name s.attempts in
      if reusable alive mine authority
      then (some promise, s)
      else (none, drop_attempt name promise authority controller (abort_attempt controller s))

  unfoldable pub arbitrate_connection_attempt : String → Option ℕ → Attempts → Option ℕ × Attempts
  unfolding arbitrate get
  arbitrate_connection_attempt name mine s = arbitrate name mine (get name s.promises) s

-- The two kinds of caller that may share an attempt: neither it nor the attempt has an authority, or
-- both have one and the attempt's does not throw.
pub data MayShare (alive : ℕ → Bool) : Option ℕ → Option ℕ → Type 0 where
  anonymous : MayShare alive none none
  authorised :
      (mine existing : ℕ) → alive existing ≡ true → MayShare alive (some mine) (some existing)

MayShare-reusable :
    (alive : ℕ → Bool) (mine existing : Option ℕ)
    → reusable alive mine existing ≡ false
    → ¬ MayShare alive mine existing
MayShare-reusable alive _ _ e anonymous = ground (arith, e)
MayShare-reusable alive _ _ e (authorised mine existing h) = ground (arith, e, h)

reusable-MayShare :
    (alive : ℕ → Bool) (mine existing : Option ℕ)
    → reusable alive mine existing ≡ true
    → MayShare alive mine existing
reusable-MayShare alive none none e = anonymous
reusable-MayShare alive (some mine) (some existing) e = authorised mine existing e
reusable-MayShare alive none (some existing) e = absurd (ground (arith, e))
reusable-MayShare alive (some mine) none e = absurd (ground (arith, e))

-- `after` is `before` without the entry of a name, if that entry is still the old one.
abbrev pub IsWithout : String → Option ℕ → Map ℕ → Map ℕ → Type 0
IsWithout name old before after =
    (((get name before ≡ old) × (get name after ≡ none))
      ⊎ ((get name before ≢ old) × (get name after ≡ get name before)))
    × ((k : String) → (k == name) ≡ false → get k after ≡ get k before)

is_value-same : (o : Option ℕ) (v : ℕ) → is_value o v ≡ true → o ≡ some v
is_value-same none v e = absurd (ground (arith, e))
is_value-same (some w) v e = ap some (ground (arith, e))

is_value-other : (o : Option ℕ) (v : ℕ) → is_value o v ≡ false → o ≢ some v
is_value-other none v e there = ground (arith, there)
is_value-other (some w) v e there = ground (arith, e, there)

delete_if-IsWithout :
    (name : String) (old : Option ℕ) (m : Map ℕ) → IsWithout name old m (delete_if name old m)
unfolding delete_if
delete_if-IsWithout name none m = (
  elim (Option-cases (get name m)) [
    | inl e ↦ inl (e, e)
    | inr (v, e) ↦ inr (λ h. ground (arith, e, h), refl)
  ],
  λ k other. refl,
)
delete_if-IsWithout name (some v) m = elim (Bool-cases (is_value (get name m) v)) [
  | inl same ↦ rw same (
    inl (is_value-same (get name m) v same, rw (get-delete name name m) rw (eq_refl name) refl),
    λ k other. rw (get-delete k name m) ground (arith, other, eq_iff k name, eq_iff name k),
  )
  | inr gone ↦ rw gone (inr (is_value-other (get name m) v gone, refl), λ k other. refl)
]

module _ (alive : ℕ → Bool) (abort : ℕ → Attempts → Attempts) (name : String) (mine : Option ℕ)
    (s : Attempts) where
  -- The state after the name's controller, if it has one, was aborted.
  pub data AfterAbort : Attempts → Type 0 where
    uncontrolled : get name s.attempts ≡ none → AfterAbort s
    controlled : (c : ℕ) → get name s.attempts ≡ some c → AfterAbort (abort c s)

  -- The three ways of a caller: there is no attempt; it shares the one that there is; or it may not
  -- share it, and what the listeners of the abort leave loses the attempt's own entries.
  pub data Arbitrated : Option ℕ × Attempts → Type 0 where
    nothing_pending : get name s.promises ≡ none → Arbitrated (none, s)
    shares :
        (p : ℕ)
        → get name s.promises ≡ some p
        → MayShare alive mine (get name s.authorities)
        → Arbitrated (some p, s)
    replaces :
        (p : ℕ) (aborted t : Attempts)
        → get name s.promises ≡ some p
        → ¬ MayShare alive mine (get name s.authorities)
        → AfterAbort aborted
        → IsWithout name (some p) aborted.promises t.promises
        → IsWithout name (get name s.authorities) aborted.authorities t.authorities
        → IsWithout name (get name s.attempts) aborted.attempts t.attempts
        → Arbitrated (none, t)

  abort_attempt-AfterAbort :
      (o : Option ℕ) → get name s.attempts ≡ o → AfterAbort (abort_attempt alive abort o s)
  unfolding abort_attempt
  abort_attempt-AfterAbort none e = uncontrolled e
  abort_attempt-AfterAbort (some c) e = controlled c e

  arbitrate-Arbitrated :
      (o : Option ℕ) → get name s.promises ≡ o → Arbitrated (arbitrate alive abort name mine o s)
  unfolding arbitrate drop_attempt
  arbitrate-Arbitrated none e = nothing_pending e
  arbitrate-Arbitrated (some p) e =
      let aborted = abort_attempt alive abort (get name s.attempts) s in
      let authority = get name s.authorities in
      elim (Bool-cases (reusable alive mine authority)) [
        | inl free ↦ rw free (shares p e (reusable-MayShare alive mine authority free))
        | inr bound ↦ rw bound (
            replaces p aborted _ e (MayShare-reusable alive mine authority bound)
              (abort_attempt-AfterAbort (get name s.attempts) refl)
              (delete_if-IsWithout name (some p) aborted.promises)
              (delete_if-IsWithout name authority aborted.authorities)
              (delete_if-IsWithout name (get name s.attempts) aborted.attempts))
      ]

  -- A caller is given the pending attempt of the name, with no change of the maps, exactly when
  -- there is one and neither has an authority or both have one and the attempt's is alive. It is
  -- given none where there is none, with no change either. Otherwise it is given none, the
  -- controller of the attempt is aborted first, and of what the listeners leave, each map loses
  -- the name's entry if that is still the attempt's own, and nothing else.
  pub arbitrate_connection_attempt-Arbitrated :
      Arbitrated (arbitrate_connection_attempt alive abort name mine s)
  unfolding arbitrate_connection_attempt
  arbitrate_connection_attempt-Arbitrated = arbitrate-Arbitrated (get name s.promises) refl
