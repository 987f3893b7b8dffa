-- ===== src/Connection/Recovery/Counts.antt =====
-- How often a call is made and a session is renewed.
use mcp_adapter.Prelude.{
  ℕ, ◌+◌, ◌-◌, ◌≤◌, Bool, true, false, ◌&&◌, Option, none, some, ◌≡◌, refl, arith, inl, inr,
  if◌then◌else◌, Bool-cases, Option-cases,
}
use mcp_adapter.Connection.Failure.{Failure}
use mcp_adapter.Connection.Recovery.{
  RecoveryDefinition, Awaited, resolved, rejected, Recovered, SessionRecoveryDeps, is_disabled,
  is_unauthorized, as_outcome, retry, settle_fresh, after_sign_in, after_reconnect, renew,
  invalidated, recover, after_first, with_session_recovery,
}

-- `calls` and `reconnects` count what their names say: a call of `fn` and a reconnect add one, and
-- nothing else changes them.
pub record Counts {ℓ κ} {W : Type ℓ} {A : Type κ} (deps : SessionRecoveryDeps W A)
    (calls reconnects : W → ℕ) : Type ℓ where
  pub called : (c : ℕ) (w : W) → calls (deps.fn c w).1 ≡ calls w + 1
  pub called_only : (c : ℕ) (w : W) → reconnects (deps.fn c w).1 ≡ reconnects w
  pub reconnected : (c : ℕ) (w : W) → reconnects (deps.reconnect c w).1 ≡ reconnects w + 1
  pub reconnected_only : (c : ℕ) (w : W) → calls (deps.reconnect c w).1 ≡ calls w
  pub invalidating :
      (w : W)
      → (calls (deps.invalidate_auth_entry_cache w) ≡ calls w)
        × (reconnects (deps.invalidate_auth_entry_cache w) ≡ reconnects w)
  pub signing_in :
      (w : W)
      → (calls (deps.on_needs_auth w).1 ≡ calls w)
        × (reconnects (deps.on_needs_auth w).1 ≡ reconnects w)
  pub publishing :
      (c : ℕ) (w : W)
      → (calls (deps.publish_metadata_changed c w) ≡ calls w)
        × (reconnects (deps.publish_metadata_changed c w) ≡ reconnects w)

module _ {ℓ κ} {W : Type ℓ} {A : Type κ} (deps : SessionRecoveryDeps W A) (calls reconnects : W → ℕ)
    (counts : Counts deps calls reconnects) where
  -- From `w` to `v`, at most so many calls and exactly so many reconnects.
  abbrev Adds : ℕ → ℕ → W → W → Type 0
  Adds n m w v = (calls v ≤ calls w + n) × (reconnects v ≡ reconnects w + m)

  as_outcome-state : (r : Awaited A × W) → (as_outcome deps r).1 ≡ r.1
  unfolding as_outcome
  as_outcome-state (resolved a, w) = refl
  as_outcome-state (rejected e, w) = refl

  Adds-if :
      (n m : ℕ) (w : W) (b : Bool) (x y : Recovered A × W)
      → Adds n m w x.1
      → Adds n m w y.1
      → Adds n m w (if b then x else y).1
  Adds-if n m w true x y h k = h
  Adds-if n m w false x y h k = k

  Adds-one : (w : W) → Adds 1 0 w w
  Adds-one w = (omega arith, omega arith)

  Adds-retry : (c : ℕ) (w : W) → Adds 1 0 w (retry deps c w).1
  unfolding retry
  Adds-retry c w =
      let w' = deps.publish_metadata_changed c w in
      let p = counts.publishing c w in
      Adds-if 1 0 w (deps.aborted w') _ _ (omega (arith, p.0), omega (arith, p.1))
        (rw (as_outcome-state (deps.fn c w'))
          (omega (arith, p.0, counts.called c w'), omega (arith, p.1, counts.called_only c w')))

  Adds-settle : (e : Failure) (c : ℕ) (w : W) → Adds 1 0 w (settle_fresh deps e c w).1
  unfolding settle_fresh
  Adds-settle e c w = ground (arith, Adds-retry c w)

  Adds-sign_in :
      (e : Failure) (c : ℕ) (w : W) (r : Awaited (Option ℕ) × W)
      → (calls r.1 ≡ calls w) × (reconnects r.1 ≡ reconnects w)
      → Adds 1 0 w (after_sign_in deps e c r).1
  unfolding after_sign_in
  Adds-sign_in e c w (rejected f, v) h = (omega (arith, h.0), omega (arith, h.1))
  Adds-sign_in e c w (resolved none, v) h = ground (arith, h.0, h.1, Adds-settle e c v)
  Adds-sign_in e c w (resolved (some signed_in), v) h =
      ground (arith, h.0, h.1, Adds-settle e signed_in v)

  Adds-reconnect :
      (e : Failure) (r : Awaited ℕ × W) (w : W)
      → (calls r.1 ≡ calls w) × (reconnects r.1 ≡ reconnects w + 1)
      → Adds 1 1 w (after_reconnect deps e r).1
  unfolding after_reconnect
  Adds-reconnect e (rejected f, v) w h = (omega (arith, h.0), omega (arith, h.1))
  Adds-reconnect e (resolved c, v) w h = ground (
    arith,
    h.0,
    h.1,
    Adds-settle e c v,
    Adds-sign_in e c v (deps.on_needs_auth v) (counts.signing_in v),
  )

  -- At most so many calls and reconnects, and no second call without a reconnect.
  abbrev Within : ℕ → W → W → Type 0
  Within n w v =
      (calls v ≤ calls w + n + (reconnects v - reconnects w))
      × (reconnects w ≤ reconnects v)
      × (reconnects v ≤ reconnects w + 1)

  invalidated-same :
      (b : Bool) (w : W)
      → (calls (invalidated deps b w) ≡ calls w)
        × (reconnects (invalidated deps b w) ≡ reconnects w)
  unfolding invalidated
  invalidated-same true w = counts.invalidating w
  invalidated-same false w = (refl, refl)

  Within-renew :
      (c : ℕ) (had : Bool) (e : Failure) (d : RecoveryDefinition) (w : W)
      → Within 0 w (renew deps c had e d w).1
  unfolding renew
  Within-renew c had e d w =
      let renewed =
        Adds-reconnect e (deps.reconnect c w) w
          (counts.reconnected_only c w, counts.reconnected c w) in
      ground (arith, renewed)

  Within-recover :
      (c : ℕ) (had : Bool) (e : Failure) (o : Option RecoveryDefinition) (w : W)
      → Within 0 w (recover deps c had e o w).1
  unfolding recover
  Within-recover c had e none w = (omega arith, omega arith, omega arith)
  Within-recover c had e (some d) w =
      let b = d.supports_oauth && is_unauthorized e in
      let same = invalidated-same b w in
      let rest = Within-renew c had e d (invalidated deps b w) in
      (
        omega (arith, same.0, same.1, rest.0),
        omega (arith, same.1, rest.1),
        omega (arith, same.1, rest.2),
      )

  Within-first :
      (c : ℕ) (had : Bool) (r : Awaited A × W) (w : W)
      → (calls r.1 ≡ calls w + 1) × (reconnects r.1 ≡ reconnects w)
      → Within 1 w (after_first deps c had r).1
  unfolding after_first
  Within-first c had (resolved a, v) w h =
      (omega (arith, h.0), omega (arith, h.1), omega (arith, h.1))
  Within-first c had (rejected e, v) w h =
      let rest = Within-recover c had e (deps.definition v) v in
      (omega (arith, h.0, h.1, rest.0), omega (arith, h.1, rest.1), omega (arith, h.1, rest.2))

  -- The call is made at most once, and once more only after a reconnect, of which there is at most
  -- one, whatever the server, the manager and the signal do.
  pub with_session_recovery-once :
      (w : W)
      → let after = (with_session_recovery deps w).1 in
        (calls after ≤ calls w + 1 + (reconnects after - reconnects w))
        × (reconnects w ≤ reconnects after)
        × (reconnects after ≤ reconnects w + 1)
  unfolding with_session_recovery
  with_session_recovery-once w = elim (Bool-cases (is_disabled (deps.definition w))) [
    | inl off ↦ rw off (omega arith, omega arith, omega arith)
    | inr on ↦ elim (Option-cases (deps.get_connection w)) [
      | inl none_left ↦ rw on rw none_left (omega arith, omega arith, omega arith)
      | inr (c, e) ↦ rw on rw e (
          Within-first c (deps.has_session_id c w) (deps.fn c w) w
            (counts.called c w, counts.called_only c w))
    ]
  ]
