-- ===== src/Connection/Lifecycle/Check/Keeps.antt =====
-- What a pass over a server keeps: each predicate that its own writes and the waits keep.
use mcp_adapter.Prelude.{
  ℕ, String, Bool, true, false, not, ◌&&◌, ◌||◌, Option, none, some, ◌≡◌, inl, inr, if◌then◌else◌,
  get, is_some, Bool-cases, Option-cases, refl, arith, subst, sym,
}
use mcp_adapter.Connection.Failure.{Failure}
use mcp_adapter.Connection.Lifecycle.{
  McpLifecycleManager, ServerDefinition, connected, status_beq, same_connection, is_current,
  should_attempt_connection, record_retry, warn_once, report_connection_failure,
  defer_refresh_timeout, forget_retry, forget_publication, expect_publication,
}
use mcp_adapter.Connection.Lifecycle.Check.{
  Waits, Attempt, obtained, failed, Refresh, refreshed, superseded, refresh_timeout, refresh_failed,
  report, close_own, after_publication, publish_connected_metadata, notify_auth_required,
  no_session, settle, restore_health, run_again, handle_superseded_connection, recover_refresh,
  after_refresh, check_connected, check_missing, attempt, pass, check_keep_alive_connection,
}

pub if_keeps {ℓ κ} :
    {A : Type ℓ} (P : A → Type κ) (b : Bool) {x y : A}
    → (b ≡ true → P x)
    → (b ≡ false → P y)
    → P (if b then x else y)
if_keeps P true f g = f refl
if_keeps P false f g = g refl

record_retry-stale :
    (name : String) (d : ServerDefinition) (c : Option ℕ) (s : McpLifecycleManager)
    → is_current name d s ≡ false
    → (record_retry name d c s).1 ≡ s
unfolding record_retry
record_retry-stale name d c s stale = rw stale refl

-- Whatever the waits do, they keep the predicate.
pub record WaitsKeep {κ} (P : McpLifecycleManager → Type κ) (waits : Waits) : Type κ where
  pub connecting : (s : McpLifecycleManager) → P s → P (waits.connect s).1
  pub reconnecting : (c : ℕ) (s : McpLifecycleManager) → P s → P (waits.reconnect c s).1
  pub refreshing : (c : ℕ) (s : McpLifecycleManager) → P s → P (waits.refresh_tools c s).1
  pub publishing : (s : McpLifecycleManager) → P s → P (waits.on_reconnect s).1
  pub failing : (e : Failure) (s : McpLifecycleManager) → P s → P (waits.on_reconnect_failure e s)
  pub healing : (s : McpLifecycleManager) → P s → P (waits.on_health_restored s)
  pub asking : (s : McpLifecycleManager) → P s → P (waits.on_auth_required s)
  pub closing : (s : McpLifecycleManager) → P s → P (waits.close s)

-- The writes that a pass makes itself; two of them only while its definition is registered.
pub record WritesKeep {κ} (P : McpLifecycleManager → Type κ) (name : String) (d : ServerDefinition)
    : Type κ where
  pub forgetting : (s : McpLifecycleManager) → P s → P (forget_retry name s)
  pub unpublishing : (s : McpLifecycleManager) → P s → P (forget_publication name s)
  pub expecting :
      (s : McpLifecycleManager) → is_current name d s ≡ true → P s → P (expect_publication name s)
  pub recording :
      (c : Option ℕ) (s : McpLifecycleManager)
      → is_current name d s ≡ true
      → P s
      → P (record_retry name d c s).1
  pub warning : (e : Failure) (s : McpLifecycleManager) → P s → P (warn_once name e s)

module _ {κ} (P : McpLifecycleManager → Type κ) (waits : Waits) (name : String)
    (d : ServerDefinition) (w : WaitsKeep P waits) (own : WritesKeep P name d) where
  record-keeps : (c : Option ℕ) (s : McpLifecycleManager) → P s → P (record_retry name d c s).1
  record-keeps c s h = elim (Bool-cases (is_current name d s)) [
    | inl now ↦ own.recording c s now h
    | inr stale ↦ subst P (sym (record_retry-stale name d c s stale)) h
  ]

  report-keeps :
      (e : Failure) (c : Option ℕ) (s : McpLifecycleManager) → P s → P (report waits name d e c s)
  unfolding report_connection_failure
  report-keeps e c s h =
      if_keeps P (record_retry name d c s).0
        (λ _. own.warning e _ (w.failing e _ (record-keeps c s h))) (λ _. h)

  close_own-keeps : (c : ℕ) (s : McpLifecycleManager) → P s → P (close_own waits name d c s)
  unfolding close_own
  close_own-keeps c s h =
      if_keeps P (same_connection (get name s.connections) (some c)) (λ _. w.closing s h) (λ _. h)

  after_publication-keeps :
      (c : ℕ) (r : Option Failure × McpLifecycleManager)
      → P r.1
      → P (after_publication waits name d c r)
  unfolding after_publication
  after_publication-keeps c (none, s) h = own.forgetting _ (own.unpublishing s h)
  after_publication-keeps c (some e, s) h =
      if_keeps P s.stopped (λ _. h) (λ _. report-keeps e (some c) s h)

  publish-keeps :
      (c : ℕ) (s : McpLifecycleManager) → P s → P (publish_connected_metadata waits name d c s)
  unfolding publish_connected_metadata
  publish-keeps c s h =
      if_keeps P (is_current name d s)
        (λ now. after_publication-keeps c _ (w.publishing _ (own.expecting s now h)))
        (λ _. close_own-keeps c s h)

  notify-keeps : (c : ℕ) (s : McpLifecycleManager) → P s → P (notify_auth_required waits name d c s)
  unfolding notify_auth_required
  notify-keeps c s h =
      if_keeps P (is_current name d s) (λ _. w.asking _ (own.forgetting _ (own.unpublishing s h)))
        (λ _. close_own-keeps c s h)

  settle-keeps : (r : Attempt × McpLifecycleManager) → P r.1 → P (settle waits name d r)
  unfolding settle
  settle-keeps (failed e, s) h =
      if_keeps P (s.stopped || s.aborted) (λ _. h)
        (λ _. report-keeps e (get name s.connections) s h)
  settle-keeps (obtained c, s) h = ground (
    arith,
    h,
    publish-keeps c s h,
    notify-keeps c s h,
    report-keeps (no_session waits name d) (some c) s h,
  )

  restore_health-keeps : (s : McpLifecycleManager) → P s → P (restore_health waits name d s)
  unfolding restore_health
  restore_health-keeps s h =
      if_keeps P (is_some (get name s.retry_states)) (λ _. w.healing _ (own.forgetting s h))
        (λ _. h)

  module _ (again : Option (McpLifecycleManager → McpLifecycleManager))
      (again-keeps : (s : McpLifecycleManager) → P s → P (run_again waits name d again s)) where
    superseded-keeps :
        (stale : ℕ) (s : McpLifecycleManager)
        → P s
        → P (handle_superseded_connection waits name d again stale s)
    unfolding handle_superseded_connection
    superseded-keeps stale s h =
        if_keeps P (not (is_current name d s)) (λ _. h)
          (λ _. elim (Option-cases (get name s.connections)) [
            | inl none_left ↦ rw none_left (again-keeps s h)
            | inr (current, e) ↦ rw e (
                if_keeps P
                  (same_connection (some current) (some stale)
                    && status_beq (s.status_of current) connected)
                  (λ _. restore_health-keeps s h)
                  (λ _.
                    ground (
                      arith,
                      publish-keeps current s h,
                      notify-keeps current s h,
                      again-keeps s h,
                    )))
          ])

    recover-keeps :
        (c : ℕ) (had : Bool) (e : Failure) (s : McpLifecycleManager)
        → P s
        → P (recover_refresh waits name d again c had e s)
    unfolding recover_refresh
    recover-keeps c had e s h = ground (
      arith,
      h,
      report-keeps e (some c) s h,
      settle-keeps (waits.reconnect c s) (w.reconnecting c s h),
      superseded-keeps c s h,
    )

    after_refresh-keeps :
        (c : ℕ) (had : Bool) (r : Refresh × McpLifecycleManager)
        → P r.1
        → P (after_refresh waits name d again c had r)
    unfolding after_refresh defer_refresh_timeout
    after_refresh-keeps c had (refresh_failed e, s) h = recover-keeps c had e s h
    after_refresh-keeps c had (superseded, s) h = superseded-keeps c s h
    after_refresh-keeps c had (refresh_timeout, s) h = record-keeps (some c) s h
    after_refresh-keeps c had (refreshed, s) h =
        if_keeps P (is_current name d s) (λ _. restore_health-keeps s h) (λ _. h)

    check_connected-keeps :
        (c : ℕ) (s : McpLifecycleManager) → P s → P (check_connected waits name d again c s)
    unfolding check_connected
    check_connected-keeps c s h = ground (
      arith,
      h,
      publish-keeps c s h,
      after_refresh-keeps c (s.has_session_id c) (waits.refresh_tools c s) (w.refreshing c s h),
    )

    check_missing-keeps : (s : McpLifecycleManager) → P s → P (check_missing waits name d s)
    unfolding check_missing
    check_missing-keeps s h =
        if_keeps P (s.pending_auth name) (λ _. h)
          (λ _. settle-keeps (waits.connect s) (w.connecting s h))

    attempt-keeps :
        (c : Option ℕ) (r : Bool × McpLifecycleManager) → P r.1 → P (attempt waits name d again c r)
    unfolding attempt
    attempt-keeps c (false, s) h = h
    attempt-keeps none (true, s) h = check_missing-keeps s h
    attempt-keeps (some c) (true, s) h =
        if_keeps P (status_beq (s.status_of c) connected) (λ _. check_connected-keeps c s h)
          (λ _. check_missing-keeps s h)

    should_attempt-keeps :
        (c : Option ℕ) (s : McpLifecycleManager) → P s → P (should_attempt_connection name c s).1
    unfolding should_attempt_connection
    should_attempt-keeps c s h = ground (arith, h, own.forgetting s h)

    pass-keeps : (s : McpLifecycleManager) → P s → P (pass waits name d again s)
    unfolding pass
    pass-keeps s h =
        let connection = get name s.connections in
        ground (
          arith,
          h,
          own.unpublishing s h,
          attempt-keeps connection (should_attempt_connection name connection s)
              (should_attempt-keeps connection s h),
        )

  -- One pass over a server, and the one that may follow it, keep what its own writes and all that
  -- happens during its waits keep.
  pub check-keeps : (s : McpLifecycleManager) → P s → P (check_keep_alive_connection waits name d s)
  unfolding check_keep_alive_connection run_again
  check-keeps s h =
      pass-keeps (some (pass waits name d none)) (λ t. pass-keeps none (λ u k. k) t) s h
