-- ===== src/Connection/Lifecycle/Steps/Laws.antt =====
-- What every sequence of life-cycle steps keeps.
use mcp_adapter.Prelude.{
  ℕ, String, Option, none, some, ◌==◌, arith, inl, inr, get, get-put, get-delete, contains-remove,
  Bool-cases,
}
use mcp_adapter.Connection.Lifecycle.{
  McpLifecycleManager, ServerDefinition, mark_keep_alive, register_server, unregister_server,
  set_global_idle_timeout,
}
use mcp_adapter.Connection.Lifecycle.Check.Keeps.{check-keeps}
use mcp_adapter.Connection.Lifecycle.Steps.{
  IsOutside, Step, marks, registers, unregisters, sets_timeout, outside, checks, Steps, done, next,
  IsTrackedAt, IsTracked, IsBounded-later, writes, IsBounded-if,
}

module _ (j : String) where
  mark-tracked :
      (name : String) (d : ServerDefinition) (s : McpLifecycleManager)
      → IsTrackedAt j s
      → IsTrackedAt j (mark_keep_alive name d s)
  unfolding mark_keep_alive
  mark-tracked name d s h = elim (Bool-cases d.disabled) [
    | inl off ↦ rw off h
    | inr on ↦ rw on record {
      unknown = λ k. h.unknown (ground (arith, k, get-put j name d s.keep_alive_servers));
      bounded = h.bounded;
    }
  ]

  register-tracked :
      (name : String) (d : ServerDefinition) (minutes : Option ℕ) (s : McpLifecycleManager)
      → IsTrackedAt j s
      → IsTrackedAt j (register_server name d minutes s)
  unfolding register_server
  register-tracked name d none s h = elim (Bool-cases d.disabled) [
    | inl off ↦ rw off h
    | inr on ↦ rw on record { unknown = h.unknown; bounded = h.bounded }
  ]
  register-tracked name d (some m) s h = elim (Bool-cases d.disabled) [
    | inl off ↦ rw off h
    | inr on ↦ rw on record { unknown = h.unknown; bounded = h.bounded }
  ]

  unregister-tracked :
      (name : String) (s : McpLifecycleManager)
      → IsTrackedAt j s
      → IsTrackedAt j (unregister_server name s)
  unfolding unregister_server
  unregister-tracked name s h = record {
    unknown = λ k. elim (Bool-cases (name == j)) [
      | inl same ↦ (
        ground (arith, same, get-delete j name s.retry_states),
        ground (arith, same, contains-remove j name s.pending_metadata_publications),
      )
      | inr other ↦
          let known =
            h.unknown (ground (arith, k, other, get-delete j name s.keep_alive_servers)) in
          (
            ground (arith, other, known.0, get-delete j name s.retry_states),
            ground (arith, other, known.1, contains-remove j name s.pending_metadata_publications),
          )
    ];
    bounded =
        rw (get-delete j name s.retry_states)
          (IsBounded-if s.now (name == j) none (get j s.retry_states) (λ _. tt) h.bounded);
  }

  timeout-tracked :
      (minutes : ℕ) (s : McpLifecycleManager)
      → IsTrackedAt j s
      → IsTrackedAt j (set_global_idle_timeout minutes s)
  unfolding set_global_idle_timeout
  timeout-tracked minutes s h = record { unknown = h.unknown; bounded = h.bounded }

  outside-tracked : (s t : McpLifecycleManager) → IsOutside s t → IsTrackedAt j s → IsTrackedAt j t
  outside-tracked s t o h = record {
    unknown = rw o.same_servers rw o.same_retries rw o.same_publications h.unknown;
    bounded =
        rw o.same_retries (IsBounded-later s.now t.now o.clock (get j s.retry_states) h.bounded);
  }

  mutual
    IsTrackedAt-Step : {s t : McpLifecycleManager} → Step s t → IsTrackedAt j s → IsTrackedAt j t
    IsTrackedAt-Step (marks name d s) h = mark-tracked name d s h
    IsTrackedAt-Step (registers name d minutes s) h = register-tracked name d minutes s h
    IsTrackedAt-Step (unregisters name s) h = unregister-tracked name s h
    IsTrackedAt-Step (sets_timeout minutes s) h = timeout-tracked minutes s h
    IsTrackedAt-Step (outside s t o) h = outside-tracked s t o h
    IsTrackedAt-Step (checks waits name d s a b c e f g i k) h =
        check-keeps (IsTrackedAt j) waits name d
          record {
            connecting = λ u. IsTrackedAt-Steps (a u);
            reconnecting = λ n u. IsTrackedAt-Steps (b n u);
            refreshing = λ n u. IsTrackedAt-Steps (c n u);
            publishing = λ u. IsTrackedAt-Steps (e u);
            failing = λ x u. IsTrackedAt-Steps (f x u);
            healing = λ u. IsTrackedAt-Steps (g u);
            asking = λ u. IsTrackedAt-Steps (i u);
            closing = λ u. IsTrackedAt-Steps (k u);
          }
          (writes j name d) s h

    IsTrackedAt-Steps : {s t : McpLifecycleManager} → Steps s t → IsTrackedAt j s → IsTrackedAt j t
    IsTrackedAt-Steps (done s) h = h
    IsTrackedAt-Steps (next s t u step steps) h = IsTrackedAt-Steps steps (IsTrackedAt-Step step h)

-- Whatever passes over the servers, registrations, removals and changes elsewhere come after each
-- other, or as whole steps inside each other's waits, with a clock that does not go back, a server
-- that is not kept alive has no retry and no expected publication, and no retry is due later than the
-- longest delay from now.
pub Steps-IsTracked : (s t : McpLifecycleManager) → Steps s t → IsTracked s → IsTracked t
unfolding IsTracked
Steps-IsTracked s t steps h = λ j. IsTrackedAt-Steps j steps (h j)
