-- ===== src/Runtime/Owner.antt =====
-- runtime-owner.ts: `createMcpRuntimeOwner`. A cleanup is started in a microtask of its own, so what is
-- modelled is the order in which cleanups are started, and what `stop` makes of how they end. The
-- listeners that the abort of `stop` runs at once are left out: a cleanup that is added, or a stop that
-- is called, from one of them is not covered.
pub mod Laws
mod Tests
use mcp_adapter.Prelude.{
  String, Bool, true, false, Option, none, some, List, [], ◌∷◌, ◌++◌, if◌then◌else◌,
}

-- How a promise settles, with the reason of a rejection.
pub data Settled : Type 0 where
  fulfilled : Settled
  rejected : String → Settled

-- What `stop` returns: its promise, settled.
pub data Stopped : Type 0 where
  stopped : Stopped
  aggregate_error : List String → Stopped

abbrev pub reversed {ℓ} : {C : Type ℓ} → List C → List C
reversed [] = []
reversed (c ∷ cs) = reversed cs ++ c ∷ []

module _ {ℓ} (C : Type ℓ) where
  -- `reason` is that of the aborted signal, and `stop_promise` the cleanups that `stop` waits for.
  pub record McpRuntimeOwner : Type ℓ where
    pub reason : Option String
    pub cleanups : List C
    pub stop_promise : Option (List C)
    pub started : List C

  pub data Call : Type ℓ where
    add_cleanup : C → Call
    stop : String → Call

module _ {ℓ} {C : Type ℓ} where
  unfoldable pub create_mcp_runtime_owner : McpRuntimeOwner C
  create_mcp_runtime_owner = record {
    reason = none;
    cleanups = [];
    stop_promise = none;
    started = [];
  }

  abbrev pub is_active : McpRuntimeOwner C → Bool
  is_active o = elim o.reason [ none ↦ true | some reason ↦ false ]

  -- `addCleanup`
  unfoldable pub add_to : C → McpRuntimeOwner C → McpRuntimeOwner C
  add_to c o =
      if is_active o
      then record o { cleanups = o.cleanups ++ c ∷ [] }
      else record o { started = o.started ++ c ∷ [] }

  abbrev stop_once : Option (List C) → String → McpRuntimeOwner C → McpRuntimeOwner C
  stop_once (some pending) reason o = o
  stop_once none reason o = record {
    reason = some reason;
    cleanups = [];
    stop_promise = some (reversed o.cleanups);
    started = o.started ++ reversed o.cleanups;
  }

  -- `stop`
  unfoldable pub stop_owner : String → McpRuntimeOwner C → McpRuntimeOwner C
  stop_owner reason o = stop_once o.stop_promise reason o

  unfoldable pub run_call : Call C → McpRuntimeOwner C → McpRuntimeOwner C
  unfolding add_to stop_owner
  run_call (add_cleanup c) o = add_to c o
  run_call (stop reason) o = stop_owner reason o

  unfoldable pub run_calls : List (Call C) → McpRuntimeOwner C → McpRuntimeOwner C
  unfolding run_call
  run_calls [] o = o
  run_calls (c ∷ cs) o = run_calls cs (run_call c o)

-- The reasons of the cleanups that failed, in order.
unfoldable pub failures : List Settled → List String
failures [] = []
failures (fulfilled ∷ results) = failures results
failures (rejected reason ∷ results) = reason ∷ failures results

-- How the promise of `stop` settles when its cleanups have settled.
abbrev result_of : List String → Stopped
result_of [] = stopped
result_of (reason ∷ reasons) = aggregate_error (reason ∷ reasons)

unfoldable pub stop_result : List Settled → Stopped
unfolding failures
stop_result results = result_of (failures results)
