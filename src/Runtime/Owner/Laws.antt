-- ===== src/Runtime/Owner/Laws.antt =====
-- The order of the cleanups of an owner.
use mathlib.Core.List.{append_assoc, append-nil}
use mcp_adapter.Prelude.{String, Option, none, some, List, [], ◌∷◌, ◌++◌, ◌≡◌, refl, sym, ap, ◌∙◌}
use mcp_adapter.Runtime.Owner.{
  Call, add_cleanup, stop, reversed, create_mcp_runtime_owner, run_calls,
}

module _ {ℓ} {C : Type ℓ} where
  -- What is added before the first stop, and what is added after it.
  abbrev pub before_stop : List (Call C) → List C
  before_stop [] = []
  before_stop (add_cleanup c ∷ calls) = c ∷ before_stop calls
  before_stop (stop reason ∷ calls) = []

  abbrev pub added : List (Call C) → List C
  added [] = []
  added (add_cleanup c ∷ calls) = c ∷ added calls
  added (stop reason ∷ calls) = added calls

  abbrev pub after_stop : List (Call C) → List C
  after_stop [] = []
  after_stop (add_cleanup c ∷ calls) = after_stop calls
  after_stop (stop reason ∷ calls) = added calls

  -- The reason of the first stop.
  abbrev pub first_reason : List (Call C) → Option String
  first_reason [] = none
  first_reason (add_cleanup c ∷ calls) = first_reason calls
  first_reason (stop reason ∷ calls) = some reason

  -- What is started, by whether there was a stop.
  abbrev pub starts : Option String → List C → List C → List C
  starts none before after = []
  starts (some reason) before after = reversed before ++ after

  stopped-started :
      (calls : List (Call C)) (reason : String) (pending before : List C)
      → let o = run_calls calls (record {
        reason = some reason;
        cleanups = [];
        stop_promise = some pending;
        started = before;
      }) in
        (o.started ≡ before ++ added calls) × (o.cleanups ≡ []) × (o.reason ≡ some reason)
  unfolding run_calls
  stopped-started [] reason pending before = (sym (append-nil before), refl, refl)
  stopped-started (add_cleanup c ∷ calls) reason pending before =
      let rest = stopped-started calls reason pending (before ++ c ∷ []) in
      (rest.0 ∙ append_assoc before (c ∷ []) (added calls), rest.1, rest.2)
  stopped-started (stop again ∷ calls) reason pending before =
      stopped-started calls reason pending before

  active-started :
      (calls : List (Call C)) (before : List C)
      → let o =
          run_calls calls
            (record { reason = none; cleanups = before; stop_promise = none; started = [] }) in
        (o.started ≡ starts (first_reason calls) (before ++ before_stop calls) (after_stop calls))
        × (o.reason ≡ first_reason calls)
  unfolding run_calls
  active-started [] before = (refl, refl)
  active-started (add_cleanup c ∷ calls) before =
      let rest = active-started calls (before ++ c ∷ []) in
      (
        rest.0
            ∙ ap (λ cs. starts (first_reason calls) cs (after_stop calls))
                (append_assoc before (c ∷ []) (before_stop calls)),
        rest.1,
      )
  active-started (stop reason ∷ calls) before =
      let rest = stopped-started calls reason (reversed before) (reversed before) in
      (rest.0 ∙ ap (λ cs. reversed cs ++ added calls) (sym (append-nil before)), rest.2)

  -- Whatever is called in whatever order, each cleanup is started once when the owner is stopped: those
  -- that were added before the first stop in the reverse of their order, then each later one as it
  -- is added. None is started before, and a further stop starts none.
  pub run_calls-started :
      (calls : List (Call C))
      → ((run_calls calls create_mcp_runtime_owner).started
          ≡ starts (first_reason calls) (before_stop calls) (after_stop calls))
        × ((run_calls calls create_mcp_runtime_owner).reason ≡ first_reason calls)
  unfolding create_mcp_runtime_owner
  run_calls-started calls = active-started calls []
