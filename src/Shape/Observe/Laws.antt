-- ===== src/Shape/Observe/Laws.antt =====
-- What is recorded of the results of a tool.
use mcp_adapter.Prelude.{
  ℕ, String, Bool, true, false, ◌&&◌, ◌||◌, Option, some, ◌≡◌, refl, sym, subst, ◌∙◌, arith, Map,
  get, is_some, get-put, eq_iff, eq_refl,
}
use mcp_adapter.Json.{Value, Members}
use mcp_adapter.Shape.{OutputShape}
use mcp_adapter.Shape.Infer.{infer_shape}
use mcp_adapter.Shape.Merge.Sound.{merge_shapes-IsUpper}
use mcp_adapter.Shape.Prune.Sound.{fit_shape-bounds}
use mcp_adapter.Shape.Describes.{describes}
use mcp_adapter.Shape.Observe.{
  Source, ObservedOutput, source_beq, value_of, ObservedTool, Recorded, read_result_value,
  is_mergeable, next_shape, next_private, next_output, to_save, record_value,
  record_observed_output,
}

source_beq_self : (s : Source) → source_beq s s ≡ true
source_beq_self Source.structured_content = refl
source_beq_self Source.json_text = refl

module _ (rendered_length : OutputShape → ℕ) (parse : String → Option Value)
    (stringify : ObservedOutput → String) where
  next_output-keeps :
      (p : ObservedOutput) (observed_privately : Bool) (v w : Value) (key : String)
      → p.tool_key ≡ key
      → describes p.shape w ≡ true
      → describes (next_output rendered_length (some p) observed_privately p.source v key).shape w
        ≡ true
  unfolding next_output next_shape is_mergeable
  next_output-keeps p observed_privately v w key k h =
      (fit_shape-bounds rendered_length
        (next_shape rendered_length (some p) (infer_shape v) p.source key) w
        (rw (source_beq_self p.source) (
          rw ((eq_iff p.tool_key key).1 k)
            (merge_shapes-IsUpper.left p.shape (infer_shape v) w h)))).0

  next_output-private :
      (p : ObservedOutput) (observed_privately : Bool) (v : Value) (key : String)
      → p.tool_key ≡ key
      → (next_output rendered_length (some p) observed_privately p.source v key).private
        ≡ (observed_privately || p.private)
  unfolding next_output next_private is_mergeable
  next_output-private p observed_privately v key k =
      ground (arith, source_beq_self p.source, (eq_iff p.tool_key key).1 k)

  to_save-private :
      (tool : ObservedTool) (next : ObservedOutput) (previous : Option ObservedOutput)
      → (is_some (to_save rendered_length parse stringify tool next previous) && next.private)
        ≡ false
  unfolding to_save
  to_save-private tool next previous = ground arith

  records :
      (tool : ObservedTool) (observed_privately : Bool) (result : Members)
      (by_tool : Map ObservedOutput) (source : Source) (v : Value)
      → tool.has_output_schema ≡ false
      → read_result_value parse result ≡ value_of source v
      → record_observed_output rendered_length parse stringify
          (some tool)
          true
          observed_privately
          result
          by_tool
        ≡ some
            (record_value rendered_length parse stringify tool observed_privately source v by_tool)
  unfolding record_observed_output
  records tool observed_privately result by_tool source v n r = rw n rw r refl

  -- A shape of the same source and tool definition is only widened by a later call: what it describes
  -- is described by the shape after the call. It stays
  -- private when it is, and a private one is not saved.
  pub record_observed_output-keeps :
      (tool : ObservedTool) (observed_privately : Bool) (result : Members)
      (by_tool : Map ObservedOutput) (p : ObservedOutput) (v w : Value)
      → tool.has_output_schema ≡ false
      → read_result_value parse result ≡ value_of p.source v
      → get tool.original_name by_tool ≡ some p
      → p.tool_key ≡ tool.key
      → describes p.shape w ≡ true
      → (r : Recorded) × (record_observed_output rendered_length parse stringify
            (some tool)
            true
            observed_privately
            result
            by_tool
          ≡ some r)
        × (o : ObservedOutput) × (get tool.original_name r.by_tool ≡ some o)
        × (o.private ≡ (observed_privately || p.private))
        × ((is_some r.saved && o.private) ≡ false)
        × (describes o.shape w ≡ true)
  unfolding record_value
  record_observed_output-keeps tool observed_privately result by_tool p v w n r g k h =
      let now : Option ObservedOutput → ObservedOutput =
        λ previous. next_output rendered_length previous observed_privately p.source v tool.key in
      let previous = get tool.original_name by_tool in
      (
        record_value rendered_length parse stringify tool observed_privately p.source v by_tool,
        records tool observed_privately result by_tool p.source v n r,
        now previous,
        get-put tool.original_name tool.original_name (now previous) by_tool
            ∙ rw (eq_refl tool.original_name) refl,
        subst (λ o. (now o).private ≡ (observed_privately || p.private)) (sym g)
            (next_output-private p observed_privately v tool.key k),
        to_save-private tool (now previous) previous,
        subst (λ o. describes (now o).shape w ≡ true) (sym g)
            (next_output-keeps p observed_privately v w tool.key k h),
      )
