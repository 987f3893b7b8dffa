-- ===== src/Shape/Observe.antt =====
-- output-shape.ts: `recordObservedOutput`, `readResultValue`, `getObservedOutput`.
pub mod Laws
use Prim.Native.Char.{code}
use text.Mathlib.Text.{starts_with}
use mcp_adapter.Prelude.{
  ℕ, zero, suc, String, Bool, true, false, not, ◌&&◌, ◌||◌, Option, none, some, List, [], ◌∷◌, ◌==◌,
  if◌then◌else◌, ltb, length, Map, get, put,
}
use mcp_adapter.Json.{
  Value, null, undefined, bool, num, str, arr, obj, Elements, no_elements, element, Members, prop,
  is_str,
}
use mcp_adapter.Naming.Glob.{units}
use mcp_adapter.Connection.Failure.{is_space, skip_spaces}
use mcp_adapter.Shape.{OutputShape, unknown, one, any_of}
use mcp_adapter.Shape.Infer.{infer_shape}
use mcp_adapter.Shape.Merge.{merge_shapes}
use mcp_adapter.Shape.Prune.{fit_shape}

pub data Source : Type 0 where
  structured_content json_text : Source

pub record ObservedOutput : Type 0 where
  pub source : Source
  pub shape : OutputShape
  pub tool_key : String
  pub private : Bool

abbrev pub source_beq : Source → Source → Bool
source_beq structured_content structured_content = true
source_beq json_text json_text = true
source_beq _ _ = false

-- `isUnknown`
abbrev pub is_unknown : OutputShape → Bool
is_unknown unknown = true
is_unknown (one v) = false
is_unknown (any_of vs) = false

abbrev pub max_json_text_units : ℕ
max_json_text_units = 262144

-- `trim`, from the end.
drop_spaces_at_end : String → String
drop_spaces_at_end String.[] = String.[]
drop_spaces_at_end (String.◌∷◌ c s) =
    let rest = drop_spaces_at_end s in
    if is_space (code c) && rest == "" then String.[] else String.◌∷◌ c rest

unfoldable pub trim : String → String
unfolding drop_spaces_at_end skip_spaces
trim s = drop_spaces_at_end (skip_spaces s)

-- What `readResultValue` returns. `type_error` is what it throws at a block that is no object.
pub data ResultValue : Type 0 where
  no_value type_error : ResultValue
  value_of : Source → Value → ResultValue

-- What is read of the metadata of a tool: `key` is `outputShapeKey(tool)`.
pub record ObservedTool : Type 0 where
  pub original_name : String
  pub has_output_schema : Bool
  pub has_executor_path : Bool
  pub key : String

-- The shapes of a server's tools, and the shape that is saved in the cache.
pub record Recorded : Type 0 where
  pub by_tool : Map ObservedOutput
  pub saved : Option ObservedOutput

-- `JSON.parse`, with `none` where it throws.
module _ (parse : String → Option Value) where
  read_text : String → ResultValue
  unfolding trim
  read_text text =
      let trimmed = trim text in
      if ltb max_json_text_units (length (units text))
      then no_value
      else if not (starts_with trimmed "{") && not (starts_with trimmed "[")
      then no_value
      else elim (parse trimmed) [ none ↦ no_value | some v ↦ value_of json_text v ]

  read_if_text : Value → ResultValue
  unfolding read_text
  read_if_text (str text) = read_text text
  read_if_text v = no_value

  read_block : Members → ResultValue
  unfolding read_if_text
  read_block block =
      if not (is_str (prop "type" block) "text") then no_value else read_if_text (prop "text" block)

  read_content : Value → ResultValue
  unfolding read_block
  read_content (arr (element (obj block) no_elements)) = read_block block
  read_content (arr (element null no_elements)) = type_error
  read_content (arr (element undefined no_elements)) = type_error
  read_content v = no_value

  -- The structured content where it is an object, and the content otherwise.
  read_either : Value → Value → ResultValue
  unfolding read_content
  read_either (obj ms) content = value_of structured_content (obj ms)
  read_either (arr vs) content = value_of structured_content (arr vs)
  read_either v content = read_content content

  unfoldable pub read_result_value : Members → ResultValue
  unfolding read_either
  read_result_value result = read_either (prop "structuredContent" result) (prop "content" result)

-- What is left of a read result where the server has no definition: the result is read before.
abbrev only_errors : ResultValue → ResultValue
only_errors type_error = type_error
only_errors r = no_value

-- `renderOutputShape(shape).length` is a parameter here too.
module _ (rendered_length : OutputShape → ℕ) where
  unfoldable pub is_mergeable : Option ObservedOutput → Source → String → Bool
  is_mergeable none source key = false
  is_mergeable (some p) source key = source_beq p.source source && p.tool_key == key

  next_shape : Option ObservedOutput → OutputShape → Source → String → OutputShape
  unfolding is_mergeable merge_shapes
  next_shape none shape source key = shape
  next_shape (some p) shape source key =
      if is_mergeable (some p) source key then merge_shapes p.shape shape else shape

  next_private : Option ObservedOutput → Source → String → Bool
  unfolding is_mergeable
  next_private none source key = false
  next_private (some p) source key = is_mergeable (some p) source key && p.private

  unfoldable pub next_output :
      Option ObservedOutput → Bool → Source → Value → String → ObservedOutput
  unfolding next_shape next_private fit_shape infer_shape
  next_output previous observed_privately source v key = record {
    source = source;
    shape = fit_shape rendered_length (next_shape previous (infer_shape v) source key);
    tool_key = key;
    private = observed_privately || next_private previous source key;
  }

  -- `recordObservedOutput` for a server: `configured` says that the server has a definition, and
  -- `stringify` is `JSON.stringify`. The inner `none` is the error that `readResultValue` throws.
  module _ (parse : String → Option Value) (stringify : ObservedOutput → String) where
    is_same : ObservedOutput → Option ObservedOutput → Bool
    is_same next none = false
    is_same next (some p) = stringify next == stringify p

    pub to_save : ObservedTool → ObservedOutput → Option ObservedOutput → Option ObservedOutput
    unfolding is_same
    to_save tool next previous =
        if not next.private && not tool.has_executor_path && not (is_same next previous)
        then some next
        else none

    unfoldable pub record_value :
        ObservedTool → Bool → Source → Value → Map ObservedOutput → Recorded
    unfolding next_output to_save
    record_value tool observed_privately source v by_tool =
        let previous = get tool.original_name by_tool in
        let next = next_output previous observed_privately source v tool.key in
        record { by_tool = put tool.original_name next by_tool; saved = to_save tool next previous }

    record_read : ObservedTool → Bool → ResultValue → Map ObservedOutput → Option Recorded
    unfolding record_value
    record_read tool observed_privately no_value by_tool =
        some (record { by_tool = by_tool; saved = none })
    record_read tool observed_privately type_error by_tool = none
    record_read tool observed_privately (value_of source v) by_tool =
        some (record_value tool observed_privately source v by_tool)

    unfoldable pub record_observed_output :
        Option ObservedTool → Bool → Bool → Members → Map ObservedOutput → Option Recorded
    unfolding record_read read_result_value
    record_observed_output none configured observed_privately result by_tool =
        some (record { by_tool = by_tool; saved = none })
    record_observed_output (some tool) configured observed_privately result by_tool =
        if tool.has_output_schema
        then some (record { by_tool = by_tool; saved = none })
        else if configured
        then record_read tool observed_privately (read_result_value parse result) by_tool
        else record_read tool observed_privately (only_errors (read_result_value parse result))
            by_tool

abbrev if_current : String → Option ObservedOutput → Option ObservedOutput
if_current key none = none
if_current key (some o) = if o.tool_key == key && not (is_unknown o.shape) then some o else none

unfoldable pub get_observed_output : ObservedTool → Map ObservedOutput → Option ObservedOutput
unfolding get
get_observed_output tool by_tool =
    if tool.has_output_schema then none else if_current tool.key (get tool.original_name by_tool)
