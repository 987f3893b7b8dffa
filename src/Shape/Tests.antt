-- ===== src/Shape/Tests.antt =====
-- Output shapes at concrete inputs.
use mcp_adapter.Prelude.{
  ℕ, ◌*◌, ◌≤◌, String, true, false, Option, none, some, [], ◌∷◌, ◌≡◌, ◌⊎◌, refl, ◌&&◌, ◌||◌,
  is_some, Map, get,
}
use mcp_adapter.Json.{Value, num, str, arr, obj, no_elements, element, no_members, member, Members}
use mcp_adapter.Shape.{
  OutputShape, unknown, one, any_of, scalar, number, string, array_of, object, map_of, no_variants,
  variant, no_properties, property, depth, max_depth,
}
use mcp_adapter.Shape.Describes.{describes}
use mcp_adapter.Shape.Infer.{infer_shape, is_field_name, is_data_key}
use mcp_adapter.Shape.Merge.{merge_shapes}
use mcp_adapter.Shape.Merge.Sound.{merge_shapes-describes}
use mcp_adapter.Shape.Prune.{prune, fit_shape, max_shape_chars}
use mcp_adapter.Shape.Prune.Sound.{fit_shape-bounds}
use mcp_adapter.Shape.Seen.{is_seen}
use mcp_adapter.Shape.Observe.{
  structured_content, ObservedOutput, ObservedTool, Recorded, value_of, trim, read_result_value,
  record_observed_output,
}
use mcp_adapter.Shape.Observe.Laws.{record_observed_output-keeps}

abbrev issue : Value
issue = obj (
    member "id" (num 7)
      (member "tags" (arr (element (str "a") (element (num 1) no_elements))) no_members))

abbrev bare_issue : Value
bare_issue = obj (member "id" (str "x") no_members)

abbrev mixed_tags : OutputShape
mixed_tags = any_of (variant (scalar string) (variant (scalar number) no_variants))

abbrev issue_shape : OutputShape
issue_shape = one (
    object
      (property "id" (one (scalar number))
        (property "tags" (one (array_of mixed_tags)) no_properties))
      ("id" ∷ "tags" ∷ []))

abbrev bare_shape : OutputShape
bare_shape = one (object (property "id" (one (scalar string)) no_properties) ("id" ∷ []))

abbrev merged : OutputShape
merged = one (
    object
      (property "id" (any_of (variant (scalar number) (variant (scalar string) no_variants)))
        (property "tags" (one (array_of mixed_tags)) no_properties))
      ("id" ∷ []))

name_tests :
    (is_field_name "due_on" ≡ true)
    × (is_field_name "1st" ≡ false)
    × (is_data_key "due2024" ≡ true)
    × (is_data_key "due_on" ≡ false)
    × (is_data_key "__proto__" ≡ true)
    × (trim " {} " ≡ "{}")
unfolding is_field_name is_data_key trim
name_tests = (refl, refl, refl, refl, refl, refl)

-- Every item of an array is described, and only the first five are looked at.
abbrev long_list : Value
long_list = arr (
    element (num 1) (
      element (num 1)
        (element (num 1) (element (num 1) (element (num 1) (element (str "x") no_elements))))))

sample_tests :
    (describes (infer_shape long_list) long_list ≡ false)
    × (is_seen long_list ≡ false)
    × (is_seen (obj (member "b" (num 2) (member "user@host" (num 1) no_members))) ≡ true)
unfolding describes infer_shape is_seen
sample_tests = (refl, refl, refl)

shape_tests :
    (infer_shape issue ≡ issue_shape)
    × (merge_shapes issue_shape bare_shape ≡ merged)
    × (infer_shape (obj (member "user@host" (num 1) (member "b" (num 2) no_members)))
        ≡ one (map_of (one (scalar number))))
    × (prune 1 issue_shape
        ≡ one (
            object
              (property "id" (one (scalar number)) (property "tags" unknown no_properties))
              ("id" ∷ "tags" ∷ [])))
unfolding infer_shape merge_shapes prune
shape_tests = (refl, refl, refl, refl)

-- A property that only one side has, and that objects inherit, is not known any more.
abbrev constructed : OutputShape
constructed = one (object (property "constructor" (one (scalar string)) no_properties) [])

abbrev unconstructed : OutputShape
unconstructed =
    one (
      object (property "id" (one (scalar string)) (property "constructor" unknown no_properties))
        [])

inherited_tests : merge_shapes bare_shape constructed ≡ unconstructed
unfolding merge_shapes
inherited_tests = refl

bare-describes : (describes issue_shape bare_issue || describes bare_shape bare_issue) ≡ true
unfolding describes
bare-describes = refl

merge_shapes-describes_example : describes (merge_shapes issue_shape bare_shape) bare_issue ≡ true
merge_shapes-describes_example =
    merge_shapes-describes issue_shape bare_shape bare_issue bare-describes

-- A rendering of 3000 characters for each level.
abbrev counted : OutputShape → ℕ
counted s = 3000 * depth s

fit_tests :
    fit_shape counted issue_shape
    ≡ one (
        object
          (property "id" (one (scalar number)) (property "tags" unknown no_properties))
          ("id" ∷ "tags" ∷ []))
unfolding fit_shape depth
fit_tests = refl

merged-describes : describes merged bare_issue ≡ true
unfolding describes
merged-describes = refl

fit_shape-bounds_example :
    (describes (fit_shape counted merged) bare_issue ≡ true)
    × ((fit_shape counted merged ≡ unknown)
        ⊎ ((counted (fit_shape counted merged) ≤ max_shape_chars)
            × (depth (fit_shape counted merged) ≤ max_depth)))
fit_shape-bounds_example = fit_shape-bounds counted merged bare_issue merged-describes

abbrev listing : ObservedTool
listing = record {
  original_name = "get_issue";
  has_output_schema = false;
  has_executor_path = false;
  key = "k1";
}

abbrev known : ObservedOutput
known = record { source = structured_content; shape = issue_shape; tool_key = "k1"; private = true }

abbrev by_tool : Map ObservedOutput
by_tool = ("get_issue", known) ∷ []

abbrev result : Members
result = member "structuredContent" bare_issue no_members

abbrev unparsed : String → Option Value
unparsed text = none

abbrev rendered : ObservedOutput → String
rendered o = o.tool_key

result_read : read_result_value unparsed result ≡ value_of structured_content bare_issue
unfolding read_result_value
result_read = refl

known_here : get "get_issue" by_tool ≡ some known
unfolding get
known_here = refl

known-describes : describes issue_shape issue ≡ true
unfolding describes
known-describes = refl

record_observed_output-keeps_example :
    (r : Recorded) × (record_observed_output counted unparsed rendered
        (some listing)
        true
        false
        result
        by_tool
      ≡ some r)
    × (o : ObservedOutput) × (get "get_issue" r.by_tool ≡ some o)
    × (o.private ≡ (false || true))
    × ((is_some r.saved && o.private) ≡ false)
    × (describes o.shape issue ≡ true)
record_observed_output-keeps_example =
    record_observed_output-keeps counted unparsed rendered listing false result by_tool known
      bare_issue issue refl result_read known_here refl known-describes
