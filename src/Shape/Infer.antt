-- ===== src/Shape/Infer.antt =====
-- output-shape.ts: `inferShape`. Its depth is the number of levels that it may still enter, and
-- its budget of nodes is passed on from part to part.
use Prim.Native.Char.{code}
use Prim.Native.String.{count}
use mcp_adapter.Prelude.{
  ℕ, zero, suc, ◌+◌, min, String, Bool, true, false, not, ◌&&◌, ◌||◌, Option, none, some, List, [],
  ◌∷◌, ◌==◌, if◌then◌else◌, nat_beq, ltb, leb,
}
use mcp_adapter.Json.{
  Value, undefined, bool, num, str, arr, obj, Elements, no_elements, element, Members, no_members,
  member, keys,
}
use mcp_adapter.Shape.{
  OutputShape, unknown, one, Scalar, scalar, boolean, number, string, array_empty, array_of, object,
  map_of, Properties, no_properties, property, max_depth, max_array_sample, max_object_keys,
}
use mcp_adapter.Shape.Merge.{reduce, merge_shapes}

abbrev is_digit : ℕ → Bool
is_digit c = leb b'0' c && leb c b'9'

-- `[A-Za-z_$]`
abbrev is_name_start : ℕ → Bool
is_name_start c =
    (leb b'A' c && leb c b'Z') || (leb b'a' c && leb c b'z') || nat_beq c b'_' || nat_beq c b'$'

unfoldable pub name_rest : String → Bool
name_rest String.[] = true
name_rest (String.◌∷◌ c s) = (is_name_start (code c) || is_digit (code c)) && name_rest s

-- `FIELD_NAME.test(key)`
unfoldable pub is_field_name : String → Bool
unfolding name_rest
is_field_name String.[] = false
is_field_name (String.◌∷◌ c s) = is_name_start (code c) && name_rest s && leb (count s) 39

-- `/\d{4}/.test(key)`, after a run of so many digits.
unfoldable pub has_digits : ℕ → String → Bool
has_digits run String.[] = leb 4 run
has_digits run (String.◌∷◌ c s) =
    let rest = has_digits (if is_digit (code c) then run + 1 else 0) s in leb 4 run || rest

-- A key that makes its object a map.
unfoldable pub is_data_key : String → Bool
unfolding is_field_name has_digits
is_data_key key = not (is_field_name key) || has_digits 0 key || key == "__proto__"

-- The loop over the keys: the number of keys collected where the object turns out to be a map.
unfoldable pub scan_keys : ℕ → Members → Option ℕ
unfolding is_data_key
scan_keys n no_members = none
scan_keys n (member k v ms) =
    let rest = scan_keys (n + 1) ms in
    if ltb max_object_keys (n + 1) || is_data_key k then some (n + 1) else rest

-- The object as a record, or as a map of which so many keys were collected.
abbrev pub as_object : Option ℕ → OutputShape × ℕ → (ℕ → OutputShape × ℕ) → OutputShape × ℕ
as_object none whole from_keys = whole
as_object (some n) whole from_keys = from_keys n

unfoldable mutual
  unfolding scan_keys reduce merge_shapes

  pub infer : ℕ → Value → ℕ → OutputShape × ℕ
  infer levels v zero = (unknown, 0)
  infer levels Value.null (suc b) = (one (scalar Scalar.null), b)
  infer levels undefined (suc b) = (unknown, b)
  infer levels (bool x) (suc b) = (one (scalar boolean), b)
  infer levels (num x) (suc b) = (one (scalar number), b)
  infer levels (str x) (suc b) = (one (scalar string), b)
  infer zero (arr vs) (suc b) = (unknown, b)
  infer zero (obj ms) (suc b) = (unknown, b)
  infer (suc levels) (arr no_elements) (suc b) = (one array_empty, b)
  infer (suc levels) (arr (element v vs)) (suc b) =
      let sample = infer_items levels max_array_sample (element v vs) b in
      (one (array_of (reduce merge_shapes sample.0)), sample.1)
  infer (suc levels) (obj ms) (suc b) =
      let sample = λ (n : ℕ). infer_sample levels n ms b in
      let all_members = infer_members levels ms b in
      as_object (scan_keys 0 ms) (one (object all_members.0 (keys ms)), all_members.1)
        (λ n.
          let some_members = sample (min max_array_sample n) in
          (one (map_of (reduce merge_shapes some_members.0)), some_members.1))

  -- The first so many items.
  pub infer_items : ℕ → ℕ → Elements → ℕ → List OutputShape × ℕ
  infer_items levels zero vs b = ([], b)
  infer_items levels (suc n) no_elements b = ([], b)
  infer_items levels (suc n) (element v vs) b =
      let here = infer levels v b in
      let rest = infer_items levels n vs here.1 in (here.0 ∷ rest.0, rest.1)

  -- The values of the first so many keys.
  pub infer_sample : ℕ → ℕ → Members → ℕ → List OutputShape × ℕ
  infer_sample levels zero ms b = ([], b)
  infer_sample levels (suc n) no_members b = ([], b)
  infer_sample levels (suc n) (member k v ms) b =
      let here = infer levels v b in
      let rest = infer_sample levels n ms here.1 in (here.0 ∷ rest.0, rest.1)

  pub infer_members : ℕ → Members → ℕ → Properties × ℕ
  infer_members levels no_members b = (no_properties, b)
  infer_members levels (member k v ms) b =
      let here = infer levels v b in
      let rest = infer_members levels ms here.1 in (property k here.0 rest.0, rest.1)

abbrev pub max_nodes_per_call : ℕ
max_nodes_per_call = 1000

-- `inferShape(value, 0, { nodes: MAX_NODES_PER_CALL })`
unfoldable pub infer_shape : Value → OutputShape
unfolding infer
infer_shape v = (infer max_depth v max_nodes_per_call).0
