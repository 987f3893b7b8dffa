-- ===== src/Naming/Deferred/Laws.antt =====
-- What holds of the names that tools are registered under.
use Prim.Native.String.{count}
use mcp_adapter.Prelude.{
  ℕ, ◌≤◌, String, Bool, true, false, not, ◌&&◌, ◌||◌, List, [], ◌∷◌, ◌==◌, ◌≡◌, refl, arith, inl,
  inr, leb, ltb, leb→le, Map, get, or_else, contains, contains-add, add, all, map, and→both,
  Bool-cases, eq_iff,
}
use mcp_adapter.Naming.Namespace.Bounds.{count-take_text, count-cut}
use mcp_adapter.Naming.Deferred.{
  DirectToolSpec, max_tool_name_length, deferred_tool_key, plain_deferred_tool_name,
  hashed_tool_name, format_deferred_tool_name, is_unavailable, name_in, name_specs, candidates_of,
  count_plain, resolve_deferred_tool_specs,
}

-- No text is in the list twice.
abbrev pub no_repeats : List String → Bool
no_repeats [] = true
no_repeats (s ∷ ss) = not (contains s ss) && no_repeats ss

abbrev pub names_of : List (DirectToolSpec × String) → List String
names_of [] = []
names_of ((spec, name) ∷ named) = name ∷ names_of named

both_true : {a b : Bool} → a ≡ true → b ≡ true → (a && b) ≡ true
both_true p q = rw p q

negated : {a : Bool} → a ≡ false → not a ≡ true
negated p = rw p refl

module _ (json_string sha256 : String → String) where
  -- The name is within the bound, not reserved, and not another tool's.
  abbrev pub is_free : Map String → List String → DirectToolSpec × String → Bool
  is_free owners names (spec, name) =
      leb (count name) max_tool_name_length
      && (not (contains name names)
          && or_else (get name owners) (deferred_tool_key json_string sha256 spec)
            == deferred_tool_key json_string sha256 spec)

  hashed_tool_name-bounds :
      (spec : DirectToolSpec) (name : String)
      → count (hashed_tool_name json_string sha256 spec name) ≤ max_tool_name_length
  unfolding hashed_tool_name
  hashed_tool_name-bounds spec name = count-cut 64 name _ (omega (arith, count-take_text 8 _))

  format-bounds :
      (spec : DirectToolSpec) (is_taken : String → Bool)
      → count (format_deferred_tool_name json_string sha256 spec is_taken) ≤ max_tool_name_length
  unfolding format_deferred_tool_name
  format-bounds spec is_taken =
      let name = plain_deferred_tool_name json_string sha256 spec in
      elim (Bool-cases (leb (count name) max_tool_name_length && not (is_taken name))) [
        | inl plain ↦ rw plain (leb→le (count name) max_tool_name_length (ground (arith, plain)))
        | inr hashed ↦ rw hashed (hashed_tool_name-bounds spec name)
      ]

  free-name :
      (counts : Map ℕ) (owners : Map String) (names : List String) (spec : DirectToolSpec)
      → is_unavailable json_string sha256 owners names
          (deferred_tool_key json_string sha256 spec)
          (name_in json_string sha256 counts owners names spec)
        ≡ false
      → is_free owners names (spec, name_in json_string sha256 counts owners names spec) ≡ true
  unfolding is_unavailable
  free-name counts owners names spec h =
      let short = format-bounds spec (λ candidate.
        is_unavailable json_string sha256 owners names (deferred_tool_key json_string sha256 spec)
          candidate
        || ltb 1 (or_else (get candidate counts) 0)) in
      ground (arith, h, short)

  -- A name that is kept is not among those that were taken before.
  unfree-contains :
      (owners : Map String) (name : String) (names : List String)
      (named : List (DirectToolSpec × String))
      → all (is_free owners (add name names)) named ≡ true
      → (contains name (names_of named) ≡ false) × (all (is_free owners names) named ≡ true)
  unfolding contains
  unfree-contains owners name names [] h = (refl, refl)
  unfree-contains owners name names ((spec, other) ∷ named) h =
      let b =
        and→both (is_free owners (add name names) (spec, other))
          (all (is_free owners (add name names)) named) h in
      let rest = unfree-contains owners name names named b.1 in
      let apart = contains-add other name names in
      (
        ground (arith, b.0, rest.0, apart, eq_iff name other, eq_iff other name),
        ground (arith, b.0, rest.1, apart),
      )

  name_specs-free :
      (counts : Map ℕ) (owners : Map String) (names : List String) (specs : List DirectToolSpec)
      → (no_repeats (names_of (name_specs json_string sha256 counts owners names specs)) ≡ true)
        × (all (is_free owners names) (name_specs json_string sha256 counts owners names specs)
            ≡ true)
  unfolding name_specs
  name_specs-free counts owners names [] = (refl, refl)
  name_specs-free counts owners names (spec ∷ specs) =
      let key = deferred_tool_key json_string sha256 spec in
      let name = name_in json_string sha256 counts owners names spec in
      elim (Bool-cases (is_unavailable json_string sha256 owners names key name)) [
        | inl taken ↦ rw taken (name_specs-free counts owners names specs)
        | inr free ↦
            let later = name_specs-free counts owners (add name names) specs in
            let rest =
              unfree-contains owners name names
                (name_specs json_string sha256 counts owners (add name names) specs) later.1 in
            rw free (
              both_true (negated rest.0) later.0,
              both_true (free-name counts owners names spec free) rest.1,
            )
      ]

  -- The names that tools are registered under are all different and have at most 64 characters. None
  -- is reserved, and none was given to another tool earlier in the session.
  pub resolve_deferred_tool_specs-free :
      (servers : List (List DirectToolSpec × List DirectToolSpec)) (names : List String)
      (direct_tools : List DirectToolSpec) (owners : Map String)
      → (no_repeats (
            names_of
              (resolve_deferred_tool_specs json_string sha256 servers names direct_tools owners))
          ≡ true)
        × (all
              (is_free owners names)
              (resolve_deferred_tool_specs json_string sha256 servers names direct_tools owners)
            ≡ true)
  unfolding resolve_deferred_tool_specs
  resolve_deferred_tool_specs-free servers names direct_tools owners =
      let candidates =
        candidates_of json_string sha256 (map (deferred_tool_key json_string sha256) direct_tools)
          servers in
      name_specs-free (count_plain json_string sha256 candidates []) owners names candidates
