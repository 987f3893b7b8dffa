-- ===== src/Json.antt =====
-- JSON-like values, as the checks on `unknown` in the sources read them. A field list is an object's
-- own enumerable properties in order; numbers are the natural ones.
pub mod Stable
use mcp_adapter.Prelude.{
  ℕ, String, Bool, false, Option, none, some, List, [], ◌∷◌, ◌==◌, if◌then◌else◌, nat_beq, is_some,
  length, ◌&&◌, all,
}

mutual
  pub data Members : Type 0 where
    no_members : Members
    member : (key : String) (value : Value) (others : Members) → Members

  pub data Value : Type 0 where
    null undefined : Value
    obj : Members → Value
    arr : Elements → Value
    bool : Bool → Value
    num : ℕ → Value
    str : String → Value

  pub data Elements : Type 0 where
    no_elements : Elements
    element : (first : Value) (others : Elements) → Elements

abbrev pub items : Elements → List Value
items no_elements = []
items (element v vs) = v ∷ items vs

abbrev pub keys : Members → List String
keys no_members = []
keys (member k v fs) = k ∷ keys fs

-- An own property, or `none` where the object has none.
abbrev pub own : String → Members → Option Value
own k no_members = none
own k (member j v fs) = if j == k then some v else own k fs

-- `value[k]`, `undefined` for a missing property.
abbrev pub prop : String → Members → Value
prop k fs = elim (own k fs) [ none ↦ undefined | some v ↦ v ]

abbrev pub is_str : Value → String → Bool
is_str (str s) t = s == t
is_str _ t = false

abbrev pub is_num : Value → ℕ → Bool
is_num (num n) m = nat_beq n m
is_num _ m = false

abbrev pub has_exact_keys : Members → List String → Bool
has_exact_keys fs wanted =
    nat_beq (length (keys fs)) (length wanted) && all (λ k. is_some (own k fs)) wanted
