-- ===== src/Json/Stable.antt =====
-- utils.ts: `stableStringify`. What `JSON.stringify` prints for a text and a number is the platform's.
use mcp_adapter.Prelude.{ℕ, String, Bool, true, false, List, [], ◌∷◌, if◌then◌else◌, ltb, nat_beq}
use Prim.Native.String.{◌++◌}
use mcp_adapter.Json.{
  Value, null, undefined, bool, num, str, arr, obj, Elements, no_elements, element, Members,
  no_members, member,
}
use mcp_adapter.Naming.Glob.{units}

-- Code that is not the program's: hashing (`node:crypto`) and the text of a JSON scalar.
pub record Platform : Type 0 where
  pub sha256 : String → String
  pub json_string : String → String
  pub json_number : ℕ → String

-- The default order of `sort()`: by UTF-16 units.
units_before : List ℕ → List ℕ → Bool
units_before [] [] = false
units_before [] (d ∷ t) = true
units_before (c ∷ s) [] = false
units_before (c ∷ s) (d ∷ t) =
    let rest = units_before s t in if ltb c d then true else if nat_beq c d then rest else false

insert_entry : String × String → List (String × String) → List (String × String)
insert_entry e [] = e ∷ []
insert_entry (k, v) ((j, w) ∷ es) =
    let rest = insert_entry (k, v) es in
    if units_before (units k) (units j) then (k, v) ∷ (j, w) ∷ es else (j, w) ∷ rest

sort_entries : List (String × String) → List (String × String)
sort_entries [] = []
sort_entries (e ∷ es) = insert_entry e (sort_entries es)

join : List String → String
join [] = ""
join (x ∷ []) = x
join (x ∷ y ∷ xs) = x ++ "," ++ join (y ∷ xs)

module _ (platform : Platform) where
  entry_texts : List (String × String) → List String
  entry_texts [] = []
  entry_texts ((k, v) ∷ es) = (platform.json_string k ++ ":" ++ v) ∷ entry_texts es

  unfoldable mutual
    unfolding join entry_texts sort_entries insert_entry units_before

    pub stable_stringify : Value → String
    stable_stringify null = "null"
    stable_stringify undefined = "undefined"
    stable_stringify (bool true) = "true"
    stable_stringify (bool false) = "false"
    stable_stringify (num n) = platform.json_number n
    stable_stringify (str s) = platform.json_string s
    stable_stringify (arr xs) = "[" ++ join (item_texts xs) ++ "]"
    stable_stringify (obj fs) = "{" ++ join (entry_texts (sort_entries (field_texts fs))) ++ "}"

    pub item_texts : Elements → List String
    item_texts no_elements = []
    item_texts (element v vs) = stable_stringify v ∷ item_texts vs

    pub field_texts : Members → List (String × String)
    field_texts no_members = []
    field_texts (member k v fs) = (k, stable_stringify v) ∷ field_texts fs
