-- ===== src/Naming/Glob.antt =====
-- types.ts: `globToRegExp` and `matchesToolPattern`. A regular expression without the `u` flag reads
-- UTF-16 units, so patterns and names are lists of those here.
pub mod Compiled
pub mod Laws
use Prim.Native.Char.{code}
use mcp_adapter.Prelude.{
  ℕ, ◌+◌, ◌-◌, ◌/◌, ◌%◌, String, Bool, true, false, Option, none, some, List, [], ◌∷◌, ◌&&◌, ◌||◌,
  not, if◌then◌else◌, nat_beq, ltb, any, contains,
}
use mcp_adapter.Json.{Value, str, arr, items}

abbrev pub units : String → List ℕ
units String.[] = []
units (String.◌∷◌ c s) =
    if ltb (code c) 0x10000
    then code c ∷ units s
    else (0xd800 + (code c - 0x10000) / 0x400) ∷ (0xdc00 + (code c - 0x10000) % 0x400) ∷ units s

-- What `.` does not match.
abbrev pub line_end : ℕ → Bool
line_end c = nat_beq c 10 || nat_beq c 13 || nat_beq c 0x2028 || nat_beq c 0x2029

abbrev pub star : ℕ
star = b'*'

abbrev pub question : ℕ
question = b'?'

abbrev pub dot : ℕ
dot = b'.'

abbrev pub backslash : ℕ
backslash = 92

-- `[.+^${}()|[\]\\]`
abbrev pub is_special : ℕ → Bool
is_special c =
    nat_beq c b'.'
    || nat_beq c b'+'
    || nat_beq c b'^'
    || nat_beq c b'$'
    || nat_beq c b'{'
    || nat_beq c b'}'
    || nat_beq c b'('
    || nat_beq c b')'
    || nat_beq c b'|'
    || nat_beq c b'['
    || nat_beq c b']'
    || nat_beq c backslash

-- `.replace(/[.+^${}()|[\]\\]/g, "\\$&")`
unfoldable pub escape_special : List ℕ → List ℕ
escape_special [] = []
escape_special (c ∷ s) =
    let rest = escape_special s in if is_special c then backslash ∷ c ∷ rest else c ∷ rest

-- `.replace(/\*/g, ".*")`
unfoldable pub replace_stars : List ℕ → List ℕ
replace_stars [] = []
replace_stars (c ∷ s) =
    let rest = replace_stars s in if nat_beq c star then dot ∷ star ∷ rest else c ∷ rest

-- `.replace(/\?/g, ".")`
unfoldable pub replace_questions : List ℕ → List ℕ
replace_questions [] = []
replace_questions (c ∷ s) =
    let rest = replace_questions s in if nat_beq c question then dot ∷ rest else c ∷ rest

-- What `globToRegExp` puts between `^` and `$`.
unfoldable pub glob_source : List ℕ → List ℕ
unfolding escape_special replace_stars replace_questions
glob_source p = replace_questions (replace_stars (escape_special p))

-- The regular expressions that are read: units, `.` and `.*`, one after the other.
pub data Atom : Type 0 where
  literal : (unit : ℕ) → Atom
  any_unit any_units : Atom

abbrev pub is_syntax : ℕ → Bool
is_syntax c = is_special c || nat_beq c star || nat_beq c question

unfoldable pub cons_atom : Atom → Option (List Atom) → Option (List Atom)
cons_atom a none = none
cons_atom a (some atoms) = some (a ∷ atoms)

-- A syntax character that is not escaped is none of these, nor is a backslash before any other unit.
unfoldable pub read_source : List ℕ → Option (List Atom)
unfolding cons_atom
read_source [] = some []
read_source (c ∷ []) =
    if nat_beq c dot
    then some (any_unit ∷ [])
    else if is_syntax c
    then none
    else some (literal c ∷ [])
read_source (c ∷ d ∷ s) =
    let after_one = read_source (d ∷ s) in
    let after_two = read_source s in
    if nat_beq c backslash
    then (if is_syntax d then cons_atom (literal d) after_two else none)
    else if nat_beq c dot
    then (if nat_beq d star then cons_atom any_units after_two else cons_atom any_unit after_one)
    else if is_syntax c
    then none
    else cons_atom (literal c) after_one

-- Whether the atoms match the whole of a name.
unfoldable pub test_atoms : List Atom → List ℕ → Bool
test_atoms [] [] = true
test_atoms [] (c ∷ s) = false
test_atoms (literal d ∷ atoms) [] = false
test_atoms (any_unit ∷ atoms) [] = false
test_atoms (any_units ∷ atoms) [] = test_atoms atoms []
test_atoms (literal d ∷ atoms) (c ∷ s) =
    let rest = test_atoms atoms s in if nat_beq d c then rest else false
test_atoms (any_unit ∷ atoms) (c ∷ s) =
    let rest = test_atoms atoms s in if line_end c then false else rest
test_atoms (any_units ∷ atoms) (c ∷ s) =
    let none_taken = test_atoms atoms (c ∷ s) in
    let one_taken = test_atoms (any_units ∷ atoms) s in
    if none_taken then true else if line_end c then false else one_taken

unfoldable pub test_source : Option (List Atom) → List ℕ → Bool
unfolding test_atoms
test_source none s = false
test_source (some atoms) s = test_atoms atoms s

-- `globToRegExp(pattern).test(name)`
unfoldable pub glob_match : List ℕ → List ℕ → Bool
unfolding test_source read_source glob_source
glob_match p s = test_source (read_source (glob_source p)) s

abbrev pub has_unit : ℕ → List ℕ → Bool
has_unit c s = any (nat_beq c) s

-- `pattern.includes("*") || pattern.includes("?")`
abbrev pub is_glob : String → Bool
is_glob p = has_unit star (units p) || has_unit question (units p)

-- One round of the loop; a pattern that is no text is skipped.
unfoldable pub matches_one : List String → Value → Bool
unfolding glob_match contains
matches_one candidates (str p) =
    if not (is_glob p) && contains p candidates
    then true
    else is_glob p && any (λ c. glob_match (units p) (units c)) candidates
matches_one candidates _ = false

unfoldable pub matches_tool_pattern : List String → Value → Bool
unfolding matches_one
matches_tool_pattern candidates (arr ps) = any (matches_one candidates) (items ps)
matches_tool_pattern candidates _ = false
