-- ===== src/Prelude/Maps.antt =====
-- JavaScript's `Map` and `Set` over text keys, as lists in insertion order: `set` on a key that is
-- present keeps its place, and a new key goes last.
use mathlib.Core.Option.{Option, none, some}
use mathlib.Core.List.{List, [], ◌∷◌}
use mathlib.Core.Bool.{not, ◌&&◌, ◌||◌, false, Bool}
use mathlib.Core.Path.{refl, ◌≡◌}
use text.Mathlib.TextEquality.{eq_iff}
use text.Mathlib.Text.{◌==◌}
use Prim.Native.String.{String}
use native.Mathlib.Omega.{arith}
use mcp_adapter.Prelude.Tests.{if◌then◌else◌}

abbrev pub Map {ℓ} : Type ℓ → Type ℓ
Map V = List (String × V)

module _ {ℓ} {V : Type ℓ} where
  unfoldable pub get : String → Map V → Option V
  get k [] = none
  get k ((j, v) ∷ m) = if j == k then some v else get k m

  unfoldable pub put : String → V → Map V → Map V
  put k v [] = (k, v) ∷ []
  put k v ((j, w) ∷ m) = if j == k then (j, v) ∷ m else (j, w) ∷ put k v m

  unfoldable pub delete : String → Map V → Map V
  delete k [] = []
  delete k ((j, w) ∷ m) = let rest = delete k m in if j == k then rest else (j, w) ∷ rest

  pub get-put :
      (j k : String) (v : V) (m : Map V) → get j (put k v m) ≡ (if k == j then some v else get j m)
  unfolding get put
  get-put j k v [] = refl
  get-put j k v ((first, w) ∷ m) =
      ground (arith, get-put j k v m, eq_iff first j, eq_iff first k, eq_iff k j)

  pub get-delete :
      (j k : String) (m : Map V) → get j (delete k m) ≡ (if k == j then none else get j m)
  unfolding get delete
  get-delete j k [] = ground arith
  get-delete j k ((first, w) ∷ m) =
      ground (arith, get-delete j k m, eq_iff first j, eq_iff first k, eq_iff k j)

unfoldable pub contains : String → List String → Bool
contains k [] = false
contains k (j ∷ s) = j == k || contains k s

unfoldable pub add : String → List String → List String
add k [] = k ∷ []
add k (j ∷ s) = if j == k then j ∷ s else j ∷ add k s

unfoldable pub remove : String → List String → List String
remove k [] = []
remove k (j ∷ s) = let rest = remove k s in if j == k then rest else j ∷ rest

pub contains-add :
    (j k : String) (s : List String) → contains j (add k s) ≡ (k == j || contains j s)
unfolding contains add
contains-add j k [] = ground arith
contains-add j k (i ∷ s) = ground (arith, eq_iff k j, eq_iff i k, eq_iff i j, contains-add j k s)

pub contains-remove :
    (j k : String) (s : List String) → contains j (remove k s) ≡ (not (k == j) && contains j s)
unfolding contains remove
contains-remove j k [] = ground arith
contains-remove j k (i ∷ s) =
    ground (arith, eq_iff k j, eq_iff i k, eq_iff i j, contains-remove j k s)

pub contains-nil : (j : String) → contains j [] ≡ false
unfolding contains
contains-nil j = refl

pub get-nil {ℓ} : {V : Type ℓ} (j : String) → get {V = V} j [] ≡ none
unfolding get
get-nil j = refl

pub ruleset map_laws = (get-put, get-delete, get-nil, contains-add, contains-remove, contains-nil)
