-- ===== src/Naming/Glob/Laws.antt =====
-- Selector lists, as a relation.
use mcp_adapter.Prelude.{
  String, true, false, List, [], ◌∷◌, ◌≡◌, ◌⊎◌, ◌↔◌, inl, inr, refl, sym, ◌∙◌, arith, false≢true,
  eq_iff, ◌==◌, Bool-cases, AnyOf, any, any_iff, contains,
}
use mcp_adapter.Json.{Value, str, arr, items, Elements}
use mcp_adapter.Naming.Glob.Compiled.{Matches, glob_match_iff}
use mcp_adapter.Naming.Glob.{units, glob_match, is_glob, matches_one, matches_tool_pattern}

-- What one entry of a selector list means for one candidate name. An entry that is no text selects
-- nothing.
abbrev pub Selects : Value → String → Type 0
Selects (str p) name =
    ((is_glob p ≡ false) × (p ≡ name)) ⊎ ((is_glob p ≡ true) × Matches (units p) (units name))
Selects _ name = ⊥

contains-eq-any : (p : String) (xs : List String) → contains p xs ≡ any (λ x. x == p) xs
unfolding contains
contains-eq-any p [] = refl
contains-eq-any p (x ∷ xs) = rw (contains-eq-any p xs) refl

contains_iff : (p : String) (xs : List String) → (contains p xs ≡ true) ↔ AnyOf (λ x. x ≡ p) xs
contains_iff p xs =
    rw (contains-eq-any p xs) (any_iff (λ x. x ≡ p) (λ x. x == p) (λ x. eq_iff x p) xs)

AnyOf-map {ℓ κ μ} :
    {A : Type ℓ} {P : A → Type κ} {Q : A → Type μ}
    → ((x : A) → P x → Q x)
    → (xs : List A) → AnyOf P xs
    → AnyOf Q xs
AnyOf-map f [] n = elim n [ ]
AnyOf-map f (x ∷ xs) a = elim a [ inl h ↦ inl (f x h) | inr h ↦ inr (AnyOf-map f xs h) ]

matches_text_iff :
    (names : List String) (p : String)
    → (matches_one names (str p) ≡ true) ↔ AnyOf (Selects (str p)) names
unfolding matches_one
matches_text_iff names p = elim (Bool-cases (is_glob p)) [
  | inl g ↦ (
    λ e. AnyOf-map (λ x m. inr (g, m)) names ((globs.0 (ground arith))),
    λ a. let m = globs.1 (AnyOf-map (fits g) names a) in ground arith,
  )
  | inr g ↦ (
    λ e. AnyOf-map (λ x q. inl (g, sym q)) names ((contains_iff p names).0 (ground arith)),
    λ a. let m = (contains_iff p names).1 (AnyOf-map (equal g) names a) in ground arith,
  )
]
  where
    globs :
        (any (λ c. glob_match (units p) (units c)) names ≡ true)
        ↔ AnyOf (λ c. Matches (units p) (units c)) names
    globs = any_iff _ _ (λ c. glob_match_iff (units p) (units c)) names

    fits : is_glob p ≡ true → (x : String) → Selects (str p) x → Matches (units p) (units x)
    fits g x (inl (n, _)) = absurd (false≢true (sym n ∙ g))
    fits g x (inr (_, m)) = m

    equal : is_glob p ≡ false → (x : String) → Selects (str p) x → x ≡ p
    equal g x (inl (_, e)) = sym e
    equal g x (inr (n, _)) = absurd (false≢true (sym g ∙ n))

never_any : (names : List String) → AnyOf {A = String} (λ x. ⊥) names → ⊥
never_any [] n = elim n [ ]
never_any (x ∷ xs) a = elim a [ inl h ↦ h | inr h ↦ never_any xs h ]

matches_one_iff :
    (names : List String) (v : Value) → (matches_one names v ≡ true) ↔ AnyOf (Selects v) names
unfolding matches_one
matches_one_iff names (str p) = matches_text_iff names p
matches_one_iff names _ = (λ e. absurd (false≢true e), λ a. absurd (never_any names a))

-- A selector list picks a set of names exactly when one of its texts does: a text with `*` or `?`
-- by its glob, and any other only by being one of the names. Entries that are no text pick nothing.
pub matches_tool_pattern_iff :
    (names : List String) (patterns : Elements)
    → (matches_tool_pattern names (arr patterns) ≡ true)
      ↔ AnyOf (λ v. AnyOf (Selects v) names) (items patterns)
unfolding matches_tool_pattern
matches_tool_pattern_iff names patterns =
    any_iff (λ v. AnyOf (Selects v) names) (matches_one names) (matches_one_iff names)
      (items patterns)
