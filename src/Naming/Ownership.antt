-- ===== src/Naming/Ownership.antt =====
-- types.ts: `resolveUniqueNameOwnership`. A name has an owner only if exactly one entry produces it.
use mcp_adapter.Prelude.{
  ℕ, ◌+◌, ◌<◌, All, All-map, String, Bool, false, Option, none, some, List, [], ◌∷◌, ◌++◌, ◌==◌,
  ◌≡◌, refl, arith, eq_iff, eq_refl, if◌then◌else◌, not, Map, get, put, get-put, get-nil, or_else,
  keep, length, ltb, nat_beq, length-append,
}

module _ {ℓ} {T : Type ℓ} (get_name : T → String) where
  -- The first loop: each name's entries, in order.
  owners_from : Map (List T) → List T → Map (List T)
  owners_from owners [] = owners
  owners_from owners (e ∷ es) =
      let named = or_else (get (get_name e) owners) [] in
      owners_from (put (get_name e) (named ++ e ∷ []) owners) es

  abbrev is_collision : Option (List T) → Bool
  is_collision none = false
  is_collision (some named) = ltb 1 (length named)

  -- The `unique` part of the result: the entries whose name is no key of `collisions`.
  unfoldable pub unique : List T → List T
  unfolding get owners_from put
  unique entries =
      keep (λ e. not (is_collision (get (get_name e) (owners_from [] entries)))) entries

  -- How many entries produce the name.
  abbrev pub producers : String → List T → ℕ
  producers name [] = 0
  producers name (e ∷ es) = (if get_name e == name then 1 else 0) + producers name es

  abbrev named_length : Option (List T) → ℕ
  named_length none = 0
  named_length (some named) = length named

  owners_from-count :
      (name : String) (owners : Map (List T)) (es : List T)
      → named_length (get name (owners_from owners es))
        ≡ named_length (get name owners) + producers name es
  unfolding owners_from
  owners_from-count name owners [] = omega arith
  owners_from-count name owners (e ∷ es) = ground (
    arith,
    owners_from-count name
        (put (get_name e) (or_else (get (get_name e) owners) [] ++ e ∷ []) owners) es,
    get-put name (get_name e) (or_else (get (get_name e) owners) [] ++ e ∷ []) owners,
    eq_iff (get_name e) name,
    length-append (or_else (get (get_name e) owners) []) (e ∷ []),
  )

  keep-congr : (p q : T → Bool) (xs : List T) → All (λ x. p x ≡ q x) xs → keep p xs ≡ keep q xs
  keep-congr p q [] h = refl
  keep-congr p q (x ∷ xs) h = ground (arith, keep-congr p q xs h.1)

  producers-pos : (es : List T) → All (λ e. 0 < producers (get_name e) es) es
  producers-pos [] = tt
  producers-pos (e ∷ es) =
      (ground (arith, eq_refl (get_name e)), All-map (λ x h. ground arith) es (producers-pos es))

  kept_iff :
      (es : List T) (e : T)
      → 0 < producers (get_name e) es
      → not (is_collision (get (get_name e) (owners_from [] es)))
        ≡ nat_beq (producers (get_name e) es) 1
  kept_iff es e h =
      ground (arith, owners_from-count (get_name e) [] es, get-nil {V = List T} (get_name e))

  -- The unique entries are those whose name no other entry produces, in their order.
  pub unique-eq-keep :
      (es : List T) → unique es ≡ keep (λ e. nat_beq (producers (get_name e) es) 1) es
  unfolding unique
  unique-eq-keep es = keep-congr _ _ es (All-map (λ e h. kept_iff es e h) es (producers-pos es))
