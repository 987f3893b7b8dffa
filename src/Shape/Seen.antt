-- ===== src/Shape/Seen.antt =====
-- The values that `inferShape` looks at as a whole, told without its own tests.
use Prim.Native.Char.{code}
use Prim.Native.String.{count}
use mcp_adapter.Prelude.{
  ℕ, zero, suc, ◌+◌, ◌≤◌, min, String, Bool, true, false, not, ◌&&◌, ◌||◌, none, some, ◌∷◌, ◌==◌,
  ◌≡◌, refl, ap, arith, inl, inr, nat_beq, leb, take, map, Bool-cases, and→both,
}
use mcp_adapter.Json.{
  Value, arr, obj, Elements, no_elements, element, Members, no_members, member, keys, prop, items,
}
use mcp_adapter.Shape.{max_array_sample}
use mcp_adapter.Shape.Describes.{values}
use mcp_adapter.Shape.Infer.{is_field_name, name_rest, has_digits, is_data_key, scan_keys}

-- A letter or an underscore.
abbrev is_plain_char : ℕ → Bool
is_plain_char c = (leb 65 c && leb c 90) || (leb 97 c && leb c 122) || nat_beq c 95

unfoldable plain_chars : String → Bool
plain_chars String.[] = true
plain_chars (String.◌∷◌ c s) = is_plain_char (code c) && plain_chars s

-- A name of one to forty letters and underscores, other than "__proto__".
unfoldable pub is_plain : String → Bool
unfolding plain_chars
is_plain String.[] = false
is_plain (String.◌∷◌ c s) =
    plain_chars (String.◌∷◌ c s) && leb (count s) 39 && not (String.◌∷◌ c s == "__proto__")

unfoldable pub size : Members → ℕ
size no_members = 0
size (member k v ms) = suc (size ms)

unfoldable pub item_count : Elements → ℕ
item_count no_elements = 0
item_count (element v vs) = suc (item_count vs)

unfoldable pub plain_keys : Members → Bool
unfolding is_plain
plain_keys no_members = true
plain_keys (member k v ms) = is_plain k && plain_keys ms

unfoldable pub plain_but_last : Members → Bool
unfolding is_plain
plain_but_last no_members = true
plain_but_last (member k v no_members) = true
plain_but_last (member k v (member j w ms)) = is_plain k && plain_but_last (member j w ms)

-- No array of the value has more than five items, and every object has at most forty members, all of
-- them with plain names, or at most five, of which the last may have any name.
unfoldable mutual
  unfolding size item_count plain_keys plain_but_last

  pub is_seen : Value → Bool
  is_seen (arr vs) = leb (item_count vs) 5 && seen_elements vs
  is_seen (obj ms) =
      ((leb (size ms) 40 && plain_keys ms) || (leb (size ms) 5 && plain_but_last ms))
      && seen_members ms
  is_seen v = true

  pub seen_elements : Elements → Bool
  seen_elements no_elements = true
  seen_elements (element v vs) = is_seen v && seen_elements vs

  pub seen_members : Members → Bool
  seen_members no_members = true
  seen_members (member k v ms) = is_seen v && seen_members ms

name_rest-plain : (s : String) → plain_chars s ≡ true → name_rest s ≡ true
unfolding plain_chars name_rest
name_rest-plain String.[] h = refl
name_rest-plain (String.◌∷◌ c s) h = ground (arith, h, name_rest-plain s)

has_digits-plain : (s : String) → plain_chars s ≡ true → has_digits 0 s ≡ false
unfolding plain_chars has_digits
has_digits-plain String.[] h = refl
has_digits-plain (String.◌∷◌ c s) h = ground (arith, h, has_digits-plain s)

is_data_key-plain : (s : String) → is_plain s ≡ true → is_data_key s ≡ false
unfolding is_plain plain_chars is_data_key is_field_name
is_data_key-plain String.[] h = cc
is_data_key-plain (String.◌∷◌ c s) h =
    ground (arith, h, name_rest-plain s, has_digits-plain (String.◌∷◌ c s))

scan_keys-plain :
    (n : ℕ) (ms : Members) → n + size ms ≤ 40 → plain_keys ms ≡ true → scan_keys n ms ≡ none
unfolding scan_keys size plain_keys
scan_keys-plain n no_members h p = refl
scan_keys-plain n (member k v ms) h p =
    let b = and→both (is_plain k) (plain_keys ms) p in
    ground (arith, h, is_data_key-plain k b.0, scan_keys-plain (n + 1) ms (omega (arith, h)) b.1)

scan_keys-plain_but_last :
    (n found : ℕ) (ms : Members)
    → n + size ms ≤ 40
    → plain_but_last ms ≡ true
    → scan_keys n ms ≡ some found
    → found ≡ n + size ms
unfolding scan_keys size plain_but_last
scan_keys-plain_but_last n found no_members h p e = cc
scan_keys-plain_but_last n found (member k v no_members) h p e = ground (arith, e)
scan_keys-plain_but_last n found (member k v (member j w ms)) h p e =
    let b = and→both (is_plain k) (plain_but_last (member j w ms)) p in
    ground (
      arith,
      h,
      e,
      is_data_key-plain k b.0,
      scan_keys-plain_but_last (n + 1) found (member j w ms) (omega (arith, h)) b.1,
    )

pub take-items : (n : ℕ) (vs : Elements) → item_count vs ≤ n → take n (items vs) ≡ items vs
unfolding item_count
take-items zero no_elements h = refl
take-items zero (element v vs) h = absurd (omega (arith, h))
take-items (suc n) no_elements h = refl
take-items (suc n) (element v vs) h = ap (◌∷◌ v) (take-items n vs (omega (arith, h)))

take-map-keys :
    (g : String → Value) (n : ℕ) (ms : Members)
    → size ms ≤ n
    → take n (map g (keys ms)) ≡ map g (keys ms)
unfolding size
take-map-keys g zero no_members h = refl
take-map-keys g zero (member k v ms) h = absurd (omega (arith, h))
take-map-keys g (suc n) no_members h = refl
take-map-keys g (suc n) (member k v ms) h = ap (◌∷◌ (g k)) (take-map-keys g n ms (omega (arith, h)))

-- Of an object that is seen and turns out to be a map, the sample has the values of all keys.
pub take-values :
    (n : ℕ) (ms : Members)
    → is_seen (obj ms) ≡ true
    → scan_keys 0 ms ≡ some n
    → take (min max_array_sample n) (values ms) ≡ values ms
unfolding is_seen
take-values n ms h e =
    let b =
      and→both ((leb (size ms) 40 && plain_keys ms) || (leb (size ms) 5 && plain_but_last ms))
        (seen_members ms) h in
    elim (Bool-cases (leb (size ms) 40 && plain_keys ms)) [
      | inl plain ↦
          let p = and→both (leb (size ms) 40) (plain_keys ms) plain in
          let whole : scan_keys 0 ms ≡ none = scan_keys-plain 0 ms (ground (arith, p.0)) p.1 in
          absurd (ground (arith, whole, e))
      | inr mixed ↦
          let few : (leb (size ms) 5 && plain_but_last ms) ≡ true = ground (arith, mixed, b.0) in
          let p = and→both (leb (size ms) 5) (plain_but_last ms) few in
          let five : size ms ≤ 5 = ground (arith, p.0) in
          let n_size = scan_keys-plain_but_last 0 n ms (omega (arith, five)) p.1 e in
          take-map-keys (λ k. prop k ms) (min max_array_sample n) ms (omega (arith, n_size, five))
    ]
