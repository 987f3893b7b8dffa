-- ===== src/Search/Pages.antt =====
-- search-ranking.ts: `paginate`.
mod Tests
use mcp_adapter.Prelude.{
  ℕ, zero, suc, ◌+◌, ◌-◌, ◌≤◌, ◌<◌, min, max, Bool, true, false, Option, none, some, List, [], ◌∷◌,
  ◌++◌, ◌≡◌, refl, sym, ap, ◌∙◌, arith, inl, inr, if◌then◌else◌, ltb, length, take, drop,
  length-take, length-drop, take-append-drop, length-append, Bool-cases,
}
use mcp_adapter.Connection.Failure.{ℤ, pos, negsuc}

pub record Page {ℓ} (T : Type ℓ) : Type ℓ where
  pub items : List T
  pub total : ℕ
  pub has_more : Bool
  pub next_offset : Option ℕ

-- `Number.isFinite(n) ? Math.max(least, Math.trunc(n)) : least`; the argument is the truncation of a
-- finite number.
unfoldable pub at_least : ℕ → Option ℤ → ℕ
at_least least none = least
at_least least (some (pos n)) = max least n
at_least least (some (negsuc n)) = least

at_least-pos : (n : ℕ) → at_least 0 (some (pos n)) ≡ n
unfolding at_least
at_least-pos n = omega arith

one-at_least : (limit : Option ℤ) → 1 ≤ at_least 1 limit
unfolding at_least
one-at_least none = omega arith
one-at_least (some (pos n)) = omega arith
one-at_least (some (negsuc n)) = omega arith

module _ {ℓ} {T : Type ℓ} where
  unfoldable pub paginate : List T → Option ℤ → Option ℤ → Page T
  unfolding at_least
  paginate items offset limit =
      let safe_offset = at_least 0 offset in
      let safe_limit = at_least 1 limit in
      let page = take safe_limit (drop safe_offset items) in
      let next_offset = safe_offset + length page in
      record {
        items = page;
        total = length items;
        has_more = ltb next_offset (length items);
        next_offset = if ltb next_offset (length items) then some next_offset else none;
      }

  abbrev and_then : (ℕ → List T) → List T → Option ℕ → List T
  and_then next items none = items
  and_then next items (some offset) = items ++ next offset

  -- What a reader collects who asks for page after page, at most so many.
  unfoldable pub read_pages : ℕ → List T → Option ℤ → Option ℤ → List T
  unfolding paginate
  read_pages zero items offset limit = []
  read_pages (suc fuel) items offset limit =
      let page = paginate items offset limit in
      and_then (λ next. read_pages fuel items (some (pos next)) limit) page.items page.next_offset

  paginate-items :
      (items : List T) (offset : ℕ) (limit : Option ℤ)
      → (paginate items (some (pos offset)) limit).items
        ≡ take (at_least 1 limit) (drop offset items)
  unfolding paginate at_least
  paginate-items items offset limit =
      let start : max 0 offset ≡ offset = omega arith in rw start refl

  drop-drop : (m n : ℕ) (xs : List T) → drop n (drop m xs) ≡ drop (m + n) xs
  drop-drop zero n xs = let e : 0 + n ≡ n = omega arith in rw e refl
  drop-drop (suc m) zero [] = let e : suc m + 0 ≡ suc m = omega arith in rw e refl
  drop-drop (suc m) (suc n) [] = let e : suc m + suc n ≡ suc (m + suc n) = omega arith in rw e refl
  drop-drop (suc m) n (x ∷ xs) =
      let e : suc m + n ≡ suc (m + n) = omega arith in rw e (drop-drop m n xs)

  take-drop-length : (n : ℕ) (xs : List T) → take n xs ++ drop (length (take n xs)) xs ≡ xs
  take-drop-length zero xs = refl
  take-drop-length (suc n) [] = refl
  take-drop-length (suc n) (x ∷ xs) = ap (◌∷◌ x) (take-drop-length n xs)

  take-all : (n : ℕ) (xs : List T) → length xs ≤ length (take n xs) → take n xs ≡ xs
  take-all zero [] h = refl
  take-all zero (x ∷ xs) h = absurd (omega (arith, h))
  take-all (suc n) [] h = refl
  take-all (suc n) (x ∷ xs) h = ap (◌∷◌ x) (take-all n xs (omega (arith, h)))

  drop-all : (n : ℕ) (xs : List T) → length xs ≤ n → drop n xs ≡ []
  drop-all zero [] h = refl
  drop-all zero (x ∷ xs) h = absurd (omega (arith, h))
  drop-all (suc n) [] h = refl
  drop-all (suc n) (x ∷ xs) h = drop-all n xs (omega (arith, h))

  page_size :
      (offset : ℕ) (items : List T) (limit : Option ℤ)
      → length (take (at_least 1 limit) (drop offset items))
        ≡ min (at_least 1 limit) (length items - offset)
  page_size offset items limit =
      length-take (at_least 1 limit) (drop offset items)
      ∙ ap (min (at_least 1 limit)) (length-drop offset items)

  -- Reading page after page from an offset gives all items from there on, each once and in order,
  -- whatever the limit, if more pages may be asked for than there are items left.
  pub read_pages-drop :
      (fuel : ℕ) (items : List T) (offset : ℕ) (limit : Option ℤ)
      → length items < offset + fuel
      → read_pages fuel items (some (pos offset)) limit ≡ drop offset items
  unfolding read_pages
  read_pages-drop zero items offset limit enough =
      sym (drop-all offset items (omega (arith, enough)))
  read_pages-drop (suc fuel) items offset limit enough =
      let rest = drop offset items in
      let page = take (at_least 1 limit) rest in
      let size = page_size offset items limit in
      let positive = one-at_least limit in
      elim (Bool-cases (ltb (offset + length page) (length items))) [
        | inl more ↦
            let enough' : length items < offset + length page + fuel =
              ground (arith, more, enough, size, positive) in
            rw (paginate-items items offset limit) rw (at_least-pos offset) rw more rw
              (read_pages-drop fuel items (offset + length page) limit enough') rw⁻¹
              (drop-drop offset (length page) items) (take-drop-length (at_least 1 limit) rest)
        | inr last ↦ rw (paginate-items items offset limit) rw (at_least-pos offset) rw last (
            take-all (at_least 1 limit) rest
              (ground (arith, last, size, positive, length-drop offset items)))
      ]
