-- ===== src/Tasks/Pick.antt =====
-- Taking one item out of a list.
use mcp_adapter.Prelude.{Bool, true, List, ◌∷◌, ◌≡◌, ◌⊎◌, refl, inl, inr, arith, all, and→both}

pub data Pick {ℓ} {A : Type ℓ} : A → List A → List A → Type ℓ where
  here : {x : A} {xs : List A} → Pick x xs (x ∷ xs)
  there : {x y : A} {rest xs : List A} → Pick x rest xs → Pick x (y ∷ rest) (y ∷ xs)

-- Two items that are taken out are one, or either can be taken out of what the other leaves.
pub Pick-two {ℓ} :
    {A : Type ℓ} {x y : A} {rest left xs : List A}
    → Pick x rest xs
    → Pick y left xs
    → ((x ≡ y) × (rest ≡ left)) ⊎ ((both : List A) × Pick y both rest × Pick x both left)
Pick-two here here = inl (refl, refl)
Pick-two {rest = rest} here (there q) = inr (_, q, here)
Pick-two (there p) here = inr (_, here, p)
Pick-two {y = y} (there {y = z} p) (there q) = elim (Pick-two p q) [
  | inl (same, equal) ↦ inl (same, rw equal refl)
  | inr (both, q', p') ↦ inr (z ∷ both, there q', there p')
]

pub all-Pick {ℓ} :
    {A : Type ℓ} {x : A} {rest xs : List A} (f : A → Bool)
    → Pick x rest xs
    → all f xs ≡ true
    → (f x ≡ true) × (all f rest ≡ true)
all-Pick {x = x} f (here {xs = xs}) h = and→both (f x) (all f xs) h
all-Pick f (there {y = y} {xs = xs} p) h =
    let b = and→both (f y) (all f xs) h in
    let r = all-Pick f p b.1 in (r.0, ground (arith, b.0, r.1))

pub Pick-all {ℓ} :
    {A : Type ℓ} {x : A} {rest xs : List A} (f : A → Bool)
    → Pick x rest xs
    → f x ≡ true
    → all f rest ≡ true
    → all f xs ≡ true
Pick-all f here a r = ground (arith, a, r)
Pick-all f (there {y = y} {rest = rest} p) a r =
    let b = and→both (f y) (all f rest) r in
    let later = Pick-all f p a b.1 in ground (arith, b.0, later)
