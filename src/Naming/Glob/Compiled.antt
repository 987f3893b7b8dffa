-- ===== src/Naming/Glob/Compiled.antt =====
-- The regular expression that a glob is compiled to, and what it matches.
use mcp_adapter.Prelude.{
  ℕ, true, false, some, List, [], ◌∷◌, ◌≡◌, ◌≢◌, ◌⊎◌, ◌↔◌, inl, inr, refl, arith, ap, sym,
  if◌then◌else◌, nat_beq, Bool, Bool-cases,
}
use mcp_adapter.Naming.Glob.{
  line_end, star, question, dot, backslash, is_special, is_syntax, escape_special, replace_stars,
  replace_questions, glob_source, Atom, literal, any_unit, any_units, cons_atom, read_source,
  test_atoms, test_source, glob_match,
}

-- `Matches p s`: the whole of `s` fits the glob `p`.
pub data Matches : List ℕ → List ℕ → Type 0 where
  done : Matches [] []
  skip : {p : ℕ} {ps s : List ℕ} → p ≡ star → Matches ps s → Matches (p ∷ ps) s
  eat :
      {p c : ℕ} {ps s : List ℕ}
      → p ≡ star
      → line_end c ≡ false
      → Matches (p ∷ ps) s
      → Matches (p ∷ ps) (c ∷ s)
  one :
      {p c : ℕ} {ps s : List ℕ}
      → p ≡ question
      → line_end c ≡ false
      → Matches ps s
      → Matches (p ∷ ps) (c ∷ s)
  same :
      {p c : ℕ} {ps s : List ℕ}
      → p ≢ star
      → p ≢ question
      → p ≡ c
      → Matches ps s
      → Matches (p ∷ ps) (c ∷ s)

-- Whether a name fits a glob, by recursion on both.
fits_units : List ℕ → List ℕ → Bool
fits_units [] [] = true
fits_units [] (c ∷ s) = false
fits_units (p ∷ ps) [] = let rest = fits_units ps [] in if nat_beq p star then rest else false
fits_units (p ∷ ps) (c ∷ s) =
    let none_taken = fits_units ps (c ∷ s) in
    let one_taken = fits_units (p ∷ ps) s in
    let both_step = fits_units ps s in
    if nat_beq p star
    then (if none_taken then true else if line_end c then false else one_taken)
    else if nat_beq p question
    then (if line_end c then false else both_step)
    else if nat_beq p c
    then both_step
    else false

fits_units_sound : (p s : List ℕ) → fits_units p s ≡ true → Matches p s
unfolding fits_units
fits_units_sound [] [] h = done
fits_units_sound [] (c ∷ s) h = cc
fits_units_sound (p ∷ ps) [] h = elim (Bool-cases (nat_beq p star)) [
  | inl e ↦ skip (ground arith) (fits_units_sound ps [] (ground arith))
  | inr e ↦ absurd (ground arith)
]
fits_units_sound (p ∷ ps) (c ∷ s) h = elim (Bool-cases (nat_beq p star)) [
  | inl e ↦ elim (Bool-cases (fits_units ps (c ∷ s))) [
    | inl more ↦ skip (ground arith) (fits_units_sound ps (c ∷ s) more)
    | inr less ↦ eat (ground arith) (ground arith) (fits_units_sound (p ∷ ps) s (ground arith))
  ]
  | inr e ↦ elim (Bool-cases (nat_beq p question)) [
    | inl q ↦ one (ground arith) (ground arith) (fits_units_sound ps s (ground arith))
    | inr q ↦
        same (ground arith) (ground arith) (ground arith) (fits_units_sound ps s (ground arith))
  ]
]

fits_units-star :
    (p : ℕ) (ps s : List ℕ) → p ≡ star → fits_units ps s ≡ true → fits_units (p ∷ ps) s ≡ true
unfolding fits_units
fits_units-star p ps [] e h = ground arith
fits_units-star p ps (c ∷ s) e h = ground arith

fits_units_complete : {p s : List ℕ} → Matches p s → fits_units p s ≡ true
unfolding fits_units
fits_units_complete done = refl
fits_units_complete (skip {p} {ps} {s} e m) = fits_units-star p ps s e (fits_units_complete m)
fits_units_complete (eat e l m) = let ih = fits_units_complete m in ground arith
fits_units_complete (one e l m) = let ih = fits_units_complete m in ground arith
fits_units_complete (same n q e m) = let ih = fits_units_complete m in ground arith

-- The atoms that a glob means.
abbrev atom_of : ℕ → Atom
atom_of p = if nat_beq p star then any_units else if nat_beq p question then any_unit else literal p

atoms_of : List ℕ → List Atom
atoms_of [] = []
atoms_of (p ∷ ps) = atom_of p ∷ atoms_of ps

test_atoms-atoms_of : (p s : List ℕ) → test_atoms (atoms_of p) s ≡ fits_units p s
unfolding test_atoms atoms_of fits_units
test_atoms-atoms_of [] [] = refl
test_atoms-atoms_of [] (c ∷ s) = refl
test_atoms-atoms_of (p ∷ ps) [] = elim (Bool-cases (nat_beq p star)) [
  | inl e ↦ rw e (test_atoms-atoms_of ps [])
  | inr e ↦ elim (Bool-cases (nat_beq p question)) [
    | inl q ↦ rw e rw q refl
    | inr q ↦ rw e rw q refl
  ]
]
test_atoms-atoms_of (p ∷ ps) (c ∷ s) =
    let skipped = test_atoms-atoms_of ps (c ∷ s) in
    let eaten = test_atoms-atoms_of (p ∷ ps) s in
    let both = test_atoms-atoms_of ps s in
    elim (Bool-cases (nat_beq p star)) [
      | inl e ↦
          let eaten' : test_atoms (any_units ∷ atoms_of ps) s ≡ fits_units (p ∷ ps) s =
            rw e at eaten in
          rw e rw skipped rw eaten' refl
      | inr e ↦ elim (Bool-cases (nat_beq p question)) [
        | inl q ↦ rw e rw q rw both refl
        | inr q ↦ rw e rw q rw both refl
      ]
    ]

-- The source of a glob, unit by unit.
glob_source-special :
    (c : ℕ) (p : List ℕ) → is_special c ≡ true → glob_source (c ∷ p) ≡ backslash ∷ c ∷ glob_source p
unfolding glob_source escape_special replace_stars replace_questions
glob_source-special c p h = ground arith

glob_source-star : (p : List ℕ) → glob_source (star ∷ p) ≡ dot ∷ star ∷ glob_source p
unfolding glob_source escape_special replace_stars replace_questions
glob_source-star p = refl

glob_source-question : (p : List ℕ) → glob_source (question ∷ p) ≡ dot ∷ glob_source p
unfolding glob_source escape_special replace_stars replace_questions
glob_source-question p = refl

glob_source-plain :
    (c : ℕ) (p : List ℕ) → is_syntax c ≡ false → glob_source (c ∷ p) ≡ c ∷ glob_source p
unfolding glob_source escape_special replace_stars replace_questions
glob_source-plain c p h = ground arith

-- The source does not begin with a quantifier.
abbrev not_star : List ℕ → Bool
not_star [] = true
not_star (c ∷ s) = if nat_beq c star then false else true

unit_cases : (c : ℕ) → (is_special c ≡ true) ⊎ (c ≡ star) ⊎ (c ≡ question) ⊎ (is_syntax c ≡ false)
unit_cases c = ground arith

not_star-glob_source : (p : List ℕ) → not_star (glob_source p) ≡ true
unfolding glob_source escape_special replace_stars replace_questions
not_star-glob_source [] = refl
not_star-glob_source (c ∷ p) = elim (unit_cases c) [
  | inl special ↦ rw (glob_source-special c p special) refl
  | inr rest ↦ elim rest [
    | inl e ↦ rw e refl
    | inr rest ↦ elim rest [
      | inl e ↦ rw e refl
      | inr plain ↦ rw (glob_source-plain c p plain) (ground (arith, plain))
    ]
  ]
]

read_source-escaped :
    (c : ℕ) (s : List ℕ)
    → is_special c ≡ true
    → read_source (backslash ∷ c ∷ s) ≡ cons_atom (literal c) (read_source s)
unfolding read_source
read_source-escaped c s h = rw h refl

read_source-plain :
    (c : ℕ) (s : List ℕ)
    → is_syntax c ≡ false
    → read_source (c ∷ s) ≡ cons_atom (literal c) (read_source s)
unfolding read_source
read_source-plain c [] h = ground (arith, h)
read_source-plain c (d ∷ s) h = ground (arith, h)

read_source-dot :
    (s : List ℕ) → not_star s ≡ true → read_source (dot ∷ s) ≡ cons_atom any_unit (read_source s)
unfolding read_source
read_source-dot [] h = refl
read_source-dot (d ∷ s) h = ground (arith, h)

read_source-nothing : read_source (glob_source []) ≡ some []
unfolding read_source glob_source replace_questions replace_stars escape_special
read_source-nothing = refl

read_source-stars :
    (s : List ℕ) → read_source (dot ∷ star ∷ s) ≡ cons_atom any_units (read_source s)
unfolding read_source
read_source-stars s = refl

atom_of-special : (c : ℕ) → is_special c ≡ true → atom_of c ≡ literal c
atom_of-special c h =
    let star_no : nat_beq c star ≡ false = ground (arith, h) in
    let question_no : nat_beq c question ≡ false = ground (arith, h) in
    rw star_no rw question_no refl

atom_of-plain : (c : ℕ) → is_syntax c ≡ false → atom_of c ≡ literal c
atom_of-plain c h =
    let star_no : nat_beq c star ≡ false = ground (arith, h) in
    let question_no : nat_beq c question ≡ false = ground (arith, h) in
    rw star_no rw question_no refl

read_source-glob_source : (p : List ℕ) → read_source (glob_source p) ≡ some (atoms_of p)
unfolding atoms_of cons_atom
read_source-glob_source [] = read_source-nothing
read_source-glob_source (c ∷ p) =
    let rest = read_source-glob_source p in
    elim (unit_cases c) [
      | inl special ↦
          rw (glob_source-special c p special) rw (read_source-escaped c (glob_source p) special) rw
            rest (ap (λ a. some (a ∷ atoms_of p)) (sym (atom_of-special c special)))
      | inr other ↦ elim other [
        | inl e ↦ rw e rw (glob_source-star p) rw (read_source-stars (glob_source p)) rw rest refl
        | inr other ↦ elim other [
          | inl e ↦
              rw e rw (glob_source-question p) rw
                (read_source-dot (glob_source p) (not_star-glob_source p)) rw rest refl
          | inr plain ↦
              rw (glob_source-plain c p plain) rw (read_source-plain c (glob_source p) plain) rw
                rest (ap (λ a. some (a ∷ atoms_of p)) (sym (atom_of-plain c plain)))
        ]
      ]
    ]

-- The regular expression that is compiled from a glob can be read, and it matches exactly the names
-- that fit the glob: `*` stands for any row of units without a line end, `?` for one such unit, and
-- every other unit, those with a meaning in regular expressions included, for itself.
pub glob_match_iff : (p s : List ℕ) → (glob_match p s ≡ true) ↔ Matches p s
unfolding glob_match test_source
glob_match_iff p s =
    rw (read_source-glob_source p) rw (test_atoms-atoms_of p s)
      (fits_units_sound p s, fits_units_complete)
