-- ===== src/Naming/Owner/Laws.antt =====
-- The server that a prefixed tool name resolves to.
use Prim.Native.String.{count}
use mcp_adapter.Prelude.{
  ◌≤◌, String, true, false, some, List, [], ◌∷◌, ◌≡◌, ◌∙◌, refl, sym, subst, false≢true, arith,
  eq_iff, All, AnyOf, any, inl, inr, Bool-cases, leb,
}
use mcp_adapter.Naming.Prefix.{ToolPrefix, server, no_prefix, short, mcp, get_server_prefix}
use mcp_adapter.Naming.Owner.{
  Candidate, claims, candidates_from, insert_candidate, sort_candidates, is_rival, pick,
  resolve_server_from_tool_name,
}

module _ (Q : Candidate → Type 0) where
  All-insert :
      (c : Candidate) (cs : List Candidate) → Q c → All Q cs → All Q (insert_candidate c cs)
  unfolding insert_candidate
  All-insert c [] q h = (q, tt)
  All-insert c (d ∷ ds) q h = ground (arith, All-insert c ds q h.1)

  insert-All :
      (c : Candidate) (cs : List Candidate) → All Q (insert_candidate c cs) → Q c × All Q cs
  unfolding insert_candidate
  insert-All c [] h = h
  insert-All c (d ∷ ds) h = ground (arith, insert-All c ds)

  All-sort : (cs : List Candidate) → All Q cs → All Q (sort_candidates cs)
  unfolding sort_candidates
  All-sort [] h = tt
  All-sort (c ∷ cs) h = All-insert c (sort_candidates cs) h.0 (All-sort cs h.1)

  sort-All : (cs : List Candidate) → All Q (sort_candidates cs) → All Q cs
  unfolding sort_candidates
  sort-All [] h = tt
  sort-All (c ∷ cs) h =
      let (here, rest) = insert-All c (sort_candidates cs) h in (here, sort-All cs rest)

-- The first entry is as long as any.
abbrev HeadIsLongest : List Candidate → Type 0
HeadIsLongest [] = Unit
HeadIsLongest (c ∷ cs) = All (λ d. count d.prefix ≤ count c.prefix) cs

All-le_trans :
    (c d : Candidate) (cs : List Candidate)
    → count d.prefix ≤ count c.prefix
    → All (λ x. count x.prefix ≤ count d.prefix) cs
    → All (λ x. count x.prefix ≤ count c.prefix) cs
All-le_trans c d [] h a = tt
All-le_trans c d (x ∷ xs) h a = (omega arith, All-le_trans c d xs h a.1)

insert-HeadIsLongest :
    (c : Candidate) (cs : List Candidate) → HeadIsLongest cs → HeadIsLongest (insert_candidate c cs)
unfolding insert_candidate
insert-HeadIsLongest c [] h = tt
insert-HeadIsLongest c (d ∷ ds) h = elim (Bool-cases (leb (count d.prefix) (count c.prefix))) [
  | inl longer ↦ rw (longer) ((ground arith, All-le_trans c d ds (ground arith) h))
  | inr shorter ↦
      rw (shorter) (All-insert (λ x. count x.prefix ≤ count d.prefix) c ds (ground arith) h)
]

sort-HeadIsLongest : (cs : List Candidate) → HeadIsLongest (sort_candidates cs)
unfolding sort_candidates
sort-HeadIsLongest [] = tt
sort-HeadIsLongest (c ∷ cs) = insert-HeadIsLongest c (sort_candidates cs) (sort-HeadIsLongest cs)

module _ (tool : String) (mode : ToolPrefix) where
  -- A server's prefix stands at the front of the tool name.
  abbrev pub Claims : String → Type 0
  Claims name = claims tool (get_server_prefix name mode) ≡ true

  abbrev IsCandidate : Candidate → Type 0
  IsCandidate c = (c.prefix ≡ get_server_prefix c.name mode) × Claims c.name

  candidates-IsCandidate : (names : List String) → All IsCandidate (candidates_from tool mode names)
  unfolding candidates_from
  candidates-IsCandidate [] = tt
  candidates-IsCandidate (name ∷ names) =
      elim (Bool-cases (claims tool (get_server_prefix name mode))) [
        | inl e ↦ rw e ((refl, e), candidates-IsCandidate names)
        | inr e ↦ rw e (candidates-IsCandidate names)
      ]

  -- What holds of every candidate holds of every name that claims the tool.
  names-All :
      (P : Candidate → Type 0) (names : List String)
      → All P (candidates_from tool mode names)
      → All (λ n. Claims n → P (record { name = n; prefix = get_server_prefix n mode })) names
  unfolding candidates_from
  names-All P [] h = tt
  names-All P (name ∷ names) h = elim (Bool-cases (claims tool (get_server_prefix name mode))) [
    | inl e ↦
        let h' : P (record { name = name; prefix = get_server_prefix name mode })
            × All P (candidates_from tool mode names) =
          rw e at h in
        (λ _. h'.0, names-All P names h'.1)
    | inr e ↦ (λ c. absurd (false≢true (sym e ∙ c)), names-All P names (rw e at h))
  ]

  not_rival :
      (best : Candidate) (cs : List Candidate)
      → any (is_rival best) cs ≡ false
      → All (λ c. c.prefix ≡ best.prefix → c.name ≡ best.name) cs
  not_rival best [] h = tt
  not_rival best (c ∷ cs) h = (
    λ e. ground (arith, eq_iff c.prefix best.prefix, eq_iff c.name best.name),
    not_rival best cs (ground arith),
  )

  candidates-All_names :
      (P : String → Type 0) (names : List String)
      → All P names
      → All (λ c. P c.name) (candidates_from tool mode names)
  unfolding candidates_from
  candidates-All_names P [] h = tt
  candidates-All_names P (name ∷ names) h =
      elim (Bool-cases (claims tool (get_server_prefix name mode))) [
        | inl e ↦ rw e (h.0, candidates-All_names P names h.1)
        | inr e ↦ rw e (candidates-All_names P names h.1)
      ]

  -- What it means that the tool belongs to the server `n`.
  pub record Owns (names : List String) (n : String) : Type 0 where
    pub configured : AnyOf (λ m. m ≡ n) names
    pub claims_tool : Claims n
    pub longest :
        All
          (λ m. Claims m → count (get_server_prefix m mode) ≤ count (get_server_prefix n mode))
          names
    pub unrivalled :
        All (λ m. Claims m → get_server_prefix m mode ≡ get_server_prefix n mode → m ≡ n) names

All-of_mem :
    (P : String → Type 0) (xs : List String)
    → ((x : String) → AnyOf (λ y. y ≡ x) xs → P x)
    → All P xs
All-of_mem P [] f = tt
All-of_mem P (x ∷ xs) f = (f x (inl refl), All-of_mem P xs (λ y m. f y (inr m)))

module _ (tool : String) (mode : ToolPrefix) (names : List String) where
  -- A list that holds just the candidates, the longest first.
  record IsRanking (sorted : List Candidate) : Type 1 where
    candidates : All (IsCandidate tool mode) sorted
    configured : All (λ c. AnyOf (λ m. m ≡ c.name) names) sorted
    longest : HeadIsLongest sorted
    complete : (P : Candidate → Type 0) → All P sorted → All P (candidates_from tool mode names)

  sort-IsRanking : IsRanking (sort_candidates (candidates_from tool mode names))
  sort-IsRanking =
      let found = candidates_from tool mode names in
      record {
        candidates =
            All-sort (IsCandidate tool mode) found (candidates-IsCandidate tool mode names);
        configured =
            All-sort (λ c. AnyOf (λ m. m ≡ c.name) names) found
              (candidates-All_names tool mode (λ n. AnyOf (λ m. m ≡ n) names) names
                (All-of_mem _ names (λ x m. m)));
        longest = sort-HeadIsLongest found;
        complete = λ P. sort-All P found;
      }

  best-Owns :
      (best : Candidate) (rest : List Candidate)
      → IsRanking (best ∷ rest)
      → any (is_rival best) (best ∷ rest) ≡ false
      → Owns tool mode names best.name
  best-Owns best rest r h =
      let own : best.prefix ≡ get_server_prefix best.name mode = r.candidates.0.0 in
      record {
        configured = r.configured.0;
        claims_tool = r.candidates.0.1;
        longest =
            names-All tool mode (λ c. count c.prefix ≤ count (get_server_prefix best.name mode))
              names
              (r.complete _ (
                subst (λ p. All (λ c. count c.prefix ≤ count p) (best ∷ rest)) own
                  (omega arith, r.longest)));
        unrivalled =
            names-All tool mode
              (λ c. c.prefix ≡ get_server_prefix best.name mode → c.name ≡ best.name) names
              (r.complete _ (
                subst (λ p. All (λ c. c.prefix ≡ p → c.name ≡ best.name) (best ∷ rest)) own
                  (not_rival tool mode best (best ∷ rest) h)));
      }

  pick-Owns :
      (sorted : List Candidate) (n : String)
      → IsRanking sorted
      → pick sorted ≡ some n
      → Owns tool mode names n
  unfolding pick
  pick-Owns [] n r h = cc
  pick-Owns (best ∷ rest) n r h =
      subst (Owns tool mode names) (ground arith) (best-Owns best rest r (ground arith))

-- A tool name resolves only to a configured server whose prefix it carries, with no configured
-- server of a longer prefix among those that claim the name and no other one of the same prefix.
pub resolve_server_from_tool_name-Owns :
    (tool : String) (names : List String) (mode : ToolPrefix) (n : String)
    → resolve_server_from_tool_name tool names mode ≡ some n
    → Owns tool mode names n
unfolding resolve_server_from_tool_name
resolve_server_from_tool_name-Owns tool names no_prefix n h = cc
resolve_server_from_tool_name-Owns tool names server n h =
    pick-Owns tool server names _ n (sort-IsRanking tool server names) h
resolve_server_from_tool_name-Owns tool names short n h =
    pick-Owns tool short names _ n (sort-IsRanking tool short names) h
resolve_server_from_tool_name-Owns tool names mcp n h =
    pick-Owns tool mcp names _ n (sort-IsRanking tool mcp names) h
