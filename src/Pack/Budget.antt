-- ===== src/Pack/Budget.antt =====
-- `enforce_pack_budget_bytes` of crates/polis-core/src/pack.rs: the budget, the floors, the report.
use polis_memory.Prelude.{
  ℕ, ◌≤◌, ◌≡◌, refl, ap, sym, ◌∙◌, subst, ◌⊎◌, inl, inr, true, false, ◌&&◌, none, some, List, [],
  ◌∷◌, ◌++◌, arith, is_some, Bool-cases, Option-cases, ltb, leb, All, any,
}
use polis_memory.Prelude.Text.{Text, codes, text_eq}
use polis_memory.Pack.{
  AnswerPack, PackNode, Step, steps, trim_browse_hits, trim_prompt_hits, trim_links, trim_grep_hits,
  trim_claims, trim_shared_hits, trim_matched_nodes, trim_observations, trim_grandchildren,
  trim_children, trim_notes, name, len, pass, trim_step, empty_step, take_node, take_query,
  clip_metadata,
}
use polis_memory.Pack.Arms.{counts, len-counts}
use polis_memory.Pack.Loops.{
  Follows, Follows-refl, Follows-trans, Floors, IsReported, any-append, trim_step-Floors,
  empty_step-Follows, empty_step_stops,
}

module _ {Item : Type 0} (size : AnswerPack Item → ℕ) (max_bytes : ℕ) where
  pub pass-Follows :
      (step : Step → AnswerPack Item → AnswerPack Item) (ss : List Step) (p : AnswerPack Item)
      → ((s : Step) (q : AnswerPack Item) → Follows q (step s q))
      → Follows p (pass size max_bytes step ss p).1
  unfolding pass
  pass-Follows step [] p each = Follows-refl p
  pass-Follows step (s ∷ ss) p each = elim (Bool-cases (leb (size (step s p)) max_bytes)) [
    | inl fits ↦ rw (fits, pass) (each s p)
    | inr over ↦
        rw (over, pass)
          (Follows-trans p (step s p) _ (each s p) (pass-Follows step ss (step s p) each))
  ]

  pub pass-Floors :
      (ss : List Step) (p : AnswerPack Item)
      → Floors p (pass size max_bytes (trim_step size max_bytes) ss p).1
  unfolding pass
  pass-Floors [] p t = omega arith
  pass-Floors (s ∷ ss) p t =
      let q = trim_step size max_bytes s p in
      elim (Bool-cases (leb (size q) max_bytes)) [
        | inl fits ↦ rw (fits, pass) (trim_step-Floors size max_bytes s p t)
        | inr over ↦
            rw (over, pass)
              (omega (arith, trim_step-Floors size max_bytes s p t, pass-Floors ss q t))
      ]

  -- An early return is within the budget; a full pass of the second kind has emptied every list.
  pub pass_fits :
      (step : Step → AnswerPack Item → AnswerPack Item) (ss : List Step) (p : AnswerPack Item)
      → (pass size max_bytes step ss p).0 ≡ true
      → size (pass size max_bytes step ss p).1 ≤ max_bytes
  unfolding pass
  pass_fits step [] p q = cc
  pass_fits step (s ∷ ss) p q = elim (Bool-cases (leb (size (step s p)) max_bytes)) [
    | inl fits ↦ rw (fits, pass) (ground (arith, fits))
    | inr over ↦ rw (over, pass) (pass_fits step ss (step s p) (rw (over, pass) at q))
  ]

  pass_goes_on :
      (step : Step → AnswerPack Item → AnswerPack Item) (s : Step) (ss : List Step)
      (p : AnswerPack Item)
      → leb (size (step s p)) max_bytes ≡ false
      → pass size max_bytes step (s ∷ ss) p ≡ pass size max_bytes step ss (step s p)
  unfolding pass
  pass_goes_on step s ss p over = rw (over, pass) refl

  pass_returns :
      (step : Step → AnswerPack Item → AnswerPack Item) (s : Step) (ss : List Step)
      (p : AnswerPack Item)
      → leb (size (step s p)) max_bytes ≡ true
      → (pass size max_bytes step (s ∷ ss) p).0 ≡ true
  unfolding pass
  pass_returns step s ss p fits = rw (fits, pass) refl

  pub pass_empties :
      (ss : List Step) (p : AnswerPack Item)
      → (pass size max_bytes (empty_step size max_bytes) ss p).0 ≡ false
      → All (λ s. len s (pass size max_bytes (empty_step size max_bytes) ss p).1 ≡ 0) ss
  pass_empties [] p q = tt
  pass_empties (s ∷ ss) p q =
      let r = empty_step size max_bytes s p in
      elim (Bool-cases (leb (size r) max_bytes)) [
        | inl fits ↦ absurd (apart (sym (pass_returns (empty_step size max_bytes) s ss p fits) ∙ q))
        | inr over ↦
            let emptied = empty_step_stops size max_bytes s p (ground (arith, over)) in
            let later =
              pass-Follows (empty_step size max_bytes) ss r (empty_step-Follows size max_bytes) in
            let path = pass_goes_on (empty_step size max_bytes) s ss p over in
            subst (λ x. All (λ u. len u x.1 ≡ 0) (s ∷ ss)) (sym path)
              (
                omega (arith, emptied, later.shrinks s),
                pass_empties ss r (ap (λ x. x.0) (sym path) ∙ q),
              )
      ]
    where
      apart : true ≡ false → ⊥
      apart x = cc

  -- Every step is in the table.
  pub at_step : (P : Step → Type 0) → All P steps → (s : Step) → P s
  at_step P a trim_browse_hits = a.0
  at_step P a trim_prompt_hits = a.1.0
  at_step P a trim_links = a.1.1.0
  at_step P a trim_grep_hits = a.1.1.1.0
  at_step P a trim_claims = a.1.1.1.1.0
  at_step P a trim_shared_hits = a.1.1.1.1.1.0
  at_step P a trim_matched_nodes = a.1.1.1.1.1.1.0
  at_step P a trim_observations = a.1.1.1.1.1.1.1.0
  at_step P a trim_grandchildren = a.1.1.1.1.1.1.1.1.0
  at_step P a trim_children = a.1.1.1.1.1.1.1.1.1.0
  at_step P a trim_notes = a.1.1.1.1.1.1.1.1.1.1.0

  no_node :
      (s : Step) (p : AnswerPack Item) (names : List Text)
      → len s (record p { node = none; truncated = names }) ≤ len s p
  no_node trim_browse_hits p names = omega arith
  no_node trim_prompt_hits p names = omega arith
  no_node trim_links p names = omega arith
  no_node trim_grep_hits p names = omega arith
  no_node trim_claims p names = omega arith
  no_node trim_shared_hits p names = omega arith
  no_node trim_matched_nodes p names = omega arith
  no_node trim_observations p names = omega arith
  no_node trim_grandchildren p names = omega arith
  no_node trim_children p names = omega arith
  no_node trim_notes p names = omega arith

  module _ (p : AnswerPack Item) where
    take_node-cases :
        ((take_node size max_bytes p ≡ p) × ((size p ≤ max_bytes) ⊎ (p.node ≡ none)))
        ⊎ (take_node size max_bytes p
            ≡ record p { node = none; truncated = p.truncated ++ codes "node" ∷ [] })
    take_node-cases = elim (Bool-cases (ltb max_bytes (size p) && is_some p.node)) [
      | inl take ↦ inr (rw take refl)
      | inr keep ↦ inl (rw keep refl, why (Option-cases p.node) keep)
    ]
      where
        why :
            (p.node ≡ none) ⊎ ((n : PackNode Item) × (p.node ≡ some n))
            → (ltb max_bytes (size p) && is_some p.node) ≡ false
            → (size p ≤ max_bytes) ⊎ (p.node ≡ none)
        why (inl gone) k = inr gone
        why (inr (n, there)) k = inl (ground (arith, k, there))

    take_query-cases :
        ((take_query size max_bytes p ≡ p) × ((size p ≤ max_bytes) ⊎ (p.query ≡ none)))
        ⊎ (take_query size max_bytes p
            ≡ record p { query = none; truncated = p.truncated ++ codes "query" ∷ [] })
    take_query-cases = elim (Bool-cases (ltb max_bytes (size p) && is_some p.query)) [
      | inl take ↦ inr (rw take refl)
      | inr keep ↦ inl (rw keep refl, why (Option-cases p.query) keep)
    ]
      where
        why :
            (p.query ≡ none) ⊎ ((t : Text) × (p.query ≡ some t))
            → (ltb max_bytes (size p) && is_some p.query) ≡ false
            → (size p ≤ max_bytes) ⊎ (p.query ≡ none)
        why (inl gone) k = inr gone
        why (inr (t, there)) k = inl (ground (arith, k, there))

    take_query_fits : size p ≤ max_bytes → take_query size max_bytes p ≡ p
    take_query_fits le = rw (fits) refl
      where
        fits : ltb max_bytes (size p) ≡ false
        fits = ground (arith, le)

    clip_metadata_fits : size p ≤ max_bytes → clip_metadata size max_bytes p ≡ p
    clip_metadata_fits le = rw (fits) refl
      where
        fits : ltb max_bytes (size p) ≡ false
        fits = ground (arith, le)

    clip_metadata_rest :
        ((clip_metadata size max_bytes p).node ≡ p.node)
        × ((clip_metadata size max_bytes p).query ≡ p.query)
        × ((clip_metadata size max_bytes p).truncated ≡ p.truncated)
        × (counts (clip_metadata size max_bytes p) ≡ counts p)
    clip_metadata_rest = elim (Bool-cases (ltb max_bytes (size p))) [
      | inl over ↦ (rw over refl, rw over refl, rw over refl, rw over refl)
      | inr fits ↦ (rw fits refl, rw fits refl, rw fits refl, rw fits refl)
    ]

  abbrev pub last_resorts : AnswerPack Item → AnswerPack Item
  last_resorts p =
      clip_metadata size max_bytes (take_query size max_bytes (take_node size max_bytes p))

  -- Within the budget, or nothing is left to give.
  abbrev pub Spent : AnswerPack Item → Type 0
  Spent p = (size p ≤ max_bytes) ⊎ ((p.node ≡ none) × (p.query ≡ none))

  within :
      (p : AnswerPack Item)
      → size p ≤ max_bytes
      → Spent (clip_metadata size max_bytes (take_query size max_bytes p))
  within p fits =
      let same =
        ap (clip_metadata size max_bytes) (take_query_fits p fits) ∙ clip_metadata_fits p fits in
      inl (subst (λ q. size q ≤ max_bytes) (sym same) fits)

  after_query :
      (p : AnswerPack Item)
      → (size p ≤ max_bytes) ⊎ (p.node ≡ none)
      → Spent (clip_metadata size max_bytes (take_query size max_bytes p))
  after_query p (inl fits) = within p fits
  after_query p (inr gone) = elim (take_query-cases p) [
    | inl kept ↦ elim kept.1 [
      | inl fits ↦ within p fits
      | inr none_left ↦
          let q = take_query size max_bytes p in
          let rest = clip_metadata_rest q in
          inr
            (rest.0 ∙ ap (λ x. x.node) kept.0 ∙ gone, rest.1 ∙ ap (λ x. x.query) kept.0 ∙ none_left)
    ]
    | inr taken ↦
        let rest = clip_metadata_rest (take_query size max_bytes p) in
        inr (rest.0 ∙ ap (λ x. x.node) taken ∙ gone, rest.1 ∙ ap (λ x. x.query) taken)
  ]

  pub last_resorts-Spent : (p : AnswerPack Item) → Spent (last_resorts p)
  last_resorts-Spent p = elim (take_node-cases p) [
    | inl kept ↦
        after_query (take_node size max_bytes p)
          (subst (λ q. (size q ≤ max_bytes) ⊎ (q.node ≡ none)) (sym kept.0) kept.1)
    | inr taken ↦ after_query (take_node size max_bytes p) (inr (ap (λ x. x.node) taken))
  ]

  pub last_resorts_shrink : (s : Step) (p : AnswerPack Item) → len s (last_resorts p) ≤ len s p
  last_resorts_shrink s p =
      let a = take_node size max_bytes p in
      let b = take_query size max_bytes a in
      let clipped = len-counts s (clip_metadata size max_bytes b) b (clip_metadata_rest b).3 in
      let queried : len s b ≡ len s a = elim (take_query-cases a) [
        | inl kept ↦ ap (len s) kept.0
        | inr taken ↦ ap (len s) taken ∙ len-counts s _ a refl
      ] in
      let noded : len s a ≤ len s p = elim (take_node-cases p) [
        | inl kept ↦ omega (arith, ap (len s) kept.0)
        | inr taken ↦
            omega (arith, ap (len s) taken, no_node s p (p.truncated ++ codes "node" ∷ []))
      ] in
      omega (arith, clipped, queried, noded)

  pub last_resorts_remember :
      (t : Step) (p : AnswerPack Item) → IsReported t p → IsReported t (last_resorts p)
  last_resorts_remember t p named =
      let a = take_node size max_bytes p in
      let b = take_query size max_bytes a in
      let noded : IsReported t a = elim (take_node-cases p) [
        | inl kept ↦ subst (IsReported t) (sym kept.0) named
        | inr taken ↦
            subst (IsReported t) (sym taken)
              (any-append (λ x. text_eq x (name t)) p.truncated (codes "node" ∷ []) named)
      ] in
      let queried : IsReported t b = elim (take_query-cases a) [
        | inl kept ↦ subst (IsReported t) (sym kept.0) noded
        | inr taken ↦
            subst (IsReported t) (sym taken)
              (any-append (λ x. text_eq x (name t)) a.truncated (codes "query" ∷ []) noded)
      ] in
      subst (λ xs. any (λ x. text_eq x (name t)) xs ≡ true) (sym (clip_metadata_rest b).2) queried
