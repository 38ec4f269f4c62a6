-- ===== src/Pack/Arms.antt =====
-- What a step does to the lengths of the pack's lists, and to the report of what was cut.
use polis_memory.Prelude.{
  ℕ, zero, suc, ◌-◌, ◌≡◌, refl, ap, sym, ◌∙◌, ◌⊎◌, inl, inr, List, [], ◌∷◌, arith, length,
  length-take, Option-cases,
}
use polis_memory.Prelude.Text.{Text, codes}
use polis_memory.Pack.{
  AnswerPack, Step, trim_browse_hits, trim_prompt_hits, trim_links, trim_grep_hits, trim_claims,
  trim_shared_hits, trim_matched_nodes, trim_observations, trim_grandchildren, trim_children,
  trim_notes, name, truncate, len, drop,
}

abbrev rank : Step → ℕ
rank trim_browse_hits = 0
rank trim_prompt_hits = 1
rank trim_links = 2
rank trim_grep_hits = 3
rank trim_claims = 4
rank trim_shared_hits = 5
rank trim_matched_nodes = 6
rank trim_observations = 7
rank trim_grandchildren = 8
rank trim_children = 9
rank trim_notes = 10

abbrev nth : List ℕ → ℕ → ℕ
nth [] i = 0
nth (x ∷ xs) zero = x
nth (x ∷ xs) (suc i) = nth xs i

abbrev sub_at : ℕ → ℕ → List ℕ → List ℕ
sub_at i n [] = []
sub_at zero n (x ∷ xs) = (x - n) ∷ xs
sub_at (suc i) n (x ∷ xs) = x ∷ sub_at i n xs

nth-sub_at : (i n : ℕ) (xs : List ℕ) → nth (sub_at i n xs) i ≡ nth xs i - n
nth-sub_at i n [] = omega arith
nth-sub_at zero n (x ∷ xs) = refl
nth-sub_at (suc i) n (x ∷ xs) = nth-sub_at i n xs

nth-sub_at_other : (i j n : ℕ) (xs : List ℕ) → (i ≡ j) ⊎ (nth (sub_at i n xs) j ≡ nth xs j)
nth-sub_at_other i j n [] = inr refl
nth-sub_at_other zero zero n (x ∷ xs) = inl refl
nth-sub_at_other zero (suc j) n (x ∷ xs) = inr refl
nth-sub_at_other (suc i) zero n (x ∷ xs) = inr refl
nth-sub_at_other (suc i) (suc j) n (x ∷ xs) = elim (nth-sub_at_other i j n xs) [
  | inl e ↦ inl (ap suc e)
  | inr e ↦ inr e
]

abbrev pick : List Text → ℕ → Text
pick [] i = []
pick (t ∷ ts) zero = t
pick (t ∷ ts) (suc i) = pick ts i

abbrev name_at : ℕ → Text
name_at = pick (
    codes "browseHits"
    ∷ codes "promptHits"
    ∷ codes "links"
    ∷ codes "grepHits"
    ∷ codes "claims"
    ∷ codes "sharedHits"
    ∷ codes "matchedNodes"
    ∷ codes "observations"
    ∷ codes "grandchildren"
    ∷ codes "children"
    ∷ codes "notes"
    ∷ [])

name-rank : (s : Step) → name s ≡ name_at (rank s)
name-rank trim_browse_hits = refl
name-rank trim_prompt_hits = refl
name-rank trim_links = refl
name-rank trim_grep_hits = refl
name-rank trim_claims = refl
name-rank trim_shared_hits = refl
name-rank trim_matched_nodes = refl
name-rank trim_observations = refl
name-rank trim_grandchildren = refl
name-rank trim_children = refl
name-rank trim_notes = refl

zero_sub : (n : ℕ) → 0 - n ≡ 0
zero_sub n = omega arith

module _ {ℓ} {A : Type ℓ} where
  length-truncate : (n : ℕ) (xs : List A) → length (truncate n xs) ≡ length xs - n
  length-truncate n xs = omega (arith, length-take (length xs - n) xs)

module _ {Item : Type 0} where
  abbrev pub counts : AnswerPack Item → List ℕ
  counts p =
      len trim_browse_hits p
      ∷ len trim_prompt_hits p
      ∷ len trim_links p
      ∷ len trim_grep_hits p
      ∷ len trim_claims p
      ∷ len trim_shared_hits p
      ∷ len trim_matched_nodes p
      ∷ len trim_observations p
      ∷ len trim_grandchildren p
      ∷ len trim_children p
      ∷ len trim_notes p
      ∷ []

  len-rank : (s : Step) (p : AnswerPack Item) → len s p ≡ nth (counts p) (rank s)
  len-rank trim_browse_hits p = refl
  len-rank trim_prompt_hits p = refl
  len-rank trim_links p = refl
  len-rank trim_grep_hits p = refl
  len-rank trim_claims p = refl
  len-rank trim_shared_hits p = refl
  len-rank trim_matched_nodes p = refl
  len-rank trim_observations p = refl
  len-rank trim_grandchildren p = refl
  len-rank trim_children p = refl
  len-rank trim_notes p = refl

  counts-drop :
      (s : Step) (n : ℕ) (p : AnswerPack Item) → counts (drop s n p) ≡ sub_at (rank s) n (counts p)
  counts-drop trim_browse_hits n p = rw (length-truncate n p.browse_hits) refl
  counts-drop trim_prompt_hits n p = rw (length-truncate n p.prompt_hits) refl
  counts-drop trim_links n p = elim (Option-cases p.node) [
    | inl q ↦ rw (q, zero_sub n) refl
    | inr (node, q) ↦ rw (q, length-truncate n node.links) refl
  ]
  counts-drop trim_grep_hits n p = rw (length-truncate n p.grep_hits) refl
  counts-drop trim_claims n p = rw (length-truncate n p.claims) refl
  counts-drop trim_shared_hits n p = rw (length-truncate n p.shared_hits) refl
  counts-drop trim_matched_nodes n p = rw (length-truncate n p.matched_nodes) refl
  counts-drop trim_observations n p = elim (Option-cases p.node) [
    | inl q ↦ rw (q, zero_sub n) refl
    | inr (node, q) ↦ rw (q, length-truncate n node.observations) refl
  ]
  counts-drop trim_grandchildren n p = elim (Option-cases p.node) [
    | inl q ↦ rw (q, zero_sub n) refl
    | inr (node, q) ↦ rw (q, length-truncate n node.grandchildren) refl
  ]
  counts-drop trim_children n p = elim (Option-cases p.node) [
    | inl q ↦ rw (q, zero_sub n) refl
    | inr (node, q) ↦ rw (q, length-truncate n node.children) refl
  ]
  counts-drop trim_notes n p = rw (length-truncate n p.notes) refl

  pub len-drop : (s : Step) (n : ℕ) (p : AnswerPack Item) → len s (drop s n p) ≡ len s p - n
  len-drop s n p =
      len-rank s (drop s n p)
      ∙ ap (λ xs. nth xs (rank s)) (counts-drop s n p)
      ∙ nth-sub_at (rank s) n (counts p)
      ∙ ap (λ k. k - n) (sym (len-rank s p))

  -- Another list is left alone; the same list has the same name.
  pub len-drop_other :
      (s t : Step) (n : ℕ) (p : AnswerPack Item)
      → ((name t ≡ name s) × (len t p ≡ len s p) × (len t (drop s n p) ≡ len t p - n))
        ⊎ (len t (drop s n p) ≡ len t p)
  len-drop_other s t n p = elim (nth-sub_at_other (rank s) (rank t) n (counts p)) [
    | inl e ↦ inl (
      name-rank t ∙ ap name_at (sym e) ∙ sym (name-rank s),
      len-rank t p ∙ ap (nth (counts p)) (sym e) ∙ sym (len-rank s p),
      len-rank t (drop s n p)
          ∙ ap (λ xs. nth xs (rank t)) (counts-drop s n p)
          ∙ ap (λ i. nth (sub_at i n (counts p)) (rank t)) e
          ∙ nth-sub_at (rank t) n (counts p)
          ∙ ap (λ k. k - n) (sym (len-rank t p)),
    )
    | inr e ↦ inr (
        len-rank t (drop s n p)
        ∙ ap (λ xs. nth xs (rank t)) (counts-drop s n p)
        ∙ e
        ∙ sym (len-rank t p))
  ]

  pub drop-truncated :
      (s : Step) (n : ℕ) (p : AnswerPack Item) → (drop s n p).truncated ≡ p.truncated
  drop-truncated trim_browse_hits n p = refl
  drop-truncated trim_prompt_hits n p = refl
  drop-truncated trim_links n p = refl
  drop-truncated trim_grep_hits n p = refl
  drop-truncated trim_claims n p = refl
  drop-truncated trim_shared_hits n p = refl
  drop-truncated trim_matched_nodes n p = refl
  drop-truncated trim_observations n p = refl
  drop-truncated trim_grandchildren n p = refl
  drop-truncated trim_children n p = refl
  drop-truncated trim_notes n p = refl

  pub len-counts : (t : Step) (p q : AnswerPack Item) → counts p ≡ counts q → len t p ≡ len t q
  len-counts t p q e = len-rank t p ∙ ap (λ xs. nth xs (rank t)) e ∙ sym (len-rank t q)
