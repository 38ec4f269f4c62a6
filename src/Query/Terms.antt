-- ===== src/Query/Terms.antt =====
-- Which words of a query become terms (crates/polis-core/src/query.rs).
use polis_memory.Prelude.{
  ℕ, zero, suc, ap, ◌≤◌, ◌≡◌, refl, Bool, true, false, not, ◌&&◌, Option, none, some, List, [], ◌∷◌,
  ◌++◌, keep, arith, length, length-take, take, is_empty, or, keep_if, ◌⊎◌, Bool-cases, inl, inr,
  All, ◌↔◌,
}
use polis_memory.Prelude.Text.{Text, text_eq, trim}
use polis_memory.Query.{
  Chars, FtsPlan, is_stopword, is_token_char, dedup_neighbours, has_alphanumeric, pieces,
  is_lone_letter, content_of, all_stopwords_of, tokenize, terms_of, max_terms, plan_of,
  extract_phrases, is_thin, with_prior, plan_query_with_context, plan_fts_query,
}
use polis_memory.Query.Tokens.{tokenize_some}

module _ {A : Type 0} where
  keep-All : (p : A → Bool) (xs : List A) → All (λ x. p x ≡ true) (keep p xs)
  unfolding keep
  keep-All p [] = tt
  keep-All p (x ∷ xs) = elim (Bool-cases (p x)) [
    | inl yields ↦ rw (yields, keep) (yields, keep-All p xs)
    | inr fails ↦ rw (fails, keep) (keep-All p xs)
  ]

  All-keep : (P : A → Type 0) (p : A → Bool) (xs : List A) → All P xs → All P (keep p xs)
  unfolding keep
  All-keep P p [] a = tt
  All-keep P p (x ∷ xs) a = elim (Bool-cases (p x)) [
    | inl yields ↦ rw (yields, keep) (a.0, All-keep P p xs a.1)
    | inr fails ↦ rw (fails, keep) (All-keep P p xs a.1)
  ]

  All-take : (P : A → Type 0) (n : ℕ) (xs : List A) → All P xs → All P (take n xs)
  All-take P zero xs a = tt
  All-take P (suc n) [] a = tt
  All-take P (suc n) (x ∷ xs) a = (a.0, All-take P n xs a.1)

All-dedup_neighbours : (P : Text → Type 0) (ts : List Text) → All P ts → All P (dedup_neighbours ts)
unfolding dedup_neighbours
All-dedup_neighbours P [] a = tt
All-dedup_neighbours P (t ∷ []) a = a
All-dedup_neighbours P (t ∷ u ∷ ts) a = elim (Bool-cases (text_eq u t)) [
  | inl same ↦ rw (same, dedup_neighbours) (All-dedup_neighbours P (u ∷ ts) a.1)
  | inr differ ↦ rw (differ, dedup_neighbours) (a.0, All-dedup_neighbours P (u ∷ ts) a.1)
]

dedup_neighbours_some : (t : Text) (ts : List Text) → is_empty (dedup_neighbours (t ∷ ts)) ≡ false
unfolding dedup_neighbours
dedup_neighbours_some t [] = refl
dedup_neighbours_some t (u ∷ ts) = elim (Bool-cases (text_eq u t)) [
  | inl same ↦ rw (same, dedup_neighbours) (dedup_neighbours_some u ts)
  | inr differ ↦ rw (differ, dedup_neighbours) refl
]

module _ (chars : Chars) where
  tokenize-All : (raw : Text) → All (λ t. has_alphanumeric chars t ≡ true) (tokenize chars raw)
  unfolding tokenize pieces
  tokenize-All raw =
      let all = keep-All (has_alphanumeric chars) _ in
      elim (Bool-cases (is_empty (keep (λ t. not (is_lone_letter t)) (pieces chars raw)))) [
        | inl lone ↦ rw lone all
        | inr others ↦ rw others (All-keep _ (λ t. not (is_lone_letter t)) _ all)
      ]

  abbrev pub AllStopwords : List Text → Type 0
  AllStopwords tokens = All (λ t. is_stopword t ≡ true) tokens

  -- A term has a letter or digit, and is not a stopword unless all the tokens are.
  abbrev pub IsTerm : List Text → Text → Type 0
  IsTerm tokens t =
      (has_alphanumeric chars t ≡ true) × (AllStopwords tokens ⊎ (is_stopword t ≡ false))

  only_stopwords :
      (tokens : List Text) → (is_empty (content_of tokens) ≡ true) ↔ AllStopwords tokens
  unfolding keep
  only_stopwords [] = (λ q. tt, λ q. refl)
  only_stopwords (t ∷ tokens) = elim (Bool-cases (is_stopword t)) [
    | inl stop ↦
        let rest = only_stopwords tokens in
        (λ q. (stop, rest.0 (rw (stop, keep) at q)), λ q. rw (stop, keep) (rest.1 q.1))
    | inr word ↦ (λ q. let r = (rw (word, keep) at q) in cc, λ q. let r = q.0 in cc)
  ]

  AllStopwords-iff :
      (tokens : List Text)
      → (all_stopwords_of tokens ≡ true) ↔ (¬ (tokens ≡ []) × AllStopwords tokens)
  unfolding keep
  AllStopwords-iff [] = (λ q. let r : false ≡ true = q in cc, λ q. absurd (q.0 refl))
  AllStopwords-iff (t ∷ tokens) =
      let only = only_stopwords (t ∷ tokens) in
      (
        λ q. (λ e. not_nil e, only.0 (ground (arith, q))),
        λ q. let e = only.1 q.1 in ground (arith, e),
      )
    where
      not_nil : ¬ ((t ∷ tokens) ≡ [])
      not_nil e = cc

  terms_IsTerm :
      (tokens : List Text)
      → All (λ t. has_alphanumeric chars t ≡ true) tokens
      → All (IsTerm tokens) (terms_of tokens)
  unfolding terms_of
  terms_IsTerm tokens a = elim (Bool-cases (all_stopwords_of tokens)) [
    | inl stops ↦
        rw (stops, terms_of)
          (All-take _ max_terms _ (
            All-dedup_neighbours _ tokens
              (with_stops ((AllStopwords-iff tokens).0 stops).1 tokens a)))
    | inr content ↦
        rw (content, terms_of)
          (All-take _ max_terms _ (
            All-dedup_neighbours _ (content_of tokens) (
              both (content_of tokens) (All-keep _ _ tokens a)
                (keep-All (λ t. not (is_stopword t)) tokens))))
  ]
    where
      with_stops :
          AllStopwords tokens
          → (ts : List Text) → All (λ t. has_alphanumeric chars t ≡ true) ts
          → All (IsTerm tokens) ts
      with_stops s [] b = tt
      with_stops s (t ∷ ts) b = ((b.0, inl s), with_stops s ts b.1)

      both :
          (ts : List Text)
          → All (λ t. has_alphanumeric chars t ≡ true) ts
          → All (λ t. not (is_stopword t) ≡ true) ts
          → All (IsTerm tokens) ts
      both [] b c = tt
      both (t ∷ ts) b c = ((b.0, inr (ground (arith, c.0))), both ts b.1 c.1)

  no_terms : (tokens : List Text) → is_empty (terms_of tokens) ≡ true → tokens ≡ []
  unfolding terms_of
  no_terms [] q = refl
  no_terms (t ∷ tokens) q = elim (Bool-cases (is_empty (content_of (t ∷ tokens)))) [
    | inl none_left ↦
        absurd (
          stop (dedup_neighbours (t ∷ tokens)) (dedup_neighbours_some t tokens) (rw none_left at q))
    | inr some_left ↦ absurd (left (content_of (t ∷ tokens)) some_left (rw some_left at q))
  ]
    where
      stop : (ts : List Text) → is_empty ts ≡ false → is_empty (take max_terms ts) ≡ true → ⊥
      stop [] e f = cc
      stop (u ∷ ts) e f = cc

      left :
          (ts : List Text)
          → is_empty ts ≡ false
          → is_empty (take max_terms (dedup_neighbours ts)) ≡ true
          → ⊥
      left [] e f = cc
      left (u ∷ ts) e f = stop (dedup_neighbours (u ∷ ts)) (dedup_neighbours_some u ts) f

  terms_of_bound : (tokens : List Text) → length (terms_of tokens) ≤ max_terms
  unfolding terms_of
  terms_of_bound tokens = bound (dedup_neighbours _)
    where
      bound : (ts : List Text) → length (take max_terms ts) ≤ max_terms
      bound ts = omega (arith, length-take max_terms ts)

  abbrev Planned : List Text → List Text → Option FtsPlan → Type 0
  Planned phrases tokens none = (phrases ≡ []) × (tokens ≡ [])
  Planned phrases tokens (some plan) =
      (plan.phrases ≡ phrases)
      × (length plan.terms ≤ max_terms)
      × ((plan.all_stopwords ≡ true) ↔ (¬ (tokens ≡ []) × AllStopwords tokens))
      × All (IsTerm tokens) plan.terms

  plan_of-Planned :
      (phrases tokens : List Text)
      → All (λ t. has_alphanumeric chars t ≡ true) tokens
      → Planned phrases tokens (plan_of chars phrases tokens)
  unfolding plan_of
  plan_of-Planned phrases tokens a =
      let terms = terms_of tokens in
      elim (Bool-cases (is_empty terms && is_empty phrases)) [
        | inl nothing ↦
            rw (nothing, Planned, plan_of)
              (
                empty_list phrases (ground (arith, nothing)),
                no_terms tokens (ground (arith, nothing)),
              )
        | inr something ↦
            rw (something, Planned, plan_of)
              (refl, terms_of_bound tokens, AllStopwords-iff tokens, terms_IsTerm tokens a)
      ]
    where
      empty_list : (ts : List Text) → is_empty ts ≡ true → ts ≡ []
      empty_list [] e = refl
      empty_list (t ∷ ts) e = cc

  -- What the plan says of the phrases and of the rest of the query.
  abbrev pub Sound : List Text → Text → Option FtsPlan → Type 0
  Sound phrases rest none =
      (phrases ≡ []) × (has_alphanumeric chars (chars.to_lowercase rest) ≡ false)
  Sound phrases rest (some plan) =
      (plan.phrases ≡ phrases)
      × (length plan.terms ≤ max_terms)
      × ((plan.all_stopwords ≡ true)
          ↔ (¬ (tokenize chars rest ≡ []) × AllStopwords (tokenize chars rest)))
      × All (IsTerm (tokenize chars rest)) plan.terms

  module _ (marks : (c : ℕ) → is_token_char c ≡ true → chars.is_alphanumeric c ≡ false) where
    no_tokens :
        (rest : Text)
        → tokenize chars rest ≡ []
        → has_alphanumeric chars (chars.to_lowercase rest) ≡ false
    no_tokens rest q = elim (Bool-cases (has_alphanumeric chars (chars.to_lowercase rest))) [
      | inl has ↦
          let left = tokenize_some chars marks rest has in
          let gone = ap is_empty q in absurd (ground (arith, left, gone))
      | inr hasnt ↦ hasnt
    ]

    Planned-Sound :
        (phrases : List Text) (rest : Text) (plan : Option FtsPlan)
        → Planned phrases (tokenize chars rest) plan
        → Sound phrases rest plan
    Planned-Sound phrases rest none a = (a.0, no_tokens rest a.1)
    Planned-Sound phrases rest (some plan) a = a

    -- A query has no plan only when `extract_phrases` finds no quoted phrase in it and the rest of it,
    -- in lower case, has no letter or digit. A plan keeps those phrases and has at most twelve
    -- terms; each has a letter or digit, and none is a stopword unless every token of the rest is
    -- one. The plan is marked as one of stopwords exactly when there are tokens and all of them are
    -- stopwords. No token mark (`_`, `-`, `.`, `/`, `@`) counts as a letter or digit.
    pub plan_fts_query-Sound :
        (raw : Text)
        → Sound
            (extract_phrases chars raw).0
            (extract_phrases chars raw).1
            (plan_fts_query chars raw)
    unfolding plan_fts_query
    plan_fts_query-Sound raw =
        Planned-Sound (extract_phrases chars raw).0 (extract_phrases chars raw).1 _ (
          plan_of-Planned (extract_phrases chars raw).0
            (tokenize chars (extract_phrases chars raw).1)
            (tokenize-All (extract_phrases chars raw).1))

  -- A query that has a plan of its own has a plan in every context, and it is its own unless that
  -- is thin: fewer than two terms, or stopwords alone.
  pub plan_query_with_context_lem :
      (raw : Text) (prior : Option Text) (plan : FtsPlan)
      → plan_fts_query chars raw ≡ some plan
      → (found : FtsPlan) × (plan_query_with_context chars raw prior ≡ some found)
        × ((found ≡ plan) ⊎ (is_thin (some plan) ≡ true))
  unfolding plan_query_with_context
  plan_query_with_context_lem raw prior plan q = elim (Bool-cases (is_thin (some plan))) [
    | inr full ↦ (plan, rw (q, full) refl, inl refl)
    | inl thin ↦
        let r = borrowed (keep_if (λ p. not (is_empty (trim p))) prior) in
        (r.0, rw (q, thin) (r.1), inr thin)
  ]
    where
      either : (o : Option FtsPlan) → (found : FtsPlan) × (or o (some plan) ≡ some found)
      either none = (plan, refl)
      either (some found) = (found, refl)

      borrowed :
          (o : Option Text) → (found : FtsPlan) × (with_prior chars raw o (some plan) ≡ some found)
      borrowed none = (plan, refl)
      borrowed (some text) = either (plan_fts_query chars (raw ++ 32 ∷ text))
