-- ===== src/Dedup/Distinct.antt =====
-- What the verdicts of crates/polis-core/src/dedup.rs mean for the candidates.
use polis_memory.Prelude.{
  ◌≡◌, refl, ap, sym, ◌∙◌, subst, inl, inr, ℤ, Bool, true, Option, none, some, List, [], ◌∷◌, ◌++◌,
  map, find, or, arith, is_empty, Bool-cases, Option-cases,
}
use polis_memory.Prelude.Text.{Text, text_eq_iff, trim}
use polis_memory.Dedup.Simhash.{simhash, near_duplicate}
use polis_memory.Dedup.{Candidate, Verdict, usable_hash, dedup}
use polis_memory.Dedup.Reference.{
  has_hash, exact_original, near_original, original, originals, of_verdict,
}
use polis_memory.Dedup.Agree.{dedup_agrees}

-- One of a list.
pub data Among (c : Candidate) : List Candidate → Type 0 where
  here : {rest : List Candidate} → Among c (c ∷ rest)
  there : {d : Candidate} {rest : List Candidate} → Among c rest → Among c (d ∷ rest)

-- The later one repeats the earlier: the same stored hash, or texts that are close.
pub data Repeats (o c : Candidate) : Type 0 where
  exactly : (h : Text) → usable_hash o ≡ some h → usable_hash c ≡ some h → Repeats o c
  nearly : near_duplicate (simhash o.text) (simhash c.text) ≡ true → Repeats o c

-- No candidate of the second list has an original among those before it.
abbrev pub DistinctAfter : List Candidate → List Candidate → Type 0
DistinctAfter before [] = Unit
DistinctAfter before (c ∷ rest) = (original before c ≡ none) × DistinctAfter (before ++ c ∷ []) rest

abbrev pub kept_ones : List (Option ℤ) → List Candidate → List Candidate
kept_ones [] cs = []
kept_ones (o ∷ tags) [] = []
kept_ones (none ∷ tags) (c ∷ cs) = c ∷ kept_ones tags cs
kept_ones (some key ∷ tags) (c ∷ cs) = kept_ones tags cs

-- Each tag names an earlier kept candidate that its own candidate repeats.
abbrev pub Explained : List Candidate → List (Option ℤ) → List Candidate → Type 0
Explained before [] [] = Unit
Explained before [] (c ∷ cs) = ⊥
Explained before (o ∷ tags) [] = ⊥
Explained before (none ∷ tags) (c ∷ cs) = Explained (before ++ c ∷ []) tags cs
Explained before (some key ∷ tags) (c ∷ cs) =
    ((o : Candidate) × Among o before × (o.key ≡ key) × Repeats o c) × Explained before tags cs

originals-Distinct :
    (before cs : List Candidate) → DistinctAfter before (kept_ones (originals before cs) cs)
unfolding originals
originals-Distinct before [] = tt
originals-Distinct before (c ∷ cs) = elim (Option-cases (original before c)) [
  | inl new ↦ rw (new, originals) (new, originals-Distinct (before ++ c ∷ []) cs)
  | inr (o, old) ↦ rw (old, originals) (originals-Distinct before cs)
]

find-Among :
    (p : Candidate → Bool) (cs : List Candidate) (o : Candidate)
    → find p cs ≡ some o
    → Among o cs × (p o ≡ true)
unfolding find
find-Among p [] o q = cc
find-Among p (c ∷ cs) o q = elim (Bool-cases (p c)) [
  | inl yields ↦
      subst (λ d. Among d (c ∷ cs) × (p d ≡ true)) (some_eq (rw (yields, find) at q)) (here, yields)
  | inr fails ↦ let r = find-Among p cs o (rw (fails, find) at q) in (there r.0, r.1)
]
  where
    some_eq : some c ≡ some o → c ≡ o
    some_eq e = ground (arith, e)

has_hash-eq : (h : Text) (k : Option Text) → has_hash h k ≡ true → k ≡ some h
has_hash-eq h none q = cc
has_hash-eq h (some k) q = ground (arith, q, text_eq_iff k h)

exact-Repeats :
    (before : List Candidate) (c o : Candidate) (h : Option Text)
    → usable_hash c ≡ h
    → exact_original before h ≡ some o
    → Among o before × Repeats o c
exact-Repeats before c o none u q = cc
exact-Repeats before c o (some h) u q =
    let r = find-Among (λ s. has_hash h (usable_hash s)) before o q in
    (r.0, exactly h (has_hash-eq h (usable_hash o) r.1) u)

near-Repeats :
    (before : List Candidate) (c o : Candidate)
    → near_original before c ≡ some o
    → Among o before × Repeats o c
near-Repeats before c o q = elim (Bool-cases (is_empty (trim c.text))) [
  | inl blank ↦ absurd (no_text blank q)
  | inr text ↦
      let r =
        find-Among (λ s. near_duplicate (simhash s.text) (simhash c.text)) before o
          (rw text at q) in
      (r.0, nearly r.1)
]
  where
    no_text : is_empty (trim c.text) ≡ true → near_original before c ≡ some o → ⊥
    no_text blank e = ground (arith, blank, e)

original-Repeats :
    (before : List Candidate) (c o : Candidate)
    → original before c ≡ some o
    → Among o before × Repeats o c
unfolding original
original-Repeats before c o q = elim (Option-cases (exact_original before (usable_hash c))) [
  | inl inexact ↦
      near-Repeats before c o (sym (ap (λ x. or x (near_original before c)) inexact) ∙ q)
  | inr (d, exact) ↦
      exact-Repeats before c o (usable_hash c) refl
        (exact ∙ sym (ap (λ x. or x (near_original before c)) exact) ∙ q)
]

originals-Explained : (before cs : List Candidate) → Explained before (originals before cs) cs
unfolding originals
originals-Explained before [] = tt
originals-Explained before (c ∷ cs) = elim (Option-cases (original before c)) [
  | inl new ↦ rw (new, originals) (originals-Explained (before ++ c ∷ []) cs)
  | inr (o, old) ↦
      let r = original-Repeats before c o old in
      rw (old, originals) ((o, r.0, refl, r.1), originals-Explained before cs)
]

tags_of :
    (candidates : List Candidate) (verdicts : List Verdict)
    → dedup candidates ≡ some verdicts
    → originals [] candidates ≡ map of_verdict verdicts
tags_of candidates verdicts q =
    let (found, done, tags) = dedup_agrees candidates in
    sym tags ∙ ap (map of_verdict) (same found done)
  where
    same : (found : List Verdict) → dedup candidates ≡ some found → found ≡ verdicts
    same found done = ground (arith, q, done)

-- The candidates that a pass keeps are distinct: none has the stored hash of one kept before it,
-- and none with a text that is not blank is a near duplicate of one kept before it.
pub dedup-Distinct :
    (candidates : List Candidate) (verdicts : List Verdict)
    → dedup candidates ≡ some verdicts
    → DistinctAfter [] (kept_ones (map of_verdict verdicts) candidates)
dedup-Distinct candidates verdicts q =
    subst (λ tags. DistinctAfter [] (kept_ones tags candidates)) (tags_of candidates verdicts q)
      (originals-Distinct [] candidates)

-- There is one verdict for each candidate, and a candidate is called a duplicate only of the key of
-- an earlier candidate that is kept and that it repeats: the same stored hash, or near texts.
pub dedup-Explained :
    (candidates : List Candidate) (verdicts : List Verdict)
    → dedup candidates ≡ some verdicts
    → Explained [] (map of_verdict verdicts) candidates
dedup-Explained candidates verdicts q =
    subst (λ tags. Explained [] tags candidates) (tags_of candidates verdicts q)
      (originals-Explained [] candidates)
