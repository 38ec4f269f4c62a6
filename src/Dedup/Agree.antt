-- ===== src/Dedup/Agree.antt =====
-- The pass of crates/polis-core/src/dedup.rs over its index vectors, against the reference.
use polis_memory.Prelude.{
  ℕ, zero, suc, ◌+◌, ◌<◌, ◌≡◌, refl, ap, ◌∙◌, subst, ℤ, Option, none, some, List, [], ◌∷◌, ◌++◌,
  map, find, arith, map_some, or, is_empty, length, get_elem?, length-append, append_cons,
  Bool-cases, inl, inr, ◌>>=◌,
}
use polis_memory.Prelude.Text.{Text, text_eq, trim}
use polis_memory.Dedup.Simhash.{simhash, near_duplicate}
use polis_memory.Dedup.{
  Candidate, Verdict, Pass, kept_with, duplicate_of, usable_hash, exact_match, near_match, dupe_of,
  absorb, set_at, push_hash, settle, dedup_from, dedup,
}
use polis_memory.Dedup.Reference.{exact_original, near_original, original, originals, of_verdict}

module _ {ℓ} {A : Type ℓ} where
  get_elem?-some : (xs : List A) (j : ℕ) → j < length xs → (x : A) × (get_elem? xs j ≡ some x)
  get_elem?-some [] j lt = absurd (omega (arith, lt))
  get_elem?-some (x ∷ xs) zero lt = (x, refl)
  get_elem?-some (x ∷ xs) (suc j) lt = get_elem?-some xs j (omega (arith, lt))

  length-set_at : (j : ℕ) (x : A) (xs : List A) → length (set_at j x xs) ≡ length xs
  length-set_at j x [] = refl
  length-set_at zero x (y ∷ xs) = refl
  length-set_at (suc j) x (y ∷ xs) = ap suc (length-set_at j x xs)

  map-append :
      {B : Type 0} (f : A → B) (xs : List A) (y : A) → map f (xs ++ y ∷ []) ≡ map f xs ++ f y ∷ []
  map-append f [] y = refl
  map-append f (x ∷ xs) y = ap (λ zs. f x ∷ zs) (map-append f xs y)

  map-set_at :
      {B : Type 0} (f : A → B) (j : ℕ) (x y : A) (xs : List A)
      → get_elem? xs j ≡ some y
      → f x ≡ f y
      → map f (set_at j x xs) ≡ map f xs
  map-set_at f j x y [] q e = refl
  map-set_at f zero x y (z ∷ xs) q e = ground (arith, q, e)
  map-set_at f (suc j) x y (z ∷ xs) q e = ap (λ zs. f z ∷ zs) (map-set_at f j x y xs q e)

of_verdict-absorb : (key : ℤ) (v : Verdict) → of_verdict (absorb key v) ≡ of_verdict v
of_verdict-absorb key (kept_with absorbed) = refl
of_verdict-absorb key (duplicate_of k) = refl

module _ (candidates : List Candidate) where
  -- The index vectors hold the survivors, below `n`.
  data Links (n : ℕ) : List (ℕ × ℕ) → List Candidate → Type 0 where
    end : Links n [] []
    link :
        {j : ℕ} {kept : List (ℕ × ℕ)} {s : Candidate} {survivors : List Candidate}
        → get_elem? candidates j ≡ some s
        → j < n
        → Links n kept survivors
        → Links n ((j, simhash s.text) ∷ kept) (s ∷ survivors)

  data HashLinks (n : ℕ) : List (ℕ × Text) → List Candidate → Type 0 where
    end : HashLinks n [] []
    unhashed :
        {hashes : List (ℕ × Text)} {s : Candidate} {survivors : List Candidate}
        → usable_hash s ≡ none
        → HashLinks n hashes survivors
        → HashLinks n hashes (s ∷ survivors)
    hashed :
        {j : ℕ} {k : Text} {hashes : List (ℕ × Text)} {s : Candidate} {survivors : List Candidate}
        → usable_hash s ≡ some k
        → get_elem? candidates j ≡ some s
        → j < n
        → HashLinks n hashes survivors
        → HashLinks n ((j, k) ∷ hashes) (s ∷ survivors)

  -- An index and the survivor that it points to.
  abbrev Points : ℕ → Option ℕ → Option Candidate → Type 0
  Points n none none = Unit
  Points n none (some s) = ⊥
  Points n (some j) none = ⊥
  Points n (some j) (some s) = (get_elem? candidates j ≡ some s) × (j < n)

  Links-append :
      {n : ℕ} {kept : List (ℕ × ℕ)} {survivors : List Candidate} (s : Candidate)
      → get_elem? candidates n ≡ some s
      → Links n kept survivors
      → Links (suc n) (kept ++ (n, simhash s.text) ∷ []) (survivors ++ s ∷ [])
  Links-append s q end = link q (omega arith) end
  Links-append s q (link e lt l) = link e (omega (arith, lt)) (Links-append s q l)

  Links-later :
      {n : ℕ} {kept : List (ℕ × ℕ)} {survivors : List Candidate}
      → Links n kept survivors
      → Links (suc n) kept survivors
  Links-later end = end
  Links-later (link e lt l) = link e (omega (arith, lt)) (Links-later l)

  HashLinks-later :
      {n : ℕ} {hashes : List (ℕ × Text)} {survivors : List Candidate}
      → HashLinks n hashes survivors
      → HashLinks (suc n) hashes survivors
  HashLinks-later end = end
  HashLinks-later (unhashed e l) = unhashed e (HashLinks-later l)
  HashLinks-later (hashed u e lt l) = hashed u e (omega (arith, lt)) (HashLinks-later l)

  HashLinks-append :
      {n : ℕ} {hashes : List (ℕ × Text)} {survivors : List Candidate} (s : Candidate)
      (h : Option Text)
      → usable_hash s ≡ h
      → get_elem? candidates n ≡ some s
      → HashLinks n hashes survivors
      → HashLinks (suc n) (push_hash n h hashes) (survivors ++ s ∷ [])
  HashLinks-append s none u q end = unhashed u end
  HashLinks-append s (some h) u q end = hashed u q (omega arith) end
  HashLinks-append s none u q (unhashed e l) = unhashed e (HashLinks-append s none u q l)
  HashLinks-append s (some h) u q (unhashed e l) = unhashed e (HashLinks-append s (some h) u q l)
  HashLinks-append s none u q (hashed v e lt l) =
      hashed v e (omega (arith, lt)) (HashLinks-append s none u q l)
  HashLinks-append s (some h) u q (hashed v e lt l) =
      hashed v e (omega (arith, lt)) (HashLinks-append s (some h) u q l)

  near-Points :
      {n : ℕ} {kept : List (ℕ × ℕ)} {survivors : List Candidate} (mark : ℕ)
      → Links n kept survivors
      → Points n
          (map_some (λ k. k.0) (find (λ (k : ℕ × ℕ). near_duplicate k.1 mark) kept))
          (find (λ s. near_duplicate (simhash s.text) mark) survivors)
  unfolding find
  near-Points mark end = tt
  near-Points mark (link {j} {kept} {s} {survivors} e lt l) =
      elim (Bool-cases (near_duplicate (simhash s.text) mark)) [
        | inl near ↦ rw (near, Points, find) (e, lt)
        | inr far ↦ rw (far, Points, find) (near-Points mark l)
      ]

  exact-Points :
      {n : ℕ} {hashes : List (ℕ × Text)} {survivors : List Candidate} (h : Text)
      → HashLinks n hashes survivors
      → Points n (exact_match hashes (some h)) (exact_original survivors (some h))
  unfolding find
  exact-Points h end = tt
  exact-Points h (unhashed {hashes} {s} {survivors} e l) = rw (e, Points, find) (exact-Points h l)
  exact-Points h (hashed {j} {k} {hashes} {s} {survivors} u e lt l) =
      elim (Bool-cases (text_eq k h)) [
        | inl same ↦ rw (u, same, Points, find) (e, lt)
        | inr other ↦ rw (u, other, Points, find) (exact-Points h l)
      ]

  or_Points :
      (n : ℕ) (i j : Option ℕ) (s t : Option Candidate)
      → Points n i s
      → Points n j t
      → Points n (or i j) (or s t)
  or_Points n none j none t p q = q
  or_Points n none j (some s) t p q = absurd p
  or_Points n (some i) j none t p q = absurd p
  or_Points n (some i) j (some s) t p q = p

  record Tracks (n : ℕ) (st : Pass) (survivors : List Candidate) : Type 0 where
    counted : length st.verdicts ≡ n
    links : Links n st.kept survivors
    hash_links : HashLinks n st.kept_hashes survivors

  dupe_of-Points :
      (n : ℕ) (st : Pass) (survivors : List Candidate) (c : Candidate)
      → Tracks n st survivors
      → Points n (dupe_of st c) (original survivors c)
  unfolding dupe_of original
  dupe_of-Points n st survivors c t = or_Points n _ _ _ _ (exact (usable_hash c)) near
    where
      exact :
          (h : Option Text) → Points n (exact_match st.kept_hashes h) (exact_original survivors h)
      exact none = tt
      exact (some h) = exact-Points h t.hash_links

      near : Points n (near_match st.kept c) (near_original survivors c)
      near = elim (Bool-cases (is_empty (trim c.text))) [
        | inl blank ↦ rw blank tt
        | inr text ↦ rw text (near-Points (simhash c.text) t.links)
      ]

  -- What one step does, read off the reference.
  abbrev Settled : ℕ → Candidate → Pass → List Candidate → Option Candidate → Option Pass → Type 0
  Settled n c st survivors o none = ⊥
  Settled n c st survivors none (some after) =
      Tracks (suc n) after (survivors ++ c ∷ [])
      × (map of_verdict after.verdicts ≡ map of_verdict st.verdicts ++ none ∷ [])
  Settled n c st survivors (some s) (some after) =
      Tracks (suc n) after survivors
      × (map of_verdict after.verdicts ≡ map of_verdict st.verdicts ++ some s.key ∷ [])

  settle-Settled :
      (n : ℕ) (c : Candidate) (st : Pass) (survivors : List Candidate) (d : Option ℕ)
      (o : Option Candidate)
      → Tracks n st survivors
      → get_elem? candidates n ≡ some c
      → Points n d o
      → Settled n c st survivors o (settle candidates n c st d)
  unfolding settle
  settle-Settled n c st survivors none none t q p = (
    record {
      counted = omega (arith, length-append st.verdicts (kept_with [] ∷ []), t.counted);
      links = Links-append c q t.links;
      hash_links = HashLinks-append c (usable_hash c) refl q t.hash_links;
    },
    map-append of_verdict st.verdicts (kept_with []),
  )
  settle-Settled n c st survivors none (some s) t q p = absurd p
  settle-Settled n c st survivors (some j) none t q p = absurd p
  settle-Settled n c st survivors (some j) (some s) t q p =
      let verdicts = st.verdicts ++ duplicate_of s.key ∷ [] in
      let count : length verdicts ≡ suc n =
        omega (arith, length-append st.verdicts (duplicate_of s.key ∷ []), t.counted) in
      let (v, found) = get_elem?-some verdicts j (omega (arith, count, p.1)) in
      rw (p.0, found)
        (
          record {
            counted = length-set_at j (absorb c.key v) verdicts ∙ count;
            links = Links-later t.links;
            hash_links = HashLinks-later t.hash_links;
          },
          map-set_at of_verdict j (absorb c.key v) v verdicts found (of_verdict-absorb c.key v)
              ∙ map-append of_verdict st.verdicts (duplicate_of s.key),
        )

  abbrev Tagged : Pass → List (Option ℤ) → Option Pass → Type 0
  Tagged st tags none = ⊥
  Tagged st tags (some after) = map of_verdict after.verdicts ≡ map of_verdict st.verdicts ++ tags

  Tagged-earlier :
      (st after : Pass) (o : Option ℤ) (tags : List (Option ℤ)) (r : Option Pass)
      → map of_verdict after.verdicts ≡ map of_verdict st.verdicts ++ o ∷ []
      → Tagged after tags r
      → Tagged st (o ∷ tags) r
  Tagged-earlier st after o tags none q f = f
  Tagged-earlier st after o tags (some last) q f =
      f ∙ ap (λ xs. xs ++ tags) q ∙ append_cons (map of_verdict st.verdicts) o tags

  append_nil : (xs : List (Option ℤ)) → xs ≡ xs ++ []
  append_nil [] = refl
  append_nil (x ∷ xs) = ap (λ zs. x ∷ zs) (append_nil xs)

  dedup_from-Tagged :
      (n : ℕ) (rest : List Candidate) (st : Pass) (survivors : List Candidate)
      → Tracks n st survivors
      → ((i : ℕ) → get_elem? candidates (n + i) ≡ get_elem? rest i)
      → Tagged st (originals survivors rest) (dedup_from candidates n rest st)
  unfolding dedup_from originals
  dedup_from-Tagged n [] st survivors t at = append_nil (map of_verdict st.verdicts)
  dedup_from-Tagged n (c ∷ rest) st survivors t at =
      go (original survivors c) (settle candidates n c st (dupe_of st c))
        (settle-Settled n c st survivors (dupe_of st c) (original survivors c) t
          (ap (get_elem? candidates) (omega arith) ∙ at 0) (dupe_of-Points n st survivors c t))
        (λ after found tracks. dedup_from-Tagged (n + 1) rest after found tracks later)
    where
      later : (i : ℕ) → get_elem? candidates (n + 1 + i) ≡ get_elem? rest i
      later i = ap (get_elem? candidates) (omega arith) ∙ at (suc i)

      next :
          {after : Pass} {found : List Candidate}
          → Tracks (suc n) after found
          → Tracks (n + 1) after found
      next {after} {found} = subst (λ k. Tracks k after found) (omega arith)

      go :
          (o : Option Candidate) (r : Option Pass)
          → Settled n c st survivors o r
          → ((after : Pass) (found : List Candidate)
              → Tracks (n + 1) after found
              → Tagged after (originals found rest) (dedup_from candidates (n + 1) rest after))
          → Tagged st
              (elim o [
                | none ↦ none ∷ originals (survivors ++ c ∷ []) rest
                | some x ↦ some x.key ∷ originals survivors rest
              ])
              (r >>= λ st'. dedup_from candidates (n + 1) rest st')
      go o none s again = absurd s
      go none (some after) s again =
          Tagged-earlier st after none _ _ s.1 (again after (survivors ++ c ∷ []) (next s.0))
      go (some x) (some after) s again =
          Tagged-earlier st after (some x.key) _ _ s.1 (again after survivors (next s.0))

-- The pass never indexes out of range, and it says of each candidate, in order, what the reference
-- says: that it is kept, or the key of the earlier survivor that it duplicates.
pub dedup_agrees :
    (candidates : List Candidate)
    → (verdicts : List Verdict) × (dedup candidates ≡ some verdicts)
      × (map of_verdict verdicts ≡ originals [] candidates)
unfolding dedup
dedup_agrees candidates = go (dedup_from candidates 0 candidates _) (
    dedup_from-Tagged candidates 0 candidates _ []
      (record { counted = refl; links = end; hash_links = end })
      (λ i. ap (get_elem? candidates) (omega arith)))
  where
    go :
        (r : Option Pass)
        → Tagged candidates
            (record { verdicts = []; kept = []; kept_hashes = [] })
            (originals [] candidates)
            r
        → (verdicts : List Verdict) × (map_some (λ (st : Pass). st.verdicts) r ≡ some verdicts)
          × (map of_verdict verdicts ≡ originals [] candidates)
    go none f = absurd f
    go (some after) f = (after.verdicts, refl, f)
