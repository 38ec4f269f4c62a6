-- ===== src/Prelude/Undo.antt =====
-- An UPDATE that marks rows, and a later UPDATE by the same keys that clears the marks.
use mathlib.Core.Path.{◌≡◌, refl, ap, sym, subst}
use mathlib.Core.Bool.{Bool, true, false, ◌&&◌, not}
use mathlib.Core.List.{List, [], ◌∷◌, ◌++◌, map}
use mathlib.Core.Option.{none}
use Prim.Native.Nat.{ℕ, ◌<◌}
use native.Mathlib.Omega.{arith}
use polis_memory.Prelude.Tests.{◌==◌, if◌then◌else◌}
use polis_memory.Prelude.Lists.{All}
use polis_memory.Prelude.Tables.{
  lookup, keys_where, update, update_each, member, Distinct, updated, update_each-map,
}

module _ {ℓ} {A : Type ℓ} (key : A → ℕ) where
  head_apart :
      (k : ℕ) (rows : List A)
      → lookup key k rows ≡ none
      → All (λ (r : A). (key r == k) ≡ false) rows
  unfolding lookup
  head_apart k [] e = tt
  head_apart k (r ∷ rows) e = (ground arith, head_apart k rows (ground arith))

  keys_miss :
      (p : A → Bool) (k : ℕ) (rows : List A)
      → lookup key k rows ≡ none
      → member k (keys_where key p rows) ≡ false
  unfolding lookup keys_where member
  keys_miss p k [] e = refl
  keys_miss p k (r ∷ rows) e = ground (arith, keys_miss p k rows)

module _ {ℓ} {A : Type ℓ} (key : A → ℕ) (p : A → Bool) where
  -- Only rows that satisfy `p` have a key among `ks`.
  abbrev pub Only : List ℕ → List A → Type 0
  Only ks [] = Unit
  Only ks (r ∷ rows) = ((member (key r) ks && not (p r)) ≡ false) × Only ks rows

  Only-cons :
      (k : ℕ) (ks : List ℕ) (rows : List A)
      → All (λ (r : A). (key r == k) ≡ false) rows
      → Only ks rows
      → Only (k ∷ ks) rows
  unfolding member
  Only-cons k ks [] a o = tt
  Only-cons k ks (r ∷ rows) a o = (ground (arith, a.0, o.0), Only-cons k ks rows a.1 o.1)

  Only-head :
      (ks : List ℕ) (r : A) (rows : List A) (b : Bool)
      → p r ≡ b
      → member (key r) ks ≡ false
      → All (λ (s : A). (key s == key r) ≡ false) rows
      → Only ks rows
      → Only (if b then key r ∷ ks else ks) (r ∷ rows)
  unfolding member
  Only-head ks r rows true e fresh apart o = (ground (arith, e), Only-cons (key r) ks rows apart o)
  Only-head ks r rows false e fresh apart o = (ground (arith, fresh), o)

  pub Only-keys : (rows : List A) → Distinct key rows → Only (keys_where key p rows) rows
  unfolding keys_where
  Only-keys [] d = tt
  Only-keys (r ∷ rows) d =
      Only-head (keys_where key p rows) r rows (p r) refl (keys_miss key p (key r) rows d.0)
        (head_apart key (key r) rows d.0) (Only-keys rows d.1)

module _ {ℓ} {A : Type ℓ} (key : A → ℕ) (p : A → Bool) (mark : A → A) (q : A → Bool)
    (clear : A → A) where
  -- The mark and its clearing, row by row.
  pub record Undoes : Type ℓ where
    pub mark_key : (r : A) → key (mark r) ≡ key r
    pub clear_key : (r : A) → key (clear r) ≡ key r
    pub mark_once : (r : A) → mark (mark r) ≡ mark r
    pub mark_hides : (r : A) → p (mark r) ≡ false
    pub clear_once : (r : A) → (if q (clear r) then clear (clear r) else clear r) ≡ clear r
    pub marks : (r : A) → p r ≡ true → q (mark r) ≡ true

  module _ (u : Undoes) where
    cong_cons : {x y : A} {xs ys : List A} → x ≡ y → xs ≡ ys → x ∷ xs ≡ y ∷ ys
    cong_cons p q = cc

    undo_row :
        (ks : List ℕ) (r : A)
        → (member (key r) ks && not (p r)) ≡ false
        → (p r ≡ true → clear (mark r) ≡ r)
        → updated key q clear ks (updated key (λ (x : A). true) mark ks r) ≡ r
    undo_row ks r o clears =
        ground (arith, u.marks r, clears, ap (λ (n : ℕ). member n ks) (u.mark_key r))

    undo_rows :
        (ks : List ℕ) (rows : List A)
        → Only key p ks rows
        → All (λ (r : A). p r ≡ true → clear (mark r) ≡ r) rows
        → map
            (λ (r : A). updated key q clear ks r)
            (map (λ (r : A). updated key (λ (x : A). true) mark ks r) rows)
          ≡ rows
    undo_rows ks [] o a = refl
    undo_rows ks (r ∷ rows) o a = cong_cons (undo_row ks r o.0 a.0) (undo_rows ks rows o.1 a.1)

    -- Marked where `p` holds and cleared by the same keys, a table is what it was.
    pub undo_where :
        (rows : List A)
        → Distinct key rows
        → All (λ (r : A). p r ≡ true → clear (mark r) ≡ r) rows
        → let ks = keys_where key p rows in
          update_each key ks q clear (update_each key ks (λ (r : A). true) mark rows) ≡ rows
    undo_where rows d a =
        let ks = keys_where key p rows in
        rw
          (
            update_each-map key q clear u.clear_key u.clear_once ks
                (update_each key ks (λ (r : A). true) mark rows),
            update_each-map key (λ (r : A). true) mark u.mark_key u.mark_once ks rows,
          )
          (undo_rows ks rows (Only-keys key p rows d) a)

    undo-All_row :
        (ks : List ℕ) (r : A)
        → q r ≡ false
        → (p r ≡ true → clear (mark r) ≡ r)
        → updated key q clear ks (updated key p mark ks r) ≡ r
    undo-All_row ks r o clears =
        ground (arith, u.marks r, clears, ap (λ (n : ℕ). member n ks) (u.mark_key r))

    undo-All_rows :
        (ks : List ℕ) (rows : List A)
        → All (λ (r : A). (q r ≡ false) × (p r ≡ true → clear (mark r) ≡ r)) rows
        → map (λ (r : A). updated key q clear ks r) (map (λ (r : A). updated key p mark ks r) rows)
          ≡ rows
    undo-All_rows ks [] o = refl
    undo-All_rows ks (r ∷ rows) o =
        cong_cons (undo-All_row ks r o.0.0 o.0.1) (undo-All_rows ks rows o.1)

    -- Likewise where the marking itself tests `p`, if no row has the mark before.
    pub undo-All :
        (ks : List ℕ) (rows : List A)
        → All (λ (r : A). (q r ≡ false) × (p r ≡ true → clear (mark r) ≡ r)) rows
        → update_each key ks q clear (update_each key ks p mark rows) ≡ rows
    undo-All ks rows o =
        rw
          (
            update_each-map key q clear u.clear_key u.clear_once ks
                (update_each key ks p mark rows),
            update_each-map key p mark u.mark_key (λ r. rw (u.mark_hides r) refl) ks rows,
          )
          (undo-All_rows ks rows o)

module _ {ℓ} {A : Type ℓ} (key : A → ℕ) (q : A → Bool) (f : A → A)
    (same : (r : A) → key (f r) ≡ key r) where
  lookup-update-none :
      (j k : ℕ) (rows : List A)
      → lookup key j rows ≡ none
      → lookup key j (update key k q f rows) ≡ none
  unfolding lookup update
  lookup-update-none j k [] e = refl
  lookup-update-none j k (r ∷ rows) e = ground (arith, same r, lookup-update-none j k rows)

  pub update-Distinct :
      (k : ℕ) (rows : List A) → Distinct key rows → Distinct key (update key k q f rows)
  unfolding update
  update-Distinct k [] d = tt
  update-Distinct k (r ∷ rows) d = (
    subst (λ (j : ℕ). lookup key j (update key k q f rows) ≡ none) (sym (kept k r))
        (lookup-update-none (key r) k rows d.0),
    update-Distinct k rows d.1,
  )
    where
      kept : (k : ℕ) (r : A) → key (if key r == k then (if q r then f r else r) else r) ≡ key r
      kept k r = ground (arith, same r)

  pub update_each-Distinct :
      (ks : List ℕ) (rows : List A) → Distinct key rows → Distinct key (update_each key ks q f rows)
  unfolding update_each
  update_each-Distinct [] rows d = d
  update_each-Distinct (k ∷ ks) rows d =
      update_each-Distinct ks (update key k q f rows) (update-Distinct k rows d)

module _ {ℓ} {A : Type ℓ} (key : A → ℕ) where
  pub lookup_above :
      (k : ℕ) (rows : List A) → All (λ (r : A). key r < k) rows → lookup key k rows ≡ none
  unfolding lookup
  lookup_above k [] a = refl
  lookup_above k (r ∷ rows) a = ground (arith, a.0, lookup_above k rows a.1)

  lookup_after :
      (k : ℕ) (rows : List A) (r : A)
      → lookup key k rows ≡ none
      → k < key r
      → lookup key k (rows ++ r ∷ []) ≡ none
  unfolding lookup
  lookup_after k [] r e lt = ground (arith, lt)
  lookup_after k (m ∷ rows) r e lt = ground (arith, lookup_after k rows r, e, lt)

  -- A row with a greater key than all others keeps the keys apart.
  pub Distinct-append :
      (rows : List A) (r : A)
      → Distinct key rows
      → All (λ (m : A). key m < key r) rows
      → Distinct key (rows ++ r ∷ [])
  unfolding lookup
  Distinct-append [] r d a = (refl, tt)
  Distinct-append (m ∷ rows) r d a =
      (lookup_after (key m) rows r d.0 a.0, Distinct-append rows r d.1 a.1)
