-- ===== src/Prelude/Tables.antt =====
-- SQL tables as lists of rows in primary-key order of insertion, with the statements that the
-- program uses on them by key. Inserting a row is `rows ++ row ∷ []`.
use Prim.Native.Nat.{ℕ}
use mathlib.Core.Path.{◌≡◌, refl, ap, sym, ◌∙◌}
use mathlib.Core.Logic.{◌≢◌}
use mathlib.Core.Bool.{Bool, true, false}
use mathlib.Core.List.{List, [], ◌∷◌, ◌++◌, map}
use mathlib.Core.Option.{Option, none, some}
use native.Mathlib.Omega.{arith}
use polis_memory.Prelude.Tests.{◌==◌, if◌then◌else◌}
use polis_memory.Prelude.Options.{map_some}

module _ {ℓ} {A : Type ℓ} (key : A → ℕ) where
  -- SELECT … WHERE key = k.
  unfoldable pub lookup : ℕ → List A → Option A
  lookup k [] = none
  lookup k (r ∷ rows) = let rest = lookup k rows in if key r == k then some r else rest

  -- UPDATE … SET f WHERE key = k AND q.
  unfoldable pub update : ℕ → (A → Bool) → (A → A) → List A → List A
  update k q f [] = []
  update k q f (r ∷ rows) = (if key r == k then (if q r then f r else r) else r) ∷ update k q f rows

  -- DELETE … WHERE key = k.
  unfoldable pub delete : ℕ → List A → List A
  delete k [] = []
  delete k (r ∷ rows) = let rest = delete k rows in if key r == k then rest else r ∷ rest

  -- INSERT … ON CONFLICT(key) DO UPDATE SET every column.
  unfoldable pub upsert : A → List A → List A
  upsert row [] = row ∷ []
  upsert row (r ∷ rows) =
      let rest = upsert row rows in if key r == key row then row ∷ rows else r ∷ rest

  pub lookup-key : (k : ℕ) (rows : List A) (r : A) → lookup k rows ≡ some r → key r ≡ k
  unfolding lookup
  lookup-key k [] r e = cc
  lookup-key k (x ∷ rows) r e = ground (arith, lookup-key k rows r)

  pub lookup-update_same :
      (k : ℕ) (q : A → Bool) (f : A → A)
      → ((a : A) → key (f a) ≡ key a)
      → (rows : List A)
      → lookup k (update k q f rows) ≡ map_some (λ (a : A). if q a then f a else a) (lookup k rows)
  unfolding lookup update
  lookup-update_same k q f same [] = refl
  lookup-update_same k q f same (r ∷ rows) =
      ground (arith, same r, lookup-update_same k q f same rows)

  pub lookup-update_other :
      (j k : ℕ) (q : A → Bool) (f : A → A)
      → j ≢ k
      → ((a : A) → key (f a) ≡ key a)
      → (rows : List A) → lookup j (update k q f rows) ≡ lookup j rows
  unfolding lookup update
  lookup-update_other j k q f ne same [] = refl
  lookup-update_other j k q f ne same (r ∷ rows) =
      ground (arith, same r, lookup-update_other j k q f ne same rows)

  pub lookup-delete_same : (k : ℕ) (rows : List A) → lookup k (delete k rows) ≡ none
  unfolding lookup delete
  lookup-delete_same k [] = refl
  lookup-delete_same k (r ∷ rows) = ground (arith, lookup-delete_same k rows)

  pub lookup-delete_other :
      (j k : ℕ) (rows : List A) → j ≢ k → lookup j (delete k rows) ≡ lookup j rows
  unfolding lookup delete
  lookup-delete_other j k [] ne = refl
  lookup-delete_other j k (r ∷ rows) ne = ground (arith, lookup-delete_other j k rows ne)

  pub lookup-upsert_same : (row : A) (rows : List A) → lookup (key row) (upsert row rows) ≡ some row
  unfolding lookup upsert
  lookup-upsert_same row [] = ground arith
  lookup-upsert_same row (r ∷ rows) = ground (arith, lookup-upsert_same row rows)

  pub lookup-upsert_other :
      (j : ℕ) (row : A) (rows : List A) → j ≢ key row → lookup j (upsert row rows) ≡ lookup j rows
  unfolding lookup upsert
  lookup-upsert_other j row [] ne = ground arith
  lookup-upsert_other j row (r ∷ rows) ne = ground (arith, lookup-upsert_other j row rows ne)

  pub lookup-append_other :
      (j : ℕ) (rows : List A) (row : A) → j ≢ key row → lookup j (rows ++ row ∷ []) ≡ lookup j rows
  unfolding lookup
  lookup-append_other j [] row ne = ground arith
  lookup-append_other j (r ∷ rows) row ne = ground (arith, lookup-append_other j rows row ne)

  pub lookup-append_same :
      (rows : List A) (row : A)
      → lookup (key row) rows ≡ none
      → lookup (key row) (rows ++ row ∷ []) ≡ some row
  unfolding lookup
  lookup-append_same [] row e = ground arith
  lookup-append_same (r ∷ rows) row e = ground (arith, lookup-append_same rows row)

  -- SELECT key … WHERE p.
  unfoldable pub keys_where : (A → Bool) → List A → List ℕ
  keys_where p [] = []
  keys_where p (r ∷ rows) = let rest = keys_where p rows in if p r then key r ∷ rest else rest

  -- One UPDATE by key for each of the keys, in order.
  unfoldable pub update_each : List ℕ → (A → Bool) → (A → A) → List A → List A
  unfolding update
  update_each [] q f rows = rows
  update_each (k ∷ ks) q f rows = update_each ks q f (update k q f rows)

  -- Every key stands once.
  abbrev pub Distinct : List A → Type ℓ
  Distinct [] = Unit
  Distinct (r ∷ rows) = (lookup (key r) rows ≡ none) × Distinct rows

unfoldable pub member : ℕ → List ℕ → Bool
member k [] = false
member k (j ∷ js) = let rest = member k js in if k == j then true else rest

pub member-append :
    (k : ℕ) (is js : List ℕ) → member k (is ++ js) ≡ (if member k is then true else member k js)
unfolding member
member-append k [] js = refl
member-append k (i ∷ is) js = ground (arith, member-append k is js)

module _ {ℓ} {A : Type ℓ} (key : A → ℕ) (q : A → Bool) (f : A → A) where
  -- What the updates by the keys `ks` make of one row.
  abbrev pub updated : List ℕ → A → A
  updated ks r = if member (key r) ks then (if q r then f r else r) else r

  update_each_nil : (rows : List A) → map (λ (r : A). updated [] r) rows ≡ rows
  unfolding member
  update_each_nil [] = refl
  update_each_nil (r ∷ rows) = ap (λ (rs : List A). r ∷ rs) (update_each_nil rows)

  updated_once :
      (k : ℕ) (ks : List ℕ) (r : A)
      → key (f r) ≡ key r
      → (if q (f r) then f (f r) else f r) ≡ f r
      → updated ks (if key r == k then (if q r then f r else r) else r) ≡ updated (k ∷ ks) r
  unfolding member
  updated_once k ks r same once = ground (arith, ap (λ (n : ℕ). member n ks) same)

  updated_step :
      (k : ℕ) (ks : List ℕ)
      → ((r : A) → key (f r) ≡ key r)
      → ((r : A) → (if q (f r) then f (f r) else f r) ≡ f r)
      → (rows : List A)
      → map (λ (r : A). updated ks r) (update key k q f rows)
        ≡ map (λ (r : A). updated (k ∷ ks) r) rows
  unfolding update
  updated_step k ks same once [] = refl
  updated_step k ks same once (r ∷ rows) =
      cong_cons (updated_once k ks r (same r) (once r)) (updated_step k ks same once rows)
    where
      cong_cons : {x y : A} {xs ys : List A} → x ≡ y → xs ≡ ys → x ∷ xs ≡ y ∷ ys
      cong_cons p q = cc

  -- A row that one of the updates changed is left alone by the others.
  pub update_each-map :
      ((r : A) → key (f r) ≡ key r)
      → ((r : A) → (if q (f r) then f (f r) else f r) ≡ f r)
      → (ks : List ℕ) (rows : List A)
      → update_each key ks q f rows ≡ map (λ (r : A). updated ks r) rows
  unfolding update_each
  update_each-map same once [] rows = sym (update_each_nil rows)
  update_each-map same once (k ∷ ks) rows =
      update_each-map same once ks (update key k q f rows) ∙ updated_step k ks same once rows

  updated_swap :
      (is js : List ℕ) (r : A)
      → key (f r) ≡ key r
      → (if q (f r) then f (f r) else f r) ≡ f r
      → updated js (updated is r) ≡ updated is (updated js r)
  updated_swap is js r same once =
      ground (arith, ap (λ (n : ℕ). member n is) same, ap (λ (n : ℕ). member n js) same)

  map_swap :
      ((r : A) → key (f r) ≡ key r)
      → ((r : A) → (if q (f r) then f (f r) else f r) ≡ f r)
      → (is js : List ℕ) (rows : List A)
      → map (λ (r : A). updated js r) (map (λ (r : A). updated is r) rows)
        ≡ map (λ (r : A). updated is r) (map (λ (r : A). updated js r) rows)
  map_swap same once is js [] = refl
  map_swap same once is js (r ∷ rows) =
      cong_cons (updated_swap is js r (same r) (once r)) (map_swap same once is js rows)
    where
      cong_cons : {x y : A} {xs ys : List A} → x ≡ y → xs ≡ ys → x ∷ xs ≡ y ∷ ys
      cong_cons p q = cc

  update_each-append :
      (is js : List ℕ) (rows : List A)
      → update_each key (is ++ js) q f rows ≡ update_each key js q f (update_each key is q f rows)
  unfolding update_each
  update_each-append [] js rows = refl
  update_each-append (i ∷ is) js rows = update_each-append is js (update key i q f rows)

  -- The order of the updates does not matter.
  pub update_each_swap :
      ((r : A) → key (f r) ≡ key r)
      → ((r : A) → (if q (f r) then f (f r) else f r) ≡ f r)
      → (is js : List ℕ) (rows : List A)
      → update_each key (is ++ js) q f rows ≡ update_each key is q f (update_each key js q f rows)
  update_each_swap same once is js rows =
      update_each-append is js rows
      ∙ (rw
          (
            update_each-map same once js (update_each key is q f rows),
            update_each-map same once is rows,
            update_each-map same once is (update_each key js q f rows),
            update_each-map same once js rows,
          )
          (map_swap same once is js rows))

  lookup-map :
      (g : A → A)
      → ((r : A) → key (g r) ≡ key r)
      → (k : ℕ) (rows : List A) → lookup key k (map g rows) ≡ map_some g (lookup key k rows)
  unfolding lookup
  lookup-map g same k [] = refl
  lookup-map g same k (r ∷ rows) = ground (arith, same r, lookup-map g same k rows)

  updated_key : (ks : List ℕ) (r : A) → key (f r) ≡ key r → key (updated ks r) ≡ key r
  updated_key ks r same = ground (arith, same)

  pub lookup-update_each :
      ((r : A) → key (f r) ≡ key r)
      → ((r : A) → (if q (f r) then f (f r) else f r) ≡ f r)
      → (ks : List ℕ) (k : ℕ) (rows : List A)
      → lookup key k (update_each key ks q f rows)
        ≡ map_some (λ (r : A). updated ks r) (lookup key k rows)
  lookup-update_each same once ks k rows =
      ap (lookup key k) (update_each-map same once ks rows)
      ∙ lookup-map (λ (r : A). updated ks r) (λ r. updated_key ks r (same r)) k rows

module _ {ℓ} {A : Type ℓ} (key : A → ℕ) where
  pub update_missing :
      (k : ℕ) (q : A → Bool) (f : A → A) (rows : List A)
      → lookup key k rows ≡ none
      → update key k q f rows ≡ rows
  unfolding lookup update
  update_missing k q f [] e = refl
  update_missing k q f (r ∷ rows) e = ground (arith, update_missing k q f rows)

  -- Updates by different keys commute.
  pub update-update :
      (j k : ℕ) (q r : A → Bool) (f g : A → A)
      → (k == j) ≡ false
      → ((a : A) → key (f a) ≡ key a)
      → ((a : A) → key (g a) ≡ key a)
      → (rows : List A)
      → update key j q f (update key k r g rows) ≡ update key k r g (update key j q f rows)
  unfolding update
  update-update j k q r f g ne same same' [] = refl
  update-update j k q r f g ne same same' (a ∷ rows) =
      ground (arith, ne, same a, same' a, update-update j k q r f g ne same same' rows)
