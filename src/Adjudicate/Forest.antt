-- ===== src/Adjudicate/Forest.antt =====
-- What becomes of the way up from a node when the parent of one node, `top`, changes.
use polis_memory.Prelude.{
  ℕ, zero, suc, ◌+◌, ◌≤◌, ◌≡◌, ◌≢◌, ◌∙◌, subst, false, some, List, ◌==◌, ==_iff, arith, Bool-cases,
  inl, inr, ◌⊎◌,
}
use polis_memory.Catalog.{Node}
use polis_memory.Adjudicate.{climbs_to, get, parent_of}
use polis_memory.Adjudicate.Walks.{Rooted, Under, child, itself, lower, parent_of-some, root}

-- Every node hangs from a root, at most `bound` steps below it.
abbrev pub IsForest : ℕ → List Node → Type 0
IsForest bound nodes =
    (id : ℕ) (n : Node) → get nodes id ≡ some n → (k : ℕ) × (k ≤ bound) × Rooted nodes id k

-- One node's row is another one.
abbrev pub IsUpdate : ℕ → List Node → List Node → Type 0
IsUpdate top nodes nodes' = (id : ℕ) → id ≢ top → get nodes' id ≡ get nodes id

pub apart : (a b : ℕ) → (a == b) ≡ false → a ≢ b
apart a b e p = ground (arith, e, (==_iff a b).1 p)

module _ (top : ℕ) (nodes nodes' : List Node) (same : IsUpdate top nodes nodes') where
  -- A node whose way up does not meet `top` keeps it, and any other one is under `top`.
  pub Rooted-or_Under :
      (id k : ℕ)
      → Rooted nodes id k
      → Rooted nodes' id k ⊎ ((j : ℕ) × (j ≤ k) × Under nodes top id j)
  Rooted-or_Under id k (root _ n e p) = elim (Bool-cases (id == top)) [
    | inl at ↦ inr (0, omega arith, rw ((==_iff id top).0 at) itself)
    | inr away ↦ inl (root id n (same id (apart id top away) ∙ e) p)
  ]
  Rooted-or_Under id k (child _ p j n e q r) = elim (Bool-cases (id == top)) [
    | inl at ↦ inr (0, omega arith, rw ((==_iff id top).0 at) itself)
    | inr away ↦ elim (Rooted-or_Under p j r) [
      | inl kept ↦ inl (child id p j n (same id (apart id top away) ∙ e) q kept)
      | inr (i, le, under) ↦
          inr (suc i, omega (arith, le), lower id p i n (apart id top away) e q under)
    ]
  ]

  -- A node under `top` hangs from the root that `top` hangs from.
  pub Rooted-Under :
      (id m j : ℕ) → Rooted nodes' top m → Under nodes top id j → Rooted nodes' id (j + m)
  Rooted-Under id m j r itself = subst (Rooted nodes' id) (omega arith) r
  Rooted-Under id m j r (lower _ p i n ne e q u) =
      subst (Rooted nodes' id) (omega arith)
        (child id p (i + m) n (same id ne ∙ e) q (Rooted-Under p m i r u))

  root_kept : (id k : ℕ) → k ≤ 0 → id ≢ top → Rooted nodes id k → Rooted nodes' id k
  root_kept id k le ne (root _ n e p) = root id n (same id ne ∙ e) p
  root_kept id k le ne (child _ p j n e q r) = absurd (omega (arith, le))

  -- A way up on which `is_descendant` does not meet `top` is kept.
  pub Rooted-beside :
      (left id k : ℕ)
      → k ≤ suc left
      → id ≢ top
      → climbs_to left nodes top (parent_of (get nodes id)) ≡ false
      → Rooted nodes id k
      → Rooted nodes' id k
  unfolding climbs_to
  Rooted-beside left id k le ne h (root _ n e p) = root id n (same id ne ∙ e) p
  Rooted-beside zero id k le ne h (child _ p j n e q r) =
      let clear = rw (parent_of-some nodes id n (some p) e q) at h in
      child id p j n (same id ne ∙ e) q (root_kept p j (omega (arith, le)) (apart p top clear) r)
  Rooted-beside (suc left) id k le ne h (child _ p j n e q r) =
      let clear = rw (parent_of-some nodes id n (some p) e q) at h in
      child id p j n (same id ne ∙ e) q (
        Rooted-beside left p j (omega (arith, le)) (apart p top (ground (arith, clear)))
          (ground (arith, clear)) r)
