-- ===== src/Adjudicate/Walks.antt =====
-- The nodes that hang from a root, and what the walks up and down say of them.
use polis_memory.Prelude.{
  ℕ, zero, suc, ◌+◌, ◌-◌, ◌≤◌, ◌≡◌, ◌≢◌, refl, sym, ap, ◌∙◌, subst, Bool, true, false, Option, none,
  some, List, [], ◌∷◌, ◌==◌, ==_iff, if◌then◌else◌, arith, Bool-cases, inl, inr,
}
use polis_memory.Prelude.Tables.{keys_where, lookup}
use polis_memory.Catalog.{Node, under}
use polis_memory.Catalog.Reorg.{node_id}
use polis_memory.Adjudicate.{
  above, children, depth_from, get, height, highest, parent_of, subtree_height,
}

-- The node `id` stands `k` steps below a root.
pub data Rooted (nodes : List Node) : ℕ → ℕ → Type 0 where
  root : (id : ℕ) (n : Node) → get nodes id ≡ some n → n.parent_id ≡ none → Rooted nodes id 0
  child :
      (id p k : ℕ) (n : Node)
      → get nodes id ≡ some n
      → n.parent_id ≡ some p
      → Rooted nodes p k
      → Rooted nodes id (suc k)

-- The node `id` stands `j` steps below the node `top`, and meets it at no step before.
pub data Under (nodes : List Node) (top : ℕ) : ℕ → ℕ → Type 0 where
  itself : Under nodes top top 0
  lower :
      (id p j : ℕ) (n : Node)
      → id ≢ top
      → get nodes id ≡ some n
      → n.parent_id ≡ some p
      → Under nodes top p j
      → Under nodes top id (suc j)

pub parent_of-some :
    (nodes : List Node) (id : ℕ) (n : Node) (o : Option ℕ)
    → get nodes id ≡ some n
    → n.parent_id ≡ o
    → parent_of (get nodes id) ≡ o
parent_of-some nodes id n o e p = ap parent_of e ∙ p

pub depth_from-Rooted :
    (nodes : List Node) (left id k : ℕ)
    → k ≤ left
    → Rooted nodes id k
    → depth_from left nodes (parent_of (get nodes id)) ≡ k
unfolding depth_from
depth_from-Rooted nodes left id k le (root _ n e p) = rw (parent_of-some nodes id n none e p) refl
depth_from-Rooted nodes zero id k le (child _ p j n e q r) = absurd (omega (arith, le))
depth_from-Rooted nodes (suc left) id k le (child _ p j n e q r) =
    rw (parent_of-some nodes id n (some p) e q)
      (ap suc (depth_from-Rooted nodes left p j (omega (arith, le)) r))

highest_first : (f : ℕ → ℕ) (c : ℕ) (cs : List ℕ) → f c ≤ highest f c cs
highest_first f c [] = omega arith
highest_first f c (d ∷ cs) = omega arith

above_later : (f : ℕ → ℕ) (c : ℕ) (cs : List ℕ) → above f cs ≤ above f (c ∷ cs)
above_later f c [] = omega arith
above_later f c (d ∷ cs) = omega arith

above_if :
    (f : ℕ → ℕ) (b : Bool) (c m : ℕ) (cs : List ℕ)
    → m ≤ above f cs
    → m ≤ above f (if b then c ∷ cs else cs)
above_if f true c m cs le = omega (arith, le, above_later f c cs)
above_if f false c m cs le = le

-- A child is lower than the height of its parent.
above-children :
    (f : ℕ → ℕ) (a d : ℕ) (nodes : List Node) (n : Node)
    → lookup node_id d nodes ≡ some n
    → under a n.parent_id ≡ true
    → suc (f d) ≤ above f (children nodes a)
unfolding keys_where lookup
above-children f a d [] n e u = cc
above-children f a d (m ∷ nodes) n e u = elim (Bool-cases (node_id m == d)) [
  | inl here ↦
      let found : under a m.parent_id ≡ true = ground (arith, e, here, u) in
      let at = (==_iff (node_id m) d).0 here in
      rw (found, at) (omega (arith, highest_first f d (children nodes a)))
  | inr there ↦
      above_if f (under a m.parent_id) (node_id m) (suc (f d)) (children nodes a)
        (above-children f a d nodes n (ground (arith, e, there)) u)
]

height_step :
    (nodes : List Node) (left d p i : ℕ) (n : Node)
    → get nodes d ≡ some n
    → n.parent_id ≡ some p
    → i ≤ height left nodes d
    → suc i ≤ height (suc left) nodes p
unfolding height get
height_step nodes left d p i n e q le = omega (
  arith,
  le,
  above-children (λ (c : ℕ). height left nodes c) p d nodes n e
      (subst (λ (o : Option ℕ). under p o ≡ true) (sym q) ((==_iff p p).1 refl)),
)

same_height : (nodes : List Node) (l m id : ℕ) → l ≡ m → height l nodes id ≡ height m nodes id
same_height nodes l m id e = ap (λ (k : ℕ). height k nodes id) e

height_Under_from :
    (nodes : List Node) (top left i id j : ℕ)
    → Under nodes top id j
    → i ≤ height left nodes id
    → i + j ≤ height (left + j) nodes top
height_Under_from nodes top left i id j itself le =
    omega (arith, le, same_height nodes (left + 0) left top (omega arith))
height_Under_from nodes top left i id j (lower _ p k n ne e q u) le = omega (
  arith,
  height_Under_from nodes top (suc left) (suc i) p k u (height_step nodes left id p i n e q le),
  same_height nodes (left + suc k) (suc left + k) top (omega arith),
)

-- A node of a branch is not lower than the branch is high, where it is high by at most 65 steps.
pub height_Under :
    (nodes : List Node) (top id j : ℕ)
    → j ≤ 65
    → Under nodes top id j
    → j ≤ subtree_height nodes top
unfolding subtree_height
height_Under nodes top id j le u = omega (
  arith,
  height_Under_from nodes top (65 - j) 0 id j u (omega arith),
  same_height nodes (65 - j + j) 65 top (omega (arith, le)),
)
