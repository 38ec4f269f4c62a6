-- ===== src/Adjudicate/Descents.antt =====
-- Ways down the catalog, from a node to one below it.
use polis_memory.Prelude.{ℕ, suc, ◌+◌, ◌≡◌, refl, ap, subst, Option, none, some, List, arith}
use polis_memory.Catalog.{Node}
use polis_memory.Adjudicate.{get}
use polis_memory.Adjudicate.Walks.{Rooted, Under, child, itself, lower, root}

-- The node `d` stands `j` steps down from `id`.
pub data Descent (nodes : List Node) (d : ℕ) : ℕ → ℕ → Type 0 where
  stop : Descent nodes d d 0
  down :
      (id c j : ℕ) (n : Node)
      → get nodes c ≡ some n
      → n.parent_id ≡ some id
      → Descent nodes d c j
      → Descent nodes d id (suc j)

-- One more step at the lower end.
Descent-snoc :
    (nodes : List Node) (p d id j : ℕ) (n : Node)
    → get nodes d ≡ some n
    → n.parent_id ≡ some p
    → Descent nodes p id j
    → Descent nodes d id (suc j)
Descent-snoc nodes p d id j n e q stop = down p d 0 n e q stop
Descent-snoc nodes p d id j n e q (down _ c i m f r w) =
    down id c (suc i) m f r (Descent-snoc nodes p d c i n e q w)

pub Descent-Under : (nodes : List Node) (top d j : ℕ) → Under nodes top d j → Descent nodes d top j
Descent-Under nodes top d j itself = stop
Descent-Under nodes top d j (lower _ p i n ne e q u) =
    Descent-snoc nodes p d top i n e q (Descent-Under nodes top p i u)

-- The root above a node.
pub record Top (nodes : List Node) (id k : ℕ) : Type 0 where
  pub top : ℕ
  pub row : Node
  pub there : get nodes top ≡ some row
  pub free : row.parent_id ≡ none
  pub way : Descent nodes id top k

pub Top-Rooted : (nodes : List Node) (id k : ℕ) → Rooted nodes id k → Top nodes id k
Top-Rooted nodes id k (root _ n e p) = record { top = id; row = n; there = e; free = p; way = stop }
Top-Rooted nodes id k (child _ p j n e q r) =
    let t = Top-Rooted nodes p j r in
    record {
      top = t.top;
      row = t.row;
      there = t.there;
      free = t.free;
      way = Descent-snoc nodes p id t.top j n e q t.way;
    }

none-some :
    (p : ℕ) (n m : Node) (o : Option Node)
    → o ≡ some n
    → o ≡ some m
    → n.parent_id ≡ none
    → ¬ (m.parent_id ≡ some p)
none-some p n m o e d q r = cc

same_up :
    (p p' : ℕ) (n m : Node) (o : Option Node)
    → o ≡ some n
    → o ≡ some m
    → n.parent_id ≡ some p
    → m.parent_id ≡ some p'
    → p ≡ p'
same_up p p' n m o e d q r = cc

-- A node stands at one depth only.
pub Rooted-unique : (nodes : List Node) (id k m : ℕ) → Rooted nodes id k → Rooted nodes id m → k ≡ m
Rooted-unique nodes id k m (root _ n e p) (root _ n' e' p') = refl
Rooted-unique nodes id k m (root _ n e p) (child _ q j n' e' q' r) =
    absurd (none-some q n n' (get nodes id) e e' p q')
Rooted-unique nodes id k m (child _ q j n e q' r) (root _ n' e' p') =
    absurd (none-some q n' n (get nodes id) e' e p' q')
Rooted-unique nodes id k m (child _ p j n e q r) (child _ p' j' n' e' q' r') = ap suc (
    Rooted-unique nodes p j j' r
      (subst (λ (x : ℕ). Rooted nodes x j') (same_up p' p n' n (get nodes id) e' e q' q) r'))

-- A node above a rooted one is rooted, higher up by the steps between them.
pub Rooted-above :
    (nodes : List Node) (top d j k : ℕ)
    → Under nodes top d j
    → Rooted nodes d k
    → (m : ℕ) × (j + m ≡ k) × Rooted nodes top m
Rooted-above nodes top d j k itself r = (k, omega arith, r)
Rooted-above nodes top d j k (lower _ p i n ne e q u) (root _ n' e' p') =
    absurd (none-some p n' n (get nodes d) e' e p' q)
Rooted-above nodes top d j k (lower _ p i n ne e q u) (child _ p' i' n' e' q' r) =
    let (m, sum, up) =
      Rooted-above nodes top p i i' u
        (subst (λ (x : ℕ). Rooted nodes x i') (same_up p' p n' n (get nodes d) e' e q' q) r) in
    (m, omega (arith, sum), up)
