-- ===== src/Catalog/Closed.antt =====
-- A retirement reaches the whole branch, and nothing else.
use mathlib.Core.List.{reverse, reverse_aux}
use polis_memory.Prelude.{
  ℕ, ◌≡◌, refl, sym, ap, subst, ◌∙◌, ◌<◌, Bool, true, false, Option, none, some, List, [], ◌∷◌,
  ◌++◌, ◌==◌, if◌then◌else◌, arith, zero, suc, length, map_some, Bool-cases, ==_iff, inl, inr,
}
use polis_memory.Prelude.Tables.{
  lookup, lookup-key, lookup-update_each, keys_where, update_each, member, member-append, updated,
}
use polis_memory.Catalog.{
  Catalog, Node, live_child, mark_node, retire_each, retire_node_subtree, unmarked, walk,
  walk_limit,
}
use polis_memory.Catalog.Retire.{retired_nodes}

member-reverse_aux :
    (k : ℕ) (xs r : List ℕ)
    → member k (reverse_aux xs r) ≡ (if member k xs then true else member k r)
unfolding member
member-reverse_aux k [] r = refl
member-reverse_aux k (x ∷ xs) r = ground (arith, member-reverse_aux k xs (x ∷ r))

member_pushed : (k : ℕ) (xs r : List ℕ) → member k xs ≡ true → member k (reverse xs ++ r) ≡ true
unfolding member
member_pushed k xs r e = ground (arith, member-append k (reverse xs) r, member-reverse_aux k xs [])

-- Every id on the stack is taken, if the walk ends before its limit.
walk_stack :
    (left : ℕ) (stack : List ℕ) (nodes : List Node)
    → length (walk left stack nodes) < left
    → (k : ℕ) → member k stack ≡ true
    → member k (walk left stack nodes) ≡ true
unfolding walk member
walk_stack zero stack nodes lt k e = absurd (omega arith)
walk_stack (suc left) [] nodes lt k e = e
walk_stack (suc left) (id ∷ stack) nodes lt k e =
    let kids = keys_where (λ (n : Node). n.id) (live_child id) nodes in
    let below = walk_stack left (reverse kids ++ stack) nodes (omega arith) k in
    ground (arith, below, member-append k (reverse kids) stack)

-- And with an id its live children.
walk_children :
    (left : ℕ) (stack : List ℕ) (nodes : List Node)
    → length (walk left stack nodes) < left
    → (id k : ℕ) → member id (walk left stack nodes) ≡ true
    → member k (keys_where (λ (n : Node). n.id) (live_child id) nodes) ≡ true
    → member k (walk left stack nodes) ≡ true
unfolding walk member
walk_children zero stack nodes lt id k w e = absurd (omega arith)
walk_children (suc left) [] nodes lt id k w e = w
walk_children (suc left) (top ∷ stack) nodes lt id k w e =
    let kids = keys_where (λ (n : Node). n.id) (live_child top) nodes in
    elim (Bool-cases (id == top)) [
      | inl here ↦
          let child =
            subst
              (λ (j : ℕ). member k (keys_where (λ (n : Node). n.id) (live_child j) nodes) ≡ true)
              ((==_iff id top).0 here) e in
          let reached =
            walk_stack left (reverse kids ++ stack) nodes (omega arith) k
              (member_pushed k kids stack child) in
          ground (arith, reached)
      | inr below ↦
          let reached =
            walk_children left (reverse kids ++ stack) nodes (omega arith) id k
              (ground (arith, w, below)) e in
          ground (arith, reached)
    ]

member_here : (k : ℕ) → member k (k ∷ []) ≡ true
unfolding member
member_here k = ground arith

-- A row has its key among those selected by a test that it passes.
keys_where_all :
    (p : Node → Bool) (k : ℕ) (n : Node) (nodes : List Node)
    → lookup (λ (m : Node). m.id) k nodes ≡ some n
    → p n ≡ true
    → member k (keys_where (λ (m : Node). m.id) p nodes) ≡ true
unfolding keys_where member lookup
keys_where_all p k n [] e t = cc
keys_where_all p k n (m ∷ nodes) e t =
    let rest = keys_where_all p k n nodes in
    elim (Bool-cases (m.id == k)) [
      | inl same ↦
          let here : m ≡ n = ground (arith, same, e) in
          ground (arith, same, (==_iff m.id k).0 same, t, ap p here)
      | inr other ↦ ground (arith, other, e, t, rest)
    ]

row_live :
    (run : ℕ) (into : Option ℕ) (ids : List ℕ) (m : Node)
    → let u =
        updated (λ (x : Node). x.id) (λ x. unmarked x.retired_by_run) (mark_node run into) ids m in
      unmarked u.retired_by_run ≡ true → (member m.id ids ≡ false) × (u ≡ m)
row_live run into ids m e = (ground (arith, e), ground (arith, e))

some_inj {ℓ} : {A : Type ℓ} {x y : A} → some x ≡ some y → x ≡ y
some_inj e = cc

retired_row :
    (run : ℕ) (into : Option ℕ) (ids : List ℕ) (k : ℕ) (n m : Node) (nodes : List Node)
    → lookup (λ (x : Node). x.id) k nodes ≡ some m
    → lookup
        (λ (x : Node). x.id)
        k
        (update_each
          (λ (x : Node). x.id)
          ids
          (λ x. unmarked x.retired_by_run)
          (mark_node run into)
          nodes)
      ≡ some n
    → unmarked n.retired_by_run ≡ true
    → (member k ids ≡ false) × (m ≡ n)
retired_row run into ids k n m nodes found after live =
    let row =
      lookup-update_each (λ (x : Node). x.id) (λ x. unmarked x.retired_by_run) (mark_node run into)
        (λ r. refl) (λ r. refl) ids k nodes in
    let stays = some_inj (
      ap
        (map_some (λ (r : Node).
          updated (λ (x : Node). x.id) (λ x. unmarked x.retired_by_run) (mark_node run into) ids r))
        (sym found)
      ∙ sym row
      ∙ after) in
    let alive =
      row_live run into ids m
        (subst (λ (x : Node). unmarked x.retired_by_run ≡ true) (sym stays) live) in
    (
      subst (λ (j : ℕ). member j ids ≡ false) (lookup-key (λ (x : Node). x.id) k nodes m found)
          alive.0,
      sym alive.1 ∙ stays,
    )

abbrev pub among : Option ℕ → List ℕ → Bool
among none ids = false
among (some k) ids = member k ids

not_true : (b : Bool) → (b ≡ true → ⊥) → b ≡ false
not_true true h = absurd (h refl)
not_true false h = refl

-- The parent of a live node was not walked: else the node was walked with it.
parent_not_walked :
    (limit id k : ℕ) (m : Node) (o : Option ℕ) (nodes : List Node)
    → length (walk limit (id ∷ []) nodes) < limit
    → lookup (λ (x : Node). x.id) k nodes ≡ some m
    → unmarked m.retired_by_run ≡ true
    → m.parent_id ≡ o
    → member k (walk limit (id ∷ []) nodes) ≡ false
    → among o (walk limit (id ∷ []) nodes) ≡ false
parent_not_walked limit id k m none nodes short found live e out = refl
parent_not_walked limit id k m (some parent) nodes short found live e out =
    not_true (member parent (walk limit (id ∷ []) nodes)) (λ inside.
      let child =
        keys_where_all (live_child parent) k m nodes found (rw (e, live) (ground arith)) in
      let reached = walk_children limit (id ∷ []) nodes short parent k inside child in
      (let clash : true ≡ false = sym reached ∙ out in cc clash))

closed_each :
    (limit id run : ℕ) (into : Option ℕ) (cat : Catalog) (k : ℕ) (m n : Node)
    → length (walk limit (id ∷ []) cat.nodes) < limit
    → lookup (λ (x : Node). x.id) k cat.nodes ≡ some m
    → lookup
        (λ (x : Node). x.id)
        k
        (retire_each run into (walk limit (id ∷ []) cat.nodes) cat).1.nodes
      ≡ some n
    → unmarked n.retired_by_run ≡ true
    → let retired = (retire_each run into (walk limit (id ∷ []) cat.nodes) cat).0.nodes in
      (m ≡ n)
      × (member id retired ≡ true)
      × (member k retired ≡ false)
      × (among n.parent_id retired ≡ false)
closed_each limit id run into cat k m n short found after live =
    let ids = walk limit (id ∷ []) cat.nodes in
    let r = retired_nodes run into ids cat in
    let row =
      retired_row run into ids k n m cat.nodes found
        (sym (ap (lookup (λ (x : Node). x.id) k) r.1) ∙ after) live in
    rw (r.0) (
      row.1,
      walk_stack limit (id ∷ []) cat.nodes short id (member_here id),
      row.0,
      parent_not_walked limit id k m n.parent_id cat.nodes short found
          (subst (λ (x : Node). unmarked x.retired_by_run ≡ true) (sym row.1) live)
          (ap (λ (x : Node). x.parent_id) row.1) row.0,
    )

-- After a retirement whose walk stayed below its limit, the branch is closed. The root is among the
-- retired nodes. A node that is live afterwards is the same row as before, is not among them, and
-- neither is its parent.
pub retire_node_subtree_closed :
    (id run : ℕ) (into : Option ℕ) (cat : Catalog) (k : ℕ) (m n : Node)
    → length (walk walk_limit (id ∷ []) cat.nodes) < walk_limit
    → lookup (λ (x : Node). x.id) k cat.nodes ≡ some m
    → lookup (λ (x : Node). x.id) k (retire_node_subtree id run into cat).1.nodes ≡ some n
    → unmarked n.retired_by_run ≡ true
    → let retired = (retire_node_subtree id run into cat).0.nodes in
      (m ≡ n)
      × (member id retired ≡ true)
      × (member k retired ≡ false)
      × (among n.parent_id retired ≡ false)
unfolding retire_node_subtree
retire_node_subtree_closed id run into cat = closed_each walk_limit id run into cat
