-- ===== src/Catalog/Selves.antt =====
-- A merge whose list names its target twice.
use polis_memory.Prelude.{
  ℕ, ◌≡◌, refl, sym, ap, ◌∙◌, Bool, true, Option, none, some, List, [], ◌∷◌, arith, map_some, subst,
  ◌++◌, if◌then◌else◌,
}
use polis_memory.Prelude.Tables.{keys_where, lookup, lookup-update_same}
use polis_memory.Prelude.Text.{Text}
use polis_memory.Catalog.{Catalog, Node, live_link, mark_node, unmarked}
use polis_memory.Catalog.Reorg.{Applied, node, everything, link_id, node_id, set_parent, set_title}
use polis_memory.Catalog.Merge.{
  Merging, apply_merge, is_live, merge_each, merge_links, merge_one, merge_rest, merge_row,
  reparent, retitle,
}

retitle-is_live :
    (id : ℕ) (title : Option Text) (nodes : List Node)
    → is_live (lookup node_id id (retitle id title nodes)) ≡ is_live (lookup node_id id nodes)
retitle-is_live id none nodes = refl
retitle-is_live id (some title) nodes =
    ap is_live (lookup-update_same node_id id everything (set_title title) (λ a. refl) nodes)
    ∙ same (lookup node_id id nodes)
  where
    same : (o : Option Node) → is_live (map_some (λ (n : Node). set_title title n) o) ≡ is_live o
    same none = refl
    same (some n) = refl

reparent-is_live :
    (id : ℕ) (parent : Option ℕ) (nodes : List Node)
    → is_live (lookup node_id id (reparent id parent nodes)) ≡ is_live (lookup node_id id nodes)
reparent-is_live id none nodes = refl
reparent-is_live id (some parent) nodes =
    ap is_live
      (lookup-update_same node_id id everything (set_parent (some parent)) (λ a. refl) nodes)
    ∙ same (lookup node_id id nodes)
  where
    same :
        (o : Option Node)
        → is_live (map_some (λ (n : Node). set_parent (some parent) n) o) ≡ is_live o
    same none = refl
    same (some n) = refl

marked_row :
    (run target : ℕ) (n : Node) (o : Option Node)
    → map_some (λ (m : Node). mark_node run (some target) m) o ≡ some n
    → (n.retired_by_run ≡ some run) × (n.retired_into ≡ some target)
marked_row run target n none e = cc
marked_row run target n (some m) e = (ground (arith, e), ground (arith, e))

rest_marks :
    (run target : ℕ) (m : Merging) (n : Node)
    → lookup node_id target (merge_rest run target target m).catalog.nodes ≡ some n
    → (n.retired_by_run ≡ some run) × (n.retired_into ≡ some target)
unfolding merge_rest
rest_marks run target m n e = marked_row run target n _ (
    sym (lookup-update_same node_id target everything (mark_node run (some target)) (λ a. refl) _)
    ∙ e)

one_marks :
    (run target : ℕ) (m : Merging) (n : Node)
    → is_live (lookup node_id target m.catalog.nodes) ≡ true
    → lookup node_id target (merge_one run target target m).catalog.nodes ≡ some n
    → (n.retired_by_run ≡ some run) × (n.retired_into ≡ some target)
unfolding merge_one
one_marks run target m n live e =
    let moved =
      merge_links run target target (keys_where link_id (live_link target) m.catalog.links)
        (record m { subjects = m.subjects ++ node target ∷ [] }) in
    rest_marks run target moved n (
      subst
        (λ (b : Bool).
          lookup node_id target (if b then merge_rest run target target moved else m).catalog.nodes
          ≡ some n)
        live e)

some_inj : {x y : Applied} → some x ≡ some y → x ≡ y
some_inj e = cc

row_marks :
    (target run : ℕ) (title : Option Text) (parent : Option ℕ) (cat : Catalog) (row n : Node)
    → is_live (lookup node_id target cat.nodes) ≡ true
    → lookup node_id target (merge_row target (target ∷ []) title parent run row cat).catalog.nodes
      ≡ some n
    → (n.retired_by_run ≡ some run) × (n.retired_into ≡ some target)
unfolding merge_row merge_each
row_marks target run title parent cat row n live e =
    one_marks run target
      (record {
        subjects = node target ∷ [];
        absorbed = [];
        moved = [];
        leftover = [];
        children = [];
        observations = [];
        catalog = record cat { nodes = reparent target parent (retitle target title cat.nodes) };
      })
      n
      (reparent-is_live target parent (retitle target title cat.nodes)
        ∙ retitle-is_live target title cat.nodes
        ∙ live)
      e

-- A merge of a live node with itself retires the node into itself: afterwards the target is no live
-- node, and its mark names itself as the place where its links went.
pub apply_merge_self :
    (target run : ℕ) (title : Option Text) (parent : Option ℕ) (cat : Catalog) (row n : Node)
    (a : Applied)
    → lookup node_id target cat.nodes ≡ some row
    → unmarked row.retired_by_run ≡ true
    → apply_merge target (target ∷ []) title parent run cat ≡ some a
    → lookup node_id target a.catalog.nodes ≡ some n
    → (n.retired_by_run ≡ some run) × (n.retired_into ≡ some target)
unfolding apply_merge
apply_merge_self target run title parent cat row n a found live e after =
    let made = some_inj (
      sym
        (ap (map_some (λ (r : Node). merge_row target (target ∷ []) title parent run r cat)) found)
      ∙ e) in
    row_marks target run title parent cat row n (ap is_live found ∙ live)
      (ap (λ (x : Applied). lookup node_id target x.catalog.nodes) made ∙ after)
