-- ===== src/Catalog/Tests.antt =====
-- A catalog of a root, a branch of two nodes below it, two links and an observation.
use polis_memory.Prelude.{
  ℕ, ◌≡◌, refl, ◌<◌, true, false, none, some, [], ◌∷◌, arith, length, Option,
}
use polis_memory.Prelude.Tables.{lookup, update, update_each, keys_where, member}
use polis_memory.Prelude.Text.{codes}
use polis_memory.Catalog.{
  Catalog, Link, Node, retire_each, retire_node, retire_node_subtree, unretire_locked, walk,
  walk_limit,
}
use polis_memory.Catalog.Retire.{unretire-retire}
use polis_memory.Catalog.Closed.{among, retire_node_subtree_closed}
use polis_memory.Prelude.{any}
use polis_memory.Prelude.Text.{text_eq}
use polis_memory.Catalog.{mark_node}
use polis_memory.Catalog.Reorg.{Applied, move_link, same_target, taken}
use polis_memory.Catalog.Merge.{
  apply_merge, merge_each, merge_links, merge_one, merge_rest, merge_row,
}
use polis_memory.Catalog.Selves.{apply_merge_self}

abbrev pub plain : ℕ → Option ℕ → Node
plain id parent = record {
  id = id;
  parent_id = parent;
  kind = codes "node";
  title = codes "t";
  summary = none;
  curated_by = none;
  retired_by_run = none;
  retired_into = none;
}

abbrev pub pointer : ℕ → ℕ → Link
pointer id on = record {
  id = id;
  node_id = on;
  target_kind = codes "ledger";
  target_id = id ∷ [];
  note = none;
  retired_by_run = none;
}

abbrev pub branch : Catalog
branch = record {
  nodes = plain 1 none ∷ plain 2 (some 1) ∷ plain 3 (some 2) ∷ [];
  links = pointer 10 1 ∷ pointer 11 3 ∷ [];
  observations = record { id = 20; node_id = 3; retired_by_run = none } ∷ [];
  next_link = 12;
}

retired_branch :
    (retire_node_subtree 2 7 none branch).0
    ≡ record { nodes = 2 ∷ 3 ∷ []; links = 11 ∷ []; observations = 20 ∷ [] }
unfolding retire_node_subtree walk retire_each retire_node keys_where update update_each
retired_branch = refl

unretire-retire_example :
    let r = retire_node_subtree 2 7 none branch in unretire_locked 7 r.0 r.1 ≡ branch
unfolding lookup
unretire-retire_example =
    unretire-retire 2 7 none branch (refl, (refl, tt)) (refl, tt)
      ((refl, λ e. refl), ((refl, λ e. refl), ((refl, λ e. refl), tt)))

short_walk : length (walk walk_limit (2 ∷ []) branch.nodes) < walk_limit
unfolding walk keys_where
short_walk = omega arith

root_stays :
    lookup (λ (x : Node). x.id) 1 (retire_node_subtree 2 7 none branch).1.nodes
    ≡ some (plain 1 none)
unfolding retire_node_subtree walk retire_each retire_node keys_where update update_each lookup
root_stays = refl

retire_node_subtree_closed_example :
    let retired = (retire_node_subtree 2 7 none branch).0.nodes in
    (plain 1 none ≡ plain 1 none)
    × (member 2 retired ≡ true)
    × (member 1 retired ≡ false)
    × (among none retired ≡ false)
unfolding lookup
retire_node_subtree_closed_example =
    retire_node_subtree_closed 2 7 none branch 1 (plain 1 none) (plain 1 none) short_walk refl
      root_stays refl

abbrev self_merge : Applied
self_merge = merge_row 3 (3 ∷ []) none none 7 (plain 3 (some 2)) branch

self_made : apply_merge 3 (3 ∷ []) none none 7 branch ≡ some self_merge
unfolding apply_merge lookup
self_made = refl

self_gone :
    lookup (λ (n : Node). n.id) 3 self_merge.catalog.nodes
    ≡ some (mark_node 7 (some 3) (plain 3 (some 2)))
unfolding merge_row merge_each merge_one merge_links merge_rest move_link taken same_target text_eq
    any lookup update update_each keys_where
self_gone = refl

apply_merge_self_example :
    ((mark_node 7 (some 3) (plain 3 (some 2))).retired_by_run ≡ some 7)
    × ((mark_node 7 (some 3) (plain 3 (some 2))).retired_into ≡ some 3)
unfolding lookup
apply_merge_self_example =
    apply_merge_self 3 7 none none branch (plain 3 (some 2))
      (mark_node 7 (some 3) (plain 3 (some 2))) self_merge refl refl self_made self_gone
