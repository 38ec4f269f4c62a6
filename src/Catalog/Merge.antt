-- ===== src/Catalog/Merge.antt =====
-- The merge of `apply_class_proposal_in_run`: links, children and observations of the absorbed nodes.
use polis_memory.Prelude.{
  ℕ, Bool, false, Option, none, some, List, [], ◌∷◌, ◌++◌, if◌then◌else◌, map, map_some,
}
use polis_memory.Prelude.Tables.{keys_where, lookup, update, update_each}
use polis_memory.Prelude.Text.{Text}
use polis_memory.Catalog.{
  Catalog, Node, Observation, live_child, live_link, live_observation, mark_link, mark_node,
  mark_observation, unmarked,
}
use polis_memory.Catalog.Reorg.{
  Applied, Moved, Subject, node, link, merge, everything, link_id, move_link, node_id, set_parent,
  set_title,
}

-- What a merge has done so far.
pub record Merging : Type 0 where
  pub subjects : List Subject
  pub absorbed : List ℕ
  pub moved : List Moved
  pub leftover : List ℕ
  pub children : List Moved
  pub observations : List ℕ
  pub catalog : Catalog

-- The links of `from`, moved to the target where it has no such link, and marked where it has.
unfoldable pub merge_links : ℕ → ℕ → ℕ → List ℕ → Merging → Merging
unfolding move_link update
merge_links run target from [] m = m
merge_links run target from (id ∷ ids) m =
    let (changed, links) = move_link id target everything m.catalog.links in
    let next : Merging =
      if changed
      then record m {
        moved = m.moved ++ (record { id = id; from = from }) ∷ [];
        catalog = record m.catalog { links = links };
      }
      else record m {
        leftover = m.leftover ++ id ∷ [];
        catalog = record m.catalog {
          links = update link_id id everything (mark_link run) m.catalog.links;
        };
      } in
    merge_links run target from ids (record next { subjects = next.subjects ++ link id ∷ [] })

unfoldable pub merge_rest : ℕ → ℕ → ℕ → Merging → Merging
unfolding update update_each keys_where
merge_rest run target other m =
    let obs_ids =
      keys_where (λ (o : Observation). o.id) (live_observation other) m.catalog.observations in
    let kids = keys_where node_id (live_child other) m.catalog.nodes in
    record m {
      observations = m.observations ++ obs_ids;
      children = m.children ++ map (λ (k : ℕ). record { id = k; from = other }) kids;
      absorbed = m.absorbed ++ other ∷ [];
      catalog = record m.catalog {
        observations =
            update_each (λ (o : Observation). o.id) obs_ids everything (mark_observation run)
              m.catalog.observations;
        nodes =
            update node_id other everything (mark_node run (some target))
              (update_each node_id kids everything (set_parent (some target)) m.catalog.nodes);
      };
    }

abbrev pub is_live : Option Node → Bool
is_live none = false
is_live (some n) = unmarked n.retired_by_run

unfoldable pub merge_one : ℕ → ℕ → ℕ → Merging → Merging
unfolding merge_links merge_rest lookup keys_where
merge_one run target other m =
    let live = is_live (lookup node_id other m.catalog.nodes) in
    let links = keys_where link_id (live_link other) m.catalog.links in
    if live
    then merge_rest run target other
        (merge_links run target other links (record m { subjects = m.subjects ++ node other ∷ [] }))
    else m

unfoldable pub merge_each : ℕ → ℕ → List ℕ → Merging → Merging
unfolding merge_one
merge_each run target [] m = m
merge_each run target (other ∷ others) m =
    merge_each run target others (merge_one run target other m)

abbrev pub retitle : ℕ → Option Text → List Node → List Node
retitle id none nodes = nodes
retitle id (some title) nodes = update node_id id everything (set_title title) nodes

abbrev pub reparent : ℕ → Option ℕ → List Node → List Node
reparent id none nodes = nodes
reparent id (some parent) nodes = update node_id id everything (set_parent (some parent)) nodes

unfoldable pub merge_row : ℕ → List ℕ → Option Text → Option ℕ → ℕ → Node → Catalog → Applied
unfolding merge_each
merge_row target others title parent run row cat =
    let m = merge_each run target others (record {
      subjects = node target ∷ [];
      absorbed = [];
      moved = [];
      leftover = [];
      children = [];
      observations = [];
      catalog = record cat { nodes = reparent target parent (retitle target title cat.nodes) };
    }) in
    record {
      subjects = m.subjects;
      image =
          merge target row.title row.parent_id m.moved m.children
            (record { nodes = m.absorbed; links = m.leftover; observations = m.observations });
      catalog = m.catalog;
    }

unfoldable pub apply_merge : ℕ → List ℕ → Option Text → Option ℕ → ℕ → Catalog → Option Applied
unfolding merge_row lookup
apply_merge target others title parent run cat =
    map_some (λ (row : Node). merge_row target others title parent run row cat)
      (lookup node_id target cat.nodes)
