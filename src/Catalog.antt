-- ===== src/Catalog.antt =====
-- The class catalog: nodes, links and observations, of which destructive operations only mark rows
-- as retired. The marks are crates/polis-store/src/runs.rs, the operations on proposals that use them
-- crates/polis-store/src/catalog.rs. Numbers stand for node ids, which are compared and nothing else.
-- Timestamps and the columns that no modelled operation reads or writes are left out.
pub mod Retire
pub mod Closed
pub mod Reorg
pub mod Merge
pub mod Selves
pub mod Cites
pub mod Tests
use mathlib.Core.List.{reverse}
use polis_memory.Prelude.{
  ℕ, zero, suc, ◌+◌, Bool, true, false, not, ◌&&◌, Option, none, some, List, [], ◌∷◌, ◌++◌, ◌==◌,
  if◌then◌else◌, is_some, ◌≡◌,
}
use polis_memory.Prelude.Tables.{keys_where, update, update_each}
use polis_memory.Prelude.Text.{Text}

pub record Node : Type 0 where
  pub id : ℕ
  pub parent_id : Option ℕ
  pub kind : Text
  pub title : Text
  pub summary : Option Text
  pub curated_by : Option Text
  pub retired_by_run : Option ℕ
  pub retired_into : Option ℕ

pub record Link : Type 0 where
  pub id : ℕ
  pub node_id : ℕ
  pub target_kind : Text
  pub target_id : Text
  pub note : Option Text
  pub retired_by_run : Option ℕ

pub record Observation : Type 0 where
  pub id : ℕ
  pub node_id : ℕ
  pub retired_by_run : Option ℕ

-- `next_link` is the rowid that the next link gets.
pub record Catalog : Type 0 where
  pub nodes : List Node
  pub links : List Link
  pub observations : List Observation
  pub next_link : ℕ

-- retired_by_run IS NULL.
abbrev pub unmarked : Option ℕ → Bool
unmarked mark = not (is_some mark)

-- retired_by_run = run.
abbrev pub marked_by : ℕ → Option ℕ → Bool
marked_by run none = false
marked_by run (some r) = r == run

-- parent_id = id.
abbrev pub under : ℕ → Option ℕ → Bool
under id none = false
under id (some parent) = parent == id

-- The rows that a retirement marked.
pub record RetiredSet : Type 0 where
  pub nodes : List ℕ
  pub links : List ℕ
  pub observations : List ℕ

abbrev pub live_child : ℕ → Node → Bool
live_child id n = under id n.parent_id && unmarked n.retired_by_run

abbrev pub live_link : ℕ → Link → Bool
live_link id l = l.node_id == id && unmarked l.retired_by_run

abbrev pub live_observation : ℕ → Observation → Bool
live_observation id o = o.node_id == id && unmarked o.retired_by_run

-- The walk down from the ids on the stack, whose top is its first: at most `left` ids are taken.
unfoldable pub walk : ℕ → List ℕ → List Node → List ℕ
unfolding keys_where
walk zero stack nodes = []
walk (suc left) [] nodes = []
walk (suc left) (id ∷ stack) nodes =
    id ∷ walk left (reverse (keys_where (λ n. n.id) (live_child id) nodes) ++ stack) nodes

abbrev pub walk_limit : ℕ
walk_limit = 10000

abbrev pub mark_node : ℕ → Option ℕ → Node → Node
mark_node run into n = record n { retired_by_run = some run; retired_into = into }

abbrev pub mark_link : ℕ → Link → Link
mark_link run l = record l { retired_by_run = some run }

abbrev pub mark_observation : ℕ → Observation → Observation
mark_observation run o = record o { retired_by_run = some run }

unfoldable pub retire_node : ℕ → Option ℕ → ℕ → Catalog → RetiredSet × Catalog
unfolding keys_where update update_each
retire_node run into id cat =
    let links = keys_where (λ (l : Link). l.id) (live_link id) cat.links in
    let observations =
      keys_where (λ (o : Observation). o.id) (live_observation id) cat.observations in
    (
      record { nodes = id ∷ []; links = links; observations = observations },
      record cat {
        nodes =
            update (λ n. n.id) id (λ n. unmarked n.retired_by_run) (mark_node run into) cat.nodes;
        links = update_each (λ l. l.id) links (λ l. true) (mark_link run) cat.links;
        observations =
            update_each (λ o. o.id) observations (λ o. true) (mark_observation run)
              cat.observations;
      },
    )

unfoldable pub retire_each : ℕ → Option ℕ → List ℕ → Catalog → RetiredSet × Catalog
unfolding retire_node
retire_each run into [] cat = (record { nodes = []; links = []; observations = [] }, cat)
retire_each run into (id ∷ ids) cat =
    let (first, cat_1) = retire_node run into id cat in
    let (rest, cat_2) = retire_each run into ids cat_1 in
    (
      record {
        nodes = first.nodes ++ rest.nodes;
        links = first.links ++ rest.links;
        observations = first.observations ++ rest.observations;
      },
      cat_2,
    )

unfoldable pub retire_node_subtree : ℕ → ℕ → Option ℕ → Catalog → RetiredSet × Catalog
unfolding walk retire_each
retire_node_subtree id run into cat = retire_each run into (walk walk_limit (id ∷ []) cat.nodes) cat

abbrev pub clear_node : Node → Node
clear_node n = record n { retired_by_run = none; retired_into = none }

abbrev pub clear_link : Link → Link
clear_link l = record l { retired_by_run = none }

abbrev pub clear_observation : Observation → Observation
clear_observation o = record o { retired_by_run = none }

unfoldable pub unretire_locked : ℕ → RetiredSet → Catalog → Catalog
unfolding update_each
unretire_locked run set cat = record cat {
  nodes =
      update_each (λ n. n.id) set.nodes (λ n. marked_by run n.retired_by_run) clear_node cat.nodes;
  links =
      update_each (λ l. l.id) set.links (λ l. marked_by run l.retired_by_run) clear_link cat.links;
  observations =
      update_each (λ o. o.id) set.observations (λ o. marked_by run o.retired_by_run)
        clear_observation cat.observations;
}
