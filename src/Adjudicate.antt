-- ===== src/Adjudicate.antt =====
-- crates/polis-memory/src/adjudicate.rs: the rules that apply, refuse or hold a structural proposal,
-- read against one snapshot of the catalog. Reasons carry what their messages print.
pub mod Verdicts
pub mod Titles
pub mod Rules
pub mod Queue
pub mod Walks
pub mod Forest
pub mod Promote
pub mod Stale
pub mod Descents
pub mod Protects
pub mod Covers
pub mod Collapse
pub mod Tests
use polis_memory.Prelude.{
  ℕ, zero, suc, ◌+◌, ◌-◌, ◌*◌, min, max, Bool, true, false, not, ◌&&◌, ◌||◌, Option, none, some,
  List, [], ◌∷◌, ◌++◌, ◌==◌, if◌then◌else◌, any, find, get_elem?, is_empty, is_some, keep, keep_if,
  leb, length, ltb, map, unwrap_or, ◌>>=◌, ◌≡◌,
}
use polis_memory.Prelude.Int.{ℤ, leb_ℤ, ltb_ℤ, ◌-ℤ◌, pos_part}
use polis_memory.Prelude.Tables.{keys_where, lookup, member}
use polis_memory.Prelude.Text.{Text, codes, text_eq}
use polis_memory.Query.{Chars}
use polis_memory.Query.Words.{split}
use polis_memory.Catalog.{Catalog, Node, under, unmarked}
use polis_memory.Catalog.Reorg.{SplitPart, node_id}

-- `Catalog::load`: the live nodes in the order that SQLite gives them.
abbrev pub live : Node → Bool
live n = unmarked n.retired_by_run

unfoldable pub load : (List Node → List Node) → Catalog → List Node
unfolding keep
load order_by_title cat = order_by_title (keep live cat.nodes)

-- The functions of the snapshot, whose `by_id` is the search by id.
unfoldable pub get : List Node → ℕ → Option Node
unfolding lookup
get nodes id = lookup node_id id nodes

abbrev pub parent_of : Option Node → Option ℕ
parent_of none = none
parent_of (some n) = n.parent_id

-- The loop of `root_of` at a node and its parent: `left` more steps up are taken.
unfoldable pub root_from : ℕ → List Node → ℕ → Option ℕ → Option ℕ
unfolding get
root_from left nodes id none = some id
root_from zero nodes id (some p) = none
root_from (suc left) nodes id (some p) =
    get nodes p >>= (λ (m : Node). root_from left nodes m.id m.parent_id)

unfoldable pub root_of : List Node → ℕ → Option ℕ
unfolding root_from
root_of nodes id = get nodes id >>= (λ (n : Node). root_from 64 nodes n.id n.parent_id)

-- The loop of `depth_of` from a parent: it breaks when it has counted past 64.
unfoldable pub depth_from : ℕ → List Node → Option ℕ → ℕ
unfolding get
depth_from left nodes none = 0
depth_from zero nodes (some p) = 1
depth_from (suc left) nodes (some p) = suc (depth_from left nodes (parent_of (get nodes p)))

unfoldable pub depth_of : List Node → ℕ → ℕ
unfolding depth_from
depth_of nodes id = depth_from 64 nodes (parent_of (get nodes id))

abbrev pub children : List Node → ℕ → List ℕ
children nodes id = keys_where node_id (λ (n : Node). under id n.parent_id) nodes

-- `map(f).max()` of a list with a first entry.
abbrev pub highest : (ℕ → ℕ) → ℕ → List ℕ → ℕ
highest f c [] = f c
highest f c (d ∷ cs) = max (f c) (highest f d cs)

abbrev pub above : (ℕ → ℕ) → List ℕ → ℕ
above f [] = 0
above f (c ∷ cs) = 1 + highest f c cs

-- `h` of `subtree_height`: `left` more levels are looked at.
unfoldable pub height : ℕ → List Node → ℕ → ℕ
unfolding keys_where
height zero nodes id = 0
height (suc left) nodes id = above (λ (c : ℕ). height left nodes c) (children nodes id)

unfoldable pub subtree_height : List Node → ℕ → ℕ
unfolding height
subtree_height nodes id = height 65 nodes id

-- The loop of `is_descendant`.
unfoldable pub climbs_to : ℕ → List Node → ℕ → Option ℕ → Bool
unfolding get
climbs_to left nodes ancestor none = false
climbs_to zero nodes ancestor (some p) = p == ancestor
climbs_to (suc left) nodes ancestor (some p) =
    let higher = climbs_to left nodes ancestor (parent_of (get nodes p)) in
    if p == ancestor then true else higher

unfoldable pub is_descendant : List Node → ℕ → ℕ → Bool
unfolding climbs_to
is_descendant nodes id ancestor = climbs_to 64 nodes ancestor (parent_of (get nodes id))

unfoldable pub siblings_under : List Node → ℕ → List Node
unfolding keep
siblings_under nodes parent =
    keep (λ (n : Node). under parent n.parent_id && text_eq n.kind (codes "node")) nodes
