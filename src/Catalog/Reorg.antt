-- ===== src/Catalog/Reorg.antt =====
-- The structural operations of `apply_class_proposal_in_run`, each with the image that the run's
-- journal keeps for its inverse. `extra_json` is what serde_json reads in it for the operation.
use polis_memory.Prelude.{
  ℕ, suc, Bool, true, false, not, ◌&&◌, Option, none, some, List, [], ◌∷◌, ◌++◌, ◌==◌,
  if◌then◌else◌, any, map, unwrap_or, map_some, keep,
}
use polis_memory.Prelude.Tables.{lookup, update}
use polis_memory.Prelude.Text.{Text, codes, text_eq, to_string}
use polis_memory.Catalog.{Catalog, Link, Node, RetiredSet, retire_node_subtree, unmarked}

pub data Subject : Type 0 where
  node link obs prompt seq : ℕ → Subject

-- One part of a split, as proposed, and as made.
pub record SplitPart : Type 0 where
  pub title : Text
  pub link_ids : List ℕ

pub record Part : Type 0 where
  pub id : ℕ
  pub link_ids : List ℕ

-- A row that was moved, and from where.
pub record Moved : Type 0 where
  pub id : ℕ
  pub from : ℕ

-- What the inverse of an operation needs.
pub data Image : Type 0 where
  file : ℕ → Option ℕ → Image
  create : ℕ → Image
  promote : ℕ → Option ℕ → Image
  split : ℕ → List Part → Image
  merge : ℕ → Text → Option ℕ → List Moved → List Moved → RetiredSet → Image
  collapse : ℕ → List ℕ → RetiredSet → Image
  supersede : ℕ → ℕ → Image
  compact : ℕ → Image
  observe : ℕ → Image

pub record Applied : Type 0 where
  pub subjects : List Subject
  pub image : Image
  pub catalog : Catalog

abbrev pub node_id : Node → ℕ
node_id n = n.id

abbrev pub link_id : Link → ℕ
link_id l = l.id

abbrev pub everything {ℓ} : {A : Type ℓ} → A → Bool
everything a = true

abbrev pub set_parent : Option ℕ → Node → Node
set_parent parent n = record n { parent_id = parent }

abbrev pub set_title : Text → Node → Node
set_title title n = record n { title = title }

abbrev pub set_node : ℕ → Link → Link
set_node id l = record l { node_id = id }

abbrev pub flatten_parent : Option Node → Option ℕ
flatten_parent none = none
flatten_parent (some n) = n.parent_id

unfoldable pub apply_promote : ℕ → Option ℕ → Catalog → Applied
unfolding lookup update
apply_promote id parent cat = record {
  subjects = node id ∷ [];
  image = promote id (flatten_parent (lookup node_id id cat.nodes));
  catalog = record cat { nodes = update node_id id everything (set_parent parent) cat.nodes };
}

-- The unique index on (node_id, target_kind, target_id).
unfoldable pub same_target : Link → Link → Bool
unfolding text_eq
same_target l m = text_eq l.target_kind m.target_kind && text_eq l.target_id m.target_id

unfoldable pub taken : ℕ → Link → List Link → Bool
unfolding same_target any
taken id l links = any (λ m. m.node_id == id && same_target l m && not (m.id == l.id)) links

abbrev pub citation : ℕ → ℕ → ℕ → Link
citation id digest s = record {
  id = id;
  node_id = digest;
  target_kind = codes "ledger";
  target_id = to_string s;
  note = none;
  retired_by_run = none;
}

-- INSERT … ON CONFLICT DO NOTHING, once for each cited seq.
unfoldable pub cite : ℕ → List ℕ → Catalog → List ℕ × Catalog
unfolding taken
cite digest [] cat = ([], cat)
cite digest (s ∷ seqs) cat =
    let row = citation cat.next_link digest s in
    let skip = taken digest row cat.links in
    let (ids, after) = cite digest seqs (
      if skip
      then cat
      else record cat { links = cat.links ++ row ∷ []; next_link = suc cat.next_link }) in
    (if skip then ids else cat.next_link ∷ ids, after)

abbrev pub new_node : ℕ → Option ℕ → Text → Text → Option Text → Text → Node
new_node id parent kind title summary actor = record {
  id = id;
  parent_id = parent;
  kind = kind;
  title = title;
  summary = summary;
  curated_by = some actor;
  retired_by_run = none;
  retired_into = none;
}

unfoldable pub collapse_row :
    ℕ → ℕ → Option Text → Option Text → List ℕ → Text → ℕ → Node → Catalog → Applied
unfolding cite retire_node_subtree
collapse_row digest id title summary seqs actor run row cat =
    let made =
      new_node digest row.parent_id (codes "digest")
        (unwrap_or title (row.title ++ codes " (digest)")) summary actor in
    let (citations, cited) = cite digest seqs (record cat { nodes = cat.nodes ++ made ∷ [] }) in
    let (set, after) = retire_node_subtree id run (some digest) cited in
    record {
      subjects = node id ∷ (node digest ∷ map (λ k. node k) (keep (λ k. not (k == id)) set.nodes));
      image = collapse digest citations set;
      catalog = after;
    }

-- `none` is the error of a query for a row that is missing.
unfoldable pub apply_collapse :
    ℕ → ℕ → Option Text → Option Text → List ℕ → Text → ℕ → Catalog → Option Applied
unfolding collapse_row lookup
apply_collapse digest id title summary seqs actor run cat =
    map_some (λ (row : Node). collapse_row digest id title summary seqs actor run row cat)
      (lookup node_id id cat.nodes)

-- UPDATE OR IGNORE of one link's node; whether a row changed.
unfoldable pub move_link : ℕ → ℕ → (Link → Bool) → List Link → Bool × List Link
unfolding lookup update taken
move_link id to q links = elim (lookup link_id id links) [
  | none ↦ (false, links)
  | some l ↦
      if q l && not (taken to l links)
      then (true, update link_id id everything (set_node to) links)
      else (false, links)
]

abbrev pub live_on : ℕ → Link → Bool
live_on id l = l.node_id == id && unmarked l.retired_by_run

unfoldable pub move_part : ℕ → ℕ → List ℕ → List Link → List ℕ × List Link
unfolding move_link
move_part from to [] links = ([], links)
move_part from to (id ∷ ids) links =
    let (changed, links_1) = move_link id to (live_on from) links in
    let (moved, links_2) = move_part from to ids links_1 in
    (if changed then id ∷ moved else moved, links_2)

-- `fresh` are the new node ids, one for each part.
unfoldable pub split_parts :
    ℕ → Option ℕ → Text → (ℕ → ℕ) → ℕ → List SplitPart → Catalog → List Part × Catalog
unfolding move_part
split_parts id parent actor fresh k [] cat = ([], cat)
split_parts id parent actor fresh k (part ∷ parts) cat =
    let made = new_node (fresh k) parent (codes "node") part.title none actor in
    let (moved, links) = move_part id (fresh k) part.link_ids cat.links in
    let (rest, after) =
      split_parts id parent actor fresh (suc k) parts
        (record cat { nodes = cat.nodes ++ made ∷ []; links = links }) in
    (record { id = fresh k; link_ids = moved } ∷ rest, after)

unfoldable pub apply_split : (ℕ → ℕ) → ℕ → List SplitPart → Text → Catalog → Option Applied
unfolding split_parts lookup
apply_split fresh id parts actor cat =
    map_some
      (λ (row : Node).
        let (created, after) = split_parts id row.parent_id actor fresh 0 parts cat in
        let made : Applied = record {
          subjects = node id ∷ map (λ (p : Part). node p.id) created;
          image = split id created;
          catalog = after;
        } in
        made)
      (lookup node_id id cat.nodes)
