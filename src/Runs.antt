-- ===== src/Runs.antt =====
-- crates/polis-store/src/runs.rs: the journal of a run's operations, its revert, and the vacuum. A
-- journal row is written with the image of its operation, so the operation's name is not kept
-- apart; claims have their own tables and are left out. The journal is in op_ix order within a run.
pub mod Revert
pub mod Refusals
pub mod Marks
pub mod Journal
pub mod Guards
pub mod Reverts
pub mod Vacuum
pub mod Promotes
pub mod Collapses
pub mod Undone
pub mod Tests
use polis_memory.Compaction.Restore.{restore_prompt_body}
use mathlib.Core.List.{reverse}
use polis_memory.Prelude.{
  ℕ, suc, ◌+◌, ◌-◌, max, ℤ, Bool, true, false, not, ◌&&◌, ◌||◌, Option, none, some, List, [], ◌∷◌,
  ◌++◌, ◌==◌, ltb, leb, if◌then◌else◌, any, map, unwrap_or, map_some, keep, ◌>>=◌, is_some,
  is_empty, length, find,
}
use polis_memory.Prelude.Tables.{lookup, update, update_each, delete}
use polis_memory.Prelude.Text.{Text, codes, text_eq, to_string}
use polis_memory.Ledger.{Hasher, LedgerEventRow, LedgerAppend}
use polis_memory.Ledger.Append.{next_row}
use polis_memory.Supersession.{Edge, decision_payload_hash}
use polis_memory.Compaction.{Codec, Db, Result, ok, err}
use polis_memory.Catalog.{
  Catalog, Link, Node, Observation, RetiredSet, mark_observation, marked_by, unmarked,
  unretire_locked,
}
use polis_memory.Catalog.Reorg.{
  Image, Moved, Part, Subject, node, link, obs, prompt, seq, collapse, compact, create, everything,
  file, link_id, merge, node_id, observe, promote, set_node, set_parent, set_title, split,
  supersede, taken,
}

pub record ClassRun : Type 0 where
  pub id : ℕ
  pub mode : Text
  pub outcome : Option Text
  pub source_forgotten : Bool

pub data OpOutcome : Type 0 where
  applied refused expired reverted : OpOutcome

-- A row of `class_run_ops`.
pub record RunOp : Type 0 where
  pub run_id : ℕ
  pub op_ix : ℕ
  pub subjects : List Subject
  pub outcome : OpOutcome
  pub pre_image : Option Image
  pub ledger_seq : Option ℕ
  pub reverted_by_run : Option ℕ

-- The ledger and the prompts, the index of supersessions, the catalog, the journal, and the run up
-- to which retired rows were vacuumed.
pub record Store : Type 0 where
  pub memory : Db
  pub edges : List Edge
  pub catalog : Catalog
  pub runs : List ClassRun
  pub ops : List RunOp
  pub horizon : Option ℕ

abbrev pub run_id : ClassRun → ℕ
run_id r = r.id

abbrev pub is_applied : OpOutcome → Bool
is_applied applied = true
is_applied _ = false

abbrev pub newest : List ClassRun → ℕ
newest [] = 0
newest (r ∷ runs) = max r.id (newest runs)

abbrev pub last_ix : ℕ → List RunOp → ℕ
last_ix run [] = 0
last_ix run (o ∷ ops) = if o.run_id == run then max o.op_ix (last_ix run ops) else last_ix run ops

abbrev pub run_forgotten : Option ClassRun → Bool
run_forgotten none = false
run_forgotten (some r) = r.source_forgotten

-- The journal row's op_ix: 0 where the run's source was forgotten and nothing is written.
unfoldable pub journal_op_locked :
    ℕ → List Subject → OpOutcome → Option Image → Option ℕ → Store → ℕ × Store
unfolding lookup
journal_op_locked run subjects outcome pre_image ledger_seq store =
    if run_forgotten (lookup run_id run store.runs) then (0, store) else (
      last_ix run store.ops + 1,
      record store {
        ops =
            store.ops
            ++ (record {
              run_id = run;
              op_ix = last_ix run store.ops + 1;
              subjects = subjects;
              outcome = outcome;
              pre_image = pre_image;
              ledger_seq = ledger_seq;
              reverted_by_run = none;
            })
              ∷ [];
      },
    )

abbrev pub retire_new : ℕ → Node → Node
retire_new by n = record n { retired_by_run = some by }

abbrev pub mark_new_link : ℕ → Link → Link
mark_new_link by l = record l { retired_by_run = some by }

abbrev pub live_node : Node → Bool
live_node n = unmarked n.retired_by_run

-- UPDATE … SET node_id = to WHERE id = id [AND node_id = from]: the unique index may refuse it.
unfoldable pub place_link : ℕ → ℕ → (Link → Bool) → List Link → Option (List Link)
unfolding lookup update taken
place_link id to q links = elim (lookup link_id id links) [
  | none ↦ some links
  | some l ↦
      if not (q l)
      then some links
      else if taken to l links
      then none
      else some (update link_id id everything (set_node to) links)
]

unfoldable pub place_part : ℕ → ℕ → List ℕ → List Link → Option (List Link)
unfolding place_link
place_part from to [] links = some links
place_part from to (id ∷ ids) links =
    place_link id to (λ l. l.node_id == from) links >>= place_part from to ids

unfoldable pub unsplit : ℕ → ℕ → List Part → Catalog → Option Catalog
unfolding place_part update
unsplit by id [] cat = some cat
unsplit by id (part ∷ parts) cat = place_part part.id id part.link_ids cat.links >>= (λ links.
    unsplit by id parts (record cat {
      links = links;
      nodes = update node_id part.id live_node (retire_new by) cat.nodes;
    }))

unfoldable pub place_moved : List Moved → List Link → Option (List Link)
unfolding place_link
place_moved [] links = some links
place_moved (m ∷ moved) links = place_link m.id m.from everything links >>= place_moved moved

unfoldable pub reparent_each : List Moved → List Node → List Node
unfolding update
reparent_each [] nodes = nodes
reparent_each (m ∷ moved) nodes =
    reparent_each moved (update node_id m.id everything (set_parent (some m.from)) nodes)

unfoldable pub unmerge :
    ℕ → ℕ → Text → Option ℕ → List Moved → List Moved → RetiredSet → Catalog → Option Catalog
unfolding place_moved reparent_each update
unmerge run target title parent moved children set cat =
    map_some
      (λ (links : List Link). unretire_locked run set (record cat {
        links = links;
        nodes = reparent_each children (
            update node_id target everything (set_parent parent)
              (update node_id target everything (set_title title) cat.nodes));
      }))
      (place_moved moved cat.links)

unfoldable pub uncollapse : ℕ → ℕ → ℕ → List ℕ → RetiredSet → Catalog → Catalog
unfolding update update_each unretire_locked
uncollapse run by digest citations set cat = unretire_locked run set (record cat {
  nodes = update node_id digest live_node (retire_new by) cat.nodes;
  links =
      update_each link_id citations (λ l. unmarked l.retired_by_run) (mark_new_link by) cat.links;
})

abbrev pub in_catalog : Store → Catalog → Store
in_catalog store cat = record store { catalog = cat }

abbrev pub restored : Store → Result Bool × Db → Option Store
restored store (ok true, memory) = some (record store { memory = memory })
restored store (ok false, memory) = none
restored store (err e, memory) = none

-- The inverse of one operation of `run`, by the run `by`; `none` aborts the revert.
unfoldable pub invert_image : Hasher → Codec → ℕ → ℕ → Image → Store → Option Store
unfolding update delete unsplit unmerge uncollapse restore_prompt_body
invert_image h codec run by (file link_ix none) s =
    some (in_catalog s (record s.catalog { links = delete link_id link_ix s.catalog.links }))
invert_image h codec run by (file link_ix (some from)) s = some (
    in_catalog s (record s.catalog {
      links = update link_id link_ix everything (mark_new_link from) s.catalog.links;
    }))
invert_image h codec run by (create id) s = some (
    in_catalog s
      (record s.catalog { nodes = update node_id id live_node (retire_new by) s.catalog.nodes }))
invert_image h codec run by (promote id parent) s = some (
    in_catalog s (record s.catalog {
      nodes = update node_id id everything (set_parent parent) s.catalog.nodes;
    }))
invert_image h codec run by (split id parts) s =
    map_some (in_catalog s) (unsplit by id parts s.catalog)
invert_image h codec run by (merge target title parent moved children set) s =
    map_some (in_catalog s) (unmerge run target title parent moved children set s.catalog)
invert_image h codec run by (collapse digest citations set) s =
    some (in_catalog s (uncollapse run by digest citations set s.catalog))
invert_image h codec run by (supersede old_seq event_seq) s = some (record s {
  edges = keep (λ e. not (e.old_seq == old_seq && e.event_seq == event_seq)) s.edges;
})
invert_image h codec run by (compact prompt_ix) s =
    restored s (restore_prompt_body h codec prompt_ix s.memory)
invert_image h codec run by (observe id) s = some (
    in_catalog s (record s.catalog {
      observations =
          update (λ (o : Observation). o.id) id (λ o. unmarked o.retired_by_run)
            (mark_observation by) s.catalog.observations;
    }))

unfoldable pub invert_op_locked : Hasher → Codec → ℕ → ℕ → Option Image → Store → Option Store
unfolding invert_image
invert_op_locked h codec run by none s = none
invert_op_locked h codec run by (some image) s = invert_image h codec run by image s
