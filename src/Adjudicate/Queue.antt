-- ===== src/Adjudicate/Queue.antt =====
-- The loop of `process_queue` in crates/polis-memory/src/organize.rs over the proposals that are due,
-- up to its verifiers. It reads the catalog once, before the loop.
use polis_memory.Adjudicate.Verdicts.{
  ClassProposalRow, Verdict, apply, ids_of, redirect, refuse, verify,
}
use polis_memory.Prelude.{
  ℕ, Bool, not, ◌||◌, Option, none, some, List, [], ◌∷◌, ◌++◌, any, if◌then◌else◌,
}
use polis_memory.Prelude.Int.{ℤ}
use polis_memory.Prelude.Text.{codes, text_eq}
use polis_memory.Catalog.{Catalog, Node}
use polis_memory.Catalog.Reorg.{apply_promote}
use polis_memory.Adjudicate.{load}
use polis_memory.Adjudicate.Rules.{Facts, adjudicate_structural, expired}

-- What the loop has made of the catalog, and the proposals that it holds for a verifier.
pub record Queue : Type 0 where
  pub catalog : Catalog
  pub to_verify : List ClassProposalRow

abbrev pub singleton : Option ℕ → List ℕ
singleton none = []
singleton (some id) = id ∷ []

-- The nodes among `prop_subjects`.
unfoldable pub subject_nodes : ClassProposalRow → List ℕ
unfolding text_eq
subject_nodes prop =
    if text_eq prop.op (codes "merge")
    then ids_of prop.extra
    else if text_eq prop.op (codes "supersede")
    then []
    else singleton prop.node_id

abbrev pub promote_in : Option ℕ → Option ℕ → Catalog → Catalog
promote_in none parent cat = cat
promote_in (some node) parent cat = (apply_promote node parent cat).catalog

-- What the tables say when a row is applied: whether it is still `proposed`, whether the source of the
-- run or of the row's own run was forgotten, and whether a statement fails.
pub record Standing : Type 0 where
  pub is_proposed : ClassProposalRow → Bool
  pub run_forgotten : Bool
  pub source_forgotten : ClassProposalRow → Bool
  pub fails : ClassProposalRow → Bool

-- `others` is what the operations other than promote make of the catalog.
module _ (others : ClassProposalRow → Catalog → Catalog) (standing : Standing) where
  -- An error and a row that is no longer to be applied leave the catalog alone.
  unfoldable pub apply_one : ClassProposalRow → Catalog → Catalog
  unfolding apply_promote text_eq
  apply_one prop cat =
      if not (standing.is_proposed prop) || standing.run_forgotten
      then cat
      else if standing.source_forgotten prop || standing.fails prop
      then cat
      else if text_eq prop.op (codes "promote")
      then promote_in prop.node_id prop.parent_id cat
      else others prop cat

  abbrev pub follow_verdict : ClassProposalRow → Queue → Verdict → Queue
  follow_verdict prop q apply = record q { catalog = apply_one prop q.catalog }
  follow_verdict prop q verify = record q { to_verify = q.to_verify ++ prop ∷ [] }
  follow_verdict prop q (refuse reason) = q
  follow_verdict prop q (redirect to merge) = q

  module _ (quarantined : ℕ → Bool) (newest : ℤ) where
    unfoldable pub process_one : Facts → ClassProposalRow → Queue → Queue
    unfolding apply_one adjudicate_structural expired any subject_nodes
    process_one f prop q = elim (expired prop newest) [
      | none ↦
          if any quarantined (subject_nodes prop)
          then q
          else follow_verdict prop q (adjudicate_structural f prop)
      | some why ↦ q
    ]

    unfoldable pub process_due : Facts → List ClassProposalRow → Queue → Queue
    unfolding process_one
    process_due f [] q = q
    process_due f (prop ∷ due) q = process_due f due (process_one f prop q)

    unfoldable pub process_queue :
        (List Node → List Node) → Facts → List ClassProposalRow → Catalog → Queue
    unfolding load process_due
    process_queue order_by_title f due cat =
        process_due (record f { nodes = load order_by_title cat }) due
          (record { catalog = cat; to_verify = [] })
