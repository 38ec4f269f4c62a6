-- ===== src/Adjudicate/Rules.antt =====
-- `adjudicate_structural`, the backoff and the expiry.
use polis_memory.Prelude.{
  ℕ, ◌+◌, ◌-◌, min, max, Bool, true, false, not, ◌&&◌, ◌||◌, Option, none, some, List, [], ◌∷◌,
  ◌==◌, if◌then◌else◌, any, find, get_elem?, is_some, leb, length, ltb, ◌⊎◌, inl, inr,
}
use polis_memory.Prelude.Int.{ℤ, ltb_ℤ}
use polis_memory.Prelude.Text.{codes, text_eq}
use polis_memory.Supersession.{is_decision_kind}
use polis_memory.Query.{Chars}
use polis_memory.Coldness.{BranchStat, LakeEnvelope, auto_collapse_safe}
use polis_memory.Catalog.{Node}
use polis_memory.Catalog.Reorg.{SplitPart}
use polis_memory.Adjudicate.{depth_of, get, is_descendant, root_of, subtree_height}
use polis_memory.Adjudicate.Verdicts.{
  Verdict, Extra, ClassProposalRow, parts_of, ids_of, EventRef, same_text, no_node, own_parent,
  own_subtree, few_parts, few_nodes, cross_root, few_items, not_cold, malformed_supersede,
  not_decisions, different_subjects, unknown_seq, unknown_node, unknown_parent, too_deep,
  small_part, foreign_link, unknown_op, apply, verify, refuse, unread, parts, ids, seqs,
}
use polis_memory.Adjudicate.Titles.{is_duplicate_title}

-- What a verdict reads beside the row. `is_alike` is the oracle's cosine, known and at least 0.85;
-- a failed read of the ledger is no event.
pub record Facts : Type 0 where
  pub chars : Chars
  pub nodes : List Node
  pub links_of : ℕ → List ℕ
  pub ledger_event_ref : ℕ → Option EventRef
  pub stats : ℕ → Option BranchStat
  pub env : LakeEnvelope
  pub protected : ℕ → Bool
  pub is_alike : ℕ → ℕ → Bool
  pub is_cold_age : ℕ → ℕ → Bool

abbrev pub max_depth : ℕ
max_depth = 4

abbrev pub min_part_links : ℕ
min_part_links = 3

abbrev pub collapse_min_items : ℕ
collapse_min_items = 5

abbrev pub promote_below : List Node → ℕ → ℕ → Verdict
promote_below nodes node p =
    let new_depth = depth_of nodes p + 1 + subtree_height nodes node in
    if is_some (get nodes p)
    then if is_descendant nodes p node
      then refuse own_subtree
      else if ltb max_depth new_depth
      then refuse (too_deep new_depth)
      else apply
    else refuse (unknown_parent p)

abbrev pub promote_to : List Node → ℕ → Option ℕ → Verdict
promote_to nodes node none = apply
promote_to nodes node (some p) = if p == node then refuse own_parent else promote_below nodes node p

unfoldable pub adjudicate_promote : Facts → ℕ → Option ℕ → Verdict
unfolding get depth_of subtree_height is_descendant
adjudicate_promote f node parent =
    if is_some (get f.nodes node)
    then promote_to f.nodes node parent
    else refuse (unknown_node node)

abbrev pub check_parts : List ℕ → ℕ → List SplitPart → Verdict
check_parts own node [] = apply
check_parts own node (part ∷ ps) =
    let rest = check_parts own node ps in
    if ltb (length part.link_ids) min_part_links
    then refuse (small_part part.title (length part.link_ids))
    else elim (find (λ (l : ℕ). not (any (λ (o : ℕ). o == l) own)) part.link_ids) [
      | none ↦ rest
      | some bad ↦ refuse (foreign_link bad node)
    ]

unfoldable pub adjudicate_split : Facts → ℕ → List SplitPart → Verdict
unfolding find any
adjudicate_split f node ps =
    if ltb (length ps) 2 then refuse few_parts else check_parts (f.links_of node) node ps

-- The roots of the nodes, or the first node without one.
abbrev pub roots : List Node → List ℕ → ℕ ⊎ List ℕ
roots nodes [] = inr []
roots nodes (id ∷ is) = elim (root_of nodes id) [ none ↦ inl id | some r ↦ push r (roots nodes is) ]
  where
    push : ℕ → ℕ ⊎ List ℕ → ℕ ⊎ List ℕ
    push r (inl id) = inl id
    push r (inr rs) = inr (r ∷ rs)

abbrev pub all_same : List ℕ → Bool
all_same [] = true
all_same (r ∷ rs) = not (any (λ (s : ℕ). not (s == r)) rs)

abbrev pub same_parent : Option ℕ → Option ℕ → Bool
same_parent none none = true
same_parent none (some p) = false
same_parent (some p) none = false
same_parent (some p) (some q) = p == q

abbrev pub item_count_of : Facts → ℕ → ℕ
item_count_of f id = elim (f.stats id) [ none ↦ 0 | some s ↦ s.item_count ]

abbrev pub merge_pair : Facts → Option Node → Option Node → Verdict
merge_pair f none b = verify
merge_pair f (some a) none = verify
merge_pair f (some a) (some b) =
    if is_duplicate_title f.chars a.title b.title
    then apply
    else if same_parent a.parent_id b.parent_id
        && leb min_part_links (item_count_of f a.id)
        && leb min_part_links (item_count_of f b.id)
        && f.is_alike a.id b.id
    then apply
    else verify

abbrev pub merge_rooted : Facts → ℕ → ℕ → ℕ ⊎ List ℕ → Verdict
merge_rooted f a b (inl id) = refuse (unknown_node id)
merge_rooted f a b (inr rs) =
    if all_same rs then merge_pair f (get f.nodes a) (get f.nodes b) else refuse cross_root

unfoldable pub adjudicate_merge : Facts → List ℕ → Verdict
unfolding root_of get is_duplicate_title any
adjudicate_merge f [] = refuse few_nodes
adjudicate_merge f (a ∷ []) = refuse few_nodes
adjudicate_merge f (a ∷ b ∷ is) = merge_rooted f a b (roots f.nodes (a ∷ b ∷ is))

abbrev pub collapse_stat : Facts → ℕ → Option BranchStat → Verdict
collapse_stat f node none = refuse (unknown_node node)
collapse_stat f node (some stat) =
    if ltb stat.item_count collapse_min_items
    then refuse few_items
    else if f.protected node || not (auto_collapse_safe f.is_cold_age stat f.env)
    then refuse not_cold
    else apply

unfoldable pub adjudicate_collapse : Facts → ℕ → Verdict
unfolding auto_collapse_safe
adjudicate_collapse f node = collapse_stat f node (f.stats node)

abbrev pub supersede_refs : Option EventRef → Option EventRef → Verdict
supersede_refs none n = refuse unknown_seq
supersede_refs (some o) none = refuse unknown_seq
supersede_refs (some o) (some n) =
    if not (is_decision_kind o.kind) || not (is_decision_kind n.kind)
    then refuse not_decisions
    else if same_text o.ref_kind n.ref_kind && same_text o.ref_id n.ref_id && is_some o.ref_kind
    then apply
    else if not (same_text o.ref_kind n.ref_kind)
    then refuse different_subjects
    else verify

unfoldable pub adjudicate_supersede : Facts → Extra → Verdict
unfolding text_eq is_decision_kind
adjudicate_supersede f unread = refuse malformed_supersede
adjudicate_supersede f (parts ps) = refuse malformed_supersede
adjudicate_supersede f (ids is) = refuse malformed_supersede
adjudicate_supersede f (seqs old new) =
    supersede_refs (f.ledger_event_ref old) (f.ledger_event_ref new)

abbrev pub at_node : (ℕ → Verdict) → Option ℕ → Verdict
at_node f none = refuse no_node
at_node f (some node) = f node

unfoldable pub adjudicate_structural : Facts → ClassProposalRow → Verdict
unfolding text_eq adjudicate_promote adjudicate_split adjudicate_merge adjudicate_collapse
    adjudicate_supersede
adjudicate_structural f prop =
    if text_eq prop.op (codes "promote")
    then at_node (λ (node : ℕ). adjudicate_promote f node prop.parent_id) prop.node_id
    else if text_eq prop.op (codes "split")
    then at_node (λ (node : ℕ). adjudicate_split f node (parts_of prop.extra)) prop.node_id
    else if text_eq prop.op (codes "merge")
    then adjudicate_merge f (ids_of prop.extra)
    else if text_eq prop.op (codes "collapse")
    then at_node (adjudicate_collapse f) prop.node_id
    else if text_eq prop.op (codes "supersede")
    then adjudicate_supersede f prop.extra
    else refuse (unknown_op prop.op)

abbrev pub proposal_backoff_runs : List ℕ
proposal_backoff_runs = 1 ∷ 2 ∷ 4 ∷ []

unfoldable pub backoff_runs : ℕ → Option ℕ
backoff_runs attempts =
    get_elem? proposal_backoff_runs (min (max attempts 1 - 1) (length proposal_backoff_runs - 1))

pub data Expiry : Type 0 where
  attempts_used : ℕ → Expiry
  seven_lake_days : Expiry

unfoldable pub expired : ClassProposalRow → ℤ → Option Expiry
expired prop newest =
    if leb 3 prop.attempts then some (attempts_used prop.attempts) else elim prop.expires_lake_ts [
      | none ↦ none
      | some exp ↦ if ltb_ℤ exp newest then some seven_lake_days else none
    ]
