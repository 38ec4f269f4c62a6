-- ===== src/Adjudicate/Verdicts.antt =====
-- A proposal as it waits in the queue, and what the adjudicator answers.
use polis_memory.Prelude.{ℕ, Bool, true, false, Option, none, some, List, []}
use polis_memory.Prelude.Int.{ℤ}
use polis_memory.Prelude.Text.{Text, text_eq}
use polis_memory.Catalog.Reorg.{SplitPart}

-- What the messages of a refusal say, and print.
pub data Reason : Type 0 where
  no_node own_parent own_subtree few_parts few_nodes cross_root few_items not_cold : Reason
  malformed_supersede not_decisions different_subjects unknown_seq : Reason
  unknown_node unknown_parent too_deep : ℕ → Reason
  small_part : Text → ℕ → Reason
  foreign_link : ℕ → ℕ → Reason
  unknown_op : Text → Reason

pub data Verdict : Type 0 where
  apply verify : Verdict
  refuse : Reason → Verdict
  redirect : ℕ → Option (List ℕ) → Verdict

-- What serde_json reads in `extra_json`.
pub data Extra : Type 0 where
  unread : Extra
  parts : List SplitPart → Extra
  ids : List ℕ → Extra
  seqs : ℕ → ℕ → Extra

pub record ClassProposalRow : Type 0 where
  pub op : Text
  pub node_id : Option ℕ
  pub parent_id : Option ℕ
  pub extra : Extra
  pub attempts : ℕ
  pub expires_lake_ts : Option ℤ

abbrev pub parts_of : Extra → List SplitPart
parts_of unread = []
parts_of (parts ps) = ps
parts_of (ids is) = []
parts_of (seqs old new) = []

abbrev pub ids_of : Extra → List ℕ
ids_of unread = []
ids_of (parts ps) = []
ids_of (ids is) = is
ids_of (seqs old new) = []

pub record EventRef : Type 0 where
  pub kind : Text
  pub ref_kind : Option Text
  pub ref_id : Option Text

abbrev pub same_text : Option Text → Option Text → Bool
same_text none none = true
same_text none (some t) = false
same_text (some s) none = false
same_text (some s) (some t) = text_eq s t
