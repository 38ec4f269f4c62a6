-- ===== src/Runs/Revert.antt =====
-- `revert_run`: its refusals, the walk back over the journal, and what a successful revert records.
use mathlib.Core.List.{reverse}
use polis_memory.Prelude.{
  ℕ, ◌+◌, max, ℤ, Bool, false, not, ◌&&◌, ◌||◌, Option, none, some, List, [], ◌∷◌, ◌++◌, ◌==◌, ltb,
  leb, if◌then◌else◌, any, keep, is_empty, length,
}
use polis_memory.Prelude.Tables.{lookup, update}
use polis_memory.Prelude.Text.{Text, codes, text_eq, to_string}
use polis_memory.Ledger.{Hasher, LedgerAppend}
use polis_memory.Ledger.Append.{next_row}
use polis_memory.Supersession.{decision_payload_hash}
use polis_memory.Compaction.{Codec}
use polis_memory.Catalog.Reorg.{Subject, node, link, obs, prompt, seq, everything}
use polis_memory.Runs.{
  ClassRun, RunOp, Store, invert_op_locked, is_applied, newest, reverted, run_id,
}

-- Why a run is not reverted.
pub data Refusal : Type 0 where
  no_run already_reverted nothing_to_revert : Refusal
  past_horizon revert_first op_failed : ℕ → Refusal

pub record RevertReceipt : Type 0 where
  pub run_id : ℕ
  pub reverted_ops : ℕ
  pub event_seq : ℕ
  pub revert_run_id : ℕ

pub data RevertOutcome : Type 0 where
  done : RevertReceipt → RevertOutcome
  rejected : Refusal → RevertOutcome

abbrev pub same_subject : Subject → Subject → Bool
same_subject (node a) (node b) = a == b
same_subject (link a) (link b) = a == b
same_subject (obs a) (obs b) = a == b
same_subject (prompt a) (prompt b) = a == b
same_subject (seq a) (seq b) = a == b
same_subject _ _ = false

unfoldable pub share : List Subject → List Subject → Bool
unfolding any
share mine theirs = any (λ s. any (same_subject s) mine) theirs

-- `applied` of the run.
unfoldable pub applied_ops : ℕ → List RunOp → List RunOp
unfolding keep
applied_ops run ops = keep (λ o. o.run_id == run && is_applied o.outcome) ops

abbrev pub all_subjects : List RunOp → List Subject
all_subjects [] = []
all_subjects (o ∷ ops) = o.subjects ++ all_subjects ops

-- The newest later run with an applied operation on one of the subjects; 0 where there is none.
unfoldable pub last_overlap : ℕ → List Subject → List RunOp → ℕ
unfolding share
last_overlap run mine [] = 0
last_overlap run mine (o ∷ ops) =
    let rest = last_overlap run mine ops in
    if ltb run o.run_id && is_applied o.outcome && share mine o.subjects
    then max o.run_id rest
    else rest

abbrev pub was_reverted : Option Text → Bool
was_reverted none = false
was_reverted (some t) = text_eq t (codes "reverted") || text_eq t (codes "reverted_by_canary")

abbrev pub behind : ℕ → Option ℕ → Bool
behind run none = false
behind run (some h) = leb run h

abbrev pub horizon_of : Option ℕ → ℕ
horizon_of none = 0
horizon_of (some h) = h

unfoldable pub refusal_of : ℕ → ClassRun → Store → Option Refusal
unfolding text_eq applied_ops last_overlap
refusal_of run row s =
    let applied = applied_ops run s.ops in
    let later = last_overlap run (all_subjects applied) s.ops in
    if was_reverted row.outcome
    then some already_reverted
    else if behind run s.horizon
    then some (past_horizon (horizon_of s.horizon))
    else if is_empty applied
    then some nothing_to_revert
    else if not (later == 0)
    then some (revert_first later)
    else none

abbrev pub is_op : RunOp → RunOp → Bool
is_op o p = p.run_id == o.run_id && p.op_ix == o.op_ix

unfoldable pub mark_op : ℕ → RunOp → List RunOp → List RunOp
mark_op by o [] = []
mark_op by o (p ∷ ops) =
    (if is_op o p then record p { outcome = reverted; reverted_by_run = some by } else p)
    ∷ mark_op by o ops

abbrev pub marked_store : ℕ → RunOp → Store → Store
marked_store by o s = record s { ops = mark_op by o s.ops }

-- An open transaction: the store at its BEGIN, and what the statements since have made of it.
pub record Transaction : Type 0 where
  pub before : Store
  pub working : Store

abbrev pub commit : Transaction → Store
commit tx = tx.working

abbrev pub roll_back : Transaction → Store
roll_back tx = tx.before

-- All inverses have been carried out, or one failed: its op_ix, and the transaction as the inverses
-- before it have left it.
pub data Walked : Type 0 where
  walked : Transaction → Walked
  stuck : ℕ → Transaction → Walked

unfoldable pub walk_back : Hasher → Codec → ℕ → ℕ → List RunOp → Transaction → Walked
unfolding invert_op_locked mark_op
walk_back h codec run by [] tx = walked tx
walk_back h codec run by (o ∷ ops) tx =
    elim (invert_op_locked h codec run by o.pre_image tx.working) [
      | none ↦ stuck o.op_ix tx
      | some s ↦ walk_back h codec run by ops (record tx { working = marked_store by o s })
    ]

abbrev pub revert_event : Hasher → ℕ → ℕ → ℕ → Text → ℤ → LedgerAppend
revert_event h run by ops actor ts = record {
  kind = codes "gardener_revert";
  author = actor;
  ts = ts;
  prompt_id = none;
  session_id = none;
  version_number = none;
  ref_kind = some (codes "class_run");
  ref_id = some (to_string run);
  payload_hash = decision_payload_hash h (
      (codes "run", to_string run)
      ∷ (codes "ops_reverted", to_string ops)
      ∷ (codes "by_run", to_string by)
      ∷ []);
}

abbrev pub set_outcome : Text → ClassRun → ClassRun
set_outcome text r = record r { outcome = some text }

unfoldable pub begin_revert : ℕ → Store → Store
begin_revert by s = record s {
  runs =
      s.runs
      ++ (record { id = by; mode = codes "revert"; outcome = none; source_forgotten = false }) ∷ [];
}

unfoldable pub finish_revert : Hasher → ℕ → ℕ → ℕ → Text → ℤ → Walked → RevertOutcome × Store
unfolding update
finish_revert h run by ops actor ts (stuck ix tx) = (rejected (op_failed ix), roll_back tx)
finish_revert h run by ops actor ts (walked tx) =
    let s = tx.working in
    let ev = next_row h s.memory.rows (revert_event h run by ops actor ts) in
    (
      done (record { run_id = run; reverted_ops = ops; event_seq = ev.seq; revert_run_id = by }),
      commit (record tx {
        working = record s {
          memory = record s.memory { rows = s.memory.rows ++ ev ∷ [] };
          runs =
              update run_id by everything (set_outcome (codes "done"))
                (update run_id run everything (set_outcome (codes "reverted")) s.runs);
        };
      }),
    )

unfoldable pub revert_checked :
    Hasher → Codec → ℕ → Text → ℤ → Store → Option Refusal → RevertOutcome × Store
unfolding finish_revert walk_back begin_revert applied_ops
revert_checked h codec run actor ts s (some reason) = (rejected reason, s)
revert_checked h codec run actor ts s none =
    let by = newest s.runs + 1 in
    let applied = applied_ops run s.ops in
    finish_revert h run by (length applied) actor ts (
      walk_back h codec run by (reverse applied)
        (record { before = s; working = begin_revert by s }))

abbrev pub refusal : ℕ → Store → Option ClassRun → Option Refusal
refusal run s none = some no_run
refusal run s (some row) = refusal_of run row s

unfoldable pub revert_run : Hasher → Codec → ℕ → Text → ℤ → Store → RevertOutcome × Store
unfolding lookup refusal_of revert_checked
revert_run h codec run actor ts s =
    revert_checked h codec run actor ts s (refusal run s (lookup run_id run s.runs))
