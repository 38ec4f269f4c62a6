-- ===== src/Runs/Tests.antt =====
-- A run that moved a node, its revert, and a vacuum.
use polis_memory.Prelude.{ℕ, ◌≡◌, ◌≤◌, refl, false, none, some, pos, [], ◌∷◌, arith, keep, any}
use polis_memory.Prelude.Tables.{lookup, update}
use polis_memory.Prelude.Text.{codes, text_eq}
use polis_memory.Ledger.{Hasher, Chained, genesis_prev}
use polis_memory.Ledger.Append.{next_row, head_row}
use polis_memory.Compaction.{Codec, Db}
use polis_memory.Catalog.{Node}
use polis_memory.Catalog.Reorg.{Applied, collapse_row}
use polis_memory.Catalog.Reorg.{node, promote}
use polis_memory.Catalog.Tests.{branch, plain}
use polis_memory.Runs.{ClassRun, RunOp, Store, applied, invert_image, invert_op_locked}
use polis_memory.Runs.Revert.{
  Refusal, RevertReceipt, applied_ops, begin_revert, done, finish_revert, last_overlap, mark_op,
  no_run, op_failed, refusal_of, rejected, revert_checked, revert_run, share, walk_back,
}
use polis_memory.Runs.Refusals.{revert_run_refused}
use polis_memory.Runs.Reverts.{Done, revert_run-Chained, revert_run_done}
use polis_memory.Runs.Vacuum.{vacuum_past, vacuum_retired, vacuum_to, vacuumed_is_final}

abbrev toy : Hasher
toy = record { sha256_hex = λ t. t; to_json = λ e. e.seq ∷ e.payload_hash }

abbrev stored : Codec
stored = record { deflate = λ t. some t; inflate = λ b. some b }

abbrev empty_memory : Db
empty_memory = record {
  rows = [];
  prompts = [];
  archive = [];
  forgotten = [];
  redaction_outbox = [];
  embeddings = [];
  registry = [];
}

abbrev organize : ℕ → ClassRun
organize id = record {
  id = id;
  mode = codes "organize";
  outcome = some (codes "done");
  source_forgotten = false;
}

-- Node 3 stood under node 1 before run 4.
abbrev moved_node : RunOp
moved_node = record {
  run_id = 4;
  op_ix = 1;
  subjects = node 3 ∷ [];
  outcome = applied;
  pre_image = some (promote 3 (some 1));
  ledger_seq = none;
  reverted_by_run = none;
}

abbrev after_run : Store
after_run = record {
  memory = empty_memory;
  edges = [];
  catalog = branch;
  runs = organize 4 ∷ organize 5 ∷ [];
  ops = moved_node ∷ [];
  horizon = none;
}

abbrev receipt : RevertReceipt
receipt = record { run_id = 4; reverted_ops = 1; event_seq = 1; revert_run_id = 6 }

done_once : (revert_run toy stored 4 (codes "local") (pos 9) after_run).0 ≡ done receipt
unfolding revert_run lookup refusal_of applied_ops keep last_overlap share any revert_checked
    finish_revert begin_revert walk_back invert_op_locked invert_image mark_op text_eq next_row
    head_row
done_once = refl

moved_back :
    lookup
      (λ (n : Node). n.id)
      3
      (revert_run toy stored 4 (codes "local") (pos 9) after_run).1.catalog.nodes
    ≡ some (plain 3 (some 1))
unfolding revert_run lookup refusal_of applied_ops keep last_overlap share any revert_checked
    finish_revert begin_revert walk_back invert_op_locked invert_image mark_op text_eq update
moved_back = refl

unknown : (revert_run toy stored 3 (codes "local") (pos 9) after_run).0 ≡ rejected no_run
unfolding revert_run lookup revert_checked
unknown = refl

-- The first operation has lost its image, so its inverse fails after the second one's.
abbrev half_lost : Store
half_lost = record after_run {
  ops = (record moved_node { pre_image = none }) ∷ (record moved_node { op_ix = 2 }) ∷ [];
}

stops_half_way :
    (revert_run toy stored 4 (codes "local") (pos 9) half_lost).0 ≡ rejected (op_failed 1)
unfolding revert_run lookup refusal_of applied_ops keep last_overlap share any revert_checked
    finish_revert begin_revert walk_back invert_op_locked invert_image mark_op text_eq next_row
    head_row
stops_half_way = refl

revert_run_refused_example :
    (revert_run toy stored 4 (codes "local") (pos 9) half_lost).1 ≡ half_lost
revert_run_refused_example =
    revert_run_refused toy stored 4 (codes "local") (pos 9) half_lost (op_failed 1) stops_half_way

revert_run_done_example :
    Done toy stored 4
      (codes "local")
      (pos 9)
      after_run
      receipt
      (revert_run toy stored 4 (codes "local") (pos 9) after_run).1
revert_run_done_example =
    revert_run_done toy stored 4 (codes "local") (pos 9) after_run receipt done_once

revert_run-Chained_example :
    Chained toy genesis_prev
      (revert_run toy stored 4 (codes "local") (pos 9) after_run).1.memory.rows
revert_run-Chained_example = revert_run-Chained toy stored 4 (codes "local") (pos 9) after_run tt

within : 4 ≤ (vacuum_retired 1 after_run).0.horizon_run
unfolding vacuum_retired vacuum_past vacuum_to
within = omega arith

vacuumed_is_final_example :
    let t = (vacuum_retired 1 after_run).1 in
    (reason : Refusal) × (revert_run toy stored 4 (codes "local") (pos 9) t ≡ (rejected reason, t))
vacuumed_is_final_example =
    vacuumed_is_final toy stored 1 4 (codes "local") (pos 9) after_run (omega arith) within

abbrev collapsed : Applied
collapsed =
    collapse_row 5 2 none (some (codes "gist")) (1 ∷ 1 ∷ 2 ∷ []) (codes "keeper") 7
      (plain 2 (some 1)) branch
