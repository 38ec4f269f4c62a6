-- ===== src/Compaction/Tests.antt =====
-- A table of two prompts, under a toy hash and a codec that stores the text as it is.
use polis_memory.Compaction.Restore.{
  compact, restore, restore_prompt_body, restore_row, run_actions,
}
use polis_memory.Prelude.{ℕ, ◌≡◌, ◌≢◌, refl, true, none, some, pos, [], ◌∷◌, arith}
use polis_memory.Prelude.Tables.{lookup, update, delete, upsert}
use polis_memory.Prelude.Text.{Text, codes, text_eq}
use polis_memory.Ledger.{Hasher}
use polis_memory.Ledger.Append.{next_row, head_row}
use polis_memory.Compaction.{
  Answers, Archived, Codec, Compaction, Db, Prompt, ok, err, cold, forget, inflate_failed,
  compact_prompt_body, compact_prompt_body_in_transaction, compact_row, archive_step, archive_body,
  forget_step, released, release, persist_forget_marker_locked, swapped, swap_step, select_body,
  is_open, close,
}
use polis_memory.Compaction.Frames.{Frame}
use polis_memory.Compaction.Restores.{IsWarm, restore-compact}
use polis_memory.Compaction.Invariant.{IsValid}
use polis_memory.Compaction.Keeps.{run_actions-IsValid}
use polis_memory.Compaction.Forgets.{IsGone, forget_forever}

abbrev toy : Hasher
toy = record { sha256_hex = λ t. t; to_json = λ e. e.seq ∷ e.payload_hash }

abbrev stored : Codec
stored = record { deflate = λ t. some t; inflate = λ b. some b }

abbrev broken : Codec
broken = record { deflate = λ t. some t; inflate = λ b. none }

abbrev fine : Answers
fine = record { archive_write = true; has_file = true; marker_write = true }

abbrev prompt : ℕ → Text → Prompt
prompt id body = record {
  id = id;
  body = body;
  body_hash = body;
  gist = none;
  compacted_at = none;
  original_bytes = none;
  gist_source = none;
  user_text = some body;
}

abbrev two_prompts : Db
two_prompts = record {
  rows = [];
  prompts = prompt 1 (codes "hello") ∷ prompt 2 (codes "world") ∷ [];
  archive = [];
  forgotten = [];
  redaction_outbox = [];
  embeddings = [];
  registry = [];
}

abbrev request : Text → ℕ → Compaction
request reason id = record {
  prompt_id = id;
  gist = codes "g";
  reason = reason;
  gist_source = codes "deterministic";
  actor = codes "keeper";
  ts = pos 5;
}

abbrev chilled : Db
chilled = (compact_prompt_body toy stored fine (request cold 1) two_prompts).1

swapped_out : lookup (λ (a : Archived). a.prompt_id) 1 chilled.archive ≢ none
unfolding compact_prompt_body compact_prompt_body_in_transaction compact_row archive_step
    archive_body forget_step swapped swap_step select_body is_open close text_eq lookup update
    upsert
swapped_out e = cc

corrupt_archive : restore_prompt_body toy broken 1 chilled ≡ (err inflate_failed, chilled)
unfolding compact_prompt_body compact_prompt_body_in_transaction compact_row archive_step
    archive_body forget_step swapped swap_step select_body is_open close text_eq lookup update
    upsert restore_prompt_body restore_row
corrupt_archive = refl

hello-IsWarm : IsWarm toy (prompt 1 (codes "hello"))
hello-IsWarm = record {
  committed = refl;
  gist = refl;
  compacted_at = refl;
  original_bytes = refl;
  gist_source = refl;
}

hello_found : lookup (λ (r : Prompt). r.id) 1 two_prompts.prompts ≡ some (prompt 1 (codes "hello"))
unfolding lookup
hello_found = refl

restore-compact_example :
    let compacted = (compact_prompt_body toy stored fine (request cold 1) two_prompts).1 in
    let restored = restore_prompt_body toy stored 1 compacted in
    (restored.0 ≡ ok true)
    × (lookup (λ (r : Prompt). r.id) 1 restored.1.prompts ≡ some (prompt 1 (codes "hello")))
    × (lookup (λ (r : Archived). r.prompt_id) 1 restored.1.archive ≡ none)
    × Frame 2 two_prompts restored.1
unfolding lookup
restore-compact_example =
    restore-compact toy stored fine (request cold 1) two_prompts (prompt 1 (codes "hello"))
      (codes "hello") refl hello_found refl hello-IsWarm refl refl refl 2 (omega arith)

two_prompts-IsValid : IsValid toy two_prompts
unfolding lookup
two_prompts-IsValid = record { chained = tt; row = λ id. tt }

run_actions-IsValid_example : IsValid toy (
    run_actions toy stored
      (compact fine (request cold 1) ∷ restore 1 ∷ compact fine (request forget 2) ∷ [])
      two_prompts)
run_actions-IsValid_example =
    run_actions-IsValid toy stored
      (compact fine (request cold 1) ∷ restore 1 ∷ compact fine (request forget 2) ∷ []) two_prompts
      two_prompts-IsValid

forgotten_seq : (compact_prompt_body toy stored fine (request forget 1) two_prompts).0 ≡ ok (some 1)
unfolding compact_prompt_body compact_prompt_body_in_transaction compact_row archive_step
    forget_step released release persist_forget_marker_locked swapped swap_step select_body is_open
    close text_eq lookup update delete next_row head_row
forgotten_seq = refl

forget_forever_example : IsGone 1 (
    run_actions toy stored
      (restore 1 ∷ compact fine (request cold 1) ∷ [])
      (compact_prompt_body toy stored fine (request forget 1) two_prompts).1)
forget_forever_example =
    forget_forever toy stored fine (request forget 1) two_prompts 1
      (restore 1 ∷ compact fine (request cold 1) ∷ []) two_prompts-IsValid refl forgotten_seq
