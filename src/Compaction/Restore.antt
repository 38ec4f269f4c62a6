-- ===== src/Compaction/Restore.antt =====
-- restore_prompt_body, and sequences of what a caller may do.
use polis_memory.Prelude.{ℕ, Bool, true, false, not, none, some, List, [], ◌∷◌, if◌then◌else◌}
use polis_memory.Prelude.Tables.{lookup, update, delete}
use polis_memory.Prelude.Text.{Text, text_eq}
use polis_memory.Ledger.{Hasher}
use polis_memory.Compaction.{
  Prompt, Archived, Db, Codec, Answers, Result, archive_algo, Compaction, is_forgotten,
  compact_prompt_body, ok, err, unknown_codec, inflate_failed, hash_mismatch,
}

abbrev pub rewarm : Text → Prompt → Prompt
rewarm body p = record p {
  body = body;
  gist = none;
  compacted_at = none;
  original_bytes = none;
  gist_source = none;
}

-- WHERE id = ? AND body_hash = ? hits a row.
unfoldable pub hits : ℕ → Text → List Prompt → Bool
unfolding lookup text_eq
hits id hash prompts = elim (lookup (λ p. p.id) id prompts) [
  | none ↦ false
  | some p ↦ text_eq p.body_hash hash
]

unfoldable pub restore_row : Hasher → Codec → ℕ → Archived → Db → Result Bool × Db
unfolding text_eq hits update delete
restore_row h codec id a db =
    if not (text_eq a.algo archive_algo)
    then (err unknown_codec, db)
    else elim (codec.inflate a.blob) [
      | none ↦ (err inflate_failed, db)
      | some body ↦
          if not (text_eq (h.sha256_hex body) a.body_hash)
          then (err hash_mismatch, db)
          else if not (hits id a.body_hash db.prompts)
          then (ok false, db)
          else (
            ok true,
            record db {
              prompts =
                  update (λ p. p.id) id (λ p. text_eq p.body_hash a.body_hash) (rewarm body)
                    db.prompts;
              archive = delete (λ r. r.prompt_id) id db.archive;
            },
          )
    ]

unfoldable pub restore_prompt_body : Hasher → Codec → ℕ → Db → Result Bool × Db
unfolding restore_row lookup
restore_prompt_body h codec id db =
    if is_forgotten id db then (ok false, db) else elim (lookup (λ a. a.prompt_id) id db.archive) [
      | none ↦ (ok false, db)
      | some a ↦ restore_row h codec id a db
    ]

-- What a caller may do, and a sequence of it.
pub data Action : Type 0 where
  compact : Answers → Compaction → Action
  restore : ℕ → Action

unfoldable pub step : Hasher → Codec → Action → Db → Db
unfolding compact_prompt_body restore_prompt_body
step h codec (compact answers c) db = (compact_prompt_body h codec answers c db).1
step h codec (restore id) db = (restore_prompt_body h codec id db).1

unfoldable pub run_actions : Hasher → Codec → List Action → Db → Db
unfolding step
run_actions h codec [] db = db
run_actions h codec (a ∷ actions) db = run_actions h codec actions (step h codec a db)
