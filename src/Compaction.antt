-- ===== src/Compaction.antt =====
-- crates/polis-store/src/compaction.rs: a prompt's body is swapped for a gist and comes back from
-- the archive, or is forgotten. Statements by id read and write tables keyed by the prompt's id.
pub mod Cases
pub mod Frames
pub mod Invariant
pub mod Keeps
pub mod Restore
pub mod Restores
pub mod Forgets
pub mod Tests
use polis_memory.Prelude.{
  ℕ, ℤ, pos, ◌≡◌, Bool, true, false, not, ◌&&◌, ◌||◌, Option, none, some, List, [], ◌∷◌, ◌++◌, ◌==◌,
  if◌then◌else◌, is_some, keep, any, length, map, ◌+◌,
}
use polis_memory.Prelude.Tables.{lookup, update, delete, upsert}
use polis_memory.Prelude.Text.{Text, codes, text_eq, to_string}
use polis_memory.Dedup.Simhash.{bytes}
use polis_memory.Ledger.{Hasher, LedgerEventRow, LedgerAppend}
use polis_memory.Ledger.Append.{next_row}
use polis_memory.Supersession.{decision_payload_hash}

-- The columns of `prompts` that compaction reads or writes.
pub record Prompt : Type 0 where
  pub id : ℕ
  pub body : Text
  pub body_hash : Text
  pub gist : Option Text
  pub compacted_at : Option ℤ
  pub original_bytes : Option ℕ
  pub gist_source : Option Text
  pub user_text : Option Text

-- A row of `prompt_archive`.
pub record Archived : Type 0 where
  pub prompt_id : ℕ
  pub body_hash : Text
  pub algo : Text
  pub original_bytes : ℕ
  pub blob : List ℕ
  pub archived_at : ℤ

-- A row of `forgotten_sources`.
pub record Forgotten : Type 0 where
  pub prompt_id : ℕ
  pub body_hash : Text
  pub forgotten_at : ℤ

pub record Embedding : Type 0 where
  pub target_kind : Text
  pub target_id : ℕ

-- The ledger, the tables above, the ids of `redaction_outbox`, and the lines of the marker file
-- that stands beside the database file.
pub record Db : Type 0 where
  pub rows : List LedgerEventRow
  pub prompts : List Prompt
  pub archive : List Archived
  pub forgotten : List Forgotten
  pub redaction_outbox : List ℕ
  pub embeddings : List Embedding
  pub registry : List Text

-- The crate flate2. A compressor or a decompressor that fails answers `none`.
pub record Codec : Type 0 where
  pub deflate : Text → Option (List ℕ)
  pub inflate : List ℕ → Option Text

-- What SQLite and the file system answer: to the archive's insert, whether the database is a file,
-- and to the write of the marker.
pub record Answers : Type 0 where
  pub archive_write : Bool
  pub has_file : Bool
  pub marker_write : Bool

pub data Problem : Type 0 where
  unknown_codec inflate_failed hash_mismatch marker_failed : Problem

pub data Result {ℓ} (A : Type ℓ) : Type ℓ where
  ok : A → Result A
  err : Problem → Result A

abbrev pub archive_algo : Text
archive_algo = codes "deflate"

abbrev pub cold : Text
cold = codes "cold"

abbrev pub forget : Text
forget = codes "forget"

-- What one compaction is asked: `ts` is the clock's reading.
pub record Compaction : Type 0 where
  pub prompt_id : ℕ
  pub gist : Text
  pub reason : Text
  pub gist_source : Text
  pub actor : Text
  pub ts : ℤ

abbrev pub is_forgotten : ℕ → Db → Bool
is_forgotten id db = is_some (lookup (λ f. f.prompt_id) id db.forgotten)

-- gist IS NULL OR reason = 'forget'.
unfoldable pub is_open : Text → Prompt → Bool
is_open reason p = not (is_some p.gist) || text_eq reason forget

-- The row that the first SELECT reads.
unfoldable pub select_body : ℕ → Text → Db → Option Prompt
unfolding lookup is_open
select_body id reason db = elim (lookup (λ p. p.id) id db.prompts) [
  | none ↦ none
  | some p ↦ if is_open reason p && not (is_forgotten id db) then some p else none
]

unfoldable pub archive_body : Codec → Answers → Compaction → Prompt → Db → Db
unfolding upsert
archive_body codec answers c p db = elim (codec.deflate p.body) [
  | none ↦ db
  | some blob ↦
      if answers.archive_write
      then record db {
        archive =
            upsert (λ a. a.prompt_id)
              (record {
                prompt_id = c.prompt_id;
                body_hash = p.body_hash;
                algo = archive_algo;
                original_bytes = length (bytes p.body);
                blob = blob;
                archived_at = c.ts;
              })
              db.archive;
      }
      else db
]

unfoldable pub archive_step : Codec → Answers → Compaction → Prompt → Db → Db
unfolding text_eq archive_body delete
archive_step codec answers c p db =
    if text_eq c.reason cold
    then archive_body codec answers c p db
    else record db { archive = delete (λ a. a.prompt_id) c.prompt_id db.archive }

unfoldable pub persist_forget_marker_locked : Answers → Text → Db → Result (Unit {0}) × Db
persist_forget_marker_locked answers body_hash db =
    if not answers.has_file
    then (ok tt, db)
    else if answers.marker_write
    then (ok tt, record db { registry = db.registry ++ body_hash ∷ [] })
    else (err marker_failed, db)

-- The tombstone, the outbox entry and the embeddings. The copies that the organizer derived are in
-- tables that nothing here reads.
unfoldable pub release : Compaction → Prompt → Db → Db
unfolding keep text_eq
release c p db = record db {
  forgotten =
      db.forgotten
      ++ (record { prompt_id = c.prompt_id; body_hash = p.body_hash; forgotten_at = c.ts }) ∷ [];
  redaction_outbox =
      if any (λ id. id == c.prompt_id) db.redaction_outbox
      then db.redaction_outbox
      else db.redaction_outbox ++ c.prompt_id ∷ [];
  embeddings =
      keep (λ e. not (text_eq e.target_kind (codes "prompt") && e.target_id == c.prompt_id))
        db.embeddings;
}

unfoldable pub released : Compaction → Prompt → Result (Unit {0}) × Db → Result (Unit {0}) × Db
unfolding release
released c p (ok u, db) = (ok u, release c p db)
released c p (err e, db) = (err e, db)

unfoldable pub forget_step : Answers → Compaction → Prompt → Db → Result (Unit {0}) × Db
unfolding text_eq persist_forget_marker_locked released
forget_step answers c p db =
    if text_eq c.reason forget
    then released c p (persist_forget_marker_locked answers p.body_hash db)
    else (ok tt, db)

unfoldable pub swap : Compaction → ℕ → Prompt → Prompt
unfolding text_eq
swap c original_bytes p = record p {
  gist = some c.gist;
  body = [];
  compacted_at = some c.ts;
  original_bytes = elim p.original_bytes [ none ↦ some original_bytes | some n ↦ some n ];
  gist_source = some c.gist_source;
  user_text = if text_eq c.reason forget then none else p.user_text;
}

abbrev pub compaction_event : Hasher → Compaction → Text → LedgerAppend
compaction_event h c original = record {
  kind = codes "compaction";
  author = c.actor;
  ts = c.ts;
  prompt_id = some (pos c.prompt_id);
  session_id = none;
  version_number = none;
  ref_kind = some (codes "prompt");
  ref_id = some (to_string c.prompt_id);
  payload_hash = decision_payload_hash h (
      (codes "original_body_hash", original)
      ∷ (codes "gist_hash", h.sha256_hex c.gist)
      ∷ (codes "reason", c.reason)
      ∷ []);
}

unfoldable pub swap_step : Hasher → Compaction → Prompt → Db → Option ℕ × Db
unfolding update is_open swap
swap_step h c p db =
    let ev = next_row h db.rows (compaction_event h c p.body_hash) in
    (
      some ev.seq,
      record db {
        prompts =
            update (λ r. r.id) c.prompt_id (is_open c.reason) (swap c (length (bytes p.body)))
              db.prompts;
        rows = db.rows ++ ev ∷ [];
      },
    )

unfoldable pub swapped :
    Hasher → Compaction → Prompt → Result (Unit {0}) × Db → Result (Option ℕ) × Db
unfolding swap_step
swapped h c p (ok u, db) = (ok (swap_step h c p db).0, (swap_step h c p db).1)
swapped h c p (err e, db) = (err e, db)

unfoldable pub compact_row :
    Hasher → Codec → Answers → Compaction → Option Prompt → Db → Result (Option ℕ) × Db
unfolding archive_step forget_step swapped
compact_row h codec answers c none db = (ok none, db)
compact_row h codec answers c (some p) db =
    swapped h c p (forget_step answers c p (archive_step codec answers c p db))

unfoldable pub compact_prompt_body_in_transaction :
    Hasher → Codec → Answers → Compaction → Db → Result (Option ℕ) × Db
unfolding select_body compact_row
compact_prompt_body_in_transaction h codec answers c db =
    compact_row h codec answers c (select_body c.prompt_id c.reason db) db

-- Outside a transaction: COMMIT, or ROLLBACK on an error. The marker file is not rolled back.
unfoldable pub close {ℓ} : {A : Type ℓ} → Db → Result A × Db → Result A × Db
close before (ok a, db) = (ok a, db)
close before (err e, db) = (err e, record before { registry = db.registry })

unfoldable pub compact_prompt_body :
    Hasher → Codec → Answers → Compaction → Db → Result (Option ℕ) × Db
unfolding close compact_prompt_body_in_transaction
compact_prompt_body h codec answers c db =
    close db (compact_prompt_body_in_transaction h codec answers c db)
