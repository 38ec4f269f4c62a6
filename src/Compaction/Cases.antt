-- ===== src/Compaction/Cases.antt =====
-- What the steps of a compaction and of a restore do on each branch.
use polis_memory.Compaction.Restore.{hits, restore_prompt_body, restore_row, rewarm}
use polis_memory.Prelude.{
  ℕ, ◌≡◌, refl, ◌⊎◌, inl, inr, true, false, some, List, [], ◌∷◌, ◌++◌, arith, length, Bool-cases,
  Option-cases,
}
use polis_memory.Prelude.Tables.{lookup, update, delete, upsert}
use polis_memory.Prelude.Text.{Text, text_eq, text_eq_iff}
use polis_memory.Dedup.Simhash.{bytes}
use polis_memory.Ledger.{Hasher}
use polis_memory.Ledger.Append.{next_row}
use polis_memory.Compaction.{
  Answers, Archived, Codec, Compaction, Db, Prompt, ok, archive_algo, archive_body, archive_step,
  close, cold, compact_prompt_body, compact_prompt_body_in_transaction, compact_row,
  compaction_event, forget, forget_step, is_forgotten, is_open, select_body, swap, swap_step,
  swapped,
}

pub cold_is_cold : (reason : Text) → reason ≡ cold → text_eq reason cold ≡ true
cold_is_cold reason e = (text_eq_iff reason cold).1 e

cold-text_eq-forget : text_eq cold forget ≡ false
unfolding text_eq
cold-text_eq-forget = refl

pub cold_not_forget : (reason : Text) → reason ≡ cold → text_eq reason forget ≡ false
cold_not_forget reason e = rw e cold-text_eq-forget

pub forget_not_cold : (reason : Text) → text_eq reason forget ≡ true → text_eq reason cold ≡ false
forget_not_cold reason e = elim (Bool-cases (text_eq reason cold)) [
  | inl q ↦ absurd (
      let clash : true ≡ false = cc (e, cold_not_forget reason ((text_eq_iff reason cold).0 q)) in
      cc clash)
  | inr q ↦ q
]

abbrev pub archive_row : Compaction → Prompt → List ℕ → Archived
archive_row c p blob = record {
  prompt_id = c.prompt_id;
  body_hash = p.body_hash;
  algo = archive_algo;
  original_bytes = length (bytes p.body);
  blob = blob;
  archived_at = c.ts;
}

-- The SELECT reads exactly an open prompt that is not forgotten.
pub select_body_lem :
    (id : ℕ) (reason : Text) (db : Db) (p : Prompt)
    → select_body id reason db ≡ some p
    → (lookup (λ (r : Prompt). r.id) id db.prompts ≡ some p)
      × (is_open reason p ≡ true)
      × (is_forgotten id db ≡ false)
unfolding select_body
select_body_lem id reason db p e = ground arith

pub select_body-some :
    (id : ℕ) (reason : Text) (db : Db) (p : Prompt)
    → lookup (λ (r : Prompt). r.id) id db.prompts ≡ some p
    → is_open reason p ≡ true
    → is_forgotten id db ≡ false
    → select_body id reason db ≡ some p
unfolding select_body
select_body-some id reason db p e o f = ground arith

-- The state after a cold compaction whose archive row is written.
abbrev pub archived_db : Hasher → Compaction → Prompt → List ℕ → Db → Db
archived_db h c p blob db = record db {
  archive = upsert (λ (a : Archived). a.prompt_id) (archive_row c p blob) db.archive;
  prompts =
      update (λ (r : Prompt). r.id) c.prompt_id (is_open c.reason) (swap c (length (bytes p.body)))
        db.prompts;
  rows = db.rows ++ next_row h db.rows (compaction_event h c p.body_hash) ∷ [];
}

pub compact_prompt_body-cold :
    (h : Hasher) (codec : Codec) (answers : Answers) (c : Compaction) (db : Db) (p : Prompt)
    (blob : List ℕ)
    → c.reason ≡ cold
    → select_body c.prompt_id c.reason db ≡ some p
    → codec.deflate p.body ≡ some blob
    → answers.archive_write ≡ true
    → compact_prompt_body h codec answers c db ≡ (
      ok (some (next_row h db.rows (compaction_event h c p.body_hash)).seq),
      archived_db h c p blob db,
    )
unfolding compact_prompt_body close compact_prompt_body_in_transaction compact_row archive_step
    archive_body forget_step swapped swap_step
compact_prompt_body-cold h codec answers c db p blob is_cold selected packs writes =
    rw
      (
        selected,
        compact_row,
        archive_step,
        cold_is_cold c.reason is_cold,
        archive_body,
        packs,
        writes,
        forget_step,
        cold_not_forget c.reason is_cold,
        swapped,
        swap_step,
      )
      refl

-- A restore from an archive row that inflates to the body that the prompt committed to.
pub restore_prompt_body_ok :
    (h : Hasher) (codec : Codec) (id : ℕ) (db : Db) (a : Archived) (body : Text)
    → is_forgotten id db ≡ false
    → lookup (λ (r : Archived). r.prompt_id) id db.archive ≡ some a
    → a.algo ≡ archive_algo
    → codec.inflate a.blob ≡ some body
    → h.sha256_hex body ≡ a.body_hash
    → hits id a.body_hash db.prompts ≡ true
    → restore_prompt_body h codec id db ≡ (
      ok true,
      record db {
        prompts =
            update
              (λ (p : Prompt). p.id)
              id
              (λ (p : Prompt). text_eq p.body_hash a.body_hash)
              (rewarm body)
              db.prompts;
        archive = delete (λ (r : Archived). r.prompt_id) id db.archive;
      },
    )
unfolding restore_prompt_body restore_row
restore_prompt_body_ok h codec id db a body known found algo inflates hash hit = ground (
  arith,
  (text_eq_iff a.algo archive_algo).1 algo,
  (text_eq_iff (h.sha256_hex body) a.body_hash).1 hash,
)

-- What a restore that changes something has read.
pub record Restorable (h : Hasher) (codec : Codec) (id : ℕ) (db : Db) : Type 0 where
  pub row : Archived
  pub body : Text
  pub known : is_forgotten id db ≡ false
  pub found : lookup (λ (r : Archived). r.prompt_id) id db.archive ≡ some row
  pub algo : row.algo ≡ archive_algo
  pub inflates : codec.inflate row.blob ≡ some body
  pub hash : h.sha256_hex body ≡ row.body_hash
  pub hit : hits id row.body_hash db.prompts ≡ true

restore_row_inv :
    (h : Hasher) (codec : Codec) (id : ℕ) (a : Archived) (db : Db)
    → ((restore_row h codec id a db).1 ≡ db)
      ⊎ ((body : Text) × (text_eq a.algo archive_algo ≡ true)
          × (codec.inflate a.blob ≡ some body)
          × (text_eq (h.sha256_hex body) a.body_hash ≡ true)
          × (hits id a.body_hash db.prompts ≡ true))
unfolding restore_row
restore_row_inv h codec id a db = elim (Bool-cases (text_eq a.algo archive_algo)) [
  | inr q ↦ inl (rw (restore_row, q) refl)
  | inl q ↦ elim (Option-cases (codec.inflate a.blob)) [
    | inl i ↦ inl (rw (restore_row, q, i) refl)
    | inr (body, i) ↦ elim (Bool-cases (text_eq (h.sha256_hex body) a.body_hash)) [
      | inr m ↦ inl (rw (restore_row, q, i, m) refl)
      | inl m ↦ elim (Bool-cases (hits id a.body_hash db.prompts)) [
        | inr n ↦ inl (rw (restore_row, q, i, m, n) refl)
        | inl n ↦ inr (body, q, i, m, n)
      ]
    ]
  ]
]

pub restore_prompt_body_inv :
    (h : Hasher) (codec : Codec) (id : ℕ) (db : Db)
    → ((restore_prompt_body h codec id db).1 ≡ db) ⊎ Restorable h codec id db
unfolding restore_prompt_body
restore_prompt_body_inv h codec id db = elim (Bool-cases (is_forgotten id db)) [
  | inl q ↦ inl (rw (restore_prompt_body, q) refl)
  | inr q ↦ elim (Option-cases (lookup (λ (r : Archived). r.prompt_id) id db.archive)) [
    | inl n ↦ inl (rw (restore_prompt_body, q, n) refl)
    | inr (a, e) ↦ elim (restore_row_inv h codec id a db) [
      | inl same ↦ inl (rw (restore_prompt_body, q, e) same)
      | inr (body, algo, i, m, n) ↦ inr record {
        row = a;
        body = body;
        known = q;
        found = e;
        algo = (text_eq_iff a.algo archive_algo).0 algo;
        inflates = i;
        hash = (text_eq_iff (h.sha256_hex body) a.body_hash).0 m;
        hit = n;
      }
    ]
  ]
]
