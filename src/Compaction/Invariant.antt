-- ===== src/Compaction/Invariant.antt =====
-- The invariant that every compaction and every restore keeps.
use polis_memory.Prelude.{
  ℕ, ◌≡◌, refl, sym, subst, ◌∙◌, ◌⊎◌, inl, inr, true, false, Option, none, some, List, [], ◌∷◌,
  ◌++◌, arith, length, is_some, Bool-cases, Option-cases,
}
use polis_memory.Prelude.Tables.{
  lookup, update, delete, upsert, lookup-update_same, lookup-delete_same, lookup-upsert_same,
  lookup-append_same,
}
use polis_memory.Prelude.Text.{Text, text_eq}
use polis_memory.Dedup.Simhash.{bytes}
use polis_memory.Ledger.{Hasher, Chained, genesis_prev}
use polis_memory.Ledger.Append.{next_row-Chained}
use polis_memory.Compaction.{
  Answers, Archived, Codec, Compaction, Db, Forgotten, Problem, marker_failed, Prompt, Result, ok,
  err, archive_body, archive_step, cold, compact_row, compaction_event, forget, forget_step,
  is_forgotten, is_open, persist_forget_marker_locked, release, released, swap, swap_step, swapped,
}
use polis_memory.Compaction.Cases.{archive_row, forget_not_cold}
use polis_memory.Compaction.Frames.{Frame}

-- What a prompt's rows are together. An archived prompt has a gist for its body, the archive
-- commits to the hash that the prompt commits to, and the prompt is not forgotten. A forgotten
-- prompt has no archive row and no words.
abbrev pub RowValid : Option Prompt → Option Archived → Option Forgotten → Type 0
RowValid o none none = Unit
RowValid o (some a) none =
    (p : Prompt) × (o ≡ some p)
    × (is_some p.gist ≡ true)
    × (p.body ≡ [])
    × (p.body_hash ≡ a.body_hash)
RowValid o none (some f) =
    (p : Prompt) × (o ≡ some p) × (p.body ≡ []) × (p.user_text ≡ none) × (p.body_hash ≡ f.body_hash)
RowValid o (some a) (some f) = ⊥

abbrev pub RowsAt : ℕ → Db → Type 0
RowsAt id db =
    RowValid (lookup (λ (p : Prompt). p.id) id db.prompts)
      (lookup (λ (a : Archived). a.prompt_id) id db.archive)
      (lookup (λ (f : Forgotten). f.prompt_id) id db.forgotten)

pub record IsValid (h : Hasher) (db : Db) : Type 0 where
  pub chained : Chained h genesis_prev db.rows
  pub row : (id : ℕ) → RowsAt id db

pub RowsAt-Frame : (j : ℕ) (db db' : Db) → Frame j db db' → RowsAt j db → RowsAt j db'
RowsAt-Frame j db db' f v = rw (f.0, f.1, f.2) v

-- The chain.
swapped-Chained :
    (h : Hasher) (c : Compaction) (p : Prompt) (r : Result (Unit {0}) × Db)
    → Chained h genesis_prev r.1.rows
    → Chained h genesis_prev (swapped h c p r).1.rows
unfolding swapped swap_step
swapped-Chained h c p (ok u, db) v = next_row-Chained h db.rows (compaction_event h c p.body_hash) v
swapped-Chained h c p (err e, db) v = v

same_rows :
    (codec : Codec) (answers : Answers) (c : Compaction) (p : Prompt) (db : Db)
    → (forget_step answers c p (archive_step codec answers c p db)).1.rows ≡ db.rows
unfolding archive_step archive_body forget_step released release persist_forget_marker_locked
same_rows codec answers c p db = ground arith

pub compact_row-Chained :
    (h : Hasher) (codec : Codec) (answers : Answers) (c : Compaction) (o : Option Prompt) (db : Db)
    → Chained h genesis_prev db.rows
    → Chained h genesis_prev (compact_row h codec answers c o db).1.rows
unfolding compact_row
compact_row-Chained h codec answers c none db v = v
compact_row-Chained h codec answers c (some p) db v =
    swapped-Chained h c p (forget_step answers c p (archive_step codec answers c p db))
      (subst (Chained h genesis_prev) (sym (same_rows codec answers c p db)) v)

-- The rows of the compacted prompt.
marker_cases :
    (answers : Answers) (hash : Text) (db : Db)
    → ((registry : List Text) × (persist_forget_marker_locked answers hash db
          ≡ (ok tt, record db { registry = registry })))
      ⊎ ((e : Problem) × (persist_forget_marker_locked answers hash db ≡ (err e, db)))
unfolding persist_forget_marker_locked
marker_cases answers hash db = elim (Bool-cases answers.has_file) [
  | inr q ↦ inl (db.registry, rw (q, persist_forget_marker_locked) refl)
  | inl q ↦ elim (Bool-cases answers.marker_write) [
    | inl w ↦ inl (db.registry ++ hash ∷ [], rw (q, w, persist_forget_marker_locked) refl)
    | inr w ↦ inr (marker_failed, rw (q, w, persist_forget_marker_locked) refl)
  ]
]

-- Where the result is no error, `P` holds of the state.
abbrev pub IfOk : (Db → Type 0) → Result (Option ℕ) × Db → Type 0
IfOk P (ok r, db) = P db
IfOk P (err e, db) = Unit

abbrev pub ForgottenAt : ℕ → Db → Type 0
ForgottenAt id db = RowsAt id db × (is_forgotten id db ≡ true)

swapped_row :
    (c : Compaction) (n : ℕ) (p : Prompt) (prompts : List Prompt)
    → is_open c.reason p ≡ true
    → lookup (λ (r : Prompt). r.id) c.prompt_id prompts ≡ some p
    → lookup
        (λ (r : Prompt). r.id)
        c.prompt_id
        (update (λ (r : Prompt). r.id) c.prompt_id (is_open c.reason) (swap c n) prompts)
      ≡ some (swap c n p)
unfolding swap
swapped_row c n p prompts opened found =
    lookup-update_same (λ (r : Prompt). r.id) c.prompt_id (is_open c.reason) (swap c n) (λ a. refl)
      prompts
    ∙ rw (found, opened) refl

pub forget-IfOk :
    (h : Hasher) (codec : Codec) (answers : Answers) (c : Compaction) (p : Prompt) (db : Db)
    → text_eq c.reason forget ≡ true
    → is_open c.reason p ≡ true
    → lookup (λ (r : Prompt). r.id) c.prompt_id db.prompts ≡ some p
    → lookup (λ (f : Forgotten). f.prompt_id) c.prompt_id db.forgotten ≡ none
    → IfOk (ForgottenAt c.prompt_id) (compact_row h codec answers c (some p) db)
unfolding compact_row archive_step forget_step released release swapped swap_step swap
forget-IfOk h codec answers c p db q opened found free =
    elim (marker_cases answers p.body_hash
      (record db { archive = delete (λ (a : Archived). a.prompt_id) c.prompt_id db.archive })) [
        | inr (e, m) ↦
            rw
              (
                compact_row,
                archive_step,
                forget_not_cold c.reason q,
                forget_step,
                q,
                m,
                released,
                swapped,
              )
              tt
        | inl (registry, m) ↦
            rw
              (
                compact_row,
                archive_step,
                forget_not_cold c.reason q,
                forget_step,
                q,
                m,
                released,
                swapped,
                swap_step,
                release,
                swapped_row c (length (bytes p.body)) p db.prompts opened found,
                lookup-delete_same (λ (a : Archived). a.prompt_id) c.prompt_id db.archive,
                lookup-append_same (λ (f : Forgotten). f.prompt_id) db.forgotten
                    (record {
                      prompt_id = c.prompt_id;
                      body_hash = p.body_hash;
                      forgotten_at = c.ts;
                    })
                    free,
              )
              ((swap c (length (bytes p.body)) p, refl, refl, rw q refl, refl), refl)
      ]

open_warm :
    (reason : Text) (p : Prompt)
    → text_eq reason forget ≡ false
    → is_open reason p ≡ true
    → is_some p.gist ≡ false
unfolding is_open
open_warm reason p q opened = ground arith

-- A prompt without a gist has no archive row.
warm_no_archive :
    (o : Option Prompt) (a : Option Archived) (f : Option Forgotten) (p : Prompt)
    → RowValid o a f
    → o ≡ some p
    → is_some p.gist ≡ false
    → f ≡ none
    → a ≡ none
warm_no_archive o none f p v e g n = refl
warm_no_archive o (some a) none p (p', e', g', b, hh) e g n = cc
warm_no_archive o (some a) (some f) p v e g n = absurd v

-- After the words are swapped, with what the archive now holds.
swapped-IfOk :
    (h : Hasher) (c : Compaction) (p : Prompt) (db : Db)
    → is_open c.reason p ≡ true
    → lookup (λ (r : Prompt). r.id) c.prompt_id db.prompts ≡ some p
    → lookup (λ (f : Forgotten). f.prompt_id) c.prompt_id db.forgotten ≡ none
    → (lookup (λ (a : Archived). a.prompt_id) c.prompt_id db.archive ≡ none)
      ⊎ ((a : Archived) × (lookup (λ (a : Archived). a.prompt_id) c.prompt_id db.archive ≡ some a)
          × (p.body_hash ≡ a.body_hash))
    → IfOk (RowsAt c.prompt_id) (swapped h c p (ok tt, db))
unfolding swapped swap_step swap
swapped-IfOk h c p db opened found free (inl e) =
    rw
      (swapped, swap_step, swapped_row c (length (bytes p.body)) p db.prompts opened found, free, e)
      tt
swapped-IfOk h c p db opened found free (inr (a, e, same)) =
    rw
      (swapped, swap_step, swapped_row c (length (bytes p.body)) p db.prompts opened found, free, e)
      (swap c (length (bytes p.body)) p, refl, refl, refl, same)

cold-IfOk :
    (h : Hasher) (codec : Codec) (answers : Answers) (c : Compaction) (p : Prompt) (db : Db)
    → is_open c.reason p ≡ true
    → lookup (λ (r : Prompt). r.id) c.prompt_id db.prompts ≡ some p
    → lookup (λ (f : Forgotten). f.prompt_id) c.prompt_id db.forgotten ≡ none
    → lookup (λ (a : Archived). a.prompt_id) c.prompt_id db.archive ≡ none
    → IfOk (RowsAt c.prompt_id) (swapped h c p (ok tt, archive_body codec answers c p db))
unfolding archive_body
cold-IfOk h codec answers c p db opened found free bare =
    elim (Option-cases (codec.deflate p.body)) [
      | inl e ↦ rw (archive_body, e) (swapped-IfOk h c p db opened found free (inl bare))
      | inr (blob, e) ↦ elim (Bool-cases answers.archive_write) [
        | inr w ↦ rw (archive_body, e, w) (swapped-IfOk h c p db opened found free (inl bare))
        | inl w ↦
            rw (archive_body, e, w)
              (swapped-IfOk h c p
                (record db {
                  archive =
                      upsert (λ (a : Archived). a.prompt_id) (archive_row c p blob) db.archive;
                })
                opened found free
                (inr (
                  archive_row c p blob,
                  lookup-upsert_same (λ (a : Archived). a.prompt_id) (archive_row c p blob)
                      db.archive,
                  refl,
                )))
      ]
    ]

pub kept-IfOk :
    (h : Hasher) (codec : Codec) (answers : Answers) (c : Compaction) (p : Prompt) (db : Db)
    → text_eq c.reason forget ≡ false
    → is_open c.reason p ≡ true
    → lookup (λ (r : Prompt). r.id) c.prompt_id db.prompts ≡ some p
    → lookup (λ (f : Forgotten). f.prompt_id) c.prompt_id db.forgotten ≡ none
    → RowsAt c.prompt_id db
    → IfOk (RowsAt c.prompt_id) (compact_row h codec answers c (some p) db)
unfolding compact_row archive_step forget_step
kept-IfOk h codec answers c p db q opened found free v = elim (Bool-cases (text_eq c.reason cold)) [
  | inl is_cold ↦
      rw (compact_row, archive_step, is_cold, forget_step, q)
        (cold-IfOk h codec answers c p db opened found free
          (warm_no_archive _ _ _ p v found (open_warm c.reason p q opened) free))
  | inr other ↦
      rw (compact_row, archive_step, other, forget_step, q)
        (swapped-IfOk h c p
          (record db { archive = delete (λ (a : Archived). a.prompt_id) c.prompt_id db.archive })
          opened found free
          (inl (lookup-delete_same (λ (a : Archived). a.prompt_id) c.prompt_id db.archive)))
]
