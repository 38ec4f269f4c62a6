-- ===== src/Compaction/Frames.antt =====
-- A compaction or a restore of one prompt leaves every other prompt as it was.
use polis_memory.Compaction.Restore.{restore_prompt_body}
use polis_memory.Prelude.{
  ℕ, ◌≡◌, ◌≢◌, refl, ◌∙◌, inl, inr, Option, none, some, arith, Bool-cases, Option-cases,
}
use polis_memory.Prelude.Tables.{
  lookup, lookup-append_other, lookup-update_other, lookup-delete_other, lookup-upsert_other,
}
use polis_memory.Prelude.Text.{Text, text_eq}
use polis_memory.Ledger.{Hasher}
use polis_memory.Compaction.{
  Answers, Archived, Codec, Compaction, Db, Forgotten, Prompt, Result, ok, err, archive_body,
  archive_step, close, cold, compact_prompt_body, compact_prompt_body_in_transaction, compact_row,
  forget, forget_step, persist_forget_marker_locked, release, released, select_body, swap,
  swap_step, swapped,
}
use polis_memory.Compaction.Cases.{restore_prompt_body_inv, restore_prompt_body_ok}

-- The rows of `j` are the same.
abbrev pub Frame : ℕ → Db → Db → Type 0
Frame j db db' =
    (lookup (λ (p : Prompt). p.id) j db'.prompts ≡ lookup (λ (p : Prompt). p.id) j db.prompts)
    × (lookup (λ (a : Archived). a.prompt_id) j db'.archive
        ≡ lookup (λ (a : Archived). a.prompt_id) j db.archive)
    × (lookup (λ (f : Forgotten). f.prompt_id) j db'.forgotten
        ≡ lookup (λ (f : Forgotten). f.prompt_id) j db.forgotten)

pub Frame-trans : (j : ℕ) (a b c : Db) → Frame j a b → Frame j b c → Frame j a c
Frame-trans j a b c f g = (g.0 ∙ f.0, g.1 ∙ f.1, g.2 ∙ f.2)

archive_body-Frame :
    (codec : Codec) (answers : Answers) (c : Compaction) (p : Prompt) (db : Db) (j : ℕ)
    → j ≢ c.prompt_id
    → Frame j db (archive_body codec answers c p db)
unfolding archive_body
archive_body-Frame codec answers c p db j ne = elim (Option-cases (codec.deflate p.body)) [
  | inl e ↦ rw (e, archive_body) (refl, refl, refl)
  | inr (blob, e) ↦ elim (Bool-cases answers.archive_write) [
    | inl w ↦
        rw (e, archive_body, w)
          (refl, lookup-upsert_other (λ (a : Archived). a.prompt_id) j _ db.archive ne, refl)
    | inr w ↦ rw (e, archive_body, w) (refl, refl, refl)
  ]
]

archive_step-Frame :
    (codec : Codec) (answers : Answers) (c : Compaction) (p : Prompt) (db : Db) (j : ℕ)
    → j ≢ c.prompt_id
    → Frame j db (archive_step codec answers c p db)
unfolding archive_step
archive_step-Frame codec answers c p db j ne = elim (Bool-cases (text_eq c.reason cold)) [
  | inl q ↦ rw (archive_step, q) (archive_body-Frame codec answers c p db j ne)
  | inr q ↦
      rw (archive_step, q)
        (
          refl,
          lookup-delete_other (λ (a : Archived). a.prompt_id) j c.prompt_id db.archive ne,
          refl,
        )
]

released-Frame :
    (c : Compaction) (p : Prompt) (r : Result (Unit {0}) × Db) (j : ℕ)
    → j ≢ c.prompt_id
    → Frame j r.1 (released c p r).1
unfolding released release
released-Frame c p (ok u, db) j ne =
    (refl, refl, lookup-append_other (λ (f : Forgotten). f.prompt_id) j db.forgotten _ ne)
released-Frame c p (err e, db) j ne = (refl, refl, refl)

-- The marker file is not among the tables.
persist-Frame :
    (answers : Answers) (hash : Text) (db : Db) (j : ℕ)
    → Frame j db (persist_forget_marker_locked answers hash db).1
unfolding persist_forget_marker_locked
persist-Frame answers hash db j = (ground arith, ground arith, ground arith)

forget_step-Frame :
    (answers : Answers) (c : Compaction) (p : Prompt) (db : Db) (j : ℕ)
    → j ≢ c.prompt_id
    → Frame j db (forget_step answers c p db).1
unfolding forget_step
forget_step-Frame answers c p db j ne = elim (Bool-cases (text_eq c.reason forget)) [
  | inl q ↦
      rw (forget_step, q)
        (let marked = persist_forget_marker_locked answers p.body_hash db in
          Frame-trans j db marked.1 (released c p marked).1 (persist-Frame answers p.body_hash db j)
            (released-Frame c p marked j ne))
  | inr q ↦ rw (forget_step, q) (refl, refl, refl)
]

swapped-Frame :
    (h : Hasher) (c : Compaction) (p : Prompt) (r : Result (Unit {0}) × Db) (j : ℕ)
    → j ≢ c.prompt_id
    → Frame j r.1 (swapped h c p r).1
unfolding swapped swap_step swap
swapped-Frame h c p (ok u, db) j ne = (
  lookup-update_other (λ (r : Prompt). r.id) j c.prompt_id _ _ ne (λ a. refl) db.prompts,
  refl,
  refl,
)
swapped-Frame h c p (err e, db) j ne = (refl, refl, refl)

compact_row-Frame :
    (h : Hasher) (codec : Codec) (answers : Answers) (c : Compaction) (o : Option Prompt) (db : Db)
    (j : ℕ)
    → j ≢ c.prompt_id
    → Frame j db (compact_row h codec answers c o db).1
unfolding compact_row
compact_row-Frame h codec answers c none db j ne = (refl, refl, refl)
compact_row-Frame h codec answers c (some p) db j ne =
    let a = archive_step codec answers c p db in
    let b = forget_step answers c p a in
    Frame-trans j db a (swapped h c p b).1 (archive_step-Frame codec answers c p db j ne) (
      Frame-trans j a b.1 (swapped h c p b).1 (forget_step-Frame answers c p a j ne)
        (swapped-Frame h c p b j ne))

close-Frame {ℓ} :
    {A : Type ℓ} (before : Db) (r : Result A × Db) (j : ℕ)
    → Frame j before r.1
    → Frame j before (close before r).1
unfolding close
close-Frame before (ok a, db) j f = f
close-Frame before (err e, db) j f = (refl, refl, refl)

pub compact_prompt_body-Frame :
    (h : Hasher) (codec : Codec) (answers : Answers) (c : Compaction) (db : Db) (j : ℕ)
    → j ≢ c.prompt_id
    → Frame j db (compact_prompt_body h codec answers c db).1
unfolding compact_prompt_body compact_prompt_body_in_transaction
compact_prompt_body-Frame h codec answers c db j ne =
    close-Frame db _ j
      (compact_row-Frame h codec answers c (select_body c.prompt_id c.reason db) db j ne)

pub restore_prompt_body-Frame :
    (h : Hasher) (codec : Codec) (id : ℕ) (db : Db) (j : ℕ)
    → j ≢ id
    → Frame j db (restore_prompt_body h codec id db).1
restore_prompt_body-Frame h codec id db j ne = elim (restore_prompt_body_inv h codec id db) [
  | inl same ↦ rw same (refl, refl, refl)
  | inr r ↦
      rw
        (restore_prompt_body_ok h codec id db r.row r.body r.known r.found r.algo r.inflates r.hash
          r.hit)
        (
          lookup-update_other (λ (p : Prompt). p.id) j id _ _ ne (λ a. refl) db.prompts,
          lookup-delete_other (λ (a : Archived). a.prompt_id) j id db.archive ne,
          refl,
        )
]
