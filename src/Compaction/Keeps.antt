-- ===== src/Compaction/Keeps.antt =====
-- Every compaction and every restore keeps the invariant.
use polis_memory.Compaction.Restore.{
  Action, compact, restore, restore_prompt_body, run_actions, step,
}
use polis_memory.Prelude.{
  ℕ, ◌≡◌, sym, subst, inl, inr, false, Option, none, some, List, [], ◌∷◌, arith, Bool-cases,
  Option-cases, ℕ_discrete,
}
use polis_memory.Prelude.Tables.{lookup, lookup-delete_same}
use polis_memory.Prelude.Text.{text_eq}
use polis_memory.Ledger.{Hasher, Chained, genesis_prev}
use polis_memory.Compaction.{
  Answers, Archived, Codec, Compaction, Db, Forgotten, Result, ok, err, close, compact_prompt_body,
  compact_prompt_body_in_transaction, compact_row, forget, is_forgotten, select_body,
}
use polis_memory.Compaction.Cases.{
  Restorable, restore_prompt_body_inv, restore_prompt_body_ok, select_body_lem,
}
use polis_memory.Compaction.Frames.{compact_prompt_body-Frame, restore_prompt_body-Frame}
use polis_memory.Compaction.Invariant.{
  ForgottenAt, IfOk, IsValid, RowsAt, RowsAt-Frame, compact_row-Chained, forget-IfOk, kept-IfOk,
}

pub not_forgotten_none :
    (id : ℕ) (db : Db)
    → is_forgotten id db ≡ false
    → lookup (λ (f : Forgotten). f.prompt_id) id db.forgotten ≡ none
not_forgotten_none id db e = ground arith

close-Chained {ℓ} :
    {A : Type ℓ} (h : Hasher) (before : Db) (r : Result A × Db)
    → Chained h genesis_prev before.rows
    → Chained h genesis_prev r.1.rows
    → Chained h genesis_prev (close before r).1.rows
unfolding close
close-Chained h before (ok a, db) v w = w
close-Chained h before (err e, db) v w = v

close-RowsAt :
    (id : ℕ) (before : Db) (r : Result (Option ℕ) × Db)
    → RowsAt id before
    → IfOk (RowsAt id) r
    → RowsAt id (close before r).1
unfolding close
close-RowsAt id before (ok a, db) v w = w
close-RowsAt id before (err e, db) v w = v

IfOk-RowsAt : (id : ℕ) (r : Result (Option ℕ) × Db) → IfOk (ForgottenAt id) r → IfOk (RowsAt id) r
IfOk-RowsAt id (ok a, db) w = w.0
IfOk-RowsAt id (err e, db) w = w

compact_row-IfOk :
    (h : Hasher) (codec : Codec) (answers : Answers) (c : Compaction) (db : Db)
    → RowsAt c.prompt_id db
    → IfOk
        (RowsAt c.prompt_id)
        (compact_row h codec answers c (select_body c.prompt_id c.reason db) db)
unfolding compact_row
compact_row-IfOk h codec answers c db v =
    elim (Option-cases (select_body c.prompt_id c.reason db)) [
      | inl e ↦ rw (e, compact_row) v
      | inr (p, e) ↦
          let (found, opened, known) = select_body_lem c.prompt_id c.reason db p e in
          let free = not_forgotten_none c.prompt_id db known in
          rw e (elim (Bool-cases (text_eq c.reason forget)) [
            | inl q ↦
                IfOk-RowsAt c.prompt_id (compact_row h codec answers c (some p) db)
                  (forget-IfOk h codec answers c p db q opened found free)
            | inr q ↦ kept-IfOk h codec answers c p db q opened found free v
          ])
    ]

-- A compaction, whatever the reason and the answers, keeps the invariant.
pub compact_prompt_body-IsValid :
    (h : Hasher) (codec : Codec) (answers : Answers) (c : Compaction) (db : Db)
    → IsValid h db
    → IsValid h (compact_prompt_body h codec answers c db).1
unfolding compact_prompt_body compact_prompt_body_in_transaction
compact_prompt_body-IsValid h codec answers c db v = record {
  chained =
      close-Chained h db _ v.chained
        (compact_row-Chained h codec answers c (select_body c.prompt_id c.reason db) db v.chained);
  row = λ id. elim (ℕ_discrete id c.prompt_id) [
    | yes e ↦
        subst (λ (j : ℕ). RowsAt j (compact_prompt_body h codec answers c db).1) (sym e)
          (close-RowsAt c.prompt_id db
            (compact_row h codec answers c (select_body c.prompt_id c.reason db) db)
            (v.row c.prompt_id) (compact_row-IfOk h codec answers c db (v.row c.prompt_id)))
    | no ne ↦
        RowsAt-Frame id db (compact_prompt_body h codec answers c db).1
          (compact_prompt_body-Frame h codec answers c db id ne) (v.row id)
  ];
}

restored_row :
    (h : Hasher) (codec : Codec) (id : ℕ) (db : Db)
    → Restorable h codec id db
    → RowsAt id (restore_prompt_body h codec id db).1
restored_row h codec id db r =
    rw
      (
        restore_prompt_body_ok h codec id db r.row r.body r.known r.found r.algo r.inflates r.hash
            r.hit,
        lookup-delete_same (λ (a : Archived). a.prompt_id) id db.archive,
        not_forgotten_none id db r.known,
      )
      tt

-- A restore keeps it.
pub restore_prompt_body-IsValid :
    (h : Hasher) (codec : Codec) (id : ℕ) (db : Db)
    → IsValid h db
    → IsValid h (restore_prompt_body h codec id db).1
restore_prompt_body-IsValid h codec id db v = elim (restore_prompt_body_inv h codec id db) [
  | inl same ↦ rw same v
  | inr r ↦ record {
    chained =
        rw
          (restore_prompt_body_ok h codec id db r.row r.body r.known r.found r.algo r.inflates
            r.hash r.hit)
          v.chained;
    row = λ j. elim (ℕ_discrete j id) [
      | yes e ↦
          subst (λ (i : ℕ). RowsAt i (restore_prompt_body h codec id db).1) (sym e)
            (restored_row h codec id db r)
      | no ne ↦
          RowsAt-Frame j db (restore_prompt_body h codec id db).1
            (restore_prompt_body-Frame h codec id db j ne) (v.row j)
    ];
  }
]

step-IsValid :
    (h : Hasher) (codec : Codec) (a : Action) (db : Db)
    → IsValid h db
    → IsValid h (step h codec a db)
unfolding step
step-IsValid h codec (compact answers c) db v = compact_prompt_body-IsValid h codec answers c db v
step-IsValid h codec (restore id) db v = restore_prompt_body-IsValid h codec id db v

-- Any sequence of compactions and restores, with any answers, keeps the invariant: the ledger
-- verifies, an archived prompt has no body and an archive row with its hash, and a forgotten prompt
-- has no body, no user text and no archive row.
pub run_actions-IsValid :
    (h : Hasher) (codec : Codec) (actions : List Action) (db : Db)
    → IsValid h db
    → IsValid h (run_actions h codec actions db)
unfolding run_actions
run_actions-IsValid h codec [] db v = v
run_actions-IsValid h codec (a ∷ actions) db v =
    run_actions-IsValid h codec actions (step h codec a db) (step-IsValid h codec a db v)
