-- ===== src/Compaction/Forgets.antt =====
-- What is forgotten stays forgotten.
use polis_memory.Compaction.Restore.{
  Action, compact, restore, restore_prompt_body, run_actions, step,
}
use polis_memory.Prelude.{
  ℕ, ◌≡◌, ◌≢◌, refl, sym, ◌∙◌, subst, inl, inr, true, false, Option, none, some, List, [], ◌∷◌,
  is_some, Option-cases, ℕ_discrete,
}
use polis_memory.Prelude.Tables.{lookup}
use polis_memory.Prelude.Text.{text_eq, text_eq_iff}
use polis_memory.Ledger.{Hasher}
use polis_memory.Compaction.{
  Answers, Archived, Codec, Compaction, Db, Forgotten, Prompt, Result, ok, err, close,
  compact_prompt_body, compact_prompt_body_in_transaction, compact_row, forget, is_forgotten,
  select_body,
}
use polis_memory.Compaction.Cases.{restore_prompt_body_inv, restore_prompt_body_ok, select_body_lem}
use polis_memory.Compaction.Frames.{Frame, compact_prompt_body-Frame}
use polis_memory.Compaction.Invariant.{ForgottenAt, IfOk, IsValid, RowValid, forget-IfOk}
use polis_memory.Compaction.Keeps.{
  compact_prompt_body-IsValid, not_forgotten_none, run_actions-IsValid,
}

-- A forgotten prompt is skipped.
compact_forgotten :
    (h : Hasher) (codec : Codec) (answers : Answers) (c : Compaction) (db : Db)
    → is_forgotten c.prompt_id db ≡ true
    → compact_prompt_body h codec answers c db ≡ (ok none, db)
unfolding compact_prompt_body compact_prompt_body_in_transaction compact_row close
compact_forgotten h codec answers c db e =
    elim (Option-cases (select_body c.prompt_id c.reason db)) [
      | inl n ↦ rw (n, compact_row) refl
      | inr (p, s) ↦ absurd (
          let (found, opened, known) = select_body_lem c.prompt_id c.reason db p s in
          let clash : true ≡ false = sym e ∙ known in cc clash)
    ]

Frame-is_forgotten :
    (j : ℕ) (db db' : Db) → Frame j db db' → is_forgotten j db ≡ true → is_forgotten j db' ≡ true
Frame-is_forgotten j db db' f e = rw f.2 e

restore-is_forgotten :
    (h : Hasher) (codec : Codec) (j id : ℕ) (db : Db)
    → is_forgotten id db ≡ true
    → is_forgotten id (restore_prompt_body h codec j db).1 ≡ true
restore-is_forgotten h codec j id db e = elim (restore_prompt_body_inv h codec j db) [
  | inl same ↦ rw same e
  | inr r ↦
      rw
        (restore_prompt_body_ok h codec j db r.row r.body r.known r.found r.algo r.inflates r.hash
          r.hit)
        e
]

compact-is_forgotten :
    (h : Hasher) (codec : Codec) (answers : Answers) (c : Compaction) (id : ℕ) (db : Db)
    → is_forgotten id db ≡ true
    → is_forgotten id (compact_prompt_body h codec answers c db).1 ≡ true
compact-is_forgotten h codec answers c id db e = elim (ℕ_discrete id c.prompt_id) [
  | yes q ↦
      let here = subst (λ (j : ℕ). is_forgotten j db ≡ true) q e in
      rw (compact_forgotten h codec answers c db here) e
  | no ne ↦
      Frame-is_forgotten id db (compact_prompt_body h codec answers c db).1
        (compact_prompt_body-Frame h codec answers c db id ne) e
]

step-is_forgotten :
    (h : Hasher) (codec : Codec) (a : Action) (id : ℕ) (db : Db)
    → is_forgotten id db ≡ true
    → is_forgotten id (step h codec a db) ≡ true
unfolding step
step-is_forgotten h codec (compact answers c) id db e =
    compact-is_forgotten h codec answers c id db e
step-is_forgotten h codec (restore j) id db e = restore-is_forgotten h codec j id db e

run_actions-is_forgotten :
    (h : Hasher) (codec : Codec) (actions : List Action) (id : ℕ) (db : Db)
    → is_forgotten id db ≡ true
    → is_forgotten id (run_actions h codec actions db) ≡ true
unfolding run_actions
run_actions-is_forgotten h codec [] id db e = e
run_actions-is_forgotten h codec (a ∷ actions) id db e =
    run_actions-is_forgotten h codec actions id (step h codec a db)
      (step-is_forgotten h codec a id db e)

-- The prompt's words are nowhere in the tables.
pub record IsGone (id : ℕ) (db : Db) : Type 0 where
  pub prompt : Prompt
  pub found : lookup (λ (p : Prompt). p.id) id db.prompts ≡ some prompt
  pub body : prompt.body ≡ []
  pub user_text : prompt.user_text ≡ none
  pub archive : lookup (λ (a : Archived). a.prompt_id) id db.archive ≡ none
  pub tombstone : is_forgotten id db ≡ true

gone_rows :
    (o : Option Prompt) (a : Option Archived) (f : Option Forgotten)
    → RowValid o a f
    → is_some f ≡ true
    → (p : Prompt) × (o ≡ some p) × (p.body ≡ []) × (p.user_text ≡ none) × (a ≡ none)
gone_rows o a none v e = cc
gone_rows o none (some f) (p, found, body, text, hash) e = (p, found, body, text, refl)
gone_rows o (some a) (some f) v e = absurd v

gone : (h : Hasher) (id : ℕ) (db : Db) → IsValid h db → is_forgotten id db ≡ true → IsGone id db
gone h id db v e =
    let (p, found, body, text, bare) = gone_rows _ _ _ (v.row id) e in
    record {
      prompt = p;
      found = found;
      body = body;
      user_text = text;
      archive = bare;
      tombstone = e;
    }

close-is_forgotten :
    (id seq : ℕ) (before : Db) (r : Result (Option ℕ) × Db)
    → (close before r).0 ≡ ok (some seq)
    → IfOk (ForgottenAt id) r
    → is_forgotten id (close before r).1 ≡ true
unfolding close
close-is_forgotten id seq before (ok a, db) e w = w.1
close-is_forgotten id seq before (err p, db) e w = cc

row_marks :
    (h : Hasher) (codec : Codec) (answers : Answers) (c : Compaction) (db : Db) (seq : ℕ)
    (o : Option Prompt)
    → text_eq c.reason forget ≡ true
    → select_body c.prompt_id c.reason db ≡ o
    → (close db (compact_row h codec answers c o db)).0 ≡ ok (some seq)
    → is_forgotten c.prompt_id (close db (compact_row h codec answers c o db)).1 ≡ true
unfolding close
row_marks h codec answers c db seq none q s e = absurd (nothing h codec answers c db seq e)
  where
    nothing :
        (h : Hasher) (codec : Codec) (answers : Answers) (c : Compaction) (db : Db) (seq : ℕ)
        → (close db (compact_row h codec answers c none db)).0 ≢ ok (some seq)
    nothing h codec answers c db seq e = unfold compact_row in cc
row_marks h codec answers c db seq (some p) q s e =
    let (found, opened, known) = select_body_lem c.prompt_id c.reason db p s in
    close-is_forgotten c.prompt_id seq db (compact_row h codec answers c (some p) db) e
      (forget-IfOk h codec answers c p db q opened found (not_forgotten_none c.prompt_id db known))

forget_marks :
    (h : Hasher) (codec : Codec) (answers : Answers) (c : Compaction) (db : Db) (seq : ℕ)
    → c.reason ≡ forget
    → (compact_prompt_body h codec answers c db).0 ≡ ok (some seq)
    → is_forgotten c.prompt_id (compact_prompt_body h codec answers c db).1 ≡ true
unfolding compact_prompt_body compact_prompt_body_in_transaction
forget_marks h codec answers c db seq q e =
    row_marks h codec answers c db seq (select_body c.prompt_id c.reason db)
      ((text_eq_iff c.reason forget).1 q) refl e

-- A forget that succeeds on a valid state releases the words for good: whatever compactions and
-- restores follow, with whatever answers, the prompt has no body, no user text and no archive row,
-- and its tombstone stays.
pub forget_forever :
    (h : Hasher) (codec : Codec) (answers : Answers) (c : Compaction) (db : Db) (seq : ℕ)
    (later : List Action)
    → IsValid h db
    → c.reason ≡ forget
    → (compact_prompt_body h codec answers c db).0 ≡ ok (some seq)
    → IsGone c.prompt_id (run_actions h codec later (compact_prompt_body h codec answers c db).1)
forget_forever h codec answers c db seq later v q e =
    let after = (compact_prompt_body h codec answers c db).1 in
    gone h c.prompt_id (run_actions h codec later after)
      (run_actions-IsValid h codec later after (compact_prompt_body-IsValid h codec answers c db v))
      (run_actions-is_forgotten h codec later c.prompt_id after
        (forget_marks h codec answers c db seq q e))
