-- ===== src/Runs/Reverts.antt =====
-- A revert that is done passed every check, adds one event, and is done once.
use mathlib.Core.List.{reverse}
use polis_memory.Prelude.{
  ℕ, ◌+◌, ◌≤◌, ℤ, ◌≡◌, ◌≢◌, refl, sym, ap, subst, ◌∙◌, All, Bool, true, false, not, Option, none,
  some, List, [], ◌∷◌, ◌++◌, ◌==◌, if◌then◌else◌, length, arith, ==_iff,
}
use polis_memory.Prelude.Tables.{
  lookup, update, lookup-append_other, lookup-update_same, lookup-update_other,
}
use polis_memory.Prelude.Text.{Text, codes, text_eq}
use polis_memory.Ledger.{Hasher, Chained, genesis_prev}
use polis_memory.Ledger.Append.{next_row, next_row-Chained}
use polis_memory.Compaction.{Codec}
use polis_memory.Catalog.Reorg.{everything}
use polis_memory.Runs.{ClassRun, Store, newest, run_id}
use polis_memory.Runs.Revert.{
  Refusal, RevertOutcome, RevertReceipt, Transaction, Walked, already_reverted, applied_ops,
  begin_revert, done, finish_revert, last_overlap, all_subjects, no_run, refusal, refusal_of,
  rejected, revert_checked, revert_event, revert_run, set_outcome, stuck, walked,
}
use polis_memory.Runs.Refusals.{revert_run_refused}
use polis_memory.Runs.Marks.{Undoes, Undoes-Kept, walk_back-Undoes}
use polis_memory.Runs.Journal.{OpsAfter, Undoes-OpsAfter}
use polis_memory.Runs.Guards.{
  Above, HasApplied, Lets, NotReverted, applied_ops_some, behind-false, last_overlap_none,
  was_reverted-false,
}

-- What a revert that is done says of the store before and after it.
pub record Done (h : Hasher) (codec : Codec) (run : ℕ) (actor : Text) (ts : ℤ) (s : Store)
    (receipt : RevertReceipt) (t : Store) : Type 0 where
  pub row : ClassRun
  pub found : lookup run_id run s.runs ≡ some row
  pub not_reverted : NotReverted row.outcome
  pub above : Above run s.horizon
  pub applied : HasApplied run s.ops
  pub latest : All (Lets run s.ops) s.ops
  pub count : receipt.reverted_ops ≡ length (applied_ops run s.ops)
  pub undone : Store
  pub inverses :
      Undoes h codec run receipt.revert_run_id
        (reverse (applied_ops run s.ops))
        (begin_revert receipt.revert_run_id s)
        undone
  pub carried :
      t ≡ record undone { memory = record undone.memory { rows = t.memory.rows }; runs = t.runs }
  pub journal : OpsAfter run receipt.revert_run_id s.ops t.ops
  pub chain :
      t.memory.rows
      ≡ s.memory.rows
        ++ next_row h s.memory.rows
            (revert_event h run receipt.revert_run_id receipt.reverted_ops actor ts)
          ∷ []
  pub after : lookup run_id run t.runs ≡ some (set_outcome (codes "reverted") row)

guards {ℓ} :
    {A : Type ℓ} (a b c d : Bool) (w x y z : A)
    → (if a
        then some w
        else if b
        then some x
        else if c
        then some y
        else if not d
        then some z
        else none)
      ≡ none
    → (a ≡ false) × (b ≡ false) × (c ≡ false) × (d ≡ true)
guards a b c d w x y z e =
    (ground (arith, e), ground (arith, e), ground (arith, e), ground (arith, e))

refusal_none :
    (run : ℕ) (row : ClassRun) (s : Store)
    → refusal_of run row s ≡ none
    → NotReverted row.outcome
      × Above run s.horizon
      × HasApplied run s.ops
      × All (Lets run s.ops) s.ops
unfolding refusal_of
refusal_none run row s e =
    let later = last_overlap run (all_subjects (applied_ops run s.ops)) s.ops in
    let g = guards _ _ _ (later == 0) _ _ _ _ e in
    (
      was_reverted-false row.outcome g.0,
      behind-false run s.horizon g.1,
      applied_ops_some run s.ops g.2,
      last_overlap_none run s.ops ((==_iff later 0).0 g.3),
    )

above_newest :
    (run : ℕ) (row : ClassRun) (runs : List ClassRun)
    → lookup run_id run runs ≡ some row
    → run ≤ newest runs
unfolding lookup
above_newest run row [] e = cc
above_newest run row (r ∷ runs) e = ground (arith, above_newest run row runs, e)

outcome_after :
    (run : ℕ) (row : ClassRun) (runs : List ClassRun) (made : ClassRun)
    → lookup run_id run runs ≡ some row
    → made.id ≡ newest runs + 1
    → lookup run_id run (
        update run_id made.id everything
          (set_outcome (codes "done"))
          (update run_id run everything (set_outcome (codes "reverted")) (runs ++ made ∷ [])))
      ≡ some (set_outcome (codes "reverted") row)
outcome_after run row runs made e fresh =
    let le = above_newest run row runs e in
    let apart : run ≢ made.id = omega (arith, le, fresh) in
    lookup-update_other run_id run made.id everything (set_outcome (codes "done")) apart (λ a. refl)
      (update run_id run everything (set_outcome (codes "reverted")) (runs ++ made ∷ []))
    ∙ lookup-update_same run_id run everything (set_outcome (codes "reverted")) (λ a. refl)
        (runs ++ made ∷ [])
    ∙ rw (lookup-append_other run_id run runs made apart, e) refl

finish_done :
    (h : Hasher) (codec : Codec) (run : ℕ) (actor : Text) (ts : ℤ) (s : Store) (row : ClassRun)
    (w : Walked) (receipt : RevertReceipt)
    → lookup run_id run s.runs ≡ some row
    → refusal_of run row s ≡ none
    → ((tx : Transaction)
        → w ≡ walked tx
        → Undoes h codec run
            (newest s.runs + 1)
            (reverse (applied_ops run s.ops))
            (begin_revert (newest s.runs + 1) s)
            tx.working)
    → (finish_revert h run (newest s.runs + 1) (length (applied_ops run s.ops)) actor ts w).0
      ≡ done receipt
    → Done h codec run actor ts s receipt
        (finish_revert h run (newest s.runs + 1) (length (applied_ops run s.ops)) actor ts w).1
unfolding finish_revert begin_revert
finish_done h codec run actor ts s row (stuck ix tx) receipt found free undoes e = cc
finish_done h codec run actor ts s row (walked tx) receipt found free undoes e =
    let g = refusal_none run row s free in
    let u = undoes tx refl in
    let k = Undoes-Kept h codec run (newest s.runs + 1) u in
    let same : record {
      run_id = run;
      reverted_ops = length (applied_ops run s.ops);
      event_seq =
          (next_row h tx.working.memory.rows
            (revert_event h run (newest s.runs + 1) (length (applied_ops run s.ops)) actor ts)).seq;
      revert_run_id = newest s.runs + 1;
    }
        ≡ receipt =
      ground (arith, e) in
    let by : newest s.runs + 1 ≡ receipt.revert_run_id =
      ap (λ (r : RevertReceipt). r.revert_run_id) same in
    record {
      row = row;
      found = found;
      not_reverted = g.0;
      above = g.1;
      applied = g.2;
      latest = g.3;
      count = sym (ap (λ (r : RevertReceipt). r.reverted_ops) same);
      undone = tx.working;
      inverses =
          subst
            (λ (n : ℕ).
              Undoes h codec run n (reverse (applied_ops run s.ops)) (begin_revert n s) tx.working)
            by u;
      carried = refl;
      journal =
          subst (λ (n : ℕ). OpsAfter run n s.ops tx.working.ops) by
            (Undoes-OpsAfter h codec run (newest s.runs + 1) s.ops refl u);
      chain = rw (k.0, sym (ap (λ (r : RevertReceipt). r.reverted_ops) same), sym by) refl;
      after = rw (k.1) (outcome_after run row s.runs _ found refl);
    }

checked_done :
    (h : Hasher) (codec : Codec) (run : ℕ) (actor : Text) (ts : ℤ) (s : Store) (row : ClassRun)
    (o : Option Refusal) (receipt : RevertReceipt)
    → lookup run_id run s.runs ≡ some row
    → refusal_of run row s ≡ o
    → (revert_checked h codec run actor ts s o).0 ≡ done receipt
    → Done h codec run actor ts s receipt (revert_checked h codec run actor ts s o).1
unfolding revert_checked
checked_done h codec run actor ts s row (some reason) receipt found free e = cc
checked_done h codec run actor ts s row none receipt found free e =
    finish_done h codec run actor ts s row _ receipt found free
      (λ tx w.
        walk_back-Undoes h codec run (newest s.runs + 1) (reverse (applied_ops run s.ops))
          (record { before = s; working = begin_revert (newest s.runs + 1) s }) tx w)
      e

run_done :
    (h : Hasher) (codec : Codec) (run : ℕ) (actor : Text) (ts : ℤ) (s : Store) (o : Option ClassRun)
    (receipt : RevertReceipt)
    → lookup run_id run s.runs ≡ o
    → (revert_checked h codec run actor ts s (refusal run s o)).0 ≡ done receipt
    → Done h codec run actor ts s receipt
        (revert_checked h codec run actor ts s (refusal run s o)).1
run_done h codec run actor ts s none receipt found e =
    absurd (never h codec run actor ts s receipt e)
  where
    never :
        (h : Hasher) (codec : Codec) (run : ℕ) (actor : Text) (ts : ℤ) (s : Store)
        (receipt : RevertReceipt)
        → (revert_checked h codec run actor ts s (some no_run)).0 ≢ done receipt
    never h codec run actor ts s receipt e = unfold revert_checked in cc
run_done h codec run actor ts s (some row) receipt found e =
    checked_done h codec run actor ts s row (refusal_of run row s) receipt found refl e

-- A revert that answers `done`. Before it, the run was there, its outcome neither `reverted` nor
-- `reverted_by_canary`, its id above the vacuum's horizon if there is one; one of its operations was
-- applied, and no operation of a later run was applied that has a subject in common with an applied
-- one of the run. After it, every applied operation of the run has been inverted, the last first,
-- each on the store that the ones before it left, and of the result only the runs and the ledger
-- are changed further. The journal shows every applied operation of the run as reverted by the
-- revert's own run, and the rows of other runs as they were. The receipt counts the operations, the
-- ledger has exactly one event more, the revert's, and the run is recorded as reverted.
pub revert_run_done :
    (h : Hasher) (codec : Codec) (run : ℕ) (actor : Text) (ts : ℤ) (s : Store)
    (receipt : RevertReceipt)
    → (revert_run h codec run actor ts s).0 ≡ done receipt
    → Done h codec run actor ts s receipt (revert_run h codec run actor ts s).1
unfolding revert_run
revert_run_done h codec run actor ts s receipt e =
    run_done h codec run actor ts s (lookup run_id run s.runs) receipt refl e

-- A run is reverted once: a second revert of it is refused as already reverted, and changes nothing.
pub revert_run_once :
    (h : Hasher) (codec : Codec) (run : ℕ) (actor again : Text) (ts later : ℤ) (s : Store)
    (receipt : RevertReceipt)
    → (revert_run h codec run actor ts s).0 ≡ done receipt
    → let t = (revert_run h codec run actor ts s).1 in
      revert_run h codec run again later t ≡ (rejected already_reverted, t)
revert_run_once h codec run actor again ts later s receipt e =
    let d = revert_run_done h codec run actor ts s receipt e in
    second h codec run again later (revert_run h codec run actor ts s).1 d.row d.after
  where
    second :
        (h : Hasher) (codec : Codec) (run : ℕ) (again : Text) (later : ℤ) (t : Store)
        (row : ClassRun)
        → lookup run_id run t.runs ≡ some (set_outcome (codes "reverted") row)
        → revert_run h codec run again later t ≡ (rejected already_reverted, t)
    second h codec run again later t row after =
        unfold revert_run revert_checked refusal_of text_eq in rw after refl

-- A revert, done or refused, leaves a ledger that verifies.
pub revert_run-Chained :
    (h : Hasher) (codec : Codec) (run : ℕ) (actor : Text) (ts : ℤ) (s : Store)
    → Chained h genesis_prev s.memory.rows
    → Chained h genesis_prev (revert_run h codec run actor ts s).1.memory.rows
revert_run-Chained h codec run actor ts s v =
    outcome h codec run actor ts s v (revert_run h codec run actor ts s).0 refl
  where
    outcome :
        (h : Hasher) (codec : Codec) (run : ℕ) (actor : Text) (ts : ℤ) (s : Store)
        → Chained h genesis_prev s.memory.rows
        → (o : RevertOutcome) → (revert_run h codec run actor ts s).0 ≡ o
        → Chained h genesis_prev (revert_run h codec run actor ts s).1.memory.rows
    outcome h codec run actor ts s v (rejected reason) e =
        rw (revert_run_refused h codec run actor ts s reason e) v
    outcome h codec run actor ts s v (done receipt) e =
        let d = revert_run_done h codec run actor ts s receipt e in
        rw (d.chain) (
          next_row-Chained h s.memory.rows
            (revert_event h run receipt.revert_run_id receipt.reverted_ops actor ts) v)
