-- ===== src/Runs/Refusals.antt =====
-- A refused revert changes nothing, and an inverse leaves the ledger and the runs alone.
use mathlib.Core.List.{reverse}
use polis_memory.Compaction.Restore.{restore_prompt_body}
use polis_memory.Prelude.{
  ℕ, ◌+◌, ℤ, ◌≡◌, refl, ◌∙◌, inl, inr, Bool, true, false, Option, none, some, List, [], ◌∷◌, length,
  arith, Option-cases, map_some,
}
use polis_memory.Prelude.Tables.{lookup}
use polis_memory.Prelude.Text.{Text}
use polis_memory.Ledger.{Hasher}
use polis_memory.Compaction.{Codec, Db, Result, ok, err}
use polis_memory.Compaction.Cases.{restore_prompt_body_inv, restore_prompt_body_ok}
use polis_memory.Catalog.Reorg.{
  Image, file, create, promote, split, merge, collapse, supersede, compact, observe,
}
use polis_memory.Catalog.{Catalog}
use polis_memory.Runs.{
  RunOp, Store, in_catalog, invert_image, invert_op_locked, newest, restored, run_id, unmerge,
  unsplit,
}
use polis_memory.Runs.Revert.{
  Refusal, Transaction, Walked, applied_ops, begin_revert, finish_revert, roll_back, marked_store,
  refusal, rejected, revert_checked, revert_run, stuck, walk_back, walked,
}

-- The transaction under a walk.
abbrev transaction_of : Walked → Transaction
transaction_of (walked tx) = tx
transaction_of (stuck ix tx) = tx

-- However far the inverses get, the transaction goes back to where it began.
walk_back_before :
    (h : Hasher) (codec : Codec) (run by : ℕ) (ops : List RunOp) (tx : Transaction)
    → roll_back (transaction_of (walk_back h codec run by ops tx)) ≡ roll_back tx
unfolding walk_back
walk_back_before h codec run by [] tx = refl
walk_back_before h codec run by (o ∷ ops) tx =
    elim (Option-cases (invert_op_locked h codec run by o.pre_image tx.working)) [
      | inl fails ↦ rw (fails, walk_back) refl
      | inr (s, yields) ↦
          rw (yields, walk_back)
            (walk_back_before h codec run by ops (record tx { working = marked_store by o s }))
    ]

finish_refused :
    (h : Hasher) (run by ops : ℕ) (actor : Text) (ts : ℤ) (w : Walked) (reason : Refusal)
    → (finish_revert h run by ops actor ts w).0 ≡ rejected reason
    → (finish_revert h run by ops actor ts w).1 ≡ roll_back (transaction_of w)
unfolding finish_revert
finish_refused h run by ops actor ts (stuck ix tx) reason e = refl
finish_refused h run by ops actor ts (walked tx) reason e = cc

checked_refused :
    (h : Hasher) (codec : Codec) (run : ℕ) (actor : Text) (ts : ℤ) (s : Store) (o : Option Refusal)
    (reason : Refusal)
    → (revert_checked h codec run actor ts s o).0 ≡ rejected reason
    → (revert_checked h codec run actor ts s o).1 ≡ s
unfolding revert_checked
checked_refused h codec run actor ts s (some r) reason e = refl
checked_refused h codec run actor ts s none reason e =
    let by = newest s.runs + 1 in
    finish_refused h run by (length (applied_ops run s.ops)) actor ts _ reason e
    ∙ walk_back_before h codec run by (reverse (applied_ops run s.ops))
        (record { before = s; working = begin_revert by s })

-- A refused revert, for whatever reason, leaves the store as it was: also where an inverse fails
-- after others have been carried out.
pub revert_run_refused :
    (h : Hasher) (codec : Codec) (run : ℕ) (actor : Text) (ts : ℤ) (s : Store) (reason : Refusal)
    → (revert_run h codec run actor ts s).0 ≡ rejected reason
    → (revert_run h codec run actor ts s).1 ≡ s
unfolding revert_run
revert_run_refused h codec run actor ts s reason e =
    checked_refused h codec run actor ts s (refusal run s (lookup run_id run s.runs)) reason e

-- What an inverse keeps.
abbrev pub Kept : Store → Store → Type 0
Kept s t =
    (t.memory.rows ≡ s.memory.rows) × (t.runs ≡ s.runs) × (t.horizon ≡ s.horizon) × (t.ops ≡ s.ops)

restore_rows :
    (h : Hasher) (codec : Codec) (id : ℕ) (db : Db)
    → (restore_prompt_body h codec id db).1.rows ≡ db.rows
restore_rows h codec id db = elim (restore_prompt_body_inv h codec id db) [
  | inl same ↦ rw same refl
  | inr r ↦
      rw
        (restore_prompt_body_ok h codec id db r.row r.body r.known r.found r.algo r.inflates r.hash
          r.hit)
        refl
]

restored-Kept :
    (s : Store) (r : Result Bool × Db) (t : Store)
    → r.1.rows ≡ s.memory.rows
    → restored s r ≡ some t
    → Kept s t
restored-Kept s (ok true, db) t rows e =
    (ground (arith, rows, e), ground (arith, e), ground (arith, e), ground (arith, e))
restored-Kept s (ok false, db) t rows e = cc
restored-Kept s (err p, db) t rows e = cc

mapped-Kept :
    (s : Store) (o : Option Catalog) (t : Store) → map_some (in_catalog s) o ≡ some t → Kept s t
mapped-Kept s none t e = cc
mapped-Kept s (some cat) t e =
    (ground (arith, e), ground (arith, e), ground (arith, e), ground (arith, e))

invert_image-Kept :
    (h : Hasher) (codec : Codec) (run by : ℕ) (image : Image) (s t : Store)
    → invert_image h codec run by image s ≡ some t
    → Kept s t
unfolding invert_image
invert_image-Kept h codec run by (file l none) s t e =
    (ground (arith, e), ground (arith, e), ground (arith, e), ground (arith, e))
invert_image-Kept h codec run by (file l (some from)) s t e =
    (ground (arith, e), ground (arith, e), ground (arith, e), ground (arith, e))
invert_image-Kept h codec run by (create id) s t e =
    (ground (arith, e), ground (arith, e), ground (arith, e), ground (arith, e))
invert_image-Kept h codec run by (promote id parent) s t e =
    (ground (arith, e), ground (arith, e), ground (arith, e), ground (arith, e))
invert_image-Kept h codec run by (split id parts) s t e =
    mapped-Kept s (unsplit by id parts s.catalog) t e
invert_image-Kept h codec run by (merge target title parent moved children set) s t e =
    mapped-Kept s (unmerge run target title parent moved children set s.catalog) t e
invert_image-Kept h codec run by (collapse digest citations set) s t e =
    (ground (arith, e), ground (arith, e), ground (arith, e), ground (arith, e))
invert_image-Kept h codec run by (supersede old_seq event_seq) s t e =
    (ground (arith, e), ground (arith, e), ground (arith, e), ground (arith, e))
invert_image-Kept h codec run by (compact id) s t e =
    restored-Kept s (restore_prompt_body h codec id s.memory) t (restore_rows h codec id s.memory) e
invert_image-Kept h codec run by (observe id) s t e =
    (ground (arith, e), ground (arith, e), ground (arith, e), ground (arith, e))

pub invert_op-Kept :
    (h : Hasher) (codec : Codec) (run by : ℕ) (o : Option Image) (s t : Store)
    → invert_op_locked h codec run by o s ≡ some t
    → Kept s t
unfolding invert_op_locked
invert_op-Kept h codec run by none s t e = cc
invert_op-Kept h codec run by (some image) s t e = invert_image-Kept h codec run by image s t e
