-- ===== src/Supersession/Tests.antt =====
-- Two decisions on a small ledger, the second superseding the first.
use polis_memory.Prelude.{ℕ, ◌≡◌, ◌≢◌, refl, pos, none, some, List, [], ◌∷◌, ◌++◌, arith, any, find}
use polis_memory.Prelude.Text.{codes, text_eq}
use polis_memory.Ledger.{Hasher, LedgerAppend, LedgerEventRow}
use polis_memory.Ledger.Append.{next_row, next_row-Chained}
use polis_memory.Supersession.{
  Db, applied, rejected, no_event, superseded_by, chain_head, kind_of, is_decision_kind, apply_at,
  apply_checked, apply_supersession_locked,
}
use polis_memory.Supersession.Chains.{no_cycle, here}
use polis_memory.Supersession.Apply.{
  IsValid, Outcome, apply_supersession_locked-Outcome, apply_supersession_locked-IsValid,
}

abbrev toy : Hasher
toy = record { sha256_hex = λ t. t; to_json = λ e. e.seq ∷ e.payload_hash }

abbrev approval : LedgerAppend
approval = record {
  kind = codes "approval";
  author = codes "local";
  ts = pos 1000;
  prompt_id = none;
  session_id = some (codes "s");
  version_number = none;
  ref_kind = none;
  ref_id = none;
  payload_hash = codes "p";
}

abbrev one : List LedgerEventRow
one = next_row toy [] approval ∷ []

abbrev db : Db
db = record { rows = one ++ next_row toy one approval ∷ []; edges = [] }

db-IsValid : IsValid toy db
db-IsValid = record {
  chained = next_row-Chained toy one approval (next_row-Chained toy [] approval tt);
  rises = tt;
  once = tt;
}

applies : (apply_supersession_locked toy 1 2 (codes "r") (codes "a") (pos 5) db).0 ≡ applied 1 2 3
unfolding apply_supersession_locked apply_checked apply_at kind_of is_decision_kind any find text_eq
    chain_head superseded_by next_row
applies = refl

unknown :
    (apply_supersession_locked toy 7 2 (codes "r") (codes "a") (pos 5) db).0 ≡ rejected (no_event 7)
unfolding apply_supersession_locked apply_checked kind_of is_decision_kind any find text_eq next_row
unknown = refl

apply_supersession_locked-Outcome_example :
    Outcome toy 1 2
      (codes "r")
      (codes "a")
      (pos 5)
      db
      (apply_supersession_locked toy 1 2 (codes "r") (codes "a") (pos 5) db)
apply_supersession_locked-Outcome_example =
    apply_supersession_locked-Outcome toy 1 2 (codes "r") (codes "a") (pos 5) db

apply_supersession_locked-IsValid_example :
    IsValid toy (apply_supersession_locked toy 1 2 (codes "r") (codes "a") (pos 5) db).1
apply_supersession_locked-IsValid_example =
    apply_supersession_locked-IsValid toy 1 2 (codes "r") (codes "a") (pos 5) db db-IsValid

no_cycle_example : ◌≢◌ {A = ℕ} 2 1
unfolding superseded_by
no_cycle_example =
    no_cycle (record { old_seq = 1; new_seq = 2; event_seq = 3; created_at = pos 5 } ∷ []) 1 2 2
      (omega arith, tt) refl here
