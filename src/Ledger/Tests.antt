-- ===== src/Ledger/Tests.antt =====
-- The ledger on a table of two rows, under a toy hash.
use polis_memory.Prelude.{
  false, ℕ, ◌≡◌, refl, ◌⊎◌, true, pos, none, some, List, [], ◌∷◌, ◌++◌, ltb, if◌then◌else◌,
}
use polis_memory.Prelude.Text.{codes, text_eq}
use polis_memory.Ledger.{
  Hasher, LedgerAppend, LedgerEventRow, genesis_prev, compute_entry_hash, head_from,
}
use polis_memory.Ledger.Append.{
  Answers, done, busy, Connection, Atomic, next_row, append_event, append_event-Atomic,
  verify_ledger_chain-next_row,
}
use polis_memory.Ledger.Verify.{
  verify_ledger_chain, verify_walk, row_holds, Reports, verify_ledger_chain-Reports,
}
use polis_memory.Ledger.Binding.{HashBreak, head_binds_rows}
use polis_memory.Ledger.Anchor.{Store, verify_ledger_chain_incremental}
use polis_memory.Ledger.Anchor.Agree.{IsAnchored, incremental_agrees}
use polis_memory.Ledger.Anchor.Moves.{incremental-IsAnchored, append-IsAnchored}

abbrev toy : Hasher
toy = record { sha256_hex = λ t. t; to_json = λ e. e.seq ∷ e.payload_hash }

abbrev approval : LedgerAppend
approval = record {
  kind = codes "approval";
  author = codes "local";
  ts = pos 1000;
  prompt_id = none;
  session_id = some (codes "s");
  version_number = none;
  ref_kind = none;
  ref_id = none;
  payload_hash = codes "p";
}

abbrev one : List LedgerEventRow
one = next_row toy [] approval ∷ []

abbrev two : List LedgerEventRow
two = one ++ next_row toy one approval ∷ []

-- The second row with another payload: its stored hash no longer fits.
abbrev tampered : List LedgerEventRow
tampered = one ++ (record (next_row toy one approval) { payload_hash = codes "q" }) ∷ []

two_ok : (verify_ledger_chain toy two).ok ≡ true
unfolding verify_ledger_chain verify_walk row_holds text_eq next_row compute_entry_hash genesis_prev
two_ok = refl

one_ok : (verify_ledger_chain toy one).ok ≡ true
unfolding verify_ledger_chain verify_walk row_holds text_eq next_row compute_entry_hash genesis_prev
one_ok = refl

tampered_second : (verify_ledger_chain toy tampered).first_bad_seq ≡ some 2
unfolding verify_ledger_chain verify_walk row_holds text_eq next_row compute_entry_hash genesis_prev
tampered_second = refl

verify_ledger_chain-Reports_example :
    Reports toy genesis_prev 0 tampered (verify_ledger_chain toy tampered)
verify_ledger_chain-Reports_example = verify_ledger_chain-Reports toy tampered

head_binds_rows_example : (two ≡ two) ⊎ HashBreak toy
head_binds_rows_example = head_binds_rows toy two two two_ok two_ok refl

verify_ledger_chain-next_row_example : verify_ledger_chain toy two ≡ record {
  ok = true;
  checked = 2;
  first_bad_seq = none;
  head_hash = some (next_row toy one approval).entry_hash;
}
verify_ledger_chain-next_row_example = verify_ledger_chain-next_row toy one approval one_ok

abbrev calm : Answers
calm = record {
  begin = λ n. if ltb n 2 then busy else done;
  insert = done;
  commit = done;
  ends_by_itself = false;
}

abbrev idle : Connection
idle = record { rows = one; committed = one; is_autocommit = true }

append_event-Atomic_example : Atomic toy calm idle approval (append_event toy calm idle approval)
append_event-Atomic_example = append_event-Atomic toy calm idle approval refl refl

-- An anchor on the first row.
abbrev anchored_one : Store
anchored_one = record {
  rows = two;
  last_seq = some 1;
  head_hash = some (head_from genesis_prev one);
}

fresh : Store
fresh = record { rows = []; last_seq = none; head_hash = none }

fresh-IsAnchored : IsAnchored toy fresh
unfolding fresh
fresh-IsAnchored = record { ascends = tt; anchored = λ n hash p q. absurd (none_is_some n p) }
  where
    none_is_some : (n : ℕ) → none ≡ some n → ⊥
    none_is_some n p = cc

-- Verified while empty, then one append.
abbrev checked_then_grown : Store
checked_then_grown =
    let s = (verify_ledger_chain_incremental toy fresh).1 in
    record s { rows = s.rows ++ next_row toy s.rows approval ∷ [] }

append-IsAnchored_example : IsAnchored toy checked_then_grown
append-IsAnchored_example =
    append-IsAnchored toy (verify_ledger_chain_incremental toy fresh).1 approval
      (incremental-IsAnchored toy fresh fresh-IsAnchored)

incremental_agrees_example :
    (verify_ledger_chain_incremental toy checked_then_grown).0.ok
    ≡ (verify_ledger_chain toy checked_then_grown.rows).ok
incremental_agrees_example = incremental_agrees toy checked_then_grown append-IsAnchored_example

incremental-IsAnchored_example : IsAnchored toy (verify_ledger_chain_incremental toy fresh).1
incremental-IsAnchored_example = incremental-IsAnchored toy fresh fresh-IsAnchored
