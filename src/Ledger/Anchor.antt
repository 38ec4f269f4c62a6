-- ===== src/Ledger/Anchor.antt =====
-- `verify_ledger_chain_incremental` of crates/polis-store/src/chain.rs: the stored anchor, the
-- fallbacks to the full walk, and the walk over the rows behind the anchor.
pub mod Rows
pub mod Agree
pub mod Moves
use polis_memory.Prelude.{
  ℕ, ◌+◌, Bool, true, false, not, Option, none, some, List, [], ◌∷◌, ltb, ◌==◌, if◌then◌else◌,
  unwrap_or, keep, find, map_some, max, zero, suc,
}
use polis_memory.Prelude.Text.{Text, text_eq}
use polis_memory.Ledger.{Hasher, LedgerEventRow, ChainVerdict, genesis_prev}
use polis_memory.Ledger.Verify.{verify_ledger_chain, row_holds}

-- The table, and the two settings of the anchor (none: missing or not a number).
pub record Store : Type 0 where
  pub rows : List LedgerEventRow
  pub last_seq : Option ℕ
  pub head_hash : Option Text

-- MAX(seq), 0 for an empty table.
unfoldable pub max_ledger_seq : List LedgerEventRow → ℕ
max_ledger_seq [] = 0
max_ledger_seq (e ∷ rows) = max e.seq (max_ledger_seq rows)

-- The stored hash of the row with this seq.
unfoldable pub entry_hash_at : ℕ → List LedgerEventRow → Option Text
unfolding find
entry_hash_at seq rows = map_some (λ e. e.entry_hash) (find (λ e. e.seq == seq) rows)

-- Seq 0 stands for a verified empty chain.
unfoldable pub anchor_ok : Option Text → ℕ → Text → Bool
anchor_ok none zero hash = text_eq hash genesis_prev
anchor_ok none (suc n) hash = false
anchor_ok (some stored) n hash = text_eq stored hash

module _ (h : Hasher) where
  unfoldable pub full_and_reanchor : Store → ChainVerdict × Store
  full_and_reanchor s =
      let verdict = verify_ledger_chain h s.rows in
      if verdict.ok
      then (
        verdict,
        record s {
          last_seq = some (max_ledger_seq s.rows);
          head_hash = some (unwrap_or verdict.head_hash genesis_prev);
        },
      )
      else (verdict, s)

  unfoldable pub suffix_walk : Text → ℕ → List LedgerEventRow → ChainVerdict
  suffix_walk prev checked [] = record {
    ok = true;
    checked = checked;
    first_bad_seq = none;
    head_hash = some prev;
  }
  suffix_walk prev checked (e ∷ rows) =
      let rest = suffix_walk e.entry_hash (checked + 1) rows in
      if row_holds h prev e
      then rest
      else record { ok = false; checked = checked; first_bad_seq = some e.seq; head_hash = none }

  unfoldable pub verify_suffix : Store → ℕ → Text → ChainVerdict × Store
  verify_suffix s anchor_seq anchor_hash =
      let verdict = suffix_walk anchor_hash anchor_seq (keep (λ e. ltb anchor_seq e.seq) s.rows) in
      if verdict.ok
      then (
        verdict,
        record s { last_seq = some (max_ledger_seq s.rows); head_hash = verdict.head_hash },
      )
      else (verdict, s)

  unfoldable pub verify_from_anchor : Store → ℕ → Text → ChainVerdict × Store
  verify_from_anchor s anchor_seq anchor_hash =
      let head_seq = max_ledger_seq s.rows in
      if ltb head_seq anchor_seq
      then full_and_reanchor s
      else if not (anchor_ok (entry_hash_at anchor_seq s.rows) anchor_seq anchor_hash)
      then full_and_reanchor s
      else if head_seq == anchor_seq
      then (
        record {
          ok = true;
          checked = head_seq;
          first_bad_seq = none;
          head_hash = some anchor_hash;
        },
        s,
      )
      else verify_suffix s anchor_seq anchor_hash

  -- Both settings are there, or the full walk runs.
  unfoldable pub verify_settings : Store → Option ℕ → Option Text → ChainVerdict × Store
  verify_settings s (some anchor_seq) (some anchor_hash) =
      verify_from_anchor s anchor_seq anchor_hash
  verify_settings s (some anchor_seq) none = full_and_reanchor s
  verify_settings s none anchor_hash = full_and_reanchor s

  unfoldable pub verify_ledger_chain_incremental : Store → ChainVerdict × Store
  unfolding verify_settings
  verify_ledger_chain_incremental s = verify_settings s s.last_seq s.head_hash
