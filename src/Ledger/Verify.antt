-- ===== src/Ledger/Verify.antt =====
-- `verify_ledger_chain` of crates/polis-store/src/chain.rs: the walk over all rows in seq order.
use polis_memory.Prelude.{
  ℕ, ◌+◌, ◌≡◌, refl, ap, ◌∙◌, ◌↔◌, inl, inr, Bool, true, false, not, Option, none, some, List, [],
  ◌∷◌, ◌++◌, arith, length, if◌then◌else◌, Bool-cases,
}
use polis_memory.Prelude.Text.{Text, text_eq, text_eq_iff}
use polis_memory.Ledger.{
  Hasher, LedgerEventRow, ChainVerdict, Chained, canonical_of, compute_entry_hash, genesis_prev,
  head_from,
}

module _ (h : Hasher) where
  -- The link to the predecessor, then the recomputed hash.
  unfoldable pub row_holds : Text → LedgerEventRow → Bool
  row_holds prev e =
      if not (text_eq e.prev_hash prev)
      then false
      else text_eq (compute_entry_hash h e.prev_hash (canonical_of e)) e.entry_hash

  unfoldable pub verify_walk : Text → ℕ → Option Text → List LedgerEventRow → ChainVerdict
  verify_walk prev checked head [] = record {
    ok = true;
    checked = checked;
    first_bad_seq = none;
    head_hash = head;
  }
  verify_walk prev checked head (e ∷ rows) =
      let rest = verify_walk e.entry_hash (checked + 1) (some e.entry_hash) rows in
      if row_holds prev e
      then rest
      else record { ok = false; checked = checked; first_bad_seq = some e.seq; head_hash = none }

  unfoldable pub verify_ledger_chain : List LedgerEventRow → ChainVerdict
  verify_ledger_chain rows = verify_walk genesis_prev 0 none rows

  pub row_holds_iff :
      (prev : Text) (e : LedgerEventRow)
      → (row_holds prev e ≡ true) ↔ (
          (e.prev_hash ≡ prev) × (compute_entry_hash h e.prev_hash (canonical_of e) ≡ e.entry_hash))
  unfolding row_holds
  row_holds_iff prev e = ground (
    arith,
    text_eq_iff e.prev_hash prev,
    text_eq_iff (compute_entry_hash h e.prev_hash (canonical_of e)) e.entry_hash,
  )

  -- What the walk reports: everything holds, or the first row that does not.
  pub data Reports (prev : Text) (checked : ℕ) (rows : List LedgerEventRow) (v : ChainVerdict)
      : Type 0 where
    intact :
        Chained h prev rows
        → v.ok ≡ true
        → v.checked ≡ checked + length rows
        → v.first_bad_seq ≡ none
        → Reports prev checked rows v
    broken :
        (good rest : List LedgerEventRow) (bad : LedgerEventRow)
        → rows ≡ good ++ bad ∷ rest
        → Chained h prev good
        → ¬ (
            (bad.prev_hash ≡ head_from prev good)
            × (compute_entry_hash h bad.prev_hash (canonical_of bad) ≡ bad.entry_hash))
        → v.ok ≡ false
        → v.checked ≡ checked + length good
        → v.first_bad_seq ≡ some bad.seq
        → v.head_hash ≡ none
        → Reports prev checked rows v

  Reports-cons :
      (prev : Text) (checked : ℕ) (e : LedgerEventRow) (rows : List LedgerEventRow)
      (v : ChainVerdict)
      → row_holds prev e ≡ true
      → Reports e.entry_hash (checked + 1) rows v
      → Reports prev checked (e ∷ rows) v
  Reports-cons prev checked e rows v holds (intact c o n b) =
      let both = (row_holds_iff prev e).0 holds in intact (both.0, both.1, c) o (omega arith) b
  Reports-cons prev checked e rows v holds (broken good rest bad split c w o n b hd) =
      let both = (row_holds_iff prev e).0 holds in
      broken (e ∷ good) rest bad (cc) (both.0, both.1, c) w o (omega arith) b hd

  pub verify_walk-Reports :
      (prev : Text) (checked : ℕ) (head : Option Text) (rows : List LedgerEventRow)
      → Reports prev checked rows (verify_walk prev checked head rows)
  unfolding verify_walk
  verify_walk-Reports prev checked head [] = intact tt refl (omega arith) refl
  verify_walk-Reports prev checked head (e ∷ rows) = elim (Bool-cases (row_holds prev e)) [
    | inl holds ↦ rw holds (
        Reports-cons prev checked e rows _ holds
          (verify_walk-Reports e.entry_hash (checked + 1) (some e.entry_hash) rows))
    | inr fails ↦ rw fails (
        broken [] rows e refl tt
          (λ holds. let yes = (row_holds_iff prev e).1 holds in ground (arith, fails, yes)) refl
          (omega arith) refl refl)
  ]

  -- `verify_ledger_chain` accepts a table exactly when every row commits to its predecessor and to
  -- its own fields; otherwise it reports the first row that does not, counts the good rows before
  -- it, and gives no head.
  pub verify_ledger_chain-Reports :
      (rows : List LedgerEventRow) → Reports genesis_prev 0 rows (verify_ledger_chain rows)
  unfolding verify_ledger_chain
  verify_ledger_chain-Reports rows = verify_walk-Reports genesis_prev 0 none rows

  pub verify_walk_ok :
      (prev : Text) (checked : ℕ) (head : Option Text) (rows : List LedgerEventRow)
      → (verify_walk prev checked head rows).ok ≡ true ↔ Chained h prev rows
  unfolding verify_walk
  verify_walk_ok prev checked head [] = (λ _. tt, λ _. refl)
  verify_walk_ok prev checked head (e ∷ rows) = ground (
    arith,
    row_holds_iff prev e,
    verify_walk_ok e.entry_hash (checked + 1) (some e.entry_hash) rows,
  )

  pub verify_ledger_chain_ok :
      (rows : List LedgerEventRow)
      → (verify_ledger_chain rows).ok ≡ true ↔ Chained h genesis_prev rows
  unfolding verify_ledger_chain
  verify_ledger_chain_ok rows = verify_walk_ok genesis_prev 0 none rows

  abbrev pub walk_head : Option Text → List LedgerEventRow → Option Text
  walk_head head [] = head
  walk_head head (e ∷ rows) = some (head_from e.entry_hash rows)

  -- An accepted walk counts every row and ends with the hash of the last one.
  pub verify_walk_head :
      (prev : Text) (checked : ℕ) (head : Option Text) (rows : List LedgerEventRow)
      → (verify_walk prev checked head rows).ok ≡ true
      → (verify_walk prev checked head rows) ≡ record {
        ok = true;
        checked = checked + length rows;
        first_bad_seq = none;
        head_hash = walk_head head rows;
      }
  unfolding verify_walk
  verify_walk_head prev checked head [] ok = ground arith
  verify_walk_head prev checked head (e ∷ []) ok = ground arith
  verify_walk_head prev checked head (e ∷ f ∷ rows) ok =
      ground (arith, verify_walk_head e.entry_hash (checked + 1) (some e.entry_hash) (f ∷ rows))

  pub verify_ledger_chain_accepts :
      (rows : List LedgerEventRow)
      → (verify_ledger_chain rows).ok ≡ true
      → verify_ledger_chain rows ≡ record {
        ok = true;
        checked = length rows;
        first_bad_seq = none;
        head_hash = walk_head none rows;
      }
  unfolding verify_ledger_chain
  verify_ledger_chain_accepts rows accepted =
      verify_walk_head genesis_prev 0 none rows accepted
      ∙ ap
          (λ n. record {
            ok = true;
            checked = n;
            first_bad_seq = none;
            head_hash = walk_head none rows;
          })
          (omega arith)
