-- ===== src/Ledger/Anchor/Agree.antt =====
-- The incremental verification against the full one, and the anchor that it keeps.
use polis_memory.Prelude.{
  ℕ, ◌+◌, ◌≡◌, refl, sym, ap, subst, ◌∙◌, Bool, true, false, Option, none, some, List, [], ◌∷◌,
  ◌++◌, arith, ltb, ◌==◌, ==_iff, keep, ◌↔◌,
}
use polis_memory.Prelude.Text.{Text}
use polis_memory.Ledger.{Hasher, LedgerEventRow, Chained, head_from, genesis_prev}
use polis_memory.Ledger.Verify.{verify_ledger_chain, verify_ledger_chain_ok, row_holds_iff}
use polis_memory.Ledger.Anchor.{
  Store, max_ledger_seq, full_and_reanchor, suffix_walk, verify_suffix, verify_from_anchor,
  verify_settings, verify_ledger_chain_incremental,
}
use polis_memory.Ledger.Anchor.Rows.{
  Ascends, last_seq_from, le-last_seq_from, last_seq_from-append, Ascends-split,
  max_ledger_seq-last, keep_suffix, Chained-split,
}

eq_of_iffs {ℓ} : {P : Type ℓ} (a b : Bool) → (a ≡ true) ↔ P → (b ≡ true) ↔ P → a ≡ b
eq_of_iffs true true p q = refl
eq_of_iffs true false p q = sym (q.1 (p.0 refl))
eq_of_iffs false true p q = p.1 (q.0 refl)
eq_of_iffs false false p q = refl

no_rows_behind :
    (lo : ℕ) (rows : List LedgerEventRow) → Ascends lo rows → last_seq_from lo rows ≡ lo → rows ≡ []
no_rows_behind lo [] a e = refl
no_rows_behind lo (x ∷ rows) a e = absurd (omega (arith, le-last_seq_from x.seq rows a.1, a.0))

module _ (h : Hasher) where
  -- `n` and `hash` are the last seq and the head of a prefix that verifies.
  pub record Verified (rows : List LedgerEventRow) (n : ℕ) (hash : Text) : Type 0 where
    pub pre : List LedgerEventRow
    pub suf : List LedgerEventRow
    pub split : rows ≡ pre ++ suf
    pub chained : Chained h genesis_prev pre
    pub seq : n ≡ last_seq_from 0 pre
    pub head : hash ≡ head_from genesis_prev pre

  -- The table is in ascending order, and a stored anchor marks a verified prefix.
  pub record IsAnchored (s : Store) : Type 0 where
    pub ascends : Ascends 0 s.rows
    pub anchored :
        (n : ℕ) (hash : Text)
        → s.last_seq ≡ some n
        → s.head_hash ≡ some hash
        → Verified s.rows n hash

  full_ok : (s : Store) → (full_and_reanchor h s).0.ok ≡ (verify_ledger_chain h s.rows).ok
  unfolding full_and_reanchor
  full_ok s = ground arith

  pub suffix_walk_ok :
      (prev : Text) (checked : ℕ) (rows : List LedgerEventRow)
      → ((suffix_walk h prev checked rows).ok ≡ true) ↔ Chained h prev rows
  unfolding suffix_walk
  suffix_walk_ok prev checked [] = (λ _. tt, λ _. refl)
  suffix_walk_ok prev checked (e ∷ rows) =
      ground (arith, row_holds_iff h prev e, suffix_walk_ok e.entry_hash (checked + 1) rows)

  pub suffix_walk_head :
      (prev : Text) (checked : ℕ) (rows : List LedgerEventRow)
      → (suffix_walk h prev checked rows).ok ≡ true
      → (suffix_walk h prev checked rows).head_hash ≡ some (head_from prev rows)
  unfolding suffix_walk
  suffix_walk_head prev checked [] ok = refl
  suffix_walk_head prev checked (e ∷ rows) ok =
      ground (arith, suffix_walk_head e.entry_hash (checked + 1) rows)

  module _ (s : Store) (n : ℕ) (hash : Text) (a : Ascends 0 s.rows)
      (v : Verified s.rows n hash) where
    pub kept : keep (λ e. ltb n e.seq) s.rows ≡ v.suf
    kept = rw (v.split, v.seq) (keep_suffix 0 v.pre v.suf (subst (Ascends 0) v.split a))

    rows-Chained : Chained h genesis_prev s.rows ↔ Chained h hash v.suf
    rows-Chained =
        let parts = Chained-split h genesis_prev v.pre v.suf in
        rw (v.split, v.head) (λ c. (parts.0 c).1, λ c. parts.1 (v.chained, c))

    suffix_ok : (verify_suffix h s n hash).0.ok ≡ (verify_ledger_chain h s.rows).ok
    unfolding verify_suffix
    suffix_ok =
        let walk = suffix_walk_ok hash n v.suf in
        let full = verify_ledger_chain_ok h s.rows in
        rw kept (
          ground (
            arith,
            eq_of_iffs (suffix_walk h hash n v.suf).ok (verify_ledger_chain h s.rows).ok walk
                (λ ok. rows-Chained.0 (full.0 ok), λ c. full.1 (rows-Chained.1 c)),
          ))

    suf_none : (max_ledger_seq s.rows == n) ≡ true → v.suf ≡ []
    suf_none e =
        let here : Ascends 0 (v.pre ++ v.suf) = subst (Ascends 0) v.split a in
        no_rows_behind (last_seq_from 0 v.pre) v.suf (Ascends-split 0 v.pre v.suf here).1 (
          sym (last_seq_from-append 0 v.pre v.suf)
          ∙ ap (last_seq_from 0) (sym v.split)
          ∙ sym (max_ledger_seq-last s.rows a)
          ∙ (==_iff (max_ledger_seq s.rows) n).0 e
          ∙ v.seq)

    unchanged_ok : (max_ledger_seq s.rows == n) ≡ true → (verify_ledger_chain h s.rows).ok ≡ true
    unchanged_ok e =
        (verify_ledger_chain_ok h s.rows).1
          (rows-Chained.1 (subst (Chained h hash) (sym (suf_none e)) tt))

    from_anchor_ok : (verify_from_anchor h s n hash).0.ok ≡ (verify_ledger_chain h s.rows).ok
    unfolding verify_from_anchor
    from_anchor_ok = ground (arith, full_ok s, suffix_ok, unchanged_ok)

  settings_ok :
      (s : Store) (n : Option ℕ) (hash : Option Text)
      → IsAnchored s
      → s.last_seq ≡ n
      → s.head_hash ≡ hash
      → (verify_settings h s n hash).0.ok ≡ (verify_ledger_chain h s.rows).ok
  unfolding verify_settings
  settings_ok s (some n) (some hash) i p q =
      from_anchor_ok s n hash i.ascends (i.anchored n hash p q)
  settings_ok s (some n) none i p q = full_ok s
  settings_ok s none hash i p q = full_ok s

  -- Where the stored anchor marks a verified prefix of a table in seq order, the incremental
  -- verification accepts exactly when the full walk does.
  pub incremental_agrees :
      (s : Store)
      → IsAnchored s
      → (verify_ledger_chain_incremental h s).0.ok ≡ (verify_ledger_chain h s.rows).ok
  unfolding verify_ledger_chain_incremental
  incremental_agrees s i = settings_ok s s.last_seq s.head_hash i refl refl
