-- ===== src/Ledger/Anchor/Moves.antt =====
-- Where a verification leaves the anchor, and what an append does to it.
use mathlib.Core.List.{append-nil, append_assoc}
use polis_memory.Prelude.{
  ℕ, ◌+◌, ◌≡◌, refl, sym, ap, subst, ◌∙◌, Bool, true, false, Option, none, some, List, [], ◌∷◌,
  ◌++◌, arith, ltb, ◌==◌, if◌then◌else◌, ◌⊎◌, inl, inr, Bool-cases, unwrap_or, last?, not, ◌<◌,
}
use polis_memory.Prelude.Text.{Text}
use polis_memory.Ledger.{Hasher, LedgerEventRow, LedgerAppend, Chained, head_from, genesis_prev}
use polis_memory.Ledger.Append.{next_row, head_row}
use polis_memory.Ledger.Verify.{
  verify_ledger_chain, verify_ledger_chain_ok, verify_ledger_chain_accepts, walk_head,
}
use polis_memory.Ledger.Anchor.{
  Store, max_ledger_seq, entry_hash_at, anchor_ok, full_and_reanchor, suffix_walk, verify_suffix,
  verify_from_anchor, verify_settings, verify_ledger_chain_incremental,
}
use polis_memory.Ledger.Anchor.Rows.{Ascends, last_seq_from, max_ledger_seq-last, Chained-split}
use polis_memory.Ledger.Anchor.Agree.{IsAnchored, Verified, kept, suffix_walk_ok, suffix_walk_head}

head_from-append :
    (prev : Text) (pre suf : List LedgerEventRow)
    → head_from prev (pre ++ suf) ≡ head_from (head_from prev pre) suf
head_from-append prev [] suf = refl
head_from-append prev (e ∷ pre) suf = head_from-append e.entry_hash pre suf

last_row_seq :
    (lo : ℕ) (rows : List LedgerEventRow)
    → elim (last? rows) [ none ↦ lo | some e ↦ e.seq ] ≡ last_seq_from lo rows
last_row_seq lo [] = refl
last_row_seq lo (e ∷ []) = refl
last_row_seq lo (e ∷ f ∷ rows) = last_two e f rows ∙ last_row_seq e.seq (f ∷ rows)
  where
    last_two :
        (e f : LedgerEventRow) (rows : List LedgerEventRow)
        → elim (last? (f ∷ rows)) [ none ↦ lo | some x ↦ x.seq ]
          ≡ elim (last? (f ∷ rows)) [ none ↦ e.seq | some x ↦ x.seq ]
    last_two e f [] = refl
    last_two e f (g ∷ rows) = last_two e g rows

head_row-last_seq : (rows : List LedgerEventRow) → (head_row rows).0 ≡ last_seq_from 0 rows
unfolding head_row
head_row-last_seq rows = ground (arith, last_row_seq 0 rows)

next_row-seq :
    (h : Hasher) (rows : List LedgerEventRow) (a : LedgerAppend)
    → (next_row h rows a).seq ≡ (head_row rows).0 + 1
unfolding next_row
next_row-seq h rows a = refl

module _ (h : Hasher) where
  -- The store is left alone, or the anchor moves to the end of a table that verifies.
  abbrev Moves : Store → Store → Type 0
  Moves s t =
      (t ≡ s)
      ⊎ ((t ≡ record s {
        last_seq = some (max_ledger_seq s.rows);
        head_hash = some (head_from genesis_prev s.rows);
      })
          × Chained h genesis_prev s.rows)

  head_or_genesis :
      (rows : List LedgerEventRow)
      → unwrap_or (walk_head h none rows) genesis_prev ≡ head_from genesis_prev rows
  head_or_genesis [] = refl
  head_or_genesis (e ∷ rows) = refl

  full-Moves : (s : Store) → Moves s (full_and_reanchor h s).1
  unfolding full_and_reanchor
  full-Moves s = elim (Bool-cases (verify_ledger_chain h s.rows).ok) [
    | inl good ↦
        let v = verify_ledger_chain_accepts h s.rows good in
        rw v (rw (head_or_genesis s.rows) (inr (refl, (verify_ledger_chain_ok h s.rows).0 good)))
    | inr bad ↦ rw bad (inl refl)
  ]

  suffix-Moves :
      (s : Store) (n : ℕ) (hash : Text)
      → Ascends 0 s.rows
      → Verified h s.rows n hash
      → Moves s (verify_suffix h s n hash).1
  unfolding verify_suffix
  suffix-Moves s n hash a v = elim (Bool-cases (suffix_walk h hash n v.suf).ok) [
    | inl good ↦
        rw
          (
            kept h s n hash a v,
            good,
            suffix_walk_head h hash n v.suf good,
            v.split,
            head_from-append genesis_prev v.pre v.suf,
          )
          (inr (
            ground (arith, v.head),
            (Chained-split h genesis_prev v.pre v.suf).1 (
              v.chained,
              subst (λ t. Chained h t v.suf) v.head ((suffix_walk_ok h hash n v.suf).0 good),
            ),
          ))
    | inr bad ↦ rw (kept h s n hash a v, bad) (inl refl)
  ]

  from_anchor-Moves :
      (s : Store) (n : ℕ) (hash : Text)
      → Ascends 0 s.rows
      → Verified h s.rows n hash
      → Moves s (verify_from_anchor h s n hash).1
  unfolding verify_from_anchor
  from_anchor-Moves s n hash a v =
      branches (ltb (max_ledger_seq s.rows) n) (not (anchor_ok (entry_hash_at n s.rows) n hash))
        (max_ledger_seq s.rows == n)
    where
      branches :
          (b c d : Bool)
          → Moves s
              (if b
                then full_and_reanchor h s
                else if c
                then full_and_reanchor h s
                else if d
                then (
                  record {
                    ok = true;
                    checked = max_ledger_seq s.rows;
                    first_bad_seq = none;
                    head_hash = some hash;
                  },
                  s,
                )
                else verify_suffix h s n hash).1
      branches true c d = full-Moves s
      branches false true d = full-Moves s
      branches false false true = inl refl
      branches false false false = suffix-Moves s n hash a v

  settings-Moves :
      (s : Store) (n : Option ℕ) (hash : Option Text)
      → IsAnchored h s
      → s.last_seq ≡ n
      → s.head_hash ≡ hash
      → Moves s (verify_settings h s n hash).1
  unfolding verify_settings
  settings-Moves s (some n) (some hash) i p q =
      from_anchor-Moves s n hash i.ascends (i.anchored n hash p q)
  settings-Moves s (some n) none i p q = full-Moves s
  settings-Moves s none hash i p q = full-Moves s

  whole_table :
      (rows : List LedgerEventRow) (n : ℕ) (hash : Text)
      → Ascends 0 rows
      → Chained h genesis_prev rows
      → some (max_ledger_seq rows) ≡ some n
      → some (head_from genesis_prev rows) ≡ some hash
      → Verified h rows n hash
  whole_table rows n hash a c p q = record {
    pre = rows;
    suf = [];
    split = sym (append-nil rows);
    chained = c;
    seq = ground (arith, max_ledger_seq-last rows a);
    head = cc;
  }

  Moves-IsAnchored : (s t : Store) → IsAnchored h s → Moves s t → IsAnchored h t
  Moves-IsAnchored s t i (inl e) = subst (IsAnchored h) (sym e) i
  Moves-IsAnchored s t i (inr (e, c)) = subst (IsAnchored h) (sym e) (record {
    ascends = i.ascends;
    anchored = λ n hash p q. whole_table s.rows n hash i.ascends c p q;
  })

  -- Every call of the incremental verification keeps the anchor at a verified prefix, whatever it
  -- answers.
  pub incremental-IsAnchored :
      (s : Store) → IsAnchored h s → IsAnchored h (verify_ledger_chain_incremental h s).1
  unfolding verify_ledger_chain_incremental
  incremental-IsAnchored s i =
      Moves-IsAnchored s _ i (settings-Moves s s.last_seq s.head_hash i refl refl)

  Ascends-append :
      (lo : ℕ) (rows : List LedgerEventRow) (e : LedgerEventRow)
      → Ascends lo rows
      → last_seq_from lo rows < e.seq
      → Ascends lo (rows ++ e ∷ [])
  Ascends-append lo [] e a l = (l, tt)
  Ascends-append lo (x ∷ rows) e a l = (a.0, Ascends-append x.seq rows e a.1 l)

  -- So does an append.
  pub append-IsAnchored :
      (s : Store) (a : LedgerAppend)
      → IsAnchored h s
      → IsAnchored h (record s { rows = s.rows ++ next_row h s.rows a ∷ [] })
  append-IsAnchored s a i = record {
    ascends =
        Ascends-append 0 s.rows (next_row h s.rows a) i.ascends
          (omega (arith, next_row-seq h s.rows a, head_row-last_seq s.rows));
    anchored = λ n hash p q.
        let v = i.anchored n hash p q in
        record {
          pre = v.pre;
          suf = v.suf ++ next_row h s.rows a ∷ [];
          split = ap (λ r. r ++ next_row h s.rows a ∷ []) v.split ∙ append_assoc v.pre v.suf _;
          chained = v.chained;
          seq = v.seq;
          head = v.head;
        };
  }
