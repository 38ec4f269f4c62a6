-- ===== src/Ledger/Anchor/Rows.antt =====
-- Tables in strictly ascending seq order: their greatest seq, lookups and suffixes.
use polis_memory.Prelude.{
  ℕ, ◌≤◌, ◌<◌, ◌≡◌, refl, none, some, List, [], ◌∷◌, ◌++◌, arith, ltb, keep, find, max, ◌↔◌,
}
use polis_memory.Prelude.Text.{Text}
use polis_memory.Ledger.{Hasher, LedgerEventRow, Chained, head_from}
use polis_memory.Ledger.Anchor.{max_ledger_seq, entry_hash_at}

abbrev pub Ascends : ℕ → List LedgerEventRow → Type 0
Ascends lo [] = Unit
Ascends lo (e ∷ rows) = (lo < e.seq) × Ascends e.seq rows

abbrev pub last_seq_from : ℕ → List LedgerEventRow → ℕ
last_seq_from lo [] = lo
last_seq_from lo (e ∷ rows) = last_seq_from e.seq rows

pub le-last_seq_from :
    (lo : ℕ) (rows : List LedgerEventRow) → Ascends lo rows → lo ≤ last_seq_from lo rows
le-last_seq_from lo [] a = omega arith
le-last_seq_from lo (e ∷ rows) a = omega (arith, le-last_seq_from e.seq rows a.1)

pub last_seq_from-append :
    (lo : ℕ) (pre suf : List LedgerEventRow)
    → last_seq_from lo (pre ++ suf) ≡ last_seq_from (last_seq_from lo pre) suf
last_seq_from-append lo [] suf = refl
last_seq_from-append lo (e ∷ pre) suf = last_seq_from-append e.seq pre suf

pub Ascends-split :
    (lo : ℕ) (pre suf : List LedgerEventRow)
    → Ascends lo (pre ++ suf)
    → Ascends lo pre × Ascends (last_seq_from lo pre) suf
Ascends-split lo [] suf a = (tt, a)
Ascends-split lo (e ∷ pre) suf a =
    let rest = Ascends-split e.seq pre suf a.1 in ((a.0, rest.0), rest.1)

max-last :
    (lo : ℕ) (rows : List LedgerEventRow)
    → Ascends lo rows
    → max lo (max_ledger_seq rows) ≡ last_seq_from lo rows
unfolding max_ledger_seq
max-last lo [] a = omega arith
max-last lo (e ∷ rows) a = omega (arith, max-last e.seq rows a.1, a.0)

-- In an ascending table the greatest seq is the last one.
pub max_ledger_seq-last :
    (rows : List LedgerEventRow) → Ascends 0 rows → max_ledger_seq rows ≡ last_seq_from 0 rows
max_ledger_seq-last rows a = omega (arith, max-last 0 rows a)

pub keep_all :
    (lo k : ℕ) (rows : List LedgerEventRow)
    → k ≤ lo
    → Ascends lo rows
    → keep (λ e. ltb k e.seq) rows ≡ rows
unfolding keep
keep_all lo k [] le a = refl
keep_all lo k (e ∷ rows) le a = ground (arith, keep_all e.seq k rows, a.0)

-- The rows behind the last seq of a prefix are the rest of the table.
pub keep_suffix :
    (lo : ℕ) (pre suf : List LedgerEventRow)
    → Ascends lo (pre ++ suf)
    → keep (λ e. ltb (last_seq_from lo pre) e.seq) (pre ++ suf) ≡ suf
unfolding keep
keep_suffix lo [] suf a = keep_all lo lo suf (omega arith) a
keep_suffix lo (e ∷ pre) suf a = ground (
  arith,
  keep_suffix e.seq pre suf a.1,
  le-last_seq_from e.seq pre (Ascends-split e.seq pre suf a.1).0,
)

entry_hash_at_below :
    (lo k : ℕ) (rows : List LedgerEventRow) → k ≤ lo → Ascends lo rows → entry_hash_at k rows ≡ none
unfolding entry_hash_at find
entry_hash_at_below lo k [] le a = refl
entry_hash_at_below lo k (e ∷ rows) le a = ground (arith, entry_hash_at_below e.seq k rows, a.0)

pub entry_hash_at_zero : (rows : List LedgerEventRow) → Ascends 0 rows → entry_hash_at 0 rows ≡ none
entry_hash_at_zero rows a = entry_hash_at_below 0 0 rows (omega arith) a

-- The row with the last seq of a prefix holds the prefix's head.
pub entry_hash_at_last :
    (lo : ℕ) (prev : Text) (e : LedgerEventRow) (pre suf : List LedgerEventRow)
    → Ascends lo (e ∷ (pre ++ suf))
    → entry_hash_at (last_seq_from lo (e ∷ pre)) (e ∷ (pre ++ suf))
      ≡ some (head_from prev (e ∷ pre))
unfolding entry_hash_at find
entry_hash_at_last lo prev e [] suf a = ground arith
entry_hash_at_last lo prev e (f ∷ pre) suf a = ground (
  arith,
  entry_hash_at_last e.seq e.entry_hash f pre suf a.1,
  le-last_seq_from f.seq pre (Ascends-split f.seq pre suf a.1.1).0,
  a.1.0,
)

module _ (h : Hasher) where
  pub Chained-split :
      (prev : Text) (pre suf : List LedgerEventRow)
      → Chained h prev (pre ++ suf) ↔ (Chained h prev pre × Chained h (head_from prev pre) suf)
  Chained-split prev [] suf = (λ c. (tt, c), λ c. c.1)
  Chained-split prev (e ∷ pre) suf =
      let rest = Chained-split e.entry_hash pre suf in
      (λ c. ((c.0, c.1, (rest.0 c.2).0), (rest.0 c.2).1), λ c. (c.0.0, c.0.1, rest.1 (c.0.2, c.1)))
