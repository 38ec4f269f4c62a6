-- ===== src/Bundle/Sorting.antt =====
-- Sorting by seq: a table in seq order is left as it is.
use polis_memory.Prelude.{ℕ, suc, ◌≡◌, refl, ap, ◌∙◌, true, List, [], ◌∷◌, arith}
use polis_memory.Ledger.{LedgerEventRow}
use polis_memory.Bundle.{sort_by_seq, insert_by_seq, is_contiguous, is_full_chain}

-- Seqs that count up from `n`.
abbrev pub CountsFrom : ℕ → List LedgerEventRow → Type 0
CountsFrom n [] = Unit
CountsFrom n (e ∷ rows) = (e.seq ≡ n) × CountsFrom (suc n) rows

pub sort_by_seq-CountsFrom :
    (n : ℕ) (rows : List LedgerEventRow) → CountsFrom n rows → sort_by_seq rows ≡ rows
unfolding sort_by_seq
sort_by_seq-CountsFrom n [] c = refl
sort_by_seq-CountsFrom n (e ∷ []) c = refl
sort_by_seq-CountsFrom n (e ∷ f ∷ rows) c =
    ap (insert_by_seq e) (sort_by_seq-CountsFrom (suc n) (f ∷ rows) c.1)
    ∙ ground (arith, c.0, c.1.0)

pub is_contiguous-CountsFrom :
    (n : ℕ) (rows : List LedgerEventRow) → CountsFrom n rows → is_contiguous rows ≡ true
unfolding is_contiguous
is_contiguous-CountsFrom n [] c = refl
is_contiguous-CountsFrom n (e ∷ []) c = refl
is_contiguous-CountsFrom n (e ∷ f ∷ rows) c =
    ground (arith, is_contiguous-CountsFrom (suc n) (f ∷ rows) c.1, c.0, c.1.0)

pub is_full_chain-CountsFrom :
    (e : LedgerEventRow) (rows : List LedgerEventRow)
    → CountsFrom 1 (e ∷ rows)
    → is_full_chain (e ∷ rows) ≡ true
unfolding is_full_chain
is_full_chain-CountsFrom e rows c = ground (arith, is_contiguous-CountsFrom 1 (e ∷ rows) c, c.0)
