-- ===== src/Chunks/Breaks.antt =====
-- Where `find_break` of crates/polis-core/src/vec.rs cuts.
use polis_memory.Prelude.{
  ℕ, zero, suc, ◌+◌, ◌-◌, ◌≤◌, ◌<◌, min, ◌≡◌, refl, inl, inr, Bool, ◌&&◌, Option, none, some, arith,
  leb, ltb, ◌==◌, length, Bool-cases, Option-cases,
}
use polis_memory.Prelude.Text.{Text}
use polis_memory.Chunks.{
  chunk_target, chunk_max, slice, fence_end, first_in, is_paragraph_break, is_sentence_break,
  break_at, find_break, end_of,
}

first_in_range :
    (test : ℕ → Bool) (i count k : ℕ) → first_in test i count ≡ some k → (i ≤ k) × (k < i + count)
unfolding first_in
first_in_range test i zero k q = cc
first_in_range test i (suc count) k q = elim (Bool-cases (test i)) [
  | inl found ↦ ground (arith, q, found)
  | inr missed ↦
      let r = first_in_range test (i + 1) count k (rw (missed, first_in) at q) in
      (omega (arith, r.0), omega (arith, r.1))
]

-- A break at or after the target stands after it, and not past the hard cut.
break_at_range :
    (chars : Text) (target hard : ℕ)
    → target < hard
    → (target < break_at chars target hard) × (break_at chars target hard ≤ hard)
break_at_range chars target hard lt =
    paragraph (first_in (is_paragraph_break chars) target (hard - 1 - target)) refl
      (first_in (is_sentence_break chars) target (hard - target)) refl
  where
    paragraph :
        (p : Option ℕ)
        → first_in (is_paragraph_break chars) target (hard - 1 - target) ≡ p
        → (s : Option ℕ) → first_in (is_sentence_break chars) target (hard - target) ≡ s
        → let at : ℕ = elim p [ some i ↦ i + 2 | none ↦ elim s [ some i ↦ i + 1 | none ↦ hard ] ] in
          (target < at) × (at ≤ hard)
    paragraph (some i) q s e =
        let r = first_in_range (is_paragraph_break chars) target (hard - 1 - target) i q in
        (omega (arith, r.0), omega (arith, r.1, lt))
    paragraph none q (some i) e =
        let r = first_in_range (is_sentence_break chars) target (hard - target) i e in
        (omega (arith, r.0), omega (arith, r.1, lt))
    paragraph none q none e = (lt, omega arith)

find_break_range :
    (chars : Text) (start target hard : ℕ)
    → target < hard
    → (target < find_break chars start target hard) × (find_break chars start target hard ≤ hard)
unfolding find_break
find_break_range chars start target hard lt =
    elim (Option-cases (fence_end (slice chars start hard))) [
      | inl unfenced ↦ rw (unfenced, find_break) (break_at_range chars target hard lt)
      | inr (after, fenced) ↦
          elim (Bool-cases (ltb target (start + after) && leb (start + after) hard)) [
            | inl fits ↦ rw (fenced, fits, find_break) (ground (arith, fits), ground (arith, fits))
            | inr out ↦ rw (fenced, out, find_break) (break_at_range chars target hard lt)
          ]
    ]

-- A chunk has at most 1,200 characters, and more than 800 unless it is the last.
pub end_of_range :
    (chars : Text) (start : ℕ)
    → start < length chars
    → (start < end_of chars start)
      × (end_of chars start ≤ start + chunk_max)
      × (end_of chars start ≤ length chars)
end_of_range chars start lt =
    elim (Bool-cases (min (start + chunk_max) (length chars) == length chars)) [
      | inl last ↦ rw last (lt, ground (arith, last), omega arith)
      | inr inner ↦
          let r =
            find_break_range chars start (min (start + chunk_target) (length chars))
              (min (start + chunk_max) (length chars)) (ground (arith, inner, lt)) in
          rw inner (omega (arith, r.0, lt), omega (arith, r.1), omega (arith, r.1))
    ]
