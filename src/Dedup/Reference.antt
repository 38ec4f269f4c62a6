-- ===== src/Dedup/Reference.antt =====
-- What deduplication is meant to do, without indices: each candidate against the earlier survivors.
use polis_memory.Prelude.{
  ℤ, Bool, false, not, Option, none, some, List, [], ◌∷◌, ◌++◌, find, or, is_empty, if◌then◌else◌,
}
use polis_memory.Prelude.Text.{Text, text_eq, trim}
use polis_memory.Dedup.Simhash.{simhash, near_duplicate}
use polis_memory.Dedup.{Candidate, Verdict, kept_with, duplicate_of, usable_hash}

abbrev pub has_hash : Text → Option Text → Bool
has_hash h none = false
has_hash h (some k) = text_eq k h

abbrev pub exact_original : List Candidate → Option Text → Option Candidate
exact_original survivors none = none
exact_original survivors (some h) = find (λ s. has_hash h (usable_hash s)) survivors

abbrev pub near_original : List Candidate → Candidate → Option Candidate
near_original survivors c =
    if not (is_empty (trim c.text))
    then find (λ s. near_duplicate (simhash s.text) (simhash c.text)) survivors
    else none

-- The survivor that a candidate duplicates.
unfoldable pub original : List Candidate → Candidate → Option Candidate
original survivors c = or (exact_original survivors (usable_hash c)) (near_original survivors c)

-- For each candidate the key of the survivor it duplicates, if any.
unfoldable pub originals : List Candidate → List Candidate → List (Option ℤ)
originals survivors [] = []
originals survivors (c ∷ rest) = elim (original survivors c) [
  | none ↦ none ∷ originals (survivors ++ c ∷ []) rest
  | some o ↦ some o.key ∷ originals survivors rest
]

unfoldable pub survivors_of : List Candidate → List Candidate → List Candidate
survivors_of survivors [] = survivors
survivors_of survivors (c ∷ rest) = elim (original survivors c) [
  | none ↦ survivors_of (survivors ++ c ∷ []) rest
  | some o ↦ survivors_of survivors rest
]

abbrev pub of_verdict : Verdict → Option ℤ
of_verdict (kept_with absorbed) = none
of_verdict (duplicate_of key) = some key
