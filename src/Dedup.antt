-- ===== src/Dedup.antt =====
-- crates/polis-core/src/dedup.rs: near-duplicate suppression, and the excerpts of the answer pack.
-- A key is an `i64`, an index or a length a `usize`.
pub mod Simhash
pub mod Reference
pub mod Agree
pub mod Distinct
pub mod Excerpts
pub mod Tests
use polis_memory.Prelude.{
  ℕ, zero, suc, ◌+◌, ℤ, Bool, true, false, not, Option, none, some, List, [], ◌∷◌, ◌++◌, find,
  map_some, keep_if, or, is_empty, if◌then◌else◌, length, get_elem?, ◌>>=◌,
}
use polis_memory.Prelude.Text.{Text, text_eq, trim}
use polis_memory.Dedup.Simhash.{simhash, near_duplicate}

pub data Verdict : Type 0 where
  kept_with : List ℤ → Verdict
  duplicate_of : ℤ → Verdict

pub record Candidate : Type 0 where
  pub key : ℤ
  pub exact_hash : Option Text
  pub text : Text

-- The loop's three vectors; a kept candidate is known by its index.
pub record Pass : Type 0 where
  pub verdicts : List Verdict
  pub kept : List (ℕ × ℕ)
  pub kept_hashes : List (ℕ × Text)

abbrev pub usable_hash : Candidate → Option Text
usable_hash c = keep_if (λ h. not (is_empty h)) c.exact_hash

abbrev pub exact_match : List (ℕ × Text) → Option Text → Option ℕ
exact_match kept_hashes none = none
exact_match kept_hashes (some h) = map_some (λ k. k.0) (find (λ k. text_eq k.1 h) kept_hashes)

abbrev pub near_match : List (ℕ × ℕ) → Candidate → Option ℕ
near_match kept c =
    if not (is_empty (trim c.text))
    then map_some (λ k. k.0) (find (λ k. near_duplicate k.1 (simhash c.text)) kept)
    else none

unfoldable pub dupe_of : Pass → Candidate → Option ℕ
dupe_of st c = or (exact_match st.kept_hashes (usable_hash c)) (near_match st.kept c)

abbrev pub absorb : ℤ → Verdict → Verdict
absorb key (kept_with absorbed) = kept_with (absorbed ++ key ∷ [])
absorb key (duplicate_of k) = duplicate_of k

abbrev pub set_at {ℓ} : {A : Type ℓ} → ℕ → A → List A → List A
set_at i x [] = []
set_at zero x (y ∷ ys) = x ∷ ys
set_at (suc i) x (y ∷ ys) = y ∷ set_at i x ys

abbrev pub push_hash : ℕ → Option Text → List (ℕ × Text) → List (ℕ × Text)
push_hash i none hashes = hashes
push_hash i (some h) hashes = hashes ++ (i, h) ∷ []

-- One candidate, its index and what it duplicates; `none` is an index out of range.
unfoldable pub settle : List Candidate → ℕ → Candidate → Pass → Option ℕ → Option Pass
settle candidates i c st (some j) = get_elem? candidates j >>= λ original.
    let verdicts = st.verdicts ++ duplicate_of original.key ∷ [] in
    get_elem? verdicts j >>= λ v. some (record st { verdicts = set_at j (absorb c.key v) verdicts })
settle candidates i c st none = some (record {
  verdicts = st.verdicts ++ kept_with [] ∷ [];
  kept = st.kept ++ (i, simhash c.text) ∷ [];
  kept_hashes = push_hash i (usable_hash c) st.kept_hashes;
})

unfoldable pub dedup_from : List Candidate → ℕ → List Candidate → Pass → Option Pass
dedup_from candidates i [] st = some st
dedup_from candidates i (c ∷ rest) st =
    settle candidates i c st (dupe_of st c) >>= λ st'. dedup_from candidates (i + 1) rest st'

unfoldable pub dedup : List Candidate → Option (List Verdict)
dedup candidates =
    map_some (λ st. st.verdicts)
      (dedup_from candidates 0 candidates (record { verdicts = []; kept = []; kept_hashes = [] }))
