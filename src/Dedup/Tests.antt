-- ===== src/Dedup/Tests.antt =====
-- Three candidates of the source's own test: the third has the first one's hash.
use polis_memory.Prelude.{◌≡◌, refl, pos, some, List, [], ◌∷◌, ◌++◌, map, find}
use polis_memory.Prelude.Text.{Text, codes, text_eq, trim, trim_start, is_whitespace}
use polis_memory.Dedup.Simhash.{
  simhash, near_duplicate, split_whitespace, words_from, fnv1a, fnv_byte, shingles, more_shingles,
}
use polis_memory.Dedup.{
  Candidate, Verdict, kept_with, duplicate_of, dupe_of, settle, dedup_from, dedup,
}
use polis_memory.Dedup.Reference.{originals, of_verdict}
use polis_memory.Dedup.Agree.{dedup_agrees}
use polis_memory.Dedup.Excerpts.{starts_with, find_text, first_hit, excerpt_around, excerpt_at}

abbrev three : List Candidate
three =
    record { key = pos 1; exact_hash = some (codes "h1"); text = codes "alpha" }
    ∷ record { key = pos 2; exact_hash = some (codes "h2"); text = codes "beta beta beta" }
    ∷ record { key = pos 3; exact_hash = some (codes "h1"); text = codes "alpha" }
    ∷ []

abbrev verdicts : List Verdict
verdicts = kept_with (pos 3 ∷ []) ∷ kept_with [] ∷ duplicate_of (pos 1) ∷ []

three-dedup : dedup three ≡ some verdicts
unfolding dedup dedup_from settle dupe_of find text_eq trim trim_start is_whitespace simhash
    near_duplicate split_whitespace words_from fnv1a fnv_byte shingles more_shingles
three-dedup = refl

dedup_agrees_example :
    (found : List Verdict) × (dedup three ≡ some found)
    × (map of_verdict found ≡ originals [] three)
dedup_agrees_example = dedup_agrees three

abbrev sentence : Text
sentence = codes "pad pad NEEDLE tail tail"

-- A stand-in for the case mapping: it keeps the text.
abbrev same_case : Text → Text
same_case t = t

excerpt_test :
    excerpt_around same_case sentence (codes "NEEDLE" ∷ []) 8
    ≡ 0x2026 ∷ codes "pad NEED" ++ 0x2026 ∷ []
unfolding excerpt_around excerpt_at first_hit find_text starts_with
excerpt_test = refl
