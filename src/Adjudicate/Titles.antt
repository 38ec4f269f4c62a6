-- ===== src/Adjudicate/Titles.antt =====
-- `jaccard` and `adjudicate_create`: a class whose title a sibling has is not made twice.
use polis_memory.Prelude.{
  ℕ, ◌+◌, ◌-◌, ◌*◌, Bool, true, not, ◌&&◌, none, some, List, [], ◌∷◌, if◌then◌else◌, any, is_empty,
  keep, leb, length, map,
}
use polis_memory.Prelude.Text.{Text, text_eq}
use polis_memory.Query.{Chars}
use polis_memory.Query.Words.{split}
use polis_memory.Catalog.{Node}
use polis_memory.Adjudicate.{get, siblings_under}
use polis_memory.Adjudicate.Verdicts.{Verdict, unknown_parent, apply, refuse, redirect}

-- A set of words as its list without repetitions.
abbrev pub insert_word : Text → List Text → List Text
insert_word w ws = if any (text_eq w) ws then ws else w ∷ ws

module _ (chars : Chars) where
  abbrev pub word_set : List Text → List Text
  word_set [] = []
  word_set (w ∷ ws) =
      let rest = word_set ws in if is_empty w then rest else insert_word (chars.to_lowercase w) rest

  abbrev pub title_words : Text → List Text
  title_words title = word_set (split (λ (c : ℕ). not (chars.is_alphanumeric c)) title)

  -- `jaccard(a, b) >= 0.8`. The quotient of two counts below 2 ^ 50 is not rounded across 0.8.
  unfoldable pub is_duplicate_title : Text → Text → Bool
  unfolding any keep split
  is_duplicate_title a b =
      let wa = title_words a in
      let wb = title_words b in
      let inter = length (keep (λ (w : Text). any (text_eq w) wb) wa) in
      if is_empty wa && is_empty wb
      then true
      else leb (4 * (length wa + length wb - inter)) (5 * inter)

  unfoldable pub twins : List Node → ℕ → Text → List Node
  unfolding siblings_under keep
  twins nodes parent title =
      keep (λ (s : Node). is_duplicate_title s.title title) (siblings_under nodes parent)

  abbrev pub redirect_to : List Node → Verdict
  redirect_to [] = apply
  redirect_to (n ∷ []) = redirect n.id none
  redirect_to (n ∷ m ∷ ns) = redirect n.id (some (n.id ∷ m.id ∷ map (λ (t : Node). t.id) ns))

  unfoldable pub adjudicate_create : List Node → ℕ → Text → Verdict
  unfolding twins
  adjudicate_create nodes parent title = elim (get nodes parent) [
    | none ↦ refuse (unknown_parent parent)
    | some p ↦ redirect_to (twins nodes parent title)
  ]
