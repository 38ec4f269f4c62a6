-- ===== src/Query/Words.antt =====
-- The stopwords of crates/polis-core/src/query.rs and the operations on text that it uses.
use polis_memory.Prelude.{ℕ, Bool, ◌||◌, List, [], ◌∷◌, ◌++◌, any, if◌then◌else◌, ◌==◌}
use polis_memory.Prelude.Text.{Text, codes, text_eq}
use mathlib.Core.List.{reverse}

abbrev pub stopwords : List Text
stopwords =
    codes "a"
    ∷ codes "about"
    ∷ codes "after"
    ∷ codes "all"
    ∷ codes "also"
    ∷ codes "am"
    ∷ codes "an"
    ∷ codes "and"
    ∷ codes "any"
    ∷ codes "are"
    ∷ codes "as"
    ∷ codes "at"
    ∷ codes "be"
    ∷ codes "been"
    ∷ codes "before"
    ∷ codes "being"
    ∷ codes "but"
    ∷ codes "by"
    ∷ codes "can"
    ∷ codes "did"
    ∷ codes "do"
    ∷ codes "does"
    ∷ codes "doing"
    ∷ codes "for"
    ∷ codes "from"
    ∷ codes "had"
    ∷ codes "has"
    ∷ codes "have"
    ∷ codes "how"
    ∷ codes "i"
    ∷ codes "if"
    ∷ codes "in"
    ∷ codes "into"
    ∷ codes "is"
    ∷ codes "it"
    ∷ codes "its"
    ∷ codes "just"
    ∷ codes "me"
    ∷ codes "my"
    ∷ codes "of"
    ∷ codes "on"
    ∷ codes "or"
    ∷ codes "our"
    ∷ codes "out"
    ∷ codes "over"
    ∷ codes "same"
    ∷ codes "she"
    ∷ codes "so"
    ∷ codes "some"
    ∷ codes "than"
    ∷ codes "that"
    ∷ codes "the"
    ∷ codes "their"
    ∷ codes "them"
    ∷ codes "then"
    ∷ codes "there"
    ∷ codes "these"
    ∷ codes "they"
    ∷ codes "this"
    ∷ codes "to"
    ∷ codes "too"
    ∷ codes "up"
    ∷ codes "was"
    ∷ codes "we"
    ∷ codes "were"
    ∷ codes "what"
    ∷ codes "when"
    ∷ codes "where"
    ∷ codes "which"
    ∷ codes "while"
    ∷ codes "who"
    ∷ codes "why"
    ∷ codes "will"
    ∷ codes "with"
    ∷ codes "would"
    ∷ codes "you"
    ∷ codes "your"
    ∷ []

unfoldable pub is_stopword : Text → Bool
is_stopword t = any (text_eq t) stopwords

-- '_', '-', '.', '/' and '@'.
unfoldable pub is_token_char : ℕ → Bool
is_token_char c = c == 95 || c == 45 || c == 46 || c == 47 || c == 64

-- `replace('"', "\"\"")`.
unfoldable pub double_quotes : Text → Text
double_quotes [] = []
double_quotes (c ∷ t) = let rest = double_quotes t in if c == 34 then 34 ∷ 34 ∷ rest else c ∷ rest

unfoldable pub quote : Text → Text
quote term = 34 ∷ double_quotes term ++ 34 ∷ []

abbrev pub push_front : ℕ → List Text → List Text
push_front c [] = (c ∷ []) ∷ []
push_front c (piece ∷ pieces) = (c ∷ piece) ∷ pieces

-- `split` on the characters that satisfy `p`: the pieces between them, empty ones included.
unfoldable pub split : (ℕ → Bool) → Text → List Text
split p [] = [] ∷ []
split p (c ∷ s) = let rest = split p s in if p c then [] ∷ rest else push_front c rest

unfoldable pub trim_start_matches : (ℕ → Bool) → Text → Text
trim_start_matches p [] = []
trim_start_matches p (c ∷ s) = let rest = trim_start_matches p s in if p c then rest else c ∷ s

unfoldable pub trim_end_matches : (ℕ → Bool) → Text → Text
trim_end_matches p s = reverse (trim_start_matches p (reverse s))

abbrev pub trim_matches : (ℕ → Bool) → Text → Text
trim_matches p s = trim_end_matches p (trim_start_matches p s)

-- `Vec::dedup`: equal neighbours become one.
unfoldable pub dedup_neighbours : List Text → List Text
dedup_neighbours [] = []
dedup_neighbours (t ∷ []) = t ∷ []
dedup_neighbours (t ∷ u ∷ ts) =
    let rest = dedup_neighbours (u ∷ ts) in if text_eq u t then rest else t ∷ rest

unfoldable pub join : Text → List Text → Text
join sep [] = []
join sep (t ∷ []) = t
join sep (t ∷ u ∷ ts) = t ++ (sep ++ join sep (u ∷ ts))
