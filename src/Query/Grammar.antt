-- ===== src/Query/Grammar.antt =====
-- How FTS5 reads a MATCH expression of quoted strings: a string stands between double quotes, a
-- quote inside it is written twice, a star after it asks for a prefix, a keyword joins two strings.
use polis_memory.Prelude.{
  ℕ, zero, suc, Bool, true, false, Option, none, some, List, [], ◌∷◌, ◌==◌, map_some, ◌>>=◌,
}
use polis_memory.Prelude.Text.{Text}

-- What follows an opening quote: the string, and the text after its closing quote.
unfoldable pub read_body : Text → Option (Text × Text)
read_body [] = none
read_body (c ∷ []) = elim (c == 34) [ true ↦ some ([], []) | false ↦ none ]
read_body (c ∷ d ∷ s) = elim (c == 34) [
  | false ↦ map_some (λ r. (c ∷ r.0, r.1)) (read_body (d ∷ s))
  | true ↦ elim (d == 34) [
    | false ↦ some ([], d ∷ s)
    | true ↦ map_some (λ r. (34 ∷ r.0, r.1)) (read_body s)
  ]
]

unfoldable pub read_quoted : Text → Option (Text × Text)
read_quoted [] = none
read_quoted (c ∷ s) = elim (c == 34) [ true ↦ read_body s | false ↦ none ]

abbrev pub read_star : Text → Text → (Text × Bool) × Text
read_star t [] = ((t, false), [])
read_star t (c ∷ s) = elim (c == 42) [ true ↦ ((t, true), s) | false ↦ ((t, false), c ∷ s) ]

-- A string and its star.
unfoldable pub read_part : Text → Option ((Text × Bool) × Text)
read_part s = map_some (λ r. read_star r.0 r.1) (read_quoted s)

unfoldable pub strip_prefix : Text → Text → Option Text
strip_prefix [] s = some s
strip_prefix (c ∷ p) [] = none
strip_prefix (c ∷ p) (d ∷ s) = elim (c == d) [ true ↦ strip_prefix p s | false ↦ none ]

-- The strings that `sep` joins, each with whether a star follows; `fuel` bounds their number.
unfoldable pub read_match : Text → ℕ → Text → Option (List (Text × Bool))
read_match sep zero s = none
read_match sep (suc fuel) s = elim (read_part s) [
  | none ↦ none
  | some (part, []) ↦ some (part ∷ [])
  | some (part, c ∷ more) ↦ strip_prefix sep (c ∷ more) >>= λ next.
      map_some (λ parts. part ∷ parts) (read_match sep fuel next)
]
