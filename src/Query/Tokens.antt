-- ===== src/Query/Tokens.antt =====
-- `tokenize` (crates/polis-core/src/query.rs) loses no word: where a letter or digit is left, so is a
-- token.
use mathlib.Core.List.{reverse}
use polis_memory.Prelude.{
  ℕ, ◌≡◌, refl, ◌∙◌, Bool, true, false, not, ◌&&◌, List, [], ◌∷◌, arith, any, any-reverse, keep,
  map, is_empty, if◌then◌else◌, Bool-cases, inl, inr,
}
use polis_memory.Prelude.Text.{Text}
use polis_memory.Query.{
  Chars, has_alphanumeric, is_lone_letter, is_token_char, pieces, push_front, split,
  starts_with_dashes, strip_marks, tokenize, trim_end_matches, trim_start_matches,
}

module _ (p q : ℕ → Bool) (apart : (c : ℕ) → p c ≡ true → q c ≡ false) where
  any-trim_start_matches : (s : Text) → any q s ≡ true → any q (trim_start_matches p s) ≡ true
  unfolding any trim_start_matches
  any-trim_start_matches [] e = cc
  any-trim_start_matches (c ∷ s) e = elim (Bool-cases (p c)) [
    | inl mark ↦
        let plain = apart c mark in
        let rest = any-trim_start_matches s (ground (arith, e, plain)) in ground (arith, mark, rest)
    | inr letter ↦ ground (arith, letter, e)
  ]

  any-trim_end_matches : (s : Text) → any q s ≡ true → any q (trim_end_matches p s) ≡ true
  unfolding trim_end_matches
  any-trim_end_matches s e =
      any-reverse q (trim_start_matches p (reverse s))
      ∙ any-trim_start_matches (reverse s) (any-reverse q s ∙ e)

  any-push_front :
      (c : ℕ) (ts : List Text)
      → any (any q) (push_front c ts) ≡ (if q c then true else any (any q) ts)
  unfolding any
  any-push_front c [] = ground arith
  any-push_front c (t ∷ ts) = ground arith

  any-split : (s : Text) → any q s ≡ true → any (any q) (split p s) ≡ true
  unfolding any split
  any-split [] e = cc
  any-split (c ∷ s) e = elim (Bool-cases (p c)) [
    | inl mark ↦
        let plain = apart c mark in
        let rest = any-split s (ground (arith, e, plain)) in rw mark rest
    | inr letter ↦ elim (Bool-cases (q c)) [
      | inl hit ↦ rw letter (any-push_front c (split p s) ∙ rw hit refl)
      | inr miss ↦
          let rest = any-split s (ground (arith, e, miss)) in
          rw letter (any-push_front c (split p s) ∙ rw miss rest)
    ]
  ]

any-map :
    (q : Text → Bool) (f : Text → Text)
    → ((t : Text) → q t ≡ true → q (f t) ≡ true)
    → (ts : List Text) → any q ts ≡ true
    → any q (map f ts) ≡ true
unfolding any
any-map q f keeps [] e = cc
any-map q f keeps (t ∷ ts) e = elim (Bool-cases (q t)) [
  | inl hit ↦ let hits = keeps t hit in ground (arith, hits)
  | inr miss ↦ let rest = any-map q f keeps ts (ground (arith, e, miss)) in ground (arith, rest)
]

keep_some : (q : Text → Bool) (ts : List Text) → any q ts ≡ true → is_empty (keep q ts) ≡ false
unfolding any keep
keep_some q [] e = cc
keep_some q (t ∷ ts) e = elim (Bool-cases (q t)) [
  | inl hit ↦ ground (arith, hit)
  | inr miss ↦ let rest = keep_some q ts (ground (arith, e, miss)) in ground (arith, miss, rest)
]

module _ (chars : Chars)
    (marks : (c : ℕ) → is_token_char c ≡ true → chars.is_alphanumeric c ≡ false) where
  any-strip_marks :
      (t : Text)
      → has_alphanumeric chars t ≡ true
      → has_alphanumeric chars (strip_marks chars t) ≡ true
  unfolding strip_marks
  any-strip_marks t e = elim (Bool-cases (starts_with_dashes t && has_alphanumeric chars t)) [
    | inl flag ↦ rw flag (any-trim_end_matches is_token_char chars.is_alphanumeric marks t e)
    | inr word ↦ rw word (
        any-trim_end_matches is_token_char chars.is_alphanumeric marks _
          (any-trim_start_matches is_token_char chars.is_alphanumeric marks t e))
  ]

  separators_apart :
      (c : ℕ)
      → (not (chars.is_alphanumeric c) && not (is_token_char c)) ≡ true
      → chars.is_alphanumeric c ≡ false
  separators_apart c e = ground (arith, e)

  pieces_some :
      (raw : Text)
      → any chars.is_alphanumeric (chars.to_lowercase raw) ≡ true
      → is_empty (pieces chars raw) ≡ false
  unfolding pieces
  pieces_some raw e = keep_some (has_alphanumeric chars) _ (
      any-map (has_alphanumeric chars) (strip_marks chars) any-strip_marks _
        (any-split _ chars.is_alphanumeric separators_apart _ e))

  pub tokenize_some :
      (raw : Text)
      → any chars.is_alphanumeric (chars.to_lowercase raw) ≡ true
      → is_empty (tokenize chars raw) ≡ false
  unfolding tokenize
  tokenize_some raw e =
      let all = pieces_some raw e in
      elim (Bool-cases (is_empty (keep (λ t. not (is_lone_letter t)) (pieces chars raw)))) [
        | inl lone ↦ rw lone all
        | inr others ↦ rw others others
      ]
