-- ===== src/Query.antt =====
-- crates/polis-core/src/query.rs: planning a query for the full-text index. Unicode's case mapping and
-- its alphanumeric characters are a parameter; characters stand for themselves.
pub mod Words
pub mod Grammar
pub mod Quoting
pub mod Tokens
pub mod Terms
pub mod Tests
unfoldable pub use Words.*
use polis_memory.Prelude.{
  ℕ, zero, suc, ◌+◌, Bool, true, false, not, ◌&&◌, ◌||◌, Option, none, some, List, [], ◌∷◌, ◌++◌,
  map, any, keep, map_some, unwrap_or, or, keep_if, is_empty, is_some, if◌then◌else◌, length, ◌-◌,
  take, drop, leb, ltb, ◌==◌,
}
use polis_memory.Prelude.Text.{Text, codes, text_eq, trim, is_whitespace}
use polis_memory.Dedup.Simhash.{split_whitespace}
use mathlib.Core.List.{reverse}

pub record Chars : Type 0 where
  pub to_lowercase : Text → Text
  pub is_alphanumeric : ℕ → Bool

abbrev pub max_terms : ℕ
max_terms = 12

abbrev pub min_prefix_len : ℕ
min_prefix_len = 4

pub data MatchStage : Type 0 where
  and_stage : MatchStage
  or_stage : MatchStage
  like_stage : MatchStage

pub record FtsPlan : Type 0 where
  pub and_match : Text
  pub or_match : Text
  pub phrases : List Text
  pub terms : List Text
  pub all_stopwords : Bool

abbrev pub match_for : FtsPlan → MatchStage → Option Text
match_for plan and_stage = some plan.and_match
match_for plan or_stage = some plan.or_match
match_for plan like_stage = none

abbrev pub starts_with_dashes : Text → Bool
starts_with_dashes (c ∷ d ∷ s) = c == 45 && d == 45
starts_with_dashes _ = false

abbrev pub is_ascii_alphabetic : ℕ → Bool
is_ascii_alphabetic c = (leb 65 c && leb c 90) || (leb 97 c && leb c 122)

-- One byte, an ASCII letter, and no stopword.
abbrev pub is_lone_letter : Text → Bool
is_lone_letter (c ∷ []) = is_ascii_alphabetic c && not (is_stopword (c ∷ []))
is_lone_letter _ = false

abbrev pub content_of : List Text → List Text
content_of tokens = keep (λ t. not (is_stopword t)) tokens

abbrev pub all_stopwords_of : List Text → Bool
all_stopwords_of tokens = is_empty (content_of tokens) && not (is_empty tokens)

unfoldable pub terms_of : List Text → List Text
terms_of tokens =
    take max_terms
      (dedup_neighbours (if all_stopwords_of tokens then tokens else content_of tokens))

-- A prefix wildcard goes outside the quotes.
abbrev pub quote_prefix : Text → Text
quote_prefix t = if leb min_prefix_len (length t) then quote t ++ 42 ∷ [] else quote t

-- Fewer than two terms, or stopwords alone.
abbrev pub is_thin : Option FtsPlan → Bool
is_thin none = true
is_thin (some plan) = ltb (length plan.terms) 2 || plan.all_stopwords

module _ (chars : Chars) where
  abbrev pub has_alphanumeric : Text → Bool
  has_alphanumeric t = any chars.is_alphanumeric t

  unfoldable pub strip_marks : Text → Text
  strip_marks t =
      if starts_with_dashes t && has_alphanumeric t
      then trim_end_matches is_token_char t
      else trim_matches is_token_char t

  unfoldable pub pieces : Text → List Text
  pieces raw = keep has_alphanumeric (
      map strip_marks (
        split (λ c. not (chars.is_alphanumeric c) && not (is_token_char c))
          (chars.to_lowercase raw)))

  unfoldable pub tokenize : Text → List Text
  tokenize raw =
      let kept = keep (λ t. not (is_lone_letter t)) (pieces raw) in
      if is_empty kept then pieces raw else kept

  abbrev pub add_phrase : Text → List Text × Text → List Text × Text
  add_phrase phrase (phrases, rest) =
      if not (is_empty phrase) then (chars.to_lowercase phrase ∷ phrases, rest) else (phrases, rest)

  -- The two loops as one: `some phrase` is the text since an opening quote.
  unfoldable pub extract_from : Option Text → Text → List Text × Text
  extract_from none [] = ([], [])
  extract_from (some phrase) [] = ([], trim phrase)
  extract_from none (c ∷ raw) = elim (c == 34) [
    | false ↦ let r = extract_from none raw in (r.0, c ∷ r.1)
    | true ↦ extract_from (some []) raw
  ]
  extract_from (some phrase) (c ∷ raw) = elim (c == 34) [
    | false ↦ extract_from (some (phrase ++ c ∷ [])) raw
    | true ↦ add_phrase (trim phrase) (extract_from none raw)
  ]

  unfoldable pub extract_phrases : Text → List Text × Text
  extract_phrases raw = extract_from none raw

  unfoldable pub plan_of : List Text → List Text → Option FtsPlan
  plan_of phrases tokens =
      let terms = terms_of tokens in
      if is_empty terms && is_empty phrases
      then none
      else some (record {
        and_match = join (codes " AND ") (map quote phrases ++ map quote terms);
        or_match = join (codes " OR ") (map quote phrases ++ map quote_prefix terms);
        phrases = phrases;
        terms = terms;
        all_stopwords = all_stopwords_of tokens;
      })

  unfoldable pub plan_fts_query : Text → Option FtsPlan
  plan_fts_query raw =
      let extracted = extract_phrases raw in plan_of extracted.0 (tokenize extracted.1)

  abbrev pub with_prior : Text → Option Text → Option FtsPlan → Option FtsPlan
  with_prior raw none plan = plan
  with_prior raw (some prior) plan = or (plan_fts_query (raw ++ (32 ∷ prior))) plan

  unfoldable pub plan_query_with_context : Text → Option Text → Option FtsPlan
  plan_query_with_context raw prior_user_text =
      let plan = plan_fts_query raw in
      if not (is_thin plan)
      then plan
      else with_prior raw (keep_if (λ p. not (is_empty (trim p))) prior_user_text) plan

abbrev pub starts_with_quote_mark : ℕ → Bool
starts_with_quote_mark c = c == 96 || c == 39 || c == 40

unfoldable pub has_double_colon : Text → Bool
has_double_colon [] = false
has_double_colon (c ∷ []) = false
has_double_colon (c ∷ d ∷ s) = let rest = has_double_colon (d ∷ s) in (c == 58 && d == 58) || rest

-- All but the first and the last character.
abbrev pub interior : Text → Text
interior t = take (length t - 2) (drop 1 t)

unfoldable pub looks_literal : FtsPlan → Text → Bool
looks_literal plan raw =
    any (λ p. leb 3 (length p)) plan.phrases
    || (any (λ t. starts_with_dashes (trim_start_matches starts_with_quote_mark t))
          (split_whitespace (trim raw))
        || has_double_colon (trim raw))
    || any (λ t. leb 3 (length t) && any (λ c. is_token_char c || c == 35 || c == 40) (interior t))
        plan.terms
