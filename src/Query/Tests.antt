-- ===== src/Query/Tests.antt =====
-- Queries of the source's own tests, with the ASCII part of the character tables.
use polis_memory.Prelude.{
  ℕ, ◌+◌, ◌≡◌, refl, true, false, arith, ◌&&◌, ◌||◌, some, [], ◌∷◌, map, map_some, keep, any, leb,
  if◌then◌else◌,
}
use polis_memory.Prelude.Text.{Text, codes, text_eq}
use polis_memory.Query.{
  Chars, FtsPlan, is_stopword, is_token_char, double_quotes, quote, split, trim_start_matches,
  trim_end_matches, dedup_neighbours, join, strip_marks, pieces, tokenize, extract_from,
  extract_phrases, terms_of, plan_of, plan_fts_query,
}
use polis_memory.Query.Quoting.{ReadsBack, plan_fts_query-ReadsBack}
use polis_memory.Query.Terms.{Sound, plan_fts_query-Sound}

abbrev lower : ℕ → ℕ
lower c = if leb 65 c && leb c 90 then c + 32 else c

abbrev ascii : Chars
ascii = record {
  to_lowercase = λ t. map lower t;
  is_alphanumeric =
      λ c. (leb 48 c && leb c 57) || ((leb 65 c && leb c 90) || (leb 97 c && leb c 122));
}

abbrev question : Text
question = codes "What did I decide about the tab suspension"

question_terms :
    map_some (λ p. p.terms) (plan_fts_query ascii question)
    ≡ some (codes "decide" ∷ codes "tab" ∷ codes "suspension" ∷ [])
unfolding plan_fts_query plan_of terms_of extract_phrases extract_from tokenize pieces strip_marks
    join dedup_neighbours trim_end_matches trim_start_matches split is_stopword is_token_char keep
    any text_eq
question_terms = refl

plan_fts_query-ReadsBack_example : ReadsBack ascii (plan_fts_query ascii question)
plan_fts_query-ReadsBack_example = plan_fts_query-ReadsBack ascii question

ascii_marks : (c : ℕ) → is_token_char c ≡ true → ascii.is_alphanumeric c ≡ false
unfolding is_token_char
ascii_marks c e = ground (arith, e)

plan_fts_query-Sound_example :
    Sound ascii
      (extract_phrases ascii question).0
      (extract_phrases ascii question).1
      (plan_fts_query ascii question)
plan_fts_query-Sound_example = plan_fts_query-Sound ascii ascii_marks question

-- A follow-up of one word.
abbrev followup_plan : FtsPlan
followup_plan = record {
  and_match = codes "\"beta\"";
  or_match = codes "\"beta\"*";
  phrases = [];
  terms = codes "beta" ∷ [];
  all_stopwords = false;
}

followup-plan_fts_query : plan_fts_query ascii (codes "and the beta?") ≡ some followup_plan
unfolding plan_fts_query plan_of terms_of extract_phrases extract_from tokenize pieces strip_marks
    join dedup_neighbours trim_end_matches trim_start_matches split is_stopword is_token_char keep
    any text_eq quote double_quotes
followup-plan_fts_query = refl
