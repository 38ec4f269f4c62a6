-- ===== src/Query/Quoting.antt =====
-- The MATCH strings of crates/polis-core/src/query.rs, read back by the grammar of FTS5.
use polis_memory.Prelude.{
  ℕ, zero, suc, ◌+◌, ◌<◌, ◌≡◌, refl, ap, sym, ◌∙◌, Bool, true, false, ◌&&◌, Option, none, some,
  List, [], ◌∷◌, ◌++◌, map, arith, append_cons, ◌==◌, ==_iff, map_some, length, leb, Bool-cases,
  inl, inr, is_empty,
}
use polis_memory.Prelude.Text.{Text, codes}
use polis_memory.Query.{
  Chars, FtsPlan, double_quotes, quote, join, quote_prefix, min_prefix_len, plan_of, terms_of,
  extract_phrases, tokenize, plan_fts_query,
}
use polis_memory.Query.Grammar.{
  read_body, read_quoted, read_star, read_part, strip_prefix, read_match,
}

read_body_other :
    (c : ℕ) (s : Text)
    → (c == 34) ≡ false
    → read_body (c ∷ s) ≡ map_some (λ (r : Text × Text). (c ∷ r.0, r.1)) (read_body s)
unfolding read_body
read_body_other c [] q = rw (q, read_body) refl
read_body_other c (d ∷ s) q = rw (q, read_body) refl

-- The text does not go on with a quote, which would be read as part of the string.
abbrev pub EndsString : Text → Type 0
EndsString [] = Unit
EndsString (c ∷ s) = (c == 34) ≡ false

read_body_end : (rest : Text) → EndsString rest → read_body (34 ∷ rest) ≡ some ([], rest)
unfolding read_body
read_body_end [] e = refl
read_body_end (d ∷ s) e = rw (e, read_body) refl

read_body_two :
    (s : Text)
    → read_body (34 ∷ 34 ∷ s) ≡ map_some (λ (r : Text × Text). (34 ∷ r.0, r.1)) (read_body s)
unfolding read_body
read_body_two s = refl

read_body-double_quotes :
    (t rest : Text) → EndsString rest → read_body (double_quotes t ++ 34 ∷ rest) ≡ some (t, rest)
unfolding double_quotes
read_body-double_quotes [] rest e = read_body_end rest e
read_body-double_quotes (c ∷ t) rest e = elim (Bool-cases (c == 34)) [
  | inl quoted ↦
      rw (quoted, double_quotes)
        (read_body_two (double_quotes t ++ 34 ∷ rest)
          ∙ ap (map_some (λ (r : Text × Text). (34 ∷ r.0, r.1))) (read_body-double_quotes t rest e)
          ∙ ap (λ d. some (d ∷ t, rest)) (sym ((==_iff c 34).0 quoted)))
  | inr other ↦
      rw (other, double_quotes)
        (read_body_other c (double_quotes t ++ 34 ∷ rest) other
          ∙ ap (map_some (λ (r : Text × Text). (c ∷ r.0, r.1))) (read_body-double_quotes t rest e))
]

-- Whatever a term holds, its quoted form is read as one string with just that content, and the
-- reader stops at its closing quote, if no quote follows.
pub read_quoted-quote :
    (t rest : Text) → EndsString rest → read_quoted (quote t ++ rest) ≡ some (t, rest)
unfolding read_quoted quote
read_quoted-quote t rest e =
    ap read_body (append_cons (double_quotes t) 34 rest) ∙ read_body-double_quotes t rest e

abbrev pub print : Text × Bool → Text
print (t, false) = quote t
print (t, true) = quote t ++ 42 ∷ []

-- The text is empty or goes on with a space.
abbrev EndsPart : Text → Type 0
EndsPart [] = Unit
EndsPart (c ∷ s) = c ≡ 32

part_of :
    (t s : Text)
    → EndsPart s
    → map_some (λ (r : Text × Text). read_star r.0 r.1) (some (t, s)) ≡ some ((t, false), s)
part_of t [] e = refl
part_of t (c ∷ s) e =
    ap (λ d. map_some (λ (r : Text × Text). read_star r.0 r.1) (some (t, d ∷ s))) e
    ∙ ap (λ d. some ((t, false), d ∷ s)) (sym e)

ends_string : (s : Text) → EndsPart s → EndsString s
ends_string [] e = tt
ends_string (c ∷ s) e = ground (arith, e)

read_part-print : (p : Text × Bool) (s : Text) → EndsPart s → read_part (print p ++ s) ≡ some (p, s)
unfolding read_part
read_part-print (t, false) s e =
    ap (map_some (λ (r : Text × Text). read_star r.0 r.1)) (read_quoted-quote t s (ends_string s e))
    ∙ part_of t s e
read_part-print (t, true) s e =
    ap (λ u. map_some (λ (r : Text × Text). read_star r.0 r.1) (read_quoted u))
      (append_cons (quote t) 42 s)
    ∙ ap (map_some (λ (r : Text × Text). read_star r.0 r.1)) (read_quoted-quote t (42 ∷ s) refl)

strip_prefix-append : (p s : Text) → strip_prefix p (p ++ s) ≡ some s
unfolding strip_prefix
strip_prefix-append [] s = refl
strip_prefix-append (c ∷ p) s = rw ((==_iff c c).1 refl, strip_prefix) (strip_prefix-append p s)

append_none : (s : Text) → s ++ [] ≡ s
append_none [] = refl
append_none (c ∷ s) = ap (λ t. c ∷ t) (append_none s)

-- A joined list of quoted strings is read back as that list, where the keyword begins with a space.
read_match-join :
    (sep : Text) (p : Text × Bool) (ps : List (Text × Bool)) (fuel : ℕ)
    → length ps < fuel
    → read_match (32 ∷ sep) fuel (join (32 ∷ sep) (map print (p ∷ ps))) ≡ some (p ∷ ps)
unfolding join read_match
read_match-join sep p ps zero lt = absurd (omega (arith, lt))
read_match-join sep p [] (suc fuel) lt =
    rw (ap read_part (sym (append_none (print p))) ∙ read_part-print p [] tt, read_match) refl
read_match-join sep p (q ∷ ps) (suc fuel) lt =
    rw
      (
        read_part-print p (32 ∷ sep ++ join (32 ∷ sep) (map print (q ∷ ps))) refl,
        strip_prefix-append (32 ∷ sep) (join (32 ∷ sep) (map print (q ∷ ps))),
        read_match-join sep q ps fuel (omega (arith, lt)),
        read_match,
      )
      refl

-- What a plan's two MATCH strings are meant to say.
abbrev pub and_parts : FtsPlan → List (Text × Bool)
and_parts plan = map (λ t. (t, false)) plan.phrases ++ map (λ t. (t, false)) plan.terms

abbrev pub or_parts : FtsPlan → List (Text × Bool)
or_parts plan =
    map (λ t. (t, false)) plan.phrases ++ map (λ t. (t, leb min_prefix_len (length t))) plan.terms

print_both :
    (chars : Chars) (prefixed : Text → Bool) (f : Text → Text) (phrases terms : List Text)
    → ((t : Text) → print (t, prefixed t) ≡ f t)
    → map print (map (λ t. (t, false)) phrases ++ map (λ t. (t, prefixed t)) terms)
      ≡ map quote phrases ++ map f terms
print_both chars prefixed f [] [] e = refl
print_both chars prefixed f [] (t ∷ terms) e = λ i. e t i ∷ print_both chars prefixed f [] terms e i
print_both chars prefixed f (t ∷ phrases) terms e =
    ap (λ ts. quote t ∷ ts) (print_both chars prefixed f phrases terms e)

read_match-parts :
    (sep : Text) (parts : List (Text × Bool)) (printed : List Text)
    → is_empty parts ≡ false
    → map print parts ≡ printed
    → read_match (32 ∷ sep) (length parts + 1) (join (32 ∷ sep) printed) ≡ some parts
read_match-parts sep [] printed e q = cc
read_match-parts sep (p ∷ ps) printed e q =
    ap (λ ts. read_match (32 ∷ sep) (length (p ∷ ps) + 1) (join (32 ∷ sep) ts)) (sym q)
    ∙ read_match-join sep p ps (length (p ∷ ps) + 1) (omega arith)

module _ (chars : Chars) where
  print_prefix : (t : Text) → print (t, leb min_prefix_len (length t)) ≡ quote_prefix t
  print_prefix t = elim (Bool-cases (leb min_prefix_len (length t))) [
    | inl long ↦ rw long refl
    | inr short ↦ rw short refl
  ]

  some_part :
      (f g : Text → Text × Bool) (phrases terms : List Text)
      → (is_empty terms && is_empty phrases) ≡ false
      → is_empty (map f phrases ++ map g terms) ≡ false
  some_part f g [] [] e = cc
  some_part f g [] (t ∷ terms) e = refl
  some_part f g (p ∷ phrases) terms e = refl

  abbrev pub ReadsBack : Option FtsPlan → Type 0
  ReadsBack none = Unit
  ReadsBack (some plan) =
      (read_match (codes " AND ") (length (and_parts plan) + 1) plan.and_match
        ≡ some (and_parts plan))
      × (read_match (codes " OR ") (length (or_parts plan) + 1) plan.or_match
          ≡ some (or_parts plan))

  plan_of-ReadsBack : (phrases tokens : List Text) → ReadsBack (plan_of chars phrases tokens)
  unfolding plan_of
  plan_of-ReadsBack phrases tokens =
      let terms = terms_of tokens in
      elim (Bool-cases (is_empty terms && is_empty phrases)) [
        | inl nothing ↦ rw (nothing, ReadsBack, plan_of) tt
        | inr something ↦
            rw (something, ReadsBack, plan_of)
              (
                read_match-parts (codes "AND ") _ (map quote phrases ++ map quote terms)
                    (some_part (λ t. (t, false)) (λ t. (t, false)) phrases terms something)
                    (print_both chars (λ t. false) quote phrases terms (λ t. refl)),
                read_match-parts (codes "OR ") _ (map quote phrases ++ map (quote_prefix) terms)
                    (some_part (λ t. (t, false)) (λ t. (t, leb min_prefix_len (length t))) phrases
                      terms something)
                    (print_both chars (λ t. leb min_prefix_len (length t)) (quote_prefix) phrases
                      terms print_prefix),
              )
      ]

  -- Whatever the query holds, the MATCH strings of its plan are read by the grammar as nothing but
  -- quoted strings: the AND string as the plan's phrases and terms, in order, and the OR string as
  -- the same, with a prefix star on the terms of four characters or more.
  pub plan_fts_query-ReadsBack : (raw : Text) → ReadsBack (plan_fts_query chars raw)
  unfolding plan_fts_query
  plan_fts_query-ReadsBack raw =
      plan_of-ReadsBack (extract_phrases chars raw).0 (tokenize chars (extract_phrases chars raw).1)
