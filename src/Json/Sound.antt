-- ===== src/Json/Sound.antt =====
-- Where the scan from an opening brace ends, a balanced object ends.
use polis_memory.Prelude.{
  append_assoc, ℕ, zero, suc, ◌+◌, ◌≤◌, ◌≡◌, sym, ap, ◌∙◌, subst, true, false, some, List, [], ◌∷◌,
  ◌++◌, ◌==◌, ==_iff, arith, length, length-append, drop, pos, ℤ, Bool-cases, inl, inr,
}
use polis_memory.Json.{
  backslash, close_brace, inside, matching_brace, open_brace, outside, quote, scan,
}
use polis_memory.Json.Objects.{
  Body, Quoted, byte, char, escape, last_quote, nothing, object, string,
}

-- A scan from inside a string: the string, and the scan after it.
record Ends (d : ℤ) (i e : ℕ) (bs : List ℕ) : Type 0 where
  text : List ℕ
  rest : List ℕ
  split : bs ≡ text ++ rest
  quoted : Quoted text
  goes : scan outside d (i + length text) rest ≡ some e

is : (b c : ℕ) (bs : List ℕ) → (b == c) ≡ true → b ∷ bs ≡ c ∷ bs
is b c bs e = ap (λ (n : ℕ). n ∷ bs) ((==_iff b c).0 e)

quote-Ends :
    (d : ℤ) (i e b : ℕ) (bs : List ℕ)
    → (b == quote) ≡ true
    → scan outside d (suc i) bs ≡ some e
    → Ends d i e (b ∷ bs)
quote-Ends d i e b bs q h = record {
  text = quote ∷ [];
  rest = bs;
  split = is b quote bs q;
  quoted = last_quote;
  goes = ap (λ (n : ℕ). scan outside d n bs) (omega arith) ∙ h;
}

one_byte-Ends : (d : ℤ) (i e b : ℕ) → scan inside d i (b ∷ []) ≡ some e → Ends d i e (b ∷ [])
unfolding scan
one_byte-Ends d i e b h = cc

scan_inside-Ends : (d : ℤ) (i e : ℕ) (bs : List ℕ) → scan inside d i bs ≡ some e → Ends d i e bs
unfolding scan
scan_inside-Ends d i e [] h = cc
scan_inside-Ends d i e (b ∷ []) h = one_byte-Ends d i e b h
scan_inside-Ends d i e (b ∷ c ∷ bs) h = elim (Bool-cases (b == backslash)) [
  | inl esc ↦
      let r = scan_inside-Ends d (suc (suc i)) e bs (ground (arith, h, esc)) in
      record {
        text = backslash ∷ (c ∷ r.text);
        rest = r.rest;
        split = is b backslash (c ∷ bs) esc ∙ ap (λ (xs : List ℕ). backslash ∷ (c ∷ xs)) r.split;
        quoted = escape c r.text r.quoted;
        goes = ap (λ (n : ℕ). scan outside d n r.rest) (omega arith) ∙ r.goes;
      }
  | inr plain ↦ elim (Bool-cases (b == quote)) [
    | inl q ↦ quote-Ends d i e b (c ∷ bs) q (ground (arith, h, plain, q))
    | inr nq ↦
        let r = scan_inside-Ends d (suc i) e (c ∷ bs) (ground (arith, h, plain, nq)) in
        record {
          text = b ∷ r.text;
          rest = r.rest;
          split = ap (λ (xs : List ℕ). b ∷ xs) r.split;
          quoted = char b r.text plain nq r.quoted;
          goes = ap (λ (n : ℕ). scan outside d n r.rest) (omega arith) ∙ r.goes;
        }
  ]
]

-- What follows the closing brace at depth `d`.
abbrev Follows : ℕ → ℕ → ℕ → List ℕ → Type 0
Follows zero j e rest = e ≡ j
Follows (suc d) j e rest = scan outside (pos (suc d)) (suc j) rest ≡ some e

record Closed (d i e : ℕ) (bs : List ℕ) : Type 0 where
  body : List ℕ
  rest : List ℕ
  split : bs ≡ body ++ (close_brace ∷ rest)
  balanced : Body body
  follows : Follows d (i + length body) e rest

moved : (d i j e : ℕ) (rest : List ℕ) → i ≡ j → Follows d i e rest → Follows d j e rest
moved d i j e rest p f = subst (λ (n : ℕ). Follows d n e rest) p f

closed_here :
    (d i e : ℕ) (bs : List ℕ)
    → scan outside (pos (suc d)) i (close_brace ∷ bs) ≡ some e
    → Follows d (i + 0) e bs
unfolding scan
closed_here zero i e bs h = ground (arith, h)
closed_here (suc d) i e bs h =
    ap (λ (n : ℕ). scan outside (pos (suc d)) (suc n) bs) (omega arith) ∙ h

shorter : (n : ℕ) (xs ys bs : List ℕ) → bs ≡ xs ++ ys → length bs ≤ n → length ys ≤ n
shorter n xs ys bs e le = omega (arith, ap length e, length-append xs ys)

with_string :
    (d i e b : ℕ) (bs : List ℕ)
    → (b == quote) ≡ true
    → (s : Ends (pos (suc d)) (suc i) e bs) → Closed d (suc i + length s.text) e s.rest
    → Closed d i e (b ∷ bs)
with_string d i e b bs q s r = record {
  body = quote ∷ (s.text ++ r.body);
  rest = r.rest;
  split =
      is b quote bs q
      ∙ ap (λ (xs : List ℕ). quote ∷ xs)
          (s.split
            ∙ ap (λ (xs : List ℕ). s.text ++ xs) r.split
            ∙ sym (append_assoc s.text r.body (close_brace ∷ r.rest)));
  balanced = string s.text r.body s.quoted r.balanced;
  follows =
      moved d (suc i + length s.text + length r.body) (i + suc (length (s.text ++ r.body))) e r.rest
        (omega (arith, length-append s.text r.body)) r.follows;
}

with_object :
    (d i e b : ℕ) (bs : List ℕ)
    → (b == open_brace) ≡ true
    → (s : Closed (suc d) (suc i) e bs) → Closed d (suc (suc i + length s.body)) e s.rest
    → Closed d i e (b ∷ bs)
with_object d i e b bs o s r = record {
  body = open_brace ∷ (s.body ++ (close_brace ∷ r.body));
  rest = r.rest;
  split =
      is b open_brace bs o
      ∙ ap (λ (xs : List ℕ). open_brace ∷ xs)
          (s.split
            ∙ ap (λ (xs : List ℕ). s.body ++ (close_brace ∷ xs)) r.split
            ∙ sym (append_assoc s.body (close_brace ∷ r.body) (close_brace ∷ r.rest)));
  balanced = object s.body r.body s.balanced r.balanced;
  follows =
      moved d (suc (suc i + length s.body) + length r.body)
        (i + suc (length (s.body ++ (close_brace ∷ r.body)))) e r.rest
        (omega (arith, length-append s.body (close_brace ∷ r.body))) r.follows;
}

with_byte :
    (d i e b : ℕ) (bs : List ℕ)
    → (b == quote) ≡ false
    → (b == open_brace) ≡ false
    → (b == close_brace) ≡ false
    → Closed d (suc i) e bs
    → Closed d i e (b ∷ bs)
with_byte d i e b bs nq nopen nc r = record {
  body = b ∷ r.body;
  rest = r.rest;
  split = ap (λ (xs : List ℕ). b ∷ xs) r.split;
  balanced = byte b r.body nq nopen nc r.balanced;
  follows =
      moved d (suc i + length r.body) (i + suc (length r.body)) e r.rest (omega arith) r.follows;
}

with_close :
    (d i e b : ℕ) (bs : List ℕ)
    → (b == close_brace) ≡ true
    → scan outside (pos (suc d)) i (b ∷ bs) ≡ some e
    → Closed d i e (b ∷ bs)
with_close d i e b bs c h = record {
  body = [];
  rest = bs;
  split = is b close_brace bs c;
  balanced = nothing;
  follows =
      closed_here d i e bs (
        subst (λ (xs : List ℕ). scan outside (pos (suc d)) i xs ≡ some e) (is b close_brace bs c)
          h);
}

closed :
    (n d i e : ℕ) (bs : List ℕ)
    → length bs ≤ n
    → scan outside (pos (suc d)) i bs ≡ some e
    → Closed d i e bs
unfolding scan
closed n d i e [] le h = cc
closed zero d i e (b ∷ bs) le h = absurd (omega (arith, le))
closed (suc n) d i e (b ∷ bs) le h = elim (Bool-cases (b == quote)) [
  | inl q ↦
      let s = scan_inside-Ends (pos (suc d)) (suc i) e bs (ground (arith, h, q)) in
      with_string d i e b bs q s (
        closed n d (suc i + length s.text) e s.rest
          (shorter n s.text s.rest bs s.split (omega (arith, le))) s.goes)
  | inr nq ↦ elim (Bool-cases (b == open_brace)) [
    | inl o ↦
        let s = closed n (suc d) (suc i) e bs (omega (arith, le)) (ground (arith, h, nq, o)) in
        with_object d i e b bs o s (
          closed n d (suc (suc i + length s.body)) e s.rest
            (omega (arith, shorter n s.body (close_brace ∷ s.rest) bs s.split (omega (arith, le))))
            s.follows)
    | inr nopen ↦ elim (Bool-cases (b == close_brace)) [
      | inl c ↦ with_close d i e b bs c h
      | inr nc ↦
          with_byte d i e b bs nq nopen nc
            (closed n d (suc i) e bs (omega (arith, le)) (ground (arith, h, nq, nopen, nc)))
    ]
  ]
]

-- The object that starts at `start` ends at `e`.
pub record Whole (start e : ℕ) (tail : List ℕ) : Type 0 where
  pub body : List ℕ
  pub after : List ℕ
  pub split : tail ≡ body ++ (close_brace ∷ after)
  pub balanced : Body body
  pub ends : e ≡ start + 1 + length body

opened :
    (start e : ℕ) (tail : List ℕ)
    → scan outside (pos 0) start (open_brace ∷ tail) ≡ some e
    → scan outside (pos 1) (suc start) tail ≡ some e
unfolding scan
opened start e tail h = h

-- Where the scan from an opening brace answers an index, the bytes up to it are a balanced object:
-- its strings are closed, its braces outside strings match, and the index is that of its own brace.
pub matching_brace_sound :
    (bytes tail : List ℕ) (start e : ℕ)
    → drop start bytes ≡ open_brace ∷ tail
    → matching_brace bytes start ≡ some e
    → Whole start e tail
unfolding matching_brace
matching_brace_sound bytes tail start e here h =
    let r =
      closed (length tail) 0 (suc start) e tail (omega arith)
        (opened start e tail (ap (scan outside (pos 0) start) (sym here) ∙ h)) in
    record {
      body = r.body;
      after = r.rest;
      split = r.split;
      balanced = r.balanced;
      ends = r.follows ∙ omega arith;
    }
