-- ===== src/Chunks/Cover.antt =====
-- The chunks of a text: slices of it, none too long, that miss only white space.
use polis_memory.Prelude.{
  ℕ, zero, suc, ◌+◌, ◌-◌, ◌≤◌, ◌<◌, max, ◌≡◌, refl, ap, sym, ◌∙◌, ◌⊎◌, inl, inr, Bool, true, false,
  not, some, List, [], ◌∷◌, arith, leb, ltb, length, take, drop, get_elem?, any, is_empty,
  Bool-cases, if◌then◌else◌, All,
}
use polis_memory.Prelude.Text.{Text, is_whitespace, trim, trim_start}
use mathlib.Core.List.{reverse_aux}
use polis_memory.Chunks.{
  Chunk, slice, chunk_max, chunk_overlap, opening_chars, end_of, chunks_from, opening_chunk,
  chunk_text,
}
use polis_memory.Chunks.Breaks.{end_of_range}

abbrev is_visible : ℕ → Bool
is_visible c = not (is_whitespace c)

any-reverse_aux :
    (p : ℕ → Bool) (s t : Text)
    → (any p s ≡ true) ⊎ (any p t ≡ true)
    → any p (reverse_aux s t) ≡ true
unfolding any
any-reverse_aux p [] t (inl q) = cc
any-reverse_aux p [] t (inr q) = q
any-reverse_aux p (c ∷ s) t (inl q) = elim (Bool-cases (p c)) [
  | inl now ↦ any-reverse_aux p s (c ∷ t) (inr (rw (now, any) refl))
  | inr later ↦ any-reverse_aux p s (c ∷ t) (inl (rw (later, any) at q))
]
any-reverse_aux p (c ∷ s) t (inr q) = elim (Bool-cases (p c)) [
  | inl now ↦ any-reverse_aux p s (c ∷ t) (inr (rw (now, any) refl))
  | inr later ↦ any-reverse_aux p s (c ∷ t) (inr (rw (later, any) q))
]

any-trim_start : (s : Text) → any is_visible s ≡ true → any is_visible (trim_start s) ≡ true
unfolding any trim_start
any-trim_start [] q = cc
any-trim_start (c ∷ s) q = elim (Bool-cases (is_whitespace c)) [
  | inl blank ↦ rw (blank, trim_start) (any-trim_start s (rw (blank, any) at q))
  | inr visible ↦ rw (visible, trim_start) q
]

any-trim : (s : Text) → any is_visible s ≡ true → is_empty (trim s) ≡ false
unfolding any trim
any-trim s q = not_empty (trim s) (
    any-reverse_aux is_visible _ [] (
      inl (
        any-trim_start _
          (any-reverse_aux is_visible (trim_start s) [] (inl (any-trim_start s q))))))
  where
    not_empty : (t : Text) → any is_visible t ≡ true → is_empty t ≡ false
    not_empty [] e = cc
    not_empty (c ∷ t) e = refl

any_at :
    (s : Text) (j c : ℕ)
    → get_elem? s j ≡ some c
    → is_whitespace c ≡ false
    → any is_visible s ≡ true
unfolding any
any_at [] j c q v = cc
any_at (d ∷ s) zero c q v = ground (arith, q, v)
any_at (d ∷ s) (suc j) c q v = ground (arith, any_at s j c q v)

get_elem?-slice :
    (chars : Text) (a b i : ℕ)
    → a ≤ i
    → i < b
    → get_elem? (slice chars a b) (i - a) ≡ get_elem? chars i
get_elem?-slice chars a b i le lt =
    taken (b - a) (i - a) (drop a chars) (omega (arith, le, lt)) ∙ dropped a i chars le
  where
    taken : (n j : ℕ) (s : Text) → j < n → get_elem? (take n s) j ≡ get_elem? s j
    taken zero j s q = absurd (omega (arith, q))
    taken (suc n) j [] q = refl
    taken (suc n) zero (c ∷ s) q = refl
    taken (suc n) (suc j) (c ∷ s) q = taken n j s (omega (arith, q))

    dropped : (n k : ℕ) (s : Text) → n ≤ k → get_elem? (drop n s) (k - n) ≡ get_elem? s k
    dropped zero k s q = ap (get_elem? s) (omega arith)
    dropped (suc n) k [] q = refl
    dropped (suc n) zero (c ∷ s) q = absurd (omega (arith, q))
    dropped (suc n) (suc k) (c ∷ s) q =
        ap (get_elem? (drop n s)) (omega arith) ∙ dropped n k s (omega (arith, q))

-- The chunk is the slice that its offsets name, inside the text, and not too long.
abbrev pub IsSlice : Text → Chunk → Type 0
IsSlice chars k =
    (k.text ≡ slice chars k.char_start (k.char_start + k.char_len))
    × (k.char_len ≤ chunk_max)
    × (k.char_start + k.char_len ≤ length chars)

-- One of the chunks covers the position `i`.
data Reaches (i : ℕ) : List Chunk → Type 0 where
  here :
      {k : Chunk} {ks : List Chunk}
      → k.char_start ≤ i
      → i < k.char_start + k.char_len
      → Reaches i (k ∷ ks)
  there : {k : Chunk} {ks : List Chunk} → Reaches i ks → Reaches i (k ∷ ks)

-- The text of one of the chunks has the character `c` where the text has position `i`.
pub data Covers (i c : ℕ) : List Chunk → Type 0 where
  held :
      {k : Chunk} {ks : List Chunk}
      → k.char_start ≤ i
      → i < k.char_start + k.char_len
      → get_elem? k.text (i - k.char_start) ≡ some c
      → Covers i c (k ∷ ks)
  elsewhere : {k : Chunk} {ks : List Chunk} → Covers i c ks → Covers i c (k ∷ ks)

Reaches-Covers :
    (chars : Text) (i c : ℕ) {ks : List Chunk}
    → get_elem? chars i ≡ some c
    → All (IsSlice chars) ks
    → Reaches i ks
    → Covers i c ks
Reaches-Covers chars i c q a (here {k = k} le lt) = held le lt (
    ap (λ (t : Text). get_elem? t (i - k.char_start)) a.0.0
    ∙ get_elem?-slice chars k.char_start (k.char_start + k.char_len) i le lt
    ∙ q)
Reaches-Covers chars i c q a (there r) = elsewhere (Reaches-Covers chars i c q a.1 r)

-- One turn of the loop: its chunk unless it is blank, then the rest unless this was the last.
abbrev assemble : Bool → Bool → Chunk → List Chunk → List Chunk
assemble blank last k ks =
    let rest : List Chunk = elim last [ true ↦ [] | false ↦ ks ] in if blank then rest else k ∷ rest

All-assemble :
    (chars : Text) (blank last : Bool) (k : Chunk) (ks : List Chunk)
    → IsSlice chars k
    → All (IsSlice chars) ks
    → All (IsSlice chars) (assemble blank last k ks)
All-assemble chars true true k ks s a = tt
All-assemble chars true false k ks s a = a
All-assemble chars false true k ks s a = (s, tt)
All-assemble chars false false k ks s a = (s, a)

Reaches-assemble :
    (i : ℕ) (blank last : Bool) (k : Chunk) (ks : List Chunk)
    → blank ≡ false
    → k.char_start ≤ i
    → i < k.char_start + k.char_len
    → Reaches i (assemble blank last k ks)
Reaches-assemble i true last k ks b le lt = cc
Reaches-assemble i false last k ks b le lt = here le lt

Reaches-assemble_later :
    (i : ℕ) (blank last : Bool) (k : Chunk) (ks : List Chunk)
    → last ≡ false
    → Reaches i ks
    → Reaches i (assemble blank last k ks)
Reaches-assemble_later i blank true k ks b c = cc
Reaches-assemble_later i true false k ks b c = c
Reaches-assemble_later i false false k ks b c = there c

chunks_from-IsSlice :
    (chars : Text) (ix start fuel : ℕ) → All (IsSlice chars) (chunks_from chars ix start fuel)
unfolding chunks_from
chunks_from-IsSlice chars ix start zero = tt
chunks_from-IsSlice chars ix start (suc fuel) = elim (Bool-cases (ltb start (length chars))) [
  | inr past ↦ rw (past, chunks_from) tt
  | inl inside ↦
      let end = end_of chars start in
      let range = end_of_range chars start (ground (arith, inside)) in
      let blank = is_empty (trim (slice chars start end)) in
      let more =
        chunks_from-IsSlice chars (if blank then ix else ix + 1)
          (max (end - chunk_overlap) (start + 1)) fuel in
      let whole : start + (end - start) ≡ end = omega (arith, range.0) in
      let piece : IsSlice chars (record {
        ix = ix;
        char_start = start;
        char_len = end - start;
        text = slice chars start end;
      }) =
        (
          ap (slice chars start) (sym whole),
          omega (arith, range.1),
          omega (arith, whole, range.2),
        ) in
      rw (inside, chunks_from) (All-assemble chars blank (leb (length chars) end) _ _ piece more)
]

chunks_from-Reaches :
    (chars : Text) (ix start fuel i c : ℕ)
    → length chars ≤ start + fuel
    → start ≤ i
    → get_elem? chars i ≡ some c
    → is_whitespace c ≡ false
    → i < length chars
    → Reaches i (chunks_from chars ix start fuel)
unfolding chunks_from
chunks_from-Reaches chars ix start zero i c enough le q v lt =
    absurd (omega (arith, enough, le, lt))
chunks_from-Reaches chars ix start (suc fuel) i c enough le q v lt =
    let inside : ltb start (length chars) ≡ true = ground (arith, le, lt) in
    let end = end_of chars start in
    let range = end_of_range chars start (omega (arith, le, lt)) in
    let blank = is_empty (trim (slice chars start end)) in
    let whole : start + (end - start) ≡ end = omega (arith, range.0) in
    elim (Bool-cases (leb end i)) [
      | inr here_now ↦
          let early : i < end = ground (arith, here_now) in
          let seen : blank ≡ false = any-trim (slice chars start end) (
            any_at (slice chars start end) (i - start) c
              (get_elem?-slice chars start end i le early ∙ q) v) in
          rw (inside, chunks_from)
            (Reaches-assemble i blank (leb (length chars) end) _ _ seen le
              (omega (arith, whole, early)))
      | inl later ↦
          let late : end ≤ i = ground (arith, later) in
          let goes_on : leb (length chars) end ≡ false = ground (arith, late, lt) in
          let next = max (end - chunk_overlap) (start + 1) in
          let more =
            chunks_from-Reaches chars (if blank then ix else ix + 1) next fuel i c
              (omega (arith, enough)) (omega (arith, late, range.0)) q v lt in
          rw (inside, chunks_from)
            (Reaches-assemble_later i blank (leb (length chars) end) _ _ goes_on more)
    ]

-- Every chunk is the slice of the text that its offsets name, within the text and of at most 1,200
-- characters.
pub chunk_text-IsSlice : (chars : Text) → All (IsSlice chars) (chunk_text chars)
unfolding chunk_text
chunk_text-IsSlice chars = elim (Bool-cases (is_empty chars)) [
  | inl nothing ↦ rw nothing tt
  | inr something ↦ elim (Bool-cases (leb (length chars) opening_chars)) [
    | inl short ↦ rw (something, short) (opening, tt)
    | inr long ↦ rw (something, long) (opening, chunks_from-IsSlice chars 1 0 (length chars))
  ]
]
  where
    opening : IsSlice chars (opening_chunk chars)
    opening = (ap (λ n. take n chars) (omega arith), omega arith, omega arith)

length_at : (s : Text) (i c : ℕ) → get_elem? s i ≡ some c → i < length s
length_at [] i c q = cc
length_at (d ∷ s) zero c q = omega arith
length_at (d ∷ s) (suc i) c q = omega (arith, length_at s i c q)

chunk_text-Reaches :
    (chars : Text) (i c : ℕ)
    → get_elem? chars i ≡ some c
    → is_whitespace c ≡ false
    → Reaches i (chunk_text chars)
unfolding chunk_text
chunk_text-Reaches chars i c q v =
    let lt = length_at chars i c q in
    let something : is_empty chars ≡ false = not_empty chars lt in
    elim (Bool-cases (leb (length chars) opening_chars)) [
      | inl short ↦ rw (something, short) (here (omega arith) (ground (arith, short, lt)))
      | inr long ↦
          rw (something, long)
            (there
              (chunks_from-Reaches chars 1 0 (length chars) i c (omega arith) (omega arith) q v lt))
    ]
  where
    not_empty : (s : Text) → i < length s → is_empty s ≡ false
    not_empty [] l = absurd (omega (arith, l))
    not_empty (d ∷ s) l = refl

-- No character is lost but white space: any other character of the text stands in the text of one of
-- the chunks, at its own distance from where that chunk starts. So the loop runs to the end of the
-- text.
pub chunk_text-Covers :
    (chars : Text) (i c : ℕ)
    → get_elem? chars i ≡ some c
    → is_whitespace c ≡ false
    → Covers i c (chunk_text chars)
chunk_text-Covers chars i c q v =
    Reaches-Covers chars i c q (chunk_text-IsSlice chars) (chunk_text-Reaches chars i c q v)
