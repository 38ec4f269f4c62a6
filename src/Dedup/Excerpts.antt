-- ===== src/Dedup/Excerpts.antt =====
-- `excerpt_around` and `per_hit_budget` of crates/polis-core/src/dedup.rs. The case mapping of
-- Unicode, `str::to_lowercase`, is a parameter.
use polis_memory.Prelude.{
  ℕ, zero, suc, ◌+◌, ◌-◌, ◌*◌, ◌/◌, ◌≤◌, ◌<◌, min, max, ◌≡◌, refl, ap, sym, subst, ◌∙◌, ◌⊎◌, inl,
  inr, Bool, true, false, Option, none, some, List, [], ◌∷◌, ◌++◌, map_some, if◌then◌else◌, length,
  length-take, length-drop, take, drop, is_empty, not, leb, ltb, ◌==◌, ◌&&◌, arith, Bool-cases,
  Option-cases,
}
use polis_memory.Prelude.Text.{Text}
use native.Mathlib.Nat.{mul-div-le, mul-le-mul_left}

unfoldable pub starts_with : Text → Text → Bool
starts_with [] s = true
starts_with (c ∷ p) [] = false
starts_with (c ∷ p) (d ∷ s) = c == d && starts_with p s

-- `str::find`, as a number of characters.
unfoldable pub find_text : Text → Text → Option ℕ
find_text p [] = if starts_with p [] then some 0 else none
find_text p (d ∷ s) =
    let later = find_text p s in if starts_with p (d ∷ s) then some 0 else map_some suc later

abbrev pub min_some : Option ℕ → Option ℕ → Option ℕ
min_some none o = o
min_some (some a) none = some a
min_some (some a) (some b) = some (min a b)

-- The earliest offset of a term that is not empty.
unfoldable pub first_hit : (Text → Text) → Text → List Text → Option ℕ
first_hit to_lowercase lower [] = none
first_hit to_lowercase lower (t ∷ terms) =
    let rest = first_hit to_lowercase lower terms in
    if not (is_empty t) then min_some (find_text (to_lowercase t) lower) rest else rest

abbrev pub ellipsis : ℕ
ellipsis = 0x2026

-- The window's start: centred on the hit, then inside the text.
abbrev pub start_of : ℕ → ℕ → ℕ → ℕ
start_of count budget hit = min (hit - budget / 2) (count - budget)

unfoldable pub excerpt_at : Text → ℕ → Option ℕ → Text
excerpt_at chars budget none = take budget chars ++ ellipsis ∷ []
excerpt_at chars budget (some hit) =
    let start = start_of (length chars) budget hit in
    let end = min (start + budget) (length chars) in
    (if ltb 0 start then ellipsis ∷ [] else [])
    ++ (take (end - start) (drop start chars)
        ++ (if ltb end (length chars) then ellipsis ∷ [] else []))

unfoldable pub excerpt_around : (Text → Text) → Text → List Text → ℕ → Text
excerpt_around to_lowercase text terms budget =
    if leb (length text) budget
    then text
    else excerpt_at text budget (first_hit to_lowercase (to_lowercase text) terms)

unfoldable pub per_hit_budget : ℕ → ℕ → ℕ
per_hit_budget max_context_bytes n_hits = max 600 (min (max_context_bytes / 2 / max n_hits 1) 4000)

-- An excerpt: a window of the text, an ellipsis on each side that is cut.
pub record Window (text : Text) (budget start : ℕ) (out : Text) : Type 0 where
  pub before : Text
  pub window : Text
  pub after : Text
  pub whole : text ≡ before ++ (window ++ after)
  pub begins : length before ≡ start
  pub fits : length window ≡ budget
  pub shows :
      out
      ≡ (if ltb 0 (length before) then ellipsis ∷ [] else [])
        ++ (window ++ (if ltb 0 (length after) then ellipsis ∷ [] else []))

take-drop : (n : ℕ) (s : Text) → s ≡ take n s ++ drop n s
take-drop zero s = refl
take-drop (suc n) [] = refl
take-drop (suc n) (c ∷ s) = ap (λ t. c ∷ t) (take-drop n s)

ltb_sub : (a b m : ℕ) → m ≡ b - a → ltb a b ≡ ltb 0 m
ltb_sub a b m q = ground (arith, q)

excerpt_at-Window :
    (chars : Text) (budget : ℕ) (hit : Option ℕ)
    → budget < length chars
    → Window chars budget
        (elim hit [ none ↦ 0 | some k ↦ start_of (length chars) budget k ])
        (excerpt_at chars budget hit)
unfolding excerpt_at
excerpt_at-Window chars budget none lt = record {
  before = [];
  window = take budget chars;
  after = drop budget chars;
  whole = take-drop budget chars;
  begins = refl;
  fits = omega (arith, length-take budget chars, lt);
  shows = ground (arith, length-drop budget chars, lt);
}
excerpt_at-Window chars budget (some hit) lt =
    let start = start_of (length chars) budget hit in
    let end = min (start + budget) (length chars) in
    let cut : end - start ≡ budget = omega (arith, lt) in
    let rest : length (drop start chars) ≡ length chars - start = length-drop start chars in
    let begin : length (take start chars) ≡ start = omega (arith, length-take start chars, lt) in
    let left : ltb 0 start ≡ ltb 0 (length (take start chars)) = ap (ltb 0) (sym begin) in
    let right : ltb end (length chars) ≡ ltb 0 (length (drop (end - start) (drop start chars))) =
      ltb_sub end (length chars) _
        (omega (arith, length-drop (end - start) (drop start chars), rest, cut, lt)) in
    record {
      before = take start chars;
      window = take (end - start) (drop start chars);
      after = drop (end - start) (drop start chars);
      whole =
          take-drop start chars
          ∙ ap (λ t. take start chars ++ t) (take-drop (end - start) (drop start chars));
      begins = begin;
      fits = omega (arith, length-take (end - start) (drop start chars), rest, cut, lt);
      shows = λ i.
          (if left i then ellipsis ∷ [] else [])
          ++ (take (end - start) (drop start chars) ++ (if right i then ellipsis ∷ [] else []));
    }

-- Of a text that is longer than the budget an excerpt shows a window of exactly that many
-- characters, with an ellipsis on each side where something is cut; a shorter text is shown whole.
pub excerpt_around-Window :
    (to_lowercase : Text → Text) (text : Text) (terms : List Text) (budget : ℕ)
    → ((length text ≤ budget) × (excerpt_around to_lowercase text terms budget ≡ text))
      ⊎ (Window text budget
          (elim (first_hit to_lowercase (to_lowercase text) terms) [
            | none ↦ 0
            | some k ↦ start_of (length text) budget k
          ])
          (excerpt_around to_lowercase text terms budget))
unfolding excerpt_around
excerpt_around-Window to_lowercase text terms budget =
    elim (Bool-cases (leb (length text) budget)) [
      | inl short ↦ inl (ground (arith, short), rw short refl)
      | inr long ↦ inr (
          rw long (
            excerpt_at-Window text budget (first_hit to_lowercase (to_lowercase text) terms)
              (ground (arith, long))))
    ]

starts_with-le : (p s : Text) → starts_with p s ≡ true → length p ≤ length s
unfolding starts_with
starts_with-le [] s q = omega arith
starts_with-le (c ∷ p) [] q = cc
starts_with-le (c ∷ p) (d ∷ s) q = ground (arith, starts_with-le p s)

find_text-le : (p s : Text) (k : ℕ) → find_text p s ≡ some k → k + length p ≤ length s
unfolding find_text
find_text-le p [] k q = ground (arith, q, starts_with-le p [])
find_text-le p (d ∷ s) k q = elim (Bool-cases (starts_with p (d ∷ s))) [
  | inl at_once ↦ ground (arith, q, at_once, starts_with-le p (d ∷ s) at_once)
  | inr later ↦ elim (Option-cases (find_text p s)) [
    | inl absent ↦ ground (arith, q, later, absent)
    | inr (j, found) ↦ ground (arith, q, later, found, find_text-le p s j found)
  ]
]

length-pos : (t : Text) → is_empty t ≡ false → 0 < length t
length-pos [] q = cc
length-pos (c ∷ t) q = omega arith

first_hit-lt :
    (to_lowercase : Text → Text) (lower : Text) (terms : List Text) (k : ℕ)
    → ((t : Text) → length (to_lowercase t) ≡ length t)
    → first_hit to_lowercase lower terms ≡ some k
    → k < length lower
unfolding first_hit
first_hit-lt to_lowercase lower [] k same q = cc
first_hit-lt to_lowercase lower (t ∷ terms) k same q = elim (Bool-cases (is_empty t)) [
  | inl skip ↦ first_hit-lt to_lowercase lower terms k same (rw skip at q)
  | inr term ↦
      merged (find_text (to_lowercase t) lower) (first_hit to_lowercase lower terms) k
        (rw term at q)
        (λ j e. omega (arith, find_text-le (to_lowercase t) lower j e, same t, length-pos t term))
        (λ j e. first_hit-lt to_lowercase lower terms j same e)
]
  where
    merged :
        (a b : Option ℕ) (j : ℕ)
        → min_some a b ≡ some j
        → ((i : ℕ) → a ≡ some i → i < length lower)
        → ((i : ℕ) → b ≡ some i → i < length lower)
        → j < length lower
    merged none b j e f g = g j e
    merged (some x) none j e f g = f j e
    merged (some x) (some y) j e f g = ground (arith, e, f x refl, g y refl)

-- If the case mapping keeps the number of characters, the window of a match holds the match's first
-- character: the window starts at or before it and ends after it.
pub start_of-holds_hit :
    (to_lowercase : Text → Text) (text : Text) (terms : List Text) (budget k : ℕ)
    → ((t : Text) → length (to_lowercase t) ≡ length t)
    → 0 < budget
    → budget < length text
    → first_hit to_lowercase (to_lowercase text) terms ≡ some k
    → (start_of (length text) budget k ≤ k) × (k < start_of (length text) budget k + budget)
start_of-holds_hit to_lowercase text terms budget k same pos lt q =
    let inside = first_hit-lt to_lowercase (to_lowercase text) terms k same q in
    let size = same text in (omega arith, omega (arith, inside, size, pos, lt))

share_le : (n q total : ℕ) → n * q ≤ total → n * max 600 (min q 4000) ≤ max (n * 600) total
share_le n q total le = elim (Bool-cases (leb 600 (min q 4000))) [
  | inl more ↦ omega (
    arith,
    le,
    ap (λ v. n * v) (larger more),
    mul-le-mul_left {m = min q 4000} {n = q} n (omega arith),
  )
  | inr less ↦ omega (arith, ap (λ v. n * v) (smaller less))
]
  where
    larger : leb 600 (min q 4000) ≡ true → max 600 (min q 4000) ≡ min q 4000
    larger more = ground (arith, more)

    smaller : leb 600 (min q 4000) ≡ false → max 600 (min q 4000) ≡ 600
    smaller less = ground (arith, less)

divided : (n total : ℕ) → n * (total / max n 1) ≤ total
divided zero total = omega arith
divided (suc n) total =
    subst (λ d. suc n * (total / d) ≤ total) (omega arith) (mul-div-le total (suc n))

-- A hit's share of the byte budget is from 600 to 4000 characters, and the shares of all hits come
-- to at most half of the budget, or to 600 each where that is more.
pub per_hit_budget_bounds :
    (max_context_bytes n_hits : ℕ)
    → (600 ≤ per_hit_budget max_context_bytes n_hits)
      × (per_hit_budget max_context_bytes n_hits ≤ 4000)
      × (n_hits * per_hit_budget max_context_bytes n_hits
          ≤ max (n_hits * 600) (max_context_bytes / 2))
unfolding per_hit_budget
per_hit_budget_bounds max_context_bytes n_hits = (
  omega arith,
  omega arith,
  share_le n_hits (max_context_bytes / 2 / max n_hits 1) (max_context_bytes / 2)
      (divided n_hits (max_context_bytes / 2)),
)
