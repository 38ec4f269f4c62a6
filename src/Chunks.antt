-- ===== src/Chunks.antt =====
-- crates/polis-core/src/vec.rs: a text is split into chunks to embed. Offsets count characters, but
-- `find` counts bytes, as the source has it.
pub mod Breaks
pub mod Cover
pub mod Tests
use polis_memory.Prelude.{
  ℕ, zero, suc, ◌+◌, ◌-◌, min, max, Bool, true, false, not, ◌&&◌, ◌||◌, Option, none, some, List,
  [], ◌∷◌, ◌++◌, is_empty, if◌then◌else◌, length, take, drop, get_elem?, leb, ltb, ◌==◌,
}
use polis_memory.Prelude.Text.{Text, is_whitespace, trim}
use polis_memory.Dedup.Simhash.{utf8}

abbrev pub chunk_target : ℕ
chunk_target = 800

abbrev pub chunk_max : ℕ
chunk_max = 1200

abbrev pub chunk_overlap : ℕ
chunk_overlap = 150

abbrev pub opening_chars : ℕ
opening_chars = 400

pub record Chunk : Type 0 where
  pub ix : ℕ
  pub char_start : ℕ
  pub char_len : ℕ
  pub text : Text

-- `chars[a..b]`.
abbrev pub slice : Text → ℕ → ℕ → Text
slice chars a b = take (b - a) (drop a chars)

-- The bytes before the first fence of three backticks, and the text after it.
unfoldable pub find_fence : ℕ → Text → Option (ℕ × Text)
find_fence before (a ∷ b ∷ c ∷ s) =
    let later = find_fence (before + length (utf8 a)) (b ∷ c ∷ s) in
    if a == 96 && (b == 96 && c == 96) then some (before, s) else later
find_fence before _ = none

-- The offset after a fence that closes, both found in bytes.
unfoldable pub fence_end : Text → Option ℕ
fence_end window = elim (find_fence 0 window) [
  | none ↦ none
  | some (opening, rest) ↦ elim (find_fence 0 rest) [
    | none ↦ none
    | some (closing, after) ↦ some (opening + 3 + closing + 3)
  ]
]

abbrev pub is_char : ℕ → Option ℕ → Bool
is_char c none = false
is_char c (some d) = c == d

-- `chars.get(i).is_none_or(whitespace)`.
abbrev pub ends_word : Option ℕ → Bool
ends_word none = true
ends_word (some c) = is_whitespace c

abbrev pub is_sentence_end : Option ℕ → Bool
is_sentence_end none = false
is_sentence_end (some c) = c == 46 || c == 33 || c == 63

-- The first index of a range, given by its start and its length, that passes the test.
unfoldable pub first_in : (ℕ → Bool) → ℕ → ℕ → Option ℕ
first_in test i zero = none
first_in test i (suc count) =
    let later = first_in test (i + 1) count in if test i then some i else later

abbrev pub is_paragraph_break : Text → ℕ → Bool
is_paragraph_break chars i = is_char 10 (get_elem? chars i) && is_char 10 (get_elem? chars (i + 1))

abbrev pub is_sentence_break : Text → ℕ → Bool
is_sentence_break chars i =
    is_sentence_end (get_elem? chars i) && ends_word (get_elem? chars (i + 1))

abbrev pub break_at : Text → ℕ → ℕ → ℕ
break_at chars target hard = elim (first_in (is_paragraph_break chars) target (hard - 1 - target)) [
  | some i ↦ i + 2
  | none ↦ elim (first_in (is_sentence_break chars) target (hard - target)) [
    | some i ↦ i + 1
    | none ↦ hard
  ]
]

unfoldable pub find_break : Text → ℕ → ℕ → ℕ → ℕ
find_break chars start target hard = elim (fence_end (slice chars start hard)) [
  | none ↦ break_at chars target hard
  | some after ↦
      if ltb target (start + after) && leb (start + after) hard
      then start + after
      else break_at chars target hard
]

abbrev pub end_of : Text → ℕ → ℕ
end_of chars start =
    let hard_end = min (start + chunk_max) (length chars) in
    let target_end = min (start + chunk_target) (length chars) in
    if hard_end == length chars then length chars else find_break chars start target_end hard_end

-- The loop from `start`, where `ix` chunks are out already.
unfoldable pub chunks_from : Text → ℕ → ℕ → ℕ → List Chunk
chunks_from chars ix start zero = []
chunks_from chars ix start (suc fuel) = elim (ltb start (length chars)) [
  | false ↦ []
  | true ↦
      let end = end_of chars start in
      let blank = is_empty (trim (slice chars start end)) in
      let rest : List Chunk = elim (leb (length chars) end) [
        | true ↦ []
        | false ↦
            chunks_from chars (if blank then ix else ix + 1) (max (end - chunk_overlap) (start + 1))
              fuel
      ] in
      if blank
      then rest
      else record {
        ix = ix;
        char_start = start;
        char_len = end - start;
        text = slice chars start end;
      }
        ∷ rest
]

abbrev pub opening_chunk : Text → Chunk
opening_chunk chars =
    let opening_len = min opening_chars (length chars) in
    record { ix = 0; char_start = 0; char_len = opening_len; text = take opening_len chars }

unfoldable pub chunk_text : Text → List Chunk
chunk_text chars =
    if is_empty chars
    then []
    else if leb (length chars) opening_chars
    then opening_chunk chars ∷ []
    else opening_chunk chars ∷ chunks_from chars 1 0 (length chars)
