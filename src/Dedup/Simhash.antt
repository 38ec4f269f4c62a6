-- ===== src/Dedup/Simhash.antt =====
-- `simhash`, `fnv1a` and `near_duplicate` of crates/polis-core/src/dedup.rs. Votes are counted
-- without the bound of an i32, which 2^31 shingles would pass.
use polis_memory.Prelude.{
  ℕ, zero, suc, ◌+◌, ◌*◌, ◌/◌, ◌%◌, ◌^◌, Bool, true, false, ◌&&◌, List, [], ◌∷◌, ◌++◌, map, leb,
  ltb, if◌then◌else◌, length, take, is_empty,
}
use polis_memory.Prelude.Text.{Text, is_whitespace}
use Prim.Native.Nat.{bit_xor}

-- The UTF-8 bytes of a character, and of a text.
abbrev pub utf8 : ℕ → List ℕ
utf8 c =
    if ltb c 0x80
    then c ∷ []
    else if ltb c 0x800
    then (0xC0 + c / 64) ∷ (0x80 + c % 64) ∷ []
    else if ltb c 0x10000
    then (0xE0 + c / 4096) ∷ (0x80 + c / 64 % 64) ∷ (0x80 + c % 64) ∷ []
    else (0xF0 + c / 262144) ∷ (0x80 + c / 4096 % 64) ∷ (0x80 + c / 64 % 64) ∷ (0x80 + c % 64) ∷ []

abbrev pub bytes : Text → List ℕ
bytes [] = []
bytes (c ∷ s) = utf8 c ++ bytes s

abbrev pub to_ascii_lowercase : ℕ → ℕ
to_ascii_lowercase b = if leb 65 b && leb b 90 then b + 32 else b

-- `split_whitespace`: the word being read, in front of the words of the rest.
unfoldable pub words_from : Text → Text → List Text
words_from word [] = if is_empty word then [] else word ∷ []
words_from word (c ∷ s) = elim (is_whitespace c) [
  | false ↦ words_from (word ++ c ∷ []) s
  | true ↦ if is_empty word then words_from [] s else word ∷ words_from [] s
]

unfoldable pub split_whitespace : Text → List Text
split_whitespace s = words_from [] s

-- One byte of FNV-1a, on 64 bits.
unfoldable pub fnv_byte : ℕ → ℕ → ℕ
fnv_byte h b = bit_xor h b * 0x00000100000001b3 % 2 ^ 64

abbrev pub fnv_bytes : ℕ → List ℕ → ℕ
fnv_bytes h [] = h
fnv_bytes h (b ∷ bs) = fnv_bytes (fnv_byte h b) bs

-- The later tokens of a shingle, each after a space.
abbrev pub fnv_more : ℕ → List Text → ℕ
fnv_more h [] = h
fnv_more h (t ∷ ts) = fnv_more (fnv_bytes (fnv_byte h 32) (map to_ascii_lowercase (bytes t))) ts

unfoldable pub fnv1a : List Text → ℕ
fnv1a [] = 0xcbf29ce484222325
fnv1a (t ∷ ts) = fnv_more (fnv_bytes 0xcbf29ce484222325 (map to_ascii_lowercase (bytes t))) ts

abbrev pub shingle : ℕ
shingle = 3

-- The hash of each shingle; a text of fewer tokens is one shingle.
unfoldable pub more_shingles : List Text → List ℕ
more_shingles [] = []
more_shingles (t ∷ ts) =
    let rest = more_shingles ts in
    if leb shingle (length (t ∷ ts)) then fnv1a (take shingle (t ∷ ts)) ∷ rest else []

unfoldable pub shingles : List Text → List ℕ
shingles tokens = if ltb (length tokens) shingle then fnv1a tokens ∷ [] else more_shingles tokens

abbrev pub bit : ℕ → ℕ → ℕ
bit h i = h / 2 ^ i % 2

-- How many of the hashes have bit `i` set.
abbrev pub votes : ℕ → List ℕ → ℕ
votes i [] = 0
votes i (h ∷ hs) = bit h i + votes i hs

-- The bit is set when more shingles vote for it than against it.
abbrev pub wins : ℕ → List ℕ → ℕ
wins i hs = if ltb (length hs) (2 * votes i hs) then 1 else 0

abbrev pub gather : ℕ → List ℕ → ℕ
gather zero hs = 0
gather (suc i) hs = gather i hs + wins i hs * 2 ^ i

unfoldable pub simhash : Text → ℕ
simhash text =
    let tokens = split_whitespace text in if is_empty tokens then 0 else gather 64 (shingles tokens)

abbrev pub ones : ℕ → ℕ → ℕ
ones zero n = 0
ones (suc i) n = n % 2 + ones i (n / 2)

abbrev pub count_ones : ℕ → ℕ
count_ones n = ones 64 n

abbrev pub near_dup_hamming : ℕ
near_dup_hamming = 3

unfoldable pub near_duplicate : ℕ → ℕ → Bool
near_duplicate a b = leb (count_ones (bit_xor a b)) near_dup_hamming
