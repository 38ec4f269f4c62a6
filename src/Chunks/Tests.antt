-- ===== src/Chunks/Tests.antt =====
-- A text of 500 letters: an opening chunk and one chunk of the loop.
use polis_memory.Prelude.{ℕ, zero, suc, ◌≡◌, refl, some, [], ◌∷◌, map}
use polis_memory.Prelude.Text.{Text, codes, is_whitespace, trim, trim_start}
use polis_memory.Chunks.{Chunk, chunk_text, chunks_from, find_fence, fence_end}
use polis_memory.Chunks.Cover.{Covers, chunk_text-Covers}

abbrev letters : ℕ → Text
letters zero = []
letters (suc n) = 97 ∷ letters n

lengths : map (λ (k : Chunk). k.char_len) (chunk_text (letters 500)) ≡ 400 ∷ 500 ∷ []
unfolding chunk_text chunks_from trim trim_start is_whitespace
lengths = refl

-- The accented letter before the fence counts for two bytes, so the offset is one too large.
fence_bytes : fence_end (0xE9 ∷ codes "```x```") ≡ some 9
unfolding fence_end find_fence
fence_bytes = refl

chunk_text-Covers_example : Covers 450 97 (chunk_text (letters 500))
unfolding is_whitespace
chunk_text-Covers_example = chunk_text-Covers (letters 500) 450 97 refl refl
