-- ===== src/Json.antt =====
-- crates/polis-core/src/json.rs: the first balanced object in a reply that carries a key. Texts are
-- their bytes. A reply is shorter than 2 ^ 31 bytes, so that the i32 depth does not overflow.
pub mod Objects
pub mod Sound
pub mod Tests
use polis_memory.Prelude.{
  ℕ, zero, suc, ◌+◌, ◌-◌, ◌≡◌, Bool, true, false, ◌&&◌, Option, none, some, List, [], ◌∷◌, ◌==◌,
  if◌then◌else◌, drop, take, ◌>>=◌, keep_if, ℤ, pos, negsuc,
}

-- Outside a string; inside one; inside one after a backslash.
pub data Mode : Type 0 where
  outside inside escaping : Mode

abbrev pub quote : ℕ
quote = 34

abbrev pub backslash : ℕ
backslash = 92

abbrev pub open_brace : ℕ
open_brace = 123

abbrev pub close_brace : ℕ
close_brace = 125

abbrev pub next_mode : Mode → ℕ → Mode
next_mode outside b = if b == quote then inside else outside
next_mode inside b = if b == backslash then escaping else (if b == quote then outside else inside)
next_mode escaping b = inside

abbrev pub increase : ℤ → ℤ
increase (pos n) = pos (suc n)
increase (negsuc zero) = pos 0
increase (negsuc (suc n)) = negsuc n

abbrev pub decrease : ℤ → ℤ
decrease (pos zero) = negsuc 0
decrease (pos (suc n)) = pos n
decrease (negsuc n) = negsuc (suc n)

abbrev pub is_zero : ℤ → Bool
is_zero (pos zero) = true
is_zero (pos (suc n)) = false
is_zero (negsuc n) = false

abbrev pub next_depth : Mode → ℤ → ℕ → ℤ
next_depth outside depth b =
    if b == open_brace then increase depth else if b == close_brace then decrease depth else depth
next_depth inside depth b = depth
next_depth escaping depth b = depth

-- The byte closes the outermost brace.
abbrev pub closes : Mode → ℤ → ℕ → Bool
closes outside depth b = b == close_brace && is_zero (decrease depth)
closes inside depth b = false
closes escaping depth b = false

unfoldable pub scan : Mode → ℤ → ℕ → List ℕ → Option ℕ
scan mode depth offset [] = none
scan mode depth offset (b ∷ bytes) =
    let rest = scan (next_mode mode b) (next_depth mode depth b) (suc offset) bytes in
    if closes mode depth b then some offset else rest

unfoldable pub matching_brace : List ℕ → ℕ → Option ℕ
unfolding scan
matching_brace bytes start = scan outside (pos 0) start (drop start bytes)

-- serde_json: the parser, and whether a value has a key.
module _ {Value : Type 0} (from_str : List ℕ → Option Value) (has_key : List ℕ → Value → Bool) where
  unfoldable pub object_at : List ℕ → List ℕ → ℕ → Option Value
  unfolding matching_brace
  object_at key bytes i =
      matching_brace bytes i
      >>= (λ (end : ℕ). keep_if (has_key key) (from_str (take (end - i + 1) (drop i bytes))))

  unfoldable pub extract_from : List ℕ → List ℕ → ℕ → List ℕ → Option Value
  unfolding object_at
  extract_from key bytes i [] = none
  extract_from key bytes i (b ∷ suffix) =
      let rest = extract_from key bytes (suc i) suffix in
      if b == open_brace
      then elim (object_at key bytes i) [ none ↦ rest | some v ↦ some v ]
      else rest

  unfoldable pub extract_object_with_key : List ℕ → List ℕ → Option Value
  unfolding extract_from
  extract_object_with_key bytes key = extract_from key bytes 0 bytes
