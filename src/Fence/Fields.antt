-- ===== src/Fence/Fields.antt =====
-- A `key=value` field between spaces is one word, and splits into its key and its value.
use polis_memory.Prelude.{
  ℕ, ◌≡◌, refl, sym, ap, ◌∙◌, false, some, [], ◌∷◌, ◌++◌, arith, any, is_empty, append_cons, ◌==◌,
}
use polis_memory.Prelude.Text.{Text, is_whitespace}
use polis_memory.Dedup.Simhash.{words_from}
use polis_memory.Fence.{split_once}
use polis_memory.Fence.Closer.{any-append}

append_nil : (s : Text) → s ++ [] ≡ s
append_nil [] = refl
append_nil (c ∷ s) = ap (λ (t : Text). c ∷ t) (append_nil s)

abbrev pub field : Text → Text → Text
field k v = k ++ (61 ∷ v)

words_from_break :
    (word s : Text) → is_empty word ≡ false → words_from word (32 ∷ s) ≡ word ∷ words_from [] s
unfolding words_from is_whitespace
words_from_break [] s h = absurd (ground (arith, h))
words_from_break (c ∷ word) s h = refl

words_from_end : (word : Text) → is_empty word ≡ false → words_from word [] ≡ word ∷ []
unfolding words_from
words_from_end [] h = absurd (ground (arith, h))
words_from_end (c ∷ word) h = refl

words_from_char :
    (word s : Text) (c : ℕ)
    → is_whitespace c ≡ false
    → words_from word (c ∷ s) ≡ words_from (word ++ c ∷ []) s
unfolding words_from
words_from_char word s c h = rw (h, words_from) refl

words_from_word :
    (word w s : Text)
    → any is_whitespace w ≡ false
    → words_from word (w ++ s) ≡ words_from (word ++ w) s
unfolding any
words_from_word word [] s h = ap (λ (t : Text). words_from t s) (sym (append_nil word))
words_from_word word (c ∷ w) s h =
    words_from_char word (w ++ s) c (ground (arith, h))
    ∙ words_from_word (word ++ c ∷ []) w s (ground (arith, h))
    ∙ ap (λ (t : Text). words_from t s) (append_cons word c w)

field_given : (k v : Text) → is_empty (field k v) ≡ false
field_given [] v = refl
field_given (c ∷ k) v = refl

pub field_word :
    (k v : Text)
    → any is_whitespace k ≡ false
    → any is_whitespace v ≡ false
    → any is_whitespace (field k v) ≡ false
unfolding any is_whitespace
field_word k v hk hv = ground (arith, hk, hv, any-append is_whitespace k (61 ∷ v))

pub next_field :
    (k v s : Text)
    → any is_whitespace k ≡ false
    → any is_whitespace v ≡ false
    → words_from [] (field k v ++ (32 ∷ s)) ≡ field k v ∷ words_from [] s
next_field k v s hk hv =
    words_from_word [] (field k v) (32 ∷ s) (field_word k v hk hv)
    ∙ words_from_break (field k v) s (field_given k v)

pub last_field :
    (k v : Text)
    → any is_whitespace k ≡ false
    → any is_whitespace v ≡ false
    → words_from [] (field k v) ≡ field k v ∷ []
last_field k v hk hv =
    ap (words_from []) (sym (append_nil (field k v)))
    ∙ words_from_word [] (field k v) [] (field_word k v hk hv)
    ∙ words_from_end (field k v) (field_given k v)

pub split_once-field :
    (k v : Text) → any (λ (c : ℕ). c == 61) k ≡ false → split_once (field k v) ≡ some (k, v)
unfolding any
split_once-field [] v h = refl
split_once-field (c ∷ k) v h = ground (arith, h, split_once-field k v)
