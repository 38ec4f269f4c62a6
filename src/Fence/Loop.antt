-- ===== src/Fence/Loop.antt =====
-- The loop of `split` ends: each turn leaves less of the prompt, so its length is fuel enough.
use polis_memory.Prelude.{
  ℕ, zero, suc, ◌+◌, ◌≤◌, max, ◌≡◌, refl, sym, ap, ◌∙◌, subst, Bool, true, false, not, ◌||◌, Option,
  none, some, List, [], ◌∷◌, ◌++◌, if◌then◌else◌, arith, length, length-drop, drop, take, any,
  Bool-cases, inl, inr,
}
use polis_memory.Prelude.Text.{Text}
use polis_memory.Dedup.Excerpts.{find_text, starts_with}
use polis_memory.Fence.{
  Fence, FencedItem, Header, Turn, closer, is_newline, item_tag, marks, newline, push_item,
  read_body, read_header, end_item, end_header, start_item, skip, split, split_on, stop, turn,
}

-- What a turn leaves is at most `n` long.
abbrev AtMost : ℕ → Turn → Type 0
AtMost n stop = 0 ≤ n
AtMost n (skip next) = length next ≤ n
AtMost n (push_item item next) = length next ≤ n

drop_shorter : (n m : ℕ) (s : Text) → length s ≤ m → length (drop n s) ≤ m
drop_shorter n m s le = omega (arith, length-drop n s, le)

end_item-AtMost :
    (f : Fence) (h : Header) (n : ℕ) (s : Text) (o : Option ℕ)
    → length s ≤ n
    → AtMost n (end_item f h s o)
end_item-AtMost f h n s none le = omega arith
end_item-AtMost f h n s (some e) le = drop_shorter (e + length (closer f)) n s le

read_body-AtMost :
    (f : Fence) (h : Header) (n : ℕ) (s : Text) → length s ≤ n → AtMost n (read_body f h s)
read_body-AtMost f h n s le = elim (Bool-cases h.nonce_ok) [
  | inl ok ↦ rw ok (end_item-AtMost f h n s (find_text (closer f) s) le)
  | inr other ↦ rw other le
]

if-AtMost :
    (n : ℕ) (b : Bool) (t u : Turn) → AtMost n t → AtMost n u → AtMost n (if b then t else u)
if-AtMost n true t u x y = x
if-AtMost n false t u x y = y

end_header-AtMost :
    (f : Fence) (n : ℕ) (s : Text) (o : Option ℕ) → length s ≤ n → AtMost n (end_header f s o)
end_header-AtMost f n s none le = omega arith
end_header-AtMost f n s (some e) le =
    if-AtMost n
      (any is_newline (take e s) || not (starts_with (marks ++ (newline ∷ [])) (drop e s)))
      (skip (drop (max e 1) s)) (read_body f (read_header f (take e s)) (drop (e + 4) s))
      (drop_shorter (max e 1) n s le)
      (read_body-AtMost f (read_header f (take e s)) n (drop (e + 4) s)
        (drop_shorter (e + 4) n s le))

start_item-AtMost :
    (f : Fence) (n : ℕ) (s : Text) (o : Option ℕ) → length s ≤ suc n → AtMost n (start_item f s o)
start_item-AtMost f n s none le = omega arith
start_item-AtMost f n s (some i) le =
    end_header-AtMost f n (drop (i + length item_tag) s)
      (find_text marks (drop (i + length item_tag) s))
      (omega (arith, length-drop (i + length item_tag) s, le))

turn-AtMost : (f : Fence) (n : ℕ) (s : Text) → length s ≤ suc n → AtMost n (turn f s)
unfolding turn
turn-AtMost f n s le = start_item-AtMost f n s (find_text item_tag s) le

turn_nothing : (f : Fence) → turn f [] ≡ stop
unfolding turn find_text starts_with
turn_nothing f = refl

-- The loop after a turn.
abbrev follow : ℕ → Fence → Turn → List FencedItem
follow n f stop = []
follow n f (skip next) = split_on n f next
follow n f (push_item item next) = item ∷ split_on n f next

follow_same :
    (n m : ℕ) (f : Fence) (t : Turn)
    → ((s : Text) → length s ≤ n → length s ≤ m → split_on n f s ≡ split_on m f s)
    → AtMost n t
    → AtMost m t
    → follow n f t ≡ follow m f t
follow_same n m f stop ends a b = refl
follow_same n m f (skip next) ends a b = ends next a b
follow_same n m f (push_item item next) ends a b =
    ap (λ (items : List FencedItem). item ∷ items) (ends next a b)

pub split_on-turn :
    (n : ℕ) (f : Fence) (s : Text) (t : Turn) → turn f s ≡ t → split_on (suc n) f s ≡ follow n f t
unfolding split_on
split_on-turn n f s stop e = rw (e, split_on) refl
split_on-turn n f s (skip next) e = rw (e, split_on) refl
split_on-turn n f s (push_item item next) e = rw (e, split_on) refl

split_on_nothing : (n : ℕ) (f : Fence) → split_on n f [] ≡ []
unfolding split_on
split_on_nothing zero f = refl
split_on_nothing (suc n) f = split_on-turn n f [] stop (turn_nothing f)

split_on_same :
    (n m : ℕ) (f : Fence) (s : Text) → length s ≤ n → length s ≤ m → split_on n f s ≡ split_on m f s
split_on_same n m f [] le me = split_on_nothing n f ∙ sym (split_on_nothing m f)
split_on_same zero m f (c ∷ s) le me = absurd (omega (arith, le))
split_on_same (suc n) zero f (c ∷ s) le me = absurd (omega (arith, me))
split_on_same (suc n) (suc m) f (c ∷ s) le me =
    split_on-turn n f (c ∷ s) (turn f (c ∷ s)) refl
    ∙ follow_same n m f (turn f (c ∷ s)) (split_on_same n m f) (turn-AtMost f n (c ∷ s) le)
        (turn-AtMost f m (c ∷ s) me)
    ∙ sym (split_on-turn m f (c ∷ s) (turn f (c ∷ s)) refl)

-- With any fuel that is not less than the prompt's length the loop reads the same items: each turn
-- leaves less of the prompt, so the fuel that `split` has never cuts it short.
pub split_on_enough : (n : ℕ) (f : Fence) (s : Text) → length s ≤ n → split_on n f s ≡ split f s
unfolding split
split_on_enough n f s le = split_on_same n (length s) f s le (omega arith)

-- One turn of `split`, whatever it does.
pub split-turn :
    (f : Fence) (c : ℕ) (s : Text) (t : Turn)
    → turn f (c ∷ s) ≡ t
    → AtMost (length s) t × (split f (c ∷ s) ≡ follow (length s) f t)
unfolding split
split-turn f c s t e = (
  subst (λ (u : Turn). AtMost (length s) u) e (turn-AtMost f (length s) (c ∷ s) (omega arith)),
  split_on-turn (length s) f (c ∷ s) t e,
)

pub split_pushes :
    (f : Fence) (c : ℕ) (s next : Text) (item : FencedItem)
    → turn f (c ∷ s) ≡ push_item item next
    → split f (c ∷ s) ≡ item ∷ split f next
split_pushes f c s next item e =
    let r = split-turn f c s (push_item item next) e in
    r.1 ∙ ap (λ (items : List FencedItem). item ∷ items) (split_on_enough (length s) f next r.0)
