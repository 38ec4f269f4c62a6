-- ===== src/Fence/Find.antt =====
-- Where a search finds a text that stands behind others.
use polis_memory.Prelude.{
  ℕ, suc, ◌+◌, ◌≡◌, refl, ap, ◌∙◌, true, false, none, some, [], ◌∷◌, ◌++◌, ◌==◌, ==_iff, arith,
  length, drop, take, any, Bool-cases, inl, inr,
}
use polis_memory.Prelude.Text.{Text}
use polis_memory.Dedup.Excerpts.{find_text, starts_with}

pub take-append : (xs ys : Text) → take (length xs) (xs ++ ys) ≡ xs
take-append [] ys = refl
take-append (x ∷ xs) ys = ap (λ zs. x ∷ zs) (take-append xs ys)

pub drop-append : (xs ys : Text) → drop (length xs) (xs ++ ys) ≡ ys
drop-append [] ys = refl
drop-append (x ∷ xs) ys = drop-append xs ys

drop_same : (m n : ℕ) (s : Text) → m ≡ n → drop m s ≡ drop n s
drop_same m n s e = ap (λ (k : ℕ). drop k s) e

pub drop-append_more : (n : ℕ) (xs ys : Text) → drop (length xs + n) (xs ++ ys) ≡ drop n ys
drop-append_more n [] ys = ap (λ (m : ℕ). drop m ys) (omega arith)
drop-append_more n (x ∷ xs) ys =
    drop_same (suc (length xs) + n) (suc (length xs + n)) (x ∷ (xs ++ ys)) (omega arith)
    ∙ drop-append_more n xs ys

pub starts_with-append : (p s : Text) → starts_with p (p ++ s) ≡ true
unfolding starts_with
starts_with-append [] s = refl
starts_with-append (c ∷ p) s = ground (arith, starts_with-append p s, (==_iff c c).1 refl)

-- A text that does not hold `sep` does not reach past the first `sep`.
starts_with_before :
    (sep : ℕ) (p s t : Text)
    → any (λ (c : ℕ). c == sep) p ≡ false
    → starts_with p (s ++ (sep ∷ t)) ≡ true
    → starts_with p s ≡ true
unfolding starts_with any
starts_with_before sep [] s t free h = refl
starts_with_before sep (c ∷ p) [] t free h = ground (arith, h, free)
starts_with_before sep (c ∷ p) (d ∷ s) t free h =
    ground (arith, h, free, starts_with_before sep p s t)

find_text-none-starts_with :
    (p : Text) (d : ℕ) (s : Text) → find_text p (d ∷ s) ≡ none → starts_with p (d ∷ s) ≡ false
unfolding find_text
find_text-none-starts_with p d s h = elim (Bool-cases (starts_with p (d ∷ s))) [
  | inl yes_there ↦ ground (arith, h, yes_there)
  | inr not_there ↦ not_there
]

pub find_text_here : (p s : Text) → find_text p (p ++ s) ≡ some 0
unfolding find_text starts_with
find_text_here [] [] = refl
find_text_here [] (d ∷ s) = refl
find_text_here (c ∷ p) s = rw (starts_with-append (c ∷ p) s) refl

find_text_later :
    (p : Text) (d n : ℕ) (s : Text)
    → starts_with p (d ∷ s) ≡ false
    → find_text p s ≡ some n
    → find_text p (d ∷ s) ≡ some (suc n)
unfolding find_text
find_text_later p d n s no_match later = rw (no_match, later) refl

not_before :
    (sep : ℕ) (p s t : Text)
    → any (λ (c : ℕ). c == sep) p ≡ false
    → starts_with p s ≡ false
    → starts_with p (s ++ (sep ∷ t)) ≡ false
not_before sep p s t free h = elim (Bool-cases (starts_with p (s ++ (sep ∷ t)))) [
  | inl there ↦ ground (arith, h, starts_with_before sep p s t free there)
  | inr absent ↦ absent
]

-- Behind a text that does not hold it and a separator that it does not hold, a text is found.
pub find_text_after :
    (sep : ℕ) (p s t : Text)
    → any (λ (c : ℕ). c == sep) p ≡ false
    → find_text p s ≡ none
    → find_text p (s ++ (sep ∷ (p ++ t))) ≡ some (length s + 1)
unfolding find_text
find_text_after sep p [] t free h =
    find_text_later p sep 0 (p ++ t)
      (not_before sep p [] (p ++ t) free (elim (Bool-cases (starts_with p [])) [
        | inl there ↦ ground (arith, h, there)
        | inr absent ↦ absent
      ]))
      (find_text_here p t)
    ∙ ap some (omega arith)
find_text_after sep p (d ∷ s) t free h =
    let absent = find_text-none-starts_with p d s h in
    find_text_later p d (length s + 1) (s ++ (sep ∷ (p ++ t)))
      (not_before sep p (d ∷ s) (p ++ t) free absent)
      (find_text_after sep p s t free (ground (arith, h, absent)))
    ∙ ap some (omega arith)

-- Behind a text without its first character, a text is found.
pub find_text_first :
    (c : ℕ) (p s t : Text)
    → any (λ (d : ℕ). d == c) s ≡ false
    → find_text (c ∷ p) (s ++ ((c ∷ p) ++ t)) ≡ some (length s)
unfolding any starts_with
find_text_first c p [] t free = find_text_here (c ∷ p) t
find_text_first c p (d ∷ s) t free =
    find_text_later (c ∷ p) d (length s) (s ++ ((c ∷ p) ++ t))
      (ground (arith, free, ==_iff c d, ==_iff d c))
      (find_text_first c p s t (ground (arith, free)))
