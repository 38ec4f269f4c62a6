-- ===== src/Fence/Closer.antt =====
-- What `split` makes of an item that `wrap` has fenced.
use mathlib.Core.Path.{ap₂}
use mathlib.Core.List.{reverse}
use mathlib.Mathlib.Data.List.Basic.{reverse-concat', reverse-Involutive}
use polis_memory.Prelude.{
  ℕ, ◌+◌, ◌≡◌, refl, sym, ap, ◌∙◌, subst, Bool, true, false, ◌||◌, Option, none, some, [], ◌∷◌,
  ◌++◌, arith, length, drop, take, any, Bool-cases, inl, inr, keep_if, append_assoc, ◌==◌,
  length-append,
}
use polis_memory.Prelude.Text.{Text, codes}
use polis_memory.Dedup.Excerpts.{find_text, starts_with}
use polis_memory.Query.Words.{trim_end_matches, trim_start_matches}
use polis_memory.Fence.{
  Fence, is_given, source_field, Header, close, closer, header, is_newline, item_tag, marks,
  newline, open_line, push_item, read_body, read_header, end_header, start_item, split, turn, wrap,
}
use polis_memory.Fence.Find.{
  drop-append, drop-append_more, find_text_after, find_text_first, find_text_here, take-append,
}
use polis_memory.Fence.Loop.{split_pushes}

pub any-append : (q : ℕ → Bool) (xs ys : Text) → any q (xs ++ ys) ≡ (any q xs || any q ys)
unfolding any
any-append q [] ys = refl
any-append q (x ∷ xs) ys = ground (arith, any-append q xs ys)

-- The closing line of the fence is found behind a body that does not hold it.
read_body_closed :
    (f : Fence) (h : Header) (body rest : Text)
    → h.nonce_ok ≡ true
    → any is_newline (closer f) ≡ false
    → find_text (closer f) body ≡ none
    → read_body f h (body ++ (newline ∷ (closer f ++ rest)))
      ≡ push_item
          (record h.item { text = trim_end_matches is_newline (body ++ (newline ∷ [])) })
          rest
read_body_closed f h body rest ok no_break absent =
    rw (ok, find_text_after newline (closer f) body rest no_break absent)
      (ap₂ (λ (t s : Text). push_item (record h.item { text = trim_end_matches is_newline t }) s)
        (ap (take (length body + 1)) (sym (append_assoc body (newline ∷ []) (closer f ++ rest)))
          ∙ take_of (length body + 1) (body ++ (newline ∷ [])) (closer f ++ rest)
              (length-append body (newline ∷ [])))
        (ap (drop (length body + 1 + length (closer f)))
            (sym (append_assoc body (newline ∷ []) (closer f ++ rest)))
          ∙ drop_of (length body + 1 + length (closer f)) (length (closer f))
              (body ++ (newline ∷ [])) (closer f ++ rest)
              (omega (arith, length-append body (newline ∷ [])))
          ∙ drop_of (length (closer f)) 0 (closer f) rest (omega arith)))
  where
    take_of : (n : ℕ) (xs ys : Text) → length xs ≡ n → take n (xs ++ ys) ≡ xs
    take_of n xs ys e = subst (λ (m : ℕ). take m (xs ++ ys) ≡ xs) e (take-append xs ys)

    drop_of : (n m : ℕ) (xs ys : Text) → length xs + m ≡ n → drop n (xs ++ ys) ≡ drop m ys
    drop_of n m xs ys e =
        subst (λ (k : ℕ). drop k (xs ++ ys) ≡ drop m ys) e (drop-append_more m xs ys)

trim_start_again :
    (p : ℕ → Bool) (s : Text)
    → trim_start_matches p (trim_start_matches p s) ≡ trim_start_matches p s
unfolding trim_start_matches
trim_start_again p [] = refl
trim_start_again p (c ∷ s) = elim (Bool-cases (p c)) [
  | inl dropped ↦ rw (dropped, trim_start_matches) (trim_start_again p s)
  | inr kept ↦ rw (kept, trim_start_matches, kept) refl
]

-- A line break behind a text without a last one is trimmed again.
trim_end_break :
    (t : Text)
    → trim_end_matches is_newline (trim_end_matches is_newline t ++ (newline ∷ []))
      ≡ trim_end_matches is_newline t
unfolding trim_end_matches trim_start_matches
trim_end_break t =
    ap (λ (s : Text). reverse (trim_start_matches is_newline s))
      (reverse-concat' (reverse (trim_start_matches is_newline (reverse t))) newline)
    ∙ ap (λ (s : Text). reverse (trim_start_matches is_newline s))
        (reverse-Involutive (trim_start_matches is_newline (reverse t)))
    ∙ ap reverse (trim_start_again is_newline (reverse t))

any_right : (q : ℕ → Bool) (xs ys : Text) → any q (xs ++ ys) ≡ false → any q ys ≡ false
any_right q xs ys h = ground (arith, h, any-append q xs ys)

-- The closer of a fence whose header has no line break has none.
closer_one_line :
    (f : Fence) (label id role : Text) (source : Option Text)
    → any is_newline (header f label id role source) ≡ false
    → any is_newline (closer f) ≡ false
unfolding closer header any
closer_one_line f label id role source h =
    let at_nonce =
      any_right is_newline (source_field (keep_if is_given source)) (codes " nonce=" ++ f.nonce) (
        any_right is_newline role
          (source_field (keep_if is_given source) ++ (codes " nonce=" ++ f.nonce))
          (any_right is_newline id
            (codes " role="
              ++ (role ++ (source_field (keep_if is_given source) ++ (codes " nonce=" ++ f.nonce))))
            (any_right is_newline label
              (codes "="
                ++ (id
                    ++ (codes " role="
                        ++ (role
                            ++ (source_field (keep_if is_given source)
                                ++ (codes " nonce=" ++ f.nonce))))))
              h))) in
    ground (arith, at_nonce, any-append is_newline f.nonce marks)

end_header_at :
    (f : Fence) (h s tail : Text) (e : ℕ)
    → take e s ≡ h
    → drop e s ≡ marks ++ (newline ∷ tail)
    → drop (e + 4) s ≡ tail
    → any is_newline h ≡ false
    → end_header f s (some e) ≡ read_body f (read_header f h) tail
unfolding starts_with
end_header_at f h s tail e t d d4 line = rw (t, d, d4, line) refl

end_header_whole :
    (f : Fence) (h tail : Text)
    → any is_newline h ≡ false
    → any (λ (c : ℕ). c == 62) h ≡ false
    → end_header f
        (h ++ (marks ++ (newline ∷ tail)))
        (find_text marks (h ++ (marks ++ (newline ∷ tail))))
      ≡ read_body f (read_header f h) tail
end_header_whole f h tail line free =
    ap (end_header f (h ++ (marks ++ (newline ∷ tail))))
      (find_text_first 62 (62 ∷ 62 ∷ []) h (newline ∷ tail) free)
    ∙ end_header_at f h (h ++ (marks ++ (newline ∷ tail))) tail (length h)
        (take-append h (marks ++ (newline ∷ tail))) (drop-append h (marks ++ (newline ∷ tail)))
        (drop-append_more 4 h (marks ++ (newline ∷ tail))) line

turn_tagged :
    (f : Fence) (after : Text)
    → turn f (item_tag ++ after) ≡ end_header f after (find_text marks after)
unfolding turn
turn_tagged f after = ap (start_item f (item_tag ++ after)) (find_text_here item_tag after)

turn_wrapped :
    (f : Fence) (label id role : Text) (source : Option Text) (body rest : Text)
    → any is_newline (header f label id role source) ≡ false
    → any (λ (c : ℕ). c == 62) (header f label id role source) ≡ false
    → (read_header f (header f label id role source)).nonce_ok ≡ true
    → find_text (closer f) body ≡ none
    → turn f (
        item_tag
        ++ (header f label id role source
            ++ (marks ++ (newline ∷ (body ++ (newline ∷ (closer f ++ rest)))))))
      ≡ push_item
          (record (read_header f (header f label id role source)).item {
            text = trim_end_matches is_newline (body ++ (newline ∷ []));
          })
          rest
turn_wrapped f label id role source body rest line free ok absent =
    let h = header f label id role source in
    turn_tagged f (h ++ (marks ++ (newline ∷ (body ++ (newline ∷ (closer f ++ rest))))))
    ∙ end_header_whole f h (body ++ (newline ∷ (closer f ++ rest))) line free
    ∙ read_body_closed f (read_header f h) body rest ok
        (closer_one_line f label id role source line) absent

wrap_parts :
    (f : Fence) (label id role : Text) (source : Option Text) (text rest : Text)
    → wrap f label id role source text ++ rest
      ≡ item_tag
        ++ (header f label id role source
            ++ (marks
                ++ (newline
                    ∷ (trim_end_matches is_newline text
                        ++ (newline ∷ (closer f ++ (newline ∷ rest)))))))
unfolding wrap open_line
wrap_parts f label id role source text rest =
    let h = header f label id role source in
    let body = trim_end_matches is_newline text in
    ap (λ (s : Text). item_tag ++ s)
      (append_assoc (h ++ (marks ++ (newline ∷ []))) (body ++ (newline ∷ close f)) rest
        ∙ append_assoc h (marks ++ (newline ∷ [])) ((body ++ (newline ∷ close f)) ++ rest)
        ∙ ap (λ (s : Text). h ++ (marks ++ (newline ∷ s)))
            (append_assoc body (newline ∷ close f) rest
              ∙ ap (λ (s : Text). body ++ (newline ∷ s))
                  (append_assoc (closer f) (newline ∷ []) rest)))

-- An item that `wrap` fences is read back from the front of a prompt with its header's fields and
-- its whole text, whatever the text says and whatever stands behind it, and the reading goes on
-- behind its own closing line: nothing in the text ends the item or begins another, so long as the
-- text does not hold the closing delimiter, with the run's nonce. The header must hold no line break
-- and no `>`, and must read as one of this run.
pub split-wrap :
    (f : Fence) (label id role : Text) (source : Option Text) (text rest : Text)
    → any is_newline (header f label id role source) ≡ false
    → any (λ (c : ℕ). c == 62) (header f label id role source) ≡ false
    → (read_header f (header f label id role source)).nonce_ok ≡ true
    → find_text (closer f) (trim_end_matches is_newline text) ≡ none
    → split f (wrap f label id role source text ++ rest)
      ≡ (record (read_header f (header f label id role source)).item {
        text = trim_end_matches is_newline text;
      })
        ∷ split f (newline ∷ rest)
split-wrap f label id role source text rest line free ok absent =
    let h = header f label id role source in
    let body = trim_end_matches is_newline text in
    ap (split f) (wrap_parts f label id role source text rest)
    ∙ split_pushes f 60
        (codes "<<ITEM "
          ++ (h ++ (marks ++ (newline ∷ (body ++ (newline ∷ (closer f ++ (newline ∷ rest))))))))
        (newline ∷ rest)
        (record (read_header f h).item {
          text = trim_end_matches is_newline (body ++ (newline ∷ []));
        })
        (turn_wrapped f label id role source body (newline ∷ rest) line free ok absent)
    ∙ ap (λ (t : Text). (record (read_header f h).item { text = t }) ∷ split f (newline ∷ rest))
        (trim_end_break text)
