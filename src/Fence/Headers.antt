-- ===== src/Fence/Headers.antt =====
-- The opening line of an item is read back as the fields that `open` was given.
use polis_memory.Prelude.{
  ℕ, ◌≡◌, refl, sym, ap, ◌∙◌, true, false, Option, none, some, List, [], ◌∷◌, ◌++◌, arith, any,
  keep_if, map_some, unwrap_or, append_assoc, ◌==◌,
}
use polis_memory.Prelude.Text.{Text, codes, is_whitespace, text_eq, text_eq_refl}
use polis_memory.Dedup.Excerpts.{find_text}
use polis_memory.Dedup.Simhash.{split_whitespace}
use polis_memory.Query.Words.{trim_end_matches}
use polis_memory.Fence.{
  Fence, Header, closer, header, is_given, is_newline, newline, read_fields, read_header, read_pair,
  replace_marks, replace_newlines, source_field, split, split_once, wrap,
}
use polis_memory.Fence.Closer.{any-append, split-wrap}
use polis_memory.Fence.Fields.{field, field_word, last_field, next_field, split_once-field}

-- The source as an opening line shows it: no empty one, no marks, no line breaks.
unfoldable pub shown_source : Option Text → Option Text
shown_source source =
    map_some (λ (s : Text). replace_newlines (replace_marks s)) (keep_if is_given source)

-- Fields that a reader can tell apart: no whitespace in any, and a label that is no other key.
pub record IsPlain (f : Fence) (label id role : Text) (source : Option Text) : Type 0 where
  pub label_word : any is_whitespace label ≡ false
  pub label_key : any (λ (c : ℕ). c == 61) label ≡ false
  pub no_role : text_eq label (codes "role") ≡ false
  pub no_source : text_eq label (codes "source") ≡ false
  pub no_nonce : text_eq label (codes "nonce") ≡ false
  pub id_word : any is_whitespace id ≡ false
  pub role_word : any is_whitespace role ≡ false
  pub nonce_word : any is_whitespace f.nonce ≡ false
  pub source_word : any is_whitespace (unwrap_or (shown_source source) []) ≡ false

-- The fields of an opening line, in their order.
abbrev fields_of : Fence → Text → Text → Text → Option Text → List Text
fields_of f label id role none =
    field label id ∷ field (codes "role") role ∷ field (codes "nonce") f.nonce ∷ []
fields_of f label id role (some s) =
    field label id
    ∷ field (codes "role") role
    ∷ field (codes "source") s
    ∷ field (codes "nonce") f.nonce
    ∷ []

abbrev line_of : Fence → Text → Text → Text → Option Text → Text
line_of f label id role none =
    field label id ++ (32 ∷ (field (codes "role") role ++ (32 ∷ field (codes "nonce") f.nonce)))
line_of f label id role (some s) =
    field label id
    ++ (32
        ∷ (field (codes "role") role
            ++ (32 ∷ (field (codes "source") s ++ (32 ∷ field (codes "nonce") f.nonce)))))

header_line :
    (f : Fence) (label id role : Text) (source : Option Text)
    → header f label id role source ≡ line_of f label id role (shown_source source)
unfolding header shown_source
header_line f label id role source = go (keep_if is_given source)
  where
    go :
        (o : Option Text)
        → label
            ++ (codes "="
                ++ (id
                    ++ (codes " role="
                        ++ (role ++ (source_field o ++ (codes " nonce=" ++ f.nonce))))))
          ≡ line_of f label id role (map_some (λ (s : Text). replace_newlines (replace_marks s)) o)
    go none = sym (
        append_assoc label (61 ∷ id)
          (32 ∷ (field (codes "role") role ++ (32 ∷ field (codes "nonce") f.nonce))))
    go (some s) = sym (
        append_assoc label (61 ∷ id) (
          32
          ∷ (field (codes "role") role
              ++ (32
                  ∷ (field (codes "source") (replace_newlines (replace_marks s))
                      ++ (32 ∷ field (codes "nonce") f.nonce))))))

split_line :
    (f : Fence) (label id role : Text) (o : Option Text)
    → any is_whitespace label ≡ false
    → any is_whitespace id ≡ false
    → any is_whitespace role ≡ false
    → any is_whitespace f.nonce ≡ false
    → any is_whitespace (unwrap_or o []) ≡ false
    → split_whitespace (line_of f label id role o) ≡ fields_of f label id role o
unfolding split_whitespace any is_whitespace
split_line f label id role none hl hi hr hn hs =
    next_field label id (field (codes "role") role ++ (32 ∷ field (codes "nonce") f.nonce)) hl hi
    ∙ ap (λ (ws : List Text). field label id ∷ ws)
        (next_field (codes "role") role (field (codes "nonce") f.nonce) refl hr
          ∙ ap (λ (ws : List Text). field (codes "role") role ∷ ws)
              (last_field (codes "nonce") f.nonce refl hn))
split_line f label id role (some s) hl hi hr hn hs =
    next_field label id
      (field (codes "role") role
        ++ (32 ∷ (field (codes "source") s ++ (32 ∷ field (codes "nonce") f.nonce))))
      hl hi
    ∙ ap (λ (ws : List Text). field label id ∷ ws)
        (next_field (codes "role") role
            (field (codes "source") s ++ (32 ∷ field (codes "nonce") f.nonce)) refl hr
          ∙ ap (λ (ws : List Text). field (codes "role") role ∷ ws)
              (next_field (codes "source") s (field (codes "nonce") f.nonce) refl hs
                ∙ ap (λ (ws : List Text). field (codes "source") s ∷ ws)
                    (last_field (codes "nonce") f.nonce refl hn)))

abbrev read_item : Text → Text → Text → Option Text → Header
read_item label id role o = record {
  item = record { label = label; id = id; role = role; source = o; text = [] };
  nonce_ok = true;
}

abbrev no_fields : Header
no_fields = record {
  item = record { label = []; id = []; role = []; source = none; text = [] };
  nonce_ok = false;
}

abbrev labelled : Text → Text → Header
labelled label id = record {
  item = record { label = label; id = id; role = []; source = none; text = [] };
  nonce_ok = false;
}

-- The later fields, behind the label's.
read_known :
    (f : Fence) (label id role : Text) (o : Option Text)
    → read_pair f no_fields (split_once (field label id)) ≡ labelled label id
    → read_fields f no_fields (fields_of f label id role o) ≡ read_item label id role o
unfolding text_eq
read_known f label id role none e = rw (e, text_eq_refl f.nonce) refl
read_known f label id role (some s) e = rw (e, text_eq_refl f.nonce) refl

read_label :
    (f : Fence) (label id role : Text) (source : Option Text)
    → IsPlain f label id role source
    → read_pair f no_fields (split_once (field label id)) ≡ labelled label id
read_label f label id role source p =
    rw (split_once-field label id p.label_key, p.no_role, p.no_source, p.no_nonce) refl

-- The opening line reads as the label, the id and the role that `open` was given, the source as the
-- line shows it, and this run's nonce, where the fields hold no whitespace and the label is no other
-- key.
pub read_header-header :
    (f : Fence) (label id role : Text) (source : Option Text)
    → IsPlain f label id role source
    → read_header f (header f label id role source) ≡ read_item label id role (shown_source source)
unfolding read_header
read_header-header f label id role source p =
    ap (λ (s : Text). read_fields f no_fields (split_whitespace s))
      (header_line f label id role source)
    ∙ ap (read_fields f no_fields) (
        split_line f label id role (shown_source source) p.label_word p.id_word p.role_word
          p.nonce_word p.source_word)
    ∙ read_known f label id role (shown_source source) (read_label f label id role source p)

one_line : (s : Text) → any is_whitespace s ≡ false → any is_newline s ≡ false
unfolding any is_whitespace
one_line [] h = refl
one_line (c ∷ s) h = ground (arith, h, one_line s)

spaced_line :
    (xs ys : Text)
    → any is_whitespace xs ≡ false
    → any is_newline ys ≡ false
    → any is_newline (xs ++ (32 ∷ ys)) ≡ false
unfolding any
spaced_line xs ys hx hy = ground (arith, one_line xs hx, hy, any-append is_newline xs (32 ∷ ys))

line_of_one_line :
    (f : Fence) (label id role : Text) (o : Option Text)
    → any is_whitespace label ≡ false
    → any is_whitespace id ≡ false
    → any is_whitespace role ≡ false
    → any is_whitespace f.nonce ≡ false
    → any is_whitespace (unwrap_or o []) ≡ false
    → any is_newline (line_of f label id role o) ≡ false
unfolding any is_whitespace
line_of_one_line f label id role none hl hi hr hn hs =
    spaced_line (field label id) (field (codes "role") role ++ (32 ∷ field (codes "nonce") f.nonce))
      (field_word label id hl hi)
      (spaced_line (field (codes "role") role) (field (codes "nonce") f.nonce)
        (field_word (codes "role") role refl hr)
        (one_line (field (codes "nonce") f.nonce) (field_word (codes "nonce") f.nonce refl hn)))
line_of_one_line f label id role (some s) hl hi hr hn hs =
    spaced_line (field label id)
      (field (codes "role") role
        ++ (32 ∷ (field (codes "source") s ++ (32 ∷ field (codes "nonce") f.nonce))))
      (field_word label id hl hi)
      (spaced_line (field (codes "role") role)
        (field (codes "source") s ++ (32 ∷ field (codes "nonce") f.nonce))
        (field_word (codes "role") role refl hr)
        (spaced_line (field (codes "source") s) (field (codes "nonce") f.nonce)
          (field_word (codes "source") s refl hs)
          (one_line (field (codes "nonce") f.nonce) (field_word (codes "nonce") f.nonce refl hn))))

-- An item that `wrap` fences is read back by `split` from the front of a prompt: its own label, id
-- and role, its source as the line shows it, and its whole text but for line breaks at its end,
-- whatever the text says and whatever stands behind the item; and the reading goes on behind the
-- item's own closing line. So no opening line, no closing line with another nonce and no other
-- words in the text end the item or change its role. The fields hold no whitespace, the label is no
-- other key, the opening line has no `>` before its end, and the text does not hold the closing
-- delimiter with this run's nonce.
pub split-wrap_plain :
    (f : Fence) (label id role : Text) (source : Option Text) (text rest : Text)
    → IsPlain f label id role source
    → any (λ (c : ℕ). c == 62) (header f label id role source) ≡ false
    → find_text (closer f) (trim_end_matches is_newline text) ≡ none
    → split f (wrap f label id role source text ++ rest)
      ≡ (record {
        label = label;
        id = id;
        role = role;
        source = shown_source source;
        text = trim_end_matches is_newline text;
      })
        ∷ split f (newline ∷ rest)
split-wrap_plain f label id role source text rest p free absent =
    let e = read_header-header f label id role source p in
    split-wrap f label id role source text rest
      (ap (any is_newline) (header_line f label id role source)
        ∙ line_of_one_line f label id role (shown_source source) p.label_word p.id_word p.role_word
            p.nonce_word p.source_word)
      free (ap (λ (h : Header). h.nonce_ok) e) absent
    ∙ ap
        (λ (h : Header).
          (record h.item { text = trim_end_matches is_newline text }) ∷ split f (newline ∷ rest))
        e
