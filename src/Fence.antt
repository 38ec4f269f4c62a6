-- ===== src/Fence.antt =====
-- crates/polis-memory/src/fence.rs: `wrap` puts captured text between two delimiter lines that carry
-- the run's nonce, and `split` reads the items of a prompt back.
pub mod Fields
pub mod Find
pub mod Closer
pub mod Headers
pub mod Loop
pub mod Tests
use polis_memory.Prelude.{
  ℕ, zero, suc, ◌+◌, max, ◌≡◌, Bool, true, false, not, ◌||◌, Option, none, some, List, [], ◌∷◌,
  ◌++◌, ◌==◌, if◌then◌else◌, length, drop, take, is_empty, any, keep_if,
}
use polis_memory.Prelude.Text.{Text, codes, text_eq}
use polis_memory.Dedup.Excerpts.{find_text, starts_with}
use polis_memory.Dedup.Simhash.{split_whitespace}
use polis_memory.Query.Words.{trim_end_matches}
use polis_memory.Supersession.{is_decision_kind}

pub record FencedItem : Type 0 where
  pub label : Text
  pub id : Text
  pub role : Text
  pub source : Option Text
  pub text : Text

pub record Fence : Type 0 where
  pub nonce : Text

abbrev pub newline : ℕ
newline = 10

abbrev pub is_newline : ℕ → Bool
is_newline c = c == newline

abbrev pub marks : Text
marks = 62 ∷ 62 ∷ 62 ∷ []

abbrev pub item_tag : Text
item_tag = codes "<<<ITEM "

abbrev pub spaced : Text
spaced = codes "> > >"

-- `replace(">>>", "> > >")`
unfoldable pub replace_marks : Text → Text
replace_marks [] = []
replace_marks (a ∷ []) = a ∷ []
replace_marks (a ∷ b ∷ []) = a ∷ b ∷ []
replace_marks (a ∷ b ∷ c ∷ s) =
    let after = replace_marks s in
    let next = replace_marks (b ∷ c ∷ s) in
    if starts_with marks (a ∷ b ∷ c ∷ s) then spaced ++ after else a ∷ next

-- `replace('\n', " ")`
abbrev pub replace_newlines : Text → Text
replace_newlines [] = []
replace_newlines (c ∷ s) = (if is_newline c then 32 else c) ∷ replace_newlines s

abbrev pub is_given : Text → Bool
is_given s = not (is_empty s)

abbrev pub source_field : Option Text → Text
source_field none = []
source_field (some src) = codes " source=" ++ replace_newlines (replace_marks src)

-- What stands between the item tag and the marks.
unfoldable pub header : Fence → Text → Text → Text → Option Text → Text
header f label id role source =
    label
    ++ (codes "="
        ++ (id
            ++ (codes " role="
                ++ (role
                    ++ (source_field (keep_if is_given source) ++ (codes " nonce=" ++ f.nonce))))))

unfoldable pub open_line : Fence → Text → Text → Text → Option Text → Text
open_line f label id role source =
    item_tag ++ (header f label id role source ++ (marks ++ (newline ∷ [])))

-- The delimiter of an item's end, without its line break.
unfoldable pub closer : Fence → Text
closer f = codes "<<<END nonce=" ++ (f.nonce ++ marks)

abbrev pub close : Fence → Text
close f = closer f ++ (newline ∷ [])

unfoldable pub wrap : Fence → Text → Text → Text → Option Text → Text → Text
wrap f label id role source text =
    open_line f label id role source ++ (trim_end_matches is_newline text ++ (newline ∷ close f))

-- `split_once('=')`
abbrev pub split_once : Text → Option (Text × Text)
split_once [] = none
split_once (c ∷ s) = let rest = split_once s in if c == 61 then some ([], s) else push rest
  where
    push : Option (Text × Text) → Option (Text × Text)
    push none = none
    push (some (k, v)) = some (c ∷ k, v)

-- The local variables of a header's loop.
pub record Header : Type 0 where
  pub item : FencedItem
  pub nonce_ok : Bool

abbrev pub read_pair : Fence → Header → Option (Text × Text) → Header
read_pair f h none = h
read_pair f h (some (k, v)) =
    if text_eq k (codes "role")
    then record h { item = record h.item { role = v } }
    else if text_eq k (codes "source")
    then record h { item = record h.item { source = some v } }
    else if text_eq k (codes "nonce")
    then record h { nonce_ok = text_eq v f.nonce }
    else if is_empty h.item.label
    then record h { item = record h.item { label = k; id = v } }
    else h

abbrev pub read_fields : Fence → Header → List Text → Header
read_fields f h [] = h
read_fields f h (field ∷ fields) = read_fields f (read_pair f h (split_once field)) fields

unfoldable pub read_header : Fence → Text → Header
read_header f line =
    read_fields f
      (record {
        item = record { label = []; id = []; role = []; source = none; text = [] };
        nonce_ok = false;
      })
      (split_whitespace line)

-- What one turn of the loop of `split` does: break, go on from a place, or push an item first.
pub data Turn : Type 0 where
  stop : Turn
  skip : Text → Turn
  push_item : FencedItem → Text → Turn

abbrev pub end_item : Fence → Header → Text → Option ℕ → Turn
end_item f h body_start none = stop
end_item f h body_start (some end) =
    push_item (record h.item { text = trim_end_matches is_newline (take end body_start) })
      (drop (end + length (closer f)) body_start)

abbrev pub read_body : Fence → Header → Text → Turn
read_body f h body_start =
    if not h.nonce_ok
    then skip body_start
    else end_item f h body_start (find_text (closer f) body_start)

abbrev pub end_header : Fence → Text → Option ℕ → Turn
end_header f after none = stop
end_header f after (some hdr_end) =
    if any is_newline (take hdr_end after)
      || not (starts_with (marks ++ (newline ∷ [])) (drop hdr_end after))
    then skip (drop (max hdr_end 1) after)
    else read_body f (read_header f (take hdr_end after)) (drop (hdr_end + 4) after)

abbrev pub start_item : Fence → Text → Option ℕ → Turn
start_item f rest none = stop
start_item f rest (some i) =
    let after = drop (i + length item_tag) rest in end_header f after (find_text marks after)

unfoldable pub turn : Fence → Text → Turn
turn f rest = start_item f rest (find_text item_tag rest)

-- The loop, on fuel: each turn drops an item tag at least.
unfoldable pub split_on : ℕ → Fence → Text → List FencedItem
split_on zero f rest = []
split_on (suc n) f rest = elim (turn f rest) [
  | stop ↦ []
  | skip next ↦ split_on n f next
  | push_item item next ↦ item ∷ split_on n f next
]

unfoldable pub split : Fence → Text → List FencedItem
split f prompt = split_on (length prompt) f prompt

abbrev pub is_text : Option Text → Text → Bool
is_text none t = false
is_text (some s) t = text_eq s t

unfoldable pub role_for : Text → Option Text → Option Text → Text
role_for kind surface corpus_role =
    if is_text surface (codes "browse_event") || text_eq kind (codes "browse_event")
    then codes "page"
    else if is_text surface (codes "foreign") || text_eq kind (codes "foreign")
    then codes "foreign"
    else if is_text surface (codes "note") || text_eq kind (codes "note")
    then codes "note"
    else if text_eq kind (codes "prompt")
    then prompt_role corpus_role
    else if is_decision_kind kind
    then codes "decision"
    else codes "event"
  where
    prompt_role : Option Text → Text
    prompt_role role =
        if is_text role (codes "system")
        then codes "system"
        else if is_text role (codes "assistant")
        then codes "assistant"
        else if is_text role (codes "tool")
        then codes "tool"
        else if is_text role (codes "agent")
        then codes "agent"
        else codes "user"
