-- ===== src/Notes.antt =====
-- crates/polis-store/src/notes.rs: the user's notes and stars. `write_user_note` is the scoped write
-- under the default scope, which sees every note; the columns of the scope are left out.
pub mod Acts
pub mod Written
pub mod Keeps
pub mod Tests
use polis_memory.Prelude.{
  ℕ, zero, suc, ◌+◌, ◌-◌, ◌*◌, ℤ, ◌≡◌, Bool, true, false, not, ◌&&◌, ◌||◌, Option, none, some, List,
  [], ◌∷◌, ◌++◌, ◌==◌, leb, if◌then◌else◌, any, find, is_some, is_empty, unwrap_or, map_some,
  keep_if, keep, ltb_ℤ, take,
}
use polis_memory.Prelude.Tables.{lookup, update}
use polis_memory.Prelude.Text.{Text, codes, text_eq, to_string, trim}
use polis_memory.Ledger.{Hasher, LedgerEventRow, LedgerAppend}
use polis_memory.Ledger.Append.{next_row}
use polis_memory.Supersession.{decision_payload_hash}

pub record UserNote : Type 0 where
  pub id : ℕ
  pub seq : Option ℕ
  pub target_kind : Text
  pub target_id : Option Text
  pub text : Text
  pub starred : Bool
  pub created_at : ℤ
  pub updated_at : ℤ

pub record NoteWrite : Type 0 where
  pub note_id : Option ℕ
  pub target_kind : Option Text
  pub target_id : Option Text
  pub text : Option Text
  pub starred : Option Bool

pub data Reason : Type 0 where
  one_act needs_text needs_target no_target unknown_kind note_forgotten : Reason
  no_note : ℕ → Reason

pub data NoteOutcome : Type 0 where
  written : UserNote → NoteOutcome
  unchanged : UserNote → NoteOutcome
  rejected : Reason → NoteOutcome

-- A row of `note_events`.
pub record NoteEvent : Type 0 where
  pub seq : ℕ
  pub note_id : ℕ
  pub payload_hash : Text

-- The ledger, the notes and their events, the ids of forgotten notes, those of live class nodes, and
-- the rowid that the next note gets.
pub record NoteDb : Type 0 where
  pub rows : List LedgerEventRow
  pub notes : List UserNote
  pub events : List NoteEvent
  pub forgotten : List ℕ
  pub nodes : List Text
  pub next_note : ℕ

abbrev pub note_key : UserNote → ℕ
note_key n = n.id

-- `str::parse::<i64>` where it gives a number from 0 up; any other names no event.
abbrev pub digits_value : ℕ → Text → Option ℕ
digits_value n [] = some n
digits_value n (c ∷ s) = if leb 48 c && leb c 57 then digits_value (n * 10 + (c - 48)) s else none

abbrev pub parse_seq : Text → Option ℕ
parse_seq [] = none
parse_seq (c ∷ []) = digits_value 0 (c ∷ [])
parse_seq (c ∷ d ∷ s) = if c == 43 then digits_value 0 (d ∷ s) else digits_value 0 (c ∷ d ∷ s)

abbrev pub seq_exists : Option ℕ → List LedgerEventRow → Bool
seq_exists none rows = false
seq_exists (some n) rows = any (λ e. e.seq == n) rows

abbrev pub note_kinds : List Text
note_kinds = codes "ledger_event" ∷ codes "class_node" ∷ codes "session" ∷ codes "none" ∷ []

-- The annotated thing exists, where it can be checked.
unfoldable pub target_exists : Text → Text → NoteDb → Bool
unfolding text_eq any
target_exists kind id db =
    if text_eq kind (codes "ledger_event")
    then seq_exists (parse_seq id) db.rows
    else if text_eq kind (codes "class_node")
    then any (text_eq id) db.nodes
    else true

abbrev pub on_target : Text → Text → UserNote → Bool
on_target kind id n =
    text_eq n.target_kind kind && (elim n.target_id [ none ↦ false | some t ↦ text_eq t id ])

-- What the write is about: a row, a row to be made, or nothing.
pub data Resolved : Type 0 where
  row : UserNote → Resolved
  fresh : Text → Option Text → Resolved
  refuse : Reason → Resolved

abbrev pub row_or_fresh : Text → Text → Option UserNote → Resolved
row_or_fresh kind id none = fresh kind (some id)
row_or_fresh kind id (some n) = row n

unfoldable pub resolve_target : Text → Option Text → NoteDb → Resolved
unfolding target_exists find
resolve_target kind none db = refuse needs_target
resolve_target kind (some id) db =
    if not (target_exists kind id db)
    then refuse no_target
    else row_or_fresh kind id (find (on_target kind id) db.notes)

abbrev pub row_or_refuse : ℕ → Option UserNote → Resolved
row_or_refuse id none = refuse (no_note id)
row_or_refuse id (some n) = row n

abbrev pub text_or_empty : Option Text → Text
text_or_empty none = []
text_or_empty (some t) = trim t

unfoldable pub resolve_kind : Text → NoteWrite → NoteDb → Resolved
unfolding resolve_target text_eq trim any
resolve_kind kind w db =
    if not (any (text_eq kind) note_kinds)
    then refuse unknown_kind
    else if text_eq kind (codes "none")
    then if is_empty (text_or_empty w.text) then refuse needs_text else fresh kind none
    else resolve_target kind (keep_if (λ s. not (is_empty (trim s))) w.target_id) db

unfoldable pub resolve : NoteWrite → NoteDb → Resolved
unfolding resolve_kind lookup
resolve w db = elim w.note_id [
  | some id ↦ row_or_refuse id (lookup note_key id db.notes)
  | none ↦ resolve_kind (unwrap_or w.target_kind (codes "none")) w db
]

abbrev pub new_note : ℕ → Text → Option Text → ℤ → UserNote
new_note id kind target now = record {
  id = id;
  seq = none;
  target_kind = kind;
  target_id = target;
  text = [];
  starred = false;
  created_at = now;
  updated_at = now;
}

-- The act applied to the row, with its name; `none` where it changes nothing.
unfoldable pub act : NoteWrite → UserNote → Option (Text × UserNote)
unfolding text_eq
act w n = elim w.text [
  | some t ↦ if text_eq n.text t then none else some (codes "note", record n { text = t })
  | none ↦ elim (unwrap_or w.starred false) [
    | true ↦ if n.starred then none else some (codes "star", record n { starred = true })
    | false ↦ if n.starred then some (codes "unstar", record n { starred = false }) else none
  ]
]

unfoldable pub note_payload : Hasher → Text → Text → Text
note_payload h action text =
    decision_payload_hash h ((codes "action", action) ∷ (codes "text", text) ∷ [])

-- A standalone note's event references its own row.
unfoldable pub ref_id_of : UserNote → Text
unfolding text_eq
ref_id_of n =
    if text_eq n.target_kind (codes "none") then to_string n.id else unwrap_or n.target_id []

abbrev pub note_event : Hasher → Text → UserNote → Text → ℤ → LedgerAppend
note_event h action n actor now = record {
  kind = codes "note";
  author = actor;
  ts = now;
  prompt_id = none;
  session_id = if text_eq n.target_kind (codes "session") then some (ref_id_of n) else none;
  version_number = none;
  ref_kind = some n.target_kind;
  ref_id = some (ref_id_of n);
  payload_hash = note_payload h action n.text;
}

-- UPDATE user_notes SET seq, text, starred, updated_at.
abbrev pub save : UserNote → LedgerEventRow → UserNote → UserNote
save n ev m = record m { seq = some ev.seq; text = n.text; starred = n.starred; updated_at = ev.ts }

-- The event, the row and the event's index entry.
unfoldable pub record_act : Hasher → Text → UserNote → Text → ℤ → NoteDb → NoteOutcome × NoteDb
unfolding update
record_act h action n actor now db =
    let ev = next_row h db.rows (note_event h action n actor now) in
    let saved : UserNote = record n { seq = some ev.seq; updated_at = ev.ts } in
    (
      written saved,
      record db {
        rows = db.rows ++ ev ∷ [];
        notes = update note_key n.id (λ m. true) (save n ev) db.notes;
        events =
            db.events
            ++ (record {
              seq = ev.seq;
              note_id = n.id;
              payload_hash = note_payload h action n.text;
            })
              ∷ [];
      },
    )

-- Nothing of an act that changes nothing is committed.
unfoldable pub finish :
    Hasher → UserNote → Option (Text × UserNote) → Text → ℤ → NoteDb → NoteDb → NoteOutcome × NoteDb
unfolding record_act
finish h n none actor now before db = (unchanged n, before)
finish h n (some (action, m)) actor now before db = record_act h action m actor now db

abbrev pub insert_note : UserNote → NoteDb → NoteDb
insert_note n db = record db { notes = db.notes ++ n ∷ []; next_note = suc db.next_note }

unfoldable pub write_resolved :
    Hasher → NoteWrite → Text → ℤ → NoteDb → Resolved → NoteOutcome × NoteDb
unfolding finish act any
write_resolved h w actor now db (refuse reason) = (rejected reason, db)
write_resolved h w actor now db (row n) =
    if any (λ id. id == n.id) db.forgotten
    then (rejected note_forgotten, db)
    else finish h n (act w n) actor now db db
write_resolved h w actor now db (fresh kind target) =
    let n = new_note db.next_note kind target now in
    finish h n (act w n) actor now db (insert_note n db)

unfoldable pub write_user_note : Hasher → NoteWrite → Text → ℤ → NoteDb → NoteOutcome × NoteDb
unfolding resolve write_resolved
write_user_note h w actor now db =
    if (is_some w.text && is_some w.starred) || (not (is_some w.text) && not (is_some w.starred))
    then (rejected one_act, db)
    else write_resolved h w actor now db (resolve w db)

-- SELECT … WHERE target_kind = ? AND target_id = ?.
unfoldable pub get_user_note : Text → Text → NoteDb → Option UserNote
unfolding find
get_user_note kind id db = find (on_target kind id) db.notes
