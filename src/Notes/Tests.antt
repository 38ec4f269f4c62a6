-- ===== src/Notes/Tests.antt =====
-- A table without notes: a star set and a star taken away.
use polis_memory.Prelude.{◌≡◌, refl, true, false, none, some, pos, [], ◌∷◌, any, find}
use polis_memory.Prelude.Tables.{update}
use polis_memory.Prelude.Text.{codes, text_eq, trim, trim_start, is_whitespace}
use polis_memory.Ledger.{Hasher}
use polis_memory.Ledger.Append.{next_row, head_row}
use polis_memory.Notes.{
  NoteDb, NoteWrite, act, finish, fresh, get_user_note, record_act, resolve, resolve_kind,
  resolve_target, target_exists, write_resolved, write_user_note,
}
use polis_memory.Notes.Written.{IsValid, Outcome, write_user_note-Outcome}
use polis_memory.Notes.Keeps.{write_user_note-IsValid}

abbrev toy : Hasher
toy = record { sha256_hex = λ t. t; to_json = λ e. e.seq ∷ e.payload_hash }

abbrev no_notes : NoteDb
no_notes = record {
  rows = [];
  notes = [];
  events = [];
  forgotten = [];
  nodes = codes "cn" ∷ [];
  next_note = 1;
}

abbrev star : NoteWrite
star = record {
  note_id = none;
  target_kind = some (codes "session");
  target_id = some (codes "s");
  text = none;
  starred = some true;
}

abbrev unstar : NoteWrite
unstar = record star { starred = some false }

no_notes-IsValid : IsValid toy no_notes
no_notes-IsValid = record { chained = tt; once = tt; below = tt }

starred_row :
    (get_user_note
      (codes "session")
      (codes "s")
      (write_user_note toy star (codes "me") (pos 5) no_notes).1)
    ≡ some (record {
      id = 1;
      seq = some 1;
      target_kind = codes "session";
      target_id = some (codes "s");
      text = [];
      starred = true;
      created_at = pos 5;
      updated_at = pos 5;
    })
unfolding get_user_note find write_user_note resolve resolve_kind resolve_target target_exists
    write_resolved act finish record_act text_eq trim trim_start is_whitespace any update next_row
    head_row
starred_row = refl

write_user_note-Outcome_example :
    Outcome toy star
      (codes "me")
      (pos 5)
      no_notes
      (write_user_note toy star (codes "me") (pos 5) no_notes)
write_user_note-Outcome_example =
    write_user_note-Outcome toy star (codes "me") (pos 5) no_notes no_notes-IsValid

write_user_note-IsValid_example :
    IsValid toy (write_user_note toy star (codes "me") (pos 5) no_notes).1
write_user_note-IsValid_example =
    write_user_note-IsValid toy star (codes "me") (pos 5) no_notes no_notes-IsValid

fresh_target : resolve unstar no_notes ≡ fresh (codes "session") (some (codes "s"))
unfolding find resolve resolve_kind resolve_target target_exists text_eq trim trim_start
    is_whitespace any
fresh_target = refl
