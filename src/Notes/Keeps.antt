-- ===== src/Notes/Keeps.antt =====
-- A write keeps the notes and the ledger in order; and the write that names a row that is not there.
use polis_memory.Prelude.{
  ℕ, suc, ◌<◌, ◌≡◌, refl, sym, subst, ℤ, true, false, not, ◌&&◌, ◌||◌, Option, none, some, List, [],
  ◌∷◌, ◌==◌, arith, All, All-append, any, is_some, Bool-cases, inl, inr,
}
use polis_memory.Prelude.Tables.{lookup, update}
use polis_memory.Prelude.Undo.{Distinct-append, lookup_above, update-Distinct}
use polis_memory.Prelude.Text.{Text}
use polis_memory.Ledger.{Hasher, LedgerEventRow}
use polis_memory.Ledger.Append.{next_row, next_row-Chained}
use polis_memory.Notes.{
  NoteDb, NoteWrite, Resolved, UserNote, act, finish, fresh, insert_note, new_note, note_event,
  note_key, record_act, refuse, resolve, row, save, unchanged, write_resolved, write_user_note,
}
use polis_memory.Notes.Written.{IsValid}

update_below :
    (k next : ℕ) (m : UserNote) (ev : LedgerEventRow) (notes : List UserNote)
    → All (λ (n : UserNote). n.id < next) notes
    → All (λ (n : UserNote). n.id < next) (update note_key k (λ r. true) (save m ev) notes)
unfolding update
update_below k next m ev [] a = tt
update_below k next m ev (n ∷ notes) a = (ground (arith, a.0), update_below k next m ev notes a.1)

record_act-IsValid :
    (h : Hasher) (action actor : Text) (m : UserNote) (now : ℤ) (db : NoteDb)
    → IsValid h db
    → IsValid h (record_act h action m actor now db).1
unfolding record_act
record_act-IsValid h action actor m now db v = record {
  chained = next_row-Chained h db.rows (note_event h action m actor now) v.chained;
  once =
      update-Distinct note_key (λ r. true)
        (save m (next_row h db.rows (note_event h action m actor now))) (λ r. refl) m.id db.notes
        v.once;
  below =
      update_below m.id db.next_note m (next_row h db.rows (note_event h action m actor now))
        db.notes v.below;
}

finish-IsValid :
    (h : Hasher) (actor : Text) (n : UserNote) (o : Option (Text × UserNote)) (now : ℤ)
    (before db : NoteDb)
    → IsValid h before
    → IsValid h db
    → IsValid h (finish h n o actor now before db).1
unfolding finish
finish-IsValid h actor n none now before db v w = v
finish-IsValid h actor n (some (action, m)) now before db v w =
    record_act-IsValid h action actor m now db w

raise :
    (k : ℕ) (notes : List UserNote)
    → All (λ (n : UserNote). n.id < k) notes
    → All (λ (n : UserNote). n.id < suc k) notes
raise k [] a = tt
raise k (n ∷ notes) a = (omega (arith, a.0), raise k notes a.1)

insert_note-IsValid :
    (h : Hasher) (n : UserNote) (db : NoteDb)
    → n.id ≡ db.next_note
    → IsValid h db
    → IsValid h (insert_note n db)
insert_note-IsValid h n db e v = record {
  chained = v.chained;
  once =
      Distinct-append note_key db.notes n v.once
        (subst (λ (k : ℕ). All (λ (m : UserNote). m.id < k) db.notes) (sym e) v.below);
  below =
      All-append (λ (m : UserNote). m.id < suc db.next_note) db.notes (n ∷ [])
        (raise db.next_note db.notes v.below) (omega (arith, e), tt);
}

write_resolved-IsValid :
    (h : Hasher) (w : NoteWrite) (actor : Text) (now : ℤ) (db : NoteDb) (r : Resolved)
    → IsValid h db
    → IsValid h (write_resolved h w actor now db r).1
unfolding write_resolved
write_resolved-IsValid h w actor now db (refuse reason) v = v
write_resolved-IsValid h w actor now db (row n) v =
    elim (Bool-cases (any (λ id. id == n.id) db.forgotten)) [
      | inl gone ↦ rw (write_resolved, gone) v
      | inr live ↦ rw (write_resolved, live) (finish-IsValid h actor n (act w n) now db db v v)
    ]
write_resolved-IsValid h w actor now db (fresh kind target) v =
    let n = new_note db.next_note kind target now in
    finish-IsValid h actor n (act w n) now db (insert_note n db) v
      (insert_note-IsValid h n db refl v)

-- A write keeps a ledger that verifies and a table of notes in which every id stands once, below the
-- next one.
pub write_user_note-IsValid :
    (h : Hasher) (w : NoteWrite) (actor : Text) (now : ℤ) (db : NoteDb)
    → IsValid h db
    → IsValid h (write_user_note h w actor now db).1
unfolding write_user_note
write_user_note-IsValid h w actor now db v =
    elim (Bool-cases (
      (is_some w.text && is_some w.starred) || (not (is_some w.text) && not (is_some w.starred)))) [
        | inl both ↦ rw (both, write_user_note) v
        | inr one ↦
            rw (one, write_user_note) (write_resolved-IsValid h w actor now db (resolve w db) v)
      ]

unstar_nothing :
    (w : NoteWrite) (n : UserNote)
    → w.text ≡ none
    → w.starred ≡ some false
    → n.starred ≡ false
    → act w n ≡ none
unfolding act
unstar_nothing w n text star off = ground (arith, text, star, off)

-- A write that takes the star from a target without a note answers `unchanged` with the row that it
-- has just made, and commits nothing: no row with that id is in the table.
pub unstar_new_note :
    (h : Hasher) (w : NoteWrite) (actor : Text) (now : ℤ) (db : NoteDb) (kind : Text)
    (target : Option Text)
    → IsValid h db
    → w.text ≡ none
    → w.starred ≡ some false
    → resolve w db ≡ fresh kind target
    → (write_user_note h w actor now db ≡ (unchanged (new_note db.next_note kind target now), db))
      × (lookup note_key db.next_note db.notes ≡ none)
unfolding write_user_note write_resolved finish
unstar_new_note h w actor now db kind target v text star made =
    let n = new_note db.next_note kind target now in
    (
      rw (text, star, made, write_resolved, unstar_nothing w n text star refl, finish) refl,
      lookup_above note_key db.next_note db.notes v.below,
    )
