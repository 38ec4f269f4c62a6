-- ===== src/Notes/Written.antt =====
-- One act writes one event and one row; an act that changes nothing writes nothing.
use polis_memory.Prelude.{
  ℕ, ◌<◌, ◌≡◌, refl, sym, ap, ◌∙◌, subst, ℤ, Bool, true, not, ◌&&◌, ◌||◌, Option, none, some, List,
  [], ◌∷◌, ◌++◌, ◌==◌, arith, All, find, any, is_some, is_empty, Option-cases, Bool-cases, inl, inr,
  unwrap_or, map_some, keep_if, ==_iff,
}
use polis_memory.Prelude.Tables.{
  lookup, Distinct, lookup-key, lookup-append_same, lookup-update_same,
}
use polis_memory.Prelude.Undo.{lookup_above}
use polis_memory.Prelude.Text.{Text, codes, trim}
use polis_memory.Ledger.{Hasher, LedgerAppend, LedgerEventRow, Chained, genesis_prev}
use polis_memory.Ledger.Append.{next_row}
use polis_memory.Notes.{
  NoteDb, NoteEvent, NoteOutcome, NoteWrite, Resolved, UserNote, act, finish, fresh, insert_note,
  new_note, note_event, note_key, note_payload, on_target, record_act, ref_id_of, refuse, rejected,
  resolve, resolve_kind, resolve_target, row, row_or_refuse, save, unchanged, write_resolved,
  write_user_note, written,
}
use polis_memory.Notes.Acts.{
  Acted, Addressed, AlreadySo, Asked, Asked-saved, IsOneAct, OldRow, SameNote, act-Acted, held,
  made,
}

pub record IsValid (h : Hasher) (db : NoteDb) : Type 0 where
  pub chained : Chained h genesis_prev db.rows
  pub once : Distinct note_key db.notes
  pub below : All (λ (n : UserNote). n.id < db.next_note) db.notes

-- What a written act has done.
pub record Wrote (h : Hasher) (w : NoteWrite) (actor : Text) (now : ℤ) (before : NoteDb)
    (n : UserNote) (after : NoteDb) : Type 0 where
  pub old : UserNote
  pub origin : OldRow before old
  pub addressed : Addressed w old
  pub same : SameNote old n
  pub action : Text
  pub asked : Asked w old n action
  pub event : LedgerEventRow
  pub is_next : event ≡ next_row h before.rows (note_event h action n actor now)
  pub rows : after.rows ≡ before.rows ++ event ∷ []
  pub seq : n.seq ≡ some event.seq
  pub stored : lookup note_key n.id after.notes ≡ some n
  pub indexed :
      after.events
      ≡ before.events
        ++ (record { seq = event.seq; note_id = n.id; payload_hash = event.payload_hash }) ∷ []

abbrev pub Outcome : Hasher → NoteWrite → Text → ℤ → NoteDb → NoteOutcome × NoteDb → Type 0
Outcome h w actor now before (written n, after) = Wrote h w actor now before n after
Outcome h w actor now before (unchanged n, after) =
    (after ≡ before) × OldRow before n × Addressed w n × AlreadySo w n
Outcome h w actor now before (rejected reason, after) = after ≡ before

saved_row :
    (n m : UserNote) (ev : LedgerEventRow)
    → SameNote n m
    → save m ev n ≡ record m { seq = some ev.seq; updated_at = ev.ts }
saved_row n m ev same = λ i. record m {
  id = (sym same.0) i;
  seq = some ev.seq;
  target_kind = (sym same.1) i;
  target_id = (sym same.2) i;
  created_at = (sym same.3) i;
  updated_at = ev.ts;
}

next_row_payload :
    (h : Hasher) (rows : List LedgerEventRow) (a : LedgerAppend)
    → (next_row h rows a).payload_hash ≡ a.payload_hash
unfolding next_row
next_row_payload h rows a = refl

entry : (xs ys : List NoteEvent) (a b : NoteEvent) → xs ≡ ys → a ≡ b → xs ++ a ∷ [] ≡ ys ++ b ∷ []
entry xs ys a b p q = cc

record_act-Wrote :
    (h : Hasher) (w : NoteWrite) (action actor : Text) (n m : UserNote) (now : ℤ)
    (before db : NoteDb)
    → OldRow before n
    → Addressed w n
    → SameNote n m
    → Asked w n m action
    → lookup note_key n.id db.notes ≡ some n
    → db.rows ≡ before.rows
    → db.events ≡ before.events
    → Outcome h w actor now before (record_act h action m actor now db)
unfolding record_act ref_id_of
record_act-Wrote h w action actor n m now before db origin addr same asked found rows events =
    let ev = next_row h db.rows (note_event h action m actor now) in
    record {
      old = n;
      origin = origin;
      addressed = addr;
      same = same;
      action = action;
      asked = Asked-saved w n m action ev asked;
      event = ev;
      is_next =
          ap (λ (rs : List LedgerEventRow). next_row h rs (note_event h action m actor now)) rows;
      rows = ap (λ (rs : List LedgerEventRow). rs ++ ev ∷ []) rows;
      seq = refl;
      stored =
          lookup-update_same note_key m.id (λ r. true) (save m ev) (λ r. refl) db.notes
          ∙ ap (map_some (save m ev))
              (subst (λ (k : ℕ). lookup note_key k db.notes ≡ some n) (sym same.0) found)
          ∙ ap some (saved_row n m ev same);
      indexed =
          entry db.events before.events
            (record { seq = ev.seq; note_id = m.id; payload_hash = note_payload h action m.text })
            (record { seq = ev.seq; note_id = m.id; payload_hash = ev.payload_hash }) events
            (λ i. record {
              seq = ev.seq;
              note_id = m.id;
              payload_hash = (sym (next_row_payload h db.rows (note_event h action m actor now))) i;
            });
    }

finish-Outcome :
    (h : Hasher) (w : NoteWrite) (actor : Text) (n : UserNote) (o : Option (Text × UserNote))
    (now : ℤ) (before db : NoteDb)
    → OldRow before n
    → Addressed w n
    → Acted w n o
    → lookup note_key n.id db.notes ≡ some n
    → db.rows ≡ before.rows
    → db.events ≡ before.events
    → Outcome h w actor now before (finish h n o actor now before db)
unfolding finish
finish-Outcome h w actor n none now before db origin addr acted found rows events =
    (refl, origin, addr, acted)
finish-Outcome h w actor n (some (action, m)) now before db origin addr acted found rows events =
    record_act-Wrote h w action actor n m now before db origin addr acted.0 acted.2 found rows
      events

write_resolved-Outcome :
    (h : Hasher) (w : NoteWrite) (actor : Text) (now : ℤ) (db : NoteDb) (r : Resolved)
    → IsValid h db
    → IsOneAct w.text w.starred
    → ((n : UserNote) → r ≡ row n → (lookup note_key n.id db.notes ≡ some n) × Addressed w n)
    → ((kind : Text) (target : Option Text) → r ≡ fresh kind target → w.note_id ≡ none)
    → Outcome h w actor now db (write_resolved h w actor now db r)
unfolding write_resolved
write_resolved-Outcome h w actor now db (refuse reason) v one stored new = refl
write_resolved-Outcome h w actor now db (row n) v one stored new =
    elim (Bool-cases (any (λ id. id == n.id) db.forgotten)) [
      | inl gone ↦ rw (write_resolved, gone) refl
      | inr live ↦
          rw (write_resolved, live)
            (finish-Outcome h w actor n (act w n) now db db (held (stored n refl).0)
              (stored n refl).1 (act-Acted w n w.text w.starred one) (stored n refl).0 refl refl)
    ]
write_resolved-Outcome h w actor now db (fresh kind target) v one stored new =
    let n = new_note db.next_note kind target now in
    finish-Outcome h w actor n (act w n) now db (insert_note n db) (made refl refl refl)
      (inl (new kind target refl)) (act-Acted w n w.text w.starred one)
      (lookup-append_same note_key db.notes n (lookup_above note_key db.next_note db.notes v.below))
      refl refl

found_id :
    (p : UserNote → Bool) (n : UserNote) (notes : List UserNote)
    → Distinct note_key notes
    → find p notes ≡ some n
    → lookup note_key n.id notes ≡ some n
unfolding find lookup
found_id p n [] d e = cc
found_id p n (m ∷ notes) d e = elim (Bool-cases (p m)) [
  | inl hit ↦ let same : m ≡ n = ground (arith, hit, e) in ground (arith, same, ap note_key same)
  | inr miss ↦
      let found = found_id p n notes d.1 (ground (arith, miss, e)) in
      elim (Bool-cases (m.id == n.id)) [
        | inl clash ↦
            let missing =
              subst (λ (k : ℕ). lookup note_key k notes ≡ none) ((==_iff m.id n.id).0 clash) d.0 in
            (let none_some : none ≡ some n = sym missing ∙ found in cc none_some)
        | inr apart ↦ ground (arith, apart, found)
      ]
]

target_row :
    (kind : Text) (o : Option Text) (db : NoteDb) (n : UserNote)
    → resolve_target kind o db ≡ row n
    → (id : Text) × (find (on_target kind id) db.notes ≡ some n)
unfolding resolve_target
target_row kind none db n e = cc
target_row kind (some id) db n e = (id, ground (arith, e))

kind_row :
    (kind : Text) (w : NoteWrite) (db : NoteDb) (n : UserNote)
    → resolve_kind kind w db ≡ row n
    → (id : Text) × (find (on_target kind id) db.notes ≡ some n)
unfolding resolve_kind
kind_row kind w db n e =
    target_row kind (keep_if (λ s. not (is_empty (trim s))) w.target_id) db n (ground (arith, e))

id_row :
    (id : ℕ) (n : UserNote) (db : NoteDb)
    → row_or_refuse id (lookup note_key id db.notes) ≡ row n
    → (lookup note_key n.id db.notes ≡ some n) × (id ≡ n.id)
id_row id n db e =
    let found : lookup note_key id db.notes ≡ some n = ground (arith, e) in
    let same = sym (lookup-key note_key id db.notes n found) in
    (subst (λ (k : ℕ). lookup note_key k db.notes ≡ some n) same found, same)

resolve_row :
    (h : Hasher) (w : NoteWrite) (db : NoteDb) (n : UserNote)
    → IsValid h db
    → resolve w db ≡ row n
    → (lookup note_key n.id db.notes ≡ some n) × Addressed w n
unfolding resolve
resolve_row h w db n v e = elim (Option-cases w.note_id) [
  | inl none_given ↦
      let found =
        kind_row (unwrap_or w.target_kind (codes "none")) w db n (ground (arith, e, none_given)) in
      (
        found_id (on_target (unwrap_or w.target_kind (codes "none")) found.0) n db.notes v.once
            found.1,
        inl none_given,
      )
  | inr (id, given) ↦
      let (held_row, same) = id_row id n db (ground (arith, e, given)) in
      (held_row, inr (given ∙ ap some same))
]

resolve_fresh :
    (w : NoteWrite) (db : NoteDb) (kind : Text) (target : Option Text)
    → resolve w db ≡ fresh kind target
    → w.note_id ≡ none
unfolding resolve
resolve_fresh w db kind target e = elim (Option-cases w.note_id) [
  | inl none_given ↦ none_given
  | inr (id, given) ↦ absurd (no_row id (lookup note_key id db.notes) (ground (arith, e, given)))
]
  where
    no_row : (id : ℕ) (o : Option UserNote) → row_or_refuse id o ≡ fresh kind target → ⊥
    no_row id none q = cc
    no_row id (some n) q = cc

-- Whatever a write answers. If the note was written, a row of the table or a new one without text or
-- star, with the named id where the write names one, has become the returned row: this has the
-- requested text, which the old one did not have, or the requested star or none, and keeps the other
-- columns but seq and time. The ledger has exactly the next event more, which hashes the word for
-- the act and the text, the table holds the row under its id with the event's seq, and the index of
-- note events points from the event to the row. If the write answers `unchanged`, such a row already
-- was as requested and nothing is changed; if it refuses, nothing is changed.
pub write_user_note-Outcome :
    (h : Hasher) (w : NoteWrite) (actor : Text) (now : ℤ) (db : NoteDb)
    → IsValid h db
    → Outcome h w actor now db (write_user_note h w actor now db)
unfolding write_user_note
write_user_note-Outcome h w actor now db v =
    elim (Bool-cases (
      (is_some w.text && is_some w.starred) || (not (is_some w.text) && not (is_some w.starred)))) [
        | inl both ↦ rw (both, write_user_note) refl
        | inr one ↦
            rw (one, write_user_note)
              (write_resolved-Outcome h w actor now db (resolve w db) v one
                (λ n e. resolve_row h w db n v e) (resolve_fresh w db))
      ]
