-- ===== src/Notes/Acts.antt =====
-- What a write to the notes asks for (crates/polis-store/src/notes.rs), and what its act does to a row.
use polis_memory.Prelude.{
  [], ◌≡◌, ◌≢◌, ◌⊎◌, refl, sym, ap, Bool, true, false, not, ◌&&◌, ◌||◌, Option, none, some, arith,
  is_some, Bool-cases, inl, inr,
}
use polis_memory.Prelude.Tables.{lookup}
use polis_memory.Prelude.Text.{Text, codes, text_eq, text_eq_iff}
use polis_memory.Ledger.{LedgerEventRow}
use polis_memory.Notes.{NoteDb, NoteWrite, UserNote, act, note_key}

-- The row that a write is about: one of the table, or a new one without text or star.
pub data OldRow (before : NoteDb) (o : UserNote) : Type 0 where
  held : lookup note_key o.id before.notes ≡ some o → OldRow before o
  made : o.id ≡ before.next_note → o.text ≡ [] → o.starred ≡ false → OldRow before o

-- A write that names a note by its id is about that note.
abbrev pub Addressed : NoteWrite → UserNote → Type 0
Addressed w o = (w.note_id ≡ none) ⊎ (w.note_id ≡ some o.id)

-- The row after the write, by what was asked, and the word for it.
pub data Asked (w : NoteWrite) (o n : UserNote) (action : Text) : Type 0 where
  text_set :
      (t : Text)
      → w.text ≡ some t
      → o.text ≢ t
      → action ≡ codes "note"
      → n.text ≡ t
      → n.starred ≡ o.starred
      → Asked w o n action
  star_set :
      w.starred ≡ some true
      → o.starred ≡ false
      → action ≡ codes "star"
      → n.text ≡ o.text
      → n.starred ≡ true
      → Asked w o n action
  star_taken :
      w.starred ≡ some false
      → o.starred ≡ true
      → action ≡ codes "unstar"
      → n.text ≡ o.text
      → n.starred ≡ false
      → Asked w o n action

-- The row already is as the write asks.
abbrev pub AlreadySo : NoteWrite → UserNote → Type 0
AlreadySo w n = (w.text ≡ some n.text) ⊎ (w.starred ≡ some n.starred)

-- The act changes the text or the star of the row, and nothing else.
abbrev pub SameNote : UserNote → UserNote → Type 0
SameNote n m =
    (m.id ≡ n.id)
    × (m.target_kind ≡ n.target_kind)
    × (m.target_id ≡ n.target_id)
    × (m.created_at ≡ n.created_at)

abbrev pub IsOneAct : Option Text → Option Bool → Type 0
IsOneAct text starred =
    ((is_some text && is_some starred) || (not (is_some text) && not (is_some starred))) ≡ false

-- What the act does to the row: the columns that it keeps, and what was asked.
abbrev pub Acted : NoteWrite → UserNote → Option (Text × UserNote) → Type 0
Acted w n none = AlreadySo w n
Acted w n (some (action, m)) = SameNote n m × (m.seq ≡ n.seq) × Asked w n m action

pub act-Acted :
    (w : NoteWrite) (n : UserNote) (text : Option Text) (starred : Option Bool)
    → IsOneAct text starred
    → let v : NoteWrite = record w { text = text; starred = starred } in Acted v n (act v n)
unfolding act
act-Acted w n (some t) (some b) one = cc
act-Acted w n none none one = cc
act-Acted w n (some t) none one = elim (Bool-cases (text_eq n.text t)) [
  | inl same ↦ simp same (inl (ap some (sym ((text_eq_iff n.text t).0 same))))
  | inr differ ↦ simp differ (
    (refl, refl, refl, refl),
    refl,
    text_set t refl (λ e. let yes = (text_eq_iff n.text t).1 e in ground (arith, differ, yes)) refl
        refl refl,
  )
]
act-Acted w n none (some true) one = elim (Bool-cases n.starred) [
  | inl set ↦ simp set (inr refl)
  | inr clear ↦ simp clear ((refl, refl, refl, refl), refl, star_set refl clear refl refl refl)
]
act-Acted w n none (some false) one = elim (Bool-cases n.starred) [
  | inl set ↦ simp set ((refl, refl, refl, refl), refl, star_taken refl set refl refl refl)
  | inr clear ↦ simp clear (inr refl)
]

pub Asked-saved :
    (w : NoteWrite) (n m : UserNote) (action : Text) (ev : LedgerEventRow)
    → Asked w n m action
    → Asked w n (record m { seq = some ev.seq; updated_at = ev.ts }) action
Asked-saved w n m action ev (text_set t a b c d e) = text_set t a b c d e
Asked-saved w n m action ev (star_set a b c d e) = star_set a b c d e
Asked-saved w n m action ev (star_taken a b c d e) = star_taken a b c d e
