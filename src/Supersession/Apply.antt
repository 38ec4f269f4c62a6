-- ===== src/Supersession/Apply.antt =====
-- What `apply_supersession_locked` does to the ledger and the index on every branch.
use polis_memory.Prelude.{
  ℕ, ℤ, ◌<◌, ◌≡◌, refl, sym, ap, ◌∙◌, subst, ◌⊎◌, inl, inr, Option, none, some, List, [], ◌∷◌, ◌++◌,
  any, find, arith, leb, ◌==◌, Bool-cases, Option-cases, All-append,
}
use polis_memory.Prelude.Text.{Text, codes, text_eq, text_eq_iff}
use polis_memory.Ledger.{Hasher, LedgerEventRow, Chained, genesis_prev}
use polis_memory.Ledger.Append.{next_row, next_row-Chained}
use polis_memory.Supersession.{
  Db, Reason, SupersessionOutcome, applied, rejected, superseded_by, chain_head, hop_limit, kind_of,
  kind_problem, first_problem, kinds_problem, is_decision_kind, supersede_event, record_edge,
  apply_at, apply_checked, apply_supersession_locked, record_approval_supersession,
}
use polis_memory.Supersession.Chains.{Rises, Once, Follows, here, Once-append, chain_head_lem}

module _ (h : Hasher) where
  -- The ledger verifies, and the index rises and supersedes each decision once.
  pub record IsValid (db : Db) : Type 0 where
    pub chained : Chained h genesis_prev db.rows
    pub rises : Rises db.edges
    pub once : Once db.edges

  record_edge-IsValid :
      (old_seq new_seq : ℕ) (rationale author : Text) (now : ℤ) (db : Db)
      → IsValid db
      → old_seq < new_seq
      → superseded_by db.edges old_seq ≡ none
      → IsValid (record_edge h old_seq new_seq rationale author now db)
  unfolding record_edge
  record_edge-IsValid old_seq new_seq rationale author now db v lt free = record {
    chained =
        next_row-Chained h db.rows (supersede_event h old_seq new_seq rationale author now)
          v.chained;
    rises = All-append (λ e. e.old_seq < e.new_seq) db.edges _ v.rises (lt, tt);
    once = Once-append db.edges _ v.once free;
  }

  -- A row of the ledger has this seq, and the first one that does is a decision.
  abbrev pub IsDecision : ℕ → List LedgerEventRow → Type 0
  IsDecision seq rows =
      (e : LedgerEventRow) × (find (λ r. r.seq == seq) rows ≡ some e)
      × ((e.kind ≡ codes "resolution")
          ⊎ ((e.kind ≡ codes "approval") ⊎ (e.kind ≡ codes "review_verdict")))

  -- Refused with nothing changed, or applied to the head of the old decision's chain.
  pub data Outcome (old_seq new_seq : ℕ) (rationale actor : Text) (now : ℤ) (db : Db)
      : SupersessionOutcome × Db → Type 0 where
    refused :
        (reason : Reason) → Outcome old_seq new_seq rationale actor now db (rejected reason, db)
    done :
        (effective_old : ℕ) (event : LedgerEventRow) (after : Db)
        → IsDecision old_seq db.rows
        → IsDecision new_seq db.rows
        → Follows db.edges old_seq effective_old
        → superseded_by db.edges effective_old ≡ none
        → effective_old < new_seq
        → event ≡ next_row h db.rows (supersede_event h effective_old new_seq rationale actor now)
        → after.rows ≡ db.rows ++ event ∷ []
        → after.edges
          ≡ db.edges
            ++ (record {
              old_seq = effective_old;
              new_seq = new_seq;
              event_seq = event.seq;
              created_at = now;
            })
              ∷ []
        → Outcome old_seq new_seq rationale actor now db
            (applied effective_old new_seq event.seq, after)

  kind_problem-IsDecision :
      (seq : ℕ) (rows : List LedgerEventRow)
      → kind_problem seq (kind_of seq rows) ≡ none
      → IsDecision seq rows
  unfolding kind_of is_decision_kind any
  kind_problem-IsDecision seq rows q = elim (Option-cases (find (λ r. r.seq == seq) rows)) [
    | inl missing ↦ let r = (rw (missing, kind_problem) at q) in cc
    | inr (e, found) ↦
        let r = (rw (found, kind_problem) at q) in
        (
          e,
          found,
          ground (
            arith,
            r,
            text_eq_iff (codes "resolution") e.kind,
            text_eq_iff (codes "approval") e.kind,
            text_eq_iff (codes "review_verdict") e.kind,
          ),
        )
  ]

  first_problem-none :
      (old_seq new_seq : ℕ) (old_kind new_kind : Option Text)
      → first_problem old_seq new_seq old_kind new_kind ≡ none
      → (kind_problem old_seq old_kind ≡ none) × (kind_problem new_seq new_kind ≡ none)
  unfolding is_decision_kind any text_eq
  first_problem-none old_seq new_seq none new_kind q = cc
  first_problem-none old_seq new_seq (some kind) new_kind q =
      elim (Bool-cases (is_decision_kind kind)) [
        | inl fine ↦ (rw fine refl, rw fine at q)
        | inr wrong ↦ let r = (rw wrong at q) in cc
      ]

  kinds_problem-IsDecision :
      (old_seq new_seq : ℕ) (rows : List LedgerEventRow)
      → kinds_problem old_seq new_seq rows ≡ none
      → IsDecision old_seq rows × IsDecision new_seq rows
  kinds_problem-IsDecision old_seq new_seq rows q =
      let fine =
        first_problem-none old_seq new_seq (kind_of old_seq rows) (kind_of new_seq rows) q in
      (kind_problem-IsDecision old_seq rows fine.0, kind_problem-IsDecision new_seq rows fine.1)

  apply_at-Outcome :
      (old_seq new_seq : ℕ) (rationale actor : Text) (now : ℤ) (db : Db) (head : Option ℕ)
      → kinds_problem old_seq new_seq db.rows ≡ none
      → chain_head db.edges hop_limit old_seq ≡ head
      → Outcome old_seq new_seq rationale actor now db
          (apply_at h head new_seq rationale actor now db)
  unfolding apply_at next_row
  apply_at-Outcome old_seq new_seq rationale actor now db none k q = refused _
  apply_at-Outcome old_seq new_seq rationale actor now db (some t) k q =
      elim (Bool-cases (t == new_seq)) [
        | inl same ↦ rw same (refused _)
        | inr differ ↦ elim (Bool-cases (leb new_seq t)) [
          | inl early ↦ rw (differ, early) (refused _)
          | inr later ↦
              let end = chain_head_lem db.edges hop_limit old_seq old_seq t here q in
              rw (differ, later)
                (unfold record_edge in
                  let decisions = kinds_problem-IsDecision old_seq new_seq db.rows k in
                  done t (next_row h db.rows (supersede_event h t new_seq rationale actor now))
                    (record_edge h t new_seq rationale actor now db) decisions.0 decisions.1 end.0
                    end.1 (ground (arith, later)) refl refl refl)
        ]
      ]

  apply_checked-Outcome :
      (old_seq new_seq : ℕ) (rationale actor : Text) (now : ℤ) (db : Db) (problem : Option Reason)
      → kinds_problem old_seq new_seq db.rows ≡ problem
      → Outcome old_seq new_seq rationale actor now db
          (apply_checked h problem old_seq new_seq rationale actor now db)
  unfolding apply_checked
  apply_checked-Outcome old_seq new_seq rationale actor now db (some reason) q = refused reason
  apply_checked-Outcome old_seq new_seq rationale actor now db none q =
      apply_at-Outcome old_seq new_seq rationale actor now db _ q refl

  -- A supersession is refused and changes nothing, or both seqs are rows whose kinds are among the
  -- three decision kinds, and exactly the next event and one index row that names its seq are added
  -- for the head of the old decision's chain: a seq that nothing superseded, reached from the old
  -- one over the index, and smaller than the new one.
  pub apply_supersession_locked-Outcome :
      (old_seq new_seq : ℕ) (rationale actor : Text) (now : ℤ) (db : Db)
      → Outcome old_seq new_seq rationale actor now db
          (apply_supersession_locked h old_seq new_seq rationale actor now db)
  unfolding apply_supersession_locked
  apply_supersession_locked-Outcome old_seq new_seq rationale actor now db =
      apply_checked-Outcome old_seq new_seq rationale actor now db _ refl

  Outcome-IsValid :
      (old_seq new_seq : ℕ) (rationale actor : Text) (now : ℤ) (db : Db)
      {r : SupersessionOutcome × Db}
      → Outcome old_seq new_seq rationale actor now db r
      → IsValid db
      → IsValid r.1
  Outcome-IsValid old_seq new_seq rationale actor now db (refused reason) v = v
  Outcome-IsValid old_seq new_seq rationale actor now db
        (done t event after old new f free lt e rows edges) v =
      record {
        chained =
            subst (Chained h genesis_prev)
              (sym (rows ∙ ap (λ (x : LedgerEventRow). db.rows ++ x ∷ []) e))
              (next_row-Chained h db.rows (supersede_event h t new_seq rationale actor now)
                v.chained);
        rises =
            subst Rises (sym edges)
              (All-append (λ e. e.old_seq < e.new_seq) db.edges _ v.rises (lt, tt));
        once = subst Once (sym edges) (Once-append db.edges _ v.once free);
      }

  -- Whatever is proposed, the ledger goes on to verify, every edge of the index rises, and no
  -- decision is superseded twice.
  pub apply_supersession_locked-IsValid :
      (old_seq new_seq : ℕ) (rationale actor : Text) (now : ℤ) (db : Db)
      → IsValid db
      → IsValid (apply_supersession_locked h old_seq new_seq rationale actor now db).1
  apply_supersession_locked-IsValid old_seq new_seq rationale actor now db v =
      Outcome-IsValid old_seq new_seq rationale actor now db
        (apply_supersession_locked-Outcome old_seq new_seq rationale actor now db) v

  -- The reversal of an approval keeps all this if the new event is later than the approval. The code
  -- does not check that it is.
  pub record_approval_supersession-IsValid :
      (approval_seq new_seq : ℕ) (rationale author : Text) (now : ℤ) (db : Db)
      → approval_seq < new_seq
      → IsValid db
      → IsValid (record_approval_supersession h approval_seq new_seq rationale author now db).1
  unfolding record_approval_supersession
  record_approval_supersession-IsValid approval_seq new_seq rationale author now db lt v =
      elim (Option-cases (superseded_by db.edges approval_seq)) [
        | inl free ↦
            rw free (record_edge-IsValid approval_seq new_seq rationale author now db v lt free)
        | inr (n, taken) ↦ rw taken (kept)
      ]
    where
      kept :
          IsValid (record (record_edge h approval_seq new_seq rationale author now db) {
            edges = db.edges;
          })
      kept =
          unfold record_edge in
          record {
            chained =
                next_row-Chained h db.rows
                  (supersede_event h approval_seq new_seq rationale author now) v.chained;
            rises = v.rises;
            once = v.once;
          }
