-- ===== src/Supersession.antt =====
-- crates/polis-store/src/supersessions.rs: a newer decision replaces an older one. The index table
-- `supersessions` beside the ledger; seqs are native numbers, a negative one names no event.
pub mod Chains
pub mod Apply
pub mod Tests
use polis_memory.Prelude.{
  ℕ, zero, suc, ◌+◌, ℤ, Bool, true, false, not, Option, none, some, List, [], ◌∷◌, ◌++◌, ltb, leb,
  ◌==◌, if◌then◌else◌, any, find, map_some, is_some,
}
use polis_memory.Prelude.Text.{Text, codes, text_eq, to_string}
use polis_memory.Ledger.{Hasher, LedgerEventRow, LedgerAppend}
use polis_memory.Ledger.Append.{next_row}

-- A row of the index: `old_seq` is its primary key.
pub record Edge : Type 0 where
  pub old_seq : ℕ
  pub new_seq : ℕ
  pub event_seq : ℕ
  pub created_at : ℤ

pub record Db : Type 0 where
  pub rows : List LedgerEventRow
  pub edges : List Edge

-- Why a supersession is refused: one constructor for each message.
pub data Reason : Type 0 where
  no_event : ℕ → Reason
  not_a_decision : ℕ → Text → Reason
  chain_too_deep : Reason
  already_head : ℕ → Reason
  must_come_after : ℕ → ℕ → Reason

pub data SupersessionOutcome : Type 0 where
  applied : ℕ → ℕ → ℕ → SupersessionOutcome
  rejected : Reason → SupersessionOutcome

abbrev pub decision_kinds : List Text
decision_kinds = codes "resolution" ∷ codes "approval" ∷ codes "review_verdict" ∷ []

unfoldable pub is_decision_kind : Text → Bool
is_decision_kind kind = any (λ k. text_eq k kind) decision_kinds

-- Fields as `key=value` lines, hashed.
abbrev pub field_lines : List (Text × Text) → Text
field_lines [] = []
field_lines ((k, v) ∷ fields) = k ++ (codes "=" ++ (v ++ (10 ∷ field_lines fields)))

unfoldable pub decision_payload_hash : Hasher → List (Text × Text) → Text
decision_payload_hash h fields = h.sha256_hex (field_lines fields)

unfoldable pub kind_of : ℕ → List LedgerEventRow → Option Text
kind_of seq rows = map_some (λ e. e.kind) (find (λ e. e.seq == seq) rows)

abbrev pub kind_problem : ℕ → Option Text → Option Reason
kind_problem seq none = some (no_event seq)
kind_problem seq (some kind) =
    if is_decision_kind kind then none else some (not_a_decision seq kind)

-- SELECT new_seq … WHERE old_seq = ?.
unfoldable pub superseded_by : List Edge → ℕ → Option ℕ
superseded_by [] seq = none
superseded_by (e ∷ edges) seq =
    let rest = superseded_by edges seq in if e.old_seq == seq then some e.new_seq else rest

abbrev pub hop_limit : ℕ
hop_limit = 64

-- The end of the chain from `seq`; `none` when more than `left` hops are needed.
unfoldable pub chain_head : List Edge → ℕ → ℕ → Option ℕ
chain_head edges zero seq = elim (superseded_by edges seq) [ none ↦ some seq | some next ↦ none ]
chain_head edges (suc left) seq = elim (superseded_by edges seq) [
  | none ↦ some seq
  | some next ↦ chain_head edges left next
]

abbrev pub supersede_event : Hasher → ℕ → ℕ → Text → Text → ℤ → LedgerAppend
supersede_event h old_seq new_seq rationale author now = record {
  kind = codes "supersede";
  author = author;
  ts = now;
  prompt_id = none;
  session_id = none;
  version_number = none;
  ref_kind = some (codes "ledger_event");
  ref_id = some (to_string old_seq);
  payload_hash =
      decision_payload_hash h
        ((codes "superseded_by", to_string new_seq) ∷ (codes "rationale", rationale) ∷ []);
}

-- The event and the index row, in one transaction; the statements are taken to succeed.
unfoldable pub record_edge : Hasher → ℕ → ℕ → Text → Text → ℤ → Db → Db
record_edge h old_seq new_seq rationale author now db =
    let ev = next_row h db.rows (supersede_event h old_seq new_seq rationale author now) in
    record {
      rows = db.rows ++ ev ∷ [];
      edges =
          db.edges
          ++ (record {
            old_seq = old_seq;
            new_seq = new_seq;
            event_seq = ev.seq;
            created_at = ev.ts;
          })
            ∷ [];
    }

unfoldable pub apply_at : Hasher → Option ℕ → ℕ → Text → Text → ℤ → Db → SupersessionOutcome × Db
apply_at h none new_seq rationale actor now db = (rejected chain_too_deep, db)
apply_at h (some effective_old) new_seq rationale actor now db =
    if effective_old == new_seq
    then (rejected (already_head new_seq), db)
    else if leb new_seq effective_old
    then (rejected (must_come_after new_seq effective_old), db)
    else (
      applied effective_old new_seq
          (next_row h db.rows (supersede_event h effective_old new_seq rationale actor now)).seq,
      record_edge h effective_old new_seq rationale actor now db,
    )

-- The checks of the two kinds, in order.
abbrev pub first_problem : ℕ → ℕ → Option Text → Option Text → Option Reason
first_problem old_seq new_seq old_kind new_kind = elim (kind_problem old_seq old_kind) [
  | some r ↦ some r
  | none ↦ kind_problem new_seq new_kind
]

abbrev pub kinds_problem : ℕ → ℕ → List LedgerEventRow → Option Reason
kinds_problem old_seq new_seq rows =
    first_problem old_seq new_seq (kind_of old_seq rows) (kind_of new_seq rows)

unfoldable pub apply_checked :
    Hasher → Option Reason → ℕ → ℕ → Text → Text → ℤ → Db → SupersessionOutcome × Db
apply_checked h (some reason) old_seq new_seq rationale actor now db = (rejected reason, db)
apply_checked h none old_seq new_seq rationale actor now db =
    apply_at h (chain_head db.edges hop_limit old_seq) new_seq rationale actor now db

unfoldable pub apply_supersession_locked :
    Hasher → ℕ → ℕ → Text → Text → ℤ → Db → SupersessionOutcome × Db
apply_supersession_locked h old_seq new_seq rationale actor now db =
    apply_checked h (kinds_problem old_seq new_seq db.rows) old_seq new_seq rationale actor now db

-- The reversal of an approval: the event always, the index row unless the approval has one.
unfoldable pub record_approval_supersession : Hasher → ℕ → ℕ → Text → Text → ℤ → Db → ℕ × Db
record_approval_supersession h approval_seq new_seq rationale author now db =
    let ev = next_row h db.rows (supersede_event h approval_seq new_seq rationale author now) in
    let with_edge = record_edge h approval_seq new_seq rationale author now db in
    (
      ev.seq,
      if is_some (superseded_by db.edges approval_seq)
          then record with_edge { edges = db.edges }
          else with_edge,
    )
