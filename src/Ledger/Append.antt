-- ===== src/Ledger/Append.antt =====
-- `append_event` of crates/polis-store/src/ledger.rs: the transaction around the append, its
-- retries, and the append itself. The table is in seq order, the order of its primary key.
use polis_memory.Prelude.{
  ℕ, zero, suc, ◌+◌, ◌≡◌, refl, ◌≢◌, sym, ap, ◌≤◌, ◌<◌, ◌⊎◌, inl, inr, Bool, true, false, none,
  some, List, [], ◌∷◌, ◌++◌, arith, length, last?, if◌then◌else◌, length-append, Option-cases,
}
use polis_memory.Prelude.Text.{Text}
use polis_memory.Ledger.{
  Hasher, LedgerAppend, LedgerEventRow, Chained, canonical_of, compute_entry_hash, genesis_prev,
  head_from,
}
use polis_memory.Ledger.Verify.{
  verify_ledger_chain, verify_ledger_chain_ok, verify_walk_head, walk_head,
}

-- What SQLite answers to a statement.
pub data Answer : Type 0 where
  done : Answer
  busy : Answer
  failed : Answer

pub data Result {ℓ} (A : Type ℓ) : Type ℓ where
  ok : A → Result A
  err : Answer → Result A

-- The answers that one append will meet: to each `BEGIN IMMEDIATE`, to the insert, to the commit, and
-- whether SQLite ends the transaction by itself when COMMIT fails. After a busy COMMIT it never does.
pub record Answers : Type 0 where
  pub begin : ℕ → Answer
  pub insert : Answer
  pub commit : Answer
  pub ends_by_itself : Bool

-- A connection: the rows that it sees, the committed rows, and whether no transaction is open.
pub record Connection : Type 0 where
  pub rows : List LedgerEventRow
  pub committed : List LedgerEventRow
  pub is_autocommit : Bool

abbrev pub busy_attempts : ℕ
busy_attempts = 8

-- (seq, entry_hash) of the row with the greatest seq.
unfoldable pub head_row : List LedgerEventRow → ℕ × Text
head_row rows = elim (last? rows) [ none ↦ (0, genesis_prev) | some e ↦ (e.seq, e.entry_hash) ]

-- Retries while the file is busy; `left` counts the retries that remain.
unfoldable pub begin_immediate : (ℕ → Answer) → ℕ → ℕ → Result (Unit {0})
begin_immediate answer zero attempt = elim (answer attempt) [
  | done ↦ ok tt
  | busy ↦ err busy
  | failed ↦ err failed
]
begin_immediate answer (suc left) attempt = elim (answer attempt) [
  | done ↦ ok tt
  | busy ↦ begin_immediate answer left (attempt + 1)
  | failed ↦ err failed
]

Answer-cases : (x : Answer) → (x ≡ done) ⊎ ((x ≡ busy) ⊎ (x ≡ failed))
Answer-cases done = inl refl
Answer-cases busy = inr (inl refl)
Answer-cases failed = inr (inr refl)

begin_immediate_err :
    (answer : ℕ → Answer) (left attempt : ℕ) (e : Answer)
    → begin_immediate answer left attempt ≡ err e
    → (n : ℕ) × (n ≤ attempt + left) × (answer n ≡ e)
unfolding begin_immediate
begin_immediate_err answer zero attempt e q = elim (Answer-cases (answer attempt)) [
  | inl granted ↦ let r = (rw (granted, begin_immediate) at q) in cc
  | inr (inl waits) ↦
      let r = (rw (waits, begin_immediate) at q) in (attempt, omega arith, ground (arith, waits, r))
  | inr (inr fails) ↦
      let r = (rw (fails, begin_immediate) at q) in (attempt, omega arith, ground (arith, fails, r))
]
begin_immediate_err answer (suc left) attempt e q = elim (Answer-cases (answer attempt)) [
  | inl granted ↦ let r = (rw (granted, begin_immediate) at q) in cc
  | inr (inl waits) ↦
      let later =
        begin_immediate_err answer left (attempt + 1) e (rw (waits, begin_immediate) at q) in
      (later.0, omega (arith, later.1), later.2)
  | inr (inr fails) ↦
      let r = (rw (fails, begin_immediate) at q) in (attempt, omega arith, ground (arith, fails, r))
]

module _ (h : Hasher) where
  unfoldable pub next_row : List LedgerEventRow → LedgerAppend → LedgerEventRow
  unfolding head_row
  next_row rows a =
      let (prev_seq, prev_hash) = head_row rows in
      let unhashed : LedgerEventRow = record {
        seq = prev_seq + 1;
        ts = a.ts;
        kind = a.kind;
        author = a.author;
        prompt_id = a.prompt_id;
        session_id = a.session_id;
        version_number = a.version_number;
        ref_kind = a.ref_kind;
        ref_id = a.ref_id;
        payload_hash = a.payload_hash;
        prev_hash = prev_hash;
        entry_hash = [];
      } in
      record unhashed { entry_hash = compute_entry_hash h prev_hash (canonical_of unhashed) }

  unfoldable pub append_in_txn :
      Answer → Connection → LedgerAppend → Result LedgerEventRow × Connection
  append_in_txn answer c a =
      let row = next_row c.rows a in
      elim answer [
        | done ↦ (ok row, record c { rows = c.rows ++ row ∷ [] })
        | busy ↦ (err busy, c)
        | failed ↦ (err failed, c)
      ]

  abbrev pub roll_back : Connection → Connection
  roll_back c = record c { rows = c.committed; is_autocommit = true }

  -- COMMIT on success, ROLLBACK on an error of the insert. On an error of COMMIT the code only
  -- returns; what becomes of the transaction is SQLite's.
  unfoldable pub close_txn :
      Answer → Bool → Result LedgerEventRow × Connection → Result LedgerEventRow × Connection
  close_txn answer ends_by_itself (ok row, c) = elim answer [
    | done ↦ (ok row, record c { committed = c.rows; is_autocommit = true })
    | busy ↦ (err busy, c)
    | failed ↦ (err failed, if ends_by_itself then roll_back c else c)
  ]
  close_txn answer ends_by_itself (err e, c) = (err e, roll_back c)

  unfoldable pub run_txn :
      Answers → Connection → LedgerAppend → Result (Unit {0}) → Result LedgerEventRow × Connection
  run_txn answers c a (err e) = (err e, c)
  run_txn answers c a (ok _) =
      close_txn answers.commit answers.ends_by_itself
        (append_in_txn answers.insert (record c { is_autocommit = false }) a)

  unfoldable pub append_event :
      Answers → Connection → LedgerAppend → Result LedgerEventRow × Connection
  unfolding run_txn close_txn append_in_txn
  append_event answers c a =
      if c.is_autocommit
      then run_txn answers c a (begin_immediate answers.begin busy_attempts 0)
      else append_in_txn answers.insert c a

  head_from-append :
      (prev : Text) (rows : List LedgerEventRow) (e : LedgerEventRow)
      → head_from prev (rows ++ e ∷ []) ≡ e.entry_hash
  head_from-append prev [] e = refl
  head_from-append prev (x ∷ rows) e = head_from-append x.entry_hash rows e

  last_is_some : (e : LedgerEventRow) (rows : List LedgerEventRow) → last? (e ∷ rows) ≢ none
  last_is_some e [] q = cc
  last_is_some e (f ∷ rows) q = last_is_some f rows q

  head_from-none :
      (prev : Text) (rows : List LedgerEventRow) → last? rows ≡ none → head_from prev rows ≡ prev
  head_from-none prev [] q = refl
  head_from-none prev (e ∷ []) q = cc
  head_from-none prev (e ∷ f ∷ rows) q = absurd (last_is_some f rows q)

  head_from-some :
      (prev : Text) (rows : List LedgerEventRow) (e : LedgerEventRow)
      → last? rows ≡ some e
      → head_from prev rows ≡ e.entry_hash
  head_from-some prev [] e q = cc
  head_from-some prev (x ∷ []) e q = ground arith
  head_from-some prev (x ∷ y ∷ rows) e q = head_from-some x.entry_hash (y ∷ rows) e q

  -- The head that an append reads is the hash that the next row must commit to.
  pub head_row-head_from :
      (rows : List LedgerEventRow) → (head_row rows).1 ≡ head_from genesis_prev rows
  unfolding head_row
  head_row-head_from rows = elim (Option-cases (last? rows)) [
    | inl q ↦ rw (q, head_row) (sym (head_from-none genesis_prev rows q))
    | inr (e, q) ↦ rw (q, head_row) (sym (head_from-some genesis_prev rows e q))
  ]

  pub Chained-append :
      (prev : Text) (rows : List LedgerEventRow) (e : LedgerEventRow)
      → Chained h prev rows
      → e.prev_hash ≡ head_from prev rows
      → compute_entry_hash h e.prev_hash (canonical_of e) ≡ e.entry_hash
      → Chained h prev (rows ++ e ∷ [])
  Chained-append prev [] e c link hash = (link, hash, tt)
  Chained-append prev (x ∷ rows) e c link hash =
      (c.0, c.1, Chained-append x.entry_hash rows e c.2 link hash)

  -- The row that an append computes extends the chain.
  pub next_row-Chained :
      (rows : List LedgerEventRow) (a : LedgerAppend)
      → Chained h genesis_prev rows
      → Chained h genesis_prev (rows ++ next_row rows a ∷ [])
  unfolding next_row
  next_row-Chained rows a c =
      Chained-append genesis_prev rows (next_row rows a) c (head_row-head_from rows) refl

  walk_head-append :
      (rows : List LedgerEventRow) (e : LedgerEventRow)
      → walk_head h none (rows ++ e ∷ []) ≡ some e.entry_hash
  walk_head-append [] e = refl
  walk_head-append (x ∷ rows) e = ap some (head_from-append x.entry_hash rows e)

  -- After an append to a table that verifies, the table verifies: one more row is checked, and the
  -- head is the new row's hash.
  pub verify_ledger_chain-next_row :
      (rows : List LedgerEventRow) (a : LedgerAppend)
      → (verify_ledger_chain h rows).ok ≡ true
      → verify_ledger_chain h (rows ++ next_row rows a ∷ []) ≡ record {
        ok = true;
        checked = length rows + 1;
        first_bad_seq = none;
        head_hash = some (next_row rows a).entry_hash;
      }
  unfolding verify_ledger_chain
  verify_ledger_chain-next_row rows a accepted =
      let good =
        (verify_ledger_chain_ok h (rows ++ next_row rows a ∷ [])).1
          (next_row-Chained rows a ((verify_ledger_chain_ok h rows).0 accepted)) in
      rw
        (
          verify_walk_head h genesis_prev 0 none (rows ++ next_row rows a ∷ []) good,
          walk_head-append rows (next_row rows a),
        )
        (ground (arith, length-append rows (next_row rows a ∷ [])))

  -- The statement that answered an error, and the connection after it.
  pub data Failure (answers : Answers) (c : Connection) (a : LedgerAppend) (e : Answer)
      (c' : Connection) : Type 0 where
    not_begun :
        (n : ℕ) → n ≤ busy_attempts → answers.begin n ≡ e → c' ≡ c → Failure answers c a e c'
    not_inserted :
        answers.insert ≡ e
        → c'.rows ≡ c.committed
        → c'.is_autocommit ≡ true
        → Failure answers c a e c'
    ended :
        e ≡ failed
        → answers.commit ≡ failed
        → answers.ends_by_itself ≡ true
        → c'.rows ≡ c.committed
        → c'.is_autocommit ≡ true
        → Failure answers c a e c'
    left_open :
        answers.commit ≡ e
        → (e ≡ busy) ⊎ (answers.ends_by_itself ≡ false)
        → c'.rows ≡ c.committed ++ next_row c.committed a ∷ []
        → c'.is_autocommit ≡ false
        → Failure answers c a e c'

  -- Exactly the next row is committed and returned; or an error is, and nothing is committed.
  abbrev pub Atomic :
      Answers → Connection → LedgerAppend → Result LedgerEventRow × Connection → Type 0
  Atomic answers c a (r, c') =
      ((r ≡ ok (next_row c.committed a))
        × (c'.committed ≡ c.committed ++ next_row c.committed a ∷ [])
        × (c'.rows ≡ c'.committed)
        × (c'.is_autocommit ≡ true))
      ⊎ ((e : Answer) × (r ≡ err e) × (c'.committed ≡ c.committed) × Failure answers c a e c')

  txn-Atomic :
      (answers : Answers) (insert commit : Answer) (ends : Bool) (c : Connection) (a : LedgerAppend)
      → c.rows ≡ c.committed
      → answers.insert ≡ insert
      → answers.commit ≡ commit
      → answers.ends_by_itself ≡ ends
      → Atomic answers c a
          (close_txn commit ends (append_in_txn insert (record c { is_autocommit = false }) a))
  unfolding close_txn append_in_txn
  txn-Atomic answers done done ends c a same i q b = inl (ground arith, ground arith, refl, refl)
  txn-Atomic answers done busy ends c a same i q b =
      inr (busy, refl, refl, left_open q (inl refl) (ground arith) refl)
  txn-Atomic answers done failed true c a same i q b =
      inr (failed, refl, refl, ended refl q b refl refl)
  txn-Atomic answers done failed false c a same i q b =
      inr (failed, refl, refl, left_open q (inr b) (ground arith) refl)
  txn-Atomic answers busy commit ends c a same i q b =
      inr (busy, refl, refl, not_inserted i refl refl)
  txn-Atomic answers failed commit ends c a same i q b =
      inr (failed, refl, refl, not_inserted i refl refl)

  run_txn-Atomic :
      (answers : Answers) (c : Connection) (a : LedgerAppend) (begun : Result (Unit {0}))
      → c.is_autocommit ≡ true
      → c.rows ≡ c.committed
      → begin_immediate answers.begin busy_attempts 0 ≡ begun
      → Atomic answers c a (run_txn answers c a begun)
  unfolding run_txn
  run_txn-Atomic answers c a (ok u) auto same b =
      txn-Atomic answers answers.insert answers.commit answers.ends_by_itself c a same refl refl
        refl
  run_txn-Atomic answers c a (err e) auto same b =
      let last = begin_immediate_err answers.begin busy_attempts 0 e b in
      inr (e, refl, refl, not_begun last.0 (omega (arith, last.1)) last.2 refl)

  -- Outside a transaction an append either commits exactly the next row and returns it, or returns
  -- an error and leaves the committed rows as they were. When it is an answer to one of the nine
  -- BEGINs, the connection is as it was; when it is the answer to the insert, the transaction is
  -- rolled back. When it is the answer to COMMIT, either SQLite has ended the transaction by itself,
  -- and the rows are the committed ones, or the transaction is still open with the row in it, as
  -- always after a busy COMMIT.
  pub append_event-Atomic :
      (answers : Answers) (c : Connection) (a : LedgerAppend)
      → c.is_autocommit ≡ true
      → c.rows ≡ c.committed
      → Atomic answers c a (append_event answers c a)
  unfolding append_event
  append_event-Atomic answers c a auto same =
      simp auto
        (run_txn-Atomic answers c a (begin_immediate answers.begin busy_attempts 0) auto same refl)

moved : (answer : ℕ → Answer) (x : Answer) (m n : ℕ) → m ≡ n → answer m ≡ x → answer n ≡ x
moved answer x m n e h = cc

-- If the first `k` answers to `BEGIN` are busy and the next one grants it, and `k` is at most the
-- number of retries, the transaction begins.
pub begin_immediate_ok :
    (answer : ℕ → Answer) (left attempt k : ℕ)
    → k ≤ left
    → ((j : ℕ) → j < k → answer (attempt + j) ≡ busy)
    → answer (attempt + k) ≡ done
    → begin_immediate answer left attempt ≡ ok tt
unfolding begin_immediate
begin_immediate_ok answer zero attempt zero le waits grants =
    rw (moved answer done (attempt + 0) attempt (omega arith) grants, begin_immediate)
begin_immediate_ok answer zero attempt (suc k) le waits grants = absurd (omega arith)
begin_immediate_ok answer (suc left) attempt zero le waits grants =
    rw (moved answer done (attempt + 0) attempt (omega arith) grants, begin_immediate)
begin_immediate_ok answer (suc left) attempt (suc k) le waits grants =
    rw
      (
        moved answer busy (attempt + 0) attempt (omega arith) (waits 0 (omega arith)),
        begin_immediate,
      )
      (begin_immediate_ok answer left (attempt + 1) k (omega arith)
        (λ j l.
          moved answer busy (attempt + suc j) (attempt + 1 + j) (omega arith)
            (waits (suc j) (omega arith)))
        (moved answer done (attempt + suc k) (attempt + 1 + k) (omega arith) grants))
