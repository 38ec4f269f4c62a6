-- ===== src/Ledger.antt =====
-- The hash-chained ledger: the rows and the entry hash of crates/polis-core/src/ledger.rs. The
-- children model the append (polis-store/src/ledger.rs) and the verifiers (polis-store/src/chain.rs).
pub mod Append
pub mod Kinds
pub mod Roles
pub mod Guard
pub mod Verify
pub mod Anchor
pub mod Binding
pub mod Tests
use polis_memory.Prelude.{ℕ, ℤ, ◌≡◌, List, [], ◌∷◌, ◌++◌, Option, Bool, ◌≢◌, ◌⊎◌}
use polis_memory.Prelude.Text.{Text, codes}

-- The hashed form of an event. Sequence numbers are assigned from 1 upwards: native numbers.
pub record CanonicalEvent : Type 0 where
  pub seq : ℕ
  pub ts : ℤ
  pub kind : Text
  pub author : Text
  pub prompt_id : Option ℤ
  pub session_id : Option Text
  pub version_number : Option ℤ
  pub ref_kind : Option Text
  pub ref_id : Option Text
  pub payload_hash : Text

-- What a caller asks to append.
pub record LedgerAppend : Type 0 where
  pub kind : Text
  pub author : Text
  pub ts : ℤ
  pub prompt_id : Option ℤ
  pub session_id : Option Text
  pub version_number : Option ℤ
  pub ref_kind : Option Text
  pub ref_id : Option Text
  pub payload_hash : Text

-- A stored row.
pub record LedgerEventRow : Type 0 where
  pub seq : ℕ
  pub ts : ℤ
  pub kind : Text
  pub author : Text
  pub prompt_id : Option ℤ
  pub session_id : Option Text
  pub version_number : Option ℤ
  pub ref_kind : Option Text
  pub ref_id : Option Text
  pub payload_hash : Text
  pub prev_hash : Text
  pub entry_hash : Text

pub record ChainVerdict : Type 0 where
  pub ok : Bool
  pub checked : ℕ
  pub first_bad_seq : Option ℕ
  pub head_hash : Option Text

-- The crates sha2 and serde_json: the digest in lowercase hex, and the JSON text of an event.
pub record Hasher : Type 0 where
  pub sha256_hex : Text → Text
  pub to_json : CanonicalEvent → Text

unfoldable pub genesis_prev : Text
genesis_prev = codes "0000000000000000000000000000000000000000000000000000000000000000"

abbrev pub canonical_of : LedgerEventRow → CanonicalEvent
canonical_of row = record {
  seq = row.seq;
  ts = row.ts;
  kind = row.kind;
  author = row.author;
  prompt_id = row.prompt_id;
  session_id = row.session_id;
  version_number = row.version_number;
  ref_kind = row.ref_kind;
  ref_id = row.ref_id;
  payload_hash = row.payload_hash;
}

unfoldable pub compute_entry_hash : Hasher → Text → CanonicalEvent → Text
compute_entry_hash h prev_hash ev = h.sha256_hex (prev_hash ++ h.to_json ev)

-- Each row commits to its predecessor's hash and to its own fields, from `prev` on.
abbrev pub Chained : Hasher → Text → List LedgerEventRow → Type 0
Chained h prev [] = Unit
Chained h prev (e ∷ rows) =
    (e.prev_hash ≡ prev)
    × (compute_entry_hash h e.prev_hash (canonical_of e) ≡ e.entry_hash)
    × Chained h e.entry_hash rows

-- The hash that the next row must commit to.
abbrev pub head_from : Text → List LedgerEventRow → Text
head_from prev [] = prev
head_from prev (e ∷ rows) = head_from e.entry_hash rows
