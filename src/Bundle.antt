-- ===== src/Bundle.antt =====
-- crates/polis-core/src/bundle.rs: an export, re-checked from itself alone. The class tree that a
-- bundle may carry, which the verifier never reads, is left out.
pub mod Sorting
pub mod Verdicts
pub mod Tests
use polis_memory.Prelude.{
  ℕ, ◌++◌, suc, ◌+◌, ℤ, Bool, true, false, not, ◌&&◌, Option, none, some, List, [], ◌∷◌, leb, ◌==◌,
  if◌then◌else◌, length, last?, map_some, is_empty, ltb,
}
use polis_memory.Prelude.Text.{Text, codes, text_eq}
use polis_memory.Ledger.{Hasher, LedgerEventRow, canonical_of, compute_entry_hash, genesis_prev}

-- What slice of the record to export.
pub data BundleScope : Type 0 where
  session : Text → BundleScope
  mission : Text → BundleScope
  class : Text → BundleScope
  full : BundleScope

abbrev pub kind : BundleScope → Text
kind (session id) = codes "session"
kind (mission id) = codes "mission"
kind (class id) = codes "class"
kind full = codes "full"

abbrev pub label : BundleScope → Text
label (session id) = codes "session:" ++ id
label (mission id) = codes "mission:" ++ id
label (class id) = codes "class:" ++ id
label full = codes "full"

abbrev pub session_id : BundleScope → Option Text
session_id (session id) = some id
session_id _ = none

pub record BundlePrompt : Type 0 where
  pub id : ℤ
  pub body : Text

pub record BundleRevision : Type 0 where
  pub session_id : Text
  pub version_number : ℤ
  pub markdown : Text

pub record BundleNote : Type 0 where
  pub id : ℤ
  pub seq : Option ℤ
  pub target_kind : Text
  pub target_id : Option Text
  pub text : Text
  pub starred : Bool
  pub created_at : ℤ
  pub updated_at : ℤ

pub record ContextBundle : Type 0 where
  pub schema : Text
  pub scope : Text
  pub head_hash : Text
  pub verified_at : ℤ
  pub events : List LedgerEventRow
  pub prompts : List BundlePrompt
  pub revisions : List BundleRevision
  pub notes : List BundleNote

pub record BundleVerdict : Type 0 where
  pub ok : Bool
  pub checked : ℕ
  pub first_bad_seq : Option ℕ
  pub full_chain : Bool
  pub recomputed_head : Option Text

-- `sort_by_key(seq)`: a stable sort.
unfoldable pub insert_by_seq : LedgerEventRow → List LedgerEventRow → List LedgerEventRow
insert_by_seq e [] = e ∷ []
insert_by_seq e (x ∷ rows) = if leb e.seq x.seq then e ∷ x ∷ rows else x ∷ insert_by_seq e rows

unfoldable pub sort_by_seq : List LedgerEventRow → List LedgerEventRow
unfolding insert_by_seq
sort_by_seq [] = []
sort_by_seq (e ∷ rows) = insert_by_seq e (sort_by_seq rows)

-- `w[1].seq == w[0].seq + 1` for all windows.
unfoldable pub is_contiguous : List LedgerEventRow → Bool
is_contiguous [] = true
is_contiguous (e ∷ []) = true
is_contiguous (e ∷ f ∷ rows) = f.seq == e.seq + 1 && is_contiguous (f ∷ rows)

unfoldable pub is_full_chain : List LedgerEventRow → Bool
unfolding is_contiguous
is_full_chain [] = false
is_full_chain (e ∷ rows) = e.seq == 1 && is_contiguous (e ∷ rows)

-- The first row whose `prev_hash` is not its predecessor's hash.
unfoldable pub first_unlinked : Text → List LedgerEventRow → Option ℕ
first_unlinked prev [] = none
first_unlinked prev (e ∷ rows) =
    let rest = first_unlinked e.entry_hash rows in
    if text_eq e.prev_hash prev then rest else some e.seq

module _ (h : Hasher) where
  unfoldable pub hash_holds : LedgerEventRow → Bool
  hash_holds e = text_eq (compute_entry_hash h e.prev_hash (canonical_of e)) e.entry_hash

  -- The first row whose stored hash does not recompute.
  unfoldable pub first_bad_hash : List LedgerEventRow → Option ℕ
  first_bad_hash [] = none
  first_bad_hash (e ∷ rows) =
      let rest = first_bad_hash rows in if hash_holds e then rest else some e.seq

  unfoldable pub link_verdict : ContextBundle → List LedgerEventRow → Option ℕ → BundleVerdict
  link_verdict bundle events (some bad) = record {
    ok = false;
    checked = length events;
    first_bad_seq = some bad;
    full_chain = true;
    recomputed_head = none;
  }
  link_verdict bundle events none =
      let recomputed_head = map_some (λ e. e.entry_hash) (last? events) in
      let head_ok : Bool = elim recomputed_head [
        | none ↦ false
        | some hash ↦ text_eq hash bundle.head_hash
      ] in
      record {
        ok = head_ok;
        checked = length events;
        first_bad_seq = if head_ok then none else map_some (λ e. e.seq) (last? events);
        full_chain = true;
        recomputed_head = recomputed_head;
      }

  unfoldable pub hash_verdict : ContextBundle → List LedgerEventRow → Option ℕ → BundleVerdict
  hash_verdict bundle events (some bad) = record {
    ok = false;
    checked = length events;
    first_bad_seq = some bad;
    full_chain = false;
    recomputed_head = none;
  }
  hash_verdict bundle events none =
      if is_full_chain events
      then link_verdict bundle events (first_unlinked genesis_prev events)
      else record {
        ok = true;
        checked = length events;
        first_bad_seq = none;
        full_chain = false;
        recomputed_head = map_some (λ e. e.entry_hash) (last? events);
      }

  unfoldable pub verify_bundle : ContextBundle → BundleVerdict
  verify_bundle bundle =
      let events = sort_by_seq bundle.events in hash_verdict bundle events (first_bad_hash events)
