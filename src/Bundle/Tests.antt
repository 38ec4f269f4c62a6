-- ===== src/Bundle/Tests.antt =====
-- A bundle of two events, given out of order.
use polis_memory.Prelude.{◌≡◌, refl, ◌⊎◌, pos, true, false, none, some, List, [], ◌∷◌}
use polis_memory.Prelude.Text.{codes, text_eq}
use polis_memory.Ledger.{
  Hasher, LedgerAppend, LedgerEventRow, genesis_prev, compute_entry_hash, head_from,
}
use polis_memory.Ledger.Append.{next_row}
use polis_memory.Ledger.Verify.{verify_ledger_chain, verify_walk, row_holds}
use polis_memory.Ledger.Binding.{HashBreak}
use polis_memory.Bundle.{
  ContextBundle, sort_by_seq, is_full_chain, first_unlinked, hash_holds, first_bad_hash,
  link_verdict, hash_verdict, verify_bundle,
}
use polis_memory.Bundle.Verdicts.{verify_bundle-binds_ledger, verify_bundle-export}

abbrev toy : Hasher
toy = record { sha256_hex = λ t. t; to_json = λ e. e.seq ∷ e.payload_hash }

abbrev approval : LedgerAppend
approval = record {
  kind = codes "approval";
  author = codes "local";
  ts = pos 1000;
  prompt_id = none;
  session_id = some (codes "s");
  version_number = none;
  ref_kind = none;
  ref_id = none;
  payload_hash = codes "p";
}

abbrev first_row : LedgerEventRow
first_row = next_row toy [] approval

abbrev second_row : LedgerEventRow
second_row = next_row toy (first_row ∷ []) approval

abbrev bundle_of : List LedgerEventRow → ContextBundle
bundle_of events = record {
  schema = codes "redline.context-bundle/1";
  scope = codes "full";
  head_hash = head_from genesis_prev (first_row ∷ second_row ∷ []);
  verified_at = pos 2000;
  events = events;
  prompts = [];
  revisions = [];
  notes = [];
}

abbrev shuffled : ContextBundle
shuffled = bundle_of (second_row ∷ first_row ∷ [])

rows_ok : (verify_ledger_chain toy (first_row ∷ second_row ∷ [])).ok ≡ true
unfolding verify_ledger_chain verify_walk row_holds text_eq next_row compute_entry_hash genesis_prev
rows_ok = refl

shuffled_ok : (verify_bundle toy shuffled).ok ≡ true
unfolding verify_bundle hash_verdict link_verdict sort_by_seq is_full_chain first_unlinked
    first_bad_hash hash_holds text_eq next_row compute_entry_hash genesis_prev
shuffled_ok = refl

shuffled_full : (verify_bundle toy shuffled).full_chain ≡ true
unfolding verify_bundle hash_verdict link_verdict sort_by_seq is_full_chain first_unlinked
    first_bad_hash hash_holds text_eq next_row compute_entry_hash genesis_prev
shuffled_full = refl

-- Without its first event the bundle is read as a scoped one.
scoped_ok : (verify_bundle toy (bundle_of (second_row ∷ []))).full_chain ≡ false
unfolding verify_bundle hash_verdict link_verdict sort_by_seq is_full_chain first_unlinked
    first_bad_hash hash_holds text_eq next_row compute_entry_hash genesis_prev
scoped_ok = refl

verify_bundle-binds_ledger_example :
    (sort_by_seq shuffled.events ≡ first_row ∷ second_row ∷ []) ⊎ HashBreak toy
verify_bundle-binds_ledger_example =
    verify_bundle-binds_ledger toy shuffled (first_row ∷ second_row ∷ []) shuffled_ok shuffled_full
      rows_ok refl

verify_bundle-export_example :
    (verify_bundle toy (bundle_of (first_row ∷ second_row ∷ []))).checked ≡ 2
unfolding next_row
verify_bundle-export_example =
    let v =
      verify_bundle-export toy (bundle_of (first_row ∷ second_row ∷ [])) first_row (second_row ∷ [])
        refl (refl, (refl, tt)) rows_ok refl in
    λ i. (v i).checked
