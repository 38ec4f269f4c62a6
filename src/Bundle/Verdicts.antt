-- ===== src/Bundle/Verdicts.antt =====
-- What a bundle's verdict means, against the chain and against a ledger with the same head.
use polis_memory.Prelude.{
  ℕ, ◌≡◌, refl, ap, sym, ◌∙◌, ◌⊎◌, true, false, Option, none, some, List, [], ◌∷◌, arith, length,
  last?, map_some, Bool-cases, All, inl, inr,
}
use polis_memory.Prelude.Text.{Text, text_eq_iff, text_eq_refl}
use polis_memory.Ledger.{
  Hasher, LedgerEventRow, Chained, canonical_of, compute_entry_hash, genesis_prev, head_from,
}
use polis_memory.Ledger.Verify.{verify_ledger_chain, verify_ledger_chain_ok}
use polis_memory.Ledger.Binding.{HashBreak, head_binds_rows}
use polis_memory.Bundle.{
  ContextBundle, sort_by_seq, is_full_chain, first_unlinked, hash_holds, first_bad_hash,
  link_verdict, hash_verdict, verify_bundle,
}
use polis_memory.Bundle.Sorting.{CountsFrom, sort_by_seq-CountsFrom, is_full_chain-CountsFrom}

module _ (h : Hasher) where
  abbrev pub Hashed : List LedgerEventRow → Type 0
  Hashed = All (λ e. compute_entry_hash h e.prev_hash (canonical_of e) ≡ e.entry_hash)

  first_bad_hash-none : (rows : List LedgerEventRow) → first_bad_hash h rows ≡ none → Hashed rows
  unfolding first_bad_hash hash_holds
  first_bad_hash-none [] q = tt
  first_bad_hash-none (e ∷ rows) q = ground (
    arith,
    text_eq_iff (compute_entry_hash h e.prev_hash (canonical_of e)) e.entry_hash,
    first_bad_hash-none rows,
  )

  Chained-of_links :
      (prev : Text) (rows : List LedgerEventRow)
      → Hashed rows
      → first_unlinked prev rows ≡ none
      → Chained h prev rows
  unfolding first_unlinked
  Chained-of_links prev [] a q = tt
  Chained-of_links prev (e ∷ rows) a q =
      ground (arith, text_eq_iff e.prev_hash prev, a.0, Chained-of_links e.entry_hash rows a.1)

  links_of_Chained :
      (prev : Text) (rows : List LedgerEventRow)
      → Chained h prev rows
      → (first_unlinked prev rows ≡ none) × (first_bad_hash h rows ≡ none)
  unfolding first_unlinked first_bad_hash hash_holds
  links_of_Chained prev [] c = (refl, refl)
  links_of_Chained prev (e ∷ rows) c = ground (
    arith,
    text_eq_iff e.prev_hash prev,
    text_eq_iff (compute_entry_hash h e.prev_hash (canonical_of e)) e.entry_hash,
    links_of_Chained e.entry_hash rows c.2,
  )

  last_hash :
      (prev : Text) (e : LedgerEventRow) (rows : List LedgerEventRow)
      → map_some (λ (e : LedgerEventRow). e.entry_hash) (last? (e ∷ rows))
        ≡ some (head_from prev (e ∷ rows))
  last_hash prev e [] = refl
  last_hash prev e (f ∷ rows) = last_hash e.entry_hash f rows

  link_verdict_ok :
      (bundle : ContextBundle) (rows : List LedgerEventRow) (unlinked : Option ℕ)
      → first_unlinked genesis_prev rows ≡ unlinked
      → Hashed rows
      → (link_verdict h bundle rows unlinked).ok ≡ true
      → Chained h genesis_prev rows × (bundle.head_hash ≡ head_from genesis_prev rows)
  unfolding link_verdict
  link_verdict_ok bundle rows (some bad) u a ok = cc
  link_verdict_ok bundle [] none u a ok = cc
  link_verdict_ok bundle (e ∷ rows) none u a ok = (
    Chained-of_links genesis_prev (e ∷ rows) a u,
    ground (
      arith,
      last_hash genesis_prev e rows,
      text_eq_iff (head_from genesis_prev (e ∷ rows)) bundle.head_hash,
    ),
  )

  hash_verdict_ok :
      (bundle : ContextBundle) (rows : List LedgerEventRow) (bad : Option ℕ)
      → first_bad_hash h rows ≡ bad
      → (hash_verdict h bundle rows bad).ok ≡ true
      → Hashed rows
        × ((hash_verdict h bundle rows bad).full_chain ≡ true
            → Chained h genesis_prev rows × (bundle.head_hash ≡ head_from genesis_prev rows))
  unfolding hash_verdict
  hash_verdict_ok bundle rows (some seq) q ok = cc
  hash_verdict_ok bundle rows none q ok =
      let a = first_bad_hash-none rows q in
      (
        a,
        elim (Bool-cases (is_full_chain rows)) [
          | inl full ↦ λ _.
              link_verdict_ok bundle rows (first_unlinked genesis_prev rows) refl a
                (rw (full, hash_verdict) at ok)
          | inr scoped ↦ λ f. absurd (scoped_not_full scoped f)
        ],
      )
    where
      scoped_not_full :
          is_full_chain rows ≡ false → (hash_verdict h bundle rows none).full_chain ≡ true → ⊥
      scoped_not_full s f = ground (arith, s, f)

  verify_bundle_ok :
      (bundle : ContextBundle)
      → (verify_bundle h bundle).ok ≡ true
      → Hashed (sort_by_seq bundle.events)
        × ((verify_bundle h bundle).full_chain ≡ true
            → Chained h genesis_prev (sort_by_seq bundle.events)
              × (bundle.head_hash ≡ head_from genesis_prev (sort_by_seq bundle.events)))
  unfolding verify_bundle
  verify_bundle_ok bundle ok = hash_verdict_ok bundle (sort_by_seq bundle.events) _ refl ok

  -- If a bundle verifies as a full chain, its events in seq order link up from genesis, each with a
  -- hash that recomputes from its own fields, and end in the pinned head.
  pub verify_bundle_full :
      (bundle : ContextBundle)
      → (verify_bundle h bundle).ok ≡ true
      → (verify_bundle h bundle).full_chain ≡ true
      → Chained h genesis_prev (sort_by_seq bundle.events)
        × (bundle.head_hash ≡ head_from genesis_prev (sort_by_seq bundle.events))
  verify_bundle_full bundle ok full = (verify_bundle_ok bundle ok).1 full

  -- If a bundle verifies at all, the stored hash of every event recomputes from its own fields.
  pub verify_bundle-Hashed :
      (bundle : ContextBundle)
      → (verify_bundle h bundle).ok ≡ true
      → Hashed (sort_by_seq bundle.events)
  verify_bundle-Hashed bundle ok = (verify_bundle_ok bundle ok).0

  -- A full bundle that verifies and is pinned to the head of a ledger that verifies carries exactly
  -- the ledger's rows, or the hash function is broken.
  pub verify_bundle-binds_ledger :
      (bundle : ContextBundle) (rows : List LedgerEventRow)
      → (verify_bundle h bundle).ok ≡ true
      → (verify_bundle h bundle).full_chain ≡ true
      → (verify_ledger_chain h rows).ok ≡ true
      → bundle.head_hash ≡ head_from genesis_prev rows
      → (sort_by_seq bundle.events ≡ rows) ⊎ HashBreak h
  verify_bundle-binds_ledger bundle rows ok full verified head =
      let chain = (verify_bundle_ok bundle ok).1 full in
      head_binds_rows h (sort_by_seq bundle.events) rows
        ((verify_ledger_chain_ok h (sort_by_seq bundle.events)).1 chain.0) verified
        (sym chain.1 ∙ head)

  export_verdict :
      (bundle : ContextBundle) (e : LedgerEventRow) (rows : List LedgerEventRow)
      → bundle.head_hash ≡ head_from genesis_prev (e ∷ rows)
      → link_verdict h bundle (e ∷ rows) none ≡ record {
        ok = true;
        checked = length (e ∷ rows);
        first_bad_seq = none;
        full_chain = true;
        recomputed_head = some bundle.head_hash;
      }
  unfolding link_verdict
  export_verdict bundle e rows head =
      rw (last_hash genesis_prev e rows, head, text_eq_refl (head_from genesis_prev (e ∷ rows)))

  export_hash :
      (bundle : ContextBundle) (e : LedgerEventRow) (rows : List LedgerEventRow)
      → is_full_chain (e ∷ rows) ≡ true
      → first_unlinked genesis_prev (e ∷ rows) ≡ none
      → bundle.head_hash ≡ head_from genesis_prev (e ∷ rows)
      → hash_verdict h bundle (e ∷ rows) none ≡ record {
        ok = true;
        checked = length (e ∷ rows);
        first_bad_seq = none;
        full_chain = true;
        recomputed_head = some bundle.head_hash;
      }
  unfolding hash_verdict
  export_hash bundle e rows full linked head = rw (full, linked) (export_verdict bundle e rows head)

  -- The full export of a non-empty ledger that verifies, whose seqs count up from 1, verifies when
  -- it is pinned to the ledger's head: all events are checked, as a full chain up to that head.
  pub verify_bundle-export :
      (bundle : ContextBundle) (e : LedgerEventRow) (rows : List LedgerEventRow)
      → bundle.events ≡ e ∷ rows
      → CountsFrom 1 (e ∷ rows)
      → (verify_ledger_chain h (e ∷ rows)).ok ≡ true
      → bundle.head_hash ≡ head_from genesis_prev (e ∷ rows)
      → verify_bundle h bundle ≡ record {
        ok = true;
        checked = length (e ∷ rows);
        first_bad_seq = none;
        full_chain = true;
        recomputed_head = some bundle.head_hash;
      }
  unfolding verify_bundle
  verify_bundle-export bundle e rows all counts verified head =
      let chain = (verify_ledger_chain_ok h (e ∷ rows)).0 verified in
      let links = links_of_Chained genesis_prev (e ∷ rows) chain in
      let sorted = ap sort_by_seq all ∙ sort_by_seq-CountsFrom 1 (e ∷ rows) counts in
      (λ i. hash_verdict h bundle (sorted i) (first_bad_hash h (sorted i)))
      ∙ ap (hash_verdict h bundle (e ∷ rows)) links.1
      ∙ export_hash bundle e rows (is_full_chain-CountsFrom e rows counts) links.0 head
