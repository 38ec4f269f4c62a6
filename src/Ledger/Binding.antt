-- ===== src/Ledger/Binding.antt =====
-- What an accepted chain commits to: its head fixes every row, or the hash function is broken.
use mathlib.Core.List.{reverse, reverse-cons, reverse-reverse, append_assoc, append-nil}
use polis_memory.Prelude.{
  subst, ◌≡◌, refl, sym, ◌∙◌, ◌⊎◌, inl, inr, List, [], ◌∷◌, ◌++◌, ℕ_discrete, true,
}
use polis_memory.Prelude.Int.{ℤ-discrete}
use polis_memory.Prelude.Text.{Text, Text-discrete}
use polis_memory.Ledger.{
  Hasher, CanonicalEvent, LedgerEventRow, Chained, canonical_of, compute_entry_hash, genesis_prev,
  head_from,
}
use polis_memory.Ledger.Verify.{verify_ledger_chain, verify_ledger_chain_ok}

CanonicalEvent-discrete : Discrete CanonicalEvent
CanonicalEvent-discrete = hlevel (ℕ_discrete, ℤ-discrete, Text-discrete)

module _ (h : Hasher) where
  -- A break of the hash: two different inputs with one hash, or an input that hashes to genesis.
  pub data HashBreak : Type 0 where
    collision :
        (p q : Text) (e f : CanonicalEvent)
        → ¬ ((p ≡ q) × (e ≡ f))
        → compute_entry_hash h p e ≡ compute_entry_hash h q f
        → HashBreak
    genesis_hit :
        (p : Text) (e : CanonicalEvent) → compute_entry_hash h p e ≡ genesis_prev → HashBreak

  same_row :
      (e f : LedgerEventRow)
      → canonical_of e ≡ canonical_of f
      → e.prev_hash ≡ f.prev_hash
      → e.entry_hash ≡ f.entry_hash
      → e ≡ f
  same_row e f c p q = λ i. record {
    seq = (c i).seq;
    ts = (c i).ts;
    kind = (c i).kind;
    author = (c i).author;
    prompt_id = (c i).prompt_id;
    session_id = (c i).session_id;
    version_number = (c i).version_number;
    ref_kind = (c i).ref_kind;
    ref_id = (c i).ref_id;
    payload_hash = (c i).payload_hash;
    prev_hash = p i;
    entry_hash = q i;
  }

  -- The chain read backwards from its head to genesis.
  abbrev Back : Text → List LedgerEventRow → Type 0
  Back head [] = head ≡ genesis_prev
  Back head (e ∷ older) =
      (compute_entry_hash h e.prev_hash (canonical_of e) ≡ head)
      × (e.entry_hash ≡ head)
      × Back e.prev_hash older

  Back-reverse :
      (prev : Text) (rows older : List LedgerEventRow)
      → Chained h prev rows
      → Back prev older
      → Back (head_from prev rows) (reverse rows ++ older)
  Back-reverse prev [] older c b = b
  Back-reverse prev (e ∷ rows) older c b =
      rw (reverse-cons e rows, append_assoc)
        (Back-reverse e.entry_hash rows (e ∷ older) c.2
          (c.1, refl, subst (λ p. Back p older) (sym c.0) b))

  Back-unique :
      (xs ys : List LedgerEventRow) (head : Text)
      → Back head xs
      → Back head ys
      → (xs ≡ ys) ⊎ HashBreak
  Back-unique [] [] head b c = inl refl
  Back-unique [] (y ∷ ys) head b c = inr (genesis_hit y.prev_hash (canonical_of y) (c.0 ∙ b))
  Back-unique (x ∷ xs) [] head b c = inr (genesis_hit x.prev_hash (canonical_of x) (b.0 ∙ c))
  Back-unique (x ∷ xs) (y ∷ ys) head b c = elim (Text-discrete x.prev_hash y.prev_hash) [
    | no p ↦ inr (
        collision x.prev_hash y.prev_hash (canonical_of x) (canonical_of y) (λ e. p e.0)
          (b.0 ∙ sym c.0))
    | yes p ↦ elim (CanonicalEvent-discrete (canonical_of x) (canonical_of y)) [
      | no q ↦ inr (
          collision x.prev_hash y.prev_hash (canonical_of x) (canonical_of y) (λ e. q e.1)
            (b.0 ∙ sym c.0))
      | yes q ↦ elim (Back-unique xs ys x.prev_hash b.2 (subst (λ t. Back t ys) (sym p) c.2)) [
        | inl e ↦ inl (cc (e, same_row x y q p (b.1 ∙ sym c.1)))
        | inr broken ↦ inr broken
      ]
    ]
  ]

  -- Two tables that verify and end in the same hash hold the same rows, or the hash is broken: they
  -- exhibit two different inputs with one entry hash, or an input that hashes to genesis.
  pub head_binds_rows :
      (rows others : List LedgerEventRow)
      → (verify_ledger_chain h rows).ok ≡ true
      → (verify_ledger_chain h others).ok ≡ true
      → head_from genesis_prev rows ≡ head_from genesis_prev others
      → (rows ≡ others) ⊎ HashBreak
  head_binds_rows rows others v w same =
      let b = Back-reverse genesis_prev rows [] ((verify_ledger_chain_ok h rows).0 v) refl in
      let c = Back-reverse genesis_prev others [] ((verify_ledger_chain_ok h others).0 w) refl in
      elim (Back-unique (reverse rows ++ []) (reverse others ++ []) _ b
        (subst (λ t. Back t (reverse others ++ [])) (sym same) c)) [
          | inl e ↦ inl (
              cc (
                e,
                append-nil (reverse rows),
                append-nil (reverse others),
                reverse-reverse rows,
                reverse-reverse others,
              ))
          | inr broken ↦ inr broken
        ]
