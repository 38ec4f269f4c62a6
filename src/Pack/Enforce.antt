-- ===== src/Pack/Enforce.antt =====
-- What `enforce_pack_budget_bytes` (crates/polis-core/src/pack.rs) promises, from its passes.
use polis_memory.Prelude.{
  ℕ, suc, ◌+◌, ◌-◌, ◌≤◌, ◌<◌, min, ◌≡◌, refl, ap, sym, ◌∙◌, subst, ◌⊎◌, inl, inr, Bool, true, false,
  Option, none, List, [], ◌∷◌, arith, Bool-cases, ltb, leb, All, unwrap_or, length, take,
}
use polis_memory.Pack.{
  AnswerPack, Step, steps, len, pass, trim_step, empty_step, after_pass_two, after_pass_one,
  enforce_pack_budget_bytes, count_items, budgeted_item_count, max_context_bytes,
}
use polis_memory.Pack.Loops.{
  Follows, Follows-refl, Follows-trans, IsReported, trim_step-Follows, empty_step-Follows,
}
use polis_memory.Pack.Budget.{
  pass-Follows, pass-Floors, pass_fits, pass_empties, at_step, last_resorts, last_resorts-Spent,
  last_resorts_shrink, last_resorts_remember,
}

module _ {Item : Type 0} (size : AnswerPack Item → ℕ) (max_bytes : ℕ) where
  abbrev first_pass : AnswerPack Item → Bool × AnswerPack Item
  first_pass p = pass size max_bytes (trim_step size max_bytes) steps p

  abbrev second_pass : AnswerPack Item → Bool × AnswerPack Item
  second_pass p = pass size max_bytes (empty_step size max_bytes) steps p

  -- Within the budget, or every list of the table is empty and nothing else is left to give.
  abbrev pub Fits : AnswerPack Item → Type 0
  Fits p =
      (size p ≤ max_bytes) ⊎ (All (λ s. len s p ≡ 0) steps × (p.node ≡ none) × (p.query ≡ none))

  resorts-Follows :
      (q : AnswerPack Item)
      → All (λ s. len s q ≡ 0) steps
      → Follows q (last_resorts size max_bytes q)
  resorts-Follows q empty = record {
    shrinks = λ t. last_resorts_shrink size max_bytes t q;
    reports = λ t. inl (
        omega (
          arith,
          last_resorts_shrink size max_bytes t q,
          at_step size max_bytes (λ s. len s q ≡ 0) empty t,
        ));
    remembers = λ t named. last_resorts_remember size max_bytes t q named;
  }

  All-empty :
      (ss : List Step) (p q : AnswerPack Item)
      → Follows p q
      → All (λ s. len s p ≡ 0) ss
      → All (λ s. len s q ≡ 0) ss
  All-empty [] p q f a = tt
  All-empty (s ∷ ss) p q f a = (omega (arith, f.shrinks s, a.0), All-empty ss p q f a.1)

  after_pass_two_lem :
      (q : AnswerPack Item) (r : Bool × AnswerPack Item)
      → second_pass q ≡ r
      → Follows q (after_pass_two size max_bytes r) × Fits (after_pass_two size max_bytes r)
  after_pass_two_lem q (true, x) e = (
    subst (λ y. Follows q y.1) e
        (pass-Follows size max_bytes (empty_step size max_bytes) steps q
          (empty_step-Follows size max_bytes)),
    inl (
        subst (λ y. size y.1 ≤ max_bytes) e
          (pass_fits size max_bytes (empty_step size max_bytes) steps q (ap (λ y. y.0) e))),
  )
  after_pass_two_lem q (false, x) e =
      let follows =
        subst (λ y. Follows q y.1) e
          (pass-Follows size max_bytes (empty_step size max_bytes) steps q
            (empty_step-Follows size max_bytes)) in
      let empty =
        subst (λ y. All (λ s. len s y.1 ≡ 0) steps) e
          (pass_empties size max_bytes steps q (ap (λ y. y.0) e)) in
      let resorts = resorts-Follows x empty in
      (
        Follows-trans q x _ follows resorts,
        elim (last_resorts-Spent size max_bytes x) [
          | inl fits ↦ inl fits
          | inr spent ↦ inr (All-empty steps x _ resorts empty, spent.0, spent.1)
        ],
      )

  after_pass_one_lem :
      (p : AnswerPack Item) (r : Bool × AnswerPack Item)
      → first_pass p ≡ r
      → Follows p (after_pass_one size max_bytes r) × Fits (after_pass_one size max_bytes r)
  after_pass_one_lem p (true, x) e = (
    subst (λ y. Follows p y.1) e
        (pass-Follows size max_bytes (trim_step size max_bytes) steps p
          (trim_step-Follows size max_bytes)),
    inl (
        subst (λ y. size y.1 ≤ max_bytes) e
          (pass_fits size max_bytes (trim_step size max_bytes) steps p (ap (λ y. y.0) e))),
  )
  after_pass_one_lem p (false, x) e =
      let follows =
        subst (λ y. Follows p y.1) e
          (pass-Follows size max_bytes (trim_step size max_bytes) steps p
            (trim_step-Follows size max_bytes)) in
      let rest = after_pass_two_lem x (second_pass x) refl in
      (Follows-trans p x _ follows rest.0, rest.1)

  enforced :
      (p : AnswerPack Item)
      → Follows p (enforce_pack_budget_bytes size p max_bytes)
        × Fits (enforce_pack_budget_bytes size p max_bytes)
  unfolding enforce_pack_budget_bytes
  enforced p = elim (Bool-cases (leb (size p) max_bytes)) [
    | inl fits ↦ rw fits (Follows-refl p, inl (ground (arith, fits)))
    | inr over ↦ rw over (after_pass_one_lem p (first_pass p) refl)
  ]

  -- Whatever the pack and however its size is measured, the result is within the budget, or each of
  -- the eleven lists that the two passes trim is empty in it, and it has no node and no query.
  pub enforce_pack_budget_bytes-Fits :
      (p : AnswerPack Item) → Fits (enforce_pack_budget_bytes size p max_bytes)
  enforce_pack_budget_bytes-Fits p = (enforced p).1

  -- Each of the eleven lists that the two passes trim is as long in the result as it was, or its
  -- name stands in the pack's report of what was cut.
  pub enforce_pack_budget_bytes_reports :
      (p : AnswerPack Item) (t : Step)
      → (len t (enforce_pack_budget_bytes size p max_bytes) ≡ len t p)
        ⊎ IsReported t (enforce_pack_budget_bytes size p max_bytes)
  enforce_pack_budget_bytes_reports p t = (enforced p).0.reports t

  -- If pass one gets the pack within the budget, every list that had an entry keeps at least one.
  pub enforce_pack_budget_bytes_floors :
      (p : AnswerPack Item) (t : Step)
      → (pass size max_bytes (trim_step size max_bytes) steps p).0 ≡ true
      → min 1 (len t p) ≤ len t (enforce_pack_budget_bytes size p max_bytes)
  unfolding enforce_pack_budget_bytes
  enforce_pack_budget_bytes_floors p t early = elim (Bool-cases (leb (size p) max_bytes)) [
    | inl fits ↦ rw fits (omega arith)
    | inr over ↦ rw over (kept (first_pass p) refl)
  ]
    where
      kept :
          (r : Bool × AnswerPack Item)
          → first_pass p ≡ r
          → min 1 (len t p) ≤ len t (after_pass_one size max_bytes r)
      kept (true, x) e =
          subst (λ y. min 1 (len t p) ≤ len t y.1) e (pass-Floors size max_bytes steps p t)
      kept (false, x) e = absurd (apart (sym early ∙ ap (λ y. y.0) e))
        where
          apart : true ≡ false → ⊥
          apart q = cc

abbrev pub cost_of : List (Option ℕ) → ℕ
cost_of [] = 0
cost_of (body ∷ bodies) = 120 + unwrap_or body 0 + cost_of bodies

-- Once something is kept, what is kept further costs no more than the budget that is left.
count_items_more :
    (keep budget : ℕ) (bodies : List (Option ℕ))
    → 0 < keep
    → (n : ℕ) × (count_items keep budget bodies ≡ keep + n)
      × (n ≤ length bodies)
      × (cost_of (take n bodies) ≤ budget)
unfolding count_items
count_items_more keep budget [] pos = (0, omega arith, omega arith, omega arith)
count_items_more keep budget (body ∷ bodies) pos =
    let cost = 120 + unwrap_or body 0 in
    let (n, counted, few, cheap) =
      count_items_more (keep + 1) (budget - cost) bodies (omega arith) in
    elim (Bool-cases (ltb budget cost)) [
      | inl big ↦ (0, stop big, omega arith, omega arith)
      | inr fits ↦ (suc n, go_on fits n counted, omega (arith, few), dear fits n cheap)
    ]
  where
    stop :
        ltb budget (120 + unwrap_or body 0) ≡ true
        → count_items keep budget (body ∷ bodies) ≡ keep + 0
    stop big = ground (arith, big, pos)

    go_on :
        ltb budget (120 + unwrap_or body 0) ≡ false
        → (n : ℕ) → count_items (keep + 1) (budget - (120 + unwrap_or body 0)) bodies ≡ keep + 1 + n
        → count_items keep budget (body ∷ bodies) ≡ keep + suc n
    go_on fits n counted = ground (arith, fits, pos, counted)

    dear :
        ltb budget (120 + unwrap_or body 0) ≡ false
        → (n : ℕ) → cost_of (take n bodies) ≤ budget - (120 + unwrap_or body 0)
        → 120 + unwrap_or body 0 + cost_of (take n bodies) ≤ budget
    dear fits n cheap = ground (arith, fits, cheap)

-- Of a list that is not empty at least one item is kept, whatever its size, and never more than
-- there are; the items after the first cost no more than what the first leaves of the budget.
pub budgeted_item_count_bounds :
    (body : Option ℕ) (bodies : List (Option ℕ))
    → (n : ℕ) × (budgeted_item_count (body ∷ bodies) ≡ suc n)
      × (n ≤ length bodies)
      × (cost_of (take n bodies) ≤ max_context_bytes - (120 + unwrap_or body 0))
unfolding budgeted_item_count count_items
budgeted_item_count_bounds body bodies =
    let (n, counted, few, cheap) =
      count_items_more 1 (max_context_bytes - (120 + unwrap_or body 0)) bodies (omega arith) in
    (n, counted ∙ omega arith, few, cheap)
