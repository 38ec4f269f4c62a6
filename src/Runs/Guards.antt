-- ===== src/Runs/Guards.antt =====
-- What the checks of `revert_run` (crates/polis-store/src/runs.rs) say where they all pass.
use polis_memory.Prelude.{
  ℕ, ◌≤◌, ◌<◌, ◌≡◌, ◌≢◌, refl, ap, subst, ◌⊎◌, inl, inr, Bool, true, false, ◌&&◌, Option, none,
  some, List, [], ◌∷◌, ◌++◌, ◌==◌, any, keep, ltb, arith, All, Bool-cases, is_empty, ==_iff,
}
use polis_memory.Prelude.Text.{Text, codes, text_eq}
use polis_memory.Catalog.Reorg.{Subject, node, link, obs, prompt, seq}
use polis_memory.Runs.{RunOp, applied, is_applied}
use polis_memory.Runs.Revert.{
  all_subjects, applied_ops, behind, last_overlap, same_subject, share, was_reverted,
}
use polis_memory.Runs.Marks.{is_applied-false, is_applied-true}

-- The run was not reverted: neither by hand nor by the canary.
abbrev pub NotReverted : Option Text → Type 0
NotReverted outcome =
    (outcome ≢ some (codes "reverted")) × (outcome ≢ some (codes "reverted_by_canary"))

pub was_reverted-false :
    (outcome : Option Text) → was_reverted outcome ≡ false → NotReverted outcome
was_reverted-false outcome e = (
  λ q. let hit = ap was_reverted q in unfold text_eq in ground (arith, e, hit),
  λ q. let hit = ap was_reverted q in unfold text_eq in ground (arith, e, hit),
)

abbrev pub Above : ℕ → Option ℕ → Type 0
Above run horizon = (horizon ≡ none) ⊎ ((h : ℕ) × (horizon ≡ some h) × (h < run))

pub behind-false : (run : ℕ) (horizon : Option ℕ) → behind run horizon ≡ false → Above run horizon
behind-false run none e = inl refl
behind-false run (some h) e = inr (h, refl, ground (arith, e))

-- One of the operations is an applied one of the run.
pub data HasApplied (run : ℕ) : List RunOp → Type 0 where
  now :
      {o : RunOp} {ops : List RunOp}
      → o.run_id ≡ run
      → o.outcome ≡ applied
      → HasApplied run (o ∷ ops)
  after : {o : RunOp} {ops : List RunOp} → HasApplied run ops → HasApplied run (o ∷ ops)

pub applied_ops_some :
    (run : ℕ) (ops : List RunOp) → is_empty (applied_ops run ops) ≡ false → HasApplied run ops
unfolding applied_ops keep
applied_ops_some run [] e = cc
applied_ops_some run (o ∷ ops) e = elim (Bool-cases (o.run_id == run && is_applied o.outcome)) [
  | inl kept ↦
      now ((==_iff o.run_id run).0 (ground (arith, kept)))
        (is_applied-true o.outcome (ground (arith, kept)))
  | inr dropped ↦ after (applied_ops_some run ops (ground (arith, e, dropped)))
]

-- The operation does not stand in the way: it is of no later run, or was not applied, or has no
-- subject in common with an applied operation of the run.
abbrev pub Apart : ℕ → RunOp → RunOp → Type 0
Apart run o p =
    (p.run_id ≢ run)
    ⊎ ((p.outcome ≢ applied)
        ⊎ All (λ (x : Subject). All (λ (y : Subject). x ≢ y) p.subjects) o.subjects)

abbrev pub Lets : ℕ → List RunOp → RunOp → Type 0
Lets run ops o = (o.run_id ≤ run) ⊎ ((o.outcome ≢ applied) ⊎ All (Apart run o) ops)

module _ {A : Type 0} where
  All-map : (P Q : A → Type 0) → ((x : A) → P x → Q x) → (xs : List A) → All P xs → All Q xs
  All-map P Q f [] a = tt
  All-map P Q f (x ∷ xs) a = (f x a.0, All-map P Q f xs a.1)

  All-split : (P : A → Type 0) (xs ys : List A) → All P (xs ++ ys) → All P xs × All P ys
  All-split P [] ys a = (tt, a)
  All-split P (x ∷ xs) ys a = let r = All-split P xs ys a.1 in ((a.0, r.0), r.1)

  any_misses : (p : A → Bool) (xs : List A) → any p xs ≡ false → All (λ x. p x ≡ false) xs
  unfolding any
  any_misses p [] e = tt
  any_misses p (x ∷ xs) e = elim (Bool-cases (p x)) [
    | inl hit ↦ absurd (ground (arith, e, hit))
    | inr miss ↦ (miss, any_misses p xs (ground (arith, e, miss)))
  ]

same_subject_self : (x : Subject) → same_subject x x ≡ true
same_subject_self (node a) = (==_iff a a).1 refl
same_subject_self (link a) = (==_iff a a).1 refl
same_subject_self (obs a) = (==_iff a a).1 refl
same_subject_self (prompt a) = (==_iff a a).1 refl
same_subject_self (seq a) = (==_iff a a).1 refl

different : (x y : Subject) → same_subject x y ≡ false → x ≢ y
different x y e q =
    let self = same_subject_self x in
    let met = subst (λ (z : Subject). same_subject x z ≡ true) q self in ground (arith, e, met)

share-false :
    (mine theirs : List Subject)
    → share mine theirs ≡ false
    → All (λ (x : Subject). All (λ (y : Subject). x ≢ y) mine) theirs
unfolding share
share-false mine theirs e =
    All-map _ _
      (λ x miss. All-map _ _ (λ y. different x y) mine (any_misses (same_subject x) mine miss))
      theirs (any_misses (λ s. any (same_subject s) mine) theirs e)

-- What holds of the subjects of the run's applied operations.
Apart-ops :
    (run : ℕ) (o : RunOp) (ops : List RunOp)
    → All
        (λ (x : Subject). All (λ (y : Subject). x ≢ y) (all_subjects (applied_ops run ops)))
        o.subjects
    → All (Apart run o) ops
unfolding applied_ops keep
Apart-ops run o [] a = tt
Apart-ops run o (p ∷ ops) a = elim (Bool-cases (p.run_id == run)) [
  | inr other ↦ (
    inl (λ q. let hit = (==_iff p.run_id run).1 q in ground (arith, other, hit)),
    Apart-ops run o ops (rw (other, keep) at a),
  )
  | inl mine ↦ elim (Bool-cases (is_applied p.outcome)) [
    | inr idle ↦ (
      inr (inl (is_applied-false p.outcome idle)),
      Apart-ops run o ops (rw (mine, idle, keep) at a),
    )
    | inl active ↦
        let b = (rw (mine, active, keep) at a) in
        (
          inr (
              inr (
                All-map _ _ (λ x c. (All-split (λ (y : Subject). x ≢ y) p.subjects _ c).0)
                  o.subjects b)),
          Apart-ops run o ops (
              All-map _ _ (λ x c. (All-split (λ (y : Subject). x ≢ y) p.subjects _ c).1) o.subjects
                b),
        )
  ]
]

Lets-each :
    (run : ℕ) (all ops : List RunOp)
    → last_overlap run (all_subjects (applied_ops run all)) ops ≡ 0
    → All (Lets run all) ops
unfolding last_overlap
Lets-each run all [] e = tt
Lets-each run all (o ∷ ops) e =
    let mine = all_subjects (applied_ops run all) in
    elim (Bool-cases (ltb run o.run_id && is_applied o.outcome && share mine o.subjects)) [
      | inl clash ↦ absurd (ground (arith, e, clash))
      | inr free ↦ (
        elim (Bool-cases (ltb run o.run_id)) [
          | inr early ↦ inl (ground (arith, early))
          | inl late ↦ elim (Bool-cases (is_applied o.outcome)) [
            | inr idle ↦ inr (inl (is_applied-false o.outcome idle))
            | inl active ↦ inr (
                inr (
                  Apart-ops run o all
                    (share-false mine o.subjects (ground (arith, free, late, active)))))
          ]
        ],
        Lets-each run all ops (ground (arith, e, free)),
      )
    ]

pub last_overlap_none :
    (run : ℕ) (ops : List RunOp)
    → last_overlap run (all_subjects (applied_ops run ops)) ops ≡ 0
    → All (Lets run ops) ops
last_overlap_none run ops e = Lets-each run ops ops e
