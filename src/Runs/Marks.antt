-- ===== src/Runs/Marks.antt =====
-- The walk back of `revert_run` (crates/polis-store/src/runs.rs): which inverses it carries out, and
-- which rows of the journal it marks.
use polis_memory.Prelude.{
  ℕ, ◌≡◌, ◌≢◌, refl, sym, ap, subst, ◌∙◌, inl, inr, true, false, some, List, [], ◌∷◌, if◌then◌else◌,
  any, map, arith, Bool-cases, Option-cases,
}
use polis_memory.Ledger.{Hasher}
use polis_memory.Compaction.{Codec}
use polis_memory.Runs.{
  RunOp, OpOutcome, Store, applied, expired, invert_op_locked, is_applied, refused, reverted,
}
use polis_memory.Runs.Revert.{Transaction, is_op, mark_op, marked_store, walk_back, walked}
use polis_memory.Runs.Refusals.{invert_op-Kept}

-- The row of the journal once the run `by` has taken its operation back.
abbrev pub reverted_by : ℕ → RunOp → RunOp
reverted_by by o = record o { outcome = reverted; reverted_by_run = some by }

module _ (h : Hasher) (codec : Codec) (run by : ℕ) where
  -- The inverses of the operations, each on the store that the ones before it have left.
  pub data Undoes : List RunOp → Store → Store → Type 0 where
    nothing : {s : Store} → Undoes [] s s
    undo :
        {o : RunOp} {ops : List RunOp} {s u t : Store}
        → invert_op_locked h codec run by o.pre_image s ≡ some u
        → Undoes ops (marked_store by o u) t
        → Undoes (o ∷ ops) s t

  pub walk_back-Undoes :
      (ops : List RunOp) (tx t : Transaction)
      → walk_back h codec run by ops tx ≡ walked t
      → Undoes ops tx.working t.working
  unfolding walk_back
  walk_back-Undoes [] tx t e =
      let same : tx ≡ t = ground (arith, e) in
      subst (λ (x : Transaction). Undoes [] tx.working x.working) same nothing
  walk_back-Undoes (o ∷ ops) tx t e =
      elim (Option-cases (invert_op_locked h codec run by o.pre_image tx.working)) [
        | inl fails ↦ absurd (ground (arith, e, fails))
        | inr (u, yields) ↦ undo yields (
            walk_back-Undoes ops (record tx { working = marked_store by o u }) t
              (ground (arith, e, yields)))
      ]

-- The inverses leave the ledger and the runs alone.
pub Undoes-Kept :
    (h : Hasher) (codec : Codec) (run by : ℕ) {ops : List RunOp} {s t : Store}
    → Undoes h codec run by ops s t
    → (t.memory.rows ≡ s.memory.rows) × (t.runs ≡ s.runs)
Undoes-Kept h codec run by nothing = (refl, refl)
Undoes-Kept h codec run by (undo {o = o} {s = s} {u = u} e rest) =
    let first = invert_op-Kept h codec run by o.pre_image s u e in
    let later = Undoes-Kept h codec run by rest in (later.0 ∙ first.0, later.1 ∙ first.1)

abbrev mark_one : ℕ → RunOp → RunOp → RunOp
mark_one by a p = if is_op a p then reverted_by by p else p

abbrev pub marks : ℕ → List RunOp → RunOp → RunOp
marks by [] o = o
marks by (a ∷ ops) o = marks by ops (mark_one by a o)

mark_op_lem : (by : ℕ) (a : RunOp) (ops : List RunOp) → mark_op by a ops ≡ map (mark_one by a) ops
unfolding mark_op
mark_op_lem by a [] = refl
mark_op_lem by a (o ∷ ops) = ap (λ (r : List RunOp). mark_one by a o ∷ r) (mark_op_lem by a ops)

marks_after :
    (by : ℕ) (a : RunOp) (rest ops : List RunOp)
    → map (marks by rest) (map (mark_one by a) ops) ≡ map (marks by (a ∷ rest)) ops
marks_after by a rest [] = refl
marks_after by a rest (o ∷ ops) =
    ap (λ (r : List RunOp). marks by (a ∷ rest) o ∷ r) (marks_after by a rest ops)

marks_nothing : (by : ℕ) (ops : List RunOp) → map (marks by []) ops ≡ ops
marks_nothing by [] = refl
marks_nothing by (o ∷ ops) = ap (λ (r : List RunOp). o ∷ r) (marks_nothing by ops)

pub Undoes-marks :
    (h : Hasher) (codec : Codec) (run by : ℕ) {ops : List RunOp} {s t : Store}
    → Undoes h codec run by ops s t
    → t.ops ≡ map (marks by ops) s.ops
Undoes-marks h codec run by {s = s} nothing = sym (marks_nothing by s.ops)
Undoes-marks h codec run by (undo {o = o} {ops = ops} {s = s} {u = u} e rest) =
    let same = (invert_op-Kept h codec run by o.pre_image s u e).3 in
    Undoes-marks h codec run by rest
    ∙ ap (map (marks by ops)) (ap (mark_op by o) same ∙ mark_op_lem by o s.ops)
    ∙ marks_after by o ops s.ops

pub marks_hit :
    (by : ℕ) (ops : List RunOp) (o : RunOp)
    → any (λ a. is_op a o) ops ≡ true
    → marks by ops o ≡ reverted_by by o
unfolding any
marks_hit by [] o e = cc
marks_hit by (a ∷ ops) o e = elim (Bool-cases (is_op a o)) [
  | inl hit ↦ rw hit (stays ops)
  | inr miss ↦ rw miss (marks_hit by ops o (ground (arith, e, miss)))
]
  where
    stays : (rest : List RunOp) → marks by rest (reverted_by by o) ≡ reverted_by by o
    stays [] = refl
    stays (b ∷ rest) = elim (Bool-cases (is_op b o)) [
      | inl hit ↦ rw hit (stays rest)
      | inr miss ↦ rw miss (stays rest)
    ]

pub marks_miss :
    (by : ℕ) (ops : List RunOp) (o : RunOp) → any (λ a. is_op a o) ops ≡ false → marks by ops o ≡ o
unfolding any
marks_miss by [] o e = refl
marks_miss by (a ∷ ops) o e = elim (Bool-cases (is_op a o)) [
  | inl hit ↦ absurd (ground (arith, e, hit))
  | inr miss ↦ rw miss (marks_miss by ops o (ground (arith, e, miss)))
]

pub is_applied-true : (x : OpOutcome) → is_applied x ≡ true → x ≡ applied
is_applied-true applied e = refl
is_applied-true refused e = cc
is_applied-true expired e = cc
is_applied-true reverted e = cc

pub is_applied-false : (x : OpOutcome) → is_applied x ≡ false → x ≢ applied
is_applied-false x e q = let yes = ap is_applied q in ground (arith, e, yes)
