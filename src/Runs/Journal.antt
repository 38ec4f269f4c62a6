-- ===== src/Runs/Journal.antt =====
-- The journal of a run after its revert (crates/polis-store/src/runs.rs).
use mathlib.Core.List.{reverse}
use polis_memory.Prelude.{
  ℕ, ◌≡◌, ◌≢◌, refl, sym, ap, subst, ◌∙◌, ◌⊎◌, inl, inr, true, false, ◌&&◌, List, [], ◌∷◌, ◌==◌,
  any, any-reverse, keep, map, arith, Bool-cases, ==_iff,
}
use polis_memory.Ledger.{Hasher}
use polis_memory.Compaction.{Codec}
use polis_memory.Runs.{RunOp, Store, applied, is_applied}
use polis_memory.Runs.Revert.{applied_ops, is_op}
use polis_memory.Runs.Marks.{
  Undoes, Undoes-marks, is_applied-false, is_applied-true, marks, marks_hit, marks_miss,
  reverted_by,
}

-- A row of the journal before and after the revert of `run` by the run `by`.
pub data OpAfter (run by : ℕ) (o p : RunOp) : Type 0 where
  taken_back : o.run_id ≡ run → o.outcome ≡ applied → p ≡ reverted_by by o → OpAfter run by o p
  not_applied :
      o.run_id ≡ run → o.outcome ≢ applied → (p ≡ o) ⊎ (p ≡ reverted_by by o) → OpAfter run by o p
  of_another : o.run_id ≢ run → p ≡ o → OpAfter run by o p

abbrev pub OpsAfter : ℕ → ℕ → List RunOp → List RunOp → Type 0
OpsAfter run by [] [] = Unit
OpsAfter run by (o ∷ ops) (p ∷ after) = OpAfter run by o p × OpsAfter run by ops after
OpsAfter run by _ _ = ⊥

abbrev InOps : RunOp → List RunOp → Type 0
InOps o [] = ⊥
InOps o (x ∷ ops) = (x ≡ o) ⊎ InOps o ops

hit_in :
    (run : ℕ) (o : RunOp) (ops : List RunOp)
    → InOps o ops
    → o.run_id ≡ run
    → o.outcome ≡ applied
    → any (λ a. is_op a o) (applied_ops run ops) ≡ true
unfolding any applied_ops keep
hit_in run o [] i e f = absurd i
hit_in run o (x ∷ ops) (inl same) e f =
    let own : x.run_id ≡ run = ap (λ (r : RunOp). r.run_id) same ∙ e in
    let active : is_applied x.outcome ≡ true =
      ap (λ (r : RunOp). is_applied r.outcome) same ∙ ap is_applied f in
    let ix : o.op_ix ≡ x.op_ix = ap (λ (r : RunOp). r.op_ix) (sym same) in
    let kept : (x.run_id == run && is_applied x.outcome) ≡ true = ground (arith, own, active) in
    let hit : is_op x o ≡ true = ground (arith, own, e, ix) in ground (arith, kept, hit)
hit_in run o (x ∷ ops) (inr i) e f = elim (Bool-cases (x.run_id == run && is_applied x.outcome)) [
  | inl kept ↦ ground (arith, kept, hit_in run o ops i e f)
  | inr dropped ↦ ground (arith, dropped, hit_in run o ops i e f)
]

miss_other :
    (run : ℕ) (o : RunOp) (ops : List RunOp)
    → o.run_id ≢ run
    → any (λ a. is_op a o) (applied_ops run ops) ≡ false
unfolding any applied_ops keep
miss_other run o [] ne = refl
miss_other run o (x ∷ ops) ne = elim (Bool-cases (x.run_id == run && is_applied x.outcome)) [
  | inl kept ↦
      let own : x.run_id ≡ run = (==_iff x.run_id run).0 (ground (arith, kept)) in
      let apart : (o.run_id == x.run_id) ≡ false = ground (arith, own, ne) in
      ground (arith, kept, apart, miss_other run o ops ne)
  | inr dropped ↦ ground (arith, dropped, miss_other run o ops ne)
]

one_after :
    (run by : ℕ) (all : List RunOp) (o : RunOp)
    → InOps o all
    → OpAfter run by o (marks by (reverse (applied_ops run all)) o)
one_after run by all o i =
    let back = reverse (applied_ops run all) in
    let met = any-reverse (λ a. is_op a o) (applied_ops run all) in
    elim (Bool-cases (o.run_id == run)) [
      | inr other ↦
          let ne : o.run_id ≢ run = ground (arith, other) in
          of_another ne (marks_miss by back o (met ∙ miss_other run o all ne))
      | inl own ↦
          let e = (==_iff o.run_id run).0 own in
          elim (Bool-cases (is_applied o.outcome)) [
            | inl active ↦
                let f = is_applied-true o.outcome active in
                taken_back e f (marks_hit by back o (met ∙ hit_in run o all i e f))
            | inr idle ↦
                not_applied e (is_applied-false o.outcome idle)
                  (elim (Bool-cases (any (λ a. is_op a o) back)) [
                    | inl hit ↦ inr (marks_hit by back o hit)
                    | inr miss ↦ inl (marks_miss by back o miss)
                  ])
          ]
    ]

each_after :
    (run by : ℕ) (all ops : List RunOp)
    → ((o : RunOp) → InOps o ops → InOps o all)
    → OpsAfter run by ops (map (marks by (reverse (applied_ops run all))) ops)
each_after run by all [] sub = tt
each_after run by all (o ∷ ops) sub =
    (one_after run by all o (sub o (inl refl)), each_after run by all ops (λ x i. sub x (inr i)))

-- After the inverses of all applied operations of the run.
pub Undoes-OpsAfter :
    (h : Hasher) (codec : Codec) (run by : ℕ) (ops : List RunOp) {s t : Store}
    → s.ops ≡ ops
    → Undoes h codec run by (reverse (applied_ops run ops)) s t
    → OpsAfter run by ops t.ops
Undoes-OpsAfter h codec run by ops same u =
    let marked = Undoes-marks h codec run by u in
    subst (OpsAfter run by ops)
      (sym (marked ∙ ap (map (marks by (reverse (applied_ops run ops)))) same))
      (each_after run by ops ops (λ o i. i))
