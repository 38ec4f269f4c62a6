-- ===== src/Adjudicate/Covers.antt =====
-- The roll-up of crates/polis-core/src/coldness.rs reaches every node within 64 steps of a root.
use polis_memory.Prelude.{
  ℕ, zero, suc, ◌≤◌, ◌≡◌, refl, sym, ap, ◌∙◌, subst, Bool, true, false, Option, none, some, List,
  [], ◌∷◌, ◌==◌, ==_iff, arith, Bool-cases, inl, inr, Option-cases,
}
use polis_memory.Prelude.Int.{ℤ}
use polis_memory.Prelude.Tables.{lookup, lookup-key}
use polis_memory.Catalog.{Node}
use polis_memory.Catalog.Reorg.{node_id}
use polis_memory.Coldness.{BranchStat}
use polis_memory.Coldness.Rollup.{
  StatEntry, absorb_child, entry_id, fill, has, kids, own, roll, roll_children, roll_roots,
}
use polis_memory.Adjudicate.{get}
use polis_memory.Adjudicate.Descents.{Descent, down, stop}
use polis_memory.Adjudicate.Protects.{RollStep, first_row, lookup-kids}

-- A step loses no entry of `x`.
abbrev Keeps : ℕ → RollStep → Type 0
Keeps x step = (c : Node) (out : List StatEntry) → has x out ≡ true → has x (step c out).1 ≡ true

has_later :
    (x : ℕ) (e : StatEntry) (out : List StatEntry) → has x out ≡ true → has x (e ∷ out) ≡ true
unfolding has lookup
has_later x e out h = elim (Bool-cases (entry_id e == x)) [
  | inl here ↦ ground (arith, here)
  | inr there ↦ ground (arith, h, there)
]

has_first : (e : StatEntry) (out : List StatEntry) → has e.id (e ∷ out) ≡ true
unfolding has lookup
has_first e out = ground (arith, (==_iff e.id e.id).1 refl)

lookup_past :
    (x : ℕ) (e : StatEntry) (out : List StatEntry)
    → has x out ≡ true
    → has e.id out ≡ false
    → lookup entry_id x (e ∷ out) ≡ lookup entry_id x out
unfolding has lookup
lookup_past x e out h absent = elim (Bool-cases (entry_id e == x)) [
  | inl here ↦ absurd (ground (arith, h, rw ((==_iff e.id x).0 here) at absent))
  | inr there ↦ ground (arith, there)
]

children_keep-has :
    (x : ℕ) (step : RollStep) (cs : List Node) (s : BranchStat) (out : List StatEntry)
    → Keeps x step
    → has x out ≡ true
    → has x (roll_children step cs s out).1 ≡ true
unfolding roll_children
children_keep-has x step [] s out keeps h = h
children_keep-has x step (c ∷ cs) s out keeps h =
    children_keep-has x step cs (absorb_child s (step c out).0) (step c out).1 keeps (keeps c out h)

child_covers :
    (x c : ℕ) (step : RollStep) (n : Node) (cs : List Node) (s : BranchStat) (out : List StatEntry)
    → Keeps x step
    → lookup node_id c cs ≡ some n
    → ((o : List StatEntry) → has x (step n o).1 ≡ true)
    → has x (roll_children step cs s out).1 ≡ true
unfolding roll_children lookup
child_covers x c step n [] s out keeps e covers = cc
child_covers x c step n (m ∷ cs) s out keeps e covers = elim (Bool-cases (node_id m == c)) [
  | inl here ↦ children_keep-has x step cs (absorb_child s (step m out).0) (step m out).1 keeps (
      subst (λ (r : Node). has x (step r out).1 ≡ true) (sym (first_row c m n cs here e))
        (covers out))
  | inr there ↦
      child_covers x c step n cs (absorb_child s (step m out).0) (step m out).1 keeps
        (ground (arith, e, there)) covers
]

module _ (nodes : List Node) (direct : ℕ → Option (ℕ × Option ℤ)) (protected : ℕ → Bool) where
  roll-Keeps : (x left : ℕ) → Keeps x (roll nodes direct protected left)
  unfolding roll
  roll-Keeps x zero n out h =
      has_later x (record { id = n.id; stat = own nodes direct protected n.id }) out h
  roll-Keeps x (suc left) n out h =
      let r =
        roll_children (roll nodes direct protected left) (kids nodes direct protected n.id)
          (own nodes direct protected n.id) out in
      has_later x (record { id = n.id; stat = r.0 }) r.1
        (children_keep-has x (roll nodes direct protected left) (kids nodes direct protected n.id)
          (own nodes direct protected n.id) out (roll-Keeps x left) h)

  roll_covers :
      (x id j left : ℕ) (n : Node) (out : List StatEntry)
      → n.id ≡ id
      → Descent nodes x id j
      → j ≤ left
      → has x (roll nodes direct protected left n out).1 ≡ true
  unfolding roll get
  roll_covers x id j zero n out e stop le =
      subst (λ (y : ℕ). has y (roll nodes direct protected 0 n out).1 ≡ true) e
        (has_first (record { id = n.id; stat = own nodes direct protected n.id }) out)
  roll_covers x id j zero n out e (down _ c i m f q w) le = absurd (omega (arith, le))
  roll_covers x id j (suc left) n out e stop le =
      let r =
        roll_children (roll nodes direct protected left) (kids nodes direct protected n.id)
          (own nodes direct protected n.id) out in
      subst (λ (y : ℕ). has y (roll nodes direct protected (suc left) n out).1 ≡ true) e
        (has_first (record { id = n.id; stat = r.0 }) r.1)
  roll_covers x id j (suc left) n out e (down _ c i m f q w) le =
      let r =
        roll_children (roll nodes direct protected left) (kids nodes direct protected n.id)
          (own nodes direct protected n.id) out in
      has_later x (record { id = n.id; stat = r.0 }) r.1
        (child_covers x c (roll nodes direct protected left) m (kids nodes direct protected n.id)
          (own nodes direct protected n.id) out (roll-Keeps x left)
          (lookup-kids n.id c nodes m f (q ∙ ap some (sym e)))
          (λ o. roll_covers x c i left m o (lookup-key node_id c nodes m f) w (omega (arith, le))))

  roots_keep :
      (x : ℕ) (ns : List Node) (out : List StatEntry)
      → has x out ≡ true
      → has x (roll_roots nodes direct protected ns out) ≡ true
  unfolding roll_roots
  roots_keep x [] out h = h
  roots_keep x (n ∷ ns) out h = elim (Option-cases n.parent_id) [
    | inl free ↦
        rw free (roots_keep x ns (roll nodes direct protected 64 n out).1 (roll-Keeps x 64 n out h))
    | inr (p, e) ↦ rw e (roots_keep x ns out h)
  ]

  -- Below a root among the rows, every node within 64 steps gets an entry.
  pub roots_cover :
      (x t k : ℕ) (n : Node) (ns : List Node) (out : List StatEntry)
      → lookup node_id t ns ≡ some n
      → n.parent_id ≡ none
      → Descent nodes x t k
      → k ≤ 64
      → has x (roll_roots nodes direct protected ns out) ≡ true
  unfolding roll_roots lookup
  roots_cover x t k n [] out e free w le = cc
  roots_cover x t k n (m ∷ ns) out e free w le = elim (Bool-cases (node_id m == t)) [
    | inl here ↦
        let same = first_row t m n ns here e in
        rw (ap (λ (r : Node). r.parent_id) same ∙ free) (
          roots_keep x ns (roll nodes direct protected 64 m out).1
            (roll_covers x t k 64 m out ((==_iff m.id t).0 here) w le))
    | inr there ↦
        let rest =
          λ (o : List StatEntry). roots_cover x t k n ns o (ground (arith, e, there)) free w le in
        elim (Option-cases m.parent_id) [
          | inl root ↦ rw root (rest (roll nodes direct protected 64 m out).1)
          | inr (p, q) ↦ rw q (rest out)
        ]
  ]

  -- The entry that `fill` makes for a node without one.
  abbrev fallback : Node → StatEntry
  fallback n = record { id = n.id; stat = own nodes direct protected n.id }

  fill_either :
      (x : ℕ) (n : Node) (ns : List Node) (out : List StatEntry) (b : Bool)
      → ((o : List StatEntry)
          → has x o ≡ true
          → lookup entry_id x (fill nodes direct protected ns o) ≡ lookup entry_id x o)
      → has x out ≡ true
      → has n.id out ≡ b
      → lookup entry_id x (elim b [
        | true ↦ fill nodes direct protected ns out
        | false ↦ fill nodes direct protected ns (fallback n ∷ out)
      ])
        ≡ lookup entry_id x out
  fill_either x n ns out true rest h there = rest out h
  fill_either x n ns out false rest h absent =
      rest (fallback n ∷ out) (has_later x (fallback n) out h)
      ∙ lookup_past x (fallback n) out h absent

  -- What has an entry keeps it.
  pub fill_keeps :
      (x : ℕ) (ns : List Node) (out : List StatEntry)
      → has x out ≡ true
      → lookup entry_id x (fill nodes direct protected ns out) ≡ lookup entry_id x out
  unfolding fill
  fill_keeps x [] out h = refl
  fill_keeps x (n ∷ ns) out h = fill_either x n ns out (has n.id out) (fill_keeps x ns) h refl
