-- ===== src/Adjudicate/Protects.antt =====
-- The roll-up of crates/polis-core/src/coldness.rs carries protection up a branch.
use polis_memory.Prelude.{
  ℕ, zero, suc, ◌+◌, ◌≤◌, ◌≡◌, refl, sym, ap, ◌∙◌, subst, Bool, true, false, ◌||◌, Option, none,
  some, List, [], ◌∷◌, ◌==◌, ==_iff, arith, Bool-cases, inl, inr, keep, All, Option-cases,
}
use polis_memory.Prelude.Int.{ℤ}
use polis_memory.Prelude.Tables.{lookup, lookup-key}
use polis_memory.Catalog.{Node, under}
use polis_memory.Catalog.Reorg.{node_id}
use polis_memory.Coldness.{BranchStat}
use polis_memory.Coldness.Rollup.{
  StatEntry, absorb_child, kids, own, own_of, roll, roll_children, roll_roots,
}
use polis_memory.Adjudicate.{get}
use polis_memory.Adjudicate.Walks.{Rooted, child, root}
use polis_memory.Adjudicate.Descents.{Descent, down, stop}

abbrev pub RollStep : Type 0
RollStep = Node → List StatEntry → BranchStat × List StatEntry

-- The stat of a row is protected, whatever was filled in before.
abbrev Pins : RollStep → Node → Type 0
Pins step n = (out : List StatEntry) → (step n out).0.pinned ≡ true

children_keep-pinned :
    (step : RollStep) (cs : List Node) (s : BranchStat) (out : List StatEntry)
    → s.pinned ≡ true
    → (roll_children step cs s out).0.pinned ≡ true
unfolding roll_children
children_keep-pinned step [] s out h = h
children_keep-pinned step (c ∷ cs) s out h =
    children_keep-pinned step cs (absorb_child s (step c out).0) (step c out).1 (ground (arith, h))

pub first_row :
    (c : ℕ) (m n : Node) (ns : List Node)
    → (node_id m == c) ≡ true
    → lookup node_id c (m ∷ ns) ≡ some n
    → m ≡ n
unfolding lookup
first_row c m n ns here e = ground (arith, e, here)

or_right : (a b : Bool) → b ≡ true → (a || b) ≡ true
or_right a b h = ground (arith, h)

child-Pins :
    (step : RollStep) (c : ℕ) (n : Node) (cs : List Node) (s : BranchStat) (out : List StatEntry)
    → lookup node_id c cs ≡ some n
    → Pins step n
    → (roll_children step cs s out).0.pinned ≡ true
unfolding roll_children lookup
child-Pins step c n [] s out e pins = cc
child-Pins step c n (m ∷ cs) s out e pins = elim (Bool-cases (node_id m == c)) [
  | inl here ↦ children_keep-pinned step cs (absorb_child s (step m out).0) (step m out).1 (
      or_right s.pinned (step m out).0.pinned (
        subst (λ (r : Node). (step r out).0.pinned ≡ true) (sym (first_row c m n cs here e))
          (pins out)))
  | inr there ↦
      child-Pins step c n cs (absorb_child s (step m out).0) (step m out).1
        (ground (arith, e, there)) pins
]

under_parent : (id : ℕ) (m : Node) → m.parent_id ≡ some id → under id m.parent_id ≡ true
under_parent id m q = subst (λ (o : Option ℕ). under id o ≡ true) (sym q) ((==_iff id id).1 refl)

pub lookup-kids :
    (id c : ℕ) (rows : List Node) (n : Node)
    → lookup node_id c rows ≡ some n
    → n.parent_id ≡ some id
    → lookup node_id c (keep (λ (m : Node). under id m.parent_id) rows) ≡ some n
unfolding lookup keep
lookup-kids id c [] n e q = cc
lookup-kids id c (m ∷ rows) n e q = elim (Bool-cases (node_id m == c)) [
  | inl here ↦
      let same = first_row c m n rows here e in
      let kept : under id m.parent_id ≡ true =
        under_parent id m (ap (λ (r : Node). r.parent_id) same ∙ q) in
      ground (arith, here, kept, same)
  | inr there ↦
      let rest = lookup-kids id c rows n (ground (arith, e, there)) q in
      elim (Bool-cases (under id m.parent_id)) [
        | inl kept ↦ ground (arith, kept, there, rest)
        | inr dropped ↦ ground (arith, dropped, rest)
      ]
]

All_if :
    (P : Node → Type 0) (b : Bool) (c : Node) (cs : List Node)
    → (b ≡ true → P c)
    → All P cs
    → All P (elim b [ true ↦ c ∷ cs | false ↦ cs ])
All_if P true c cs p all = (p refl, all)
All_if P false c cs p all = all

parent_under : (id : ℕ) (o : Option ℕ) → under id o ≡ true → o ≡ some id
parent_under id none h = cc
parent_under id (some p) h = ap some ((==_iff p id).0 h)

-- Every row is found by its id.
abbrev pub IsTable : List Node → List Node → Type 0
IsTable nodes rows = All (λ (n : Node). get nodes n.id ≡ some n) rows

-- What holds of every row with the parent `id` holds of the kids.
All-kids :
    (nodes : List Node) (P : Node → Type 0) (id : ℕ) (rows : List Node)
    → IsTable nodes rows
    → ((c : Node) → get nodes c.id ≡ some c → c.parent_id ≡ some id → P c)
    → All P (keep (λ (m : Node). under id m.parent_id) rows)
unfolding keep
All-kids nodes P id [] table p = tt
All-kids nodes P id (m ∷ rows) (first, later) p =
    All_if P (under id m.parent_id) m (keep (λ (r : Node). under id r.parent_id) rows)
      (λ u. p m first (parent_under id m.parent_id u)) (All-kids nodes P id rows later p)

module _ (nodes : List Node) (direct : ℕ → Option (ℕ × Option ℤ)) (protected : ℕ → Bool) where
  abbrev rolled : ℕ → RollStep
  rolled left = roll nodes direct protected left

  own_protected : (id : ℕ) → (own nodes direct protected id).pinned ≡ protected id
  own_protected id = of_protected (protected id) (direct id)
    where
      of_protected : (b : Bool) (o : Option (ℕ × Option ℤ)) → (own_of b o).pinned ≡ b
      of_protected b none = refl
      of_protected b (some a) = refl

  -- A roll-up that looks far enough down sees a protected node.
  roll-Pins :
      (d id j left : ℕ) (n : Node)
      → n.id ≡ id
      → protected d ≡ true
      → Descent nodes d id j
      → j ≤ left
      → Pins (rolled left) n
  unfolding roll get
  roll-Pins d id j zero n e h stop le out = own_protected n.id ∙ ap protected e ∙ h
  roll-Pins d id j zero n e h (down _ c i m f q w) le out = absurd (omega (arith, le))
  roll-Pins d id j (suc left) n e h stop le out =
      children_keep-pinned (rolled left) (kids nodes direct protected n.id)
        (own nodes direct protected n.id) out (own_protected n.id ∙ ap protected e ∙ h)
  roll-Pins d id j (suc left) n e h (down _ c i m f q w) le out =
      child-Pins (rolled left) c m (kids nodes direct protected n.id)
        (own nodes direct protected n.id) out (lookup-kids n.id c nodes m f (q ∙ ap some (sym e)))
        (roll-Pins d c i left m (lookup-key node_id c nodes m f) h w (omega (arith, le)))

  -- An entry of a node at depth `k` is protected where a node below it is, down to depth 64.
  abbrev pub IsSound : StatEntry → Type 0
  IsSound e =
      (k : ℕ) × Rooted nodes e.id k
      × ((d j : ℕ)
          → Descent nodes d e.id j
          → protected d ≡ true
          → j + k ≤ 64
          → e.stat.pinned ≡ true)

  -- A step that leaves entries sound at the rows of a list.
  abbrev KeepsSound : RollStep → List Node → Type 0
  KeepsSound step cs =
      All (λ (c : Node). (out : List StatEntry) → All IsSound out → All IsSound (step c out).1) cs

  children-IsSound :
      (step : RollStep) (cs : List Node) (s : BranchStat) (out : List StatEntry)
      → KeepsSound step cs
      → All IsSound out
      → All IsSound (roll_children step cs s out).1
  unfolding roll_children
  children-IsSound step [] s out keeps sound = sound
  children-IsSound step (c ∷ cs) s out (first, later) sound =
      children-IsSound step cs (absorb_child s (step c out).0) (step c out).1 later
        (first out sound)

  module _ (table : IsTable nodes nodes) where
    roll-IsSound :
        (left k : ℕ) (n : Node) (out : List StatEntry)
        → left + k ≡ 64
        → get nodes n.id ≡ some n
        → Rooted nodes n.id k
        → All IsSound out
        → All IsSound (rolled left n out).1
    unfolding roll
    roll-IsSound zero k n out e there r sound =
        ((k, r, λ d j w h le. roll-Pins d n.id j zero n refl h w (omega (arith, le, e)) out), sound)
    roll-IsSound (suc left) k n out e there r sound = (
      (k, r, λ d j w h le. roll-Pins d n.id j (suc left) n refl h w (omega (arith, le, e)) out),
      children-IsSound (rolled left) (kids nodes direct protected n.id)
          (own nodes direct protected n.id) out
          (All-kids nodes
            (λ (c : Node). (o : List StatEntry) → All IsSound o → All IsSound (rolled left c o).1)
            n.id nodes table
            (λ c at q o s.
              roll-IsSound left (suc k) c o (omega (arith, e)) at (child c.id n.id k c at q r) s))
          sound,
    )

    pub roots-IsSound :
        (ns : List Node) (out : List StatEntry)
        → IsTable nodes ns
        → All IsSound out
        → All IsSound (roll_roots nodes direct protected ns out)
    unfolding roll_roots
    roots-IsSound [] out t sound = sound
    roots-IsSound (n ∷ ns) out (first, later) sound = elim (Option-cases n.parent_id) [
      | inl free ↦ rw free (
          roots-IsSound ns (rolled 64 n out).1 later
            (roll-IsSound 64 0 n out (omega arith) first (root n.id n first free) sound))
      | inr (p, e) ↦ rw e (roots-IsSound ns out later sound)
    ]
