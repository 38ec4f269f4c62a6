-- ===== src/Adjudicate/Stale.antt =====
-- The queue reads the catalog once: what a second verdict of one run overlooks.
use polis_memory.Adjudicate.Verdicts.{
  Reason, refuse, unknown_node, own_parent, own_subtree, too_deep, unknown_parent, ClassProposalRow,
  apply, unread,
}
use polis_memory.Prelude.{
  ℕ, ◌+◌, ◌≤◌, ◌≡◌, ◌≢◌, refl, sym, ap, ◌∙◌, subst, Bool, true, false, none, some, List, [], ◌∷◌,
  ◌==◌, ==_iff, if◌then◌else◌, arith, Bool-cases, inl, inr, ◌⊎◌, ltb, is_some, map_some, any,
}
use polis_memory.Prelude.Int.{ℤ}
use polis_memory.Prelude.Text.{codes, text_eq}
use polis_memory.Catalog.{Catalog, Node}
use polis_memory.Catalog.Reorg.{apply_promote, set_parent}
use polis_memory.Adjudicate.{
  climbs_to, depth_from, depth_of, get, is_descendant, load, parent_of, subtree_height,
}
use polis_memory.Adjudicate.Rules.{Facts, adjudicate_promote, adjudicate_structural, expired}
use polis_memory.Adjudicate.Queue.{
  Queue, Standing, apply_one, process_due, process_one, process_queue, subject_nodes,
}
use polis_memory.Adjudicate.Walks.{Rooted, child, root}
use polis_memory.Adjudicate.Promote.{KeepsRows, promoted-IsUpdate, promoted_row}

next_up :
    (nodes : List Node) (a b x p : ℕ) (n : Node)
    → parent_of (get nodes a) ≡ some b
    → x ≡ a
    → get nodes x ≡ some n
    → n.parent_id ≡ some p
    → p ≡ b
next_up nodes a b x p n pa at e q =
    unique (sym q ∙ ap parent_of (sym e) ∙ ap (λ (y : ℕ). parent_of (get nodes y)) at ∙ pa)
  where
    unique : some p ≡ some b → p ≡ b
    unique h = cc

-- Two nodes that are each other's parent hang from no root.
no_root :
    (nodes : List Node) (a b : ℕ)
    → parent_of (get nodes a) ≡ some b
    → parent_of (get nodes b) ≡ some a
    → (x k : ℕ) → (x ≡ a) ⊎ (x ≡ b)
    → ¬ Rooted nodes x k
no_root nodes a b pa pb x k (inl at) (root _ n e p) =
    absurd
      (none_some (sym p ∙ ap parent_of (sym e) ∙ ap (λ (y : ℕ). parent_of (get nodes y)) at ∙ pa))
  where
    none_some : ¬ (none ≡ some b)
    none_some h = cc
no_root nodes a b pa pb x k (inr at) (root _ n e p) =
    absurd
      (none_some (sym p ∙ ap parent_of (sym e) ∙ ap (λ (y : ℕ). parent_of (get nodes y)) at ∙ pb))
  where
    none_some : ¬ (none ≡ some a)
    none_some h = cc
no_root nodes a b pa pb x k (inl at) (child _ p j n e q r) =
    no_root nodes a b pa pb p j (inr (next_up nodes a b x p n pa at e q)) r
no_root nodes a b pa pb x k (inr at) (child _ p j n e q r) =
    no_root nodes a b pa pb p j (inl (next_up nodes b a x p n pb at e q)) r

abbrev pub promote_row : ℕ → ℕ → ClassProposalRow
promote_row node parent = record {
  op = codes "promote";
  node_id = some node;
  parent_id = some parent;
  extra = unread;
  attempts = 0;
  expires_lake_ts = none;
}

abbrev pub IsRoot : List Node → ℕ → Type 0
IsRoot nodes id = (n : Node) × (get nodes id ≡ some n) × (n.parent_id ≡ none)

five_pass :
    (a b c d e : Bool) (r r_1 r_2 r_3 r_4 : Reason)
    → a ≡ true
    → b ≡ false
    → c ≡ true
    → d ≡ false
    → e ≡ false
    → (if a
        then if b
          then refuse r_1
          else (if c
              then (if d then refuse r_2 else (if e then refuse r_3 else apply))
              else refuse r_4)
        else refuse r)
      ≡ apply
five_pass a b c d e r r_1 r_2 r_3 r_4 ha hb hc hd he = rw (ha, hb, hc, hd, he) refl

root_is_no_descendant :
    (nodes : List Node) (b a : ℕ)
    → parent_of (get nodes b) ≡ none
    → (is_descendant nodes b a ≡ false) × (depth_of nodes b ≡ 0)
unfolding is_descendant climbs_to depth_of depth_from
root_is_no_descendant nodes b a e = (rw e refl, rw e refl)

-- A root is let below another one.
roots_admitted :
    (f : Facts) (a b : ℕ)
    → (b == a) ≡ false
    → IsRoot f.nodes a
    → IsRoot f.nodes b
    → subtree_height f.nodes a ≤ 3
    → adjudicate_promote f a (some b) ≡ apply
unfolding adjudicate_promote
roots_admitted f a b other (n, e, p) (m, d, q) low =
    let (beside, depth) = root_is_no_descendant f.nodes b a (ap parent_of d ∙ q) in
    let new_depth = depth_of f.nodes b + 1 + subtree_height f.nodes a in
    five_pass (is_some (get f.nodes a)) (b == a) (is_some (get f.nodes b))
      (is_descendant f.nodes b a) (ltb 4 new_depth) (unknown_node a) own_parent own_subtree
      (too_deep new_depth) (unknown_parent b) (ap is_some e) other (ap is_some d) beside
      (shallow (depth_of f.nodes b) (subtree_height f.nodes a) depth low)
  where
    shallow : (x h : ℕ) → x ≡ 0 → h ≤ 3 → ltb 4 (x + 1 + h) ≡ false
    shallow x h e le = ground (arith, e, le)

structural_promote :
    (f : Facts) (a b : ℕ)
    → adjudicate_promote f a (some b) ≡ apply
    → adjudicate_structural f (promote_row a b) ≡ apply
unfolding adjudicate_structural text_eq
structural_promote f a b h = h

-- Nothing stands in the way of applying the row.
abbrev pub MayApply : Standing → ClassProposalRow → Type 0
MayApply standing prop =
    (standing.is_proposed prop ≡ true)
    × (standing.run_forgotten ≡ false)
    × (standing.source_forgotten prop ≡ false)
    × (standing.fails prop ≡ false)

module _ (others : ClassProposalRow → Catalog → Catalog) (standing : Standing)
    (quarantined : ℕ → Bool) (newest : ℤ) where
  -- One admitted promote of the queue.
  process_promote :
      (f : Facts) (a b : ℕ) (q : Queue)
      → quarantined a ≡ false
      → MayApply standing (promote_row a b)
      → adjudicate_structural f (promote_row a b) ≡ apply
      → process_one others standing quarantined newest f (promote_row a b) q
        ≡ record q { catalog = (apply_promote a (some b) q.catalog).catalog }
  unfolding process_one expired subject_nodes any text_eq apply_one
  process_promote f a b q free may h = rw (free, h, may.0, may.1, may.2, may.3) refl

-- What two promotes make of the snapshot: each of two nodes below the other.
crossed_parents :
    (order : List Node → List Node)
    → KeepsRows order
    → (cat : Catalog) (a b : ℕ) (n m : Node) → a ≢ b
    → get (load order cat) a ≡ some n
    → get (load order cat) b ≡ some m
    → let cat_2 = (apply_promote b (some a) (apply_promote a (some b) cat).catalog).catalog in
      (parent_of (get (load order cat_2) a) ≡ some b)
      × (parent_of (get (load order cat_2) b) ≡ some a)
crossed_parents order keeps cat a b n m ne e d =
    let cat_1 = (apply_promote a (some b) cat).catalog in
    (
      ap parent_of (
          promoted-IsUpdate order keeps b (some a) cat_1 a ne
          ∙ promoted_row order keeps a (some b) cat
          ∙ ap (map_some (set_parent (some b))) e),
      ap parent_of (
          promoted_row order keeps b (some a) cat_1
          ∙ ap (map_some (set_parent (some a)))
              (promoted-IsUpdate order keeps a (some b) cat b (λ x. ne (sym x)) ∙ d)),
    )

two_promotes :
    (order : List Node → List Node) (others : ClassProposalRow → Catalog → Catalog)
    (standing : Standing) (quarantined : ℕ → Bool) (newest : ℤ) (f : Facts) (cat : Catalog)
    (a b : ℕ)
    → quarantined a ≡ false
    → quarantined b ≡ false
    → MayApply standing (promote_row a b)
    → MayApply standing (promote_row b a)
    → adjudicate_promote (record f { nodes = load order cat }) a (some b) ≡ apply
    → adjudicate_promote (record f { nodes = load order cat }) b (some a) ≡ apply
    → (process_queue others standing quarantined newest order f
        (promote_row a b ∷ promote_row b a ∷ [])
        cat).catalog
      ≡ (apply_promote b (some a) (apply_promote a (some b) cat).catalog).catalog
unfolding process_queue process_due
two_promotes order others standing quarantined newest f cat a b qa qb ma mb ha hb =
    let g : Facts = record f { nodes = load order cat } in
    let q : Queue = record { catalog = cat; to_verify = [] } in
    let q_1 : Queue = record q { catalog = (apply_promote a (some b) cat).catalog } in
    ap
      (λ (r : Queue).
        (process_one others standing quarantined newest g (promote_row b a) r).catalog)
      (process_promote others standing quarantined newest g a b q qa ma
        (structural_promote g a b ha))
    ∙ ap (λ (r : Queue). r.catalog)
        (process_promote others standing quarantined newest g b a q_1 qb mb
          (structural_promote g b a hb))

unequal : (a b : ℕ) → a ≢ b → (b == a) ≡ false
unequal a b ne = elim (Bool-cases (b == a)) [
  | inl e ↦ absurd (ne (sym ((==_iff b a).0 e)))
  | inr e ↦ e
]

abbrev pub IsHung : List Node → ℕ → Type 0
IsHung nodes id = (k : ℕ) × Rooted nodes id k

-- The queue reads the catalog once, so of two promotes of one run that put each of two roots below
-- the other, both are admitted against it and both are applied: the catalog is then that of the two
-- updates, and neither node hangs from a root. The branches are at most three levels high below
-- their roots and not quarantined, and nothing stands in the way of applying a row: both are still
-- proposed, no source was forgotten, and no statement fails.
pub process_queue_cycle :
    (order : List Node → List Node)
    → KeepsRows order
    → (others : ClassProposalRow → Catalog → Catalog) (standing : Standing) (quarantined : ℕ → Bool)
      (newest : ℤ)
    → (f : Facts) (cat : Catalog) (a b : ℕ) → a ≢ b
    → IsRoot (load order cat) a
    → IsRoot (load order cat) b
    → subtree_height (load order cat) a ≤ 3
    → subtree_height (load order cat) b ≤ 3
    → quarantined a ≡ false
    → quarantined b ≡ false
    → MayApply standing (promote_row a b)
    → MayApply standing (promote_row b a)
    → let g : Facts = record f { nodes = load order cat } in
      let after =
        (process_queue others standing quarantined newest order f
          (promote_row a b ∷ promote_row b a ∷ [])
          cat).catalog in
      (adjudicate_structural g (promote_row a b) ≡ apply)
      × (adjudicate_structural g (promote_row b a) ≡ apply)
      × (after ≡ (apply_promote b (some a) (apply_promote a (some b) cat).catalog).catalog)
      × ¬ IsHung (load order after) a
      × ¬ IsHung (load order after) b
process_queue_cycle order keeps others standing quarantined newest f cat a b ne ra rb la lb qa qb ma
      mb =
    let g : Facts = record f { nodes = load order cat } in
    let ha = roots_admitted g a b (unequal a b ne) ra rb la in
    let hb = roots_admitted g b a (unequal b a (λ x. ne (sym x))) rb ra lb in
    let cat_2 = (apply_promote b (some a) (apply_promote a (some b) cat).catalog).catalog in
    let (pa, pb) = crossed_parents order keeps cat a b ra.0 rb.0 ne ra.1 rb.1 in
    let e = two_promotes order others standing quarantined newest f cat a b qa qb ma mb ha hb in
    (
      structural_promote g a b ha,
      structural_promote g b a hb,
      e,
      λ hung.
          let (k, up) = subst (λ (c : Catalog). IsHung (load order c) a) e hung in
          no_root (load order cat_2) a b pa pb a k (inl refl) up,
      λ hung.
          let (k, up) = subst (λ (c : Catalog). IsHung (load order c) b) e hung in
          no_root (load order cat_2) a b pa pb b k (inr refl) up,
    )
