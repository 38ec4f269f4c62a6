-- ===== src/Adjudicate/Promote.antt =====
-- A promote that the adjudicator admits keeps the catalog a forest.
use polis_memory.Adjudicate.Verdicts.{
  Reason, refuse, unknown_node, own_parent, own_subtree, too_deep, unknown_parent, apply,
}
use polis_memory.Prelude.{
  ℕ, suc, ◌+◌, ◌≤◌, ◌≡◌, ◌≢◌, refl, sym, ap, ◌∙◌, subst, Bool, true, false, Option, none, some,
  List, [], ◌∷◌, ◌==◌, ==_iff, if◌then◌else◌, arith, Bool-cases, inl, inr, ltb, keep, is_some,
  map_some,
}
use polis_memory.Prelude.Tables.{lookup, lookup-update_other, lookup-update_same, update}
use polis_memory.Catalog.{Catalog, Node}
use polis_memory.Catalog.Reorg.{apply_promote, everything, node_id, set_parent}
use polis_memory.Adjudicate.{
  climbs_to, depth_of, get, is_descendant, live, load, parent_of, subtree_height,
}
use polis_memory.Adjudicate.Rules.{Facts, adjudicate_promote}
use polis_memory.Adjudicate.Walks.{
  Rooted, Under, child, depth_from-Rooted, height_Under, itself, root,
}
use polis_memory.Adjudicate.Forest.{
  apart, IsForest, IsUpdate, Rooted-Under, Rooted-beside, Rooted-or_Under,
}

keep-update :
    (node : ℕ) (parent : Option ℕ) (nodes : List Node)
    → keep live (update node_id node everything (set_parent parent) nodes)
      ≡ update node_id node everything (set_parent parent) (keep live nodes)
unfolding keep update
keep-update node parent [] = refl
keep-update node parent (n ∷ nodes) = elim (Bool-cases (live n)) [
  | inl there ↦ ground (arith, there, keep-update node parent nodes)
  | inr gone ↦ ground (arith, gone, keep-update node parent nodes)
]

-- SQLite's order changes no search by id.
abbrev pub KeepsRows : (List Node → List Node) → Type 0
KeepsRows order = (nodes : List Node) (id : ℕ) → get (order nodes) id ≡ get nodes id

-- The snapshot after a promote is the one before with one parent replaced.
get-promoted :
    (order : List Node → List Node)
    → KeepsRows order
    → (node : ℕ) (parent : Option ℕ) (cat : Catalog) (id : ℕ)
    → get (load order (apply_promote node parent cat).catalog) id
      ≡ lookup node_id id (update node_id node everything (set_parent parent) (keep live cat.nodes))
unfolding load apply_promote get
get-promoted order keeps node parent cat id =
    keeps (keep live (apply_promote node parent cat).catalog.nodes) id
    ∙ ap (lookup node_id id) (keep-update node parent cat.nodes)

pub promoted-IsUpdate :
    (order : List Node → List Node)
    → KeepsRows order
    → (node : ℕ) (parent : Option ℕ) (cat : Catalog)
    → IsUpdate node (load order cat) (load order (apply_promote node parent cat).catalog)
unfolding load get
promoted-IsUpdate order keeps node parent cat id ne =
    get-promoted order keeps node parent cat id
    ∙ lookup-update_other node_id id node everything (set_parent parent) ne (λ n. refl)
        (keep live cat.nodes)
    ∙ sym (keeps (keep live cat.nodes) id)

pub promoted_row :
    (order : List Node → List Node)
    → KeepsRows order
    → (node : ℕ) (parent : Option ℕ) (cat : Catalog)
    → get (load order (apply_promote node parent cat).catalog) node
      ≡ map_some (set_parent parent) (get (load order cat) node)
unfolding load get
promoted_row order keeps node parent cat =
    get-promoted order keeps node parent cat node
    ∙ lookup-update_same node_id node everything (set_parent parent) (λ n. refl)
        (keep live cat.nodes)
    ∙ ap (map_some (set_parent parent)) (sym (keeps (keep live cat.nodes) node))

-- What an admitted promote below another node has checked.
record Admitted (nodes : List Node) (node p : ℕ) : Type 0 where
  other : p ≢ node
  parent_row : Node
  there : get nodes p ≡ some parent_row
  beside : is_descendant nodes p node ≡ false
  shallow : depth_of nodes p + 1 + subtree_height nodes node ≤ 4

some_of : {A : Type 0} (o : Option A) → is_some o ≡ true → (a : A) × (o ≡ some a)
some_of none e = absurd (ground (arith, e))
some_of (some a) e = (a, refl)

-- Behind five tests in a row, only one way leads to `apply`.
five_tests :
    (a b c d e : Bool) (r r_1 r_2 r_3 r_4 : Reason)
    → (if a
        then if b
          then refuse r_1
          else (if c
              then (if d then refuse r_2 else (if e then refuse r_3 else apply))
              else refuse r_4)
        else refuse r)
      ≡ apply
    → (b ≡ false) × (c ≡ true) × (d ≡ false) × (e ≡ false)
five_tests true false true false false r r_1 r_2 r_3 r_4 h = (refl, refl, refl, refl)
five_tests true false true false true r r_1 r_2 r_3 r_4 h = absurd (ground (arith, h))
five_tests true false true true e r r_1 r_2 r_3 r_4 h = absurd (ground (arith, h))
five_tests true false false d e r r_1 r_2 r_3 r_4 h = absurd (ground (arith, h))
five_tests true true c d e r r_1 r_2 r_3 r_4 h = absurd (ground (arith, h))
five_tests false b c d e r r_1 r_2 r_3 r_4 h = absurd (ground (arith, h))

checks :
    (f : Facts) (node p : ℕ)
    → adjudicate_promote f node (some p) ≡ apply
    → ((p == node) ≡ false)
      × (is_some (get f.nodes p) ≡ true)
      × (is_descendant f.nodes p node ≡ false)
      × (ltb 4 (depth_of f.nodes p + 1 + subtree_height f.nodes node) ≡ false)
unfolding adjudicate_promote
checks f node p h =
    let new_depth = depth_of f.nodes p + 1 + subtree_height f.nodes node in
    five_tests (is_some (get f.nodes node)) (p == node) (is_some (get f.nodes p))
      (is_descendant f.nodes p node) (ltb 4 new_depth) (unknown_node node) own_parent own_subtree
      (too_deep new_depth) (unknown_parent p) h

admitted :
    (f : Facts) (node p : ℕ) → adjudicate_promote f node (some p) ≡ apply → Admitted f.nodes node p
admitted f node p h =
    let (other, there, beside, shallow) = checks f node p h in
    let (n, e) = some_of (get f.nodes p) there in
    record {
      other = apart p node other;
      parent_row = n;
      there = e;
      beside = beside;
      shallow = ground (arith, shallow);
    }

there :
    (f : Facts) (node : ℕ) (parent : Option ℕ)
    → adjudicate_promote f node parent ≡ apply
    → (n : Node) × (get f.nodes node ≡ some n)
unfolding adjudicate_promote
there f node parent h = some_of (get f.nodes node) (ground (arith, h))

is_descendant_climbs :
    (nodes : List Node) (id ancestor : ℕ)
    → is_descendant nodes id ancestor ≡ false
    → climbs_to 64 nodes ancestor (parent_of (get nodes id)) ≡ false
unfolding is_descendant
is_descendant_climbs nodes id ancestor h = h

depth_of-Rooted :
    (nodes : List Node) (id k : ℕ) → k ≤ 64 → Rooted nodes id k → depth_of nodes id ≡ k
unfolding depth_of
depth_of-Rooted nodes id k le r = depth_from-Rooted nodes 64 id k le r

-- Where a promoted node stands afterwards, and that all below it stay within the bound.
abbrev Lands : ℕ → List Node → List Node → ℕ → Type 0
Lands bound nodes nodes' node =
    (m : ℕ) × Rooted nodes' node m
    × ((j : ℕ) → j ≤ bound → (id : ℕ) → Under nodes node id j → j + m ≤ bound)

landing :
    (order : List Node → List Node)
    → KeepsRows order
    → (bound : ℕ) → 4 ≤ bound
    → bound ≤ 64
    → (f : Facts) (cat : Catalog) → f.nodes ≡ load order cat
    → (node : ℕ) (parent : Option ℕ) → adjudicate_promote f node parent ≡ apply
    → IsForest bound (load order cat)
    → Lands bound (load order cat) (load order (apply_promote node parent cat).catalog) node
landing order keeps bound low high f cat snapshot node none h forest =
    let (n, e) = there f node none h in
    let row =
      promoted_row order keeps node none cat
      ∙ ap (map_some (set_parent none)) (ap (λ (ns : List Node). get ns node) (sym snapshot) ∙ e) in
    (0, root node (set_parent none n) row refl, λ j le id u. omega (arith, le))
landing order keeps bound low high f cat snapshot node (some p) h forest =
    let nodes = load order cat in
    let nodes' = load order (apply_promote node (some p) cat).catalog in
    let same = promoted-IsUpdate order keeps node (some p) cat in
    let (n, e) = there f node (some p) h in
    let a = subst (λ (ns : List Node). Admitted ns node p) snapshot (admitted f node p h) in
    let row =
      promoted_row order keeps node (some p) cat
      ∙ ap (map_some (set_parent (some p)))
          (ap (λ (ns : List Node). get ns node) (sym snapshot) ∙ e) in
    let (k, le, r) = forest p a.parent_row a.there in
    let beside = is_descendant_climbs nodes p node a.beside in
    (
      suc k,
      child node p k (set_parent (some p) n) row refl
          (Rooted-beside node nodes nodes' same 64 p k (omega (arith, le, high)) a.other beside r),
      λ j below id u. omega (
        arith,
        low,
        height_Under nodes node id j (omega (arith, below, high)) u,
        a.shallow,
        depth_of-Rooted nodes p k (omega (arith, le, high)) r,
      ),
    )

-- A promote that is admitted in a catalog where every live node hangs from a root, at most `bound`
-- steps below it, leaves such a catalog: it closes no cycle, and takes no node deeper than the limit
-- of 4 or the bound, where that is between 4 and 64. SQLite's order changes no search by id.
pub apply_promote-IsForest :
    (order : List Node → List Node)
    → KeepsRows order
    → (bound : ℕ) → 4 ≤ bound
    → bound ≤ 64
    → (f : Facts) (cat : Catalog) → f.nodes ≡ load order cat
    → (node : ℕ) (parent : Option ℕ) → adjudicate_promote f node parent ≡ apply
    → IsForest bound (load order cat)
    → IsForest bound (load order (apply_promote node parent cat).catalog)
apply_promote-IsForest order keeps bound low high f cat snapshot node parent h forest id n e =
    let nodes = load order cat in
    let nodes' = load order (apply_promote node parent cat).catalog in
    let same = promoted-IsUpdate order keeps node parent cat in
    let (m, lands, deep) = landing order keeps bound low high f cat snapshot node parent h forest in
    elim (Bool-cases (id == node)) [
      | inl at ↦
          (m, omega (arith, deep 0 (omega arith) node itself), rw ((==_iff id node).0 at) lands)
      | inr away ↦
          let (k, le, r) = forest id n (sym (same id (apart id node away)) ∙ e) in
          elim (Rooted-or_Under node nodes nodes' same id k r) [
            | inl kept ↦ (k, le, kept)
            | inr (j, below, u) ↦ (
              j + m,
              deep j (omega (arith, le, below)) id u,
              Rooted-Under node nodes nodes' same id m j lands u,
            )
          ]
    ]
