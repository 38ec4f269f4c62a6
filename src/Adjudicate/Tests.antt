-- ===== src/Adjudicate/Tests.antt =====
-- Two roots, and a branch of two nodes below the first.
use polis_memory.Adjudicate.Titles.{adjudicate_create, is_duplicate_title, twins}
use polis_memory.Adjudicate.Verdicts.{
  ClassProposalRow, apply, own_subtree, not_cold, redirect, refuse,
}
use polis_memory.Prelude.{
  ℕ, Option, ◌≤◌, ◌≡◌, refl, Bool, true, false, none, some, List, [], ◌∷◌, arith, keep, inl, inr,
  Bool-cases, ◌==◌, ==_iff, any, leb, ◌&&◌, sym, All,
}
use polis_memory.Prelude.Int.{ℤ, pos, ◌-ℤ◌}
use polis_memory.Prelude.Text.{codes, text_eq}
use polis_memory.Prelude.Tables.{keys_where, lookup}
use polis_memory.Query.{Chars}
use polis_memory.Query.Words.{split}
use polis_memory.Catalog.{Catalog, Node}
use polis_memory.Catalog.Reorg.{apply_promote, node_id}
use polis_memory.Catalog.Tests.{plain}
use polis_memory.Adjudicate.{
  climbs_to, depth_from, depth_of, get, height, is_descendant, load, siblings_under, subtree_height,
}
use polis_memory.Adjudicate.Rules.{
  adjudicate_structural, Facts, adjudicate_promote, adjudicate_collapse, backoff_runs,
}
use polis_memory.Coldness.{auto_collapse_safe, span}
use polis_memory.Coldness.Rollup.{
  fill, has, roll, roll_children, roll_roots, subtree_stats_protected,
}
use polis_memory.Adjudicate.Protects.{IsTable}
use polis_memory.Adjudicate.Collapse.{adjudicate_collapse_spares}
use polis_memory.Adjudicate.Queue.{Standing, process_queue}
use polis_memory.Adjudicate.Walks.{Under, itself, lower, Rooted, child, root}
use polis_memory.Adjudicate.Forest.{IsForest}
use polis_memory.Adjudicate.Promote.{KeepsRows, apply_promote-IsForest}
use polis_memory.Adjudicate.Stale.{IsHung, IsRoot, process_queue_cycle, promote_row}

abbrev rows : List Node
rows = plain 1 none ∷ plain 2 none ∷ plain 3 (some 1) ∷ plain 4 (some 3) ∷ []

abbrev cat : Catalog
cat = record { nodes = rows; links = []; observations = []; next_link = 1 }

abbrev as_stored : List Node → List Node
as_stored nodes = nodes

as_stored-KeepsRows : KeepsRows as_stored
as_stored-KeepsRows nodes id = refl

abbrev ascii : Chars
ascii = record { to_lowercase = λ t. t; is_alphanumeric = λ c. leb 97 c && leb c 122 }

abbrev facts : Facts
facts = record {
  chars = ascii;
  nodes = rows;
  links_of = λ id. [];
  ledger_event_ref = λ s. none;
  stats = λ id. none;
  env = record { oldest = pos 0; newest = pos 1000 };
  protected = λ id. false;
  is_alike = λ a b. false;
  is_cold_age = λ age span. true;
}

snapshot : rows ≡ load as_stored cat
unfolding load keep
snapshot = refl

abbrev HungRows : List Node → Type 0
HungRows ns = All (λ (n : Node). (k : ℕ) × (k ≤ 4) × Rooted (load as_stored cat) n.id k) ns

hung :
    (ns : List Node) (id : ℕ) (n : Node)
    → HungRows ns
    → lookup node_id id ns ≡ some n
    → (k : ℕ) × (k ≤ 4) × Rooted (load as_stored cat) id k
unfolding lookup
hung [] id n all e = cc
hung (m ∷ ns) id n (first, later) e = elim (Bool-cases (m.id == id)) [
  | inl here ↦ rw (sym ((==_iff m.id id).0 here)) first
  | inr there ↦ hung ns id n later (ground (arith, e, there))
]

cat-IsForest : IsForest 4 (load as_stored cat)
unfolding load keep get lookup
cat-IsForest id n e =
    hung rows id n
      (
        (0, omega arith, root 1 (plain 1 none) refl refl),
        (
          (0, omega arith, root 2 (plain 2 none) refl refl),
          (
            (1, omega arith, below_one),
            ((2, omega arith, child 4 3 1 (plain 4 (some 3)) refl refl below_one), tt),
          ),
        ),
      )
      e
  where
    below_one : Rooted (load as_stored cat) 3 1
    below_one = child 3 1 0 (plain 3 (some 1)) refl refl (root 1 (plain 1 none) refl refl)

let_below : adjudicate_promote facts 3 (some 2) ≡ apply
unfolding adjudicate_promote get lookup is_descendant climbs_to depth_of depth_from subtree_height
    height keys_where
let_below = refl

no_cycle : adjudicate_promote facts 3 (some 4) ≡ refuse own_subtree
unfolding adjudicate_promote get lookup is_descendant climbs_to depth_of depth_from subtree_height
    height keys_where
no_cycle = refl

apply_promote-IsForest_example : IsForest 4 (load as_stored (apply_promote 3 (some 2) cat).catalog)
apply_promote-IsForest_example =
    apply_promote-IsForest as_stored as_stored-KeepsRows 4 (omega arith) (omega arith) facts cat
      snapshot 3 (some 2) let_below cat-IsForest

abbrev others : ClassProposalRow → Catalog → Catalog
others prop c = c

abbrev quarantined : ℕ → Bool
quarantined id = false

first-IsRoot : IsRoot (load as_stored cat) 1
unfolding load keep get lookup
first-IsRoot = (plain 1 none, refl, refl)

second-IsRoot : IsRoot (load as_stored cat) 2
unfolding load keep get lookup
second-IsRoot = (plain 2 none, refl, refl)

heights : (subtree_height (load as_stored cat) 1 ≡ 2) × (subtree_height (load as_stored cat) 2 ≡ 0)
unfolding load keep subtree_height height keys_where
heights = (refl, refl)

abbrev open_queue : Standing
open_queue = record {
  is_proposed = λ p. true;
  run_forgotten = false;
  source_forgotten = λ p. false;
  fails = λ p. false;
}

process_queue_cycle_example :
    let after =
      (process_queue others open_queue quarantined
        (pos 0)
        as_stored
        facts
        (promote_row 1 2 ∷ promote_row 2 1 ∷ [])
        cat).catalog in
    let g : Facts = record facts { nodes = load as_stored cat } in
    (adjudicate_structural g (promote_row 1 2) ≡ apply)
    × (adjudicate_structural g (promote_row 2 1) ≡ apply)
    × (after ≡ (apply_promote 2 (some 1) (apply_promote 1 (some 2) cat).catalog).catalog)
    × ¬ IsHung (load as_stored after) 1
    × ¬ IsHung (load as_stored after) 2
process_queue_cycle_example =
    process_queue_cycle as_stored as_stored-KeepsRows others open_queue quarantined (pos 0) facts
      cat 1 2 (λ e. absurd (omega (arith, e))) first-IsRoot second-IsRoot (omega (arith, heights.0))
      (omega (arith, heights.1)) refl refl (refl, refl, refl, refl) (refl, refl, refl, refl)

-- A sibling with the same words takes the filings of a new class.
twin : adjudicate_create ascii rows 1 (codes "t") ≡ redirect 3 none
unfolding adjudicate_create get lookup twins siblings_under keep is_duplicate_title any split
    text_eq
twin = refl

backoffs : (backoff_runs 0 ≡ some 1) × (backoff_runs 2 ≡ some 2) × (backoff_runs 9 ≡ some 4)
unfolding backoff_runs
backoffs = (refl, refl, refl)

-- Two old items on every node.
abbrev direct : ℕ → Option (ℕ × Option ℤ)
direct id = some (2, some (pos 100))

abbrev rolled : Facts
rolled = record facts { stats = subtree_stats_protected rows direct (λ id. false) }

rows-IsForest : IsForest 64 rows
unfolding load keep
rows-IsForest id n e = let (k, le, r) = cat-IsForest id n e in (k, omega (arith, le), r)

rows-IsTable : IsTable rows rows
unfolding get lookup
rows-IsTable = (refl, (refl, (refl, (refl, tt))))

collapsible : adjudicate_collapse rolled 1 ≡ apply
unfolding adjudicate_collapse auto_collapse_safe span subtree_stats_protected fill has roll_roots
    roll roll_children keep lookup ◌-ℤ◌
collapsible = refl

fourth : get rows 4 ≡ some (plain 4 (some 3))
unfolding get lookup
fourth = refl

fourth-Under : Under rows 1 4 2
unfolding get lookup
fourth-Under =
    lower 4 3 1 (plain 4 (some 3)) (λ e. absurd (omega (arith, e))) refl refl
      (lower 3 1 0 (plain 3 (some 1)) (λ e. absurd (omega (arith, e))) refl refl itself)

adjudicate_collapse_spares_example : rolled.protected 4 ≡ false
adjudicate_collapse_spares_example =
    adjudicate_collapse_spares rolled direct refl rows-IsTable rows-IsForest 1 4 2
      (plain 4 (some 3)) fourth fourth-Under collapsible

-- A protected leaf holds the whole branch.
held :
    adjudicate_collapse
      (record facts { stats = subtree_stats_protected rows direct (λ id. id == 4) })
      1
    ≡ refuse not_cold
unfolding adjudicate_collapse auto_collapse_safe span subtree_stats_protected fill has roll_roots
    roll roll_children keep lookup
held = refl
