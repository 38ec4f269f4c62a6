-- ===== src/Coldness/Rollup.antt =====
-- `subtree_stats_protected`: what a branch holds, when it was last active, and whether anything in it
-- is protected. The map of the direct activity is a function; the map that is filled is a list whose
-- first entry of a key counts.
use polis_memory.Prelude.{
  ℕ, zero, suc, ◌+◌, Bool, true, false, ◌||◌, Option, none, some, List, [], ◌∷◌, if◌then◌else◌,
  is_some, keep, map_some,
}
use polis_memory.Prelude.Int.{ℤ, leb_ℤ}
use polis_memory.Prelude.Tables.{lookup}
use polis_memory.Catalog.{Node, under}
use polis_memory.Coldness.{BranchStat}

pub record StatEntry : Type 0 where
  pub id : ℕ
  pub stat : BranchStat

abbrev pub entry_id : StatEntry → ℕ
entry_id e = e.id

abbrev pub newer : Option ℤ → Option ℤ → Option ℤ
newer none b = b
newer (some a) none = some a
newer (some a) (some b) = some (if leb_ℤ a b then b else a)

-- What a child adds.
abbrev pub absorb_child : BranchStat → BranchStat → BranchStat
absorb_child s c = record {
  last_ts = newer s.last_ts c.last_ts;
  item_count = s.item_count + c.item_count;
  pinned = s.pinned || c.pinned;
}

unfoldable pub roll_children :
    (Node → List StatEntry → BranchStat × List StatEntry)
    → List Node
    → BranchStat
    → List StatEntry
    → BranchStat × List StatEntry
roll_children step [] s out = (s, out)
roll_children step (c ∷ cs) s out =
    let (child, out_1) = step c out in roll_children step cs (absorb_child s child) out_1

unfoldable pub has : ℕ → List StatEntry → Bool
unfolding lookup
has id out = is_some (lookup entry_id id out)

abbrev pub own_of : Bool → Option (ℕ × Option ℤ) → BranchStat
own_of pinned none = record { last_ts = none; item_count = 0; pinned = pinned }
own_of pinned (some activity) = record {
  last_ts = activity.1;
  item_count = activity.0;
  pinned = pinned;
}

module _ (nodes : List Node) (direct : ℕ → Option (ℕ × Option ℤ)) (protected : ℕ → Bool) where
  abbrev pub own : ℕ → BranchStat
  own id = own_of (protected id) (direct id)

  abbrev pub kids : ℕ → List Node
  kids id = keep (λ (n : Node). under id n.parent_id) nodes

  -- `left` more levels are rolled up.
  unfoldable pub roll : ℕ → Node → List StatEntry → BranchStat × List StatEntry
  unfolding roll_children keep
  roll zero n out = (own n.id, record { id = n.id; stat = own n.id } ∷ out)
  roll (suc left) n out =
      let (s, out_1) = roll_children (roll left) (kids n.id) (own n.id) out in
      (s, record { id = n.id; stat = s } ∷ out_1)

  unfoldable pub roll_roots : List Node → List StatEntry → List StatEntry
  unfolding roll
  roll_roots [] out = out
  roll_roots (n ∷ ns) out = elim (is_some n.parent_id) [
    | true ↦ roll_roots ns out
    | false ↦ roll_roots ns (roll 64 n out).1
  ]

  -- A node that no root leads to has its own activity only.
  unfoldable pub fill : List Node → List StatEntry → List StatEntry
  unfolding has
  fill [] out = out
  fill (n ∷ ns) out = elim (has n.id out) [
    | true ↦ fill ns out
    | false ↦ fill ns (record { id = n.id; stat = own n.id } ∷ out)
  ]

  unfoldable pub subtree_stats_protected : ℕ → Option BranchStat
  unfolding roll_roots fill lookup
  subtree_stats_protected id =
      map_some (λ (e : StatEntry). e.stat) (lookup entry_id id (fill nodes (roll_roots nodes [])))
