-- ===== src/Adjudicate/Collapse.antt =====
-- An admitted collapse takes no protected node with it.
use polis_memory.Prelude.{
  ℕ, ◌≤◌, ◌≡◌, refl, sym, ap, ◌∙◌, subst, Bool, true, false, not, ◌||◌, Option, some, List, [], ◌∷◌,
  ◌==◌, if◌then◌else◌, arith, Bool-cases, inl, inr, Option-cases, All, map_some, ltb,
}
use polis_memory.Prelude.Int.{ℤ}
use polis_memory.Prelude.Tables.{lookup, lookup-key}
use polis_memory.Catalog.{Node}
use polis_memory.Coldness.{BranchStat, auto_collapse_safe}
use polis_memory.Coldness.Rollup.{StatEntry, entry_id, has, roll_roots, subtree_stats_protected}
use polis_memory.Adjudicate.{get}
use polis_memory.Adjudicate.Verdicts.{Verdict, apply, few_items, refuse, not_cold}
use polis_memory.Adjudicate.Rules.{Facts, collapse_stat, adjudicate_collapse}
use polis_memory.Adjudicate.Walks.{Rooted, Under}
use polis_memory.Adjudicate.Forest.{IsForest}
use polis_memory.Adjudicate.Descents.{
  Rooted-above, Descent, Descent-Under, Rooted-unique, Top-Rooted,
}
use polis_memory.Adjudicate.Protects.{IsSound, IsTable, roots-IsSound}
use polis_memory.Adjudicate.Covers.{fill_keeps, roots_cover}

lookup-All :
    (P : StatEntry → Type 0) (x : ℕ) (out : List StatEntry) (e : StatEntry)
    → All P out
    → lookup entry_id x out ≡ some e
    → P e
unfolding lookup
lookup-All P x [] e all h = cc
lookup-All P x (f ∷ out) e (first, later) h = elim (Bool-cases (entry_id f == x)) [
  | inl here ↦ subst P (ground (arith, h, here)) first
  | inr there ↦ lookup-All P x out e later (ground (arith, h, there))
]

has-some :
    (x : ℕ) (out : List StatEntry)
    → has x out ≡ true
    → (e : StatEntry) × (lookup entry_id x out ≡ some e)
unfolding has
has-some x out h = elim (Option-cases (lookup entry_id x out)) [
  | inl e ↦ absurd (ground (arith, h, e))
  | inr found ↦ found
]

module _ (nodes : List Node) (direct : ℕ → Option (ℕ × Option ℤ)) (protected : ℕ → Bool) where
  -- The stat of a node below a root is that of its roll-up.
  rolled_stat :
      (table : IsTable nodes nodes) (a k : ℕ)
      → k ≤ 64
      → Rooted nodes a k
      → (e : StatEntry) × (subtree_stats_protected nodes direct protected a ≡ some e.stat)
        × (e.id ≡ a)
        × IsSound nodes direct protected e
  unfolding subtree_stats_protected get
  rolled_stat table a k le r =
      let t = Top-Rooted nodes a k r in
      let rolled = roll_roots nodes direct protected nodes [] in
      let there =
        roots_cover nodes direct protected a t.top k t.row nodes [] t.there t.free t.way le in
      let (e, found) = has-some a rolled there in
      (
        e,
        ap (map_some (λ (f : StatEntry). f.stat))
            (fill_keeps nodes direct protected a nodes rolled there ∙ found),
        lookup-key entry_id a rolled e found,
        lookup-All (IsSound nodes direct protected) a rolled e
            (roots-IsSound nodes direct protected table nodes [] table tt) found,
      )

pinned_is_unsafe :
    (f : Facts) (s : BranchStat)
    → s.pinned ≡ true
    → auto_collapse_safe f.is_cold_age s f.env ≡ false
unfolding auto_collapse_safe
pinned_is_unsafe f s h = rw h refl

blocked :
    (few p : Bool) (r : Verdict)
    → ¬ ((if few then refuse few_items else if p || not false then refuse not_cold else r) ≡ apply)
blocked true p r h = ground (arith, h)
blocked false true r h = ground (arith, h)
blocked false false r h = ground (arith, h)

pinned_refused :
    (f : Facts) (a : ℕ) (s : BranchStat)
    → f.stats a ≡ some s
    → s.pinned ≡ true
    → ¬ (adjudicate_collapse f a ≡ apply)
unfolding adjudicate_collapse
pinned_refused f a s e h admitted = blocked (ltb s.item_count 5) (f.protected a) apply (
    subst
      (λ (b : Bool).
        (if ltb s.item_count 5
          then refuse few_items
          else if f.protected a || not b
          then refuse not_cold
          else apply)
        ≡ apply)
      (pinned_is_unsafe f s h) (sym (ap (collapse_stat f a) e) ∙ admitted))

-- A collapse that is admitted takes no protected node with it: with the roll-up of the snapshot as
-- its stats, no node anywhere in the branch is warm or carries a note. Every live node of the
-- snapshot hangs from a root, at most 64 steps below it, and is found by its id.
pub adjudicate_collapse_spares :
    (f : Facts) (direct : ℕ → Option (ℕ × Option ℤ))
    → f.stats ≡ subtree_stats_protected f.nodes direct f.protected
    → IsTable f.nodes f.nodes
    → IsForest 64 f.nodes
    → (a d j : ℕ) (n : Node) → get f.nodes d ≡ some n
    → Under f.nodes a d j
    → adjudicate_collapse f a ≡ apply
    → f.protected d ≡ false
adjudicate_collapse_spares f direct stats table forest a d j n e u admitted =
    let (k, le, r) = forest d n e in
    let (m, sum, up) = Rooted-above f.nodes a d j k u r in
    let (entry, found, at, (m', up', sound)) =
      rolled_stat f.nodes direct f.protected table a m (omega (arith, le, sum)) up in
    let same = Rooted-unique f.nodes a m' m (subst (λ (x : ℕ). Rooted f.nodes x m') at up') up in
    elim (Bool-cases (f.protected d)) [
      | inl warm ↦ absurd (
          pinned_refused f a entry.stat (ap (λ (g : ℕ → Option BranchStat). g a) stats ∙ found)
            (sound d j
              (subst (λ (x : ℕ). Descent f.nodes d x j) (sym at) (Descent-Under f.nodes a d j u))
              warm (omega (arith, le, sum, same)))
            admitted)
      | inr plain ↦ plain
    ]
