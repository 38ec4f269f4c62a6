-- ===== src/Runs/Vacuum.antt =====
-- `vacuum_retired`: retired rows behind the horizon are deleted, and the runs there cannot be
-- reverted any more.
use polis_memory.Prelude.{
  ℕ, ◌-◌, ◌≤◌, ◌<◌, ℤ, ◌≡◌, refl, Bool, true, false, not, ◌&&◌, Option, none, some, List, [], ◌∷◌,
  leb, if◌then◌else◌, keep, length, is_some, arith, Bool-cases, inl, inr,
}
use polis_memory.Prelude.Tables.{lookup}
use polis_memory.Prelude.Text.{Text}
use polis_memory.Ledger.{Hasher}
use polis_memory.Compaction.{Codec}
use polis_memory.Catalog.{Link, Node, Observation, unmarked}
use polis_memory.Runs.{ClassRun, RunOp, Store, newest, run_id}
use polis_memory.Runs.Revert.{
  Refusal, already_reverted, behind, horizon_of, no_run, past_horizon, refusal, refusal_of,
  rejected, revert_checked, revert_run, was_reverted,
}

pub record VacuumReport : Type 0 where
  pub horizon_run : ℕ
  pub nodes : ℕ
  pub links : ℕ
  pub observations : ℕ
  pub images : ℕ

-- retired_by_run IS NOT NULL AND retired_by_run <= horizon.
abbrev pub gone_by : ℕ → Option ℕ → Bool
gone_by horizon none = false
gone_by horizon (some run) = leb run horizon

abbrev pub deleted {ℓ} : {A : Type ℓ} → (A → Bool) → List A → ℕ
deleted p rows = length (keep p rows)

abbrev pub drop_image : ℕ → RunOp → RunOp
drop_image horizon o = if leb o.run_id horizon then record o { pre_image = none } else o

abbrev pub drop_images : ℕ → List RunOp → List RunOp
drop_images horizon [] = []
drop_images horizon (o ∷ ops) = drop_image horizon o ∷ drop_images horizon ops

unfoldable pub vacuum_to : ℕ → Store → VacuumReport × Store
unfolding keep
vacuum_to horizon s =
    let cat = s.catalog in
    (
      record {
        horizon_run = horizon;
        nodes = deleted (λ n. gone_by horizon n.retired_by_run) cat.nodes;
        links = deleted (λ l. gone_by horizon l.retired_by_run) cat.links;
        observations = deleted (λ o. gone_by horizon o.retired_by_run) cat.observations;
        images = deleted (λ o. leb o.run_id horizon && is_some o.pre_image) s.ops;
      },
      record s {
        catalog = record cat {
          nodes = keep (λ n. not (gone_by horizon n.retired_by_run)) cat.nodes;
          links = keep (λ l. not (gone_by horizon l.retired_by_run)) cat.links;
          observations = keep (λ o. not (gone_by horizon o.retired_by_run)) cat.observations;
        };
        ops = drop_images horizon s.ops;
        horizon = some horizon;
      },
    )

abbrev pub nothing_deleted : ℕ → VacuumReport
nothing_deleted horizon = record {
  horizon_run = horizon;
  nodes = 0;
  links = 0;
  observations = 0;
  images = 0;
}

unfoldable pub vacuum_past : ℕ → ℕ → Store → VacuumReport × Store
unfolding vacuum_to
vacuum_past prior horizon s =
    if leb horizon 0
    then (nothing_deleted horizon, s)
    else if leb horizon prior
    then (nothing_deleted prior, s)
    else vacuum_to horizon s

-- `older_than_runs` is not negative; a horizon below 0 is one of 0.
unfoldable pub vacuum_retired : ℕ → Store → VacuumReport × Store
unfolding vacuum_past
vacuum_retired older_than_runs s =
    vacuum_past (horizon_of s.horizon) (newest s.runs - older_than_runs) s

keep-keep {ℓ} :
    {A : Type ℓ} (p q : A → Bool)
    → ((r : A) → p r ≡ true → q r ≡ true)
    → (rows : List A) → keep p (keep q rows) ≡ keep p rows
unfolding keep
keep-keep p q h [] = refl
keep-keep p q h (r ∷ rows) = ground (arith, h r, keep-keep p q h rows)

live_stays : (horizon : ℕ) (m : Option ℕ) → unmarked m ≡ true → not (gone_by horizon m) ≡ true
live_stays horizon none e = refl
live_stays horizon (some r) e = cc

-- The rows that readers see.
pub record SameView (s t : Store) : Type 0 where
  pub nodes :
      keep (λ (n : Node). unmarked n.retired_by_run) t.catalog.nodes
      ≡ keep (λ n. unmarked n.retired_by_run) s.catalog.nodes
  pub links :
      keep (λ (l : Link). unmarked l.retired_by_run) t.catalog.links
      ≡ keep (λ l. unmarked l.retired_by_run) s.catalog.links
  pub observations :
      keep (λ (o : Observation). unmarked o.retired_by_run) t.catalog.observations
      ≡ keep (λ o. unmarked o.retired_by_run) s.catalog.observations

vacuum_to-SameView : (horizon : ℕ) (s : Store) → SameView s (vacuum_to horizon s).1
unfolding vacuum_to
vacuum_to-SameView horizon s = record {
  nodes =
      keep-keep (λ (n : Node). unmarked n.retired_by_run)
        (λ n. not (gone_by horizon n.retired_by_run)) (λ n. live_stays horizon n.retired_by_run)
        s.catalog.nodes;
  links =
      keep-keep (λ (l : Link). unmarked l.retired_by_run)
        (λ l. not (gone_by horizon l.retired_by_run)) (λ l. live_stays horizon l.retired_by_run)
        s.catalog.links;
  observations =
      keep-keep (λ (o : Observation). unmarked o.retired_by_run)
        (λ o. not (gone_by horizon o.retired_by_run)) (λ o. live_stays horizon o.retired_by_run)
        s.catalog.observations;
}

same_view : (s : Store) → SameView s s
same_view s = record { nodes = refl; links = refl; observations = refl }

abbrev Keeps : Store → VacuumReport × Store → Type 0
Keeps s (report, t) =
    SameView s t
    × (horizon_of s.horizon ≤ horizon_of t.horizon)
    × (report.horizon_run ≤ horizon_of t.horizon)

vacuum_past-Keeps :
    (prior horizon : ℕ) (s : Store)
    → prior ≡ horizon_of s.horizon
    → Keeps s (vacuum_past prior horizon s)
unfolding vacuum_past
vacuum_past-Keeps prior horizon s e = elim (Bool-cases (leb horizon 0)) [
  | inl low ↦ rw (vacuum_past, low) (same_view s, ground arith, ground (arith, low))
  | inr high ↦ elim (Bool-cases (leb horizon prior)) [
    | inl old ↦ rw (vacuum_past, high, old) (same_view s, ground arith, ground (arith, e))
    | inr new ↦
        rw (vacuum_past, high, new)
          (
            vacuum_to-SameView horizon s,
            unfold vacuum_to in ground (arith, new, e),
            unfold vacuum_to in ground arith,
          )
  ]
]

-- A vacuum leaves every live row as it is, never moves the horizon back, and reports a horizon that
-- the store then has, unless it is 0.
pub vacuum_retired_keeps :
    (older_than_runs : ℕ) (s : Store)
    → let (report, t) = vacuum_retired older_than_runs s in
      SameView s t
      × (horizon_of s.horizon ≤ horizon_of t.horizon)
      × (report.horizon_run ≤ horizon_of t.horizon)
unfolding vacuum_retired
vacuum_retired_keeps older_than_runs s =
    vacuum_past-Keeps (horizon_of s.horizon) (newest s.runs - older_than_runs) s refl

behind_horizon : (run : ℕ) (o : Option ℕ) → 0 < run → run ≤ horizon_of o → behind run o ≡ true
behind_horizon run none p le = absurd (omega (arith, p, le))
behind_horizon run (some h) p le = ground (arith, le)

refused_behind :
    (run : ℕ) (s : Store) (o : Option ClassRun)
    → behind run s.horizon ≡ true
    → (reason : Refusal) × (refusal run s o ≡ some reason)
unfolding refusal_of
refused_behind run s none e = (no_run, refl)
refused_behind run s (some row) e = elim (Bool-cases (was_reverted row.outcome)) [
  | inl r ↦ (already_reverted, rw (r, refusal_of) refl)
  | inr r ↦ (past_horizon (horizon_of s.horizon), rw (r, e, refusal_of) refl)
]

-- A run at or behind the horizon that a vacuum reports cannot be reverted any more: its revert is
-- refused and changes nothing.
pub vacuumed_is_final :
    (h : Hasher) (codec : Codec) (older_than_runs run : ℕ) (actor : Text) (ts : ℤ) (s : Store)
    → 0 < run
    → run ≤ (vacuum_retired older_than_runs s).0.horizon_run
    → let t = (vacuum_retired older_than_runs s).1 in
      (reason : Refusal) × (revert_run h codec run actor ts t ≡ (rejected reason, t))
vacuumed_is_final h codec older_than_runs run actor ts s positive le =
    let t = (vacuum_retired older_than_runs s).1 in
    let k = vacuum_retired_keeps older_than_runs s in
    refused h codec run actor ts t (
      refused_behind run t (lookup run_id run t.runs)
        (behind_horizon run t.horizon positive (omega (arith, le, k.2))))
  where
    refused :
        (h : Hasher) (codec : Codec) (run : ℕ) (actor : Text) (ts : ℤ) (t : Store)
        → (reason : Refusal) × (refusal run t (lookup run_id run t.runs) ≡ some reason)
        → (reason : Refusal) × (revert_run h codec run actor ts t ≡ (rejected reason, t))
    refused h codec run actor ts t (reason, e) =
        (reason, unfold revert_run revert_checked in rw (e, revert_checked) refl)
