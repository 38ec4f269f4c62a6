-- ===== src/Supersession/Chains.antt =====
-- Chains of supersessions in the index: every edge rises, and each decision has one successor.
use polis_memory.Prelude.{
  ℕ, zero, suc, ◌≤◌, ◌<◌, ◌≡◌, refl, ◌≢◌, inl, inr, none, some, List, [], ◌∷◌, ◌++◌, arith, ◌==◌,
  ==_iff, if◌then◌else◌, Option-cases, All,
}
use polis_memory.Supersession.{Edge, superseded_by, chain_head}

abbrev pub Rises : List Edge → Type 0
Rises = All (λ e. e.old_seq < e.new_seq)

-- Superseded at most once.
abbrev pub Once : List Edge → Type 0
Once [] = Unit
Once (e ∷ edges) = (superseded_by edges e.old_seq ≡ none) × Once edges

-- `t` is reached from `s` by following the index.
pub data Follows (edges : List Edge) (s : ℕ) : ℕ → Type 0 where
  here : Follows edges s s
  hop : {t u : ℕ} → Follows edges s t → superseded_by edges t ≡ some u → Follows edges s u

pub superseded_by-gt :
    (edges : List Edge) (s n : ℕ) → Rises edges → superseded_by edges s ≡ some n → s < n
unfolding superseded_by
superseded_by-gt [] s n r q = absurd (none_is_some q)
  where
    none_is_some : none ≡ some n → ⊥
    none_is_some q = cc
superseded_by-gt (e ∷ edges) s n r q = ground (arith, superseded_by-gt edges s n r.1, r.0)

-- Along a chain the seqs rise, so no chain returns to where it was.
pub Follows-le : (edges : List Edge) {s t : ℕ} → Rises edges → Follows edges s t → s ≤ t
Follows-le edges r here = omega arith
Follows-le edges r (hop {t} {u} f q) =
    omega (arith, Follows-le edges r f, superseded_by-gt edges t u r q)

-- In an index that rises no decision supersedes itself through any chain of supersessions.
pub no_cycle :
    (edges : List Edge) (s t u : ℕ)
    → Rises edges
    → superseded_by edges s ≡ some t
    → Follows edges t u
    → u ≢ s
no_cycle edges s t u r q f e =
    omega (arith, superseded_by-gt edges s t r q, Follows-le edges r f, e)

pub superseded_by-append :
    (edges : List Edge) (e : Edge) (s : ℕ)
    → superseded_by (edges ++ e ∷ []) s ≡ elim (superseded_by edges s) [
      | some n ↦ some n
      | none ↦ if e.old_seq == s then some e.new_seq else none
    ]
unfolding superseded_by
superseded_by-append [] e s = refl
superseded_by-append (x ∷ edges) e s = ground (arith, superseded_by-append edges e s)

pub Once-append :
    (edges : List Edge) (e : Edge)
    → Once edges
    → superseded_by edges e.old_seq ≡ none
    → Once (edges ++ e ∷ [])
unfolding superseded_by
Once-append [] e o q = (refl, tt)
Once-append (x ∷ edges) e o q = (
  ground (arith, superseded_by-append edges e x.old_seq, o.0, ==_iff x.old_seq e.old_seq),
  Once-append edges e o.1 (ground arith),
)

-- The head is a decision that nothing supersedes, reached from the start.
pub chain_head_lem :
    (edges : List Edge) (left s t u : ℕ)
    → Follows edges s t
    → chain_head edges left t ≡ some u
    → Follows edges s u × (superseded_by edges u ≡ none)
unfolding chain_head
chain_head_lem edges zero s t u f q = elim (Option-cases (superseded_by edges t)) [
  | inl end ↦ let same : t ≡ u = ground (arith, end) in rw (← same) (f, end)
  | inr (n, next) ↦ absurd (none_is_some (rw (next, chain_head) at q))
]
  where
    none_is_some : none ≡ some u → ⊥
    none_is_some q = cc
chain_head_lem edges (suc left) s t u f q = elim (Option-cases (superseded_by edges t)) [
  | inl end ↦ let same : t ≡ u = ground (arith, end) in rw (← same) (f, end)
  | inr (n, next) ↦ chain_head_lem edges left s n u (hop f next) (rw (next, chain_head) at q)
]
