-- ===== src/Jobs/Rows.antt =====
-- Rows of the job table: distinct ids, membership, and what an UPDATE keeps.
use polis_memory.Prelude.{
  ℕ, ◌≤◌, ◌<◌, ◌≡◌, refl, ap, subst, ◌⊎◌, inl, inr, Bool, true, false, some, List, [], ◌∷◌, arith,
  any, Bool-cases, All,
}
use polis_memory.Jobs.{BackgroundJob, update_where, with_id, first_by_time}

-- Ids rise along the table.
abbrev pub Ascends : ℕ → List BackgroundJob → Type 0
Ascends lo [] = Unit
Ascends lo (j ∷ jobs) = (lo < j.id) × Ascends j.id jobs

abbrev pub In : BackgroundJob → List BackgroundJob → Type 0
In b [] = ⊥
In b (j ∷ jobs) = (j ≡ b) ⊎ In b jobs

pub Ascends-In :
    (lo : ℕ) (b : BackgroundJob) (jobs : List BackgroundJob)
    → Ascends lo jobs
    → In b jobs
    → lo < b.id
Ascends-In lo b [] a i = absurd i
Ascends-In lo b (j ∷ jobs) a (inl e) = ground (arith, a.0)
Ascends-In lo b (j ∷ jobs) a (inr i) = omega (arith, Ascends-In j.id b jobs a.1 i, a.0)

-- A row is determined by its id.
pub row_by_id :
    (lo : ℕ) (b c : BackgroundJob) (jobs : List BackgroundJob)
    → Ascends lo jobs
    → In b jobs
    → In c jobs
    → b.id ≡ c.id
    → b ≡ c
row_by_id lo b c [] a i k e = absurd i
row_by_id lo b c (j ∷ jobs) a (inl p) (inl q) e = cc
row_by_id lo b c (j ∷ jobs) a (inl p) (inr k) e =
    absurd (omega (arith, Ascends-In j.id c jobs a.1 k, e, ap (λ (x : BackgroundJob). x.id) p))
row_by_id lo b c (j ∷ jobs) a (inr i) (inl q) e =
    absurd (omega (arith, Ascends-In j.id b jobs a.1 i, e, ap (λ (x : BackgroundJob). x.id) q))
row_by_id lo b c (j ∷ jobs) a (inr i) (inr k) e = row_by_id j.id b c jobs a.1 i k e

pub first_by_time-In :
    (p : BackgroundJob → Bool) (jobs : List BackgroundJob) (b : BackgroundJob)
    → first_by_time p jobs ≡ some b
    → In b jobs × (p b ≡ true)
unfolding first_by_time
first_by_time-In p [] b e = cc
first_by_time-In p (j ∷ jobs) b e = ground (arith, first_by_time-In p jobs b)

-- An UPDATE that keeps the ids keeps their order.
pub update_where-Ascends :
    (p : BackgroundJob → Bool) (f : BackgroundJob → BackgroundJob)
    → ((j : BackgroundJob) → (f j).id ≡ j.id)
    → (lo : ℕ) (jobs : List BackgroundJob) → Ascends lo jobs
    → Ascends lo (update_where p f jobs)
update_where-Ascends p f same lo [] a = tt
update_where-Ascends p f same lo (j ∷ jobs) a = elim (Bool-cases (p j)) [
  | inl hit ↦ rw (hit, same j) (a.0, update_where-Ascends p f same j.id jobs a.1)
  | inr miss ↦ rw miss (a.0, update_where-Ascends p f same j.id jobs a.1)
]

-- A property of every row is kept if the rows that the UPDATE hits keep it.
pub update_where-All {ℓ} :
    (P : BackgroundJob → Type ℓ) (p : BackgroundJob → Bool) (f : BackgroundJob → BackgroundJob)
    (jobs : List BackgroundJob)
    → ((j : BackgroundJob) → In j jobs → p j ≡ true → P j → P (f j))
    → All P jobs
    → All P (update_where p f jobs)
update_where-All P p f [] keeps a = tt
update_where-All P p f (j ∷ jobs) keeps a =
    let rest = update_where-All P p f jobs (λ k i. keeps k (inr i)) a.1 in
    elim (Bool-cases (p j)) [
      | inl hit ↦ rw hit (keeps j (inl refl) hit a.0, rest)
      | inr miss ↦ rw miss (a.0, rest)
    ]

-- Past its id an UPDATE by id hits nothing.
pub update_where_above :
    (id lo : ℕ) (f : BackgroundJob → BackgroundJob) (jobs : List BackgroundJob)
    → id ≤ lo
    → Ascends lo jobs
    → update_where (with_id id) f jobs ≡ jobs
update_where_above id lo f [] le a = refl
update_where_above id lo f (j ∷ jobs) le a = ground (arith, update_where_above id j.id f jobs, a.0)

-- A row that no row satisfies is not hit.
pub update_where_none :
    (p : BackgroundJob → Bool) (f : BackgroundJob → BackgroundJob) (jobs : List BackgroundJob)
    → any p jobs ≡ false
    → update_where p f jobs ≡ jobs
unfolding any
update_where_none p f [] e = refl
update_where_none p f (j ∷ jobs) e = ground (arith, update_where_none p f jobs)

pub All-In {ℓ} :
    (P : BackgroundJob → Type ℓ) (jobs : List BackgroundJob) (b : BackgroundJob)
    → All P jobs
    → In b jobs
    → P b
All-In P [] b a i = absurd i
All-In P (j ∷ jobs) b a (inl e) = subst P e a.0
All-In P (j ∷ jobs) b a (inr i) = All-In P jobs b a.1 i
