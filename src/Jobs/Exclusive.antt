-- ===== src/Jobs/Exclusive.antt =====
-- At most one job of a kind runs at a time, and every operation keeps it so.
use polis_memory.Prelude.{
  ℕ, ◌+◌, ◌≤◌, ◌≡◌, refl, inl, inr, Bool, true, false, Option, none, some, List, [], ◌∷◌, ◌++◌,
  arith, if◌then◌else◌, any, Bool-cases,
}
use polis_memory.Prelude.Text.{Text, text_eq, text_eq_iff}
use polis_memory.Jobs.{
  BackgroundJob, update_where, with_id, is_running, runs_kind, is_expired, release, reclaim,
  next_job, is_eligible, start, grant, lease_job, is_held, checkpoint_job, finish_job,
  finished_status, retry_job, is_retried,
}
use polis_memory.Jobs.Rows.{
  Ascends, In, first_by_time-In, update_where-Ascends, update_where_above, Ascends-In,
}

abbrev pub running_count : Text → List BackgroundJob → ℕ
running_count kind [] = 0
running_count kind (j ∷ jobs) = (if runs_kind kind j then 1 else 0) + running_count kind jobs

abbrev pub IsExclusive : List BackgroundJob → Type 0
IsExclusive jobs = (kind : Text) → running_count kind jobs ≤ 1

no_runner :
    (kind : Text) (jobs : List BackgroundJob)
    → any (runs_kind kind) jobs ≡ false
    → running_count kind jobs ≡ 0
unfolding any
no_runner kind [] e = refl
no_runner kind (j ∷ jobs) e = ground (arith, no_runner kind jobs)

-- An UPDATE that starts nothing adds no runner.
update_count :
    (kind : Text) (p : BackgroundJob → Bool) (f : BackgroundJob → BackgroundJob)
    → ((j : BackgroundJob) → p j ≡ true → runs_kind kind (f j) ≡ true → runs_kind kind j ≡ true)
    → (jobs : List BackgroundJob)
    → running_count kind (update_where p f jobs) ≤ running_count kind jobs
update_count kind p f quiet [] = omega arith
update_count kind p f quiet (j ∷ jobs) = ground (arith, quiet j, update_count kind p f quiet jobs)

-- Starting one row adds at most one runner, and only of the row's kind.
start_count :
    (kind owner : Text) (until lo : ℕ) (b : BackgroundJob) (jobs : List BackgroundJob)
    → Ascends lo jobs
    → In b jobs
    → running_count kind (update_where (with_id b.id) (start owner until) jobs)
      ≤ running_count kind jobs + (if text_eq b.kind kind then 1 else 0)
start_count kind owner until lo b [] a i = absurd i
start_count kind owner until lo b (j ∷ jobs) a (inl e) =
    ground (arith, e, update_where_above b.id j.id (start owner until) jobs (ground (arith, e)) a.1)
start_count kind owner until lo b (j ∷ jobs) a (inr i) =
    ground (arith, start_count kind owner until j.id b jobs a.1 i, Ascends-In j.id b jobs a.1 i)

reclaim_count :
    (kind : Text) (now : ℕ) (jobs : List BackgroundJob)
    → running_count kind (reclaim now jobs) ≤ running_count kind jobs
unfolding reclaim
reclaim_count kind now jobs = update_count kind (is_expired now) release (λ j e. ground arith) jobs

pub reclaim-Ascends :
    (lo now : ℕ) (jobs : List BackgroundJob) → Ascends lo jobs → Ascends lo (reclaim now jobs)
unfolding reclaim
reclaim-Ascends lo now jobs a = update_where-Ascends (is_expired now) release (λ j. refl) lo jobs a

-- What `lease_job` picks: an eligible row, while no job of its kind runs.
pub next_job-In :
    (kind : Text) (now : ℕ) (jobs : List BackgroundJob) (b : BackgroundJob)
    → next_job kind now jobs ≡ some b
    → In b jobs × (is_eligible kind now b ≡ true) × (any (runs_kind kind) jobs ≡ false)
unfolding next_job
next_job-In kind now jobs b e = elim (Bool-cases (any (runs_kind kind) jobs)) [
  | inl busy ↦ absurd (none≢some (rw busy at e))
  | inr free ↦
      let found = first_by_time-In (is_eligible kind now) jobs b (rw free at e) in
      (found.0, found.1, free)
]
  where
    none≢some : none ≡ some b → ⊥
    none≢some q = cc

grant-IsExclusive :
    (kind owner : Text) (now until lo : ℕ) (jobs : List BackgroundJob) (pick : Option BackgroundJob)
    → next_job kind now jobs ≡ pick
    → Ascends lo jobs
    → IsExclusive jobs
    → IsExclusive (grant owner until jobs pick).1
unfolding grant
grant-IsExclusive kind owner now until lo jobs none e a x = x
grant-IsExclusive kind owner now until lo jobs (some b) e a x = λ k.
    let (here, fits, free) = next_job-In kind now jobs b e in
    ground (
      arith,
      fits,
      start_count k owner until lo b jobs a here,
      no_runner kind jobs free,
      x k,
      text_eq_iff b.kind kind,
      text_eq_iff b.kind k,
    )

-- `lease_job` never lets two jobs of a kind run, even with expired leases taken back.
pub lease_job-IsExclusive :
    (kind owner : Text) (now lease_ms lo : ℕ) (jobs : List BackgroundJob)
    → Ascends lo jobs
    → IsExclusive jobs
    → IsExclusive (lease_job kind owner now lease_ms jobs).1
unfolding lease_job
lease_job-IsExclusive kind owner now lease_ms lo jobs a x =
    grant-IsExclusive kind owner now _ lo (reclaim now jobs) (next_job kind now (reclaim now jobs))
      refl (reclaim-Ascends lo now jobs a) (λ k. omega (arith, reclaim_count k now jobs, x k))

quiet-IsExclusive :
    (p : BackgroundJob → Bool) (f : BackgroundJob → BackgroundJob)
    → ((kind : Text) (j : BackgroundJob)
        → p j ≡ true
        → runs_kind kind (f j) ≡ true
        → runs_kind kind j ≡ true)
    → (jobs : List BackgroundJob) → IsExclusive jobs
    → IsExclusive (update_where p f jobs)
quiet-IsExclusive p f quiet jobs x = λ k. omega (arith, update_count k p f (quiet k) jobs, x k)

pub reclaim-IsExclusive :
    (now : ℕ) (jobs : List BackgroundJob) → IsExclusive jobs → IsExclusive (reclaim now jobs)
reclaim-IsExclusive now jobs x = λ k. omega (arith, reclaim_count k now jobs, x k)

pub checkpoint_job-IsExclusive :
    (job : BackgroundJob) (checkpoint : Text) (now : ℕ) (jobs : List BackgroundJob)
    → IsExclusive jobs
    → IsExclusive (checkpoint_job job checkpoint now jobs).1
unfolding checkpoint_job
checkpoint_job-IsExclusive job checkpoint now jobs x =
    quiet-IsExclusive (is_held job now) _ (λ k j hit r. r) jobs x

stopped :
    (kind : Text) (job : BackgroundJob) (error : Option Text)
    → is_running (finished_status job error) ≡ false
stopped kind job none = refl
stopped kind job (some e) = ground arith

pub finish_job-IsExclusive :
    (job : BackgroundJob) (error : Option Text) (now : ℕ) (jobs : List BackgroundJob)
    → IsExclusive jobs
    → IsExclusive (finish_job job error now jobs).1
unfolding finish_job
finish_job-IsExclusive job error now jobs x =
    quiet-IsExclusive (is_held job now) _ (λ k j hit r. ground (arith, stopped k job error)) jobs x

pub retry_job-IsExclusive :
    (id now : ℕ) (jobs : List BackgroundJob)
    → IsExclusive jobs
    → IsExclusive (retry_job id now jobs).1
unfolding retry_job
retry_job-IsExclusive id now jobs x =
    quiet-IsExclusive (is_retried id) _ (λ k j hit r. ground arith) jobs x

pub append_count :
    (kind : Text) (jobs : List BackgroundJob) (j : BackgroundJob)
    → is_running j.status ≡ false
    → running_count kind (jobs ++ j ∷ []) ≡ running_count kind jobs
append_count kind [] j e = ground arith
append_count kind (i ∷ jobs) j e = omega (arith, append_count kind jobs j e)
