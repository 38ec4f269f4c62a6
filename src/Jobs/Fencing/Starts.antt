-- ===== src/Jobs/Fencing/Starts.antt =====
-- How often a job of crates/polis-store/src/jobs.rs has been started, along the operations.
use polis_memory.Prelude.{
  ℕ, ◌+◌, ◌≤◌, ◌<◌, ◌≡◌, refl, Bool, true, false, Option, none, some, List, [], ◌∷◌, ◌++◌, arith,
  if◌then◌else◌, any, All, All-append,
}
use polis_memory.Prelude.Text.{Text}
use polis_memory.Jobs.{
  BackgroundJob, update_where, with_id, is_expired, release, reclaim, next_job, start, grant,
  lease_job, is_held, checkpoint_job, finish_job, enqueue_job, new_job, next_id, list_jobs,
  with_key, Op, enqueues, leases, checkpoints, finishes, retries, lists, step, run,
}
use polis_memory.Jobs.Rows.{update_where-All}

-- The row `id` exists and has been started at least `n` times.
pub record Started (id n : ℕ) (jobs : List BackgroundJob) : Type 0 where
  pub known : id < next_id jobs
  pub starts : All (λ j. j.id ≡ id → n ≤ j.attempts) jobs

pub update-next_id :
    (p : BackgroundJob → Bool) (f : BackgroundJob → BackgroundJob)
    → ((j : BackgroundJob) → (f j).id ≡ j.id)
    → (jobs : List BackgroundJob) → next_id (update_where p f jobs) ≡ next_id jobs
update-next_id p f same [] = refl
update-next_id p f same (j ∷ []) = ground (arith, same j)
update-next_id p f same (j ∷ k ∷ jobs) = update-next_id p f same (k ∷ jobs)

-- An UPDATE that never lowers the attempts keeps what was started.
pub update-Started :
    (id n : ℕ) (p : BackgroundJob → Bool) (f : BackgroundJob → BackgroundJob)
    (jobs : List BackgroundJob)
    → ((j : BackgroundJob) → (f j).id ≡ j.id)
    → ((j : BackgroundJob) → j.attempts ≤ (f j).attempts)
    → Started id n jobs
    → Started id n (update_where p f jobs)
update-Started id n p f jobs same grows s = record {
  known = omega (arith, update-next_id p f same jobs, s.known);
  starts =
      update_where-All (λ j. j.id ≡ id → n ≤ j.attempts) p f jobs
        (λ j _ _ low e. omega (arith, low (omega (arith, same j, e)), grows j)) s.starts;
}

pub grant-Started :
    (id n until : ℕ) (owner : Text) (jobs : List BackgroundJob) (pick : Option BackgroundJob)
    → Started id n jobs
    → Started id n (grant owner until jobs pick).1
unfolding grant
grant-Started id n until owner jobs none s = s
grant-Started id n until owner jobs (some b) s =
    update-Started id n (with_id b.id) (start owner until) jobs (λ j. refl) (λ j. omega arith) s

pub reclaim-Started :
    (id n now : ℕ) (jobs : List BackgroundJob) → Started id n jobs → Started id n (reclaim now jobs)
unfolding reclaim
reclaim-Started id n now jobs s =
    update-Started id n (is_expired now) release jobs (λ j. refl) (λ j. omega arith) s

pub next_id-append :
    (jobs : List BackgroundJob) (j : BackgroundJob) → next_id (jobs ++ j ∷ []) ≡ j.id + 1
next_id-append [] j = refl
next_id-append (i ∷ []) j = refl
next_id-append (i ∷ k ∷ jobs) j = next_id-append (k ∷ jobs) j

pub enqueue-Started :
    (id n : ℕ) (kind key : Text) (now max_attempts : ℕ) (jobs : List BackgroundJob)
    → Started id n jobs
    → Started id n (enqueue_job kind key now max_attempts jobs).1
unfolding enqueue_job
enqueue-Started id n kind key now max_attempts jobs s = added (any (with_key key) jobs)
  where
    added :
        (b : Bool)
        → Started id n (if b then jobs else jobs ++ new_job kind key now max_attempts jobs ∷ [])
    added true = s
    added false = record {
      known = omega (arith, next_id-append jobs (new_job kind key now max_attempts jobs), s.known);
      starts =
          All-append (λ j. j.id ≡ id → n ≤ j.attempts) jobs
            (new_job kind key now max_attempts jobs ∷ []) s.starts
            ((λ e. absurd (omega (arith, s.known, e))), tt);
    }

-- Every operation but a retry.
abbrev pub KeepsAttempts : Op → Type 0
KeepsAttempts (retries id now) = ⊥
KeepsAttempts _ = Unit

pub step-Started :
    (id n : ℕ) (jobs : List BackgroundJob) (op : Op)
    → KeepsAttempts op
    → Started id n jobs
    → Started id n (step jobs op)
unfolding step list_jobs lease_job checkpoint_job finish_job
step-Started id n jobs (enqueues kind key now max_attempts) k s =
    enqueue-Started id n kind key now max_attempts jobs s
step-Started id n jobs (leases kind owner now lease_ms) k s =
    grant-Started id n _ owner (reclaim now jobs) (next_job kind now (reclaim now jobs))
      (reclaim-Started id n now jobs s)
step-Started id n jobs (checkpoints job checkpoint now) k s =
    update-Started id n (is_held job now) _ jobs (λ j. refl) (λ j. omega arith) s
step-Started id n jobs (finishes job error now) k s =
    update-Started id n (is_held job now) _ jobs (λ j. refl) (λ j. omega arith) s
step-Started id n jobs (retries i now) k s = absurd k
step-Started id n jobs (lists limit now) k s = reclaim-Started id n now jobs s

pub run-Started :
    (id n : ℕ) (ops : List Op) (jobs : List BackgroundJob)
    → All KeepsAttempts ops
    → Started id n jobs
    → Started id n (run jobs ops)
unfolding run
run-Started id n [] jobs k s = s
run-Started id n (op ∷ ops) jobs k s =
    run-Started id n ops (step jobs op) k.1 (step-Started id n jobs op k.0 s)
