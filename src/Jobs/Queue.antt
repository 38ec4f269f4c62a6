-- ===== src/Jobs/Queue.antt =====
-- The invariant of the job table: ids rise, at most one job of a kind runs, no job is started more
-- often than allowed, and a lease is held exactly while a job runs.
use polis_memory.Prelude.{
  ℕ, ◌*◌, ◌≤◌, ◌<◌, ◌≡◌, refl, Bool, true, false, Option, none, some, List, [], ◌∷◌, ◌++◌, arith,
  if◌then◌else◌, any, All, All-append, is_some,
}
use polis_memory.Prelude.Text.{Text}
use polis_memory.Jobs.{
  BackgroundJob, with_id, is_running, is_expired, release, reclaim, next_job, is_eligible,
  saturating_add, start, grant, lease_job, is_held, checkpoint_job, finish_job, finished_status,
  retry_job, is_retried, enqueue_job, new_job, next_id, list_jobs, with_key, Op, enqueues, leases,
  checkpoints, finishes, retries, lists, step, run,
}
use polis_memory.Jobs.Rows.{Ascends, row_by_id, update_where-Ascends, update_where-All}
use polis_memory.Jobs.Exclusive.{
  IsExclusive, next_job-In, reclaim-Ascends, reclaim-IsExclusive, lease_job-IsExclusive,
  checkpoint_job-IsExclusive, finish_job-IsExclusive, retry_job-IsExclusive, append_count,
}

pub record IsSound (j : BackgroundJob) : Type 0 where
  pub bounded : j.attempts ≤ j.max_attempts
  pub owned : is_some j.lease_owner ≡ is_running j.status
  pub leased : is_some j.lease_until ≡ is_running j.status

pub record IsValid (jobs : List BackgroundJob) : Type 0 where
  pub ascends : Ascends 0 jobs
  pub exclusive : IsExclusive jobs
  pub sound : All IsSound jobs

pub reclaim-IsValid :
    (now : ℕ) (jobs : List BackgroundJob) → IsValid jobs → IsValid (reclaim now jobs)
unfolding reclaim
reclaim-IsValid now jobs v = record {
  ascends = reclaim-Ascends 0 now jobs v.ascends;
  exclusive = reclaim-IsExclusive now jobs v.exclusive;
  sound =
      update_where-All IsSound (is_expired now) release jobs (λ j _ _ s. ground (arith, s.bounded))
        v.sound;
}

grant-IsSound :
    (kind owner : Text) (now until : ℕ) (jobs : List BackgroundJob) (pick : Option BackgroundJob)
    → next_job kind now jobs ≡ pick
    → IsValid jobs
    → Ascends 0 (grant owner until jobs pick).1 × All IsSound (grant owner until jobs pick).1
unfolding grant
grant-IsSound kind owner now until jobs none e v = (v.ascends, v.sound)
grant-IsSound kind owner now until jobs (some b) e v =
    let (here, fits, free) = next_job-In kind now jobs b e in
    (
      update_where-Ascends (with_id b.id) (start owner until) (λ j. refl) 0 jobs v.ascends,
      update_where-All IsSound (with_id b.id) (start owner until) jobs
          (λ j i hit s. starts j b (row_by_id 0 j b jobs v.ascends i here (ground arith)) fits)
          v.sound,
    )
  where
    starts :
        (j b : BackgroundJob)
        → j ≡ b
        → is_eligible kind now b ≡ true
        → IsSound (start owner until j)
    starts j b e fits = record { bounded = ground (arith, e); owned = refl; leased = refl }

lease_job-IsValid :
    (kind owner : Text) (now lease_ms : ℕ) (jobs : List BackgroundJob)
    → IsValid jobs
    → IsValid (lease_job kind owner now lease_ms jobs).1
unfolding lease_job
lease_job-IsValid kind owner now lease_ms jobs v =
    let v' = reclaim-IsValid now jobs v in
    let parts =
      grant-IsSound kind owner now _ (reclaim now jobs) (next_job kind now (reclaim now jobs)) refl
        v' in
    record {
      ascends = parts.0;
      exclusive = lease_job-IsExclusive kind owner now lease_ms 0 jobs v.ascends v.exclusive;
      sound = parts.1;
    }

finish_job-IsValid :
    (job : BackgroundJob) (error : Option Text) (now : ℕ) (jobs : List BackgroundJob)
    → IsValid jobs
    → IsValid (finish_job job error now jobs).1
unfolding finish_job
finish_job-IsValid job error now jobs v = record {
  ascends = update_where-Ascends (is_held job now) _ (λ j. refl) 0 jobs v.ascends;
  exclusive = unfold finish_job in finish_job-IsExclusive job error now jobs v.exclusive;
  sound = update_where-All IsSound (is_held job now) _ jobs (λ j _ _ s. ends error j s) v.sound;
}
  where
    ends :
        (e : Option Text) (j : BackgroundJob)
        → IsSound j
        → IsSound (record j {
          status = finished_status job e;
          error = error;
          lease_owner = none;
          lease_until = none;
          available_at = saturating_add now (1000 * job.attempts);
        })
    ends none j s = ground (arith, s.bounded)
    ends (some e) j s = ground (arith, s.bounded)

pub next_id_gt :
    (i : BackgroundJob) (jobs : List BackgroundJob) → Ascends i.id jobs → i.id < next_id (i ∷ jobs)
next_id_gt i [] a = omega arith
next_id_gt i (k ∷ jobs) a = omega (arith, next_id_gt k jobs a.1, a.0)

next_id_after :
    (lo : ℕ) (k : BackgroundJob) (jobs : List BackgroundJob)
    → Ascends lo (k ∷ jobs)
    → lo < next_id (k ∷ jobs)
next_id_after lo k jobs a = omega (arith, next_id_gt k jobs a.1, a.0)

Ascends-next :
    (lo : ℕ) (jobs : List BackgroundJob) (j : BackgroundJob)
    → Ascends lo jobs
    → lo < next_id jobs
    → j.id ≡ next_id jobs
    → Ascends lo (jobs ++ j ∷ [])
Ascends-next lo [] j a l e = (omega arith, tt)
Ascends-next lo (i ∷ []) j a l e = (a.0, (omega arith, tt))
Ascends-next lo (i ∷ k ∷ jobs) j a l e =
    (a.0, Ascends-next i.id (k ∷ jobs) j a.1 (next_id_after i.id k jobs a.1) e)

first_id : (jobs : List BackgroundJob) → Ascends 0 jobs → 0 < next_id jobs
first_id [] a = omega arith
first_id (j ∷ jobs) a = omega (arith, next_id_gt j jobs a.1)

enqueue_job-IsValid :
    (kind key : Text) (now max_attempts : ℕ) (jobs : List BackgroundJob)
    → IsValid jobs
    → IsValid (enqueue_job kind key now max_attempts jobs).1
unfolding enqueue_job
enqueue_job-IsValid kind key now max_attempts jobs v = added (any (with_key key) jobs)
  where
    added :
        (b : Bool)
        → IsValid (if b then jobs else jobs ++ new_job kind key now max_attempts jobs ∷ [])
    added true = v
    added false = record {
      ascends =
          Ascends-next 0 jobs (new_job kind key now max_attempts jobs) v.ascends
            (first_id jobs v.ascends) refl;
      exclusive = λ k.
          omega (
            arith,
            v.exclusive k,
            append_count k jobs (new_job kind key now max_attempts jobs) refl,
          );
      sound =
          All-append IsSound jobs (new_job kind key now max_attempts jobs ∷ []) v.sound (fresh, tt);
    }
      where
        fresh : IsSound (new_job kind key now max_attempts jobs)
        fresh = record { bounded = omega arith; owned = refl; leased = refl }

-- Every operation keeps the table valid: ids rise, one job of a kind runs at most, attempts stay
-- within their limit, and a lease is held exactly while a job runs.
pub step-IsValid : (jobs : List BackgroundJob) (op : Op) → IsValid jobs → IsValid (step jobs op)
unfolding step list_jobs
step-IsValid jobs (enqueues kind key now max_attempts) v =
    enqueue_job-IsValid kind key now max_attempts jobs v
step-IsValid jobs (leases kind owner now lease_ms) v =
    lease_job-IsValid kind owner now lease_ms jobs v
step-IsValid jobs (checkpoints job checkpoint now) v = record {
  ascends =
      unfold checkpoint_job in
      update_where-Ascends (is_held job now) _ (λ j. refl) 0 jobs v.ascends;
  exclusive = checkpoint_job-IsExclusive job checkpoint now jobs v.exclusive;
  sound =
      unfold checkpoint_job in
      update_where-All IsSound (is_held job now) _ jobs (λ j _ _ s. ground (arith, s.bounded))
        v.sound;
}
step-IsValid jobs (finishes job error now) v = finish_job-IsValid job error now jobs v
step-IsValid jobs (retries id now) v = record {
  ascends = unfold retry_job in update_where-Ascends (is_retried id) _ (λ j. refl) 0 jobs v.ascends;
  exclusive = retry_job-IsExclusive id now jobs v.exclusive;
  sound =
      unfold retry_job in
      update_where-All IsSound (is_retried id) _ jobs
        (λ j _ hit s. ground (arith, s.owned, s.leased)) v.sound;
}
step-IsValid jobs (lists limit now) v = reclaim-IsValid now jobs v

-- After any operations on a new table the table is valid.
pub run-IsValid :
    (ops : List Op) (jobs : List BackgroundJob) → IsValid jobs → IsValid (run jobs ops)
unfolding run
run-IsValid [] jobs v = v
run-IsValid (op ∷ ops) jobs v = run-IsValid ops (step jobs op) (step-IsValid jobs op v)
