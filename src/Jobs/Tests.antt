-- ===== src/Jobs/Tests.antt =====
-- The job table on small inputs: two workers and one job.
use polis_memory.Prelude.{◌≡◌, refl, false, none, some, List, [], ◌∷◌, arith, any, find}
use polis_memory.Prelude.Text.{codes, text_eq}
use polis_memory.Jobs.{
  pending, list_jobs, BackgroundJob, running, enqueue_job, lease_job, checkpoint_job, finish_job,
  run, step, enqueues, leases, lists, reclaim, first_by_time,
}
use polis_memory.Jobs.Queue.{IsValid, run-IsValid}
use polis_memory.Jobs.Fencing.{stale_handle_is_fenced}

abbrev empty : List BackgroundJob
empty = []

empty-IsValid : IsValid empty
empty-IsValid = record { ascends = tt; exclusive = λ k. omega arith; sound = tt }

abbrev queued : BackgroundJob
queued = record {
  id = 1;
  kind = codes "index";
  job_key = codes "index:0:40";
  status = pending;
  attempts = 0;
  max_attempts = 2;
  available_at = 100;
  lease_owner = none;
  lease_until = none;
  checkpoint = none;
  error = none;
}

abbrev held_by_a : BackgroundJob
held_by_a = record queued {
  status = running;
  attempts = 1;
  lease_owner = some (codes "a");
  lease_until = some 120;
}

-- Taken back from `a` at 121.
abbrev held_by_b : BackgroundJob
held_by_b = record queued {
  status = running;
  attempts = 2;
  lease_owner = some (codes "b");
  lease_until = some 141;
  error = some (codes "lease expired");
}

abbrev table : List BackgroundJob
table = queued ∷ []

enqueue_runs : enqueue_job (codes "index") (codes "index:0:40") 100 2 empty ≡ (some 1, table)
unfolding enqueue_job any find text_eq
enqueue_runs = refl

-- The same key again: the same id, and no new row.
enqueue_again : enqueue_job (codes "index") (codes "index:0:40") 500 9 table ≡ (some 1, table)
unfolding enqueue_job any find text_eq
enqueue_again = refl

first_lease : (lease_job (codes "index") (codes "a") 100 20 table).0 ≡ some held_by_a
unfolding lease_job reclaim first_by_time any find text_eq
first_lease = refl

busy_kind : (lease_job (codes "index") (codes "b") 101 20 (held_by_a ∷ [])).0 ≡ none
unfolding lease_job reclaim first_by_time any find text_eq
busy_kind = refl

second_lease :
    (lease_job
      (codes "index")
      (codes "b")
      121
      20
      (run (lease_job (codes "index") (codes "a") 100 20 table).1 (lists 10 110 ∷ []))).0
    ≡ some held_by_b
unfolding lease_job reclaim first_by_time any find text_eq run step list_jobs
second_lease = refl

table-IsValid : IsValid table
table-IsValid = record {
  ascends = (omega arith, tt);
  exclusive = λ k. ground arith;
  sound = (record { bounded = omega arith; owned = refl; leased = refl }, tt);
}

run-IsValid_example : IsValid (
    run empty
      (enqueues (codes "index") (codes "k") 100 2 ∷ leases (codes "index") (codes "a") 100 20 ∷ []))
run-IsValid_example =
    run-IsValid
      (enqueues (codes "index") (codes "k") 100 2 ∷ leases (codes "index") (codes "a") 100 20 ∷ [])
      empty empty-IsValid

stale_handle_is_fenced_example :
    let after =
      (lease_job
        (codes "index")
        (codes "b")
        121
        20
        (run (lease_job (codes "index") (codes "a") 100 20 table).1 (lists 10 110 ∷ []))).1 in
    (finish_job held_by_a none 122 after ≡ (false, after))
    × (checkpoint_job held_by_a (codes "20") 122 after ≡ (false, after))
stale_handle_is_fenced_example =
    stale_handle_is_fenced (codes "index") (codes "a") 100 20 table held_by_a (lists 10 110 ∷ [])
      (codes "index") (codes "b") 121 20 held_by_b none (codes "20") 122 table-IsValid first_lease
      (tt, tt) second_lease refl
