-- ===== src/Jobs/Outcome.antt =====
-- What a live handle does to its row.
use polis_memory.Prelude.{
  ℕ, ◌≤◌, ◌<◌, ◌≡◌, refl, Bool, true, Option, none, some, List, [], ◌∷◌, arith, any, find, ◌++◌,
  Bool-cases, inl, inr, is_some,
}
use polis_memory.Prelude.Text.{Text, text_eq_refl}
use polis_memory.Jobs.{with_key, new_job, enqueue_job, BackgroundJob, Status, done, failed, pending}

-- How a report ends a job: by its error and the attempts that are left.
pub data Ends (job : BackgroundJob) (error : Option Text) : Status → Type 0 where
  no_error : error ≡ none → Ends job error done
  last_attempt :
      (e : Text) → error ≡ some e → job.max_attempts ≤ job.attempts → Ends job error failed
  another_attempt :
      (e : Text) → error ≡ some e → job.attempts < job.max_attempts → Ends job error pending

find-any :
    (p : BackgroundJob → Bool) (jobs : List BackgroundJob)
    → any p jobs ≡ true
    → (b : BackgroundJob) × (find p jobs ≡ some b)
unfolding any find
find-any p [] e = cc
find-any p (j ∷ jobs) e = elim (Bool-cases (p j)) [
  | inl hit ↦ (j, rw (hit, find))
  | inr miss ↦ let rest = find-any p jobs (ground (arith, miss)) in (rest.0, rw (miss, find) rest.1)
]

any-append :
    (p : BackgroundJob → Bool) (jobs : List BackgroundJob) (j : BackgroundJob)
    → p j ≡ true
    → any p (jobs ++ j ∷ []) ≡ true
unfolding any
any-append p [] j e = rw e
any-append p (i ∷ jobs) j e = ground (arith, any-append p jobs j e)

-- Enqueueing is idempotent in the key: the key then has a row, whose id the call returns, and a
-- second call with the key, whatever its other arguments, returns the same id and changes nothing.
pub enqueue_job_idempotent :
    (kind kind' key : Text) (now now' max_attempts max_attempts' : ℕ) (jobs : List BackgroundJob)
    → let first = enqueue_job kind key now max_attempts jobs in
      (is_some first.0 ≡ true) × (enqueue_job kind' key now' max_attempts' first.1 ≡ first)
unfolding enqueue_job
enqueue_job_idempotent kind kind' key now now' max_attempts max_attempts' jobs =
    elim (Bool-cases (any (with_key key) jobs)) [
      | inl old ↦
          let found = find-any (with_key key) jobs old in rw old (rw old (rw found.1 (refl, refl)))
      | inr new ↦
          let more = jobs ++ new_job kind key now max_attempts jobs ∷ [] in
          let now_there =
            any-append (with_key key) jobs (new_job kind key now max_attempts jobs)
              (text_eq_refl key) in
          let found = find-any (with_key key) more now_there in
          rw new (rw now_there (rw found.1 (refl, refl)))
    ]
