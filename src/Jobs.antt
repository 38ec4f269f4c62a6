-- ===== src/Jobs.antt =====
-- crates/polis-store/src/jobs.rs: durable, leased background work. The table is in id order, the
-- order of its primary key; times are milliseconds, as native numbers.
pub mod Rows
pub mod Exclusive
pub mod Fencing
pub mod Outcome
pub mod Queue
pub mod Tests
use mathlib.Core.List.{reverse}
use polis_memory.Prelude.{
  ℕ, suc, ◌+◌, ◌-◌, ◌*◌, ◌^◌, min, max, Bool, true, false, not, ◌&&◌, Option, none, some, List, [],
  ◌∷◌, ltb, leb, ◌==◌, if◌then◌else◌, any, find, is_some, map_some, ◌++◌, take,
}
use polis_memory.Prelude.Text.{Text, codes, text_eq}

pub data Status : Type 0 where
  pending running done failed : Status

pub record BackgroundJob : Type 0 where
  pub id : ℕ
  pub kind : Text
  pub job_key : Text
  pub status : Status
  pub attempts : ℕ
  pub max_attempts : ℕ
  pub available_at : ℕ
  pub lease_owner : Option Text
  pub lease_until : Option ℕ
  pub checkpoint : Option Text
  pub error : Option Text

-- i64::saturating_add on numbers from 0 up.
abbrev pub saturating_add : ℕ → ℕ → ℕ
saturating_add a b = min (a + b) (2 ^ 63 - 1)

abbrev pub clamp : ℕ → ℕ → ℕ → ℕ
clamp x lo hi = max lo (min x hi)

abbrev pub is_running : Status → Bool
is_running running = true
is_running _ = false

abbrev pub is_pending : Status → Bool
is_pending pending = true
is_pending _ = false

abbrev pub is_failed : Status → Bool
is_failed failed = true
is_failed _ = false

-- UPDATE … SET f WHERE p.
abbrev pub update_where :
    (BackgroundJob → Bool)
    → (BackgroundJob → BackgroundJob)
    → List BackgroundJob
    → List BackgroundJob
update_where p f [] = []
update_where p f (j ∷ jobs) = (if p j then f j else j) ∷ update_where p f jobs

-- `column = ?` and `column > ?` on a nullable column: NULL satisfies neither.
abbrev pub owned_by : Option Text → Option Text → Bool
owned_by (some a) (some b) = text_eq a b
owned_by (some a) none = false
owned_by none b = false

abbrev pub after : Option ℕ → ℕ → Bool
after none now = false
after (some t) now = ltb now t

-- A running job whose lease has ended: `lease_until <= now`.
abbrev pub is_expired : ℕ → BackgroundJob → Bool
is_expired now j = is_running j.status && is_some j.lease_until && not (after j.lease_until now)

abbrev pub release : BackgroundJob → BackgroundJob
release j = record j {
  status = if leb j.max_attempts j.attempts then failed else pending;
  lease_owner = none;
  lease_until = none;
  error = some (codes "lease expired");
}

-- The first statement of `lease_job` and of `list_jobs`.
unfoldable pub reclaim : ℕ → List BackgroundJob → List BackgroundJob
reclaim now jobs = update_where (is_expired now) release jobs

abbrev pub runs_kind : Text → BackgroundJob → Bool
runs_kind kind j = text_eq j.kind kind && is_running j.status

abbrev pub is_eligible : Text → ℕ → BackgroundJob → Bool
is_eligible kind now j =
    text_eq j.kind kind
    && is_pending j.status
    && leb j.available_at now
    && ltb j.attempts j.max_attempts

-- ORDER BY available_at, id LIMIT 1.
unfoldable pub first_by_time : (BackgroundJob → Bool) → List BackgroundJob → Option BackgroundJob
first_by_time p [] = none
first_by_time p (j ∷ jobs) =
    let rest = first_by_time p jobs in
    if p j
    then (elim rest [
      | none ↦ some j
      | some r ↦ if ltb r.available_at j.available_at then some r else some j
    ])
    else rest

unfoldable pub next_job : Text → ℕ → List BackgroundJob → Option BackgroundJob
next_job kind now jobs =
    if any (runs_kind kind) jobs then none else first_by_time (is_eligible kind now) jobs

abbrev pub start : Text → ℕ → BackgroundJob → BackgroundJob
start owner until j = record j {
  status = running;
  attempts = j.attempts + 1;
  lease_owner = some owner;
  lease_until = some until;
}

abbrev pub with_id : ℕ → BackgroundJob → Bool
with_id id j = j.id == id

unfoldable pub grant :
    Text → ℕ → List BackgroundJob → Option BackgroundJob → Option BackgroundJob × List BackgroundJob
grant owner until jobs none = (none, jobs)
grant owner until jobs (some j) =
    let jobs' = update_where (with_id j.id) (start owner until) jobs in
    (find (with_id j.id) jobs', jobs')

unfoldable pub lease_job :
    Text → Text → ℕ → ℕ → List BackgroundJob → Option BackgroundJob × List BackgroundJob
unfolding grant next_job
lease_job kind owner now lease_ms jobs =
    let jobs' = reclaim now jobs in
    grant owner (saturating_add now (clamp lease_ms 1 600_000)) jobs' (next_job kind now jobs')

-- The row that a worker's handle still owns at `now`.
abbrev pub is_held : BackgroundJob → ℕ → BackgroundJob → Bool
is_held job now j =
    j.id == job.id
    && owned_by j.lease_owner job.lease_owner
    && j.attempts == job.attempts
    && is_running j.status
    && after j.lease_until now

unfoldable pub checkpoint_job :
    BackgroundJob → Text → ℕ → List BackgroundJob → Bool × List BackgroundJob
checkpoint_job job checkpoint now jobs = (
  any (is_held job now) jobs,
  update_where (is_held job now) (λ j. record j { checkpoint = some checkpoint }) jobs,
)

abbrev pub finished_status : BackgroundJob → Option Text → Status
finished_status job none = done
finished_status job (some e) = if leb job.max_attempts job.attempts then failed else pending

unfoldable pub finish_job :
    BackgroundJob → Option Text → ℕ → List BackgroundJob → Bool × List BackgroundJob
finish_job job error now jobs = (
  any (is_held job now) jobs,
  update_where (is_held job now)
      (λ j. record j {
        status = finished_status job error;
        error = error;
        lease_owner = none;
        lease_until = none;
        available_at = saturating_add now (1000 * job.attempts);
      })
      jobs,
)

abbrev pub is_retried : ℕ → BackgroundJob → Bool
is_retried id j = j.id == id && is_failed j.status

unfoldable pub retry_job : ℕ → ℕ → List BackgroundJob → Bool × List BackgroundJob
retry_job id now jobs = (
  any (is_retried id) jobs,
  update_where (is_retried id)
      (λ j. record j { status = pending; attempts = 0; error = none; available_at = now }) jobs,
)

-- The id that SQLite assigns next.
abbrev pub next_id : List BackgroundJob → ℕ
next_id [] = 1
next_id (j ∷ []) = j.id + 1
next_id (j ∷ k ∷ jobs) = next_id (k ∷ jobs)

abbrev pub new_job : Text → Text → ℕ → ℕ → List BackgroundJob → BackgroundJob
new_job kind key now max_attempts jobs = record {
  id = next_id jobs;
  kind = kind;
  job_key = key;
  status = pending;
  attempts = 0;
  max_attempts = clamp max_attempts 1 20;
  available_at = now;
  lease_owner = none;
  lease_until = none;
  checkpoint = none;
  error = none;
}

abbrev pub with_key : Text → BackgroundJob → Bool
with_key key j = text_eq j.job_key key

-- INSERT OR IGNORE on the unique key, and the id of the key's row.
unfoldable pub enqueue_job :
    Text → Text → ℕ → ℕ → List BackgroundJob → Option ℕ × List BackgroundJob
enqueue_job kind key now max_attempts jobs =
    let jobs' =
      if any (with_key key) jobs
      then jobs
      else jobs ++ new_job kind key now max_attempts jobs ∷ [] in
    (map_some (λ j. j.id) (find (with_key key) jobs'), jobs')

-- The newest rows first, after taking expired leases back.
unfoldable pub list_jobs : ℕ → ℕ → List BackgroundJob → List BackgroundJob × List BackgroundJob
list_jobs limit now jobs =
    let jobs' = reclaim now jobs in (take (min limit 1000) (reverse jobs'), jobs')

pub data Op : Type 0 where
  enqueues : Text → Text → ℕ → ℕ → Op
  leases : Text → Text → ℕ → ℕ → Op
  checkpoints : BackgroundJob → Text → ℕ → Op
  finishes : BackgroundJob → Option Text → ℕ → Op
  retries : ℕ → ℕ → Op
  lists : ℕ → ℕ → Op

unfoldable pub step : List BackgroundJob → Op → List BackgroundJob
step jobs (enqueues kind key now max_attempts) = (enqueue_job kind key now max_attempts jobs).1
step jobs (leases kind owner now lease_ms) = (lease_job kind owner now lease_ms jobs).1
step jobs (checkpoints job checkpoint now) = (checkpoint_job job checkpoint now jobs).1
step jobs (finishes job error now) = (finish_job job error now jobs).1
step jobs (retries id now) = (retry_job id now jobs).1
step jobs (lists limit now) = (list_jobs limit now jobs).1

unfoldable pub run : List BackgroundJob → List Op → List BackgroundJob
run jobs [] = jobs
run jobs (op ∷ ops) = run (step jobs op) ops
