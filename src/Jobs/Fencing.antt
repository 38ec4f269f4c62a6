-- ===== src/Jobs/Fencing.antt =====
-- A worker whose lease was taken over can change nothing.
pub mod Starts
pub use Starts.{Started, KeepsAttempts}
use polis_memory.Jobs.Fencing.Starts.{
  update-next_id, update-Started, grant-Started, reclaim-Started, next_id-append, enqueue-Started,
  step-Started, run-Started,
}
use polis_memory.Prelude.{
  ℕ, ◌+◌, ◌≤◌, ◌<◌, ◌≡◌, refl, ◌≢◌, ap, sym, ◌∙◌, ==_iff, Bool, true, false, Option, none, some,
  List, [], ◌∷◌, ◌++◌, arith, ◌==◌, if◌then◌else◌, any, find, Bool-cases, All, All-append, inl, inr,
}
use polis_memory.Prelude.Text.{Text}
use polis_memory.Jobs.{
  BackgroundJob, update_where, with_id, is_expired, release, reclaim, next_job, is_eligible,
  runs_kind, saturating_add, clamp, start, grant, lease_job, is_held, checkpoint_job, finish_job,
  enqueue_job, new_job, next_id, list_jobs, with_key, Op, enqueues, leases, checkpoints, finishes,
  retries, lists, step, run,
}
use polis_memory.Jobs.Rows.{
  Ascends, In, row_by_id, Ascends-In, update_where-All, update_where_none, All-In,
}
use polis_memory.Jobs.Exclusive.{next_job-In}
use polis_memory.Jobs.Queue.{IsValid, next_id_gt, step-IsValid, run-IsValid, reclaim-IsValid}

start_found :
    (owner : Text) (until lo : ℕ) (c : BackgroundJob) (jobs : List BackgroundJob)
    → Ascends lo jobs
    → In c jobs
    → find (with_id c.id) (update_where (with_id c.id) (start owner until) jobs)
      ≡ some (start owner until c)
unfolding find
start_found owner until lo c [] a i = absurd i
start_found owner until lo c (j ∷ jobs) a (inl e) = ground (arith, e)
start_found owner until lo c (j ∷ jobs) a (inr i) =
    ground (arith, start_found owner until j.id c jobs a.1 i, Ascends-In j.id c jobs a.1 i)

find-In :
    (p : BackgroundJob → Bool) (jobs : List BackgroundJob) (b : BackgroundJob)
    → find p jobs ≡ some b
    → In b jobs
unfolding find
find-In p [] b e = cc
find-In p (j ∷ jobs) b e = ground (arith, find-In p jobs b)

-- What a successful lease hands out.
pub record Granted (kind owner : Text) (now until : ℕ) (jobs : List BackgroundJob)
    (b : BackgroundJob) (jobs' : List BackgroundJob) : Type 0 where
  pub picked : BackgroundJob
  pub waited : In picked jobs
  pub fits : is_eligible kind now picked ≡ true
  pub free : any (runs_kind kind) jobs ≡ false
  pub started : b ≡ start owner until picked
  pub stored : In b jobs'

grant-Granted :
    (kind owner : Text) (now until : ℕ) (jobs : List BackgroundJob) (pick : Option BackgroundJob)
    (b : BackgroundJob)
    → next_job kind now jobs ≡ pick
    → Ascends 0 jobs
    → (grant owner until jobs pick).0 ≡ some b
    → Granted kind owner now until jobs b (grant owner until jobs pick).1
unfolding grant
grant-Granted kind owner now until jobs none b e a q = absurd (none≢some q)
  where
    none≢some : none ≡ some b → ⊥
    none≢some q = cc
grant-Granted kind owner now until jobs (some c) b e a q =
    let (here, fits, free) = next_job-In kind now jobs c e in
    record {
      picked = c;
      waited = here;
      fits = fits;
      free = free;
      started = cc (start_found owner until 0 c jobs a here);
      stored = find-In (with_id c.id) _ b q;
    }

-- A successful lease starts a job of the kind that was pending, due and below its limit of
-- attempts, while no job of the kind ran; the job is stored as running, owned by the caller until
-- the lease ends, with one more attempt.
pub lease_job-Granted :
    (kind owner : Text) (now lease_ms : ℕ) (jobs : List BackgroundJob) (b : BackgroundJob)
    → IsValid jobs
    → (lease_job kind owner now lease_ms jobs).0 ≡ some b
    → Granted kind owner now
        (saturating_add now (clamp lease_ms 1 600_000))
        (reclaim now jobs)
        b
        (lease_job kind owner now lease_ms jobs).1
unfolding lease_job
lease_job-Granted kind owner now lease_ms jobs b v q =
    grant-Granted kind owner now _ (reclaim now jobs) (next_job kind now (reclaim now jobs)) b refl
      (reclaim-IsValid now jobs v).ascends q

attempts_by_id :
    (n : ℕ) (b : BackgroundJob) (lo : ℕ) (jobs : List BackgroundJob)
    → Ascends lo jobs
    → In b jobs
    → n ≤ b.attempts
    → All (λ j. j.id ≡ b.id → n ≤ j.attempts) jobs
attempts_by_id n b lo [] a i le = tt
attempts_by_id n b lo (j ∷ jobs) a (inl e) le =
    ((λ _. ground (arith, e)), above j.id jobs a.1 (ground (arith, e)))
  where
    above :
        (lo : ℕ) (rest : List BackgroundJob)
        → Ascends lo rest
        → b.id ≤ lo
        → All (λ k. k.id ≡ b.id → n ≤ k.attempts) rest
    above lo [] a le = tt
    above lo (k ∷ rest) a le =
        ((λ e. absurd (omega (arith, a.0, e))), above k.id rest a.1 (omega (arith, a.0)))
attempts_by_id n b lo (j ∷ jobs) a (inr i) le = (
  (λ e. absurd (omega (arith, Ascends-In j.id b jobs a.1 i, e))),
  attempts_by_id n b j.id jobs a.1 i le,
)

In-next_id :
    (b : BackgroundJob) (lo : ℕ) (jobs : List BackgroundJob)
    → Ascends lo jobs
    → In b jobs
    → b.id < next_id jobs
In-next_id b lo [] a i = absurd i
In-next_id b lo (j ∷ jobs) a (inl e) = ground (arith, next_id_gt j jobs a.1)
In-next_id b lo (j ∷ []) a (inr i) = absurd i
In-next_id b lo (j ∷ k ∷ jobs) a (inr i) = In-next_id b j.id (k ∷ jobs) a.1 i

any_none :
    (p : BackgroundJob → Bool) (jobs : List BackgroundJob)
    → ((j : BackgroundJob) → In j jobs → p j ≡ false)
    → any p jobs ≡ false
unfolding any
any_none p [] misses = refl
any_none p (j ∷ jobs) misses =
    rw (misses j (inl refl), any) (any_none p jobs (λ k i. misses k (inr i)))

-- Another number of attempts: the handle holds no row.
held_none :
    (a b : BackgroundJob) (now : ℕ) (jobs : List BackgroundJob)
    → Ascends 0 jobs
    → In b jobs
    → a.id ≡ b.id
    → a.attempts ≢ b.attempts
    → any (is_held a now) jobs ≡ false
held_none a b now jobs asc i e ne = any_none (is_held a now) jobs λ j k.
    elim (Bool-cases (j.id == a.id)) [
      | inl same ↦
          let q : j ≡ b = row_by_id 0 j b jobs asc k i ((==_iff j.id a.id).0 same ∙ e) in
          let m : (j.attempts == a.attempts) ≡ false =
            ground (arith, ap (λ (x : BackgroundJob). x.attempts) q) in
          rw (same, m) (ground arith)
      | inr other ↦ rw other
    ]

-- The attempts that a fresh lease has passed.
Granted-attempts :
    (a : BackgroundJob) (kind owner : Text) (now until : ℕ) (jobs jobs' : List BackgroundJob)
    (b : BackgroundJob)
    → Granted kind owner now until jobs b jobs'
    → Started a.id a.attempts jobs
    → b.id ≡ a.id
    → a.attempts < b.attempts
Granted-attempts a kind owner now until jobs jobs' b g s e =
    let low = All-In (λ j. j.id ≡ a.id → a.attempts ≤ j.attempts) jobs g.picked s.starts g.waited in
    let same_id : g.picked.id ≡ a.id = ap (λ (x : BackgroundJob). x.id) (sym g.started) ∙ e in
    ground (arith, low same_id, g.started)

-- A worker is fenced: once its job has been leased again, with any operations but a retry in
-- between, its handle checkpoints nothing and finishes nothing, and both calls say so.
pub stale_handle_is_fenced :
    (kind owner : Text) (t ms : ℕ) (jobs : List BackgroundJob) (a : BackgroundJob) (ops : List Op)
    (kind' owner' : Text) (t' ms' : ℕ) (b : BackgroundJob) (error : Option Text) (checkpoint : Text)
    (now : ℕ)
    → IsValid jobs
    → (lease_job kind owner t ms jobs).0 ≡ some a
    → All KeepsAttempts ops
    → (lease_job kind' owner' t' ms' (run (lease_job kind owner t ms jobs).1 ops)).0 ≡ some b
    → b.id ≡ a.id
    → let after = (lease_job kind' owner' t' ms' (run (lease_job kind owner t ms jobs).1 ops)).1 in
      (finish_job a error now after ≡ (false, after))
      × (checkpoint_job a checkpoint now after ≡ (false, after))
stale_handle_is_fenced kind owner t ms jobs a ops kind' owner' t' ms' b error checkpoint now v p k q
      e =
    fenced (held_none a b now _ later.ascends g.stored (sym e) (λ m. omega (arith, m, passed)))
  where
    first : IsValid (lease_job kind owner t ms jobs).1
    first = unfold step in step-IsValid jobs (leases kind owner t ms) v

    between : IsValid (run (lease_job kind owner t ms jobs).1 ops)
    between = run-IsValid ops _ first

    later : IsValid (lease_job kind' owner' t' ms' (run (lease_job kind owner t ms jobs).1 ops)).1
    later = unfold step in step-IsValid _ (leases kind' owner' t' ms') between

    h :
        Granted kind owner t
          (saturating_add t (clamp ms 1 600_000))
          (reclaim t jobs)
          a
          (lease_job kind owner t ms jobs).1
    h = lease_job-Granted kind owner t ms jobs a v p

    g :
        Granted kind' owner' t'
          (saturating_add t' (clamp ms' 1 600_000))
          (reclaim t' (run (lease_job kind owner t ms jobs).1 ops))
          b
          (lease_job kind' owner' t' ms' (run (lease_job kind owner t ms jobs).1 ops)).1
    g = lease_job-Granted kind' owner' t' ms' _ b between q

    began : Started a.id a.attempts (lease_job kind owner t ms jobs).1
    began = record {
      known = In-next_id a 0 _ first.ascends h.stored;
      starts = attempts_by_id a.attempts a 0 _ first.ascends h.stored (omega arith);
    }

    passed : a.attempts < b.attempts
    passed =
        Granted-attempts a kind' owner' t' _ _ _ b g
          (reclaim-Started a.id a.attempts t' _ (run-Started a.id a.attempts ops _ k began)) e

    fenced :
        {after : List BackgroundJob}
        → any (is_held a now) after ≡ false
        → (finish_job a error now after ≡ (false, after))
          × (checkpoint_job a checkpoint now after ≡ (false, after))
    fenced {after} gone =
        unfold finish_job checkpoint_job in
        (
          rw (gone, update_where_none (is_held a now) _ after gone),
          rw (gone, update_where_none (is_held a now) _ after gone),
        )
