-- ===== src/Worker/Runner.antt =====
-- The job runner (app/worker/runner.py). Handlers write to the rest of the database, of type `W`,
-- and may enqueue jobs; a handler that raises is rolled back to its savepoint.
pub mod Retry
pub mod Settled
pub mod Outcomes
pub mod Keys
pub mod Claims
pub mod Batch
mod Tests
use Prim.Native.String.{String}
use cofoundaz_api.Prelude.{
  ℕ, ◌+◌, ◌-◌, ◌*◌, ◌^◌, min, Bool, true, false, Option, none, some, List, [], ◌∷◌, ◌++◌, map, ◌==◌,
  ◌&&◌, not, leb, ltb, if◌then◌else◌, first, count, where_all, update_where, any, take, length,
  order_by,
}
use cofoundaz_api.Worker.{
  Payload, enqueue, Job, JobStatus, queued, running, succeeded, failed, is_queued, is_running,
}

pub record WorkerSettings : Type 0 where
  pub worker_batch_size : ℕ
  pub worker_stale_seconds : ℕ
  pub worker_max_attempts : ℕ

-- `attempts` is at least 1 where this is called.
pub backoff_seconds : ℕ → ℕ
backoff_seconds attempts = let delay = 30 * 2 ^ (attempts - 1) in min delay 3600

-- `updated_at` has `onupdate=func.now()`: every update of a row sets it.
abbrev pub set_status : JobStatus → ℕ → Job → Job
set_status status now j = record j { status = status; updated_at = now }

-- `Job.updated_at < now - stale_seconds`, with the subtraction moved over.
abbrev pub is_stale : ℕ → ℕ → Job → Bool
is_stale stale_seconds now j = is_running j.status && ltb (j.updated_at + stale_seconds) now

pub reap_stale : ℕ → ℕ → List Job → ℕ × List Job
reap_stale stale_seconds now jobs = (
  count (is_stale stale_seconds now) jobs,
  update_where (is_stale stale_seconds now) (set_status queued now) jobs,
)

abbrev pub is_due : ℕ → Option ℕ → Bool
is_due now none = true
is_due now (some t) = leb t now

abbrev pub is_claimable : (ℕ → Bool) → ℕ → Job → Bool
is_claimable locked now j = is_queued j.status && (is_due now j.run_after && not (locked j.id))

abbrev pub claim : ℕ → Job → Job
claim now j = record j { status = running; attempts = j.attempts + 1; updated_at = now }

abbrev has_id : List ℕ → Job → Bool
has_id ids j = any (λ i. i == j.id) ids

-- The claimed jobs as they are after the claim, and the table. `locked` holds of the rows that
-- another transaction has locked, which `skip_locked` passes over.
pub claim_batch : (ℕ → Bool) → ℕ → ℕ → ℕ → List Job → List Job × List Job
unfolding reap_stale order_by
claim_batch locked batch stale_seconds now jobs =
    let (_, reaped) = reap_stale stale_seconds now jobs in
    let chosen =
      take batch
        (order_by (λ (j : Job). j.created_at) (where_all (is_claimable locked now) reaped)) in
    let ids = map (λ (j : Job). j.id) chosen in
    (map (claim now) chosen, update_where (has_id ids) (claim now) reaped)

abbrev update_job : ℕ → (Job → Job) → List Job → List Job
update_job id f jobs = update_where (λ j. j.id == id) f jobs

abbrev pub succeed : ℕ → Job → Job
succeed now j = record j { status = succeeded; error = none; updated_at = now }

pub finalize_success : Job → ℕ → List Job → List Job
finalize_success job now jobs = update_job job.id (succeed now) jobs

-- The row after a failed attempt: queued again after the backoff, or failed for good.
pub fail_attempt : ℕ → ℕ → ℕ → Job → Job
unfolding backoff_seconds
fail_attempt max_attempts exc now j =
    if ltb j.attempts max_attempts
    then record j {
      error = some exc;
      status = queued;
      run_after = some (now + backoff_seconds j.attempts);
      updated_at = now;
    }
    else record j { error = some exc; status = failed; updated_at = now }

pub finalize_failure : ℕ → Job → ℕ → ℕ → List Job → List Job
unfolding fail_attempt
finalize_failure max_attempts job exc now jobs =
    update_job job.id (fail_attempt max_attempts exc now) jobs

abbrev pub fail : ℕ → ℕ → Job → Job
fail exc now j = record j { error = some exc; status = failed; updated_at = now }

pub finalize_terminal_failure : Job → ℕ → ℕ → List Job → List Job
finalize_terminal_failure job exc now jobs = update_job job.id (fail exc now) jobs

-- A job that a handler hands to the dispatcher.
pub record NewJob : Type 0 where
  pub kind : String
  pub payload : Payload
  pub startup_id : Option ℕ
  pub id : ℕ

pub enqueue_all : ℕ → List NewJob → List Job → List Job
enqueue_all now [] jobs = jobs
enqueue_all now (n ∷ new) jobs =
    enqueue_all now new (enqueue n.kind n.payload n.startup_id n.id now jobs)

-- What a handler did: it wrote `W` and enqueued jobs, or it raised.
pub data Outcome (W : Type 0) : Type 0 where
  done : W → List NewJob → Outcome W
  raised : ℕ → Outcome W

-- `JOB_HANDLERS`; the number is the error text of a missing handler.
pub record Handlers (W : Type 0) : Type 0 where
  pub find : String → Option (Job → W → Outcome W)
  pub no_handler : String → ℕ

module _ {W : Type 0} (settings : WorkerSettings) (handlers : Handlers W) where
  -- The effect of a handler's outcome on the database, after the finalizing step.
  pub settle : Job → ℕ → Outcome W → W → List Job → W × List Job
  unfolding finalize_success finalize_failure enqueue_all
  settle job now (done w' new) w jobs = (w', finalize_success job now (enqueue_all now new jobs))
  settle job now (raised exc) w jobs =
      (w, finalize_failure settings.worker_max_attempts job exc now jobs)

  pub run_job : Job → ℕ → W → List Job → W × List Job
  unfolding settle finalize_terminal_failure
  run_job job now w jobs = elim (handlers.find job.kind) [
    | none ↦ (w, finalize_terminal_failure job (handlers.no_handler job.kind) now jobs)
    | some handler ↦ settle job now (handler job w) w jobs
  ]

  pub run_jobs : List Job → ℕ → W → List Job → W × List Job
  unfolding run_job
  run_jobs [] now w jobs = (w, jobs)
  run_jobs (job ∷ rest) now w jobs =
      let (w', jobs') = run_job job now w jobs in run_jobs rest now w' jobs'

  -- The number of jobs processed, and the database.
  pub run_once : (ℕ → Bool) → ℕ → W → List Job → ℕ × W × List Job
  unfolding claim_batch run_jobs
  run_once locked now w jobs =
      let (claimed, jobs') =
        claim_batch locked settings.worker_batch_size settings.worker_stale_seconds now jobs in
      let (w', jobs'') = run_jobs claimed now w jobs' in (length claimed, w', jobs'')
