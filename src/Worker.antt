-- ===== src/Worker.antt =====
-- The background worker: the job table (app/db/models/job.py), the dispatcher that fills it
-- (app/platform/jobs.py), the runner that drains it and the scheduler that plans recurring jobs.
pub mod Runner
pub mod Scheduler
use Prim.Native.String.{String}
use cofoundaz_api.Prelude.{ℕ, Bool, true, false, Option, none, some, List, [], ◌∷◌, ◌++◌}

pub data JobStatus : Type 0 where
  queued running succeeded failed cancelled : JobStatus

-- A JSON object whose values are ids.
abbrev pub Payload : Type 0
Payload = List (String × ℕ)

-- `kind` is the column `type`.
pub record Job : Type 0 where
  pub id : ℕ
  pub kind : String
  pub status : JobStatus
  pub startup_id : Option ℕ
  pub payload : Payload
  pub error : Option ℕ
  pub attempts : ℕ
  pub run_after : Option ℕ
  pub created_at : ℕ
  pub updated_at : ℕ

abbrev pub is_queued : JobStatus → Bool
is_queued JobStatus.queued = true
is_queued _ = false

abbrev pub is_running : JobStatus → Bool
is_running JobStatus.running = true
is_running _ = false

-- `JobDispatcher.enqueue`, with the id and the instant that the database gives the row.
unfoldable pub enqueue : String → Payload → Option ℕ → ℕ → ℕ → List Job → List Job
enqueue kind payload startup_id id now jobs =
    let job : Job = record {
      id = id;
      kind = kind;
      status = JobStatus.queued;
      startup_id = startup_id;
      payload = payload;
      error = none;
      attempts = 0;
      run_after = none;
      created_at = now;
      updated_at = now;
    } in
    jobs ++ job ∷ []
