-- ===== src/Worker/Scheduler/Rows.antt =====
-- The ledger of the scheduler's runs (app/db/models/scheduled_run.py), what is due, and the columns
-- of other tables that the scheduler reads.
use Prim.Native.String.{String}
use cofoundaz_api.Prelude.{ℕ, Bool, true, false, Option, List, ◌==◌, ◌&&◌}
use cofoundaz_api.Roadmap.{Tables}
use cofoundaz_api.Worker.{Job, Payload}

pub data TaskKey : Type 0 where
  mission_generate roadmap_overdue assessment_quarterly : TaskKey

pub data PeriodKey : Type 0 where
  day : ℕ → PeriodKey
  once : PeriodKey
  quarter : ℕ → ℕ → PeriodKey

abbrev pub same_task : TaskKey → TaskKey → Bool
same_task mission_generate mission_generate = true
same_task roadmap_overdue roadmap_overdue = true
same_task assessment_quarterly assessment_quarterly = true
same_task _ _ = false

abbrev pub same_period : PeriodKey → PeriodKey → Bool
same_period (day a) (day b) = a == b
same_period once once = true
same_period (quarter a q) (quarter b r) = (a == b) && (q == r)
same_period _ _ = false

pub record ScheduledRun : Type 0 where
  pub task_key : TaskKey
  pub scope_key : ℕ
  pub period_key : PeriodKey

abbrev pub same_run : ScheduledRun → ScheduledRun → Bool
same_run a b =
    same_task a.task_key b.task_key
    && ((a.scope_key == b.scope_key) && same_period a.period_key b.period_key)

pub record Due : Type 0 where
  pub run : ScheduledRun
  pub job_type : String
  pub startup_id : ℕ
  pub payload : Payload

pub record Startup : Type 0 where
  pub id : ℕ
  pub deleted_at : Option ℕ

pub record Membership : Type 0 where
  pub startup_id : ℕ
  pub is_active : Bool

pub data AssessmentStatus : Type 0 where
  in_progress completed abandoned : AssessmentStatus

pub record Assessment : Type 0 where
  pub startup_id : ℕ
  pub status : AssessmentStatus
  pub completed_at : Option ℕ

pub record SchedulerDb : Type 0 where
  pub startups : List Startup
  pub memberships : List Membership
  pub roadmap : Tables
  pub assessments : List Assessment
  pub runs : List ScheduledRun
  pub jobs : List Job
