-- ===== src/Worker/Scheduler.antt =====
-- The scheduler of recurring jobs (app/worker/scheduler.py) over the ledger of the runs that were
-- claimed (app/db/models/scheduled_run.py). Keys that the source spells as texts (an id, a date, a
-- quarter) are kept as their parts. A claim is a savepoint around an insert: it fails exactly if the
-- unique key is there. Another exception in one item, which the loop logs and passes over, is left out.
pub mod Rows
pub mod Ledger
pub mod Tick
mod Tests
use cofoundaz_api.Worker.Scheduler.Rows.{
  TaskKey, mission_generate, roadmap_overdue, assessment_quarterly, PeriodKey, day, once, quarter,
  same_task, same_period, ScheduledRun, same_run, Due, Startup, Membership, AssessmentStatus,
  in_progress, completed, abandoned, Assessment, SchedulerDb,
}
use Prim.Native.String.{String}
use cofoundaz_api.Prelude.{
  ℕ, ◌+◌, ◌-◌, ◌*◌, ◌/◌, max, Bool, true, false, Option, none, some, List, [], ◌∷◌, ◌++◌, map, ◌==◌,
  ◌&&◌, not, leb, ltb, is_none, if◌then◌else◌, first, any, where_all, length,
}
use cofoundaz_api.Roadmap.{Roadmap, RoadmapPhase, RoadmapMilestone, Tables, is_done}
use cofoundaz_api.Worker.{Job, Payload, enqueue}

-- `_local(now)`: the parts of the local time that are read.
pub record LocalTime : Type 0 where
  pub hour : ℕ
  pub date : ℕ
  pub year : ℕ
  pub month : ℕ

pub record SchedulerSettings : Type 0 where
  pub mission_gen_hour : ℕ
  pub quarterly_reassess_days : ℕ

-- Whether the ledger has the key.
abbrev pub is_claimed : List ScheduledRun → ScheduledRun → Bool
is_claimed runs key = any (λ r. same_run r key) runs

-- `_claim`: true if newly claimed.
pub claim : ScheduledRun → List ScheduledRun → Bool × List ScheduledRun
claim key runs = if is_claimed runs key then (false, runs) else (true, runs ++ key ∷ [])

pub quarter_key : LocalTime → PeriodKey
quarter_key d = quarter d.year ((d.month - 1) / 3 + 1)

-- Startups that are not deleted and have an active member.
abbrev pub is_active_startup : SchedulerDb → Startup → Bool
is_active_startup db s =
    is_none s.deleted_at && any (λ m. (m.startup_id == s.id) && m.is_active) db.memberships

abbrev pub mission_run : LocalTime → Startup → ScheduledRun
mission_run local s = record {
  task_key = mission_generate;
  scope_key = s.id;
  period_key = day local.date;
}

pub due_missions : SchedulerSettings → LocalTime → SchedulerDb → List Due
due_missions settings local db =
    let due =
      map
        (λ (s : Startup). record {
          run = mission_run local s;
          job_type = "scheduled.mission.generate";
          startup_id = s.id;
          payload = ("startup_id", s.id) ∷ [];
        })
        (where_all (λ s. is_active_startup db s && not (is_claimed db.runs (mission_run local s)))
          db.startups) in
    if ltb local.hour settings.mission_gen_hour then [] else due

-- The startup that a milestone's joins lead to.
abbrev startup_of : SchedulerDb → RoadmapMilestone → Option Startup
startup_of db m = elim (first (λ (p : RoadmapPhase). p.id == m.phase_id) db.roadmap.phases) [
  | none ↦ none
  | some p ↦ elim (first (λ (r : Roadmap). r.id == p.roadmap_id) db.roadmap.roadmaps) [
    | none ↦ none
    | some r ↦ first (λ (s : Startup). s.id == r.startup_id) db.startups
  ]
]

abbrev is_late : ℕ → RoadmapMilestone → Bool
is_late today m = elim m.due_on [ none ↦ false | some d ↦ ltb d today && not (is_done m.status) ]

abbrev has_open_startup : SchedulerDb → RoadmapMilestone → Bool
has_open_startup db m = elim (startup_of db m) [ none ↦ false | some s ↦ is_none s.deleted_at ]

abbrev pub is_overdue_milestone : SchedulerDb → ℕ → RoadmapMilestone → Bool
is_overdue_milestone db today m = is_late today m && has_open_startup db m

abbrev pub overdue_run : RoadmapMilestone → ScheduledRun
overdue_run m = record { task_key = roadmap_overdue; scope_key = m.id; period_key = once }

-- The owner's id; only read where `startup_of` finds one.
abbrev startup_id_of : SchedulerDb → RoadmapMilestone → ℕ
startup_id_of db m = elim (startup_of db m) [ none ↦ 0 | some s ↦ s.id ]

pub due_overdue_milestones : LocalTime → SchedulerDb → List Due
due_overdue_milestones local db =
    map
      (λ (m : RoadmapMilestone). record {
        run = overdue_run m;
        job_type = "scheduled.roadmap.overdue";
        startup_id = startup_id_of db m;
        payload = ("startup_id", startup_id_of db m) ∷ ("milestone_id", m.id) ∷ [];
      })
      (where_all
        (λ m. is_overdue_milestone db local.date m && not (is_claimed db.runs (overdue_run m)))
        db.roadmap.milestones)

-- `max` of an aggregate, which passes over NULL.
abbrev latest : Option ℕ → Option ℕ → Option ℕ
latest none b = b
latest (some a) none = some a
latest (some a) (some b) = some (max a b)

abbrev last_completed : ℕ → List Assessment → Option ℕ
last_completed startup_id [] = none
last_completed startup_id (a ∷ rows) =
    latest
      (if a.startup_id == startup_id
        then elim a.status [ in_progress ↦ none | completed ↦ a.completed_at | abandoned ↦ none ]
        else none)
      (last_completed startup_id rows)

abbrev is_open : Assessment → Bool
is_open a = elim a.status [ in_progress ↦ true | completed ↦ false | abandoned ↦ false ]

-- The last completed assessment is old enough (`last <= now - days`), the startup is not deleted,
-- and no assessment of it is in progress.
abbrev pub needs_reassessment : SchedulerSettings → ℕ → SchedulerDb → Startup → Bool
needs_reassessment settings now db s =
    elim (last_completed s.id db.assessments) [
      | none ↦ false
      | some t ↦ leb (t + settings.quarterly_reassess_days * 86400) now
    ]
    && (is_none s.deleted_at && not (any (λ a. (a.startup_id == s.id) && is_open a) db.assessments))

abbrev pub quarterly_run : LocalTime → Startup → ScheduledRun
quarterly_run local s = record {
  task_key = assessment_quarterly;
  scope_key = s.id;
  period_key = quarter_key local;
}

pub due_quarterly : SchedulerSettings → ℕ → LocalTime → SchedulerDb → List Due
unfolding quarter_key
due_quarterly settings now local db =
    map
      (λ (s : Startup). record {
        run = quarterly_run local s;
        job_type = "scheduled.assessment.quarterly";
        startup_id = s.id;
        payload = ("startup_id", s.id) ∷ [];
      })
      (where_all
        (λ s.
          needs_reassessment settings now db s && not (is_claimed db.runs (quarterly_run local s)))
        db.startups)

-- The loop of `scheduler_tick`: the count enqueued, and the database. `new_id` gives each job an id.
pub run_due : (ℕ → ℕ) → ℕ → List Due → ℕ → SchedulerDb → ℕ × SchedulerDb
unfolding claim enqueue
run_due new_id now [] enqueued db = (enqueued, db)
run_due new_id now (item ∷ due) enqueued db =
    let (fresh, runs) = claim item.run db.runs in
    let jobs =
      enqueue item.job_type item.payload (some item.startup_id) (new_id enqueued) now db.jobs in
    run_due new_id now due (if fresh then enqueued + 1 else enqueued)
      (if fresh then record db { runs = runs; jobs = jobs } else db)

pub all_due : SchedulerSettings → ℕ → LocalTime → SchedulerDb → List Due
unfolding due_missions due_overdue_milestones due_quarterly
all_due settings now local db =
    due_missions settings local db
    ++ (due_overdue_milestones local db ++ due_quarterly settings now local db)

pub scheduler_tick : SchedulerSettings → (ℕ → ℕ) → ℕ → LocalTime → SchedulerDb → ℕ × SchedulerDb
unfolding all_due run_due
scheduler_tick settings new_id now local db =
    run_due new_id now (all_due settings now local db) 0 db
