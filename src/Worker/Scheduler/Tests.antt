-- ===== src/Worker/Scheduler/Tests.antt =====
-- One startup with an active member and a milestone that is overdue.
use cofoundaz_api.Prelude.{ℕ, ◌+◌, ◌≡◌, refl, true, some, none, [], ◌∷◌, arith, length}
use cofoundaz_api.Roadmap.{RoadmapStatus, Tables}
use cofoundaz_api.Worker.Scheduler.Rows.{SchedulerDb}
use cofoundaz_api.Worker.Scheduler.{SchedulerSettings, LocalTime, scheduler_tick}
use cofoundaz_api.Worker.Scheduler.Ledger.{HasUniqueRuns}
use cofoundaz_api.Worker.Scheduler.Tick.{scheduler_tick-exactly_once, scheduler_tick_again}

abbrev settings : SchedulerSettings
settings = record { mission_gen_hour = 6; quarterly_reassess_days = 90 }

abbrev morning : LocalTime
morning = record { hour = 8; date = 40; year = 2026; month = 5 }

abbrev night : LocalTime
night = record morning { hour = 3 }

abbrev roadmap : Tables
roadmap = record {
  roadmaps = record { id = 1; startup_id = 7 } ∷ [];
  phases = record { id = 2; roadmap_id = 1; order = 0 } ∷ [];
  milestones =
      record {
        id = 4;
        phase_id = 2;
        title = "beta";
        due_on = some 30;
        status = RoadmapStatus.todo;
        progress = 0;
        order = 0;
        last_replanned_at = none;
        last_replan_reason = none;
      }
      ∷ [];
  tasks = [];
  dependencies = [];
}

abbrev db : SchedulerDb
db = record {
  startups = record { id = 7; deleted_at = none } ∷ [];
  memberships = record { startup_id = 7; is_active = true } ∷ [];
  roadmap = roadmap;
  assessments = [];
  runs = [];
  jobs = [];
}

abbrev fresh_id : ℕ → ℕ
fresh_id n = 100 + n

the_ticks :
    ((scheduler_tick settings fresh_id 5000 morning db).0 ≡ 2)
    × ((scheduler_tick settings fresh_id 5000 night db).0 ≡ 1)
unfolding scheduler_tick
the_ticks = (refl, refl)

db-HasUniqueRuns : HasUniqueRuns db.runs
db-HasUniqueRuns k = omega arith

scheduler_tick-exactly_once_example :
    let (n, db') = scheduler_tick settings fresh_id 5000 morning db in
    (length db'.jobs ≡ 0 + n) × (length db'.runs ≡ 0 + n) × HasUniqueRuns db'.runs
scheduler_tick-exactly_once_example =
    scheduler_tick-exactly_once settings fresh_id 5000 morning db db-HasUniqueRuns

scheduler_tick_again_example :
    let (_, db') = scheduler_tick settings fresh_id 5000 morning db in
    scheduler_tick settings fresh_id 5000 morning db' ≡ (0, db')
scheduler_tick_again_example = scheduler_tick_again settings fresh_id fresh_id 5000 morning db
