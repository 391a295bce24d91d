-- ===== src/Mission/Tests.antt =====
-- A startup with a roadmap of three open tasks, and yesterday's mission.
use cofoundaz_api.Prelude.{
  ◌⊎◌, false, ℕ, ◌+◌, ◌≤◌, ◌≡◌, refl, true, some, none, [], ◌∷◌, count, ◌==◌,
}
use cofoundaz_api.Roadmap.{find_roadmap, RoadmapStatus, RoadmapTask, TaskEffort, Tables}
use cofoundaz_api.Mission.{Mission, MissionStatus, MissionTask, MissionTaskStatus, MissionDb}
use cofoundaz_api.Mission.Streak.{is_complete_on, streak}
use cofoundaz_api.Mission.Streak.Run.{IsRun, streak-IsRun}
use cofoundaz_api.Mission.Today.{get_or_generate_today, new_mission}
use cofoundaz_api.Mission.Today.Once.{get_or_generate_today_again}
use cofoundaz_api.Mission.Today.Size.{get_or_generate_today_size}
use cofoundaz_api.Mission.Tasks.{complete_task, reject_task}

abbrev plan_task : ℕ → RoadmapTask
plan_task n = record {
  id = n;
  milestone_id = 4;
  title = "task";
  effort = TaskEffort.small;
  status = RoadmapStatus.todo;
  order = n;
}

abbrev roadmap : Tables
roadmap = record {
  roadmaps = record { id = 1; startup_id = 7 } ∷ [];
  phases = record { id = 2; roadmap_id = 1; order = 0 } ∷ [];
  milestones =
      record {
        id = 4;
        phase_id = 2;
        title = "beta";
        due_on = none;
        status = RoadmapStatus.todo;
        progress = 0;
        order = 0;
        last_replanned_at = none;
        last_replan_reason = none;
      }
      ∷ [];
  tasks = plan_task 10 ∷ plan_task 11 ∷ plan_task 12 ∷ [];
  dependencies = [];
}

abbrev mission : ℕ → ℕ → MissionStatus → Mission
mission id date status = record {
  id = id;
  startup_id = 7;
  mission_date = date;
  generated_by = "system";
  status = status;
}

abbrev task : ℕ → MissionTaskStatus → MissionTask
task id status = record {
  id = id;
  mission_id = 50;
  roadmap_task_id = some 11;
  title = "task";
  reason = none;
  effort = TaskEffort.small;
  order = id;
  status = status;
  completed_at = none;
  reject_reason = none;
}

-- Yesterday, the day 99, one task was done and one snoozed.
abbrev yesterday : MissionDb
yesterday = record {
  startups = 7 ∷ [];
  missions = mission 49 98 MissionStatus.complete ∷ mission 50 99 MissionStatus.pending ∷ [];
  tasks = task 60 MissionTaskStatus.done ∷ task 61 MissionTaskStatus.snoozed ∷ [];
  settings = record { startup_id = 7; mission_size = 2; weekend_missions = true } ∷ [];
  roadmap = roadmap;
  published = [];
  jobs = [];
}

abbrev fresh_id : ℕ → ℕ
fresh_id n = 70 + n

abbrev finished : MissionDb
finished = complete_task (task 61 MissionTaskStatus.snoozed) 99 5000 yesterday

abbrev today : MissionDb
today = (get_or_generate_today 7 100 51 fresh_id 90 6000 yesterday).1

the_streaks : (streak yesterday 7 99 ≡ 1) × (streak finished 7 99 ≡ 2) × (streak finished 7 101 ≡ 0)
unfolding streak complete_task
the_streaks = (refl, refl, refl)

-- The snoozed task is carried over, and not repeated as a candidate.
todays_tasks : count (λ t. t.mission_id == 51) today.tasks ≡ 2
unfolding get_or_generate_today find_roadmap
todays_tasks = refl

all_rejected :
    (reject_task
      (task 61 MissionTaskStatus.snoozed)
      "Already done"
      99
      (record yesterday { tasks = task 61 MissionTaskStatus.snoozed ∷ [] })).missions
    ≡ yesterday.missions
unfolding reject_task
all_rejected = refl

streak-IsRun_example :
    ((is_complete_on finished 7 100 ≡ true)
      × IsRun (is_complete_on finished 7) 100 (streak finished 7 100))
    ⊎ ((is_complete_on finished 7 100 ≡ false)
        × IsRun (is_complete_on finished 7) 99 (streak finished 7 100))
streak-IsRun_example = streak-IsRun finished 7 100

get_or_generate_today_again_example :
    get_or_generate_today 7 100 52 fresh_id 91 7000 today ≡ (some (new_mission 51 7 100), today)
unfolding get_or_generate_today find_roadmap
get_or_generate_today_again_example =
    get_or_generate_today_again 7 100 51 52 fresh_id fresh_id 90 91 6000 7000 yesterday today
      (new_mission 51 7 100) refl

get_or_generate_today_size_example : count (λ t. t.mission_id == 51) today.tasks ≤ 2
get_or_generate_today_size_example =
    get_or_generate_today_size 7 100 51 fresh_id 90 6000 yesterday refl
