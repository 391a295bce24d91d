-- ===== src/Roadmap/Progress.antt =====
-- The progress of a milestone, in percent of its tasks (app/services/roadmap/service.py).
pub mod Percent
mod Tests
use cofoundaz_api.Prelude.{
  ℕ, ◌*◌, Bool, true, false, List, [], ◌∷◌, ◌==◌, if◌then◌else◌, where_all, count, length,
  update_where, round_div,
}
use cofoundaz_api.Roadmap.{RoadmapMilestone, RoadmapTask, RoadmapStatus, Tables, is_done}

abbrev pub tasks_of : Tables → ℕ → List RoadmapTask
tasks_of db milestone_id = where_all (λ (t : RoadmapTask). t.milestone_id == milestone_id) db.tasks

-- The new value of the column, from the milestone's status and its tasks.
pub progress_of : RoadmapStatus → List RoadmapTask → ℕ
unfolding round_div
progress_of status [] = if is_done status then 100 else 0
progress_of status (t ∷ tasks) =
    round_div (100 * count (λ (x : RoadmapTask). is_done x.status) (t ∷ tasks)) (length (t ∷ tasks))

abbrev pub set_progress : ℕ → RoadmapMilestone → RoadmapMilestone
set_progress progress m = record m { progress = progress }

pub recompute_milestone_progress : RoadmapMilestone → Tables → Tables
unfolding progress_of
recompute_milestone_progress milestone db = record db {
  milestones =
      update_where (λ (m : RoadmapMilestone). m.id == milestone.id)
        (set_progress (progress_of milestone.status (tasks_of db milestone.id))) db.milestones;
}
