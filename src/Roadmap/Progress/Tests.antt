-- ===== src/Roadmap/Progress/Tests.antt =====
-- A milestone with three tasks, two of them done.
use cofoundaz_api.Prelude.{ℕ, ◌≡◌, refl, none, List, [], ◌∷◌}
use cofoundaz_api.Roadmap.{RoadmapMilestone, RoadmapTask, RoadmapStatus, TaskEffort, Tables}
use cofoundaz_api.Roadmap.Progress.{progress_of}

abbrev task : ℕ → RoadmapStatus → RoadmapTask
task n status = record {
  id = n;
  milestone_id = 4;
  title = "task";
  effort = TaskEffort.small;
  status = status;
  order = n;
}

abbrev tasks : List RoadmapTask
tasks = task 1 RoadmapStatus.done ∷ task 2 RoadmapStatus.done ∷ task 3 RoadmapStatus.todo ∷ []

abbrev beta : RoadmapMilestone
beta = record {
  id = 4;
  phase_id = 2;
  title = "beta";
  due_on = none;
  status = RoadmapStatus.todo;
  progress = 0;
  order = 0;
  last_replanned_at = none;
  last_replan_reason = none;
}

abbrev db : Tables
db = record { roadmaps = []; phases = []; milestones = beta ∷ []; tasks = tasks; dependencies = [] }

two_thirds :
    (progress_of RoadmapStatus.todo tasks ≡ 67)
    × (progress_of RoadmapStatus.todo [] ≡ 0)
    × (progress_of RoadmapStatus.done [] ≡ 100)
unfolding progress_of
two_thirds = (refl, refl, refl)
