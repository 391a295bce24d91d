-- ===== src/Roadmap.antt =====
-- The roadmap tables (app/db/models/roadmap.py) and the lookups that the endpoints of
-- app/api/v1/endpoints/roadmap.py make in them. Ids are numbers, and dates are day numbers.
pub mod Dependencies
pub mod Progress
pub mod Replan
use cofoundaz_api.Prelude.{
  ℕ, ◌≡◌, Bool, true, false, Option, none, some, List, [], ◌∷◌, ◌==◌, ◌&&◌, if◌then◌else◌, first,
  any,
}
use cofoundaz_api.Errors.{Result, ok, err, not_found, or_raise, ◌>>=◌}
use Prim.Native.String.{String}

pub data RoadmapStatus : Type 0 where
  todo in_progress done : RoadmapStatus

pub data TaskEffort : Type 0 where
  small medium large : TaskEffort

abbrev pub is_done : RoadmapStatus → Bool
is_done done = true
is_done _ = false

pub record Roadmap : Type 0 where
  pub id : ℕ
  pub startup_id : ℕ

pub record RoadmapPhase : Type 0 where
  pub id : ℕ
  pub roadmap_id : ℕ
  pub order : ℕ

pub record RoadmapMilestone : Type 0 where
  pub id : ℕ
  pub phase_id : ℕ
  pub title : String
  pub due_on : Option ℕ
  pub status : RoadmapStatus
  pub progress : ℕ
  pub order : ℕ
  pub last_replanned_at : Option ℕ
  pub last_replan_reason : Option String

pub record RoadmapTask : Type 0 where
  pub id : ℕ
  pub milestone_id : ℕ
  pub title : String
  pub effort : TaskEffort
  pub status : RoadmapStatus
  pub order : ℕ

pub record RoadmapTaskDependency : Type 0 where
  pub task_id : ℕ
  pub depends_on_task_id : ℕ

pub record Tables : Type 0 where
  pub roadmaps : List Roadmap
  pub phases : List RoadmapPhase
  pub milestones : List RoadmapMilestone
  pub tasks : List RoadmapTask
  pub dependencies : List RoadmapTaskDependency

-- `_roadmap`: the roadmap of the membership's startup.
unfoldable pub find_roadmap : Tables → ℕ → Option Roadmap
find_roadmap db startup_id = first (λ r. r.startup_id == startup_id) db.roadmaps

pub require_roadmap : Tables → ℕ → Result Roadmap
unfolding find_roadmap
require_roadmap db startup_id = or_raise (find_roadmap db startup_id) not_found

-- The joins up to the phase, with the filter on the roadmap. Ids are primary keys, so a join on one
-- has at most one row.
abbrev pub phase_in : Tables → ℕ → ℕ → Bool
phase_in db roadmap_id phase_id =
    any (λ p. (p.id == phase_id) && (p.roadmap_id == roadmap_id)) db.phases

abbrev pub milestone_in : Tables → ℕ → ℕ → Bool
milestone_in db roadmap_id milestone_id =
    any (λ m. (m.id == milestone_id) && phase_in db roadmap_id m.phase_id) db.milestones

abbrev pub task_in : Tables → ℕ → ℕ → Bool
task_in db roadmap_id task_id =
    any (λ t. (t.id == task_id) && milestone_in db roadmap_id t.milestone_id) db.tasks

-- `_milestone` and `_task`: 404 unless the row belongs to the workspace's roadmap.
pub require_milestone : Tables → ℕ → ℕ → Result RoadmapMilestone
unfolding require_roadmap
require_milestone db startup_id milestone_id = do
  roadmap ← require_roadmap db startup_id
  or_raise (first (λ m. (m.id == milestone_id) && phase_in db roadmap.id m.phase_id) db.milestones)
      not_found

pub require_task : Tables → ℕ → ℕ → Result RoadmapTask
unfolding require_roadmap
require_task db startup_id task_id = do
  roadmap ← require_roadmap db startup_id
  or_raise (first (λ t. (t.id == task_id) && milestone_in db roadmap.id t.milestone_id) db.tasks)
      not_found
