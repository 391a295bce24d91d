-- ===== src/Roadmap/Dependencies/Tests.antt =====
-- A workspace with three tasks, the first depending on the second.
use cofoundaz_api.Prelude.{ℕ, ◌≡◌, refl, Bool, true, some, none, List, [], ◌∷◌, ◌↔◌, arith}
use mathlib.Core.List.Memᴰ
use cofoundaz_api.Errors.{err, dependency_cycle, validation_error, not_found}
use cofoundaz_api.Roadmap.{
  Roadmap, RoadmapStatus, RoadmapTask, TaskEffort, RoadmapTaskDependency, Tables,
}
use cofoundaz_api.Roadmap.Dependencies.{would_create_cycle, roadmap_edges, create_dependency_ep}
use cofoundaz_api.Roadmap.Dependencies.Graph.{Reach, IsAcyclic}
use cofoundaz_api.Roadmap.Dependencies.Search.{search_decides}
use cofoundaz_api.Roadmap.Dependencies.Acyclic.{create_dependency_ep-IsAcyclic}
use cofoundaz_api.Roadmap.Dependencies.Unique.{HasUniqueEdges}

abbrev launch : Roadmap
launch = record { id = 1; startup_id = 7 }

abbrev task : ℕ → RoadmapTask
task n = record {
  id = n;
  milestone_id = 4;
  title = "task";
  effort = TaskEffort.small;
  status = RoadmapStatus.todo;
  order = n;
}

abbrev tables : List RoadmapTaskDependency → Tables
tables es = record {
  roadmaps = launch ∷ [];
  phases = record { id = 2; roadmap_id = 1; order = 0 } ∷ [];
  milestones =
      record {
        id = 4;
        phase_id = 2;
        title = "beta";
        due_on = none;
        status = RoadmapStatus.todo;
        progress = 0;
        order = 0;
        last_replanned_at = none;
        last_replan_reason = none;
      }
      ∷ [];
  tasks = task 10 ∷ task 11 ∷ task 12 ∷ [];
  dependencies = es;
}

abbrev row : ℕ → ℕ → RoadmapTaskDependency
row a b = record { task_id = a; depends_on_task_id = b }

abbrev one : Tables
one = tables (row 10 11 ∷ [])

abbrev two : Tables
two = tables (row 10 11 ∷ row 11 12 ∷ [])

a_self_dependency : create_dependency_ep one 7 10 10 ≡ err validation_error
unfolding create_dependency_ep
a_self_dependency = refl

an_unknown_task : create_dependency_ep one 7 10 99 ≡ err not_found
unfolding create_dependency_ep
an_unknown_task = refl

a_cycle : create_dependency_ep two 7 12 10 ≡ err dependency_cycle
unfolding create_dependency_ep
a_cycle = refl

empty-IsAcyclic : IsAcyclic (roadmap_edges (tables []) 1)
unfolding roadmap_edges
empty-IsAcyclic a b e p = Memᴰ.not-nil e

one-IsAcyclic : IsAcyclic (roadmap_edges one 1)
unfolding create_dependency_ep
one-IsAcyclic =
    create_dependency_ep-IsAcyclic (tables []) one 7 10 11 true launch refl refl empty-IsAcyclic

search_decides_example :
    (b : Bool) × (would_create_cycle two 1 12 10 ≡ some b)
    × ((b ≡ true) ↔ Reach (roadmap_edges two 1) 10 12)
search_decides_example = search_decides two 1 12 10

create_dependency_ep-IsAcyclic_example : IsAcyclic (roadmap_edges two 1)
unfolding create_dependency_ep
create_dependency_ep-IsAcyclic_example =
    create_dependency_ep-IsAcyclic one two 7 11 12 true launch refl refl one-IsAcyclic

one-HasUniqueEdges : HasUniqueEdges one
one-HasUniqueEdges t d = ground arith
