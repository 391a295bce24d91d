-- ===== src/Roadmap/Replan/Tests.antt =====
-- A roadmap with an overdue milestone and one that depends on it.
use Prim.Native.String.{String}
use cofoundaz_api.Prelude.{
  ℕ, ◌+◌, ◌≤◌, ◌≡◌, refl, true, none, some, List, [], ◌∷◌, ◌==◌, All, first, Memᴰ, arith, inl, inr,
  Bool-cases,
}
use cofoundaz_api.Roadmap.{Roadmap, in_progress, todo, RoadmapMilestone, small, RoadmapTask, Tables}
use cofoundaz_api.Roadmap.Dependencies.{get, elem}
use cofoundaz_api.Roadmap.Replan.{
  Change, compute_replan, base_shift, milestones_of, milestone_precedence, has_drifted, toposort,
  replan_buffer_days,
}
use cofoundaz_api.Roadmap.Replan.Order.{IsRanked, IsUnique, IsOrdered}
use cofoundaz_api.Roadmap.Replan.Toposort.{toposort_lem}
use cofoundaz_api.Roadmap.Replan.Plan.{IsBySlip, compute_replan-total, compute_replan-IsBySlip}
use cofoundaz_api.Roadmap.Replan.Apply.{ReplanDb, ReplanOutcome, apply_replan}
use cofoundaz_api.Roadmap.Replan.Apply.Outcome.{
  IsSplit, IsRecorded, find, IsMoved, apply_replan_lem,
}

abbrev str : ℕ → String
str n = "7"

abbrev milestone : ℕ → ℕ → RoadmapMilestone
milestone id due = record {
  id = id;
  phase_id = 2;
  title = "pilot";
  due_on = some due;
  status = in_progress;
  progress = 0;
  order = 0;
  last_replanned_at = none;
  last_replan_reason = none;
}

abbrev task : ℕ → ℕ → RoadmapTask
task id milestone_id = record {
  id = id;
  milestone_id = milestone_id;
  title = "call";
  effort = small;
  status = todo;
  order = 0;
}

abbrev roadmap : Roadmap
roadmap = record { id = 1; startup_id = 3 }

abbrev tables : Tables
tables = record {
  roadmaps = roadmap ∷ [];
  phases = record { id = 2; roadmap_id = 1; order = 0 } ∷ [];
  milestones = milestone 11 60 ∷ milestone 10 40 ∷ [];
  tasks = task 20 10 ∷ task 21 11 ∷ [];
  dependencies = record { task_id = 21; depends_on_task_id = 20 } ∷ [];
}

abbrev db : ReplanDb
db = record { tables = tables; replans = []; events = [] }

precedence_test : milestone_precedence tables 1 ≡ (11, 10 ∷ []) ∷ []
unfolding milestone_precedence
precedence_test = refl

order_test : toposort (11 ∷ 10 ∷ []) ((11, 10 ∷ []) ∷ []) ≡ some (10 ∷ 11 ∷ [])
unfolding toposort
order_test = refl

tables-IsRanked : IsRanked (λ n. n) (milestone_precedence tables 1)
unfolding get milestone_precedence
tables-IsRanked n = elim (Bool-cases (11 == n)) [
  | inl t ↦ let same : 11 ≡ n = ground arith in rw t (omega arith, tt)
  | inr f ↦ rw f tt
]

compute_replan-total_example :
    (changes : List Change) × (compute_replan str 50 tables 1 ≡ some changes)
    × All (λ c. c.change_id ≡ c.milestone_id) changes
compute_replan-total_example = compute_replan-total str 50 tables 1

compute_replan-IsBySlip_example :
    (changes : List Change) × (compute_replan str 50 tables 1 ≡ some changes)
    × All
        (IsBySlip (base_shift 50 (milestones_of tables 1)) (milestone_precedence tables 1))
        changes
    × ((m : RoadmapMilestone) (due : ℕ)
        → first (λ (x : RoadmapMilestone). x.id == m.id) (milestones_of tables 1) ≡ some m
        → m.due_on ≡ some due
        → has_drifted 50 m ≡ true
        → (c : Change) × Memᴰ c changes
          × (c.milestone_id ≡ m.id)
          × (c.old_due ≡ due)
          × (50 + replan_buffer_days ≤ c.new_due))
compute_replan-IsBySlip_example = compute_replan-IsBySlip str 50 tables 1 (λ n. n) tables-IsRanked

apply_replan_lem_example :
    (changes : List Change) × (out : ReplanOutcome) × (db' : ReplanDb) × (compute_replan str 50
        tables 1
      ≡ some changes)
    × (apply_replan str 50 4000 roadmap 5 (10 ∷ 99 ∷ []) 77 db ≡ some (out, db'))
    × IsSplit changes (10 ∷ 99 ∷ []) out.applied out.skipped
    × ((mid : ℕ) (m : RoadmapMilestone)
        → find mid tables.milestones ≡ some m
        → (m' : RoadmapMilestone) × (find mid db'.tables.milestones ≡ some m')
          × IsMoved 4000 changes (10 ∷ 99 ∷ []) mid m m')
    × IsRecorded roadmap 5 out db db'
apply_replan_lem_example = apply_replan_lem str 50 4000 roadmap 5 (10 ∷ 99 ∷ []) 77 db

cyclic_known :
    (n : ℕ) → All (λ up. elem up (1 ∷ 2 ∷ []) ≡ true) (get n ((1, 2 ∷ []) ∷ (2, 1 ∷ []) ∷ []))
unfolding get
cyclic_known n = elim (Bool-cases (1 == n)) [
  | inl t ↦ rw t (refl, tt)
  | inr f ↦ elim (Bool-cases (2 == n)) [ inl t ↦ rw (f, t) (refl, tt) | inr g ↦ rw (f, g) tt ]
]

-- Two milestones that wait for each other.
toposort_lem_example :
    (order : List ℕ) × (toposort (1 ∷ 2 ∷ []) ((1, 2 ∷ []) ∷ (2, 1 ∷ []) ∷ []) ≡ some order)
    × IsUnique order
    × ((n : ℕ) → elem n order ≡ elem n (1 ∷ 2 ∷ []))
    × (IsRanked (λ n. n) ((1, 2 ∷ []) ∷ (2, 1 ∷ []) ∷ [])
        → IsOrdered ((1, 2 ∷ []) ∷ (2, 1 ∷ []) ∷ []) [] order)
toposort_lem_example =
    toposort_lem (1 ∷ 2 ∷ []) ((1, 2 ∷ []) ∷ (2, 1 ∷ []) ∷ []) (λ n. n) cyclic_known
