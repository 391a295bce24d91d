-- ===== src/Mission/Today.antt =====
-- The generation of today's mission (app/services/mission/service.py).
pub mod Once
pub mod Size
use Prim.Native.String.{String, ◌++◌ as str_append}
use cofoundaz_api.Prelude.{
  ℕ, zero, suc, ◌+◌, ◌%◌, Bool, true, false, not, Option, none, some, List, [], ◌∷◌, ◌++◌, ◌==◌,
  ◌&&◌, ◌||◌, is_none, ltb, leb, if◌then◌else◌, first, where_all, any, order_by, length,
}
use cofoundaz_api.Roadmap.{
  Roadmap, RoadmapPhase, RoadmapMilestone, RoadmapTask, Tables, find_roadmap, milestone_in,
}
use cofoundaz_api.Roadmap as Plan
use cofoundaz_api.Worker.{enqueue}
use cofoundaz_api.Mission.{
  Mission, MissionTask, MissionSettings, MissionDb, pending, todo, is_snoozed, is_mission_on,
}

-- The columns of the joined rows that the order reads; a task that passes the join has them.
abbrev milestone_of : Tables → RoadmapTask → Option RoadmapMilestone
milestone_of db t = first (λ (m : RoadmapMilestone). m.id == t.milestone_id) db.milestones

abbrev no_due_date : Option RoadmapMilestone → ℕ
no_due_date none = 1
no_due_date (some m) = elim m.due_on [ none ↦ 1 | some d ↦ 0 ]

abbrev due_date : Option RoadmapMilestone → ℕ
due_date none = 0
due_date (some m) = elim m.due_on [ none ↦ 0 | some d ↦ d ]

abbrev milestone_order : Option RoadmapMilestone → ℕ
milestone_order none = 0
milestone_order (some m) = m.order

abbrev phase_order : Tables → Option RoadmapMilestone → ℕ
phase_order db none = 0
phase_order db (some m) = elim (first (λ (p : RoadmapPhase). p.id == m.phase_id) db.phases) [
  | none ↦ 0
  | some p ↦ p.order
]

-- The tasks of the roadmap that are not done. Stable sorts, the last key first, give the order by
-- due date with missing dates last, then phase, milestone and task.
pub candidate_tasks : Tables → ℕ → List RoadmapTask
unfolding order_by
candidate_tasks db roadmap_id =
    let open_tasks =
      where_all
        (λ (t : RoadmapTask).
          milestone_in db roadmap_id t.milestone_id && not (Plan.is_done t.status))
        db.tasks in
    order_by (λ t. no_due_date (milestone_of db t))
      (order_by (λ t. due_date (milestone_of db t))
        (order_by (λ t. phase_order db (milestone_of db t))
          (order_by (λ t. milestone_order (milestone_of db t))
            (order_by (λ (t : RoadmapTask). t.order) open_tasks))))

-- `order_by(mission_date.desc()).first()`: the first of the latest.
pub latest : List Mission → Option Mission
latest [] = none
latest (m ∷ missions) = elim (latest missions) [
  | none ↦ some m
  | some other ↦ if ltb m.mission_date other.mission_date then some other else some m
]

pub most_recent_prior_mission : MissionDb → ℕ → ℕ → Option Mission
unfolding latest
most_recent_prior_mission db startup_id today = latest (
    where_all (λ (m : Mission). (m.startup_id == startup_id) && ltb m.mission_date today)
      db.missions)

pub snoozed_tasks : MissionDb → ℕ → List MissionTask
unfolding order_by
snoozed_tasks db mission_id =
    order_by (λ (t : MissionTask). t.order)
      (where_all (λ t. (t.mission_id == mission_id) && is_snoozed t.status) db.tasks)

abbrev pub carried_tasks : MissionDb → Option Mission → List MissionTask
carried_tasks db none = []
carried_tasks db (some prior) = snoozed_tasks db prior.id

-- The new row for a task that was snoozed.
abbrev carried_row : (ℕ → ℕ) → ℕ → ℕ → MissionTask → MissionTask
carried_row new_id mission_id order s = record {
  id = new_id order;
  mission_id = mission_id;
  roadmap_task_id = s.roadmap_task_id;
  title = s.title;
  reason = s.reason;
  effort = s.effort;
  order = order;
  status = todo;
  completed_at = none;
  reject_reason = none;
}

-- The loop over the snoozed tasks, with the counter `order`.
pub carry : (ℕ → ℕ) → ℕ → ℕ → ℕ → List MissionTask → List MissionTask
carry new_id mission_id size order [] = []
carry new_id mission_id size order (s ∷ carried) =
    let rest = carry new_id mission_id size (order + 1) carried in
    if leb size order then [] else carried_row new_id mission_id order s ∷ rest

abbrev links : ℕ → MissionTask → Bool
links task_id t = elim t.roadmap_task_id [ none ↦ false | some r ↦ r == task_id ]

abbrev reason_of : Option RoadmapMilestone → Option String
reason_of none = none
reason_of (some m) = some (str_append "From your '" (str_append m.title "' milestone."))

abbrev candidate_row : Tables → (ℕ → ℕ) → ℕ → ℕ → RoadmapTask → MissionTask
candidate_row db new_id mission_id order t = record {
  id = new_id order;
  mission_id = mission_id;
  roadmap_task_id = some t.id;
  title = t.title;
  reason = reason_of (milestone_of db t);
  effort = t.effort;
  order = order;
  status = todo;
  completed_at = none;
  reject_reason = none;
}

-- The loop over the candidates, which leaves out what was carried forward.
pub fill : Tables → (ℕ → ℕ) → ℕ → ℕ → List MissionTask → ℕ → List RoadmapTask → List MissionTask
fill db new_id mission_id size carried order [] = []
fill db new_id mission_id size carried order (t ∷ tasks) =
    let skip = fill db new_id mission_id size carried order tasks in
    let rest = fill db new_id mission_id size carried (order + 1) tasks in
    if leb size order
    then []
    else if any (links t.id) carried
    then skip
    else candidate_row db new_id mission_id order t ∷ rest

abbrev mission_settings : MissionDb → ℕ → Option MissionSettings
mission_settings db startup_id =
    first (λ (s : MissionSettings). s.startup_id == startup_id) db.settings

-- Three tasks and weekends off, unless the settings say otherwise.
abbrev pub mission_size : MissionDb → ℕ → ℕ
mission_size db startup_id = elim (mission_settings db startup_id) [
  | none ↦ 3
  | some s ↦ s.mission_size
]

abbrev pub weekend_missions : MissionDb → ℕ → Bool
weekend_missions db startup_id = elim (mission_settings db startup_id) [
  | none ↦ false
  | some s ↦ s.weekend_missions
]

-- The first date that there is was a Monday.
abbrev pub is_weekend : ℕ → Bool
is_weekend today = (today % 7 == 5) || (today % 7 == 6)

-- The rows of a new mission: what was snoozed, and then candidates as long as there is room.
pub mission_rows : (ℕ → ℕ) → ℕ → ℕ → ℕ → ℕ → MissionDb → List MissionTask
unfolding carry fill candidate_tasks snoozed_tasks most_recent_prior_mission
mission_rows new_id mission_id roadmap_id startup_id today db =
    let size = mission_size db startup_id in
    let carried =
      carry new_id mission_id size 0
        (carried_tasks db (most_recent_prior_mission db startup_id today)) in
    carried
    ++ fill db.roadmap new_id mission_id size carried (length carried)
        (candidate_tasks db.roadmap roadmap_id)

abbrev pub new_mission : ℕ → ℕ → ℕ → Mission
new_mission id startup_id today = record {
  id = id;
  startup_id = startup_id;
  mission_date = today;
  generated_by = "system";
  status = pending;
}

-- `_enqueue_mission_reason`, for a mission with a task.
pub enqueue_mission_reason : ℕ → ℕ → ℕ → ℕ → ℕ → MissionDb → MissionDb
enqueue_mission_reason mission_id startup_id order job_id now db =
    if order == 0 then db else record db {
      jobs =
          enqueue "ai.mission.reason" (("mission_id", mission_id) ∷ []) (some startup_id) job_id now
            db.jobs;
    }

pub generate : ℕ → ℕ → ℕ → ℕ → (ℕ → ℕ) → ℕ → ℕ → MissionDb → MissionDb
unfolding mission_rows enqueue_mission_reason
generate startup_id today roadmap_id mission_id new_id job_id now db =
    let rows = mission_rows new_id mission_id roadmap_id startup_id today db in
    let created = record db {
      missions = db.missions ++ new_mission mission_id startup_id today ∷ [];
    } in
    if is_weekend today && not (weekend_missions db startup_id)
    then created
    else enqueue_mission_reason mission_id startup_id (length rows) job_id now
        (record created { tasks = db.tasks ++ rows })

-- `none` if there is no roadmap. The mission's id and those of its tasks and of the job are drawn by
-- the database.
unfoldable pub get_or_generate_today :
    ℕ → ℕ → ℕ → (ℕ → ℕ) → ℕ → ℕ → MissionDb → Option Mission × MissionDb
unfolding generate
get_or_generate_today startup_id today mission_id new_id job_id now db =
    elim (first (is_mission_on startup_id today) db.missions) [
      | some existing ↦ (some existing, db)
      | none ↦ elim (find_roadmap db.roadmap startup_id) [
        | none ↦ (none, db)
        | some roadmap ↦ (
          some (new_mission mission_id startup_id today),
          generate startup_id today roadmap.id mission_id new_id job_id now db,
        )
      ]
    ]
