-- ===== src/Mission/Tasks.antt =====
-- The actions on a mission's tasks (app/services/mission/service.py).
pub mod Completion
use Prim.Native.String.{String}
use cofoundaz_api.Prelude.{
  ℕ, zero, suc, ◌+◌, max, Bool, true, false, Option, none, some, List, [], ◌∷◌, ◌++◌, ◌==◌, ◌&&◌,
  ◌||◌, if◌then◌else◌, first, count, any, update_where,
}
use cofoundaz_api.Roadmap.{TaskEffort, medium}
use cofoundaz_api.Mission.{
  Mission, MissionTask, MissionDb, MissionStatus, complete, MissionTaskStatus, todo, done, snoozed,
  rejected, is_complete, is_done, is_remaining, MissionEvent, mission_completed, streak_milestone,
  task_completed, publish,
}
use cofoundaz_api.Mission.Streak.{streak}

abbrev pub is_remaining_of : ℕ → MissionTask → Bool
is_remaining_of mission_id t = (t.mission_id == mission_id) && is_remaining t.status

abbrev pub is_done_of : ℕ → MissionTask → Bool
is_done_of mission_id t = (t.mission_id == mission_id) && is_done t.status

abbrev pub set_complete : Mission → Mission
set_complete m = record m { status = complete }

abbrev is_milestone : ℕ → Bool
is_milestone n = (n == 7) || ((n == 30) || (n == 100))

-- The event for a streak of 7, 30 or 100 days, if the startup is there.
pub check_streak : ℕ → ℕ → MissionDb → MissionDb
check_streak startup_id today db =
    let new_streak = streak db startup_id today in
    if any (λ id. id == startup_id) db.startups && is_milestone new_streak
    then publish (streak_milestone startup_id new_streak) db
    else db

pub flip_mission : Mission → ℕ → MissionDb → MissionDb
unfolding check_streak
flip_mission mission today db = check_streak mission.startup_id today (
    publish (mission_completed mission.id)
      (record db { missions = update_where (λ m. m.id == mission.id) set_complete db.missions }))

-- `_maybe_complete_mission`
pub maybe_complete_mission : Mission → ℕ → MissionDb → MissionDb
unfolding flip_mission
maybe_complete_mission mission today db =
    if is_complete mission.status
    then db
    else if count (is_remaining_of mission.id) db.tasks == 0
    then if count (is_done_of mission.id) db.tasks == 0 then db else flip_mission mission today db
    else db

abbrev mission_by_id : MissionDb → ℕ → Option Mission
mission_by_id db id = first (λ (m : Mission). m.id == id) db.missions

abbrev update_task : ℕ → (MissionTask → MissionTask) → MissionDb → MissionDb
update_task id f db = record db { tasks = update_where (λ t. t.id == id) f db.tasks }

-- The end of `complete_task` and of `reject_task`: the check of the task's mission.
pub cascade : ℕ → ℕ → MissionDb → MissionDb
unfolding maybe_complete_mission
cascade mission_id today db = elim (mission_by_id db mission_id) [
  | none ↦ db
  | some mission ↦ maybe_complete_mission mission today db
]

abbrev set_done : ℕ → MissionTask → MissionTask
set_done now t = record t { status = done; completed_at = some now }

unfoldable pub complete_task : MissionTask → ℕ → ℕ → MissionDb → MissionDb
unfolding cascade
complete_task task today now db =
    if is_done task.status
    then db
    else cascade task.mission_id today
        (publish (task_completed task.mission_id task.id) (update_task task.id (set_done now) db))

abbrev set_snoozed : MissionTask → MissionTask
set_snoozed t = record t { status = snoozed }

pub snooze_task : MissionTask → MissionDb → MissionDb
snooze_task task db = update_task task.id set_snoozed db

abbrev set_order : ℕ → MissionTask → MissionTask
set_order order t = record t { order = order }

pub reorder_task : MissionTask → ℕ → MissionDb → MissionDb
reorder_task task order db = update_task task.id (set_order order) db

abbrev set_rejected : String → MissionTask → MissionTask
set_rejected reason t = record t { status = rejected; reject_reason = some reason }

unfoldable pub reject_task : MissionTask → String → ℕ → MissionDb → MissionDb
unfolding cascade
reject_task task reason today db =
    cascade task.mission_id today (update_task task.id (set_rejected reason) db)

-- `func.max(MissionTask.order)` over a mission, plus one; 0 if it has no task.
pub next_order : ℕ → List MissionTask → ℕ
next_order mission_id [] = 0
next_order mission_id (t ∷ tasks) =
    let rest = next_order mission_id tasks in
    if t.mission_id == mission_id then max (t.order + 1) rest else rest

abbrev or_medium : Option TaskEffort → TaskEffort
or_medium none = medium
or_medium (some effort) = effort

pub add_custom_task : Mission → String → Option TaskEffort → ℕ → MissionDb → MissionDb
unfolding next_order
add_custom_task mission title effort new_id db =
    let task : MissionTask = record {
      id = new_id;
      mission_id = mission.id;
      roadmap_task_id = none;
      title = title;
      reason = none;
      effort = or_medium effort;
      order = next_order mission.id db.tasks;
      status = todo;
      completed_at = none;
      reject_reason = none;
    } in
    record db { tasks = db.tasks ++ task ∷ [] }
