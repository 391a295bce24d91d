-- ===== src/Mission.antt =====
-- The daily mission: its tables (app/db/models/mission.py), the streak, the generation of today's
-- mission and the actions on its tasks (app/services/mission/service.py). A date is the number of
-- days since the first date that there is.
pub mod Streak
pub mod Today
pub mod Tasks
mod Tests
use Prim.Native.String.{String}
use cofoundaz_api.Prelude.{ℕ, Bool, true, false, Option, List, [], ◌∷◌, ◌++◌, ◌==◌, ◌&&◌}
use cofoundaz_api.Roadmap.{Tables, TaskEffort}
use cofoundaz_api.Worker.{Job}

pub data MissionStatus : Type 0 where
  pending complete : MissionStatus

abbrev pub is_complete : MissionStatus → Bool
is_complete complete = true
is_complete pending = false

pub data MissionTaskStatus : Type 0 where
  todo done snoozed rejected : MissionTaskStatus

abbrev pub is_done : MissionTaskStatus → Bool
is_done done = true
is_done _ = false

abbrev pub is_snoozed : MissionTaskStatus → Bool
is_snoozed snoozed = true
is_snoozed _ = false

-- `notin_([done, rejected])`
abbrev pub is_remaining : MissionTaskStatus → Bool
is_remaining todo = true
is_remaining done = false
is_remaining snoozed = true
is_remaining rejected = false

pub record Mission : Type 0 where
  pub id : ℕ
  pub startup_id : ℕ
  pub mission_date : ℕ
  pub generated_by : String
  pub status : MissionStatus

pub record MissionTask : Type 0 where
  pub id : ℕ
  pub mission_id : ℕ
  pub roadmap_task_id : Option ℕ
  pub title : String
  pub reason : Option String
  pub effort : TaskEffort
  pub order : ℕ
  pub status : MissionTaskStatus
  pub completed_at : Option ℕ
  pub reject_reason : Option String

-- Without the delivery time, which no operation here reads.
pub record MissionSettings : Type 0 where
  pub startup_id : ℕ
  pub mission_size : ℕ
  pub weekend_missions : Bool

-- The events that are published, with the ids of their payloads.
pub data MissionEvent : Type 0 where
  mission_completed : ℕ → MissionEvent
  streak_milestone : ℕ → ℕ → MissionEvent
  task_completed : ℕ → ℕ → MissionEvent

-- `startups` holds the ids of the startups.
pub record MissionDb : Type 0 where
  pub startups : List ℕ
  pub missions : List Mission
  pub tasks : List MissionTask
  pub settings : List MissionSettings
  pub roadmap : Tables
  pub published : List MissionEvent
  pub jobs : List Job

abbrev pub is_mission_on : ℕ → ℕ → Mission → Bool
is_mission_on startup_id date m = (m.startup_id == startup_id) && (m.mission_date == date)

abbrev pub publish : MissionEvent → MissionDb → MissionDb
publish event db = record db { published = db.published ++ event ∷ [] }
