-- ===== src/Mission/Streak.antt =====
-- The streak of completed missions, derived on read (app/services/mission/service.py).
pub mod Run
use cofoundaz_api.Prelude.{
  ℕ, zero, suc, ◌-◌, Bool, true, false, Option, none, some, if◌then◌else◌, first,
}
use cofoundaz_api.Mission.{Mission, MissionDb, is_complete, is_mission_on}

-- There is a mission on the date, and it is complete.
abbrev pub is_complete_on : MissionDb → ℕ → ℕ → Bool
is_complete_on db startup_id date = elim (first (is_mission_on startup_id date) db.missions) [
  | none ↦ false
  | some mission ↦ is_complete mission.status
]

-- The `while True` loop, which steps the cursor back a day. On the first date that there is the step
-- back has no counterpart: the count stops there.
pub streak_loop : (ℕ → Bool) → ℕ → ℕ
streak_loop complete_on zero = if complete_on 0 then 1 else 0
streak_loop complete_on (suc cursor) =
    let rest = streak_loop complete_on cursor in if complete_on (suc cursor) then suc rest else 0

-- Today if today's mission is complete, and otherwise yesterday.
pub streak_end : MissionDb → ℕ → ℕ → ℕ
streak_end db startup_id today = if is_complete_on db startup_id today then today else today - 1

unfoldable pub streak : MissionDb → ℕ → ℕ → ℕ
unfolding streak_loop streak_end
streak db startup_id today =
    streak_loop (is_complete_on db startup_id) (streak_end db startup_id today)
