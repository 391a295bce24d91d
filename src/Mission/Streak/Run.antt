-- ===== src/Mission/Streak/Run.antt =====
-- The streak against the runs of completed days (app/services/mission/service.py).
use cofoundaz_api.Prelude.{
  refl, ℕ, zero, suc, ◌-◌, ◌≤◌, ◌<◌, ◌≡◌, Bool, true, false, Bool-cases, ◌⊎◌, inl, inr, arith,
}
use cofoundaz_api.Mission.{MissionDb}
use cofoundaz_api.Mission.Streak.{is_complete_on, streak_loop, streak_end, streak}

-- `n` days up to `last` are complete, and not one more.
abbrev pub IsRun : (ℕ → Bool) → ℕ → ℕ → Type 0
IsRun complete_on last n =
    ((k : ℕ) → k < n → complete_on (last - k) ≡ true) × (n ≤ last → complete_on (last - n) ≡ false)

shift : (d k : ℕ) → suc d - suc k ≡ d - k
shift d k = omega arith

sub_zero : (d : ℕ) → d - 0 ≡ d
sub_zero d = omega arith

streak_loop-IsRun :
    (complete_on : ℕ → Bool) (last : ℕ) → IsRun complete_on last (streak_loop complete_on last)
unfolding streak_loop
streak_loop-IsRun complete_on zero = elim (Bool-cases (complete_on 0)) [
  | inl t ↦ rw t (λ k l. (rw (the_zero k) t), λ l. absurd (omega arith))
  | inr f ↦ rw f (λ k l. absurd (omega arith), λ l. f)
]
  where
    the_zero : (k : ℕ) → 0 - k ≡ 0
    the_zero k = omega arith
streak_loop-IsRun complete_on (suc last) = elim (Bool-cases (complete_on (suc last))) [
  | inl t ↦
      let (run, stop) = streak_loop-IsRun complete_on last in
      rw t (
        λ k l. go t run k l,
        λ l. rw (shift last (streak_loop complete_on last)) (stop (omega arith)),
      )
  | inr f ↦ rw f (λ k l. absurd (omega arith), λ l. (rw (sub_zero (suc last)) f))
]
  where
    go :
        complete_on (suc last) ≡ true
        → ((k : ℕ) → k < streak_loop complete_on last → complete_on (last - k) ≡ true)
        → (k : ℕ) → k < suc (streak_loop complete_on last)
        → complete_on (suc last - k) ≡ true
    go t run zero l = rw (sub_zero (suc last)) t
    go t run (suc k) l = rw (shift last k) (run k (omega arith))

-- The streak counts the completed days, without a gap, up to today if today's mission is complete and
-- otherwise up to yesterday, and the day before them, if there is one, has no completed mission.
pub streak-IsRun :
    (db : MissionDb) (startup_id today : ℕ)
    → ((is_complete_on db startup_id today ≡ true)
        × IsRun (is_complete_on db startup_id) today (streak db startup_id today))
      ⊎ ((is_complete_on db startup_id today ≡ false)
          × IsRun (is_complete_on db startup_id) (today - 1) (streak db startup_id today))
unfolding streak streak_end
streak-IsRun db startup_id today = elim (Bool-cases (is_complete_on db startup_id today)) [
  | inl t ↦ rw t (inl (refl, streak_loop-IsRun (is_complete_on db startup_id) today))
  | inr f ↦ rw f (inr (refl, streak_loop-IsRun (is_complete_on db startup_id) (today - 1)))
]
