-- ===== src/Roadmap/Progress/Percent.antt =====
-- The bounds of a milestone's progress, and what full progress means.
use cofoundaz_api.Prelude.{
  ℕ, ◌+◌, ◌*◌, ◌≤◌, ◌<◌, ◌≡◌, ◌↔◌, subst, Bool, List, [], ◌∷◌, count, length, round_div,
  round_div_bounds, round_div-le, All, All-update, arith,
}
use native.Mathlib.Nat.{mul-le-mul_right}
use native.Mathlib.Decide.{dec_lt}
use cofoundaz_api.Roadmap.{RoadmapMilestone, RoadmapTask, RoadmapStatus, Tables, is_done}
use cofoundaz_api.Roadmap.Progress.{
  tasks_of, progress_of, set_progress, recompute_milestone_progress,
}

abbrev pub is_done_task : RoadmapTask → Bool
is_done_task t = is_done t.status

done-le : (tasks : List RoadmapTask) → count is_done_task tasks ≤ length tasks
done-le [] = omega arith
done-le (t ∷ tasks) = ground (arith, done-le tasks)

progress_of-le :
    (status : RoadmapStatus) (tasks : List RoadmapTask) → progress_of status tasks ≤ 100
unfolding progress_of
progress_of-le status [] = ground arith
progress_of-le status (t ∷ tasks) =
    round_div-le (100 * count is_done_task (t ∷ tasks)) (length (t ∷ tasks)) 100 (omega arith)
      (omega (arith, done-le (t ∷ tasks)))

-- Every milestone has a progress of at most a hundred percent.
abbrev pub HasPercents : Tables → Type 0
HasPercents db = All (λ (m : RoadmapMilestone). m.progress ≤ 100) db.milestones

-- Recomputing a milestone's progress keeps the progress of every milestone at a hundred at most.
pub recompute_milestone_progress-HasPercents :
    (milestone : RoadmapMilestone) (db : Tables)
    → HasPercents db
    → HasPercents (recompute_milestone_progress milestone db)
unfolding recompute_milestone_progress
recompute_milestone_progress-HasPercents milestone db h =
    All-update (λ (m : RoadmapMilestone). m.progress ≤ 100) _ (set_progress _) db.milestones
      (λ m e k. progress_of-le milestone.status (tasks_of db milestone.id)) h

module _ (done n : ℕ) (some_task : 0 < n) where
  percent_all : done ≡ n → round_div (100 * done) n ≡ 100
  percent_all all = elim (dec_lt (round_div (100 * done) n) 100) [
    | yes short ↦
        let scaled : round_div (100 * done) n * n ≤ 99 * n = mul-le-mul_right n (omega arith) in
        absurd (omega (arith, (round_div_bounds (100 * done) n some_task).1))
    | no full ↦ omega (arith, round_div-le (100 * done) n 100 some_task (omega arith))
  ]

  percent_full : n < 200 → done ≤ n → round_div (100 * done) n ≡ 100 → done ≡ n
  percent_full few most full =
      let low : 2 * (100 * n) ≤ 2 * (100 * done) + n =
        subst (λ p. 2 * (p * n) ≤ 2 * (100 * done) + n) full
          (round_div_bounds (100 * done) n some_task).0 in
      omega arith

-- With at least one task and fewer than two hundred, the progress is a hundred exactly if every task
-- is done. (Of two hundred tasks, 199 done are rounded up to a hundred percent.)
pub progress_of-full :
    (status : RoadmapStatus) (tasks : List RoadmapTask)
    → 0 < length tasks
    → length tasks < 200
    → (progress_of status tasks ≡ 100) ↔ (count is_done_task tasks ≡ length tasks)
unfolding progress_of
progress_of-full status [] some_task few = absurd (omega arith)
progress_of-full status (t ∷ tasks) some_task few =
    let n = length (t ∷ tasks) in
    let done = count is_done_task (t ∷ tasks) in
    (percent_full done n some_task few (done-le (t ∷ tasks)), percent_all done n some_task)
