-- ===== src/Worker/Scheduler/Tick.antt =====
-- One tick of the scheduler, and a second one at the same time.
use cofoundaz_api.Prelude.{
  ℕ, ◌+◌, ◌≡◌, refl, ap, ◌∙◌, subst, Bool, true, not, List, [], ◌∷◌, ◌++◌, map, ◌&&◌, ltb, inl, inr,
  where_all, length, Bool-cases, All, arith,
}
use cofoundaz_api.Worker.{Job}
use cofoundaz_api.Worker.Scheduler.Rows.{ScheduledRun, Due, SchedulerDb}
use cofoundaz_api.Worker.Scheduler.{
  SchedulerSettings, LocalTime, is_claimed, run_due, is_active_startup, mission_run, due_missions,
  is_overdue_milestone, overdue_run, due_overdue_milestones, needs_reassessment, quarterly_run,
  due_quarterly, all_due, scheduler_tick,
}
use cofoundaz_api.Worker.Scheduler.Ledger.{HasUniqueRuns, run_due-IsRun}

-- A tick counts what it enqueues: each count is one new job and one new row of the ledger, in which
-- no key stands twice if none did before.
pub scheduler_tick-exactly_once :
    (settings : SchedulerSettings) (new_id : ℕ → ℕ) (now : ℕ) (local : LocalTime) (db : SchedulerDb)
    → HasUniqueRuns db.runs
    → let (n, db') = scheduler_tick settings new_id now local db in
      (length db'.jobs ≡ length db.jobs + n)
      × (length db'.runs ≡ length db.runs + n)
      × HasUniqueRuns db'.runs
unfolding scheduler_tick
scheduler_tick-exactly_once settings new_id now local db unique =
    let run = run_due-IsRun new_id now (all_due settings now local db) 0 db in
    (omega (arith, run.jobs_grow), omega (arith, run.ledger_grows), run.unique unique)

module _ {A : Type 0} (p : A → Bool) (key : A → ScheduledRun) (due : A → Due)
    (run_of : (a : A) → (due a).run ≡ key a) (runs runs' : List ScheduledRun)
    (keeps : (k : ScheduledRun) → is_claimed runs k ≡ true → is_claimed runs' k ≡ true) where
  -- What was due is claimed afterwards, so that nothing of it is due again.
  nothing_due :
      (xs : List A)
      → All
          (λ d. is_claimed runs' d.run ≡ true)
          (map due (where_all (λ a. p a && not (is_claimed runs (key a))) xs))
      → where_all (λ a. p a && not (is_claimed runs' (key a))) xs ≡ []
  nothing_due [] h = refl
  nothing_due (x ∷ xs) h = elim (Bool-cases (p x)) [
    | inr skip ↦ rw skip (nothing_due xs (rw skip at h))
    | inl fits ↦ elim (Bool-cases (is_claimed runs (key x))) [
      | inl old ↦ rw (fits, keeps (key x) old) (nothing_due xs (rw (fits, old) at h))
      | inr new ↦
          let h' = rw (fits, new) at h in
          let taken : is_claimed runs' (key x) ≡ true =
            subst (λ k. is_claimed runs' k ≡ true) (run_of x) h'.0 in
          rw (fits, taken) (nothing_due xs h'.1)
    ]
  ]

abbrev with_runs : SchedulerDb → List ScheduledRun → List Job → SchedulerDb
with_runs db runs jobs = record db { runs = runs; jobs = jobs }

All-split : (P : Due → Type 0) (xs ys : List Due) → All P (xs ++ ys) → All P xs × All P ys
All-split P [] ys h = (tt, h)
All-split P (x ∷ xs) ys h = let (a, b) = All-split P xs ys h.1 in ((h.0, a), b)

module _ (settings : SchedulerSettings) (now : ℕ) (local : LocalTime) (db : SchedulerDb)
    (runs' : List ScheduledRun) (jobs' : List Job)
    (keeps : (k : ScheduledRun) → is_claimed db.runs k ≡ true → is_claimed runs' k ≡ true) where
  abbrev Taken : Due → Type 0
  Taken d = is_claimed runs' d.run ≡ true

  no_missions :
      All Taken (due_missions settings local db)
      → due_missions settings local (with_runs db runs' jobs') ≡ []
  unfolding due_missions
  no_missions h = elim (Bool-cases (ltb local.hour settings.mission_gen_hour)) [
    | inl early ↦ rw early refl
    | inr late ↦ rw late (
        ap (map _) (
          nothing_due (is_active_startup db) (mission_run local) _ (λ s. refl) db.runs runs' keeps
            db.startups (rw late at h)))
  ]

  no_overdue :
      All Taken (due_overdue_milestones local db)
      → due_overdue_milestones local (with_runs db runs' jobs') ≡ []
  unfolding due_overdue_milestones
  no_overdue h = ap (map _) (
      nothing_due (is_overdue_milestone db local.date) overdue_run _ (λ m. refl) db.runs runs' keeps
        db.roadmap.milestones h)

  no_quarterly :
      All Taken (due_quarterly settings now local db)
      → due_quarterly settings now local (with_runs db runs' jobs') ≡ []
  unfolding due_quarterly
  no_quarterly h = ap (map _) (
      nothing_due (needs_reassessment settings now db) (quarterly_run local) _ (λ s. refl) db.runs
        runs' keeps db.startups h)

  nothing_left :
      All Taken (all_due settings now local db)
      → all_due settings now local (with_runs db runs' jobs') ≡ []
  unfolding all_due
  nothing_left h =
      let (m, rest) = All-split Taken (due_missions settings local db) _ h in
      let (o, q) = All-split Taken (due_overdue_milestones local db) _ rest in
      rw (no_missions m) (rw (no_overdue o) (no_quarterly q))

run_due-nil : (new_id : ℕ → ℕ) (now : ℕ) (db : SchedulerDb) → run_due new_id now [] 0 db ≡ (0, db)
unfolding run_due
run_due-nil new_id now db = refl

-- After a tick a second one at the same time finds nothing due: it enqueues no job and leaves the
-- database as it is.
pub scheduler_tick_again :
    (settings : SchedulerSettings) (new_id new_id' : ℕ → ℕ) (now : ℕ) (local : LocalTime)
    (db : SchedulerDb)
    → let (_, db') = scheduler_tick settings new_id now local db in
      scheduler_tick settings new_id' now local db' ≡ (0, db')
unfolding scheduler_tick
scheduler_tick_again settings new_id new_id' now local db =
    let due = all_due settings now local db in
    let db' = (run_due new_id now due 0 db).1 in
    let run = run_due-IsRun new_id now due 0 db in
    let same : db' ≡ with_runs db db'.runs db'.jobs = λ i. record {
      startups = run.startups_kept i;
      memberships = run.memberships_kept i;
      roadmap = run.roadmap_kept i;
      assessments = run.assessments_kept i;
      runs = db'.runs;
      jobs = db'.jobs;
    } in
    let idle : all_due settings now local db' ≡ [] =
      ap (all_due settings now local) same
      ∙ nothing_left settings now local db db'.runs db'.jobs run.keeps run.all_claimed in
    ap (λ d. run_due new_id' now d 0 db') idle ∙ run_due-nil new_id' now db'
