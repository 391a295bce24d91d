-- ===== src/Worker/Scheduler/Ledger.antt =====
-- The ledger of claimed runs under the loop of a tick (app/worker/scheduler.py).
use cofoundaz_api.Prelude.{
  ℕ, ◌+◌, ◌≤◌, ◌≡◌, refl, ◌∙◌, true, false, some, List, [], ◌∷◌, ◌++◌, inl, inr, if◌then◌else◌,
  count, count-append, length, length-append, Bool-cases, All, arith,
}
use cofoundaz_api.Worker.{enqueue}
use cofoundaz_api.Worker.Scheduler.Rows.{
  TaskKey, PeriodKey, ScheduledRun, Due, SchedulerDb, same_task, same_period, same_run,
}
use cofoundaz_api.Worker.Scheduler.{is_claimed, claim, run_due}

-- No key stands twice in the ledger.
abbrev pub HasUniqueRuns : List ScheduledRun → Type 0
HasUniqueRuns runs = (k : ScheduledRun) → count (λ r. same_run r k) runs ≤ 1

-- Keys that are the same are the same to every third key.
same_task-right : (a b c : TaskKey) → same_task a b ≡ true → same_task c b ≡ same_task c a
same_task-right a b c h = ground arith

same_period-right : (a b c : PeriodKey) → same_period a b ≡ true → same_period c b ≡ same_period c a
same_period-right a b c h = ground arith

same_run-right : (a b c : ScheduledRun) → same_run a b ≡ true → same_run c b ≡ same_run c a
same_run-right a b c h = ground (
  arith,
  same_task-right a.task_key b.task_key c.task_key,
  same_period-right a.period_key b.period_key c.period_key,
)

same_task_refl : (a : TaskKey) → same_task a a ≡ true
same_task_refl a = ground arith

same_period_refl : (a : PeriodKey) → same_period a a ≡ true
same_period_refl a = ground arith

same_run_refl : (a : ScheduledRun) → same_run a a ≡ true
same_run_refl a = ground (arith, same_task_refl a.task_key, same_period_refl a.period_key)

count-unclaimed :
    (key k : ScheduledRun) (runs : List ScheduledRun)
    → is_claimed runs key ≡ false
    → same_run key k ≡ true
    → count (λ r. same_run r k) runs ≡ 0
count-unclaimed key k [] h e = refl
count-unclaimed key k (r ∷ runs) h e =
    ground (arith, same_run-right key k r, count-unclaimed key k runs)

claim-HasUniqueRuns :
    (key : ScheduledRun) (runs : List ScheduledRun)
    → HasUniqueRuns runs
    → HasUniqueRuns (claim key runs).1
unfolding claim
claim-HasUniqueRuns key runs unique k = elim (Bool-cases (is_claimed runs key)) [
  | inl taken ↦ rw (taken, claim) (unique k)
  | inr free ↦
      rw (free, claim)
        (ground (
          arith,
          count-append (λ r. same_run r k) runs (key ∷ []),
          count-unclaimed key k runs free,
          unique k,
        ))
]

-- A key that is in the ledger stays in it.
claimed-append :
    (k : ScheduledRun) (runs new : List ScheduledRun)
    → is_claimed runs k ≡ true
    → is_claimed (runs ++ new) k ≡ true
claimed-append k [] new h = cc
claimed-append k (r ∷ runs) new h = ground (arith, claimed-append k runs new)

claimed-last : (k : ScheduledRun) (runs : List ScheduledRun) → is_claimed (runs ++ k ∷ []) k ≡ true
claimed-last k [] = ground (arith, same_run_refl k)
claimed-last k (r ∷ runs) = ground (arith, claimed-last k runs)

claim_claims :
    (key k : ScheduledRun) (runs : List ScheduledRun)
    → (is_claimed (claim key runs).1 key ≡ true)
      × (is_claimed runs k ≡ true → is_claimed (claim key runs).1 k ≡ true)
unfolding claim
claim_claims key k runs = elim (Bool-cases (is_claimed runs key)) [
  | inl taken ↦ rw (taken, claim) (taken, λ h. h)
  | inr free ↦ rw (free, claim) (claimed-last key runs, claimed-append k runs (key ∷ []))
]

-- What one round of the loop writes.
round : (ℕ → ℕ) → ℕ → Due → ℕ → SchedulerDb → ℕ × SchedulerDb
unfolding claim
round new_id now item enqueued db =
    let (fresh, runs) = claim item.run db.runs in
    let jobs =
      enqueue item.job_type item.payload (some item.startup_id) (new_id enqueued) now db.jobs in
    (
      if fresh then enqueued + 1 else enqueued,
      if fresh then record db { runs = runs; jobs = jobs } else db,
    )

run_due-cons :
    (new_id : ℕ → ℕ) (now : ℕ) (item : Due) (due : List Due) (enqueued : ℕ) (db : SchedulerDb)
    → run_due new_id now (item ∷ due) enqueued db
      ≡ (let (n, db') = round new_id now item enqueued db in run_due new_id now due n db')
unfolding run_due round
run_due-cons new_id now item due enqueued db = refl

-- One round: the ledger after it is that of the claim, and ledger, jobs and count grow together.
pub record IsRound (item : Due) (n : ℕ) (db : SchedulerDb) (n' : ℕ) (db' : SchedulerDb)
    : Type 0 where
  pub runs : db'.runs ≡ (claim item.run db.runs).1
  pub ledger_grows : length db'.runs + n ≡ length db.runs + n'
  pub jobs_grow : length db'.jobs + n ≡ length db.jobs + n'
  pub startups_kept : db'.startups ≡ db.startups
  pub memberships_kept : db'.memberships ≡ db.memberships
  pub roadmap_kept : db'.roadmap ≡ db.roadmap
  pub assessments_kept : db'.assessments ≡ db.assessments

round-IsRound :
    (new_id : ℕ → ℕ) (now : ℕ) (item : Due) (n : ℕ) (db : SchedulerDb)
    → IsRound item n db (round new_id now item n db).0 (round new_id now item n db).1
unfolding round claim enqueue
round-IsRound new_id now item n db = elim (Bool-cases (is_claimed db.runs item.run)) [
  | inl taken ↦
      rw (taken, claim)
        (record {
          runs = rw (taken, claim) refl;
          ledger_grows = refl;
          jobs_grow = refl;
          startups_kept = refl;
          memberships_kept = refl;
          roadmap_kept = refl;
          assessments_kept = refl;
        })
  | inr free ↦
      rw (free, claim)
        (record {
          runs = rw (free, claim) refl;
          ledger_grows = omega (arith, length-append db.runs (item.run ∷ []));
          jobs_grow = omega (arith, length-append {0} db.jobs (_ ∷ []));
          startups_kept = refl;
          memberships_kept = refl;
          roadmap_kept = refl;
          assessments_kept = refl;
        })
]

-- The whole loop, started at the count `n`.
pub record IsRun (due : List Due) (n : ℕ) (db : SchedulerDb) (n' : ℕ) (db' : SchedulerDb)
    : Type 0 where
  pub all_claimed : All (λ d. is_claimed db'.runs d.run ≡ true) due
  pub keeps : (k : ScheduledRun) → is_claimed db.runs k ≡ true → is_claimed db'.runs k ≡ true
  pub unique : HasUniqueRuns db.runs → HasUniqueRuns db'.runs
  pub ledger_grows : length db'.runs + n ≡ length db.runs + n'
  pub jobs_grow : length db'.jobs + n ≡ length db.jobs + n'
  pub startups_kept : db'.startups ≡ db.startups
  pub memberships_kept : db'.memberships ≡ db.memberships
  pub roadmap_kept : db'.roadmap ≡ db.roadmap
  pub assessments_kept : db'.assessments ≡ db.assessments

pub run_due-IsRun :
    (new_id : ℕ → ℕ) (now : ℕ) (due : List Due) (n : ℕ) (db : SchedulerDb)
    → IsRun due n db (run_due new_id now due n db).0 (run_due new_id now due n db).1
unfolding run_due
run_due-IsRun new_id now [] n db = record {
  all_claimed = tt;
  keeps = λ k h. h;
  unique = λ u. u;
  ledger_grows = refl;
  jobs_grow = refl;
  startups_kept = refl;
  memberships_kept = refl;
  roadmap_kept = refl;
  assessments_kept = refl;
}
run_due-IsRun new_id now (item ∷ due) n db =
    let r = round-IsRound new_id now item n db in
    let (n₁, db₁) = round new_id now item n db in
    let ih = run_due-IsRun new_id now due n₁ db₁ in
    rw (run_due-cons new_id now item due n db) (record {
      all_claimed = (
        ih.keeps item.run (rw r.runs (claim_claims item.run item.run db.runs).0),
        ih.all_claimed,
      );
      keeps = λ k h. ih.keeps k (rw r.runs ((claim_claims item.run k db.runs).1 h));
      unique = λ u. ih.unique (rw r.runs (claim-HasUniqueRuns item.run db.runs u));
      ledger_grows = omega (arith, ih.ledger_grows, r.ledger_grows);
      jobs_grow = omega (arith, ih.jobs_grow, r.jobs_grow);
      startups_kept = ih.startups_kept ∙ r.startups_kept;
      memberships_kept = ih.memberships_kept ∙ r.memberships_kept;
      roadmap_kept = ih.roadmap_kept ∙ r.roadmap_kept;
      assessments_kept = ih.assessments_kept ∙ r.assessments_kept;
    })
