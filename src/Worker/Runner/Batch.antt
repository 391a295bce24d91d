-- ===== src/Worker/Runner/Batch.antt =====
-- A batch: what it claims, and what it leaves of the claimed jobs (app/worker/runner.py).
use cofoundaz_api.Prelude.{
  sym, any-update, ℕ, ◌≤◌, ◌≡◌, refl, ap, ◌∙◌, ◌⊎◌, Bool, false, List, ◌==◌, arith, min, length,
  count, any-Memᴰ, map, All, All-imp, IsSortedBy-take, IsSortedBy, IsSortedBy-order_by, order_by,
  Pointwise,
}
use cofoundaz_api.Worker.{Job, queued}
use cofoundaz_api.Worker.Runner.{
  WorkerSettings, Handlers, run_once, claim_batch, reap_stale, is_claimable, claim, is_stale,
  set_status,
}
use cofoundaz_api.Worker.Runner.Settled.{HasId, HasId-update, IsSettled, run_jobs-settles}
use cofoundaz_api.Worker.Runner.Outcomes.{Avoids, attempted, HasOutcome, run_jobs-HasOutcome}
use cofoundaz_api.Worker.Runner.Keys.{HasUniqueIds, claimed-AreApart, claimed-copies}
use cofoundaz_api.Worker.Runner.Claims.{
  IsClaimed, IsServed, IsClaimStep, sorted-claim, ready, chosen, chosen-IsClaimed, chosen-IsServed,
  length-chosen, table-IsClaimStep,
}

-- Of the table as reaping leaves it, a batch claims as many rows as may be claimed, up to the
-- configured number: the oldest ones, oldest first. Each was queued, due and not locked by another
-- worker, and is returned and stored as running, with one attempt more and a new time of update; every
-- row that no claimed row has the id of stays as it was.
pub claim_batch_lem :
    (locked : ℕ → Bool) (batch stale_seconds now : ℕ) (jobs : List Job)
    → let (claimed, jobs') = claim_batch locked batch stale_seconds now jobs in
      let (_, rows) = reap_stale stale_seconds now jobs in
      (length claimed ≡ min batch (count (is_claimable locked now) rows))
      × IsSortedBy (λ j. j.created_at) claimed
      × All (IsClaimed locked now rows) claimed
      × All (λ r. (is_claimable locked now r ≡ false) ⊎ IsServed now claimed r) rows
      × Pointwise (IsClaimStep now claimed) rows jobs'
unfolding claim_batch
claim_batch_lem locked batch stale_seconds now jobs =
    let created = λ (j : Job). j.created_at in
    let all_ready = ready locked batch stale_seconds now jobs in
    (
      length-chosen locked batch stale_seconds now jobs,
      sorted-claim now (chosen locked batch stale_seconds now jobs) (
          IsSortedBy-take created batch (order_by created all_ready)
            (IsSortedBy-order_by created all_ready)),
      chosen-IsClaimed locked batch stale_seconds now jobs,
      chosen-IsServed locked batch stale_seconds now jobs,
      table-IsClaimStep locked batch stale_seconds now jobs,
    )

claimed-HasId :
    (locked : ℕ → Bool) (batch stale_seconds now : ℕ) (jobs : List Job)
    → let (claimed, jobs') = claim_batch locked batch stale_seconds now jobs in
      All (λ j. HasId j.id jobs') claimed
unfolding claim_batch
claimed-HasId locked batch stale_seconds now jobs =
    let rows = (reap_stale stale_seconds now jobs).1 in
    let claimed = map (claim now) (chosen locked batch stale_seconds now jobs) in
    All-imp claimed
      (λ c (old, m, _, _, _, e).
        HasId-update c.id _ (claim now) rows (λ j. refl)
          (any-Memᴰ (λ (j : Job). j.id == c.id) old rows m
            (ap (λ (x : Job). old.id == x.id) e ∙ ground arith)))
      (chosen-IsClaimed locked batch stale_seconds now jobs)

-- A claimed job has the id of a row that there was.
claimed-was_there :
    (locked : ℕ → Bool) (batch stale_seconds now : ℕ) (jobs : List Job)
    → All (λ j. HasId j.id jobs) (map (claim now) (chosen locked batch stale_seconds now jobs))
unfolding reap_stale
claimed-was_there locked batch stale_seconds now jobs =
    All-imp (map (claim now) (chosen locked batch stale_seconds now jobs))
      (λ c (old, m, _, _, _, e).
        sym (
          any-update (λ (j : Job). j.id == c.id) (is_stale stale_seconds now)
            (set_status queued now) jobs (λ j. refl))
        ∙ any-Memᴰ (λ (j : Job). j.id == c.id) old (reap_stale stale_seconds now jobs).1 m
            (ap (λ (x : Job). old.id == x.id) e ∙ ground arith))
      (chosen-IsClaimed locked batch stale_seconds now jobs)

-- No handler enqueues a job with the id of a row that is there.
abbrev pub IsFresh : {W : Type 0} → Handlers W → List Job → Type 0
IsFresh {W} handlers jobs =
    (id : ℕ) → HasId id jobs → (j : Job) (seen : W) → Avoids id (attempted handlers j seen)

-- When a batch has run, every job that it claimed still has a row and has ended by what its handler did
-- with the database that it saw: it has succeeded, without an error, if the handler returned; if that
-- raised, it holds the error and is queued again behind the backoff while attempts are left, and has
-- failed otherwise; and it has failed if there is no handler. None is left running, and the count
-- returned is at most the configured size of a batch. Ids of jobs are unique, and new ids are new.
pub run_once_settles :
    {W : Type 0} (settings : WorkerSettings) (handlers : Handlers W) (locked : ℕ → Bool) (now : ℕ)
    (w : W) (jobs : List Job)
    → HasUniqueIds jobs
    → IsFresh handlers jobs
    → let (claimed, _) =
        claim_batch locked settings.worker_batch_size settings.worker_stale_seconds now jobs in
      let (n, _, after) = run_once settings handlers locked now w jobs in
      (n ≤ settings.worker_batch_size)
      × All (λ j. IsSettled j.id after) claimed
      × All (HasOutcome settings handlers now after) claimed
unfolding run_once
run_once_settles settings handlers locked now w jobs unique fresh =
    let size = settings.worker_batch_size in
    let stale = settings.worker_stale_seconds in
    let claimed = map (claim now) (chosen locked size stale now jobs) in
    (
      omega (arith, (claim_batch_lem locked size stale now jobs).0),
      run_jobs-settles settings handlers _ now w _ (claimed-HasId locked size stale now jobs),
      run_jobs-HasOutcome settings handlers claimed now w _
          (claimed-AreApart locked size stale now jobs unique)
          (All-imp claimed (λ j h. fresh j.id h) (claimed-was_there locked size stale now jobs))
          (claimed-copies locked size stale now jobs unique),
    )
