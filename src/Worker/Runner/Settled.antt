-- ===== src/Worker/Runner/Settled.antt =====
-- What a run leaves of the jobs that it was given (app/worker/runner.py).
use cofoundaz_api.Prelude.{
  ℕ, ◌≡◌, refl, ap, ◌∙◌, ◌⊎◌, Bool, true, List, [], ◌∷◌, ◌==◌, inl, inr, arith, ltb, any,
  any-update, any-append, All, All-update, All-append, All-imp, update_where, Bool-cases,
  Option-cases,
}
use cofoundaz_api.Worker.{Job, JobStatus, succeeded, failed, queued, enqueue}
use cofoundaz_api.Worker.Runner.{
  WorkerSettings, Handlers, Outcome, NewJob, done, raised, fail_attempt, finalize_success,
  finalize_failure, finalize_terminal_failure, settle, run_job, run_jobs, enqueue_all, succeed,
  fail,
}

abbrev pub HasEnded : JobStatus → Type 0
HasEnded s = (s ≡ succeeded) ⊎ ((s ≡ failed) ⊎ (s ≡ queued))

abbrev pub HasId : ℕ → List Job → Type 0
HasId id jobs = any (λ (j : Job). j.id == id) jobs ≡ true

-- There is a row with the id, and each that has it has succeeded, has failed or is queued.
abbrev pub IsSettled : ℕ → List Job → Type 0
IsSettled id jobs = HasId id jobs × All (λ j. j.id ≡ id → HasEnded j.status) jobs

abbrev Ends : (Job → Job) → Type 0
Ends f = (j : Job) → ((f j).id ≡ j.id) × HasEnded (f j).status

pub HasId-update :
    (id : ℕ) (p : Job → Bool) (f : Job → Job) (jobs : List Job)
    → ((j : Job) → (f j).id ≡ j.id)
    → HasId id jobs
    → HasId id (update_where p f jobs)
HasId-update id p f jobs k h =
    any-update (λ (j : Job). j.id == id) p f jobs (λ j. ap (λ i. i == id) (k j)) ∙ h

-- An update that keeps ids and ends a job keeps what is settled.
IsSettled-update :
    (id : ℕ) (p : Job → Bool) (f : Job → Job) (jobs : List Job)
    → Ends f
    → IsSettled id jobs
    → IsSettled id (update_where p f jobs)
IsSettled-update id p f jobs k h = (
  HasId-update id p f jobs (λ j. (k j).0) h.0,
  All-update (λ j. j.id ≡ id → HasEnded j.status) p f jobs (λ x e i same. (k x).1) h.1,
)

settles :
    (id : ℕ) (f : Job → Job) (jobs : List Job)
    → Ends f
    → HasId id jobs
    → IsSettled id (update_where (λ j. j.id == id) f jobs)
settles id f jobs k h = (HasId-update id _ f jobs (λ j. (k j).0) h, ended jobs)
  where
    ended :
        (js : List Job)
        → All (λ j. j.id ≡ id → HasEnded j.status) (update_where (λ (j : Job). j.id == id) f js)
    ended [] = tt
    ended (j ∷ js) = elim (Bool-cases (j.id == id)) [
      | inl t ↦ rw t (λ e. (k j).1, ended js)
      | inr f' ↦ rw f' (λ e. absurd (ground arith), ended js)
    ]

IsSettled-enqueue :
    (id now : ℕ) (new : List NewJob) (jobs : List Job)
    → IsSettled id jobs
    → IsSettled id (enqueue_all now new jobs)
unfolding enqueue_all enqueue
IsSettled-enqueue id now [] jobs h = h
IsSettled-enqueue id now (n ∷ new) jobs h = IsSettled-enqueue id now new _ (
  any-append (λ (j : Job). j.id == id) jobs _ h.0,
  All-append (λ j. j.id ≡ id → HasEnded j.status) jobs _ h.1 (λ e. inr (inr refl), tt),
)

HasId-enqueue :
    (id now : ℕ) (new : List NewJob) (jobs : List Job)
    → HasId id jobs
    → HasId id (enqueue_all now new jobs)
unfolding enqueue_all enqueue
HasId-enqueue id now [] jobs h = h
HasId-enqueue id now (n ∷ new) jobs h =
    HasId-enqueue id now new _ (any-append (λ (j : Job). j.id == id) jobs _ h)

fail_attempt-Ends : (max_attempts exc now : ℕ) → Ends (fail_attempt max_attempts exc now)
unfolding fail_attempt
fail_attempt-Ends max_attempts exc now j = elim (Bool-cases (ltb j.attempts max_attempts)) [
  | inl t ↦ rw t (refl, inr (inr refl))
  | inr f ↦ rw f (refl, inr (inl refl))
]

succeed-Ends : (now : ℕ) → Ends (succeed now)
succeed-Ends now j = (refl, inl refl)

fail-Ends : (exc now : ℕ) → Ends (fail exc now)
fail-Ends exc now j = (refl, inr (inl refl))

module _ {W : Type 0} (settings : WorkerSettings) (handlers : Handlers W) where
  settle-settles :
      (job : Job) (now : ℕ) (o : Outcome W) (w : W) (jobs : List Job)
      → HasId job.id jobs
      → IsSettled job.id (settle settings handlers job now o w jobs).1
  unfolding settle finalize_success finalize_failure
  settle-settles job now (done w' new) w jobs h =
      settles job.id (succeed now) _ (succeed-Ends now) (HasId-enqueue job.id now new jobs h)
  settle-settles job now (raised exc) w jobs h =
      settles job.id _ jobs (fail_attempt-Ends settings.worker_max_attempts exc now) h

  settle-keeps :
      (id : ℕ) (job : Job) (now : ℕ) (o : Outcome W) (w : W) (jobs : List Job)
      → IsSettled id jobs
      → IsSettled id (settle settings handlers job now o w jobs).1
  unfolding settle finalize_success finalize_failure
  settle-keeps id job now (done w' new) w jobs h =
      IsSettled-update id _ (succeed now) _ (succeed-Ends now) (IsSettled-enqueue id now new jobs h)
  settle-keeps id job now (raised exc) w jobs h =
      IsSettled-update id _ _ jobs (fail_attempt-Ends settings.worker_max_attempts exc now) h

  settle-HasId :
      (id : ℕ) (job : Job) (now : ℕ) (o : Outcome W) (w : W) (jobs : List Job)
      → HasId id jobs
      → HasId id (settle settings handlers job now o w jobs).1
  unfolding settle finalize_success finalize_failure
  settle-HasId id job now (done w' new) w jobs h =
      HasId-update id _ (succeed now) _ (λ j. refl) (HasId-enqueue id now new jobs h)
  settle-HasId id job now (raised exc) w jobs h =
      HasId-update id _ _ jobs (λ j. (fail_attempt-Ends settings.worker_max_attempts exc now j).0) h

  -- A job that ran is settled; what was settled, or present, is so still.
  run_job-settles :
      (id : ℕ) (job : Job) (now : ℕ) (w : W) (jobs : List Job)
      → let after = (run_job settings handlers job now w jobs).1 in
        (HasId job.id jobs → IsSettled job.id after)
        × (IsSettled id jobs → IsSettled id after)
        × (HasId id jobs → HasId id after)
  unfolding run_job finalize_terminal_failure
  run_job-settles id job now w jobs = elim (Option-cases (handlers.find job.kind)) [
    | inl missing ↦
        let missing_text = handlers.no_handler job.kind in
        rw (missing, run_job)
          (
            settles job.id (fail missing_text now) jobs (fail-Ends missing_text now),
            IsSettled-update id _ (fail missing_text now) jobs (fail-Ends missing_text now),
            HasId-update id _ (fail missing_text now) jobs (λ j. refl),
          )
    | inr (handler, found) ↦
        rw (found, run_job)
          (
            settle-settles job now (handler job w) w jobs,
            settle-keeps id job now (handler job w) w jobs,
            settle-HasId id job now (handler job w) w jobs,
          )
  ]

  run_jobs-keeps :
      (id : ℕ) (claimed : List Job) (now : ℕ) (w : W) (jobs : List Job)
      → IsSettled id jobs
      → IsSettled id (run_jobs settings handlers claimed now w jobs).1
  unfolding run_jobs
  run_jobs-keeps id [] now w jobs h = h
  run_jobs-keeps id (job ∷ rest) now w jobs h =
      run_jobs-keeps id rest now _ _ ((run_job-settles id job now w jobs).1 h)

  pub run_jobs-settles :
      (claimed : List Job) (now : ℕ) (w : W) (jobs : List Job)
      → All (λ j. HasId j.id jobs) claimed
      → All (λ j. IsSettled j.id (run_jobs settings handlers claimed now w jobs).1) claimed
  unfolding run_jobs
  run_jobs-settles [] now w jobs h = tt
  run_jobs-settles (job ∷ rest) now w jobs h = (
    run_jobs-keeps job.id rest now _ _ ((run_job-settles job.id job now w jobs).0 h.0),
    run_jobs-settles rest now _ _
        (All-imp rest (λ j k. (run_job-settles j.id job now w jobs).2 k) h.1),
  )
