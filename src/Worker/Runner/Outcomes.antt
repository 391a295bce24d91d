-- ===== src/Worker/Runner/Outcomes.antt =====
-- What becomes of a job that ran, by what its handler did (app/worker/runner.py).
use cofoundaz_api.Prelude.{
  ℕ, ◌+◌, ◌≤◌, ◌<◌, ◌≡◌, ◌≢◌, refl, sym, ap, ◌∙◌, ◌⊎◌, Option, none, some, List, [], ◌∷◌, ◌==◌, ltb,
  subst, inl, inr, arith, All, All-append, All-update, update_where, Bool-cases, Option-cases,
}
use cofoundaz_api.Worker.{Job, queued, succeeded, failed, enqueue}
use cofoundaz_api.Worker.Runner.{
  WorkerSettings, Handlers, Outcome, NewJob, done, raised, backoff_seconds, fail_attempt,
  finalize_success, finalize_failure, finalize_terminal_failure, settle, run_job, run_jobs,
  enqueue_all, succeed, fail,
}

-- What holds of every row with the id.
abbrev pub AllAt : ℕ → (Job → Type 0) → List Job → Type 0
AllAt id P rows = All (λ r. r.id ≡ id → P r) rows

AllAt-update_other :
    (id key : ℕ) (P : Job → Type 0) (f : Job → Job) (rows : List Job)
    → key ≢ id
    → ((j : Job) → (f j).id ≡ j.id)
    → AllAt id P rows
    → AllAt id P (update_where (λ (j : Job). j.id == key) f rows)
AllAt-update_other id key P f rows ne same h =
    All-update (λ r. r.id ≡ id → P r) (λ (j : Job). j.id == key) f rows
      (λ j t k e.
        let at_key : j.id ≡ key = ground arith in absurd (ne (sym at_key ∙ sym (same j) ∙ e)))
      h

AllAt-update_own :
    (id : ℕ) (P Q : Job → Type 0) (f : Job → Job) (rows : List Job)
    → ((j : Job) → P j → Q (f j))
    → AllAt id P rows
    → AllAt id Q (update_where (λ (j : Job). j.id == id) f rows)
AllAt-update_own id P Q f [] k h = tt
AllAt-update_own id P Q f (j ∷ rows) k h = elim (Bool-cases (j.id == id)) [
  | inl t ↦
      let own : j.id ≡ id = ground arith in
      rw t (λ e. k j (h.0 own), AllAt-update_own id P Q f rows k h.1)
  | inr f' ↦ rw f' (λ e. absurd (ground arith), AllAt-update_own id P Q f rows k h.1)
]

AllAt-enqueue :
    (id now : ℕ) (P : Job → Type 0) (new : List NewJob) (rows : List Job)
    → All (λ n. n.id ≢ id) new
    → AllAt id P rows
    → AllAt id P (enqueue_all now new rows)
unfolding enqueue_all enqueue
AllAt-enqueue id now P [] rows ne h = h
AllAt-enqueue id now P (n ∷ new) rows ne h =
    AllAt-enqueue id now P new _ ne.1
      (All-append (λ r. r.id ≡ id → P r) rows _ h (λ e. absurd (ne.0 e), tt))

-- No new job has the id.
abbrev pub Avoids : {W : Type 0} → ℕ → Option (Outcome W) → Type 0
Avoids id none = Unit
Avoids id (some (done w new)) = All (λ n. n.id ≢ id) new
Avoids id (some (raised exc)) = Unit

-- The row that a job ends as: failed with an error that says so if it has no handler; succeeded and
-- without an error if its handler returned; and if that raised, with the error, queued again behind the
-- backoff while attempts are left, and failed otherwise.
abbrev pub EndsAs :
    {W : Type 0} → WorkerSettings → Handlers W → ℕ → Job → Option (Outcome W) → Job → Type 0
EndsAs settings handlers now j none r =
    r ≡ record j { error = some (handlers.no_handler j.kind); status = failed; updated_at = now }
EndsAs settings handlers now j (some (done w new)) r =
    r ≡ record j { status = succeeded; error = none; updated_at = now }
EndsAs settings handlers now j (some (raised exc)) r =
    ((j.attempts < settings.worker_max_attempts)
      × (r ≡ record j {
        error = some exc;
        status = queued;
        run_after = some (now + backoff_seconds j.attempts);
        updated_at = now;
      }))
    ⊎ ((settings.worker_max_attempts ≤ j.attempts)
        × (r ≡ record j { error = some exc; status = failed; updated_at = now }))

-- What the handler of a job does with the database that it sees, if it has one.
abbrev pub attempted : {W : Type 0} → Handlers W → Job → W → Option (Outcome W)
attempted handlers j seen = elim (handlers.find j.kind) [ none ↦ none | some h ↦ some (h j seen) ]

-- No two jobs of the list have one id.
abbrev pub AreApart : List Job → Type 0
AreApart [] = Unit
AreApart (j ∷ rest) = All (λ k. k.id ≢ j.id) rest × AreApart rest

module _ {W : Type 0} (settings : WorkerSettings) (handlers : Handlers W) where
  -- What a run does to the table, by what the handler did.
  abbrev finish : Job → ℕ → Option (Outcome W) → W → List Job → W × List Job
  finish j now none w rows = (w, finalize_terminal_failure j (handlers.no_handler j.kind) now rows)
  finish j now (some o) w rows = settle settings handlers j now o w rows

  run_job-finish :
      (j : Job) (now : ℕ) (w : W) (rows : List Job)
      → run_job settings handlers j now w rows ≡ finish j now (attempted handlers j w) w rows
  unfolding run_job
  run_job-finish j now w rows = elim (Option-cases (handlers.find j.kind)) [
    | inl e ↦
        let left : run_job settings handlers j now w rows ≡ finish j now none w rows =
          rw (e, run_job) refl in
        let right : attempted handlers j w ≡ none = rw (e, attempted) refl in
        left ∙ ap (λ o. finish j now o w rows) (sym right)
    | inr (h, e) ↦
        let left : run_job settings handlers j now w rows ≡ finish j now (some (h j w)) w rows =
          rw (e, run_job) refl in
        let right : attempted handlers j w ≡ some (h j w) = rw (e, attempted) refl in
        left ∙ ap (λ o. finish j now o w rows) (sym right)
  ]

  fail_attempt-id :
      (exc now : ℕ) (x : Job) → (fail_attempt settings.worker_max_attempts exc now x).id ≡ x.id
  unfolding fail_attempt
  fail_attempt-id exc now x = ground arith

  finish-other :
      (id : ℕ) (P : Job → Type 0) (j : Job) (now : ℕ) (o : Option (Outcome W)) (w : W)
      (rows : List Job)
      → j.id ≢ id
      → Avoids id o
      → AllAt id P rows
      → AllAt id P (finish j now o w rows).1
  unfolding settle finalize_success finalize_failure finalize_terminal_failure
  finish-other id P j now none w rows ne a h = AllAt-update_other id j.id P _ rows ne (λ x. refl) h
  finish-other id P j now (some (done w' new)) w rows ne a h =
      AllAt-update_other id j.id P (succeed now) _ ne (λ x. refl)
        (AllAt-enqueue id now P new rows a h)
  finish-other id P j now (some (raised exc)) w rows ne a h =
      AllAt-update_other id j.id P _ rows ne (fail_attempt-id exc now) h

  fail_attempt-EndsAs :
      (exc now : ℕ) (j : Job)
      → EndsAs settings handlers now j
          (some (raised exc))
          (fail_attempt settings.worker_max_attempts exc now j)
  unfolding fail_attempt
  fail_attempt-EndsAs exc now j = elim (Bool-cases (ltb j.attempts settings.worker_max_attempts)) [
    | inl t ↦ inl (ground arith, rw t refl)
    | inr f ↦ inr (ground arith, rw f refl)
  ]

  finish-own :
      (j : Job) (now : ℕ) (o : Option (Outcome W)) (w : W) (rows : List Job)
      → Avoids j.id o
      → AllAt j.id (λ r. r ≡ j) rows
      → AllAt j.id (EndsAs settings handlers now j o) (finish j now o w rows).1
  unfolding settle finalize_success finalize_failure finalize_terminal_failure
  finish-own j now none w rows a h =
      AllAt-update_own j.id (λ r. r ≡ j) _ _ rows
        (λ x e. ap (λ (y : Job). fail (handlers.no_handler j.kind) now y) e) h
  finish-own j now (some (done w' new)) w rows a h =
      AllAt-update_own j.id (λ r. r ≡ j) _ (succeed now) _ (λ x e. ap (λ y. succeed now y) e)
        (AllAt-enqueue j.id now (λ r. r ≡ j) new rows a h)
  finish-own j now (some (raised exc)) w rows a h =
      AllAt-update_own j.id (λ r. r ≡ j) (EndsAs settings handlers now j (some (raised exc))) _ rows
        (λ x e.
          subst
            (λ y.
              EndsAs settings handlers now j (some (raised exc))
                (fail_attempt settings.worker_max_attempts exc now y))
            (sym e) (fail_attempt-EndsAs exc now j))
        h

  -- Each row of the job ended as its handler, on the database that it saw, had it end.
  abbrev pub HasOutcome : ℕ → List Job → Job → Type 0
  HasOutcome now after j =
      (seen : W) × AllAt j.id (EndsAs settings handlers now j (attempted handlers j seen)) after

  abbrev pub AvoidsAll : ℕ → Type 0
  AvoidsAll id = (j : Job) (seen : W) → Avoids id (attempted handlers j seen)

  run_jobs-other :
      (id : ℕ) (P : Job → Type 0) (claimed : List Job) (now : ℕ) (w : W) (rows : List Job)
      → All (λ j. j.id ≢ id) claimed
      → AvoidsAll id
      → AllAt id P rows
      → AllAt id P (run_jobs settings handlers claimed now w rows).1
  unfolding run_jobs
  run_jobs-other id P [] now w rows ne a h = h
  run_jobs-other id P (j ∷ rest) now w rows ne a h = run_jobs-other id P rest now _ _ ne.1 a (
      subst (λ (s : W × List Job). AllAt id P s.1) (sym (run_job-finish j now w rows))
        (finish-other id P j now (attempted handlers j w) w rows ne.0 (a j w) h))

  pub run_jobs-HasOutcome :
      (claimed : List Job) (now : ℕ) (w : W) (rows : List Job)
      → AreApart claimed
      → All (λ j. AvoidsAll j.id) claimed
      → All (λ j. AllAt j.id (λ r. r ≡ j) rows) claimed
      → All (HasOutcome now (run_jobs settings handlers claimed now w rows).1) claimed
  unfolding run_jobs
  run_jobs-HasOutcome [] now w rows apart a h = tt
  run_jobs-HasOutcome (j ∷ rest) now w rows apart a h =
      let next = run_job settings handlers j now w rows in
      let own : AllAt j.id (EndsAs settings handlers now j (attempted handlers j w)) next.1 =
        subst
          (λ (s : W × List Job).
            AllAt j.id (EndsAs settings handlers now j (attempted handlers j w)) s.1)
          (sym (run_job-finish j now w rows))
          (finish-own j now (attempted handlers j w) w rows (a.0 j w) h.0) in
      (
        (w, run_jobs-other j.id _ rest now next.0 next.1 apart.0 a.0 own),
        run_jobs-HasOutcome rest now next.0 next.1 apart.1 a.1 (still rest apart.0 a.1 h.1),
      )
    where
      still :
          (ks : List Job)
          → All (λ k. k.id ≢ j.id) ks
          → All (λ k. AvoidsAll k.id) ks
          → All (λ k. AllAt k.id (λ r. r ≡ k) rows) ks
          → All (λ k. AllAt k.id (λ r. r ≡ k) (run_job settings handlers j now w rows).1) ks
      still [] ne av c = tt
      still (k ∷ ks) ne av c = (
        subst (λ (s : W × List Job). AllAt k.id (λ r. r ≡ k) s.1)
            (sym (run_job-finish j now w rows))
            (finish-other k.id (λ r. r ≡ k) j now (attempted handlers j w) w rows
              (λ e. ne.0 (sym e)) (av.0 j w) c.0),
        still ks ne.1 av.1 c.1,
      )
