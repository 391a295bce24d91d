-- ===== src/Worker/Runner/Retry.antt =====
-- Backoff, failed attempts and stale jobs (app/worker/runner.py).
use cofoundaz_api.Prelude.{
  ℕ, ◌+◌, ◌-◌, ◌^◌, ◌≤◌, ◌<◌, ◌≡◌, refl, Bool, true, false, some, List, [], ◌∷◌, arith, count,
  Bool-cases, inl, inr, ◌⊎◌, Pointwise, Pointwise-update, update_where,
}
use native.Mathlib.Nat.{one-le-pow, pow-le-pow_right}
use cofoundaz_api.Worker.{Job, JobStatus, queued, running, failed, is_queued, is_running}
use cofoundaz_api.Worker.Runner.{
  backoff_seconds, fail_attempt, is_claimable, reap_stale, is_stale, set_status,
}

-- The delay is between half a minute and an hour.
backoff_bounds :
    (attempts : ℕ) → (30 ≤ backoff_seconds attempts) × (backoff_seconds attempts ≤ 3600)
unfolding backoff_seconds
backoff_bounds attempts =
    let p = one-le-pow (attempts - 1) 2 (omega arith) in (omega arith, omega arith)

-- The delay lies between half a minute and an hour, never falls from one attempt to a later one, and
-- is exactly an hour from the eighth attempt on.
pub backoff_seconds_lem :
    (a b : ℕ)
    → a ≤ b
    → (30 ≤ backoff_seconds a)
      × (backoff_seconds a ≤ backoff_seconds b)
      × (backoff_seconds b ≤ 3600)
      × (backoff_seconds (8 + a) ≡ 3600)
unfolding backoff_seconds
backoff_seconds_lem a b h =
    let mono : 2 ^ (a - 1) ≤ 2 ^ (b - 1) = pow-le-pow_right {n = 2} (omega arith) (omega arith) in
    let large : 2 ^ 7 ≤ 2 ^ (8 + a - 1) =
      pow-le-pow_right {n = 2} (omega arith) {i = 7} (omega arith) in
    ((backoff_bounds a).0, omega arith, (backoff_bounds b).1, omega arith)

-- A failed attempt below the limit puts the job back on the queue, to run in half a minute to an
-- hour, with the error stored and the count of attempts as it was.
pub fail_attempt_below :
    (max_attempts exc now : ℕ) (j : Job)
    → j.attempts < max_attempts
    → let j' = fail_attempt max_attempts exc now j in
      (j'.error ≡ some exc)
      × (j'.attempts ≡ j.attempts)
      × (j'.status ≡ queued)
      × ((t : ℕ) × (j'.run_after ≡ some t) × (now + 30 ≤ t) × (t ≤ now + 3600))
unfolding fail_attempt
fail_attempt_below max_attempts exc now j h =
    let (low, high) = backoff_bounds j.attempts in
    (
      ground arith,
      ground arith,
      ground arith,
      (now + backoff_seconds j.attempts, ground arith, omega arith, omega arith),
    )

-- A job that cannot be claimed again by any worker, however late.
abbrev pub IsFinal : Job → Type 0
IsFinal j = (locked : ℕ → Bool) (now : ℕ) → is_claimable locked now j ≡ false

-- A failed attempt at the limit fails the job for good: the error is stored, and no worker can claim
-- the row at any later time.
pub fail_attempt-IsFinal :
    (max_attempts exc now : ℕ) (j : Job)
    → max_attempts ≤ j.attempts
    → let j' = fail_attempt max_attempts exc now j in
      (j'.error ≡ some exc) × (j'.status ≡ failed) × IsFinal j'
unfolding fail_attempt
fail_attempt-IsFinal max_attempts exc now j h =
    (ground arith, ground arith, λ locked later. ground arith)

-- A row before and after reaping: one that has been running for longer than the stale window is
-- queued, with a new time of update, and every other is as it was.
abbrev pub IsReaped : ℕ → ℕ → Job → Job → Type 0
IsReaped stale_seconds now old new =
    ((old.status ≡ running)
      × (old.updated_at + stale_seconds < now)
      × (new ≡ record old { status = queued; updated_at = now }))
    ⊎ (((is_running old.status ≡ false) ⊎ (now ≤ old.updated_at + stale_seconds)) × (new ≡ old))

running_of : (s : JobStatus) → is_running s ≡ true → s ≡ running
running_of JobStatus.queued e = cc
running_of JobStatus.running e = refl
running_of JobStatus.succeeded e = cc
running_of JobStatus.failed e = cc
running_of JobStatus.cancelled e = cc

fresh_or_idle :
    (stale_seconds now : ℕ) (j : Job)
    → is_stale stale_seconds now j ≡ false
    → (is_running j.status ≡ false) ⊎ (now ≤ j.updated_at + stale_seconds)
fresh_or_idle stale_seconds now j f = elim (Bool-cases (is_running j.status)) [
  | inr idle ↦ inl idle
  | inl t ↦ inr (ground arith)
]

-- Reaping puts every job that has been running for longer than the stale window back on the queue,
-- whatever its count of attempts, which stays, as do its other columns but the time of update; it
-- changes no other job, and returns the number of those it put back.
pub reap_stale_requeues :
    (stale_seconds now : ℕ) (jobs : List Job)
    → let (n, jobs') = reap_stale stale_seconds now jobs in
      Pointwise (IsReaped stale_seconds now) jobs jobs'
      × (count (λ j. is_queued j.status) jobs' ≡ count (λ j. is_queued j.status) jobs + n)
unfolding reap_stale
reap_stale_requeues stale_seconds now jobs = (
  Pointwise-update (IsReaped stale_seconds now) (is_stale stale_seconds now) (set_status queued now)
      jobs (λ j t. inl (running_of j.status (ground arith), ground arith, refl))
      (λ j f. inr (fresh_or_idle stale_seconds now j f, refl)),
  requeued jobs,
)
  where
    requeued :
        (js : List Job)
        → count
            (λ j. is_queued j.status)
            (update_where (is_stale stale_seconds now) (set_status queued now) js)
          ≡ count (λ j. is_queued j.status) js + count (is_stale stale_seconds now) js
    requeued [] = refl
    requeued (j ∷ js) = ground (arith, requeued js)
