-- ===== src/Worker/Runner/Tests.antt =====
-- A queue of three jobs: one that has a handler, one that is stale, and one that has none.
use Prim.Native.String.{String}
use package.text.Mathlib.Text.{◌==◌ as str_eq}
use cofoundaz_api.Prelude.{
  subst, sym, Bool-cases, inl, inr, arith, if◌then◌else◌, ◌==◌, ℕ, ◌+◌, ◌≤◌, ◌≡◌, refl, Bool, false,
  some, none, List, [], ◌∷◌, count, All, length, IsSortedBy, Pointwise, min, ◌⊎◌,
}
use cofoundaz_api.Worker.{Job, JobStatus, is_queued}
use cofoundaz_api.Worker.Runner.{
  WorkerSettings, Handlers, Outcome, done, raised, backoff_seconds, reap_stale, is_claimable,
  claim_batch, run_once,
}
use cofoundaz_api.Worker.Runner.Retry.{IsReaped, reap_stale_requeues}
use cofoundaz_api.Worker.Runner.Settled.{IsSettled}
use cofoundaz_api.Worker.Runner.Outcomes.{Avoids, attempted, HasOutcome}
use cofoundaz_api.Worker.Runner.Keys.{HasUniqueIds}
use cofoundaz_api.Worker.Runner.Claims.{IsClaimed, IsServed, IsClaimStep}
use cofoundaz_api.Worker.Runner.Batch.{IsFresh, claim_batch_lem, run_once_settles}

abbrev job : ℕ → String → JobStatus → ℕ → Job
job id kind status attempts = record {
  id = id;
  kind = kind;
  status = status;
  startup_id = none;
  payload = [];
  error = none;
  attempts = attempts;
  run_after = none;
  created_at = 100 + id;
  updated_at = 100;
}

abbrev queue : List Job
queue =
    job 3 "unknown" JobStatus.queued 0
    ∷ job 1 "mail" JobStatus.queued 0
    ∷ job 2 "mail" JobStatus.running 1
    ∷ []

abbrev settings : WorkerSettings
settings = record { worker_batch_size = 2; worker_stale_seconds = 600; worker_max_attempts = 3 }

abbrev free : ℕ → Bool
free id = false

-- The handler counts; it raises on every job but the first.
abbrev handle : Job → ℕ → Outcome ℕ
handle j w = if j.id == 1 then done (w + 1) [] else raised 7

abbrev handlers : Handlers ℕ
handlers = record {
  find = λ kind. if str_eq kind "mail" then some handle else none;
  no_handler = λ kind. 9;
}

the_delays : (backoff_seconds 1 ≡ 30) × (backoff_seconds 3 ≡ 120) × (backoff_seconds 9 ≡ 3600)
unfolding backoff_seconds
the_delays = (refl, refl, refl)

the_run : (run_once settings handlers free 1000 0 queue).0 ≡ 2
unfolding run_once
the_run = refl

reap_stale_requeues_example :
    let (n, jobs') = reap_stale 600 1000 queue in
    Pointwise (IsReaped 600 1000) queue jobs' × (count (λ j. is_queued j.status) jobs' ≡ 2 + n)
reap_stale_requeues_example = reap_stale_requeues 600 1000 queue

claim_batch_lem_example :
    let (claimed, jobs') = claim_batch free 2 600 1000 queue in
    let (_, rows) = reap_stale 600 1000 queue in
    (length claimed ≡ min 2 (count (is_claimable free 1000) rows))
    × IsSortedBy (λ j. j.created_at) claimed
    × All (IsClaimed free 1000 rows) claimed
    × All (λ r. (is_claimable free 1000 r ≡ false) ⊎ IsServed 1000 claimed r) rows
    × Pointwise (IsClaimStep 1000 claimed) rows jobs'
claim_batch_lem_example = claim_batch_lem free 2 600 1000 queue

queue-HasUniqueIds : HasUniqueIds queue
queue-HasUniqueIds id = ground arith

abbrev chosen_by : Bool → Handlers ℕ
chosen_by b = record { find = λ kind. if b then some handle else none; no_handler = λ kind. 9 }

handle-Avoids : (id : ℕ) (j : Job) (seen : ℕ) → Avoids id (some (handle j seen))
handle-Avoids id j seen = elim (Bool-cases (j.id == 1)) [ inl u ↦ rw u tt | inr g ↦ rw g tt ]

queue-IsFresh : IsFresh handlers queue
queue-IsFresh id h j seen =
    let on = λ (b : Bool). Avoids id (attempted (chosen_by b) j seen) in
    elim (Bool-cases (str_eq j.kind "mail")) [
      | inr f ↦ subst on (sym f) tt
      | inl t ↦ subst on (sym t) (handle-Avoids id j seen)
    ]

run_once_settles_example :
    let (claimed, _) = claim_batch free 2 600 1000 queue in
    let (n, _, after) = run_once settings handlers free 1000 0 queue in
    (n ≤ 2)
    × All (λ j. IsSettled j.id after) claimed
    × All (HasOutcome settings handlers 1000 after) claimed
run_once_settles_example =
    run_once_settles settings handlers free 1000 0 queue queue-HasUniqueIds queue-IsFresh
