-- ===== src/Worker/Runner/Claims.antt =====
-- What a batch claims, and what the claim does to the table (app/worker/runner.py).
use cofoundaz_api.Prelude.{
  ℕ, ◌+◌, ◌≤◌, ◌≡◌, refl, sym, ap, ◌∙◌, ◌⊎◌, ⊎_elim, ◌||◌, Bool, true, false, List, [], ◌∷◌, ◌==◌,
  inl, inr, arith, min, take, length, length-map, length-take, length-order_by, length-where, count,
  any, map, All, All-order_by, All-map, All-take, All-imp, All-both, All-Memᴰ, All-where, All-fits,
  All-found, All-unorder, IsSortedBy, IsSortedBy-order_by, order_by, take-or_above, where_all,
  update_where, Memᴰ, Memᴰ-map, Pointwise, Pointwise-update,
}
use cofoundaz_api.Worker.{Job, JobStatus, running, queued, is_queued}
use cofoundaz_api.Worker.Runner.{reap_stale, is_due, is_claimable, claim}
use cofoundaz_api.Worker.Runner.Settled.{HasId}

queued_of : (s : JobStatus) → is_queued s ≡ true → s ≡ queued
queued_of JobStatus.queued e = refl
queued_of JobStatus.running e = cc
queued_of JobStatus.succeeded e = cc
queued_of JobStatus.failed e = cc
queued_of JobStatus.cancelled e = cc

-- The row that a claim makes of one.
abbrev pub claimed_row : ℕ → Job → Job
claimed_row now j = record j { status = running; attempts = j.attempts + 1; updated_at = now }

-- A claimed row is a row of the table that was queued, due and not locked, marked as running with one
-- attempt more.
abbrev pub IsClaimed : (ℕ → Bool) → ℕ → List Job → Job → Type 0
IsClaimed locked now rows c =
    (old : Job) × Memᴰ old rows
    × (old.status ≡ queued)
    × (is_due now old.run_after ≡ true)
    × (locked old.id ≡ false)
    × (c ≡ claimed_row now old)

-- A row that may be claimed is claimed, unless all that are were created at least as early.
abbrev pub IsServed : ℕ → List Job → Job → Type 0
IsServed now claimed r =
    Memᴰ (claimed_row now r) claimed ⊎ All (λ c. c.created_at ≤ r.created_at) claimed

-- The table keeps every row that no claimed row has the id of, and has the others claimed.
abbrev pub IsClaimStep : ℕ → List Job → Job → Job → Type 0
IsClaimStep now claimed old new =
    (HasId old.id claimed × (new ≡ claimed_row now old))
    ⊎ ((any (λ (c : Job). c.id == old.id) claimed ≡ false) × (new ≡ old))

pub sorted-claim :
    (now : ℕ) (jobs : List Job)
    → IsSortedBy (λ (j : Job). j.created_at) jobs
    → IsSortedBy (λ (j : Job). j.created_at) (map (claim now) jobs)
sorted-claim now [] h = tt
sorted-claim now (j ∷ jobs) h = (
  All-map (λ x. j.created_at ≤ x.created_at) (λ x. j.created_at ≤ x.created_at) (claim now) jobs
      (λ x k. k) h.0,
  sorted-claim now jobs h.1,
)

same_ids :
    (now id : ℕ) (chosen : List Job)
    → any (λ i. i == id) (map (λ (j : Job). j.id) chosen)
      ≡ any (λ (c : Job). c.id == id) (map (claim now) chosen)
same_ids now id [] = refl
same_ids now id (j ∷ chosen) = ap (λ b. (j.id == id) || b) (same_ids now id chosen)

module _ (locked : ℕ → Bool) (batch stale_seconds now : ℕ) (jobs : List Job) where
  abbrev pub reaped : List Job
  reaped = (reap_stale stale_seconds now jobs).1

  abbrev pub ready : List Job
  ready = where_all (is_claimable locked now) reaped

  abbrev pub chosen : List Job
  chosen = take batch (order_by (λ (j : Job). j.created_at) ready)

  pub chosen-IsClaimed : All (IsClaimed locked now reaped) (map (claim now) chosen)
  chosen-IsClaimed =
      let P = λ (j : Job). Memᴰ j reaped × (is_claimable locked now j ≡ true) in
      let created = λ (j : Job). j.created_at in
      let fits =
        All-both (λ j. Memᴰ j reaped) (λ j. is_claimable locked now j ≡ true) ready
          (All-where (λ j. Memᴰ j reaped) (is_claimable locked now) reaped (All-Memᴰ reaped))
          (All-fits (is_claimable locked now) reaped) in
      All-map P _ (claim now) chosen
        (λ j (m, e). (j, m, queued_of j.status (ground arith), ground arith, ground arith, refl))
        (All-take P batch (order_by created ready) (All-order_by P created ready fits))

  pub chosen-IsServed :
      All
        (λ r. (is_claimable locked now r ≡ false) ⊎ IsServed now (map (claim now) chosen) r)
        reaped
  chosen-IsServed =
      let created = λ (j : Job). j.created_at in
      let P = IsServed now (map (claim now) chosen) in
      All-found P (is_claimable locked now) reaped (
        All-unorder P created ready (
          All-imp (order_by created ready)
            (λ r found.
              ⊎_elim (λ m. inl (Memᴰ-map (claim now) r chosen m))
                (λ above. inr (
                  All-map (λ c. c.created_at ≤ r.created_at) (λ c. c.created_at ≤ r.created_at)
                    (claim now) chosen (λ c k. k) above))
                found)
            (take-or_above created batch (order_by created ready)
              (IsSortedBy-order_by created ready))))

  pub length-chosen :
      length (map (claim now) chosen) ≡ min batch (count (is_claimable locked now) reaped)
  length-chosen =
      let created = λ (j : Job). j.created_at in
      length-map (claim now) chosen
      ∙ length-take batch (order_by created ready)
      ∙ ap (min batch)
          (length-order_by created ready ∙ length-where (is_claimable locked now) reaped)

  pub table-IsClaimStep :
      Pointwise (IsClaimStep now (map (claim now) chosen)) reaped (
        update_where
          (λ j. any (λ i. i == j.id) (map (λ (j : Job). j.id) chosen))
          (claim now)
          reaped)
  table-IsClaimStep =
      Pointwise-update (IsClaimStep now (map (claim now) chosen)) _ (claim now) reaped
        (λ j t. inl (sym (same_ids now j.id chosen) ∙ t, refl))
        (λ j f. inr (sym (same_ids now j.id chosen) ∙ f, refl))
