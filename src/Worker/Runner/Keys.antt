-- ===== src/Worker/Runner/Keys.antt =====
-- The primary key of the job table, through a claim (app/worker/runner.py).
use mathlib.Core.List.Memᴰ
use cofoundaz_api.Prelude.{
  ℕ, zero, suc, ◌≤◌, ◌≡◌, ◌≢◌, refl, sym, ap, ◌∙◌, Bool, true, List, [], ◌∷◌, ◌==◌, inl, inr,
  ⊎_elim, arith, take, count, any-Memᴰ, map, All, All-imp, All-both, All-Memᴰ, order_by,
  count-order_by, where_all, update_where, Memᴰ, Pointwise, Bool-cases,
}
use cofoundaz_api.Worker.{Job, queued}
use cofoundaz_api.Worker.Runner.{is_stale, set_status, reap_stale, is_claimable, claim, claim_batch}
use cofoundaz_api.Worker.Runner.Claims.{
  claimed_row, IsClaimStep, ready, chosen, reaped, chosen-IsClaimed, table-IsClaimStep,
}
use cofoundaz_api.Worker.Runner.Outcomes.{AllAt, AreApart}

abbrev has_key : ℕ → Job → Bool
has_key id j = j.id == id

-- The primary key: an id belongs to at most one row.
abbrev pub HasUniqueIds : List Job → Type 0
HasUniqueIds jobs = (id : ℕ) → count (λ (j : Job). j.id == id) jobs ≤ 1

count-Memᴰ : (id : ℕ) (a : Job) (xs : List Job) → Memᴰ a xs → a.id ≡ id → 1 ≤ count (has_key id) xs
count-Memᴰ id a [] m e = absurd (Memᴰ.not-nil m)
count-Memᴰ id a (x ∷ xs) m e = elim (Memᴰ.cases_cons m) [
  | inl same ↦
      let hit : (x.id == id) ≡ true =
        let own : x.id ≡ id = ap (λ (y : Job). y.id) (sym same) ∙ e in ground arith in
      rw hit (omega arith)
  | inr later ↦ let r = count-Memᴰ id a xs later e in ground arith
]

unique-tail : (x : Job) (xs : List Job) → HasUniqueIds (x ∷ xs) → HasUniqueIds xs
unique-tail x xs u id = let h = u id in ground arith

same_row :
    (a b : Job) (xs : List Job) → HasUniqueIds xs → Memᴰ a xs → Memᴰ b xs → a.id ≡ b.id → a ≡ b
same_row a b [] u m n e = absurd (Memᴰ.not-nil m)
same_row a b (x ∷ xs) u m n e = elim (Memᴰ.cases_cons m) [
  | inl p ↦ elim (Memᴰ.cases_cons n) [
    | inl q ↦ p ∙ sym q
    | inr q ↦
        let id : x.id ≡ b.id = ap (λ (y : Job). y.id) (sym p) ∙ e in
        let later = count-Memᴰ b.id b xs q refl in let h = u b.id in absurd (ground arith)
  ]
  | inr p ↦ elim (Memᴰ.cases_cons n) [
    | inl q ↦
        let id : x.id ≡ a.id = ap (λ (y : Job). y.id) (sym q) ∙ sym e in
        let later = count-Memᴰ a.id a xs p refl in let h = u a.id in absurd (ground arith)
    | inr q ↦ same_row a b xs (unique-tail x xs u) p q e
  ]
]

count-update_ids :
    (id : ℕ) (p : Job → Bool) (f : Job → Job) (xs : List Job)
    → ((j : Job) → (f j).id ≡ j.id)
    → count (has_key id) (update_where p f xs) ≡ count (has_key id) xs
count-update_ids id p f [] same = refl
count-update_ids id p f (x ∷ xs) same = ground (arith, same x, count-update_ids id p f xs same)

count-map_ids :
    (id now : ℕ) (xs : List Job) → count (has_key id) (map (claim now) xs) ≡ count (has_key id) xs
count-map_ids id now [] = refl
count-map_ids id now (x ∷ xs) = ground (arith, count-map_ids id now xs)

count-take-le : (p : Job → Bool) (n : ℕ) (xs : List Job) → count p (take n xs) ≤ count p xs
count-take-le p zero xs = omega arith
count-take-le p (suc n) [] = omega arith
count-take-le p (suc n) (x ∷ xs) = ground (arith, count-take-le p n xs)

count-where-le : (p q : Job → Bool) (xs : List Job) → count p (where_all q xs) ≤ count p xs
count-where-le p q [] = omega arith
count-where-le p q (x ∷ xs) = ground (arith, count-where-le p q xs)

none_has : (id : ℕ) (xs : List Job) → count (has_key id) xs ≡ 0 → All (λ (k : Job). k.id ≢ id) xs
none_has id [] e = tt
none_has id (x ∷ xs) e = elim (Bool-cases (x.id == id)) [
  | inl t ↦ absurd (ground arith)
  | inr f ↦ (λ same. absurd (ground arith), none_has id xs (rw f at e))
]

AreApart-unique : (xs : List Job) → HasUniqueIds xs → AreApart xs
AreApart-unique [] u = tt
AreApart-unique (x ∷ xs) u =
    let self : (x.id == x.id) ≡ true = ground arith in
    let h = u x.id in
    let zero_left : count (has_key x.id) xs ≡ 0 = ground arith in
    (none_has x.id xs zero_left, AreApart-unique xs (unique-tail x xs u))

All-step :
    (R : Job → Job → Type 0) (P Q : Job → Type 0) (xs ys : List Job)
    → ((x y : Job) → P x → R x y → Q y)
    → All P xs
    → Pointwise R xs ys
    → All Q ys
All-step R P Q [] [] k h r = tt
All-step R P Q (x ∷ xs) (y ∷ ys) k h r = (k x y h.0 r.0, All-step R P Q xs ys k h.1 r.1)
All-step R P Q [] (y ∷ ys) k h r = absurd r
All-step R P Q (x ∷ xs) [] k h r = absurd r

module _ (locked : ℕ → Bool) (batch stale_seconds now : ℕ) (jobs : List Job) where
  abbrev rows : List Job
  rows = reaped locked batch stale_seconds now jobs

  abbrev claimed : List Job
  claimed = map (claim now) (chosen locked batch stale_seconds now jobs)

  reaped-HasUniqueIds : HasUniqueIds jobs → HasUniqueIds rows
  unfolding reap_stale
  reaped-HasUniqueIds u id =
      let h = u id in
      omega (
        arith,
        h,
        count-update_ids id (is_stale stale_seconds now) (set_status queued now) jobs (λ j. refl),
      )

  pub claimed-AreApart : HasUniqueIds jobs → AreApart claimed
  claimed-AreApart u = AreApart-unique claimed (λ id.
      let created = λ (j : Job). j.created_at in
      let all_ready = ready locked batch stale_seconds now jobs in
      omega (
        arith,
        reaped-HasUniqueIds u id,
        count-map_ids id now (chosen locked batch stale_seconds now jobs),
        count-take-le (has_key id) batch (order_by created all_ready),
        count-order_by (has_key id) created all_ready,
        count-where-le (has_key id) (is_claimable locked now) rows,
      ))

  -- The rows with the id of a claimed job are that job as it was claimed.
  pub claimed-copies :
      HasUniqueIds jobs
      → All
          (λ c. AllAt c.id (λ r. r ≡ c) (claim_batch locked batch stale_seconds now jobs).1)
          claimed
  unfolding claim_batch
  claimed-copies u =
      All-imp claimed
        (λ c (member, (old, m, _, _, _, e)).
          All-step (IsClaimStep now claimed) (λ x. Memᴰ x rows) (λ r. r.id ≡ c.id → r ≡ c) rows _
            (λ x y mx step own.
              ⊎_elim
                (λ (has, made).
                  let ids : x.id ≡ old.id =
                    ap (λ (z : Job). z.id) (sym made) ∙ own ∙ ap (λ (z : Job). z.id) e in
                  made
                  ∙ ap (claimed_row now) (same_row x old rows (reaped-HasUniqueIds u) mx m ids)
                  ∙ sym e)
                (λ (unhit, kept).
                  let ids : c.id ≡ x.id = sym own ∙ ap (λ (z : Job). z.id) kept in
                  let hit = any-Memᴰ (λ (z : Job). z.id == x.id) c claimed member (ground arith) in
                  absurd (ground arith))
                step)
            (All-Memᴰ rows) (table-IsClaimStep locked batch stale_seconds now jobs))
        (All-both _ _ claimed (All-Memᴰ claimed)
          (chosen-IsClaimed locked batch stale_seconds now jobs))
