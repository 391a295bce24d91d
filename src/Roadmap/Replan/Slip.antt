-- ===== src/Roadmap/Replan/Slip.antt =====
-- The shifts of `compute_replan` (app/services/roadmap/replan.py) against the greatest slip upstream.
use mathlib.Core.Bool.{false≢true}
use cofoundaz_api.Prelude.{
  subst, ℕ, zero, suc, ◌<◌, ◌≤◌, ◌⊎◌, ◌≡◌, refl, sym, ap, ◌∙◌, true, false, none, some, List, [],
  ◌∷◌, ◌==◌, ltb, if◌then◌else◌, All, All-imp, arith, inl, inr, Bool-cases,
}
use cofoundaz_api.Roadmap.Dependencies.{Adjacency, get, elem}
use cofoundaz_api.Roadmap.Replan.{Shift, Shifts, shift_of, max_upstream, shift_loop}
use cofoundaz_api.Roadmap.Replan.Order.{IsUnique, IsOrdered, IsRanked}
use cofoundaz_api.Roadmap.Replan.Toposort.{All-elem}

-- A milestone is upstream of itself, and of what depends on one that it is upstream of.
pub data Upstream (preds : Adjacency) (origin : ℕ) : ℕ → Type 0 where
  self : Upstream preds origin origin
  through :
      (up n : ℕ) → elem up (get n preds) ≡ true → Upstream preds origin up → Upstream preds origin n

-- The specification: the greatest slip of any milestone upstream.
abbrev pub IsGreatestSlip : (ℕ → ℕ) → Adjacency → ℕ → ℕ → Type 0
IsGreatestSlip base preds n days =
    ((origin : ℕ) → Upstream preds origin n → base origin ≤ days)
    × ((origin : ℕ) × Upstream preds origin n × (base origin ≡ days))

abbrev own : (ℕ → ℕ) → ℕ → Shift
own base n = record { days = base n; winner = none }

shift_loop-off :
    (base : ℕ → ℕ) (preds : Adjacency) (x : ℕ) (order : List ℕ) (shifts : Shifts)
    → elem x order ≡ false
    → shift_of x (shift_loop base preds order shifts) ≡ shift_of x shifts
unfolding shift_loop
shift_loop-off base preds x [] shifts e = refl
shift_loop-off base preds x (mid ∷ order) shifts e =
    let other : (mid == x) ≡ false = ground arith in
    let s = max_upstream shifts (get mid preds) (own base mid) in
    shift_loop-off base preds x order ((mid, s) ∷ shifts) (ground arith)
    ∙ ap (λ b. if b then s else shift_of x shifts) other

max_upstream-same :
    (shifts shifts' : Shifts) (ups : List ℕ) (best : Shift)
    → All (λ up. shift_of up shifts ≡ shift_of up shifts') ups
    → max_upstream shifts ups best ≡ max_upstream shifts' ups best
unfolding max_upstream
max_upstream-same shifts shifts' [] best h = refl
max_upstream-same shifts shifts' (up ∷ ups) best h =
    elim (Bool-cases (ltb best.days (shift_of up shifts').days)) [
      | inl t ↦
          rw (h.0, t)
            (max_upstream-same shifts shifts' ups
              (record { days = (shift_of up shifts').days; winner = some up }) h.1)
      | inr f ↦ rw (h.0, f) (max_upstream-same shifts shifts' ups best h.1)
    ]

max_upstream-ge :
    (shifts : Shifts) (ups : List ℕ) (best : Shift)
    → best.days ≤ (max_upstream shifts ups best).days
unfolding max_upstream
max_upstream-ge shifts [] best = omega arith
max_upstream-ge shifts (up ∷ ups) best =
    let s = (shift_of up shifts).days in
    elim (Bool-cases (ltb best.days s)) [
      | inl t ↦
          let l : best.days ≤ s = ground arith in
          let r = max_upstream-ge shifts ups (record { days = s; winner = some up }) in
          rw t (omega (arith, l, r))
      | inr f ↦ rw f (max_upstream-ge shifts ups best)
    ]

upstream_better :
    (shifts : Shifts) (up : ℕ) (ups : List ℕ) (best : Shift)
    → ltb best.days (shift_of up shifts).days ≡ true
    → max_upstream shifts (up ∷ ups) best
      ≡ max_upstream shifts ups (record { days = (shift_of up shifts).days; winner = some up })
unfolding max_upstream
upstream_better shifts up ups best t = rw t refl

upstream_same :
    (shifts : Shifts) (up : ℕ) (ups : List ℕ) (best : Shift)
    → ltb best.days (shift_of up shifts).days ≡ false
    → max_upstream shifts (up ∷ ups) best ≡ max_upstream shifts ups best
unfolding max_upstream
upstream_same shifts up ups best f = rw f refl

abbrev IsAtMost : Shifts → List ℕ → Shift → Type 0
IsAtMost shifts ups s = All (λ up. (shift_of up shifts).days ≤ s.days) ups

max_upstream-ge_each :
    (shifts : Shifts) (ups : List ℕ) (best : Shift)
    → IsAtMost shifts ups (max_upstream shifts ups best)
max_upstream-ge_each shifts [] best = tt
max_upstream-ge_each shifts (up ∷ ups) best =
    let s = (shift_of up shifts).days in
    elim (Bool-cases (ltb best.days s)) [
      | inl t ↦
          let better : Shift = record { days = s; winner = some up } in
          subst (IsAtMost shifts (up ∷ ups)) (sym (upstream_better shifts up ups best t))
            (max_upstream-ge shifts ups better, max_upstream-ge_each shifts ups better)
      | inr f ↦
          let l : s ≤ best.days = ground arith in
          let r = max_upstream-ge shifts ups best in
          subst (IsAtMost shifts (up ∷ ups)) (sym (upstream_same shifts up ups best f))
            (omega (arith, l, r), max_upstream-ge_each shifts ups best)
    ]

max_upstream-attained :
    (shifts : Shifts) (ups : List ℕ) (best : Shift)
    → (max_upstream shifts ups best ≡ best)
      ⊎ ((up : ℕ) × (elem up ups ≡ true)
          × ((max_upstream shifts ups best).days ≡ (shift_of up shifts).days)
          × ((max_upstream shifts ups best).winner ≡ some up))
unfolding max_upstream
max_upstream-attained shifts [] best = inl refl
max_upstream-attained shifts (up ∷ ups) best =
    let s = (shift_of up shifts).days in
    let better : Shift = record { days = s; winner = some up } in
    elim (Bool-cases (ltb best.days s)) [
      | inl t ↦ elim (max_upstream-attained shifts ups better) [
        | inl e ↦
            let reached : max_upstream shifts (up ∷ ups) best ≡ better = rw t e in
            inr (
              up,
              ground arith,
              ap (λ (x : Shift). x.days) reached,
              ap (λ (x : Shift). x.winner) reached,
            )
        | inr (u, m, d, w) ↦ inr (u, ground arith, rw t d, rw t w)
      ]
      | inr f ↦ elim (max_upstream-attained shifts ups best) [
        | inl e ↦ inl (rw f e)
        | inr (u, m, d, w) ↦ inr (u, ground arith, rw f d, rw f w)
      ]
    ]

still_apart :
    (before : List ℕ) (mid : ℕ) (order : List ℕ)
    → ((x : ℕ) → elem x before ≡ true → elem x (mid ∷ order) ≡ false)
    → elem mid order ≡ false
    → (x : ℕ) → elem x (mid ∷ before) ≡ true
    → elem x order ≡ false
still_apart before mid order apart u x k = elim (Bool-cases (mid == x)) [
  | inl t ↦ let same : mid ≡ x = ground arith in subst (λ y. elem y order ≡ false) same u
  | inr f ↦ let a = apart x (ground arith) in ground arith
]

-- The entry that the loop makes first: the predecessors have theirs already.
shift_loop-head :
    (base : ℕ → ℕ) (preds : Adjacency) (before : List ℕ) (mid : ℕ) (order : List ℕ)
    (shifts : Shifts)
    → All (λ up. elem up before ≡ true) (get mid preds)
    → elem mid order ≡ false
    → ((x : ℕ) → elem x before ≡ true → elem x (mid ∷ order) ≡ false)
    → shift_of mid (shift_loop base preds (mid ∷ order) shifts)
      ≡ max_upstream (shift_loop base preds (mid ∷ order) shifts) (get mid preds) (own base mid)
unfolding shift_of max_upstream shift_loop
shift_loop-head base preds before mid order shifts known off apart =
    let s = max_upstream shifts (get mid preds) (own base mid) in
    let self : (mid == mid) ≡ true = ground arith in
    shift_loop-off base preds mid order ((mid, s) ∷ shifts) off
    ∙ ap (λ b. if b then s else shift_of mid shifts) self
    ∙ max_upstream-same shifts (shift_loop base preds (mid ∷ order) shifts) (get mid preds)
        (own base mid)
        (All-imp (get mid preds)
          (λ up k. sym (shift_loop-off base preds up (mid ∷ order) shifts (apart up k))) known)

shift_loop-fix :
    (base : ℕ → ℕ) (preds : Adjacency) (before order : List ℕ) (shifts : Shifts)
    → IsOrdered preds before order
    → IsUnique order
    → ((x : ℕ) → elem x before ≡ true → elem x order ≡ false)
    → (n : ℕ) → elem n order ≡ true
    → shift_of n (shift_loop base preds order shifts)
      ≡ max_upstream (shift_loop base preds order shifts) (get n preds) (own base n)
unfolding shift_loop
shift_loop-fix base preds before [] shifts o u apart n e = cc
shift_loop-fix base preds before (mid ∷ order) shifts o u apart n e =
    let s = max_upstream shifts (get mid preds) (own base mid) in
    let apart' : (x : ℕ) → elem x (mid ∷ before) ≡ true → elem x order ≡ false =
      λ x k. still_apart before mid order apart u.0 x k in
    elim (Bool-cases (mid == n)) [
      | inr f ↦
          shift_loop-fix base preds (mid ∷ before) order ((mid, s) ∷ shifts) o.1 u.1 apart' n
            (ground arith)
      | inl t ↦
          let same : mid ≡ n = ground arith in
          subst
            (λ x.
              shift_of x (shift_loop base preds order ((mid, s) ∷ shifts))
              ≡ max_upstream (shift_loop base preds order ((mid, s) ∷ shifts)) (get x preds)
                  (own base x))
            same (shift_loop-head base preds before mid order shifts o.0 u.0 apart)
    ]

slip_lower :
    (base : ℕ → ℕ) (preds : Adjacency) (order : List ℕ)
    → ((k : ℕ) → All (λ up. elem up order ≡ true) (get k preds))
    → ((k : ℕ)
        → elem k order ≡ true
        → shift_of k (shift_loop base preds order [])
          ≡ max_upstream (shift_loop base preds order []) (get k preds) (own base k))
    → (origin n : ℕ) → Upstream preds origin n
    → elem n order ≡ true
    → base origin ≤ (shift_of n (shift_loop base preds order [])).days
slip_lower base preds order closed fix origin n self e =
    let f = ap (λ (s : Shift). s.days) (fix origin e) in
    let l = max_upstream-ge (shift_loop base preds order []) (get origin preds) (own base origin) in
    omega (arith, f, l)
slip_lower base preds order closed fix origin n (through up n' m p) e =
    let shifts = shift_loop base preds order [] in
    let i =
      slip_lower base preds order closed fix origin up p
        (All-elem (λ x. elem x order ≡ true) up (get n' preds) (closed n') m) in
    let f = ap (λ (s : Shift). s.days) (fix n' e) in
    let l =
      All-elem
        (λ x. (shift_of x shifts).days ≤ (max_upstream shifts (get n' preds) (own base n')).days) up
        (get n' preds) (max_upstream-ge_each shifts (get n' preds) (own base n')) m in
    omega (arith, i, f, l)

slip_attained :
    (base : ℕ → ℕ) (preds : Adjacency) (order : List ℕ) (rank : ℕ → ℕ)
    → IsRanked rank preds
    → ((k : ℕ) → All (λ up. elem up order ≡ true) (get k preds))
    → ((k : ℕ)
        → elem k order ≡ true
        → shift_of k (shift_loop base preds order [])
          ≡ max_upstream (shift_loop base preds order []) (get k preds) (own base k))
    → (bound n : ℕ) → rank n < bound
    → elem n order ≡ true
    → (origin : ℕ) × Upstream preds origin n
      × (base origin ≡ (shift_of n (shift_loop base preds order [])).days)
slip_attained base preds order rank ranked closed fix zero n b e = absurd (omega arith)
slip_attained base preds order rank ranked closed fix (suc bound) n b e =
    let shifts = shift_loop base preds order [] in
    let f = ap (λ (s : Shift). s.days) (fix n e) in
    elim (max_upstream-attained shifts (get n preds) (own base n)) [
      | inl k ↦ (n, self, sym (f ∙ ap (λ (s : Shift). s.days) k))
      | inr (up, m, d, w) ↦
          let lower = All-elem (λ x. rank x < rank n) up (get n preds) (ranked n) m in
          let known = All-elem (λ x. elem x order ≡ true) up (get n preds) (closed n) m in
          let (origin, p, q) =
            slip_attained base preds order rank ranked closed fix bound up (omega (arith, lower, b))
              known in
          (origin, through up n m p, q ∙ sym (f ∙ d))
    ]

-- In an order of an acyclic precedence, the loop gives each milestone the greatest slip upstream.
pub shift_loop-IsGreatestSlip :
    (base : ℕ → ℕ) (preds : Adjacency) (order : List ℕ) (rank : ℕ → ℕ)
    → IsRanked rank preds
    → ((n : ℕ) → All (λ up. elem up order ≡ true) (get n preds))
    → IsOrdered preds [] order
    → IsUnique order
    → (n : ℕ) → elem n order ≡ true
    → IsGreatestSlip base preds n (shift_of n (shift_loop base preds order [])).days
shift_loop-IsGreatestSlip base preds order rank ranked closed o u n e =
    let fix = λ (k : ℕ) (m : elem k order ≡ true).
      shift_loop-fix base preds [] order [] o u (λ x f. absurd (false≢true f)) k m in
    (
      λ origin p. slip_lower base preds order closed fix origin n p e,
      slip_attained base preds order rank ranked closed fix (suc (rank n)) n (omega arith) e,
    )
