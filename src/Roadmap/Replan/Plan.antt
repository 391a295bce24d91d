-- ===== src/Roadmap/Replan/Plan.antt =====
-- The changes that `compute_replan` (app/services/roadmap/replan.py) proposes.
use Prim.Native.String.{String}
use cofoundaz_api.Prelude.{
  ℕ, ◌+◌, ◌-◌, ◌<◌, ◌≤◌, ◌≡◌, refl, ap, ◌∙◌, subst, true, ◌&&◌, not, Option, none, some, List, [],
  ◌∷◌, ◌==◌, ltb, All, All-imp, first, first-fits, Memᴰ, arith, inl, inr, Bool-cases, Option-cases,
}
use cofoundaz_api.Roadmap.{RoadmapMilestone, Tables, is_done}
use cofoundaz_api.Roadmap.Dependencies.{Adjacency, get, elem}
use cofoundaz_api.Roadmap.Replan.{
  Change, Shifts, shift_of, shift_loop, change_of, change_at, add_change, changes_loop, base_shift,
  make_change, own_slip, due_before, base_shift_of, has_drifted, compute_replan, milestones_of,
  milestone_precedence, replan_in_order, replan_buffer_days,
}
use cofoundaz_api.Roadmap.Replan.Order.{IsRanked}
use cofoundaz_api.Roadmap.Replan.Toposort.{toposort_lem, every-elem}
use cofoundaz_api.Roadmap.Replan.Slip.{self, IsGreatestSlip, shift_loop-IsGreatestSlip}
use cofoundaz_api.Roadmap.Replan.Precedence.{milestone_ids, milestone_precedence-known}

-- A change moves its milestone by the greatest slip upstream, which is not zero.
abbrev pub IsBySlip : (ℕ → ℕ) → Adjacency → Change → Type 0
IsBySlip base preds c =
    (days : ℕ) × (0 < days)
    × (c.new_due ≡ c.old_due + days)
    × IsGreatestSlip base preds c.milestone_id days

abbrev AllOption : (Change → Type 0) → Option Change → Type 0
AllOption P none = Unit
AllOption P (some c) = P c

All-add_change :
    (P : Change → Type 0) (c : Option Change) (cs : List Change)
    → AllOption P c
    → All P cs
    → All P (add_change c cs)
All-add_change P none cs p h = h
All-add_change P (some c) cs p h = (p, h)

Memᴰ-add_change :
    (c : Change) (o : Option Change) (cs : List Change) → Memᴰ c cs → Memᴰ c (add_change o cs)
Memᴰ-add_change c none cs m = m
Memᴰ-add_change c (some d) cs m = Memᴰ.tail m

module _ (str : ℕ → String) (today : ℕ) (milestones : List RoadmapMilestone) (shifts : Shifts) where
  change_of-IsBySlip :
      (base : ℕ → ℕ) (preds : Adjacency) (m : RoadmapMilestone)
      → IsGreatestSlip base preds m.id (shift_of m.id shifts).days
      → AllOption (IsBySlip base preds) (change_of str today milestones shifts m)
  unfolding change_of
  change_of-IsBySlip base preds m g = elim (Option-cases m.due_on) [
    | inl e ↦ rw e tt
    | inr (due, e) ↦ elim (Bool-cases (ltb 0 (shift_of m.id shifts).days)) [
      | inr f ↦ rw (e, f) tt
      | inl t ↦ rw (e, t) ((shift_of m.id shifts).days, ground arith, refl, g)
    ]
  ]

  All-changes_loop :
      (P : Change → Type 0) (Q : ℕ → Type 0) (order : List ℕ)
      → ((m : RoadmapMilestone) → Q m.id → AllOption P (change_of str today milestones shifts m))
      → All Q order
      → All P (changes_loop str today milestones shifts order)
  unfolding changes_loop
  All-changes_loop P Q [] h q = tt
  All-changes_loop P Q (mid ∷ order) h q =
      let rest = All-changes_loop P Q order h q.1 in
      let cs = changes_loop str today milestones shifts order in
      let fits = λ (m : RoadmapMilestone). m.id == mid in
      elim (Option-cases (first fits milestones)) [
        | inl e ↦ rw e rest
        | inr (m, e) ↦
            let found = first-fits fits milestones m e in
            let same : mid ≡ m.id = ground arith in
            rw e (
              All-add_change P (change_of str today milestones shifts m) cs (h m (subst Q same q.0))
                rest)
      ]

  change_of-own_id :
      (m : RoadmapMilestone)
      → AllOption (λ c. c.change_id ≡ c.milestone_id) (change_of str today milestones shifts m)
  unfolding change_of
  change_of-own_id m = elim (Option-cases m.due_on) [
    | inl e ↦ rw e tt
    | inr (due, e) ↦ elim (Bool-cases (ltb 0 (shift_of m.id shifts).days)) [
      | inr f ↦ rw (e, f) tt
      | inl t ↦ rw (e, t) refl
    ]
  ]

  Memᴰ-changes_loop :
      (m : RoadmapMilestone) (c : Change) (order : List ℕ)
      → elem m.id order ≡ true
      → first (λ (x : RoadmapMilestone). x.id == m.id) milestones ≡ some m
      → change_of str today milestones shifts m ≡ some c
      → Memᴰ c (changes_loop str today milestones shifts order)
  unfolding changes_loop
  Memᴰ-changes_loop m c [] k e d = cc
  Memᴰ-changes_loop m c (mid ∷ order) k e d =
      let cs = changes_loop str today milestones shifts order in
      let fits = λ (n : ℕ) (x : RoadmapMilestone). x.id == n in
      elim (Bool-cases (mid == m.id)) [
        | inl t ↦
            let same : m.id ≡ mid = ground arith in
            let found = subst (λ n. first (fits n) milestones ≡ some m) same e in
            let head : c ≡ c = refl in rw (found, d) (Memᴰ.head head)
        | inr f ↦
            Memᴰ-add_change c (change_at str today milestones shifts (first (fits mid) milestones))
              cs (Memᴰ-changes_loop m c order (ground arith) e d)
      ]

base_shift-first :
    (today mid : ℕ) (milestones : List RoadmapMilestone) (m : RoadmapMilestone)
    → first (λ (x : RoadmapMilestone). x.id == mid) milestones ≡ some m
    → base_shift today milestones mid ≡ base_shift_of today m
unfolding base_shift
base_shift-first today mid [] m e = cc
base_shift-first today mid (x ∷ milestones) m e = elim (Bool-cases (x.id == mid)) [
  | inl t ↦ let same : x ≡ m = cc in rw t (ap (base_shift_of today) same)
  | inr f ↦ rw f (base_shift-first today mid milestones m (ground arith))
]

elem-first :
    (mid : ℕ) (milestones : List RoadmapMilestone) (m : RoadmapMilestone)
    → first (λ (x : RoadmapMilestone). x.id == mid) milestones ≡ some m
    → elem mid (milestone_ids milestones) ≡ true
elem-first mid [] m e = cc
elem-first mid (x ∷ milestones) m e = elim (Bool-cases (x.id == mid)) [
  | inl t ↦ rw t refl
  | inr f ↦ rw f (elem-first mid milestones m (ground arith))
]

-- Re-planning always ends with a proposal, whose changes carry the ids of their milestones.
pub compute_replan-total :
    (str : ℕ → String) (today : ℕ) (db : Tables) (roadmap_id : ℕ)
    → (changes : List Change) × (compute_replan str today db roadmap_id ≡ some changes)
      × All (λ c. c.change_id ≡ c.milestone_id) changes
unfolding compute_replan replan_in_order
compute_replan-total str today db r =
    let nodes = milestone_ids (milestones_of db r) in
    let preds = milestone_precedence db r in
    let (order, e, u, same, sorted) =
      toposort_lem nodes preds (λ n. 0) (milestone_precedence-known db r) in
    let shifts = shift_loop (base_shift today (milestones_of db r)) preds order [] in
    (
      replan_in_order str today (milestones_of db r) preds order,
      rw (e, compute_replan) refl,
      All-changes_loop str today (milestones_of db r) shifts (λ c. c.change_id ≡ c.milestone_id)
          (λ n. elem n order ≡ true) order
          (λ m k. change_of-own_id str today (milestones_of db r) shifts m) (every-elem order),
    )

drifted-late :
    (today : ℕ) (m : RoadmapMilestone) (due : ℕ)
    → m.due_on ≡ some due
    → has_drifted today m ≡ true
    → due < today
drifted-late today m due d drifted =
    let late : (due_before today (some due) && not (is_done m.status)) ≡ true =
      subst (λ o. (due_before today o && not (is_done m.status)) ≡ true) d drifted in
    ground arith

own_slip-late :
    (today : ℕ) (m : RoadmapMilestone) (due : ℕ)
    → m.due_on ≡ some due
    → has_drifted today m ≡ true
    → base_shift_of today m ≡ today + replan_buffer_days - due
own_slip-late today m due d drifted =
    ap (λ o. own_slip today o (has_drifted today m)) d ∙ ap (own_slip today (some due)) drifted

overdue_change :
    (str : ℕ → String) (today : ℕ) (milestones : List RoadmapMilestone) (preds : Adjacency)
    (order : List ℕ) (m : RoadmapMilestone) (due : ℕ)
    → IsGreatestSlip
        (base_shift today milestones)
        preds
        m.id
        (shift_of m.id (shift_loop (base_shift today milestones) preds order [])).days
    → elem m.id order ≡ true
    → first (λ (x : RoadmapMilestone). x.id == m.id) milestones ≡ some m
    → m.due_on ≡ some due
    → has_drifted today m ≡ true
    → (c : Change) × Memᴰ c (replan_in_order str today milestones preds order)
      × (c.milestone_id ≡ m.id)
      × (c.old_due ≡ due)
      × (today + replan_buffer_days ≤ c.new_due)
unfolding replan_in_order changes_loop
overdue_change str today milestones preds order m due g known found d drifted =
    let shifts = shift_loop (base_shift today milestones) preds order [] in
    let days = (shift_of m.id shifts).days in
    let own : base_shift today milestones m.id ≡ today + replan_buffer_days - due =
      base_shift-first today m.id milestones m found ∙ own_slip-late today m due d drifted in
    let late : due < today = drifted-late today m due d drifted in
    let least = g.0 m.id self in
    let positive : ltb 0 days ≡ true = ground arith in
    let far : today + replan_buffer_days ≤ due + days = omega (arith, own, late, least) in
    let c : Change = make_change str today milestones m due (shift_of m.id shifts) in
    let made : change_of str today milestones shifts m ≡ some c = rw (d, positive) refl in
    (c, Memᴰ-changes_loop str today milestones shifts m c order known found made, refl, refl, far)

-- With no cycle among the milestones, each proposed change moves a milestone by the greatest slip of
-- any milestone upstream of it, itself included, and by at least a day; and each milestone of the
-- roadmap that its id finds and that is overdue and not done gets a change from its due date to a
-- week from today at the earliest.
pub compute_replan-IsBySlip :
    (str : ℕ → String) (today : ℕ) (db : Tables) (roadmap_id : ℕ) (rank : ℕ → ℕ)
    → IsRanked rank (milestone_precedence db roadmap_id)
    → (changes : List Change) × (compute_replan str today db roadmap_id ≡ some changes)
      × All
          (IsBySlip
            (base_shift today (milestones_of db roadmap_id))
            (milestone_precedence db roadmap_id))
          changes
      × ((m : RoadmapMilestone) (due : ℕ)
          → first (λ (x : RoadmapMilestone). x.id == m.id) (milestones_of db roadmap_id) ≡ some m
          → m.due_on ≡ some due
          → has_drifted today m ≡ true
          → (c : Change) × Memᴰ c changes
            × (c.milestone_id ≡ m.id)
            × (c.old_due ≡ due)
            × (today + replan_buffer_days ≤ c.new_due))
unfolding compute_replan replan_in_order
compute_replan-IsBySlip str today db r rank ranked =
    let milestones = milestones_of db r in
    let nodes = milestone_ids milestones in
    let preds = milestone_precedence db r in
    let (order, e, u, same, sorted) =
      toposort_lem nodes preds rank (milestone_precedence-known db r) in
    let base = base_shift today milestones in
    let shifts = shift_loop base preds order [] in
    let known =
      λ (n : ℕ). All-imp (get n preds) (λ up k. same up ∙ k) (milestone_precedence-known db r n) in
    let greatest = shift_loop-IsGreatestSlip base preds order rank ranked known (sorted ranked) u in
    let every = All-imp order (λ n k. greatest n k) (every-elem order) in
    (
      replan_in_order str today milestones preds order,
      rw (e, compute_replan) refl,
      All-changes_loop str today milestones shifts (IsBySlip base preds)
          (λ n. IsGreatestSlip base preds n (shift_of n shifts).days) order
          (λ m g. change_of-IsBySlip str today milestones shifts base preds m g) every,
      λ m due found d drifted.
          overdue_change str today milestones preds order m due
            (greatest m.id (same m.id ∙ elem-first m.id milestones m found))
            (same m.id ∙ elem-first m.id milestones m found) found d drifted,
    )
