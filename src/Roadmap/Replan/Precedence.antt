-- ===== src/Roadmap/Replan/Precedence.antt =====
-- The milestones that `_milestone_precedence` (app/services/roadmap/replan.py) names are among those
-- of the roadmap.
use cofoundaz_api.Prelude.{
  ℕ, ◌≡◌, refl, sym, ap, ◌∙◌, true, ◌&&◌, Option, none, some, List, [], ◌∷◌, ◌==◌, All, All-append,
  first, first-fits, subst, where_all, any, map, arith, inl, inr, Bool-cases, Option-cases,
}
use cofoundaz_api.Roadmap.{
  RoadmapMilestone, RoadmapTask, RoadmapTaskDependency, Tables, phase_in, milestone_in,
}
use cofoundaz_api.Roadmap.Dependencies.{Adjacency, get, elem}
use cofoundaz_api.Roadmap.Replan.{
  milestones_of, milestone_id_of, task_milestone, add_pred, add_between, precedence_loop,
  milestone_precedence,
}

-- The keys of `milestones`.
abbrev pub milestone_ids : List RoadmapMilestone → List ℕ
milestone_ids milestones = map (λ (m : RoadmapMilestone). m.id) milestones

elem-milestone_ids :
    (db : Tables) (roadmap_id mid : ℕ) (rows : List RoadmapMilestone)
    → any (λ m. (m.id == mid) && phase_in db roadmap_id m.phase_id) rows ≡ true
    → elem mid (
        milestone_ids
          (where_all (λ (m : RoadmapMilestone). phase_in db roadmap_id m.phase_id) rows))
      ≡ true
elem-milestone_ids db r mid [] e = cc
elem-milestone_ids db r mid (m ∷ rows) e = elim (Bool-cases (phase_in db r m.phase_id)) [
  | inl t ↦ elim (Bool-cases (m.id == mid)) [
    | inl k ↦ rw (t, k) refl
    | inr k ↦ rw (t, k) (elem-milestone_ids db r mid rows (ground arith))
  ]
  | inr f ↦ rw f (elem-milestone_ids db r mid rows (ground arith))
]

abbrev IsWithin : List ℕ → Adjacency → Type 0
IsWithin nodes [] = Unit
IsWithin nodes ((k, ups) ∷ preds) = All (λ up. elem up nodes ≡ true) ups × IsWithin nodes preds

IsWithin-get :
    (nodes : List ℕ) (n : ℕ) (preds : Adjacency)
    → IsWithin nodes preds
    → All (λ up. elem up nodes ≡ true) (get n preds)
unfolding get
IsWithin-get nodes n [] w = tt
IsWithin-get nodes n ((k, ups) ∷ preds) w = elim (Bool-cases (k == n)) [
  | inl t ↦ rw t w.0
  | inr f ↦ rw f (IsWithin-get nodes n preds w.1)
]

IsWithin-add_pred :
    (nodes : List ℕ) (down up : ℕ) (preds : Adjacency)
    → elem up nodes ≡ true
    → IsWithin nodes preds
    → IsWithin nodes (add_pred down up preds)
unfolding add_pred
IsWithin-add_pred nodes down up [] e w = ((e, tt), tt)
IsWithin-add_pred nodes down up ((k, ups) ∷ preds) e w = elim (Bool-cases (k == down)) [
  | inr f ↦ rw f (w.0, IsWithin-add_pred nodes down up preds e w.1)
  | inl t ↦ elim (Bool-cases (elem up ups)) [
    | inl m ↦ rw (t, m) w
    | inr m ↦ rw (t, m) (All-append (λ x. elem x nodes ≡ true) ups (up ∷ []) w.0 (e, tt), w.1)
  ]
]

task_milestone-known :
    (db : Tables) (roadmap_id task_id mid : ℕ)
    → task_milestone db roadmap_id task_id ≡ some mid
    → elem mid (milestone_ids (milestones_of db roadmap_id)) ≡ true
unfolding milestones_of
task_milestone-known db r task_id mid e =
    let fits = λ (t : RoadmapTask). (t.id == task_id) && milestone_in db r t.milestone_id in
    elim (Option-cases (first fits db.tasks)) [
      | inl k ↦ let none_eq : none ≡ some mid = sym (ap milestone_id_of k) ∙ e in cc
      | inr (t, k) ↦
          let some_eq : some t.milestone_id ≡ some mid = sym (ap milestone_id_of k) ∙ e in
          let same : t.milestone_id ≡ mid = cc in
          let task = first-fits fits db.tasks t k in
          let here : milestone_in db r t.milestone_id ≡ true = ground arith in
          elem-milestone_ids db r mid db.milestones
            (subst (λ x. milestone_in db r x ≡ true) same here)
    ]

IsWithin-add_between :
    (nodes : List ℕ) (down up : Option ℕ) (preds : Adjacency)
    → ((mid : ℕ) → up ≡ some mid → elem mid nodes ≡ true)
    → IsWithin nodes preds
    → IsWithin nodes (add_between down up preds)
unfolding add_between
IsWithin-add_between nodes none up preds k w = w
IsWithin-add_between nodes (some down) none preds k w = w
IsWithin-add_between nodes (some down) (some up) preds k w = elim (Bool-cases (down == up)) [
  | inl t ↦ rw t w
  | inr f ↦ rw f (IsWithin-add_pred nodes down up preds (k up refl) w)
]

IsWithin-precedence_loop :
    (db : Tables) (roadmap_id : ℕ) (deps : List RoadmapTaskDependency) (preds : Adjacency)
    → IsWithin (milestone_ids (milestones_of db roadmap_id)) preds
    → IsWithin
        (milestone_ids (milestones_of db roadmap_id))
        (precedence_loop db roadmap_id deps preds)
unfolding precedence_loop
IsWithin-precedence_loop db r [] preds w = w
IsWithin-precedence_loop db r (dep ∷ deps) preds w =
    let up = task_milestone db r dep.depends_on_task_id in
    IsWithin-precedence_loop db r deps (add_between (task_milestone db r dep.task_id) up preds) (
      IsWithin-add_between (milestone_ids (milestones_of db r)) (task_milestone db r dep.task_id) up
        preds (λ mid e. task_milestone-known db r dep.depends_on_task_id mid e) w)

pub milestone_precedence-known :
    (db : Tables) (roadmap_id n : ℕ)
    → All
        (λ up. elem up (milestone_ids (milestones_of db roadmap_id)) ≡ true)
        (get n (milestone_precedence db roadmap_id))
unfolding milestone_precedence precedence_loop
milestone_precedence-known db r n =
    IsWithin-get (milestone_ids (milestones_of db r)) n (milestone_precedence db r)
      (IsWithin-precedence_loop db r db.dependencies [] tt)
