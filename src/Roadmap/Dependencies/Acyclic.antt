-- ===== src/Roadmap/Dependencies/Acyclic.antt =====
-- Cycles in a roadmap's graph, when dependencies are created and deleted
-- (app/services/roadmap/dependencies.py).
use cofoundaz_api.Prelude.{
  ℕ, ◌≡◌, ap, sym, ◌∙◌, ◌⊎◌, inl, inr, ⊎_elim, Bool, false, some, List, [], ◌∷◌, ◌==◌, arith, Memᴰ,
  Memᴰ-cons, Memᴰ-append, Bool-cases, Option-cases, subst, first, where_all, where_all-append,
}
use mathlib.Core.List.Memᴰ
use mathlib.Core.Bool.{false≢true}
use cofoundaz_api.Errors.{ok, or_raise, not_found, raise_if, validation_error, >>=-eq-ok}
use cofoundaz_api.Roadmap.{
  Roadmap, RoadmapTaskDependency, Tables, task_in, require_roadmap, require_task,
}
use cofoundaz_api.Roadmap.Dependencies.{
  add_dependency, create_dependency_ep, delete_dependency_ep, delete_edge, is_edge, roadmap_edges,
  would_create_cycle,
}
use cofoundaz_api.Roadmap.Dependencies.Graph.{
  DependsOn, Reach, here, step, IsAcyclic, Reach-trans, Reach-lift,
}
use cofoundaz_api.Roadmap.Dependencies.Search.{search_decides}

-- Fewer rows have no more cycles.
IsAcyclic-of_subset :
    (es fs : List RoadmapTaskDependency)
    → ((x y : ℕ) → DependsOn fs x y → DependsOn es x y)
    → IsAcyclic es
    → IsAcyclic fs
IsAcyclic-of_subset es fs h acyclic a b e p = acyclic a b (h a b e) (Reach-lift fs es h p)

module _ (es fs : List RoadmapTaskDependency) (t d : ℕ)
    (split : (x y : ℕ) → DependsOn fs x y → DependsOn es x y ⊎ (x ≡ t) × (y ≡ d)) where
  -- A chain over the rows with `t → d` added is a chain over the old ones, or passes that row.
  Reach-split : {a b : ℕ} → Reach fs a b → Reach es a b ⊎ Reach es a t × Reach es d b
  Reach-split here = inl here
  Reach-split {a} (step {b = x} {c = y} p e) =
      ⊎_elim (λ old. ⊎_elim (λ q. inl (step q old)) (λ q. inr (q.0, step q.1 old)) (Reach-split p))
        (λ new. inr (
          ⊎_elim (λ q. (subst (Reach es a) new.0 q, subst (Reach es d) (sym new.1) here))
            (λ q. (q.0, subst (Reach es d) (sym new.1) here)) (Reach-split p)))
        (split x y e)

  -- If `d` does not lead to `t`, the row `t → d` closes no cycle.
  IsAcyclic-add : (Reach es d t → ⊥) → IsAcyclic es → IsAcyclic fs
  IsAcyclic-add apart acyclic a b e p =
      ⊎_elim
        (λ old.
          ⊎_elim (acyclic a b old)
            (λ q. apart (Reach-trans es q.1 (Reach-trans es (step here old) q.0))) (Reach-split p))
        (λ new.
          ⊎_elim (λ q. apart (subst (λ x. Reach es x t) new.1 (subst (Reach es b) new.0 q)))
            (λ q. apart (subst (λ x. Reach es x t) new.1 q.0)) (Reach-split p))
        (split a b e)

abbrev pub the_row : ℕ → ℕ → RoadmapTaskDependency
the_row a b = record { task_id = a; depends_on_task_id = b }

-- A row of a list of at most one kept row is that row.
mem-where_one :
    (p : RoadmapTaskDependency → Bool) (x y t d : ℕ)
    → Memᴰ (the_row x y) (where_all p (the_row t d ∷ []))
    → (x ≡ t) × (y ≡ d)
mem-where_one p x y t d m = elim (Bool-cases (p (the_row t d))) [
  | inl kept ↦
      let e = Memᴰ.eq_of_singleton (rw kept at m) in
      (
        ap (λ (r : RoadmapTaskDependency). r.task_id) e,
        ap (λ (r : RoadmapTaskDependency). r.depends_on_task_id) e,
      )
  | inr dropped ↦ absurd (Memᴰ.not-nil (rw dropped at m))
]

add_dependency-split :
    (db : Tables) (roadmap_id t d x y : ℕ)
    → DependsOn (roadmap_edges (add_dependency db t d).0 roadmap_id) x y
    → DependsOn (roadmap_edges db roadmap_id) x y ⊎ (x ≡ t) × (y ≡ d)
unfolding roadmap_edges add_dependency
add_dependency-split db roadmap_id t d x y m =
    elim (Option-cases (first (is_edge t d) db.dependencies)) [
      | inr (e, present) ↦ inl (rw (present, add_dependency) at m)
      | inl absent ↦
          let p = λ (e : RoadmapTaskDependency). task_in db roadmap_id e.task_id in
          let rows = rw (absent, add_dependency) at m in
          let kept =
            subst (Memᴰ (the_row x y)) (where_all-append p db.dependencies (the_row t d ∷ []))
              rows in
          ⊎_elim inl (λ n. inr (mem-where_one p x y t d n))
            ((Memᴰ-append (the_row x y) (where_all p db.dependencies)
                (where_all p (the_row t d ∷ []))).0
              kept)
    ]

-- What a successful call has checked, and what it has written.
create_inversion :
    (db db' : Tables) (startup_id t d : ℕ) (created : Bool)
    → create_dependency_ep db startup_id t d ≡ ok (db', created)
    → (t' : ℕ) × (d' : ℕ) × (r : Roadmap) × (require_roadmap db startup_id ≡ ok r)
      × (would_create_cycle db r.id t' d' ≡ some false)
      × (add_dependency db t' d' ≡ (db', created))
unfolding create_dependency_ep
create_inversion db db' startup_id t d created success =
    let (dependent, _, h) = >>=-eq-ok (require_task db startup_id t) _ success in
    let (_, _, h) = >>=-eq-ok (raise_if (d == dependent.id) validation_error) _ h in
    let (dependency, _, h) = >>=-eq-ok (require_task db startup_id d) _ h in
    let (roadmap, found, h) = >>=-eq-ok (require_roadmap db startup_id) _ h in
    (dependent.id, dependency.id, roadmap, found, ground arith, ground arith)

-- A successful call keeps the graph of the workspace's roadmap acyclic.
pub create_dependency_ep-IsAcyclic :
    (db db' : Tables) (startup_id task_id depends_on_task_id : ℕ) (created : Bool) (r : Roadmap)
    → require_roadmap db startup_id ≡ ok r
    → create_dependency_ep db startup_id task_id depends_on_task_id ≡ ok (db', created)
    → IsAcyclic (roadmap_edges db r.id)
    → IsAcyclic (roadmap_edges db' r.id)
create_dependency_ep-IsAcyclic db db' startup_id t d created r found success acyclic =
    let (t', d', r', same, clear, write) = create_inversion db db' startup_id t d created success in
    let (b, ends, (_, finds)) = search_decides db r.id t' d' in
    let same_roadmap : r' ≡ r = ground arith in
    let none_found : b ≡ false = ground arith in
    subst (λ (x : Tables × Bool). IsAcyclic (roadmap_edges x.0 r.id)) write
      (IsAcyclic-add (roadmap_edges db r.id) _ t' d' (add_dependency-split db r.id t' d')
        (λ p. false≢true (sym none_found ∙ finds p)) acyclic)

delete_edge-subset :
    (p : RoadmapTaskDependency → Bool) (t d x y : ℕ) (es : List RoadmapTaskDependency)
    → Memᴰ (the_row x y) (where_all p (delete_edge t d es))
    → Memᴰ (the_row x y) (where_all p es)
delete_edge-subset p t d x y [] m = m
delete_edge-subset p t d x y (e ∷ es) m = elim (Bool-cases (is_edge t d e)) [
  | inl hit ↦ elim (Bool-cases (p e)) [
    | inl kept ↦ rw kept (Memᴰ.tail (rw hit at m))
    | inr dropped ↦ rw dropped (rw hit at m)
  ]
  | inr miss ↦ elim (Bool-cases (p e)) [
    | inl kept ↦ rw kept (
        ⊎_elim Memᴰ.head (λ n. Memᴰ.tail (delete_edge-subset p t d x y es n))
          ((Memᴰ-cons (the_row x y) e (where_all p (delete_edge t d es))).0 (rw (miss, kept) at m)))
    | inr dropped ↦ rw dropped (delete_edge-subset p t d x y es (rw (miss, dropped) at m))
  ]
]

delete_inversion :
    (db db' : Tables) (startup_id t d : ℕ)
    → delete_dependency_ep db startup_id t d ≡ ok db'
    → (t' : ℕ) × (db' ≡ record db { dependencies = delete_edge t' d db.dependencies })
unfolding delete_dependency_ep
delete_inversion db db' startup_id t d success =
    let (dependent, _, h) = >>=-eq-ok (require_task db startup_id t) _ success in
    let (_, _, h) =
      >>=-eq-ok (or_raise (first (is_edge dependent.id d) db.dependencies) not_found) _ h in
    (dependent.id, ground arith)

-- Deleting a dependency keeps the graph of any roadmap acyclic.
pub delete_dependency_ep-IsAcyclic :
    (db db' : Tables) (startup_id task_id depends_on_task_id roadmap_id : ℕ)
    → delete_dependency_ep db startup_id task_id depends_on_task_id ≡ ok db'
    → IsAcyclic (roadmap_edges db roadmap_id)
    → IsAcyclic (roadmap_edges db' roadmap_id)
unfolding roadmap_edges
delete_dependency_ep-IsAcyclic db db' startup_id t d roadmap_id success acyclic =
    let (t', e) = delete_inversion db db' startup_id t d success in
    subst (λ (x : Tables). IsAcyclic (roadmap_edges x roadmap_id)) (sym e)
      (IsAcyclic-of_subset (roadmap_edges db roadmap_id) _
        (λ x y. delete_edge-subset (λ e. task_in db roadmap_id e.task_id) t' d x y db.dependencies)
        acyclic)
