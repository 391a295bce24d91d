-- ===== src/Roadmap/Dependencies/Graph.antt =====
-- The dependency graph as a relation on task ids, and the adjacency map against it.
use cofoundaz_api.Prelude.{
  ℕ, ◌≡◌, sym, ap, ◌↔◌, ◌⊎◌, inl, inr, ⊎_elim, List, [], ◌∷◌, ◌++◌, ◌==◌, arith, Memᴰ, Memᴰ-cons,
  Memᴰ-append, if◌then◌else◌, Bool-cases,
}
use mathlib.Core.List.Memᴰ
use cofoundaz_api.Roadmap.{RoadmapTaskDependency}
use cofoundaz_api.Roadmap.Dependencies.{Adjacency, append_to, get, add_edges}

abbrev edge : ℕ → ℕ → RoadmapTaskDependency
edge a b = record { task_id = a; depends_on_task_id = b }

-- "a depends on b" is a row of the table.
abbrev pub DependsOn : List RoadmapTaskDependency → ℕ → ℕ → Type 0
DependsOn es a b = Memᴰ (record { task_id = a; depends_on_task_id = b }) es

-- `a` depends on `b` through a chain of rows, which may be empty.
pub data Reach (es : List RoadmapTaskDependency) (a : ℕ) : ℕ → Type 0 where
  here : Reach es a a
  step : {b c : ℕ} → Reach es a b → DependsOn es b c → Reach es a c

-- No task depends on itself through a chain of one or more rows.
abbrev pub IsAcyclic : List RoadmapTaskDependency → Type 0
IsAcyclic es = (a b : ℕ) → DependsOn es a b → Reach es b a → ⊥

pub Reach-trans :
    (es : List RoadmapTaskDependency) {a b c : ℕ} → Reach es a b → Reach es b c → Reach es a c
Reach-trans es p here = p
Reach-trans es p (step q e) = step (Reach-trans es p q) e

pub Reach-lift :
    (es fs : List RoadmapTaskDependency) {a b : ℕ}
    → ((x y : ℕ) → DependsOn es x y → DependsOn fs x y)
    → Reach es a b
    → Reach fs a b
Reach-lift es fs h here = here
Reach-lift es fs h (step p e) = step (Reach-lift es fs h p) (h _ _ e)

get-append_to :
    (k j v : ℕ) (adj : Adjacency)
    → get k (append_to j v adj) ≡ (if j == k then get k adj ++ v ∷ [] else get k adj)
unfolding get append_to
get-append_to k j v [] = ground arith
get-append_to k j v ((i, vs) ∷ adj) = ground (arith, get-append_to k j v adj)

mem-append_to :
    (a b j v : ℕ) (adj : Adjacency)
    → Memᴰ b (get a (append_to j v adj)) ↔ (Memᴰ b (get a adj) ⊎ (j ≡ a) × (b ≡ v))
mem-append_to a b j v adj = rw get-append_to (elim (Bool-cases (j == a)) [
  | inl same ↦ rw same (
    λ m.
        ⊎_elim inl (λ l. inr (ground arith, Memᴰ.eq_of_singleton l))
          ((Memᴰ-append b (get a adj) (v ∷ [])).0 m),
    ⊎_elim (λ m. (Memᴰ-append b (get a adj) (v ∷ [])).1 (inl m))
        (λ h. (Memᴰ-append b (get a adj) (v ∷ [])).1 (inr (Memᴰ.head h.1))),
  )
  | inr other ↦ rw other (inl, ⊎_elim (λ m. m) (λ h. absurd (ground arith)))
])

mem-add_edges :
    (a b : ℕ) (es : List RoadmapTaskDependency) (out : Adjacency)
    → Memᴰ b (get a (add_edges es out)) ↔ (Memᴰ b (get a out) ⊎ DependsOn es a b)
unfolding add_edges
mem-add_edges a b [] out = (inl, ⊎_elim (λ m. m) (λ n. absurd (Memᴰ.not-nil n)))
mem-add_edges a b (e ∷ es) out =
    let ih = mem-add_edges a b es (append_to e.task_id e.depends_on_task_id out) in
    let one = mem-append_to a b e.task_id e.depends_on_task_id out in
    let cons = Memᴰ-cons (edge a b) e es in
    (
      λ m.
          ⊎_elim
            (λ l. ⊎_elim inl (λ h. inr (cons.1 (inl (λ i. edge (sym h.0 i) (h.1 i))))) (one.0 l))
            (λ r. inr (cons.1 (inr r))) (ih.0 m),
      ⊎_elim (λ l. ih.1 (inl (one.1 (inl l))))
          (λ r.
            ⊎_elim
              (λ p. ih.1 (
                inl (
                  one.1 (
                    inr (
                      ap (λ (x : RoadmapTaskDependency). x.task_id) (sym p),
                      ap (λ (x : RoadmapTaskDependency). x.depends_on_task_id) p,
                    )))))
              (λ q. ih.1 (inr q)) (cons.0 r)),
    )

-- The adjacency map lists exactly the dependencies.
pub mem-adjacency :
    (a b : ℕ) (es : List RoadmapTaskDependency)
    → Memᴰ b (get a (add_edges es [])) ↔ DependsOn es a b
unfolding get
mem-adjacency a b es = (
  λ m. ⊎_elim (λ l. absurd (Memᴰ.not-nil l)) (λ r. r) ((mem-add_edges a b es []).0 m),
  λ r. (mem-add_edges a b es []).1 (inr r),
)
