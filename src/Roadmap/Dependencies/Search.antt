-- ===== src/Roadmap/Dependencies/Search.antt =====
-- The search of `would_create_cycle` (app/services/roadmap/dependencies.py) against reachability.
use cofoundaz_api.Prelude.{
  ◌↔◌, ℕ, zero, suc, ◌+◌, ◌≤◌, ◌<◌, ◌≡◌, refl, sym, ◌↔◌, ◌⊎◌, inl, inr, ⊎_elim, Bool, true, false,
  some, List, [], ◌∷◌, ◌==◌, ◌∙◌, arith, Memᴰ, Memᴰ-cons, if◌then◌else◌, Bool-cases, subst, length,
  length-append,
}
use mathlib.Core.List.Memᴰ
use mathlib.Core.Bool.{false≢true}
use cofoundaz_api.Roadmap.{RoadmapTaskDependency, Tables}
use cofoundaz_api.Roadmap.Dependencies.{
  Adjacency, append_to, get, add_edges, extend, elem, search_loop, roadmap_edges,
  would_create_cycle,
}
use cofoundaz_api.Roadmap.Dependencies.Graph.{DependsOn, Reach, here, step, mem-adjacency}

mem-extend : (a : ℕ) (vs stack : List ℕ) → Memᴰ a (extend vs stack) ↔ (Memᴰ a vs ⊎ Memᴰ a stack)
unfolding extend
mem-extend a [] stack = (inr, ⊎_elim (λ n. absurd (Memᴰ.not-nil n)) (λ m. m))
mem-extend a (v ∷ vs) stack =
    ground (arith, mem-extend a vs (v ∷ stack), Memᴰ-cons a v vs, Memᴰ-cons a v stack)

length-extend : (vs stack : List ℕ) → length (extend vs stack) ≡ length vs + length stack
unfolding extend
length-extend [] stack = omega arith
length-extend (v ∷ vs) stack = omega (arith, length-extend vs (v ∷ stack))

-- The entries of the map that are still to be pushed.
remaining : List ℕ → Adjacency → ℕ
remaining seen [] = 0
remaining seen ((k, vs) ∷ adj) =
    if elem k seen then remaining seen adj else length vs + remaining seen adj

remaining-cons-le :
    (n : ℕ) (seen : List ℕ) (adj : Adjacency) → remaining (n ∷ seen) adj ≤ remaining seen adj
unfolding remaining
remaining-cons-le n seen [] = omega arith
remaining-cons-le n seen ((k, vs) ∷ adj) = ground (arith, remaining-cons-le n seen adj)

-- Visiting an unseen node takes at least its entry off.
remaining-cons :
    (n : ℕ) (seen : List ℕ) (adj : Adjacency)
    → elem n seen ≡ false
    → remaining (n ∷ seen) adj + length (get n adj) ≤ remaining seen adj
unfolding remaining get
remaining-cons n seen [] h = omega arith
remaining-cons n seen ((k, vs) ∷ adj) h =
    ground (arith, remaining-cons n seen adj, remaining-cons-le n seen adj)

remaining-append_to :
    (k v : ℕ) (adj : Adjacency) → remaining [] (append_to k v adj) ≡ remaining [] adj + 1
unfolding remaining append_to
remaining-append_to k v [] = omega arith
remaining-append_to k v ((j, vs) ∷ adj) =
    ground (arith, remaining-append_to k v adj, length-append vs (v ∷ []))

remaining-add_edges :
    (es : List RoadmapTaskDependency) (out : Adjacency)
    → remaining [] (add_edges es out) ≡ remaining [] out + length es
unfolding add_edges
remaining-add_edges [] out = omega arith
remaining-add_edges (e ∷ es) out = omega (
  arith,
  remaining-add_edges es (append_to e.task_id e.depends_on_task_id out),
  remaining-append_to e.task_id e.depends_on_task_id out,
)

search_ends :
    (adj : Adjacency) (task_id fuel : ℕ) (stack seen : List ℕ)
    → length stack + remaining seen adj < fuel
    → (b : Bool) × (search_loop adj task_id fuel stack seen ≡ some b)
unfolding search_loop
search_ends adj task_id zero stack seen h = absurd (omega arith)
search_ends adj task_id (suc fuel) [] seen h = (false, refl)
search_ends adj task_id (suc fuel) (node ∷ stack) seen h = elim (Bool-cases (node == task_id)) [
  | inl found ↦ (true, rw found)
  | inr other ↦ elim (Bool-cases (elem node seen)) [
    | inl old ↦ rw (other, old) (search_ends adj task_id fuel stack seen (ground arith))
    | inr new ↦
        rw (other, new)
          (search_ends adj task_id fuel (extend (get node adj) stack) (node ∷ seen)
            (omega (arith, length-extend (get node adj) stack, remaining-cons node seen adj new)))
  ]
]

module _ (es : List RoadmapTaskDependency) (start task_id : ℕ) where
  abbrev adj : Adjacency
  adj = add_edges es []

  record Inv (stack seen : List ℕ) : Type 0 where
    sound : (v : ℕ) → Memᴰ v stack → Reach es start v
    clean : elem task_id seen ≡ false
    root : Memᴰ start stack ⊎ (elem start seen ≡ true)
    closed : (u v : ℕ) → elem u seen ≡ true → DependsOn es u v → Memᴰ v stack ⊎ (elem v seen ≡ true)

  Inv-start : Inv (start ∷ []) []
  Inv-start = record {
    sound = λ v m. subst (Reach es start) (sym (Memᴰ.eq_of_singleton m)) here;
    clean = refl;
    root = inl (Memᴰ.head refl);
    closed = λ u v s e. cc;
  }

  Inv-skip :
      (node : ℕ) (stack seen : List ℕ)
      → elem node seen ≡ true
      → Inv (node ∷ stack) seen
      → Inv stack seen
  Inv-skip node stack seen old h = record {
    sound = λ v m. h.sound v (Memᴰ.tail m);
    clean = h.clean;
    root =
        ⊎_elim (λ m. ⊎_elim (λ e. inr (rw e old)) inl ((Memᴰ-cons start node stack).0 m)) inr
          h.root;
    closed = λ u v s d.
        ⊎_elim (λ m. ⊎_elim (λ e. inr (rw e old)) inl ((Memᴰ-cons v node stack).0 m)) inr
          (h.closed u v s d);
  }

  Inv-visit :
      (node : ℕ) (stack seen : List ℕ)
      → (node == task_id) ≡ false
      → Inv (node ∷ stack) seen
      → Inv (extend (get node adj) stack) (node ∷ seen)
  Inv-visit node stack seen other h =
      let pushed = λ (v : ℕ). mem-extend v (get node adj) stack in
      record {
        sound = λ v m.
            ⊎_elim (λ new. step (h.sound node (Memᴰ.head refl)) ((mem-adjacency node v es).0 new))
              (λ old. h.sound v (Memᴰ.tail old)) ((pushed v).0 m);
        clean = ground (arith, h.clean);
        root = moves start h.root;
        closed = λ u v s d. elim (Bool-cases (node == u)) [
          | inl same ↦ inl (
              (pushed v).1 (
                inl ((mem-adjacency node v es).1 (subst (λ x. DependsOn es x v) (ground arith) d))))
          | inr diff ↦ moves v (h.closed u v (ground arith) d)
        ];
      }
    where
      moves :
          (v : ℕ)
          → Memᴰ v (node ∷ stack) ⊎ (elem v seen ≡ true)
          → Memᴰ v (extend (get node adj) stack) ⊎ (elem v (node ∷ seen) ≡ true)
      moves v =
          ⊎_elim
            (λ m.
              ⊎_elim (λ e. inr (ground arith))
                (λ old. inl ((mem-extend v (get node adj) stack).1 (inr old)))
                ((Memᴰ-cons v node stack).0 m))
            (λ s. inr (ground arith))

  -- With nothing left on the stack the seen nodes are closed under dependencies.
  Reach-seen : (seen : List ℕ) {v : ℕ} → Inv [] seen → Reach es start v → elem v seen ≡ true
  Reach-seen seen h here = ⊎_elim (λ n. absurd (Memᴰ.not-nil n)) (λ m. m) h.root
  Reach-seen seen h (step {b} {c} p e) =
      ⊎_elim (λ n. absurd (Memᴰ.not-nil n)) (λ m. m) (h.closed b c (Reach-seen seen h p) e)

  search_correct :
      (fuel : ℕ) (stack seen : List ℕ) (b : Bool)
      → Inv stack seen
      → search_loop adj task_id fuel stack seen ≡ some b
      → (b ≡ true → Reach es start task_id) × (Reach es start task_id → b ≡ true)
  unfolding search_loop
  search_correct zero stack seen b h e = cc
  search_correct (suc fuel) [] seen b h e = (
    λ t. absurd (false≢true (ground arith)),
    λ r. absurd (false≢true (sym h.clean ∙ Reach-seen seen h r)),
  )
  search_correct (suc fuel) (node ∷ stack) seen b h e = elim (Bool-cases (node == task_id)) [
    | inl found ↦ (
      λ t. subst (Reach es start) (ground arith) (h.sound node (Memᴰ.head refl)),
      λ r. ground arith,
    )
    | inr other ↦ elim (Bool-cases (elem node seen)) [
      | inl old ↦ search_correct fuel stack seen b (Inv-skip node stack seen old h) (ground arith)
      | inr new ↦
          search_correct fuel (extend (get node adj) stack) (node ∷ seen) b
            (Inv-visit node stack seen other h) (ground arith)
    ]
  ]

-- For any roadmap, the search ends within its fuel, and its answer is true exactly if the
-- dependency already depends on the task through a chain of rows, of length zero or more.
pub search_decides :
    (db : Tables) (roadmap_id task_id depends_on_task_id : ℕ)
    → (b : Bool) × (would_create_cycle db roadmap_id task_id depends_on_task_id ≡ some b)
      × ((b ≡ true) ↔ Reach (roadmap_edges db roadmap_id) depends_on_task_id task_id)
unfolding would_create_cycle remaining
search_decides db roadmap_id task_id depends_on_task_id =
    let es = roadmap_edges db roadmap_id in
    let (b, ends) =
      search_ends (add_edges es []) task_id (length es + 2) (depends_on_task_id ∷ []) []
        (omega (arith, remaining-add_edges es [])) in
    let decides =
      search_correct es depends_on_task_id task_id (length es + 2) (depends_on_task_id ∷ []) [] b
        (Inv-start es depends_on_task_id task_id) ends in
    (b, ends, decides)
