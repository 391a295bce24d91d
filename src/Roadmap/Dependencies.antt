-- ===== src/Roadmap/Dependencies.antt =====
-- Task dependencies (app/services/roadmap/dependencies.py) and the two endpoints that write them
-- (app/api/v1/endpoints/roadmap.py). The editor's role check is made before these bodies run.
pub mod Graph
pub mod Search
pub mod Acyclic
pub mod Unique
mod Tests
use cofoundaz_api.Prelude.{
  ℕ, zero, suc, ◌+◌, Bool, true, false, Option, none, some, List, [], ◌∷◌, ◌++◌, ◌==◌, ◌&&◌, ◌||◌,
  if◌then◌else◌, first, where_all, any, length,
}
use cofoundaz_api.Errors.{
  AppError, Result, ok, err, ◌>>=◌, ◌>>◌, raise_if, or_raise, not_found, validation_error,
  dependency_cycle,
}
use cofoundaz_api.Roadmap.{
  Roadmap, RoadmapTask, RoadmapTaskDependency, Tables, task_in, require_roadmap, require_task,
}

pub roadmap_edges : Tables → ℕ → List RoadmapTaskDependency
roadmap_edges db roadmap_id = where_all (λ e. task_in db roadmap_id e.task_id) db.dependencies

-- A `defaultdict(list)`, in insertion order.
abbrev pub Adjacency : Type 0
Adjacency = List (ℕ × List ℕ)

-- `out[k].append(v)`
pub append_to : ℕ → ℕ → Adjacency → Adjacency
append_to k v [] = (k, v ∷ []) ∷ []
append_to k v ((j, vs) ∷ adj) =
    if j == k then (j, vs ++ v ∷ []) ∷ adj else (j, vs) ∷ append_to k v adj

-- `adj.get(k, [])`
unfoldable pub get : ℕ → Adjacency → List ℕ
get k [] = []
get k ((j, vs) ∷ adj) = if j == k then vs else get k adj

pub add_edges : List RoadmapTaskDependency → Adjacency → Adjacency
unfolding append_to
add_edges [] out = out
add_edges (e ∷ es) out = add_edges es (append_to e.task_id e.depends_on_task_id out)

pub dependency_map : Tables → ℕ → Adjacency
unfolding roadmap_edges add_edges
dependency_map db roadmap_id = add_edges (roadmap_edges db roadmap_id) []

abbrev pub elem : ℕ → List ℕ → Bool
elem n xs = any (λ x. x == n) xs

-- `stack.extend(vs)`, where the head of the list is the end of the stack.
pub extend : List ℕ → List ℕ → List ℕ
extend [] stack = stack
extend (v ∷ vs) stack = extend vs (v ∷ stack)

-- The `while stack` loop, one unit of fuel for each round; `none` means that the fuel ran out.
pub search_loop : Adjacency → ℕ → ℕ → List ℕ → List ℕ → Option Bool
unfolding get extend
search_loop adj task_id zero stack seen = none
search_loop adj task_id (suc fuel) [] seen = some false
search_loop adj task_id (suc fuel) (node ∷ stack) seen =
    let skip = search_loop adj task_id fuel stack seen in
    let visit = search_loop adj task_id fuel (extend (get node adj) stack) (node ∷ seen) in
    if node == task_id then some true else if elem node seen then skip else visit

-- At most one round for the start, one for each edge, and the last test of the stack.
pub would_create_cycle : Tables → ℕ → ℕ → ℕ → Option Bool
unfolding dependency_map search_loop
would_create_cycle db roadmap_id task_id depends_on_task_id =
    search_loop (dependency_map db roadmap_id) task_id (length (roadmap_edges db roadmap_id) + 2)
      (depends_on_task_id ∷ []) []

abbrev pub is_edge : ℕ → ℕ → RoadmapTaskDependency → Bool
is_edge task_id depends_on_task_id e =
    (e.task_id == task_id) && (e.depends_on_task_id == depends_on_task_id)

-- The tables, and whether a row was created. The pair is the table's primary key.
pub add_dependency : Tables → ℕ → ℕ → Tables × Bool
add_dependency db task_id depends_on_task_id =
    elim (first (is_edge task_id depends_on_task_id) db.dependencies) [
      | some existing ↦ (db, false)
      | none ↦
          let row : RoadmapTaskDependency = record {
            task_id = task_id;
            depends_on_task_id = depends_on_task_id;
          } in
          (record db { dependencies = db.dependencies ++ row ∷ [] }, true)
    ]

-- `raise DependencyCycle` if the search says so. A search that runs out of fuel has no counterpart in
-- the source.
abbrev reject_cycle : Option Bool → Result (Unit {0})
reject_cycle none = err dependency_cycle
reject_cycle (some b) = raise_if b dependency_cycle

pub create_dependency_ep : Tables → ℕ → ℕ → ℕ → Result (Tables × Bool)
unfolding would_create_cycle add_dependency require_task require_roadmap
create_dependency_ep db startup_id task_id depends_on_task_id = do
  dependent ← require_task db startup_id task_id
  raise_if (depends_on_task_id == dependent.id) validation_error
  dependency ← require_task db startup_id depends_on_task_id
  roadmap ← require_roadmap db startup_id
  reject_cycle (would_create_cycle db roadmap.id dependent.id dependency.id)
  ok (add_dependency db dependent.id dependency.id)

abbrev pub delete_edge : ℕ → ℕ → List RoadmapTaskDependency → List RoadmapTaskDependency
delete_edge task_id depends_on_task_id [] = []
delete_edge task_id depends_on_task_id (e ∷ es) =
    if is_edge task_id depends_on_task_id e
    then es
    else e ∷ delete_edge task_id depends_on_task_id es

pub delete_dependency_ep : Tables → ℕ → ℕ → ℕ → Result Tables
unfolding require_task
delete_dependency_ep db startup_id task_id depends_on_task_id = do
  dependent ← require_task db startup_id task_id
  edge ← or_raise (first (is_edge dependent.id depends_on_task_id) db.dependencies) not_found
  ok (record db { dependencies = delete_edge dependent.id depends_on_task_id db.dependencies })
