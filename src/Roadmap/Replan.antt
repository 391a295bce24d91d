-- ===== src/Roadmap/Replan.antt =====
-- Re-planning a roadmap (app/services/roadmap/replan.py). A date is a day number; today's, the new
-- ids and the decimal text of a number are arguments. A Python set is the list of its entries in the
-- order of their insertion, where the source leaves the order of its traversal open.
pub mod Order
pub mod Toposort
pub mod Slip
pub mod Precedence
pub mod Plan
pub mod Apply
mod Tests
use Prim.Native.String.{String, ◌++◌ as str_append}
use cofoundaz_api.Prelude.{
  ℕ, zero, suc, ◌+◌, ◌-◌, Bool, true, false, Option, none, some, List, [], ◌∷◌, ◌++◌, ◌==◌, ◌&&◌,
  ◌||◌, not, ltb, is_none, if◌then◌else◌, first, where_all, update_where, length, map,
}
use cofoundaz_api.Roadmap.{
  Roadmap, RoadmapMilestone, RoadmapTask, RoadmapTaskDependency, Tables, is_done, phase_in,
  milestone_in,
}
use cofoundaz_api.Roadmap.Dependencies.{Adjacency, get, elem}

abbrev pub replan_buffer_days : ℕ
replan_buffer_days = 7

pub record Change : Type 0 where
  pub change_id : ℕ
  pub milestone_id : ℕ
  pub title : String
  pub old_due : ℕ
  pub new_due : ℕ
  pub reason : String

-- `_milestones`
pub milestones_of : Tables → ℕ → List RoadmapMilestone
milestones_of db roadmap_id =
    where_all (λ (m : RoadmapMilestone). phase_in db roadmap_id m.phase_id) db.milestones

abbrev pub due_before : ℕ → Option ℕ → Bool
due_before today none = false
due_before today (some due) = ltb due today

abbrev pub has_drifted : ℕ → RoadmapMilestone → Bool
has_drifted today m = due_before today m.due_on && not (is_done m.status)

pub detect_drift : ℕ → Tables → ℕ → List RoadmapMilestone
unfolding milestones_of
detect_drift today db roadmap_id = where_all (has_drifted today) (milestones_of db roadmap_id)

abbrev pub milestone_id_of : Option RoadmapTask → Option ℕ
milestone_id_of none = none
milestone_id_of (some t) = some t.milestone_id

-- `task_ms.get(task_id)`
abbrev pub task_milestone : Tables → ℕ → ℕ → Option ℕ
task_milestone db roadmap_id task_id = milestone_id_of (
    first (λ (t : RoadmapTask). (t.id == task_id) && milestone_in db roadmap_id t.milestone_id)
      db.tasks)

-- `preds.setdefault(down, set()).add(up)`
pub add_pred : ℕ → ℕ → Adjacency → Adjacency
add_pred down up [] = (down, up ∷ []) ∷ []
add_pred down up ((k, ups) ∷ preds) =
    if k == down
    then (k, if elem up ups then ups else ups ++ up ∷ []) ∷ preds
    else (k, ups) ∷ add_pred down up preds

abbrev add_between : Option ℕ → Option ℕ → Adjacency → Adjacency
unfolding add_pred
add_between (some down) (some up) preds = if down == up then preds else add_pred down up preds
add_between (some down) none preds = preds
add_between none up preds = preds

pub precedence_loop : Tables → ℕ → List RoadmapTaskDependency → Adjacency → Adjacency
unfolding add_between
precedence_loop db roadmap_id [] preds = preds
precedence_loop db roadmap_id (dep ∷ deps) preds = precedence_loop db roadmap_id deps (
    add_between (task_milestone db roadmap_id dep.task_id)
      (task_milestone db roadmap_id dep.depends_on_task_id) preds)

pub milestone_precedence : Tables → ℕ → Adjacency
unfolding precedence_loop
milestone_precedence db roadmap_id = precedence_loop db roadmap_id db.dependencies []

-- `if n not in seen: seen.add(n); ordered.append(n)`: the set `seen` holds what `ordered` lists.
abbrev pub append_new : ℕ → List ℕ → List ℕ
append_new n ordered = if elem n ordered then ordered else ordered ++ n ∷ []

abbrev finish : ℕ → Option (List ℕ) → Option (List ℕ)
finish n none = none
finish n (some ordered) = some (append_new n ordered)

-- The loops over `visit`, which stop where it runs out of fuel.
abbrev pub visit_each : (ℕ → List ℕ → Option (List ℕ)) → List ℕ → List ℕ → Option (List ℕ)
visit_each visitor [] ordered = some ordered
visit_each visitor (n ∷ ns) ordered = elim (visitor n ordered) [
  | none ↦ none
  | some ordered' ↦ visit_each visitor ns ordered'
]

-- The fuel bounds the depth of the recursion; `none` means that it ran out.
pub visit : Adjacency → ℕ → List ℕ → ℕ → List ℕ → Option (List ℕ)
unfolding get
visit preds zero stack n ordered = none
visit preds (suc fuel) stack n ordered =
    let visited = visit_each (λ up o. visit preds fuel (n ∷ stack) up o) (get n preds) ordered in
    if elem n ordered || elem n stack then some ordered else finish n visited

pub toposort : List ℕ → Adjacency → Option (List ℕ)
unfolding visit
toposort nodes preds = visit_each (visit preds (length nodes + 1) []) nodes []

abbrev pub own_slip : ℕ → Option ℕ → Bool → ℕ
own_slip today none drifted = 0
own_slip today (some due) drifted = if drifted then today + replan_buffer_days - due else 0

abbrev pub base_shift_of : ℕ → RoadmapMilestone → ℕ
base_shift_of today m = own_slip today m.due_on (has_drifted today m)

-- `base_shift.get(mid, 0)`
pub base_shift : ℕ → List RoadmapMilestone → ℕ → ℕ
base_shift today [] mid = 0
base_shift today (m ∷ milestones) mid =
    if m.id == mid then base_shift_of today m else base_shift today milestones mid

-- An entry of `shift` and of `max_upstream`, which have the same keys.
pub record Shift : Type 0 where
  pub days : ℕ
  pub winner : Option ℕ

abbrev pub Shifts : Type 0
Shifts = List (ℕ × Shift)

-- `shift.get(mid, 0)` and `max_upstream.get(mid)`
abbrev no_shift : Shift
no_shift = record { days = 0; winner = none }

pub shift_of : ℕ → Shifts → Shift
shift_of mid [] = no_shift
shift_of mid ((k, s) ∷ shifts) = if k == mid then s else shift_of mid shifts

-- The inner loop, from the milestone's own shift on.
pub max_upstream : Shifts → List ℕ → Shift → Shift
unfolding shift_of
max_upstream shifts [] best = best
max_upstream shifts (up ∷ ups) best =
    let s = (shift_of up shifts).days in
    if ltb best.days s
    then max_upstream shifts ups (record { days = s; winner = some up })
    else max_upstream shifts ups best

-- A later entry of a key stands before an earlier one.
pub shift_loop : (ℕ → ℕ) → Adjacency → List ℕ → Shifts → Shifts
unfolding max_upstream get
shift_loop base preds [] shifts = shifts
shift_loop base preds (mid ∷ order) shifts = shift_loop base preds order (
    (mid, max_upstream shifts (get mid preds) (record { days = base mid; winner = none })) ∷ shifts)

pub title_of : List RoadmapMilestone → ℕ → String
title_of [] mid = ""
title_of (m ∷ milestones) mid = if m.id == mid then m.title else title_of milestones mid

infixl 60 ◌⧺◌
abbrev ◌⧺◌ : String → String → String
s ⧺ t = str_append s t

abbrev reason_for : (ℕ → String) → ℕ → List RoadmapMilestone → ℕ → ℕ → Shift → String
unfolding title_of
reason_for str today milestones due own s = elim s.winner [
  | none ↦ str (today - due) ⧺ " days overdue and not yet done."
  | some up ↦
      if ltb 0 own
      then str (today - due)
        ⧺ " days overdue; shifts "
        ⧺ str s.days
        ⧺ " days with its dependency '"
        ⧺ title_of milestones up
        ⧺ "'."
      else "Shifts " ⧺ str s.days ⧺ " days with its dependency '" ⧺ title_of milestones up ⧺ "'."
]

abbrev pub make_change :
    (ℕ → String) → ℕ → List RoadmapMilestone → RoadmapMilestone → ℕ → Shift → Change
unfolding base_shift reason_for
make_change str today milestones m due s = record {
  change_id = m.id;
  milestone_id = m.id;
  title = m.title;
  old_due = due;
  new_due = due + s.days;
  reason = reason_for str today milestones due (base_shift today milestones m.id) s;
}

-- The change of one milestone: none without a due date or with a shift of zero.
abbrev pub change_of :
    (ℕ → String) → ℕ → List RoadmapMilestone → Shifts → RoadmapMilestone → Option Change
unfolding shift_of make_change
change_of str today milestones shifts m = elim m.due_on [
  | none ↦ none
  | some due ↦
      let s = shift_of m.id shifts in
      if ltb 0 s.days then some (make_change str today milestones m due s) else none
]

abbrev change_at :
    (ℕ → String) → ℕ → List RoadmapMilestone → Shifts → Option RoadmapMilestone → Option Change
unfolding change_of
change_at str today milestones shifts none = none
change_at str today milestones shifts (some m) = change_of str today milestones shifts m

abbrev add_change : Option Change → List Change → List Change
add_change none changes = changes
add_change (some c) changes = c ∷ changes

-- The last loop, with `milestones[mid]`.
pub changes_loop : (ℕ → String) → ℕ → List RoadmapMilestone → Shifts → List ℕ → List Change
unfolding change_at
changes_loop str today milestones shifts [] = []
changes_loop str today milestones shifts (mid ∷ order) =
    add_change
      (change_at str today milestones shifts
        (first (λ (m : RoadmapMilestone). m.id == mid) milestones))
      (changes_loop str today milestones shifts order)

-- The body of `compute_replan`, of the milestones and their precedence.
abbrev replan_in_order : (ℕ → String) → ℕ → List RoadmapMilestone → Adjacency → List ℕ → List Change
unfolding changes_loop shift_loop base_shift
replan_in_order str today milestones preds order =
    changes_loop str today milestones (shift_loop (base_shift today milestones) preds order [])
      order

pub compute_replan : (ℕ → String) → ℕ → Tables → ℕ → Option (List Change)
unfolding milestones_of milestone_precedence toposort replan_in_order
compute_replan str today db roadmap_id =
    let milestones = milestones_of db roadmap_id in
    let preds = milestone_precedence db roadmap_id in
    elim (toposort (map (λ (m : RoadmapMilestone). m.id) milestones) preds) [
      | none ↦ none
      | some order ↦ some (replan_in_order str today milestones preds order)
    ]
