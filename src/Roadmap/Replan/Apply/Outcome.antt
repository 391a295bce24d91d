-- ===== src/Roadmap/Replan/Apply/Outcome.antt =====
-- What `apply_replan` (app/services/roadmap/replan.py) does.
use Prim.Native.String.{String}
use cofoundaz_api.Prelude.{
  ◌⊎◌, ℕ, ◌≡◌, refl, sym, ap, ◌∙◌, true, false, Option, none, some, List, [], ◌∷◌, ◌++◌, ◌==◌,
  if◌then◌else◌, first, length, arith, inl, inr, Bool-cases, Option-cases, subst, All, All-first,
  where_all, is_some, is_none, first-fits, first-update,
}
use cofoundaz_api.Roadmap.{RoadmapMilestone, Roadmap}
use cofoundaz_api.Roadmap.Dependencies.{elem}
use cofoundaz_api.Roadmap.Replan.{Change, compute_replan}
use cofoundaz_api.Roadmap.Replan.Plan.{compute_replan-total}
use cofoundaz_api.Roadmap.Replan.Apply.{
  RoadmapReplan, ReplanEvent, ReplanDb, ReplanOutcome, Applied, proposed, set_replanned,
  add_skipped, add_applied, update_milestone, apply_loop, replan_row, replan_event, record_applied,
  record_replan, apply_replan,
}

-- What the accepted ids make of a milestone.
abbrev pub after_replan : ℕ → Option Change → RoadmapMilestone → RoadmapMilestone
after_replan now none m = m
after_replan now (some c) m = set_replanned now c m

abbrev pub accepted : List Change → List ℕ → ℕ → Option Change
accepted changes change_ids mid = if elem mid change_ids then proposed changes mid else none

abbrev pub find : ℕ → List RoadmapMilestone → Option RoadmapMilestone
find mid rows = first (λ (m : RoadmapMilestone). m.id == mid) rows

proposed-own_id :
    (changes : List Change) (cid : ℕ) (c : Change)
    → All (λ c. c.change_id ≡ c.milestone_id) changes
    → proposed changes cid ≡ some c
    → c.milestone_id ≡ cid
proposed-own_id changes cid c own e =
    let k =
      All-first (λ c. c.change_id ≡ c.milestone_id) (λ (c : Change). c.change_id == cid) changes c
        own e in
    let f = first-fits (λ (c : Change). c.change_id == cid) changes c e in ground arith

-- The row of a milestone after some more of the accepted ids.
abbrev pub row_after : ℕ → List Change → List ℕ → ℕ → RoadmapMilestone → RoadmapMilestone
row_after now changes change_ids mid m = after_replan now (accepted changes change_ids mid) m

apply_loop-none :
    (now : ℕ) (changes : List Change) (cid : ℕ) (ids : List ℕ) (rows : List RoadmapMilestone)
    → proposed changes cid ≡ none
    → apply_loop now changes (cid ∷ ids) rows ≡ add_skipped cid (apply_loop now changes ids rows)
unfolding apply_loop
apply_loop-none now changes cid ids rows e = rw (e, apply_loop) refl

apply_loop-some :
    (now : ℕ) (changes : List Change) (cid : ℕ) (ids : List ℕ) (rows : List RoadmapMilestone)
    (c : Change)
    → proposed changes cid ≡ some c
    → apply_loop now changes (cid ∷ ids) rows
      ≡ add_applied cid c (apply_loop now changes ids (update_milestone now c rows))
unfolding apply_loop
apply_loop-some now changes cid ids rows c e = rw (e, apply_loop) refl

abbrev pub IsSplit : List Change → List ℕ → List ℕ → List ℕ → Type 0
IsSplit changes change_ids applied skipped =
    (applied ≡ where_all (λ i. is_some (proposed changes i)) change_ids)
    × (skipped ≡ where_all (λ i. is_none (proposed changes i)) change_ids)

apply_loop-IsSplit :
    (now : ℕ) (changes : List Change) (change_ids : List ℕ) (rows : List RoadmapMilestone)
    → IsSplit changes change_ids
        (apply_loop now changes change_ids rows).applied
        (apply_loop now changes change_ids rows).skipped
unfolding apply_loop
apply_loop-IsSplit now changes [] rows = (refl, refl)
apply_loop-IsSplit now changes (cid ∷ ids) rows = elim (Option-cases (proposed changes cid)) [
  | inl e ↦
      let r = apply_loop-IsSplit now changes ids rows in
      rw (apply_loop-none now changes cid ids rows e, e) (r.0, ap (λ l. cid ∷ l) r.1)
  | inr (c, e) ↦
      let r = apply_loop-IsSplit now changes ids (update_milestone now c rows) in
      rw (apply_loop-some now changes cid ids rows c e, e) (ap (λ l. cid ∷ l) r.0, r.1)
]

accepted-none :
    (changes : List Change) (cid : ℕ) (ids : List ℕ) (mid : ℕ)
    → proposed changes cid ≡ none
    → accepted changes (cid ∷ ids) mid ≡ accepted changes ids mid
accepted-none changes cid ids mid k = elim (Bool-cases (cid == mid)) [
  | inr f ↦ rw f refl
  | inl t ↦
      let same : cid ≡ mid = ground arith in
      let k' = subst (λ x. proposed changes x ≡ none) same k in
      elim (Bool-cases (elem mid ids)) [ inl u ↦ rw (t, u) refl | inr u ↦ rw (t, u, k') refl ]
]

row_after-some :
    (now : ℕ) (changes : List Change) (cid : ℕ) (ids : List ℕ) (mid : ℕ) (m : RoadmapMilestone)
    (c : Change)
    → All (λ c. c.change_id ≡ c.milestone_id) changes
    → proposed changes cid ≡ some c
    → (m.id == mid) ≡ true
    → row_after now changes ids mid (if m.id == c.milestone_id then set_replanned now c m else m)
      ≡ row_after now changes (cid ∷ ids) mid m
row_after-some now changes cid ids mid m c own k found =
    let id : c.milestone_id ≡ cid = proposed-own_id changes cid c own k in
    elim (Bool-cases (cid == mid)) [
      | inr f ↦ let off : (m.id == c.milestone_id) ≡ false = ground arith in rw (f, off) refl
      | inl t ↦
          let same : cid ≡ mid = ground arith in
          let on : (m.id == c.milestone_id) ≡ true = ground arith in
          let k' = subst (λ x. proposed changes x ≡ some c) same k in
          elim (Bool-cases (elem mid ids)) [
            | inl u ↦ rw (t, on, u, k') refl
            | inr u ↦ rw (t, on, u, k') refl
          ]
    ]

apply_loop-find :
    (now : ℕ) (changes : List Change) (change_ids : List ℕ) (rows : List RoadmapMilestone) (mid : ℕ)
    (m : RoadmapMilestone)
    → All (λ c. c.change_id ≡ c.milestone_id) changes
    → find mid rows ≡ some m
    → find mid (apply_loop now changes change_ids rows).milestones
      ≡ some (row_after now changes change_ids mid m)
unfolding apply_loop
apply_loop-find now changes [] rows mid m own e = e
apply_loop-find now changes (cid ∷ ids) rows mid m own e =
    elim (Option-cases (proposed changes cid)) [
      | inl k ↦ rw (apply_loop-none now changes cid ids rows k) (
          apply_loop-find now changes ids rows mid m own e
          ∙ ap (λ c. some (after_replan now c m)) (sym (accepted-none changes cid ids mid k)))
      | inr (c, k) ↦
          let changed =
            first-update (λ (x : RoadmapMilestone). x.id == mid)
              (λ (x : RoadmapMilestone). x.id == c.milestone_id) (set_replanned now c) rows m
              (λ x. refl) e in
          let r =
            apply_loop-find now changes ids (update_milestone now c rows) mid
              (if m.id == c.milestone_id then set_replanned now c m else m) own changed in
          rw (apply_loop-some now changes cid ids rows c k) (
            r
            ∙ ap some (
                row_after-some now changes cid ids mid m c own k
                  (first-fits (λ (x : RoadmapMilestone). x.id == mid) rows m e)))
    ]

-- What is stored and published, by the number of changes applied.
abbrev pub IsRecorded : Roadmap → ℕ → ReplanOutcome → ReplanDb → ReplanDb → Type 0
IsRecorded roadmap actor out db db' = elim out.applied [
  | [] ↦ (db'.replans ≡ db.replans) × (db'.events ≡ db.events)
  | cid ∷ cids ↦
      (replan : RoadmapReplan) × (event : ReplanEvent) × (db'.replans ≡ db.replans ++ replan ∷ [])
      × (db'.events ≡ db.events ++ event ∷ [])
      × (replan.change_count ≡ length out.applied)
      × (event.change_count ≡ length out.applied)
      × (event.replan_id ≡ replan.id)
      × (replan.roadmap_id ≡ roadmap.id)
      × (event.applied_by ≡ actor)
]

abbrev IsDone : Roadmap → ℕ → Applied → List ℕ → ReplanDb → ReplanOutcome × ReplanDb → Type 0
IsDone roadmap actor a ids db (out, db') =
    (out.applied ≡ ids)
    × (out.skipped ≡ a.skipped)
    × (db'.tables.milestones ≡ a.milestones)
    × IsRecorded roadmap actor out db db'

record_applied-IsDone :
    (str : ℕ → String) (roadmap : Roadmap) (actor new_id : ℕ) (a : Applied) (ids : List ℕ)
    (db : ReplanDb)
    → IsDone roadmap actor a ids db (record_applied str roadmap actor new_id a ids db)
record_applied-IsDone str roadmap actor new_id a [] db = (refl, refl, refl, (refl, refl))
record_applied-IsDone str roadmap actor new_id a (cid ∷ cids) db = (
  refl,
  refl,
  refl,
  (
    replan_row str roadmap actor new_id (length (cid ∷ cids)) a.snapshot,
    replan_event roadmap actor new_id (length (cid ∷ cids)),
    refl,
    refl,
    refl,
    refl,
    refl,
    refl,
    refl,
  ),
)

-- A milestone before and after: if its id was given and a change is proposed for it, it has the date
-- and the reason of that change and the time of the re-plan, and is as it was but for these; if not, it
-- is as it was.
abbrev pub IsMoved : ℕ → List Change → List ℕ → ℕ → RoadmapMilestone → RoadmapMilestone → Type 0
IsMoved now changes change_ids mid m m' =
    ((c : Change) × (elem mid change_ids ≡ true)
      × (proposed changes mid ≡ some c)
      × (m' ≡ record m {
        due_on = some c.new_due;
        last_replanned_at = some now;
        last_replan_reason = some c.reason;
      }))
    ⊎ (((elem mid change_ids ≡ false) ⊎ (proposed changes mid ≡ none)) × (m' ≡ m))

row_after-IsMoved :
    (now : ℕ) (changes : List Change) (change_ids : List ℕ) (mid : ℕ) (m : RoadmapMilestone)
    → IsMoved now changes change_ids mid m (row_after now changes change_ids mid m)
row_after-IsMoved now changes change_ids mid m = elim (Bool-cases (elem mid change_ids)) [
  | inr f ↦ inr (inl f, ap (λ b. after_replan now (if b then proposed changes mid else none) m) f)
  | inl t ↦
      let given = ap (λ b. after_replan now (if b then proposed changes mid else none) m) t in
      elim (Option-cases (proposed changes mid)) [
        | inl e ↦ inr (inr e, given ∙ ap (λ o. after_replan now o m) e)
        | inr (c, e) ↦ inl (c, t, e, given ∙ ap (λ o. after_replan now o m) e)
      ]
]

-- Applying a proposal: every id asked for is either applied, if it is the id of a proposed change, or
-- skipped, in the order given, as often as it is given; a milestone that its id finds is moved to the
-- date proposed for it if its id was given, and is left as it was otherwise; and exactly if something
-- was applied, one re-plan is stored and one event published, with the number of ids applied, in which
-- an id that is given twice counts twice.
pub apply_replan_lem :
    (str : ℕ → String) (today now : ℕ) (roadmap : Roadmap) (actor : ℕ) (change_ids : List ℕ)
    (new_id : ℕ) (db : ReplanDb)
    → (changes : List Change) × (out : ReplanOutcome) × (db' : ReplanDb) × (compute_replan str today
          db.tables roadmap.id
        ≡ some changes)
      × (apply_replan str today now roadmap actor change_ids new_id db ≡ some (out, db'))
      × IsSplit changes change_ids out.applied out.skipped
      × ((mid : ℕ) (m : RoadmapMilestone)
          → find mid db.tables.milestones ≡ some m
          → (m' : RoadmapMilestone) × (find mid db'.tables.milestones ≡ some m')
            × IsMoved now changes change_ids mid m m')
      × IsRecorded roadmap actor out db db'
unfolding apply_replan record_replan
apply_replan_lem str today now roadmap actor change_ids new_id db =
    let (changes, e, own) = compute_replan-total str today db.tables roadmap.id in
    let a = apply_loop now changes change_ids db.tables.milestones in
    let r = record_replan str roadmap actor new_id a db in
    let split = apply_loop-IsSplit now changes change_ids db.tables.milestones in
    let done = record_applied-IsDone str roadmap actor new_id a a.applied db in
    (
      changes,
      r.0,
      r.1,
      e,
      rw (e, apply_replan) refl,
      (done.0 ∙ split.0, done.1 ∙ split.1),
      λ mid m f. (
        row_after now changes change_ids mid m,
        ap (find mid) done.2
            ∙ apply_loop-find now changes change_ids db.tables.milestones mid m own f,
        row_after-IsMoved now changes change_ids mid m,
      ),
      done.3,
    )
