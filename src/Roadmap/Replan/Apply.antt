-- ===== src/Roadmap/Replan/Apply.antt =====
-- `apply_replan` (app/services/roadmap/replan.py): the proposed changes that the user accepted.
pub mod Outcome
use Prim.Native.String.{String, ◌++◌ as str_append}
use cofoundaz_api.Prelude.{
  ℕ, suc, ◌+◌, ◌≡◌, ◌≢◌, refl, sym, ap, ◌∙◌, ◌⊎◌, Bool, true, false, ◌||◌, Option, none, some, List,
  [], ◌∷◌, ◌++◌, ◌==◌, if◌then◌else◌, first, update_where, length, arith, inl, inr, Bool-cases,
  Option-cases, subst, All, All-first, where_all, is_some, is_none, first-fits, first-update,
}
use cofoundaz_api.Roadmap.{RoadmapMilestone, Roadmap, Tables}
use cofoundaz_api.Roadmap.Dependencies.{elem}
use cofoundaz_api.Roadmap.Replan.{Change, compute_replan}
use cofoundaz_api.Roadmap.Replan.Plan.{compute_replan-total}

-- An entry of the snapshot.
pub record Replanned : Type 0 where
  pub milestone_id : ℕ
  pub title : String
  pub old_due : ℕ
  pub new_due : ℕ
  pub reason : String

pub record RoadmapReplan : Type 0 where
  pub id : ℕ
  pub roadmap_id : ℕ
  pub applied_by : ℕ
  pub change_count : ℕ
  pub changes : List Replanned
  pub summary : String

-- The event `roadmap.replanned`.
pub record ReplanEvent : Type 0 where
  pub startup_id : ℕ
  pub roadmap_id : ℕ
  pub replan_id : ℕ
  pub change_count : ℕ
  pub applied_by : ℕ

pub record ReplanDb : Type 0 where
  pub tables : Tables
  pub replans : List RoadmapReplan
  pub events : List ReplanEvent

pub record Applied : Type 0 where
  pub applied : List ℕ
  pub skipped : List ℕ
  pub snapshot : List Replanned
  pub milestones : List RoadmapMilestone

-- `proposal.get(cid)`; the ids of the changes are unique.
abbrev pub proposed : List Change → ℕ → Option Change
proposed changes cid = first (λ (c : Change). c.change_id == cid) changes

abbrev snapshot_of : Change → Replanned
snapshot_of c = record {
  milestone_id = c.milestone_id;
  title = c.title;
  old_due = c.old_due;
  new_due = c.new_due;
  reason = c.reason;
}

abbrev pub set_replanned : ℕ → Change → RoadmapMilestone → RoadmapMilestone
set_replanned now c m = record m {
  due_on = some c.new_due;
  last_replanned_at = some now;
  last_replan_reason = some c.reason;
}

abbrev pub add_skipped : ℕ → Applied → Applied
add_skipped cid rest = record rest { skipped = cid ∷ rest.skipped }

abbrev pub add_applied : ℕ → Change → Applied → Applied
add_applied cid c rest = record rest {
  applied = cid ∷ rest.applied;
  snapshot = snapshot_of c ∷ rest.snapshot;
}

abbrev pub update_milestone : ℕ → Change → List RoadmapMilestone → List RoadmapMilestone
update_milestone now c rows =
    update_where (λ (m : RoadmapMilestone). m.id == c.milestone_id) (set_replanned now c) rows

-- The loop. `db.get` finds the milestone: the proposal was made of the same rows.
pub apply_loop : ℕ → List Change → List ℕ → List RoadmapMilestone → Applied
apply_loop now changes [] rows = record {
  applied = [];
  skipped = [];
  snapshot = [];
  milestones = rows;
}
apply_loop now changes (cid ∷ change_ids) rows = elim (proposed changes cid) [
  | none ↦ add_skipped cid (apply_loop now changes change_ids rows)
  | some c ↦ add_applied cid c (apply_loop now changes change_ids (update_milestone now c rows))
]

abbrev pub summary_of : (ℕ → String) → ℕ → String
summary_of str n =
    str_append "Re-planned "
      (str_append (str n) (str_append " milestone" (if n == 1 then "" else "s")))

pub record ReplanOutcome : Type 0 where
  pub applied : List ℕ
  pub skipped : List ℕ
  pub replan_id : Option ℕ
  pub summary : Option String

abbrev pub replan_row : (ℕ → String) → Roadmap → ℕ → ℕ → ℕ → List Replanned → RoadmapReplan
replan_row str roadmap actor new_id n snapshot = record {
  id = new_id;
  roadmap_id = roadmap.id;
  applied_by = actor;
  change_count = n;
  changes = snapshot;
  summary = summary_of str n;
}

abbrev pub replan_event : Roadmap → ℕ → ℕ → ℕ → ReplanEvent
replan_event roadmap actor new_id n = record {
  startup_id = roadmap.startup_id;
  roadmap_id = roadmap.id;
  replan_id = new_id;
  change_count = n;
  applied_by = actor;
}

-- `if applied:`, by the ids that were applied.
abbrev pub record_applied :
    (ℕ → String) → Roadmap → ℕ → ℕ → Applied → List ℕ → ReplanDb → ReplanOutcome × ReplanDb
record_applied str roadmap actor new_id a [] db = (
  record { applied = []; skipped = a.skipped; replan_id = none; summary = none },
  record db { tables = record db.tables { milestones = a.milestones } },
)
record_applied str roadmap actor new_id a (cid ∷ cids) db =
    let n = length (cid ∷ cids) in
    (
      record {
        applied = cid ∷ cids;
        skipped = a.skipped;
        replan_id = some new_id;
        summary = some (summary_of str n);
      },
      record {
        tables = record db.tables { milestones = a.milestones };
        replans = db.replans ++ replan_row str roadmap actor new_id n a.snapshot ∷ [];
        events = db.events ++ replan_event roadmap actor new_id n ∷ [];
      },
    )

pub record_replan : (ℕ → String) → Roadmap → ℕ → ℕ → Applied → ReplanDb → ReplanOutcome × ReplanDb
record_replan str roadmap actor new_id a db = record_applied str roadmap actor new_id a a.applied db

pub apply_replan :
    (ℕ → String) → ℕ → ℕ → Roadmap → ℕ → List ℕ → ℕ → ReplanDb → Option (ReplanOutcome × ReplanDb)
unfolding apply_loop record_replan
apply_replan str today now roadmap actor change_ids new_id db =
    elim (compute_replan str today db.tables roadmap.id) [
      | none ↦ none
      | some changes ↦ some (
          record_replan str roadmap actor new_id
            (apply_loop now changes change_ids db.tables.milestones) db)
    ]
