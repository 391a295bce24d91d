-- ===== src/Notifications/Registry.antt =====
-- From an event to its notifications (app/services/notifications/registry.py). The parser of a uuid
-- is a parameter: `none` is its ValueError. The ids drawn for the rows and the jobs are arguments.
pub mod Delivery
mod Tests
use Prim.Native.String.{String}
use package.text.Mathlib.Text.{◌==◌ as str_eq}
use cofoundaz_api.Prelude.{
  ℕ, ◌+◌, Bool, true, false, ◌&&◌, not, Option, none, some, List, [], ◌∷◌, ◌++◌, ◌==◌,
  if◌then◌else◌, where_all, map,
}
use cofoundaz_api.Worker.{Job, enqueue}
use cofoundaz_api.Onboarding.{Membership, is_active}
use cofoundaz_api.Notifications.{Data, Notification, NotificationDb, create_notifications}
use cofoundaz_api.Notifications.Preferences.{
  NotificationPreference, dict_get, category_for, email_enabled,
}

-- The three functions that give the recipients.
pub data Recipients : Type 0 where
  members_minus_actor existing_members all_active_members : Recipients

pub record NotifSpec : Type 0 where
  pub recipients : Recipients
  pub title : String

abbrev minus_actor : String → NotifSpec
minus_actor title = record { recipients = members_minus_actor; title = title }

abbrev everyone : String → NotifSpec
everyone title = record { recipients = all_active_members; title = title }

-- `SPECS`; every body is empty.
abbrev pub specs : List (String × NotifSpec)
specs =
    ("document.shared", minus_actor "A document was shared in your workspace")
    ∷ ("document.signature.requested", minus_actor "A document needs a signature")
    ∷ ("document.signature.signed", minus_actor "A signer signed a document")
    ∷ ("document.signature.completed", minus_actor "A document is fully signed")
    ∷ ("business.suggestion.created", minus_actor "A consultant suggested a change")
    ∷ ("business.suggestion.approved", minus_actor "A suggestion was approved")
    ∷ ("business.suggestion.rejected", minus_actor "A suggestion was rejected")
    ∷ ("business.artifact.completed", minus_actor "A Business Builder artifact was completed")
    ∷ ("roadmap.replanned", minus_actor "Your roadmap was re-planned")
    ∷ ("roadmap.milestone.completed", minus_actor "A roadmap milestone was completed")
    ∷ ("mission.completed", minus_actor "Today's mission is complete")
    ∷ ("mission.streak.milestone", minus_actor "You hit a mission streak milestone")
    ∷ ("healthscore.dropped", minus_actor "Your Startup Health Score dropped")
    ∷ ("assessment.completed", minus_actor "A startup assessment was completed")
    ∷ (
      "workspace.member.joined",
      record { recipients = existing_members; title = "A new member joined your workspace" },
    )
    ∷ ("mission.ready", everyone "Today's mission is ready")
    ∷ ("roadmap.milestone.overdue", everyone "A roadmap milestone is overdue")
    ∷ ("assessment.quarterly.due", everyone "Time for your quarterly startup assessment")
    ∷ ("business.plan.generated", everyone "Your AI business plan is ready")
    ∷ []

-- The database as the handler sees it.
pub record RegistryDb : Type 0 where
  pub memberships : List Membership
  pub preferences : List NotificationPreference
  pub notifications : NotificationDb
  pub jobs : List Job

abbrev pub is_member_of : ℕ → Membership → Bool
is_member_of startup_id m = (m.startup_id == startup_id) && is_active m.status

abbrev pub is_not : Option ℕ → ℕ → Bool
is_not none i = true
is_not (some exclude) i = not (i == exclude)

pub active_member_ids : List Membership → ℕ → Option ℕ → List ℕ
active_member_ids memberships startup_id exclude =
    where_all (is_not exclude)
      (map (λ (m : Membership). m.user_id) (where_all (is_member_of startup_id) memberships))

-- A value that is set and not empty.
abbrev pub truthy : Option String → Option String
truthy none = none
truthy (some s) = if str_eq s "" then none else some s

-- The first key that is set decides, whether its value parses or not.
abbrev actor_from : (String → Option ℕ) → Option String → Option ℕ → Option ℕ
actor_from uuid none rest = rest
actor_from uuid (some s) rest = uuid s

pub actor_of : (String → Option ℕ) → List String → Data → Option ℕ
actor_of uuid [] payload = none
actor_of uuid (key ∷ keys) payload =
    actor_from uuid (truthy (dict_get key payload)) (actor_of uuid keys payload)

-- `_actor`
abbrev actor : (String → Option ℕ) → Data → Option ℕ
actor uuid payload =
    actor_of uuid
      ("actor_id" ∷ "shared_by" ∷ "created_by" ∷ "user_id" ∷ "shared_by_id" ∷ "applied_by" ∷ [])
      payload

-- Whom a specification leaves out.
pub excluded : (String → Option ℕ) → Recipients → Data → Option ℕ
unfolding actor_of
excluded uuid members_minus_actor payload = actor uuid payload
excluded uuid existing_members payload = actor_of uuid ("user_id" ∷ []) payload
excluded uuid all_active_members payload = none

pub enqueue_emails :
    Option String
    → List NotificationPreference
    → (ℕ → ℕ)
    → ℕ
    → ℕ
    → ℕ
    → List Notification
    → List Job
    → List Job
enqueue_emails category preferences new_job place now startup_id [] jobs = jobs
enqueue_emails category preferences new_job place now startup_id (n ∷ rows) jobs =
    enqueue_emails category preferences new_job (place + 1) now startup_id rows (
      if email_enabled n.user_id n.startup_id category preferences
      then enqueue "email.notification" (("notification_id", n.id) ∷ []) (some startup_id)
          (new_job place) now jobs
      else jobs)

-- The handler behind its guards: the rows and their e-mails.
pub deliver :
    (ℕ → ℕ) → (ℕ → ℕ) → ℕ → String → NotifSpec → ℕ → Data → List ℕ → RegistryDb → RegistryDb
unfolding create_notifications enqueue_emails
deliver new_id new_job now event spec startup_id payload user_ids db =
    let (rows, notifications) =
      create_notifications new_id now user_ids startup_id event spec.title "" payload
        db.notifications in
    record db {
      notifications = notifications;
      jobs =
          enqueue_emails (category_for event) db.preferences new_job 0 now startup_id rows db.jobs;
    }

-- No recipient, no change.
abbrev pub handle_to :
    (ℕ → ℕ) → (ℕ → ℕ) → ℕ → String → NotifSpec → ℕ → Data → RegistryDb → List ℕ → RegistryDb
handle_to new_id new_job now event spec startup_id payload db [] = db
handle_to new_id new_job now event spec startup_id payload db (uid ∷ user_ids) =
    deliver new_id new_job now event spec startup_id payload (uid ∷ user_ids) db

abbrev pub handle_in :
    (String → Option ℕ)
    → (ℕ → ℕ)
    → (ℕ → ℕ)
    → ℕ
    → String
    → NotifSpec
    → Data
    → RegistryDb
    → Option ℕ
    → Option RegistryDb
handle_in uuid new_id new_job now event spec payload db none = none
handle_in uuid new_id new_job now event spec payload db (some startup_id) = some (
    handle_to new_id new_job now event spec startup_id payload db
      (active_member_ids db.memberships startup_id (excluded uuid spec.recipients payload)))

abbrev pub handle_set :
    (String → Option ℕ)
    → (ℕ → ℕ)
    → (ℕ → ℕ)
    → ℕ
    → String
    → NotifSpec
    → Data
    → RegistryDb
    → Option String
    → Option RegistryDb
handle_set uuid new_id new_job now event spec payload db none = some db
handle_set uuid new_id new_job now event spec payload db (some s) =
    handle_in uuid new_id new_job now event spec payload db (uuid s)

abbrev pub handle_known :
    (String → Option ℕ)
    → (ℕ → ℕ)
    → (ℕ → ℕ)
    → ℕ
    → String
    → Data
    → RegistryDb
    → Option NotifSpec
    → Option RegistryDb
handle_known uuid new_id new_job now event payload db none = some db
handle_known uuid new_id new_job now event payload db (some spec) =
    handle_set uuid new_id new_job now event spec payload db
      (truthy (dict_get "startup_id" payload))

-- `_handle`; `none` is the error of a startup id that does not parse.
pub handle :
    (String → Option ℕ) → (ℕ → ℕ) → (ℕ → ℕ) → ℕ → String → Data → RegistryDb → Option RegistryDb
handle uuid new_id new_job now event payload db =
    handle_known uuid new_id new_job now event payload db (dict_get event specs)
