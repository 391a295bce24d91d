-- ===== src/Notifications/Preferences.antt =====
-- What a member wants by e-mail (app/services/notifications/preferences.py and categories.py). A dict
-- is the list of its entries.
pub mod Effect
use Prim.Native.String.{String}
use package.text.Mathlib.Text.{◌==◌ as str_eq}
use cofoundaz_api.Prelude.{
  ℕ, Bool, true, false, ◌&&◌, Option, none, some, List, [], ◌∷◌, ◌++◌, ◌==◌, any, is_some,
  if◌then◌else◌, first, update_where, map,
}

-- `CATEGORIES`
abbrev pub categories : List String
categories = "documents" ∷ "business" ∷ "roadmap_missions" ∷ "health_assessment" ∷ "team" ∷ []

-- `EVENT_CATEGORY`
abbrev pub event_category : List (String × String)
event_category =
    ("document.shared", "documents")
    ∷ ("document.signature.requested", "documents")
    ∷ ("document.signature.signed", "documents")
    ∷ ("document.signature.completed", "documents")
    ∷ ("business.suggestion.created", "business")
    ∷ ("business.suggestion.approved", "business")
    ∷ ("business.suggestion.rejected", "business")
    ∷ ("business.artifact.completed", "business")
    ∷ ("business.plan.generated", "business")
    ∷ ("roadmap.replanned", "roadmap_missions")
    ∷ ("roadmap.milestone.completed", "roadmap_missions")
    ∷ ("mission.completed", "roadmap_missions")
    ∷ ("mission.streak.milestone", "roadmap_missions")
    ∷ ("healthscore.dropped", "health_assessment")
    ∷ ("assessment.completed", "health_assessment")
    ∷ ("workspace.member.joined", "team")
    ∷ ("mission.ready", "roadmap_missions")
    ∷ ("roadmap.milestone.overdue", "roadmap_missions")
    ∷ ("assessment.quarterly.due", "health_assessment")
    ∷ []

-- `d.get(key)`
abbrev pub dict_get {ℓ} : {A : Type ℓ} → String → List (String × A) → Option A
dict_get key [] = none
dict_get key ((k, v) ∷ d) = if str_eq k key then some v else dict_get key d

-- `d[key] = v`
abbrev pub dict_set {ℓ} : {A : Type ℓ} → String → A → List (String × A) → List (String × A)
dict_set key v [] = (key, v) ∷ []
dict_set key v ((k, w) ∷ d) = if str_eq k key then (k, v) ∷ d else (k, w) ∷ dict_set key v d

pub category_for : String → Option String
category_for event = dict_get event event_category

abbrev pub is_category : String → Bool
is_category c = any (λ x. str_eq x c) categories

pub record NotificationPreference : Type 0 where
  pub user_id : ℕ
  pub startup_id : ℕ
  pub master_email : Bool
  pub stored : List (String × Bool)

pub record Effective : Type 0 where
  pub master_email : Bool
  pub wanted : List (String × Bool)

abbrev pub is_row : ℕ → ℕ → NotificationPreference → Bool
is_row user_id startup_id p = (p.user_id == user_id) && (p.startup_id == startup_id)

-- `_row`
abbrev pub find_row : ℕ → ℕ → List NotificationPreference → Option NotificationPreference
find_row user_id startup_id rows = first (is_row user_id startup_id) rows

-- All categories are on by default.
abbrev pub or_default : Option Bool → Bool
or_default none = true
or_default (some b) = b

abbrev pub stored_of : Option NotificationPreference → List (String × Bool)
stored_of none = []
stored_of (some p) = p.stored

abbrev pub master_of : Option NotificationPreference → Bool
master_of none = true
master_of (some p) = p.master_email

unfoldable pub effective_preferences : ℕ → ℕ → List NotificationPreference → Effective
effective_preferences user_id startup_id rows =
    let row = find_row user_id startup_id rows in
    record {
      master_email = master_of row;
      wanted = map (λ c. (c, or_default (dict_get c (stored_of row)))) categories;
    }

-- `merged.update(...)` with the keys that are categories.
abbrev pub merge : List (String × Bool) → List (String × Bool) → List (String × Bool)
merge stored [] = stored
merge stored ((k, v) ∷ wanted) =
    merge (if is_category k then dict_set k v stored else stored) wanted

abbrev pub or_keep : Option Bool → Bool → Bool
or_keep none old = old
or_keep (some new) old = new

abbrev pub set_row :
    Option Bool → List (String × Bool) → NotificationPreference → NotificationPreference
set_row master_email wanted p = record p {
  master_email = or_keep master_email p.master_email;
  stored = merge p.stored wanted;
}

-- `set_preferences`, whose `categories` may be absent, which is as good as empty. It returns the
-- effective preferences of the rows that it leaves.
pub set_preferences :
    ℕ
    → ℕ
    → Option Bool
    → List (String × Bool)
    → List NotificationPreference
    → List NotificationPreference
set_preferences user_id startup_id master_email wanted rows =
    let fresh : NotificationPreference = record {
      user_id = user_id;
      startup_id = startup_id;
      master_email = true;
      stored = [];
    } in
    if is_some (find_row user_id startup_id rows)
    then update_where (is_row user_id startup_id) (set_row master_email wanted) rows
    else rows ++ set_row master_email wanted fresh ∷ []

abbrev pub or_false : Option Bool → Bool
or_false none = false
or_false (some b) = b

pub email_enabled : ℕ → ℕ → Option String → List NotificationPreference → Bool
unfolding effective_preferences
email_enabled user_id startup_id none rows = false
email_enabled user_id startup_id (some category) rows =
    let eff = effective_preferences user_id startup_id rows in
    eff.master_email && or_false (dict_get category eff.wanted)
