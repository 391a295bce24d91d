-- ===== src/Notifications/Registry/Tests.antt =====
-- A workspace of three members, one suspended, of whom one turns the e-mails of documents off and one
-- shares a document.
use Prim.Native.String.{String}
use package.text.Mathlib.Text.{◌==◌ as str_eq}
use cofoundaz_api.Prelude.{
  if◌then◌else◌, ℕ, ◌+◌, ◌≡◌, ◌≢◌, refl, sym, ap, subst, Bool, true, false, not, count, Option,
  none, some, List, [], ◌∷◌,
}
use cofoundaz_api.Onboarding.{Membership, founder, MembershipStatus, active, suspended}
use cofoundaz_api.Notifications.{Data}
use cofoundaz_api.Notifications.Preferences.{
  NotificationPreference, effective_preferences, set_preferences, email_enabled,
}
use cofoundaz_api.Notifications.Preferences.Effect.{set_preferences_lem}
use cofoundaz_api.Notifications.Registry.{
  excluded, RegistryDb, is_not, active_member_ids, minus_actor, handle,
}
use cofoundaz_api.Notifications.Registry.Delivery.{IsDelivered, handle_lem}

abbrev rows : List NotificationPreference
rows = record { user_id = 1; startup_id = 7; master_email = true; stored = [] } ∷ []

abbrev is_team : String → Bool
is_team c = str_eq c "team"

documents≢team : ◌≢◌ {A = String} "documents" "team"
documents≢team e = subst (λ b. if b then Unit else ⊥) (sym (ap is_team e)) tt

set_preferences_lem_example :
    (email_enabled 1 7
        (some "documents")
        (set_preferences 1 7 none (("documents", false) ∷ []) rows)
      ≡ false)
    × (email_enabled 1 7 (some "team") (set_preferences 1 7 none (("documents", false) ∷ []) rows)
        ≡ true)
    × (email_enabled 2 7 (some "team") (set_preferences 1 7 none (("documents", false) ∷ []) rows)
        ≡ email_enabled 2 7 (some "team") rows)
unfolding effective_preferences
set_preferences_lem_example =
    set_preferences_lem 1 7 none "documents" false rows "team" 2 7 (some "team") refl refl
      documents≢team refl

abbrev member : ℕ → MembershipStatus → Membership
member user_id status = record {
  id = user_id + 10;
  user_id = user_id;
  startup_id = 7;
  role = founder;
  status = status;
  invited_by = none;
  joined_at = none;
}

abbrev db : RegistryDb
db = record {
  memberships = member 1 active ∷ member 2 active ∷ member 3 suspended ∷ member 4 active ∷ [];
  preferences = rows;
  notifications = record { notifications = []; pending_realtime = [] };
  jobs = [];
}

abbrev uuid : String → Option ℕ
uuid s = if str_eq s "seven" then some 7 else if str_eq s "one" then some 1 else none

abbrev payload : Data
payload = ("startup_id", "seven") ∷ ("shared_by", "one") ∷ []

handle_lem_example :
    (count (λ u. not (is_not (some 1) u)) (active_member_ids db.memberships 7 (some 1)) ≡ 0)
    × ((db' : RegistryDb) × (handle uuid (λ i. i) (λ i. i) 99 "document.shared" payload db
          ≡ some db')
        × IsDelivered "document.shared" 7 (2 ∷ 4 ∷ []) db db')
unfolding excluded active_member_ids
handle_lem_example =
    handle_lem uuid (λ i. i) (λ i. i) 99 "document.shared" "seven"
      (minus_actor "A document was shared in your workspace") 7 payload db refl refl refl
