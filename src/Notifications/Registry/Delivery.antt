-- ===== src/Notifications/Registry/Delivery.antt =====
-- Who is told of an event, and by which mail (app/services/notifications/registry.py).
use Prim.Native.String.{String}
use cofoundaz_api.Prelude.{
  append_nil, ℕ, suc, ◌+◌, ◌≡◌, refl, sym, ap, ◌∙◌, subst, Bool, not, Option, none, some, List, [],
  ◌∷◌, ◌++◌, if◌then◌else◌, where_all, count, map, length, length-append, All, arith, inl, inr,
  Bool-cases,
}
use cofoundaz_api.Worker.{Job, Payload, enqueue}
use cofoundaz_api.Notifications.{Data, Notification, notification_rows}
use cofoundaz_api.Notifications.Preferences.{
  NotificationPreference, dict_get, category_for, email_enabled,
}
use cofoundaz_api.Notifications.Registry.{
  NotifSpec, RegistryDb, specs, is_not, active_member_ids, truthy, excluded, enqueue_emails,
  deliver, handle_to, handle_in, handle_set, handle_known, handle,
}

notification_rows-users :
    (new_id : ℕ → ℕ) (place now startup_id : ℕ) (kind title body : String) (payload : Data)
    (user_ids : List ℕ)
    → map
        (λ (n : Notification). n.user_id)
        (notification_rows new_id place now startup_id kind title body payload user_ids)
      ≡ user_ids
unfolding notification_rows
notification_rows-users new_id place now s kind title body payload [] = refl
notification_rows-users new_id place now s kind title body payload (uid ∷ user_ids) =
    ap (λ l. uid ∷ l)
      (notification_rows-users new_id (place + 1) now s kind title body payload user_ids)

length-enqueue :
    (kind : String) (payload : Payload) (startup_id : Option ℕ) (id now : ℕ) (jobs : List Job)
    → length (enqueue kind payload startup_id id now jobs) ≡ length jobs + 1
unfolding enqueue
length-enqueue kind payload startup_id id now jobs = length-append jobs (_ ∷ [])

one_more : (m j c : ℕ) → m ≡ j + 1 → m + c ≡ j + suc c
one_more m j c e = omega arith

length-enqueue_emails :
    (category : Option String) (preferences : List NotificationPreference) (new_job new_id : ℕ → ℕ)
    (place at now startup_id : ℕ) (kind title body : String) (payload : Data) (user_ids : List ℕ)
    (jobs : List Job)
    → length (
        enqueue_emails category preferences new_job place now startup_id
          (notification_rows new_id at now startup_id kind title body payload user_ids)
          jobs)
      ≡ length jobs + count (λ u. email_enabled u startup_id category preferences) user_ids
unfolding enqueue_emails notification_rows
length-enqueue_emails category preferences new_job new_id place at now s kind title body payload []
      jobs =
    omega arith
length-enqueue_emails category preferences new_job new_id place at now s kind title body payload
      (uid ∷ user_ids) jobs =
    let mail =
      enqueue "email.notification" (("notification_id", new_id at) ∷ []) (some s) (new_job place)
        now jobs in
    let rows = notification_rows new_id (at + 1) now s kind title body payload user_ids in
    let others = count (λ u. email_enabled u s category preferences) user_ids in
    let rest = λ (j : List Job).
      length-enqueue_emails category preferences new_job new_id (place + 1) (at + 1) now s kind
        title body payload user_ids j in
    let at_once = λ (b : Bool).
      length (
        enqueue_emails category preferences new_job (place + 1) now s rows
          (if b then mail else jobs))
      ≡ length jobs + (if b then suc others else others) in
    elim (Bool-cases (email_enabled uid s category preferences)) [
      | inr f ↦ subst at_once (sym f) (rest jobs)
      | inl t ↦
          let one =
            length-enqueue "email.notification" (("notification_id", new_id at) ∷ []) (some s)
              (new_job place) now jobs in
          subst at_once (sym t) (rest mail ∙ one_more _ _ _ one)
    ]

pub IsFresh : ℕ → Notification → Type 0
IsFresh startup_id n = (n.startup_id ≡ startup_id) × (n.read_at ≡ none)

notification_rows-IsFresh :
    (new_id : ℕ → ℕ) (place now startup_id : ℕ) (kind title body : String) (payload : Data)
    (user_ids : List ℕ)
    → All
        (IsFresh startup_id)
        (notification_rows new_id place now startup_id kind title body payload user_ids)
unfolding notification_rows IsFresh
notification_rows-IsFresh new_id place now s kind title body payload [] = tt
notification_rows-IsFresh new_id place now s kind title body payload (uid ∷ user_ids) = (
  (refl, refl),
  notification_rows-IsFresh new_id (place + 1) now s kind title body payload user_ids,
)

-- What a delivery adds for the recipients.
abbrev pub IsDelivered : String → ℕ → List ℕ → RegistryDb → RegistryDb → Type 0
IsDelivered event startup_id recipients db db' =
    (rows : List Notification) × (db'.notifications.notifications
      ≡ db.notifications.notifications ++ rows)
    × (map (λ (n : Notification). n.user_id) rows ≡ recipients)
    × All (IsFresh startup_id) rows
    × (length db'.jobs
        ≡ length db.jobs
          + count (λ u. email_enabled u startup_id (category_for event) db.preferences) recipients)

deliver-IsDelivered :
    (new_id new_job : ℕ → ℕ) (now : ℕ) (event : String) (spec : NotifSpec) (startup_id : ℕ)
    (payload : Data) (user_ids : List ℕ) (db : RegistryDb)
    → IsDelivered event startup_id user_ids db
        (deliver new_id new_job now event spec startup_id payload user_ids db)
unfolding deliver
deliver-IsDelivered new_id new_job now event spec s payload user_ids db = (
  notification_rows new_id 0 now s event spec.title "" payload user_ids,
  refl,
  notification_rows-users new_id 0 now s event spec.title "" payload user_ids,
  notification_rows-IsFresh new_id 0 now s event spec.title "" payload user_ids,
  length-enqueue_emails (category_for event) db.preferences new_job new_id 0 0 now s event
      spec.title "" payload user_ids db.jobs,
)

count-excluded :
    (exclude : Option ℕ) (ids : List ℕ)
    → count (λ u. not (is_not exclude u)) (where_all (is_not exclude) ids) ≡ 0
count-excluded exclude [] = refl
count-excluded exclude (x ∷ ids) = elim (Bool-cases (is_not exclude x)) [
  | inl t ↦ rw t (rw t (count-excluded exclude ids))
  | inr f ↦ rw f (count-excluded exclude ids)
]

handle_to-IsDelivered :
    (new_id new_job : ℕ → ℕ) (now : ℕ) (event : String) (spec : NotifSpec) (startup_id : ℕ)
    (payload : Data) (db : RegistryDb) (user_ids : List ℕ)
    → IsDelivered event startup_id user_ids db
        (handle_to new_id new_job now event spec startup_id payload db user_ids)
handle_to-IsDelivered new_id new_job now event spec startup_id payload db [] =
    ([], sym (append_nil db.notifications.notifications), refl, tt, omega arith)
handle_to-IsDelivered new_id new_job now event spec startup_id payload db (uid ∷ user_ids) =
    deliver-IsDelivered new_id new_job now event spec startup_id payload (uid ∷ user_ids) db

-- Handling an event that has a specification, with a startup id that parses: nobody whom the
-- specification leaves out is a recipient; each recipient gets one unread row of the workspace, in
-- the order of the recipients and behind the rows that there were; and as many jobs are added as
-- recipients want the e-mails of the event's category.
pub handle_lem :
    (uuid : String → Option ℕ) (new_id new_job : ℕ → ℕ) (now : ℕ) (event s : String)
    (spec : NotifSpec) (startup_id : ℕ) (payload : Data) (db : RegistryDb)
    → dict_get event specs ≡ some spec
    → truthy (dict_get "startup_id" payload) ≡ some s
    → uuid s ≡ some startup_id
    → let left_out = excluded uuid spec.recipients payload in
      let recipients = active_member_ids db.memberships startup_id left_out in
      (count (λ u. not (is_not left_out u)) recipients ≡ 0)
      × ((db' : RegistryDb) × (handle uuid new_id new_job now event payload db ≡ some db')
          × IsDelivered event startup_id recipients db db')
unfolding handle active_member_ids
handle_lem uuid new_id new_job now event s spec startup_id payload db known set parsed = (
  count-excluded (excluded uuid spec.recipients payload) _,
  (
    handle_to new_id new_job now event spec startup_id payload db
        (active_member_ids db.memberships startup_id (excluded uuid spec.recipients payload)),
    ap (handle_known uuid new_id new_job now event payload db) known
        ∙ ap (handle_set uuid new_id new_job now event spec payload db) set
        ∙ ap (handle_in uuid new_id new_job now event spec payload db) parsed,
    handle_to-IsDelivered new_id new_job now event spec startup_id payload db _,
  ),
)
