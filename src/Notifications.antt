-- ===== src/Notifications.antt =====
-- In-app notifications (app/services/notifications/service.py, app/db/models/notification.py): the
-- rows, the messages kept for the live stream, and the operations on them. Instants and ids are
-- numbers, ids ordered as the database orders its uuids. `kind` is the column `type` and `payload`
-- the column `data`.
pub mod Cursor
pub mod Order
pub mod Paging
pub mod Reading
pub mod Preferences
pub mod Registry
mod Tests
use Prim.Native.String.{String}
use cofoundaz_api.Prelude.{
  ℕ, ◌+◌, Bool, true, false, Option, none, some, List, [], ◌∷◌, ◌++◌, ◌==◌, ◌&&◌, ◌||◌, ltb, leb,
  is_none, is_some, if◌then◌else◌, first, where_all, count, update_where, map,
}
use cofoundaz_api.Errors.{Result, ok, err, not_found}
use cofoundaz_api.Transaction.{Tx}

-- The payload of an event, a JSON object; the values that are read are texts.
abbrev pub Data : Type 0
Data = List (String × String)

pub record Notification : Type 0 where
  pub id : ℕ
  pub user_id : ℕ
  pub startup_id : ℕ
  pub kind : String
  pub title : String
  pub body : String
  pub payload : Data
  pub read_at : Option ℕ
  pub created_at : ℕ

-- `serialize_notification`: what the clients see.
pub record NotificationView : Type 0 where
  pub id : ℕ
  pub kind : String
  pub title : String
  pub body : String
  pub payload : Data
  pub read : Bool
  pub created_at : ℕ

pub serialize_notification : Notification → NotificationView
serialize_notification n = record {
  id = n.id;
  kind = n.kind;
  title = n.title;
  body = n.body;
  payload = n.payload;
  read = is_some n.read_at;
  created_at = n.created_at;
}

-- A message of `pending_realtime`: startup, user, and the serialized notification.
pub record Realtime : Type 0 where
  pub startup_id : ℕ
  pub user_id : ℕ
  pub notification : NotificationView

pub record NotificationDb : Type 0 where
  pub notifications : List Notification
  pub pending_realtime : List Realtime

-- The rows of `create_notifications`; `new_id` gives the id drawn for the row at a place.
pub notification_rows :
    (ℕ → ℕ) → ℕ → ℕ → ℕ → String → String → String → Data → List ℕ → List Notification
notification_rows new_id place now startup_id kind title body payload [] = []
notification_rows new_id place now startup_id kind title body payload (uid ∷ user_ids) =
    record {
      id = new_id place;
      user_id = uid;
      startup_id = startup_id;
      kind = kind;
      title = title;
      body = body;
      payload = payload;
      read_at = none;
      created_at = now;
    }
    ∷ notification_rows new_id (place + 1) now startup_id kind title body payload user_ids

abbrev realtime_of : Notification → Realtime
unfolding serialize_notification
realtime_of n = record {
  startup_id = n.startup_id;
  user_id = n.user_id;
  notification = serialize_notification n;
}

pub create_notifications :
    (ℕ → ℕ)
    → ℕ
    → List ℕ
    → ℕ
    → String
    → String
    → String
    → Data
    → NotificationDb
    → List Notification × NotificationDb
unfolding notification_rows
create_notifications new_id now user_ids startup_id kind title body payload db =
    let rows = notification_rows new_id 0 now startup_id kind title body payload user_ids in
    (
      rows,
      record {
        notifications = db.notifications ++ rows;
        pending_realtime = db.pending_realtime ++ map realtime_of rows;
      },
    )

abbrev pub is_of : ℕ → ℕ → Notification → Bool
is_of user_id startup_id n = (n.user_id == user_id) && (n.startup_id == startup_id)

abbrev pub is_unread_of : ℕ → ℕ → Notification → Bool
is_unread_of user_id startup_id n = is_of user_id startup_id n && is_none n.read_at

-- `created_at < c_ts or (created_at == c_ts and id < c_id)`
abbrev pub is_before : ℕ → ℕ → Notification → Bool
is_before c_ts c_id n = ltb n.created_at c_ts || ((n.created_at == c_ts) && ltb n.id c_id)

abbrev pub insert_newest : Notification → List Notification → List Notification
insert_newest n [] = n ∷ []
insert_newest n (m ∷ rows) =
    if is_before n.created_at n.id m then n ∷ m ∷ rows else m ∷ insert_newest n rows

-- `order_by(created_at.desc(), id.desc())`
pub newest_first : List Notification → List Notification
newest_first [] = []
newest_first (n ∷ rows) = insert_newest n (newest_first rows)

-- The filter on unread rows, made if it is asked for.
abbrev pub filter_unread : Bool → List Notification → List Notification
filter_unread true rows = where_all (λ (n : Notification). is_none n.read_at) rows
filter_unread false rows = rows

-- The query before the page is cut out.
pub inbox : ℕ → ℕ → Bool → List Notification → List Notification
unfolding newest_first
inbox user_id startup_id unread rows =
    filter_unread unread (newest_first (where_all (is_of user_id startup_id) rows))

pub unread_count : ℕ → ℕ → NotificationDb → ℕ
unread_count user_id startup_id db = count (is_unread_of user_id startup_id) db.notifications

abbrev pub set_read : ℕ → Notification → Notification
set_read now n = record n { read_at = some now }

abbrev pub is_target : ℕ → ℕ → ℕ → Notification → Bool
is_target user_id startup_id notification_id n =
    (n.id == notification_id) && is_of user_id startup_id n

pub mark_read : ℕ → ℕ → ℕ → ℕ → Tx NotificationDb Notification
mark_read user_id startup_id notification_id now db =
    elim (first (is_target user_id startup_id notification_id) db.notifications) [
      | none ↦ (err not_found, db)
      | some row ↦
          if is_none row.read_at
          then (
            ok (set_read now row),
            record db {
              notifications = update_where (λ n. n.id == row.id) (set_read now) db.notifications;
            },
          )
          else (ok row, db)
    ]

-- The number of rows marked, and the database.
pub mark_all_read : ℕ → ℕ → ℕ → NotificationDb → ℕ × NotificationDb
mark_all_read user_id startup_id now db = (
  count (is_unread_of user_id startup_id) db.notifications,
  record db {
    notifications = update_where (is_unread_of user_id startup_id) (set_read now) db.notifications;
  },
)
