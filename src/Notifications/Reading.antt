-- ===== src/Notifications/Reading.antt =====
-- Marking notifications as read (`mark_read`, `mark_all_read` and `unread_count` of
-- app/services/notifications/service.py).
use cofoundaz_api.Prelude.{
  ℕ, suc, ◌⊎◌, ◌≡◌, ◌≢◌, refl, sym, ap, ◌∙◌, Bool, true, false, none, some, List, [], ◌∷◌, ◌==◌,
  ◌&&◌, is_none, if◌then◌else◌, first, count, update_where, All, arith, inl, inr, Bool-cases,
  Option-cases, subst, All-first, first-fits, first-update,
}
use cofoundaz_api.Errors.{ok, err, not_found}
use cofoundaz_api.Notifications.{
  Notification, NotificationDb, is_unread_of, is_target, set_read, unread_count, mark_read,
  mark_all_read,
}
use cofoundaz_api.Notifications.Order.{HasUniqueIds}

count-read_none :
    (u t now : ℕ) (rows : List Notification)
    → count (is_unread_of u t) (update_where (is_unread_of u t) (set_read now) rows) ≡ 0
count-read_none u t now [] = refl
count-read_none u t now (n ∷ rows) = ground (arith, count-read_none u t now rows)

count-read_other :
    (u t v w now : ℕ) (rows : List Notification)
    → ((v == u) && (w == t)) ≡ false
    → count (is_unread_of v w) (update_where (is_unread_of u t) (set_read now) rows)
      ≡ count (is_unread_of v w) rows
count-read_other u t v w now [] e = refl
count-read_other u t v w now (n ∷ rows) e = ground (arith, count-read_other u t v w now rows)

-- Marking all as read reports the user's unread count in the workspace and brings it to zero, and
-- the count of any other user or workspace stays as it was.
pub mark_all_read_lem :
    (user_id startup_id now : ℕ) (db : NotificationDb)
    → ((mark_all_read user_id startup_id now db).0 ≡ unread_count user_id startup_id db)
      × (unread_count user_id startup_id (mark_all_read user_id startup_id now db).1 ≡ 0)
      × ((v w : ℕ)
          → ((v == user_id) && (w == startup_id)) ≡ false
          → unread_count v w (mark_all_read user_id startup_id now db).1 ≡ unread_count v w db)
unfolding unread_count mark_all_read
mark_all_read_lem u t now db = (
  refl,
  count-read_none u t now db.notifications,
  λ v w e. count-read_other u t v w now db.notifications e,
)

update-no_id :
    (f : Notification → Notification) (id : ℕ) (rows : List Notification)
    → All (λ m. id ≢ m.id) rows
    → update_where (λ (n : Notification). n.id == id) f rows ≡ rows
update-no_id f id [] u = refl
update-no_id f id (n ∷ rows) u =
    let other : (n.id == id) ≡ false = ground arith in rw (other, update-no_id f id rows u.1) refl

-- The row that an update by a unique id changes is the only one whose count can change.
count-update_id :
    (p : Notification → Bool) (f : Notification → Notification) (rows : List Notification)
    (row : Notification) (q : Notification → Bool)
    → HasUniqueIds rows
    → first q rows ≡ some row
    → p row ≡ true
    → p (f row) ≡ false
    → suc (count p (update_where (λ n. n.id == row.id) f rows)) ≡ count p rows
count-update_id p f [] row q u e t g = cc
count-update_id p f (n ∷ rows) row q u e t g = elim (Bool-cases (q n)) [
  | inl h ↦
      let found : some n ≡ some row = sym (ap (λ b. if b then some n else first q rows) h) ∙ e in
      let same : n ≡ row = cc in
      let rest =
        update-no_id f row.id rows
          (subst (λ (x : Notification). All (λ m. x.id ≢ m.id) rows) same u.0) in
      let self : (n.id == row.id) ≡ true =
        subst (λ (x : Notification). (n.id == x.id) ≡ true) same (ground arith) in
      let was : p n ≡ true = subst (λ x. p x ≡ true) (sym same) t in
      let now : p (f n) ≡ false = subst (λ x. p (f x) ≡ false) (sym same) g in
      rw (self, now, rest, was) refl
  | inr h ↦
      let found : first q rows ≡ some row =
        sym (ap (λ b. if b then some n else first q rows) h) ∙ e in
      let ne : n.id ≢ row.id = All-first (λ m. n.id ≢ m.id) q rows row u.0 found in
      let other : (n.id == row.id) ≡ false = ground arith in
      let rest = count-update_id p f rows row q u.1 found t g in rw other (ground (arith, rest))
]

mark_read-none :
    (u t id now : ℕ) (db : NotificationDb)
    → first (is_target u t id) db.notifications ≡ none
    → mark_read u t id now db ≡ (err not_found, db)
unfolding mark_read
mark_read-none u t id now db e = rw (e, mark_read) refl

mark_read-old :
    (u t id now : ℕ) (db : NotificationDb) (row : Notification)
    → first (is_target u t id) db.notifications ≡ some row
    → is_none row.read_at ≡ false
    → mark_read u t id now db ≡ (ok row, db)
unfolding mark_read
mark_read-old u t id now db row e r = rw (e, r, mark_read) refl

abbrev with_read : ℕ → Notification → NotificationDb → NotificationDb
with_read now row db = record db {
  notifications = update_where (λ n. n.id == row.id) (set_read now) db.notifications;
}

mark_read-new :
    (u t id now : ℕ) (db : NotificationDb) (row : Notification)
    → first (is_target u t id) db.notifications ≡ some row
    → is_none row.read_at ≡ true
    → mark_read u t id now db ≡ (ok (set_read now row), with_read now row db)
unfolding mark_read
mark_read-new u t id now db row e r = rw (e, r, mark_read) refl

-- Marking one notification: one that is not the user's in the workspace is refused; one that was
-- read stays as it was; and one that was not leaves the user exactly one fewer unread. Ids are
-- unique.
pub mark_read_lem :
    (user_id startup_id notification_id now : ℕ) (db : NotificationDb)
    → HasUniqueIds db.notifications
    → (mark_read user_id startup_id notification_id now db ≡ (err not_found, db))
      ⊎ ((row : Notification) × (is_target user_id startup_id notification_id row ≡ true)
          × ((mark_read user_id startup_id notification_id now db ≡ (ok row, db))
              ⊎ ((db' : NotificationDb) × (mark_read user_id startup_id notification_id now db
                    ≡ (ok (set_read now row), db'))
                  × (suc (unread_count user_id startup_id db')
                      ≡ unread_count user_id startup_id db))))
unfolding unread_count
mark_read_lem u t id now db unique =
    elim (Option-cases (first (is_target u t id) db.notifications)) [
      | inl e ↦ inl (mark_read-none u t id now db e)
      | inr (row, e) ↦
          let target = first-fits (is_target u t id) db.notifications row e in
          elim (Bool-cases (is_none row.read_at)) [
            | inr r ↦ inr (row, target, inl (mark_read-old u t id now db row e r))
            | inl r ↦ inr (
              row,
              target,
              inr (
                with_read now row db,
                mark_read-new u t id now db row e r,
                count-update_id (is_unread_of u t) (set_read now) db.notifications row
                    (is_target u t id) unique e (ground arith) (ground arith),
              ),
            )
          ]
    ]

first-with_read :
    (u t id now : ℕ) (db : NotificationDb) (row : Notification)
    → first (is_target u t id) db.notifications ≡ some row
    → first (is_target u t id) (with_read now row db).notifications ≡ some (set_read now row)
first-with_read u t id now db row e =
    let self : (row.id == row.id) ≡ true = ground arith in
    first-update (is_target u t id) (λ (n : Notification). n.id == row.id) (set_read now)
      db.notifications row (λ x. refl) e
    ∙ ap (λ b. some (if b then set_read now row else row)) self

-- Marking a notification again, at any time, answers what the first call did, with the instant of
-- the first reading, and changes nothing.
pub mark_read_again :
    (user_id startup_id notification_id now later : ℕ) (db : NotificationDb)
    → mark_read user_id startup_id notification_id later
        (mark_read user_id startup_id notification_id now db).1
      ≡ mark_read user_id startup_id notification_id now db
mark_read_again u t id now later db =
    elim (Option-cases (first (is_target u t id) db.notifications)) [
      | inl e ↦ rw (mark_read-none u t id now db e) (mark_read-none u t id later db e)
      | inr (row, e) ↦ elim (Bool-cases (is_none row.read_at)) [
        | inr r ↦ rw (mark_read-old u t id now db row e r) (mark_read-old u t id later db row e r)
        | inl r ↦ rw (mark_read-new u t id now db row e r) (
            mark_read-old u t id later (with_read now row db) (set_read now row)
              (first-with_read u t id now db row e) refl)
      ]
    ]
