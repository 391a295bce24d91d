-- ===== src/Notifications/Tests.antt =====
-- A user's inbox of three notifications in a workspace, with codecs that count in strokes.
use cofoundaz_api.Prelude.{
  ℕ, zero, suc, ◌≡◌, Bool, ◌&&◌, count, refl, ap, false, none, some, [], ◌∷◌, ◌==◌, length, All,
  arith,
}
use cofoundaz_api.Errors.{ok}
use cofoundaz_api.Notifications.{Notification, NotificationDb, inbox}
use cofoundaz_api.Notifications.Cursor.{
  Text, Codec, IsFaithful, encode_cursor, decode_cursor, decode_cursor-encode_cursor,
}
use cofoundaz_api.Notifications.Order.{HasUniqueIds, IsNewestFirst, is_listed}
use cofoundaz_api.Notifications.Paging.{follow, follow-all}

abbrev strokes : ℕ → Text
strokes zero = []
strokes (suc n) = 1 ∷ strokes n

abbrev codec : Codec
codec = record {
  b64encode = λ t. t;
  b64decode = λ t. some t;
  isoformat = strokes;
  fromisoformat = λ t. some (length t);
  uuid_str = strokes;
  uuid = λ t. some (length t);
}

length-strokes : (n : ℕ) → length (strokes n) ≡ n
length-strokes zero = refl
length-strokes (suc n) = ap suc (length-strokes n)

strokes_no_bar : (n : ℕ) → All (λ c. (c == 124) ≡ false) (strokes n)
strokes_no_bar zero = tt
strokes_no_bar (suc n) = (refl, strokes_no_bar n)

codec-IsFaithful : IsFaithful codec
codec-IsFaithful = record {
  base64 = λ t. refl;
  base64_empty = refl;
  iso = λ t. ap some (length-strokes t);
  no_bar = strokes_no_bar;
  uuids = λ id. ap some (length-strokes id);
}

abbrev note : ℕ → ℕ → ℕ → Notification
note id user_id created_at = record {
  id = id;
  user_id = user_id;
  startup_id = 7;
  kind = "mission.ready";
  title = "Today's mission is ready";
  body = "";
  payload = [];
  read_at = none;
  created_at = created_at;
}

abbrev db : NotificationDb
db = record {
  notifications = note 1 5 10 ∷ note 2 5 12 ∷ note 3 6 11 ∷ note 4 5 12 ∷ [];
  pending_realtime = [];
}

db-HasUniqueIds : HasUniqueIds db.notifications
db-HasUniqueIds = (
  (ground arith, (ground arith, (ground arith, tt))),
  ((ground arith, (ground arith, tt)), ((ground arith, tt), (tt, tt))),
)

listed_test : inbox 5 7 false db.notifications ≡ note 4 5 12 ∷ note 2 5 12 ∷ note 1 5 10 ∷ []
unfolding inbox
listed_test = refl

decode_cursor-encode_cursor_example : decode_cursor codec (encode_cursor codec 3 2) ≡ ok (3, 2)
decode_cursor-encode_cursor_example = decode_cursor-encode_cursor codec codec-IsFaithful 3 2

follow-all_example :
    (follow codec 5 7 false 2 4 none db ≡ ok (note 4 5 12 ∷ note 2 5 12 ∷ note 1 5 10 ∷ []))
    × IsNewestFirst (inbox 5 7 false db.notifications)
    × ((p : Notification → Bool)
        → count p (inbox 5 7 false db.notifications)
          ≡ count (λ n. is_listed 5 7 false n && p n) db.notifications)
unfolding inbox
follow-all_example =
    follow-all codec codec-IsFaithful 5 7 false 2 4 db db-HasUniqueIds (omega arith)
