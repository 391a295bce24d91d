-- ===== src/Notifications/Paging.antt =====
-- A client that follows the cursors of `list_notifications`
-- (app/services/notifications/service.py) from the first page to the last.
use native.Mathlib.Decide.{dec_lt}
use cofoundaz_api.Prelude.{
  length-append, ℕ, zero, suc, ◌+◌, ◌≤◌, ◌<◌, ◌≡◌, refl, sym, ap, subst, ◌∙◌, Bool, true, false,
  ◌&&◌, Option, none, some, List, [], ◌∷◌, ◌++◌, ltb, where_all, count, take, length, arith,
}
use cofoundaz_api.Errors.{Result, ok, ◌>>=◌}
use cofoundaz_api.Notifications.{Notification, NotificationDb, inbox, is_before}
use cofoundaz_api.Notifications.Order.{
  IsNewestFirst, HasUniqueIds, is_listed, count-inbox, IsNewestFirst-inbox, where_all-is_before,
}
use cofoundaz_api.Notifications.Cursor.{
  Codec, IsFaithful, Text, encode_cursor, list_notifications, cut, clamp, after_cursor,
  after_cursor_lem, last_cursor-append,
}

-- Every page from a cursor on, one after the other, for at most so many requests.
pub follow :
    Codec → ℕ → ℕ → Bool → ℕ → ℕ → Option Text → NotificationDb → Result (List Notification)
unfolding list_notifications
follow codec user_id startup_id unread limit zero cursor db = ok []
follow codec user_id startup_id unread limit (suc requests) cursor db =
    list_notifications codec user_id startup_id unread limit cursor db >>= (λ page. elim page.1 [
      | none ↦ ok page.0
      | some next ↦
          follow codec user_id startup_id unread limit requests (some next) db
          >>= (λ rest. ok (page.0 ++ rest))
    ])

split_page :
    (limit : ℕ) (found : List Notification)
    → 0 < limit
    → limit < length found
    → (front : List Notification) × (n : Notification) × (m : Notification) × (rest : List
        Notification)
      × (found ≡ front ++ n ∷ m ∷ rest)
      × (suc (length front) ≡ limit)
split_page zero found pos more = absurd (omega arith)
split_page (suc limit) [] pos more = absurd (omega arith)
split_page (suc limit) (n ∷ []) pos more = absurd (omega arith)
split_page (suc zero) (n ∷ m ∷ rest) pos more = ([], n, m, rest, refl, refl)
split_page (suc (suc limit)) (n ∷ m ∷ rest) pos more =
    let (front, a, b, behind, e, k) =
      split_page (suc limit) (m ∷ rest) (omega arith) (omega arith) in
    (n ∷ front, a, b, behind, ap (λ xs. n ∷ xs) e, ap suc k)

take-every : (k : ℕ) (rows : List Notification) → length rows ≤ k → take k rows ≡ rows
take-every zero [] h = refl
take-every (suc k) [] h = refl
take-every zero (n ∷ rows) h = absurd (omega arith)
take-every (suc k) (n ∷ rows) h = ap (λ xs. n ∷ xs) (take-every k rows (omega arith))

take-front :
    (front : List Notification) (n : Notification) (rest : List Notification)
    → take (suc (length front)) (front ++ n ∷ rest) ≡ front ++ n ∷ []
take-front [] n rest = refl
take-front (m ∷ front) n rest = ap (λ xs. m ∷ xs) (take-front front n rest)

take-front_more :
    (front : List Notification) (n m : Notification) (rest : List Notification)
    → take (suc (suc (length front))) (front ++ n ∷ m ∷ rest) ≡ front ++ n ∷ m ∷ []
take-front_more [] n m rest = refl
take-front_more (x ∷ front) n m rest = ap (λ xs. x ∷ xs) (take-front_more front n m rest)

assoc : (xs ys zs : List Notification) → (xs ++ ys) ++ zs ≡ xs ++ (ys ++ zs)
assoc [] ys zs = refl
assoc (x ∷ xs) ys zs = ap (λ l. x ∷ l) (assoc xs ys zs)

append_assoc :
    (front : List Notification) (n : Notification) (rest : List Notification)
    → (front ++ n ∷ []) ++ rest ≡ front ++ n ∷ rest
append_assoc [] n rest = refl
append_assoc (m ∷ front) n rest = ap (λ xs. m ∷ xs) (append_assoc front n rest)

cut_last :
    (codec : Codec) (limit : ℕ) (found : List Notification)
    → length found ≤ limit
    → cut codec limit found ≡ (found, none)
unfolding cut
cut_last codec limit found h =
    let few : ltb limit (length found) ≡ false = ground arith in
    rw (take-every (limit + 1) found (omega arith), few) refl

cut_more :
    (codec : Codec) (limit : ℕ) (front : List Notification) (n m : Notification)
    (rest : List Notification)
    → suc (length front) ≡ limit
    → cut codec limit (front ++ n ∷ m ∷ rest)
      ≡ (front ++ n ∷ [], some (encode_cursor codec n.created_at n.id))
unfolding cut
cut_more codec limit front n m rest e =
    let count : length (front ++ n ∷ m ∷ []) ≡ length front + 2 =
      length-append front (n ∷ m ∷ []) in
    let two : limit + 1 ≡ suc (suc (length front)) = omega arith in
    let kept : take (limit + 1) (front ++ n ∷ m ∷ rest) ≡ front ++ n ∷ m ∷ [] =
      ap (λ k. take k (front ++ n ∷ m ∷ rest)) two ∙ take-front_more front n m rest in
    let many : ltb limit (length (front ++ n ∷ m ∷ [])) ≡ true = ground arith in
    let page : take limit (front ++ n ∷ m ∷ []) ≡ front ++ n ∷ [] =
      ap (λ k. take k (front ++ n ∷ m ∷ [])) (sym e) ∙ take-front front n (m ∷ []) in
    rw (kept, many, page, last_cursor-append codec front n) refl

-- One request: what it answers where no more, and where more, than a page is left.
page_last :
    (codec : Codec) (user_id startup_id : ℕ) (unread : Bool) (limit : ℕ) (cursor : Option Text)
    (db : NotificationDb) (left : List Notification)
    → after_cursor codec cursor (inbox user_id startup_id unread db.notifications) ≡ ok left
    → length left ≤ clamp limit
    → list_notifications codec user_id startup_id unread limit cursor db ≡ ok (left, none)
unfolding list_notifications
page_last codec user_id startup_id unread limit cursor db left a h =
    rw (a, cut_last codec (clamp limit) left h) refl

page_more :
    (codec : Codec) (user_id startup_id : ℕ) (unread : Bool) (limit : ℕ) (cursor : Option Text)
    (db : NotificationDb) (front : List Notification) (n m : Notification)
    (rest : List Notification)
    → after_cursor codec cursor (inbox user_id startup_id unread db.notifications)
      ≡ ok (front ++ n ∷ m ∷ rest)
    → suc (length front) ≡ clamp limit
    → list_notifications codec user_id startup_id unread limit cursor db
      ≡ ok (front ++ n ∷ [], some (encode_cursor codec n.created_at n.id))
unfolding list_notifications
page_more codec user_id startup_id unread limit cursor db front n m rest a e =
    rw (a, cut_more codec (clamp limit) front n m rest e) refl

clamp-pos : (limit : ℕ) → 0 < clamp limit
clamp-pos limit = omega arith

follow_from :
    (codec : Codec)
    → IsFaithful codec
    → (user_id startup_id : ℕ) (unread : Bool) (limit requests : ℕ) (cursor : Option Text)
      (db : NotificationDb) (seen left : List Notification)
    → IsNewestFirst (inbox user_id startup_id unread db.notifications)
    → inbox user_id startup_id unread db.notifications ≡ seen ++ left
    → after_cursor codec cursor (inbox user_id startup_id unread db.notifications) ≡ ok left
    → length left < requests
    → follow codec user_id startup_id unread limit requests cursor db ≡ ok left
unfolding follow
follow_from codec faithful u t unread limit zero cursor db seen left s e a few =
    absurd (omega arith)
follow_from codec faithful u t unread limit (suc requests) cursor db seen left s e a few =
    elim (dec_lt (clamp limit) (length left)) [
      | no k ↦ rw (page_last codec u t unread limit cursor db left a (omega arith)) refl
      | yes more ↦
          let (front, n, m, rest, split, size) =
            split_page (clamp limit) left (clamp-pos limit) more in
          let found = inbox u t unread db.notifications in
          let cursor' = some (encode_cursor codec n.created_at n.id) in
          let page =
            page_more codec u t unread limit cursor db front n m rest (a ∙ ap ok split) size in
          let whole : found ≡ (seen ++ front) ++ n ∷ m ∷ rest =
            e ∙ ap (λ xs. seen ++ xs) split ∙ sym (assoc seen front (n ∷ m ∷ rest)) in
          let behind : where_all (is_before n.created_at n.id) found ≡ m ∷ rest =
            ap (where_all (is_before n.created_at n.id)) whole
            ∙ where_all-is_before (seen ++ front) n (m ∷ rest) (subst IsNewestFirst whole s) in
          let size_left : length left ≡ length front + suc (suc (length rest)) =
            ap length split ∙ length-append front (n ∷ m ∷ rest) in
          let others =
            follow_from codec faithful u t unread limit requests cursor' db
              ((seen ++ front) ++ n ∷ []) (m ∷ rest) s
              (whole ∙ sym (append_assoc (seen ++ front) n (m ∷ rest)))
              (after_cursor_lem codec faithful n.created_at n.id found ∙ ap ok behind)
              (omega arith) in
          rw (page, others) (ap ok (append_assoc front n (m ∷ rest) ∙ sym split))
    ]

-- With ids that are unique, following the cursors from the first page, with any page size asked for
-- and one request more than there are rows to list, gives the user's whole inbox, newest first, and
-- nothing else: a row that fits any test is in it as often as in the table's rows that are the
-- user's in the workspace and, where only these are asked for, unread. The library's codecs are as
-- documented.
pub follow-all :
    (codec : Codec)
    → IsFaithful codec
    → (user_id startup_id : ℕ) (unread : Bool) (limit requests : ℕ) (db : NotificationDb)
    → HasUniqueIds db.notifications
    → length (inbox user_id startup_id unread db.notifications) < requests
    → (follow codec user_id startup_id unread limit requests none db
        ≡ ok (inbox user_id startup_id unread db.notifications))
      × IsNewestFirst (inbox user_id startup_id unread db.notifications)
      × ((p : Notification → Bool)
          → count p (inbox user_id startup_id unread db.notifications)
            ≡ count (λ n. is_listed user_id startup_id unread n && p n) db.notifications)
unfolding after_cursor
follow-all codec faithful u t unread limit requests db unique few =
    let s = IsNewestFirst-inbox u t unread db.notifications unique in
    (
      follow_from codec faithful u t unread limit requests none db []
          (inbox u t unread db.notifications) s refl refl few,
      s,
      λ p. count-inbox p u t unread db.notifications,
    )
