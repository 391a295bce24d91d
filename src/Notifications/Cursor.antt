-- ===== src/Notifications/Cursor.antt =====
-- The pages of the notification list (`_encode_cursor`, `_decode_cursor` and `list_notifications` of
-- app/services/notifications/service.py). The codecs of Python's library are a parameter. Texts are
-- lists of code points, and 124 is the bar that parts a cursor.
use cofoundaz_api.Prelude.{
  ℕ, ◌+◌, ◌≡◌, refl, sym, ap, ◌∙◌, ◌≢◌, Bool, false, Option, none, some, List, [], ◌∷◌, ◌++◌, ◌==◌,
  ltb, if◌then◌else◌, where_all, take, length, min, max, All,
}
use cofoundaz_api.Errors.{Result, ok, validation_error, or_raise, ◌>>=◌}
use cofoundaz_api.Notifications.{Notification, NotificationDb, inbox, is_before}

abbrev pub Text : Type 0
Text = List ℕ

-- base64 over UTF-8, `datetime.isoformat` and `fromisoformat`, `str` of a uuid and `UUID`.
pub record Codec : Type 0 where
  pub b64encode : Text → Text
  pub b64decode : Text → Option Text
  pub isoformat : ℕ → Text
  pub fromisoformat : Text → Option ℕ
  pub uuid_str : ℕ → Text
  pub uuid : Text → Option ℕ

-- What the library documents: the decoders read back what the encoders write, a base64 text of
-- nothing is empty, and an ISO instant has no bar.
pub record IsFaithful (codec : Codec) : Type 0 where
  pub base64 : (t : Text) → codec.b64decode (codec.b64encode t) ≡ some t
  pub base64_empty : codec.b64decode [] ≡ some []
  pub iso : (t : ℕ) → codec.fromisoformat (codec.isoformat t) ≡ some t
  pub no_bar : (t : ℕ) → All (λ c. (c == 124) ≡ false) (codec.isoformat t)
  pub uuids : (id : ℕ) → codec.uuid (codec.uuid_str id) ≡ some id

-- `raw.split("|", 1)` into two parts; without a bar the unpacking raises.
abbrev split_bar : Text → Option (Text × Text)
split_bar [] = none
split_bar (c ∷ cs) =
    if c == 124
    then some ([], cs)
    else elim (split_bar cs) [ none ↦ none | some parts ↦ some (c ∷ parts.0, parts.1) ]

pub encode_cursor : Codec → ℕ → ℕ → Text
encode_cursor codec created_at row_id =
    codec.b64encode (codec.isoformat created_at ++ 124 ∷ codec.uuid_str row_id)

abbrev both : Option ℕ → Option ℕ → Option (ℕ × ℕ)
both (some ts) (some row_id) = some (ts, row_id)
both (some ts) none = none
both none _ = none

abbrev parse_parts : Codec → Option (Text × Text) → Option (ℕ × ℕ)
parse_parts codec none = none
parse_parts codec (some (ts, row_id)) = both (codec.fromisoformat ts) (codec.uuid row_id)

abbrev parse_raw : Codec → Option Text → Option (ℕ × ℕ)
parse_raw codec none = none
parse_raw codec (some raw) = parse_parts codec (split_bar raw)

pub decode_cursor : Codec → Text → Result (ℕ × ℕ)
decode_cursor codec cursor = or_raise (parse_raw codec (codec.b64decode cursor)) validation_error

-- The cursor of the last of some rows.
abbrev pub last_cursor : Codec → List Notification → Option Text
unfolding encode_cursor
last_cursor codec [] = none
last_cursor codec (n ∷ []) = some (encode_cursor codec n.created_at n.id)
last_cursor codec (n ∷ m ∷ rows) = last_cursor codec (m ∷ rows)

-- The first `limit` rows, with the cursor of the last if one more row was found.
unfoldable pub cut : Codec → ℕ → List Notification → List Notification × Option Text
cut codec limit found =
    let rows = take (limit + 1) found in
    if ltb limit (length rows)
    then (take limit rows, last_cursor codec (take limit rows))
    else (rows, none)

abbrev pub clamp : ℕ → ℕ
clamp limit = max 1 (min limit 50)

-- `if cursor:`: an absent or empty text is no cursor.
unfoldable pub after_cursor : Codec → Option Text → List Notification → Result (List Notification)
unfolding decode_cursor
after_cursor codec none rows = ok rows
after_cursor codec (some []) rows = ok rows
after_cursor codec (some (c ∷ cs)) rows =
    decode_cursor codec (c ∷ cs) >>= (λ at. ok (where_all (is_before at.0 at.1) rows))

unfoldable pub list_notifications :
    Codec
    → ℕ
    → ℕ
    → Bool
    → ℕ
    → Option Text
    → NotificationDb
    → Result (List Notification × Option Text)
unfolding cut inbox
list_notifications codec user_id startup_id unread limit cursor db =
    after_cursor codec cursor (inbox user_id startup_id unread db.notifications)
    >>= (λ found. ok (cut codec (clamp limit) found))

split_bar-append :
    (before after : Text)
    → All (λ c. (c == 124) ≡ false) before
    → split_bar (before ++ 124 ∷ after) ≡ some (before, after)
split_bar-append [] after h = refl
split_bar-append (c ∷ before) after h = rw (h.0, split_bar-append before after h.1) refl

-- Decoding a cursor that was encoded gives the instant and the id back. The library's codecs are as
-- documented.
pub decode_cursor-encode_cursor :
    (codec : Codec)
    → IsFaithful codec
    → (created_at row_id : ℕ)
    → decode_cursor codec (encode_cursor codec created_at row_id) ≡ ok (created_at, row_id)
unfolding decode_cursor encode_cursor
decode_cursor-encode_cursor codec faithful t id =
    let bars = split_bar-append (codec.isoformat t) (codec.uuid_str id) (faithful.no_bar t) in
    rw
      (
        faithful.base64 (codec.isoformat t ++ 124 ∷ codec.uuid_str id),
        bars,
        faithful.iso t,
        faithful.uuids id,
      )
      refl

append_ne : (xs : Text) (y : ℕ) (ys : Text) → some (xs ++ y ∷ ys) ≢ some []
append_ne [] y ys e = cc
append_ne (x ∷ xs) y ys e = cc

-- A cursor is never the empty text, which the query takes for none.
encode_cursor_ne : (codec : Codec) → IsFaithful codec → (t id : ℕ) → encode_cursor codec t id ≢ []
unfolding encode_cursor
encode_cursor_ne codec faithful t id e =
    let raw = codec.isoformat t ++ 124 ∷ codec.uuid_str id in
    let d : some raw ≡ some [] =
      sym (faithful.base64 raw) ∙ ap codec.b64decode e ∙ faithful.base64_empty in
    append_ne (codec.isoformat t) 124 (codec.uuid_str id) d

after_cursor_ne :
    (codec : Codec) (cursor : Text) (at : ℕ × ℕ) (rows : List Notification)
    → cursor ≢ []
    → decode_cursor codec cursor ≡ ok at
    → after_cursor codec (some cursor) rows ≡ ok (where_all (is_before at.0 at.1) rows)
unfolding after_cursor
after_cursor_ne codec [] at rows ne d = absurd (ne refl)
after_cursor_ne codec (c ∷ cs) at rows ne d = rw d refl

-- What a cursor that was handed out selects.
pub after_cursor_lem :
    (codec : Codec)
    → IsFaithful codec
    → (t id : ℕ) (rows : List Notification)
    → after_cursor codec (some (encode_cursor codec t id)) rows
      ≡ ok (where_all (is_before t id) rows)
after_cursor_lem codec faithful t id rows =
    after_cursor_ne codec (encode_cursor codec t id) (t, id) rows
      (encode_cursor_ne codec faithful t id) (decode_cursor-encode_cursor codec faithful t id)

pub last_cursor-append :
    (codec : Codec) (front : List Notification) (n : Notification)
    → last_cursor codec (front ++ n ∷ []) ≡ some (encode_cursor codec n.created_at n.id)
unfolding last_cursor
last_cursor-append codec [] n = refl
last_cursor-append codec (m ∷ []) n = refl
last_cursor-append codec (m ∷ x ∷ front) n = last_cursor-append codec (x ∷ front) n
