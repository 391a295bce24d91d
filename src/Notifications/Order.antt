-- ===== src/Notifications/Order.antt =====
-- The order of the notification list (app/services/notifications/service.py).
use cofoundaz_api.Prelude.{
  ℕ, ◌≡◌, ◌≢◌, refl, ◌∙◌, Bool, true, false, ◌&&◌, ◌||◌, not, List, [], ◌∷◌, ◌++◌, where_all, count,
  is_none, All, arith, inl, inr, Bool-cases,
}
use cofoundaz_api.Notifications.{
  Notification, inbox, is_before, is_of, newest_first, insert_newest, filter_unread,
}

-- Each row is strictly newer than every row behind it.
abbrev pub IsNewestFirst : List Notification → Type 0
IsNewestFirst [] = Unit
IsNewestFirst (n ∷ rows) = All (λ m. is_before n.created_at n.id m ≡ true) rows × IsNewestFirst rows

abbrev pub HasUniqueIds : List Notification → Type 0
HasUniqueIds [] = Unit
HasUniqueIds (n ∷ rows) = All (λ m. n.id ≢ m.id) rows × HasUniqueIds rows

is_before_trans :
    (a b c : Notification)
    → is_before a.created_at a.id b ≡ true
    → is_before b.created_at b.id c ≡ true
    → is_before a.created_at a.id c ≡ true
is_before_trans a b c h k = ground arith

is_before_flip :
    (a b : Notification)
    → a.id ≢ b.id
    → is_before a.created_at a.id b ≡ false
    → is_before b.created_at b.id a ≡ true
is_before_flip a b ne h = ground arith

is_before_asym :
    (a b : Notification)
    → is_before a.created_at a.id b ≡ true
    → is_before b.created_at b.id a ≡ false
is_before_asym a b h = ground arith

is_before_irrefl : (a : Notification) → is_before a.created_at a.id a ≡ false
is_before_irrefl a = ground arith

All-insert_newest :
    (P : Notification → Type 0) (n : Notification) (rows : List Notification)
    → P n
    → All P rows
    → All P (insert_newest n rows)
All-insert_newest P n [] p h = (p, tt)
All-insert_newest P n (m ∷ rows) p h = elim (Bool-cases (is_before n.created_at n.id m)) [
  | inl t ↦ rw t (p, h)
  | inr f ↦ rw f (h.0, All-insert_newest P n rows p h.1)
]

All-trans :
    (a b : Notification) (rows : List Notification)
    → is_before a.created_at a.id b ≡ true
    → All (λ m. is_before b.created_at b.id m ≡ true) rows
    → All (λ m. is_before a.created_at a.id m ≡ true) rows
All-trans a b [] h k = tt
All-trans a b (c ∷ rows) h k = (is_before_trans a b c h k.0, All-trans a b rows h k.1)

IsNewestFirst-insert_newest :
    (n : Notification) (rows : List Notification)
    → All (λ m. n.id ≢ m.id) rows
    → IsNewestFirst rows
    → IsNewestFirst (insert_newest n rows)
IsNewestFirst-insert_newest n [] u s = (tt, tt)
IsNewestFirst-insert_newest n (m ∷ rows) u s = elim (Bool-cases (is_before n.created_at n.id m)) [
  | inl t ↦ rw t ((t, All-trans n m rows t s.0), s)
  | inr f ↦ rw f (
    All-insert_newest (λ x. is_before m.created_at m.id x ≡ true) n rows (is_before_flip n m u.0 f)
        s.0,
    IsNewestFirst-insert_newest n rows u.1 s.1,
  )
]

All-newest_first :
    (P : Notification → Type 0) (rows : List Notification) → All P rows → All P (newest_first rows)
unfolding newest_first
All-newest_first P [] h = tt
All-newest_first P (n ∷ rows) h =
    All-insert_newest P n (newest_first rows) h.0 (All-newest_first P rows h.1)

IsNewestFirst-newest_first :
    (rows : List Notification) → HasUniqueIds rows → IsNewestFirst (newest_first rows)
unfolding newest_first
IsNewestFirst-newest_first [] u = tt
IsNewestFirst-newest_first (n ∷ rows) u =
    IsNewestFirst-insert_newest n (newest_first rows) (All-newest_first (λ m. n.id ≢ m.id) rows u.0)
      (IsNewestFirst-newest_first rows u.1)

All-where_all :
    (P : Notification → Type 0) (p : Notification → Bool) (rows : List Notification)
    → All P rows
    → All P (where_all p rows)
All-where_all P p [] h = tt
All-where_all P p (n ∷ rows) h = elim (Bool-cases (p n)) [
  | inl t ↦ rw t (h.0, All-where_all P p rows h.1)
  | inr f ↦ rw f (All-where_all P p rows h.1)
]

HasUniqueIds-where_all :
    (p : Notification → Bool) (rows : List Notification)
    → HasUniqueIds rows
    → HasUniqueIds (where_all p rows)
HasUniqueIds-where_all p [] u = tt
HasUniqueIds-where_all p (n ∷ rows) u = elim (Bool-cases (p n)) [
  | inl t ↦ rw t (All-where_all (λ m. n.id ≢ m.id) p rows u.0, HasUniqueIds-where_all p rows u.1)
  | inr f ↦ rw f (HasUniqueIds-where_all p rows u.1)
]

IsNewestFirst-where_all :
    (p : Notification → Bool) (rows : List Notification)
    → IsNewestFirst rows
    → IsNewestFirst (where_all p rows)
IsNewestFirst-where_all p [] s = tt
IsNewestFirst-where_all p (n ∷ rows) s = elim (Bool-cases (p n)) [
  | inl t ↦ rw t (
    All-where_all (λ m. is_before n.created_at n.id m ≡ true) p rows s.0,
    IsNewestFirst-where_all p rows s.1,
  )
  | inr f ↦ rw f (IsNewestFirst-where_all p rows s.1)
]

IsNewestFirst-filter_unread :
    (unread : Bool) (rows : List Notification)
    → IsNewestFirst rows
    → IsNewestFirst (filter_unread unread rows)
IsNewestFirst-filter_unread false rows s = s
IsNewestFirst-filter_unread true rows s = IsNewestFirst-where_all (λ n. is_none n.read_at) rows s

pub IsNewestFirst-inbox :
    (user_id startup_id : ℕ) (unread : Bool) (rows : List Notification)
    → HasUniqueIds rows
    → IsNewestFirst (inbox user_id startup_id unread rows)
unfolding inbox
IsNewestFirst-inbox user_id startup_id unread rows u =
    let mine = where_all (is_of user_id startup_id) rows in
    IsNewestFirst-filter_unread unread (newest_first mine)
      (IsNewestFirst-newest_first mine (HasUniqueIds-where_all (is_of user_id startup_id) rows u))

where_all-every :
    (p : Notification → Bool) (rows : List Notification)
    → All (λ n. p n ≡ true) rows
    → where_all p rows ≡ rows
where_all-every p [] h = refl
where_all-every p (n ∷ rows) h = rw (h.0, where_all-every p rows h.1) refl

All-split :
    (P : Notification → Type 0) (before : List Notification) (n : Notification)
    (after : List Notification)
    → All P (before ++ n ∷ after)
    → P n
All-split P [] n after h = h.0
All-split P (m ∷ before) n after h = All-split P before n after h.1

-- The filter of a row's cursor selects the rows behind it.
pub where_all-is_before :
    (before : List Notification) (n : Notification) (after : List Notification)
    → IsNewestFirst (before ++ n ∷ after)
    → where_all (is_before n.created_at n.id) (before ++ n ∷ after) ≡ after
where_all-is_before [] n after s =
    rw (is_before_irrefl n, where_all-every (is_before n.created_at n.id) after s.0) refl
where_all-is_before (m ∷ before) n after s =
    let newer = All-split (λ x. is_before m.created_at m.id x ≡ true) before n after s.0 in
    rw (is_before_asym m n newer) (where_all-is_before before n after s.1)

count-insert_newest :
    (p : Notification → Bool) (n : Notification) (rows : List Notification)
    → count p (insert_newest n rows) ≡ count p (n ∷ rows)
count-insert_newest p n [] = refl
count-insert_newest p n (m ∷ rows) = ground (arith, count-insert_newest p n rows)

count-newest_first :
    (p : Notification → Bool) (rows : List Notification)
    → count p (newest_first rows) ≡ count p rows
unfolding newest_first
count-newest_first p [] = refl
count-newest_first p (n ∷ rows) =
    ground (arith, count-insert_newest p n (newest_first rows), count-newest_first p rows)

count-where_all :
    (p q : Notification → Bool) (rows : List Notification)
    → count p (where_all q rows) ≡ count (λ n. q n && p n) rows
count-where_all p q [] = refl
count-where_all p q (n ∷ rows) = ground (arith, count-where_all p q rows)

-- The rows that the list is about.
abbrev pub is_listed : ℕ → ℕ → Bool → Notification → Bool
is_listed user_id startup_id unread n =
    is_of user_id startup_id n && (not unread || is_none n.read_at)

count-same :
    (p q : Notification → Bool) (rows : List Notification)
    → ((n : Notification) → p n ≡ q n)
    → count p rows ≡ count q rows
count-same p q [] h = refl
count-same p q (n ∷ rows) h = ground (arith, h n, count-same p q rows h)

pub count-inbox :
    (p : Notification → Bool) (user_id startup_id : ℕ) (unread : Bool) (rows : List Notification)
    → count p (inbox user_id startup_id unread rows)
      ≡ count (λ n. is_listed user_id startup_id unread n && p n) rows
unfolding inbox
count-inbox p u t false rows =
    count-newest_first p (where_all (is_of u t) rows)
    ∙ count-where_all p (is_of u t) rows
    ∙ count-same (λ n. is_of u t n && p n) (λ n. is_listed u t false n && p n) rows
        (λ n. ground arith)
count-inbox p u t true rows =
    let unread = λ (n : Notification). is_none n.read_at in
    count-where_all p unread (newest_first (where_all (is_of u t) rows))
    ∙ count-newest_first (λ n. unread n && p n) (where_all (is_of u t) rows)
    ∙ count-where_all (λ n. unread n && p n) (is_of u t) rows
    ∙ count-same (λ n. is_of u t n && (unread n && p n)) (λ n. is_listed u t true n && p n) rows
        (λ n. ground arith)
