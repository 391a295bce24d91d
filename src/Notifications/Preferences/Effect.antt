-- ===== src/Notifications/Preferences/Effect.antt =====
-- What setting preferences does (app/services/notifications/preferences.py).
use Prim.Native.String.{String}
use package.text.Mathlib.Text.{◌==◌ as str_eq}
use package.text.Mathlib.TextEquality.{eq_iff}
use package.text.Mathlib.TextPositions.{eq_refl}
use cofoundaz_api.Prelude.{
  ℕ, ◌≡◌, ◌≢◌, refl, sym, ap, ◌∙◌, Bool, true, false, ◌&&◌, Option, none, some, List, [], ◌∷◌, ◌++◌,
  ◌==◌, any, if◌then◌else◌, first, first-fits, first-update, update_where, map, arith, inl, inr,
  Bool-cases, Option-cases,
}
use cofoundaz_api.Notifications.Preferences.{
  categories, dict_get, dict_set, is_category, NotificationPreference, is_row, find_row, or_default,
  stored_of, master_of, effective_preferences, merge, or_keep, set_row, set_preferences, or_false,
  email_enabled,
}

first-snoc :
    (p : NotificationPreference → Bool) (xs : List NotificationPreference)
    (x : NotificationPreference)
    → first p xs ≡ none
    → p x ≡ true
    → first p (xs ++ x ∷ []) ≡ some x
first-snoc p [] x n e = ground arith
first-snoc p (y ∷ xs) x n e = ground (arith, first-snoc p xs x)

-- The row that a change leaves: of none, it is made of the defaults.
row-set :
    (u s : ℕ) (master : Option Bool) (wanted : List (String × Bool))
    (rows : List NotificationPreference)
    → (row : NotificationPreference) × (find_row u s (set_preferences u s master wanted rows)
        ≡ some row)
      × (row.master_email ≡ or_keep master (master_of (find_row u s rows)))
      × (row.stored ≡ merge (stored_of (find_row u s rows)) wanted)
unfolding set_preferences
row-set u s master wanted rows = elim (Option-cases (find_row u s rows)) [
  | inr (p, e) ↦
      let fits = first-fits (is_row u s) rows p e in
      (
        set_row master wanted p,
        rw e (
            first-update (is_row u s) (is_row u s) (set_row master wanted) rows p (λ x. refl) e
            ∙ ap (λ b. some (if b then set_row master wanted p else p)) fits),
        ap (λ o. or_keep master (master_of o)) (sym e),
        ap (λ o. merge (stored_of o) wanted) (sym e),
      )
  | inl e ↦
      let fresh : NotificationPreference = record {
        user_id = u;
        startup_id = s;
        master_email = true;
        stored = [];
      } in
      let row = set_row master wanted fresh in
      let self : is_row u s row ≡ true = ground arith in
      (
        row,
        rw e (first-snoc (is_row u s) rows row e self),
        ap (λ o. or_keep master (master_of o)) (sym e),
        ap (λ o. merge (stored_of o) wanted) (sym e),
      )
]

dict_get-map :
    (f : String → Bool) (c : String) (keys : List String)
    → any (λ x. str_eq x c) keys ≡ true
    → dict_get c (map (λ k. (k, f k)) keys) ≡ some (f c)
dict_get-map f c [] e = cc
dict_get-map f c (k ∷ keys) e = elim (Bool-cases (str_eq k c)) [
  | inl t ↦ rw t (ap (λ x. some (f x)) ((eq_iff k c).0 t))
  | inr g ↦ rw g (dict_get-map f c keys (ground arith))
]

-- What an e-mail of a category depends on.
pub email_enabled_lem :
    (u s : ℕ) (c : String) (rows : List NotificationPreference)
    → is_category c ≡ true
    → email_enabled u s (some c) rows
      ≡ (master_of (find_row u s rows) && or_default (dict_get c (stored_of (find_row u s rows))))
unfolding email_enabled
email_enabled_lem u s c rows known =
    ap (λ o. master_of (find_row u s rows) && or_false o)
      (dict_get-map (λ k. or_default (dict_get k (stored_of (find_row u s rows)))) c categories
        known)

dict_get-set_same :
    (c : String) (v : Bool) (d : List (String × Bool)) → dict_get c (dict_set c v d) ≡ some v
dict_get-set_same c v [] = rw (eq_refl c) refl
dict_get-set_same c v ((k, w) ∷ d) = elim (Bool-cases (str_eq k c)) [
  | inl t ↦ rw t (rw t refl)
  | inr f ↦ rw f (rw f (dict_get-set_same c v d))
]

apart_keys : (k c e : String) → c ≢ e → str_eq k c ≡ true → str_eq k e ≡ false
apart_keys k c e ne t = elim (Bool-cases (str_eq k e)) [
  | inr f ↦ f
  | inl u ↦ absurd (ne (sym ((eq_iff k c).0 t) ∙ (eq_iff k e).0 u))
]

dict_get-set_other :
    (c e : String) (v : Bool) (d : List (String × Bool))
    → c ≢ e
    → dict_get e (dict_set c v d) ≡ dict_get e d
dict_get-set_other c e v [] ne = rw (apart_keys c c e ne (eq_refl c)) refl
dict_get-set_other c e v ((k, w) ∷ d) ne = elim (Bool-cases (str_eq k c)) [
  | inl t ↦ let off = apart_keys k c e ne t in rw t (rw off refl)
  | inr f ↦ elim (Bool-cases (str_eq k e)) [
    | inl u ↦ rw f (rw u refl)
    | inr u ↦ rw f (rw u (dict_get-set_other c e v d ne))
  ]
]

first-update_other :
    (p q : NotificationPreference → Bool) (f : NotificationPreference → NotificationPreference)
    (rows : List NotificationPreference)
    → ((r : NotificationPreference) → p (f r) ≡ p r)
    → ((r : NotificationPreference) → p r ≡ true → q r ≡ false)
    → first p (update_where q f rows) ≡ first p rows
first-update_other p q f [] same apart = refl
first-update_other p q f (r ∷ rows) same apart =
    ground (arith, same r, apart r, first-update_other p q f rows same apart)

first-snoc_other :
    (p : NotificationPreference → Bool) (rows : List NotificationPreference)
    (x : NotificationPreference)
    → p x ≡ false
    → first p (rows ++ x ∷ []) ≡ first p rows
first-snoc_other p [] x e = rw e refl
first-snoc_other p (r ∷ rows) x e = ground (arith, first-snoc_other p rows x e)

-- The row of another member, or of the member in another workspace, is found as before.
find_row-other :
    (u s v w : ℕ) (master : Option Bool) (wanted : List (String × Bool))
    (rows : List NotificationPreference)
    → ((u == v) && (s == w)) ≡ false
    → find_row v w (set_preferences u s master wanted rows) ≡ find_row v w rows
unfolding set_preferences
find_row-other u s v w master wanted rows ne = elim (Option-cases (find_row u s rows)) [
  | inr (p, e) ↦ rw e (
      first-update_other (is_row v w) (is_row u s) (set_row master wanted) rows (λ x. refl)
        (λ r t. ground arith))
  | inl e ↦ rw e (first-snoc_other (is_row v w) rows _ ne)
]

unchanged :
    (u s v w : ℕ) (master : Option Bool) (wanted : List (String × Bool)) (category : Option String)
    (rows : List NotificationPreference)
    → ((u == v) && (s == w)) ≡ false
    → email_enabled v w category (set_preferences u s master wanted rows)
      ≡ email_enabled v w category rows
unfolding set_preferences email_enabled
unchanged u s v w master wanted none rows ne = refl
unchanged u s v w master wanted (some c) rows ne =
    ap
      (λ o.
        master_of o
        && or_false (dict_get c (map (λ k. (k, or_default (dict_get k (stored_of o)))) categories)))
      (find_row-other u s v w master wanted rows ne)

-- Setting a member's preference for a category: its e-mail is then sent exactly if the category is
-- wanted and the master switch, as it was or as it is set in the same call, is on; every other
-- category is as it was, but for the switch; and nothing changes for another member or workspace.
pub set_preferences_lem :
    (user_id startup_id : ℕ) (master_email : Option Bool) (c : String) (wanted : Bool)
    (rows : List NotificationPreference) (other : String) (v w : ℕ) (category : Option String)
    → is_category c ≡ true
    → is_category other ≡ true
    → c ≢ other
    → ((user_id == v) && (startup_id == w)) ≡ false
    → let rows' = set_preferences user_id startup_id master_email ((c, wanted) ∷ []) rows in
      let old = effective_preferences user_id startup_id rows in
      let master = or_keep master_email old.master_email in
      (email_enabled user_id startup_id (some c) rows' ≡ (master && wanted))
      × (email_enabled user_id startup_id (some other) rows'
          ≡ (master && or_false (dict_get other old.wanted)))
      × (email_enabled v w category rows' ≡ email_enabled v w category rows)
unfolding effective_preferences
set_preferences_lem u s master_email c wanted rows other v w category known k ne apart =
    let rows' = set_preferences u s master_email ((c, wanted) ∷ []) rows in
    let old = stored_of (find_row u s rows) in
    let master = or_keep master_email (master_of (find_row u s rows)) in
    let (row, e, m, d) = row-set u s master_email ((c, wanted) ∷ []) rows in
    let merged : row.stored ≡ dict_set c wanted old = d ∙ rw known refl in
    let reads = λ (x : String) (k : is_category x ≡ true).
      email_enabled_lem u s x rows' k
      ∙ ap (λ o. master_of o && or_default (dict_get x (stored_of o))) e
      ∙ ap (λ b. b && or_default (dict_get x row.stored)) m
      ∙ ap (λ l. master && or_default (dict_get x l)) merged in
    (
      reads c known ∙ ap (λ o. master && or_default o) (dict_get-set_same c wanted old),
      reads other k
          ∙ ap (λ o. master && or_default o) (dict_get-set_other c other wanted old ne)
          ∙ ap (λ o. master && or_false o)
              (sym (dict_get-map (λ x. or_default (dict_get x old)) other categories k)),
      unchanged u s v w master_email ((c, wanted) ∷ []) category rows apart,
    )
