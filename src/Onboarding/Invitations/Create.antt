-- ===== src/Onboarding/Invitations/Create.antt =====
-- Sending invitations (`create_invitations` of app/services/onboarding/invites.py).
use Prim.Native.String.{String}
use package.text.Mathlib.Text.{◌==◌ as str_eq}
use package.text.Mathlib.TextEquality.{eq_iff}
use cofoundaz_api.Prelude.{
  append_nil, ℕ, ◌+◌, ◌≤◌, ◌≡◌, refl, sym, ap, ◌∙◌, subst, Bool, true, false, ◌&&◌, none, some,
  List, [], ◌∷◌, ◌++◌, ◌==◌, if◌then◌else◌, any, first, ltb, count, count-append, arith, inl, inr,
  Bool-cases,
}
use cofoundaz_api.Errors.{err, token_invalid}
use cofoundaz_api.Onboarding.{Invitation, Member, InviteDb, is_pending}
use cofoundaz_api.Onboarding.Invitations.{
  InviteItem, is_pending_for, has_pending, is_handled, is_skipped, invitation_of, create_loop,
  create_invitations, has_token, usable, accept_usable, accept_invitation,
}

count-any_zero : (p : Invitation → Bool) (xs : List Invitation) → any p xs ≡ false → count p xs ≡ 0
count-any_zero p [] e = refl
count-any_zero p (x ∷ xs) e = ground (arith, count-any_zero p xs)

any-first :
    (p q : Invitation → Bool) (xs : List Invitation) (i : Invitation)
    → first q xs ≡ some i
    → p i ≡ true
    → any p xs ≡ true
any-first p q [] i e h = cc
any-first p q (x ∷ xs) i e h = elim (Bool-cases (q x)) [
  | inl t ↦
      let found : some x ≡ some i = sym (ap (λ b. if b then some x else first q xs) t) ∙ e in
      let same : x ≡ i = cc in
      let fits : p x ≡ true = subst (λ y. p y ≡ true) (sym same) h in rw fits refl
  | inr f ↦
      let found : first q xs ≡ some i = sym (ap (λ b. if b then some x else first q xs) f) ∙ e in
      let rest = any-first p q xs i found h in ground arith
]

module _ (lower : String → String) (hash_token : ℕ → ℕ) where
  -- In every workspace, an e-mail has at most one pending invitation.
  abbrev pub HasOnePending : List Invitation → Type 0
  HasOnePending rows =
      (startup_id : ℕ) (email : String)
      → count (is_pending_for lower hash_token startup_id email) rows ≤ 1

  -- A row of this e-mail is added only if the workspace has none pending, and the call has added none.
  abbrev is_free : InviteDb → ℕ → List String → String → Bool
  is_free db startup_id handled email =
      if is_handled lower hash_token (lower email) handled
      then false
      else if has_pending lower hash_token db startup_id email
      then false
      else true

  abbrev room : Bool → ℕ
  room b = if b then 1 else 0

  -- What the loop does not skip is free, and so is the same e-mail in another case.
  same_free :
      (db : InviteDb) (startup_id : ℕ) (handled : List String) (email other : String)
      → lower email ≡ lower other
      → is_skipped lower hash_token db startup_id handled email ≡ false
      → is_free db startup_id handled other ≡ true
  same_free db startup_id handled email other key f =
      let unhandled : is_handled lower hash_token (lower email) handled ≡ false = ground arith in
      let unasked : has_pending lower hash_token db startup_id email ≡ false = ground arith in
      let unhandled' = subst (λ k. is_handled lower hash_token k handled ≡ false) key unhandled in
      let unasked' =
        subst
          (λ k.
            any
              (λ (i : Invitation).
                (i.startup_id == startup_id) && (str_eq (lower i.email) k && is_pending i.status))
              db.invitations
            ≡ false)
          key unasked in
      rw (unhandled', unasked') refl

  create_loop-le :
      (startup_id inviter now : ℕ) (db : InviteDb) (email : String) (handled : List String)
      (items : List (InviteItem lower hash_token))
      → count
          (is_pending_for lower hash_token startup_id email)
          (create_loop lower hash_token startup_id inviter now db handled items).rows
        ≤ room (is_free db startup_id handled email)
  unfolding create_loop
  create_loop-le startup_id inviter now db email handled [] = omega arith
  create_loop-le startup_id inviter now db email handled (item ∷ items) =
      elim (Bool-cases (is_skipped lower hash_token db startup_id handled item.email)) [
        | inl t ↦ rw t (create_loop-le startup_id inviter now db email handled items)
        | inr f ↦
            let rest =
              create_loop-le startup_id inviter now db email (lower item.email ∷ handled) items in
            elim (Bool-cases (str_eq (lower item.email) (lower email))) [
              | inl s ↦
                  let key = (eq_iff (lower item.email) (lower email)).0 s in
                  let free : is_free db startup_id handled email ≡ true =
                    same_free db startup_id handled item.email email key f in
                  let none_left : is_free db startup_id (lower item.email ∷ handled) email ≡ false =
                    rw s refl in
                  let row = invitation_of lower hash_token startup_id inviter now item in
                  let fits : is_pending_for lower hash_token startup_id email row ≡ true =
                    ground (arith, s) in
                  let nothing = ap room none_left in
                  let one = ap room free in rw (f, fits) (omega (arith, rest, nothing, one))
              | inr s ↦
                  let row = invitation_of lower hash_token startup_id inviter now item in
                  let off : is_pending_for lower hash_token startup_id email row ≡ false =
                    ground (arith, s) in
                  let same : is_free db startup_id (lower item.email ∷ handled) email
                      ≡ is_free db startup_id handled email =
                    rw s refl in
                  rw (f, off)
                    (subst
                      (λ b.
                        count (is_pending_for lower hash_token startup_id email)
                          (create_loop lower hash_token startup_id inviter now db
                            (lower item.email ∷ handled) items).rows
                        ≤ room b)
                      same rest)
            ]
      ]

  other_workspace :
      (startup_id other inviter now : ℕ) (db : InviteDb) (email : String) (handled : List String)
      (items : List (InviteItem lower hash_token))
      → (startup_id == other) ≡ false
      → count
          (is_pending_for lower hash_token other email)
          (create_loop lower hash_token startup_id inviter now db handled items).rows
        ≡ 0
  unfolding create_loop
  other_workspace startup_id other inviter now db email handled [] e = refl
  other_workspace startup_id other inviter now db email handled (item ∷ items) e =
      elim (Bool-cases (is_skipped lower hash_token db startup_id handled item.email)) [
        | inl t ↦ rw t (other_workspace startup_id other inviter now db email handled items e)
        | inr f ↦
            rw (f, e)
              (other_workspace startup_id other inviter now db email (lower item.email ∷ handled)
                items e)
      ]

  -- Sending invitations, whatever the items, keeps at most one pending invitation of an e-mail in every
  -- workspace, where case does not tell two e-mails apart.
  pub create_invitations-HasOnePending :
      (startup_id inviter now : ℕ) (items : List (InviteItem lower hash_token)) (db : InviteDb)
      → HasOnePending db.invitations
      → HasOnePending
          (create_invitations lower hash_token startup_id inviter now items db).1.invitations
  unfolding create_invitations
  create_invitations-HasOnePending startup_id inviter now items db h other email =
      let rows = (create_loop lower hash_token startup_id inviter now db [] items).rows in
      let p = is_pending_for lower hash_token other email in
      let sum : count p (db.invitations ++ rows) ≡ count p db.invitations + count p rows =
        count-append p db.invitations rows in
      let before = h other email in
      elim (Bool-cases (startup_id == other)) [
        | inr f ↦
            let zero : count p rows ≡ 0 =
              other_workspace startup_id other inviter now db email [] items f in
            omega (arith, sum, before, zero)
        | inl t ↦
            let same : startup_id ≡ other = ground arith in
            let few : count p rows ≤ room (is_free db other [] email) =
              subst
                (λ w.
                  count (is_pending_for lower hash_token w email)
                    (create_loop lower hash_token startup_id inviter now db [] items).rows
                  ≤ room (is_free db w [] email))
                same (create_loop-le startup_id inviter now db email [] items) in
            elim (Bool-cases (has_pending lower hash_token db other email)) [
              | inl u ↦
                  let full : is_free db other [] email ≡ false = rw u refl in
                  let none_left = ap room full in omega (arith, sum, before, few, none_left)
              | inr u ↦
                  let zero = count-any_zero p db.invitations u in
                  let free : is_free db other [] email ≡ true = rw u refl in
                  let one = ap room free in omega (arith, sum, zero, few, one)
            ]
      ]

  -- A batch that adds nothing leaves the tables as they were.
  nothing_added :
      (db : InviteDb)
      → record db {
        invitations = db.invitations ++ [];
        mails = db.mails ++ [];
        events = db.events ++ [];
      }
        ≡ db
  nothing_added db =
      ap (λ l. record db { invitations = l; mails = db.mails ++ []; events = db.events ++ [] })
        (append_nil db.invitations)
      ∙ ap (λ l. record db { mails = l; events = db.events ++ [] }) (append_nil db.mails)
      ∙ ap (λ l. record db { events = l }) (append_nil db.events)

  -- An invitation that has expired while it was pending: its token is refused, and yet a new invitation
  -- of its e-mail, to the same workspace, is listed as skipped, and the tables, the mails and the events
  -- stay as they were.
  pub expired_invitation_blocks :
      (startup_id inviter now : ℕ) (item : InviteItem lower hash_token) (token : ℕ) (i : Invitation)
      (db : InviteDb)
      → first (has_token lower hash_token token) db.invitations ≡ some i
      → ltb i.expires_at now ≡ true
      → is_pending_for lower hash_token startup_id item.email i ≡ true
      → ((user : Member) (new_id : ℕ)
          → accept_invitation lower hash_token user token now new_id db ≡ (err token_invalid, db))
        × ((create_invitations lower hash_token startup_id inviter now (item ∷ []) db).0 ≡ record {
          rows = [];
          mails = [];
          events = [];
          created = [];
          skipped = item.email ∷ [];
        })
        × ((create_invitations lower hash_token startup_id inviter now (item ∷ []) db).1 ≡ db)
  unfolding accept_invitation create_invitations
  expired_invitation_blocks startup_id inviter now item token i db f late p =
      let asked : has_pending lower hash_token db startup_id item.email ≡ true =
        any-first (is_pending_for lower hash_token startup_id item.email)
          (has_token lower hash_token token) db.invitations i f p in
      let skip : is_skipped lower hash_token db startup_id [] item.email ≡ true = rw asked refl in
      let ended : usable lower hash_token now (some i) ≡ none = ground arith in
      (
        λ user new_id.
            ap
              (λ o.
                accept_usable lower hash_token user now new_id db (usable lower hash_token now o))
              f
            ∙ ap (accept_usable lower hash_token user now new_id db) ended,
        rw skip refl,
        rw skip (nothing_added db),
      )
