-- ===== src/Onboarding/Invitations/Accept.antt =====
-- Accepting an invitation (`accept_invitation` of app/services/onboarding/invites.py).
use Prim.Native.String.{String}
use cofoundaz_api.Prelude.{
  ℕ, ◌≤◌, ◌≡◌, ◌≢◌, refl, sym, ap, ◌∙◌, subst, Bool, true, false, ◌&&◌, not, Option, none, some,
  List, [], ◌∷◌, ◌==◌, ltb, if◌then◌else◌, first, first-fits, first-none_iff, first-update, count,
  count-append, update_where, arith, inl, inr, Bool-cases,
}
use cofoundaz_api.Errors.{Result, ok, err, token_invalid}
use cofoundaz_api.Onboarding.{Invitation, Membership, Member, InviteDb, is_pending}
use cofoundaz_api.Onboarding.Invitations.{
  same_email, usable, has_token, is_membership, set_accepted, join, accept_usable,
  accept_invitation,
}

count-first :
    (p : Membership → Bool) (xs : List Membership) (a : Membership)
    → first p xs ≡ some a
    → 1 ≤ count p xs
count-first p [] a e = cc
count-first p (x ∷ xs) a e = ground (arith, count-first p xs a)

some_injective : (m n : Membership) → some m ≡ some n → m ≡ n
some_injective m n e = cc

none_ne_some : (m : Membership) → none ≢ some m
none_ne_some m e = cc

module _ (lower : String → String) (hash_token : ℕ → ℕ) where
  -- An invitation that can be used is the token's own, is pending and has not expired.
  usable-some :
      (now : ℕ) (found : Option Invitation) (i : Invitation)
      → usable lower hash_token now found ≡ some i
      → (found ≡ some i) × (is_pending i.status ≡ true) × (ltb i.expires_at now ≡ false)
  usable-some now none i e = cc
  usable-some now (some j) i e =
      elim (Bool-cases (is_pending j.status && not (ltb j.expires_at now))) [
        | inr f ↦
            let none_eq : none ≡ some i = sym (ap (λ b. if b then some j else none) f) ∙ e in cc
        | inl t ↦
            let found : some j ≡ some i = sym (ap (λ b. if b then some j else none) t) ∙ e in
            let same : j ≡ i = cc in
            let active : is_pending j.status ≡ true = ground arith in
            let fresh : ltb j.expires_at now ≡ false = ground arith in
            (
              found,
              subst (λ (x : Invitation). is_pending x.status ≡ true) same active,
              subst (λ (x : Invitation). ltb x.expires_at now ≡ false) same fresh,
            )
      ]

  -- What a call that joined leaves of the token and of the memberships.
  abbrev IsJoined : Member → ℕ → InviteDb → Result Membership × InviteDb → Type 0
  IsJoined user token db (err e, db') = db' ≡ db
  IsJoined user token db (ok m, db') =
      ((other : Member) (later id : ℕ)
        → accept_invitation lower hash_token other token later id db' ≡ (err token_invalid, db'))
      × ((i : Invitation) × (first (has_token lower hash_token token) db.invitations ≡ some i)
          × (is_pending i.status ≡ true)
          × (same_email lower hash_token user.email i.email ≡ true)
          × (is_membership lower hash_token user.id i.startup_id m ≡ true)
          × (count (is_membership lower hash_token user.id i.startup_id) db.memberships ≤ 1
              → count (is_membership lower hash_token user.id i.startup_id) db'.memberships ≡ 1)
          × ((existing : Membership)
              → first (is_membership lower hash_token user.id i.startup_id) db.memberships
                ≡ some existing
              → (m ≡ existing) × (db'.memberships ≡ db.memberships)))

  -- The token's invitation after the call, which cannot be used.
  refused :
      (user other : Member) (token now later id : ℕ) (i : Invitation) (db db' : InviteDb)
      → first (has_token lower hash_token token) db.invitations ≡ some i
      → db'.invitations
        ≡ update_where
            (λ (x : Invitation). x.id == i.id)
            (set_accepted lower hash_token user.id now)
            db.invitations
      → accept_invitation lower hash_token other token later id db' ≡ (err token_invalid, db')
  unfolding accept_invitation
  refused user other token now later id i db db' f u =
      let self : (i.id == i.id) ≡ true = ground arith in
      let accepted = set_accepted lower hash_token user.id now in
      let found : first (has_token lower hash_token token) db'.invitations ≡ some (accepted i) =
        ap (first (has_token lower hash_token token)) u
        ∙ first-update (has_token lower hash_token token) (λ (x : Invitation). x.id == i.id)
            accepted db.invitations i (λ x. refl) f
        ∙ ap (λ b. some (if b then accepted i else i)) self in
      ap (λ o. accept_usable lower hash_token other later id db' (usable lower hash_token later o))
        found

  join-IsJoined :
      (user : Member) (token now id : ℕ) (i : Invitation) (db : InviteDb)
      → first (has_token lower hash_token token) db.invitations ≡ some i
      → is_pending i.status ≡ true
      → same_email lower hash_token user.email i.email ≡ true
      → (found : Option Membership)
      → first (is_membership lower hash_token user.id i.startup_id) db.memberships ≡ found
      → let joined = join lower hash_token user i now id db found in
        IsJoined user token db (ok joined.0, joined.1)
  join-IsJoined user token now id i db f p e (some m) g =
      let db' = (join lower hash_token user i now id db (some m)).1 in
      let one =
        count-first (is_membership lower hash_token user.id i.startup_id) db.memberships m g in
      (
        λ other later id'. refused user other token now later id' i db db' f refl,
        (
          i,
          f,
          p,
          e,
          first-fits (is_membership lower hash_token user.id i.startup_id) db.memberships m g,
          λ few. omega (arith, one, few),
          λ existing h. (some_injective m existing (sym g ∙ h), refl),
        ),
      )
  join-IsJoined user token now id i db f p e none g =
      let joined = join lower hash_token user i now id db none in
      let mine = is_membership lower hash_token user.id i.startup_id in
      let fits : mine joined.0 ≡ true = ground arith in
      let zero = (first-none_iff mine db.memberships).0 g in
      let one : count mine (joined.0 ∷ []) ≡ 1 = rw fits refl in
      (
        λ other later id'. refused user other token now later id' i db joined.1 f refl,
        (
          i,
          f,
          p,
          e,
          fits,
          λ few. count-append mine db.memberships (joined.0 ∷ []) ∙ omega (arith, zero, one),
          λ existing h. absurd (none_ne_some existing (sym g ∙ h)),
        ),
      )

  accept_usable-IsJoined :
      (user : Member) (token now id : ℕ) (db : InviteDb) (found : Option Invitation)
      → usable lower hash_token now (first (has_token lower hash_token token) db.invitations)
        ≡ found
      → IsJoined user token db (accept_usable lower hash_token user now id db found)
  accept_usable-IsJoined user token now id db none u = refl
  accept_usable-IsJoined user token now id db (some i) u =
      let (f, p, t) =
        usable-some now (first (has_token lower hash_token token) db.invitations) i u in
      let found = first (is_membership lower hash_token user.id i.startup_id) db.memberships in
      elim (Bool-cases (same_email lower hash_token user.email i.email)) [
        | inr g ↦ rw (g, accept_usable) refl
        | inl e ↦ rw (e, accept_usable) (join-IsJoined user token now id i db f p e found refl)
      ]

  -- Accepting an invitation that works: the token is that of a pending invitation, which is for the
  -- user's e-mail; the token is refused from then on, whoever uses it and whenever; the user is a member
  -- of the workspace exactly once if at most once before; and one who already had a membership, in
  -- whichever status, keeps it as it was.
  pub accept_invitation_lem :
      (user : Member) (token now new_id : ℕ) (db db' : InviteDb) (m : Membership)
      → accept_invitation lower hash_token user token now new_id db ≡ (ok m, db')
      → ((other : Member) (later id : ℕ)
          → accept_invitation lower hash_token other token later id db' ≡ (err token_invalid, db'))
        × ((i : Invitation) × (first (has_token lower hash_token token) db.invitations ≡ some i)
            × (is_pending i.status ≡ true)
            × (same_email lower hash_token user.email i.email ≡ true)
            × (is_membership lower hash_token user.id i.startup_id m ≡ true)
            × (count (is_membership lower hash_token user.id i.startup_id) db.memberships ≤ 1
                → count (is_membership lower hash_token user.id i.startup_id) db'.memberships ≡ 1)
            × ((existing : Membership)
                → first (is_membership lower hash_token user.id i.startup_id) db.memberships
                  ≡ some existing
                → (m ≡ existing) × (db'.memberships ≡ db.memberships)))
  unfolding accept_invitation
  accept_invitation_lem user token now new_id db db' m e =
      let out =
        accept_usable-IsJoined user token now new_id db
          (usable lower hash_token now (first (has_token lower hash_token token) db.invitations))
          refl in
      subst (IsJoined user token db) e out
