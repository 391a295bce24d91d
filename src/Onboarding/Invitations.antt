-- ===== src/Onboarding/Invitations.antt =====
-- Invitations to a workspace (app/services/onboarding/invites.py). An e-mail column is CITEXT: the
-- database compares it without regard to case, as Python does after `lower`, which is a parameter.
pub mod Accept
pub mod Create
mod Tests
use Prim.Native.String.{String}
use package.text.Mathlib.Text.{◌==◌ as str_eq}
use cofoundaz_api.Prelude.{
  ℕ, ◌+◌, ◌*◌, Bool, true, false, ◌&&◌, ◌||◌, not, Option, none, some, List, [], ◌∷◌, ◌++◌, ◌==◌,
  ltb, is_some, if◌then◌else◌, first, any, update_where,
}
use cofoundaz_api.Errors.{Result, ok, err, token_invalid, invite_email_mismatch, not_found}
use cofoundaz_api.Transaction.{Tx}
use cofoundaz_api.Onboarding.{
  MembershipRole, MembershipStatus, InvitationStatus, active, is_active, pending, accepted,
  is_pending, Invitation, Membership, Member, MemberEvent, invited, joined, InviteDb,
}

abbrev ttl : ℕ
ttl = 14 * 86400

module _ (lower : String → String) (hash_token : ℕ → ℕ) where
  abbrev pub same_email : String → String → Bool
  same_email e f = str_eq (lower e) (lower f)

  -- The join of a membership with its user.
  abbrev is_user_with : String → ℕ → Member → Bool
  is_user_with email user_id u = (u.id == user_id) && same_email u.email email

  pub is_active_member_email : InviteDb → ℕ → String → Bool
  is_active_member_email db startup_id email =
      any
        (λ (m : Membership).
          (m.startup_id == startup_id)
          && (is_active m.status && any (is_user_with email m.user_id) db.users))
        db.memberships

  abbrev pub is_pending_for : ℕ → String → Invitation → Bool
  is_pending_for startup_id email i =
      (i.startup_id == startup_id) && (same_email i.email email && is_pending i.status)

  abbrev pub has_pending : InviteDb → ℕ → String → Bool
  has_pending db startup_id email = any (is_pending_for startup_id email) db.invitations

  -- An item of the call, with the token and the id drawn for it.
  pub record InviteItem : Type 0 where
    pub email : String
    pub role : MembershipRole
    pub raw : ℕ
    pub new_id : ℕ

  -- What the loop adds to the session, and its two lists.
  pub record Batch : Type 0 where
    pub rows : List Invitation
    pub mails : List (String × ℕ)
    pub events : List MemberEvent
    pub created : List String
    pub skipped : List String

  abbrev pub is_handled : String → List String → Bool
  is_handled key handled = any (λ h. str_eq h key) handled

  abbrev pub invitation_of : ℕ → ℕ → ℕ → InviteItem → Invitation
  invitation_of startup_id inviter now item = record {
    id = item.new_id;
    startup_id = startup_id;
    email = item.email;
    role = item.role;
    token_hash = hash_token item.raw;
    status = pending;
    invited_by = inviter;
    expires_at = now + ttl;
    accepted_at = none;
    accepted_user_id = none;
  }

  abbrev pub is_skipped : InviteDb → ℕ → List String → String → Bool
  is_skipped db startup_id handled email =
      is_handled (lower email) handled
      || (has_pending db startup_id email || is_active_member_email db startup_id email)

  -- The loop. Its queries see the tables as they were before the call, since the session does not
  -- flush before a query.
  pub create_loop : ℕ → ℕ → ℕ → InviteDb → List String → List InviteItem → Batch
  create_loop startup_id inviter now db handled [] = record {
    rows = [];
    mails = [];
    events = [];
    created = [];
    skipped = [];
  }
  create_loop startup_id inviter now db handled (item ∷ items) =
      let skip = create_loop startup_id inviter now db handled items in
      let add = create_loop startup_id inviter now db (lower item.email ∷ handled) items in
      if is_skipped db startup_id handled item.email
      then record skip { skipped = item.email ∷ skip.skipped }
      else record {
        rows = invitation_of startup_id inviter now item ∷ add.rows;
        mails = (item.email, item.raw) ∷ add.mails;
        events = invited startup_id item.email item.role ∷ add.events;
        created = item.email ∷ add.created;
        skipped = add.skipped;
      }

  pub create_invitations : ℕ → ℕ → ℕ → List InviteItem → InviteDb → Batch × InviteDb
  unfolding create_loop
  create_invitations startup_id inviter now items db =
      let batch = create_loop startup_id inviter now db [] items in
      (
        batch,
        record db {
          invitations = db.invitations ++ batch.rows;
          mails = db.mails ++ batch.mails;
          events = db.events ++ batch.events;
        },
      )

  -- The invitation of a token, if it can still be used: `expires_at < now` ends it.
  abbrev pub usable : ℕ → Option Invitation → Option Invitation
  usable now none = none
  usable now (some i) = if is_pending i.status && not (ltb i.expires_at now) then some i else none

  abbrev pub has_token : ℕ → Invitation → Bool
  has_token token i = i.token_hash == hash_token token

  -- The invitation that `preview_invitation` shows.
  pub preview_invitation : ℕ → ℕ → InviteDb → Result Invitation
  preview_invitation token now db = elim (usable now (first (has_token token) db.invitations)) [
    | none ↦ err not_found
    | some i ↦ ok i
  ]

  abbrev pub is_membership : ℕ → ℕ → Membership → Bool
  is_membership user_id startup_id m = (m.user_id == user_id) && (m.startup_id == startup_id)

  abbrev pub new_membership : Member → Invitation → ℕ → ℕ → Membership
  new_membership user i now new_id = record {
    id = new_id;
    user_id = user.id;
    startup_id = i.startup_id;
    role = i.role;
    status = active;
    invited_by = some i.invited_by;
    joined_at = some now;
  }

  abbrev pub set_accepted : ℕ → ℕ → Invitation → Invitation
  set_accepted user_id now i = record i {
    status = accepted;
    accepted_at = some now;
    accepted_user_id = some user_id;
  }

  -- The end of `accept_invitation`, with the membership that was found.
  abbrev pub join :
      Member → Invitation → ℕ → ℕ → InviteDb → Option Membership → Membership × InviteDb
  join user i now new_id db found =
      let used = record db {
        invitations =
            update_where (λ (x : Invitation). x.id == i.id) (set_accepted user.id now)
              db.invitations;
        events = db.events ++ joined i.startup_id user.id i.role ∷ [];
      } in
      elim found [
        | some m ↦ (m, used)
        | none ↦
            let m = new_membership user i now new_id in
            (m, record used { memberships = used.memberships ++ m ∷ [] })
      ]

  abbrev pub accept_usable :
      Member → ℕ → ℕ → InviteDb → Option Invitation → Result Membership × InviteDb
  accept_usable user now new_id db none = (err token_invalid, db)
  accept_usable user now new_id db (some i) =
      let (m, db') =
        join user i now new_id db (first (is_membership user.id i.startup_id) db.memberships) in
      if same_email user.email i.email then (ok m, db') else (err invite_email_mismatch, db)

  pub accept_invitation : Member → ℕ → ℕ → ℕ → Tx InviteDb Membership
  accept_invitation user token now new_id db =
      accept_usable user now new_id db (usable now (first (has_token token) db.invitations))
