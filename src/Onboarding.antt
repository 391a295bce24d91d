-- ===== src/Onboarding.antt =====
-- Onboarding (app/services/onboarding): the tables that the invitations read and write
-- (app/db/models/invitation.py, membership.py and user.py).
pub mod Invitations
use Prim.Native.String.{String}
use cofoundaz_api.Prelude.{ℕ, Bool, true, false, Option, List}

pub data MembershipRole : Type 0 where
  founder team_member mentor accountant legal_advisor business_consultant : MembershipRole
  investor : MembershipRole

pub data MembershipStatus : Type 0 where
  active suspended removed : MembershipStatus

abbrev pub is_active : MembershipStatus → Bool
is_active active = true
is_active _ = false

pub data InvitationStatus : Type 0 where
  pending accepted expired revoked : InvitationStatus

abbrev pub is_pending : InvitationStatus → Bool
is_pending pending = true
is_pending _ = false

pub record Invitation : Type 0 where
  pub id : ℕ
  pub startup_id : ℕ
  pub email : String
  pub role : MembershipRole
  pub token_hash : ℕ
  pub status : InvitationStatus
  pub invited_by : ℕ
  pub expires_at : ℕ
  pub accepted_at : Option ℕ
  pub accepted_user_id : Option ℕ

pub record Membership : Type 0 where
  pub id : ℕ
  pub user_id : ℕ
  pub startup_id : ℕ
  pub role : MembershipRole
  pub status : MembershipStatus
  pub invited_by : Option ℕ
  pub joined_at : Option ℕ

pub record Member : Type 0 where
  pub id : ℕ
  pub email : String

-- The events `workspace.member.invited` and `workspace.member.joined`.
pub data MemberEvent : Type 0 where
  invited : ℕ → String → MembershipRole → MemberEvent
  joined : ℕ → ℕ → MembershipRole → MemberEvent

-- `mails` has the recipient and the token of each mail.
pub record InviteDb : Type 0 where
  pub invitations : List Invitation
  pub memberships : List Membership
  pub users : List Member
  pub mails : List (String × ℕ)
  pub events : List MemberEvent
