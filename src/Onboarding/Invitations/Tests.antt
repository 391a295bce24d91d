-- ===== src/Onboarding/Invitations/Tests.antt =====
-- A founder invites two people, one of them twice, and one of them accepts.
use Prim.Native.String.{String}
use cofoundaz_api.Prelude.{
  ℕ, ◌+◌, ◌*◌, ◌≤◌, ◌≡◌, refl, true, none, some, List, [], ◌∷◌, first, count, arith,
}
use cofoundaz_api.Errors.{err, token_invalid}
use cofoundaz_api.Onboarding.{
  MembershipRole, MembershipStatus, InvitationStatus, Invitation, Membership, Member, InviteDb,
  is_pending,
}
use cofoundaz_api.Onboarding.Invitations.{
  is_active_member_email, InviteItem, create_invitations, accept_invitation, has_token, same_email,
  is_membership,
}
use cofoundaz_api.Onboarding.Invitations.Accept.{accept_invitation_lem}
use cofoundaz_api.Onboarding.Invitations.Create.{
  expired_invitation_blocks, HasOnePending, create_invitations-HasOnePending,
}

abbrev lower : String → String
lower s = s

abbrev hash_token : ℕ → ℕ
hash_token n = n + 1000

abbrev item : String → ℕ → ℕ → InviteItem lower hash_token
item email raw new_id = record {
  email = email;
  role = MembershipRole.mentor;
  raw = raw;
  new_id = new_id;
}

abbrev items : List (InviteItem lower hash_token)
items = item "a@x" 1 31 ∷ item "b@x" 2 32 ∷ item "a@x" 3 33 ∷ []

abbrev empty : InviteDb
empty = record {
  invitations = [];
  memberships = [];
  users = record { id = 8; email = "a@x" } ∷ [];
  mails = [];
  events = [];
}

abbrev guest : Member
guest = record { id = 8; email = "a@x" }

abbrev sent : InviteDb
sent = (create_invitations lower hash_token 7 5 100 items empty).1

abbrev joined : InviteDb
joined = (accept_invitation lower hash_token guest 1 200 41 sent).1

abbrev membership : Membership
membership = record {
  id = 41;
  user_id = 8;
  startup_id = 7;
  role = MembershipRole.mentor;
  status = MembershipStatus.active;
  invited_by = some 5;
  joined_at = some 200;
}

sent_test :
    ((create_invitations lower hash_token 7 5 100 items empty).0.created ≡ "a@x" ∷ "b@x" ∷ [])
    × ((create_invitations lower hash_token 7 5 100 items empty).0.skipped ≡ "a@x" ∷ [])
unfolding create_invitations is_active_member_email
sent_test = (refl, refl)

create_invitations-HasOnePending_example :
    HasOnePending lower hash_token
      (create_invitations lower hash_token 7 5 100 items empty).1.invitations
create_invitations-HasOnePending_example =
    create_invitations-HasOnePending lower hash_token 7 5 100 items empty (λ s e. omega arith)

accept_invitation_lem_example :
    ((other : Member) (later id : ℕ)
      → accept_invitation lower hash_token other 1 later id joined ≡ (err token_invalid, joined))
    × ((i : Invitation) × (first (has_token lower hash_token 1) sent.invitations ≡ some i)
        × (is_pending i.status ≡ true)
        × (same_email lower hash_token guest.email i.email ≡ true)
        × (is_membership lower hash_token 8 i.startup_id membership ≡ true)
        × (count (is_membership lower hash_token 8 i.startup_id) sent.memberships ≤ 1
            → count (is_membership lower hash_token 8 i.startup_id) joined.memberships ≡ 1)
        × ((existing : Membership)
            → first (is_membership lower hash_token 8 i.startup_id) sent.memberships ≡ some existing
            → (membership ≡ existing) × (joined.memberships ≡ sent.memberships)))
unfolding accept_invitation create_invitations is_active_member_email
accept_invitation_lem_example =
    accept_invitation_lem lower hash_token guest 1 200 41 sent joined membership refl

abbrev first_invitation : Invitation
first_invitation = record {
  id = 31;
  startup_id = 7;
  email = "a@x";
  role = MembershipRole.mentor;
  token_hash = 1001;
  status = InvitationStatus.pending;
  invited_by = 5;
  expires_at = 100 + 14 * 86400;
  accepted_at = none;
  accepted_user_id = none;
}

expired_invitation_blocks_example :
    ((user : Member) (new_id : ℕ)
      → accept_invitation lower hash_token user 1 1500000 new_id sent ≡ (err token_invalid, sent))
    × ((create_invitations lower hash_token 7 5 1500000 (item "a@x" 9 39 ∷ []) sent).0
        ≡ record { rows = []; mails = []; events = []; created = []; skipped = "a@x" ∷ [] })
    × ((create_invitations lower hash_token 7 5 1500000 (item "a@x" 9 39 ∷ []) sent).1 ≡ sent)
unfolding create_invitations is_active_member_email
expired_invitation_blocks_example =
    expired_invitation_blocks lower hash_token 7 5 1500000 (item "a@x" 9 39) 1 first_invitation sent
      refl refl refl
