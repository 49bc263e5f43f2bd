-- ===== src/Database/Members.antt =====
-- internal/database/bun/store.go: the members and the invitations of an organization. A user is in
-- one organization at most (the unique index on organization_members.user_id).
pub mod Seats
use upguardly_server.Base.{
  ℕ, ◌+◌, ◌≡◌, Bool, true, false, not, ◌&&◌, ◌||◌, List, [], ◌∷◌, ◌++◌, Option, none, some, String,
  ℤ, pos, eqz, lez, Result, ok, err, ◌>>=◌, ◌>>◌, refuse, if◌then◌else◌, ◌=?◌, string_eq, length,
  filter, ltb, map,
}
use upguardly_server.Models.Plan.{unlimited}
use upguardly_server.Models.Role.{OrgRole, owner}
use upguardly_server.Database.{
  MemberRow, InvitationRow, InvitationStatus, pending, accepted, revoked, expired, OrganizationRow,
  Db, StoreError, not_found, conflict, seat_limit,
}
use upguardly_server.Database.Monitors.{find_member, find_organization}

abbrev pub is_owner : OrgRole → Bool
is_owner owner = true
is_owner _ = false

-- `organization_id = ? AND role <> 'OWNER'`
abbrev pub holds_seat : String → MemberRow → Bool
holds_seat org m = m.organization_id =? org && not (is_owner m.role)

unfoldable pub count_non_owner_members : Db → String → ℕ
count_non_owner_members db org = length (filter (holds_seat org) db.members)

abbrev pub is_pending : InvitationStatus → Bool
is_pending pending = true
is_pending _ = false

-- `organization_id = ? AND status = 'PENDING' AND expires_at > now()`
abbrev pub open_for : String → ℕ → InvitationRow → Bool
open_for org now i = i.organization_id =? org && (is_pending i.status && ltb now i.expires_at)

unfoldable pub count_pending_invitations : Db → String → ℕ → ℕ
count_pending_invitations db org now = length (filter (open_for org now) db.invitations)

abbrev pub is_row : String → String → MemberRow → Bool
is_row org user m = m.organization_id =? org && m.user_id =? user

abbrev pub member_or_missing : Option MemberRow → Result StoreError MemberRow
member_or_missing none = err not_found
member_or_missing (some m) = ok m

-- `UpdateMemberRole`
unfoldable pub update_member_role :
    Db → String → String → OrgRole → Result StoreError (Db × MemberRow)
update_member_role db org user role = do
  m ← member_or_missing (find_member org user db.members)
  ok (
    record db {
      members =
          map (λ old. if is_row org user old then record old { role = role } else old) db.members;
    },
    record m { role = role },
  )

-- `RemoveMember`
unfoldable pub remove_member : Db → String → String → Result StoreError Db
remove_member db org user = do
  _ ← member_or_missing (find_member org user db.members)
  ok (record db { members = filter (λ m. not (is_row org user m)) db.members })

-- `token = ? AND status = 'PENDING' AND expires_at > now()`
unfoldable pub find_open : String → ℕ → List InvitationRow → Option InvitationRow
find_open token now [] = none
find_open token now (i ∷ is) =
    if i.token =? token && (is_pending i.status && ltb now i.expires_at)
    then some i
    else find_open token now is

abbrev pub or_missing : Option InvitationRow → Result StoreError InvitationRow
or_missing none = err not_found
or_missing (some i) = ok i

-- The seats in use, the invitation that is converted aside.
abbrev pub seats_without : Db → InvitationRow → ℕ → ℕ
seats_without db inv now =
    length (filter (holds_seat inv.organization_id) db.members)
    + length
        (filter (λ i. open_for inv.organization_id now i && not (i.id =? inv.id)) db.invitations)

abbrev has_row : Option OrganizationRow → Bool
has_row none = false
has_row (some o) = true

unfoldable pub check_seats : Db → InvitationRow → ℤ → ℕ → Result StoreError (Unit {0})
check_seats db inv max now = if eqz max unlimited then ok tt else (do
  refuse (not (has_row (find_organization inv.organization_id db.organizations))) not_found
  refuse (lez max (pos (seats_without db inv now))) seat_limit)

unfoldable pub in_an_organization : String → List MemberRow → Bool
in_an_organization user [] = false
in_an_organization user (m ∷ ms) = m.user_id =? user || in_an_organization user ms

abbrev pub set_status :
    InvitationStatus → (InvitationRow → Bool) → List InvitationRow → List InvitationRow
set_status status p is = map (λ i. if p i then record i { status = status } else i) is

abbrev pub new_member : InvitationRow → String → MemberRow
new_member inv user = record {
  organization_id = inv.organization_id;
  user_id = user;
  role = inv.role;
}

-- `AcceptInvitation`, one transaction.
unfoldable pub accept_invitation : Db → String → String → ℤ → ℕ → Result StoreError (Db × MemberRow)
accept_invitation db token user max now = do
  inv ← or_missing (find_open token now db.invitations)
  check_seats db inv max now
  refuse (in_an_organization user db.members) conflict
  let m = new_member inv user
  ok (
    record db {
      members = db.members ++ m ∷ [];
      invitations = set_status accepted (λ i. i.id =? inv.id) db.invitations;
    },
    m,
  )

-- `RevokeInvitation`, once the row is found.
unfoldable pub revoke_invitation : Db → String → Db
revoke_invitation db id = record db {
  invitations = set_status revoked (λ i. i.id =? id && is_pending i.status) db.invitations;
}

-- `ExpireInvitation`
unfoldable pub expire_invitation : Db → String → Db
expire_invitation db id = record db {
  invitations = set_status expired (λ i. i.id =? id && is_pending i.status) db.invitations;
}
