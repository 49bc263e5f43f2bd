-- ===== src/Database/Invitations.antt =====
-- internal/database/bun/store.go: the invitations table behind the invitation handlers. Tokens are
-- unique, and new rows come last.
use mathlib.Core.List.{reverse}
use upguardly_server.Base.{
  Bool, false, ◌||◌, List, [], ◌∷◌, ◌++◌, Option, none, some, String, Result, ok, ◌>>◌, refuse,
  if◌then◌else◌, ◌=?◌, string_eq, filter,
}
use upguardly_server.Database.{InvitationRow, OrganizationRow, Db, StoreError, conflict}
use upguardly_server.Database.Monitors.{or_not_found, is_member}

unfoldable pub token_taken : String → List InvitationRow → Bool
token_taken token [] = false
token_taken token (i ∷ is) = i.token =? token || token_taken token is

-- `CreateInvitation`
unfoldable pub insert_invitation : Db → InvitationRow → Result StoreError (Db × InvitationRow)
insert_invitation db row = do
  refuse (token_taken row.token db.invitations) conflict
  ok (record db { invitations = db.invitations ++ row ∷ [] }, row)

unfoldable pub find_token : String → List InvitationRow → Option InvitationRow
find_token token [] = none
find_token token (i ∷ is) = if i.token =? token then some i else find_token token is

unfoldable pub get_invitation_by_token : Db → String → Result StoreError InvitationRow
get_invitation_by_token db token = or_not_found (find_token token db.invitations)

unfoldable pub find_invitation : String → List InvitationRow → Option InvitationRow
find_invitation id [] = none
find_invitation id (i ∷ is) = if i.id =? id then some i else find_invitation id is

unfoldable pub get_invitation_by_id : Db → String → Result StoreError InvitationRow
get_invitation_by_id db id = or_not_found (find_invitation id db.invitations)

-- `ListInvitations`, the newest first.
unfoldable pub list_invitations : Db → String → List InvitationRow
list_invitations db org = reverse (filter (λ i. i.organization_id =? org) db.invitations)

-- `ListOrganizations`
unfoldable pub list_organizations : Db → String → List OrganizationRow
list_organizations db user = filter (λ o. is_member o.id user db.members) db.organizations
