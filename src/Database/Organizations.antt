-- ===== src/Database/Organizations.antt =====
-- internal/database/bun/store.go: the statements on organizations, with the unique indices of the
-- tables and what the foreign keys do when an organization goes.
use upguardly_server.Base.{
  Bool, false, not, ◌&&◌, ◌||◌, List, [], ◌∷◌, ◌++◌, Option, none, some, String, Result, ok, err,
  ◌>>=◌, ◌>>◌, refuse, if◌then◌else◌, ◌=?◌, string_eq, filter, map,
}
use upguardly_server.Models.Role.{owner}
use upguardly_server.Database.{
  Db, OrganizationRow, MemberRow, MonitorRow, StoreError, not_found, conflict,
}
use upguardly_server.Database.Monitors.{find_organization, or_not_found}
use upguardly_server.Database.Members.{in_an_organization}

-- A row with the name and another id.
unfoldable pub name_held : String → String → List OrganizationRow → Bool
name_held id name [] = false
name_held id name (o ∷ os) = (o.name =? name && not (o.id =? id)) || name_held id name os

unfoldable pub id_held : String → List OrganizationRow → Bool
id_held id [] = false
id_held id (o ∷ os) = o.id =? id || id_held id os

abbrev pub new_organization : String → String → String → OrganizationRow
new_organization id name user = record { id = id; name = name; owner_id = user }

abbrev pub owner_row : String → String → MemberRow
owner_row org user = record { organization_id = org; user_id = user; role = owner }

-- `CreateOrganization`, one transaction; `id` is the new UUID.
unfoldable pub create_organization :
    Db → String → String → String → Result StoreError (Db × OrganizationRow)
create_organization db user name id = do
  refuse (id_held id db.organizations || name_held id name db.organizations) conflict
  refuse (in_an_organization user db.members) conflict
  ok (
    record db {
      organizations = db.organizations ++ new_organization id name user ∷ [];
      members = db.members ++ owner_row id user ∷ [];
    },
    new_organization id name user,
  )

abbrev pub new_name : Option String → Result StoreError String
new_name none = err not_found
new_name (some name) = ok name

abbrev pub renamed : String → String → OrganizationRow → OrganizationRow
renamed id name o = if o.id =? id then record o { name = name } else o

-- `UpdateOrganization`
unfoldable pub update_organization :
    Db → String → Option String → Result StoreError (Db × OrganizationRow)
update_organization db id name = do
  wanted ← new_name name
  o ← or_not_found (find_organization id db.organizations)
  refuse (name_held id wanted db.organizations) conflict
  ok (
    record db { organizations = map (renamed id wanted) db.organizations },
    record o { name = wanted },
  )

abbrev pub is_org : String → Option String → Bool
is_org id none = false
is_org id (some org) = org =? id

-- `monitors.org_id` is set to NULL.
abbrev pub released : String → MonitorRow → MonitorRow
released id m = if is_org id m.org_id then record m { org_id = none } else m

-- `DeleteOrganization`: its members, invitations and recipients go with it.
unfoldable pub delete_organization : Db → String → Result StoreError Db
delete_organization db id = do
  _ ← or_not_found (find_organization id db.organizations)
  ok (record db {
    organizations = filter (λ o. not (o.id =? id)) db.organizations;
    members = filter (λ m. not (m.organization_id =? id)) db.members;
    invitations = filter (λ i. not (i.organization_id =? id)) db.invitations;
    recipients = filter (λ r. not (r.organization_id =? id)) db.recipients;
    monitors = map (released id) db.monitors;
  })

-- `ListMembers`; `ORDER BY created_at` is the order of the table.
unfoldable pub list_members : Db → String → List MemberRow
list_members db org = filter (λ m. m.organization_id =? org) db.members
