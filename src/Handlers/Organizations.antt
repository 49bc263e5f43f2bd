-- ===== src/Handlers/Organizations.antt =====
-- internal/api/handlers/organizations.go, on the database tables. The routes of one organization come
-- after the role check of internal/api/middleware/org_auth.go.
pub mod Founded
pub mod Kept
pub mod Requests
pub mod Accepted
pub mod Invited
pub mod History
use upguardly_server.Base.{
  ℕ, ◌+◌, Bool, true, false, not, List, Option, none, some, String, ℤ, Result, ok, err, ◌>>=◌, ◌>>◌,
  refuse, is_some,
}
use upguardly_server.Models.Plan.{Plan, enterprise}
use upguardly_server.Database.{Db, OrganizationRow, StoreError, conflict, not_found}
use upguardly_server.Database.Monitors.{find_organization}
use upguardly_server.Database.Members.{count_non_owner_members, count_pending_invitations}
use upguardly_server.Database.Invitations.{list_organizations}
use upguardly_server.Database.Organizations.{
  create_organization, update_organization, delete_organization,
}
use upguardly_server.Database.Recipients.{count_org_alert_recipients}
use upguardly_server.Handlers.{Refusal, Problem, because}
use upguardly_server.Handlers.Limits.{plan_for_user}
use upguardly_server.Handlers.Bun.{bun_store}
use upguardly_server.Handlers.Settings.{or_refuse}
use upguardly_server.Handlers.Invitations.{first_some, org_limits, org_or_404}

abbrev pub is_enterprise : Plan → Bool
is_enterprise enterprise = true
is_enterprise _ = false

abbrev pub create_refusal : StoreError → Refusal
create_refusal conflict = because 409 Problem.name_taken
create_refusal _ = because 500 Problem.create_failed

-- `CreateOrg`
unfoldable pub create_org : Db → String → String → String → Result Refusal (Db × OrganizationRow)
create_org db user name id = do
  refuse (not (is_enterprise (plan_for_user (bun_store "" 0) db user)))
      (because 402 Problem.needs_enterprise)
  refuse (first_some (list_organizations db user)) (because 409 Problem.already_in_organization)
  or_refuse create_refusal (create_organization db user name id)

-- `ListOrgs`
unfoldable pub list_orgs : Db → String → List OrganizationRow
list_orgs db user = list_organizations db user

-- `OrgWithSeats`
pub record OrgWithSeats : Type 0 where
  pub organization : OrganizationRow
  pub login_seats_used : ℕ
  pub max_login_seats : ℤ
  pub alert_recipients_used : ℕ
  pub max_alert_recipients : ℤ

-- `GetOrg`
unfoldable pub get_org : Db → String → ℕ → Result Refusal OrgWithSeats
get_org db org now = do
  o ← org_or_404 (find_organization org db.organizations)
  ok (record {
    organization = o;
    login_seats_used = count_non_owner_members db org + count_pending_invitations db org now;
    max_login_seats = (org_limits db org).max_login_seats;
    alert_recipients_used = count_org_alert_recipients db org;
    max_alert_recipients = (org_limits db org).max_alert_recipients;
  })

abbrev pub rename_refusal : StoreError → Refusal
rename_refusal not_found = because 404 Problem.not_found
rename_refusal _ = because 500 Problem.update_failed

-- `UpdateOrg`
unfoldable pub update_org : Db → String → Option String → Result Refusal (Db × OrganizationRow)
update_org db org name = do
  refuse (not (is_some name)) (because 400 Problem.no_fields)
  or_refuse rename_refusal (update_organization db org name)

-- `DeleteOrg`
unfoldable pub delete_org : Db → String → Result Refusal Db
delete_org db org = or_refuse (λ e. because 500 Problem.delete_failed) (delete_organization db org)
