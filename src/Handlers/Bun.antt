-- ===== src/Handlers/Bun.antt =====
-- The store that the handlers run on: internal/database/bun behind the Store interface. The id of a
-- new row and the clock are those of the call.
use upguardly_server.Base.{
  ℕ, ◌≡◌, refl, ap, ◌∙◌, Option, none, some, String, Result, ok, err, arith, string_eq,
}
use text.Mathlib.TextEquality.{eq_iff}
use upguardly_server.Models.Plan.{Plan, free}
use upguardly_server.Models.Role.{OrgRole}
use upguardly_server.Models.Monitor.{CreateMonitorParams}
use upguardly_server.Database.{Db, MonitorRow, MemberRow, SubscriptionRow, StoreError, not_found}
use upguardly_server.Database.Monitors.{
  find_organization, find_subscription, find_member, or_not_found, get_monitor, create_monitor,
  update_monitor, owner_plan, plan_subject, entitled_plan, plan_of_row, new_row,
}
use upguardly_server.Handlers.{Store}
use upguardly_server.Handlers.Limits.{plan_for_user, billing_owner, org_owner, effective_plan}

abbrev role_of_member : Option MemberRow → Option OrgRole
role_of_member none = none
role_of_member (some m) = some m.role

abbrev found : Result StoreError MonitorRow → Result StoreError (Option MonitorRow)
found (ok m) = ok (some m)
found (err not_found) = ok none
found (err e) = err e

-- `GetSubscriptionByUser`, `GetOrganization`, `GetMembership`, and the statements on monitors.
abbrev pub bun_store : String → ℕ → Store
bun_store id now = record {
  State = Db;
  get_subscription_by_user = λ db user. or_not_found (find_subscription user db.subscriptions);
  get_organization = λ db org. ok (find_organization org db.organizations);
  get_membership = λ db org user. ok (role_of_member (find_member org user db.members));
  get_monitor = λ db id user. found (get_monitor db id user);
  create_monitor = λ db p. create_monitor db p id now;
  update_monitor = λ db id user r. update_monitor db id user r now;
}

found_plan : Result StoreError SubscriptionRow → Plan
found_plan (ok s) = effective_plan (some s)
found_plan (err e) = free

plan_of_row-effective : (o : Option SubscriptionRow) → plan_of_row o ≡ found_plan (or_not_found o)
unfolding found_plan entitled_plan effective_plan
plan_of_row-effective none = refl
plan_of_row-effective (some s) = ground arith

module _ (db : Db) (id : String) (now : ℕ) where
  -- The plan of a subject, in SQL and in Go.
  plan_for_user_lem :
      (m : MonitorRow) → owner_plan db m ≡ plan_for_user (bun_store id now) db (plan_subject db m)
  unfolding owner_plan plan_for_user found_plan
  plan_for_user_lem m =
      plan_of_row-effective (find_subscription (plan_subject db m) db.subscriptions)

  subject_lem :
      (p : CreateMonitorParams)
      → billing_owner (bun_store id now) db p.user_id p.org_id ≡ ok p.billing_owner_id
      → plan_subject db (new_row p id now) ≡ p.billing_owner_id
  unfolding plan_subject new_row billing_owner org_owner
  subject_lem p h = ground (arith, eq_iff p.org_id "")

  -- The plan that the database resolves for a new row is the plan of the user whom the handler found
  -- to pay for it.
  pub owner_plan-new_row :
      (p : CreateMonitorParams)
      → billing_owner (bun_store id now) db p.user_id p.org_id ≡ ok p.billing_owner_id
      → owner_plan db (new_row p id now) ≡ plan_for_user (bun_store id now) db p.billing_owner_id
  owner_plan-new_row p h =
      plan_for_user_lem (new_row p id now)
      ∙ ap (plan_for_user (bun_store id now) db) (subject_lem p h)
