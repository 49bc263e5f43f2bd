-- ===== src/Handlers/Limits.antt =====
-- internal/api/handlers/limits.go: whose plan governs what.
use upguardly_server.Base.{
  Option, none, some, String, Result, ok, err, ◌>>=◌, if◌then◌else◌, ◌=?◌, string_eq,
}
use upguardly_server.Models.Plan.{Plan, free}
use upguardly_server.Database.{
  OrganizationRow, SubscriptionRow, SubscriptionStatus, canceled, StoreError, not_found,
}
use upguardly_server.Handlers.{Store}

abbrev pub plan_under : SubscriptionStatus → Plan → Plan
plan_under canceled plan = free
plan_under _ plan = plan

-- `nil` is a user with no subscription record.
unfoldable pub effective_plan : Option SubscriptionRow → Plan
effective_plan none = free
effective_plan (some sub) = plan_under sub.status sub.plan

module _ (store : Store) where
  unfoldable pub plan_for_user : store.State → String → Plan
  plan_for_user st user = elim (store.get_subscription_by_user st user) [
    | ok sub ↦ effective_plan (some sub)
    | err e ↦ free
  ]

  abbrev owner_or_missing : Option OrganizationRow → Result StoreError String
  owner_or_missing none = err not_found
  owner_or_missing (some org) = ok org.owner_id

  unfoldable pub org_owner : store.State → String → Result StoreError String
  org_owner st org_id = store.get_organization st org_id >>= owner_or_missing

  unfoldable pub billing_owner : store.State → String → String → Result StoreError String
  unfolding org_owner
  billing_owner st user org_id = if org_id =? "" then ok user else org_owner st org_id

  unfoldable pub plan_for_org : store.State → String → Plan
  unfolding org_owner plan_for_user
  plan_for_org st org_id = elim (org_owner st org_id) [
    | ok owner ↦ plan_for_user st owner
    | err e ↦ free
  ]
