-- ===== src/Tests/Handlers.antt =====
-- The monitor handlers and the member handlers on the sample deployment.
use upguardly_server.Base.{List, ◌≡◌, refl, [], ◌∷◌, some, ok, pos, ◌<ℤ◌, arith}
use upguardly_server.Models.Plan.{free, pro, limits_for_plan, effective_interval}
use upguardly_server.Models.Role.{admin, viewer, role_at_least, role_weight}
use upguardly_server.Models.Region.{
  normalize_regions, normalize_loop, at_least_one, valid_region, region_by_id, find_region, regions,
}
use upguardly_server.Models.Monitor.{set_defaults}
use upguardly_server.Models.Monitor.Validate.{
  validate_create, validate_update, validate_degraded_threshold, validate_repeat_alerts,
  validate_expiry_thresholds, validate_repeat_update,
}
use upguardly_server.Database.Monitors.{
  find_organization, find_subscription, find_member, get_monitor, find_accessible, may_access,
  is_member, updated_row, has_updates, owner_plan, new_row,
}
use upguardly_server.Database.Reconcile.Complies.{Complies}
use upguardly_server.Handlers.Bun.{bun_store, owner_plan-new_row}
use upguardly_server.Handlers.Limits.{
  plan_for_user, plan_for_org, org_owner, billing_owner, effective_plan,
}
use upguardly_server.Handlers.Regions.{
  validate_regions, all_available, Allowed, validate_regions-Allowed,
}
use upguardly_server.Handlers.Settings.{
  settings, threshold_arg, repeat_args, interval_arg, expiry_update,
}
use upguardly_server.Handlers.CreateMonitor.{
  Prepared, prepare_create, resolve_workspace, require_role,
}
use upguardly_server.Handlers.CreateMonitor.Granted.{prepare_create-effective_interval}
use upguardly_server.Handlers.UpdateMonitor.{
  prepare_update, require_monitor_write, scope_plan, update_settings, update_interval,
  update_threshold, update_repeats, update_expiry,
}
use upguardly_server.Handlers.UpdateMonitor.Complies.{prepare_update-Complies}
use upguardly_server.Handlers.Members.{MemberChange, set_role, take_out, change_members}
use upguardly_server.Handlers.Members.KeepsOwner.{change_members-keeps_owner}
use upguardly_server.Tests.Data.{
  db, deployment, acme, request, params, certificate_update, update, owned_row, owner_member,
}

abbrev prepared : Prepared
prepared = record { params = params; expiry = some certificate_update }

request-prepared : prepare_create (bun_store "m2" 20) deployment db "bob" acme request ≡ ok prepared
unfolding prepare_create set_defaults validate_create validate_degraded_threshold
    validate_repeat_alerts validate_expiry_thresholds resolve_workspace require_role role_at_least
    role_weight billing_owner org_owner find_organization plan_for_user effective_plan
    find_subscription limits_for_plan settings validate_regions all_available normalize_regions
    normalize_loop at_least_one valid_region region_by_id find_region regions threshold_arg
    repeat_args interval_arg expiry_update
request-prepared = refl

prepare_create-effective_interval_example :
    pos 30 <ℤ effective_interval (some (pos 60)) free (pos 30)
prepare_create-effective_interval_example =
    prepare_create-effective_interval (bun_store "m2" 20) deployment db "bob" acme request
      request-prepared free

update_prepared :
    prepare_update (bun_store "m2" 20) deployment db "bob" "m1" update ≡ ok (owned_row, update)
unfolding prepare_update has_updates validate_update validate_degraded_threshold
    validate_expiry_thresholds validate_repeat_update validate_repeat_alerts get_monitor
    find_accessible may_access is_member require_monitor_write find_member role_at_least role_weight
    scope_plan plan_for_org org_owner find_organization plan_for_user effective_plan
    find_subscription limits_for_plan update_settings update_interval update_threshold
    update_repeats update_expiry validate_regions all_available normalize_regions normalize_loop
    at_least_one valid_region region_by_id find_region regions
update_prepared = refl

owned-Complies :
    Complies (limits_for_plan (scope_plan (bun_store "m2" 20) db "bob" owned_row)) owned_row
unfolding scope_plan plan_for_org org_owner find_organization plan_for_user effective_plan
    find_subscription limits_for_plan
owned-Complies = ground arith

prepare_update-Complies_example :
    Complies
      (limits_for_plan (scope_plan (bun_store "m2" 20) db "bob" owned_row))
      (updated_row update owned_row)
prepare_update-Complies_example =
    prepare_update-Complies (bun_store "m2" 20) deployment db "bob" "m1" update update_prepared
      owned-Complies

validated :
    validate_regions ("ca-east" ∷ "us-west" ∷ []) ("us-west" ∷ "ca-east" ∷ []) (limits_for_plan pro)
    ≡ ok ("us-west" ∷ "ca-east" ∷ [])
unfolding validate_regions all_available normalize_regions normalize_loop at_least_one valid_region
    region_by_id find_region regions limits_for_plan
validated = refl

validate_regions-Allowed_example :
    Allowed
      ("ca-east" ∷ "us-west" ∷ [])
      ("us-west" ∷ "ca-east" ∷ [])
      (limits_for_plan pro)
      ("us-west" ∷ "ca-east" ∷ [])
validate_regions-Allowed_example =
    validate_regions-Allowed ("ca-east" ∷ "us-west" ∷ []) ("us-west" ∷ "ca-east" ∷ [])
      (limits_for_plan pro) validated

billed : billing_owner (bun_store "m2" 20) db "bob" "acme" ≡ ok "ann"
unfolding billing_owner org_owner find_organization
billed = refl

owner_plan-new_row_example :
    owner_plan db (new_row params "m2" 20) ≡ plan_for_user (bun_store "m2" 20) db "ann"
owner_plan-new_row_example = owner_plan-new_row db "m2" 20 params billed

ann_is_owner : find_member "acme" "ann" db.members ≡ some owner_member
unfolding find_member
ann_is_owner = refl

abbrev member_changes : List MemberChange
member_changes =
    set_role "ann" viewer ∷ set_role "bob" admin ∷ take_out "bob" "ann" ∷ take_out "bob" "bob" ∷ []

change_members-keeps_owner_example :
    find_member "acme" "ann" (change_members db "acme" member_changes).members ≡ some owner_member
change_members-keeps_owner_example =
    change_members-keeps_owner "acme" "ann" db member_changes ann_is_owner refl
