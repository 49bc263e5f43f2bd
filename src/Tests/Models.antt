-- ===== src/Tests/Models.antt =====
-- Region lists, create requests, and the quotas of the store.
use upguardly_server.Base.{
  false, ◌≡◌, refl, ◌↔◌, ◌⊎◌, true, List, [], ◌∷◌, ok, All, pos, String, ◌≤ℤ◌,
}
use upguardly_server.Models.Region.{
  normalize_regions, normalize_loop, at_least_one, valid_region, region_by_id, find_region, regions,
}
use upguardly_server.Models.Region.Normalize.{
  IsNormal, normalize_regions-IsNormal, normalize_regions_total,
}
use upguardly_server.Models.Monitor.Validate.{validate_create}
use upguardly_server.Models.Monitor.Bounds.{InBounds, validate_create_iff}
use upguardly_server.Models.Plan.{unlimited}
use upguardly_server.Database.{Db, MonitorRow, MemberRow, accepted}
use upguardly_server.Database.Monitors.{
  create_monitor, count_monitors_for_billing_owner, in_billing_scope, owns_organization, new_row,
  find_organization,
}
use upguardly_server.Database.Monitors.Quota.{Inserted, create_monitor-within}
use upguardly_server.Database.Members.{
  accept_invitation, find_open, check_seats, in_an_organization, new_member,
}
use upguardly_server.Database.Members.Seats.{seats_used, accept_invitation-within}
use upguardly_server.Base.{some, none}
use upguardly_server.Database.{update_where}
use upguardly_server.Database.Monitors.{
  delete_monitor, get_monitor, find_accessible, may_access, is_member, update_monitor, updated_row,
  has_updates, drop_region_status,
}
use upguardly_server.Database.Monitors.Access.{Deleted, delete_monitor-get, update_monitor-get}
use upguardly_server.Tests.Data.{
  update, db, params, request, owned_row, owner_member, plain_member, invitation,
}

abbrev asked : List String
asked = "us-west" ∷ "ca-east" ∷ "us-west" ∷ []

abbrev given : List String
given = "us-west" ∷ "ca-east" ∷ []

asked-given : normalize_regions asked ≡ ok given
unfolding normalize_regions normalize_loop at_least_one valid_region region_by_id find_region
    regions
asked-given = refl

normalize_regions-IsNormal_example : IsNormal asked given
normalize_regions-IsNormal_example = normalize_regions-IsNormal asked asked-given

asked_valid : All (λ r. valid_region r ≡ true) asked
unfolding valid_region region_by_id find_region regions
asked_valid = (refl, (refl, (refl, tt)))

normalize_regions_total_example : (out : List String) × (normalize_regions asked ≡ ok out)
normalize_regions_total_example = normalize_regions_total asked asked_valid (λ h. cc)

validate_create_iff_example : (validate_create request ≡ ok tt) ↔ InBounds request
validate_create_iff_example = validate_create_iff request

after_create : Db × MonitorRow
unfolding new_row
after_create =
    (record db { monitors = owned_row ∷ new_row params "m2" 20 ∷ [] }, new_row params "m2" 20)

created : create_monitor db params "m2" 20 ≡ ok after_create
unfolding create_monitor count_monitors_for_billing_owner in_billing_scope owns_organization
    after_create new_row
created = refl

create_monitor-within_example : Inserted db params "m2" 20 after_create
create_monitor-within_example = create_monitor-within db params "m2" 20 created

after_accept : Db × MemberRow
after_accept = (
  record db {
    members = owner_member ∷ plain_member ∷ new_member invitation "cy" ∷ [];
    invitations = record invitation { status = accepted } ∷ [];
  },
  new_member invitation "cy",
)

accepted_now : accept_invitation db "tok" "cy" (pos 3) 500 ≡ ok after_accept
unfolding accept_invitation find_open check_seats in_an_organization find_organization after_accept
accepted_now = refl

accept_invitation-within_example :
    (pos 3 ≡ unlimited)
    ⊎ (pos (seats_used after_accept.0 after_accept.1.organization_id 500) ≤ℤ pos 3)
accept_invitation-within_example = accept_invitation-within db "tok" "cy" (pos 3) 500 accepted_now

abbrev watched : Db
watched = record db {
  channel_settings =
      record { monitor_id = "m1"; notification_channel_id = "c1"; enabled = false } ∷ [];
  region_status = ("m1", "ca-east") ∷ ("m2", "us-west") ∷ [];
}

abbrev without_m1 : Db
without_m1 = record db {
  monitors = [];
  channel_settings = [];
  region_status = ("m2", "us-west") ∷ [];
}

deleted : delete_monitor watched "m1" "bob" ≡ ok without_m1
unfolding delete_monitor get_monitor find_accessible may_access is_member
deleted = refl

delete_monitor-get_example : Deleted watched "m1" "ann" "m2" without_m1
delete_monitor-get_example = delete_monitor-get watched "m1" "bob" "ann" "m2" deleted refl

abbrev after_update : Db × MonitorRow
after_update =
    let row = record owned_row {
      interval = some (pos 300);
      degraded_threshold_ms = none;
      repeat_alert_interval_secs = none;
      repeat_alert_max_count = none;
      regions = "us-west" ∷ [];
      updated_at = 60;
    } in
    (record db { monitors = row ∷ []; region_status = ("m1", "us-west") ∷ [] }, row)

updated : update_monitor db "m1" "bob" update 60 ≡ ok after_update
unfolding update_monitor get_monitor find_accessible may_access is_member updated_row has_updates
    update_where drop_region_status
updated = refl

update_monitor-get_example :
    (get_monitor after_update.0 "m1" "bob" ≡ ok after_update.1)
    × (get_monitor after_update.0 "m2" "ann" ≡ get_monitor db "m2" "ann")
update_monitor-get_example = update_monitor-get db "m1" "bob" "ann" "m2" update 60 updated refl
