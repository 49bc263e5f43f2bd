-- ===== src/Tests/Data.antt =====
-- A small deployment: an ENTERPRISE owner with an organization, and a member of it.
use upguardly_server.Base.{true, false, [], ◌∷◌, none, some, pos}
use upguardly_server.Models.Plan.{enterprise, discord}
use upguardly_server.Models.Role.{owner, member}
use upguardly_server.Models.Monitor.{
  http, CreateMonitorRequest, CreateMonitorParams, UpdateMonitorRequest,
}
use upguardly_server.Database.{
  MonitorRow, MemberRow, SubscriptionRow, active, InvitationRow, pending, Db,
  NotificationChannelRow,
}
use upguardly_server.Handlers.{Deployment, Workspace}
use upguardly_server.Handlers.Settings.{no_update}

abbrev pub owned_row : MonitorRow
owned_row = record {
  id = "m1";
  user_id = "ann";
  org_id = some "acme";
  name = "site";
  type = http;
  target = "https://acme.example";
  interval = some (pos 120);
  timeout = pos 30;
  degraded_threshold_ms = some (pos 700);
  repeat_alert_interval_secs = some (pos 600);
  repeat_alert_max_count = some (pos 3);
  enabled = true;
  cert_check_enabled = true;
  cert_expiry_threshold_days = pos 14;
  domain_check_enabled = false;
  domain_expiry_threshold_days = pos 14;
  regions = "ca-east" ∷ "us-west" ∷ [];
  updated_at = 10;
}

abbrev pub paid_row : SubscriptionRow
paid_row = record {
  user_id = "ann";
  plan = enterprise;
  status = active;
  stripe_customer_id = some "cus_1";
  stripe_subscription_id = some "sub_1";
  stripe_price_id = some "price_ent";
  current_period_start = none;
  current_period_end = none;
  cancel_at_period_end = false;
}

abbrev pub owner_member : MemberRow
owner_member = record { organization_id = "acme"; user_id = "ann"; role = owner }

abbrev pub plain_member : MemberRow
plain_member = record { organization_id = "acme"; user_id = "bob"; role = member }

abbrev pub invitation : InvitationRow
invitation = record {
  id = "i1";
  organization_id = "acme";
  email = "cy@acme.example";
  role = member;
  token = "tok";
  status = pending;
  invited_by = "ann";
  expires_at = 1000;
}

abbrev pub discord_row : NotificationChannelRow
discord_row = record {
  id = "c1";
  user_id = "ann";
  channel = discord;
  target = "https://discord.example/hook";
  enabled = true;
}

abbrev pub db : Db
db = record {
  monitors = owned_row ∷ [];
  organizations = record { id = "acme"; name = "Acme"; owner_id = "ann" } ∷ [];
  members = owner_member ∷ plain_member ∷ [];
  subscriptions = paid_row ∷ [];
  invitations = invitation ∷ [];
  channels = discord_row ∷ [];
  channel_settings = [];
  recipients = [];
  region_status = ("m1", "ca-east") ∷ ("m1", "us-west") ∷ [];
}

abbrev pub deployment : Deployment
deployment = record {
  available_regions = "ca-east" ∷ "us-west" ∷ [];
  target_allowed = λ target type. true;
}

abbrev pub acme : Workspace
acme = record { org_id = "acme"; role = member; explicit = true }

abbrev pub request : CreateMonitorRequest
request = record {
  org_id = "";
  name = "api";
  type = http;
  target = "https://api.acme.example";
  interval = pos 60;
  timeout = pos 0;
  enabled = none;
  degraded_threshold_ms = some (pos 800);
  repeat_alert_interval_secs = some (pos 300);
  repeat_alert_max_count = some (pos 10);
  cert_check_enabled = some true;
  cert_expiry_threshold_days = some (pos 30);
  domain_check_enabled = none;
  domain_expiry_threshold_days = none;
  regions = "us-west" ∷ "ca-east" ∷ "us-west" ∷ [];
}

abbrev pub params : CreateMonitorParams
params = record {
  user_id = "bob";
  org_id = "acme";
  billing_owner_id = "ann";
  max_monitors = pos 200;
  name = "api";
  type = http;
  target = "https://api.acme.example";
  interval = some (pos 60);
  timeout = pos 30;
  degraded_threshold_ms = some (pos 800);
  repeat_alert_interval_secs = some (pos 300);
  repeat_alert_max_count = some (pos 10);
  enabled = true;
  regions = "us-west" ∷ "ca-east" ∷ [];
}

abbrev pub certificate_update : UpdateMonitorRequest
certificate_update = record no_update {
  cert_check_enabled = some true;
  cert_expiry_threshold_days = some (pos 30);
}

abbrev pub update : UpdateMonitorRequest
update = record no_update {
  interval = some (pos 300);
  degraded_threshold_ms = some (pos 0);
  repeat_alert_interval_secs = some (pos 0);
  regions = some ("us-west" ∷ []);
}
