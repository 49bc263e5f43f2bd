-- ===== src/Tests/Account.antt =====
-- Alert channels and invitations on the sample deployment.
use upguardly_server.Base.{
  ◌≡◌, refl, ap, true, false, List, [], ◌∷◌, none, some, Result, ok, arith, map, nat_eq, ◌=?◌,
  string_eq,
}
use upguardly_server.Models.Plan.{
  discord, limits_for_plan, channel_allowed, max_channels_for, same_channel,
  enterprise_channel_caps,
}
use upguardly_server.Models.Role.{admin, owner, role_at_least, role_weight}
use upguardly_server.Database.{Db, InvitationRow, MemberRow, pending, accepted, expired}
use upguardly_server.Database.Monitors.{
  find_organization, find_subscription, find_accessible, may_access, is_member, get_monitor,
  find_member,
}
use upguardly_server.Database.Channels.{
  list_notification_channels, create_notification_channel, key_taken, find_channel,
  get_notification_channel, list_monitor_channel_settings, upsert_monitor_channel_setting,
}
use upguardly_server.Database.Members.{
  accept_invitation, find_open, check_seats, in_an_organization, new_member,
  count_non_owner_members, count_pending_invitations, expire_invitation,
}
use upguardly_server.Database.Invitations.{
  insert_invitation, token_taken, find_token, get_invitation_by_token, list_invitations,
  list_organizations,
}
use upguardly_server.Handlers.{Workspace, Refusal}
use upguardly_server.Handlers.Limits.{plan_for_user, plan_for_org, org_owner, effective_plan}
use upguardly_server.Handlers.Targets.{validate_alert_target}
use upguardly_server.Handlers.UpdateMonitor.{require_monitor_write}
use upguardly_server.Handlers.Channels.{
  Accounts, CreateChannelRequest, add, change, create_channel, require_own_channels,
  workspace_channel_owner, check_channel_room,
}
use upguardly_server.Handlers.Channels.Added.{NoRoomOverrun}
use upguardly_server.Handlers.Channels.Change.{change-NoRoomOverrun}
use upguardly_server.Handlers.MonitorChannels.{
  MonitorChannelState, list_monitor_channels, monitor_channel_owner, override, channel_state,
  set_monitor_channel, change_setting,
}
use upguardly_server.Handlers.MonitorChannels.Overrides.{with_own, change_setting-list}
use upguardly_server.Handlers.Invitations.{
  Identity, InviteMemberRequest, accept, create_invitation, invite, supersede,
}
use upguardly_server.Handlers.Invitations.Seats.{TakesSeat, create_invitation-within}
use upguardly_server.Handlers.Invitations.Joined.{Entitled, accept-Entitled}
use upguardly_server.Handlers.Invitations.Welcome.{create_invitation-accept}
use upguardly_server.Tests.Data.{db, discord_row, owner_member, plain_member, invitation}

abbrev accounts : Accounts
accounts = record { email_of = λ user. some "ann@acme.example"; webhook_ok = λ url. true }

abbrev personal : Workspace
personal = record { org_id = ""; role = owner; explicit = false }

abbrev second_hook : CreateChannelRequest
second_hook = record { channel = discord; target = "https://discord.example/two"; enabled = none }

abbrev with_hook : Db
with_hook = record db {
  channels =
      discord_row
      ∷ record {
        id = "c2";
        user_id = "ann";
        channel = discord;
        target = "https://discord.example/two";
        enabled = true;
      }
      ∷ [];
}

hook_added : change accounts db personal "ann" (add "c2" second_hook) ≡ ok with_hook
unfolding change create_channel require_own_channels workspace_channel_owner validate_alert_target
    channel_allowed plan_for_user find_subscription effective_plan limits_for_plan
    enterprise_channel_caps check_channel_room max_channels_for list_notification_channels
    same_channel create_notification_channel key_taken
hook_added = refl

change-NoRoomOverrun_example : NoRoomOverrun db "ann" with_hook
change-NoRoomOverrun_example =
    change-NoRoomOverrun accounts db personal "ann" (add "c2" second_hook) refl (refl, tt)
      hook_added

abbrev before : List MonitorChannelState
before = record { channel = discord_row; overridden = false; effective_enabled = true } ∷ []

shown_before : list_monitor_channels db "m1" "bob" ≡ ok before
unfolding list_monitor_channels monitor_channel_owner get_monitor find_accessible may_access
    is_member find_organization list_monitor_channel_settings list_notification_channels
    channel_state override
shown_before = refl

abbrev muted : Db
muted = record db {
  channel_settings =
      record { monitor_id = "m1"; notification_channel_id = "c1"; enabled = false } ∷ [];
}

muted_now : change_setting db "m1" "bob" "c1" (some false) ≡ ok muted
unfolding change_setting set_monitor_channel monitor_channel_owner get_monitor find_accessible
    may_access is_member find_organization require_monitor_write find_member role_at_least
    role_weight get_notification_channel find_channel upsert_monitor_channel_setting
muted_now = refl

change_setting-list_example :
    list_monitor_channels muted "m1" "bob" ≡ ok (map (with_own "c1" (some false)) before)
change_setting-list_example =
    change_setting-list db "m1" "bob" "c1" (some false) shown_before muted_now

abbrev who : Identity
who = record {
  normalize = λ address. address;
  same_folded = λ a b. a =? b;
  same_address = λ a b. a =? b;
  hash_token = λ raw_token. raw_token;
  email_of = λ user. some "cy@acme.example";
}

abbrev offer : InviteMemberRequest
offer = record { email = "cy@acme.example"; role = admin }

-- At this time the invitation of the sample has lapsed.
abbrev offered : InvitationRow
offered = record {
  id = "i2";
  organization_id = "acme";
  email = "cy@acme.example";
  role = admin;
  token = "tok2";
  status = pending;
  invited_by = "ann";
  expires_at = 606800;
}

abbrev with_offer : Db
with_offer = record db { invitations = record invitation { status = expired } ∷ offered ∷ [] }

offer_made :
    create_invitation who db "acme" "ann" "i2" offer (some "tok2") 2000 ≡ (with_offer, ok offered)
unfolding create_invitation invite supersede list_invitations expire_invitation plan_for_org
    org_owner plan_for_user find_organization find_subscription effective_plan limits_for_plan
    count_non_owner_members count_pending_invitations insert_invitation token_taken
offer_made = refl

offer_accepted :
    (create_invitation who db "acme" "ann" "i2" offer (some "tok2") 2000).1 ≡ ok offered
offer_accepted = ap (λ (o : Db × Result Refusal InvitationRow). o.1) offer_made

create_invitation-within_example :
    TakesSeat who "acme" "ann" "i2" offer
      (some "tok2")
      2000
      db
      ((create_invitation who db "acme" "ann" "i2" offer (some "tok2") 2000).0, offered)
create_invitation-within_example =
    create_invitation-within who "acme" "ann" "i2" offer (some "tok2") 2000 db (refl, tt)
      offer_accepted

alone : in_an_organization "cy" db.members ≡ false
unfolding in_an_organization
alone = refl

create_invitation-accept_example :
    (out : Db × MemberRow) × (accept who
        (create_invitation who db "acme" "ann" "i2" offer (some "tok2") 2000).0
        "cy"
        "tok2"
        3000
      ≡ ok out)
    × (out.1 ≡ record { organization_id = "acme"; user_id = "cy"; role = admin })
create_invitation-accept_example =
    create_invitation-accept who "acme" "ann" "i2" "cy" "tok2" offer 2000 3000 db offer_accepted
      (omega arith) (omega arith) refl refl alone

abbrev after_accept : Db × MemberRow
after_accept = (
  record with_offer {
    members = owner_member ∷ plain_member ∷ new_member offered "cy" ∷ [];
    invitations =
        record invitation { status = expired } ∷ record offered { status = accepted } ∷ [];
  },
  new_member offered "cy",
)

joined_now : accept who with_offer "cy" "tok2" 3000 ≡ ok after_accept
unfolding accept get_invitation_by_token find_token list_organizations is_member plan_for_org
    org_owner plan_for_user find_organization find_subscription effective_plan limits_for_plan
    accept_invitation find_open check_seats in_an_organization
joined_now = refl

accept-Entitled_example : Entitled who with_offer "cy" "tok2" 3000 after_accept
accept-Entitled_example =
    accept-Entitled who with_offer "cy" "tok2" 3000 (refl, (refl, tt)) joined_now
