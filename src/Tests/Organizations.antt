-- ===== src/Tests/Organizations.antt =====
-- Organizations and their alert recipients on the sample deployment.
use upguardly_server.Base.{◌≡◌, ◌⊎◌, refl, true, List, [], ◌∷◌, ◌++◌, some, pos, ◌≤ℤ◌, ok}
use upguardly_server.Models.Plan.{sms, unlimited, limits_for_plan}
use upguardly_server.Models.Role.{admin}
use upguardly_server.Database.{Db, RecipientRow}
use upguardly_server.Database.Monitors.{find_organization, find_subscription}
use upguardly_server.Database.Recipients.{
  create_org_alert_recipient, count_org_alert_recipients, recipient_held,
}
use upguardly_server.Handlers.Limits.{plan_for_user, plan_for_org, org_owner, effective_plan}
use upguardly_server.Handlers.Targets.{e164}
use upguardly_server.Handlers.Invitations.{Identity, org_limits}
use upguardly_server.Handlers.Members.{set_role, take_out}
use upguardly_server.Handlers.Organizations.Requests.{
  AccountRequest, establish, rename, dissolve, invite_to, withdraw, join, members_of, serve_all,
  Orderly,
}
use upguardly_server.Handlers.Organizations.History.{serve_all-Orderly}
use upguardly_server.Handlers.Recipients.{create_recipient, validate_recipient_target}
use upguardly_server.Handlers.Recipients.Within.{create_recipient-within}
use upguardly_server.Tests.Data.{db}

abbrev who : Identity
who = record {
  normalize = λ s. s;
  same_folded = λ s t. true;
  same_address = λ s t. true;
  hash_token = λ s. s;
  email_of = λ user. some "cy@acme.example";
}

abbrev requests : List AccountRequest
requests =
    invite_to "acme" "ann" "i2" (record { email = "di@acme.example"; role = admin }) (some "tok2")
      20
    ∷ join "di" "tok2" 30
    ∷ members_of "acme" (take_out "bob" "ann")
    ∷ members_of "acme" (set_role "bob" admin)
    ∷ establish "eve" "Eve" "eve"
    ∷ rename "acme" (some "Acme II")
    ∷ withdraw "acme" "i1"
    ∷ dissolve "acme"
    ∷ []

sample-Orderly : Orderly db
sample-Orderly = ((refl, (refl, tt)), (refl, tt))

serve_all-Orderly_example : Orderly (serve_all who db requests)
serve_all-Orderly_example = serve_all-Orderly who db requests sample-Orderly

abbrev phone : RecipientRow
phone = record { id = "r1"; organization_id = "acme"; channel = sms; target = "+12125551234" }

abbrev with_phone : Db
with_phone = record db { recipients = phone ∷ [] }

phone_added : create_recipient (λ s. true) db phone ≡ ok (with_phone, phone)
unfolding create_recipient create_org_alert_recipient validate_recipient_target e164 plan_for_org
    org_owner find_organization plan_for_user find_subscription effective_plan limits_for_plan
    count_org_alert_recipients recipient_held
phone_added = refl

create_recipient-within_example :
    (with_phone.recipients ≡ db.recipients ++ phone ∷ [])
    × (((org_limits db "acme").max_alert_recipients ≡ unlimited)
        ⊎ (pos (count_org_alert_recipients with_phone "acme")
            ≤ℤ (org_limits db "acme").max_alert_recipients))
create_recipient-within_example = create_recipient-within (λ s. true) db phone phone_added
