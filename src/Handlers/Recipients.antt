-- ===== src/Handlers/Recipients.antt =====
-- internal/api/handlers/alert_recipients.go and validateRecipientTarget of validation.go, on the
-- database tables.
pub mod Within
use upguardly_server.Base.{
  Bool, true, false, not, ◌&&◌, List, String, ℤ, pos, lez, eqz, Result, ok, err, ◌>>=◌, ◌>>◌,
  refuse,
}
use upguardly_server.Models.Plan.{AlertChannel, email, sms, unlimited}
use upguardly_server.Database.{Db, RecipientRow, StoreError, conflict, not_found}
use upguardly_server.Database.Recipients.{
  create_org_alert_recipient, list_org_alert_recipients, count_org_alert_recipients,
  delete_org_alert_recipient,
}
use upguardly_server.Handlers.{Refusal, Problem, because}
use upguardly_server.Handlers.Settings.{or_refuse}
use upguardly_server.Handlers.Targets.{e164, codes}
use upguardly_server.Handlers.Invitations.{org_limits}

-- `validateRecipientTarget`; `plain_address` tells that net/mail parses the text and gives it back.
unfoldable pub validate_recipient_target : (String → Bool) → AlertChannel → String → Bool
validate_recipient_target plain_address email target = plain_address target
validate_recipient_target plain_address sms target = e164 (codes target)
validate_recipient_target plain_address _ target = false

abbrev pub recipient_refusal : StoreError → Refusal
recipient_refusal conflict = because 409 Problem.duplicate_recipient
recipient_refusal _ = because 500 Problem.create_failed

-- `CreateOrgAlertRecipient`; the row has the id that is new.
unfoldable pub create_recipient :
    (String → Bool) → Db → RecipientRow → Result Refusal (Db × RecipientRow)
create_recipient plain_address db r =
    let max = (org_limits db r.organization_id).max_alert_recipients in
    (do
      refuse (not (validate_recipient_target plain_address r.channel r.target))
          (because 400 Problem.bad_alert_target)
      refuse (eqz max (pos 0)) (because 402 Problem.needs_enterprise)
      refuse
          (not (eqz max unlimited)
            && lez max (pos (count_org_alert_recipients db r.organization_id)))
          (because 402 Problem.recipients_full)
      or_refuse recipient_refusal (create_org_alert_recipient db r))

-- `ListOrgAlertRecipients`
unfoldable pub list_recipients : Db → String → List RecipientRow
list_recipients db org = list_org_alert_recipients db org

abbrev pub removal_refusal : StoreError → Refusal
removal_refusal not_found = because 404 Problem.not_found
removal_refusal _ = because 500 Problem.delete_failed

-- `DeleteOrgAlertRecipient`
unfoldable pub delete_recipient : Db → String → String → Result Refusal Db
delete_recipient db org id = or_refuse removal_refusal (delete_org_alert_recipient db org id)
