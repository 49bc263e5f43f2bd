-- ===== src/Database/Recipients.antt =====
-- internal/database/bun/store.go: the alert recipients of an organization, whose key is the
-- organization, the channel and the target.
use upguardly_server.Base.{
  ℕ, Bool, false, not, ◌&&◌, ◌||◌, List, [], ◌∷◌, ◌++◌, String, Result, ok, ◌>>◌, refuse, ◌=?◌,
  string_eq, length, filter,
}
use upguardly_server.Models.Plan.{same_channel}
use upguardly_server.Database.{Db, RecipientRow, StoreError, not_found, conflict}

unfoldable pub recipient_held : RecipientRow → List RecipientRow → Bool
recipient_held r [] = false
recipient_held r (x ∷ xs) =
    (x.organization_id =? r.organization_id
      && (same_channel x.channel r.channel && x.target =? r.target))
    || recipient_held r xs

-- `CreateOrgAlertRecipient`
unfoldable pub create_org_alert_recipient :
    Db → RecipientRow → Result StoreError (Db × RecipientRow)
create_org_alert_recipient db r = do
  refuse (recipient_held r db.recipients) conflict
  ok (record db { recipients = db.recipients ++ r ∷ [] }, r)

-- `ListOrgAlertRecipients`
unfoldable pub list_org_alert_recipients : Db → String → List RecipientRow
list_org_alert_recipients db org = filter (λ r. r.organization_id =? org) db.recipients

-- `CountOrgAlertRecipients`
unfoldable pub count_org_alert_recipients : Db → String → ℕ
count_org_alert_recipients db org = length (filter (λ r. r.organization_id =? org) db.recipients)

abbrev pub is_recipient : String → String → RecipientRow → Bool
is_recipient org id r = r.id =? id && r.organization_id =? org

unfoldable pub has_recipient : String → String → List RecipientRow → Bool
has_recipient org id [] = false
has_recipient org id (r ∷ rs) = is_recipient org id r || has_recipient org id rs

-- `DeleteOrgAlertRecipient`
unfoldable pub delete_org_alert_recipient : Db → String → String → Result StoreError Db
delete_org_alert_recipient db org id = do
  refuse (not (has_recipient org id db.recipients)) not_found
  ok (record db { recipients = filter (λ r. not (is_recipient org id r)) db.recipients })
