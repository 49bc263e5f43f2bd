-- ===== src/Handlers/Recipients/Within.antt =====
-- The cap on the alert recipients of an organization (internal/api/handlers/alert_recipients.go).
use upguardly_server.Base.{
  ℕ, ◌+◌, ◌≡◌, ◌⊎◌, sym, ap, ◌∙◌, Bool, false, not, ◌&&◌, List, [], ◌∷◌, ◌++◌, String, pos, ℤ, eqz,
  lez, ◌≤ℤ◌, ok, past_guard, ok-injective, if◌then◌else◌, ◌=?◌, =?_refl, string_eq, length, filter,
  arith, inl, inr, Bool-cases, eq_of_parts,
}
use upguardly_server.Models.Plan.{unlimited}
use upguardly_server.Database.{Db, RecipientRow, conflict}
use upguardly_server.Database.Recipients.{
  create_org_alert_recipient, count_org_alert_recipients, recipient_held,
}
use upguardly_server.Handlers.{Problem, because}
use upguardly_server.Handlers.CreateMonitor.Granted.{or_refuse-eq-ok}
use upguardly_server.Handlers.Invitations.{org_limits}
use upguardly_server.Handlers.Recipients.{create_recipient, recipient_refusal}

counted-snoc :
    (org : String) (rs : List RecipientRow) (r : RecipientRow)
    → length (filter (λ x. x.organization_id =? org) (rs ++ r ∷ []))
      ≡ length (filter (λ x. x.organization_id =? org) rs)
        + (if r.organization_id =? org then 1 else 0)
counted-snoc org [] r = ground arith
counted-snoc org (x ∷ rs) r = ground (arith, counted-snoc org rs r)

one_more :
    (rs : List RecipientRow) (r : RecipientRow)
    → length (filter (λ x. x.organization_id =? r.organization_id) (rs ++ r ∷ []))
      ≡ length (filter (λ x. x.organization_id =? r.organization_id) rs) + 1
one_more rs r = ground (arith, counted-snoc r.organization_id rs r, =?_refl r.organization_id)

fits_one_more :
    (max : ℤ) (n m : ℕ)
    → m ≡ n + 1
    → (not (eqz max unlimited) && lez max (pos n)) ≡ false
    → (max ≡ unlimited) ⊎ (pos m ≤ℤ max)
fits_one_more max n m grown room = elim (Bool-cases (eqz max unlimited)) [
  | inl e ↦ inl (eq_of_parts max unlimited (ground arith))
  | inr e ↦ inr (ground (arith, e, room))
]

-- An accepted recipient is stored as it was given, and with it the organization has as many
-- recipients as the plan of its owner has seats for, or fewer, where the plan sets a number.
pub create_recipient-within :
    (plain_address : String → Bool) (db : Db) (r : RecipientRow) {out : Db × RecipientRow}
    → create_recipient plain_address db r ≡ ok out
    → (out.0.recipients ≡ db.recipients ++ r ∷ [])
      × (((org_limits db r.organization_id).max_alert_recipients ≡ unlimited)
          ⊎ (pos (count_org_alert_recipients out.0 r.organization_id)
              ≤ℤ (org_limits db r.organization_id).max_alert_recipients))
unfolding create_recipient create_org_alert_recipient count_org_alert_recipients
create_recipient-within plain_address db r {out} h =
    let org = r.organization_id in
    let max = (org_limits db org).max_alert_recipients in
    let (_, h1) = past_guard _ (because 400 Problem.bad_alert_target) _ h in
    let (_, h2) = past_guard _ (because 402 Problem.needs_enterprise) _ h1 in
    let (room, h3) =
      past_guard (not (eqz max unlimited) && lez max (pos (count_org_alert_recipients db org)))
        (because 402 Problem.recipients_full) _ h2 in
    let stored = or_refuse-eq-ok recipient_refusal _ h3 in
    let (_, last) = past_guard (recipient_held r db.recipients) conflict _ stored in
    let rows : db.recipients ++ r ∷ [] ≡ out.0.recipients =
      ap (λ (o : Db × RecipientRow). o.0.recipients) (ok-injective last) in
    (
      sym rows,
      fits_one_more max (count_org_alert_recipients db org) _
          (ap (λ rs. length (filter (λ x. x.organization_id =? org) rs)) (sym rows)
            ∙ one_more db.recipients r)
          room,
    )
