-- ===== src/Handlers/Invitations.antt =====
-- internal/api/handlers/invitations.go, on the database tables. The routes of an organization come
-- after the role check of internal/api/middleware/org_auth.go; mails are not modelled.
pub mod Lapsed
pub mod Seats
pub mod Joined
pub mod Welcome
use upguardly_server.Base.{
  ℕ, ◌+◌, Bool, true, false, not, ◌&&◌, List, [], ◌∷◌, Option, none, some, String, ℤ, pos, lez, eqz,
  Result, ok, err, ◌>>=◌, ◌>>◌, refuse, if◌then◌else◌, ◌=?◌, string_eq, ltb, map,
}
use upguardly_server.Models.Plan.{PlanLimits, unlimited, limits_for_plan}
use upguardly_server.Models.Role.{OrgRole}
use upguardly_server.Database.{
  Db, InvitationRow, InvitationStatus, pending, expired, MemberRow, OrganizationRow, StoreError,
  seat_limit, conflict, not_found,
}
use upguardly_server.Database.Monitors.{find_organization}
use upguardly_server.Database.Members.{
  is_pending, count_non_owner_members, count_pending_invitations, expire_invitation,
  revoke_invitation, accept_invitation,
}
use upguardly_server.Database.Invitations.{
  insert_invitation, get_invitation_by_token, get_invitation_by_id, list_invitations,
  list_organizations,
}
use upguardly_server.Handlers.{Refusal, Problem, because}
use upguardly_server.Handlers.Limits.{plan_for_org}
use upguardly_server.Handlers.Bun.{bun_store}
use upguardly_server.Handlers.Settings.{or_refuse}

-- What the handlers ask of others: Go's text functions on addresses (`normalize` lowers and trims,
-- `same_folded` is `strings.EqualFold`, `same_address` the same of the trimmed texts), SHA-256 in hex,
-- and the email of an account (SuperTokens).
pub record Identity : Type 0 where
  pub normalize : String → String
  pub same_folded : String → String → Bool
  pub same_address : String → String → Bool
  pub hash_token : String → String
  pub email_of : String → Option String

-- `InviteMemberRequest`
pub record InviteMemberRequest : Type 0 where
  pub email : String
  pub role : OrgRole

-- Seven days.
abbrev pub invitation_seconds : ℕ
invitation_seconds = 604800

abbrev pub org_limits : Db → String → PlanLimits
org_limits db org = limits_for_plan (plan_for_org (bun_store "" 0) db org)

abbrev pub first_some : List OrganizationRow → Bool
first_some [] = false
first_some (o ∷ os) = true

-- `RevokeInvitation`
unfoldable pub revoke : Db → String → String → Result Refusal Db
revoke db org id = do
  inv ← or_refuse (λ e. because 404 Problem.not_found) (get_invitation_by_id db id)
  refuse (not (inv.organization_id =? org)) (because 404 Problem.not_found)
  ok (revoke_invitation db id)

-- `ListInvitations`: the tokens are stripped.
unfoldable pub list_for_org : Db → String → List InvitationRow
list_for_org db org =
    map {A = InvitationRow} (λ i. record i { token = "" }) (list_invitations db org)

-- `InvitationPreview`
pub record InvitationPreview : Type 0 where
  pub org_name : String
  pub email : String
  pub role : OrgRole
  pub status : InvitationStatus
  pub expires_at : ℕ

abbrev pub org_or_404 : Option OrganizationRow → Result Refusal OrganizationRow
org_or_404 none = err (because 404 Problem.not_found)
org_or_404 (some o) = ok o

-- A lapsed row that is still pending is shown as expired.
abbrev pub shown_status : InvitationRow → ℕ → InvitationStatus
shown_status i now = if is_pending i.status && ltb i.expires_at now then expired else i.status

abbrev pub known_account : Option String → Result Refusal String
known_account none = err (because 500 Problem.email_unknown)
known_account (some address) = ok address

abbrev pub accept_refusal : StoreError → Refusal
accept_refusal seat_limit = because 409 Problem.seats_full
accept_refusal conflict = because 409 Problem.already_in_organization
accept_refusal not_found = because 409 Problem.invitation_closed
accept_refusal _ = because 500 Problem.accept_failed

module _ (who : Identity) (db : Db) where
  -- `GetInvitationPreview`
  unfoldable pub preview : String → ℕ → Result Refusal InvitationPreview
  preview raw_token now = do
    inv ←
        or_refuse (λ e. because 404 Problem.not_found)
          (get_invitation_by_token db (who.hash_token raw_token))
    org ← org_or_404 (find_organization inv.organization_id db.organizations)
    ok (record {
      org_name = org.name;
      email = inv.email;
      role = inv.role;
      status = shown_status inv now;
      expires_at = inv.expires_at;
    })

  -- `AcceptInvitation`, for an authenticated user.
  unfoldable pub accept : String → String → ℕ → Result Refusal (Db × MemberRow)
  accept user raw_token now = do
    inv ←
        or_refuse (λ e. because 404 Problem.not_found)
          (get_invitation_by_token db (who.hash_token raw_token))
    refuse (not (is_pending inv.status)) (because 409 Problem.invitation_closed)
    refuse (ltb inv.expires_at now) (because 409 Problem.invitation_lapsed)
    address ← known_account (who.email_of user)
    refuse (not (who.same_address address inv.email)) (because 403 Problem.wrong_email)
    refuse (first_some (list_organizations db user)) (because 409 Problem.already_in_organization)
    or_refuse accept_refusal (
        accept_invitation db (who.hash_token raw_token) user
          (org_limits db inv.organization_id).max_login_seats now)

abbrev pub seats_short : Db → String → ℕ → Bool
seats_short db org now =
    let max = (org_limits db org).max_login_seats in
    not (eqz max unlimited)
    && lez max (pos (count_non_owner_members db org + count_pending_invitations db org now))

abbrev pub or_token_failed : Option String → Result Refusal String
or_token_failed none = err (because 500 Problem.create_failed)
or_token_failed (some raw_token) = ok raw_token

abbrev pub settled : Db → Result Refusal (Db × InvitationRow) → Db × Result Refusal InvitationRow
settled db (ok (db', row)) = (db', ok row)
settled db (err e) = (db, err e)

module _ (who : Identity) where
  -- The loop over the invitations so far: lapsed ones to the same address are expired; an open one
  -- ends it (the Boolean is true). What was expired before stays expired.
  unfoldable pub supersede : String → ℕ → List InvitationRow → Db → Db × Bool
  supersede email now [] db = (db, false)
  supersede email now (i ∷ is) db =
      let skipped = supersede email now is db in
      let lapsed = supersede email now is (expire_invitation db i.id) in
      if is_pending i.status && who.same_folded i.email email
      then (if ltb now i.expires_at then (db, true) else lapsed)
      else skipped

  abbrev pub invited : String → String → String → InviteMemberRequest → String → ℕ → InvitationRow
  invited org caller id req raw_token now = record {
    id = id;
    organization_id = org;
    email = who.normalize req.email;
    role = req.role;
    token = who.hash_token raw_token;
    status = pending;
    invited_by = caller;
    expires_at = now + invitation_seconds;
  }

  -- The rest of `CreateInvitation`, on the tables that the loop left. `fresh` is the random token.
  unfoldable pub invite :
      Db
      → Bool
      → String
      → String
      → String
      → InviteMemberRequest
      → Option String
      → ℕ
      → Result Refusal (Db × InvitationRow)
  invite db blocked org caller id req fresh now = do
    refuse blocked (because 409 Problem.already_invited)
    refuse (seats_short db org now) (because 402 Problem.seats_full)
    raw_token ← or_token_failed fresh
    or_refuse (λ e. because 500 Problem.create_failed)
        (insert_invitation db (invited org caller id req raw_token now))

  -- `CreateInvitation`: a refusal keeps the expired rows expired.
  unfoldable pub create_invitation :
      Db
      → String
      → String
      → String
      → InviteMemberRequest
      → Option String
      → ℕ
      → Db × Result Refusal InvitationRow
  create_invitation db org caller id req fresh now =
      let (db', blocked) = supersede (who.normalize req.email) now (list_invitations db org) db in
      settled db' (invite db' blocked org caller id req fresh now)
