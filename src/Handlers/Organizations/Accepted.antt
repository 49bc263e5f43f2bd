-- ===== src/Handlers/Organizations/Accepted.antt =====
-- What an accepted request to the handlers of organizations and members leaves behind.
use upguardly_server.Base.{
  ℕ, ◌≡◌, subst, false, not, ◌&&◌, [], ◌∷◌, ◌++◌, Option, none, some, String, ok, >>=-eq-ok,
  >>-eq-ok, past_guard, ok-injective, ◌=?◌, =?_refl, string_eq, arith,
}
use upguardly_server.Models.Role.{OrgRole}
use upguardly_server.Database.{Db, MemberRow, OrganizationRow, conflict}
use upguardly_server.Database.Monitors.{find_member, find_organization, or_not_found}
use upguardly_server.Database.Members.{
  is_owner, in_an_organization, member_or_missing, update_member_role, remove_member, find_open,
  or_missing, check_seats, new_member, accept_invitation, revoke_invitation,
}
use upguardly_server.Database.Invitations.{get_invitation_by_token, get_invitation_by_id}
use upguardly_server.Database.Organizations.{
  create_organization, update_organization, delete_organization, new_organization, owner_row,
  new_name,
}
use upguardly_server.Handlers.{Problem, because}
use upguardly_server.Handlers.Settings.{or_refuse}
use upguardly_server.Handlers.CreateMonitor.Granted.{or_refuse-eq-ok}
use upguardly_server.Handlers.Invitations.{
  Identity, accept, accept_refusal, revoke, known_account, org_limits,
}
use upguardly_server.Handlers.Members.{
  MemberChange, set_role, take_out, change_member, existing_member, update_role, remove,
}
use upguardly_server.Handlers.Organizations.{
  create_org, update_org, delete_org, create_refusal, rename_refusal,
}
use upguardly_server.Handlers.Organizations.Founded.{has_owner-last, snoc-Founded, new-Founded}
use upguardly_server.Handlers.Organizations.Kept.{
  find_member-Plain, with_role-Founded, leaving-Founded, gone-Founded, renamed-Founded,
}
use upguardly_server.Handlers.Organizations.Requests.{Orderly}

existing_member-eq : {o : Option MemberRow} {m : MemberRow} → existing_member o ≡ ok m → o ≡ some m
existing_member-eq {o = none} h = cc
existing_member-eq {o = some x} h = cc

module _ (db : Db) (h : Orderly db) where
  pub establish-Orderly :
      (user name id : String) {out : Db × OrganizationRow}
      → create_org db user name id ≡ ok out
      → Orderly out.0
  unfolding create_org create_organization
  establish-Orderly user name id k =
      let (_, k1) = past_guard _ (because 402 Problem.needs_enterprise) _ k in
      let (_, k2) = past_guard _ (because 409 Problem.already_in_organization) _ k1 in
      let stored = or_refuse-eq-ok create_refusal _ k2 in
      let (_, k3) = past_guard _ conflict _ stored in
      let (alone, last) = past_guard (in_an_organization user db.members) conflict _ k3 in
      let o = new_organization id name user in
      let m = owner_row id user in
      subst (λ (x : Db × OrganizationRow). Orderly x.0) (ok-injective last)
        (new-Founded db.organizations (db.members ++ m ∷ []) o
          (has_owner-last o db.members m (ground (arith, =?_refl id, =?_refl user)))
          (snoc-Founded db.organizations db.members m alone h))

  pub rename-Orderly :
      (org : String) (name : Option String) {out : Db × OrganizationRow}
      → update_org db org name ≡ ok out
      → Orderly out.0
  unfolding update_org update_organization
  rename-Orderly org name k =
      let (_, k1) = past_guard _ (because 400 Problem.no_fields) _ k in
      let stored = or_refuse-eq-ok rename_refusal _ k1 in
      let (wanted, _, k2) = >>=-eq-ok (new_name name) _ stored in
      let (o, _, k3) = >>=-eq-ok (or_not_found (find_organization org db.organizations)) _ k2 in
      let (_, last) = past_guard _ conflict _ k3 in
      subst (λ (x : Db × OrganizationRow). Orderly x.0) (ok-injective last)
        (renamed-Founded org wanted db.organizations db.members h)

  pub dissolve-Orderly : (org : String) {db' : Db} → delete_org db org ≡ ok db' → Orderly db'
  unfolding delete_org delete_organization
  dissolve-Orderly org k =
      let stored = or_refuse-eq-ok (λ e. because 500 Problem.delete_failed) _ k in
      let (_, _, last) =
        >>=-eq-ok (or_not_found (find_organization org db.organizations)) _ stored in
      subst Orderly (ok-injective last) (gone-Founded org db.organizations db.members h)

  pub join-Orderly :
      (who : Identity) (user token : String) (now : ℕ) {out : Db × MemberRow}
      → accept who db user token now ≡ ok out
      → Orderly out.0
  unfolding accept accept_invitation
  join-Orderly who user token now k =
      let (inv, _, k1) =
        >>=-eq-ok
          (or_refuse (λ e. because 404 Problem.not_found)
            (get_invitation_by_token db (who.hash_token token)))
          _ k in
      let (_, k2) = past_guard _ (because 409 Problem.invitation_closed) _ k1 in
      let (_, k3) = past_guard _ (because 409 Problem.invitation_lapsed) _ k2 in
      let (address, _, k4) = >>=-eq-ok (known_account (who.email_of user)) _ k3 in
      let (_, k5) = past_guard _ (because 403 Problem.wrong_email) _ k4 in
      let (_, k6) = past_guard _ (because 409 Problem.already_in_organization) _ k5 in
      let stored = or_refuse-eq-ok accept_refusal _ k6 in
      let (j, _, k7) =
        >>=-eq-ok (or_missing (find_open (who.hash_token token) now db.invitations)) _ stored in
      let (_, k8) =
        >>-eq-ok (check_seats db j (org_limits db inv.organization_id).max_login_seats now) _ k7 in
      let (alone, last) = past_guard (in_an_organization user db.members) conflict _ k8 in
      subst (λ (x : Db × MemberRow). Orderly x.0) (ok-injective last)
        (snoc-Founded db.organizations db.members (new_member j user) alone h)

  pub withdraw-Orderly : (org id : String) {db' : Db} → revoke db org id ≡ ok db' → Orderly db'
  unfolding revoke revoke_invitation
  withdraw-Orderly org id k =
      let (inv, _, k1) =
        >>=-eq-ok (or_refuse (λ e. because 404 Problem.not_found) (get_invitation_by_id db id)) _
          k in
      let (_, last) =
        past_guard (not (inv.organization_id =? org)) (because 404 Problem.not_found) _ k1 in
      subst Orderly (ok-injective last) h

  set_role-Orderly :
      (org target : String) (role : OrgRole) {out : Db × MemberRow}
      → update_role db org target role ≡ ok out
      → Orderly out.0
  unfolding update_role update_member_role
  set_role-Orderly org target role k =
      let (existing, found, k1) =
        >>=-eq-ok (existing_member (find_member org target db.members)) _ k in
      let (other, k2) =
        past_guard (is_owner existing.role) (because 403 Problem.role_forbidden) _ k1 in
      let stored = or_refuse-eq-ok (λ e. because 500 Problem.update_failed) _ k2 in
      let (_, _, last) =
        >>=-eq-ok (member_or_missing (find_member org target db.members)) _ stored in
      let plain = find_member-Plain org target db.members h.0 (existing_member-eq found) other in
      subst (λ (x : Db × MemberRow). Orderly x.0) (ok-injective last)
        (with_role-Founded org target role db.organizations db.members plain h)

  take_out-Orderly :
      (org caller target : String) {db' : Db} → remove db org caller target ≡ ok db' → Orderly db'
  unfolding remove remove_member
  take_out-Orderly org caller target k =
      let (existing, found, k1) =
        >>=-eq-ok (existing_member (find_member org target db.members)) _ k in
      let (a, k2) =
        past_guard (is_owner existing.role && not (caller =? target))
          (because 403 Problem.role_forbidden) _ k1 in
      let (b, k3) =
        past_guard (is_owner existing.role && (caller =? target))
          (because 403 Problem.role_forbidden) _ k2 in
      let other : is_owner existing.role ≡ false = ground (arith, a, b) in
      let stored = or_refuse-eq-ok (λ e. because 500 Problem.update_failed) _ k3 in
      let (_, _, last) =
        >>=-eq-ok (member_or_missing (find_member org target db.members)) _ stored in
      let plain = find_member-Plain org target db.members h.0 (existing_member-eq found) other in
      subst Orderly (ok-injective last)
        (leaving-Founded org target db.organizations db.members plain h)

  pub change-Orderly :
      (org : String) (c : MemberChange) {db' : Db} → change_member db org c ≡ ok db' → Orderly db'
  unfolding change_member
  change-Orderly org (set_role target role) k =
      let (out, accepted, last) = >>=-eq-ok (update_role db org target role) _ k in
      subst Orderly (ok-injective last) (set_role-Orderly org target role accepted)
  change-Orderly org (take_out caller target) k = take_out-Orderly org caller target k
