-- ===== src/Handlers/Invitations/Welcome.antt =====
-- An invitation from CreateInvitation to AcceptInvitation (internal/api/handlers/invitations.go).
use upguardly_server.Base.{
  ℕ, ◌+◌, ◌≤◌, ◌<◌, ◌≡◌, refl, sym, ap, subst, ◌∙◌, true, false, not, ◌&&◌, List, [], ◌∷◌, ◌++◌,
  none, some, String, eqz, ok, ◌=?◌, =?_refl, string_eq, ltb, length, filter, arith, inl, inr,
  Bool-cases, Option-cases,
}
use upguardly_server.Models.Plan.{free, unlimited, limits_for_plan}
use upguardly_server.Database.{Db, InvitationRow, MemberRow, OrganizationRow}
use upguardly_server.Database.Monitors.{find_organization, is_member}
use upguardly_server.Database.Members.{
  is_pending, open_for, find_open, check_seats, in_an_organization, new_member, accept_invitation,
  count_non_owner_members, count_pending_invitations,
}
use upguardly_server.Database.Invitations.{
  find_token, token_taken, get_invitation_by_token, list_organizations, list_invitations,
}
use upguardly_server.Handlers.Bun.{bun_store}
use upguardly_server.Handlers.Limits.{plan_for_org, org_owner, plan_for_user}
use upguardly_server.Handlers.Invitations.{
  Identity, InviteMemberRequest, accept, first_some, org_limits, seats_short, invited,
  create_invitation, supersede, invitation_seconds,
}
use upguardly_server.Handlers.Invitations.Seats.{create_invitation-Passed}
use upguardly_server.Handlers.Invitations.Lapsed.{supersede_members}
use upguardly_server.Handlers.Invitations.Joined.{joined_db}

module _ (inv : InvitationRow) where
  find_token-snoc :
      (is : List InvitationRow)
      → token_taken inv.token is ≡ false
      → find_token inv.token (is ++ inv ∷ []) ≡ some inv
  unfolding find_token token_taken
  find_token-snoc [] h = rw (=?_refl inv.token)
  find_token-snoc (i ∷ is) h = ground (arith, find_token-snoc is)

  find_open-snoc :
      (later : ℕ) (is : List InvitationRow)
      → token_taken inv.token is ≡ false
      → (is_pending inv.status && ltb later inv.expires_at) ≡ true
      → find_open inv.token later (is ++ inv ∷ []) ≡ some inv
  unfolding find_open token_taken
  find_open-snoc later [] h o = rw (=?_refl inv.token, o) refl
  find_open-snoc later (i ∷ is) h o = ground (arith, find_open-snoc later is)

  -- Invitations only lapse.
  open_later :
      (org : String) (now later : ℕ) (is : List InvitationRow)
      → now ≤ later
      → length (filter (λ i. open_for org later i && not (i.id =? inv.id)) (is ++ inv ∷ []))
        ≤ length (filter (open_for org now) is)
  open_later org now later [] h = ground (arith, =?_refl inv.id)
  open_later org now later (i ∷ is) h = ground (arith, open_later org now later is)

no_member :
    (org user : String) (ms : List MemberRow)
    → in_an_organization user ms ≡ false
    → is_member org user ms ≡ false
unfolding is_member in_an_organization
no_member org user [] h = refl
no_member org user (m ∷ ms) h = ground (arith, no_member org user ms)

no_organization :
    (user : String) (ms : List MemberRow) (os : List OrganizationRow)
    → in_an_organization user ms ≡ false
    → first_some (filter (λ o. is_member o.id user ms) os) ≡ false
no_organization user ms [] h = refl
no_organization user ms (o ∷ os) h = rw (no_member o.id user ms h) (no_organization user ms os h)

-- A missing organization has no seats.
missing_plan :
    (db : Db) (org : String)
    → find_organization org db.organizations ≡ none
    → plan_for_org (bun_store "" 0) db org ≡ free
unfolding plan_for_org org_owner
missing_plan db org h = rw (h, plan_for_org, org_owner) refl

missing-seats_short :
    (db : Db) (org : String) (now : ℕ)
    → find_organization org db.organizations ≡ none
    → seats_short db org now ≡ true
unfolding limits_for_plan
missing-seats_short db org now h = rw (missing_plan db org h) (ground arith)

abbrev with_row : Db → InvitationRow → Db
with_row db inv = record db { invitations = db.invitations ++ inv ∷ [] }

module _ (db : Db) (inv : InvitationRow) (now later : ℕ) (order : now ≤ later) where
  seats_kept :
      seats_short db inv.organization_id now ≡ false
      → check_seats
          (with_row db inv)
          inv
          (org_limits (with_row db inv) inv.organization_id).max_login_seats
          later
        ≡ ok tt
  unfolding check_seats plan_for_org org_owner plan_for_user count_non_owner_members
      count_pending_invitations
  seats_kept room =
      let org = inv.organization_id in
      let fewer = open_later inv org now later db.invitations order in
      elim (Bool-cases (eqz (org_limits db org).max_login_seats unlimited)) [
        | inl e ↦ rw e refl
        | inr e ↦ elim (Option-cases (find_organization org db.organizations)) [
          | inl absent ↦
              let clash : true ≡ false = sym (missing-seats_short db org now absent) ∙ room in cc
          | inr (o, there) ↦ rw e (rw there (ground (arith, room, e, fewer)))
        ]
      ]

module _ (who : Identity) (org caller id user raw_token : String) (req : InviteMemberRequest)
    (now later : ℕ) where
  -- The tables with the new row: the invitee's request passes every check.
  accepted_later :
      (db : Db) {address : String}
      → seats_short db org now ≡ false
      → token_taken (who.hash_token raw_token) db.invitations ≡ false
      → now ≤ later
      → later < now + invitation_seconds
      → who.email_of user ≡ some address
      → who.same_address address (who.normalize req.email) ≡ true
      → in_an_organization user db.members ≡ false
      → let inv = invited who org caller id req raw_token now in
        accept who (with_row db inv) user raw_token later
        ≡ ok (joined_db (with_row db inv) inv user, new_member inv user)
  unfolding accept get_invitation_by_token accept_invitation list_organizations
  accepted_later db room fresh order before known same alone =
      let inv = invited who org caller id req raw_token now in
      let unlapsed : ltb inv.expires_at later ≡ false = ground (arith, before) in
      let still : ltb later inv.expires_at ≡ true = ground (arith, before) in
      rw (find_token-snoc inv db.invitations fresh) (
        rw unlapsed (
          rw known (
            rw same (
              rw (no_organization user db.members db.organizations alone) (
                rw (find_open-snoc inv later db.invitations fresh still)
                  (rw (seats_kept db inv now later order room) (rw alone refl)))))))

  -- An invitation is kept: within its seven days the invitee, whose account has the invited address
  -- and who is in no organization, can accept it and joins the organization in the role offered; the
  -- seat that CreateInvitation counted is still there, if no other request comes between.
  pub create_invitation-accept :
      (db : Db) {row : InvitationRow} {address : String}
      → (create_invitation who db org caller id req (some raw_token) now).1 ≡ ok row
      → now ≤ later
      → later < now + invitation_seconds
      → who.email_of user ≡ some address
      → who.same_address address (who.normalize req.email) ≡ true
      → in_an_organization user db.members ≡ false
      → (out : Db × MemberRow) × (accept who
            (create_invitation who db org caller id req (some raw_token) now).0
            user
            raw_token
            later
          ≡ ok out)
        × (out.1 ≡ record { organization_id = org; user_id = user; role = req.role })
  create_invitation-accept db {row} h order before known same alone =
      let looped = (supersede who (who.normalize req.email) now (list_invitations db org) db).0 in
      let p = create_invitation-Passed who org caller id req (some raw_token) now db h in
      let drawn : p.raw_token ≡ raw_token = cc p.drawn in
      let inv = invited who org caller id req raw_token now in
      let fresh : token_taken (who.hash_token raw_token) looped.invitations ≡ false =
        subst (λ t. token_taken (who.hash_token t) looped.invitations ≡ false) drawn p.new_token in
      let stored : with_row looped inv
          ≡ (create_invitation who db org caller id req (some raw_token) now).0 =
        subst
          (λ t.
            with_row looped (invited who org caller id req t now)
            ≡ (create_invitation who db org caller id req (some raw_token) now).0)
          drawn (ap (λ (o : Db × InvitationRow). o.0) p.stored) in
      let members : looped.members ≡ db.members =
        supersede_members who (who.normalize req.email) now (list_invitations db org) db in
      (
        (joined_db (with_row looped inv) inv user, new_member inv user),
        subst
            (λ (d : Db).
              accept who d user raw_token later
              ≡ ok (joined_db (with_row looped inv) inv user, new_member inv user))
            stored
            (accepted_later looped p.room fresh order before known same
              (ap (in_an_organization user) members ∙ alone)),
        refl,
      )
