-- ===== src/Handlers/Invitations/Seats.antt =====
-- The login seats behind CreateInvitation (internal/api/handlers/invitations.go).
use upguardly_server.Base.{
  ℕ, ◌+◌, ◌≡◌, ◌<◌, true, refl, ◌⊎◌, ap, subst, Bool, false, List, [], ◌∷◌, ◌++◌, Option, none,
  some, String, pos, eqz, ◌≤ℤ◌, Result, ok, err, past_guard, >>=-eq-ok, ok-injective, if◌then◌else◌,
  =?_refl, string_eq, length, filter, arith, inl, inr, Bool-cases, eq_of_parts, Distinct, ◌∙◌,
}
use upguardly_server.Models.Plan.{unlimited}
use upguardly_server.Database.{Db, InvitationRow, conflict}
use upguardly_server.Database.Members.{open_for, count_pending_invitations, count_non_owner_members}
use upguardly_server.Database.Members.Seats.{seats_used}
use upguardly_server.Database.Invitations.{insert_invitation, token_taken, list_invitations}
use upguardly_server.Handlers.{Refusal, Problem, because}
use upguardly_server.Handlers.CreateMonitor.Granted.{or_refuse-eq-ok}
use upguardly_server.Handlers.Invitations.Lapsed.{invitation_ids, looped-open, supersede_members}
use upguardly_server.Handlers.Limits.{plan_for_org, org_owner, plan_for_user}
use upguardly_server.Handlers.Invitations.{
  invitation_seconds, Identity, InviteMemberRequest, org_limits, seats_short, invited, invite,
  create_invitation, supersede, or_token_failed, settled,
}

length-filter-snoc :
    (p : InvitationRow → Bool) (is : List InvitationRow) (i : InvitationRow)
    → length (filter p (is ++ i ∷ [])) ≡ length (filter p is) + (if p i then 1 else 0)
length-filter-snoc p [] i = ground arith
length-filter-snoc p (j ∷ is) i = ground (arith, length-filter-snoc p is i)

drawn_token :
    (fresh : Option String) {raw_token : String}
    → or_token_failed fresh ≡ ok raw_token
    → fresh ≡ some raw_token
drawn_token none h = cc
drawn_token (some t) h = cc

settled-ok :
    (db : Db) (r : Result Refusal (Db × InvitationRow)) {row : InvitationRow}
    → (settled db r).1 ≡ ok row
    → r ≡ ok ((settled db r).0, row)
settled-ok db (ok (db', row')) h = ap (λ (x : InvitationRow). ok (db', x)) (ok-injective h)
settled-ok db (err e) h = cc

module _ (who : Identity) (org caller id : String) (req : InviteMemberRequest)
    (fresh : Option String) (now : ℕ) where
  -- What an accepted invitation has passed: the tables that the loop left, and the token.
  pub record Passed (db : Db) (out : Db × InvitationRow) : Type 0 where
    pub raw_token : String
    pub drawn : fresh ≡ some raw_token
    pub room : seats_short db org now ≡ false
    pub new_token : token_taken (who.hash_token raw_token) db.invitations ≡ false
    pub stored :
        (
          record db {
            invitations = db.invitations ++ invited who org caller id req raw_token now ∷ [];
          },
          invited who org caller id req raw_token now,
        )
        ≡ out

  invite-Passed :
      (db : Db) (blocked : Bool) {out : Db × InvitationRow}
      → invite who db blocked org caller id req fresh now ≡ ok out
      → Passed db out
  unfolding invite insert_invitation
  invite-Passed db blocked h =
      let (_, h1) = past_guard blocked (because 409 Problem.already_invited) _ h in
      let (room, h2) = past_guard (seats_short db org now) (because 402 Problem.seats_full) _ h1 in
      let (raw_token, drawn, h3) = >>=-eq-ok (or_token_failed fresh) _ h2 in
      let stored = or_refuse-eq-ok (λ e. because 500 Problem.create_failed) _ h3 in
      let (unused, last) = past_guard (token_taken _ db.invitations) conflict _ stored in
      record {
        raw_token = raw_token;
        drawn = drawn_token fresh drawn;
        room = room;
        new_token = unused;
        stored = ok-injective last;
      }

  pub create_invitation-Passed :
      (db : Db) {row : InvitationRow}
      → (create_invitation who db org caller id req fresh now).1 ≡ ok row
      → Passed
          (supersede who (who.normalize req.email) now (list_invitations db org) db).0
          ((create_invitation who db org caller id req fresh now).0, row)
  unfolding create_invitation
  create_invitation-Passed db h =
      let looped = supersede who (who.normalize req.email) now (list_invitations db org) db in
      invite-Passed looped.0 looped.1
        (settled-ok looped.0 (invite who looped.0 looped.1 org caller id req fresh now) h)

  one_more :
      (db : Db) (raw_token : String)
      → seats_short db org now ≡ false
      → let db' = record db {
        invitations = db.invitations ++ invited who org caller id req raw_token now ∷ [];
      } in
        ((org_limits db' org).max_login_seats ≡ unlimited)
        ⊎ (pos (seats_used db' org now) ≤ℤ (org_limits db' org).max_login_seats)
  unfolding plan_for_org org_owner plan_for_user count_non_owner_members count_pending_invitations
  one_more db raw_token room =
      let grown =
        length-filter-snoc (open_for org now) db.invitations
          (invited who org caller id req raw_token now) in
      elim (Bool-cases (eqz (org_limits db org).max_login_seats unlimited)) [
        | inl e ↦ inl (eq_of_parts _ _ (ground (arith, e)))
        | inr e ↦ inr (ground (arith, e, room, grown, =?_refl org))
      ]

  -- The seat that an invitation takes, against the tables before the request: the row is stored,
  -- the members are the same and one seat more is in use, the row is open until it lapses, and the
  -- seats in use are within the owner's plan, if that limits them.
  pub record TakesSeat (db : Db) (out : Db × InvitationRow) : Type 0 where
    pub stored :
        out.0.invitations
        ≡ (supersede who (who.normalize req.email) now (list_invitations db org) db).0.invitations
          ++ out.1 ∷ []
    pub members_kept : out.0.members ≡ db.members
    pub one_seat : seats_used out.0 org now ≡ seats_used db org now + 1
    pub open_on : (later : ℕ) → later < now + invitation_seconds → open_for org later out.1 ≡ true
    pub within :
        ((org_limits out.0 org).max_login_seats ≡ unlimited)
        ⊎ (pos (seats_used out.0 org now) ≤ℤ (org_limits out.0 org).max_login_seats)

  abbrev with_invitation : Db → String → Db
  with_invitation db raw_token = record db {
    invitations = db.invitations ++ invited who org caller id req raw_token now ∷ [];
  }

  one_seat_more :
      (db : Db) (raw_token : String)
      → seats_used (with_invitation db raw_token) org now ≡ seats_used db org now + 1
  unfolding count_non_owner_members count_pending_invitations
  one_seat_more db raw_token =
      let grown =
        length-filter-snoc (open_for org now) db.invitations
          (invited who org caller id req raw_token now) in
      ground (arith, grown, =?_refl org)

  module _ (db : Db) (distinct : Distinct (invitation_ids db.invitations)) where
    -- The loop of CreateInvitation frees no seat and takes none.
    looped_seats :
        seats_used
          (supersede who (who.normalize req.email) now (list_invitations db org) db).0
          org
          now
        ≡ seats_used db org now
    unfolding count_non_owner_members count_pending_invitations
    looped_seats =
        let kept =
          supersede_members who (who.normalize req.email) now (list_invitations db org) db in
        rw (kept, looped-open org now who (who.normalize req.email) db distinct) refl

    invited-TakesSeat :
        (raw_token : String)
        → let looped =
            (supersede who (who.normalize req.email) now (list_invitations db org) db).0 in
          seats_short looped org now ≡ false
          → TakesSeat db
              (with_invitation looped raw_token, invited who org caller id req raw_token now)
    invited-TakesSeat raw_token room =
        let looped = (supersede who (who.normalize req.email) now (list_invitations db org) db).0 in
        record {
          stored = refl;
          members_kept =
              supersede_members who (who.normalize req.email) now (list_invitations db org) db;
          one_seat = one_seat_more looped raw_token ∙ ap (λ n. n + 1) looped_seats;
          open_on = λ later soon. ground (arith, soon, =?_refl org);
          within = one_more looped raw_token room;
        }

    -- Where the ids of the invitations are distinct, an accepted invitation is stored and holds a
    -- seat of its own from now until it lapses: the members are as before the request, one seat more
    -- is in use than before it, and the seats in use are within the owner's plan, if that limits
    -- them.
    pub create_invitation-within :
        {row : InvitationRow}
        → (create_invitation who db org caller id req fresh now).1 ≡ ok row
        → TakesSeat db ((create_invitation who db org caller id req fresh now).0, row)
    create_invitation-within h =
        let p = create_invitation-Passed db h in
        subst (TakesSeat db) p.stored (invited-TakesSeat p.raw_token p.room)
