-- ===== src/Handlers/Organizations/Invited.antt =====
-- What CreateInvitation (internal/api/handlers/invitations.go) leaves of organizations and members.
use upguardly_server.Base.{
  ℕ, ◌≡◌, refl, subst, Bool, ◌&&◌, List, [], ◌∷◌, Option, String, Result, ok, err, >>=-eq-ok,
  past_guard, ok-injective, string_eq, ltb, inl, inr, Bool-cases,
}
use upguardly_server.Database.{Db, InvitationRow, conflict}
use upguardly_server.Database.Members.{is_pending, expire_invitation}
use upguardly_server.Database.Invitations.{list_invitations, insert_invitation, token_taken}
use upguardly_server.Handlers.{Refusal, Problem, because}
use upguardly_server.Handlers.CreateMonitor.Granted.{or_refuse-eq-ok}
use upguardly_server.Handlers.Invitations.{
  Identity, InviteMemberRequest, create_invitation, supersede, invite, settled, or_token_failed,
  seats_short,
}
use upguardly_server.Handlers.Organizations.Requests.{Orderly}

module _ (who : Identity) (org caller id : String) (req : InviteMemberRequest)
    (fresh : Option String) (now : ℕ) where
  supersede-Orderly :
      (is : List InvitationRow) (db : Db)
      → Orderly db
      → Orderly (supersede who (who.normalize req.email) now is db).0
  unfolding supersede expire_invitation
  supersede-Orderly [] db h = h
  supersede-Orderly (i ∷ is) db h =
      elim (Bool-cases (is_pending i.status && who.same_folded i.email (who.normalize req.email))) [
        | inr e ↦ rw e (supersede-Orderly is db h)
        | inl e ↦ elim (Bool-cases (ltb now i.expires_at)) [
          | inl soon ↦ rw (e, soon) h
          | inr over ↦ rw (e, over) (supersede-Orderly is (expire_invitation db i.id) h)
        ]
      ]

  invite-Orderly :
      (db : Db) (blocked : Bool) {out : Db × InvitationRow}
      → Orderly db
      → invite who db blocked org caller id req fresh now ≡ ok out
      → Orderly out.0
  unfolding invite insert_invitation
  invite-Orderly db blocked h k =
      let (_, k1) = past_guard blocked (because 409 Problem.already_invited) _ k in
      let (_, k2) = past_guard (seats_short db org now) (because 402 Problem.seats_full) _ k1 in
      let (raw_token, _, k3) = >>=-eq-ok (or_token_failed fresh) _ k2 in
      let stored = or_refuse-eq-ok (λ e. because 500 Problem.create_failed) _ k3 in
      let (_, last) = past_guard (token_taken _ db.invitations) conflict _ stored in
      subst (λ (x : Db × InvitationRow). Orderly x.0) (ok-injective last) h

  settled-Orderly :
      (db : Db) (r : Result Refusal (Db × InvitationRow))
      → Orderly db
      → ((out : Db × InvitationRow) → r ≡ ok out → Orderly out.0)
      → Orderly (settled db r).0
  settled-Orderly db (ok out) h k = k out refl
  settled-Orderly db (err e) h k = h

  pub create_invitation-Orderly :
      (db : Db) → Orderly db → Orderly (create_invitation who db org caller id req fresh now).0
  unfolding create_invitation
  create_invitation-Orderly db h =
      let (db', blocked) =
        supersede who (who.normalize req.email) now (list_invitations db org) db in
      let kept = supersede-Orderly (list_invitations db org) db h in
      settled-Orderly db' (invite who db' blocked org caller id req fresh now) kept
        (λ out k. invite-Orderly db' blocked kept k)
