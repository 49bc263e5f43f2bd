-- ===== src/Handlers/Invitations/Joined.antt =====
-- AcceptInvitation (internal/api/handlers/invitations.go): who joins an organization, and as what.
use text.Mathlib.TextEquality.{eq_iff}
use upguardly_server.Base.{
  ℕ, ◌≡◌, refl, sym, ap, subst, true, false, not, List, [], ◌∷◌, ◌++◌, Option, none, some, String,
  ok, err, past_guard, >>=-eq-ok, >>-eq-ok, ok-injective, ◌=?◌, =?_refl, string_eq, ltb, contains,
  Distinct, arith, inl, inr, Bool-cases,
}
use upguardly_server.Database.{Db, InvitationRow, MemberRow, accepted, conflict}
use upguardly_server.Database.Monitors.{or_not_found}
use upguardly_server.Database.Members.{
  is_pending, find_open, or_missing, check_seats, in_an_organization, new_member, set_status,
  accept_invitation,
}
use upguardly_server.Database.Invitations.{find_token, get_invitation_by_token, list_organizations}
use upguardly_server.Handlers.{Problem, because}
use upguardly_server.Handlers.CreateMonitor.Granted.{or_refuse-eq-ok}
use upguardly_server.Handlers.Settings.{or_refuse}
use upguardly_server.Handlers.Invitations.{
  Identity, accept, accept_refusal, known_account, first_some, org_limits,
}

abbrev pub tokens : List InvitationRow → List String
tokens [] = []
tokens (i ∷ is) = i.token ∷ tokens is

find_token_absent :
    (token : String) (now : ℕ) (is : List InvitationRow)
    → contains (tokens is) token ≡ false
    → find_open token now is ≡ none
unfolding find_open
find_token_absent token now [] h = refl
find_token_absent token now (i ∷ is) h = ground (arith, find_token_absent token now is)

-- With unique tokens the row that the transaction locks is the row that the handler read.
find_open-token :
    (token : String) (now : ℕ) (is : List InvitationRow) {i j : InvitationRow}
    → Distinct (tokens is)
    → find_token token is ≡ some i
    → find_open token now is ≡ some j
    → j ≡ i
unfolding find_open find_token
find_open-token token now [] d h k = cc
find_open-token token now (x ∷ is) {i = i} {j = j} (fresh, d) h k =
    elim (Bool-cases (x.token =? token)) [
      | inl e ↦
          let same : x.token ≡ token = (eq_iff x.token token).0 e in
          ground (arith, find_token_absent token now is, fresh, same, e, h, k)
      | inr e ↦ find_open-token token now is d (rw e at h) (rw e at k)
    ]

find_token-accepted :
    (token : String) (is : List InvitationRow) {i : InvitationRow}
    → find_token token is ≡ some i
    → find_token token (set_status accepted (λ j. j.id =? i.id) is)
      ≡ some (record i { status = accepted })
unfolding find_token
find_token-accepted token [] h = cc
find_token-accepted token (x ∷ is) {i = i} h = elim (Bool-cases (x.token =? token)) [
  | inl e ↦ let same : x ≡ i = ground (arith, h, e) in ground (arith, e, same, =?_refl i.id)
  | inr e ↦ ground (arith, e, find_token-accepted token is {i = i}, h)
]

known_account-eq :
    (o : Option String) {address : String} → known_account o ≡ ok address → o ≡ some address
known_account-eq none h = cc
known_account-eq (some a) h = cc

-- What stands behind a membership that AcceptInvitation creates.
pub record Entitled (who : Identity) (db : Db) (user raw_token : String) (now : ℕ)
    (out : Db × MemberRow) : Type 0 where
  pub invitation : InvitationRow
  pub found : find_token (who.hash_token raw_token) db.invitations ≡ some invitation
  pub open_still : is_pending invitation.status ≡ true
  pub unexpired : ltb invitation.expires_at now ≡ false
  pub address : String
  pub holds : who.email_of user ≡ some address
  pub addressed : who.same_address address invitation.email ≡ true
  pub alone : in_an_organization user db.members ≡ false
  pub joined : out.1 ≡ new_member invitation user
  pub members : out.0.members ≡ db.members ++ new_member invitation user ∷ []
  pub spent :
      (other : String) (later : ℕ)
      → accept who out.0 other raw_token later ≡ err (because 409 Problem.invitation_closed)

or_not_found-eq {ℓ} : {A : Type ℓ} {o : Option A} {a : A} → or_not_found o ≡ ok a → o ≡ some a
or_not_found-eq {o = none} h = cc
or_not_found-eq {o = some b} h = cc

or_missing-eq : {o : Option InvitationRow} {i : InvitationRow} → or_missing o ≡ ok i → o ≡ some i
or_missing-eq {o = none} h = cc
or_missing-eq {o = some j} h = cc

abbrev pub joined_db : Db → InvitationRow → String → Db
joined_db db inv user = record db {
  members = db.members ++ new_member inv user ∷ [];
  invitations = set_status accepted (λ i. i.id =? inv.id) db.invitations;
}

module _ (who : Identity) (db : Db) (user raw_token : String) (now : ℕ) where
  spent_lem :
      {inv : InvitationRow}
      → find_token (who.hash_token raw_token) db.invitations ≡ some inv
      → (other : String) (later : ℕ)
      → accept who (joined_db db inv user) other raw_token later
        ≡ err (because 409 Problem.invitation_closed)
  unfolding accept get_invitation_by_token
  spent_lem found other later =
      rw (find_token-accepted (who.hash_token raw_token) db.invitations found)

  stored_as :
      (inv : InvitationRow) {out : Db × MemberRow}
      → Distinct (tokens db.invitations)
      → find_token (who.hash_token raw_token) db.invitations ≡ some inv
      → accept_invitation db
          (who.hash_token raw_token)
          user
          (org_limits db inv.organization_id).max_login_seats
          now
        ≡ ok out
      → (in_an_organization user db.members ≡ false)
        × ((joined_db db inv user, new_member inv user) ≡ out)
  unfolding accept_invitation
  stored_as inv {out} distinct found h =
      let token = who.hash_token raw_token in
      let (j, there, h1) = >>=-eq-ok (or_missing (find_open token now db.invitations)) _ h in
      let (_, h2) =
        >>-eq-ok (check_seats db j (org_limits db inv.organization_id).max_login_seats now) _ h1 in
      let (alone, last) = past_guard (in_an_organization user db.members) conflict _ h2 in
      let same : j ≡ inv =
        find_open-token token now db.invitations distinct found (or_missing-eq there) in
      (alone, subst (λ k. (joined_db db k user, new_member k user) ≡ out) same (ok-injective last))

  -- A membership that AcceptInvitation creates has a pending, unexpired invitation behind it that
  -- was found by the token and is addressed to the user's own account, and the user was in no
  -- organization. The user joins the invitation's organization in the invitation's role, the other
  -- members stay, and from then on the token is refused for everyone.
  pub accept-Entitled :
      {out : Db × MemberRow}
      → Distinct (tokens db.invitations)
      → accept who db user raw_token now ≡ ok out
      → Entitled who db user raw_token now out
  unfolding accept get_invitation_by_token
  accept-Entitled {out} distinct h =
      let token = who.hash_token raw_token in
      let (inv, got, h1) =
        >>=-eq-ok
          (or_refuse (λ e. because 404 Problem.not_found) (get_invitation_by_token db token)) _ h in
      let found = or_not_found-eq (or_refuse-eq-ok (λ e. because 404 Problem.not_found) _ got) in
      let (pending, h2) =
        past_guard (not (is_pending inv.status)) (because 409 Problem.invitation_closed) _ h1 in
      let (fresh, h3) =
        past_guard (ltb inv.expires_at now) (because 409 Problem.invitation_lapsed) _ h2 in
      let (address, known, h4) = >>=-eq-ok (known_account (who.email_of user)) _ h3 in
      let (mine, h5) =
        past_guard (not (who.same_address address inv.email)) (because 403 Problem.wrong_email) _
          h4 in
      let (free, h6) =
        past_guard (first_some (list_organizations db user))
          (because 409 Problem.already_in_organization) _ h5 in
      let (alone, last) = stored_as inv distinct found (or_refuse-eq-ok accept_refusal _ h6) in
      record {
        invitation = inv;
        found = found;
        open_still = ground (arith, pending);
        unexpired = fresh;
        address = address;
        holds = known_account-eq (who.email_of user) known;
        addressed = ground (arith, mine);
        alone = alone;
        joined = ap (λ (o : Db × MemberRow). o.1) (sym last);
        members = ap (λ (o : Db × MemberRow). o.0.members) (sym last);
        spent =
            subst
              (λ (o : Db × MemberRow).
                (other : String) (later : ℕ)
                → accept who o.0 other raw_token later
                  ≡ err (because 409 Problem.invitation_closed))
              last (spent_lem found);
      }
