-- ===== src/Handlers/Organizations/Requests.antt =====
-- The requests to the account handlers (internal/api/handlers/organizations.go, members.go and
-- invitations.go).
use upguardly_server.Base.{ℕ, List, [], ◌∷◌, Option, String, Result, ok, err, string_eq}
use upguardly_server.Database.{Db}
use upguardly_server.Handlers.{Refusal}
use upguardly_server.Handlers.Invitations.{
  Identity, InviteMemberRequest, create_invitation, accept, revoke,
}
use upguardly_server.Handlers.Members.{MemberChange, change_member, db_after}
use upguardly_server.Handlers.Organizations.{create_org, update_org, delete_org}
use upguardly_server.Handlers.Organizations.Founded.{Founded}

-- One request, with the ids and the token that it draws.
pub data AccountRequest : Type 0 where
  establish : String → String → String → AccountRequest
  rename : String → Option String → AccountRequest
  dissolve : String → AccountRequest
  invite_to : String → String → String → InviteMemberRequest → Option String → ℕ → AccountRequest
  withdraw : String → String → AccountRequest
  join : String → String → ℕ → AccountRequest
  members_of : String → MemberChange → AccountRequest

abbrev pub state_of {ℓ} : {A : Type ℓ} → Result Refusal (Db × A) → Result Refusal Db
state_of (ok out) = ok out.0
state_of (err e) = err e

-- The handler that the request goes to; a refusal keeps the tables, save that an invitation that is
-- refused may have expired older ones.
unfoldable pub serve : Identity → Db → AccountRequest → Db
serve who db (establish user name id) = db_after db (state_of (create_org db user name id))
serve who db (rename org name) = db_after db (state_of (update_org db org name))
serve who db (dissolve org) = db_after db (delete_org db org)
serve who db (invite_to org caller id req fresh now) =
    (create_invitation who db org caller id req fresh now).0
serve who db (withdraw org id) = db_after db (revoke db org id)
serve who db (join user token now) = db_after db (state_of (accept who db user token now))
serve who db (members_of org c) = db_after db (change_member db org c)

unfoldable pub serve_all : Identity → Db → List AccountRequest → Db
serve_all who db [] = db
serve_all who db (r ∷ rs) = serve_all who (serve who db r) rs

-- Every organization has its owner among its members, as its OWNER, and no user is in two.
abbrev pub Orderly : Db → Type 0
Orderly db = Founded db.organizations db.members
