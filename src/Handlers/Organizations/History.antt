-- ===== src/Handlers/Organizations/History.antt =====
-- Every sequence of requests to the account handlers (internal/api/handlers/organizations.go,
-- members.go and invitations.go).
use upguardly_server.Base.{◌≡◌, refl, ap, List, [], ◌∷◌, Result, ok, err, ok-injective, string_eq}
use upguardly_server.Database.{Db}
use upguardly_server.Handlers.{Refusal}
use upguardly_server.Handlers.Invitations.{Identity, accept, revoke}
use upguardly_server.Handlers.Members.{change_member, db_after}
use upguardly_server.Handlers.Organizations.{create_org, update_org, delete_org}
use upguardly_server.Handlers.Organizations.Requests.{
  AccountRequest, establish, rename, dissolve, invite_to, withdraw, join, members_of, state_of,
  serve, serve_all, Orderly,
}
use upguardly_server.Handlers.Organizations.Accepted.{
  establish-Orderly, rename-Orderly, dissolve-Orderly, join-Orderly, withdraw-Orderly,
  change-Orderly,
}
use upguardly_server.Handlers.Organizations.Invited.{create_invitation-Orderly}

after-Orderly :
    (db : Db) (r : Result Refusal Db)
    → Orderly db
    → ((db' : Db) → r ≡ ok db' → Orderly db')
    → Orderly (db_after db r)
after-Orderly db (ok db') h k = k db' refl
after-Orderly db (err e) h k = h

state_of-ok {ℓ} :
    {A : Type ℓ} (r : Result Refusal (Db × A)) {db' : Db}
    → state_of r ≡ ok db'
    → (a : A) × (r ≡ ok (db', a))
state_of-ok (ok (db'', a)) h = (a, ap (λ (d : Db). ok (d, a)) (ok-injective h))
state_of-ok (err e) h = cc

module _ (who : Identity) where
  serve-Orderly : (db : Db) (r : AccountRequest) → Orderly db → Orderly (serve who db r)
  unfolding serve
  serve-Orderly db (establish user name id) h =
      after-Orderly db (state_of (create_org db user name id)) h (λ db' k.
        establish-Orderly db h user name id (state_of-ok (create_org db user name id) k).1)
  serve-Orderly db (rename org name) h =
      after-Orderly db (state_of (update_org db org name)) h
        (λ db' k. rename-Orderly db h org name (state_of-ok (update_org db org name) k).1)
  serve-Orderly db (dissolve org) h =
      after-Orderly db (delete_org db org) h (λ db' k. dissolve-Orderly db h org k)
  serve-Orderly db (invite_to org caller id req fresh now) h =
      create_invitation-Orderly who org caller id req fresh now db h
  serve-Orderly db (withdraw org id) h =
      after-Orderly db (revoke db org id) h (λ db' k. withdraw-Orderly db h org id k)
  serve-Orderly db (join user token now) h =
      after-Orderly db (state_of (accept who db user token now)) h (λ db' k.
        join-Orderly db h who user token now (state_of-ok (accept who db user token now) k).1)
  serve-Orderly db (members_of org c) h =
      after-Orderly db (change_member db org c) h (λ db' k. change-Orderly db h org c k)

  -- Whatever is requested of the account handlers, and in whatever order: where every organization
  -- has its owner among its members as its OWNER and no user is in two organizations, the same
  -- holds after it.
  pub serve_all-Orderly :
      (db : Db) (rs : List AccountRequest) → Orderly db → Orderly (serve_all who db rs)
  unfolding serve_all
  serve_all-Orderly db [] h = h
  serve_all-Orderly db (r ∷ rs) h = serve_all-Orderly (serve who db r) rs (serve-Orderly db r h)
