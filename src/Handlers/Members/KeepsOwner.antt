-- ===== src/Handlers/Members/KeepsOwner.antt =====
-- The owner's membership across the member handlers (internal/api/handlers/members.go).
use text.Mathlib.TextEquality.{eq_iff}
use upguardly_server.Base.{
  ◌≡◌, refl, sym, ap, subst, ◌∙◌, true, false, not, ◌&&◌, List, [], ◌∷◌, some, String, ok, refuse,
  refuse-eq-ok, >>=-eq-ok, ok-injective, arith, if◌then◌else◌, ◌=?◌, string_eq, filter, map, inl,
  inr, Bool-cases, Result, err,
}
use upguardly_server.Models.Role.{OrgRole, owner}
use upguardly_server.Database.{Db, MemberRow}
use upguardly_server.Database.Monitors.{find_member}
use upguardly_server.Database.Members.{
  is_owner, is_row, update_member_role, remove_member, member_or_missing,
}
use upguardly_server.Handlers.{Refusal, Problem, because}
use upguardly_server.Handlers.CreateMonitor.Granted.{or_refuse-eq-ok}
use upguardly_server.Handlers.Members.{
  existing_member, update_role, remove, MemberChange, set_role, take_out, change_member, db_after,
  change_members,
}

module _ (org user target : String) (apart : (target =? user) ≡ false) where
  find_member-remove :
      (ms : List MemberRow)
      → find_member org user (filter (λ m. not (is_row org target m)) ms) ≡ find_member org user ms
  unfolding find_member
  find_member-remove [] = refl
  find_member-remove (m ∷ ms) = ground (
    arith,
    find_member-remove ms,
    eq_iff m.user_id target,
    eq_iff m.user_id user,
    eq_iff target user,
    apart,
  )

  find_member-role :
      (role : OrgRole) (ms : List MemberRow)
      → find_member org user
          (map (λ old. if is_row org target old then record old { role = role } else old) ms)
        ≡ find_member org user ms
  unfolding find_member
  find_member-role role [] = refl
  find_member-role role (m ∷ ms) = ground (
    arith,
    find_member-role role ms,
    eq_iff m.user_id target,
    eq_iff m.user_id user,
    eq_iff target user,
    apart,
  )

module _ (db : Db) (org user target : String) {m existing : MemberRow} where
  -- A target that is not the owner is not the user who is.
  owner_apart :
      find_member org user db.members ≡ some m
      → m.role ≡ owner
      → existing_member (find_member org target db.members) ≡ ok existing
      → is_owner existing.role ≡ false
      → (target =? user) ≡ false
  owner_apart there role found other = elim (Bool-cases (target =? user)) [
    | inr e ↦ e
    | inl e ↦
        let same : ok m ≡ ok existing =
          ap existing_member
            (sym there ∙ ap (λ u. find_member org u db.members) (sym ((eq_iff target user).0 e)))
          ∙ found in
        let clash : true ≡ false =
          ap is_owner (sym role)
          ∙ ap (λ (x : MemberRow). is_owner x.role) (ok-injective same)
          ∙ other in
        cc
  ]

module _ (db : Db) (org user target : String) {m : MemberRow} where
  -- An accepted role change, of any member.
  update_role-keeps_owner :
      (role : OrgRole) {out : Db × MemberRow}
      → find_member org user db.members ≡ some m
      → m.role ≡ owner
      → update_role db org target role ≡ ok out
      → find_member org user out.0.members ≡ some m
  unfolding update_role update_member_role
  update_role-keeps_owner role {out} there is h =
      let (existing, found, h1) =
        >>=-eq-ok (existing_member (find_member org target db.members)) _ h in
      let (_, other, h2) =
        >>=-eq-ok (refuse (is_owner existing.role) (because 403 Problem.role_forbidden)) _ h1 in
      let apart =
        owner_apart db org user target there is found
          (refuse-eq-ok _ (because 403 Problem.role_forbidden) other) in
      let stored = or_refuse-eq-ok (λ e. because 500 Problem.update_failed) _ h2 in
      let (_, _, last) =
        >>=-eq-ok (member_or_missing (find_member org target db.members)) _ stored in
      subst (λ (o : Db × MemberRow). find_member org user o.0.members ≡ some m) (ok-injective last)
        (find_member-role org user target apart role db.members ∙ there)

  -- An accepted removal, by any caller.
  remove-keeps_owner :
      (caller : String) {out : Db}
      → find_member org user db.members ≡ some m
      → m.role ≡ owner
      → remove db org caller target ≡ ok out
      → find_member org user out.members ≡ some m
  unfolding remove remove_member
  remove-keeps_owner caller {out} there is h =
      let (existing, found, h1) =
        >>=-eq-ok (existing_member (find_member org target db.members)) _ h in
      let (_, a, h2) =
        >>=-eq-ok
          (refuse (is_owner existing.role && not (caller =? target))
            (because 403 Problem.role_forbidden))
          _ h1 in
      let (_, b, h3) =
        >>=-eq-ok
          (refuse (is_owner existing.role && (caller =? target))
            (because 403 Problem.role_forbidden))
          _ h2 in
      let na = refuse-eq-ok _ (because 403 Problem.role_forbidden) a in
      let nb = refuse-eq-ok _ (because 403 Problem.role_forbidden) b in
      let other : is_owner existing.role ≡ false = ground (arith, na, nb) in
      let apart = owner_apart db org user target there is found other in
      let stored = or_refuse-eq-ok (λ e. because 500 Problem.update_failed) _ h3 in
      let (_, _, last) =
        >>=-eq-ok (member_or_missing (find_member org target db.members)) _ stored in
      subst (λ (o : Db). find_member org user o.members ≡ some m) (ok-injective last)
        (find_member-remove org user target apart db.members ∙ there)

module _ (org user : String) {m : MemberRow} where
  change_member-keeps_owner :
      (db : Db) (c : MemberChange) {db' : Db}
      → find_member org user db.members ≡ some m
      → m.role ≡ owner
      → change_member db org c ≡ ok db'
      → find_member org user db'.members ≡ some m
  unfolding change_member
  change_member-keeps_owner db (set_role target role) {db'} there is h =
      let (out, accepted, last) = >>=-eq-ok (update_role db org target role) _ h in
      subst (λ (o : Db). find_member org user o.members ≡ some m) (ok-injective last)
        (update_role-keeps_owner db org user target role there is accepted)
  change_member-keeps_owner db (take_out caller target) there is h =
      remove-keeps_owner db org user target caller there is h

  db_after-keeps_owner :
      (db : Db) (r : Result Refusal Db)
      → find_member org user db.members ≡ some m
      → ((db' : Db) → r ≡ ok db' → find_member org user db'.members ≡ some m)
      → find_member org user (db_after db r).members ≡ some m
  db_after-keeps_owner db (ok db') there kept = kept db' refl
  db_after-keeps_owner db (err e) there kept = there

  -- Whatever role changes and removals are requested, by whomever and in whatever order, the
  -- membership of the owner stays as it was.
  pub change_members-keeps_owner :
      (db : Db) (cs : List MemberChange)
      → find_member org user db.members ≡ some m
      → m.role ≡ owner
      → find_member org user (change_members db org cs).members ≡ some m
  unfolding change_members
  change_members-keeps_owner db [] there is = there
  change_members-keeps_owner db (c ∷ cs) there is =
      let r = change_member db org c in
      change_members-keeps_owner (db_after db r) cs
        (db_after-keeps_owner db r there (λ db' h. change_member-keeps_owner db c there is h)) is
