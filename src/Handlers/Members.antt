-- ===== src/Handlers/Members.antt =====
-- internal/api/handlers/members.go and internal/api/middleware/org_auth.go, on the database tables.
pub mod KeepsOwner
use upguardly_server.Base.{
  Bool, true, false, not, ◌&&◌, List, [], ◌∷◌, Option, none, some, String, Result, ok, err, ◌>>=◌,
  ◌>>◌, refuse, if◌then◌else◌, ◌=?◌, string_eq,
}
use upguardly_server.Models.Role.{OrgRole, owner, role_at_least}
use upguardly_server.Database.{Db, MemberRow, StoreError}
use upguardly_server.Database.Monitors.{find_member}
use upguardly_server.Database.Members.{is_owner, update_member_role, remove_member}
use upguardly_server.Handlers.{Refusal, Problem, because}
use upguardly_server.Handlers.Settings.{or_refuse}

abbrev pub existing_member : Option MemberRow → Result Refusal MemberRow
existing_member none = err (because 404 Problem.not_found)
existing_member (some m) = ok m

-- The role check of `RequireOrgRole`, for an authenticated user and an id in the path.
unfoldable pub require_org_role : Db → OrgRole → String → String → Result Refusal OrgRole
require_org_role db min_role org user = elim (find_member org user db.members) [
  | none ↦ err (because 403 Problem.not_a_member)
  | some m ↦
      if role_at_least m.role min_role then ok m.role else err (because 403 Problem.role_forbidden)
]

-- `UpdateMemberRole`: the owner is not demoted.
unfoldable pub update_role : Db → String → String → OrgRole → Result Refusal (Db × MemberRow)
update_role db org target role = do
  existing ← existing_member (find_member org target db.members)
  refuse (is_owner existing.role) (because 403 Problem.role_forbidden)
  or_refuse (λ e. because 500 Problem.update_failed) (update_member_role db org target role)

-- `RemoveMember`: the owner is not removed, by others or by themselves.
unfoldable pub remove : Db → String → String → String → Result Refusal Db
remove db org caller target = do
  existing ← existing_member (find_member org target db.members)
  refuse (is_owner existing.role && not (caller =? target)) (because 403 Problem.role_forbidden)
  refuse (is_owner existing.role && (caller =? target)) (because 403 Problem.role_forbidden)
  or_refuse (λ e. because 500 Problem.update_failed) (remove_member db org target)

-- A request about the members of an organization, as the two handlers take it.
pub data MemberChange : Type 0 where
  set_role : String → OrgRole → MemberChange
  take_out : String → String → MemberChange

unfoldable pub change_member : Db → String → MemberChange → Result Refusal Db
change_member db org (set_role target role) = do out ← update_role db org target role; ok out.0
change_member db org (take_out caller target) = remove db org caller target

-- A request that is refused changes nothing.
abbrev pub db_after : Db → Result Refusal Db → Db
db_after db (ok db') = db'
db_after db (err e) = db

-- Requests one after the other.
unfoldable pub change_members : Db → String → List MemberChange → Db
change_members db org [] = db
change_members db org (c ∷ cs) = change_members (db_after db (change_member db org c)) org cs
