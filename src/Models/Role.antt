-- ===== src/Models/Role.antt =====
-- internal/models/organization.go: roles and their order.
use upguardly_server.Base.{ℕ, Bool, String, leb}

-- `type OrgRole string`; `other` is any value outside the constants.
pub data OrgRole : Type 0 where
  owner admin member viewer : OrgRole
  other : String → OrgRole

-- `roleWeight[role]`; a key that the map lacks reads as 0.
unfoldable pub role_weight : OrgRole → ℕ
role_weight viewer = 0
role_weight member = 1
role_weight admin = 2
role_weight owner = 3
role_weight (OrgRole.other _) = 0

unfoldable pub role_at_least : OrgRole → OrgRole → Bool
unfolding role_weight
role_at_least role min_role = leb (role_weight min_role) (role_weight role)
