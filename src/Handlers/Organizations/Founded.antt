-- ===== src/Handlers/Organizations/Founded.antt =====
-- What organizations and members are to each other (internal/api/handlers/organizations.go, members.go
-- and invitations.go), and what joining and founding does to it.
use text.Mathlib.TextEquality.{eq_iff}
use upguardly_server.Base.{
  ◌≡◌, refl, ap, ◌∙◌, Bool, true, false, not, ◌&&◌, ◌||◌, List, [], ◌∷◌, ◌++◌, String, ◌=?◌,
  string_eq, filter, contains, Distinct, All, arith, inl, inr, Bool-cases,
}
use upguardly_server.Database.{MemberRow, OrganizationRow}
use upguardly_server.Database.Members.{is_owner, is_row, in_an_organization}

abbrev pub user_ids : List MemberRow → List String
user_ids [] = []
user_ids (m ∷ ms) = m.user_id ∷ user_ids ms

-- The owner of the organization is among the members, as its OWNER.
abbrev pub has_owner : OrganizationRow → List MemberRow → Bool
has_owner o [] = false
has_owner o (m ∷ ms) = (is_row o.id o.owner_id m && is_owner m.role) || has_owner o ms

abbrev pub Founded : List OrganizationRow → List MemberRow → Type 0
Founded os ms = Distinct (user_ids ms) × All (λ o. has_owner o ms ≡ true) os

contains-user_ids :
    (ms : List MemberRow) (user : String) → contains (user_ids ms) user ≡ in_an_organization user ms
unfolding in_an_organization
contains-user_ids [] user = refl
contains-user_ids (m ∷ ms) user = ap (λ b. m.user_id =? user || b) (contains-user_ids ms user)

contains-user_ids-snoc :
    (ms : List MemberRow) (m : MemberRow) (user : String)
    → contains (user_ids (ms ++ m ∷ [])) user ≡ (contains (user_ids ms) user || m.user_id =? user)
contains-user_ids-snoc [] m user = ground arith
contains-user_ids-snoc (x ∷ ms) m user = ground (arith, contains-user_ids-snoc ms m user)

user_ids-snoc-Distinct :
    (ms : List MemberRow) (m : MemberRow)
    → Distinct (user_ids ms)
    → contains (user_ids ms) m.user_id ≡ false
    → Distinct (user_ids (ms ++ m ∷ []))
user_ids-snoc-Distinct [] m d h = (refl, tt)
user_ids-snoc-Distinct (x ∷ ms) m d h = (
  ground (
    arith,
    contains-user_ids-snoc ms m x.user_id,
    d.0,
    eq_iff m.user_id x.user_id,
    eq_iff x.user_id m.user_id,
  ),
  user_ids-snoc-Distinct ms m d.1 (ground (arith, h)),
)

has_owner-snoc :
    (o : OrganizationRow) (ms : List MemberRow) (m : MemberRow)
    → has_owner o ms ≡ true
    → has_owner o (ms ++ m ∷ []) ≡ true
has_owner-snoc o [] m h = cc
has_owner-snoc o (x ∷ ms) m h = ground (arith, has_owner-snoc o ms m)

pub has_owner-last :
    (o : OrganizationRow) (ms : List MemberRow) (m : MemberRow)
    → (is_row o.id o.owner_id m && is_owner m.role) ≡ true
    → has_owner o (ms ++ m ∷ []) ≡ true
has_owner-last o [] m h = ground (arith, h)
has_owner-last o (x ∷ ms) m h = ground (arith, has_owner-last o ms m h)

All-impl :
    (P Q : OrganizationRow → Type 0) (os : List OrganizationRow)
    → ((o : OrganizationRow) → P o → Q o)
    → All P os
    → All Q os
All-impl P Q [] f h = tt
All-impl P Q (o ∷ os) f h = (f o h.0, All-impl P Q os f h.1)

-- Someone who was in no organization joins.
pub snoc-Founded :
    (os : List OrganizationRow) (ms : List MemberRow) (m : MemberRow)
    → in_an_organization m.user_id ms ≡ false
    → Founded os ms
    → Founded os (ms ++ m ∷ [])
snoc-Founded os ms m alone h = (
  user_ids-snoc-Distinct ms m h.0 (contains-user_ids ms m.user_id ∙ alone),
  All-impl (λ o. has_owner o ms ≡ true) (λ o. has_owner o (ms ++ m ∷ []) ≡ true) os
      (λ o k. has_owner-snoc o ms m k) h.1,
)

-- An organization is founded by someone who becomes its owner.
pub new-Founded :
    (os : List OrganizationRow) (ms : List MemberRow) (o : OrganizationRow)
    → has_owner o ms ≡ true
    → Founded os ms
    → Founded (os ++ o ∷ []) ms
new-Founded [] ms o there h = (h.0, (there, tt))
new-Founded (x ∷ os) ms o there h = (h.0, (h.1.0, (new-Founded os ms o there (h.0, h.1.1)).1))

-- The members of which some leave, among them no owner of an organization that stays.
contains-user_ids-filter :
    (p : MemberRow → Bool) (ms : List MemberRow) (user : String)
    → contains (user_ids ms) user ≡ false
    → contains (user_ids (filter p ms)) user ≡ false
contains-user_ids-filter p [] user h = refl
contains-user_ids-filter p (m ∷ ms) user h = ground (arith, contains-user_ids-filter p ms user)

pub user_ids-filter-Distinct :
    (p : MemberRow → Bool) (ms : List MemberRow)
    → Distinct (user_ids ms)
    → Distinct (user_ids (filter p ms))
user_ids-filter-Distinct p [] d = tt
user_ids-filter-Distinct p (m ∷ ms) d = elim (Bool-cases (p m)) [
  | inl e ↦ rw e (contains-user_ids-filter p ms m.user_id d.0, user_ids-filter-Distinct p ms d.1)
  | inr e ↦ rw e (user_ids-filter-Distinct p ms d.1)
]

pub has_owner-filter :
    (o : OrganizationRow) (p : MemberRow → Bool) (ms : List MemberRow)
    → All (λ m. (is_row o.id o.owner_id m && (is_owner m.role && not (p m))) ≡ false) ms
    → has_owner o ms ≡ true
    → has_owner o (filter p ms) ≡ true
has_owner-filter o p [] kept h = cc
has_owner-filter o p (m ∷ ms) kept h = ground (arith, kept.0, has_owner-filter o p ms kept.1)

pub filter-Founded :
    (os : List OrganizationRow) (p : MemberRow → Bool) (ms : List MemberRow)
    → ((o : OrganizationRow) → has_owner o ms ≡ true → has_owner o (filter p ms) ≡ true)
    → Founded os ms
    → Founded os (filter p ms)
filter-Founded os p ms kept h = (
  user_ids-filter-Distinct p ms h.0,
  All-impl (λ o. has_owner o ms ≡ true) (λ o. has_owner o (filter p ms) ≡ true) os kept h.1,
)
