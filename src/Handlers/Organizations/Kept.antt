-- ===== src/Handlers/Organizations/Kept.antt =====
-- Organizations and their members when members change their role or leave, and when organizations are
-- renamed or go (internal/api/handlers/organizations.go and members.go).
use text.Mathlib.TextEquality.{eq_iff}
use upguardly_server.Base.{
  ◌≡◌, refl, sym, subst, Bool, true, false, not, ◌&&◌, ◌||◌, List, [], ◌∷◌, some, String,
  if◌then◌else◌, ◌=?◌, string_eq, filter, map, contains, Distinct, All, arith, inl, inr, Bool-cases,
}
use upguardly_server.Models.Role.{OrgRole}
use upguardly_server.Database.{MemberRow, OrganizationRow}
use upguardly_server.Database.Monitors.{find_member}
use upguardly_server.Database.Members.{is_owner, is_row}
use upguardly_server.Database.Organizations.{renamed}
use upguardly_server.Handlers.Organizations.Founded.{
  user_ids, has_owner, Founded, filter-Founded, user_ids-filter-Distinct, has_owner-filter,
}

or_true : (a : Bool) {b : Bool} → b ≡ true → (a || b) ≡ true
or_true true h = refl
or_true false h = h

or_step : (a : Bool) {b c : Bool} → (b ≡ true → c ≡ true) → (a || b) ≡ true → (a || c) ≡ true
or_step true f h = refl
or_step false f h = f h

or_rest : (a b : Bool) {c : Bool} → b ≡ false → ((a && b) || c) ≡ true → c ≡ true
or_rest a true quiet h = let clash : true ≡ false = quiet in cc
or_rest true false quiet h = h
or_rest false false quiet h = h

plain_role : (a b : Bool) → (a && b) ≡ false → a ≡ true → b ≡ false
plain_role true b h k = h
plain_role false b h k = let clash : true ≡ false = sym k in cc

module _ (org target : String) where
  abbrev pub Plain : List MemberRow → Type 0
  Plain ms = All (λ m. (is_row org target m && is_owner m.role) ≡ false) ms

  absent-Plain : (ms : List MemberRow) → contains (user_ids ms) target ≡ false → Plain ms
  absent-Plain [] h = tt
  absent-Plain (m ∷ ms) h = (ground (arith, h), absent-Plain ms (ground (arith, h)))

  -- A member whose row is not an owner's has no other row that is.
  pub find_member-Plain :
      (ms : List MemberRow) {e : MemberRow}
      → Distinct (user_ids ms)
      → find_member org target ms ≡ some e
      → is_owner e.role ≡ false
      → Plain ms
  unfolding find_member
  find_member-Plain [] d h k = tt
  find_member-Plain (m ∷ ms) {e = e} d h k = elim (Bool-cases (is_row org target m)) [
    | inl here ↦
        let same : m ≡ e = ground (arith, h, here) in
        (
          ground (arith, k, same),
          absent-Plain ms (ground (arith, d.0, here, eq_iff m.user_id target)),
        )
    | inr other ↦ (ground (arith, other), find_member-Plain ms d.1 (rw other at h) k)
  ]

  abbrev pub with_role : OrgRole → MemberRow → MemberRow
  with_role role m = if is_row org target m then record m { role = role } else m

  user_ids-with_role :
      (role : OrgRole) (ms : List MemberRow) → user_ids (map (with_role role) ms) ≡ user_ids ms
  user_ids-with_role role [] = refl
  user_ids-with_role role (m ∷ ms) = ground (arith, user_ids-with_role role ms)

  has_owner-with_role :
      (role : OrgRole) (o : OrganizationRow) (ms : List MemberRow)
      → Plain ms
      → has_owner o ms ≡ true
      → has_owner o (map (with_role role) ms) ≡ true
  has_owner-with_role role o [] plain h = cc
  has_owner-with_role role o (m ∷ ms) plain h =
      let later = has_owner-with_role role o ms plain.1 in
      elim (Bool-cases (is_row org target m)) [
        | inl e ↦
            let quiet = plain_role (is_row org target m) (is_owner m.role) plain.0 e in
            rw e (
              or_true (is_row o.id o.owner_id m && is_owner role)
                (later (or_rest (is_row o.id o.owner_id m) (is_owner m.role) quiet h)))
        | inr e ↦ rw e (or_step (is_row o.id o.owner_id m && is_owner m.role) later h)
      ]

  owners_kept :
      (role : OrgRole) (os : List OrganizationRow) (ms : List MemberRow)
      → Plain ms
      → All (λ o. has_owner o ms ≡ true) os
      → All (λ o. has_owner o (map (with_role role) ms) ≡ true) os
  owners_kept role [] ms plain h = tt
  owners_kept role (o ∷ os) ms plain h =
      (has_owner-with_role role o ms plain h.0, owners_kept role os ms plain h.1)

  -- A member who is not an owner takes another role.
  pub with_role-Founded :
      (role : OrgRole) (os : List OrganizationRow) (ms : List MemberRow)
      → Plain ms
      → Founded os ms
      → Founded os (map (with_role role) ms)
  with_role-Founded role os ms plain h =
      (subst Distinct (sym (user_ids-with_role role ms)) h.0, owners_kept role os ms plain h.1)

  stays :
      (o : OrganizationRow) (ms : List MemberRow)
      → Plain ms
      → All
          (λ m.
            (is_row o.id o.owner_id m && (is_owner m.role && not (not (is_row org target m))))
            ≡ false)
          ms
  stays o [] plain = tt
  stays o (m ∷ ms) plain = (ground (arith, plain.0), stays o ms plain.1)

  -- A member who is not an owner leaves.
  pub leaving-Founded :
      (os : List OrganizationRow) (ms : List MemberRow)
      → Plain ms
      → Founded os ms
      → Founded os (filter (λ m. not (is_row org target m)) ms)
  leaving-Founded os ms plain h =
      filter-Founded os (λ m. not (is_row org target m)) ms
        (λ o k. has_owner-filter o (λ m. not (is_row org target m)) ms (stays o ms plain) k) h

module _ (id : String) where
  of_others :
      (o : OrganizationRow) (ms : List MemberRow)
      → (o.id =? id) ≡ false
      → All
          (λ m.
            (is_row o.id o.owner_id m && (is_owner m.role && not (not (m.organization_id =? id))))
            ≡ false)
          ms
  of_others o [] apart = tt
  of_others o (m ∷ ms) apart =
      (ground (arith, apart, eq_iff m.organization_id o.id), of_others o ms apart)

  owners_left :
      (os : List OrganizationRow) (ms : List MemberRow)
      → All (λ o. has_owner o ms ≡ true) os
      → All
          (λ o. has_owner o (filter (λ m. not (m.organization_id =? id)) ms) ≡ true)
          (filter (λ o. not (o.id =? id)) os)
  owners_left [] ms h = tt
  owners_left (o ∷ os) ms h = elim (Bool-cases (o.id =? id)) [
    | inl e ↦ rw e (owners_left os ms h.1)
    | inr e ↦ rw e (
      has_owner-filter o (λ m. not (m.organization_id =? id)) ms (of_others o ms e) h.0,
      owners_left os ms h.1,
    )
  ]

  -- An organization goes with its members.
  pub gone-Founded :
      (os : List OrganizationRow) (ms : List MemberRow)
      → Founded os ms
      → Founded (filter (λ o. not (o.id =? id)) os) (filter (λ m. not (m.organization_id =? id)) ms)
  gone-Founded os ms h =
      (user_ids-filter-Distinct (λ m. not (m.organization_id =? id)) ms h.0, owners_left os ms h.1)

  -- An organization takes another name.
  pub renamed-Founded :
      (name : String) (os : List OrganizationRow) (ms : List MemberRow)
      → Founded os ms
      → Founded (map (renamed id name) os) ms
  renamed-Founded name [] ms h = h
  renamed-Founded name (o ∷ os) ms h = elim (Bool-cases (o.id =? id)) [
    | inl e ↦ rw e (h.0, (h.1.0, (renamed-Founded name os ms (h.0, h.1.1)).1))
    | inr e ↦ rw e (h.0, (h.1.0, (renamed-Founded name os ms (h.0, h.1.1)).1))
  ]
