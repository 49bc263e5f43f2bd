-- ===== src/Database/Members/Seats.antt =====
-- The login seats of an organization (internal/database/bun/store.go, AcceptInvitation).
use upguardly_server.Base.{
  ℕ, ◌+◌, ◌≡◌, ◌⊎◌, refl, subst, Bool, false, not, ◌&&◌, List, [], ◌∷◌, ◌++◌, String, ℤ, pos, lez,
  ◌≤ℤ◌, ok, refuse, >>=-eq-ok, ok-injective, if◌then◌else◌, ◌=?◌, string_eq, length, filter, arith,
}
use upguardly_server.Models.Plan.{unlimited}
use upguardly_server.Database.{MemberRow, InvitationRow, accepted, Db, conflict}
use upguardly_server.Database.Members.{
  holds_seat, count_non_owner_members, open_for, count_pending_invitations, accept_invitation,
  find_open, or_missing, check_seats, seats_without, in_an_organization, set_status, new_member,
}

-- The seats in use: members but the owner, and open invitations.
abbrev pub seats_used : Db → String → ℕ → ℕ
seats_used db org now = count_non_owner_members db org + count_pending_invitations db org now

length-filter-snoc :
    (p : MemberRow → Bool) (ms : List MemberRow) (m : MemberRow)
    → length (filter p (ms ++ m ∷ [])) ≡ length (filter p ms) + (if p m then 1 else 0)
length-filter-snoc p [] m = ground arith
length-filter-snoc p (n ∷ ms) m = ground (arith, length-filter-snoc p ms m)

-- Accepted rows hold no seat.
accepted-filter :
    (org id : String) (now : ℕ) (is : List InvitationRow)
    → length (filter (open_for org now) (set_status accepted (λ i. i.id =? id) is))
      ≡ length (filter (λ i. open_for org now i && not (i.id =? id)) is)
accepted-filter org id now [] = refl
accepted-filter org id now (i ∷ is) = ground (arith, accepted-filter org id now is)

module _ (db : Db) (token user : String) (max : ℤ) (now : ℕ) where
  -- Accepting an invitation never takes the seats of its organization over a limited plan's maximum.
  pub accept_invitation-within :
      {out : Db × MemberRow}
      → accept_invitation db token user max now ≡ ok out
      → (max ≡ unlimited) ⊎ (pos (seats_used out.0 out.1.organization_id now) ≤ℤ max)
  unfolding accept_invitation check_seats count_non_owner_members count_pending_invitations
  accept_invitation-within {out} h =
      let (inv, there, h1) = >>=-eq-ok (or_missing (find_open token now db.invitations)) _ h in
      let (_, seats, h2) = >>=-eq-ok (check_seats db inv max now) _ h1 in
      let (_, free, h3) = >>=-eq-ok (refuse (in_an_organization user db.members) conflict) _ h2 in
      subst
        (λ (o : Db × MemberRow).
          (max ≡ unlimited) ⊎ (pos (seats_used o.0 o.1.organization_id now) ≤ℤ max))
        (ok-injective h3)
        (let grown =
            length-filter-snoc (holds_seat inv.organization_id) db.members (new_member inv user) in
          let same = accepted-filter inv.organization_id inv.id now db.invitations in
          let full : (max ≡ unlimited) ⊎ (lez max (pos (seats_without db inv now)) ≡ false) =
            ground arith in
          ground (arith, grown, same))
