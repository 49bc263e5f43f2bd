-- ===== src/Handlers/Invitations/Lapsed.antt =====
-- What the loop of CreateInvitation (internal/api/handlers/invitations.go) expires.
use text.Mathlib.TextEquality.{eq_iff}
use mathlib.Core.List.{reverse, reverse_aux}
use upguardly_server.Base.{
  ℕ, ◌≡◌, refl, ap, ◌∙◌, Bool, true, false, not, ◌&&◌, ◌||◌, List, [], ◌∷◌, String, ltb, ◌==◌,
  ==_iff, ◌=?◌, string_eq, filter, contains, Distinct, All, arith, inl, inr, Bool-cases,
}
use upguardly_server.Database.{Db, InvitationRow, expired}
use upguardly_server.Database.Members.{is_pending, open_for, set_status, expire_invitation}
use upguardly_server.Database.Invitations.{list_invitations}
use upguardly_server.Handlers.Invitations.{Identity, supersede}

abbrev pub invitation_ids : List InvitationRow → List String
invitation_ids [] = []
invitation_ids (i ∷ is) = i.id ∷ invitation_ids is

-- The rows of the invitation's id lapse when it does.
abbrev same_lapse : InvitationRow → List InvitationRow → Bool
same_lapse i [] = true
same_lapse i (r ∷ rs) = (not (r.id =? i.id) || r.expires_at == i.expires_at) && same_lapse i rs

abbrev Known : List InvitationRow → List InvitationRow → Type 0
Known rows is = All (λ i. same_lapse i rows ≡ true) is

absent-same_lapse :
    (i : InvitationRow) (rs : List InvitationRow)
    → contains (invitation_ids rs) i.id ≡ false
    → same_lapse i rs ≡ true
absent-same_lapse i [] h = refl
absent-same_lapse i (r ∷ rs) h = ground (arith, absent-same_lapse i rs)

wider-Known :
    (r : InvitationRow) (rows is : List InvitationRow)
    → contains (invitation_ids is) r.id ≡ false
    → Known rows is
    → Known (r ∷ rows) is
wider-Known r rows [] h k = tt
wider-Known r rows (i ∷ is) h k = (
  ground (arith, h, k.0, eq_iff r.id i.id, eq_iff i.id r.id),
  wider-Known r rows is (ground (arith, h)) k.1,
)

own-Known : (rows : List InvitationRow) → Distinct (invitation_ids rows) → Known rows rows
own-Known [] d = tt
own-Known (r ∷ rows) d = (
  ground (arith, (==_iff r.expires_at r.expires_at).1 refl, absent-same_lapse r rows d.0),
  wider-Known r rows rows d.0 (own-Known rows d.1),
)

filter-Known :
    (rows : List InvitationRow) (p : InvitationRow → Bool) (is : List InvitationRow)
    → Known rows is
    → Known rows (filter p is)
filter-Known rows p [] k = tt
filter-Known rows p (i ∷ is) k = elim (Bool-cases (p i)) [
  | inl e ↦ rw e (k.0, filter-Known rows p is k.1)
  | inr e ↦ rw e (filter-Known rows p is k.1)
]

reverse_aux-Known :
    (rows is acc : List InvitationRow)
    → Known rows is
    → Known rows acc
    → Known rows (reverse_aux is acc)
reverse_aux-Known rows [] acc k l = l
reverse_aux-Known rows (i ∷ is) acc k l = reverse_aux-Known rows is (i ∷ acc) k.1 (k.0, l)

reverse-Known : (rows is : List InvitationRow) → Known rows is → Known rows (reverse is)
reverse-Known rows is k = reverse_aux-Known rows is [] k tt

-- Expiring rows leaves their times alone.
expired-same_lapse :
    (p : InvitationRow → Bool) (i : InvitationRow) (rs : List InvitationRow)
    → same_lapse i (set_status expired p rs) ≡ same_lapse i rs
expired-same_lapse p i [] = refl
expired-same_lapse p i (r ∷ rs) = elim (Bool-cases (p r)) [
  | inl e ↦ rw e (
      ap (λ b. (not (r.id =? i.id) || r.expires_at == i.expires_at) && b)
        (expired-same_lapse p i rs))
  | inr e ↦ rw e (
      ap (λ b. (not (r.id =? i.id) || r.expires_at == i.expires_at) && b)
        (expired-same_lapse p i rs))
]

expired-Known :
    (p : InvitationRow → Bool) (rows is : List InvitationRow)
    → Known rows is
    → Known (set_status expired p rows) is
expired-Known p rows [] k = tt
expired-Known p rows (i ∷ is) k = (expired-same_lapse p i rows ∙ k.0, expired-Known p rows is k.1)

module _ (org : String) (now : ℕ) where
  -- An invitation that has lapsed is not open, expired or not.
  expired-open :
      (i : InvitationRow) (rs : List InvitationRow)
      → same_lapse i rs ≡ true
      → ltb now i.expires_at ≡ false
      → filter (open_for org now) (set_status expired (λ r. r.id =? i.id && is_pending r.status) rs)
        ≡ filter (open_for org now) rs
  expired-open i [] h late = refl
  expired-open i (r ∷ rs) h late =
      let rest = expired-open i rs (ground (arith, h)) late in
      elim (Bool-cases (r.id =? i.id && is_pending r.status)) [
        | inr e ↦ elim (Bool-cases (open_for org now r)) [
          | inl o ↦ rw (e, o) (ap (λ xs. r ∷ xs) rest)
          | inr o ↦ rw (e, o) rest
        ]
        | inl e ↦
            let times : r.expires_at ≡ i.expires_at =
              (==_iff r.expires_at i.expires_at).0 (ground (arith, h, e)) in
            let shut : open_for org now r ≡ false = ground (arith, late, times) in
            rw e (rw shut (ground (arith, rest)))
      ]

  -- The loop keeps the open invitations, in their order.
  supersede-open :
      (who : Identity) (email : String) (is : List InvitationRow) (db : Db)
      → Known db.invitations is
      → filter (open_for org now) (supersede who email now is db).0.invitations
        ≡ filter (open_for org now) db.invitations
  unfolding supersede expire_invitation
  supersede-open who email [] db k = refl
  supersede-open who email (i ∷ is) db k =
      elim (Bool-cases (is_pending i.status && who.same_folded i.email email)) [
        | inr e ↦ rw e (supersede-open who email is db k.1)
        | inl e ↦ elim (Bool-cases (ltb now i.expires_at)) [
          | inl soon ↦ rw (e, soon) refl
          | inr over ↦
              rw (e, over)
                (supersede-open who email is (expire_invitation db i.id)
                    (expired-Known (λ r. r.id =? i.id && is_pending r.status) db.invitations is k.1)
                  ∙ expired-open i db.invitations k.0 over)
        ]
      ]

  pub looped-open :
      (who : Identity) (email : String) (db : Db)
      → Distinct (invitation_ids db.invitations)
      → filter
          (open_for org now)
          (supersede who email now (list_invitations db org) db).0.invitations
        ≡ filter (open_for org now) db.invitations
  unfolding list_invitations
  looped-open who email db distinct = supersede-open who email (list_invitations db org) db (
      reverse-Known db.invitations (filter (λ i. i.organization_id =? org) db.invitations) (
        filter-Known db.invitations (λ i. i.organization_id =? org) db.invitations
          (own-Known db.invitations distinct)))

-- The loop keeps the members.
pub supersede_members :
    (who : Identity) (email : String) (now : ℕ) (is : List InvitationRow) (db : Db)
    → (supersede who email now is db).0.members ≡ db.members
unfolding supersede expire_invitation
supersede_members who email now [] db = refl
supersede_members who email now (i ∷ is) db = ground (
  arith,
  supersede_members who email now is db,
  supersede_members who email now is (expire_invitation db i.id),
)
