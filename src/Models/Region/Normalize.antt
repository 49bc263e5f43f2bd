-- ===== src/Models/Region/Normalize.antt =====
-- What NormalizeRegions (internal/models/monitor.go) accepts and returns.
use text.Mathlib.TextEquality.{eq_iff}
use upguardly_server.Base.{
  ◌≡◌, ◌≢◌, refl, sym, ◌∙◌, ap, subst, ok-injective, true, false, not, ◌&&◌, List, [], ◌∷◌, String,
  ok, arith, contains, Distinct, All, string_eq, ◌=?◌, Bool-cases, err, inl, inr, >>=-eq-ok,
  =?_refl,
}
use upguardly_server.Models.Region.{
  unknown_region, valid_region, normalize_loop, at_least_one, normalize_regions,
}

-- What is kept is new, registered and distinct, and nothing that was asked for is lost.
record Kept (seen rs out : List String) : Type 0 where
  distinct : Distinct out
  registered : All (λ r. valid_region r ≡ true) out
  same : (a : String) → contains out a ≡ (contains rs a && not (contains seen a))

module _ (seen : List String) (r : String) (rs out : List String) where
  Kept-skip : contains seen r ≡ true → Kept seen rs out → Kept seen (r ∷ rs) out
  Kept-skip h k = record {
    distinct = k.distinct;
    registered = k.registered;
    same = λ a. elim (Bool-cases (r =? a)) [
      | inl e ↦
          let same_text : r ≡ a = (eq_iff r a).0 e in
          let hidden : contains seen a ≡ true = ap (contains seen) (sym same_text) ∙ h in
          ground (arith, k.same a)
      | inr e ↦ ground (arith, k.same a)
    ];
  }

  Kept-cons :
      contains seen r ≡ false
      → valid_region r ≡ true
      → Kept (r ∷ seen) rs out
      → Kept seen (r ∷ rs) (r ∷ out)
  Kept-cons h v k = record {
    distinct = (ground (arith, k.same r, =?_refl r), k.distinct);
    registered = (v, k.registered);
    same = λ a. elim (Bool-cases (r =? a)) [
      | inl e ↦
          let same_text : r ≡ a = (eq_iff r a).0 e in
          let fresh : contains seen a ≡ false = ap (contains seen) (sym same_text) ∙ h in
          ground (arith, k.same a)
      | inr e ↦ ground (arith, k.same a)
    ];
  }

normalize_loop-Kept :
    (seen rs : List String) {out : List String} → normalize_loop seen rs ≡ ok out → Kept seen rs out
unfolding normalize_loop
normalize_loop-Kept seen [] {out = []} h = record {
  distinct = tt;
  registered = tt;
  same = λ a. refl;
}
normalize_loop-Kept seen [] {out = r ∷ rs} h = cc
normalize_loop-Kept seen (r ∷ rs) {out} h = elim (Bool-cases (contains seen r)) [
  | inl old ↦ Kept-skip seen r rs out old (normalize_loop-Kept seen rs (rw old at h))
  | inr new ↦ elim (Bool-cases (valid_region r)) [
    | inl v ↦
        let (rest, found, same) =
          >>=-eq-ok (normalize_loop (r ∷ seen) rs) (λ out. ok (r ∷ out)) (rw (new, v) at h) in
        subst (Kept seen (r ∷ rs)) (ok-injective same)
          (Kept-cons seen r rs rest new v (normalize_loop-Kept (r ∷ seen) rs found))
    | inr v ↦ let refused : err (unknown_region r) ≡ ok out = rw (new, v) at h in cc
  ]
]

-- Regions that are all registered never make the loop fail.
normalize_loop_total :
    (seen rs : List String)
    → All (λ r. valid_region r ≡ true) rs
    → (out : List String) × (normalize_loop seen rs ≡ ok out)
unfolding normalize_loop
normalize_loop_total seen [] h = ([], refl)
normalize_loop_total seen (r ∷ rs) (v, h) = elim (Bool-cases (contains seen r)) [
  | inl old ↦ rw old (normalize_loop_total seen rs h)
  | inr new ↦
      let (out, found) = normalize_loop_total (r ∷ seen) rs h in (r ∷ out, rw (new, v, found))
]

abbrev Avoids : List String → List String → Type 0
Avoids seen = All (λ r. contains seen r ≡ false)

Avoids-cons :
    (r : String) (seen rs : List String)
    → contains rs r ≡ false
    → Avoids seen rs
    → Avoids (r ∷ seen) rs
Avoids-cons r seen [] h k = tt
Avoids-cons r seen (x ∷ rs) h (fresh, k) =
    (ground (arith, eq_iff r x, eq_iff x r), Avoids-cons r seen rs (ground arith) k)

-- A list that needs no normalizing is returned as it is, in its order.
normalize_loop_fixed :
    (seen rs : List String)
    → Distinct rs
    → All (λ r. valid_region r ≡ true) rs
    → Avoids seen rs
    → normalize_loop seen rs ≡ ok rs
unfolding normalize_loop
normalize_loop_fixed seen [] d v a = refl
normalize_loop_fixed seen (r ∷ rs) (fresh, d) (v, vs) (new, a) =
    rw (new, v, normalize_loop_fixed (r ∷ seen) rs d vs (Avoids-cons r seen rs fresh a))

Avoids-nil : (rs : List String) → Avoids [] rs
Avoids-nil [] = tt
Avoids-nil (r ∷ rs) = (refl, Avoids-nil rs)

pub record IsNormal (rs out : List String) : Type 0 where
  pub distinct : Distinct out
  pub registered : All (λ r. valid_region r ≡ true) out
  pub same : (a : String) → contains out a ≡ contains rs a
  pub some_region : out ≢ []

at_least_one-eq-ok :
    (l : List String) {out : List String} → at_least_one l ≡ ok out → (l ≡ out) × (out ≢ [])
unfolding at_least_one
at_least_one-eq-ok [] h = cc
at_least_one-eq-ok (r ∷ rs) h = (ok-injective h, λ e. cc)

-- A list that is accepted comes back without repetitions: the regions returned are distinct and
-- registered, they are exactly the regions asked for, and there is at least one.
pub normalize_regions-IsNormal :
    (rs : List String) {out : List String} → normalize_regions rs ≡ ok out → IsNormal rs out
unfolding normalize_regions
normalize_regions-IsNormal rs {out} h =
    let (l, found, kept) = >>=-eq-ok (normalize_loop [] rs) at_least_one h in
    let (same_list, some_left) = at_least_one-eq-ok l kept in
    let k = normalize_loop-Kept [] rs (found ∙ ap ok same_list) in
    record {
      distinct = k.distinct;
      registered = k.registered;
      same = λ a. ground (arith, k.same a);
      some_region = some_left;
    }

-- Normalizing a normal list changes nothing, its order included; so normalizing twice is
-- normalizing once.
pub normalize_regions_idem :
    (rs : List String) {out : List String}
    → normalize_regions rs ≡ ok out
    → normalize_regions out ≡ ok out
normalize_regions_idem rs {out = []} h = absurd ((normalize_regions-IsNormal rs h).some_region refl)
normalize_regions_idem rs {out = r ∷ out} h = fixed (normalize_regions-IsNormal rs h)
  where
    fixed : IsNormal rs (r ∷ out) → normalize_regions (r ∷ out) ≡ ok (r ∷ out)
    fixed n =
        unfold normalize_regions in
        rw (normalize_loop_fixed [] (r ∷ out) n.distinct n.registered (Avoids-nil (r ∷ out)))

-- Nothing is refused but an unregistered region and the empty list.
pub normalize_regions_total :
    (rs : List String)
    → All (λ r. valid_region r ≡ true) rs
    → rs ≢ []
    → (out : List String) × (normalize_regions rs ≡ ok out)
unfolding normalize_regions
normalize_regions_total [] h n = absurd (n refl)
normalize_regions_total (r ∷ rs) (v, h) n =
    let (out, found) = normalize_loop_total (r ∷ []) rs h in
    (r ∷ out, unfold normalize_loop in rw (v, found))
