-- ===== src/Handlers/Regions.antt =====
-- internal/api/handlers/regions.go: the checks on a requested region list.
use upguardly_server.Base.{
  ◌≡◌, ◌⊎◌, true, not, ◌&&◌, List, [], ◌∷◌, String, pos, ltz, eqz, pos_part, Result, ok, err, ◌>>=◌,
  ◌>>◌, refuse, contains, length, string_eq, All, arith, >>=-eq-ok, Bool-cases, inl, inr, ◌≤ℤ◌,
  subst,
}
use upguardly_server.Models.Plan.{PlanLimits, unlimited}
use upguardly_server.Models.Region.{RegionError, not_available, plan_cap, normalize_regions}
use upguardly_server.Models.Region.Normalize.{IsNormal, normalize_regions-IsNormal}

-- The loop over the normalized list.
unfoldable pub all_available : List String → List String → Result RegionError (Unit {0})
all_available available [] = ok tt
all_available available (r ∷ rs) =
    refuse (not (contains available r)) (not_available r) >> all_available available rs

unfoldable pub validate_regions :
    List String → List String → PlanLimits → Result RegionError (List String)
unfolding all_available
validate_regions available regions limits = do
  normalized ← normalize_regions regions
  all_available available normalized
  refuse
      (not (eqz limits.max_regions unlimited) && ltz limits.max_regions (pos (length normalized)))
      (plan_cap (pos_part limits.max_regions))
  ok normalized

all_available-All :
    (available rs : List String)
    → all_available available rs ≡ ok tt
    → All (λ r. contains available r ≡ true) rs
unfolding all_available
all_available-All available [] h = tt
all_available-All available (r ∷ rs) h = elim (Bool-cases (contains available r)) [
  | inl there ↦ (there, all_available-All available rs (rw there at h))
  | inr gone ↦ let refused : err (not_available r) ≡ ok tt = rw gone at h in cc
]

-- The regions of a request that passes: normalized, deployed, and within the plan's cap.
pub record Allowed (available regions : List String) (limits : PlanLimits) (out : List String)
    : Type 0 where
  pub normal : IsNormal regions out
  pub deployed : All (λ r. contains available r ≡ true) out
  pub capped : (limits.max_regions ≡ unlimited) ⊎ (pos (length out) ≤ℤ limits.max_regions)

-- A region list that passes is normalized (distinct, registered, exactly what was asked for, not
-- empty), every region of it is deployed, and it is within the plan's cap.
pub validate_regions-Allowed :
    (available regions : List String) (limits : PlanLimits) {out : List String}
    → validate_regions available regions limits ≡ ok out
    → Allowed available regions limits out
unfolding validate_regions
validate_regions-Allowed available regions limits {out} h =
    let (n, normal, rest) = >>=-eq-ok (normalize_regions regions) _ h in
    let (_, deployed, last) = >>=-eq-ok (all_available available n) _ rest in
    let same : n ≡ out = ground arith in
    subst (Allowed available regions limits) same (record {
      normal = normalize_regions-IsNormal regions normal;
      deployed = all_available-All available n deployed;
      capped = ground arith;
    })
