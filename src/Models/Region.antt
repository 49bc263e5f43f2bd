-- ===== src/Models/Region.antt =====
-- internal/models/region.go: the registry of regions; NormalizeRegions of monitor.go.
pub mod Normalize
use upguardly_server.Base.{
  ℕ, Bool, List, [], ◌∷◌, Option, none, some, String, Result, ok, err, ◌>>=◌, is_some, ◌=?◌,
  string_eq, contains, map, if◌then◌else◌,
}

pub record Region : Type 0 where
  pub id : String
  pub name : String

unfoldable pub regions : List Region
regions =
    record { id = "ca-east"; name = "Canada (East)" }
    ∷ record { id = "us-west"; name = "US West" }
    ∷ record { id = "eu-west-fr"; name = "Europe (France)" }
    ∷ record { id = "eu-west-de"; name = "Europe (Germany)" }
    ∷ []

abbrev pub default_region : String
default_region = "ca-east"

-- The loop of `RegionByID`.
unfoldable pub find_region : String → List Region → Option Region
find_region id [] = none
find_region id (r ∷ rs) = if r.id =? id then some r else find_region id rs

unfoldable pub region_by_id : String → Option Region
unfolding regions find_region
region_by_id id = find_region id regions

unfoldable pub valid_region : String → Bool
unfolding region_by_id
valid_region id = is_some (region_by_id id)

unfoldable pub region_ids : List String
unfolding regions
region_ids = map (λ (r : Region). r.id) regions

pub data RegionError : Type 0 where
  unknown_region : String → RegionError
  no_region : RegionError
  not_available : String → RegionError
  -- `regionPlanError{max}` of internal/api/handlers/regions.go.
  plan_cap : ℕ → RegionError

-- The loop: `seen` is the map, and what the loop appends to `out` is consed here.
unfoldable pub normalize_loop : List String → List String → Result RegionError (List String)
normalize_loop seen [] = ok []
normalize_loop seen (r ∷ rs) =
    let skipped = normalize_loop seen rs in
    let kept = normalize_loop (r ∷ seen) rs in
    if contains seen r
    then skipped
    else (if valid_region r then (kept >>= λ out. ok (r ∷ out)) else err (unknown_region r))

unfoldable pub at_least_one : List String → Result RegionError (List String)
at_least_one [] = err no_region
at_least_one (r ∷ rs) = ok (r ∷ rs)

unfoldable pub normalize_regions : List String → Result RegionError (List String)
unfolding normalize_loop at_least_one
normalize_regions rs = normalize_loop [] rs >>= at_least_one
