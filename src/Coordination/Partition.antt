-- ===== src/Coordination/Partition.antt =====
-- internal/coordination/partition.go. `hash` stands for md5: the unsigned 32-bit number in the first
-- four bytes of the sum of a monitor's id.
pub mod Hash
pub mod Ownership
use mathlib.Core.Option
use upguardly_server.Base.{
  ℕ, zero, suc, ◌+◌, ◌-◌, ◌%◌, ◌≡◌, Bool, true, false, not, List, [], ◌∷◌, ◌++◌, Option, none, some,
  String, ℤ, pos, negsuc, ◌+ℤ◌, if◌then◌else◌, ltb, leb, ◌==◌, contains, filter, length, ◌=?◌,
  string_eq, nat_eq,
}

-- `int32(x)` of an integer: the low 32 bits, read as a signed number.
abbrev pub to_int32 : ℤ → ℤ
to_int32 (pos n) =
    let u = n % 4294967296 in if ltb u 2147483648 then pos u else negsuc (4294967295 - u)
to_int32 (negsuc n) =
    let u = n % 4294967296 in if ltb u 2147483648 then negsuc u else pos (4294967295 - u)

-- Go's `%` truncates toward zero; the divisor is positive.
abbrev pub rem : ℤ → ℕ → ℤ
rem (pos n) c = pos (n % c)
rem (negsuc n) c = if suc n % c == 0 then pos 0 else negsuc (suc n % c - 1)

-- `CalculatePartition`, in int32 arithmetic.
unfoldable pub calculate_partition : (String → ℕ) → ℕ → String → ℤ
calculate_partition hash count id =
    let v = to_int32 (pos (hash id)) in rem (to_int32 (rem v count +ℤ pos count)) count

-- `ownedPartitions` as the list of its keys; an index of `none` is -1.
pub record PartitionManager : Type 0 where
  pub partition_count : ℕ
  pub instance_id : String
  pub owned_partitions : List ℕ
  pub instance_index : Option ℕ
  pub instance_count : ℕ

pub record PartitionDelta : Type 0 where
  pub gained : List ℕ
  pub lost : List ℕ

unfoldable pub new_partition_manager : ℕ → String → PartitionManager
new_partition_manager count id = record {
  partition_count = if ltb count 1 then 1 else count;
  instance_id = id;
  owned_partitions = [];
  instance_index = none;
  instance_count = 0;
}

-- `sort.Ints`
abbrev pub insert_int : ℕ → List ℕ → List ℕ
insert_int a [] = a ∷ []
insert_int a (x ∷ xs) = if leb a x then a ∷ x ∷ xs else x ∷ insert_int a xs

abbrev pub sort_ints : List ℕ → List ℕ
sort_ints [] = []
sort_ints (x ∷ xs) = insert_int x (sort_ints xs)

-- The position of the first equal id.
abbrev pub index_of : String → List String → Option ℕ
index_of id [] = none
index_of id (i ∷ is) = if i =? id then some 0 else Option.map suc (index_of id is)

-- The loop `for p := 0; p < n; p++`.
abbrev pub assigned : ℕ → ℕ → ℕ → List ℕ
assigned zero count index = []
assigned (suc n) count index = assigned n count index ++ (if n % count == index then n ∷ [] else [])

abbrev recalculated : PartitionManager → List String → Option ℕ → PartitionManager × PartitionDelta
recalculated pm instances none = (
  record pm { owned_partitions = []; instance_index = none; instance_count = length instances },
  record { gained = []; lost = sort_ints pm.owned_partitions },
)
recalculated pm instances (some index) =
    let new_owned = assigned pm.partition_count (length instances) index in
    (
      record pm {
        owned_partitions = new_owned;
        instance_index = some index;
        instance_count = length instances;
      },
      record {
        gained = sort_ints (filter (λ p. not (contains pm.owned_partitions p)) new_owned);
        lost = sort_ints (filter (λ p. not (contains new_owned p)) pm.owned_partitions);
      },
    )

-- `RecalculateOwnership`
unfoldable pub recalculate_ownership :
    PartitionManager → List String → PartitionManager × PartitionDelta
recalculate_ownership pm instances = recalculated pm instances (index_of pm.instance_id instances)

unfoldable pub is_owned : PartitionManager → ℕ → Bool
is_owned pm p = contains pm.owned_partitions p

-- `GetOwnedPartitions`
unfoldable pub get_owned_partitions : PartitionManager → List ℕ
get_owned_partitions pm = sort_ints pm.owned_partitions
