-- ===== src/Coordination/Partition/Ownership.antt =====
-- Who owns a partition after RecalculateOwnership (internal/coordination/partition.go).
use native.Mathlib.Nat.{mod-lt}
use text.Mathlib.TextEquality.{eq_iff}
use upguardly_server.Base.{
  ℕ, zero, suc, ◌%◌, ◌<◌, ◌≡◌, ◌≢◌, ◌↔◌, refl, sym, ap, subst, ◌∙◌, true, false, not, ◌&&◌, ◌||◌,
  List, [], ◌∷◌, Option, some, String, arith, if◌then◌else◌, ltb, ◌==◌, ==_iff, contains,
  contains-append, contains-filter, Distinct, filter, length, get_elem?, ◌=?◌, string_eq, nat_eq,
  inl, inr, Bool-cases, Option-cases,
}
use upguardly_server.Coordination.Partition.{
  PartitionManager, insert_int, sort_ints, index_of, assigned, recalculate_ownership, is_owned,
}

contains-insert_int :
    (a : ℕ) (xs : List ℕ) (p : ℕ) → contains (insert_int a xs) p ≡ (a =? p || contains xs p)
contains-insert_int a [] p = refl
contains-insert_int a (x ∷ xs) p = ground (arith, contains-insert_int a xs p)

contains-sort_ints : (xs : List ℕ) (p : ℕ) → contains (sort_ints xs) p ≡ contains xs p
contains-sort_ints [] p = refl
contains-sort_ints (x ∷ xs) p =
    contains-insert_int x (sort_ints xs) p ∙ ap (λ b. x =? p || b) (contains-sort_ints xs p)

contains-assigned :
    (n count index p : ℕ) → contains (assigned n count index) p ≡ (ltb p n && (p % count == index))
contains-assigned zero count index p = ground arith
contains-assigned (suc n) count index p =
    contains-append (assigned n count index) (if n % count == index then n ∷ [] else []) p
    ∙ elim (Bool-cases (n == p)) [
      | inl e ↦
          let same : n % count ≡ p % count = ap (λ k. k % count) ((==_iff n p).0 e) in
          ground (arith, contains-assigned n count index p, same)
      | inr e ↦ ground (arith, contains-assigned n count index p)
    ]

contains-get_elem? :
    (is : List String) (k : ℕ) (id : String) → get_elem? is k ≡ some id → contains is id ≡ true
contains-get_elem? [] k id h = cc
contains-get_elem? (i ∷ is) zero id h = ground (arith, eq_iff i id)
contains-get_elem? (i ∷ is) (suc k) id h = ground (arith, contains-get_elem? is k id h)

-- In a list of distinct ids, the first position is the only one.
index_of_iff :
    (id : String) (is : List String) (k : ℕ)
    → Distinct is
    → (index_of id is ≡ some k) ↔ (get_elem? is k ≡ some id)
index_of_iff id [] k d = ground arith
index_of_iff id (i ∷ is) zero d = ground (arith, eq_iff i id)
index_of_iff id (i ∷ is) (suc k) (new, d) = elim (Bool-cases (i =? id)) [
  | inl e ↦
      let gone : contains is id ≡ false =
        subst (λ x. contains is x ≡ false) ((eq_iff i id).0 e) new in
      ground (arith, contains-get_elem? is k id, gone)
  | inr e ↦ ground (arith, index_of_iff id is k d)
]

-- Every position of a list that is in range holds an element.
get_elem?_total {ℓ} :
    {A : Type ℓ} (xs : List A) (k : ℕ) → k < length xs → (a : A) × (get_elem? xs k ≡ some a)
get_elem?_total [] k h = let clash : ⊥ = omega arith in elim clash [ ]
get_elem?_total (x ∷ xs) zero h = (x, refl)
get_elem?_total (x ∷ xs) (suc k) h = get_elem?_total xs k (omega arith)

some-injective : {a b : String} → ◌≡◌ {A = Option String} (some a) (some b) → a ≡ b
some-injective h = cc

room : (is : List String) → is ≢ [] → 0 < length is
room [] h = elim (h refl) [ ]
room (i ∷ is) h = omega arith

module _ (instances : List String) (d : Distinct instances) (p : ℕ) where
  -- An instance owns a partition exactly when it stands at the partition's number modulo the number
  -- of instances in the membership list.
  pub recalculate_ownership-is_owned :
      (pm : PartitionManager)
      → p < pm.partition_count
      → (is_owned (recalculate_ownership pm instances).0 p ≡ true)
        ↔ (get_elem? instances (p % length instances) ≡ some pm.instance_id)
  unfolding recalculate_ownership is_owned
  recalculate_ownership-is_owned pm h =
      let index = index_of_iff pm.instance_id instances (p % length instances) d in
      elim (Option-cases (index_of pm.instance_id instances)) [
        | inl absent ↦ ground (arith, index)
        | inr (k, there) ↦
            ground (arith, index, contains-assigned pm.partition_count (length instances) k p)
      ]

  -- With the same membership, two managers that own the same partition are the same instance, and
  -- some instance of a non-empty membership owns it.
  pub recalculate_ownership-exactly_one :
      (count : ℕ)
      → instances ≢ []
      → p < count
      → (id : String) × (contains instances id ≡ true)
        × ((pm : PartitionManager)
            → pm.partition_count ≡ count
            → (is_owned (recalculate_ownership pm instances).0 p ≡ true) ↔ (pm.instance_id ≡ id))
  recalculate_ownership-exactly_one count some_one h =
      let (id, there) =
        get_elem?_total instances (p % length instances) (mod-lt p (room instances some_one)) in
      (
        id,
        contains-get_elem? instances (p % length instances) id there,
        λ pm same.
            let owner = recalculate_ownership-is_owned pm (subst (λ n. p < n) (sym same) h) in
            let named : get_elem? instances (p % length instances) ≡ some id = there in
            (
              λ owned. some-injective (sym (owner.0 owned) ∙ named),
              λ e. owner.1 (named ∙ ap some (sym e)),
            ),
      )

-- The delta names exactly the partitions that change hands, in both directions, whether or not this
-- instance is in the membership.
pub recalculate_ownership-delta :
    (pm : PartitionManager) (instances : List String) (p : ℕ)
    → (contains (recalculate_ownership pm instances).1.gained p
        ≡ (is_owned (recalculate_ownership pm instances).0 p && not (is_owned pm p)))
      × (contains (recalculate_ownership pm instances).1.lost p
          ≡ (is_owned pm p && not (is_owned (recalculate_ownership pm instances).0 p)))
unfolding recalculate_ownership is_owned
recalculate_ownership-delta pm instances p =
    elim (Option-cases (index_of pm.instance_id instances)) [
      | inl absent ↦ rw absent (refl, ground (arith, contains-sort_ints pm.owned_partitions p))
      | inr (k, there) ↦ rw there (
        contains-sort_ints
              (filter (λ q. not (contains pm.owned_partitions q))
                (assigned pm.partition_count (length instances) k))
              p
            ∙ contains-filter (λ q. not (contains pm.owned_partitions q))
                (assigned pm.partition_count (length instances) k) p,
        contains-sort_ints
              (filter (λ q. not (contains (assigned pm.partition_count (length instances) k) q))
                pm.owned_partitions)
              p
            ∙ contains-filter
                (λ q. not (contains (assigned pm.partition_count (length instances) k) q))
                pm.owned_partitions p,
      )
    ]
