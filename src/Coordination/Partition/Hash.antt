-- ===== src/Coordination/Partition/Hash.antt =====
-- The partition of a monitor (internal/coordination/partition.go, CalculatePartition).
use native.Mathlib.Nat.{mod-lt, mod-eq_of_lt, add-mod_right, mod-mod, add-mod-mod, mod_self}
use upguardly_server.Base.{
  ℕ, zero, suc, ◌+◌, ◌-◌, ◌%◌, ◌<◌, ◌≤◌, ◌≡◌, refl, sym, ap, subst, ◌∙◌, String, ℤ, pos, negsuc,
  ◌+ℤ◌, arith, inl, inr, ◌⊎◌,
}
use upguardly_server.Coordination.Partition.{calculate_partition, to_int32, rem}

-- The partition of a signed hash: in range, and congruent to it.
abbrev pub Residue : ℤ → ℕ → ℤ → Type 0
Residue (pos n) count z = z ≡ pos (n % count)
Residue (negsuc n) count z = (p : ℕ) × (z ≡ pos p) × (p < count) × ((p + suc n) % count ≡ 0)

abbrev pub signed : ℕ → ℤ
signed h = to_int32 (pos h)

zero-cases : (a : ℕ) → (a ≡ 0) ⊎ ((k : ℕ) × (a ≡ suc k))
zero-cases zero = inl refl
zero-cases (suc k) = inr (k, refl)

normalize : ℤ → ℕ → ℤ
normalize v count = rem (to_int32 (rem v count +ℤ pos count)) count

to_int32_small : (x : ℕ) → x < 2147483648 → to_int32 (pos x) ≡ pos x
to_int32_small x h = ground arith

plus_count : (a count : ℕ) → (pos a +ℤ pos count) ≡ pos (a + count)
plus_count a count = ground arith

minus_plus_count : (k count : ℕ) → suc k ≤ count → (negsuc k +ℤ pos count) ≡ pos (count - suc k)
minus_plus_count k count h = ground arith

-- The last two steps, on a sum in range.
wrapped : (x count : ℕ) → x < 2147483648 → rem (to_int32 (pos x)) count ≡ pos (x % count)
wrapped x count h = ap (λ z. rem z count) (to_int32_small x h)

rem_negsuc_zero : (n count : ℕ) → suc n % count ≡ 0 → rem (negsuc n) count ≡ pos 0
rem_negsuc_zero n count e = rw e refl

rem_negsuc : (n count k : ℕ) → suc n % count ≡ suc k → rem (negsuc n) count ≡ negsuc k
rem_negsuc n count k e = ground (arith, e)

zero_plus : (n : ℕ) → 0 + n ≡ n
zero_plus n = omega arith

module _ (count : ℕ) (some_one : 0 < count) (small : count ≤ 1073741824) where
  normalize-pos : (n : ℕ) → normalize (pos n) count ≡ pos (n % count)
  unfolding normalize
  normalize-pos n =
      let r = mod-lt n some_one in
      ap (λ z. rem (to_int32 z) count) (plus_count (n % count) count)
      ∙ wrapped (n % count + count) count (omega (arith, r))
      ∙ ap pos (add-mod_right (n % count) count ∙ mod-mod n count)

  normalize-negsuc :
      (n k : ℕ) → suc n % count ≡ suc k → normalize (negsuc n) count ≡ pos (count - suc k)
  unfolding normalize
  normalize-negsuc n k e =
      let r : suc k < count = subst (λ x. x < count) e (mod-lt (suc n) some_one) in
      ap (λ z. rem (to_int32 (z +ℤ pos count)) count) (rem_negsuc n count k e)
      ∙ ap (λ z. rem (to_int32 z) count) (minus_plus_count k count (omega (arith, r)))
      ∙ wrapped (count - suc k) count (omega (arith, small))
      ∙ ap pos (mod-eq_of_lt (omega (arith, r)))

  residue_zero :
      (n k : ℕ) → suc n % count ≡ suc k → suc k < count → ((count - suc k) + suc n) % count ≡ 0
  residue_zero n k e r =
      sym (add-mod-mod (count - suc k) (suc n) count)
      ∙ ap (λ x. ((count - suc k) + x) % count) e
      ∙ ap (λ x. x % count) back
      ∙ mod_self count
    where
      back : (count - suc k) + suc k ≡ count
      back = omega (arith, r)

  normalize-Residue : (v : ℤ) → Residue v count (normalize v count)
  unfolding normalize
  normalize-Residue (pos n) = normalize-pos n
  normalize-Residue (negsuc n) = elim (zero-cases (suc n % count)) [
    | inl e ↦ (
      0,
      ap (λ z. rem (to_int32 (z +ℤ pos count)) count) (rem_negsuc_zero n count e)
          ∙ ap (λ z. rem (to_int32 z) count) (plus_count 0 count)
          ∙ wrapped (0 + count) count (omega (arith, small))
          ∙ ap pos (add-mod_right 0 count ∙ mod-eq_of_lt some_one),
      some_one,
      ap (λ x. x % count) (zero_plus (suc n)) ∙ e,
    )
    | inr (k, e) ↦
        let r : suc k < count = subst (λ x. x < count) e (mod-lt (suc n) some_one) in
        (count - suc k, normalize-negsuc n k e, omega (arith, some_one), residue_zero n k e r)
  ]

  -- With 1 to 2^30 partitions, the partition of every monitor is a number below the count that is
  -- congruent to its signed 32-bit hash: no int32 operation of the double modulo overflows.
  pub calculate_partition-Residue :
      (hash : String → ℕ) (id : String)
      → Residue (signed (hash id)) count (calculate_partition hash count id)
  unfolding calculate_partition normalize
  calculate_partition-Residue hash id = normalize-Residue (signed (hash id))
