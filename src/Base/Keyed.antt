-- ===== src/Base/Keyed.antt =====
-- Equality tests as an interface, membership, and Go maps as association lists.
use Prim.Native.Nat.{ℕ}
use Prim.Native.String.{String}
use mathlib.Core.Path.{◌≡◌, refl}
use mathlib.Core.Bool.{Bool, true, false, ◌||◌, ◌&&◌}
use mathlib.Core.Logic.{◌↔◌, inl, inr}
use mathlib.Core.List.{List, [], ◌∷◌, ◌++◌}
use mathlib.Core.Option.{Option, none, some}
use native.Mathlib.Omega.{arith}
use text.Mathlib.Text.{◌==◌ as text_eq}
use text.Mathlib.TextEquality.{eq_iff}
use upguardly_server.Base.Tests.{◌==◌, ==_iff, if◌then◌else◌, Bool-cases}
use upguardly_server.Base.Lists.{filter}

pub record Eq {ℓ} (K : Type ℓ) : Type ℓ where
  pub beq : K → K → Bool
  pub beq_iff : (a b : K) → (beq a b ≡ true) ↔ (a ≡ b)

instance abbrev pub nat_eq : Eq ℕ
nat_eq = record { beq = ◌==◌; beq_iff = ==_iff }

instance abbrev pub string_eq : Eq String
string_eq = record { beq_iff = eq_iff; beq = text_eq }

infix 50 ◌=?◌
abbrev pub ◌=?◌ {ℓ} : {K : Type ℓ} ⦃e : Eq K⦄ → K → K → Bool
◌=?◌ ⦃e⦄ = e.beq

module _ {ℓ} {K : Type ℓ} ⦃e : Eq K⦄ where
  pub =?_refl : (a : K) → (a =? a) ≡ true
  =?_refl a = (e.beq_iff a a).1 refl

  abbrev pub contains : List K → K → Bool
  contains [] a = false
  contains (x ∷ xs) a = x =? a || contains xs a

  -- No value twice.
  abbrev pub Distinct : List K → Type 0
  Distinct [] = Unit
  Distinct (x ∷ xs) = (contains xs x ≡ false) × Distinct xs

  pub contains-append :
      (xs ys : List K) (a : K) → contains (xs ++ ys) a ≡ (contains xs a || contains ys a)
  contains-append [] ys a = refl
  contains-append (x ∷ xs) ys a = ground (arith, contains-append xs ys a)

  pub contains-filter :
      (p : K → Bool) (xs : List K) (a : K) → contains (filter p xs) a ≡ (contains xs a && p a)
  contains-filter p [] a = refl
  contains-filter p (x ∷ xs) a = elim (Bool-cases (x =? a)) [
    | inl h ↦
        let same : x ≡ a = (e.beq_iff x a).0 h in ground (arith, contains-filter p xs a, same, h)
    | inr h ↦ ground (arith, contains-filter p xs a, h)
  ]

module _ {ℓ κ} {K : Type ℓ} {V : Type κ} ⦃e : Eq K⦄ where
  abbrev pub lookup : List (K × V) → K → Option V
  lookup [] k = none
  lookup ((j, v) ∷ m) k = if j =? k then some v else lookup m k

  -- `m[k] = v`
  abbrev pub insert : List (K × V) → K → V → List (K × V)
  insert [] k v = (k, v) ∷ []
  insert ((j, w) ∷ m) k v = if j =? k then (k, v) ∷ m else (j, w) ∷ insert m k v

  -- Removes the entries whose key passes the test; `delete(m, k)` is one of its uses.
  abbrev pub discard : (K → Bool) → List (K × V) → List (K × V)
  discard p [] = []
  discard p ((j, w) ∷ m) = let rest = discard p m in if p j then rest else (j, w) ∷ rest

  pub lookup-insert :
      (m : List (K × V)) (k : K) (v : V) (j : K)
      → lookup (insert m k v) j ≡ (if k =? j then some v else lookup m j)
  lookup-insert [] k v j = refl
  lookup-insert ((i, w) ∷ m) k v j =
      ground (arith, e.beq_iff k j, e.beq_iff i k, e.beq_iff i j, lookup-insert m k v j)

  pub lookup-discard :
      (p : K → Bool) (m : List (K × V)) (j : K)
      → lookup (discard p m) j ≡ (if p j then none else lookup m j)
  lookup-discard p [] j = ground arith
  lookup-discard p ((i, w) ∷ m) j = elim (Bool-cases (i =? j)) [
    | inl h ↦
        let same : i ≡ j = (e.beq_iff i j).0 h in ground (arith, lookup-discard p m j, same, h)
    | inr h ↦ ground (arith, lookup-discard p m j, h)
  ]
