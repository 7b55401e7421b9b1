-- ===== src/Prelude/Sublists.antt =====
-- What a filter, a map and a count make of a sublist.
use Prim.Native.Nat.{◌+◌, ◌≤◌}
use mathlib.Core.Path.{◌≡◌, refl, ap}
use mathlib.Core.Bool.{Bool, not}
use mathlib.Core.Logic.{∥∥₁_map, ∥∥₁_elim, inl, inr}
use mathlib.Core.List.{List, [], ◌∷◌, ◌++◌, map, Sublist, Sublistᴰ}
use native.Mathlib.Bridge.{le_prop}
use native.Mathlib.Omega.{arith}
use tracker_enhanced.Prelude.Tests.{Bool-cases}
use tracker_enhanced.Prelude.Lists.{length, retain, count}

module _ {ℓ} {A : Type ℓ} (p : A → Bool) where
  count-le_of_step : {xs ys : List A} → Sublistᴰ xs ys → count p xs ≤ count p ys
  unfolding count
  count-le_of_step Sublistᴰ.slnil = omega arith
  count-le_of_step (Sublistᴰ.cons {a} s) = ground (arith, count-le_of_step s)
  count-le_of_step (Sublistᴰ.cons-cons {a} {b} e s) = ground (arith, count-le_of_step s, ap p e)

  pub count-le_of_sublist : (xs ys : List A) → Sublist xs ys → count p xs ≤ count p ys
  count-le_of_sublist xs ys s = ∥∥₁_elim s le_prop count-le_of_step

  retain_step : {xs ys : List A} → Sublistᴰ xs ys → Sublistᴰ (retain p xs) (retain p ys)
  unfolding retain
  retain_step Sublistᴰ.slnil = Sublistᴰ.slnil
  retain_step (Sublistᴰ.cons {a} s) = elim (Bool-cases (p a)) [
    | inl keep ↦ rw keep (Sublistᴰ.cons (retain_step s))
    | inr leave ↦ rw leave (retain_step s)
  ]
  retain_step (Sublistᴰ.cons-cons {a} {b} e s) = elim (Bool-cases (p b)) [
    | inl keep ↦ rw (e, keep) (Sublistᴰ.cons-cons refl (retain_step s))
    | inr leave ↦ rw (e, leave) (retain_step s)
  ]

  pub retain-sublist : (xs ys : List A) → Sublist xs ys → Sublist (retain p xs) (retain p ys)
  retain-sublist xs ys s = ∥∥₁_map s retain_step

  pub length-retain : (xs : List A) → length (retain p xs) + count (λ x. not (p x)) xs ≡ length xs
  unfolding retain count
  length-retain [] = refl
  length-retain (x ∷ xs) = ground (arith, length-retain xs)

  pub retain-append : (xs ys : List A) → retain p (xs ++ ys) ≡ retain p xs ++ retain p ys
  unfolding retain
  retain-append [] ys = refl
  retain-append (x ∷ xs) ys = ground (arith, retain-append xs ys)

module _ {ℓ κ} {A : Type ℓ} {B : Type κ} (f : A → B) where
  map_step : {xs ys : List A} → Sublistᴰ xs ys → Sublistᴰ (map f xs) (map f ys)
  map_step Sublistᴰ.slnil = Sublistᴰ.slnil
  map_step (Sublistᴰ.cons s) = Sublistᴰ.cons (map_step s)
  map_step (Sublistᴰ.cons-cons e s) = Sublistᴰ.cons-cons (ap f e) (map_step s)

  pub map-sublist : (xs ys : List A) → Sublist xs ys → Sublist (map f xs) (map f ys)
  map-sublist xs ys s = ∥∥₁_map s map_step

  pub map-append : (xs ys : List A) → map f (xs ++ ys) ≡ map f xs ++ map f ys
  map-append [] ys = refl
  map-append (x ∷ xs) ys = ap (◌∷◌ (f x)) (map-append xs ys)
