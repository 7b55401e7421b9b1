-- ===== src/Prelude/Slices.antt =====
-- Slices of a list are sublists of it, and so are two slices that do not overlap.
use Prim.Native.Nat.{ℕ, zero, suc, ◌+◌, ◌≤◌}
use mathlib.Core.Path.{◌≡◌, refl, ap, subst}
use mathlib.Core.List.{List, [], ◌∷◌, ◌++◌, map, Sublist, nil-sublist}
use mathlib.Core.List.Sublist
use native.Mathlib.Omega.{arith}
use tracker_enhanced.Prelude.Lists.{length, take, drop, length-take, length-drop, take-append-drop}

module _ {ℓ} {A : Type ℓ} where
  take-sublist_take : (n mid : ℕ) (xs : List A) → n ≤ mid → Sublist (take n xs) (take mid xs)
  take-sublist_take zero mid xs h = nil-sublist _
  take-sublist_take (suc n) zero xs h = absurd (omega arith)
  take-sublist_take (suc n) (suc mid) [] h = nil-sublist _
  take-sublist_take (suc n) (suc mid) (x ∷ xs) h =
      Sublist.cons-cons x (take-sublist_take n mid xs (omega arith))

  slice-sublist_take :
      (n i mid : ℕ) (xs : List A) → i + n ≤ mid → Sublist (take n (drop i xs)) (take mid xs)
  slice-sublist_take n zero mid xs h = take-sublist_take n mid xs (omega arith)
  slice-sublist_take n (suc i) zero xs h = absurd (omega arith)
  slice-sublist_take zero (suc i) (suc mid) [] h = nil-sublist _
  slice-sublist_take (suc n) (suc i) (suc mid) [] h = nil-sublist _
  slice-sublist_take n (suc i) (suc mid) (x ∷ xs) h =
      Sublist.cons x (slice-sublist_take n i mid xs (omega arith))

  pub take-sublist : (n : ℕ) (xs : List A) → Sublist (take n xs) xs
  take-sublist zero xs = nil-sublist _
  take-sublist (suc n) [] = nil-sublist _
  take-sublist (suc n) (x ∷ xs) = Sublist.cons-cons x (take-sublist n xs)

  slice-sublist_drop :
      (n i mid : ℕ) (xs : List A) → mid ≤ i → Sublist (take n (drop i xs)) (drop mid xs)
  slice-sublist_drop n zero zero xs h = take-sublist n xs
  slice-sublist_drop n zero (suc mid) xs h = absurd (omega arith)
  slice-sublist_drop n (suc i) (suc mid) [] h = take-sublist n []
  slice-sublist_drop n (suc i) (suc mid) (x ∷ xs) h = slice-sublist_drop n i mid xs (omega arith)
  slice-sublist_drop n (suc i) zero [] h = take-sublist n []
  slice-sublist_drop n (suc i) zero (x ∷ xs) h =
      Sublist.cons x (slice-sublist_drop n i zero xs (omega arith))

  pub slices-sublist :
      (n i m j mid : ℕ) (xs : List A)
      → i + n ≤ mid
      → mid ≤ j
      → Sublist (take n (drop i xs) ++ take m (drop j xs)) xs
  slices-sublist n i m j mid xs h k =
      subst (Sublist (take n (drop i xs) ++ take m (drop j xs))) (take-append-drop mid xs)
        (Sublist.append (slice-sublist_take n i mid xs h) (slice-sublist_drop m j mid xs k))

module _ {ℓ κ} {A : Type ℓ} {B : Type κ} (f : A → B) where
  map-take : (n : ℕ) (xs : List A) → map f (take n xs) ≡ take n (map f xs)
  map-take zero xs = refl
  map-take (suc n) [] = refl
  map-take (suc n) (x ∷ xs) = ap (◌∷◌ (f x)) (map-take n xs)

  map-drop : (n : ℕ) (xs : List A) → map f (drop n xs) ≡ drop n (map f xs)
  map-drop zero xs = refl
  map-drop (suc n) [] = refl
  map-drop (suc n) (x ∷ xs) = map-drop n xs

  pub map-slice : (n i : ℕ) (xs : List A) → map f (take n (drop i xs)) ≡ take n (drop i (map f xs))
  map-slice n i xs = rw (map-take n (drop i xs), map-drop i xs)

module _ {ℓ} {A : Type ℓ} where
  pub length-slice : (n i : ℕ) (xs : List A) → i + n ≤ length xs → length (take n (drop i xs)) ≡ n
  length-slice n i xs h = omega (arith, length-take n (drop i xs), length-drop i xs)
