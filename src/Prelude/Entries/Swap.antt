-- ===== src/Prelude/Entries/Swap.antt =====
-- Removal that puts the last entry in the gap.
use Prim.Native.Nat.{◌+◌}
use mathlib.Core.Path.{◌≡◌, refl, ◌∙◌}
use mathlib.Core.Bool.{Bool}
use mathlib.Core.List.{List, [], ◌∷◌}
use mathlib.Core.Option.{none}
use native.Mathlib.Omega.{arith}
use tracker_enhanced.Prelude.Tests.{Eq, ◌==◌, present, if◌then◌else◌}
use tracker_enhanced.Prelude.Lists.{length, count}
use tracker_enhanced.Prelude.Entries.Basic.{lookup, Distinct, weigh}

abbrev put_second {ℓ} : {A : Type ℓ} → A → List A → List A
put_second x [] = x ∷ []
put_second x (z ∷ r) = z ∷ x ∷ r

-- The last element of `x ∷ l` before the others.
pub last_first {ℓ} : {A : Type ℓ} → A → List A → List A
last_first x [] = x ∷ []
last_first x (y ∷ l) = put_second x (last_first y l)

abbrev pub last_to_front {ℓ} : {A : Type ℓ} → List A → List A
last_to_front [] = []
last_to_front (x ∷ l) = last_first x l

count-last_first {ℓ} :
    {A : Type ℓ} (p : A → Bool) (x : A) (l : List A) → count p (last_first x l) ≡ count p (x ∷ l)
unfolding last_first count
count-last_first p x [] = refl
count-last_first p x (y ∷ l) = ground (arith, count-last_first p y l)

length-last_first {ℓ} : {A : Type ℓ} (x : A) (l : List A) → length (last_first x l) ≡ length (x ∷ l)
unfolding last_first
length-last_first x [] = refl
length-last_first x (y ∷ l) = ground (arith, length-last_first y l)

module _ {ℓ} {K V : Type ℓ} ⦃e : Eq K⦄ where
  unfoldable pub swap_remove : K → List (K × V) → List (K × V)
  unfolding last_first
  swap_remove k [] = []
  swap_remove k ((j, v) ∷ l) = if j == k then last_to_front l else (j, v) ∷ swap_remove k l

  lookup-last_first :
      (k : K) (x : K × V) (l : List (K × V))
      → Distinct (x ∷ l)
      → lookup k (last_first x l) ≡ lookup k (x ∷ l)
  unfolding last_first lookup
  lookup-last_first k x [] d = refl
  lookup-last_first k (i, v) ((j, w) ∷ l) d = ground (
    arith,
    e.beq_iff i k,
    e.beq_iff j i,
    e.beq_iff j k,
    lookup-last_first k (j, w) l d.1,
    lookup-last_first i (j, w) l d.1,
  )

  put_second-Distinct :
      (i : K) (v : V) (m : List (K × V))
      → lookup i m ≡ none
      → Distinct m
      → Distinct (put_second (i, v) m)
  unfolding lookup
  put_second-Distinct i v [] h d = (refl, tt)
  put_second-Distinct i v ((j, w) ∷ r) h d = ground (arith, e.beq_iff i j, e.beq_iff j i)

  last_first-Distinct :
      (x : K × V) (l : List (K × V)) → Distinct (x ∷ l) → Distinct (last_first x l)
  unfolding last_first
  last_first-Distinct x [] d = d
  last_first-Distinct (i, v) ((j, w) ∷ l) d =
      put_second-Distinct i v (last_first (j, w) l) (lookup-last_first i (j, w) l d.1 ∙ d.0)
        (last_first-Distinct (j, w) l d.1)

  lookup-last_to_front :
      (k : K) (l : List (K × V)) → Distinct l → lookup k (last_to_front l) ≡ lookup k l
  lookup-last_to_front k [] d = refl
  lookup-last_to_front k (x ∷ l) d = lookup-last_first k x l d

  last_to_front-Distinct : (l : List (K × V)) → Distinct l → Distinct (last_to_front l)
  last_to_front-Distinct [] d = d
  last_to_front-Distinct (x ∷ l) d = last_first-Distinct x l d

  count-last_to_front :
      (p : K × V → Bool) (l : List (K × V)) → count p (last_to_front l) ≡ count p l
  count-last_to_front p [] = refl
  count-last_to_front p (x ∷ l) = count-last_first p x l

  length-last_to_front : (l : List (K × V)) → length (last_to_front l) ≡ length l
  length-last_to_front [] = refl
  length-last_to_front (x ∷ l) = length-last_first x l

  pub length-swap_remove :
      (k : K) (l : List (K × V)) → length (swap_remove k l) + present (lookup k l) ≡ length l
  unfolding lookup swap_remove
  length-swap_remove k [] = omega arith
  length-swap_remove k ((i, w) ∷ l) =
      ground (arith, e.beq_iff i k, length-swap_remove k l, length-last_to_front l)

  pub lookup-swap_remove :
      (k j : K) (l : List (K × V))
      → Distinct l
      → lookup j (swap_remove k l) ≡ (if k == j then none else lookup j l)
  unfolding lookup swap_remove
  lookup-swap_remove k j [] d = ground arith
  lookup-swap_remove k j ((i, w) ∷ l) d = ground (
    arith,
    e.beq_iff k j,
    e.beq_iff i k,
    e.beq_iff i j,
    lookup-swap_remove k j l d.1,
    lookup-last_to_front j l d.1,
  )

  pub swap_remove-Distinct : (k : K) (l : List (K × V)) → Distinct l → Distinct (swap_remove k l)
  unfolding lookup swap_remove
  swap_remove-Distinct k [] d = tt
  swap_remove-Distinct k ((i, w) ∷ l) d = ground (
    arith,
    e.beq_iff k i,
    lookup-swap_remove k i l d.1,
    swap_remove-Distinct k l d.1,
    last_to_front-Distinct l d.1,
  )

  pub count-swap_remove :
      (p : K × V → Bool) (k : K) (l : List (K × V))
      → count p (swap_remove k l) + weigh p k (lookup k l) ≡ count p l
  unfolding lookup swap_remove count
  count-swap_remove p k [] = refl
  count-swap_remove p k ((i, w) ∷ l) =
      ground (arith, e.beq_iff i k, count-swap_remove p k l, count-last_to_front p l)
