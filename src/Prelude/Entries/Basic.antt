-- ===== src/Prelude/Entries/Basic.antt =====
-- Sequences of entries: what a lookup reads after a write, an ordered removal and a filter.
use Prim.Native.Nat.{ℕ, ◌+◌, ◌≤◌}
use mathlib.Core.Path.{◌≡◌, refl}
use mathlib.Core.Bool.{Bool, false}
use mathlib.Core.List.{List, [], ◌∷◌, ◌++◌}
use mathlib.Core.Option.{Option, none, some}
use native.Mathlib.Omega.{arith}
use tracker_enhanced.Prelude.Tests.{Eq, ◌==◌, present, if◌then◌else◌}
use tracker_enhanced.Prelude.Lists.{length, retain, count}

module _ {ℓ} {K V : Type ℓ} ⦃e : Eq K⦄ where
  unfoldable pub lookup : K → List (K × V) → Option V
  lookup k [] = none
  lookup k ((j, v) ∷ l) = if j == k then some v else lookup k l

  -- Replaces the value in place, or adds the entry at the end.
  unfoldable pub insert : K → V → List (K × V) → List (K × V)
  insert k v [] = (k, v) ∷ []
  insert k v ((j, w) ∷ l) = if j == k then (j, v) ∷ l else (j, w) ∷ insert k v l

  -- Removes the entry and keeps the order of the others.
  unfoldable pub erase : K → List (K × V) → List (K × V)
  erase k [] = []
  erase k ((j, v) ∷ l) = if j == k then l else (j, v) ∷ erase k l

  -- No key stands twice.
  abbrev pub Distinct : List (K × V) → Type ℓ
  Distinct [] = Unit
  Distinct ((k, v) ∷ l) = (lookup k l ≡ none) × Distinct l

  pub lookup-insert :
      (k j : K) (v : V) (l : List (K × V))
      → lookup j (insert k v l) ≡ (if k == j then some v else lookup j l)
  unfolding lookup insert
  lookup-insert k j v [] = refl
  lookup-insert k j v ((i, w) ∷ l) =
      ground (arith, e.beq_iff k j, e.beq_iff i k, e.beq_iff i j, lookup-insert k j v l)

  pub length-insert-le : (k : K) (v : V) (l : List (K × V)) → length (insert k v l) ≤ length l + 1
  unfolding insert
  length-insert-le k v [] = omega arith
  length-insert-le k v ((i, w) ∷ l) = ground (arith, length-insert-le k v l)

  pub length-insert_present :
      (k : K) (v w : V) (l : List (K × V)) → lookup k l ≡ some w → length (insert k v l) ≡ length l
  unfolding lookup insert
  length-insert_present k v w [] h = ground arith
  length-insert_present k v w ((i, u) ∷ l) h = ground (arith, length-insert_present k v w l)

  pub lookup-append_single :
      (k j : K) (v : V) (l : List (K × V))
      → lookup k l ≡ none
      → lookup j (l ++ (k, v) ∷ []) ≡ (if k == j then some v else lookup j l)
  unfolding lookup
  lookup-append_single k j v [] h = refl
  lookup-append_single k j v ((i, w) ∷ l) h =
      ground (arith, e.beq_iff k j, e.beq_iff i k, e.beq_iff i j, lookup-append_single k j v l)

  pub insert-absent :
      (k : K) (v : V) (l : List (K × V)) → lookup k l ≡ none → insert k v l ≡ l ++ (k, v) ∷ []
  unfolding lookup insert
  insert-absent k v [] h = refl
  insert-absent k v ((i, w) ∷ l) h = ground (arith, insert-absent k v l)

  pub insert-Distinct : (k : K) (v : V) (l : List (K × V)) → Distinct l → Distinct (insert k v l)
  unfolding lookup insert
  insert-Distinct k v [] d = (refl, tt)
  insert-Distinct k v ((i, w) ∷ l) d =
      ground (arith, e.beq_iff i k, e.beq_iff k i, lookup-insert k i v l, insert-Distinct k v l d.1)

  pub lookup-erase_ne :
      (k j : K) (l : List (K × V)) → (k == j) ≡ false → lookup j (erase k l) ≡ lookup j l
  unfolding lookup erase
  lookup-erase_ne k j [] h = refl
  lookup-erase_ne k j ((i, w) ∷ l) h =
      ground (arith, e.beq_iff k j, e.beq_iff i k, e.beq_iff i j, lookup-erase_ne k j l h)

  pub lookup-erase :
      (k j : K) (l : List (K × V))
      → Distinct l
      → lookup j (erase k l) ≡ (if k == j then none else lookup j l)
  unfolding lookup erase
  lookup-erase k j [] d = ground arith
  lookup-erase k j ((i, w) ∷ l) d =
      ground (arith, e.beq_iff k j, e.beq_iff i k, e.beq_iff i j, lookup-erase k j l d.1)

  pub erase-Distinct : (k : K) (l : List (K × V)) → Distinct l → Distinct (erase k l)
  unfolding lookup erase
  erase-Distinct k [] d = tt
  erase-Distinct k ((i, w) ∷ l) d =
      ground (arith, e.beq_iff k i, lookup-erase k i l d.1, erase-Distinct k l d.1)

  pub erase-absent : (k : K) (l : List (K × V)) → lookup k l ≡ none → erase k l ≡ l
  unfolding lookup erase
  erase-absent k [] h = refl
  erase-absent k ((i, w) ∷ l) h = ground (arith, erase-absent k l)

  -- How much the entry of a key, if there is one, adds to a count.
  abbrev pub weigh : (K × V → Bool) → K → Option V → ℕ
  weigh p k none = 0
  weigh p k (some v) = if p (k, v) then 1 else 0

  pub count-erase :
      (p : K × V → Bool) (k : K) (l : List (K × V))
      → count p (erase k l) + weigh p k (lookup k l) ≡ count p l
  unfolding lookup erase count
  count-erase p k [] = refl
  count-erase p k ((i, w) ∷ l) = ground (arith, e.beq_iff i k, count-erase p k l)

  pub length-erase :
      (k : K) (l : List (K × V)) → length (erase k l) + present (lookup k l) ≡ length l
  unfolding lookup erase
  length-erase k [] = omega arith
  length-erase k ((i, w) ∷ l) = ground (arith, e.beq_iff i k, length-erase k l)

  pub lookup-retain_none :
      (p : K × V → Bool) (k : K) (l : List (K × V))
      → lookup k l ≡ none
      → lookup k (retain p l) ≡ none
  unfolding lookup retain
  lookup-retain_none p k [] h = refl
  lookup-retain_none p k ((i, w) ∷ l) h = ground (arith, lookup-retain_none p k l)

  abbrev pub keep_if : (K × V → Bool) → K → Option V → Option V
  keep_if p k none = none
  keep_if p k (some v) = if p (k, v) then some v else none

  pub lookup-retain :
      (p : K × V → Bool) (k : K) (l : List (K × V))
      → Distinct l
      → lookup k (retain p l) ≡ keep_if p k (lookup k l)
  unfolding lookup retain
  lookup-retain p k [] d = refl
  lookup-retain p k ((i, w) ∷ l) d =
      ground (arith, e.beq_iff i k, lookup-retain p k l d.1, lookup-retain_none p i l d.0)

  pub retain-Distinct : (p : K × V → Bool) (l : List (K × V)) → Distinct l → Distinct (retain p l)
  unfolding lookup retain
  retain-Distinct p [] d = tt
  retain-Distinct p ((i, w) ∷ l) d =
      ground (arith, lookup-retain_none p i l d.0, retain-Distinct p l d.1)

  -- A filter that may change the values that it keeps.
  unfoldable pub retain_values : (K → V → Option V) → List (K × V) → List (K × V)
  retain_values f [] = []
  retain_values f ((k, v) ∷ l) = elim (f k v) [
    | none ↦ retain_values f l
    | some w ↦ (k, w) ∷ retain_values f l
  ]

  abbrev pub keep_value : (K → V → Option V) → K → Option V → Option V
  keep_value f k none = none
  keep_value f k (some v) = f k v

  pub lookup-retain_values_none :
      (f : K → V → Option V) (k : K) (l : List (K × V))
      → lookup k l ≡ none
      → lookup k (retain_values f l) ≡ none
  unfolding lookup retain_values
  lookup-retain_values_none f k [] h = refl
  lookup-retain_values_none f k ((i, w) ∷ l) h = ground (arith, lookup-retain_values_none f k l)

  pub lookup-retain_values :
      (f : K → V → Option V) (k : K) (l : List (K × V))
      → Distinct l
      → lookup k (retain_values f l) ≡ keep_value f k (lookup k l)
  unfolding lookup retain_values
  lookup-retain_values f k [] d = refl
  lookup-retain_values f k ((i, w) ∷ l) d =
      ground
        (arith, e.beq_iff i k, lookup-retain_values f k l d.1, lookup-retain_values_none f i l d.0)

  pub retain_values-Distinct :
      (f : K → V → Option V) (l : List (K × V)) → Distinct l → Distinct (retain_values f l)
  unfolding lookup retain_values
  retain_values-Distinct f [] d = tt
  retain_values-Distinct f ((i, w) ∷ l) d =
      ground (arith, lookup-retain_values_none f i l d.0, retain_values-Distinct f l d.1)

  pub length-retain_values-le :
      (f : K → V → Option V) (l : List (K × V)) → length (retain_values f l) ≤ length l
  unfolding retain_values
  length-retain_values-le f [] = omega arith
  length-retain_values-le f ((i, w) ∷ l) = ground (arith, length-retain_values-le f l)

  -- What stands behind the first entry of a map with distinct keys is found there.
  pub lookup-later :
      (k j : K) (v w : V) (l : List (K × V))
      → Distinct ((k, v) ∷ l)
      → lookup j l ≡ some w
      → lookup j ((k, v) ∷ l) ≡ some w
  unfolding lookup
  lookup-later k j v w l d h = ground (arith, e.beq_iff k j)
