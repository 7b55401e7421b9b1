-- ===== src/Crates/Containers.antt =====
-- Interfaces for `indexmap::IndexMap`, `arrayvec::ArrayVec`, `hashbrown::HashMap` and `rand::Rng`.
use tracker_enhanced.Prelude.{
  ℕ, suc, ◌+◌, ◌-◌, ◌≤◌, ◌<◌, ◌≡◌, Bool, Option, none, some, List, [], ◌∷◌, ◌++◌, Eq, ◌==◌,
  if◌then◌else◌, length, take, drop,
}
use tracker_enhanced.Prelude.Entries.{lookup, insert, swap_remove, Distinct, keep_value}

-- A `retain` whose closure `f` keeps or drops each element, in order, and changes a state `S`.
unfoldable pub retain_state {ℓ} : {A S : Type ℓ} → (A → S → Bool × S) → List A → S → List A × S
retain_state f [] s = ([], s)
retain_state f (x ∷ xs) s =
    let (kept, s') = f x s in
    let (rest, t) = retain_state f xs s' in (if kept then x ∷ rest else rest, t)

-- Such a `retain` over a map, whose closure may also change the values that it keeps.
unfoldable pub retain_values_state {ℓ} :
    {K V S : Type ℓ} → (K → V → S → Option V × S) → List (K × V) → S → List (K × V) × S
retain_values_state f [] s = ([], s)
retain_values_state f ((k, v) ∷ l) s =
    let (kept, s') = f k v s in
    let (rest, t) = retain_values_state f l s' in
    (elim kept [ none ↦ rest | some w ↦ (k, w) ∷ rest ], t)

-- Removes the element at an index and shifts the following ones down.
unfoldable pub remove_at {ℓ} : {A : Type ℓ} → ℕ → List A → Option (A × List A)
remove_at i [] = none
remove_at ℕ.zero (x ∷ xs) = some (x, xs)
remove_at (suc i) (x ∷ xs) = elim (remove_at i xs) [
  | none ↦ none
  | some (y, rest) ↦ some (y, x ∷ rest)
]

pub record IndexMap (K V : Type 0) ⦃e : Eq K⦄ : Type 1 where
  pub map_insert : List (K × V) → K → V → List (K × V)
  pub map_swap_remove : List (K × V) → K → List (K × V) × Option V
  pub map_retain : {S : Type 0} → (K × V → S → Bool × S) → List (K × V) → S → List (K × V) × S
  pub map_retain_mut :
      {S : Type 0} → (K → V → S → Option V × S) → List (K × V) → S → List (K × V) × S
  pub map_get_range : List (K × V) → ℕ → ℕ → Option (List (K × V))
  -- "If an equivalent key already exists in the map: the key remains and retains in its place in
  -- the order, its corresponding value is updated. Otherwise the new pair is inserted last."
  pub map_insert_lem :
      (m : List (K × V)) (k : K) (v : V) → Distinct m → map_insert m k v ≡ insert k v m
  -- "Like Vec::swap_remove, the pair is removed by swapping it with the last element."
  pub map_swap_remove_lem :
      (m : List (K × V)) (k : K) → Distinct m → map_swap_remove m k ≡ (swap_remove k m, lookup k m)
  -- "The elements are visited in order, and remaining elements keep their order."
  pub map_retain_lem :
      {S : Type 0} (f : K × V → S → Bool × S) (m : List (K × V)) (s : S)
      → map_retain f m s ≡ retain_state f m s
  pub map_retain_mut_lem :
      {S : Type 0} (f : K → V → S → Option V × S) (m : List (K × V)) (s : S)
      → map_retain_mut f m s ≡ retain_values_state f m s
  -- "Returns a slice of entries in the given range", none where the range is out of bounds.
  pub map_get_range_lem :
      (m : List (K × V)) (i j : ℕ)
      → i ≤ j
      → j ≤ length m
      → map_get_range m i j ≡ some (take (j - i) (drop i m))

pub record ArrayVec (A : Type 0) (capacity : ℕ) : Type 1 where
  pub vec_push : List A → A → Option (List A)
  pub vec_remove : List A → ℕ → Option (A × List A)
  pub vec_retain : {S : Type 0} → (A → S → Bool × S) → List A → S → List A × S
  pub vec_from_iter : List A → Option (List A)
  -- "Push element to the end of the vector. Panics if the vector is already full."
  pub vec_push_lem : (v : List A) (x : A) → length v < capacity → vec_push v x ≡ some (v ++ x ∷ [])
  -- "Remove the element at index and shift down the following elements."
  pub vec_remove_lem : (v : List A) (i : ℕ) → i < length v → vec_remove v i ≡ remove_at i v
  pub vec_retain_lem :
      {S : Type 0} (f : A → S → Bool × S) (v : List A) (s : S)
      → vec_retain f v s ≡ retain_state f v s
  -- "Panics if the number of elements in the iterator exceeds the arrayvec's capacity."
  pub vec_from_iter_lem : (v : List A) → length v ≤ capacity → vec_from_iter v ≡ some v

-- The order in which a hash map iterates may change with each write. The closure of `retain` drops
-- a value, or keeps it after it may have changed it.
pub record HashMap (K V : Type 0) ⦃e : Eq K⦄ : Type 0 where
  pub hash_insert : List (K × V) → K → V → List (K × V)
  pub hash_remove : List (K × V) → K → List (K × V)
  pub hash_retain : (K → V → Option V) → List (K × V) → List (K × V)
  pub lookup-hash_insert :
      (m : List (K × V)) (k j : K) (v : V)
      → Distinct m
      → lookup j (hash_insert m k v) ≡ (if k == j then some v else lookup j m)
  pub lookup-hash_remove :
      (m : List (K × V)) (k j : K)
      → Distinct m
      → lookup j (hash_remove m k) ≡ (if k == j then none else lookup j m)
  pub lookup-hash_retain :
      (f : K → V → Option V) (m : List (K × V)) (j : K)
      → Distinct m
      → lookup j (hash_retain f m) ≡ keep_value f j (lookup j m)
  pub hash_insert-Distinct :
      (m : List (K × V)) (k : K) (v : V) → Distinct m → Distinct (hash_insert m k v)
  pub hash_remove-Distinct : (m : List (K × V)) (k : K) → Distinct m → Distinct (hash_remove m k)
  pub hash_retain-Distinct :
      (f : K → V → Option V) (m : List (K × V)) → Distinct m → Distinct (hash_retain f m)
  pub length-hash_insert :
      (m : List (K × V)) (k : K) (v : V) → length (hash_insert m k v) ≤ length m + 1
  pub length-hash_retain :
      (f : K → V → Option V) (m : List (K × V)) → length (hash_retain f m) ≤ length m

-- `rand::Rng::gen_range` over `0..=n`.
pub record Rng : Type 1 where
  pub Source : Type 0
  pub gen_range : Source → ℕ → ℕ × Source
  pub gen_range-le : (r : Source) (n : ℕ) → (gen_range r n).0 ≤ n
