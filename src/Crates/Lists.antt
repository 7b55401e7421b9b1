-- ===== src/Crates/Lists.antt =====
-- Lists that meet the interfaces, with which the models run.
use tracker_enhanced.Prelude.{
  ℕ, ◌+◌, ◌-◌, ◌≤◌, ◌<◌, ◌≡◌, refl, Option, none, some, List, [], ◌∷◌, ◌++◌, Eq, ltb, leb,
  if◌then◌else◌, length, take, drop, arith, ◌%◌,
}
use tracker_enhanced.Prelude.Entries.{
  lookup, insert, erase, swap_remove, lookup-insert, lookup-erase, lookup-retain_values,
  retain_values, length-insert-le, insert-Distinct, erase-Distinct, retain_values-Distinct,
  length-retain_values-le,
}
use tracker_enhanced.Crates.Containers.{
  IndexMap, ArrayVec, HashMap, Rng, retain_state, retain_values_state, remove_at,
}

module _ {K V : Type 0} ⦃e : Eq K⦄ where
  unfoldable pub list_get_range : List (K × V) → ℕ → ℕ → Option (List (K × V))
  list_get_range m i j =
      if leb i j then (if leb j (length m) then some (take (j - i) (drop i m)) else none) else none

  pub list_get_range_lem :
      (m : List (K × V)) (i j : ℕ)
      → i ≤ j
      → j ≤ length m
      → list_get_range m i j ≡ some (take (j - i) (drop i m))
  unfolding list_get_range
  list_get_range_lem m i j h k = ground arith

  abbrev pub list_index_map : IndexMap K V
  list_index_map = record {
    map_insert = λ m k v. insert k v m;
    map_swap_remove = λ m k. (swap_remove k m, lookup k m);
    map_retain = retain_state;
    map_retain_mut = retain_values_state;
    map_get_range = list_get_range;
    map_insert_lem = λ m k v d. refl;
    map_swap_remove_lem = λ m k d. refl;
    map_retain_lem = λ f m s. refl;
    map_retain_mut_lem = λ f m s. refl;
    map_get_range_lem = list_get_range_lem;
  }

  abbrev pub list_hash_map : HashMap K V
  list_hash_map = record {
    hash_insert = λ m k v. insert k v m;
    hash_remove = λ m k. erase k m;
    hash_retain = retain_values;
    lookup-hash_insert = λ m k j v d. lookup-insert k j v m;
    lookup-hash_remove = λ m k j d. lookup-erase k j m d;
    lookup-hash_retain = λ f m j d. lookup-retain_values f j m d;
    hash_insert-Distinct = λ m k v d. insert-Distinct k v m d;
    hash_remove-Distinct = λ m k d. erase-Distinct k m d;
    hash_retain-Distinct = λ f m d. retain_values-Distinct f m d;
    length-hash_insert = λ m k v. length-insert-le k v m;
    length-hash_retain = length-retain_values-le;
  }

module _ {A : Type 0} (capacity : ℕ) where
  unfoldable pub list_push : List A → A → Option (List A)
  list_push v x = if ltb (length v) capacity then some (v ++ x ∷ []) else none

  pub list_push_lem :
      (v : List A) (x : A) → length v < capacity → list_push v x ≡ some (v ++ x ∷ [])
  unfolding list_push
  list_push_lem v x h = ground arith

  unfoldable pub list_from_iter : List A → Option (List A)
  list_from_iter v = if leb (length v) capacity then some v else none

  pub list_from_iter_lem : (v : List A) → length v ≤ capacity → list_from_iter v ≡ some v
  unfolding list_from_iter
  list_from_iter_lem v h = ground arith

  abbrev pub list_array_vec : ArrayVec A capacity
  list_array_vec = record {
    vec_push = list_push;
    vec_remove = λ v i. remove_at i v;
    vec_retain = retain_state;
    vec_from_iter = list_from_iter;
    vec_push_lem = list_push_lem;
    vec_remove_lem = λ v i h. refl;
    vec_retain_lem = λ f v s. refl;
    vec_from_iter_lem = list_from_iter_lem;
  }

unfoldable pub counter_range : ℕ → ℕ → ℕ × ℕ
counter_range r n = (r % (n + 1), r + 1)

pub counter_range-le : (r n : ℕ) → (counter_range r n).0 ≤ n
unfolding counter_range
counter_range-le r n = omega arith

-- A source that counts.
abbrev pub counter_rng : Rng
counter_rng = record { Source = ℕ; gen_range = counter_range; gen_range-le = counter_range-le }
