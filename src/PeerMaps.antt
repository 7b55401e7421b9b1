-- ===== src/PeerMaps.antt =====
-- The maps of a few peers that crates/udp/src/swarm.rs and crates/http/src/workers/swarm/storage.rs
-- keep alike: entries in an `ArrayVec`, which are found by a loop and collected into an `IndexMap`.
use mathlib.Core.List.{append-nil, append_assoc}
use tracker_enhanced.Prelude.{
  ℕ, suc, ◌<◌, ◌≡◌, refl, sym, ap, ◌∙◌, ◌⊎◌, inl, inr, Option, none, some, List, [], ◌∷◌, ◌++◌,
  ◌>>=◌, arith, Eq, ◌==◌, length, if◌then◌else◌, Bool-cases,
}
use tracker_enhanced.Prelude.Entries.{
  lookup, erase, Distinct, insert-absent, absent_before, append-Distinct_left,
}
use tracker_enhanced.Crates.{ArrayVec, IndexMap, remove_at}

module _ {K V : Type 0} ⦃e : Eq K⦄ where
  -- The loop of `remove`: the index of the key.
  unfoldable pub position : K → List (K × V) → Option ℕ
  position key [] = none
  position key ((k, v) ∷ l) = if k == key then some 0 else (position key l >>= λ i. some (suc i))

  -- Where the loop finds the key there stands its entry, and removing at that index erases it.
  abbrev Found : K → List (K × V) → Type 0
  Found key l =
      ((position key l ≡ none) × (lookup key l ≡ none) × (erase key l ≡ l))
      ⊎ ((i : ℕ) × (k : K) × (v : V) × (position key l ≡ some i)
          × (i < length l)
          × (lookup key l ≡ some v)
          × (remove_at i l ≡ some ((k, v), erase key l)))

  position-Found : (key : K) (l : List (K × V)) → Found key l
  unfolding position lookup erase remove_at
  position-Found key [] = inl (refl, refl, refl)
  position-Found key ((k, v) ∷ l) = elim (Bool-cases (k == key)) [
    | inl hit ↦ inr (0, k, v, rw hit, omega arith, rw hit, rw hit)
    | inr miss ↦ elim (position-Found key l) [
      | inl (a, b, d) ↦ inl (rw (miss, a), rw (miss, b), rw (miss, d))
      | inr (i, k', v', a, lt, b, d) ↦
          inr (suc i, k', v', rw (miss, a), omega arith, rw (miss, b), rw (d, miss))
    ]
  ]

  module _ (n : ℕ) (vec : ArrayVec (K × V) n) where
    -- The loop with the removal at the index that it finds.
    unfoldable pub remove : List (K × V) → K → Option (List (K × V) × Option V)
    remove peers key = elim (position key peers) [
      | none ↦ some (peers, none)
      | some i ↦ do ((_, peer), peers) ← vec.vec_remove peers i; some (peers, some peer)
    ]

    pub remove_eq :
        (peers : List (K × V)) (key : K)
        → remove peers key ≡ some (erase key peers, lookup key peers)
    unfolding remove
    remove_eq peers key = elim (position-Found key peers) [
      | inl (a, b, d) ↦ rw (a, remove) (rw (b, d))
      | inr (i, k, v, a, lt, b, d) ↦ rw (a, remove) (rw (vec.vec_remove_lem peers i lt, d, b))
    ]

  module _ (im : IndexMap K V) where
    -- `iter().copied().collect()`, from the entries collected so far.
    unfoldable pub collect : List (K × V) → List (K × V) → List (K × V)
    collect acc [] = acc
    collect acc ((k, v) ∷ l) = collect (im.map_insert acc k v) l

    pub collect-append : (acc l : List (K × V)) → Distinct (acc ++ l) → collect acc l ≡ acc ++ l
    unfolding collect
    collect-append acc [] d = sym (append-nil acc)
    collect-append acc ((k, v) ∷ l) d =
        let old = append-Distinct_left acc ((k, v) ∷ l) d in
        let inserted : im.map_insert acc k v ≡ acc ++ (k, v) ∷ [] =
          im.map_insert_lem acc k v old ∙ insert-absent k v acc (absent_before k v acc l d) in
        ap (λ a. collect a l) inserted
        ∙ collect-append (acc ++ (k, v) ∷ []) l (rw append_assoc d)
        ∙ append_assoc acc ((k, v) ∷ []) l
