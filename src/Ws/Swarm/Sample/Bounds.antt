-- ===== src/Ws/Swarm/Sample/Bounds.antt =====
-- How many peers `extract_response_peers` takes, and which: never too many, none twice, and not the
-- sender.
use mathlib.Core.List.{Sublist}
use mathlib.Core.List.Sublist
use mathlib.Core.Path.{subst}
use tracker_enhanced.Prelude.{
  ℕ, zero, suc, ◌+◌, ◌-◌, ◌/◌, ◌≤◌, ◌<◌, ◌≡◌, refl, sym, ap, ◌∙◌, Bool, false, not, none, some,
  List, [], ◌∷◌, ◌++◌, map, arith, Eq, ◌==◌, leb, ltb, if◌then◌else◌, length, take, drop, retain,
  count, checked_sub, checked_add, u64_mod, min, Bool-cases, inl, inr, leb→le, lt→ltb, ltb→lt,
  length-map, length-append, length-take, take_of_length-le, checked_add_eq,
}
use tracker_enhanced.Prelude.Entries.{lookup, Distinct}
use tracker_enhanced.Prelude.Slices.{slices-sublist, length-slice, take-sublist}
use tracker_enhanced.Prelude.Sublists.{
  count-le_of_sublist, retain-sublist, length-retain, retain-append, map-sublist, map-append,
}
use tracker_enhanced.Crates.{IndexMap, Rng}
use tracker_enhanced.Ws.Swarm.Sample.{
  max, pop, pop_while, gen_range, is_other, converted, converted_slice, extract_halves,
  extract_response_peers,
}

module _ {ℓ} {A : Type ℓ} where
  length-pop : (x : A) (xs : List A) → length (pop (x ∷ xs)) ≡ length xs
  unfolding pop
  length-pop x [] = refl
  length-pop x (y ∷ xs) = ap suc (length-pop y xs)

  take-pop : (n : ℕ) (xs : List A) → n < length xs → take n (pop xs) ≡ take n xs
  unfolding pop
  take-pop n [] h = absurd (omega arith)
  take-pop zero (x ∷ []) h = refl
  take-pop (suc n) (x ∷ []) h = absurd (omega arith)
  take-pop zero (x ∷ y ∷ xs) h = refl
  take-pop (suc n) (x ∷ y ∷ xs) h = ap (◌∷◌ x) (take-pop n (y ∷ xs) (omega arith))

  -- With fuel above the length of the list, the loop ends and leaves the first elements.
  pop_while_lem :
      (fuel limit : ℕ) (xs : List A)
      → length xs < fuel
      → pop_while fuel limit xs ≡ some (take limit xs)
  unfolding pop_while
  pop_while_lem zero limit xs h = absurd (omega arith)
  pop_while_lem (suc fuel) limit [] h = ground (arith, take_of_length-le xs limit)
    where
      xs : List A
      xs = []
  pop_while_lem (suc fuel) limit (x ∷ xs) h = elim (Bool-cases (ltb limit (length (x ∷ xs)))) [
    | inl long ↦
        rw (long, pop_while)
          (pop_while_lem fuel limit (pop (x ∷ xs)) (omega (arith, length-pop x xs))
            ∙ ap some (take-pop limit (x ∷ xs) (ltb→lt _ _ long)))
    | inr short ↦
        rw (short, pop_while) (ap some (sym (take_of_length-le (x ∷ xs) limit (short_le short))))
  ]
    where
      short_le : ltb limit (length (x ∷ xs)) ≡ false → length (x ∷ xs) ≤ limit
      short_le q = ground arith

  pop_if-take :
      (limit : ℕ) (xs : List A)
      → length xs ≤ limit + 1
      → (if ltb limit (length xs) then pop xs else xs) ≡ take limit xs
  pop_if-take limit [] h =
      let short : ltb limit 0 ≡ false = ground arith in
      rw short (sym (take_of_length-le [] limit (omega arith)))
  pop_if-take limit (x ∷ xs) h = elim (Bool-cases (ltb limit (length (x ∷ xs)))) [
    | inl long ↦ rw long (
        sym (take_of_length-le (pop (x ∷ xs)) limit (omega (arith, length-pop x xs)))
        ∙ take-pop limit (x ∷ xs) (ltb→lt _ _ long))
    | inr short ↦ rw short (sym (take_of_length-le (x ∷ xs) limit (short_le short)))
  ]
    where
      short_le : ltb limit (length (x ∷ xs)) ≡ false → length (x ∷ xs) ≤ limit
      short_le q = ground arith

checked_sub_eq : (a b : ℕ) → b ≤ a → checked_sub a b ≡ some (a - b)
checked_sub_eq a b h = ground arith

module _ (r : Rng) (rng : r.Source) where
  gen_range_lem :
      (from to : ℕ)
      → from < to
      → (n : ℕ) × (rng' : r.Source) × (gen_range r rng from to ≡ some (n, rng'))
        × (from ≤ n)
        × (n < to)
  gen_range_lem from to h =
      let low : (r.gen_range rng (to - from - 1)).0 ≤ to - from - 1 = r.gen_range-le rng _ in
      (
        from + (r.gen_range rng (to - from - 1)).0,
        (r.gen_range rng (to - from - 1)).1,
        rw (lt→ltb from to h),
        omega arith,
        omega arith,
      )

module _ {K V R : Type 0} ⦃e : Eq K⦄ (im : IndexMap K V) (sender : K) (convert : K × V → R) where
  -- The entries of the others.
  abbrev pub others : List (K × V) → List (K × V)
  others = retain (is_other im sender convert)

  -- As many as may be taken, in the order of the map, and only others.
  abbrev pub Picked : List (K × V) → ℕ → List R → Type 0
  Picked m limit peers =
      (length peers ≡ min limit (length (others m))) × Sublist peers (map convert (others m))

  is_sender : K × V → Bool
  is_sender x = not (is_other im sender convert x)

  absent_count : (l : List (K × V)) → lookup sender l ≡ none → count is_sender l ≡ 0
  unfolding lookup count is_sender
  absent_count [] h = refl
  absent_count ((k, v) ∷ l) h = ground (arith, absent_count l)

  sender_once : (l : List (K × V)) → Distinct l → count is_sender l ≤ 1
  unfolding lookup count is_sender
  sender_once [] d = omega arith
  sender_once ((k, v) ∷ l) d = elim (Bool-cases (k == sender)) [
    | inl here ↦
        let gone : lookup sender l ≡ none =
          subst (λ j. lookup j l ≡ none) ((e.beq_iff k sender).0 here) d.0 in
        ground (arith, absent_count l gone)
    | inr there ↦ ground (arith, sender_once l d.1)
  ]

  count_others : (l : List (K × V)) → length (others l) + count is_sender l ≡ length l
  unfolding is_sender
  count_others l = length-retain (is_other im sender convert) l

  -- What a part of a map without double keys, taken in order, has of the others.
  part-Picked :
      (m part : List (K × V)) (limit : ℕ)
      → Distinct m
      → Sublist part m
      → limit ≤ length (others part)
      → limit ≤ length (others m)
      → Picked m limit (take limit (converted im sender convert part))
  part-Picked m part limit d sub enough total = (
    omega (
      arith,
      length-take limit (converted im sender convert part),
      length-map convert (others part),
    ),
    Sublist.trans (take-sublist limit (converted im sender convert part)) (
        map-sublist convert (others part) (others m)
          (retain-sublist (is_other im sender convert) part m sub)),
  )

  module _ (r : Rng) where
    slice_eq :
        (m : List (K × V)) (i n : ℕ)
        → i + n ≤ length m
        → converted_slice im sender convert (im.map_get_range m i (i + n))
          ≡ converted im sender convert (take n (drop i m))
    slice_eq m i n h =
        let size : i + n - i ≡ n = omega arith in
        rw (im.map_get_range_lem m i (i + n) (omega arith) h, size)

    halves_eq :
        (rng : r.Source) (m : List (K × V)) (limit : ℕ)
        → limit + 2 ≤ length m
        → (i j : ℕ) × (rng' : r.Source) × (i + (limit / 2 + 1) ≤ length m / 2)
          × (length m / 2 ≤ j)
          × (j + (limit / 2 + 1) ≤ length m)
          × (extract_halves im sender convert r rng m limit
              ≡ some (
                take limit (
                    converted im sender convert
                      (take (limit / 2 + 1) (drop i m) ++ take (limit / 2 + 1) (drop j m))),
                rng',
              ))
    unfolding extract_halves
    halves_eq rng m limit h =
        let mid = length m / 2 in
        let n = limit / 2 + 1 in
        let (i, rng', q, _, b) = gen_range_lem r rng 0 (max 1 (mid - n)) (ground arith) in
        let (j, rng'', q', b', d) =
          gen_range_lem r rng' mid (max (mid + 1) (length m - n)) (ground arith) in
        let low : i + n ≤ mid = ground arith in
        let high : j + n ≤ length m = ground arith in
        let one = take n (drop i m) in
        let two = take n (drop j m) in
        let peers = converted im sender convert one ++ converted im sender convert two in
        (
          i,
          j,
          rng'',
          low,
          b',
          high,
          rw
              (
                checked_sub_eq mid n (omega arith),
                q,
                checked_sub_eq (length m) n (omega arith),
                q',
                slice_eq m i n (omega arith),
                slice_eq m j n high,
                pop_while_lem (length peers + 1) limit peers (omega arith),
                retain-append (is_other im sender convert) one two,
                map-append convert (others one) (others two),
              )
              refl,
        )

    halves-Picked :
        (rng : r.Source) (m : List (K × V)) (limit : ℕ)
        → Distinct m
        → limit + 2 ≤ length m
        → (peers : List R) × (rng' : r.Source) × (extract_halves im sender convert r rng m limit
            ≡ some (peers, rng'))
          × Picked m limit peers
    halves-Picked rng m limit d h =
        let (i, j, rng', a, b, f, q) = halves_eq rng m limit h in
        let n = limit / 2 + 1 in
        let one = take n (drop i m) in
        let two = take n (drop j m) in
        let sub = slices-sublist n i n j (length m / 2) m a b in
        let enough : limit ≤ length (others (one ++ two)) = omega (
          arith,
          count_others (one ++ two),
          count-le_of_sublist is_sender (one ++ two) m sub,
          sender_once m d,
          length-append one two,
          length-slice n i m (omega arith),
          length-slice n j m f,
        ) in
        (
          take limit (converted im sender convert (one ++ two)),
          rng',
          q,
          part-Picked m (one ++ two) limit d sub enough
              (omega (arith, count_others m, sender_once m d)),
        )

    few_eq :
        (m : List (K × V)) (limit : ℕ)
        → length (others m) ≤ limit + 1
        → (if ltb limit (length (converted im sender convert m))
            then pop (converted im sender convert m)
            else converted im sender convert m)
          ≡ take limit (converted im sender convert m)
    few_eq m limit h =
        pop_if-take limit (converted im sender convert m)
          (omega (arith, length-map convert (others m)))

    -- From a map with distinct keys, the choice does not fail; it has as many peers as may be taken
    -- or all others where there are fewer, in the order of the map, and never the sender.
    pub extract_response_peers_sound :
        (rng : r.Source) (m : List (K × V)) (limit : ℕ)
        → Distinct m
        → limit + 1 < u64_mod
        → (peers : List R) × (rng' : r.Source) × (extract_response_peers im sender convert r rng m
              limit
            ≡ some (peers, rng'))
          × Picked m limit peers
    unfolding extract_response_peers
    extract_response_peers_sound rng m limit d fits =
        let sum : checked_add u64_mod limit 1 ≡ some (limit + 1) =
          checked_add_eq u64_mod limit 1 fits in
        elim (Bool-cases (leb (length m) (limit + 1))) [
          | inl few ↦
              let total : length (others m) ≤ limit + 1 =
                omega (arith, leb→le _ _ few, count_others m) in
              (
                take limit (converted im sender convert m),
                rng,
                rw (sum, few, few_eq m limit total) refl,
                (
                  omega (
                    arith,
                    length-take limit (converted im sender convert m),
                    length-map convert (others m),
                  ),
                  take-sublist limit (converted im sender convert m),
                ),
              )
          | inr many ↦
              let (peers, rng', q, picked) = halves-Picked rng m limit d (ground arith) in
              (peers, rng', rw (sum, many, q) refl, picked)
        ]
