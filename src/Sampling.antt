-- ===== src/Sampling.antt =====
-- The choice of peers that crates/udp/src/swarm.rs and crates/http/src/workers/swarm/storage.rs make
-- alike from a large map, over any entries: as many as asked for, none twice.
use mathlib.Core.List.{Sublist}
use mathlib.Core.List.Sublist
use tracker_enhanced.Prelude.{
  ℕ, zero, suc, ◌+◌, ◌-◌, ◌/◌, ◌≤◌, ◌<◌, ◌≡◌, refl, true, false, Option, none, some, List, [], ◌++◌,
  map, ◌>>=◌, arith, Eq, leb, ltb, if◌then◌else◌, length, take, drop, min, checked_sub, Bool-cases,
  leb→le, lt→ltb, inl, inr, length-map, length-append,
}
use tracker_enhanced.Prelude.Slices.{slices-sublist, map-slice, length-slice}
use tracker_enhanced.Crates.{IndexMap, Rng}

checked_sub_eq : (a b : ℕ) → b ≤ a → checked_sub a b ≡ some (a - b)
checked_sub_eq a b h = ground arith

le_false : (a b : ℕ) → b < a → leb a b ≡ false
le_false a b h = ground arith

not_leb : (a b : ℕ) → leb a b ≡ false → b < a
not_leb a b h = ground arith

module _ {K V : Type 0} where
  abbrev pub keys : List (K × V) → List K
  keys = map (λ e. e.0)

  -- The keys of a slice, if the range was within bounds.
  abbrev pub slice_keys : Option (List (K × V)) → List K
  slice_keys none = []
  slice_keys (some slice) = keys slice

module _ {K V : Type 0} ⦃e : Eq K⦄ (im : IndexMap K V) (r : Rng) where
  -- The keys of the second half, if any are to be taken from it.
  unfoldable pub half_two : r.Source → List (K × V) → ℕ → ℕ → Option (List K × r.Source)
  half_two rng m middle_index num_to_take =
      if ltb 0 num_to_take
      then (do
        len_half_two ← checked_sub (length m) middle_index
        max_offset_half_two ← checked_sub len_half_two num_to_take
        let (offset, rng') = r.gen_range rng max_offset_half_two
        let offset_half_two = middle_index + offset
        let end_half_two = offset_half_two + num_to_take
        some (slice_keys (im.map_get_range m offset_half_two end_half_two), rng'))
      else some ([], rng)

  unfoldable pub sample : r.Source → List (K × V) → ℕ → Option (List K × r.Source)
  sample rng m max_num_peers_to_take =
      if leb (length m) max_num_peers_to_take then some (keys m, rng) else (do
        let middle_index = length m / 2
        let num_to_take_half_one = (max_num_peers_to_take + 1) / 2
        let num_to_take_half_two = max_num_peers_to_take / 2
        bound ← checked_sub middle_index num_to_take_half_one
        let (offset_half_one, rng') = r.gen_range rng bound
        let end_half_one = offset_half_one + num_to_take_half_one
        let half_one = slice_keys (im.map_get_range m offset_half_one end_half_one)
        (half_two, rng'') ← half_two rng' m middle_index num_to_take_half_two
        some (half_one ++ half_two, rng''))

  slice_keys_eq :
      (l : List (K × V)) (i n : ℕ)
      → i + n ≤ length l
      → slice_keys (im.map_get_range l i (i + n)) ≡ take n (drop i (keys l))
  slice_keys_eq l i n h =
      let size : i + n - i ≡ n = omega arith in
      rw (im.map_get_range_lem l i (i + n) (omega arith) h, size)
        (map-slice (λ (x : K × V). x.0) n i l)

  half_two_eq :
      (rng : r.Source) (m : List (K × V)) (mid n : ℕ)
      → mid + n ≤ length m
      → (j : ℕ) × (rng' : r.Source) × (mid ≤ j)
        × (j + n ≤ length m)
        × (half_two rng m mid n ≡ some (take n (drop j (keys m)), rng'))
  unfolding half_two
  half_two_eq rng m mid zero h = (mid, rng, omega arith, h, refl)
  half_two_eq rng m mid (suc n) h =
      let bound = length m - mid - suc n in
      let j = mid + (r.gen_range rng bound).0 in
      let fits : j + suc n ≤ length m = omega (arith, r.gen_range-le rng bound) in
      (
        j,
        (r.gen_range rng bound).1,
        omega arith,
        fits,
        rw (
          lt→ltb 0 (suc n) (omega arith),
          checked_sub_eq (length m) mid (omega arith),
          checked_sub_eq (length m - mid) (suc n) (omega arith),
          slice_keys_eq m j (suc n) fits,
        ),
      )

  -- What a sample of at most `max` of the keys looks like.
  abbrev pub Sampled : List (K × V) → ℕ → List K → Type 0
  Sampled m max peers = (length peers ≡ min max (length m)) × Sublist peers (keys m)

  all_eq :
      (rng : r.Source) (m : List (K × V)) (max : ℕ)
      → leb (length m) max ≡ true
      → sample rng m max ≡ some (keys m, rng)
  unfolding sample
  all_eq rng m max h = rw h

  halves_eq :
      (rng : r.Source) (m : List (K × V)) (max : ℕ)
      → max < length m
      → (i j : ℕ) × (rng' : r.Source) × (i + (max + 1) / 2 ≤ length m / 2)
        × (length m / 2 ≤ j)
        × (j + max / 2 ≤ length m)
        × (sample rng m max
            ≡ some
                (take ((max + 1) / 2) (drop i (keys m)) ++ take (max / 2) (drop j (keys m)), rng'))
  unfolding sample
  halves_eq rng m max h =
      let len = length m in
      let one = (max + 1) / 2 in
      let bound = len / 2 - one in
      let (i, rng') = r.gen_range rng bound in
      let low : i ≤ bound = r.gen_range-le rng bound in
      let (j, rng'', a, b, q) = half_two_eq rng' m (len / 2) (max / 2) (omega arith) in
      (
        i,
        j,
        rng'',
        omega arith,
        a,
        b,
        rw (
          le_false len max h,
          checked_sub_eq (len / 2) one (omega arith),
          slice_keys_eq m i one (omega arith),
          q,
        ),
      )

  -- A response from a large map never fails; it holds `max` peers, or all where there are fewer,
  -- and they stand in the map in this order, at different places.
  pub sample_lem :
      (rng : r.Source) (m : List (K × V)) (max : ℕ)
      → (peers : List (K)) × (rng' : r.Source) × (sample rng m max ≡ some (peers, rng'))
        × Sampled m max peers
  sample_lem rng m max = elim (Bool-cases (leb (length m) max)) [
    | inl all ↦ (
      keys m,
      rng,
      all_eq rng m max all,
      (omega (arith, length-map (λ (x : K × V). x.0) m, leb→le (length m) max all), Sublist.refl _),
    )
    | inr some_of ↦
        let less : max < length m = not_leb (length m) max some_of in
        let (i, j, rng', a, b, d, q) = halves_eq rng m max less in
        let total = length-map (λ (x : K × V). x.0) m in
        let half_one = take ((max + 1) / 2) (drop i (keys m)) in
        let second = take (max / 2) (drop j (keys m)) in
        (
          half_one ++ second,
          rng',
          q,
          (
            omega (
              arith,
              length-append half_one second,
              length-slice ((max + 1) / 2) i (keys m) (omega arith),
              length-slice (max / 2) j (keys m) (omega arith),
              total,
            ),
            slices-sublist ((max + 1) / 2) i (max / 2) j (length m / 2) (keys m) a b,
          ),
        )
  ]
