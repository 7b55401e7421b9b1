-- ===== src/Ws/Swarm/Sample.antt =====
-- crates/ws/src/workers/swarm/storage.rs: `extract_response_peers`, over any map, key and conversion.
pub mod Bounds
use tracker_enhanced.Prelude.{
  ℕ, zero, suc, ◌+◌, ◌-◌, ◌/◌, Bool, true, false, not, Option, none, some, List, [], ◌∷◌, ◌++◌, map,
  ◌>>=◌, Eq, ◌==◌, leb, ltb, if◌then◌else◌, length, retain, checked_sub, checked_add, u64_mod,
}
use tracker_enhanced.Crates.{IndexMap, Rng}

-- `usize::max`
abbrev pub max : ℕ → ℕ → ℕ
max a b = if leb a b then b else a

-- `Vec::pop`, by what it leaves.
unfoldable pub pop {ℓ} : {A : Type ℓ} → List A → List A
pop [] = []
pop (x ∷ []) = []
pop (x ∷ y ∷ xs) = x ∷ pop (y ∷ xs)

-- `while peers.len() > max { peers.pop(); }`; `none` means that the fuel ran out.
unfoldable pub pop_while {ℓ} : {A : Type ℓ} → ℕ → ℕ → List A → Option (List A)
pop_while zero limit xs = none
pop_while (suc fuel) limit xs = elim (ltb limit (length xs)) [
  | true ↦ pop_while fuel limit (pop xs)
  | false ↦ some xs
]

-- `gen_range(from..to)`, which panics where the range is empty.
abbrev pub gen_range : (r : Rng) → r.Source → ℕ → ℕ → Option (ℕ × r.Source)
gen_range r rng from to =
    if ltb from to
    then (let (n, rng') = r.gen_range rng (to - from - 1) in some (from + n, rng'))
    else none

module _ {K V R : Type 0} ⦃e : Eq K⦄ (im : IndexMap K V) (sender : K) (convert : K × V → R) where
  abbrev pub is_other : K × V → Bool
  is_other (k, v) = not (k == sender)

  -- The `filter_map` over the entries.
  abbrev pub converted : List (K × V) → List R
  converted l = map convert (retain is_other l)

  abbrev pub converted_slice : Option (List (K × V)) → List R
  converted_slice none = []
  converted_slice (some slice) = converted slice

  module _ (r : Rng) where
    -- The branch that takes peers from both halves.
    unfoldable pub extract_halves : r.Source → List (K × V) → ℕ → Option (List R × r.Source)
    extract_halves rng m max_num_peers_to_take = do
      let middle_index = length m / 2
      let num_to_take_per_half = max_num_peers_to_take / 2 + 1
      to_half_one ← checked_sub middle_index num_to_take_per_half
      (offset_half_one, rng) ← gen_range r rng 0 (max 1 to_half_one)
      to_half_two ← checked_sub (length m) num_to_take_per_half
      (offset_half_two, rng) ← gen_range r rng middle_index (max (middle_index + 1) to_half_two)
      let end_half_one = offset_half_one + num_to_take_per_half
      let end_half_two = offset_half_two + num_to_take_per_half
      let half_one = converted_slice (im.map_get_range m offset_half_one end_half_one)
      let half_two = converted_slice (im.map_get_range m offset_half_two end_half_two)
      let peers = half_one ++ half_two
      peers ← pop_while (length peers + 1) max_num_peers_to_take peers
      some (peers, rng)

    -- `extract_response_peers`
    unfoldable pub extract_response_peers : r.Source → List (K × V) → ℕ → Option (List R × r.Source)
    extract_response_peers rng m max_num_peers_to_take = do
      limit ← checked_add u64_mod max_num_peers_to_take 1
      if leb (length m) limit
          then (let peers = converted m in
              some (if ltb max_num_peers_to_take (length peers) then pop peers else peers, rng))
          else extract_halves rng m max_num_peers_to_take
