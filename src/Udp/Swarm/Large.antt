-- ===== src/Udp/Swarm/Large.antt =====
-- crates/udp/src/swarm.rs: the operations of `LargePeerMap`.
pub mod Steps
pub mod Sample
use tracker_enhanced.Prelude.{
  ℕ, ◌+◌, ◌/◌, ◌≡◌, Bool, true, false, Option, none, some, List, [], ◌∷◌, ◌++◌, map, ◌>>=◌, Eq, leb,
  ltb, if◌then◌else◌, length, checked_sub, checked_add, u64_mod,
}
use tracker_enhanced.Crates.{ArrayVec, IndexMap, Rng}
use tracker_enhanced.Common.Time.{SecondsSinceServerStart}
use tracker_enhanced.UdpProtocol.Messages.{ResponsePeer, response_peer_eq}
use tracker_enhanced.Udp.Swarm.Config.{Config, Peer, StatisticsMessage}
use tracker_enhanced.Udp.Swarm.Peers.{
  SmallPeerMap, LargePeerMap, Containers, Entry, drop_seeder, large_retain, small_peer_map_capacity,
}

-- The `if let Some(Peer { is_seeder: true, .. })` of `remove_peer`.
abbrev pub forget_seeder : Option Peer → ℕ → Option ℕ
forget_seeder none num_seeders = some num_seeders
forget_seeder (some peer) num_seeders = drop_seeder peer num_seeders

abbrev pub keys : {I : Type 0} → List (Entry I) → List (ResponsePeer I)
keys = map (λ e. e.0)

-- The keys of a slice, if the range was within bounds.
abbrev pub slice_keys : {I : Type 0} → Option (List (Entry I)) → List (ResponsePeer I)
slice_keys none = []
slice_keys (some slice) = keys slice

module _ {I : Type 0} ⦃e : Eq I⦄ (c : Containers I) where
  unfoldable pub num_seeders_leechers : LargePeerMap I → Option (ℕ × ℕ)
  num_seeders_leechers m = do
    leechers ← checked_sub (length m.peers) m.num_seeders
    some (m.num_seeders, leechers)

  unfoldable pub insert : LargePeerMap I → ResponsePeer I → Peer → Option (LargePeerMap I)
  insert m key peer = do
    num_seeders ← if peer.is_seeder then checked_add u64_mod m.num_seeders 1 else some m.num_seeders
    some (record m { num_seeders = num_seeders; peers = c.index.map_insert m.peers key peer })

  unfoldable pub remove_peer :
      LargePeerMap I → ResponsePeer I → Option (LargePeerMap I × Option Peer)
  remove_peer m key =
      let (peers, opt_removed_peer) = c.index.map_swap_remove m.peers key in
      (forget_seeder opt_removed_peer m.num_seeders >>= λ num_seeders.
      some (record m { peers = peers; num_seeders = num_seeders }, opt_removed_peer))

  unfoldable pub clean_and_get_num_peers :
      Config
      → List StatisticsMessage
      → SecondsSinceServerStart
      → LargePeerMap I
      → Option (LargePeerMap I × List StatisticsMessage × ℕ)
  clean_and_get_num_peers config messages now m =
      let (peers, state) =
        c.index.map_retain (large_retain config now) m.peers (some (m.num_seeders, messages)) in
      (state >>= λ (num_seeders, messages').
      some (record m { peers = peers; num_seeders = num_seeders }, messages', length peers))

  unfoldable pub try_shrink : LargePeerMap I → Option (Option (SmallPeerMap I))
  try_shrink m =
      if leb (length m.peers) small_peer_map_capacity
      then (do
        peers ← c.vec.vec_from_iter m.peers
        some (some (record { peers = peers; completed_count = m.completed_count })))
      else some none

  module _ (r : Rng) where
    -- The peers of the second half, if any are to be taken from it.
    unfoldable pub extract_half_two :
        r.Source → LargePeerMap I → ℕ → ℕ → Option (List (ResponsePeer I) × r.Source)
    extract_half_two rng m middle_index num_to_take_half_two =
        if ltb 0 num_to_take_half_two
        then (do
          len_half_two ← checked_sub (length m.peers) middle_index
          max_offset_half_two ← checked_sub len_half_two num_to_take_half_two
          let (offset, rng') = r.gen_range rng max_offset_half_two
          let offset_half_two = middle_index + offset
          let end_half_two = offset_half_two + num_to_take_half_two
          some (slice_keys (c.index.map_get_range m.peers offset_half_two end_half_two), rng'))
        else some ([], rng)

    unfoldable pub extract_response_peers :
        r.Source → LargePeerMap I → ℕ → Option (List (ResponsePeer I) × r.Source)
    extract_response_peers rng m max_num_peers_to_take =
        if leb (length m.peers) max_num_peers_to_take then some (keys m.peers, rng) else (do
          let middle_index = length m.peers / 2
          let num_to_take_half_one = (max_num_peers_to_take + 1) / 2
          let num_to_take_half_two = max_num_peers_to_take / 2
          bound ← checked_sub middle_index num_to_take_half_one
          let (offset_half_one, rng') = r.gen_range rng bound
          let end_half_one = offset_half_one + num_to_take_half_one
          let half_one = slice_keys (c.index.map_get_range m.peers offset_half_one end_half_one)
          (half_two, rng'') ← extract_half_two rng' m middle_index num_to_take_half_two
          some (half_one ++ half_two, rng''))
