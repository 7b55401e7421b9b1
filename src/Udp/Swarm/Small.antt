-- ===== src/Udp/Swarm/Small.antt =====
-- crates/udp/src/swarm.rs: the operations of `SmallPeerMap`.
pub mod Steps
use tracker_enhanced.Prelude.{
  ℕ, suc, ◌≡◌, Bool, true, false, Option, none, some, List, [], ◌∷◌, map, ◌>>=◌, Eq, ◌==◌, leb,
  if◌then◌else◌, length, take, count, checked_sub,
}
use tracker_enhanced.Crates.{ArrayVec, IndexMap}
use tracker_enhanced.PeerMaps
use tracker_enhanced.Common.Time.{SecondsSinceServerStart}
use tracker_enhanced.UdpProtocol.Messages.{ResponsePeer, response_peer_eq}
use tracker_enhanced.Udp.Swarm.Config.{Config, Peer, StatisticsMessage}
use tracker_enhanced.Udp.Swarm.Peers.{
  SmallPeerMap, LargePeerMap, Containers, Entry, seeds, small_retain, small_peer_map_capacity,
}

module _ {I : Type 0} ⦃e : Eq I⦄ (c : Containers I) where
  abbrev pub is_full : SmallPeerMap I → Bool
  is_full m = leb small_peer_map_capacity (length m.peers)

  unfoldable pub num_seeders_leechers : SmallPeerMap I → Option (ℕ × ℕ)
  num_seeders_leechers m = do
    let seeders = count seeds m.peers
    leechers ← checked_sub (length m.peers) seeders
    some (seeders, leechers)

  unfoldable pub insert : SmallPeerMap I → ResponsePeer I → Peer → Option (SmallPeerMap I)
  insert m key peer = do
    peers ← c.vec.vec_push m.peers (key, peer)
    some (record m { peers = peers })

  unfoldable pub remove : SmallPeerMap I → ResponsePeer I → Option (SmallPeerMap I × Option Peer)
  remove m key = do
    (peers, opt_removed_peer) ← PeerMaps.remove small_peer_map_capacity c.vec m.peers key
    some (record m { peers = peers }, opt_removed_peer)

  abbrev pub extract_response_peers : SmallPeerMap I → ℕ → List (ResponsePeer I)
  extract_response_peers m max_num_peers_to_take =
      map (λ e. e.0) (take max_num_peers_to_take m.peers)

  unfoldable pub clean_and_get_num_peers :
      Config
      → List StatisticsMessage
      → SecondsSinceServerStart
      → SmallPeerMap I
      → SmallPeerMap I × List StatisticsMessage × ℕ
  clean_and_get_num_peers config messages now m =
      let (peers, messages') = c.vec.vec_retain (small_retain config now) m.peers messages in
      (record m { peers = peers }, messages', length peers)

  unfoldable pub to_large : SmallPeerMap I → Option (LargePeerMap I)
  to_large m = do
    (num_seeders, _) ← num_seeders_leechers m
    some (record {
      peers = PeerMaps.collect c.index [] m.peers;
      num_seeders = num_seeders;
      completed_count = m.completed_count;
    })
