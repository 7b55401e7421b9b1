-- ===== src/Udp/Swarm/Small/Steps.antt =====
-- What the operations of `SmallPeerMap` do to its entries.
use tracker_enhanced.Prelude.{
  ◌-◌, ◌<◌, ◌≡◌, some, List, [], ◌∷◌, ◌++◌, arith, Eq, length, retain, count, count-le-length,
}
use mathlib.Core.List.{append-nil, append_assoc}
use tracker_enhanced.Prelude.Entries.{lookup, erase, Distinct}
use tracker_enhanced.Crates.{retain_state}
use tracker_enhanced.Common.Time.{SecondsSinceServerStart}
use tracker_enhanced.UdpProtocol.Messages.{ResponsePeer, response_peer_eq}
use tracker_enhanced.Udp.Swarm.Config.{Config, Peer, StatisticsMessage, peer_removed}
use tracker_enhanced.Udp.Swarm.Peers.{
  SmallPeerMap, Containers, Entry, seeds, small_retain, dropped, small_peer_map_capacity,
}
use tracker_enhanced.Udp.Swarm.Expiry.{expired_messages, still_valid}
use tracker_enhanced.Udp.Swarm.Small
use tracker_enhanced.PeerMaps

module _ {I : Type 0} ⦃e : Eq I⦄ (c : Containers I) where
  pub remove_eq :
      (m : SmallPeerMap I) (key : ResponsePeer I)
      → Small.remove c m key ≡ some (record m { peers = erase key m.peers }, lookup key m.peers)
  unfolding Small.remove
  remove_eq m key = rw (PeerMaps.remove_eq small_peer_map_capacity c.vec m.peers key)

  pub num_seeders_leechers_eq :
      (m : SmallPeerMap I)
      → Small.num_seeders_leechers c m
        ≡ some (count seeds m.peers, length m.peers - count seeds m.peers)
  unfolding Small.num_seeders_leechers
  num_seeders_leechers_eq m = ground (arith, count-le-length seeds m.peers)

  pub insert_eq :
      (m : SmallPeerMap I) (key : ResponsePeer I) (peer : Peer)
      → length m.peers < 2
      → Small.insert c m key peer ≡ some (record m { peers = m.peers ++ (key, peer) ∷ [] })
  unfolding Small.insert
  insert_eq m key peer h = rw (c.vec.vec_push_lem m.peers (key, peer) h)

  pub to_large_eq :
      (m : SmallPeerMap I)
      → Distinct m.peers
      → Small.to_large c m
        ≡ some (record {
          peers = m.peers;
          num_seeders = count seeds m.peers;
          completed_count = m.completed_count;
        })
  unfolding Small.to_large
  to_large_eq m d = rw (num_seeders_leechers_eq m, PeerMaps.collect-append c.index [] m.peers d)

retain_state-small :
    {I : Type 0} (config : Config) (now : SecondsSinceServerStart) (l : List (Entry I))
    (messages : List StatisticsMessage)
    → retain_state (small_retain config now) l messages
      ≡ (retain (still_valid now) l, messages ++ expired_messages config now l)
unfolding retain_state retain expired_messages
retain_state-small config now [] messages = rw append-nil
retain_state-small config now ((k, p) ∷ l) messages = ground (
  arith,
  retain_state-small config now l messages,
  retain_state-small config now l (dropped config p messages),
  append_assoc messages (peer_removed p.peer_id ∷ []) (expired_messages config now l),
)

module _ {I : Type 0} ⦃e : Eq I⦄ (c : Containers I) where
  pub clean_and_get_num_peers_eq :
      (config : Config) (messages : List StatisticsMessage) (now : SecondsSinceServerStart)
      (m : SmallPeerMap I)
      → Small.clean_and_get_num_peers c config messages now m ≡ (
        record m { peers = retain (still_valid now) m.peers },
        messages ++ expired_messages config now m.peers,
        length (retain (still_valid now) m.peers),
      )
  unfolding Small.clean_and_get_num_peers
  clean_and_get_num_peers_eq config messages now m = rw (
    c.vec.vec_retain_lem (small_retain config now) m.peers messages,
    retain_state-small config now m.peers messages,
  )
