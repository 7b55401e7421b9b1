-- ===== src/Udp/Swarm/Large/Steps.antt =====
-- What the operations of `LargePeerMap` do to its entries, while its count of seeders is right.
use mathlib.Core.List.{append_assoc, append-nil}
use tracker_enhanced.Prelude.{
  ℕ, ◌+◌, ◌-◌, ◌<◌, ◌≡◌, sym, ◌∙◌, Option, none, some, List, [], ◌∷◌, ◌++◌, arith, Eq, leb,
  if◌then◌else◌, length, retain, count, count-le-length, count-append, u64_mod,
}
use tracker_enhanced.Prelude.Entries.{
  lookup, swap_remove, count-swap_remove, Distinct, insert-absent, weigh,
}
use tracker_enhanced.Crates.{retain_state}
use tracker_enhanced.Common.Time.{SecondsSinceServerStart}
use tracker_enhanced.UdpProtocol.Messages.{ResponsePeer, response_peer_eq}
use tracker_enhanced.Udp.Swarm.Config.{Config, Peer, StatisticsMessage, peer_removed}
use tracker_enhanced.Udp.Swarm.Peers.{LargePeerMap, Containers, Entry, seeds, large_retain, dropped}
use tracker_enhanced.Udp.Swarm.Expiry.{expired_messages, still_valid}
use tracker_enhanced.Udp.Swarm.Large
use tracker_enhanced.Udp.Swarm.Large.{forget_seeder}

-- The seeders are counted right.
abbrev pub Counted : {I : Type 0} → LargePeerMap I → Type 0
Counted m = m.num_seeders ≡ count seeds m.peers

-- The map with other entries, and its seeders counted.
abbrev pub with_peers : {I : Type 0} → LargePeerMap I → List (Entry I) → LargePeerMap I
with_peers m peers = record m { peers = peers; num_seeders = count seeds peers }

module _ {I : Type 0} ⦃e : Eq I⦄ (c : Containers I) (m : LargePeerMap I) where
  forget_seeder_eq :
      (key : ResponsePeer I) (o : Option Peer) (n t : ℕ)
      → n + weigh seeds key o ≡ t
      → forget_seeder o t ≡ some n
  forget_seeder_eq key none n t h = ground arith
  forget_seeder_eq key (some p) n t h = ground arith

  pub remove_peer_eq :
      (key : ResponsePeer I)
      → Distinct m.peers
      → Counted m
      → Large.remove_peer c m key
        ≡ some (with_peers m (swap_remove key m.peers), lookup key m.peers)
  unfolding Large.remove_peer
  remove_peer_eq key d counted = rw (
    c.index.map_swap_remove_lem m.peers key d,
    forget_seeder_eq key (lookup key m.peers) (count seeds (swap_remove key m.peers)) m.num_seeders
        (count-swap_remove seeds key m.peers ∙ sym counted),
  )

  pub num_seeders_leechers_eq :
      Counted m
      → Large.num_seeders_leechers c m
        ≡ some (count seeds m.peers, length m.peers - count seeds m.peers)
  unfolding Large.num_seeders_leechers
  num_seeders_leechers_eq counted = ground (arith, count-le-length seeds m.peers)

  pub insert_eq :
      (key : ResponsePeer I) (peer : Peer)
      → Distinct m.peers
      → Counted m
      → lookup key m.peers ≡ none
      → length m.peers + 1 < u64_mod
      → Large.insert c m key peer ≡ some (with_peers m (m.peers ++ (key, peer) ∷ []))
  unfolding Large.insert count
  insert_eq key peer d counted absent fits =
      rw (c.index.map_insert_lem m.peers key peer d, insert-absent key peer m.peers absent)
        (ground
          (arith, count-append seeds m.peers ((key, peer) ∷ []), count-le-length seeds m.peers))

  pub try_shrink_eq : Large.try_shrink c m ≡ (
      if leb (length m.peers) 2
      then some (some (record { peers = m.peers; completed_count = m.completed_count }))
      else some none)
  unfolding Large.try_shrink
  try_shrink_eq = ground (arith, c.vec.vec_from_iter_lem m.peers)

retain_state-large :
    {I : Type 0} (config : Config) (now : SecondsSinceServerStart) (l : List (Entry I))
    (messages : List StatisticsMessage) (n t : ℕ)
    → t ≡ count seeds l + n
    → retain_state (large_retain config now) l (some (t, messages)) ≡ (
      retain (still_valid now) l,
      some
          (count seeds (retain (still_valid now) l) + n, messages ++ expired_messages config now l),
    )
unfolding retain_state retain expired_messages count
retain_state-large config now [] messages n t h = ground (arith, append-nil messages)
retain_state-large config now ((k, p) ∷ l) messages n t h = ground (
  arith,
  retain_state-large config now l messages n t,
  retain_state-large config now l messages (n + 1) t,
  retain_state-large config now l (dropped config p messages) n t,
  retain_state-large config now l (dropped config p messages) n (t - 1),
  append_assoc messages (peer_removed p.peer_id ∷ []) (expired_messages config now l),
)

module _ {I : Type 0} ⦃e : Eq I⦄ (c : Containers I) where
  pub clean_and_get_num_peers_eq :
      (config : Config) (messages : List StatisticsMessage) (now : SecondsSinceServerStart)
      (m : LargePeerMap I)
      → Counted m
      → Large.clean_and_get_num_peers c config messages now m
        ≡ some (
          with_peers m (retain (still_valid now) m.peers),
          messages ++ expired_messages config now m.peers,
          length (retain (still_valid now) m.peers),
        )
  unfolding Large.clean_and_get_num_peers
  clean_and_get_num_peers_eq config messages now m counted =
      let kept = count seeds (retain (still_valid now) m.peers) in
      let total : kept + 0 ≡ kept = omega arith in
      rw (
        c.index.map_retain_lem (large_retain config now) m.peers (some (m.num_seeders, messages)),
        retain_state-large config now m.peers messages 0 m.num_seeders (omega arith),
        total,
      )
