-- ===== src/Udp/Swarm/Peers.antt =====
-- crates/udp/src/swarm.rs: `SmallPeerMap`, up to two peers in an `ArrayVec`, and `LargePeerMap`, an
-- `IndexMap` with a count of its seeders. `none` is a panic.
use tracker_enhanced.Prelude.{
  ℕ, Bool, Option, some, List, [], ◌∷◌, ◌++◌, ◌>>=◌, Eq, if◌then◌else◌, checked_sub,
}
use tracker_enhanced.Crates.{ArrayVec, IndexMap}
use tracker_enhanced.Common.Time.{SecondsSinceServerStart, valid}
use tracker_enhanced.UdpProtocol.Messages.{ResponsePeer, response_peer_eq}
use tracker_enhanced.Udp.Swarm.Config.{Config, Peer, StatisticsMessage, peer_removed}

abbrev pub small_peer_map_capacity : ℕ
small_peer_map_capacity = 2

abbrev pub Entry : Type 0 → Type 0
Entry I = ResponsePeer I × Peer

pub record SmallPeerMap (I : Type 0) : Type 0 where
  pub peers : List (Entry I)
  pub completed_count : ℕ

pub record LargePeerMap (I : Type 0) : Type 0 where
  pub peers : List (Entry I)
  pub num_seeders : ℕ
  pub completed_count : ℕ

-- The containers that the maps are made of.
pub record Containers (I : Type 0) ⦃e : Eq I⦄ : Type 1 where
  pub vec : ArrayVec (Entry I) small_peer_map_capacity
  pub index : IndexMap (ResponsePeer I) Peer

abbrev pub seeds : {I : Type 0} → Entry I → Bool
seeds (k, p) = p.is_seeder

-- The closures of `retain`: keep the peers that are still valid, and tell of the others.
abbrev pub dropped : Config → Peer → List StatisticsMessage → List StatisticsMessage
dropped config peer messages =
    if config.peer_clients then messages ++ peer_removed peer.peer_id ∷ [] else messages

abbrev pub small_retain :
    {I : Type 0}
    → Config
    → SecondsSinceServerStart
    → Entry I
    → List StatisticsMessage
    → Bool × List StatisticsMessage
small_retain config now (k, peer) messages =
    let keep = valid peer.valid_until now in
    (keep, if keep then messages else dropped config peer messages)

abbrev pub drop_seeder : Peer → ℕ → Option ℕ
drop_seeder peer num_seeders =
    if peer.is_seeder then checked_sub num_seeders 1 else some num_seeders

abbrev pub large_retain :
    {I : Type 0}
    → Config
    → SecondsSinceServerStart
    → Entry I
    → Option (ℕ × List StatisticsMessage)
    → Bool × Option (ℕ × List StatisticsMessage)
large_retain config now (k, peer) state =
    let keep = valid peer.valid_until now in
    (
      keep,
      if keep then state else (do
        (num_seeders, messages) ← state
        num_seeders ← drop_seeder peer num_seeders
        some (num_seeders, dropped config peer messages)),
    )
