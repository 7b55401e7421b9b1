-- ===== src/Http/Swarm/Peers.antt =====
-- crates/http/src/workers/swarm/storage.rs: `SmallPeerMap`, up to four peers in an `ArrayVec`, and
-- `LargePeerMap`, an `IndexMap` with a count of its seeders. `none` is a panic.
pub mod Steps
use tracker_enhanced.Prelude.{
  ℕ, Bool, true, false, Option, none, some, List, [], ◌∷◌, map, ◌>>=◌, Eq, leb, eqb, if◌then◌else◌,
  length, take, count, checked_sub, checked_add, u64_mod,
}
use tracker_enhanced.Crates.{ArrayVec, IndexMap, Rng}
use tracker_enhanced.PeerMaps
use tracker_enhanced.Sampling
use tracker_enhanced.Common.Time.{SecondsSinceServerStart, ValidUntil, valid}
use tracker_enhanced.Http.Messages.{AnnounceEvent, ResponsePeer, response_peer_eq}

abbrev pub small_peer_map_capacity : ℕ
small_peer_map_capacity = 4

pub record Peer : Type 0 where
  pub valid_until : ValidUntil
  pub is_seeder : Bool

pub data PeerStatus : Type 0 where
  seeding leeching stopped : PeerStatus

-- `PeerStatus::from_event_and_bytes_left`
unfoldable pub from_event_and_bytes_left : AnnounceEvent → ℕ → PeerStatus
from_event_and_bytes_left AnnounceEvent.stopped bytes_left = PeerStatus.stopped
from_event_and_bytes_left event bytes_left =
    if eqb bytes_left 0 then PeerStatus.seeding else PeerStatus.leeching

abbrev pub Entry : Type 0 → Type 0
Entry I = ResponsePeer I × Peer

pub record SmallPeerMap (I : Type 0) : Type 0 where
  pub peers : List (Entry I)
  pub completed_count : ℕ

pub record LargePeerMap (I : Type 0) : Type 0 where
  pub peers : List (Entry I)
  pub num_seeders : ℕ
  pub completed_count : ℕ

-- The containers that the maps are made of.
pub record Containers (I : Type 0) ⦃e : Eq I⦄ : Type 1 where
  pub vec : ArrayVec (Entry I) small_peer_map_capacity
  pub index : IndexMap (ResponsePeer I) Peer

abbrev pub seeds : {I : Type 0} → Entry I → Bool
seeds (k, p) = p.is_seeder

-- The closures of `retain`; the state of the second one is the number of seeders.
abbrev pub small_retain :
    {I : Type 0} → SecondsSinceServerStart → Entry I → Unit {0} → Bool × Unit {0}
small_retain now (k, peer) u = (valid peer.valid_until now, u)

abbrev pub drop_seeder : Peer → ℕ → Option ℕ
drop_seeder peer num_seeders =
    if peer.is_seeder then checked_sub num_seeders 1 else some num_seeders

abbrev pub large_retain :
    {I : Type 0} → SecondsSinceServerStart → Entry I → Option ℕ → Bool × Option ℕ
large_retain now (k, peer) state =
    let keep = valid peer.valid_until now in
    (keep, if keep then state else (state >>= drop_seeder peer))

-- The `if let Some(Peer { is_seeder: true, .. })` of `remove_peer`.
abbrev pub forget_seeder : Option Peer → ℕ → Option ℕ
forget_seeder none num_seeders = some num_seeders
forget_seeder (some peer) num_seeders = drop_seeder peer num_seeders

module _ {I : Type 0} ⦃e : Eq I⦄ (c : Containers I) where
  -- The operations of `SmallPeerMap`.
  abbrev pub is_full : SmallPeerMap I → Bool
  is_full m = leb small_peer_map_capacity (length m.peers)

  unfoldable pub small_seeders_leechers : SmallPeerMap I → Option (ℕ × ℕ)
  small_seeders_leechers m = do
    let seeders = count seeds m.peers
    leechers ← checked_sub (length m.peers) seeders
    some (seeders, leechers)

  unfoldable pub small_insert : SmallPeerMap I → ResponsePeer I → Peer → Option (SmallPeerMap I)
  small_insert m key peer = do
    peers ← c.vec.vec_push m.peers (key, peer)
    some (record m { peers = peers })

  unfoldable pub small_remove :
      SmallPeerMap I → ResponsePeer I → Option (SmallPeerMap I × Option Peer)
  small_remove m key = do
    (peers, opt_removed_peer) ← PeerMaps.remove small_peer_map_capacity c.vec m.peers key
    some (record m { peers = peers }, opt_removed_peer)

  abbrev pub small_response_peers : SmallPeerMap I → ℕ → List (ResponsePeer I)
  small_response_peers m max_num_peers_to_take = map (λ e. e.0) (take max_num_peers_to_take m.peers)

  unfoldable pub small_clean : SecondsSinceServerStart → SmallPeerMap I → SmallPeerMap I × ℕ
  small_clean now m =
      let peers = (c.vec.vec_retain (small_retain now) m.peers tt).0 in
      (record m { peers = peers }, length peers)

  unfoldable pub to_large : SmallPeerMap I → Option (LargePeerMap I)
  to_large m = do
    (num_seeders, _) ← small_seeders_leechers m
    some (record {
      peers = PeerMaps.collect c.index [] m.peers;
      num_seeders = num_seeders;
      completed_count = m.completed_count;
    })

  -- The operations of `LargePeerMap`.
  unfoldable pub large_seeders_leechers : LargePeerMap I → Option (ℕ × ℕ)
  large_seeders_leechers m = do
    leechers ← checked_sub (length m.peers) m.num_seeders
    some (m.num_seeders, leechers)

  unfoldable pub large_insert : LargePeerMap I → ResponsePeer I → Peer → Option (LargePeerMap I)
  large_insert m key peer = do
    num_seeders ← if peer.is_seeder then checked_add u64_mod m.num_seeders 1 else some m.num_seeders
    some (record m { num_seeders = num_seeders; peers = c.index.map_insert m.peers key peer })

  unfoldable pub remove_peer :
      LargePeerMap I → ResponsePeer I → Option (LargePeerMap I × Option Peer)
  remove_peer m key =
      let (peers, opt_removed_peer) = c.index.map_swap_remove m.peers key in
      (forget_seeder opt_removed_peer m.num_seeders >>= λ num_seeders.
      some (record m { peers = peers; num_seeders = num_seeders }, opt_removed_peer))

  unfoldable pub large_clean :
      SecondsSinceServerStart → LargePeerMap I → Option (LargePeerMap I × ℕ)
  large_clean now m =
      let (peers, state) = c.index.map_retain (large_retain now) m.peers (some m.num_seeders) in
      (state >>= λ num_seeders.
      some (record m { peers = peers; num_seeders = num_seeders }, length peers))

  unfoldable pub try_shrink : LargePeerMap I → Option (Option (SmallPeerMap I))
  try_shrink m =
      if leb (length m.peers) small_peer_map_capacity
      then (do
        peers ← c.vec.vec_from_iter m.peers
        some (some (record { peers = peers; completed_count = m.completed_count })))
      else some none

  abbrev pub large_response_peers :
      (r : Rng) → r.Source → LargePeerMap I → ℕ → Option (List (ResponsePeer I) × r.Source)
  large_response_peers r rng m max_num_peers_to_take =
      Sampling.sample c.index r rng m.peers max_num_peers_to_take
