-- ===== src/Udp/Swarm/PeerMap/Invariant.antt =====
-- When a `PeerMap` is well formed, and that an insertion after a removal keeps it so.
use tracker_enhanced.Prelude.{
  ℕ, ◌+◌, ◌≤◌, ◌<◌, ◌≡◌, refl, none, some, List, [], ◌∷◌, ◌++◌, arith, Eq, length, u64_mod,
  length-append,
}
use tracker_enhanced.Prelude.Entries.{lookup, Distinct, append_single-Distinct}
use tracker_enhanced.UdpProtocol.Messages.{ResponsePeer, response_peer_eq}
use tracker_enhanced.Udp.Swarm.Config.{Peer}
use tracker_enhanced.Udp.Swarm.Peers.{Containers, Entry}
use tracker_enhanced.Udp.Swarm.Large.Steps.{Counted}
use tracker_enhanced.Udp.Swarm.Small.Steps
use tracker_enhanced.Udp.Swarm.Large.Steps as LargeSteps
use tracker_enhanced.Udp.Swarm.PeerMap
use tracker_enhanced.Udp.Swarm.PeerMap.{PeerMap, small, large}

abbrev pub entries : {I : Type 0} → PeerMap I → List (Entry I)
entries (small m) = m.peers
entries (large m) = m.peers

abbrev pub completed_count : {I : Type 0} → PeerMap I → ℕ
completed_count (small m) = m.completed_count
completed_count (large m) = m.completed_count

-- A small map holds at most two peers and a large one more; no peer stands twice; the seeders of a
-- large map are counted right.
abbrev pub IsValid : {I : Type 0} ⦃e : Eq I⦄ → PeerMap I → Type 0
IsValid (small m) = (length m.peers ≤ 2) × Distinct m.peers
IsValid (large m) = (3 ≤ length m.peers) × Distinct m.peers × Counted m

-- A map with room for one more peer: what `announce` has before it inserts.
abbrev pub IsReady : {I : Type 0} ⦃e : Eq I⦄ → PeerMap I → Type 0
IsReady (small m) = (length m.peers < 2) × Distinct m.peers
IsReady (large m) = (2 ≤ length m.peers) × Distinct m.peers × Counted m

module _ {I : Type 0} ⦃e : Eq I⦄ (c : Containers I) where
  -- After the insertion the map is well formed and the peer is its last.
  abbrev pub Inserts : PeerMap I → ResponsePeer I → Peer → PeerMap I → Type 0
  Inserts m key peer m' =
      (PeerMap.insert c m key peer ≡ some m')
      × IsValid m'
      × (entries m' ≡ entries m ++ (key, peer) ∷ [])
      × (completed_count m' ≡ completed_count m)

  pub insert_lem :
      (m : PeerMap I) (key : ResponsePeer I) (peer : Peer)
      → IsReady m
      → lookup key (entries m) ≡ none
      → length (entries m) + 1 < u64_mod
      → (m' : PeerMap I) × Inserts m key peer m'
  unfolding PeerMap.insert
  insert_lem (small m) key peer (size, d) absent fits = (
    small (record m { peers = m.peers ++ (key, peer) ∷ [] }),
    (
      rw (Steps.insert_eq c m key peer size),
      (
        omega (arith, length-append m.peers ((key, peer) ∷ [])),
        append_single-Distinct key peer m.peers absent d,
      ),
      refl,
      refl,
    ),
  )
  insert_lem (large m) key peer (size, d, counted) absent fits = (
    large (LargeSteps.with_peers m (m.peers ++ (key, peer) ∷ [])),
    (
      rw (LargeSteps.insert_eq c m key peer d counted absent fits),
      (
        omega (arith, length-append m.peers ((key, peer) ∷ [])),
        append_single-Distinct key peer m.peers absent d,
        refl,
      ),
      refl,
      refl,
    ),
  )
