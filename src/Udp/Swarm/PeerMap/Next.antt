-- ===== src/Udp/Swarm/PeerMap/Next.antt =====
-- What a map becomes, without the announcing peer, before that peer is inserted: a full small map
-- becomes large, and a large map with few peers becomes small when a peer stops.
use tracker_enhanced.Prelude.{
  ◌≤◌, ◌<◌, ◌≡◌, refl, true, false, not, ◌&&◌, none, some, arith, ◌>>=◌, Eq, length, Bool-cases,
  inl, inr, leb, leb→le, if◌then◌else◌,
}
use tracker_enhanced.Prelude.Entries.{Distinct}
use tracker_enhanced.UdpProtocol.Messages.{response_peer_eq}
use tracker_enhanced.Udp.Swarm.Config.{PeerStatus, is_stopped}
use tracker_enhanced.Udp.Swarm.Peers.{SmallPeerMap, LargePeerMap, Containers}
use tracker_enhanced.Udp.Swarm.Small
use tracker_enhanced.Udp.Swarm.Large
use tracker_enhanced.Udp.Swarm.Large.{keys}
use tracker_enhanced.Udp.Swarm.Small.Steps
use tracker_enhanced.Udp.Swarm.Large.Steps as LargeSteps
use tracker_enhanced.Udp.Swarm.Large.Steps.{with_peers, Counted}
use tracker_enhanced.Udp.Swarm.PeerMap.{PeerMap, small, large}
use tracker_enhanced.Udp.Swarm.PeerMap.Invariant.{entries, completed_count, IsValid, IsReady}

module _ {I : Type 0} ⦃e : Eq I⦄ where
  -- The map that is left has room for a peer that goes on, and is well formed for one that stops.
  abbrev pub Keeps : PeerStatus → PeerMap I → Type 0
  Keeps status m = elim (is_stopped status) [ true ↦ IsValid m | false ↦ IsReady m ]

module _ {I : Type 0} ⦃e : Eq I⦄ (c : Containers I) where
  -- What a small map becomes before the insertion.
  abbrev pub Becomes : PeerStatus → SmallPeerMap I → PeerMap I → Type 0
  Becomes status m m' =
      ((if Small.is_full c m && not (is_stopped status)
          then (Small.to_large c m >>= λ l. some (large l))
          else some (small m))
        ≡ some m')
      × Keeps status m'
      × (entries m' ≡ m.peers)
      × (completed_count m' ≡ m.completed_count)

  small_ready :
      (status : PeerStatus) (m : SmallPeerMap I)
      → is_stopped status ≡ false
      → length m.peers ≤ 2
      → Distinct m.peers
      → (m' : PeerMap I) × Becomes status m m'
  small_ready status m on h d = elim (Bool-cases (leb 2 (length m.peers))) [
    | inl full ↦ (
      large (
          with_peers
            (record { peers = m.peers; num_seeders = 0; completed_count = m.completed_count })
            m.peers),
      (
        rw (full, on, Steps.to_large_eq c m d),
        rw (on, Keeps) (leb→le 2 (length m.peers) full, d, refl),
        refl,
        refl,
      ),
    )
    | inr room ↦ (small m, (rw room, rw (on, Keeps) (le_lt room, d), refl, refl))
  ]
    where
      le_lt : leb 2 (length m.peers) ≡ false → length m.peers < 2
      le_lt q = ground arith

  pub small_next :
      (status : PeerStatus) (m : SmallPeerMap I)
      → length m.peers ≤ 2
      → Distinct m.peers
      → (m' : PeerMap I) × Becomes status m m'
  small_next PeerStatus.stopped m h d = (small m, (ground arith, (h, d), refl, refl))
  small_next PeerStatus.seeding m h d = small_ready PeerStatus.seeding m refl h d
  small_next PeerStatus.leeching m h d = small_ready PeerStatus.leeching m refl h d

  -- What a large map becomes before the insertion.
  abbrev pub Shrinks : PeerStatus → LargePeerMap I → PeerMap I → Type 0
  Shrinks status m m' =
      ((if is_stopped status
          then (Large.try_shrink c m >>= λ opt. elim opt [
            | none ↦ some (large m)
            | some s ↦ some (small s)
          ])
          else some (large m))
        ≡ some m')
      × Keeps status m'
      × (entries m' ≡ m.peers)
      × (completed_count m' ≡ m.completed_count)

  pub large_next :
      (status : PeerStatus) (m : LargePeerMap I)
      → 2 ≤ length m.peers
      → Distinct m.peers
      → Counted m
      → (m' : PeerMap I) × Shrinks status m m'
  large_next PeerStatus.seeding m h d counted = (large m, (refl, (h, d, counted), refl, refl))
  large_next PeerStatus.leeching m h d counted = (large m, (refl, (h, d, counted), refl, refl))
  large_next PeerStatus.stopped m h d counted = elim (Bool-cases (leb (length m.peers) 2)) [
    | inl few ↦ (
      small (record { peers = m.peers; completed_count = m.completed_count }),
      (rw (LargeSteps.try_shrink_eq c m, few), (leb→le (length m.peers) 2 few, d), refl, refl),
    )
    | inr many ↦
        (large m, (rw (LargeSteps.try_shrink_eq c m, many), (lt_of many, d, counted), refl, refl))
  ]
    where
      lt_of : leb (length m.peers) 2 ≡ false → 3 ≤ length m.peers
      lt_of q = ground arith
