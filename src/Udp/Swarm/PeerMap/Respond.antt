-- ===== src/Udp/Swarm/PeerMap/Respond.antt =====
-- What `PeerMap` answers, and what it keeps, once the announcing peer is taken out of it.
use mathlib.Core.List.{Sublist}
use tracker_enhanced.Prelude.{
  ℕ, ◌-◌, ◌≤◌, ◌≡◌, refl, Option, none, some, List, arith, Eq, ◌==◌, length, count, min, present,
  if◌then◌else◌, map, take, length-map, length-take,
}
use tracker_enhanced.Prelude.Entries.{
  lookup, erase, swap_remove, Distinct, lookup-erase, lookup-swap_remove, erase-Distinct,
  swap_remove-Distinct, length-erase, length-swap_remove,
}
use tracker_enhanced.Prelude.Slices.{take-sublist, map-slice}
use tracker_enhanced.Crates.{Rng}
use tracker_enhanced.UdpProtocol.Messages.{
  ResponsePeer, response_peer_eq, AnnounceRequest, AnnounceResponse,
}
use tracker_enhanced.Udp.Swarm.Config.{Config, PeerStatus}
use tracker_enhanced.Udp.Swarm.Peers.{SmallPeerMap, LargePeerMap, Containers, Entry, seeds}
use tracker_enhanced.Udp.Swarm.Small
use tracker_enhanced.Udp.Swarm.Small.Steps
use tracker_enhanced.Udp.Swarm.Large.Steps as LargeSteps
use tracker_enhanced.Udp.Swarm.Large.Steps.{with_peers, Counted}
use tracker_enhanced.Udp.Swarm.Large.Sample.{extract_response_peers_lem}
use tracker_enhanced.Udp.Swarm.PeerMap
use tracker_enhanced.Udp.Swarm.PeerMap.{PeerMap, small, large, Responded, response_to}
use tracker_enhanced.Udp.Swarm.PeerMap.Next.{Keeps, small_next, large_next}
use tracker_enhanced.Udp.Swarm.PeerMap.Invariant.{entries, completed_count, IsValid}

module _ {I : Type 0} ⦃e : Eq I⦄ where
  -- `others` is the peers without the one of `key`.
  abbrev pub Without : ResponsePeer I → List (Entry I) → List (Entry I) → Type 0
  Without key old others =
      Distinct others
      × ((j : ResponsePeer I) → lookup j others ≡ (if key == j then none else lookup j old))
      × (length others ≤ length old)

  -- The response counts all other peers and holds as many of them as it may, each once.
  abbrev pub Answers : Config → AnnounceRequest → ℕ → List (Entry I) → AnnounceResponse I → Type 0
  Answers config request max others response =
      (peers : List (ResponsePeer I)) × (response
        ≡ response_to config request (count seeds others) (length others - count seeds others)
            peers)
      × (length peers ≡ min max (length others))
      × Sublist peers (map (λ x. x.0) others)

present_le {ℓ} : {A : Type ℓ} (o : Option A) → present o ≤ 1
present_le none = omega arith
present_le (some a) = omega arith

module _ {I : Type 0} ⦃e : Eq I⦄ (c : Containers I) where
  small_Answers :
      (config : Config) (request : AnnounceRequest) (max : ℕ) (m : SmallPeerMap I)
      → Answers config request max m.peers (
          response_to config request
            (count seeds m.peers)
            (length m.peers - count seeds m.peers)
            (Small.extract_response_peers c m max))
  small_Answers config request max m =
      let sub : Sublist (map (λ (x : Entry I). x.0) (take max m.peers)) (map (λ x. x.0) m.peers) =
        rw (map-slice (λ (x : Entry I). x.0) max 0 m.peers)
          (take-sublist max (map (λ x. x.0) m.peers)) in
      (
        Small.extract_response_peers c m max,
        refl,
        omega
            (arith, length-map (λ (x : Entry I). x.0) (take max m.peers), length-take max m.peers),
        sub,
      )

  small_Without :
      (key : ResponsePeer I) (l : List (Entry I)) → Distinct l → Without key l (erase key l)
  small_Without key l d =
      (erase-Distinct key l d, (λ j. lookup-erase key j l d), omega (arith, length-erase key l))

  large_Without :
      (key : ResponsePeer I) (l : List (Entry I)) → Distinct l → Without key l (swap_remove key l)
  large_Without key l d = (
    swap_remove-Distinct key l d,
    (λ j. lookup-swap_remove key j l d),
    omega (arith, length-swap_remove key l),
  )

  module _ (r : Rng) where
    -- The outcome of the first part of an announce: total, and right about the other peers.
    abbrev pub Responds :
        Config
        → AnnounceRequest
        → ResponsePeer I
        → PeerStatus
        → ℕ
        → r.Source
        → PeerMap I
        → Responded c r
        → List (Entry I)
        → Type 0
    Responds config request key status max rng m s others =
        (PeerMap.respond c r config request key status max rng m ≡ some s)
        × Without key (entries m) others
        × Answers config request max others s.response
        × (s.removed ≡ lookup key (entries m))
        × (entries s.map ≡ others)
        × Keeps status s.map
        × (completed_count s.map ≡ completed_count m)

    respond_small_lem :
        (config : Config) (request : AnnounceRequest) (key : ResponsePeer I) (status : PeerStatus)
        (max : ℕ) (rng : r.Source) (m : SmallPeerMap I)
        → IsValid (small m)
        → (s : Responded c r) × (others : List (Entry I)) × Responds config request key status max
            rng
            (small m)
            s
            others
    unfolding PeerMap.respond PeerMap.respond_small
    respond_small_lem config request key status max rng m (h, d) =
        let others = erase key m.peers in
        let without = small_Without key m.peers d in
        let rest : SmallPeerMap I = record m { peers = others } in
        let (m', (q, keeps, same, completed)) =
          small_next c status rest (omega (arith, length-erase key m.peers)) without.0 in
        let response =
          response_to config request (count seeds others) (length others - count seeds others)
            (Small.extract_response_peers c rest max) in
        (
          record { map = m'; rng = rng; response = response; removed = lookup key m.peers },
          others,
          (
            rw (Steps.remove_eq c m key, Steps.num_seeders_leechers_eq c rest, q),
            without,
            small_Answers config request max rest,
            refl,
            same,
            keeps,
            completed,
          ),
        )

    respond_large_lem :
        (config : Config) (request : AnnounceRequest) (key : ResponsePeer I) (status : PeerStatus)
        (max : ℕ) (rng : r.Source) (m : LargePeerMap I)
        → IsValid (large m)
        → (s : Responded c r) × (others : List (Entry I)) × Responds config request key status max
            rng
            (large m)
            s
            others
    unfolding PeerMap.respond PeerMap.respond_large
    respond_large_lem config request key status max rng m (h, d, counted) =
        let others = swap_remove key m.peers in
        let without = large_Without key m.peers d in
        let rest = with_peers m others in
        let size : 2 ≤ length others =
          omega (arith, length-swap_remove key m.peers, present_le (lookup key m.peers)) in
        let (m', (q, keeps, same, completed)) = large_next c status rest size without.0 refl in
        let (peers, rng', taken, (total, sub)) = extract_response_peers_lem c r rng rest max in
        let response =
          response_to config request (count seeds others) (length others - count seeds others)
            peers in
        (
          record { map = m'; rng = rng'; response = response; removed = lookup key m.peers },
          others,
          (
            rw (
              LargeSteps.remove_peer_eq c m key d counted,
              LargeSteps.num_seeders_leechers_eq c rest refl,
              taken,
              q,
            ),
            without,
            (peers, refl, total, sub),
            refl,
            same,
            keeps,
            completed,
          ),
        )

    pub respond_lem :
        (config : Config) (request : AnnounceRequest) (key : ResponsePeer I) (status : PeerStatus)
        (max : ℕ) (rng : r.Source) (m : PeerMap I)
        → IsValid m
        → (s : Responded c r) × (others : List (Entry I)) × Responds config request key status max
            rng m s others
    respond_lem config request key status max rng (small m) =
        respond_small_lem config request key status max rng m
    respond_lem config request key status max rng (large m) =
        respond_large_lem config request key status max rng m
