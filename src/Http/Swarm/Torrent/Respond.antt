-- ===== src/Http/Swarm/Torrent/Respond.antt =====
-- What an announce answers, and what it keeps of the torrent, once the announcing peer is taken out.
use mathlib.Core.List.{Sublist}
use tracker_enhanced.Prelude.{
  ℕ, ◌-◌, ◌≤◌, ◌<◌, ◌≡◌, refl, true, false, not, ◌&&◌, none, some, List, arith, ◌>>=◌, Eq, ◌==◌,
  length, count, min, if◌then◌else◌, map, take, length-map, length-take, leb, leb→le, Bool-cases,
  inl, inr,
}
use tracker_enhanced.Prelude.Entries.{
  lookup, erase, swap_remove, Distinct, lookup-erase, lookup-swap_remove, erase-Distinct,
  swap_remove-Distinct, length-erase, length-swap_remove,
}
use tracker_enhanced.Prelude.Slices.{take-sublist, map-slice}
use tracker_enhanced.Crates.{Rng}
use tracker_enhanced.Sampling
use tracker_enhanced.Http.Messages.{ResponsePeer, response_peer_eq}
use tracker_enhanced.Http.Swarm.Peers.{
  PeerStatus, SmallPeerMap, LargePeerMap, Containers, Entry, seeds, is_full, to_large, try_shrink,
  small_response_peers,
}
use tracker_enhanced.Http.Swarm.Peers.Steps
use tracker_enhanced.Http.Swarm.Peers.Steps.{with_peers, Counted}
use tracker_enhanced.Http.Swarm.Torrent.{
  TorrentData, small, large, is_stopped, ResponseData, respond, respond_small, respond_large,
}
use tracker_enhanced.Http.Swarm.Torrent.Invariant.{entries, completed_count, IsValid, IsReady}

module _ {I : Type 0} ⦃e : Eq I⦄ where
  -- `others` is the peers without the one of `key`.
  abbrev pub Without : ResponsePeer I → List (Entry I) → List (Entry I) → Type 0
  Without key old others =
      Distinct others
      × ((j : ResponsePeer I) → lookup j others ≡ (if key == j then none else lookup j old))
      × (length others ≤ length old)

  -- The response counts all other peers and holds as many of them as it may, each once.
  abbrev pub Answers : ℕ → List (Entry I) → ResponseData I → Type 0
  Answers max others response =
      (peers : List (ResponsePeer I)) × (response
        ≡ (count seeds others, length others - count seeds others, peers))
      × (length peers ≡ min max (length others))
      × Sublist peers (map (λ x. x.0) others)

  -- What is left has room for a peer that goes on, and is well formed for one that stops.
  abbrev pub Keeps : PeerStatus → TorrentData I → Type 0
  Keeps PeerStatus.stopped t = IsValid t
  Keeps PeerStatus.seeding t = IsReady t
  Keeps PeerStatus.leeching t = IsReady t

module _ {I : Type 0} ⦃e : Eq I⦄ (c : Containers I) where
  small-IsReady :
      (m : SmallPeerMap I)
      → length m.peers ≤ 4
      → Distinct m.peers
      → (t : TorrentData I) × ((if is_full c m && true
            then (to_large c m >>= λ l. some (large l))
            else some (small m))
          ≡ some t)
        × IsReady t
        × (entries t ≡ m.peers)
        × (completed_count t ≡ m.completed_count)
  small-IsReady m h d = elim (Bool-cases (leb 4 (length m.peers))) [
    | inl full ↦ (
      large (record {
        peers = m.peers;
        num_seeders = count seeds m.peers;
        completed_count = m.completed_count;
      }),
      rw (full, Steps.to_large_eq c m d) refl,
      (d, refl),
      refl,
      refl,
    )
    | inr room ↦ (small m, rw room refl, (below room, d), refl, refl)
  ]
    where
      below : leb 4 (length m.peers) ≡ false → length m.peers < 4
      below q = ground arith

  -- What a small map becomes before the insertion: a full one becomes large.
  small_next :
      (status : PeerStatus) (m : SmallPeerMap I)
      → length m.peers ≤ 4
      → Distinct m.peers
      → (t : TorrentData I) × ((if is_full c m && not (is_stopped status)
            then (to_large c m >>= λ l. some (large l))
            else some (small m))
          ≡ some t)
        × Keeps status t
        × (entries t ≡ m.peers)
        × (completed_count t ≡ m.completed_count)
  small_next PeerStatus.stopped m h d = (small m, ground arith, (h, d), refl, refl)
  small_next PeerStatus.seeding m h d = small-IsReady m h d
  small_next PeerStatus.leeching m h d = small-IsReady m h d

  -- What a large map becomes: one with few peers becomes small when a peer stops.
  large_next :
      (status : PeerStatus) (m : LargePeerMap I)
      → Distinct m.peers
      → Counted m
      → (t : TorrentData I) × ((if is_stopped status
            then (try_shrink c m >>= λ opt. elim opt [
              | none ↦ some (large m)
              | some s ↦ some (small s)
            ])
            else some (large m))
          ≡ some t)
        × Keeps status t
        × (entries t ≡ m.peers)
        × (completed_count t ≡ m.completed_count)
  large_next PeerStatus.seeding m d counted = (large m, refl, (d, counted), refl, refl)
  large_next PeerStatus.leeching m d counted = (large m, refl, (d, counted), refl, refl)
  large_next PeerStatus.stopped m d counted = elim (Bool-cases (leb (length m.peers) 4)) [
    | inl few ↦ (
      small (record { peers = m.peers; completed_count = m.completed_count }),
      rw (Steps.try_shrink_eq c m, few) refl,
      (leb→le (length m.peers) 4 few, d),
      refl,
      refl,
    )
    | inr many ↦ (large m, rw (Steps.try_shrink_eq c m, many) refl, (d, counted), refl, refl)
  ]

  small_Answers :
      (max : ℕ) (m : SmallPeerMap I)
      → Answers max m.peers
          (count seeds m.peers, length m.peers - count seeds m.peers, small_response_peers c m max)
  small_Answers max m =
      let sub : Sublist (map (λ (x : Entry I). x.0) (take max m.peers)) (map (λ x. x.0) m.peers) =
        rw (map-slice (λ (x : Entry I). x.0) max 0 m.peers)
          (take-sublist max (map (λ x. x.0) m.peers)) in
      (
        small_response_peers c m max,
        refl,
        omega
            (arith, length-map (λ (x : Entry I). x.0) (take max m.peers), length-take max m.peers),
        sub,
      )

  module _ (r : Rng) where
    -- The outcome of the first part of an announce: total, and right about the other peers.
    abbrev pub Responds :
        ResponsePeer I → PeerStatus → ℕ → r.Source → TorrentData I → TorrentData I → Type 0
    Responds key status max rng t t' =
        (response : ResponseData I) × (rng' : r.Source) × (respond c r key status max rng t
          ≡ some (t', response, rng'))
        × Without key (entries t) (entries t')
        × Answers max (entries t') response
        × Keeps status t'
        × (completed_count t' ≡ completed_count t)

    pub respond_lem :
        (key : ResponsePeer I) (status : PeerStatus) (max : ℕ) (rng : r.Source) (t : TorrentData I)
        → IsValid t
        → (t' : TorrentData I) × Responds key status max rng t t'
    unfolding respond respond_small respond_large
    respond_lem key status max rng (small m) (h, d) =
        let rest : SmallPeerMap I = record m { peers = erase key m.peers } in
        let d' = erase-Distinct key m.peers d in
        let (t', q, keeps, same, completed) =
          small_next status rest (omega (arith, length-erase key m.peers)) d' in
        (
          t',
          (
            (
              count seeds rest.peers,
              length rest.peers - count seeds rest.peers,
              small_response_peers c rest max,
            ),
            rng,
            rw (Steps.small_remove_eq c m key, Steps.small_seeders_leechers_eq c rest, q) refl,
            rw same
                (d', (λ j. lookup-erase key j m.peers d), omega (arith, length-erase key m.peers)),
            rw same (small_Answers max rest),
            keeps,
            completed,
          ),
        )
    respond_lem key status max rng (large m) (d, counted) =
        let rest = with_peers m (swap_remove key m.peers) in
        let d' = swap_remove-Distinct key m.peers d in
        let (t', q, keeps, same, completed) = large_next status rest d' refl in
        let (peers, rng', taken, (total, sub)) = Sampling.sample_lem c.index r rng rest.peers max in
        (
          t',
          (
            (count seeds rest.peers, length rest.peers - count seeds rest.peers, peers),
            rng',
            rw
                (
                  Steps.remove_peer_eq c m key d counted,
                  Steps.large_seeders_leechers_eq c rest refl,
                  taken,
                  q,
                )
                refl,
            rw same (
              d',
              (λ j. lookup-swap_remove key j m.peers d),
              omega (arith, length-swap_remove key m.peers),
            ),
            rw same (peers, refl, total, sub),
            keeps,
            completed,
          ),
        )
