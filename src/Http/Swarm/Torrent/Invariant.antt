-- ===== src/Http/Swarm/Torrent/Invariant.antt =====
-- When the peers of a torrent are well formed, and that an insertion after a removal keeps them so.
use tracker_enhanced.Prelude.{
  ℕ, ◌+◌, ◌-◌, ◌≤◌, ◌<◌, ◌≡◌, refl, none, some, List, [], ◌∷◌, ◌++◌, arith, Eq, length, count,
  u64_mod, length-append,
}
use tracker_enhanced.Prelude.Entries.{lookup, Distinct, append_single-Distinct}
use tracker_enhanced.Http.Messages.{ResponsePeer, response_peer_eq}
use tracker_enhanced.Http.Swarm.Peers.{Peer, Entry, Containers, seeds}
use tracker_enhanced.Http.Swarm.Peers.Steps
use tracker_enhanced.Http.Swarm.Peers.Steps.{Counted, with_peers}
use tracker_enhanced.Http.Swarm.Torrent
use tracker_enhanced.Http.Swarm.Torrent.{
  TorrentData, small, large, u64_to_usize_checked, scrape_statistics,
}

abbrev pub entries : {I : Type 0} → TorrentData I → List (Entry I)
entries (small m) = m.peers
entries (large m) = m.peers

abbrev pub completed_count : {I : Type 0} → TorrentData I → ℕ
completed_count (small m) = m.completed_count
completed_count (large m) = m.completed_count

-- A small map holds at most four peers; no peer stands twice; the seeders of a large map are counted
-- right.
abbrev pub IsValid : {I : Type 0} ⦃e : Eq I⦄ → TorrentData I → Type 0
IsValid (small m) = (length m.peers ≤ 4) × Distinct m.peers
IsValid (large m) = Distinct m.peers × Counted m

-- A map with room for one more peer: what an announce has before it inserts.
abbrev pub IsReady : {I : Type 0} ⦃e : Eq I⦄ → TorrentData I → Type 0
IsReady (small m) = (length m.peers < 4) × Distinct m.peers
IsReady (large m) = Distinct m.peers × Counted m

pub entries-Distinct :
    {I : Type 0} ⦃e : Eq I⦄ (t : TorrentData I) → IsValid t → Distinct (entries t)
entries-Distinct (small m) (h, d) = d
entries-Distinct (large m) (d, counted) = d

module _ {I : Type 0} ⦃e : Eq I⦄ (c : Containers I) where
  -- After the insertion the map is well formed and the peer is its last.
  abbrev pub Inserts : TorrentData I → ResponsePeer I → Peer → TorrentData I → Type 0
  Inserts t key peer t' =
      (Torrent.insert c t key peer ≡ some t')
      × IsValid t'
      × (entries t' ≡ entries t ++ (key, peer) ∷ [])
      × (completed_count t' ≡ completed_count t)

  pub insert_lem :
      (t : TorrentData I) (key : ResponsePeer I) (peer : Peer)
      → IsReady t
      → lookup key (entries t) ≡ none
      → length (entries t) + 1 < u64_mod
      → (t' : TorrentData I) × Inserts t key peer t'
  unfolding Torrent.insert
  insert_lem (small m) key peer (size, d) absent fits = (
    small (record m { peers = m.peers ++ (key, peer) ∷ [] }),
    (
      rw (Steps.small_insert_eq c m key peer size),
      (
        omega (arith, length-append m.peers ((key, peer) ∷ [])),
        append_single-Distinct key peer m.peers absent d,
      ),
      refl,
      refl,
    ),
  )
  insert_lem (large m) key peer (d, counted) absent fits = (
    large (with_peers m (m.peers ++ (key, peer) ∷ [])),
    (
      rw (Steps.large_insert_eq c m key peer d counted absent fits),
      (append_single-Distinct key peer m.peers absent d, refl),
      refl,
      refl,
    ),
  )

  -- A scrape counts the seeders, the other peers and the downloads.
  pub scrape_statistics_eq :
      (t : TorrentData I)
      → IsValid t
      → scrape_statistics c t
        ≡ some (record {
          complete = count seeds (entries t);
          incomplete = length (entries t) - count seeds (entries t);
          downloaded = u64_to_usize_checked (completed_count t);
        })
  unfolding scrape_statistics
  scrape_statistics_eq (small m) (h, d) = rw (Steps.small_seeders_leechers_eq c m)
  scrape_statistics_eq (large m) (d, counted) = rw (Steps.large_seeders_leechers_eq c m counted)
