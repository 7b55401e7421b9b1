-- ===== src/Udp/Swarm/Shards/Sweep.antt =====
-- What a cleaning does to the torrents of all shards: which it keeps, and what it counts.
use tracker_enhanced.Prelude.{
  ◌≡◌, refl, ap, ◌∙◌, false, not, ◌&&◌, Option, none, some, [], ◌∷◌, arith, Eq, list_eq, nat_eq,
  eqb, if◌then◌else◌, length,
}
use tracker_enhanced.Prelude.Entries.{lookup, Distinct, keep_value}
use tracker_enhanced.Crates.{HashMap}
use tracker_enhanced.Common.Time.{SecondsSinceServerStart}
use tracker_enhanced.Common.AccessList.{AccessList, AccessListMode, allows}
use tracker_enhanced.UdpProtocol.Bytes.{Bytes}
use tracker_enhanced.Udp.Swarm.PeerMap
use tracker_enhanced.Udp.Swarm.PeerMap.Invariant.{entries}
use tracker_enhanced.Udp.Swarm.PeerMap.Clean.{cleaned, entries-cleaned}
use tracker_enhanced.Udp.Swarm.Shards.{TorrentData, TorrentMapShard, keep_torrent}
use tracker_enhanced.Udp.Swarm.Shards.Clean.{num_valid, cleaned_torrent, cleaned_torrents}

is_empty_eq : {I : Type 0} (m : PeerMap.PeerMap I) → PeerMap.is_empty m ≡ eqb (length (entries m)) 0
is_empty_eq (PeerMap.small m) = refl
is_empty_eq (PeerMap.large m) = refl

module _ {I : Type 0} (access_list : AccessList) (mode : AccessListMode)
    (now : SecondsSinceServerStart) where
  -- What is left of a torrent: nothing if it is not allowed or no peer of it is still valid.
  abbrev pub swept : Bytes → Option (TorrentData I) → Option (TorrentData I)
  swept info_hash none = none
  swept info_hash (some t) =
      if allows access_list mode info_hash && not (eqb (num_valid now t) 0)
      then some (record { peer_map = cleaned now t.peer_map; pending_removal = false })
      else none

  lookup-cleaned_torrents :
      (k : Bytes) (l : TorrentMapShard I)
      → lookup k (cleaned_torrents now l)
        ≡ elim (lookup k l) [ none ↦ none | some t ↦ some (cleaned_torrent now t) ]
  unfolding lookup cleaned_torrents
  lookup-cleaned_torrents k [] = refl
  lookup-cleaned_torrents k ((j, t) ∷ l) = ground (arith, lookup-cleaned_torrents k l)

  pub cleaned_torrents-Distinct :
      (l : TorrentMapShard I) → Distinct l → Distinct (cleaned_torrents now l)
  unfolding cleaned_torrents
  cleaned_torrents-Distinct [] d = tt
  cleaned_torrents-Distinct ((j, t) ∷ l) d =
      (rw (lookup-cleaned_torrents j l, d.0) refl, cleaned_torrents-Distinct l d.1)

  kept_eq :
      (k : Bytes) (o : Option (TorrentData I))
      → keep_value
          (keep_torrent access_list mode)
          k
          (elim o [ none ↦ none | some t ↦ some (cleaned_torrent now t) ])
        ≡ swept k o
  unfolding keep_torrent
  kept_eq k none = refl
  kept_eq k (some t) =
      rw (is_empty_eq (cleaned now t.peer_map), ap length (entries-cleaned now t.peer_map))
        (ground arith)

module _ {I : Type 0} ⦃e : Eq I⦄ (h : HashMap Bytes (TorrentData I)) (access_list : AccessList)
    (mode : AccessListMode) (now : SecondsSinceServerStart) where
  abbrev pub swept_shard : TorrentMapShard I → TorrentMapShard I
  swept_shard shard = h.hash_retain (keep_torrent access_list mode) (cleaned_torrents now shard)

  pub lookup-swept_shard :
      (k : Bytes) (shard : TorrentMapShard I)
      → Distinct shard
      → lookup k (swept_shard shard) ≡ swept access_list mode now k (lookup k shard)
  lookup-swept_shard k shard d =
      h.lookup-hash_retain (keep_torrent access_list mode) (cleaned_torrents now shard) k
        (cleaned_torrents-Distinct access_list mode now shard d)
      ∙ ap (keep_value (keep_torrent access_list mode) k)
          (lookup-cleaned_torrents access_list mode now k shard)
      ∙ kept_eq access_list mode now k (lookup k shard)
