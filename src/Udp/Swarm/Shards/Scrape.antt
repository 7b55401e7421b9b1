-- ===== src/Udp/Swarm/Shards/Scrape.antt =====
-- What a scrape answers for the torrents of all shards.
use tracker_enhanced.Prelude.{
  ◌≡◌, refl, sym, ◌∙◌, Option, none, some, List, [], ◌∷◌, map, Eq, list_eq, nat_eq,
}
use tracker_enhanced.Prelude.Entries.{lookup}
use tracker_enhanced.UdpProtocol.Bytes.{Bytes}
use tracker_enhanced.UdpProtocol.Messages.{ScrapeRequest, TorrentScrapeStatistics}
use tracker_enhanced.Udp.Swarm.Peers.{Containers}
use tracker_enhanced.Udp.Swarm.PeerMap.Clean.{statistics_of, scrape_statistics_lem}
use tracker_enhanced.Udp.Swarm.Shards
use tracker_enhanced.Udp.Swarm.Shards.{
  TorrentData, TorrentMapShards, find, no_statistics, statistics,
}
use tracker_enhanced.Udp.Swarm.Shards.Invariant.{IsValid, get_shard_lem}

module _ {I : Type 0} ⦃e : Eq I⦄ (c : Containers I) where
  abbrev pub answer : Option (TorrentData I) → TorrentScrapeStatistics
  answer none = no_statistics
  answer (some t) = statistics_of c t.peer_map

  statistics_lem :
      (o : Option (TorrentData I)) (s : TorrentMapShards I) (info_hash : Bytes)
      → IsValid s
      → find s info_hash ≡ o
      → statistics c o ≡ some (answer o)
  statistics_lem none s info_hash valid q = refl
  statistics_lem (some t) s info_hash valid q =
      let (shard, there, ok) = get_shard_lem s info_hash valid in
      scrape_statistics_lem c t.peer_map (ok.1 info_hash t (sym (rw there refl) ∙ q))

  scrape_torrents_lem :
      (s : TorrentMapShards I) (info_hashes : List Bytes)
      → IsValid s
      → Shards.scrape_torrents c s info_hashes
        ≡ some (map (λ info_hash. answer (find s info_hash)) info_hashes)
  unfolding Shards.scrape_torrents
  scrape_torrents_lem s [] valid = refl
  scrape_torrents_lem s (info_hash ∷ info_hashes) valid =
      let (shard, there, ok) = get_shard_lem s info_hash valid in
      let here : find s info_hash ≡ lookup info_hash shard = rw there refl in
      rw
        (
          there,
          statistics_lem (lookup info_hash shard) s info_hash valid here,
          scrape_torrents_lem s info_hashes valid,
        )
        refl

  -- A scrape of well-formed shards does not fail: it answers each info hash, in the order of the
  -- request, with the statistics of the peers of that torrent, and with zeros for a torrent that is
  -- not there.
  pub scrape_lem :
      (s : TorrentMapShards I) (request : ScrapeRequest)
      → IsValid s
      → Shards.scrape c s request
        ≡ some (record {
          transaction_id = request.transaction_id;
          torrent_stats = map (λ info_hash. answer (find s info_hash)) request.info_hashes;
        })
  unfolding Shards.scrape
  scrape_lem s request valid = rw (scrape_torrents_lem s request.info_hashes valid) refl
