-- ===== src/Http/Swarm/Torrents.antt =====
-- crates/http/src/workers/swarm/storage.rs: `TorrentMap`, the torrents of one address family.
pub mod Announce
pub mod Clean
pub mod Scrape
use tracker_enhanced.Prelude.{
  ℕ, ◌+◌, Option, none, some, List, [], ◌∷◌, ◌>>=◌, Eq, list_eq, nat_eq, length, min, take, ltb,
  checked_add, u64_mod, if◌then◌else◌,
}
use tracker_enhanced.Prelude.Entries.{lookup, insert}
use tracker_enhanced.Prelude.Ordered.{btree_insert}
use tracker_enhanced.Crates.{IndexMap, Rng}
use tracker_enhanced.Common.Time.{SecondsSinceServerStart, ValidUntil}
use tracker_enhanced.Common.AccessList.{AccessList, AccessListMode, allows}
use tracker_enhanced.UdpProtocol.Bytes.{Bytes}
use tracker_enhanced.Http.Messages.{
  AnnounceRequest, ScrapeRequest, ScrapeResponse, ScrapeStatistics, response_peer_eq,
}
use tracker_enhanced.Http.Swarm.Peers.{Containers}
use tracker_enhanced.Http.Swarm.Torrent
use tracker_enhanced.Http.Swarm.Torrent.{
  TorrentData, default_torrent_data, Config, ResponseData, scrape_statistics,
  clean_and_get_num_peers,
}

abbrev pub TorrentMap : Type 0 → Type 0
TorrentMap I = List (Bytes × TorrentData I)

module _ {I : Type 0} ⦃e : Eq I⦄ (c : Containers I) where
  -- The statistics of a torrent that is there, or zeros.
  abbrev pub statistics : Option (TorrentData I) → Option ScrapeStatistics
  statistics none = some (record { complete = 0; incomplete = 0; downloaded = 0 })
  statistics (some t) = scrape_statistics c t

  -- The loop of `handle_scrape_request`.
  unfoldable pub scrape_files :
      TorrentMap I
      → List Bytes
      → List (Bytes × ScrapeStatistics)
      → Option (List (Bytes × ScrapeStatistics))
  scrape_files torrents [] files = some files
  scrape_files torrents (info_hash ∷ info_hashes) files = do
    stats ← statistics (lookup info_hash torrents)
    scrape_files torrents info_hashes (btree_insert info_hash stats files)

  -- `TorrentMap::handle_scrape_request`
  unfoldable pub handle_scrape_request :
      Config → ScrapeRequest → TorrentMap I → Option ScrapeResponse
  handle_scrape_request config request torrents = do
    let num_to_take = min (length request.info_hashes) config.max_scrape_torrents
    files ← scrape_files torrents (take num_to_take request.info_hashes) []
    some (record { files = files })

  -- The closure of the `retain` over the torrents; `none` is a panic inside it.
  unfoldable pub keep_torrent :
      AccessList
      → AccessListMode
      → SecondsSinceServerStart
      → Bytes
      → TorrentData I
      → Option ℕ
      → Option (TorrentData I) × Option ℕ
  keep_torrent list mode now info_hash t total =
      if allows list mode info_hash
      then elim (clean_and_get_num_peers c now t) [
        | none ↦ (none, none)
        | some (t', num_peers) ↦ (
          if ltb 0 num_peers then some t' else none,
          total >>= λ n. checked_add u64_mod n num_peers,
        )
      ]
      else (none, total)

  module _ (im : IndexMap Bytes (TorrentData I)) where
    -- `TorrentMap::clean`
    unfoldable pub clean :
        AccessList → AccessListMode → SecondsSinceServerStart → TorrentMap I → Option (TorrentMap I)
    clean list mode now torrents =
        let (kept, total) = im.map_retain_mut (keep_torrent list mode now) torrents (some 0) in
        (total >>= λ n. some kept)

    -- `entry(info_hash).or_default()`
    abbrev pub create_missing :
        Bytes → TorrentMap I → Option (TorrentData I) → TorrentMap I × TorrentData I
    create_missing info_hash torrents none =
        (im.map_insert torrents info_hash default_torrent_data, default_torrent_data)
    create_missing info_hash torrents (some t) = (torrents, t)

    module _ (r : Rng) where
      -- `TorrentMap::upsert_peer_and_get_response_peers`
      unfoldable pub upsert_peer_and_get_response_peers :
          Config
          → r.Source
          → ValidUntil
          → I
          → AnnounceRequest
          → TorrentMap I
          → Option (TorrentMap I × ResponseData I × r.Source)
      upsert_peer_and_get_response_peers config rng valid_until peer_ip_address request torrents =
          do
            let (torrents', t) =
                create_missing request.info_hash torrents (lookup request.info_hash torrents)
            (t', response_data, rng) ←
                Torrent.upsert_peer_and_get_response_peers c r config rng request peer_ip_address
                  valid_until t
            some (insert request.info_hash t' torrents', response_data, rng)
