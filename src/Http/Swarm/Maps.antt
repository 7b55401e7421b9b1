-- ===== src/Http/Swarm/Maps.antt =====
-- crates/http/src/workers/swarm/storage.rs: `TorrentMaps`, the torrents of both address families.
-- Both kinds of address are their bytes.
pub mod Families
pub mod Reach
use tracker_enhanced.Prelude.{
  ℕ, Option, none, some, List, [], ◌>>=◌, Eq, list_eq, nat_eq, if◌then◌else◌,
}
use tracker_enhanced.Crates.{IndexMap, Rng}
use tracker_enhanced.Common.Time.{SecondsSinceServerStart, ValidUntil}
use tracker_enhanced.Common.Ip.{IpAddr, SocketAddr, is_ipv4}
use tracker_enhanced.Common.AccessList.{AccessList, AccessListMode}
use tracker_enhanced.UdpProtocol.Bytes.{Bytes}
use tracker_enhanced.Http.Messages.{
  AnnounceRequest, AnnounceResponse, ScrapeRequest, ScrapeResponse, response_peer_eq,
}
use tracker_enhanced.Http.Swarm.Peers.{Containers}
use tracker_enhanced.Http.Swarm.Torrent.{TorrentData, Config, ResponseData}
use tracker_enhanced.Http.Swarm.Torrents
use tracker_enhanced.Http.Swarm.Torrents.{TorrentMap}

pub record TorrentMaps : Type 0 where
  pub ipv4 : TorrentMap Bytes
  pub ipv6 : TorrentMap Bytes

-- `TorrentMaps::new`
abbrev pub new : TorrentMaps
new = record { ipv4 = []; ipv6 = [] }

abbrev pub ipv4_response : Config → ResponseData Bytes → AnnounceResponse
ipv4_response config (seeders, leechers, response_peers) = record {
  complete = seeders;
  incomplete = leechers;
  announce_interval = config.peer_announce_interval;
  peers = response_peers;
  peers6 = [];
  warning_message = none;
}

abbrev pub ipv6_response : Config → ResponseData Bytes → AnnounceResponse
ipv6_response config (seeders, leechers, response_peers) = record {
  complete = seeders;
  incomplete = leechers;
  announce_interval = config.peer_announce_interval;
  peers = [];
  peers6 = response_peers;
  warning_message = none;
}

module _ (c : Containers Bytes) where
  -- `TorrentMaps::handle_scrape_request`
  unfoldable pub handle_scrape_request :
      Config → SocketAddr → ScrapeRequest → TorrentMaps → Option ScrapeResponse
  handle_scrape_request config peer_addr request m =
      if is_ipv4 peer_addr.ip
      then Torrents.handle_scrape_request c config request m.ipv4
      else Torrents.handle_scrape_request c config request m.ipv6

  module _ (im : IndexMap Bytes (TorrentData Bytes)) where
    -- `TorrentMaps::clean`
    unfoldable pub clean :
        AccessList → AccessListMode → SecondsSinceServerStart → TorrentMaps → Option TorrentMaps
    clean list mode now m = do
      ipv4 ← Torrents.clean c im list mode now m.ipv4
      ipv6 ← Torrents.clean c im list mode now m.ipv6
      some (record { ipv4 = ipv4; ipv6 = ipv6 })

    module _ (r : Rng) where
      unfoldable pub announce_ip :
          Config
          → r.Source
          → ValidUntil
          → IpAddr
          → AnnounceRequest
          → TorrentMaps
          → Option (TorrentMaps × AnnounceResponse × r.Source)
      announce_ip config rng valid_until (IpAddr.v4 octets) request m = do
        (torrents, response_data, rng) ←
            Torrents.upsert_peer_and_get_response_peers c im r config rng valid_until octets request
              m.ipv4
        some (record m { ipv4 = torrents }, ipv4_response config response_data, rng)
      announce_ip config rng valid_until (IpAddr.v6 octets) request m = do
        (torrents, response_data, rng) ←
            Torrents.upsert_peer_and_get_response_peers c im r config rng valid_until octets request
              m.ipv6
        some (record m { ipv6 = torrents }, ipv6_response config response_data, rng)

      -- `TorrentMaps::handle_announce_request`
      unfoldable pub handle_announce_request :
          Config
          → r.Source
          → ValidUntil
          → SocketAddr
          → AnnounceRequest
          → TorrentMaps
          → Option (TorrentMaps × AnnounceResponse × r.Source)
      handle_announce_request config rng valid_until peer_addr request m =
          announce_ip config rng valid_until peer_addr.ip request m
