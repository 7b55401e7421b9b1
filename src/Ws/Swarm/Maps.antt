-- ===== src/Ws/Swarm/Maps.antt =====
-- crates/ws/src/workers/swarm/storage.rs: `TorrentMaps`, the torrents of both address families.
use tracker_enhanced.Prelude.{
  ◌≡◌, refl, arith, Option, some, List, ◌>>=◌, list_eq, nat_eq, ◌==◌, take, if◌then◌else◌,
}
use tracker_enhanced.Crates.{IndexMap, HashMap, Rng}
use tracker_enhanced.Common.Time.{SecondsSinceServerStart}
use tracker_enhanced.Common.AccessList.{AccessList, AccessListMode}
use tracker_enhanced.Common.Ip.{IpAddr, canonical_ip, mapped_prefix}
use tracker_enhanced.UdpProtocol.Bytes.{Bytes}
use tracker_enhanced.Ws.Messages.{
  IpVersion, AnnounceRequest, ScrapeRequest, ScrapeStatistics, InMessageMeta, Out,
}
use tracker_enhanced.Ws.Swarm.Peers.{TorrentData, Config, Containers}
use tracker_enhanced.Ws.Swarm.Torrents
use tracker_enhanced.Ws.Swarm.Torrents.{TorrentMap}

pub record TorrentMaps : Type 0 where
  pub ipv4 : TorrentMap
  pub ipv6 : TorrentMap

-- `get_torrent_map_by_ip_version`, and what is written back to it.
abbrev pub get_torrent_map : IpVersion → TorrentMaps → TorrentMap
get_torrent_map IpVersion.v4 m = m.ipv4
get_torrent_map IpVersion.v6 m = m.ipv6

abbrev pub put_torrent_map : IpVersion → TorrentMaps → TorrentMap → TorrentMaps
put_torrent_map IpVersion.v4 m torrents = record m { ipv4 = torrents }
put_torrent_map IpVersion.v6 m torrents = record m { ipv6 = torrents }

-- `IpVersion::canonical_from_ip`
unfoldable pub canonical_from_ip : IpAddr → IpVersion
canonical_from_ip (IpAddr.v4 octets) = IpVersion.v4
canonical_from_ip (IpAddr.v6 octets) =
    if take 12 octets == mapped_prefix then IpVersion.v4 else IpVersion.v6

-- `TorrentMaps::handle_scrape_request`
unfoldable pub handle_scrape_request :
    HashMap Bytes ScrapeStatistics
    → Config
    → InMessageMeta
    → ScrapeRequest
    → List Out
    → TorrentMaps
    → Option (List Out)
handle_scrape_request h config meta request out m =
    Torrents.handle_scrape_request h config meta request out (get_torrent_map meta.ip_version m)

abbrev pub family : IpAddr → IpVersion
family (IpAddr.v4 octets) = IpVersion.v4
family (IpAddr.v6 octets) = IpVersion.v6

-- The torrents that a connection sees are those of the family of its canonical address.
pub canonical_from_ip_lem : (ip : IpAddr) → canonical_from_ip ip ≡ family (canonical_ip ip)
unfolding canonical_from_ip canonical_ip
canonical_from_ip_lem (IpAddr.v4 octets) = refl
canonical_from_ip_lem (IpAddr.v6 octets) = ground arith

module _ (c : Containers) (im : IndexMap Bytes TorrentData) where
  -- `TorrentMaps::handle_announce_request`
  unfoldable pub handle_announce_request :
      (r : Rng)
      → Config
      → r.Source
      → SecondsSinceServerStart
      → InMessageMeta
      → AnnounceRequest
      → List Out
      → TorrentMaps
      → Option (TorrentMaps × r.Source × List Out)
  handle_announce_request r config rng now meta request out m = do
    (torrents, rng, out) ←
        Torrents.handle_announce_request c im r config rng now meta request out
          (get_torrent_map meta.ip_version m)
    some (put_torrent_map meta.ip_version m torrents, rng, out)

  -- `TorrentMaps::clean`
  unfoldable pub clean :
      AccessList → AccessListMode → SecondsSinceServerStart → TorrentMaps → Option TorrentMaps
  clean list mode now m = do
    ipv4 ← Torrents.clean c im list mode now m.ipv4
    ipv6 ← Torrents.clean c im list mode now m.ipv6
    some (record { ipv4 = ipv4; ipv6 = ipv6 })

  -- `TorrentMaps::handle_connection_closed`
  unfoldable pub handle_connection_closed :
      Bytes → Bytes → IpVersion → TorrentMaps → Option TorrentMaps
  handle_connection_closed info_hash peer_id ip_version m = do
    torrents ← Torrents.handle_connection_closed c info_hash peer_id (get_torrent_map ip_version m)
    some (put_torrent_map ip_version m torrents)
