-- ===== src/Udp/Swarm/Maps.antt =====
-- crates/udp/src/swarm.rs: `TorrentMaps`, the torrents of IPv4 and of IPv6 peers.
pub mod Families
use tracker_enhanced.Prelude.{
  ℕ, Bool, true, false, Option, none, some, List, [], ◌∷◌, ◌++◌, ◌>>=◌, Eq, list_eq, nat_eq,
  if◌then◌else◌,
}
use tracker_enhanced.Crates.{HashMap, Rng}
use tracker_enhanced.Common.Time.{SecondsSinceServerStart, ValidUntil}
use tracker_enhanced.Common.Ip.{IpAddr, v4, v6, SocketAddr, is_ipv4}
use tracker_enhanced.Common.AccessList.{AccessList, AccessListMode}
use tracker_enhanced.UdpProtocol.Bytes.{Bytes}
use tracker_enhanced.UdpProtocol.Messages.{
  AnnounceRequest, ScrapeRequest, ScrapeResponse, Response, announce_ipv4, announce_ipv6,
}
use tracker_enhanced.Udp.Swarm.Config.{
  Config, StatisticsMessage, ipv4_peer_histogram, ipv6_peer_histogram,
}
use tracker_enhanced.Udp.Swarm.Peers.{Containers}
use tracker_enhanced.Udp.Swarm.Shards
use tracker_enhanced.Udp.Swarm.Shards.{TorrentMapShards, TorrentData, Gathered}

-- Both address types are the bytes of an address.
pub record TorrentMaps : Type 0 where
  pub ipv4 : TorrentMapShards Bytes
  pub ipv6 : TorrentMapShards Bytes

-- `TorrentMaps::default`
abbrev pub default : TorrentMaps
default = record { ipv4 = Shards.new 16; ipv6 = Shards.new 16 }

-- The counts that the cleaning stores, if statistics are active.
pub record SwarmStatistics : Type 0 where
  pub ipv4_torrents : ℕ
  pub ipv6_torrents : ℕ
  pub ipv4_peers : ℕ
  pub ipv6_peers : ℕ

abbrev pub histogram_message :
    (List ℕ → StatisticsMessage) → Option (List ℕ) → List StatisticsMessage
histogram_message message none = []
histogram_message message (some values) = message values ∷ []

module _ (c : Containers Bytes) (h : HashMap Bytes (TorrentData Bytes)) where
  module _ (r : Rng) where
    -- The torrents, the response, the random source and the messages sent.
    pub record Answered : Type 0 where
      pub maps : TorrentMaps
      pub response : Response
      pub rng : r.Source
      pub messages : List StatisticsMessage

    -- `TorrentMaps::announce`
    unfoldable pub announce :
        Config → r.Source → AnnounceRequest → IpAddr → ValidUntil → TorrentMaps → Option Answered
    announce config rng request (v4 ip_address) valid_until maps = do
      (shards, a) ← Shards.announce c h r config rng request ip_address valid_until maps.ipv4
      some (record {
        maps = record maps { ipv4 = shards };
        response = Response.announce_ipv4 a.response;
        rng = a.rng;
        messages = a.messages;
      })
    announce config rng request (v6 ip_address) valid_until maps = do
      (shards, a) ← Shards.announce c h r config rng request ip_address valid_until maps.ipv6
      some (record {
        maps = record maps { ipv6 = shards };
        response = Response.announce_ipv6 a.response;
        rng = a.rng;
        messages = a.messages;
      })

  -- `TorrentMaps::scrape`
  unfoldable pub scrape : TorrentMaps → ScrapeRequest → IpAddr → Option ScrapeResponse
  scrape maps request src =
      if is_ipv4 src then Shards.scrape c maps.ipv4 request else Shards.scrape c maps.ipv6 request

  -- `TorrentMaps::clean_and_update_statistics`: the torrents, the counts that are stored and the
  -- messages that are sent.
  unfoldable pub clean_and_update_statistics :
      Bool
      → Config
      → AccessList
      → AccessListMode
      → SecondsSinceServerStart
      → TorrentMaps
      → Option (TorrentMaps × Option SwarmStatistics × List StatisticsMessage)
  clean_and_update_statistics active config access_list mode now maps = do
    (ipv4, g4, n4) ← Shards.clean_and_get_statistics c h config [] access_list mode now maps.ipv4
    (ipv6, g6, n6) ←
        Shards.clean_and_get_statistics c h config g4.messages access_list mode now maps.ipv6
    let counts : SwarmStatistics = record {
      ipv4_torrents = n4;
      ipv6_torrents = n6;
      ipv4_peers = g4.num_peers;
      ipv6_peers = g6.num_peers;
    }
    let sent =
        g6.messages
        ++ histogram_message ipv4_peer_histogram g4.histogram
        ++ histogram_message ipv6_peer_histogram g6.histogram
    some (
      record { ipv4 = ipv4; ipv6 = ipv6 },
      if active then some counts else none,
      if active then sent else [],
    )
