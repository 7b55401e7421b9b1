-- ===== src/Http/Swarm/Maps/Families.antt =====
-- The address families are kept apart: an announce touches the torrents of its own family, and its
-- response names peers of that family.
use tracker_enhanced.Prelude.{◌+◌, ◌<◌, ◌≡◌, refl, Option, some, list_eq, nat_eq, length, u64_mod}
use tracker_enhanced.Prelude.Entries.{lookup}
use tracker_enhanced.Sweep.{Puts}
use tracker_enhanced.Crates.{IndexMap, Rng}
use tracker_enhanced.Common.Time.{ValidUntil}
use tracker_enhanced.Common.Ip.{IpAddr, SocketAddr, octets}
use tracker_enhanced.UdpProtocol.Bytes.{Bytes}
use tracker_enhanced.Http.Messages.{AnnounceRequest, AnnounceResponse, response_peer_eq}
use tracker_enhanced.Http.Swarm.Peers.{Containers}
use tracker_enhanced.Http.Swarm.Torrent.{TorrentData, Config, ResponseData}
use tracker_enhanced.Http.Swarm.Torrent.Invariant.{entries, completed_count, IsValid}
use tracker_enhanced.Http.Swarm.Torrent.Upsert.{Outcome}
use tracker_enhanced.Http.Swarm.Torrents.{TorrentMap}
use tracker_enhanced.Http.Swarm.Torrents.Announce.{
  IsValidMap, torrent_or_default, announce_torrents_lem,
}
use tracker_enhanced.Http.Swarm.Maps.{
  TorrentMaps, ipv4_response, ipv6_response, announce_ip, handle_announce_request,
}

pub record IsValidMaps (m : TorrentMaps) : Type 0 where
  pub ipv4 : IsValidMap m.ipv4
  pub ipv6 : IsValidMap m.ipv6

-- The torrents that an address belongs to, the others, and the form of a response.
abbrev pub own : IpAddr → TorrentMaps → TorrentMap Bytes
own (IpAddr.v4 octets) m = m.ipv4
own (IpAddr.v6 octets) m = m.ipv6

abbrev pub foreign : IpAddr → TorrentMaps → TorrentMap Bytes
foreign (IpAddr.v4 octets) m = m.ipv6
foreign (IpAddr.v6 octets) m = m.ipv4

abbrev pub response_for : IpAddr → Config → ResponseData Bytes → AnnounceResponse
response_for (IpAddr.v4 octets) config data_ = ipv4_response config data_
response_for (IpAddr.v6 octets) config data_ = ipv6_response config data_

-- The torrent that a request is about.
abbrev pub asked_for : IpAddr → AnnounceRequest → TorrentMaps → TorrentData Bytes
asked_for ip request m = torrent_or_default (lookup request.info_hash (own ip m))

module _ (c : Containers Bytes) (im : IndexMap Bytes (TorrentData Bytes)) (r : Rng)
    (config : Config) (rng : r.Source) (valid_until : ValidUntil) (request : AnnounceRequest)
    (m : TorrentMaps) where
  -- The torrents after an announce from an address, and the response.
  abbrev pub Announces : IpAddr → Option (TorrentMaps × AnnounceResponse × r.Source) → Type 0
  Announces ip result =
      (m' : TorrentMaps) × (t' : TorrentData Bytes) × (found : ResponseData Bytes)
      × (rng' : r.Source) × (result ≡ some (m', response_for ip config found, rng'))
      × IsValidMaps m'
      × (foreign ip m' ≡ foreign ip m)
      × Puts IsValid request.info_hash (some t') (own ip m) (own ip m')
      × Outcome c r config request (octets ip) valid_until (asked_for ip request m) t' found

  announce_ip_lem :
      (ip : IpAddr)
      → IsValidMaps m
      → completed_count (asked_for ip request m) + 1 < u64_mod
      → length (entries (asked_for ip request m)) + 1 < u64_mod
      → Announces ip (announce_ip c im r config rng valid_until ip request m)
  unfolding announce_ip
  announce_ip_lem (IpAddr.v4 ip) ok fits room =
      let (torrents', t', found, rng', q, ok', put, outcome) =
        announce_torrents_lem c im r config rng valid_until ip request m.ipv4 ok.ipv4 fits room in
      (
        record m { ipv4 = torrents' },
        t',
        found,
        rng',
        rw q refl,
        record { ipv4 = ok'; ipv6 = ok.ipv6 },
        refl,
        put,
        outcome,
      )
  announce_ip_lem (IpAddr.v6 ip) ok fits room =
      let (torrents', t', found, rng', q, ok', put, outcome) =
        announce_torrents_lem c im r config rng valid_until ip request m.ipv6 ok.ipv6 fits room in
      (
        record m { ipv6 = torrents' },
        t',
        found,
        rng',
        rw q refl,
        record { ipv4 = ok.ipv4; ipv6 = ok' },
        refl,
        put,
        outcome,
      )

  -- On well-formed torrents where the counters of the torrent asked for have room, an announce does
  -- not fail. The torrents of the other address family stay the same, as do the other torrents of
  -- its own; the one asked for changes as the peer announces; all stay well formed; and the
  -- response names peers of the own family only.
  pub announce_families_lem :
      (peer_addr : SocketAddr)
      → IsValidMaps m
      → completed_count (asked_for peer_addr.ip request m) + 1 < u64_mod
      → length (entries (asked_for peer_addr.ip request m)) + 1 < u64_mod
      → Announces peer_addr.ip
          (handle_announce_request c im r config rng valid_until peer_addr request m)
  unfolding handle_announce_request
  announce_families_lem peer_addr ok fits room = announce_ip_lem peer_addr.ip ok fits room
