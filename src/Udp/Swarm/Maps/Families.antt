-- ===== src/Udp/Swarm/Maps/Families.antt =====
-- The peers of the two address families are kept apart.
use tracker_enhanced.Prelude.{
  ◌+◌, ◌<◌, ◌≡◌, refl, Bool, true, false, some, list_eq, nat_eq, length, u64_mod,
}
use tracker_enhanced.Crates.{HashMap, Rng}
use tracker_enhanced.Common.Time.{ValidUntil}
use tracker_enhanced.Common.Ip.{IpAddr, v4, v6}
use tracker_enhanced.UdpProtocol.Bytes.{Bytes}
use tracker_enhanced.UdpProtocol.Messages.{AnnounceRequest, Response}
use tracker_enhanced.Udp.Swarm.Config.{Config}
use tracker_enhanced.Udp.Swarm.Peers.{Containers}
use tracker_enhanced.Udp.Swarm.PeerMap.Invariant.{entries, completed_count}
use tracker_enhanced.Udp.Swarm.Shards.{TorrentMapShards, TorrentData, find}
use tracker_enhanced.Udp.Swarm.Shards.Invariant.{IsValid, peer_map_of}
use tracker_enhanced.Udp.Swarm.Shards.Announce.{announce_shards_lem}
use tracker_enhanced.Udp.Swarm.Maps
use tracker_enhanced.Udp.Swarm.Maps.{TorrentMaps, Answered}

-- The torrents of the family of an address, and those of the other one.
abbrev pub own : IpAddr → TorrentMaps → TorrentMapShards Bytes
own (v4 o) maps = maps.ipv4
own (v6 o) maps = maps.ipv6

abbrev pub other : IpAddr → TorrentMaps → TorrentMapShards Bytes
other (v4 o) maps = maps.ipv6
other (v6 o) maps = maps.ipv4

abbrev pub is_of_family : IpAddr → Response → Bool
is_of_family (v4 o) (Response.announce_ipv4 r) = true
is_of_family (v6 o) (Response.announce_ipv6 r) = true
is_of_family ip r = false

module _ (c : Containers Bytes) (h : HashMap Bytes (TorrentData Bytes)) (r : Rng) where
  abbrev pub Serves :
      Config
      → r.Source
      → AnnounceRequest
      → IpAddr
      → ValidUntil
      → TorrentMaps
      → Answered c h r
      → Type 0
  Serves config rng request src valid_until maps a =
      (Maps.announce c h r config rng request src valid_until maps ≡ some a)
      × IsValid (own src a.maps)
      × (other src a.maps ≡ other src maps)
      × (is_of_family src a.response ≡ true)

  -- Where the torrents of the family are well formed and the counters of the torrent have room, an
  -- announce is answered with a response of the address family of its source; the torrents of that
  -- family stay well formed and those of the other family are untouched.
  pub announce_maps_lem :
      (config : Config) (rng : r.Source) (request : AnnounceRequest) (src : IpAddr)
      (valid_until : ValidUntil) (maps : TorrentMaps)
      → IsValid (own src maps)
      → completed_count (peer_map_of (find (own src maps) request.info_hash)) + 1 < u64_mod
      → length (entries (peer_map_of (find (own src maps) request.info_hash))) + 1 < u64_mod
      → (a : Answered c h r) × Serves config rng request src valid_until maps a
  unfolding Maps.announce
  announce_maps_lem config rng request (v4 ip) valid_until maps valid fits room =
      let (shards, a, q, out, valid', replaces) =
        announce_shards_lem c h r config rng request ip valid_until maps.ipv4 valid fits room in
      let answered : Answered c h r = record {
        maps = record maps { ipv4 = shards };
        response = Response.announce_ipv4 a.response;
        rng = a.rng;
        messages = a.messages;
      } in
      (answered, (rw q refl, valid', refl, refl))
  announce_maps_lem config rng request (v6 ip) valid_until maps valid fits room =
      let (shards, a, q, out, valid', replaces) =
        announce_shards_lem c h r config rng request ip valid_until maps.ipv6 valid fits room in
      let answered : Answered c h r = record {
        maps = record maps { ipv6 = shards };
        response = Response.announce_ipv6 a.response;
        rng = a.rng;
        messages = a.messages;
      } in
      (answered, (rw q refl, valid', refl, refl))
