-- ===== src/Tests/HttpSwarm.antt =====
-- Witnesses for the swarm of the HTTP tracker: a torrent with a seeder, and a peer that has expired.
use mathlib.Core.Path.{subst}
use tracker_enhanced.Prelude.{
  ℕ, ◌≡◌, refl, true, false, none, some, [], ◌∷◌, arith, ◌==◌, list_eq, nat_eq, list_beq, count,
  Bool-cases, inl, inr, some_inj, then_branch, else_branch, if◌then◌else◌,
}
use tracker_enhanced.Prelude.Entries.{lookup, insert, keep_value}
use tracker_enhanced.Prelude.Ordered.{IsOrdered}
use tracker_enhanced.Sweep.{total, empty-AllOk}
use tracker_enhanced.Crates.{IndexMap, list_index_map, list_array_vec, counter_rng, list_push}
use tracker_enhanced.Common.Time.{SecondsSinceServerStart, ValidUntil}
use tracker_enhanced.Common.AccessList.{AccessList, AccessListMode}
use tracker_enhanced.Common.Ip.{IpAddr}
use tracker_enhanced.UdpProtocol.Bytes.{Bytes}
use tracker_enhanced.Tests.Data.{repeat}
use tracker_enhanced.Http.Messages.{
  AnnounceEvent, AnnounceRequest, ScrapeRequest, ScrapeResponse, ResponsePeer, response_peer_eq,
}
use tracker_enhanced.PeerMaps
use tracker_enhanced.Http.Swarm.Torrents
use tracker_enhanced.Http.Swarm.Peers.{
  Containers, from_event_and_bytes_left, small_remove, small_seeders_leechers, small_insert,
}
use tracker_enhanced.Http.Swarm.Torrent
use tracker_enhanced.Http.Swarm.Torrent.{TorrentData, small, Config, ResponseData}
use tracker_enhanced.Http.Swarm.Torrent.Invariant.{IsValid}
use tracker_enhanced.Http.Swarm.Torrents.{TorrentMap, clean, handle_scrape_request}
use tracker_enhanced.Http.Swarm.Torrents.Announce.{IsValidMap}
use tracker_enhanced.Http.Swarm.Torrents.Clean.{kept_torrent, clean_torrent_map_lem}
use tracker_enhanced.Http.Swarm.Torrents.Scrape.{asked, counts, scrape_torrents_lem}
use tracker_enhanced.Http.Swarm.Maps.{TorrentMaps, new, announce_ip, handle_announce_request}
use tracker_enhanced.Http.Swarm.Maps.Families.{IsValidMaps, Announces, announce_families_lem}
use tracker_enhanced.Http.Swarm.Maps.Reach.{Reachable, start, next, announce, reachable-IsValidMaps}

abbrev at : ℕ → SecondsSinceServerStart
at seconds = record { seconds = seconds }

abbrev until : ℕ → ValidUntil
until seconds = record { until = at seconds }

abbrev containers : Containers Bytes
containers = record { vec = list_array_vec 4; index = list_index_map }

abbrev torrents_map : IndexMap Bytes (TorrentData Bytes)
torrents_map = list_index_map

abbrev config : Config
config = record { max_scrape_torrents = 100; max_peers = 50; peer_announce_interval = 120 }

abbrev ipv4 : ℕ → Bytes
ipv4 n = 127 ∷ 0 ∷ 0 ∷ n ∷ []

abbrev key : ℕ → ResponsePeer Bytes
key n = record { ip_address = ipv4 n; port = 6881 }

abbrev torrent : TorrentData Bytes
torrent = small (record {
  peers =
      (key 1, record { valid_until = until 300; is_seeder = true })
      ∷ (key 2, record { valid_until = until 90; is_seeder = false })
      ∷ [];
  completed_count = 3;
})

abbrev torrents : TorrentMap Bytes
torrents = (repeat 20 5, torrent) ∷ []

abbrev maps : TorrentMaps
maps = record { ipv4 = torrents; ipv6 = [] }

abbrev request : AnnounceRequest
request = record {
  info_hash = repeat 20 5;
  peer_id = repeat 20 9;
  port = 6881;
  bytes_uploaded = 0;
  bytes_downloaded = 10;
  bytes_left = 0;
  event = AnnounceEvent.completed;
  numwant = some 30;
  key = none;
}

torrent-IsValid : IsValid torrent
unfolding lookup list_beq
torrent-IsValid = (omega arith, (refl, (refl, tt)))

torrents-IsValidMap : IsValidMap torrents
unfolding lookup
torrents-IsValidMap = record {
  distinct = (refl, tt);
  each = λ k t h. elim (Bool-cases (repeat 20 5 == k)) [
    | inl here ↦
        subst IsValid
          (some_inj (then_branch (repeat 20 5 == k) (some torrent) none (some t) here h))
          torrent-IsValid
    | inr absent ↦ cc (else_branch (repeat 20 5 == k) (some torrent) none (some t) absent h)
  ];
}

maps-IsValidMaps : IsValidMaps maps
maps-IsValidMaps = record { ipv4 = torrents-IsValidMap; ipv6 = empty-AllOk IsValid }

announce_families_lem_example :
    Announces containers torrents_map counter_rng config 3
      (until 400)
      request
      maps
      (IpAddr.v4 (ipv4 2))
      (handle_announce_request containers torrents_map counter_rng config 3
        (until 400)
        (record { ip = IpAddr.v4 (ipv4 2); port = 40000 })
        request
        maps)
unfolding lookup list_beq
announce_families_lem_example =
    announce_families_lem containers torrents_map counter_rng config 3 (until 400) request maps
      (record { ip = IpAddr.v4 (ipv4 2); port = 40000 }) maps-IsValidMaps (omega arith)
      (omega arith)

abbrev everything : AccessList
everything = record { contains = λ info_hash. true }

clean_torrent_map_lem_example :
    (torrents' : TorrentMap Bytes) × (clean containers torrents_map everything AccessListMode.allow
        (at 100)
        torrents
      ≡ some torrents')
    × IsValidMap torrents'
    × ((j : Bytes)
        → lookup j torrents'
          ≡ keep_value
              (kept_torrent containers everything AccessListMode.allow (at 100))
              j
              (lookup j torrents))
unfolding total
clean_torrent_map_lem_example =
    clean_torrent_map_lem containers everything AccessListMode.allow (at 100) torrents_map torrents
      torrents-IsValidMap (omega arith)

abbrev scrape_request : ScrapeRequest
scrape_request = record { info_hashes = repeat 20 7 ∷ repeat 20 5 ∷ [] }

scrape_torrents_lem_example :
    (response : ScrapeResponse) × (handle_scrape_request containers config scrape_request torrents
      ≡ some response)
    × IsOrdered response.files
    × ((j : Bytes)
        → lookup j response.files ≡ (
            if asked j (repeat 20 7 ∷ repeat 20 5 ∷ [])
            then some (counts (lookup j torrents))
            else none))
scrape_torrents_lem_example =
    scrape_torrents_lem containers torrents torrents-IsValidMap config scrape_request

-- A peer completes a torrent that a new worker does not know.
abbrev first_maps : TorrentMaps
first_maps = record {
  ipv4 =
      (
        repeat 20 5,
        small (record {
          peers = (key 2, record { valid_until = until 400; is_seeder = true }) ∷ [];
          completed_count = 1;
        }),
      )
      ∷ [];
  ipv6 = [];
}

first-Reachable : Reachable containers torrents_map counter_rng config first_maps
unfolding handle_announce_request announce_ip Torrents.upsert_peer_and_get_response_peers
    Torrent.upsert_peer_and_get_response_peers Torrent.increment_completed Torrent.respond
    Torrent.respond_small Torrent.insert Torrent.num_peers_to_take from_event_and_bytes_left
    small_remove small_seeders_leechers small_insert PeerMaps.remove PeerMaps.position count lookup
    insert list_beq list_push
first-Reachable = next start (
    announce 3 3 (until 400) (record { ip = IpAddr.v4 (ipv4 2); port = 40000 }) request
      (record {
        announce_interval = 120;
        complete = 0;
        incomplete = 0;
        peers = [];
        peers6 = [];
        warning_message = none;
      })
      new first_maps (omega arith) (omega arith) refl)

reachable-IsValidMaps_example : IsValidMaps first_maps
reachable-IsValidMaps_example =
    reachable-IsValidMaps containers torrents_map counter_rng config first-Reachable
