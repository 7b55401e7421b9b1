-- ===== src/Http/Swarm/Torrent.antt =====
-- crates/http/src/workers/swarm/storage.rs: `TorrentData`, a small or a large map of peers.
pub mod Invariant
pub mod Respond
pub mod Upsert
pub mod Clean
use tracker_enhanced.Prelude.{
  ℕ, zero, suc, ◌-◌, ◌≡◌, Bool, true, false, ◌&&◌, not, Option, none, some, List, [], ◌>>=◌, Eq,
  list_eq, nat_eq, leb, length, min, checked_add, u64_mod, if◌then◌else◌,
}
use tracker_enhanced.Crates.{Rng}
use tracker_enhanced.Common.Time.{SecondsSinceServerStart, ValidUntil}
use tracker_enhanced.Http.Messages.{
  AnnounceEvent, AnnounceRequest, ResponsePeer, response_peer_eq, ScrapeStatistics,
}
use tracker_enhanced.Http.Swarm.Peers.{
  Peer, PeerStatus, from_event_and_bytes_left, SmallPeerMap, LargePeerMap, Containers, is_full,
  small_seeders_leechers, small_insert, small_remove, small_response_peers, small_clean, to_large,
  large_seeders_leechers, large_insert, remove_peer, large_clean, try_shrink, large_response_peers,
}

pub data TorrentData (I : Type 0) : Type 0 where
  small : SmallPeerMap I → TorrentData I
  large : LargePeerMap I → TorrentData I

-- What is read of the configuration.
pub record Config : Type 0 where
  pub max_scrape_torrents : ℕ
  pub max_peers : ℕ
  pub peer_announce_interval : ℕ

-- `TorrentData::default`
abbrev pub default_torrent_data : {I : Type 0} → TorrentData I
default_torrent_data = small (record { peers = []; completed_count = 0 })

-- `u64_to_usize_checked`, where `usize` has 64 bits.
abbrev pub u64_to_usize_checked : ℕ → ℕ
u64_to_usize_checked value = if leb value (u64_mod - 1) then value else u64_mod - 1

unfoldable pub num_peers_to_take : Config → Option ℕ → ℕ
num_peers_to_take config none = config.max_peers
num_peers_to_take config (some zero) = config.max_peers
num_peers_to_take config (some (suc n)) = min (suc n) config.max_peers

abbrev pub is_stopped : PeerStatus → Bool
is_stopped PeerStatus.stopped = true
is_stopped PeerStatus.seeding = false
is_stopped PeerStatus.leeching = false

abbrev pub is_seeding : PeerStatus → Bool
is_seeding PeerStatus.seeding = true
is_seeding PeerStatus.leeching = false
is_seeding PeerStatus.stopped = false

-- `peer_map.completed_count += 1`
abbrev pub increment : {I : Type 0} → TorrentData I → Option (TorrentData I)
increment (small m) = do
  completed_count ← checked_add u64_mod m.completed_count 1
  some (small (record m { completed_count = completed_count }))
increment (large m) = do
  completed_count ← checked_add u64_mod m.completed_count 1
  some (large (record m { completed_count = completed_count }))

unfoldable pub increment_completed :
    {I : Type 0} → AnnounceEvent → TorrentData I → Option (TorrentData I)
increment_completed AnnounceEvent.completed t = increment t
increment_completed AnnounceEvent.started t = some t
increment_completed AnnounceEvent.stopped t = some t
increment_completed AnnounceEvent.empty t = some t

-- Seeders, leechers and the peers of a response.
abbrev pub ResponseData : Type 0 → Type 0
ResponseData I = ℕ × ℕ × List (ResponsePeer I)

module _ {I : Type 0} ⦃e : Eq I⦄ (c : Containers I) where
  unfoldable pub insert : TorrentData I → ResponsePeer I → Peer → Option (TorrentData I)
  insert (small m) key peer = small_insert c m key peer >>= λ m'. some (small m')
  insert (large m) key peer = large_insert c m key peer >>= λ m'. some (large m')

  -- `TorrentData::scrape_statistics`
  unfoldable pub scrape_statistics : TorrentData I → Option ScrapeStatistics
  scrape_statistics (small m) = do
    (seeders, leechers) ← small_seeders_leechers c m
    some (record {
      complete = seeders;
      incomplete = leechers;
      downloaded = u64_to_usize_checked m.completed_count;
    })
  scrape_statistics (large m) = do
    (seeders, leechers) ← large_seeders_leechers c m
    some (record {
      complete = seeders;
      incomplete = leechers;
      downloaded = u64_to_usize_checked m.completed_count;
    })

  -- The part of `TorrentMap::clean` that cleans one torrent.
  unfoldable pub clean_and_get_num_peers :
      SecondsSinceServerStart → TorrentData I → Option (TorrentData I × ℕ)
  clean_and_get_num_peers now (small m) =
      let (m', num_peers) = small_clean c now m in some (small m', num_peers)
  clean_and_get_num_peers now (large m) = do
    (m', num_peers) ← large_clean c now m
    some (large m', num_peers)

  module _ (r : Rng) where
    -- The torrent without the announcing peer, the response and the random source.
    unfoldable pub respond_small :
        ResponsePeer I
        → PeerStatus
        → ℕ
        → r.Source
        → SmallPeerMap I
        → Option (TorrentData I × ResponseData I × r.Source)
    respond_small key status max rng m = do
      (m, _) ← small_remove c m key
      (seeders, leechers) ← small_seeders_leechers c m
      let response_peers = small_response_peers c m max
      t ←
          if is_full c m && not (is_stopped status)
          then (to_large c m >>= λ l. some (large l))
          else some (small m)
      some (t, (seeders, leechers, response_peers), rng)

    unfoldable pub respond_large :
        ResponsePeer I
        → PeerStatus
        → ℕ
        → r.Source
        → LargePeerMap I
        → Option (TorrentData I × ResponseData I × r.Source)
    respond_large key status max rng m = do
      (m, _) ← remove_peer c m key
      (seeders, leechers) ← large_seeders_leechers c m
      (response_peers, rng) ← large_response_peers c r rng m max
      t ←
          if is_stopped status
          then (try_shrink c m >>= λ opt. elim opt [
            | none ↦ some (large m)
            | some s ↦ some (small s)
          ])
          else some (large m)
      some (t, (seeders, leechers, response_peers), rng)

    unfoldable pub respond :
        ResponsePeer I
        → PeerStatus
        → ℕ
        → r.Source
        → TorrentData I
        → Option (TorrentData I × ResponseData I × r.Source)
    respond key status max rng (small m) = respond_small key status max rng m
    respond key status max rng (large m) = respond_large key status max rng m

    -- `TorrentData::upsert_peer_and_get_response_peers`
    unfoldable pub upsert_peer_and_get_response_peers :
        Config
        → r.Source
        → AnnounceRequest
        → I
        → ValidUntil
        → TorrentData I
        → Option (TorrentData I × ResponseData I × r.Source)
    upsert_peer_and_get_response_peers config rng request ip_address valid_until t = do
      let max_num_peers_to_take = num_peers_to_take config request.numwant
      let status = from_event_and_bytes_left request.event request.bytes_left
      let peer_map_key : ResponsePeer I = record { ip_address = ip_address; port = request.port }
      t ← increment_completed request.event t
      (t, response_data, rng) ← respond peer_map_key status max_num_peers_to_take rng t
      let peer : Peer = record { valid_until = valid_until; is_seeder = is_seeding status }
      t ← if is_stopped status then some t else insert t peer_map_key peer
      some (t, response_data, rng)
