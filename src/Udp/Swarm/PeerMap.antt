-- ===== src/Udp/Swarm/PeerMap.antt =====
-- crates/udp/src/swarm.rs: `PeerMap`, which is small or large, and its `announce`.
pub mod Invariant
pub mod Next
pub mod Respond
pub mod Announce
pub mod Clean
use tracker_enhanced.Prelude.{
  ℕ, suc, ◌+◌, ◌≡◌, Bool, true, false, not, ◌&&◌, Option, none, some, List, [], ◌∷◌, ◌++◌, ◌>>=◌,
  Eq, ◌==◌, nat_eq, list_eq, eqb, if◌then◌else◌, length, min, checked_add, u64_mod,
}
use tracker_enhanced.Prelude.Int.{ℤ, pos, negsuc}
use tracker_enhanced.Crates.{Rng}
use tracker_enhanced.Common.Time.{SecondsSinceServerStart, ValidUntil}
use tracker_enhanced.UdpProtocol.Bytes.{Bytes, to_be_bytes, get_i32}
use tracker_enhanced.UdpProtocol.Messages.{
  ResponsePeer, AnnounceRequest, AnnounceEvent, AnnounceResponse, TorrentScrapeStatistics,
}
use tracker_enhanced.UdpProtocol.Request.{event_to_bytes, event_from_bytes}
use tracker_enhanced.Udp.Swarm.Config.{
  Config, Peer, PeerStatus, StatisticsMessage, peer_added, peer_removed, is_stopped, is_seeding,
  from_event_and_bytes_left, usize_to_i32_checked, u64_to_i32_checked,
}
use tracker_enhanced.Udp.Swarm.Peers.{SmallPeerMap, LargePeerMap, Containers, Entry}
use tracker_enhanced.Udp.Swarm.Small
use tracker_enhanced.Udp.Swarm.Large

pub data PeerMap (I : Type 0) : Type 0 where
  small : SmallPeerMap I → PeerMap I
  large : LargePeerMap I → PeerMap I

-- `PeerMap::default`
abbrev pub empty : {I : Type 0} → PeerMap I
empty = small (record { peers = []; completed_count = 0 })

-- `peers_wanted` as the code reads it: all that is allowed unless a positive number is asked for.
abbrev pub peers_to_take : ℕ → ℤ → ℕ
peers_to_take max_response_peers (pos n) =
    if eqb n 0 then max_response_peers else min max_response_peers n
peers_to_take max_response_peers (negsuc n) = max_response_peers

unfoldable pub increment_completed : {I : Type 0} → Bytes → PeerMap I → Option (PeerMap I)
increment_completed event (small m) =
    if event == event_to_bytes AnnounceEvent.completed
    then (checked_add u64_mod m.completed_count 1 >>= λ n.
        some (small (record m { completed_count = n })))
    else some (small m)
increment_completed event (large m) =
    if event == event_to_bytes AnnounceEvent.completed
    then (checked_add u64_mod m.completed_count 1 >>= λ n.
        some (large (record m { completed_count = n })))
    else some (large m)

abbrev pub is_none {ℓ} : {A : Type ℓ} → Option A → Bool
is_none none = true
is_none (some a) = false

-- The message about a peer that a request added to the map or removed from it.
unfoldable pub announce_messages :
    Config → PeerStatus → Bytes → Option Peer → List StatisticsMessage
announce_messages config status peer_id opt_removed_peer =
    if is_stopped status
    then (if config.peer_clients && not (is_none opt_removed_peer)
        then peer_removed peer_id ∷ []
        else [])
    else (if config.peer_clients && is_none opt_removed_peer then peer_added peer_id ∷ [] else [])

abbrev pub response_to :
    {I : Type 0} → Config → AnnounceRequest → ℕ → ℕ → List (ResponsePeer I) → AnnounceResponse I
response_to config request seeders leechers peers = record {
  fixed = record {
    transaction_id = request.transaction_id;
    announce_interval = config.peer_announce_interval;
    leechers = to_be_bytes 4 (usize_to_i32_checked leechers);
    seeders = to_be_bytes 4 (usize_to_i32_checked seeders);
  };
  peers = peers;
}

module _ {I : Type 0} ⦃e : Eq I⦄ (c : Containers I) where
  unfoldable pub insert : PeerMap I → ResponsePeer I → Peer → Option (PeerMap I)
  insert (small m) key peer = Small.insert c m key peer >>= λ m'. some (small m')
  insert (large m) key peer = Large.insert c m key peer >>= λ m'. some (large m')

  -- `PeerMap::scrape_statistics`
  unfoldable pub scrape_statistics : PeerMap I → Option TorrentScrapeStatistics
  scrape_statistics (small m) = do
    (seeders, leechers) ← Small.num_seeders_leechers c m
    some (record {
      seeders = to_be_bytes 4 (usize_to_i32_checked seeders);
      completed = to_be_bytes 4 (u64_to_i32_checked m.completed_count);
      leechers = to_be_bytes 4 (usize_to_i32_checked leechers);
    })
  scrape_statistics (large m) = do
    (seeders, leechers) ← Large.num_seeders_leechers c m
    some (record {
      seeders = to_be_bytes 4 (usize_to_i32_checked seeders);
      completed = to_be_bytes 4 (u64_to_i32_checked m.completed_count);
      leechers = to_be_bytes 4 (usize_to_i32_checked leechers);
    })

  -- The part of `TorrentMapShards::clean_and_get_statistics` that cleans one map: a large map that
  -- is left with few peers becomes small.
  unfoldable pub clean :
      Config
      → List StatisticsMessage
      → SecondsSinceServerStart
      → PeerMap I
      → Option (PeerMap I × List StatisticsMessage × ℕ)
  clean config messages now (small m) =
      let (m', messages', num_peers) = Small.clean_and_get_num_peers c config messages now m in
      some (small m', messages', num_peers)
  clean config messages now (large m) = do
    (m', messages', num_peers) ← Large.clean_and_get_num_peers c config messages now m
    opt ← Large.try_shrink c m'
    some (elim opt [ none ↦ large m' | some s ↦ small s ], messages', num_peers)

module _ {I : Type 0} ⦃e : Eq I⦄ (c : Containers I) (r : Rng) where
  -- What `announce` leaves: the map, the random source, the response and the messages sent.
  pub record Announced : Type 0 where
    pub map : PeerMap I
    pub rng : r.Source
    pub response : AnnounceResponse I
    pub messages : List StatisticsMessage

  -- The map without the announcing peer, the response, and the peer that was removed.
  pub record Responded : Type 0 where
    pub map : PeerMap I
    pub rng : r.Source
    pub response : AnnounceResponse I
    pub removed : Option Peer

  unfoldable pub respond_small :
      Config
      → AnnounceRequest
      → ResponsePeer I
      → PeerStatus
      → ℕ
      → r.Source
      → SmallPeerMap I
      → Option Responded
  respond_small config request key status max rng m = do
    (m, removed) ← Small.remove c m key
    (seeders, leechers) ← Small.num_seeders_leechers c m
    let response =
        response_to config request seeders leechers (Small.extract_response_peers c m max)
    map ←
        if Small.is_full c m && not (is_stopped status)
        then (Small.to_large c m >>= λ l. some (large l))
        else some (small m)
    some (record { map = map; rng = rng; response = response; removed = removed })

  unfoldable pub respond_large :
      Config
      → AnnounceRequest
      → ResponsePeer I
      → PeerStatus
      → ℕ
      → r.Source
      → LargePeerMap I
      → Option Responded
  respond_large config request key status max rng m = do
    (m, removed) ← Large.remove_peer c m key
    (seeders, leechers) ← Large.num_seeders_leechers c m
    (peers, rng) ← Large.extract_response_peers c r rng m max
    let response = response_to config request seeders leechers peers
    map ←
        if is_stopped status
        then (Large.try_shrink c m >>= λ opt. elim opt [
          | none ↦ some (large m)
          | some s ↦ some (small s)
        ])
        else some (large m)
    some (record { map = map; rng = rng; response = response; removed = removed })

  unfoldable pub respond :
      Config
      → AnnounceRequest
      → ResponsePeer I
      → PeerStatus
      → ℕ
      → r.Source
      → PeerMap I
      → Option Responded
  respond config request key status max rng (small m) =
      respond_small config request key status max rng m
  respond config request key status max rng (large m) =
      respond_large config request key status max rng m

  -- `PeerMap::announce`
  unfoldable pub announce :
      Config → r.Source → AnnounceRequest → I → ValidUntil → PeerMap I → Option Announced
  announce config rng request ip_address valid_until m = do
    let max = peers_to_take config.max_response_peers (get_i32 request.peers_wanted)
    let status = from_event_and_bytes_left (event_from_bytes request.event) request.bytes_left
    let key : ResponsePeer I = record { ip_address = ip_address; port = request.port }
    m ← increment_completed request.event m
    s ← respond config request key status max rng m
    let peer : Peer = record {
      peer_id = request.peer_id;
      is_seeder = is_seeding status;
      valid_until = valid_until;
    }
    m ← if is_stopped status then some s.map else insert c s.map key peer
    some (record {
      map = m;
      rng = s.rng;
      response = s.response;
      messages = announce_messages config status request.peer_id s.removed;
    })

-- `PeerMap::is_empty`
abbrev pub is_empty : {I : Type 0} → PeerMap I → Bool
is_empty (small m) = eqb (length m.peers) 0
is_empty (large m) = eqb (length m.peers) 0
