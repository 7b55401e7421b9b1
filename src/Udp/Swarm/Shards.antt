-- ===== src/Udp/Swarm/Shards.antt =====
-- crates/udp/src/swarm.rs: `TorrentMapShards`, the torrents in shards by the first byte of their
-- info hash. Each operation runs alone here: the locks of a shard and of a torrent are not modelled.
pub mod Invariant
pub mod Announce
pub mod Scrape
pub mod Clean
pub mod Sweep
pub mod Append
pub mod Totals
use tracker_enhanced.Prelude.{
  ℕ, ◌+◌, ◌%◌, Bool, true, false, not, ◌&&◌, Option, none, some, List, [], ◌∷◌, ◌++◌, ◌>>=◌, Eq,
  list_eq, nat_eq, eqb, ltb, if◌then◌else◌, length, get_elem?, set_at, checked_add, u64_mod,
}
use tracker_enhanced.Prelude.Entries.{lookup, insert}
use tracker_enhanced.Crates.{HashMap, Rng}
use tracker_enhanced.Common.Time.{SecondsSinceServerStart, ValidUntil}
use tracker_enhanced.Common.AccessList.{AccessList, AccessListMode, allows}
use tracker_enhanced.UdpProtocol.Bytes.{Bytes, to_be_bytes}
use tracker_enhanced.UdpProtocol.Messages.{
  AnnounceRequest, ScrapeRequest, ScrapeResponse, TorrentScrapeStatistics,
}
use tracker_enhanced.Udp.Swarm.Config.{Config, StatisticsMessage}
use tracker_enhanced.Udp.Swarm.Peers.{Containers}
use tracker_enhanced.Udp.Swarm.PeerMap
use tracker_enhanced.Udp.Swarm.PeerMap.{PeerMap, Announced}

pub record TorrentData (I : Type 0) : Type 0 where
  pub peer_map : PeerMap I
  pub pending_removal : Bool

-- `TorrentData::default`
abbrev pub default_torrent_data : {I : Type 0} → TorrentData I
default_torrent_data = record { peer_map = PeerMap.empty; pending_removal = false }

abbrev pub TorrentMapShard : Type 0 → Type 0
TorrentMapShard I = List (Bytes × TorrentData I)

pub record TorrentMapShards (I : Type 0) : Type 0 where
  pub shards : List (TorrentMapShard I)

unfoldable pub replicate {ℓ} : {A : Type ℓ} → ℕ → A → List A
replicate ℕ.zero x = []
replicate (ℕ.suc n) x = x ∷ replicate n x

-- `TorrentMapShards::new`
abbrev pub new : {I : Type 0} → ℕ → TorrentMapShards I
new num_shards = record { shards = replicate num_shards [] }

-- `info_hash.0[0]`; an info hash has 20 bytes.
abbrev pub first_byte : Bytes → ℕ
first_byte [] = 0
first_byte (b ∷ bytes) = b

-- `get_shard`: the index of the shard; without shards there is none to get.
abbrev pub shard_index : {I : Type 0} → TorrentMapShards I → Bytes → ℕ
shard_index s info_hash = first_byte info_hash % length s.shards

abbrev pub get_shard : {I : Type 0} → TorrentMapShards I → Bytes → Option (TorrentMapShard I)
get_shard s info_hash = get_elem? s.shards (shard_index s info_hash)

-- The torrent of an info hash.
abbrev pub find : {I : Type 0} → TorrentMapShards I → Bytes → Option (TorrentData I)
find s info_hash = get_shard s info_hash >>= lookup info_hash

-- What a scrape says of a torrent that is not there.
abbrev pub no_statistics : TorrentScrapeStatistics
no_statistics = record {
  seeders = to_be_bytes 4 0;
  completed = to_be_bytes 4 0;
  leechers = to_be_bytes 4 0;
}

-- What a cleaning gathers: messages, the number of peers and the histogram, if there is one.
pub record Gathered : Type 0 where
  pub messages : List StatisticsMessage
  pub num_peers : ℕ
  pub histogram : Option (List ℕ)

-- `histogram.record`
abbrev pub record_num_peers : ℕ → Option (List ℕ) → Option (List ℕ)
record_num_peers num_peers none = none
record_num_peers num_peers (some values) =
    if ltb 0 num_peers then some (values ++ num_peers ∷ []) else some values

-- The closure of the `retain` over a shard.
unfoldable pub keep_torrent :
    {I : Type 0} → AccessList → AccessListMode → Bytes → TorrentData I → Option (TorrentData I)
keep_torrent access_list mode info_hash t =
    if allows access_list mode info_hash
    then (if t.pending_removal && PeerMap.is_empty t.peer_map
        then none
        else some (record t { pending_removal = false }))
    else none

module _ {I : Type 0} ⦃e : Eq I⦄ (c : Containers I) where
  abbrev pub statistics : Option (TorrentData I) → Option TorrentScrapeStatistics
  statistics none = some no_statistics
  statistics (some t) = PeerMap.scrape_statistics c t.peer_map

  -- The loop of `scrape`.
  unfoldable pub scrape_torrents :
      TorrentMapShards I → List Bytes → Option (List TorrentScrapeStatistics)
  scrape_torrents s [] = some []
  scrape_torrents s (info_hash ∷ info_hashes) = do
    shard ← get_shard s info_hash
    stats ← statistics (lookup info_hash shard)
    rest ← scrape_torrents s info_hashes
    some (stats ∷ rest)

  -- `TorrentMapShards::scrape`
  unfoldable pub scrape : TorrentMapShards I → ScrapeRequest → Option ScrapeResponse
  scrape s request = do
    torrent_stats ← scrape_torrents s request.info_hashes
    some (record { transaction_id = request.transaction_id; torrent_stats = torrent_stats })

  -- The loop over the torrents of a shard.
  unfoldable pub clean_torrents :
      Config
      → SecondsSinceServerStart
      → TorrentMapShard I
      → Gathered
      → Option (TorrentMapShard I × Gathered)
  clean_torrents config now [] g = some ([], g)
  clean_torrents config now ((info_hash, t) ∷ torrents) g = do
    (peer_map, messages, num_peers) ← PeerMap.clean c config g.messages now t.peer_map
    total ← checked_add u64_mod g.num_peers num_peers
    (rest, g') ← clean_torrents config now torrents (record {
      messages = messages;
      num_peers = total;
      histogram = record_num_peers num_peers g.histogram;
    })
    some ((info_hash, record { peer_map = peer_map; pending_removal = eqb num_peers 0 }) ∷ rest, g')

module _ {I : Type 0} ⦃e : Eq I⦄ (c : Containers I) (h : HashMap Bytes (TorrentData I)) where
  -- `entry(info_hash).or_default()`, where the torrent is missing.
  abbrev pub create_missing : Bytes → TorrentMapShard I → Option (TorrentData I) → TorrentMapShard I
  create_missing info_hash shard none = h.hash_insert shard info_hash default_torrent_data
  create_missing info_hash shard (some t) = shard

  abbrev pub or_default : Bytes → TorrentMapShard I → TorrentMapShard I
  or_default info_hash shard = create_missing info_hash shard (lookup info_hash shard)

  -- `TorrentMapShards::announce`
  unfoldable pub announce :
      (r : Rng)
      → Config
      → r.Source
      → AnnounceRequest
      → I
      → ValidUntil
      → TorrentMapShards I
      → Option (TorrentMapShards I × Announced c r)
  announce r config rng request ip_address valid_until s = do
    shard ← get_shard s request.info_hash
    let shard' = or_default request.info_hash shard
    t ← lookup request.info_hash shard'
    a ← PeerMap.announce c r config rng request ip_address valid_until t.peer_map
    let shard'' = insert request.info_hash (record t { peer_map = a.map }) shard'
    some (record { shards = set_at (shard_index s request.info_hash) shard'' s.shards }, a)

  -- The loop over the shards; the last number is that of the torrents.
  unfoldable pub clean_shards :
      Config
      → AccessList
      → AccessListMode
      → SecondsSinceServerStart
      → List (TorrentMapShard I)
      → Gathered
      → ℕ
      → Option (List (TorrentMapShard I) × Gathered × ℕ)
  clean_shards config access_list mode now [] g num_torrents = some ([], g, num_torrents)
  clean_shards config access_list mode now (shard ∷ shards) g num_torrents = do
    (torrents, g') ← clean_torrents c config now shard g
    let kept = h.hash_retain (keep_torrent access_list mode) torrents
    total ← checked_add u64_mod num_torrents (length kept)
    (rest, g'', n) ← clean_shards config access_list mode now shards g' total
    some (kept ∷ rest, g'', n)

  -- `TorrentMapShards::clean_and_get_statistics`
  unfoldable pub clean_and_get_statistics :
      Config
      → List StatisticsMessage
      → AccessList
      → AccessListMode
      → SecondsSinceServerStart
      → TorrentMapShards I
      → Option (TorrentMapShards I × Gathered × ℕ)
  clean_and_get_statistics config messages access_list mode now s = do
    let histogram : Option (List ℕ) = if config.torrent_peer_histograms then some [] else none
    let g : Gathered = record { messages = messages; num_peers = 0; histogram = histogram }
    (shards, g', n) ← clean_shards config access_list mode now s.shards g 0
    some (record { shards = shards }, g', n)
