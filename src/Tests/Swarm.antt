-- ===== src/Tests/Swarm.antt =====
-- Witnesses for the torrents and their peers.
use mathlib.Core.Path.{subst}
use tracker_enhanced.Prelude.{
  ℕ, zero, suc, ◌≡◌, refl, false, none, some, List, [], ◌∷◌, arith, nat_eq, list_eq, length, retain,
  count, get_elem?, map, Bool-cases, inl, inr, some_inj, then_branch, else_branch, ◌==◌, list_beq,
}
use tracker_enhanced.Prelude.Entries.{lookup, retain_values}
use tracker_enhanced.Crates.{counter_rng, list_index_map, list_array_vec, list_hash_map, HashMap}
use tracker_enhanced.Common.AccessList.{AccessList, AccessListMode}
use tracker_enhanced.UdpProtocol.Bytes.{Bytes, to_be_bytes}
use tracker_enhanced.UdpProtocol.Messages.{ResponsePeer, response_peer_eq, response_peer_beq}
use tracker_enhanced.Udp.Swarm.Peers.{LargePeerMap, Containers}
use tracker_enhanced.Udp.Swarm.PeerMap.{Announced}
use tracker_enhanced.Udp.Swarm.PeerMap.Invariant as MapValid
use tracker_enhanced.Udp.Swarm.PeerMap.Announce.{Outcome, announce_lem}
use tracker_enhanced.Udp.Swarm.PeerMap.Clean.{Cleans, cleaned, clean_lem}
use tracker_enhanced.Udp.Swarm.Shards
use tracker_enhanced.Udp.Swarm.Shards.{
  TorrentMapShards, TorrentMapShard, TorrentData, find, keep_torrent,
}
use tracker_enhanced.Udp.Swarm.Shards.Invariant.{IsValid, IsValidShard, peer_map_of, new-IsValid}
use tracker_enhanced.Udp.Swarm.Shards.Announce.{announce_shards_lem, Replaces}
use tracker_enhanced.Udp.Swarm.Shards.Scrape.{scrape_lem, answer}
use tracker_enhanced.Udp.Swarm.Shards.Clean.{gathered, sum_valid, cleaned_torrents}
use tracker_enhanced.Udp.Swarm.Shards.Sweep.{swept}
use tracker_enhanced.Udp.Swarm.Shards.Append.{all_torrents}
use tracker_enhanced.Udp.Swarm.Shards.Totals.{swept_shards, start, clean_and_get_statistics_lem}
use tracker_enhanced.Udp.Swarm.Large
use tracker_enhanced.Udp.Swarm.Large.Sample.{extract_response_peers_lem, Sampled}
use tracker_enhanced.Common.Ip.{v4}
use tracker_enhanced.Udp.Swarm.Shards.{replicate}
use tracker_enhanced.Udp.Swarm.Maps
use tracker_enhanced.Udp.Swarm.Maps.{Answered}
use tracker_enhanced.Udp.Swarm.Maps.Families.{Serves, announce_maps_lem}
use tracker_enhanced.Tests.Data.{
  announce_request, scrape_request, config, containers, hashes, now, until, three_peers, torrents,
  info_hash,
}

abbrev large_map : LargePeerMap ℕ
large_map = record { peers = MapValid.entries three_peers; num_seeders = 1; completed_count = 4 }

-- The three peers and the shard that holds them are well formed.
three_peers-IsValid : MapValid.IsValid three_peers
unfolding lookup count to_be_bytes list_beq response_peer_beq
three_peers-IsValid = (omega arith, (refl, (refl, (refl, tt))), refl)

announce_lem_example :
    (a : Announced containers counter_rng) × Outcome containers counter_rng config 5
      announce_request 9
      (until 500)
      three_peers
      a
announce_lem_example =
    announce_lem containers counter_rng config 5 announce_request 9 (until 500) three_peers
      three_peers-IsValid (omega arith) (omega arith)

clean_lem_example : Cleans containers config [] now three_peers (cleaned now three_peers)
clean_lem_example = clean_lem containers config [] now three_peers three_peers-IsValid

abbrev torrent : TorrentData ℕ
torrent = record { peer_map = three_peers; pending_removal = false }

found-IsValid :
    (j : Bytes) (t : TorrentData ℕ)
    → lookup j ((info_hash, torrent) ∷ []) ≡ some t
    → MapValid.IsValid t.peer_map
unfolding lookup
found-IsValid j t q = elim (Bool-cases (info_hash == j)) [
  | inl hit ↦
      subst (λ t. MapValid.IsValid t.peer_map)
        (some_inj (then_branch (info_hash == j) (some torrent) none (some t) hit q))
        three_peers-IsValid
  | inr miss ↦ cc (else_branch (info_hash == j) (some torrent) none (some t) miss q)
]

empty_shard : (j : Bytes) (t : TorrentData ℕ) → lookup j [] ≡ some t → MapValid.IsValid t.peer_map
unfolding lookup
empty_shard j t q = cc q

shard-IsValid :
    (i : ℕ) (shard : TorrentMapShard ℕ)
    → get_elem? torrents.shards i ≡ some shard
    → IsValidShard shard
unfolding lookup
shard-IsValid zero shard q = subst IsValidShard (some_inj q) (tt, empty_shard)
shard-IsValid (suc zero) shard q = subst IsValidShard (some_inj q) ((refl, tt), found-IsValid)
shard-IsValid (suc (suc i)) shard q = cc q

torrents-IsValid : IsValid torrents
torrents-IsValid = (omega arith, shard-IsValid)

announce_shards_lem_example :
    (s' : TorrentMapShards ℕ) × (a : Announced containers counter_rng) × (Shards.announce containers
        hashes counter_rng config 5 announce_request 9
        (until 500)
        torrents
      ≡ some (s', a))
    × Outcome containers counter_rng config 5 announce_request 9
        (until 500)
        (peer_map_of (find torrents info_hash))
        a
    × IsValid s'
    × Replaces containers hashes counter_rng info_hash a.map torrents s'
unfolding lookup list_beq
announce_shards_lem_example =
    announce_shards_lem containers hashes counter_rng config 5 announce_request 9 (until 500)
      torrents torrents-IsValid (omega arith) (omega arith)

scrape_lem_example :
    Shards.scrape containers torrents scrape_request
    ≡ some (record {
      transaction_id = to_be_bytes 4 78;
      torrent_stats = map (λ h. answer containers (find torrents h)) scrape_request.info_hashes;
    })
scrape_lem_example = scrape_lem containers torrents scrape_request torrents-IsValid

-- The torrent is forbidden, so that the cleaning removes it with its two valid peers.
abbrev deny : AccessList
deny = record { contains = λ h. h == info_hash }

clean_and_get_statistics_lem_example :
    (Shards.clean_and_get_statistics containers hashes config [] deny AccessListMode.deny now
        torrents
      ≡ some (
        swept_shards hashes deny AccessListMode.deny now torrents,
        gathered now config
            (all_torrents torrents.shards)
            (start hashes deny AccessListMode.deny now config []),
        length (all_torrents (swept_shards hashes deny AccessListMode.deny now torrents).shards),
      ))
    × IsValid (swept_shards hashes deny AccessListMode.deny now torrents)
    × ((k : Bytes)
        → find (swept_shards hashes deny AccessListMode.deny now torrents) k
          ≡ swept deny AccessListMode.deny now k (find torrents k))
unfolding sum_valid retain all_torrents lookup retain_values cleaned_torrents keep_torrent count
    list_beq
clean_and_get_statistics_lem_example =
    clean_and_get_statistics_lem hashes deny AccessListMode.deny now containers config [] torrents
      torrents-IsValid (omega arith) (omega arith)

extract_response_peers_lem_example :
    (peers : List (ResponsePeer ℕ)) × (rng' : counter_rng.Source) × (Large.extract_response_peers
        containers counter_rng 5 large_map 2
      ≡ some (peers, rng'))
    × Sampled containers counter_rng large_map 2 peers
extract_response_peers_lem_example = extract_response_peers_lem containers counter_rng 5 large_map 2

abbrev byte_containers : Containers Bytes
byte_containers = record { vec = list_array_vec 2; index = list_index_map }

abbrev byte_hashes : HashMap Bytes (TorrentData Bytes)
byte_hashes = list_hash_map

announce_maps_lem_example :
    (a : Answered byte_containers byte_hashes counter_rng) × Serves byte_containers byte_hashes
      counter_rng config 5 announce_request
      (v4 (10 ∷ 0 ∷ 0 ∷ 1 ∷ []))
      (until 500)
      Maps.default
      a
unfolding replicate lookup
announce_maps_lem_example =
    announce_maps_lem byte_containers byte_hashes counter_rng config 5 announce_request
      (v4 (10 ∷ 0 ∷ 0 ∷ 1 ∷ [])) (until 500) Maps.default (new-IsValid 16 (omega arith))
      (omega arith) (omega arith)
