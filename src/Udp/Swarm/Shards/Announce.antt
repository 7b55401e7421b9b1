-- ===== src/Udp/Swarm/Shards/Announce.antt =====
-- What an announce does to the torrents of all shards.
use mathlib.Core.Path.{subst}
use tracker_enhanced.Prelude.{
  ◌+◌, ◌<◌, ◌≡◌, refl, sym, ap, ◌∙◌, true, some, Eq, ◌==◌, list_eq, nat_eq, eqb, if◌then◌else◌,
  length, get_elem?, u64_mod, Bool-cases, eq_self, inl, inr,
}
use tracker_enhanced.Prelude.Entries.{lookup}
use tracker_enhanced.Crates.{HashMap, Rng}
use tracker_enhanced.Common.Time.{ValidUntil}
use tracker_enhanced.UdpProtocol.Bytes.{Bytes}
use tracker_enhanced.UdpProtocol.Messages.{AnnounceRequest}
use tracker_enhanced.Udp.Swarm.Config.{Config}
use tracker_enhanced.Udp.Swarm.Peers.{Containers}
use tracker_enhanced.Udp.Swarm.PeerMap.{PeerMap, Announced}
use tracker_enhanced.Udp.Swarm.PeerMap.Invariant.{entries, completed_count}
use tracker_enhanced.Udp.Swarm.PeerMap.Announce.{Outcome, announce_lem}
use tracker_enhanced.Udp.Swarm.Shards
use tracker_enhanced.Udp.Swarm.Shards.{
  TorrentData, TorrentMapShard, TorrentMapShards, find, get_shard, shard_index,
}
use tracker_enhanced.Udp.Swarm.Shards.Invariant.{
  IsValid, peer_map_of, pending_of, get_shard_lem, created_lem, Created, Written, Put,
  written-lookup, written-IsValid, put-find, put-IsValid,
}

same_index :
    {I : Type 0} (s : TorrentMapShards I) (a b : Bytes)
    → (a == b) ≡ true
    → eqb (shard_index s a) (shard_index s b) ≡ true
same_index s a b h =
    subst (λ k. eqb (shard_index s a) (shard_index s k) ≡ true) ((list_eq.beq_iff a b).0 h)
      (eq_self (shard_index s a))

find_same_index :
    {I : Type 0} (s : TorrentMapShards I) (a b : Bytes) (shard : TorrentMapShard I)
    → eqb (shard_index s a) (shard_index s b) ≡ true
    → get_shard s a ≡ some shard
    → find s b ≡ lookup b shard
find_same_index s a b shard h q =
    let there : get_shard s b ≡ some shard =
      subst (λ n. get_elem? s.shards n ≡ some shard)
        ((nat_eq.beq_iff (shard_index s a) (shard_index s b)).0 h) q in
    rw there refl

module _ {I : Type 0} ⦃e : Eq I⦄ (c : Containers I) (h : HashMap Bytes (TorrentData I))
    (r : Rng) where
  -- The torrent that was asked for has the new map, and every other torrent is as before.
  abbrev pub Replaces : Bytes → PeerMap I → TorrentMapShards I → TorrentMapShards I → Type 0
  Replaces info_hash map s s' =
      (j : Bytes)
      → find s' j ≡ (
          if info_hash == j
          then some (record { peer_map = map; pending_removal = pending_of (find s info_hash) })
          else find s j)

  put-Replaces :
      (s : TorrentMapShards I) (info_hash : Bytes) (map : PeerMap I) (shard : TorrentMapShard I)
      (t : TorrentData I)
      → get_shard s info_hash ≡ some shard
      → Created c h info_hash shard (lookup info_hash shard) t
      → Replaces info_hash map s
          (Put s info_hash (Written c h info_hash map shard t (lookup info_hash shard)))
  put-Replaces s info_hash map shard t q created j =
      let w = Written c h info_hash map shard t (lookup info_hash shard) in
      let pending : pending_of (lookup info_hash shard) ≡ pending_of (find s info_hash) =
        let same : find s info_hash ≡ lookup info_hash shard = rw q refl in
        ap pending_of (sym same) in
      put-find s info_hash j shard w q
      ∙ elim (Bool-cases (eqb (shard_index s info_hash) (shard_index s j))) [
        | inl near ↦ rw near (
            written-lookup c h info_hash j map shard t (lookup info_hash shard) created
            ∙ rw (pending, find_same_index s info_hash j shard near q) refl)
        | inr far ↦ elim (Bool-cases (info_hash == j)) [
          | inl hit ↦ cc (far, same_index s info_hash j hit)
          | inr miss ↦ rw (far, miss) refl
        ]
      ]

  -- On well-formed shards, where the counters of the torrent have room, an announce does not fail:
  -- the torrent's peers change as an announce changes a map of peers, from no peers if the torrent
  -- was missing, every other torrent is as it was, and the shards stay well formed.
  pub announce_shards_lem :
      (config : Config) (rng : r.Source) (request : AnnounceRequest) (ip_address : I)
      (valid_until : ValidUntil) (s : TorrentMapShards I)
      → IsValid s
      → completed_count (peer_map_of (find s request.info_hash)) + 1 < u64_mod
      → length (entries (peer_map_of (find s request.info_hash))) + 1 < u64_mod
      → (s' : TorrentMapShards I) × (a : Announced c r) × (Shards.announce c h r config rng request
            ip_address valid_until s
          ≡ some (s', a))
        × Outcome c r config rng request ip_address valid_until
            (peer_map_of (find s request.info_hash))
            a
        × IsValid s'
        × Replaces request.info_hash a.map s s'
  unfolding Shards.announce
  announce_shards_lem config rng request ip_address valid_until s valid fits room =
      let info_hash = request.info_hash in
      let (shard, q, ok) = get_shard_lem s info_hash valid in
      let o = lookup info_hash shard in
      let same : find s info_hash ≡ o = rw q refl in
      let (t, created) = created_lem c h info_hash shard o refl ok in
      let here : t.peer_map ≡ peer_map_of (find s info_hash) =
        created.1 ∙ ap peer_map_of (sym same) in
      let (a, out) =
        announce_lem c r config rng request ip_address valid_until t.peer_map created.3
          (subst (λ m. completed_count m + 1 < u64_mod) (sym here) fits)
          (subst (λ m. length (entries m) + 1 < u64_mod) (sym here) room) in
      let w = Written c h info_hash a.map shard t o in
      (
        Put s info_hash w,
        a,
        rw (q, created.0, out.0) refl,
        subst (λ m. Outcome c r config rng request ip_address valid_until m a) here out,
        put-IsValid s info_hash shard w valid q
            (written-IsValid c h info_hash a.map shard t o ok out.1 created),
        put-Replaces s info_hash a.map shard t q created,
      )
