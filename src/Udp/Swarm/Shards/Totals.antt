-- ===== src/Udp/Swarm/Shards/Totals.antt =====
-- `clean_and_get_statistics` as a whole: which torrents are left and what is counted.
use mathlib.Core.Path.{subst}
use tracker_enhanced.Prelude.{
  ℕ, zero, suc, ◌+◌, ◌<◌, ◌≡◌, refl, sym, ap, ◌∙◌, Option, none, some, List, [], ◌∷◌, map, arith,
  ◌>>=◌, Eq, list_eq, nat_eq, if◌then◌else◌, length, get_elem?, checked_add_eq, u64_mod, length-map,
  length-append, Option-cases, Bool-cases, then_branch, else_branch, not, ◌&&◌, eqb, inl, inr,
  some_inj,
}
use tracker_enhanced.Prelude.Entries.{lookup}
use tracker_enhanced.Crates.{HashMap}
use tracker_enhanced.Common.Time.{SecondsSinceServerStart}
use tracker_enhanced.Common.AccessList.{AccessList, AccessListMode, allows}
use tracker_enhanced.UdpProtocol.Bytes.{Bytes}
use tracker_enhanced.Udp.Swarm.Config.{Config, StatisticsMessage}
use tracker_enhanced.Udp.Swarm.Peers.{Containers}
use tracker_enhanced.Udp.Swarm.PeerMap.Invariant as Valid
use tracker_enhanced.Udp.Swarm.PeerMap.Invariant.{entries}
use tracker_enhanced.Udp.Swarm.PeerMap.Clean.{cleaned, clean_lem}
use tracker_enhanced.Udp.Swarm.Shards
use tracker_enhanced.Udp.Swarm.Shards.{
  TorrentData, TorrentMapShard, TorrentMapShards, Gathered, keep_torrent, find, shard_index,
  get_shard,
}
use tracker_enhanced.Udp.Swarm.Shards.Invariant.{IsValidShard, IsValid, get_shard_lem}
use tracker_enhanced.Udp.Swarm.Shards.Clean.{
  num_valid, cleaned_torrents, clean_torrents_lem, gathered, gathered-nil, sum_valid,
}
use tracker_enhanced.Udp.Swarm.Shards.Append.{all_torrents, gathered-append, sum_valid-append}
use tracker_enhanced.Udp.Swarm.Shards.Sweep.{
  swept, swept_shard, lookup-swept_shard, cleaned_torrents-Distinct,
}

total_eq {ℓ} :
    {A B : Type ℓ} (a : A) (x y : B) (n k : ℕ)
    → x ≡ y
    → n ≡ k
    → ◌≡◌ {A = Option (A × B × ℕ)} (some (a, x, n)) (some (a, y, k))
total_eq a x y n k p q = cc

module _ {I : Type 0} ⦃e : Eq I⦄ (h : HashMap Bytes (TorrentData I)) (access_list : AccessList)
    (mode : AccessListMode) (now : SecondsSinceServerStart) where
  -- The shards that are left.
  abbrev pub swept_shards : TorrentMapShards I → TorrentMapShards I
  swept_shards s = record { shards = map (swept_shard h access_list mode now) s.shards }

  get_elem?-swept :
      (i : ℕ) (shards : List (TorrentMapShard I)) (o : Option (TorrentMapShard I))
      → get_elem? shards i ≡ o
      → get_elem? (map (swept_shard h access_list mode now) shards) i
        ≡ (o >>= λ shard. some (swept_shard h access_list mode now shard))
  get_elem?-swept i [] o q = rw (sym q) refl
  get_elem?-swept zero (shard ∷ shards) o q = rw (sym q) refl
  get_elem?-swept (suc i) (shard ∷ shards) o q = get_elem?-swept i shards o q

  find-swept :
      (s : TorrentMapShards I) (k : Bytes)
      → IsValid s
      → find (swept_shards s) k ≡ swept access_list mode now k (find s k)
  find-swept s k valid =
      let (shard, q, ok) = get_shard_lem s k valid in
      let there = get_elem?-swept (shard_index s k) s.shards (some shard) q in
      rw (q, length-map (swept_shard h access_list mode now) s.shards, there)
        (lookup-swept_shard h access_list mode now k shard ok.0)

  swept-IsValidMap :
      (k : Bytes) (t u : TorrentData I)
      → Valid.IsValid (cleaned now t.peer_map)
      → swept access_list mode now k (some t) ≡ some u
      → Valid.IsValid u.peer_map
  swept-IsValidMap k t u valid q =
      let b = allows access_list mode k && not (eqb (num_valid now t) 0) in
      elim (Bool-cases b) [
        | inl stays ↦
            subst (λ v. Valid.IsValid v.peer_map) (some_inj (then_branch b _ none (some u) stays q))
              valid
        | inr goes ↦ cc (else_branch b _ none (some u) goes q)
      ]

  swept-IsValidShard :
      (c : Containers I) (config : Config) (shard : TorrentMapShard I)
      → IsValidShard shard
      → IsValidShard (swept_shard h access_list mode now shard)
  swept-IsValidShard c config shard (d, all) = (
    h.hash_retain-Distinct (keep_torrent access_list mode) (cleaned_torrents now shard)
        (cleaned_torrents-Distinct access_list mode now shard d),
    (λ k u q.
        let found = sym (lookup-swept_shard h access_list mode now k shard d) ∙ q in
        elim (Option-cases (lookup k shard)) [
          | inl missing ↦ cc (sym (ap (swept access_list mode now k) missing) ∙ found)
          | inr (t, there) ↦
              swept-IsValidMap k t u (clean_lem c config [] now t.peer_map (all k t there)).1
                (sym (ap (swept access_list mode now k) there) ∙ found)
        ]),
  )

  swept-IsValid :
      (c : Containers I) (config : Config) (s : TorrentMapShards I)
      → IsValid s
      → IsValid (swept_shards s)
  swept-IsValid c config s (size, all) = (
    omega (arith, length-map (swept_shard h access_list mode now) s.shards),
    (λ i shard' q. elim (Option-cases (get_elem? s.shards i)) [
      | inl missing ↦ cc (sym (get_elem?-swept i s.shards none missing) ∙ q)
      | inr (shard, there) ↦
          subst IsValidShard (some_inj (sym (get_elem?-swept i s.shards (some shard) there) ∙ q))
            (swept-IsValidShard c config shard (all i shard there))
    ]),
  )

  clean_shards_lem :
      (c : Containers I) (config : Config) (shards : List (TorrentMapShard I)) (g : Gathered)
      (n : ℕ)
      → ((i : ℕ) (shard : TorrentMapShard I) → get_elem? shards i ≡ some shard → IsValidShard shard)
      → g.num_peers + sum_valid now (all_torrents shards) < u64_mod
      → n + length (all_torrents (map (swept_shard h access_list mode now) shards)) < u64_mod
      → Shards.clean_shards c h config access_list mode now shards g n
        ≡ some (
          map (swept_shard h access_list mode now) shards,
          gathered now config (all_torrents shards) g,
          n + length (all_torrents (map (swept_shard h access_list mode now) shards)),
        )
  unfolding Shards.clean_shards all_torrents
  clean_shards_lem c config [] g n all peers size =
      total_eq [] _ _ _ _ (sym (gathered-nil I now config g)) (omega arith)
  clean_shards_lem c config (shard ∷ shards) g n all peers size =
      let kept = swept_shard h access_list mode now shard in
      let others = all_torrents (map (swept_shard h access_list mode now) shards) in
      let sum = sum_valid-append now shard (all_torrents shards) in
      let len = length-append kept others in
      let first = clean_torrents_lem c config now shard g (all 0 shard refl) (omega arith) in
      let g' = gathered now config shard g in
      let rest =
        clean_shards_lem c config shards g' (n + length kept) (λ i. all (suc i)) (omega arith)
          (omega arith) in
      rw (first, checked_add_eq u64_mod n (length kept) (omega arith), rest)
        (total_eq _ _ _ _ _ (gathered-append now config shard (all_torrents shards) g)
          (omega arith))

  -- What a cleaning starts with.
  abbrev pub start : Config → List StatisticsMessage → Gathered
  start config messages = record {
    messages = messages;
    num_peers = 0;
    histogram = if config.torrent_peer_histograms then some [] else none;
  }

  -- Cleaning well-formed shards, whose valid peers and torrents can be counted, does not fail and
  -- leaves them well formed. A torrent is gone if the access list does not allow it or none of its
  -- peers is still valid; any other torrent has its valid peers and is not to be removed. The
  -- number of valid peers, the sizes of the torrents that have some and a message for each expired
  -- peer are those of all torrents before the access list is applied; the number of torrents is
  -- that of the torrents left.
  pub clean_and_get_statistics_lem :
      (c : Containers I) (config : Config) (messages : List StatisticsMessage)
      (s : TorrentMapShards I)
      → IsValid s
      → sum_valid now (all_torrents s.shards) < u64_mod
      → length (all_torrents (swept_shards s).shards) < u64_mod
      → (Shards.clean_and_get_statistics c h config messages access_list mode now s
          ≡ some (
            swept_shards s,
            gathered now config (all_torrents s.shards) (start config messages),
            length (all_torrents (swept_shards s).shards),
          ))
        × IsValid (swept_shards s)
        × ((k : Bytes) → find (swept_shards s) k ≡ swept access_list mode now k (find s k))
  unfolding Shards.clean_and_get_statistics
  clean_and_get_statistics_lem c config messages s valid peers size = (
    rw
        (clean_shards_lem c config s.shards (start config messages) 0 valid.1 (omega arith)
          (omega arith))
        (total_eq _ _ _ _ _ refl (omega arith)),
    swept-IsValid c config s valid,
    (λ k. find-swept s k valid),
  )
