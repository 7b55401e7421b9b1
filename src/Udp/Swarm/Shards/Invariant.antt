-- ===== src/Udp/Swarm/Shards/Invariant.antt =====
-- When the shards are well formed, and what a write to one torrent does to the others.
use mathlib.Core.Path.{subst}
use tracker_enhanced.Prelude.{
  ℕ, zero, suc, ◌<◌, ◌≡◌, refl, sym, ap, ◌∙◌, Bool, false, Option, none, some, [], arith, Eq, ◌==◌,
  list_eq, nat_eq, eqb, if◌then◌else◌, length, get_elem?, set_at, length-set_at, get_elem?-set_at,
  get_elem?-present, Bool-cases, eq_self, some_inj, then_branch, else_branch, inl, inr,
}
use tracker_enhanced.Prelude.Entries.{lookup, insert, Distinct, lookup-insert, insert-Distinct}
use tracker_enhanced.Crates.{HashMap}
use tracker_enhanced.UdpProtocol.Bytes.{Bytes}
use tracker_enhanced.Udp.Swarm.Peers.{Containers}
use tracker_enhanced.Udp.Swarm.PeerMap.{PeerMap, empty}
use tracker_enhanced.Udp.Swarm.PeerMap.Invariant as Valid
use tracker_enhanced.Udp.Swarm.PeerMap.Invariant.{entries, completed_count}
use tracker_enhanced.Udp.Swarm.Shards
use tracker_enhanced.Udp.Swarm.Shards.{
  TorrentData, TorrentMapShard, TorrentMapShards, default_torrent_data, first_byte, shard_index,
  get_shard, find, or_default, create_missing, replicate,
}

-- The peers of a torrent, none of a missing one.
abbrev pub peer_map_of : {I : Type 0} → Option (TorrentData I) → PeerMap I
peer_map_of none = empty
peer_map_of (some t) = t.peer_map

abbrev pub pending_of : {I : Type 0} → Option (TorrentData I) → Bool
pending_of none = false
pending_of (some t) = t.pending_removal

module _ {I : Type 0} ⦃e : Eq I⦄ where
  -- No info hash stands twice in a shard, and every map of peers is well formed.
  abbrev pub IsValidShard : TorrentMapShard I → Type 0
  IsValidShard shard =
      Distinct shard
      × ((info_hash : Bytes) (t : TorrentData I)
          → lookup info_hash shard ≡ some t
          → Valid.IsValid t.peer_map)

  abbrev pub IsValid : TorrentMapShards I → Type 0
  IsValid s =
      (0 < length s.shards)
      × ((i : ℕ) (shard : TorrentMapShard I)
          → get_elem? s.shards i ≡ some shard
          → IsValidShard shard)

  empty_shards :
      (n i : ℕ) (shard : TorrentMapShard I) → get_elem? (replicate n []) i ≡ some shard → shard ≡ []
  unfolding replicate
  empty_shards zero i shard q = cc q
  empty_shards (suc n) zero shard q = sym (some_inj q)
  empty_shards (suc n) (suc i) shard q = empty_shards n i shard q

  empty-IsValidShard : IsValidShard []
  unfolding lookup
  empty-IsValidShard = (tt, (λ info_hash t q. cc q))

  length-replicate : (n : ℕ) (shard : TorrentMapShard I) → length (replicate n shard) ≡ n
  unfolding replicate
  length-replicate zero shard = refl
  length-replicate (suc n) shard = ap suc (length-replicate n shard)

  -- New shards, of which there is at least one, are well formed.
  pub new-IsValid : (num_shards : ℕ) → 0 < num_shards → IsValid (Shards.new num_shards)
  new-IsValid num_shards some_shards = (
    omega (arith, length-replicate num_shards []),
    (λ i shard q. subst IsValidShard (sym (empty_shards num_shards i shard q)) empty-IsValidShard),
  )

  pub get_shard_lem :
      (s : TorrentMapShards I) (info_hash : Bytes)
      → IsValid s
      → (shard : TorrentMapShard I) × (get_shard s info_hash ≡ some shard) × IsValidShard shard
  get_shard_lem s info_hash (size, valid) =
      let i = shard_index s info_hash in
      let (shard, q) = get_elem?-present i s.shards (omega arith) in (shard, q, valid i shard q)

module _ {I : Type 0} ⦃e : Eq I⦄ (c : Containers I) (h : HashMap Bytes (TorrentData I)) where
  -- After `or_default` the torrent is there, and the others are as before.
  abbrev pub Created : Bytes → TorrentMapShard I → Option (TorrentData I) → TorrentData I → Type 0
  Created info_hash shard o t =
      let shard' = create_missing c h info_hash shard o in
      (lookup info_hash shard' ≡ some t)
      × (t.peer_map ≡ peer_map_of o)
      × (t.pending_removal ≡ pending_of o)
      × Valid.IsValid t.peer_map
      × Distinct shard'
      × ((j : Bytes) → (info_hash == j) ≡ false → lookup j shard' ≡ lookup j shard)

  pub created_lem :
      (info_hash : Bytes) (shard : TorrentMapShard I) (o : Option (TorrentData I))
      → lookup info_hash shard ≡ o
      → IsValidShard shard
      → (t : TorrentData I) × Created info_hash shard o t
  created_lem info_hash shard none missing (d, valid) =
      let set = h.lookup-hash_insert shard info_hash in
      (
        default_torrent_data,
        (
          set info_hash default_torrent_data d ∙ rw (eq_self info_hash) refl,
          refl,
          refl,
          (omega arith, tt),
          h.hash_insert-Distinct shard info_hash default_torrent_data d,
          (λ j ne. set j default_torrent_data d ∙ rw ne refl),
        ),
      )
  created_lem info_hash shard (some t) found (d, valid) =
      (t, (found, refl, refl, valid info_hash t found, d, (λ j ne. refl)))

  -- The shard after an announce of a torrent that now stands in it.
  abbrev pub Written :
      Bytes
      → PeerMap I
      → TorrentMapShard I
      → TorrentData I
      → Option (TorrentData I)
      → TorrentMapShard I
  Written info_hash map shard t o =
      insert info_hash (record t { peer_map = map }) (create_missing c h info_hash shard o)

  pub written-lookup :
      (info_hash j : Bytes) (map : PeerMap I) (shard : TorrentMapShard I) (t : TorrentData I)
      (o : Option (TorrentData I))
      → Created info_hash shard o t
      → lookup j (Written info_hash map shard t o) ≡ (
          if info_hash == j
          then some (record { peer_map = map; pending_removal = pending_of o })
          else lookup j shard)
  written-lookup info_hash j map shard t o (found, same, pending, valid, d, others) =
      lookup-insert info_hash j (record t { peer_map = map }) (create_missing c h info_hash shard o)
      ∙ elim (Bool-cases (info_hash == j)) [
        | inl hit ↦ rw (hit, pending) refl
        | inr miss ↦ rw miss (others j miss)
      ]

  pub written-IsValid :
      (info_hash : Bytes) (map : PeerMap I) (shard : TorrentMapShard I) (t : TorrentData I)
      (o : Option (TorrentData I))
      → IsValidShard shard
      → Valid.IsValid map
      → Created info_hash shard o t
      → IsValidShard (Written info_hash map shard t o)
  written-IsValid info_hash map shard t o (d, all) valid created = (
    insert-Distinct info_hash (record t { peer_map = map }) (create_missing c h info_hash shard o)
        created.4,
    (λ j u q.
        let found = sym (written-lookup info_hash j map shard t o created) ∙ q in
        elim (Bool-cases (info_hash == j)) [
          | inl hit ↦
              subst (λ u. Valid.IsValid u.peer_map)
                (some_inj (then_branch (info_hash == j) _ (lookup j shard) (some u) hit found))
                valid
          | inr miss ↦ all j u (else_branch (info_hash == j) _ (lookup j shard) (some u) miss found)
        ]),
  )

module _ {I : Type 0} ⦃e : Eq I⦄ (s : TorrentMapShards I) where
  -- The shards after one of them is written.
  abbrev pub Put : Bytes → TorrentMapShard I → TorrentMapShards I
  Put info_hash w = record { shards = set_at (shard_index s info_hash) w s.shards }

  pub put-find :
      (info_hash j : Bytes) (shard w : TorrentMapShard I)
      → get_shard s info_hash ≡ some shard
      → find (Put info_hash w) j
        ≡ (if eqb (shard_index s info_hash) (shard_index s j) then lookup j w else find s j)
  put-find info_hash j shard w q =
      let i = shard_index s info_hash in
      let k = shard_index s j in
      rw (length-set_at i w s.shards, get_elem?-set_at i k shard w s.shards q)
        (elim (Bool-cases (eqb i k)) [ inl hit ↦ rw hit refl | inr miss ↦ rw miss refl ])

  pub put-IsValid :
      (info_hash : Bytes) (shard w : TorrentMapShard I)
      → IsValid s
      → get_shard s info_hash ≡ some shard
      → IsValidShard w
      → IsValid (Put info_hash w)
  put-IsValid info_hash shard w (size, all) q valid =
      let i = shard_index s info_hash in
      (
        omega (arith, length-set_at i w s.shards),
        (λ k v found.
            let at = sym (get_elem?-set_at i k shard w s.shards q) ∙ found in
            elim (Bool-cases (eqb i k)) [
              | inl hit ↦
                  subst IsValidShard
                    (some_inj
                      (then_branch (eqb i k) (some w) (get_elem? s.shards k) (some v) hit at))
                    valid
              | inr miss ↦
                  all k v (else_branch (eqb i k) (some w) (get_elem? s.shards k) (some v) miss at)
            ]),
      )
