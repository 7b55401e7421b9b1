-- ===== src/Http/Swarm/Peers/Steps.antt =====
-- What the operations of the two maps do to their entries, while the count of seeders is right.
use tracker_enhanced.Prelude.{
  ℕ, ◌+◌, ◌-◌, ◌<◌, ◌≡◌, refl, sym, ◌∙◌, Option, none, some, List, [], ◌∷◌, ◌++◌, arith, Eq, leb,
  if◌then◌else◌, length, retain, count, count-le-length, count-append, u64_mod, Bool,
}
use tracker_enhanced.Prelude.Entries.{
  lookup, erase, swap_remove, count-swap_remove, Distinct, insert-absent, weigh,
}
use tracker_enhanced.Crates.{retain_state}
use tracker_enhanced.PeerMaps
use tracker_enhanced.Common.Time.{SecondsSinceServerStart, valid}
use tracker_enhanced.Http.Messages.{ResponsePeer, response_peer_eq}
use tracker_enhanced.Http.Swarm.Peers.{
  Peer, SmallPeerMap, LargePeerMap, Containers, Entry, seeds, small_peer_map_capacity, small_retain,
  large_retain, forget_seeder, small_seeders_leechers, small_insert, small_remove, small_clean,
  to_large, large_seeders_leechers, large_insert, remove_peer, large_clean, try_shrink,
}

-- The seeders are counted right.
abbrev pub Counted : {I : Type 0} → LargePeerMap I → Type 0
Counted m = m.num_seeders ≡ count seeds m.peers

-- The map with other entries, and its seeders counted.
abbrev pub with_peers : {I : Type 0} → LargePeerMap I → List (Entry I) → LargePeerMap I
with_peers m peers = record m { peers = peers; num_seeders = count seeds peers }

abbrev pub still_valid : {I : Type 0} → SecondsSinceServerStart → Entry I → Bool
still_valid now (k, p) = valid p.valid_until now

small_retain_eq :
    {I : Type 0} (now : SecondsSinceServerStart) (l : List (Entry I))
    → retain_state (small_retain now) l tt ≡ (retain (still_valid now) l, tt)
unfolding retain_state retain
small_retain_eq now [] = refl
small_retain_eq now ((k, p) ∷ l) = ground (arith, small_retain_eq now l)

large_retain_eq :
    {I : Type 0} (now : SecondsSinceServerStart) (l : List (Entry I)) (n m : ℕ)
    → n ≡ count seeds l + m
    → retain_state (large_retain now) l (some n)
      ≡ (retain (still_valid now) l, some (count seeds (retain (still_valid now) l) + m))
unfolding retain_state retain count
large_retain_eq now [] n m h = ground arith
large_retain_eq now ((k, p) ∷ l) n m h = ground (
  arith,
  large_retain_eq now l n m,
  large_retain_eq now l n (m + 1),
  large_retain_eq now l (n - 1) m,
)

module _ {I : Type 0} ⦃e : Eq I⦄ (c : Containers I) (m : SmallPeerMap I) where
  pub small_remove_eq :
      (key : ResponsePeer I)
      → small_remove c m key ≡ some (record m { peers = erase key m.peers }, lookup key m.peers)
  unfolding small_remove
  small_remove_eq key = rw (PeerMaps.remove_eq small_peer_map_capacity c.vec m.peers key)

  pub small_seeders_leechers_eq :
      small_seeders_leechers c m ≡ some (count seeds m.peers, length m.peers - count seeds m.peers)
  unfolding small_seeders_leechers
  small_seeders_leechers_eq = ground (arith, count-le-length seeds m.peers)

  pub small_insert_eq :
      (key : ResponsePeer I) (peer : Peer)
      → length m.peers < 4
      → small_insert c m key peer ≡ some (record m { peers = m.peers ++ (key, peer) ∷ [] })
  unfolding small_insert
  small_insert_eq key peer h = rw (c.vec.vec_push_lem m.peers (key, peer) h)

  pub to_large_eq :
      Distinct m.peers
      → to_large c m
        ≡ some (record {
          peers = m.peers;
          num_seeders = count seeds m.peers;
          completed_count = m.completed_count;
        })
  unfolding to_large
  to_large_eq d = rw (small_seeders_leechers_eq, PeerMaps.collect-append c.index [] m.peers d)

  pub small_clean_eq :
      (now : SecondsSinceServerStart)
      → small_clean c now m ≡ (
        record m { peers = retain (still_valid now) m.peers },
        length (retain (still_valid now) m.peers),
      )
  unfolding small_clean
  small_clean_eq now =
      rw (c.vec.vec_retain_lem (small_retain now) m.peers tt, small_retain_eq now m.peers)

module _ {I : Type 0} ⦃e : Eq I⦄ (c : Containers I) (m : LargePeerMap I) where
  forget_seeder_eq :
      (key : ResponsePeer I) (o : Option Peer) (n t : ℕ)
      → n + weigh seeds key o ≡ t
      → forget_seeder o t ≡ some n
  forget_seeder_eq key none n t h = ground arith
  forget_seeder_eq key (some p) n t h = ground arith

  pub remove_peer_eq :
      (key : ResponsePeer I)
      → Distinct m.peers
      → Counted m
      → remove_peer c m key ≡ some (with_peers m (swap_remove key m.peers), lookup key m.peers)
  unfolding remove_peer
  remove_peer_eq key d counted = rw (
    c.index.map_swap_remove_lem m.peers key d,
    forget_seeder_eq key (lookup key m.peers) (count seeds (swap_remove key m.peers)) m.num_seeders
        (count-swap_remove seeds key m.peers ∙ sym counted),
  )

  pub large_seeders_leechers_eq :
      Counted m
      → large_seeders_leechers c m
        ≡ some (count seeds m.peers, length m.peers - count seeds m.peers)
  unfolding large_seeders_leechers
  large_seeders_leechers_eq counted = ground (arith, count-le-length seeds m.peers)

  pub large_insert_eq :
      (key : ResponsePeer I) (peer : Peer)
      → Distinct m.peers
      → Counted m
      → lookup key m.peers ≡ none
      → length m.peers + 1 < u64_mod
      → large_insert c m key peer ≡ some (with_peers m (m.peers ++ (key, peer) ∷ []))
  unfolding large_insert count
  large_insert_eq key peer d counted absent fits =
      rw (c.index.map_insert_lem m.peers key peer d, insert-absent key peer m.peers absent)
        (ground
          (arith, count-append seeds m.peers ((key, peer) ∷ []), count-le-length seeds m.peers))

  pub try_shrink_eq : try_shrink c m ≡ (
      if leb (length m.peers) 4
      then some (some (record { peers = m.peers; completed_count = m.completed_count }))
      else some none)
  unfolding try_shrink
  try_shrink_eq = ground (arith, c.vec.vec_from_iter_lem m.peers)

  pub large_clean_eq :
      (now : SecondsSinceServerStart)
      → Counted m
      → large_clean c now m
        ≡ some (
          with_peers m (retain (still_valid now) m.peers),
          length (retain (still_valid now) m.peers),
        )
  unfolding large_clean
  large_clean_eq now counted =
      let kept = count seeds (retain (still_valid now) m.peers) in
      let total : kept + 0 ≡ kept = omega arith in
      rw (
        c.index.map_retain_lem (large_retain now) m.peers (some m.num_seeders),
        large_retain_eq now m.peers m.num_seeders 0 (omega arith),
        total,
      )
