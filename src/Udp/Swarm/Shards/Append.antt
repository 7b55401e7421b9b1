-- ===== src/Udp/Swarm/Shards/Append.antt =====
-- What a cleaning gathers over the torrents of several shards, one after the other.
use mathlib.Core.List.{append_assoc}
use tracker_enhanced.Prelude.{
  ℕ, ◌+◌, ◌≡◌, refl, sym, ap, ◌∙◌, Option, none, some, List, [], ◌∷◌, ◌++◌, arith, list_eq, nat_eq,
}
use tracker_enhanced.Common.Time.{SecondsSinceServerStart}
use tracker_enhanced.Udp.Swarm.Config.{Config}
use tracker_enhanced.Udp.Swarm.Expiry.{expired_messages}
use tracker_enhanced.Udp.Swarm.PeerMap.Invariant.{entries}
use tracker_enhanced.Udp.Swarm.Shards.{TorrentMapShard, Gathered}
use tracker_enhanced.Udp.Swarm.Shards.Clean.{
  gathered, gathered_eq, sum_valid, sizes, expired, add_sizes,
}

-- All torrents, shard by shard.
unfoldable pub all_torrents : {I : Type 0} → List (TorrentMapShard I) → TorrentMapShard I
all_torrents [] = []
all_torrents (shard ∷ shards) = shard ++ all_torrents shards

add_sizes-append :
    (o : Option (List ℕ)) (a b : List ℕ) → add_sizes (add_sizes o a) b ≡ add_sizes o (a ++ b)
add_sizes-append none a b = refl
add_sizes-append (some l) a b = ap some (append_assoc l a b)

module _ {I : Type 0} (now : SecondsSinceServerStart) where
  pub sum_valid-append :
      (a b : TorrentMapShard I) → sum_valid now (a ++ b) ≡ sum_valid now a + sum_valid now b
  unfolding sum_valid
  sum_valid-append [] b = omega arith
  sum_valid-append ((k, t) ∷ a) b = omega (arith, sum_valid-append a b)

  sizes-append : (a b : TorrentMapShard I) → sizes now (a ++ b) ≡ sizes now a ++ sizes now b
  unfolding sizes
  sizes-append [] b = refl
  sizes-append ((k, t) ∷ a) b = ground (arith, sizes-append a b)

  expired-append :
      (config : Config) (a b : TorrentMapShard I)
      → expired now config (a ++ b) ≡ expired now config a ++ expired now config b
  unfolding expired
  expired-append config [] b = refl
  expired-append config ((k, t) ∷ a) b = rw (expired-append config a b) (
      sym (
        append_assoc (expired_messages config now (entries t.peer_map)) (expired now config a)
          (expired now config b)))

  pub gathered-append :
      (config : Config) (a b : TorrentMapShard I) (g : Gathered)
      → gathered now config b (gathered now config a g) ≡ gathered now config (a ++ b) g
  gathered-append config a b g =
      gathered_eq _ _ _ _ _ _
        (append_assoc g.messages (expired now config a) (expired now config b)
          ∙ ap (λ l. g.messages ++ l) (sym (expired-append config a b)))
        (omega (arith, sum_valid-append a b))
        (add_sizes-append g.histogram (sizes now a) (sizes now b)
          ∙ ap (add_sizes g.histogram) (sym (sizes-append a b)))
