-- ===== src/Udp/Swarm/Shards/Clean.antt =====
-- What a cleaning does to the torrents of one shard.
use mathlib.Core.List.{append_assoc, append-nil}
use tracker_enhanced.Prelude.{
  ℕ, ◌+◌, ◌<◌, ◌≡◌, refl, sym, ap, Option, none, some, List, [], ◌∷◌, ◌++◌, arith, Eq, list_eq,
  nat_eq, eqb, ltb, if◌then◌else◌, length, retain, checked_add_eq, u64_mod, eq_self,
}
use tracker_enhanced.Prelude.Entries.{lookup, lookup-later}
use tracker_enhanced.Common.Time.{SecondsSinceServerStart}
use tracker_enhanced.UdpProtocol.Bytes.{Bytes}
use tracker_enhanced.Udp.Swarm.Config.{Config, StatisticsMessage}
use tracker_enhanced.Udp.Swarm.Peers.{Containers}
use tracker_enhanced.Udp.Swarm.Expiry.{expired_messages, still_valid}
use tracker_enhanced.Udp.Swarm.PeerMap.Invariant as Valid
use tracker_enhanced.Udp.Swarm.PeerMap.Invariant.{entries}
use tracker_enhanced.Udp.Swarm.PeerMap.Clean.{cleaned, clean_lem}
use tracker_enhanced.Udp.Swarm.Shards
use tracker_enhanced.Udp.Swarm.Shards.{
  TorrentData, TorrentMapShard, Gathered, keep_torrent, record_num_peers,
}
use tracker_enhanced.Udp.Swarm.Shards.Invariant.{IsValidShard}

abbrev pub add_sizes : Option (List ℕ) → List ℕ → Option (List ℕ)
add_sizes none more = none
add_sizes (some values) more = some (values ++ more)

module _ {I : Type 0} (now : SecondsSinceServerStart) where
  -- How many peers of a torrent are still valid.
  abbrev pub num_valid : TorrentData I → ℕ
  num_valid t = length (retain (still_valid now) (entries t.peer_map))

  abbrev pub cleaned_torrent : TorrentData I → TorrentData I
  cleaned_torrent t = record {
    peer_map = cleaned now t.peer_map;
    pending_removal = eqb (num_valid t) 0;
  }

  unfoldable pub cleaned_torrents : TorrentMapShard I → TorrentMapShard I
  cleaned_torrents [] = []
  cleaned_torrents ((k, t) ∷ l) = (k, cleaned_torrent t) ∷ cleaned_torrents l

  -- The valid peers of a shard, in all; the sizes of the torrents that have some; the messages.
  unfoldable pub sum_valid : TorrentMapShard I → ℕ
  sum_valid [] = 0
  sum_valid ((k, t) ∷ l) = num_valid t + sum_valid l

  unfoldable pub sizes : TorrentMapShard I → List ℕ
  sizes [] = []
  sizes ((k, t) ∷ l) = if ltb 0 (num_valid t) then num_valid t ∷ sizes l else sizes l

  unfoldable pub expired : Config → TorrentMapShard I → List StatisticsMessage
  expired config [] = []
  expired config ((k, t) ∷ l) = expired_messages config now (entries t.peer_map) ++ expired config l

  abbrev pub gathered : Config → TorrentMapShard I → Gathered → Gathered
  gathered config l g = record {
    messages = g.messages ++ expired config l;
    num_peers = g.num_peers + sum_valid l;
    histogram = add_sizes g.histogram (sizes l);
  }

pub gathered_eq :
    (m m' : List StatisticsMessage) (n n' : ℕ) (h h' : Option (List ℕ))
    → m ≡ m'
    → n ≡ n'
    → h ≡ h'
    → Path Gathered
        (record { messages = m; num_peers = n; histogram = h })
        (record { messages = m'; num_peers = n'; histogram = h' })
gathered_eq m m' n n' h h' p q r = cc

add_sizes-nil : (h : Option (List ℕ)) → add_sizes h [] ≡ h
add_sizes-nil none = refl
add_sizes-nil (some values) = ap some (append-nil values)

pub add_sizes-record :
    (n : ℕ) (h : Option (List ℕ)) (more : List ℕ)
    → add_sizes (record_num_peers n h) more ≡ add_sizes h (if ltb 0 n then n ∷ more else more)
add_sizes-record n none more = refl
add_sizes-record n (some values) more = ground (arith, append_assoc values (n ∷ []) more)

pub gathered-nil :
    (I : Type 0) (now : SecondsSinceServerStart) (config : Config) (g : Gathered)
    → gathered {I = I} now config [] g ≡ g
unfolding sum_valid sizes expired
gathered-nil I now config g =
    gathered_eq _ _ _ _ _ _ (append-nil g.messages) (omega arith) (add_sizes-nil g.histogram)

module _ {I : Type 0} ⦃e : Eq I⦄ (c : Containers I) where
  first_torrent :
      (k : Bytes) (t : TorrentData I) (l : TorrentMapShard I)
      → IsValidShard ((k, t) ∷ l)
      → Valid.IsValid t.peer_map
  unfolding lookup
  first_torrent k t l (d, all) = all k t (rw (eq_self k) refl)

  pub other_torrents :
      (k : Bytes) (t : TorrentData I) (l : TorrentMapShard I)
      → IsValidShard ((k, t) ∷ l)
      → IsValidShard l
  other_torrents k t l (d, all) = (d.1, (λ j u q. all j u (lookup-later k j t u l d q)))

  pub clean_torrents_lem :
      (config : Config) (now : SecondsSinceServerStart) (l : TorrentMapShard I) (g : Gathered)
      → IsValidShard l
      → g.num_peers + sum_valid now l < u64_mod
      → Shards.clean_torrents c config now l g
        ≡ some (cleaned_torrents now l, gathered now config l g)
  unfolding Shards.clean_torrents cleaned_torrents sum_valid sizes expired
  clean_torrents_lem config now [] g valid fits =
      ap (λ x. some ([], x)) (sym (gathered-nil I now config g))
  clean_torrents_lem config now ((k, t) ∷ l) g valid fits =
      let n = num_valid now t in
      let step = clean_lem c config g.messages now t.peer_map (first_torrent k t l valid) in
      let g' : Gathered = record {
        messages = g.messages ++ expired_messages config now (entries t.peer_map);
        num_peers = g.num_peers + n;
        histogram = record_num_peers n g.histogram;
      } in
      let rest = clean_torrents_lem config now l g' (other_torrents k t l valid) (omega arith) in
      rw (step.0, checked_add_eq u64_mod g.num_peers n (omega arith), rest)
        (ap (λ x. some (cleaned_torrents now ((k, t) ∷ l), x))
          (gathered_eq _ _ _ _ _ _
            (append_assoc g.messages (expired_messages config now (entries t.peer_map))
              (expired now config l))
            (omega arith) (add_sizes-record n g.histogram (sizes now l))))
