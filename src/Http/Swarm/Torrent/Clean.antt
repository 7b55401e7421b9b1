-- ===== src/Http/Swarm/Torrent/Clean.antt =====
-- What a cleaning keeps of the peers of a torrent.
use tracker_enhanced.Prelude.{◌≤◌, ◌≡◌, refl, some, arith, Eq, length, retain, length-retain-le}
use tracker_enhanced.Prelude.Entries.{retain-Distinct}
use tracker_enhanced.Common.Time.{SecondsSinceServerStart}
use tracker_enhanced.Http.Messages.{response_peer_eq}
use tracker_enhanced.Http.Swarm.Peers.{Containers}
use tracker_enhanced.Http.Swarm.Peers.Steps
use tracker_enhanced.Http.Swarm.Peers.Steps.{still_valid, with_peers}
use tracker_enhanced.Http.Swarm.Torrent.{TorrentData, small, large, clean_and_get_num_peers}
use tracker_enhanced.Http.Swarm.Torrent.Invariant.{entries, IsValid}

-- The torrent with its valid peers. A large map stays one.
abbrev pub cleaned : {I : Type 0} → SecondsSinceServerStart → TorrentData I → TorrentData I
cleaned now (small m) = small (record m { peers = retain (still_valid now) m.peers })
cleaned now (large m) = large (with_peers m (retain (still_valid now) m.peers))

module _ {I : Type 0} ⦃e : Eq I⦄ (c : Containers I) (now : SecondsSinceServerStart) where
  pub clean_and_get_num_peers_eq :
      (t : TorrentData I)
      → IsValid t
      → clean_and_get_num_peers c now t ≡ some (cleaned now t, length (entries (cleaned now t)))
  unfolding clean_and_get_num_peers
  clean_and_get_num_peers_eq (small m) (h, d) = rw (Steps.small_clean_eq c m now) refl
  clean_and_get_num_peers_eq (large m) (d, counted) = rw (Steps.large_clean_eq c m now counted) refl

  pub cleaned-IsValid : (t : TorrentData I) → IsValid t → IsValid (cleaned now t)
  cleaned-IsValid (small m) (h, d) = (
    omega (arith, length-retain-le (still_valid now) m.peers),
    retain-Distinct (still_valid now) m.peers d,
  )
  cleaned-IsValid (large m) (d, counted) = (retain-Distinct (still_valid now) m.peers d, refl)

  pub length-cleaned : (t : TorrentData I) → length (entries (cleaned now t)) ≤ length (entries t)
  length-cleaned (small m) = length-retain-le (still_valid now) m.peers
  length-cleaned (large m) = length-retain-le (still_valid now) m.peers
