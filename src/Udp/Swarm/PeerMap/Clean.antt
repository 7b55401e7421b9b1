-- ===== src/Udp/Swarm/PeerMap/Clean.antt =====
-- What a cleaning and a scrape of a `PeerMap` do.
use tracker_enhanced.Prelude.{
  ℕ, ◌-◌, ◌≤◌, ◌≡◌, refl, false, inl, inr, some, List, ◌++◌, arith, Eq, leb, leb→le, length, retain,
  count, length-retain-le, Bool-cases, if◌then◌else◌,
}
use tracker_enhanced.Prelude.Entries.{retain-Distinct}
use tracker_enhanced.Common.Time.{SecondsSinceServerStart}
use tracker_enhanced.UdpProtocol.Bytes.{to_be_bytes}
use tracker_enhanced.UdpProtocol.Messages.{response_peer_eq, TorrentScrapeStatistics}
use tracker_enhanced.Udp.Swarm.Config.{
  Config, StatisticsMessage, usize_to_i32_checked, u64_to_i32_checked,
}
use tracker_enhanced.Udp.Swarm.Peers.{LargePeerMap, Containers, seeds}
use tracker_enhanced.Udp.Swarm.Expiry.{expired_messages, still_valid}
use tracker_enhanced.Udp.Swarm.Small.Steps
use tracker_enhanced.Udp.Swarm.Large.Steps as LargeSteps
use tracker_enhanced.Udp.Swarm.Large.Steps.{with_peers, Counted}
use tracker_enhanced.Udp.Swarm.PeerMap
use tracker_enhanced.Udp.Swarm.PeerMap.{PeerMap, small, large}
use tracker_enhanced.Udp.Swarm.PeerMap.Invariant.{entries, completed_count, IsValid}

-- The map that is left, small or large by the number of its peers if it was large before.
abbrev pub cleaned : {I : Type 0} → SecondsSinceServerStart → PeerMap I → PeerMap I
cleaned now (small m) = small (record m { peers = retain (still_valid now) m.peers })
cleaned now (large m) =
    let kept = retain (still_valid now) m.peers in
    if leb (length kept) 2
    then small (record { peers = kept; completed_count = m.completed_count })
    else large (with_peers m kept)

pub entries-cleaned :
    {I : Type 0} (now : SecondsSinceServerStart) (m : PeerMap I)
    → entries (cleaned now m) ≡ retain (still_valid now) (entries m)
entries-cleaned now (small m) = refl
entries-cleaned now (large m) =
    elim (Bool-cases (leb (length (retain (still_valid now) m.peers)) 2)) [
      | inl few ↦ rw few refl
      | inr many ↦ rw many refl
    ]

module _ {I : Type 0} ⦃e : Eq I⦄ (c : Containers I) where
  -- The cleaned map holds the peers that are still valid, in their order.
  abbrev pub Cleans :
      Config → List StatisticsMessage → SecondsSinceServerStart → PeerMap I → PeerMap I → Type 0
  Cleans config messages now m m' =
      (PeerMap.clean c config messages now m
        ≡ some (
          m',
          messages ++ expired_messages config now (entries m),
          length (retain (still_valid now) (entries m)),
        ))
      × IsValid m'
      × (entries m' ≡ retain (still_valid now) (entries m))
      × (completed_count m' ≡ completed_count m)

  clean_large :
      (config : Config) (messages : List StatisticsMessage) (now : SecondsSinceServerStart)
      (m : LargePeerMap I)
      → IsValid (large m)
      → Cleans config messages now (large m) (cleaned now (large m))
  unfolding PeerMap.clean
  clean_large config messages now m (size, d, counted) =
      let kept = retain (still_valid now) m.peers in
      let m' = with_peers m kept in
      let cleaned_eq = LargeSteps.clean_and_get_num_peers_eq c config messages now m counted in
      elim (Bool-cases (leb (length kept) 2)) [
        | inl few ↦ rw few (
          rw (cleaned_eq, LargeSteps.try_shrink_eq c m', few),
          (leb→le (length kept) 2 few, retain-Distinct (still_valid now) m.peers d),
          refl,
          refl,
        )
        | inr many ↦ rw many (
          rw (cleaned_eq, LargeSteps.try_shrink_eq c m', many),
          (three (length kept) many, retain-Distinct (still_valid now) m.peers d, refl),
          refl,
          refl,
        )
      ]
    where
      three : (n : ℕ) → leb n 2 ≡ false → 3 ≤ n
      three n q = ground arith

  -- Cleaning a well-formed map does not fail and leaves it well formed: it keeps exactly the peers
  -- whose time has not run out, in their order, with the completed downloads; it returns how many
  -- they are; and it tells of every peer that is dropped, after the messages it was given.
  pub clean_lem :
      (config : Config) (messages : List StatisticsMessage) (now : SecondsSinceServerStart)
      (m : PeerMap I)
      → IsValid m
      → Cleans config messages now m (cleaned now m)
  unfolding PeerMap.clean
  clean_lem config messages now (large m) valid = clean_large config messages now m valid
  clean_lem config messages now (small m) (size, d) = (
    rw (Steps.clean_and_get_num_peers_eq c config messages now m),
    (
      omega (arith, length-retain-le (still_valid now) m.peers),
      retain-Distinct (still_valid now) m.peers d,
    ),
    refl,
    refl,
  )

  -- The statistics of the peers of a map.
  abbrev pub statistics_of : PeerMap I → TorrentScrapeStatistics
  statistics_of m =
      let seeders = count seeds (entries m) in
      record {
        seeders = to_be_bytes 4 (usize_to_i32_checked seeders);
        completed = to_be_bytes 4 (u64_to_i32_checked (completed_count m));
        leechers = to_be_bytes 4 (usize_to_i32_checked (length (entries m) - seeders));
      }

  -- A scrape of a well-formed map counts its seeders, its other peers and its completed downloads.
  pub scrape_statistics_lem :
      (m : PeerMap I) → IsValid m → PeerMap.scrape_statistics c m ≡ some (statistics_of m)
  unfolding PeerMap.scrape_statistics
  scrape_statistics_lem (small m) valid = rw (Steps.num_seeders_leechers_eq c m)
  scrape_statistics_lem (large m) (size, d, counted) =
      rw (LargeSteps.num_seeders_leechers_eq c m counted)
