-- ===== src/Http/Swarm/Maps/Reach.antt =====
-- The torrents of an HTTP swarm worker over time: announces and cleanings, in any order. A worker
-- handles one of them at a time.
use mathlib.Core.Path.{subst}
use tracker_enhanced.Prelude.{
  ◌+◌, ◌<◌, ◌≡◌, refl, sym, ap, ◌∙◌, some, list_eq, nat_eq, length, u64_mod, some_inj,
}
use tracker_enhanced.Sweep.{total, empty-AllOk}
use tracker_enhanced.Crates.{IndexMap, Rng}
use tracker_enhanced.Common.Time.{SecondsSinceServerStart, ValidUntil}
use tracker_enhanced.Common.Ip.{SocketAddr}
use tracker_enhanced.Common.AccessList.{AccessList, AccessListMode}
use tracker_enhanced.UdpProtocol.Bytes.{Bytes}
use tracker_enhanced.Http.Messages.{AnnounceRequest, AnnounceResponse, response_peer_eq}
use tracker_enhanced.Http.Swarm.Peers.{Containers}
use tracker_enhanced.Http.Swarm.Torrent.{TorrentData, Config}
use tracker_enhanced.Http.Swarm.Torrent.Invariant.{entries, completed_count, IsValid}
use tracker_enhanced.Http.Swarm.Torrents.Clean.{num_peers, clean_torrent_map_lem}
use tracker_enhanced.Http.Swarm.Maps.{TorrentMaps, new, handle_announce_request, clean}
use tracker_enhanced.Http.Swarm.Maps.Families.{IsValidMaps, asked_for, announce_families_lem}

module _ (c : Containers Bytes) (im : IndexMap Bytes (TorrentData Bytes)) (r : Rng)
    (config : Config) where
  -- One announce or cleaning, with the counters far from their limits.
  pub data Step : TorrentMaps → TorrentMaps → Type 0 where
    announce :
        (rng rng' : r.Source) (valid_until : ValidUntil) (peer_addr : SocketAddr)
        (request : AnnounceRequest) (response : AnnounceResponse) (m m' : TorrentMaps)
        → completed_count (asked_for peer_addr.ip request m) + 1 < u64_mod
        → length (entries (asked_for peer_addr.ip request m)) + 1 < u64_mod
        → handle_announce_request c im r config rng valid_until peer_addr request m
          ≡ some (m', response, rng')
        → Step m m'
    sweep :
        (list : AccessList) (mode : AccessListMode) (now : SecondsSinceServerStart)
        (m m' : TorrentMaps)
        → total IsValid num_peers m.ipv4 < u64_mod
        → total IsValid num_peers m.ipv6 < u64_mod
        → clean c im list mode now m ≡ some m'
        → Step m m'

  -- What a new worker comes to.
  pub data Reachable : TorrentMaps → Type 0 where
    start : Reachable new
    next : {s t : TorrentMaps} → Reachable s → Step s t → Reachable t

  sweep-IsValidMaps :
      (list : AccessList) (mode : AccessListMode) (now : SecondsSinceServerStart)
      (m m' : TorrentMaps)
      → total IsValid num_peers m.ipv4 < u64_mod
      → total IsValid num_peers m.ipv6 < u64_mod
      → clean c im list mode now m ≡ some m'
      → IsValidMaps m
      → IsValidMaps m'
  unfolding clean
  sweep-IsValidMaps list mode now m m' fits4 fits6 q ok =
      let (ipv4, q4, ok4, _) = clean_torrent_map_lem c list mode now im m.ipv4 ok.ipv4 fits4 in
      let (ipv6, q6, ok6, _) = clean_torrent_map_lem c list mode now im m.ipv6 ok.ipv6 fits6 in
      let both : clean c im list mode now m ≡ some (record { ipv4 = ipv4; ipv6 = ipv6 }) =
        rw (q4, q6) refl in
      subst IsValidMaps (some_inj (sym both ∙ q)) (record { ipv4 = ok4; ipv6 = ok6 })

  step-IsValidMaps : {s t : TorrentMaps} → Step s t → IsValidMaps s → IsValidMaps t
  step-IsValidMaps (announce rng rng' valid_until peer_addr request response m m' fits room q) ok =
      let (found, _, _, _, p, ok', _, _, _) =
        announce_families_lem c im r config rng valid_until request m peer_addr ok fits room in
      subst IsValidMaps (ap (λ x. x.0) (some_inj (sym p ∙ q))) ok'
  step-IsValidMaps (sweep list mode now m m' fits4 fits6 q) ok =
      sweep-IsValidMaps list mode now m m' fits4 fits6 q ok

  -- Whatever a worker handles, in whatever order: in every torrent no peer stands twice, a small
  -- map holds at most four peers, and the seeders of a large one are counted right.
  pub reachable-IsValidMaps : {m : TorrentMaps} → Reachable m → IsValidMaps m
  reachable-IsValidMaps start = record { ipv4 = empty-AllOk IsValid; ipv6 = empty-AllOk IsValid }
  reachable-IsValidMaps (next path step) = step-IsValidMaps step (reachable-IsValidMaps path)
