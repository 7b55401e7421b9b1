-- ===== src/Http/Swarm/Torrents/Clean.antt =====
-- What a cleaning leaves of the torrents.
use mathlib.Core.Path.{subst}
use tracker_enhanced.Prelude.{
  ℕ, ◌+◌, ◌≤◌, ◌<◌, ◌≡◌, refl, Option, none, some, arith, Eq, ltb, if◌then◌else◌, length, u64_mod,
  Bool-cases, inl, inr, checked_add, list_eq, nat_eq,
}
use tracker_enhanced.Prelude.Entries.{lookup, retain_values, keep_value}
use tracker_enhanced.Sweep.{total, sweep_lem}
use tracker_enhanced.Crates.{IndexMap}
use tracker_enhanced.Common.Time.{SecondsSinceServerStart}
use tracker_enhanced.Common.AccessList.{AccessList, AccessListMode, allows}
use tracker_enhanced.UdpProtocol.Bytes.{Bytes}
use tracker_enhanced.Http.Messages.{response_peer_eq}
use tracker_enhanced.Http.Swarm.Peers.{Containers}
use tracker_enhanced.Http.Swarm.Torrent.{TorrentData}
use tracker_enhanced.Http.Swarm.Torrent.Invariant.{entries, IsValid}
use tracker_enhanced.Http.Swarm.Torrent.Clean.{
  cleaned, clean_and_get_num_peers_eq, cleaned-IsValid, length-cleaned,
}
use tracker_enhanced.Http.Swarm.Torrents.{TorrentMap, keep_torrent, clean}
use tracker_enhanced.Http.Swarm.Torrents.Announce.{IsValidMap}

abbrev pub num_peers : {I : Type 0} → TorrentData I → ℕ
num_peers t = length (entries t)

module _ {I : Type 0} ⦃e : Eq I⦄ (c : Containers I) (list : AccessList) (mode : AccessListMode)
    (now : SecondsSinceServerStart) where
  -- The torrent that is left of one: if it is allowed and has valid peers, with these.
  abbrev pub kept_torrent : Bytes → TorrentData I → Option (TorrentData I)
  kept_torrent info_hash t =
      if allows list mode info_hash
      then (if ltb 0 (num_peers (cleaned now t)) then some (cleaned now t) else none)
      else none

  kept-IsValid :
      (k : Bytes) (t u : TorrentData I) → IsValid t → kept_torrent k t ≡ some u → IsValid u
  kept-IsValid k t u ok h =
      let ok' = cleaned-IsValid c now t ok in
      elim (Bool-cases (allows list mode k)) [
        | inl allowed ↦ elim (Bool-cases (ltb 0 (num_peers (cleaned now t)))) [
          | inl peers ↦ subst IsValid (ground arith) ok'
          | inr empty ↦ ground arith
        ]
        | inr denied ↦ ground arith
      ]

  keep_torrent_eq :
      (k : Bytes) (t : TorrentData I) (n : ℕ)
      → IsValid t
      → n + num_peers t < u64_mod
      → (m : ℕ) × (m ≤ n + num_peers t)
        × (keep_torrent c list mode now k t (some n) ≡ (kept_torrent k t, some m))
  unfolding keep_torrent
  keep_torrent_eq k t n ok fits =
      let q = clean_and_get_num_peers_eq c now t ok in
      let low = length-cleaned c now t in
      elim (Bool-cases (allows list mode k)) [
        | inl allowed ↦
            let sum : checked_add u64_mod n (num_peers (cleaned now t))
                ≡ some (n + num_peers (cleaned now t)) =
              ground arith in
            (
              n + num_peers (cleaned now t),
              omega arith,
              rw (allowed, q, keep_torrent) (rw sum refl),
            )
        | inr denied ↦ (n, omega arith, rw denied refl)
      ]

  -- A cleaning of well-formed torrents whose peers can be counted does not fail and keeps exactly
  -- the torrents that are allowed and have valid peers, with these peers; what is left is well
  -- formed.
  pub clean_torrent_map_lem :
      (im : IndexMap Bytes (TorrentData I)) (torrents : TorrentMap I)
      → IsValidMap torrents
      → total IsValid num_peers torrents < u64_mod
      → (torrents' : TorrentMap I) × (clean c im list mode now torrents ≡ some torrents')
        × IsValidMap torrents'
        × ((j : Bytes) → lookup j torrents' ≡ keep_value kept_torrent j (lookup j torrents))
  unfolding clean
  clean_torrent_map_lem im torrents ok fits =
      let (sum, q, ok', looks) =
        sweep_lem IsValid (keep_torrent c list mode now) kept_torrent num_peers u64_mod
          (record { kept = kept-IsValid; step = keep_torrent_eq }) im torrents ok fits in
      (retain_values kept_torrent torrents, rw q refl, ok', looks)
