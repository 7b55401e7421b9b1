-- ===== src/Ws/Swarm/Torrents/Clean.antt =====
-- What a cleaning and a closed connection leave of the torrents.
use mathlib.Core.Path.{subst}
use tracker_enhanced.Prelude.{
  ℕ, ◌+◌, ◌≤◌, ◌<◌, ◌≡◌, refl, Option, none, some, arith, list_eq, nat_eq, ltb, if◌then◌else◌,
  length, u64_mod, Bool-cases, Option-cases, inl, inr, checked_add,
}
use tracker_enhanced.Prelude.Entries.{
  lookup, insert, retain_values, keep_value, length-retain_values-le,
}
use tracker_enhanced.Sweep.{total, insert-AllOk, same-Puts, sweep_lem}
use tracker_enhanced.Crates.{IndexMap}
use tracker_enhanced.Common.Time.{SecondsSinceServerStart}
use tracker_enhanced.Common.AccessList.{AccessList, AccessListMode, allows}
use tracker_enhanced.UdpProtocol.Bytes.{Bytes}
use tracker_enhanced.Ws.Swarm.Peers.{TorrentData, Containers}
use tracker_enhanced.Ws.Swarm.Peers.Counting.{IsValid, handle_connection_closed_lem}
use tracker_enhanced.Ws.Swarm.Peers.Expiry.{cleaned, cleaned_peer, clean_and_get_num_peers_lem}
use tracker_enhanced.Ws.Swarm.Torrents.{TorrentMap, keep_torrent, clean, handle_connection_closed}
use tracker_enhanced.Ws.Swarm.Torrents.Ownership.{IsValidMap}

abbrev pub num_peers : TorrentData → ℕ
num_peers t = length t.peers

module _ (c : Containers) (list : AccessList) (mode : AccessListMode)
    (now : SecondsSinceServerStart) where
  -- The torrent that is left of one: if it is allowed and has valid peers, with these.
  abbrev pub kept_torrent : Bytes → TorrentData → Option TorrentData
  kept_torrent info_hash t =
      if allows list mode info_hash
      then (if ltb 0 (length (cleaned now t).peers) then some (cleaned now t) else none)
      else none

  length-cleaned : (t : TorrentData) → length (cleaned now t).peers ≤ length t.peers
  length-cleaned t = length-retain_values-le (cleaned_peer now) t.peers

  keep_torrent_eq :
      (k : Bytes) (t : TorrentData) (n : ℕ)
      → IsValid t
      → n + length t.peers < u64_mod
      → (m : ℕ) × (m ≤ n + length t.peers)
        × (keep_torrent c list mode now k t (some n) ≡ (kept_torrent k t, some m))
  unfolding keep_torrent
  keep_torrent_eq k t n ok fits =
      let (q, _, _) = clean_and_get_num_peers_lem c now t ok in
      let low = length-cleaned t in
      elim (Bool-cases (allows list mode k)) [
        | inl allowed ↦
            let sum : checked_add u64_mod n (length (cleaned now t).peers)
                ≡ some (n + length (cleaned now t).peers) =
              ground arith in
            (
              n + length (cleaned now t).peers,
              omega arith,
              rw (allowed, q, keep_torrent) (rw sum refl),
            )
        | inr denied ↦ (n, omega arith, rw denied refl)
      ]

  kept-IsValid : (k : Bytes) (t u : TorrentData) → IsValid t → kept_torrent k t ≡ some u → IsValid u
  kept-IsValid k t u ok h =
      let (_, ok', _) = clean_and_get_num_peers_lem c now t ok in
      elim (Bool-cases (allows list mode k)) [
        | inl allowed ↦ elim (Bool-cases (ltb 0 (length (cleaned now t).peers))) [
          | inl peers ↦ subst IsValid (ground arith) ok'
          | inr empty ↦ ground arith
        ]
        | inr denied ↦ ground arith
      ]

  module _ (im : IndexMap Bytes TorrentData) where
    -- A cleaning of well-formed torrents whose peers can be counted does not fail and keeps exactly
    -- the torrents that are allowed and have valid peers, with these peers.
    pub clean_torrents_lem :
        (torrents : TorrentMap)
        → IsValidMap torrents
        → total IsValid num_peers torrents < u64_mod
        → (torrents' : TorrentMap) × (clean c im list mode now torrents ≡ some torrents')
          × IsValidMap torrents'
          × ((j : Bytes) → lookup j torrents' ≡ keep_value kept_torrent j (lookup j torrents))
    unfolding clean
    clean_torrents_lem torrents ok fits =
        let (sum, q, ok', looks) =
          sweep_lem IsValid (keep_torrent c list mode now) kept_torrent num_peers u64_mod
            (record { kept = kept-IsValid; step = keep_torrent_eq }) im torrents ok fits in
        (retain_values kept_torrent torrents, rw q refl, ok', looks)

module _ (c : Containers) where
  -- A closed connection removes its peer from the torrent, and changes nothing else.
  pub closed_lem :
      (info_hash peer_id : Bytes) (torrents : TorrentMap)
      → IsValidMap torrents
      → (torrents' : TorrentMap) × (handle_connection_closed c info_hash peer_id torrents
          ≡ some torrents')
        × IsValidMap torrents'
  unfolding handle_connection_closed
  closed_lem info_hash peer_id torrents ok = elim (Option-cases (lookup info_hash torrents)) [
    | inl absent ↦ (torrents, rw (absent, handle_connection_closed) refl, ok)
    | inr (t, there) ↦
        let (t', q, ok', set) =
          handle_connection_closed_lem c t (ok.each info_hash t there) peer_id in
        (
          insert info_hash t' torrents,
          rw (there, handle_connection_closed, q) refl,
          (insert-AllOk IsValid torrents torrents info_hash (lookup info_hash torrents) t' ok
              ok.distinct (same-Puts IsValid torrents info_hash) ok').0,
        )
  ]
