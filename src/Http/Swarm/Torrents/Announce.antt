-- ===== src/Http/Swarm/Torrents/Announce.antt =====
-- What an announce does to the torrents.
use mathlib.Core.Path.{subst}
use tracker_enhanced.Prelude.{
  ◌+◌, ◌<◌, ◌≡◌, refl, Option, none, some, Eq, list_eq, nat_eq, length, u64_mod, arith,
}
use tracker_enhanced.Prelude.Entries.{lookup, insert, Distinct, lookup-insert, insert-Distinct}
use tracker_enhanced.Sweep.{AllOk, Puts, insert-AllOk, same-Puts}
use tracker_enhanced.Crates.{IndexMap, Rng}
use tracker_enhanced.Common.Time.{ValidUntil}
use tracker_enhanced.UdpProtocol.Bytes.{Bytes}
use tracker_enhanced.Http.Messages.{AnnounceRequest, response_peer_eq}
use tracker_enhanced.Http.Swarm.Peers.{Containers}
use tracker_enhanced.Http.Swarm.Torrent.{TorrentData, default_torrent_data, Config, ResponseData}
use tracker_enhanced.Http.Swarm.Torrent.Invariant.{entries, completed_count, IsValid}
use tracker_enhanced.Http.Swarm.Torrent.Upsert.{Outcome, upsert_lem}
use tracker_enhanced.Http.Swarm.Torrents.{
  TorrentMap, create_missing, upsert_peer_and_get_response_peers,
}

-- All torrents are well formed, under distinct info hashes.
abbrev pub IsValidMap : {I : Type 0} ⦃e : Eq I⦄ → TorrentMap I → Type 0
IsValidMap torrents = AllOk IsValid torrents

abbrev pub torrent_or_default : {I : Type 0} → Option (TorrentData I) → TorrentData I
torrent_or_default none = default_torrent_data
torrent_or_default (some t) = t

module _ {I : Type 0} ⦃e : Eq I⦄ (c : Containers I) (im : IndexMap Bytes (TorrentData I)) where
  created_eq :
      (info_hash : Bytes) (torrents : TorrentMap I) (o : Option (TorrentData I))
      → IsValidMap torrents
      → lookup info_hash torrents ≡ o
      → (made : TorrentMap I) × (create_missing c im info_hash torrents o
          ≡ (made, torrent_or_default o))
        × IsValid (torrent_or_default o)
        × Distinct made
        × Puts IsValid info_hash (some (torrent_or_default o)) torrents made
  created_eq info_hash torrents none ok h = (
    insert info_hash default_torrent_data torrents,
    rw (im.map_insert_lem torrents info_hash default_torrent_data ok.distinct) refl,
    (omega arith, tt),
    insert-Distinct info_hash default_torrent_data torrents ok.distinct,
    λ j. lookup-insert info_hash j default_torrent_data torrents,
  )
  created_eq info_hash torrents (some t) ok h = (
    torrents,
    refl,
    ok.each info_hash t h,
    ok.distinct,
    subst (λ o. Puts IsValid info_hash o torrents torrents) h
        (same-Puts IsValid torrents info_hash),
  )

  -- On well-formed torrents, where the counters of the torrent asked for have room, an announce
  -- does not fail. It changes the torrent asked for, empty if it was missing, as an announce changes
  -- a torrent, and answers from it; every other torrent is as before, and all are well formed.
  pub announce_torrents_lem :
      (r : Rng) (config : Config) (rng : r.Source) (valid_until : ValidUntil) (ip_address : I)
      (request : AnnounceRequest) (torrents : TorrentMap I)
      → IsValidMap torrents
      → completed_count (torrent_or_default (lookup request.info_hash torrents)) + 1 < u64_mod
      → length (entries (torrent_or_default (lookup request.info_hash torrents))) + 1 < u64_mod
      → (torrents' : TorrentMap I) × (t' : TorrentData I) × (response : ResponseData I)
        × (rng' : r.Source) × (upsert_peer_and_get_response_peers c im r config rng valid_until
              ip_address request torrents
            ≡ some (torrents', response, rng'))
        × IsValidMap torrents'
        × Puts IsValid request.info_hash (some t') torrents torrents'
        × Outcome c r config request ip_address valid_until
            (torrent_or_default (lookup request.info_hash torrents))
            t'
            response
  unfolding upsert_peer_and_get_response_peers
  announce_torrents_lem r config rng valid_until ip_address request torrents ok fits room =
      let old = lookup request.info_hash torrents in
      let t = torrent_or_default old in
      let (made, q, ok_t, d, looks) = created_eq request.info_hash torrents old ok refl in
      let (t', response, rng', p, outcome) =
        upsert_lem c r config rng request ip_address valid_until t ok_t fits room in
      let (ok', put) =
        insert-AllOk IsValid torrents made request.info_hash (some t) t' ok d looks outcome.0 in
      (insert request.info_hash t' made, t', response, rng', rw (q, p) refl, ok', put, outcome)
