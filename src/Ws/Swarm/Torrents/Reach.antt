-- ===== src/Ws/Swarm/Torrents/Reach.antt =====
-- The torrents of one address family over time: announces, closed connections and cleanings, in any
-- order. A worker handles one of them at a time.
use mathlib.Core.Path.{subst}
use tracker_enhanced.Prelude.{
  ◌+◌, ◌<◌, ◌≡◌, sym, ap, ◌∙◌, some, List, [], list_eq, nat_eq, u64_mod, some_inj,
}
use tracker_enhanced.Prelude.Entries.{lookup}
use tracker_enhanced.Sweep.{total, empty-AllOk}
use tracker_enhanced.Ws.Swarm.Peers.Counting.{IsValid}
use tracker_enhanced.Crates.{IndexMap, Rng}
use tracker_enhanced.Common.Time.{SecondsSinceServerStart, ValidUntil, new_with_now}
use tracker_enhanced.Common.AccessList.{AccessList, AccessListMode}
use tracker_enhanced.UdpProtocol.Bytes.{Bytes}
use tracker_enhanced.Ws.Messages.{AnnounceRequest, InMessageMeta, Out}
use tracker_enhanced.Ws.Swarm.Peers.{TorrentData, Config, Containers}
use tracker_enhanced.Ws.Swarm.Torrents.{
  TorrentMap, handle_announce_request, handle_connection_closed, clean,
}
use tracker_enhanced.Ws.Swarm.Torrents.Ownership.{
  IsValidMap, torrent_or_default, handle_announce_request_lem,
}
use tracker_enhanced.Ws.Swarm.Torrents.Clean.{num_peers, clean_torrents_lem, closed_lem}

module _ (c : Containers) (im : IndexMap Bytes TorrentData) (r : Rng) (config : Config) where
  -- That the clock and the counters are far from their limits when a request is handled.
  pub record HasRoom (now : SecondsSinceServerStart) (request : AnnounceRequest)
      (torrents : TorrentMap) : Type 0 where
    pub until : ValidUntil
    pub answer_until : ValidUntil
    pub fresh : new_with_now now config.max_peer_age ≡ some until
    pub fresh_answer : new_with_now now config.max_offer_age ≡ some answer_until
    pub offers : config.max_offers + 1 < u64_mod
    pub seeders : (torrent_or_default (lookup request.info_hash torrents)).num_seeders + 1 < u64_mod

  -- One request, closed connection or cleaning that was handled.
  pub data Step : TorrentMap → TorrentMap → Type 0 where
    announce :
        (now : SecondsSinceServerStart) (meta : InMessageMeta) (request : AnnounceRequest)
        (rng rng' : r.Source) (out out' : List Out) (torrents torrents' : TorrentMap)
        → HasRoom now request torrents
        → handle_announce_request c im r config rng now meta request out torrents
          ≡ some (torrents', rng', out')
        → Step torrents torrents'
    close :
        (info_hash peer_id : Bytes) (torrents torrents' : TorrentMap)
        → handle_connection_closed c info_hash peer_id torrents ≡ some torrents'
        → Step torrents torrents'
    sweep :
        (list : AccessList) (mode : AccessListMode) (now : SecondsSinceServerStart)
        (torrents torrents' : TorrentMap)
        → total IsValid num_peers torrents < u64_mod
        → clean c im list mode now torrents ≡ some torrents'
        → Step torrents torrents'

  -- What a new worker comes to.
  pub data Reachable : TorrentMap → Type 0 where
    start : Reachable []
    next : {s t : TorrentMap} → Reachable s → Step s t → Reachable t

  step-IsValidMap : {s t : TorrentMap} → Step s t → IsValidMap s → IsValidMap t
  step-IsValidMap (announce now meta request rng rng' out out' torrents torrents' room q) ok =
      let (found, _, _, e, ok', _, _) =
        handle_announce_request_lem c im r config now meta request room.until room.answer_until rng
          out torrents room.fresh room.fresh_answer room.offers ok room.seeders in
      subst IsValidMap (ap (λ x. x.0) (some_inj (sym e ∙ q))) ok'
  step-IsValidMap (close info_hash peer_id torrents torrents' q) ok =
      let (found, e, ok') = closed_lem c info_hash peer_id torrents ok in
      subst IsValidMap (some_inj (sym e ∙ q)) ok'
  step-IsValidMap (sweep list mode now torrents torrents' fits q) ok =
      let (found, e, ok', _) = clean_torrents_lem c list mode now im torrents ok fits in
      subst IsValidMap (some_inj (sym e ∙ q)) ok'

  -- Whatever a worker handles, in whatever order: every peer stands once under its id and every
  -- count of seeders is right.
  pub reachable-IsValidMap : {torrents : TorrentMap} → Reachable torrents → IsValidMap torrents
  reachable-IsValidMap start = empty-AllOk IsValid
  reachable-IsValidMap (next path step) = step-IsValidMap step (reachable-IsValidMap path)
