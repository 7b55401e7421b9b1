-- ===== src/Ws/Swarm/Torrents.antt =====
-- crates/ws/src/workers/swarm/storage.rs: `TorrentMap`, the torrents of one address family.
pub mod Announce
pub mod Ownership
pub mod Clean
pub mod Scrape
pub mod Reach
use tracker_enhanced.Prelude.{
  ℕ, Bool, not, true, false, Option, none, some, List, [], ◌∷◌, ◌++◌, ◌>>=◌, Eq, list_eq, nat_eq,
  length, min, take, eqb, ltb, checked_add, u64_mod, if◌then◌else◌,
}
use tracker_enhanced.Prelude.Entries.{lookup, insert}
use tracker_enhanced.Crates.{IndexMap, HashMap, Rng}
use tracker_enhanced.Common.Time.{SecondsSinceServerStart}
use tracker_enhanced.Common.AccessList.{AccessList, AccessListMode, allows}
use tracker_enhanced.UdpProtocol.Bytes.{Bytes}
use tracker_enhanced.Ws.Messages.{
  IpVersion, AnnounceRequest, AnnounceRequestOffer, RtcAnswer, ScrapeRequest, ScrapeStatistics,
  as_vec, InMessageMeta, Out, out_meta, announce_response, scrape_response,
}
use tracker_enhanced.Ws.Swarm.Peers.{
  Peer, TorrentData, default_torrent_data, Config, Containers, PeerStatus, status_of, num_leechers,
  insert_or_update_peer, clean_and_get_num_peers,
}
use tracker_enhanced.Ws.Swarm.Peers
use tracker_enhanced.Ws.Swarm.Offers.{handle_offers, handle_answer}

abbrev pub is_stopped : PeerStatus → Bool
is_stopped PeerStatus.stopped = true
is_stopped PeerStatus.seeding = false
is_stopped PeerStatus.leeching = false

abbrev pub TorrentMap : Type 0
TorrentMap = List (Bytes × TorrentData)

-- `out_messages.push`, if there is a message.
abbrev pub push_option : List Out → Option Out → List Out
push_option out none = out
push_option out (some message) = out ++ message ∷ []

-- Whether the sender of a request may speak for its peer id: nobody has it, or this connection has.
abbrev pub is_owner : InMessageMeta → Option Peer → Bool
is_owner meta none = true
is_owner meta (some previous_peer) = eqb meta.connection_id previous_peer.connection_id

module _ (c : Containers) where
  -- The part about an answer; all three fields must be there.
  unfoldable pub answer_part :
      InMessageMeta
      → AnnounceRequest
      → Option RtcAnswer
      → Option Bytes
      → Option Bytes
      → List Out
      → TorrentData
      → TorrentData × List Out
  answer_part meta request (some answer) (some receiver_id) (some offer_id) out t =
      let (t', message) =
        handle_answer c meta request.info_hash request.peer_id receiver_id offer_id answer t in
      (t', push_option out message)
  answer_part meta request _ _ _ out t = (t, out)

  module _ (r : Rng) where
    unfoldable pub offers_part :
        Config
        → r.Source
        → SecondsSinceServerStart
        → AnnounceRequest
        → Option (List AnnounceRequestOffer)
        → List Out
        → TorrentData
        → Option (TorrentData × r.Source × List Out)
    offers_part config rng now request none out t = some (t, rng, out)
    offers_part config rng now request (some offers) out t =
        handle_offers c r config rng now request.info_hash request.peer_id offers out t

    -- What an announce passes on, unless the peer stopped.
    unfoldable pub relay :
        Config
        → r.Source
        → SecondsSinceServerStart
        → InMessageMeta
        → AnnounceRequest
        → List Out
        → TorrentData
        → Option (TorrentData × r.Source × List Out)
    relay config rng now meta request out t =
        if is_stopped (status_of request) then some (t, rng, out) else (do
          (t, rng, out) ← offers_part config rng now request request.offers out t
          let (t', out') =
              answer_part meta request request.answer request.answer_to_peer_id
                request.answer_offer_id out t
          some (t', rng, out'))

    -- An announce, once the torrent is there and the sender owns the peer id.
    unfoldable pub announce_torrent :
        Config
        → r.Source
        → SecondsSinceServerStart
        → InMessageMeta
        → AnnounceRequest
        → List Out
        → TorrentData
        → Option (TorrentData × r.Source × List Out)
    announce_torrent config rng now meta request out t = do
      t ← insert_or_update_peer c config now meta request t
      (t, rng, out) ← relay config rng now meta request out t
      incomplete ← num_leechers t
      some (
        t,
        rng,
        out
            ++ (
              out_meta meta,
              announce_response (record {
                info_hash = request.info_hash;
                complete = t.num_seeders;
                incomplete = incomplete;
                announce_interval = config.peer_announce_interval;
              }),
            )
              ∷ [],
      )

module _ (c : Containers) (im : IndexMap Bytes TorrentData) where
  -- `entry(info_hash).or_default()`
  abbrev pub create_missing : Bytes → TorrentMap → Option TorrentData → TorrentMap × TorrentData
  create_missing info_hash torrents none =
      (im.map_insert torrents info_hash default_torrent_data, default_torrent_data)
  create_missing info_hash torrents (some t) = (torrents, t)

  module _ (r : Rng) where
    -- `TorrentMap::handle_announce_request`
    unfoldable pub handle_announce_request :
        Config
        → r.Source
        → SecondsSinceServerStart
        → InMessageMeta
        → AnnounceRequest
        → List Out
        → TorrentMap
        → Option (TorrentMap × r.Source × List Out)
    handle_announce_request config rng now meta request out torrents =
        let (torrents', t) =
          create_missing request.info_hash torrents (lookup request.info_hash torrents) in
        if is_owner meta (lookup request.peer_id t.peers)
        then (do
          (t', rng', out') ← announce_torrent c r config rng now meta request out t
          some (insert request.info_hash t' torrents', rng', out'))
        else some (torrents', rng, out)

-- The statistics of the torrents that are there, of those that are asked for.
unfoldable pub scrape_files :
    HashMap Bytes ScrapeStatistics
    → TorrentMap
    → List Bytes
    → List (Bytes × ScrapeStatistics)
    → Option (List (Bytes × ScrapeStatistics))
scrape_files h torrents [] files = some files
scrape_files h torrents (info_hash ∷ info_hashes) files = elim (lookup info_hash torrents) [
  | none ↦ scrape_files h torrents info_hashes files
  | some t ↦
      (num_leechers t >>= λ incomplete. scrape_files h torrents info_hashes (
        h.hash_insert files info_hash
          (record { complete = t.num_seeders; incomplete = incomplete; downloaded = 0 })))
]

-- `TorrentMap::handle_scrape_request`
unfoldable pub handle_scrape_request :
    HashMap Bytes ScrapeStatistics
    → Config
    → InMessageMeta
    → ScrapeRequest
    → List Out
    → TorrentMap
    → Option (List Out)
handle_scrape_request h config meta request out torrents = elim request.info_hashes [
  | none ↦ some out
  | some hashes ↦ do
    let info_hashes = as_vec hashes
    let num_to_take = min (length info_hashes) config.max_scrape_torrents
    files ← scrape_files h torrents (take num_to_take info_hashes) []
    some (out ++ (out_meta meta, scrape_response (record { files = files })) ∷ [])
]

module _ (c : Containers) where
  -- `TorrentMap::handle_connection_closed`
  unfoldable pub handle_connection_closed : Bytes → Bytes → TorrentMap → Option TorrentMap
  handle_connection_closed info_hash peer_id torrents = elim (lookup info_hash torrents) [
    | none ↦ some torrents
    | some t ↦ do
      t' ← Peers.handle_connection_closed c t peer_id
      some (insert info_hash t' torrents)
  ]

  -- The closure of the `retain` over the torrents; `none` is a panic inside it.
  unfoldable pub keep_torrent :
      AccessList
      → AccessListMode
      → SecondsSinceServerStart
      → Bytes
      → TorrentData
      → Option ℕ
      → Option TorrentData × Option ℕ
  keep_torrent list mode now info_hash t total =
      if allows list mode info_hash
      then elim (clean_and_get_num_peers c now t) [
        | none ↦ (none, none)
        | some (t', num_peers) ↦ (
          if ltb 0 num_peers then some t' else none,
          total >>= λ n. checked_add u64_mod n num_peers,
        )
      ]
      else (none, total)

  module _ (im : IndexMap Bytes TorrentData) where
    -- `TorrentMap::clean`
    unfoldable pub clean :
        AccessList → AccessListMode → SecondsSinceServerStart → TorrentMap → Option TorrentMap
    clean list mode now torrents =
        let (kept, total) = im.map_retain_mut (keep_torrent list mode now) torrents (some 0) in
        (total >>= λ n. some kept)
