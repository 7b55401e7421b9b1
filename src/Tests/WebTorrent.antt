-- ===== src/Tests/WebTorrent.antt =====
-- Witnesses for the WebTorrent tracker: a torrent with a seeder, which expects an answer, and a peer
-- that has expired.
use mathlib.Core.Path.{subst}
use tracker_enhanced.Prelude.{
  ℕ, ◌≡◌, refl, true, false, Option, none, some, List, [], ◌∷◌, ◌++◌, arith, ◌==◌, list_eq, nat_eq,
  list_beq, count, Bool-cases, inl, inr, some_inj, then_branch, else_branch, if◌then◌else◌,
}
use tracker_enhanced.Prelude.Entries.{lookup, insert, Distinct, keep_value}
use tracker_enhanced.Crates.{IndexMap, HashMap, list_index_map, list_hash_map, counter_rng}
use tracker_enhanced.Common.Time.{SecondsSinceServerStart, ValidUntil, new_with_now}
use tracker_enhanced.Common.AccessList.{AccessList, AccessListMode}
use tracker_enhanced.UdpProtocol.Bytes.{Bytes}
use tracker_enhanced.Ws.Messages
use tracker_enhanced.Ws.Messages.{
  IpVersion, AnnounceRequest, AnnounceRequestOffer, ScrapeRequest, ScrapeRequestInfoHashes,
  ScrapeStatistics, InMessageMeta, Out, out_meta, as_vec,
}
use tracker_enhanced.Ws.Swarm.Sample.{extract_response_peers}
use tracker_enhanced.Ws.Swarm.Sample.Bounds.{extract_response_peers_sound, Picked}
use tracker_enhanced.Ws.Swarm.Peers.{
  Peer, TorrentData, Config, Containers, expecting_of, expecting_answer_eq, insert_or_update_peer,
  insert_peer, from_event_and_bytes_left,
}
use tracker_enhanced.Ws.Swarm.Peers.Counting.{IsValid}
use tracker_enhanced.Ws.Swarm.Offers.{Receiver, receiver_of}
use tracker_enhanced.Ws.Swarm.Offers.Exchange.{
  AnsweredOnce, handle_answer_once, Offered, handle_offers_lem,
}
use tracker_enhanced.Ws.Swarm.Torrents.{
  TorrentMap, handle_announce_request, handle_scrape_request, clean, announce_torrent, relay,
  offers_part, answer_part,
}
use tracker_enhanced.Ws.Swarm.Torrents.Ownership.{
  IsValidMap, Effect, owner_of, handle_announce_request_lem,
}
use tracker_enhanced.Sweep.{total}
use tracker_enhanced.Ws.Swarm.Torrents.Clean.{kept_torrent, clean_torrents_lem}
use tracker_enhanced.Ws.Swarm.Torrents.Scrape.{asked, statistics, handle_scrape_request_lem}
use tracker_enhanced.Ws.Swarm.Torrents.Reach.{
  Reachable, start, next, announce, reachable-IsValidMap,
}

abbrev at : ℕ → SecondsSinceServerStart
at seconds = record { seconds = seconds }

abbrev until : ℕ → ValidUntil
until seconds = record { until = at seconds }

abbrev containers : Containers
containers = record { peers = list_index_map; expecting = list_index_map }

abbrev torrents_map : IndexMap Bytes TorrentData
torrents_map = list_index_map

abbrev config : Config
config = record {
  max_scrape_torrents = 255;
  max_offers = 10;
  peer_announce_interval = 120;
  max_peer_age = 180;
  max_offer_age = 120;
}

abbrev seeder : Peer
seeder = record {
  consumer_id = 0;
  connection_id = 11;
  seeder = true;
  valid_until = until 300;
  expecting_answers = (expecting_of (2 ∷ []) (7 ∷ []), until 250) ∷ [];
}

abbrev other : Peer
other = record {
  consumer_id = 1;
  connection_id = 12;
  seeder = false;
  valid_until = until 90;
  expecting_answers = [];
}

abbrev torrent : TorrentData
torrent = record { peers = ((1 ∷ []), seeder) ∷ ((2 ∷ []), other) ∷ []; num_seeders = 1 }

abbrev torrents : TorrentMap
torrents = ((5 ∷ []), torrent) ∷ []

abbrev meta : ℕ → InMessageMeta
meta connection_id = record {
  out_message_consumer_id = 0;
  connection_id = connection_id;
  ip_version = IpVersion.v4;
  pending_scrape_id = none;
}

abbrev offer : AnnounceRequestOffer
offer = record { offer = record { sdp = 1 ∷ [] }; offer_id = 8 ∷ [] }

abbrev request : AnnounceRequest
request = record {
  info_hash = 5 ∷ [];
  peer_id = 1 ∷ [];
  bytes_left = some 0;
  event = none;
  offers = some (offer ∷ []);
  numwant = some 1;
  answer = none;
  answer_to_peer_id = none;
  answer_offer_id = none;
}

torrent_expects :
    (k : Bytes) (p : Peer) → lookup k torrent.peers ≡ some p → Distinct p.expecting_answers
unfolding lookup
torrent_expects k p h =
    let rest : Option Peer = if 2 ∷ [] == k then some other else none in
    elim (Bool-cases (1 ∷ [] == k)) [
      | inl first ↦
          subst (λ q. Distinct q.expecting_answers)
            (some_inj (then_branch (1 ∷ [] == k) (some seeder) rest (some p) first h)) (refl, tt)
      | inr later ↦
          let h' = else_branch (1 ∷ [] == k) (some seeder) rest (some p) later h in
          elim (Bool-cases (2 ∷ [] == k)) [
            | inl second ↦
                subst (λ q. Distinct q.expecting_answers)
                  (some_inj (then_branch (2 ∷ [] == k) (some other) none (some p) second h')) tt
            | inr absent ↦ cc (else_branch (2 ∷ [] == k) (some other) none (some p) absent h')
          ]
    ]

torrent-IsValid : IsValid torrent
unfolding lookup count list_beq
torrent-IsValid = record {
  distinct = (refl, (refl, tt));
  counted = refl;
  expects = torrent_expects;
}

torrents-IsValidMap : IsValidMap torrents
unfolding lookup
torrents-IsValidMap = record {
  distinct = (refl, tt);
  each = λ k t h. elim (Bool-cases (5 ∷ [] == k)) [
    | inl here ↦
        subst IsValid (some_inj (then_branch (5 ∷ [] == k) (some torrent) none (some t) here h))
          torrent-IsValid
    | inr absent ↦ cc (else_branch (5 ∷ [] == k) (some torrent) none (some t) absent h)
  ];
}

extract_response_peers_sound_example :
    (peers : List Receiver) × (rng' : ℕ) × (extract_response_peers containers.peers
        (1 ∷ [])
        receiver_of
        counter_rng
        3
        torrent.peers
        1
      ≡ some (peers, rng'))
    × Picked containers.peers (1 ∷ []) receiver_of torrent.peers 1 peers
extract_response_peers_sound_example =
    extract_response_peers_sound containers.peers (1 ∷ []) receiver_of counter_rng 3 torrent.peers 1
      torrent-IsValid.distinct (omega arith)

-- The peer 2 answers the offer 7 of the peer 1.
handle_answer_once_example :
    (t' : TorrentData) × (p' : Peer) × AnsweredOnce containers
      (meta 12)
      (5 ∷ [])
      (2 ∷ [])
      (1 ∷ [])
      (7 ∷ [])
      (record { sdp = 3 ∷ [] })
      torrent
      seeder
      t'
      p'
unfolding lookup list_beq
handle_answer_once_example =
    handle_answer_once containers (meta 12) (5 ∷ []) (2 ∷ []) (1 ∷ []) (7 ∷ [])
      (record { sdp = 3 ∷ [] }) torrent seeder torrent-IsValid refl

handle_offers_lem_example :
    (receivers : List Receiver) × (rng' : ℕ) × (t' : TorrentData) × (p' : Peer) × Offered containers
      counter_rng config
      (at 100)
      (5 ∷ [])
      (1 ∷ [])
      (offer ∷ [])
      (until 220)
      3
      []
      torrent
      seeder
      receivers
      rng'
      t'
      p'
unfolding lookup list_beq new_with_now
handle_offers_lem_example =
    handle_offers_lem containers counter_rng config (at 100) (5 ∷ []) (1 ∷ []) (offer ∷ [])
      (until 220) 3 [] torrent seeder refl (omega arith) torrent-IsValid refl

handle_announce_request_lem_example :
    (torrents' : TorrentMap) × (rng' : ℕ) × (sent : List Out) × (handle_announce_request containers
        torrents_map counter_rng config 3
        (at 100)
        (meta 11)
        request
        []
        torrents
      ≡ some (torrents', rng', [] ++ sent))
    × IsValidMap torrents'
    × ((j : Bytes) → (request.info_hash == j) ≡ false → lookup j torrents' ≡ lookup j torrents)
    × Effect containers torrents_map counter_rng config
        (at 100)
        (meta 11)
        request
        (until 280)
        (until 220)
        (owner_of containers torrents_map counter_rng config
          (at 100)
          (meta 11)
          request
          (until 280)
          torrents)
        (lookup request.info_hash torrents)
        (lookup request.info_hash torrents')
        sent
unfolding new_with_now lookup list_beq
handle_announce_request_lem_example =
    handle_announce_request_lem containers torrents_map counter_rng config (at 100) (meta 11)
      request (until 280) (until 220) 3 [] torrents refl refl (omega arith) torrents-IsValidMap
      (omega arith)

abbrev everything : AccessList
everything = record { contains = λ info_hash. true }

clean_torrents_lem_example :
    (torrents' : TorrentMap) × (clean containers torrents_map everything AccessListMode.allow
        (at 100)
        torrents
      ≡ some torrents')
    × IsValidMap torrents'
    × ((j : Bytes)
        → lookup j torrents'
          ≡ keep_value
              (kept_torrent containers everything AccessListMode.allow (at 100))
              j
              (lookup j torrents))
unfolding total
clean_torrents_lem_example =
    clean_torrents_lem containers everything AccessListMode.allow (at 100) torrents_map torrents
      torrents-IsValidMap (omega arith)

abbrev files_map : HashMap Bytes ScrapeStatistics
files_map = list_hash_map

handle_scrape_request_lem_example :
    (files : List (Bytes × ScrapeStatistics)) × (handle_scrape_request files_map config
        (meta 12)
        (record { info_hashes = some (ScrapeRequestInfoHashes.single (5 ∷ [])) })
        []
        torrents
      ≡ some ([] ++ (out_meta (meta 12), Messages.scrape_response (record { files = files })) ∷ []))
    × ((j : Bytes)
        → lookup j files
          ≡ (if asked j ((5 ∷ []) ∷ []) then statistics (lookup j torrents) else none))
handle_scrape_request_lem_example =
    handle_scrape_request_lem files_map torrents torrents-IsValidMap config (meta 12)
      (record { info_hashes = some (ScrapeRequestInfoHashes.single (5 ∷ [])) })
      (ScrapeRequestInfoHashes.single (5 ∷ [])) [] refl

-- A peer announces to a new worker, and closes its connection.
abbrev first_request : AnnounceRequest
first_request = record request { offers = none }

abbrev first_torrents : TorrentMap
first_torrents =
    (
      5 ∷ [],
      record {
        peers =
            (
              1 ∷ [],
              record {
                consumer_id = 0;
                connection_id = 11;
                seeder = true;
                valid_until = until 280;
                expecting_answers = [];
              },
            )
            ∷ [];
        num_seeders = 1;
      },
    )
    ∷ []

first-Reachable : Reachable containers torrents_map counter_rng config first_torrents
unfolding new_with_now lookup insert list_beq handle_announce_request announce_torrent
    insert_or_update_peer insert_peer from_event_and_bytes_left relay offers_part answer_part
first-Reachable = next start (
    announce (at 100) (meta 11) first_request 3 3 []
      ((
        out_meta (meta 11),
        Messages.announce_response
            (record { info_hash = 5 ∷ []; complete = 1; incomplete = 0; announce_interval = 120 }),
      )
        ∷ [])
      [] first_torrents
      (record {
        until = until 280;
        answer_until = until 220;
        fresh = refl;
        fresh_answer = refl;
        offers = omega arith;
        seeders = omega arith;
      })
      refl)

reachable-IsValidMap_example : IsValidMap first_torrents
reachable-IsValidMap_example =
    reachable-IsValidMap containers torrents_map counter_rng config first-Reachable
