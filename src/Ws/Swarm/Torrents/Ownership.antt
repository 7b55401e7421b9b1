-- ===== src/Ws/Swarm/Torrents/Ownership.antt =====
-- Whose announces change a torrent: the connection that a peer id came from.
use mathlib.Core.List.{append_assoc, append-nil}
use mathlib.Core.Path.{subst}
use tracker_enhanced.Prelude.{
  ◌+◌, ◌-◌, ◌<◌, ◌≡◌, refl, ap, ◌∙◌, Bool, true, false, Option, none, some, List, [], ◌∷◌, ◌++◌,
  ◌==◌, list_eq, nat_eq, if◌then◌else◌, length, u64_mod, Bool-cases, inl, inr, eq_self,
}
use tracker_enhanced.Prelude.Entries.{lookup, insert, Distinct, lookup-insert, insert-Distinct}
use tracker_enhanced.Sweep.{AllOk, Puts, insert-AllOk, same-Puts}
use tracker_enhanced.Crates.{IndexMap, Rng}
use tracker_enhanced.Common.Time.{SecondsSinceServerStart, ValidUntil, new_with_now}
use tracker_enhanced.UdpProtocol.Bytes.{Bytes}
use tracker_enhanced.Ws.Messages.{AnnounceRequest, InMessageMeta, Out, out_meta, announce_response}
use tracker_enhanced.Ws.Swarm.Peers.{
  ExpectingAnswer, Peer, TorrentData, default_torrent_data, Config, Containers, PeerStatus,
  status_of,
}
use tracker_enhanced.Ws.Swarm.Peers.Counting.{
  IsValid, Sets, announced, default-IsValid, num_leechers_lem, insert_or_update_peer_lem,
}
use tracker_enhanced.Ws.Swarm.Offers.{Receiver}
use tracker_enhanced.Ws.Swarm.Torrents.{
  TorrentMap, is_stopped, is_owner, relay, announce_torrent, create_missing,
  handle_announce_request,
}
use tracker_enhanced.Ws.Swarm.Torrents.Announce.{
  identity, SamePeers, expected, taken, given, offers_sent, relay_active,
}

-- The response to an announce, from what it leaves of the torrent.
abbrev pub response_to : Config → InMessageMeta → AnnounceRequest → TorrentData → Out
response_to config meta request t = (
  out_meta meta,
  announce_response (record {
    info_hash = request.info_hash;
    complete = t.num_seeders;
    incomplete = length t.peers - t.num_seeders;
    announce_interval = config.peer_announce_interval;
  }),
)

module _ (c : Containers) (r : Rng) (config : Config) (now : SecondsSinceServerStart)
    (meta : InMessageMeta) (request : AnnounceRequest) where
  -- What the announcing peer is after its status was noted, and the others.
  abbrev pub noted : ValidUntil → TorrentData → Bytes → Option Peer
  noted until t j =
      if request.peer_id == j
      then announced meta until (status_of request) (lookup request.peer_id t.peers)
      else lookup j t.peers

  -- What is passed on: the offers to their receivers, and the reply to an answer. A peer that
  -- stopped passes nothing on, and no answer is expected or taken because of it.
  abbrev pub Relays :
      Bool → ValidUntil → ValidUntil → List Receiver → List Out → TorrentData → TorrentData → Type 0
  Relays true until answer_until receivers relayed t t' =
      (relayed ≡ [])
      × ((j : Bytes) (key : ExpectingAnswer)
          → expected key (lookup j t'.peers) ≡ expected key (noted until t j))
  Relays false until answer_until receivers relayed t t' =
      ((added : List Out) × (relayed ≡ offers_sent request request.offers receivers ++ added))
      × ((j : Bytes) (key : ExpectingAnswer)
          → expected key (lookup j t'.peers)
            ≡ taken request.answer request.answer_to_peer_id request.answer_offer_id request.peer_id
                j key
                (given answer_until request.offers receivers request.peer_id j key
                  (expected key (noted until t j))))

  -- The peers are the old ones but for the announcing one, which is as its status says, and for
  -- the answers that are expected, which `Relays` gives for every peer.
  abbrev pub Announces :
      ValidUntil
      → ValidUntil
      → List Receiver
      → List Out
      → TorrentData
      → TorrentData
      → List Out
      → Type 0
  Announces until answer_until receivers relayed t t' sent =
      IsValid t'
      × ((j : Bytes) → identity (lookup j t'.peers) ≡ identity (noted until t j))
      × Relays (is_stopped (status_of request)) until answer_until receivers relayed t t'
      × (sent ≡ relayed ++ response_to config meta request t' ∷ [])

  announced_present :
      (until : ValidUntil) (status : PeerStatus) (o : Option Peer)
      → is_stopped status ≡ false
      → (p : Peer) × (announced meta until status o ≡ some p)
  announced_present until PeerStatus.stopped o h = cc
  announced_present until PeerStatus.seeding none h = (_, refl)
  announced_present until PeerStatus.seeding (some p) h = (_, refl)
  announced_present until PeerStatus.leeching none h = (_, refl)
  announced_present until PeerStatus.leeching (some p) h = (_, refl)

  module _ (until answer_until : ValidUntil)
      (fresh : new_with_now now config.max_peer_age ≡ some until)
      (fresh_answer : new_with_now now config.max_offer_age ≡ some answer_until)
      (fits : config.max_offers + 1 < u64_mod) where
    relay_lem :
        (rng : r.Source) (out : List Out) (t t1 : TorrentData)
        → IsValid t1
        → Sets request.peer_id
            (announced meta until (status_of request) (lookup request.peer_id t.peers))
            t
            t1
        → (t' : TorrentData) × (rng' : r.Source) × (receivers : List Receiver) × (relayed : List
            Out)
          × (relay c r config rng now meta request out t1 ≡ some (t', rng', out ++ relayed))
          × IsValid t'
          × SamePeers t1 t'
          × Relays (is_stopped (status_of request)) until answer_until receivers relayed t t'
    unfolding relay
    relay_lem rng out t t1 ok set = elim (Bool-cases (is_stopped (status_of request))) [
      | inl over ↦ (
        t1,
        rng,
        [],
        [],
        rw (over, append-nil out) refl,
        ok,
        (λ j. refl),
        rw over (refl, λ j key. ap (expected key) (set j)),
      )
      | inr active ↦
          let (p, q) =
            announced_present until (status_of request) (lookup request.peer_id t.peers) active in
          let there : lookup request.peer_id t1.peers ≡ some p =
            set request.peer_id ∙ rw (eq_self request.peer_id) q in
          let (t', rng', receivers, added, e, (ok', same, expects)) =
            relay_active c r config now answer_until fresh_answer fits rng meta request out t1 p
              active ok there in
          (
            t',
            rng',
            receivers,
            offers_sent request request.offers receivers ++ added,
            e,
            ok',
            same,
            rw active (
              (added, refl),
              λ j key.
                  expects j key
                  ∙ ap
                      (λ o.
                        taken request.answer request.answer_to_peer_id request.answer_offer_id
                          request.peer_id j key
                          (given answer_until request.offers receivers request.peer_id j key
                            (expected key o)))
                      (set j),
            ),
          )
    ]

    announce_torrent_lem :
        (rng : r.Source) (out : List Out) (t : TorrentData)
        → IsValid t
        → t.num_seeders + 1 < u64_mod
        → (t' : TorrentData) × (rng' : r.Source) × (receivers : List Receiver) × (relayed
            sent : List Out)
          × (announce_torrent c r config rng now meta request out t ≡ some (t', rng', out ++ sent))
          × Announces until answer_until receivers relayed t t' sent
    unfolding announce_torrent
    announce_torrent_lem rng out t ok room =
        let (t1, q, ok1, set) =
          insert_or_update_peer_lem c t ok config now meta request until fresh room in
        let (t', rng', receivers, relayed, e, ok', same, relays) = relay_lem rng out t t1 ok1 set in
        (
          t',
          rng',
          receivers,
          relayed,
          relayed ++ response_to config meta request t' ∷ [],
          rw
              (
                q,
                e,
                num_leechers_lem t' ok',
                append_assoc out relayed (response_to config meta request t' ∷ []),
              )
              refl,
          (ok', (λ j. same j ∙ ap identity (set j)), relays, refl),
        )

-- All torrents are well formed, under distinct info hashes.
abbrev pub IsValidMap : TorrentMap → Type 0
IsValidMap torrents = AllOk IsValid torrents

abbrev pub torrent_or_default : Option TorrentData → TorrentData
torrent_or_default none = default_torrent_data
torrent_or_default (some t) = t

module _ (c : Containers) (im : IndexMap Bytes TorrentData) where
  created_eq :
      (info_hash : Bytes) (torrents : TorrentMap) (o : Option TorrentData)
      → IsValidMap torrents
      → lookup info_hash torrents ≡ o
      → (made : TorrentMap) × (create_missing c im info_hash torrents o
          ≡ (made, torrent_or_default o))
        × IsValid (torrent_or_default o)
        × Distinct made
        × ((j : Bytes)
            → lookup j made
              ≡ (if info_hash == j then some (torrent_or_default o) else lookup j torrents))
  created_eq info_hash torrents none ok h = (
    insert info_hash default_torrent_data torrents,
    rw (im.map_insert_lem torrents info_hash default_torrent_data ok.distinct) refl,
    default-IsValid,
    insert-Distinct info_hash default_torrent_data torrents ok.distinct,
    λ j. lookup-insert info_hash j default_torrent_data torrents,
  )
  created_eq info_hash torrents (some t) ok h = (
    torrents,
    refl,
    ok.each info_hash t h,
    ok.distinct,
    subst (λ o. Puts IsValid info_hash o torrents torrents) h
        (same-Puts IsValid torrents info_hash),
  )

module _ (c : Containers) (im : IndexMap Bytes TorrentData) (r : Rng) (config : Config)
    (now : SecondsSinceServerStart) (meta : InMessageMeta) (request : AnnounceRequest)
    (until : ValidUntil) where
  -- The effect on the torrent, by whether the sender owns the peer id.
  abbrev pub Effect :
      ValidUntil → Bool → Option TorrentData → Option TorrentData → List Out → Type 0
  Effect answer_until true old new sent =
      (t' : TorrentData) × (receivers : List Receiver) × (relayed : List Out) × (new ≡ some t')
      × Announces c r config now meta request until answer_until receivers relayed
          (torrent_or_default old) t' sent
  Effect answer_until false old new sent = (new ≡ old) × (sent ≡ [])

  abbrev pub owner_of : TorrentMap → Bool
  owner_of torrents =
      is_owner meta
        (lookup request.peer_id (torrent_or_default (lookup request.info_hash torrents)).peers)

  missing_owned :
      (torrents : TorrentMap)
      → owner_of torrents ≡ false
      → (t : TorrentData) × (lookup request.info_hash torrents ≡ some t)
  unfolding lookup
  missing_owned torrents h = present (lookup request.info_hash torrents) refl h
    where
      present :
          (o : Option TorrentData)
          → lookup request.info_hash torrents ≡ o
          → is_owner meta (lookup request.peer_id (torrent_or_default o).peers) ≡ false
          → (t : TorrentData) × (lookup request.info_hash torrents ≡ some t)
      present none q e = absurd cc
      present (some t) q e = (t, q)

  -- An announce on well-formed torrents does not fail and keeps them well formed, and no other
  -- torrent changes. Where another connection has the peer id, nothing changes and nothing is sent.
  -- Otherwise the announcing peer is as its status says and the other peers stay, and what each
  -- peer expects afterwards is given for every key: an answer takes its key from the peer it is
  -- for, and offers add keys to the announcing peer. A peer that stopped passes nothing on. The
  -- last message is the response, with the counts of the torrent as it is left. This is for
  -- instants and counts that fit their integers.
  pub handle_announce_request_lem :
      (answer_until : ValidUntil) (rng : r.Source) (out : List Out) (torrents : TorrentMap)
      → new_with_now now config.max_peer_age ≡ some until
      → new_with_now now config.max_offer_age ≡ some answer_until
      → config.max_offers + 1 < u64_mod
      → IsValidMap torrents
      → (torrent_or_default (lookup request.info_hash torrents)).num_seeders + 1 < u64_mod
      → (torrents' : TorrentMap) × (rng' : r.Source) × (sent : List Out) × (handle_announce_request
            c im r config rng now meta request out torrents
          ≡ some (torrents', rng', out ++ sent))
        × IsValidMap torrents'
        × ((j : Bytes) → (request.info_hash == j) ≡ false → lookup j torrents' ≡ lookup j torrents)
        × Effect answer_until
            (owner_of torrents)
            (lookup request.info_hash torrents)
            (lookup request.info_hash torrents')
            sent
  unfolding handle_announce_request
  handle_announce_request_lem answer_until rng out torrents fresh fresh_answer fits ok room =
      let old = lookup request.info_hash torrents in
      let t = torrent_or_default old in
      let (made, q, ok_t, d, looks) = created_eq c im request.info_hash torrents old ok refl in
      elim (Bool-cases (owner_of torrents)) [
        | inl owned ↦
            let (t', rng', receivers, relayed, sent, e, effect) =
              announce_torrent_lem c r config now meta request until answer_until fresh fresh_answer
                fits rng out t ok_t room in
            let (ok', put) =
              insert-AllOk IsValid torrents made request.info_hash (some t) t' ok d looks
                effect.0 in
            (
              insert request.info_hash t' made,
              rng',
              sent,
              rw (q, owned, e) refl,
              ok',
              (λ j other. put j ∙ rw other refl),
              rw owned (
                t',
                receivers,
                relayed,
                put request.info_hash ∙ rw (eq_self request.info_hash) refl,
                effect,
              ),
            )
        | inr foreign ↦
            let (u, there) = missing_owned torrents foreign in
            let no_owner : is_owner meta (lookup request.peer_id u.peers) ≡ false =
              subst
                (λ o. is_owner meta (lookup request.peer_id (torrent_or_default o).peers) ≡ false)
                there foreign in
            (
              torrents,
              rng,
              [],
              rw (there, no_owner, append-nil out) refl,
              ok,
              (λ j other. refl),
              rw foreign (refl, refl),
            )
      ]
