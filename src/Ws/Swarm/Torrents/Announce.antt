-- ===== src/Ws/Swarm/Torrents/Announce.antt =====
-- What an announce leaves of the torrents and what it sends.
use mathlib.Core.List.{append_assoc, append-nil}
use mathlib.Core.Path.{subst}
use tracker_enhanced.Prelude.{
  ◌+◌, ◌<◌, ◌≡◌, refl, ap, ◌∙◌, Bool, true, false, Option, none, some, List, [], ◌∷◌, ◌++◌, ◌==◌,
  list_eq, nat_eq, if◌then◌else◌, u64_mod, Bool-cases, Option-cases, inl, inr,
}
use tracker_enhanced.Prelude.Entries.{lookup}
use tracker_enhanced.Crates.{Rng}
use tracker_enhanced.Common.Time.{SecondsSinceServerStart, ValidUntil, new_with_now}
use tracker_enhanced.UdpProtocol.Bytes.{Bytes}
use tracker_enhanced.Ws.Messages.{
  AnnounceRequest, AnnounceRequestOffer, RtcAnswer, InMessageMeta, Out,
}
use tracker_enhanced.Ws.Swarm.Peers.{
  ExpectingAnswer, expecting_answer_eq, expecting_of, Peer, TorrentData, Config, Containers,
  status_of,
}
use tracker_enhanced.Ws.Swarm.Peers.Counting.{IsValid, Sets}
use tracker_enhanced.Ws.Swarm.Offers.Exchange.{
  handle_offers_lem, handle_answer_once, handle_answer_missing, offer_messages, sent,
}
use tracker_enhanced.Ws.Swarm.Offers.{Receiver, reply}
use tracker_enhanced.Ws.Swarm.Torrents.{is_stopped, answer_part, offers_part, relay}

-- A peer but for the answers that it expects.
abbrev pub identity : Option Peer → Option Peer
identity none = none
identity (some p) = some (record p { expecting_answers = [] })

-- The peers of a torrent are those of another, but for the answers that they expect.
abbrev pub SamePeers : TorrentData → TorrentData → Type 0
SamePeers t t' = (j : Bytes) → identity (lookup j t'.peers) ≡ identity (lookup j t.peers)

abbrev pub expected : ExpectingAnswer → Option Peer → Option ValidUntil
expected key none = none
expected key (some p) = lookup key p.expecting_answers

-- What is expected for a key at the peer `j`, once an answer was handled: an answer from `sender`
-- takes its own key away from the peer that it is for.
abbrev pub taken :
    Option RtcAnswer
    → Option Bytes
    → Option Bytes
    → Bytes
    → Bytes
    → ExpectingAnswer
    → Option ValidUntil
    → Option ValidUntil
taken (some answer) (some receiver_id) (some offer_id) sender j key o =
    if receiver_id == j then (if expecting_of sender offer_id == key then none else o) else o
taken _ _ _ sender j key o = o

-- What is expected for a key at the peer `j`, once the offers of `sender` went out.
abbrev pub given :
    ValidUntil
    → Option (List AnnounceRequestOffer)
    → List Receiver
    → Bytes
    → Bytes
    → ExpectingAnswer
    → Option ValidUntil
    → Option ValidUntil
given until none receivers sender j key o = o
given until (some offers) receivers sender j key o =
    if sender == j then (if sent key offers receivers then some until else o) else o

-- The messages that pass the offers of a request on.
abbrev pub offers_sent :
    AnnounceRequest → Option (List AnnounceRequestOffer) → List Receiver → List Out
offers_sent request none receivers = []
offers_sent request (some offers) receivers =
    offer_messages request.info_hash request.peer_id offers receivers

-- What is expected at every peer of a torrent, from what was.
abbrev pub Expects :
    (Bytes → ExpectingAnswer → Option ValidUntil → Option ValidUntil)
    → TorrentData
    → TorrentData
    → Type 0
Expects f t t' =
    (j : Bytes) (key : ExpectingAnswer)
    → expected key (lookup j t'.peers) ≡ f j key (expected key (lookup j t.peers))

Sets-Expects :
    (id : Bytes) (p p' : Peer) (t t' : TorrentData)
    (f : ExpectingAnswer → Option ValidUntil → Option ValidUntil)
    → lookup id t.peers ≡ some p
    → Sets id (some p') t t'
    → ((key : ExpectingAnswer)
        → lookup key p'.expecting_answers ≡ f key (lookup key p.expecting_answers))
    → Expects (λ j key o. if id == j then f key o else o) t t'
Sets-Expects id p p' t t' f h set looks j key = elim (Bool-cases (id == j)) [
  | inl here ↦
      let there : lookup j t.peers ≡ some p =
        subst (λ k. lookup k t.peers ≡ some p) ((list_eq.beq_iff id j).0 here) h in
      let wrote : lookup j t'.peers ≡ some p' = set j ∙ rw here refl in
      rw (wrote, there, here) (looks key)
  | inr other ↦
      let kept : lookup j t'.peers ≡ lookup j t.peers = set j ∙ rw other refl in
      rw (kept, other) refl
]

Sets-SamePeers :
    (id : Bytes) (p p' : Peer) (t t' : TorrentData)
    → lookup id t.peers ≡ some p
    → identity (some p') ≡ identity (some p)
    → Sets id (some p') t t'
    → SamePeers t t'
Sets-SamePeers id p p' t t' h same set j = elim (Bool-cases (id == j)) [
  | inl here ↦
      let there : lookup j t.peers ≡ some p =
        subst (λ k. lookup k t.peers ≡ some p) ((list_eq.beq_iff id j).0 here) h in
      let wrote : lookup j t'.peers ≡ some p' = set j ∙ rw here refl in rw (wrote, there) same
  | inr other ↦
      let kept : lookup j t'.peers ≡ lookup j t.peers = set j ∙ rw other refl in ap identity kept
]

module _ (c : Containers) where
  -- A part of an announce that sends messages and changes at most what is expected.
  abbrev pub Keeps :
      (Bytes → ExpectingAnswer → Option ValidUntil → Option ValidUntil)
      → TorrentData
      → TorrentData
      → Type 0
  Keeps f t t' = IsValid t' × SamePeers t t' × Expects f t t'

  absent_taken :
      (request : AnnounceRequest) (answer : RtcAnswer) (receiver_id offer_id : Bytes)
      (t : TorrentData)
      → lookup receiver_id t.peers ≡ none
      → Expects (taken (some answer) (some receiver_id) (some offer_id) request.peer_id) t t
  absent_taken request answer receiver_id offer_id t absent j key =
      elim (Bool-cases (receiver_id == j)) [
        | inl here ↦
            let gone : lookup j t.peers ≡ none =
              subst (λ k. lookup k t.peers ≡ none) ((list_eq.beq_iff receiver_id j).0 here)
                absent in
            rw (here, gone) (none_taken (expecting_of request.peer_id offer_id == key) none refl)
        | inr other ↦ rw other refl
      ]
    where
      none_taken : (b : Bool) (o : Option ValidUntil) → o ≡ none → o ≡ (if b then none else o)
      none_taken true o q = q
      none_taken false o q = refl

  answer_some :
      (meta : InMessageMeta) (request : AnnounceRequest) (answer : RtcAnswer)
      (receiver_id offer_id : Bytes) (out : List Out) (t : TorrentData)
      → IsValid t
      → (t' : TorrentData) × (added : List Out) × (answer_part c meta request
            (some answer)
            (some receiver_id)
            (some offer_id)
            out
            t
          ≡ (t', out ++ added))
        × Keeps (taken (some answer) (some receiver_id) (some offer_id) request.peer_id) t t'
  unfolding answer_part
  answer_some meta request answer receiver_id offer_id out t valid_t =
      elim (Option-cases (lookup receiver_id t.peers)) [
        | inl absent ↦ (
          t,
          [],
          rw
              (
                handle_answer_missing c meta request.info_hash request.peer_id receiver_id offer_id
                    answer t absent,
                append-nil out,
              )
              refl,
          (valid_t, (λ j. refl), absent_taken request answer receiver_id offer_id t absent),
        )
        | inr (p, there) ↦
            let (t', p', (q, ok, set, same, looks, _)) =
              handle_answer_once c meta request.info_hash request.peer_id receiver_id offer_id
                answer t p valid_t there in
            (
              t',
              reply meta request.info_hash request.peer_id offer_id answer p
                    (lookup (expecting_of request.peer_id offer_id) p.expecting_answers)
                  ∷ [],
              rw q refl,
              (
                ok,
                Sets-SamePeers receiver_id p p' t t' there (ap (λ x. identity (some x)) same) set,
                Sets-Expects receiver_id p p' t t'
                    (λ key o. if expecting_of request.peer_id offer_id == key then none else o)
                    there set looks,
              ),
            )
      ]

  answer_part_lem :
      (meta : InMessageMeta) (request : AnnounceRequest) (answer : Option RtcAnswer)
      (receiver_id offer_id : Option Bytes) (out : List Out) (t : TorrentData)
      → IsValid t
      → (t' : TorrentData) × (added : List Out) × (answer_part c meta request answer receiver_id
            offer_id out t
          ≡ (t', out ++ added))
        × Keeps (taken answer receiver_id offer_id request.peer_id) t t'
  unfolding answer_part
  answer_part_lem meta request (some answer) (some receiver_id) (some offer_id) out t valid_t =
      answer_some meta request answer receiver_id offer_id out t valid_t
  answer_part_lem meta request none receiver_id offer_id out t valid_t =
      (t, [], rw (append-nil out) refl, (valid_t, (λ j. refl), λ j key. refl))
  answer_part_lem meta request (some answer) none offer_id out t valid_t =
      (t, [], rw (append-nil out) refl, (valid_t, (λ j. refl), λ j key. refl))
  answer_part_lem meta request (some answer) (some receiver_id) none out t valid_t =
      (t, [], rw (append-nil out) refl, (valid_t, (λ j. refl), λ j key. refl))

  module _ (r : Rng) (config : Config) (now : SecondsSinceServerStart) (until : ValidUntil)
      (fresh : new_with_now now config.max_offer_age ≡ some until)
      (fits : config.max_offers + 1 < u64_mod) where
    offers_part_lem :
        (rng : r.Source) (request : AnnounceRequest) (offers : Option (List AnnounceRequestOffer))
        (out : List Out) (t : TorrentData) (p : Peer)
        → IsValid t
        → lookup request.peer_id t.peers ≡ some p
        → (t' : TorrentData) × (rng' : r.Source) × (receivers : List Receiver) × (offers_part c r
              config rng now request offers out t
            ≡ some (t', rng', out ++ offers_sent request offers receivers))
          × Keeps (given until offers receivers request.peer_id) t t'
    unfolding offers_part
    offers_part_lem rng request none out t p valid_t h =
        (t, rng, [], rw (append-nil out) refl, (valid_t, (λ j. refl), λ j key. refl))
    offers_part_lem rng request (some offers) out t p valid_t h =
        let (receivers, rng', t', p', (q, _, ok, set, same, looks)) =
          handle_offers_lem c r config now request.info_hash request.peer_id offers until rng out t
            p fresh fits valid_t h in
        (
          t',
          rng',
          receivers,
          q,
          (
            ok,
            Sets-SamePeers request.peer_id p p' t t' h (ap (λ x. identity (some x)) same) set,
            Sets-Expects request.peer_id p p' t t'
                (λ key o. if sent key offers receivers then some until else o) h set looks,
          ),
        )

    -- An announce of a peer that did not stop: the offers go out first, then the answer is handled.
    abbrev pub exchanged :
        AnnounceRequest
        → List Receiver
        → Bytes
        → ExpectingAnswer
        → Option ValidUntil
        → Option ValidUntil
    exchanged request receivers j key o =
        taken request.answer request.answer_to_peer_id request.answer_offer_id request.peer_id j key
          (given until request.offers receivers request.peer_id j key o)

    pub relay_active :
        (rng : r.Source) (meta : InMessageMeta) (request : AnnounceRequest) (out : List Out)
        (t : TorrentData) (p : Peer)
        → is_stopped (status_of request) ≡ false
        → IsValid t
        → lookup request.peer_id t.peers ≡ some p
        → (t' : TorrentData) × (rng' : r.Source) × (receivers : List Receiver) × (added : List Out)
          × (relay c r config rng now meta request out t
              ≡ some (t', rng', out ++ (offers_sent request request.offers receivers ++ added)))
          × Keeps (exchanged request receivers) t t'
    unfolding relay
    relay_active rng meta request out t p active valid_t h =
        let (t1, rng1, receivers, q1, (ok1, same1, expects1)) =
          offers_part_lem rng request request.offers out t p valid_t h in
        let passed = offers_sent request request.offers receivers in
        let (t2, added2, q2, (ok2, same2, expects2)) =
          answer_part_lem meta request request.answer request.answer_to_peer_id
            request.answer_offer_id (out ++ passed) t1 ok1 in
        (
          t2,
          rng1,
          receivers,
          added2,
          rw (active, q1, q2, append_assoc out passed added2) refl,
          (
            ok2,
            (λ j. same2 j ∙ same1 j),
            λ j key.
                expects2 j key
                ∙ ap
                    (taken request.answer request.answer_to_peer_id request.answer_offer_id
                      request.peer_id j key)
                    (expects1 j key),
          ),
        )
