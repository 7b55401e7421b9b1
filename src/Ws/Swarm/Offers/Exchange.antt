-- ===== src/Ws/Swarm/Offers/Exchange.antt =====
-- Offers go out with an answer expected to each, and an answer is passed on once.
use mathlib.Core.List.{append_assoc, append-nil}
use tracker_enhanced.Prelude.{
  ◌+◌, ◌<◌, ◌≡◌, refl, ap, ◌∙◌, Bool, false, ◌||◌, none, some, List, [], ◌∷◌, ◌++◌, arith, ◌==◌,
  list_eq, nat_eq, if◌then◌else◌, length, min, u64_mod, eq_self, Bool-cases, inl, inr,
}
use tracker_enhanced.Prelude.Entries.{
  lookup, insert, swap_remove, Distinct, lookup-insert, insert-Distinct, lookup-swap_remove,
  swap_remove-Distinct,
}
use tracker_enhanced.Crates.{Rng}
use tracker_enhanced.Common.Time.{SecondsSinceServerStart, ValidUntil, new_with_now}
use tracker_enhanced.UdpProtocol.Bytes.{Bytes}
use tracker_enhanced.Ws.Messages.{AnnounceRequestOffer, RtcAnswer, InMessageMeta, Out}
use tracker_enhanced.Ws.Swarm.Sample.Bounds.{Picked, extract_response_peers_sound}
use tracker_enhanced.Ws.Swarm.Peers.{
  ExpectingAnswer, Expecting, expecting_answer_eq, expecting_of, Peer, TorrentData, Config,
  Containers,
}
use tracker_enhanced.Ws.Swarm.Peers.Counting.{IsValid, Sets, written}
use tracker_enhanced.Ws.Swarm.Offers.{
  Receiver, receiver_of, offer_message, unexpected_message, reply, send_offers, handle_answer,
  handle_offers,
}

-- The messages that pass offers on, one for each pair of an offer and a receiver.
unfoldable pub offer_messages : Bytes → Bytes → List AnnounceRequestOffer → List Receiver → List Out
offer_messages info_hash sender [] receivers = []
offer_messages info_hash sender (offer ∷ offers) [] = []
offer_messages info_hash sender (offer ∷ offers) (receiver ∷ receivers) =
    offer_message info_hash sender offer receiver ∷ offer_messages info_hash sender offers receivers

-- Whether one of these offers went to a peer, so that its answer is expected.
unfoldable pub sent : ExpectingAnswer → List AnnounceRequestOffer → List Receiver → Bool
sent key [] receivers = false
sent key (offer ∷ offers) [] = false
sent key (offer ∷ offers) (receiver ∷ receivers) =
    sent key offers receivers || (expecting_of receiver.0 offer.offer_id == key)

module _ (c : Containers) (config : Config) (now : SecondsSinceServerStart) (until : ValidUntil)
    (fresh : new_with_now now config.max_offer_age ≡ some until) where
  -- What is expected after some offers went out.
  abbrev pub Expected : Expecting → List AnnounceRequestOffer → List Receiver → Expecting → Type 0
  Expected old offers receivers expecting =
      Distinct expecting
      × ((key : ExpectingAnswer)
          → lookup key expecting
            ≡ (if sent key offers receivers then some until else lookup key old))

  send_offers_lem :
      (info_hash sender : Bytes) (offers : List AnnounceRequestOffer) (receivers : List Receiver)
      (old : Expecting) (out : List Out)
      → Distinct old
      → (expecting : Expecting) × (send_offers c config now info_hash sender offers receivers old
            out
          ≡ some (expecting, out ++ offer_messages info_hash sender offers receivers))
        × Expected old offers receivers expecting
  unfolding send_offers offer_messages sent
  send_offers_lem info_hash sender [] receivers old out d =
      (old, rw (append-nil out) refl, (d, λ key. refl))
  send_offers_lem info_hash sender (offer ∷ offers) [] old out d =
      (old, rw (append-nil out) refl, (d, λ key. refl))
  send_offers_lem info_hash sender (offer ∷ offers) (receiver ∷ receivers) old out d =
      let key = expecting_of receiver.0 offer.offer_id in
      let message = offer_message info_hash sender offer receiver in
      let (expecting, q, (d', looks)) =
        send_offers_lem info_hash sender offers receivers (insert key until old)
          (out ++ message ∷ []) (insert-Distinct key until old d) in
      (
        expecting,
        rw
            (
              fresh,
              c.expecting.map_insert_lem old key until d,
              q,
              append_assoc out (message ∷ []) (offer_messages info_hash sender offers receivers),
            )
            refl,
        (
          d',
          λ k. looks k ∙ elim (Bool-cases (sent k offers receivers)) [
            | inl later ↦ rw later refl
            | inr never ↦ rw never (lookup-insert key k until old)
          ],
        ),
      )

-- Only the answers that a peer expects change.
abbrev pub expecting_set : TorrentData → Bytes → Peer → Expecting → TorrentData
expecting_set t id p expecting = record t {
  peers = insert id (record p { expecting_answers = expecting }) t.peers;
}

module _ (c : Containers) (t : TorrentData) (valid_t : IsValid t) where
  pub expecting_set_lem :
      (id : Bytes) (p : Peer) (expecting : Expecting)
      → lookup id t.peers ≡ some p
      → Distinct expecting
      → IsValid (expecting_set t id p expecting)
        × Sets id
            (some (record p { expecting_answers = expecting }))
            t
            (expecting_set t id p expecting)
  expecting_set_lem id p expecting h d =
      written c t valid_t id (record p { expecting_answers = expecting }) t.num_seeders
        (rw h (omega arith)) d

  handle_answer_lem :
      (meta : InMessageMeta) (info_hash peer_id receiver_id offer_id : Bytes) (answer : RtcAnswer)
      (p : Peer)
      → lookup receiver_id t.peers ≡ some p
      → (let key = expecting_of peer_id offer_id in
          handle_answer c meta info_hash peer_id receiver_id offer_id answer t ≡ (
            expecting_set t receiver_id p (swap_remove key p.expecting_answers),
            some (reply meta info_hash peer_id offer_id answer p (lookup key p.expecting_answers)),
          ))
  unfolding handle_answer
  handle_answer_lem meta info_hash peer_id receiver_id offer_id answer p h =
      rw
        (
          h,
          handle_answer,
          c.expecting.map_swap_remove_lem p.expecting_answers (expecting_of peer_id offer_id)
              (valid_t.expects receiver_id p h),
        )
        refl

module _ (c : Containers) (meta : InMessageMeta) (info_hash peer_id receiver_id offer_id : Bytes)
    (answer : RtcAnswer) where
  refused :
      (t : TorrentData) (valid_t : IsValid t) (p : Peer)
      → lookup receiver_id t.peers ≡ some p
      → lookup (expecting_of peer_id offer_id) p.expecting_answers ≡ none
      → (handle_answer c meta info_hash peer_id receiver_id offer_id answer t).1
        ≡ some (unexpected_message meta info_hash)
  refused t valid_t p h absent =
      ap (λ x. x.1)
        (handle_answer_lem c t valid_t meta info_hash peer_id receiver_id offer_id answer p h)
      ∙ ap (λ o. some (reply meta info_hash peer_id offer_id answer p o)) absent

  -- What an answer leaves of the torrent and of the peer that it is for, and the reply to it; the
  -- same answer again is refused.
  abbrev pub AnsweredOnce : TorrentData → Peer → TorrentData → Peer → Type 0
  AnsweredOnce t p t' p' =
      (handle_answer c meta info_hash peer_id receiver_id offer_id answer t ≡ (
        t',
        some (
            reply meta info_hash peer_id offer_id answer p
              (lookup (expecting_of peer_id offer_id) p.expecting_answers)),
      ))
      × IsValid t'
      × Sets receiver_id (some p') t t'
      × (p' ≡ record p { expecting_answers = p'.expecting_answers })
      × ((k : ExpectingAnswer)
          → lookup k p'.expecting_answers
            ≡ (if expecting_of peer_id offer_id == k then none else lookup k p.expecting_answers))
      × ((handle_answer c meta info_hash peer_id receiver_id offer_id answer t').1
          ≡ some (unexpected_message meta info_hash))

  pub handle_answer_missing :
      (t : TorrentData)
      → lookup receiver_id t.peers ≡ none
      → handle_answer c meta info_hash peer_id receiver_id offer_id answer t ≡ (t, none)
  unfolding handle_answer
  handle_answer_missing t h = rw (h, handle_answer) refl

  -- An answer that is expected is passed on to the peer that made the offer, on its connection, and
  -- is not expected any more; one that is not is refused to its sender. No other peer changes.
  pub handle_answer_once :
      (t : TorrentData) (p : Peer)
      → IsValid t
      → lookup receiver_id t.peers ≡ some p
      → (t' : TorrentData) × (p' : Peer) × AnsweredOnce t p t' p'
  handle_answer_once t p valid_t h =
      let key = expecting_of peer_id offer_id in
      let d = valid_t.expects receiver_id p h in
      let expecting = swap_remove key p.expecting_answers in
      let t' = expecting_set t receiver_id p expecting in
      let p' : Peer = record p { expecting_answers = expecting } in
      let (ok, set) =
        expecting_set_lem c t valid_t receiver_id p expecting h
          (swap_remove-Distinct key p.expecting_answers d) in
      (
        t',
        p',
        (
          handle_answer_lem c t valid_t meta info_hash peer_id receiver_id offer_id answer p h,
          ok,
          set,
          refl,
          (λ k. lookup-swap_remove key k p.expecting_answers d),
          refused t' ok p' (ground (arith, set receiver_id, eq_self receiver_id))
              (ground (arith, lookup-swap_remove key key p.expecting_answers d, eq_self key)),
        ),
      )

module _ (c : Containers) (r : Rng) (config : Config) (now : SecondsSinceServerStart)
    (info_hash sender : Bytes) (offers : List AnnounceRequestOffer) where
  -- What offers leave of the torrent and of their sender, and the messages: one for each of the
  -- first offers, to different peers of the torrent other than the sender, each with an answer
  -- expected until an instant.
  abbrev pub Offered :
      ValidUntil
      → r.Source
      → List Out
      → TorrentData
      → Peer
      → List Receiver
      → r.Source
      → TorrentData
      → Peer
      → Type 0
  Offered until rng out t p receivers rng' t' p' =
      (handle_offers c r config rng now info_hash sender offers out t
        ≡ some (t', rng', out ++ offer_messages info_hash sender offers receivers))
      × Picked c.peers sender receiver_of t.peers (min (length offers) config.max_offers) receivers
      × IsValid t'
      × Sets sender (some p') t t'
      × (p' ≡ record p { expecting_answers = p'.expecting_answers })
      × ((key : ExpectingAnswer)
          → lookup key p'.expecting_answers
            ≡ (if sent key offers receivers then some until else lookup key p.expecting_answers))

  pub handle_offers_lem :
      (until : ValidUntil) (rng : r.Source) (out : List Out) (t : TorrentData) (p : Peer)
      → new_with_now now config.max_offer_age ≡ some until
      → config.max_offers + 1 < u64_mod
      → IsValid t
      → lookup sender t.peers ≡ some p
      → (receivers : List Receiver) × (rng' : r.Source) × (t' : TorrentData) × (p' : Peer) × Offered
          until rng out t p receivers rng' t' p'
  unfolding handle_offers
  handle_offers_lem until rng out t p fresh fits valid_t h =
      let limit = min (length offers) config.max_offers in
      let (receivers, rng', q, picked) =
        extract_response_peers_sound c.peers sender receiver_of r rng t.peers limit valid_t.distinct
          (omega arith) in
      let (expecting, q', (d, looks)) =
        send_offers_lem c config now until fresh info_hash sender offers receivers
          p.expecting_answers out (valid_t.expects sender p h) in
      let (ok, set) = expecting_set_lem c t valid_t sender p expecting h d in
      (
        receivers,
        rng',
        expecting_set t sender p expecting,
        record p { expecting_answers = expecting },
        (rw (q, h, q') refl, picked, ok, set, refl, looks),
      )
