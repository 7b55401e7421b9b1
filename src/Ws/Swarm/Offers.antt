-- ===== src/Ws/Swarm/Offers.antt =====
-- crates/ws/src/workers/swarm/storage.rs: `TorrentData::handle_offers` and `handle_answer`. The clock
-- is read once for each request.
pub mod Exchange
use tracker_enhanced.Prelude.{
  ℕ, Option, none, some, List, [], ◌∷◌, ◌++◌, ◌>>=◌, Eq, list_eq, nat_eq, length, min,
}
use tracker_enhanced.Prelude.Entries.{lookup, insert}
use tracker_enhanced.Crates.{Rng}
use tracker_enhanced.Common.Time.{SecondsSinceServerStart, ValidUntil, new_with_now}
use tracker_enhanced.UdpProtocol.Bytes.{Bytes}
use tracker_enhanced.Ws.Messages.{
  AnnounceRequestOffer, RtcAnswer, InMessageMeta, Out, out_meta, ErrorResponseAction, FailureReason,
  offer_out_message, answer_out_message, error_response,
}
use tracker_enhanced.Ws.Swarm.Sample.{extract_response_peers}
use tracker_enhanced.Ws.Swarm.Peers.{
  Expecting, expecting_answer_eq, expecting_of, Peer, TorrentData, Config, Containers,
}

-- A peer id, its connection and its consumer.
abbrev pub Receiver : Type 0
Receiver = Bytes × ℕ × ℕ

abbrev pub receiver_of : Bytes × Peer → Receiver
receiver_of (peer_id, peer) = (peer_id, peer.connection_id, peer.consumer_id)

abbrev pub offer_message : Bytes → Bytes → AnnounceRequestOffer → Receiver → Out
offer_message info_hash sender_peer_id offer (peer_id, connection_id, consumer_id) = (
  record {
    out_message_consumer_id = consumer_id;
    connection_id = connection_id;
    pending_scrape_id = none;
  },
  offer_out_message (record {
    peer_id = sender_peer_id;
    info_hash = info_hash;
    offer = offer.offer;
    offer_id = offer.offer_id;
  }),
)

abbrev pub answer_message : Bytes → Bytes → Bytes → RtcAnswer → Peer → Out
answer_message info_hash peer_id offer_id answer receiver = (
  record {
    out_message_consumer_id = receiver.consumer_id;
    connection_id = receiver.connection_id;
    pending_scrape_id = none;
  },
  answer_out_message
      (record { peer_id = peer_id; info_hash = info_hash; answer = answer; offer_id = offer_id }),
)

-- The answer to an offer that is not expected, or not any more.
abbrev pub unexpected_message : InMessageMeta → Bytes → Out
unexpected_message meta info_hash = (
  out_meta meta,
  error_response (record {
    failure_reason = FailureReason.offer_not_found;
    action = some ErrorResponseAction.announce;
    info_hash = some info_hash;
  }),
)

-- The reply to an answer, by whether it was expected.
abbrev pub reply :
    InMessageMeta → Bytes → Bytes → Bytes → RtcAnswer → Peer → Option ValidUntil → Out
reply meta info_hash peer_id offer_id answer receiver none = unexpected_message meta info_hash
reply meta info_hash peer_id offer_id answer receiver (some until) =
    answer_message info_hash peer_id offer_id answer receiver

module _ (c : Containers) where
  -- The loop over the offers, zipped with the receivers.
  unfoldable pub send_offers :
      Config
      → SecondsSinceServerStart
      → Bytes
      → Bytes
      → List AnnounceRequestOffer
      → List Receiver
      → Expecting
      → List Out
      → Option (Expecting × List Out)
  send_offers config now info_hash sender [] receivers expecting out = some (expecting, out)
  send_offers config now info_hash sender (offer ∷ offers) [] expecting out = some (expecting, out)
  send_offers config now info_hash sender (offer ∷ offers) (receiver ∷ receivers) expecting out = do
    valid_until ← new_with_now now config.max_offer_age
    send_offers config now info_hash sender offers receivers
        (c.expecting.map_insert expecting (expecting_of receiver.0 offer.offer_id) valid_until)
        (out ++ offer_message info_hash sender offer receiver ∷ [])

  -- `handle_answer`
  unfoldable pub handle_answer :
      InMessageMeta
      → Bytes
      → Bytes
      → Bytes
      → Bytes
      → RtcAnswer
      → TorrentData
      → TorrentData × Option Out
  handle_answer meta info_hash peer_id answer_receiver_id offer_id answer t =
      elim (lookup answer_receiver_id t.peers) [
        | none ↦ (t, none)
        | some receiver ↦
            let (expecting, removed) =
              c.expecting.map_swap_remove receiver.expecting_answers
                (expecting_of peer_id offer_id) in
            let t' : TorrentData = record t {
              peers =
                  insert answer_receiver_id (record receiver { expecting_answers = expecting })
                    t.peers;
            } in
            (t', some (reply meta info_hash peer_id offer_id answer receiver removed))
      ]

  module _ (r : Rng) where
    -- `handle_offers`
    unfoldable pub handle_offers :
        Config
        → r.Source
        → SecondsSinceServerStart
        → Bytes
        → Bytes
        → List AnnounceRequestOffer
        → List Out
        → TorrentData
        → Option (TorrentData × r.Source × List Out)
    handle_offers config rng now info_hash sender offers out t = do
      let max_num_peers_to_take = min (length offers) config.max_offers
      (receivers, rng) ←
          extract_response_peers c.peers sender receiver_of r rng t.peers max_num_peers_to_take
      elim (lookup sender t.peers) [
        | none ↦ some (t, rng, out)
        | some peer ↦ do
          (expecting, out) ←
              send_offers config now info_hash sender offers receivers peer.expecting_answers out
          some (
            record t {
              peers = insert sender (record peer { expecting_answers = expecting }) t.peers;
            },
            rng,
            out,
          )
      ]
