-- ===== src/Ws/Messages.antt =====
-- The messages of crates/ws_protocol/src, and what crates/ws/src/common.rs sends along with them. The
-- fields that always hold one value (`action`, the type of an offer or an answer) are left out.
use tracker_enhanced.Prelude.{ℕ, Option, List, [], ◌∷◌}
use tracker_enhanced.UdpProtocol.Bytes.{Bytes}

pub data IpVersion : Type 0 where
  v4 v6 : IpVersion

pub data AnnounceEvent : Type 0 where
  started stopped completed update : AnnounceEvent

pub record RtcOffer : Type 0 where
  pub sdp : Bytes

pub record RtcAnswer : Type 0 where
  pub sdp : Bytes

pub record AnnounceRequestOffer : Type 0 where
  pub offer : RtcOffer
  pub offer_id : Bytes

pub record AnnounceRequest : Type 0 where
  pub info_hash : Bytes
  pub peer_id : Bytes
  pub bytes_left : Option ℕ
  pub event : Option AnnounceEvent
  pub offers : Option (List AnnounceRequestOffer)
  pub numwant : Option ℕ
  pub answer : Option RtcAnswer
  pub answer_to_peer_id : Option Bytes
  pub answer_offer_id : Option Bytes

pub data ScrapeRequestInfoHashes : Type 0 where
  single : Bytes → ScrapeRequestInfoHashes
  multiple : List Bytes → ScrapeRequestInfoHashes

-- `ScrapeRequestInfoHashes::as_vec`
abbrev pub as_vec : ScrapeRequestInfoHashes → List Bytes
as_vec (single info_hash) = info_hash ∷ []
as_vec (multiple info_hashes) = info_hashes

pub record ScrapeRequest : Type 0 where
  pub info_hashes : Option ScrapeRequestInfoHashes

pub record AnnounceResponse : Type 0 where
  pub info_hash : Bytes
  pub complete : ℕ
  pub incomplete : ℕ
  pub announce_interval : ℕ

pub record OfferOutMessage : Type 0 where
  pub peer_id : Bytes
  pub info_hash : Bytes
  pub offer : RtcOffer
  pub offer_id : Bytes

pub record AnswerOutMessage : Type 0 where
  pub peer_id : Bytes
  pub info_hash : Bytes
  pub answer : RtcAnswer
  pub offer_id : Bytes

pub record ScrapeStatistics : Type 0 where
  pub complete : ℕ
  pub incomplete : ℕ
  pub downloaded : ℕ

-- The files are a hash map, as its entries.
pub record ScrapeResponse : Type 0 where
  pub files : List (Bytes × ScrapeStatistics)

pub data ErrorResponseAction : Type 0 where
  announce scrape : ErrorResponseAction

-- The only reason that the swarm gives.
pub data FailureReason : Type 0 where
  offer_not_found : FailureReason

pub record ErrorResponse : Type 0 where
  pub failure_reason : FailureReason
  pub action : Option ErrorResponseAction
  pub info_hash : Option Bytes

pub data OutMessage : Type 0 where
  offer_out_message : OfferOutMessage → OutMessage
  answer_out_message : AnswerOutMessage → OutMessage
  announce_response : AnnounceResponse → OutMessage
  scrape_response : ScrapeResponse → OutMessage
  error_response : ErrorResponse → OutMessage

-- Consumers, connections and pending scrapes are named by numbers.
pub record InMessageMeta : Type 0 where
  pub out_message_consumer_id : ℕ
  pub connection_id : ℕ
  pub ip_version : IpVersion
  pub pending_scrape_id : Option ℕ

pub record OutMessageMeta : Type 0 where
  pub out_message_consumer_id : ℕ
  pub connection_id : ℕ
  pub pending_scrape_id : Option ℕ

-- `OutMessageMeta::from`
abbrev pub out_meta : InMessageMeta → OutMessageMeta
out_meta val = record {
  out_message_consumer_id = val.out_message_consumer_id;
  connection_id = val.connection_id;
  pending_scrape_id = val.pending_scrape_id;
}

abbrev pub Out : Type 0
Out = OutMessageMeta × OutMessage
