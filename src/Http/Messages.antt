-- ===== src/Http/Messages.antt =====
-- The requests and responses of crates/http_protocol/src, as the swarm sees them.
use tracker_enhanced.Prelude.{ℕ, ◌≡◌, ◌↔◌, Bool, true, ◌&&◌, Option, List, arith, Eq, ◌==◌, eqb}
use tracker_enhanced.UdpProtocol.Bytes.{Bytes}

pub data AnnounceEvent : Type 0 where
  started stopped completed empty : AnnounceEvent

pub record AnnounceRequest : Type 0 where
  pub info_hash : Bytes
  pub peer_id : Bytes
  pub port : ℕ
  pub bytes_uploaded : ℕ
  pub bytes_downloaded : ℕ
  pub bytes_left : ℕ
  pub event : AnnounceEvent
  pub numwant : Option ℕ
  pub key : Option Bytes

pub record ScrapeRequest : Type 0 where
  pub info_hashes : List Bytes

pub record ResponsePeer (I : Type 0) : Type 0 where
  pub ip_address : I
  pub port : ℕ

abbrev pub response_peer_beq : {I : Type 0} ⦃e : Eq I⦄ → ResponsePeer I → ResponsePeer I → Bool
response_peer_beq a b = a.ip_address == b.ip_address && eqb a.port b.port

pub response_peer_beq_iff :
    {I : Type 0} ⦃e : Eq I⦄ (a b : ResponsePeer I) → (response_peer_beq a b ≡ true) ↔ (a ≡ b)
response_peer_beq_iff ⦃e⦄ a b = (
  λ h. ground (arith, e.beq_iff a.ip_address b.ip_address),
  λ h. ground (arith, e.beq_iff a.ip_address b.ip_address),
)

instance abbrev pub response_peer_eq : {I : Type 0} ⦃e : Eq I⦄ → Eq (ResponsePeer I)
response_peer_eq = record { beq = response_peer_beq; beq_iff = response_peer_beq_iff }

pub record AnnounceResponse : Type 0 where
  pub announce_interval : ℕ
  pub complete : ℕ
  pub incomplete : ℕ
  pub peers : List (ResponsePeer Bytes)
  pub peers6 : List (ResponsePeer Bytes)
  pub warning_message : Option Bytes

pub record ScrapeStatistics : Type 0 where
  pub complete : ℕ
  pub incomplete : ℕ
  pub downloaded : ℕ

-- The files are a map in the order of the info hashes, as its entries.
pub record ScrapeResponse : Type 0 where
  pub files : List (Bytes × ScrapeStatistics)
