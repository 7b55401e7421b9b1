-- ===== src/UdpProtocol/Messages.antt =====
-- crates/udp_protocol/src: the structs of common.rs, request.rs and response.rs with their packed
-- layouts. A wire integer is its bytes in network order, an array `[u8; n]` is a list.
use Prim.Native.String.{String}
use tracker_enhanced.Prelude.{
  ℕ, ◌≡◌, refl, Bool, true, ◌&&◌, ◌↔◌, List, [], ◌∷◌, arith, Eq, ◌==◌, nat_eq, list_eq,
}
use tracker_enhanced.UdpProtocol.Bytes.{Bytes}
use tracker_enhanced.UdpProtocol.Layout.{Packed, first, later, spread-Fits}

-- common.rs
pub record ResponsePeer (I : Type 0) : Type 0 where
  pub ip_address : I
  pub port : Bytes

module _ {I : Type 0} ⦃e : Eq I⦄ where
  unfoldable pub response_peer_beq : ResponsePeer I → ResponsePeer I → Bool
  response_peer_beq a b = a.ip_address == b.ip_address && a.port == b.port

  pub response_peer_beq_iff : (a b : ResponsePeer I) → (response_peer_beq a b ≡ true) ↔ (a ≡ b)
  unfolding response_peer_beq
  response_peer_beq_iff a b = (
    λ h. ground (arith, e.beq_iff a.ip_address b.ip_address, port.beq_iff a.port b.port),
    λ h. ground (arith, e.beq_iff a.ip_address b.ip_address, port.beq_iff a.port b.port),
  )
    where
      port : Eq Bytes
      port = list_eq

  instance abbrev pub response_peer_eq : Eq (ResponsePeer I)
  response_peer_eq = record { beq = response_peer_beq; beq_iff = response_peer_beq_iff }

-- The layout of a peer whose address takes `n` bytes (`Ipv4AddrBytes`: 4, `Ipv6AddrBytes`: 16).
abbrev pub response_peer_fields : ResponsePeer Bytes → List Bytes
response_peer_fields r = r.ip_address ∷ r.port ∷ []

abbrev pub response_peer_build : List Bytes → ResponsePeer Bytes
response_peer_build fs = record { ip_address = first fs; port = first (later 1 fs) }

abbrev pub response_peer_packed : ℕ → Packed (ResponsePeer Bytes)
response_peer_packed n = record {
  sizes = n ∷ 2 ∷ [];
  fields = response_peer_fields;
  build = response_peer_build;
  build-fields = λ x. refl;
  fields-build = spread-Fits (n ∷ 2 ∷ []);
}

-- request.rs
pub record AnnounceRequest : Type 0 where
  pub connection_id : Bytes
  pub action_placeholder : Bytes
  pub transaction_id : Bytes
  pub info_hash : Bytes
  pub peer_id : Bytes
  pub bytes_downloaded : Bytes
  pub bytes_left : Bytes
  pub bytes_uploaded : Bytes
  pub event : Bytes
  pub ip_address : Bytes
  pub key : Bytes
  pub peers_wanted : Bytes
  pub port : Bytes

abbrev pub announce_request_sizes : List ℕ
announce_request_sizes = 8 ∷ 4 ∷ 4 ∷ 20 ∷ 20 ∷ 8 ∷ 8 ∷ 8 ∷ 4 ∷ 4 ∷ 4 ∷ 4 ∷ 2 ∷ []

abbrev pub announce_request_fields : AnnounceRequest → List Bytes
announce_request_fields r =
    r.connection_id ∷ r.action_placeholder ∷ r.transaction_id ∷ r.info_hash ∷ r.peer_id
    ∷ r.bytes_downloaded ∷ r.bytes_left ∷ r.bytes_uploaded ∷ r.event ∷ r.ip_address ∷ r.key
    ∷ r.peers_wanted ∷ r.port ∷ []

abbrev pub announce_request_build : List Bytes → AnnounceRequest
announce_request_build fs = record {
  connection_id = first fs;
  action_placeholder = first (later 1 fs);
  transaction_id = first (later 1 (later 1 fs));
  info_hash = first (later 1 (later 1 (later 1 fs)));
  peer_id = first (later 1 (later 1 (later 1 (later 1 fs))));
  bytes_downloaded = first (later 1 (later 1 (later 1 (later 1 (later 1 fs)))));
  bytes_left = first (later 1 (later 1 (later 1 (later 1 (later 1 (later 1 fs))))));
  bytes_uploaded = first (later 1 (later 1 (later 1 (later 1 (later 1 (later 1 (later 1 fs)))))));
  event = first (later 1 (later 1 (later 1 (later 1 (later 1 (later 1 (later 1 (later 1 fs))))))));
  ip_address =
      first (
        later 1 (later 1 (later 1 (later 1 (later 1 (later 1 (later 1 (later 1 (later 1 fs)))))))));
  key = first (
      later 1 (
        later 1
          (later 1 (later 1 (later 1 (later 1 (later 1 (later 1 (later 1 (later 1 fs))))))))));
  peers_wanted = first (
      later 1 (
        later 1 (
          later 1
            (later 1 (later 1 (later 1 (later 1 (later 1 (later 1 (later 1 (later 1 fs)))))))))));
  port = first (
      later 1 (
        later 1 (
          later 1 (
            later 1 (
              later 1 (later 1 (later 1 (later 1 (later 1 (later 1 (later 1 (later 1 fs))))))))))));
}

abbrev pub announce_request_packed : Packed AnnounceRequest
announce_request_packed = record {
  sizes = announce_request_sizes;
  fields = announce_request_fields;
  build = announce_request_build;
  build-fields = λ x. refl;
  fields-build = spread-Fits announce_request_sizes;
}

pub record ConnectRequest : Type 0 where
  pub transaction_id : Bytes

pub record ScrapeRequest : Type 0 where
  pub connection_id : Bytes
  pub transaction_id : Bytes
  pub info_hashes : List Bytes

pub data Request : Type 0 where
  connect : ConnectRequest → Request
  announce : AnnounceRequest → Request
  scrape : ScrapeRequest → Request

pub data AnnounceEvent : Type 0 where
  started stopped completed none : AnnounceEvent

pub data RequestParseError : Type 0 where
  sendable : Bytes → Bytes → String → RequestParseError
  unsendable_io : RequestParseError
  unsendable_text : String → RequestParseError

-- response.rs
pub record ConnectResponse : Type 0 where
  pub transaction_id : Bytes
  pub connection_id : Bytes

abbrev pub connect_response_sizes : List ℕ
connect_response_sizes = 4 ∷ 8 ∷ []

abbrev pub connect_response_fields : ConnectResponse → List Bytes
connect_response_fields r = r.transaction_id ∷ r.connection_id ∷ []

abbrev pub connect_response_build : List Bytes → ConnectResponse
connect_response_build fs = record { transaction_id = first fs; connection_id = first (later 1 fs) }

abbrev pub connect_response_packed : Packed ConnectResponse
connect_response_packed = record {
  sizes = connect_response_sizes;
  fields = connect_response_fields;
  build = connect_response_build;
  build-fields = λ x. refl;
  fields-build = spread-Fits connect_response_sizes;
}

pub record AnnounceResponseFixedData : Type 0 where
  pub transaction_id : Bytes
  pub announce_interval : Bytes
  pub leechers : Bytes
  pub seeders : Bytes

abbrev pub announce_response_fixed_data_sizes : List ℕ
announce_response_fixed_data_sizes = 4 ∷ 4 ∷ 4 ∷ 4 ∷ []

abbrev pub announce_response_fixed_data_fields : AnnounceResponseFixedData → List Bytes
announce_response_fixed_data_fields r =
    r.transaction_id ∷ r.announce_interval ∷ r.leechers ∷ r.seeders ∷ []

abbrev pub announce_response_fixed_data_build : List Bytes → AnnounceResponseFixedData
announce_response_fixed_data_build fs = record {
  transaction_id = first fs;
  announce_interval = first (later 1 fs);
  leechers = first (later 1 (later 1 fs));
  seeders = first (later 1 (later 1 (later 1 fs)));
}

abbrev pub announce_response_fixed_data_packed : Packed AnnounceResponseFixedData
announce_response_fixed_data_packed = record {
  sizes = announce_response_fixed_data_sizes;
  fields = announce_response_fixed_data_fields;
  build = announce_response_fixed_data_build;
  build-fields = λ x. refl;
  fields-build = spread-Fits announce_response_fixed_data_sizes;
}

pub record TorrentScrapeStatistics : Type 0 where
  pub seeders : Bytes
  pub completed : Bytes
  pub leechers : Bytes

abbrev pub torrent_scrape_statistics_sizes : List ℕ
torrent_scrape_statistics_sizes = 4 ∷ 4 ∷ 4 ∷ []

abbrev pub torrent_scrape_statistics_fields : TorrentScrapeStatistics → List Bytes
torrent_scrape_statistics_fields r = r.seeders ∷ r.completed ∷ r.leechers ∷ []

abbrev pub torrent_scrape_statistics_build : List Bytes → TorrentScrapeStatistics
torrent_scrape_statistics_build fs = record {
  seeders = first fs;
  completed = first (later 1 fs);
  leechers = first (later 1 (later 1 fs));
}

abbrev pub torrent_scrape_statistics_packed : Packed TorrentScrapeStatistics
torrent_scrape_statistics_packed = record {
  sizes = torrent_scrape_statistics_sizes;
  fields = torrent_scrape_statistics_fields;
  build = torrent_scrape_statistics_build;
  build-fields = λ x. refl;
  fields-build = spread-Fits torrent_scrape_statistics_sizes;
}

pub record AnnounceResponse (I : Type 0) : Type 0 where
  pub fixed : AnnounceResponseFixedData
  pub peers : List (ResponsePeer I)

pub record ScrapeResponse : Type 0 where
  pub transaction_id : Bytes
  pub torrent_stats : List TorrentScrapeStatistics

pub record ErrorResponse : Type 0 where
  pub transaction_id : Bytes
  pub message : Bytes

pub data Response : Type 0 where
  connect : ConnectResponse → Response
  announce_ipv4 : AnnounceResponse Bytes → Response
  announce_ipv6 : AnnounceResponse Bytes → Response
  scrape : ScrapeResponse → Response
  error : ErrorResponse → Response

-- An info hash as a struct of one field.
abbrev pub info_hash_packed : Packed Bytes
info_hash_packed = record {
  sizes = 20 ∷ [];
  fields = λ h. h ∷ [];
  build = first;
  build-fields = λ h. refl;
  fields-build = spread-Fits (20 ∷ []);
}
