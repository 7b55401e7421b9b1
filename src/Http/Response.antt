-- ===== src/Http/Response.antt =====
-- crates/http_protocol/src/response.rs and utils.rs: the writing of bencoded responses, and the reading
-- of compact peers.
pub mod Compact
pub mod Bencode
use tracker_enhanced.Prelude.{
  ℕ, zero, suc, ◌+◌, ◌*◌, ◌/◌, ◌%◌, ◌≡◌, refl, ap, Option, none, some, List, [], ◌∷◌, ◌++◌, map,
  length, take, drop, eqb, if◌then◌else◌,
}
use tracker_enhanced.UdpProtocol.Bytes.{Bytes, to_be_bytes, from_be_bytes}
use tracker_enhanced.Http.Messages.{
  AnnounceResponse, ResponsePeer, ScrapeResponse, ScrapeStatistics,
}
use tracker_enhanced.Http.Numbers.{Itoa}

-- "d8:completei"
abbrev pub complete_text : Bytes
complete_text = 100 ∷ 56 ∷ 58 ∷ 99 ∷ 111 ∷ 109 ∷ 112 ∷ 108 ∷ 101 ∷ 116 ∷ 101 ∷ 105 ∷ []

-- "e10:incompletei"
abbrev pub incomplete_text : Bytes
incomplete_text =
    101 ∷ 49 ∷ 48 ∷ 58 ∷ 105 ∷ 110 ∷ 99 ∷ 111 ∷ 109 ∷ 112 ∷ 108 ∷ 101 ∷ 116 ∷ 101 ∷ 105 ∷ []

-- "e8:intervali"
abbrev pub interval_text : Bytes
interval_text = 101 ∷ 56 ∷ 58 ∷ 105 ∷ 110 ∷ 116 ∷ 101 ∷ 114 ∷ 118 ∷ 97 ∷ 108 ∷ 105 ∷ []

-- "e5:peers"
abbrev pub peers_text : Bytes
peers_text = 101 ∷ 53 ∷ 58 ∷ 112 ∷ 101 ∷ 101 ∷ 114 ∷ 115 ∷ []

-- "6:peers6"
abbrev pub peers6_text : Bytes
peers6_text = 54 ∷ 58 ∷ 112 ∷ 101 ∷ 101 ∷ 114 ∷ 115 ∷ 54 ∷ []

-- "15:warning message"
abbrev pub warning_text : Bytes
warning_text =
    49 ∷ 53 ∷ 58 ∷ 119 ∷ 97 ∷ 114 ∷ 110 ∷ 105 ∷ 110 ∷ 103 ∷ 32 ∷ 109 ∷ 101 ∷ 115 ∷ 115 ∷ 97 ∷ 103
    ∷ 101 ∷ []

-- "d5:filesd"
abbrev pub files_text : Bytes
files_text = 100 ∷ 53 ∷ 58 ∷ 102 ∷ 105 ∷ 108 ∷ 101 ∷ 115 ∷ 100 ∷ []

-- "20:"
abbrev pub hash_text : Bytes
hash_text = 50 ∷ 48 ∷ 58 ∷ []

-- "e10:downloadedi0e10:incompletei"
abbrev pub downloaded_text : Bytes
downloaded_text =
    101 ∷ 49 ∷ 48 ∷ 58 ∷ 100 ∷ 111 ∷ 119 ∷ 110 ∷ 108 ∷ 111 ∷ 97 ∷ 100 ∷ 101 ∷ 100 ∷ 105 ∷ 48 ∷ 101
    ∷ 49 ∷ 48 ∷ 58 ∷ 105 ∷ 110 ∷ 99 ∷ 111 ∷ 109 ∷ 112 ∷ 108 ∷ 101 ∷ 116 ∷ 101 ∷ 105 ∷ []

-- "ee"
abbrev pub end_text : Bytes
end_text = 101 ∷ 101 ∷ []

-- "d14:failure reason"
abbrev pub failure_text : Bytes
failure_text =
    100 ∷ 49 ∷ 52 ∷ 58 ∷ 102 ∷ 97 ∷ 105 ∷ 108 ∷ 117 ∷ 114 ∷ 101 ∷ 32 ∷ 114 ∷ 101 ∷ 97 ∷ 115 ∷ 111
    ∷ 110 ∷ []

-- An address and a port; both kinds of address are their bytes.
abbrev pub peer_bytes : ResponsePeer Bytes → Bytes
peer_bytes peer = peer.ip_address ++ to_be_bytes 2 peer.port

-- The loop over the peers, which `serialize_response_peers_ipv4` and `_ipv6` have as well.
unfoldable pub peers_bytes : List (ResponsePeer Bytes) → Bytes
peers_bytes [] = []
peers_bytes (peer ∷ peers) = peer_bytes peer ++ peers_bytes peers

-- `chunks_exact`, for so many chunks.
unfoldable pub chunks_exact : ℕ → ℕ → Bytes → List Bytes
chunks_exact zero size value = []
chunks_exact (suc n) size value = take size value ∷ chunks_exact n size (drop size value)

abbrev pub to_peer : ℕ → Bytes → ResponsePeer Bytes
to_peer address_len chunk = record {
  ip_address = take address_len chunk;
  port = from_be_bytes (drop address_len chunk);
}

-- `visit_bytes` of the visitors for peers; `none` is the error about trailing bytes.
unfoldable pub visit_bytes : ℕ → Bytes → Option (List (ResponsePeer Bytes))
visit_bytes address_len value =
    let size = address_len + 2 in
    if eqb (length value % size) 0
    then some (map (to_peer address_len) (chunks_exact (length value / size) size value))
    else none

pub data Response : Type 0 where
  announce : AnnounceResponse → Response
  scrape : ScrapeResponse → Response
  failure : Bytes → Response

module _ (itoa : Itoa) where
  abbrev pub warning_part : Option Bytes → Bytes
  warning_part none = []
  warning_part (some message) = warning_text ++ (itoa.format (length message) ++ (58 ∷ message))

  -- `AnnounceResponse::write_bytes`
  unfoldable pub write_announce : AnnounceResponse → Bytes
  write_announce r =
      complete_text
      ++ (itoa.format r.complete
          ++ (incomplete_text
              ++ (itoa.format r.incomplete
                  ++ (interval_text
                      ++ (itoa.format r.announce_interval
                          ++ (peers_text
                              ++ (itoa.format (length r.peers * 6)
                                  ++ (58
                                      ∷ (peers_bytes r.peers
                                          ++ (peers6_text
                                              ++ (itoa.format (length r.peers6 * 18)
                                                  ++ (58
                                                      ∷ (peers_bytes r.peers6
                                                          ++ (warning_part r.warning_message
                                                            ++ (101 ∷ [])))))))))))))))

  abbrev pub write_file : Bytes × ScrapeStatistics → Bytes
  write_file (info_hash, statistics) =
      hash_text
      ++ (info_hash
          ++ (complete_text
              ++ (itoa.format statistics.complete
                  ++ (downloaded_text ++ (itoa.format statistics.incomplete ++ end_text)))))

  -- The loop of `ScrapeResponse::write_bytes`.
  unfoldable pub write_files : List (Bytes × ScrapeStatistics) → Bytes
  write_files [] = []
  write_files (file ∷ files) = write_file file ++ write_files files

  -- `ScrapeResponse::write_bytes`
  unfoldable pub write_scrape : ScrapeResponse → Bytes
  write_scrape r = files_text ++ (write_files r.files ++ end_text)

  -- `FailureResponse::write_bytes`
  unfoldable pub write_failure : Bytes → Bytes
  write_failure failure_reason =
      failure_text ++ (itoa.format (length failure_reason) ++ (58 ∷ (failure_reason ++ (101 ∷ []))))

  -- `Response::write_bytes`
  unfoldable pub write_bytes : Response → Bytes
  write_bytes (announce r) = write_announce r
  write_bytes (scrape r) = write_scrape r
  write_bytes (failure failure_reason) = write_failure failure_reason
