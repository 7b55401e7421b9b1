-- ===== src/Tests/Packets.antt =====
-- Witnesses for the protocol.
use tracker_enhanced.Prelude.{◌≡◌, refl, true, [], ◌∷◌, ◌++◌, arith}
use tracker_enhanced.UdpProtocol.Bytes.{
  Bytes, to_be_bytes, get_u16, from_be, get_i32, get_i64, read_exact,
}
use tracker_enhanced.UdpProtocol.Layout.Copying.{copying}
use tracker_enhanced.UdpProtocol.Messages.{Request, Response, AnnounceEvent}
use tracker_enhanced.UdpProtocol.Request as Requests
use tracker_enhanced.UdpProtocol.Request.{
  write_bytes, event_from_bytes, event_to_bytes, protocol_identifier,
}
use tracker_enhanced.UdpProtocol.Request.Roundtrip.{parse_bytes-write_bytes}
use tracker_enhanced.UdpProtocol.Request.Soundness.{parse_bytes_sound, Accepted}
use tracker_enhanced.UdpProtocol.Response as Responses
use tracker_enhanced.UdpProtocol.Response.Roundtrip.{parse_bytes-write_bytes_response}
use tracker_enhanced.Tests.Data.{announce_request, repeat}

parse_bytes-write_bytes_example :
    Requests.parse_bytes copying (Requests.write_bytes (Request.announce announce_request)) 70
    ≡ Requests.ok (Request.announce announce_request)
unfolding to_be_bytes get_u16 from_be
parse_bytes-write_bytes_example =
    parse_bytes-write_bytes copying 70 (Request.announce announce_request) (
      (
        refl,
        (
          refl,
          (
            refl,
            (refl, (refl, (refl, (refl, (refl, (refl, (refl, (refl, (refl, (refl, tt)))))))))),
          ),
        ),
      ),
      refl,
      (λ h. ground arith),
      (AnnounceEvent.completed, refl),
    )

-- A connect request, with bytes behind it that are not read.
abbrev connect_packet : Bytes
connect_packet = to_be_bytes 8 protocol_identifier ++ to_be_bytes 4 0 ++ 1 ∷ 2 ∷ 3 ∷ 4 ∷ 255 ∷ []

abbrev connect_request : Request
connect_request = Request.connect (record { transaction_id = 1 ∷ 2 ∷ 3 ∷ 4 ∷ [] })

parse_bytes_sound_example : Accepted connect_packet 70 connect_request
unfolding to_be_bytes from_be get_i32 get_i64 read_exact Requests.parse_bytes Requests.parse_action
    Requests.parse_connect Requests.action_bytes
parse_bytes_sound_example = parse_bytes_sound copying connect_packet 70 connect_request refl

abbrev announce_response : Response
announce_response = Response.announce_ipv4 (record {
  fixed = record {
    transaction_id = repeat 4 7;
    announce_interval = to_be_bytes 4 900;
    leechers = to_be_bytes 4 1;
    seeders = to_be_bytes 4 0;
  };
  peers = record { ip_address = 10 ∷ 0 ∷ 0 ∷ 1 ∷ []; port = to_be_bytes 2 6881 } ∷ [];
})

parse_bytes-write_bytes_response_example :
    Responses.parse_bytes copying (λ bs. bs) (Responses.write_bytes announce_response) true
    ≡ Responses.ok announce_response
unfolding to_be_bytes
parse_bytes-write_bytes_response_example =
    parse_bytes-write_bytes_response copying (λ bs. bs) true announce_response
      (refl, (refl, (refl, (refl, (refl, tt)))), ((refl, (refl, tt)), tt))
