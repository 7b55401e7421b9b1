-- ===== src/UdpProtocol/Response.antt =====
-- crates/udp_protocol/src/response.rs: `Response::write_bytes` and `Response::parse_bytes`.
pub mod Roundtrip
use tracker_enhanced.Prelude.{
  ℕ, ◌≡◌, Bool, true, false, Option, none, some, List, [], ◌∷◌, ◌++◌, if◌then◌else◌, drop, leb,
  length,
}
use tracker_enhanced.Prelude.Int.{ℤ, pos, int_beq}
use tracker_enhanced.UdpProtocol.Bytes.{Bytes, to_be_bytes, get_i32, read_exact}
use tracker_enhanced.UdpProtocol.Layout.{Packed, Zerocopy, as_bytes, slice_bytes, size_of}
use tracker_enhanced.UdpProtocol.Messages.{
  Response, ConnectResponse, AnnounceResponse, ScrapeResponse, ErrorResponse, ResponsePeer,
  connect_response_packed, announce_response_fixed_data_packed, response_peer_packed,
  torrent_scrape_statistics_packed,
}

pub data IoError : Type 0 where
  unexpected_eof invalid_data : IoError

pub data Result {ℓ} (A : Type ℓ) : Type ℓ where
  ok : A → Result A
  err : IoError → Result A

infixl 5 ◌>>=◌
abbrev pub ◌>>=◌ {ℓ κ} : {A : Type ℓ} {B : Type κ} → Result A → (A → Result B) → Result B
ok a >>= f = f a
err e >>= f = err e

abbrev pub ok_or : {A : Type 0} → Option A → IoError → Result A
ok_or none e = err e
ok_or (some a) e = ok a

unfoldable pub connect_write_bytes : ConnectResponse → Bytes
connect_write_bytes r = to_be_bytes 4 0 ++ as_bytes connect_response_packed r

-- `AnnounceResponse::write_bytes`, for addresses of `n` bytes.
unfoldable pub announce_write_bytes : ℕ → AnnounceResponse Bytes → Bytes
announce_write_bytes n r =
    to_be_bytes 4 1
    ++ (as_bytes announce_response_fixed_data_packed r.fixed
        ++ slice_bytes (response_peer_packed n) r.peers)

unfoldable pub scrape_write_bytes : ScrapeResponse → Bytes
scrape_write_bytes r =
    to_be_bytes 4 2
    ++ (r.transaction_id ++ slice_bytes torrent_scrape_statistics_packed r.torrent_stats)

unfoldable pub error_write_bytes : ErrorResponse → Bytes
error_write_bytes r = to_be_bytes 4 3 ++ (r.transaction_id ++ r.message)

unfoldable pub write_bytes : Response → Bytes
write_bytes (Response.connect r) = connect_write_bytes r
write_bytes (Response.announce_ipv4 r) = announce_write_bytes 4 r
write_bytes (Response.announce_ipv6 r) = announce_write_bytes 16 r
write_bytes (Response.scrape r) = scrape_write_bytes r
write_bytes (Response.error r) = error_write_bytes r

-- `bytes.get(n..)`
abbrev pub get_from : ℕ → Bytes → Option Bytes
get_from n bs = if leb n (length bs) then some (drop n bs) else none

module _ (z : Zerocopy) (from_utf8_lossy : Bytes → Bytes) where
  -- The peers behind the fixed part, none if there are no bytes for them.
  unfoldable pub parse_peers : ℕ → Option Bytes → Result (List (ResponsePeer Bytes))
  parse_peers n none = ok []
  parse_peers n (some bs) = ok_or (z.slice_from (response_peer_packed n) bs) IoError.invalid_data

  unfoldable pub parse_announce : ℕ → Bytes → Result (AnnounceResponse Bytes)
  parse_announce n bs = do
    fixed ← ok_or (z.read_from_prefix announce_response_fixed_data_packed bs) IoError.invalid_data
    peers ← parse_peers n (get_from (size_of announce_response_fixed_data_packed) bs)
    ok (record { fixed = fixed; peers = peers })

  unfoldable pub parse_scrape : Bytes → Result Response
  parse_scrape bs = do
    (transaction_id, bs) ← ok_or (read_exact 4 bs) IoError.unexpected_eof
    torrent_stats ← ok_or (z.slice_from torrent_scrape_statistics_packed bs) IoError.invalid_data
    ok (Response.scrape (record { transaction_id = transaction_id; torrent_stats = torrent_stats }))

  unfoldable pub parse_error : Bytes → Result Response
  parse_error bs = do
    (transaction_id, bs) ← ok_or (read_exact 4 bs) IoError.unexpected_eof
    ok (Response.error (record { transaction_id = transaction_id; message = from_utf8_lossy bs }))

  unfoldable pub parse_connect : Bytes → Result Response
  parse_connect bs = do
    r ← ok_or (z.read_from_prefix connect_response_packed bs) IoError.invalid_data
    ok (Response.connect r)

  unfoldable pub parse_action : ℤ → Bool → Bytes → Result Response
  parse_action action ipv4 bs =
      if int_beq action (pos 0)
      then parse_connect bs
      else if int_beq action (pos 1)
      then if ipv4
        then (do r ← parse_announce 4 bs; ok (Response.announce_ipv4 r))
        else (do r ← parse_announce 16 bs; ok (Response.announce_ipv6 r))
      else if int_beq action (pos 2)
      then parse_scrape bs
      else if int_beq action (pos 3)
      then parse_error bs
      else err IoError.invalid_data

  unfoldable pub parse_bytes : Bytes → Bool → Result Response
  parse_bytes bs ipv4 = do
    (action, bs) ← ok_or (read_exact 4 bs) IoError.unexpected_eof
    parse_action (get_i32 action) ipv4 bs
