-- ===== src/UdpProtocol/Request.antt =====
-- crates/udp_protocol/src/request.rs: `Request::write_bytes`, `Request::parse_bytes` and the
-- conversions of announce events.
pub mod Roundtrip
pub mod Soundness
use Prim.Native.String.{String}
use tracker_enhanced.Prelude.{
  ℕ, ◌≡◌, Bool, true, false, Option, none, some, List, [], ◌∷◌, ◌++◌, eqb, if◌then◌else◌, take,
  drop, leb, length, min, ◌-◌, retain,
}
use tracker_enhanced.Prelude.Int.{ℤ, pos, negsuc, int_beq}
use tracker_enhanced.UdpProtocol.Bytes.{Bytes, to_be_bytes, get_i32, get_i64, get_u16, read_exact}
use tracker_enhanced.UdpProtocol.Layout.{Zerocopy, as_bytes, slice_bytes}
use tracker_enhanced.UdpProtocol.Messages.{
  Request, ConnectRequest, AnnounceRequest, ScrapeRequest, AnnounceEvent, RequestParseError,
  sendable, unsendable_io, unsendable_text, announce_request_packed, info_hash_packed,
}

pub data Result {ℓ} (A : Type ℓ) : Type ℓ where
  ok : A → Result A
  err : RequestParseError → Result A

infixl 5 ◌>>=◌
abbrev pub ◌>>=◌ {ℓ κ} : {A : Type ℓ} {B : Type κ} → Result A → (A → Result B) → Result B
ok a >>= f = f a
err e >>= f = err e

abbrev pub ok_or : {A : Type 0} → Option A → RequestParseError → Result A
ok_or none e = err e
ok_or (some a) e = ok a

abbrev pub protocol_identifier : ℕ
protocol_identifier = 4_497_486_125_440

abbrev pub event_to_bytes : AnnounceEvent → Bytes
event_to_bytes AnnounceEvent.none = to_be_bytes 4 0
event_to_bytes AnnounceEvent.completed = to_be_bytes 4 1
event_to_bytes AnnounceEvent.started = to_be_bytes 4 2
event_to_bytes AnnounceEvent.stopped = to_be_bytes 4 3

unfoldable pub event_from_bytes : Bytes → AnnounceEvent
event_from_bytes bs =
    if int_beq (get_i32 bs) (pos 1)
    then AnnounceEvent.completed
    else if int_beq (get_i32 bs) (pos 2)
    then AnnounceEvent.started
    else if int_beq (get_i32 bs) (pos 3)
    then AnnounceEvent.stopped
    else AnnounceEvent.none

-- `0..=3`
abbrev pub is_event : ℤ → Bool
is_event (pos n) = leb n 3
is_event (negsuc n) = false

unfoldable pub connect_write_bytes : ConnectRequest → Bytes
connect_write_bytes r = to_be_bytes 8 protocol_identifier ++ (to_be_bytes 4 0 ++ r.transaction_id)

unfoldable pub scrape_write_bytes : ScrapeRequest → Bytes
scrape_write_bytes r =
    r.connection_id
    ++ (to_be_bytes 4 2 ++ (r.transaction_id ++ slice_bytes info_hash_packed r.info_hashes))

unfoldable pub write_bytes : Request → Bytes
unfolding connect_write_bytes scrape_write_bytes
write_bytes (Request.connect r) = connect_write_bytes r
write_bytes (Request.announce r) = as_bytes announce_request_packed r
write_bytes (Request.scrape r) = scrape_write_bytes r

-- `bytes.get(8..12)`
unfoldable pub action_bytes : Bytes → Option Bytes
action_bytes bs = if leb 12 (length bs) then some (take 4 (drop 8 bs)) else none

-- The three arms of `parse_bytes`.
unfoldable pub parse_connect : Bytes → Result Request
parse_connect bs = do
  (protocol, bs) ← ok_or (read_exact 8 bs) unsendable_io
  (_, bs) ← ok_or (read_exact 4 bs) unsendable_io
  (transaction_id, _) ← ok_or (read_exact 4 bs) unsendable_io
  if int_beq (get_i64 protocol) (pos protocol_identifier)
      then ok (Request.connect (record { transaction_id = transaction_id }))
      else err (unsendable_text "Protocol identifier missing")

abbrev pub is_empty : Bytes → Bool
is_empty [] = true
is_empty (b ∷ bs) = false

module _ (z : Zerocopy) where
  unfoldable pub parse_announce : Bytes → Result Request
  parse_announce bs = do
    r ← ok_or (z.read_from_prefix announce_request_packed bs) (unsendable_text "invalid data")
    if eqb (get_u16 r.port) 0
        then err (sendable r.connection_id r.transaction_id "Port can't be 0")
        else if is_event (get_i32 r.event)
        then ok (Request.announce r)
        else err (sendable r.connection_id r.transaction_id "Invalid announce event")

  -- What `parse_scrape` does with the bytes behind the header.
  unfoldable pub parse_info_hashes : Bytes → Bytes → Bytes → ℕ → Result Request
  parse_info_hashes connection_id transaction_id remaining max_scrape_torrents =
      if is_empty remaining
      then err (sendable connection_id transaction_id "Full scrapes are not allowed")
      else do
        info_hashes ←
            ok_or (z.slice_from info_hash_packed remaining)
              (sendable connection_id transaction_id "Invalid info hash list")
        ok (
            Request.scrape (record {
              connection_id = connection_id;
              transaction_id = transaction_id;
              info_hashes = take (min max_scrape_torrents (length info_hashes)) info_hashes;
            }))

  unfoldable pub parse_scrape : Bytes → ℕ → Result Request
  parse_scrape bs max_scrape_torrents = do
    (connection_id, bs) ← ok_or (read_exact 8 bs) unsendable_io
    (_, bs) ← ok_or (read_exact 4 bs) unsendable_io
    (transaction_id, remaining) ← ok_or (read_exact 4 bs) unsendable_io
    parse_info_hashes connection_id transaction_id remaining max_scrape_torrents

  unfoldable pub parse_action : ℤ → Bytes → ℕ → Result Request
  parse_action action bs max_scrape_torrents =
      if int_beq action (pos 0)
      then parse_connect bs
      else if int_beq action (pos 1)
      then parse_announce bs
      else if int_beq action (pos 2)
      then parse_scrape bs max_scrape_torrents
      else err (unsendable_text "Invalid action")

  unfoldable pub parse_bytes : Bytes → ℕ → Result Request
  parse_bytes bs max_scrape_torrents = do
    action ← ok_or (action_bytes bs) (unsendable_text "Couldn't parse action")
    parse_action (get_i32 action) bs max_scrape_torrents

-- `ScrapeRequest::filter_info_hashes`
unfoldable pub filter_info_hashes : (Bytes → Bool) → ScrapeRequest → ScrapeRequest
filter_info_hashes allow r = record r { info_hashes = retain allow r.info_hashes }
