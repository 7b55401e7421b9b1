-- ===== src/UdpProtocol/Response/Roundtrip.antt =====
-- What `parse_bytes` makes of written responses.
use mathlib.Core.List.{append-nil}
use mathlib.Core.Path.{subst}
use tracker_enhanced.Prelude.{
  ℕ, ◌≡◌, refl, ◌∙◌, Bool, true, false, some, List, [], ◌∷◌, ◌++◌, arith, length, length-append,
}
use tracker_enhanced.UdpProtocol.Bytes.{
  Bytes, to_be_bytes, from_be, get_i32, read_exact-append, drop-append_length,
}
use tracker_enhanced.UdpProtocol.Layout.{
  Zerocopy, Fits, total, concat, as_bytes, slice_bytes, IsSized, AllSized,
}
use tracker_enhanced.UdpProtocol.Messages.{
  Response, ConnectResponse, ScrapeResponse, ErrorResponse, AnnounceResponseFixedData, ResponsePeer,
  connect_response_packed, announce_response_fixed_data_packed, response_peer_packed,
  torrent_scrape_statistics_packed,
}
use tracker_enhanced.UdpProtocol.Response.{
  ok, get_from, write_bytes, connect_write_bytes, announce_write_bytes, scrape_write_bytes,
  error_write_bytes, parse_connect, parse_peers, parse_announce, parse_scrape, parse_error,
  parse_action, parse_bytes,
}

length-concat : (ns : List ℕ) (fs : List Bytes) → Fits ns fs → length (concat fs) ≡ total ns
length-concat [] [] h = refl
length-concat [] (f ∷ fs) h = absurd h
length-concat (n ∷ ns) [] h = absurd h
length-concat (n ∷ ns) (f ∷ fs) h =
    omega (arith, length-append f (concat fs), length-concat ns fs h.1)

-- What the Rust types guarantee of a response, the address family that the reader expects, and
-- that the text of an error is UTF-8.
abbrev pub IsValid : (Bytes → Bytes) → Bool → Response → Type 0
IsValid lossy ipv4 (Response.connect r) = IsSized connect_response_packed r
IsValid lossy ipv4 (Response.announce_ipv4 r) =
    (ipv4 ≡ true)
    × IsSized announce_response_fixed_data_packed r.fixed
    × AllSized (response_peer_packed 4) r.peers
IsValid lossy ipv4 (Response.announce_ipv6 r) =
    (ipv4 ≡ false)
    × IsSized announce_response_fixed_data_packed r.fixed
    × AllSized (response_peer_packed 16) r.peers
IsValid lossy ipv4 (Response.scrape r) =
    (length r.transaction_id ≡ 4) × AllSized torrent_scrape_statistics_packed r.torrent_stats
IsValid lossy ipv4 (Response.error r) =
    (length r.transaction_id ≡ 4) × (lossy r.message ≡ r.message)

get_from-append : (n : ℕ) (xs ys : Bytes) → length xs ≡ n → get_from n (xs ++ ys) ≡ some ys
get_from-append n xs ys h = rw (drop-append_length n xs ys h) (ground (arith, length-append xs ys))

module _ (z : Zerocopy) (from_utf8_lossy : Bytes → Bytes) where
  announce_roundtrip :
      (n : ℕ) (f : AnnounceResponseFixedData) (ps : List (ResponsePeer Bytes))
      → IsSized announce_response_fixed_data_packed f
      → AllSized (response_peer_packed n) ps
      → parse_announce z from_utf8_lossy n (
          as_bytes announce_response_fixed_data_packed f ++ slice_bytes (response_peer_packed n) ps)
        ≡ ok (record { fixed = f; peers = ps })
  unfolding parse_announce parse_peers
  announce_roundtrip n f ps hf hp =
      let fixed = as_bytes announce_response_fixed_data_packed f in
      let peers = slice_bytes (response_peer_packed n) ps in
      let size : length fixed ≡ 16 =
        length-concat (4 ∷ 4 ∷ 4 ∷ 4 ∷ []) (announce_response_fixed_data_packed.fields f) hf in
      rw (
        z.read_from_prefix_value announce_response_fixed_data_packed f peers hf,
        get_from-append 16 fixed peers size,
        parse_peers,
        z.slice_from_values (response_peer_packed n) ps (omega arith) hp,
      )

  connect_roundtrip :
      (r : ConnectResponse)
      → IsSized connect_response_packed r
      → parse_connect z from_utf8_lossy (as_bytes connect_response_packed r)
        ≡ ok (Response.connect r)
  unfolding parse_connect
  connect_roundtrip r h =
      subst (λ bs. parse_connect z from_utf8_lossy bs ≡ ok (Response.connect r))
        (append-nil (as_bytes connect_response_packed r))
        (rw (z.read_from_prefix_value connect_response_packed r [] h))

  scrape_roundtrip :
      (r : ScrapeResponse)
      → length r.transaction_id ≡ 4
      → AllSized torrent_scrape_statistics_packed r.torrent_stats
      → parse_scrape z from_utf8_lossy
          (r.transaction_id ++ slice_bytes torrent_scrape_statistics_packed r.torrent_stats)
        ≡ ok (Response.scrape r)
  unfolding parse_scrape
  scrape_roundtrip r h k = rw (
    read_exact-append 4 r.transaction_id _ h,
    z.slice_from_values torrent_scrape_statistics_packed r.torrent_stats (omega arith) k,
  )

  error_roundtrip :
      (r : ErrorResponse)
      → length r.transaction_id ≡ 4
      → from_utf8_lossy r.message ≡ r.message
      → parse_error z from_utf8_lossy (r.transaction_id ++ r.message) ≡ ok (Response.error r)
  unfolding parse_error
  error_roundtrip r h k = rw (read_exact-append 4 r.transaction_id r.message h, k)

  parse_bytes_action :
      (a bs : Bytes) (ipv4 : Bool)
      → length a ≡ 4
      → parse_bytes z from_utf8_lossy (a ++ bs) ipv4
        ≡ parse_action z from_utf8_lossy (get_i32 a) ipv4 bs
  unfolding parse_bytes
  parse_bytes_action a bs ipv4 h = rw (read_exact-append 4 a bs h)

  -- A written response, with fields of their sizes, is parsed to the response that was written: an
  -- announce by a reader that expects its address family, an error if its text is UTF-8.
  pub parse_bytes-write_bytes_response :
      (ipv4 : Bool) (r : Response)
      → IsValid from_utf8_lossy ipv4 r
      → parse_bytes z from_utf8_lossy (write_bytes r) ipv4 ≡ ok r
  unfolding parse_action write_bytes connect_write_bytes announce_write_bytes scrape_write_bytes
      error_write_bytes to_be_bytes get_i32 from_be
  parse_bytes-write_bytes_response ipv4 (Response.connect r) h =
      parse_bytes_action (to_be_bytes 4 0) _ ipv4 refl ∙ connect_roundtrip r h
  parse_bytes-write_bytes_response ipv4 (Response.announce_ipv4 r) (v4, fixed, peers) =
      parse_bytes_action (to_be_bytes 4 1) _ ipv4 refl
      ∙ rw (v4, announce_roundtrip 4 r.fixed r.peers fixed peers)
  parse_bytes-write_bytes_response ipv4 (Response.announce_ipv6 r) (v6, fixed, peers) =
      parse_bytes_action (to_be_bytes 4 1) _ ipv4 refl
      ∙ rw (v6, announce_roundtrip 16 r.fixed r.peers fixed peers)
  parse_bytes-write_bytes_response ipv4 (Response.scrape r) (h, k) =
      parse_bytes_action (to_be_bytes 4 2) _ ipv4 refl ∙ scrape_roundtrip r h k
  parse_bytes-write_bytes_response ipv4 (Response.error r) (h, k) =
      parse_bytes_action (to_be_bytes 4 3) _ ipv4 refl ∙ error_roundtrip r h k
