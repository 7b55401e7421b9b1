-- ===== src/UdpProtocol/Request/Roundtrip.antt =====
-- What `parse_bytes` makes of written requests.
use mathlib.Core.List.{append-nil}
use mathlib.Core.Path.{subst}
use tracker_enhanced.Prelude.{
  ℕ, ◌≤◌, ◌≡◌, ◌≢◌, refl, ap, ◌∙◌, true, false, some, List, [], ◌∷◌, ◌++◌, arith, length, min,
  length-append, take_of_length-le,
}
use tracker_enhanced.UdpProtocol.Bytes.{
  Bytes, to_be_bytes, from_be, get_i32, get_i64, get_u16, read_exact-append, take-append_length,
  drop-append_length,
}
use tracker_enhanced.UdpProtocol.Layout.{Zerocopy, as_bytes, slice_bytes, IsSized, AllSized}
use tracker_enhanced.UdpProtocol.Messages.{
  Request, AnnounceRequest, AnnounceEvent, announce_request_packed, info_hash_packed,
}
use tracker_enhanced.UdpProtocol.Request.{
  ok, event_to_bytes, event_from_bytes, is_event, write_bytes, action_bytes, parse_connect,
  parse_announce, parse_scrape, parse_info_hashes, parse_action, parse_bytes, protocol_identifier,
  is_empty,
}

pub action_bytes-append :
    (a b c : Bytes) → length a ≡ 8 → length b ≡ 4 → action_bytes (a ++ (b ++ c)) ≡ some b
unfolding action_bytes
action_bytes-append a b c ha hb =
    rw (drop-append_length 8 a (b ++ c) ha, take-append_length 4 b c hb)
      (ground (arith, length-append a (b ++ c), length-append b c))

-- An announce event comes back from its bytes.
pub event_from_bytes-to_bytes : (e : AnnounceEvent) → event_from_bytes (event_to_bytes e) ≡ e
unfolding event_from_bytes get_i32 to_be_bytes from_be
event_from_bytes-to_bytes AnnounceEvent.none = refl
event_from_bytes-to_bytes AnnounceEvent.completed = refl
event_from_bytes-to_bytes AnnounceEvent.started = refl
event_from_bytes-to_bytes AnnounceEvent.stopped = refl

event_to_bytes-is_event : (e : AnnounceEvent) → is_event (get_i32 (event_to_bytes e)) ≡ true
unfolding get_i32 to_be_bytes from_be
event_to_bytes-is_event AnnounceEvent.none = refl
event_to_bytes-is_event AnnounceEvent.completed = refl
event_to_bytes-is_event AnnounceEvent.started = refl
event_to_bytes-is_event AnnounceEvent.stopped = refl

connect_roundtrip :
    (t rest : Bytes)
    → length t ≡ 4
    → parse_connect (to_be_bytes 8 protocol_identifier ++ (to_be_bytes 4 0 ++ (t ++ rest)))
      ≡ ok (Request.connect (record { transaction_id = t }))
unfolding parse_connect get_i64 to_be_bytes from_be
connect_roundtrip t rest h = rw (
  read_exact-append 8 (to_be_bytes 8 protocol_identifier) (to_be_bytes 4 0 ++ (t ++ rest)) refl,
  read_exact-append 4 (to_be_bytes 4 0) (t ++ rest) refl,
  read_exact-append 4 t rest h,
)

-- The sizes that the Rust types give, and what the parser asks for besides: of an announce its action
-- number, a port and one of the four events, of a scrape at least one info hash and at most `max`.
abbrev pub IsValid : ℕ → Request → Type 0
IsValid max (Request.connect r) = length r.transaction_id ≡ 4
IsValid max (Request.announce r) =
    IsSized announce_request_packed r
    × (r.action_placeholder ≡ to_be_bytes 4 1)
    × (get_u16 r.port ≢ 0)
    × ((e : AnnounceEvent) × (r.event ≡ event_to_bytes e))
IsValid max (Request.scrape r) =
    (length r.connection_id ≡ 8)
    × (length r.transaction_id ≡ 4)
    × AllSized info_hash_packed r.info_hashes
    × (r.info_hashes ≢ [])
    × (length r.info_hashes ≤ max)

slice-nonempty :
    (hs : List Bytes)
    → AllSized info_hash_packed hs
    → hs ≢ []
    → is_empty (slice_bytes info_hash_packed hs) ≡ false
slice-nonempty [] sized h = absurd (h refl)
slice-nonempty ([] ∷ hs) sized h = absurd (omega arith)
slice-nonempty ((b ∷ bs) ∷ hs) sized h = refl

module _ (z : Zerocopy) where
  announce_roundtrip :
      (r : AnnounceRequest) (rest : Bytes)
      → IsSized announce_request_packed r
      → get_u16 r.port ≢ 0
      → is_event (get_i32 r.event) ≡ true
      → parse_announce z (as_bytes announce_request_packed r ++ rest) ≡ ok (Request.announce r)
  unfolding parse_announce
  announce_roundtrip r rest sized port event =
      rw (z.read_from_prefix_value announce_request_packed r rest sized) (ground arith)

  scrape_roundtrip :
      (c t : Bytes) (hs : List Bytes) (max : ℕ)
      → length c ≡ 8
      → length t ≡ 4
      → AllSized info_hash_packed hs
      → hs ≢ []
      → length hs ≤ max
      → parse_scrape z (c ++ (to_be_bytes 4 2 ++ (t ++ slice_bytes info_hash_packed hs))) max
        ≡ ok (Request.scrape (record { connection_id = c; transaction_id = t; info_hashes = hs }))
  unfolding parse_scrape parse_info_hashes to_be_bytes
  scrape_roundtrip c t hs max hc ht sized nonempty fits = rw (
    read_exact-append 8 c _ hc,
    read_exact-append 4 (to_be_bytes 4 2) _ refl,
    read_exact-append 4 t _ ht,
    slice-nonempty hs sized nonempty,
    z.slice_from_values info_hash_packed hs (omega arith) sized,
    take_of_length-le hs (min max (length hs)) (omega arith),
  )

  parse_bytes_action :
      (bs a : Bytes) (max : ℕ)
      → action_bytes bs ≡ some a
      → parse_bytes z bs max ≡ parse_action z (get_i32 a) bs max
  unfolding parse_bytes
  parse_bytes_action bs a max h = rw h

  -- A written request is parsed to the request that was written: a connect request always, an
  -- announce with action number 1, a port that is not 0 and one of the four events, and a scrape
  -- with at least one and at most `max` info hashes.
  pub parse_bytes-write_bytes :
      (max : ℕ) (r : Request) → IsValid max r → parse_bytes z (write_bytes r) max ≡ ok r
  unfolding write_bytes parse_action to_be_bytes get_i32 from_be
  parse_bytes-write_bytes max (Request.connect r) h =
      parse_bytes_action _ (to_be_bytes 4 0) max (
        action_bytes-append (to_be_bytes 8 protocol_identifier) (to_be_bytes 4 0) r.transaction_id
          refl refl)
      ∙ (rw (append-nil r.transaction_id) at (connect_roundtrip r.transaction_id [] h))
  parse_bytes-write_bytes max (Request.announce r) (sized, action, port, (e, event)) =
      parse_bytes_action _ (to_be_bytes 4 1) max (
        action_bytes-append r.connection_id r.action_placeholder _ sized.0 sized.1.0
        ∙ ap some action)
      ∙ subst (λ bs. parse_announce z bs ≡ ok (Request.announce r))
          (append-nil (as_bytes announce_request_packed r))
          (announce_roundtrip r [] sized port
            (ap (λ bs. is_event (get_i32 bs)) event ∙ event_to_bytes-is_event e))
  parse_bytes-write_bytes max (Request.scrape r) (c, t, sized, nonempty, fits) =
      parse_bytes_action _ (to_be_bytes 4 2) max
        (action_bytes-append r.connection_id (to_be_bytes 4 2) _ c refl)
      ∙ scrape_roundtrip r.connection_id r.transaction_id r.info_hashes max c t sized nonempty fits
