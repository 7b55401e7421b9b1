-- ===== src/Http/Request.antt =====
-- crates/http_protocol/src/request.rs: the parsing of requests. What an error says is its
-- constructor. `httparse` and `urlencoding` are parameters.
pub mod Write
pub mod Pairs
pub mod Roundtrip
use tracker_enhanced.Prelude.{
  ℕ, ◌+◌, ◌^◌, ◌≡◌, Bool, true, false, not, Option, none, some, List, [], ◌∷◌, ◌++◌, Eq, ◌==◌,
  list_eq, nat_eq, ltb, leb, eqb, if◌then◌else◌, u64_mod,
}
use tracker_enhanced.Prelude.Entries.{lookup}
use tracker_enhanced.Http.Messages.{AnnounceEvent, AnnounceRequest, ScrapeRequest}
use tracker_enhanced.Http.Numbers.{parse_unsigned, parse_numwant}
use tracker_enhanced.Http.Query.{Memchr, parse_query}
use tracker_enhanced.Http.Url
use tracker_enhanced.Http.Url.{Hex, Result, ok, err, ◌>>=◌, with_context, urldecode_20_bytes}
use tracker_enhanced.Http.Url.Roundtrip.{IsPlain}

-- "info_hash"
abbrev pub info_hash_chars : List ℕ
info_hash_chars = 105 ∷ 110 ∷ 102 ∷ 111 ∷ 95 ∷ 104 ∷ 97 ∷ 115 ∷ 104 ∷ []

-- "peer_id"
abbrev pub peer_id_chars : List ℕ
peer_id_chars = 112 ∷ 101 ∷ 101 ∷ 114 ∷ 95 ∷ 105 ∷ 100 ∷ []

-- "port"
abbrev pub port_chars : List ℕ
port_chars = 112 ∷ 111 ∷ 114 ∷ 116 ∷ []

-- "left"
abbrev pub left_chars : List ℕ
left_chars = 108 ∷ 101 ∷ 102 ∷ 116 ∷ []

-- "uploaded"
abbrev pub uploaded_chars : List ℕ
uploaded_chars = 117 ∷ 112 ∷ 108 ∷ 111 ∷ 97 ∷ 100 ∷ 101 ∷ 100 ∷ []

-- "downloaded"
abbrev pub downloaded_chars : List ℕ
downloaded_chars = 100 ∷ 111 ∷ 119 ∷ 110 ∷ 108 ∷ 111 ∷ 97 ∷ 100 ∷ 101 ∷ 100 ∷ []

-- "event"
abbrev pub event_chars : List ℕ
event_chars = 101 ∷ 118 ∷ 101 ∷ 110 ∷ 116 ∷ []

-- "compact"
abbrev pub compact_chars : List ℕ
compact_chars = 99 ∷ 111 ∷ 109 ∷ 112 ∷ 97 ∷ 99 ∷ 116 ∷ []

-- "numwant"
abbrev pub numwant_chars : List ℕ
numwant_chars = 110 ∷ 117 ∷ 109 ∷ 119 ∷ 97 ∷ 110 ∷ 116 ∷ []

-- "key"
abbrev pub key_chars : List ℕ
key_chars = 107 ∷ 101 ∷ 121 ∷ []

-- What `urlencoding` promises.
pub record UrlEncoding : Type 0 where
  pub encode : List ℕ → List ℕ
  pub decode : List ℕ → Option (List ℕ)
  pub decode-encode : (s : List ℕ) → decode (encode s) ≡ some s
  pub encode-IsPlain : (s : List ℕ) → IsPlain (encode s)

-- The keys that are recognized.
pub data Key : Type 0 where
  info_hash_key peer_id_key port_key left_key uploaded_key downloaded_key event_key compact_key
        numwant_key key_key :
      Key

abbrev pub recognized : List (List ℕ × Key)
recognized =
    (info_hash_chars, Key.info_hash_key)
    ∷ (peer_id_chars, Key.peer_id_key)
    ∷ (port_chars, Key.port_key)
    ∷ (left_chars, Key.left_key)
    ∷ (uploaded_chars, Key.uploaded_key)
    ∷ (downloaded_chars, Key.downloaded_key)
    ∷ (event_chars, Key.event_key)
    ∷ (compact_chars, Key.compact_key)
    ∷ (numwant_chars, Key.numwant_key)
    ∷ (key_chars, Key.key_key)
    ∷ []

-- "started"
abbrev pub started_chars : List ℕ
started_chars = 115 ∷ 116 ∷ 97 ∷ 114 ∷ 116 ∷ 101 ∷ 100 ∷ []

-- "stopped"
abbrev pub stopped_chars : List ℕ
stopped_chars = 115 ∷ 116 ∷ 111 ∷ 112 ∷ 112 ∷ 101 ∷ 100 ∷ []

-- "completed"
abbrev pub completed_chars : List ℕ
completed_chars = 99 ∷ 111 ∷ 109 ∷ 112 ∷ 108 ∷ 101 ∷ 116 ∷ 101 ∷ 100 ∷ []

-- "empty"
abbrev pub empty_chars : List ℕ
empty_chars = 101 ∷ 109 ∷ 112 ∷ 116 ∷ 121 ∷ []

-- `AnnounceEvent::from_str`
unfoldable pub event_from_str : List ℕ → Result AnnounceEvent
event_from_str value =
    if value == started_chars
    then ok AnnounceEvent.started
    else (if value == stopped_chars
        then ok AnnounceEvent.stopped
        else (if value == completed_chars
            then ok AnnounceEvent.completed
            else (if value == empty_chars then ok AnnounceEvent.empty else err Url.invalid_event)))

-- `char::len_utf8`, and the bytes of a string.
abbrev pub len_utf8 : ℕ → ℕ
len_utf8 c = if ltb c 128 then 1 else (if ltb c 2048 then 2 else (if ltb c 65536 then 3 else 4))

unfoldable pub len_bytes : List ℕ → ℕ
len_bytes [] = 0
len_bytes (c ∷ cs) = len_utf8 c + len_bytes cs

-- The variables of the loop of `AnnounceRequest::parse_query_string`.
pub record Found : Type 0 where
  pub opt_info_hash : Option (List ℕ)
  pub opt_peer_id : Option (List ℕ)
  pub opt_port : Option ℕ
  pub opt_bytes_left : Option ℕ
  pub opt_bytes_uploaded : Option ℕ
  pub opt_bytes_downloaded : Option ℕ
  pub event : AnnounceEvent
  pub opt_numwant : Option ℕ
  pub opt_key : Option (List ℕ)

abbrev pub nothing_found : Found
nothing_found = record {
  opt_info_hash = none;
  opt_peer_id = none;
  opt_port = none;
  opt_bytes_left = none;
  opt_bytes_uploaded = none;
  opt_bytes_downloaded = none;
  event = AnnounceEvent.empty;
  opt_numwant = none;
  opt_key = none;
}

-- What comes after the loop.
unfoldable pub complete_request : Found → Result AnnounceRequest
complete_request found = do
  info_hash ← with_context Url.no_info_hash found.opt_info_hash
  peer_id ← with_context Url.no_peer_id found.opt_peer_id
  port ← with_context Url.no_port found.opt_port
  uploaded ← with_context Url.no_uploaded found.opt_bytes_uploaded
  downloaded ← with_context Url.no_downloaded found.opt_bytes_downloaded
  left ← with_context Url.no_left found.opt_bytes_left
  ok (record {
    info_hash = info_hash;
    peer_id = peer_id;
    port = port;
    bytes_uploaded = uploaded;
    bytes_downloaded = downloaded;
    bytes_left = left;
    event = found.event;
    numwant = found.opt_numwant;
    key = found.opt_key;
  })

-- "/announce"
abbrev pub announce_chars : List ℕ
announce_chars = 47 ∷ 97 ∷ 110 ∷ 110 ∷ 111 ∷ 117 ∷ 110 ∷ 99 ∷ 101 ∷ []

-- "/scrape"
abbrev pub scrape_chars : List ℕ
scrape_chars = 47 ∷ 115 ∷ 99 ∷ 114 ∷ 97 ∷ 112 ∷ 101 ∷ []

pub data Request : Type 0 where
  announce : AnnounceRequest → Request
  scrape : ScrapeRequest → Request

-- `httparse` reads the bytes of a request up to its path.
pub data Parsed : Type 0 where
  complete : Option (List ℕ) → Parsed
  partial failed : Parsed

-- `path.splitn(2, '?')`
unfoldable pub split_path : List ℕ → List ℕ × Option (List ℕ)
split_path [] = ([], none)
split_path (c ∷ cs) =
    let (location, query_string) = split_path cs in
    if eqb c 63 then ([], some cs) else (c ∷ location, query_string)

module _ (hex : Hex) (encoding : UrlEncoding) where
  -- The branches of the `match` on the key; an unrecognized one is ignored.
  unfoldable pub note_value : Option Key → List ℕ → Found → Result Found
  note_value none value found = ok found
  note_value (some Key.info_hash_key) value found = do
    bytes ← urldecode_20_bytes hex value
    ok (record found { opt_info_hash = some bytes })
  note_value (some Key.peer_id_key) value found = do
    bytes ← urldecode_20_bytes hex value
    ok (record found { opt_peer_id = some bytes })
  note_value (some Key.port_key) value found = do
    n ← with_context Url.parse_port (parse_unsigned (2 ^ 16) value)
    ok (record found { opt_port = some n })
  note_value (some Key.left_key) value found = do
    n ← with_context Url.parse_left (parse_unsigned u64_mod value)
    ok (record found { opt_bytes_left = some n })
  note_value (some Key.uploaded_key) value found = do
    n ← with_context Url.parse_uploaded (parse_unsigned u64_mod value)
    ok (record found { opt_bytes_uploaded = some n })
  note_value (some Key.downloaded_key) value found = do
    n ← with_context Url.parse_downloaded (parse_unsigned u64_mod value)
    ok (record found { opt_bytes_downloaded = some n })
  note_value (some Key.event_key) value found = do
    event ← event_from_str value
    ok (record found { event = event })
  note_value (some Key.compact_key) value found =
      if value == (49 ∷ []) then ok found else err Url.compact_not_1
  note_value (some Key.numwant_key) value found = do
    opt_numwant ← with_context Url.parse_numwant (parse_numwant value)
    ok (record found { opt_numwant = opt_numwant })
  note_value (some Key.key_key) value found =
      if ltb 100 (len_bytes value) then err Url.key_too_long else (do
        decoded ← with_context Url.decode_key (encoding.decode value)
        ok (record found { opt_key = some decoded }))

  abbrev pub note_pair : List ℕ → List ℕ → Found → Result Found
  note_pair key value found = note_value (lookup key recognized) value found

  module _ (m : Memchr) where
    -- `AnnounceRequest::parse_query_string`
    unfoldable pub parse_announce : List ℕ → Result AnnounceRequest
    parse_announce query_string = do
      found ← parse_query note_pair m query_string nothing_found
      complete_request found

    -- The body of the loop of `ScrapeRequest::parse_query_string`.
    unfoldable pub note_info_hash : List ℕ → List ℕ → List (List ℕ) → Result (List (List ℕ))
    note_info_hash key value info_hashes =
        if key == info_hash_chars
        then (do bytes ← urldecode_20_bytes hex value; ok (info_hashes ++ bytes ∷ []))
        else ok info_hashes

    abbrev pub some_hashes : List (List ℕ) → Result ScrapeRequest
    some_hashes [] = err Url.no_info_hashes
    some_hashes (info_hash ∷ info_hashes) = ok (record { info_hashes = info_hash ∷ info_hashes })

    -- `ScrapeRequest::parse_query_string`
    unfoldable pub parse_scrape : List ℕ → Result ScrapeRequest
    parse_scrape query_string = do
      info_hashes ← parse_query note_info_hash m query_string []
      some_hashes info_hashes

    -- `Request::parse_http_get_path`
    unfoldable pub parse_http_get_path : List ℕ → Result Request
    parse_http_get_path path =
        let (location, opt_query_string) = split_path path in
        (with_context Url.no_query_string opt_query_string >>= λ query_string.
        if location == announce_chars
        then (parse_announce query_string >>= λ r. ok (Request.announce r))
        else (if location == scrape_chars
            then (parse_scrape query_string >>= λ r. ok (Request.scrape r))
            else err Url.unknown_path))

    -- `Request::parse_bytes`, from what `httparse` makes of the bytes.
    unfoldable pub parse_parsed : Parsed → Result (Option Request)
    parse_parsed (Parsed.complete (some path)) = parse_http_get_path path >>= λ r. ok (some r)
    parse_parsed (Parsed.complete none) = err Url.no_http_path
    parse_parsed Parsed.partial = ok none
    parse_parsed Parsed.failed = err Url.http_parse

    abbrev pub parse_bytes : (List ℕ → Parsed) → List ℕ → Result (Option Request)
    parse_bytes parse bytes = parse_parsed (parse bytes)
