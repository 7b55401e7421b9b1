-- ===== src/Http/Request/Write.antt =====
-- crates/http_protocol/src/request.rs: the writing of requests.
use tracker_enhanced.Prelude.{
  ℕ, Bool, true, false, Option, none, some, List, [], ◌∷◌, ◌++◌, if◌then◌else◌,
}
use tracker_enhanced.Http.Messages.{AnnounceEvent, AnnounceRequest, ScrapeRequest}
use tracker_enhanced.Http.Numbers.{Itoa}
use tracker_enhanced.Http.Url.{Hex, urlencode_20_bytes}
use tracker_enhanced.Http.Request.{
  UrlEncoding, Request, announce_chars, scrape_chars, info_hash_chars, peer_id_chars, port_chars,
  left_chars, uploaded_chars, downloaded_chars, event_chars, compact_chars, numwant_chars,
  key_chars, started_chars, stopped_chars, completed_chars,
}

-- "&key="
abbrev pub and_key : List ℕ → List ℕ
and_key key = 38 ∷ (key ++ (61 ∷ []))

abbrev pub event_part : AnnounceEvent → List ℕ
event_part AnnounceEvent.started = and_key event_chars ++ started_chars
event_part AnnounceEvent.stopped = and_key event_chars ++ stopped_chars
event_part AnnounceEvent.completed = and_key event_chars ++ completed_chars
event_part AnnounceEvent.empty = []

-- "GET " and " HTTP/1.1\r\nHost: localhost\r\n\r\n"
abbrev pub get_chars : List ℕ
get_chars = 71 ∷ 69 ∷ 84 ∷ 32 ∷ []

abbrev pub tail_chars : List ℕ
tail_chars =
    32 ∷ 72 ∷ 84 ∷ 84 ∷ 80 ∷ 47 ∷ 49 ∷ 46 ∷ 49 ∷ 13 ∷ 10 ∷ 72 ∷ 111 ∷ 115 ∷ 116 ∷ 58 ∷ 32 ∷ 108
    ∷ 111 ∷ 99 ∷ 97 ∷ 108 ∷ 104 ∷ 111 ∷ 115 ∷ 116 ∷ 13 ∷ 10 ∷ 13 ∷ 10 ∷ []

module _ (hex : Hex) where
  -- The loop of `ScrapeRequest::write_bytes`; the flag is `first`.
  unfoldable pub write_hashes : Bool → List (List ℕ) → List ℕ
  write_hashes first [] = []
  write_hashes first (info_hash ∷ info_hashes) =
      (if first then [] else 38 ∷ [])
      ++ (info_hash_chars
          ++ (61 ∷ (urlencode_20_bytes hex info_hash ++ write_hashes false info_hashes)))

  abbrev pub scrape_query : ScrapeRequest → List ℕ
  scrape_query r = write_hashes true r.info_hashes

  module _ (itoa : Itoa) (encoding : UrlEncoding) where
    abbrev pub numwant_part : Option ℕ → List ℕ
    numwant_part none = []
    numwant_part (some numwant) = and_key numwant_chars ++ itoa.format numwant

    abbrev pub key_part : Option (List ℕ) → List ℕ
    key_part none = []
    key_part (some key) = and_key key_chars ++ encoding.encode key

    -- What `AnnounceRequest::write_bytes` writes after the question mark and before the last part.
    unfoldable pub announce_query : AnnounceRequest → List ℕ
    announce_query r =
        (info_hash_chars ++ (61 ∷ []))
        ++ (urlencode_20_bytes hex r.info_hash
            ++ (and_key peer_id_chars
                ++ (urlencode_20_bytes hex r.peer_id
                    ++ (and_key port_chars
                        ++ (itoa.format r.port
                            ++ (and_key uploaded_chars
                                ++ (itoa.format r.bytes_uploaded
                                    ++ (and_key downloaded_chars
                                        ++ (itoa.format r.bytes_downloaded
                                            ++ (and_key left_chars
                                                ++ (itoa.format r.bytes_left
                                                    ++ (event_part r.event
                                                        ++ (numwant_part r.numwant
                                                            ++ (key_part r.key
                                                            ++ (and_key compact_chars
                                                            ++ (49 ∷ []))))))))))))))))

    -- The path that is asked for.
    unfoldable pub path : List ℕ → Request → List ℕ
    path url_suffix (Request.announce r) = announce_chars ++ (url_suffix ++ (63 ∷ announce_query r))
    path url_suffix (Request.scrape r) = scrape_chars ++ (url_suffix ++ (63 ∷ scrape_query r))

    -- `Request::write`
    abbrev pub write : List ℕ → Request → List ℕ
    write url_suffix request = get_chars ++ (path url_suffix request ++ tail_chars)
