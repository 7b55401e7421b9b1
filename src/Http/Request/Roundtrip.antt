-- ===== src/Http/Request/Roundtrip.antt =====
-- A request that is written is parsed to itself.
use mathlib.Core.Path.{subst}
use mathlib.Core.List.{append_assoc, append-nil}
use tracker_enhanced.Prelude.{
  ℕ, ◌^◌, ◌≤◌, ◌≡◌, refl, sym, ap, ◌∙◌, true, false, Option, none, some, List, [], ◌∷◌, ◌++◌, arith,
  list_eq, nat_eq, list_beq, ltb, length, u64_mod,
}
use tracker_enhanced.Prelude.Entries.{lookup}
use tracker_enhanced.Http.Messages.{AnnounceEvent, AnnounceRequest}
use tracker_enhanced.Http.Numbers.{Itoa, parse_unsigned-format, parse_numwant-format}
use tracker_enhanced.Http.Query.{Memchr, each_pair}
use tracker_enhanced.Http.Query.Pairs.{Pair, query, ArePlain, parse_query_lem}
use tracker_enhanced.Http.Url.{Hex, ok, urlencode_20_bytes}
use tracker_enhanced.Http.Url.Roundtrip.{urlencode-IsPlain, urldecode-urlencode}
use tracker_enhanced.Http.Request.{
  UrlEncoding, Request, Found, nothing_found, complete_request, note_pair, note_value,
  note_info_hash, parse_announce, parse_scrape, split_path, parse_http_get_path, event_from_str,
  len_bytes, info_hash_chars,
}
use tracker_enhanced.Http.Request.Pairs.{
  event_pairs, numwant_pairs, key_pairs, compact_pairs, more_pairs, IsId, IsWritable,
  announce_query_eq, announce_plain, NumwantFits, KeyFits, is_plain, literal-IsPlain, tail_of,
  query-tail_of,
}
use tracker_enhanced.Http.Request.Write.{write_hashes, path}

-- The variables of the loop once a request has been read up to its optional parts.
abbrev found_of : AnnounceRequest → AnnounceEvent → Option ℕ → Option (List ℕ) → Found
found_of r event numwant key = record {
  opt_info_hash = some r.info_hash;
  opt_peer_id = some r.peer_id;
  opt_port = some r.port;
  opt_bytes_left = some r.bytes_left;
  opt_bytes_uploaded = some r.bytes_uploaded;
  opt_bytes_downloaded = some r.bytes_downloaded;
  event = event;
  opt_numwant = numwant;
  opt_key = key;
}

le_ltb : (a b : ℕ) → a ≤ b → ltb b a ≡ false
le_ltb a b h = ground arith

module _ (hex : Hex) (itoa : Itoa) (encoding : UrlEncoding) (r : AnnounceRequest)
    (w : IsWritable hex itoa encoding r) where
  read_event :
      (e : AnnounceEvent) (pairs : List Pair)
      → each_pair
          (note_pair hex encoding)
          (event_pairs e ++ pairs)
          (found_of r AnnounceEvent.empty none none)
        ≡ each_pair (note_pair hex encoding) pairs (found_of r e none none)
  unfolding each_pair note_value event_from_str lookup list_beq
  read_event AnnounceEvent.started pairs = refl
  read_event AnnounceEvent.stopped pairs = refl
  read_event AnnounceEvent.completed pairs = refl
  read_event AnnounceEvent.empty pairs = refl

  read_numwant :
      (n : Option ℕ) (pairs : List Pair)
      → r.numwant ≡ n
      → each_pair
          (note_pair hex encoding)
          (numwant_pairs hex itoa encoding n ++ pairs)
          (found_of r r.event none none)
        ≡ each_pair (note_pair hex encoding) pairs (found_of r r.event n none)
  unfolding each_pair note_value lookup list_beq
  read_numwant none pairs q = refl
  read_numwant (some n) pairs q =
      rw (parse_numwant-format itoa n (subst (NumwantFits hex itoa encoding) q w.numwant)) refl

  read_key :
      (k : Option (List ℕ)) (pairs : List Pair)
      → r.key ≡ k
      → each_pair
          (note_pair hex encoding)
          (key_pairs hex itoa encoding k ++ pairs)
          (found_of r r.event r.numwant none)
        ≡ each_pair (note_pair hex encoding) pairs (found_of r r.event r.numwant k)
  unfolding each_pair note_value lookup list_beq
  read_key none pairs q = refl
  read_key (some k) pairs q =
      let short : ltb 100 (len_bytes (encoding.encode k)) ≡ false =
        le_ltb (len_bytes (encoding.encode k)) 100 (subst (KeyFits hex itoa encoding) q w.key) in
      rw (short, encoding.decode-encode k) refl

  read_optional :
      each_pair
        (note_pair hex encoding)
        (event_pairs r.event
          ++ (numwant_pairs hex itoa encoding r.numwant
              ++ (key_pairs hex itoa encoding r.key ++ compact_pairs hex itoa encoding)))
        (found_of r AnnounceEvent.empty none none)
      ≡ ok (found_of r r.event r.numwant r.key)
  unfolding each_pair note_value lookup list_beq
  read_optional =
      read_event r.event (
        numwant_pairs hex itoa encoding r.numwant
        ++ (key_pairs hex itoa encoding r.key ++ compact_pairs hex itoa encoding))
      ∙ read_numwant r.numwant
          (key_pairs hex itoa encoding r.key ++ compact_pairs hex itoa encoding) refl
      ∙ read_key r.key (compact_pairs hex itoa encoding) refl

  read_pairs :
      each_pair
        (note_pair hex encoding)
        ((info_hash_chars, urlencode_20_bytes hex r.info_hash) ∷ more_pairs hex itoa encoding r)
        nothing_found
      ≡ ok (found_of r r.event r.numwant r.key)
  unfolding each_pair note_value lookup list_beq
  read_pairs =
      rw
        (
          urldecode-urlencode hex r.info_hash w.info_hash.0 w.info_hash.1,
          urldecode-urlencode hex r.peer_id w.peer_id.0 w.peer_id.1,
          parse_unsigned-format itoa (2 ^ 16) r.port w.port,
          parse_unsigned-format itoa u64_mod r.bytes_uploaded w.uploaded,
          parse_unsigned-format itoa u64_mod r.bytes_downloaded w.downloaded,
          parse_unsigned-format itoa u64_mod r.bytes_left w.left,
        )
        read_optional

  -- An announce that is written is parsed to itself.
  announce_roundtrip :
      (m : Memchr)
      → parse_http_get_path hex encoding m (path hex itoa encoding [] (Request.announce r))
        ≡ ok (Request.announce r)
  unfolding parse_http_get_path split_path path list_beq parse_announce complete_request
  announce_roundtrip m =
      rw
        (
          announce_query_eq hex itoa encoding r,
          parse_query_lem (note_pair hex encoding) m
              (info_hash_chars, urlencode_20_bytes hex r.info_hash) (more_pairs hex itoa encoding r)
              nothing_found (announce_plain hex itoa encoding r w),
          read_pairs,
        )
        refl

module _ (hex : Hex) (encoding : UrlEncoding) where
  abbrev hash_pairs : List (List ℕ) → List Pair
  hash_pairs [] = []
  hash_pairs (info_hash ∷ info_hashes) =
      (info_hash_chars, urlencode_20_bytes hex info_hash) ∷ hash_pairs info_hashes

  abbrev pub AreIds : List (List ℕ) → Type 0
  AreIds [] = Unit
  AreIds (info_hash ∷ info_hashes) = IsId info_hash × AreIds info_hashes

  hashes_plain : (hashes : List (List ℕ)) → AreIds hashes → ArePlain (hash_pairs hashes)
  unfolding is_plain
  hashes_plain [] ids = tt
  hashes_plain (h ∷ hashes) (id, ids) =
      (literal-IsPlain info_hash_chars refl, urlencode-IsPlain hex h id.1, hashes_plain hashes ids)

  write_more_eq :
      (hashes : List (List ℕ)) → write_hashes hex false hashes ≡ tail_of (hash_pairs hashes)
  unfolding write_hashes tail_of
  write_more_eq [] = refl
  write_more_eq (h ∷ hashes) =
      ap (λ l. 38 ∷ (info_hash_chars ++ (61 ∷ (urlencode_20_bytes hex h ++ l))))
        (write_more_eq hashes)

  write_hashes_eq :
      (h : List ℕ) (hashes : List (List ℕ))
      → write_hashes hex true (h ∷ hashes) ≡ query (hash_pairs (h ∷ hashes))
  unfolding write_hashes
  write_hashes_eq h hashes =
      rw
        (
          query-tail_of info_hash_chars (urlencode_20_bytes hex h) (hash_pairs hashes),
          write_more_eq hashes,
        )
        refl

  module _ (m : Memchr) where
    read_hashes :
        (hashes found : List (List ℕ))
        → AreIds hashes
        → each_pair (note_info_hash hex encoding m) (hash_pairs hashes) found ≡ ok (found ++ hashes)
    unfolding each_pair note_info_hash list_beq
    read_hashes [] found ids = ap ok (sym (append-nil found))
    read_hashes (h ∷ hashes) found (id, ids) =
        rw (urldecode-urlencode hex h id.0 id.1)
          (read_hashes hashes (found ++ h ∷ []) ids ∙ ap ok (append_assoc found (h ∷ []) hashes))

    scrape_roundtrip :
        (itoa : Itoa) (h : List ℕ) (hashes : List (List ℕ))
        → AreIds (h ∷ hashes)
        → parse_http_get_path hex encoding m
            (path hex itoa encoding [] (Request.scrape (record { info_hashes = h ∷ hashes })))
          ≡ ok (Request.scrape (record { info_hashes = h ∷ hashes }))
    unfolding parse_http_get_path split_path path list_beq parse_scrape
    scrape_roundtrip itoa h hashes ids =
        rw
          (
            write_hashes_eq h hashes,
            parse_query_lem (note_info_hash hex encoding m) m
                (info_hash_chars, urlencode_20_bytes hex h) (hash_pairs hashes) []
                (hashes_plain (h ∷ hashes) ids),
            read_hashes (h ∷ hashes) [] ids,
          )
          refl

module _ (hex : Hex) (itoa : Itoa) (encoding : UrlEncoding) (m : Memchr) where
  -- What can be written and read back: an announce whose ids have 20 bytes, whose numbers fit and
  -- whose key has at most 100 bytes when encoded, and a scrape with at least one info hash.
  abbrev pub CanBeWritten : Request → Type 0
  CanBeWritten (Request.announce r) = IsWritable hex itoa encoding r
  CanBeWritten (Request.scrape r) = (1 ≤ length r.info_hashes) × AreIds hex encoding r.info_hashes

  -- Such a request is parsed to itself from the path that is written without a suffix, whether an
  -- announce has an event, a number of peers and a key or not.
  pub parse_path-write :
      (request : Request)
      → CanBeWritten request
      → parse_http_get_path hex encoding m (path hex itoa encoding [] request) ≡ ok request
  parse_path-write (Request.announce r) w = announce_roundtrip hex itoa encoding r w m
  parse_path-write (Request.scrape r) (some_hash, ids) = at_least_one r.info_hashes some_hash ids
    where
      at_least_one :
          (hashes : List (List ℕ))
          → 1 ≤ length hashes
          → AreIds hex encoding hashes
          → parse_http_get_path hex encoding m
              (path hex itoa encoding [] (Request.scrape (record { info_hashes = hashes })))
            ≡ ok (Request.scrape (record { info_hashes = hashes }))
      at_least_one [] long ids = absurd (omega arith)
      at_least_one (h ∷ hashes) long ids = scrape_roundtrip hex encoding m itoa h hashes ids
