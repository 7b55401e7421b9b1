-- ===== src/Http/Request/Pairs.antt =====
-- The query of a written request, as pairs.
use mathlib.Core.List.{append-nil}
use tracker_enhanced.Prelude.{
  ℕ, not, ◌&&◌, ◌^◌, ◌≤◌, ◌<◌, ◌≡◌, refl, sym, ap, ◌∙◌, Bool, true, Option, none, some, List, [],
  ◌∷◌, ◌++◌, arith, list_eq, nat_eq, eqb, length, u64_mod,
}
use tracker_enhanced.Http.Messages.{AnnounceEvent, AnnounceRequest}
use tracker_enhanced.Http.Numbers.{Itoa, format-IsPlain}
use tracker_enhanced.Http.Query.Pairs.{Pair, query, ArePlain}
use tracker_enhanced.Http.Url.{Hex, urlencode_20_bytes}
use tracker_enhanced.Http.Url.Roundtrip.{AllBytes, IsPlain, urlencode-IsPlain}
use tracker_enhanced.Http.Request.{
  UrlEncoding, len_bytes, info_hash_chars, peer_id_chars, port_chars, left_chars, uploaded_chars,
  downloaded_chars, event_chars, compact_chars, numwant_chars, key_chars, started_chars,
  stopped_chars, completed_chars,
}
use tracker_enhanced.Http.Request.Write.{event_part, numwant_part, key_part, announce_query}

-- The pairs after the first one, with an ampersand before each.
unfoldable pub tail_of : List Pair → List ℕ
tail_of [] = []
tail_of ((key, value) ∷ pairs) = 38 ∷ (key ++ (61 ∷ (value ++ tail_of pairs)))

pub query-tail_of :
    (key value : List ℕ) (pairs : List Pair)
    → query ((key, value) ∷ pairs) ≡ key ++ (61 ∷ (value ++ tail_of pairs))
unfolding query tail_of
query-tail_of key value [] = ap (λ l. key ++ (61 ∷ l)) (sym (append-nil value))
query-tail_of key value ((k, v) ∷ pairs) =
    ap (λ l. key ++ (61 ∷ (value ++ (38 ∷ l)))) (query-tail_of k v pairs)

-- An info hash or a peer id.
abbrev pub IsId : List ℕ → Type 0
IsId bytes = (length bytes ≡ 20) × AllBytes bytes

abbrev pub event_pairs : AnnounceEvent → List Pair
event_pairs AnnounceEvent.started = (event_chars, started_chars) ∷ []
event_pairs AnnounceEvent.stopped = (event_chars, stopped_chars) ∷ []
event_pairs AnnounceEvent.completed = (event_chars, completed_chars) ∷ []
event_pairs AnnounceEvent.empty = []

event_eq :
    (e : AnnounceEvent) (pairs : List Pair)
    → tail_of (event_pairs e ++ pairs) ≡ event_part e ++ tail_of pairs
unfolding tail_of
event_eq AnnounceEvent.started pairs = refl
event_eq AnnounceEvent.stopped pairs = refl
event_eq AnnounceEvent.completed pairs = refl
event_eq AnnounceEvent.empty pairs = refl

unfoldable pub is_plain : List ℕ → Bool
is_plain [] = true
is_plain (c ∷ cs) = not (eqb c 38) && (not (eqb c 61) && is_plain cs)

-- Literal text is plain by computation.
pub literal-IsPlain : (l : List ℕ) → is_plain l ≡ true → IsPlain l
unfolding is_plain
literal-IsPlain [] h = tt
literal-IsPlain (c ∷ cs) h = (ground arith, ground arith, literal-IsPlain cs (ground arith))

event_plain :
    (e : AnnounceEvent) (pairs : List Pair) → ArePlain pairs → ArePlain (event_pairs e ++ pairs)
unfolding is_plain
event_plain AnnounceEvent.started pairs p =
    (literal-IsPlain event_chars refl, literal-IsPlain started_chars refl, p)
event_plain AnnounceEvent.stopped pairs p =
    (literal-IsPlain event_chars refl, literal-IsPlain stopped_chars refl, p)
event_plain AnnounceEvent.completed pairs p =
    (literal-IsPlain event_chars refl, literal-IsPlain completed_chars refl, p)
event_plain AnnounceEvent.empty pairs p = p

module _ (hex : Hex) (itoa : Itoa) (encoding : UrlEncoding) where
  -- What can be written and read back: ids of twenty bytes, numbers of the widths of their types,
  -- and a key that is at most a hundred bytes when it is encoded.
  abbrev pub NumwantFits : Option ℕ → Type 0
  NumwantFits none = Unit
  NumwantFits (some n) = n < u64_mod

  abbrev pub KeyFits : Option (List ℕ) → Type 0
  KeyFits none = Unit
  KeyFits (some key) = len_bytes (encoding.encode key) ≤ 100

  pub record IsWritable (r : AnnounceRequest) : Type 0 where
    pub info_hash : IsId r.info_hash
    pub peer_id : IsId r.peer_id
    pub port : r.port < 2 ^ 16
    pub uploaded : r.bytes_uploaded < u64_mod
    pub downloaded : r.bytes_downloaded < u64_mod
    pub left : r.bytes_left < u64_mod
    pub numwant : NumwantFits r.numwant
    pub key : KeyFits r.key

  abbrev pub numwant_pairs : Option ℕ → List Pair
  numwant_pairs none = []
  numwant_pairs (some n) = (numwant_chars, itoa.format n) ∷ []

  abbrev pub key_pairs : Option (List ℕ) → List Pair
  key_pairs none = []
  key_pairs (some key) = (key_chars, encoding.encode key) ∷ []

  abbrev pub compact_pairs : List Pair
  compact_pairs = (compact_chars, 49 ∷ []) ∷ []

  abbrev pub optional_pairs : AnnounceRequest → List Pair
  optional_pairs r =
      event_pairs r.event ++ (numwant_pairs r.numwant ++ (key_pairs r.key ++ compact_pairs))

  abbrev pub more_pairs : AnnounceRequest → List Pair
  more_pairs r =
      (peer_id_chars, urlencode_20_bytes hex r.peer_id)
      ∷ (port_chars, itoa.format r.port)
      ∷ (uploaded_chars, itoa.format r.bytes_uploaded)
      ∷ (downloaded_chars, itoa.format r.bytes_downloaded)
      ∷ (left_chars, itoa.format r.bytes_left)
      ∷ optional_pairs r

  numwant_eq :
      (n : Option ℕ) (pairs : List Pair)
      → tail_of (numwant_pairs n ++ pairs) ≡ numwant_part hex itoa encoding n ++ tail_of pairs
  unfolding tail_of
  numwant_eq none pairs = refl
  numwant_eq (some n) pairs = refl

  key_eq :
      (k : Option (List ℕ)) (pairs : List Pair)
      → tail_of (key_pairs k ++ pairs) ≡ key_part hex itoa encoding k ++ tail_of pairs
  unfolding tail_of
  key_eq none pairs = refl
  key_eq (some k) pairs = refl

  optional_eq :
      (r : AnnounceRequest)
      → tail_of (optional_pairs r)
        ≡ event_part r.event
          ++ (numwant_part hex itoa encoding r.numwant
              ++ (key_part hex itoa encoding r.key ++ tail_of compact_pairs))
  optional_eq r =
      event_eq r.event (numwant_pairs r.numwant ++ (key_pairs r.key ++ compact_pairs))
      ∙ ap (λ l. event_part r.event ++ l)
          (numwant_eq r.numwant (key_pairs r.key ++ compact_pairs)
            ∙ ap (λ l. numwant_part hex itoa encoding r.numwant ++ l) (key_eq r.key compact_pairs))

  -- What is written is a query of these pairs.
  pub announce_query_eq :
      (r : AnnounceRequest)
      → announce_query hex itoa encoding r
        ≡ query ((info_hash_chars, urlencode_20_bytes hex r.info_hash) ∷ more_pairs r)
  unfolding announce_query tail_of
  announce_query_eq r =
      rw
        (
          query-tail_of info_hash_chars (urlencode_20_bytes hex r.info_hash) (more_pairs r),
          optional_eq r,
        )
        refl

  key_plain : (k : Option (List ℕ)) → ArePlain (key_pairs k ++ compact_pairs)
  unfolding is_plain
  key_plain none = (literal-IsPlain compact_chars refl, literal-IsPlain (49 ∷ []) refl, tt)
  key_plain (some k) = (
    literal-IsPlain key_chars refl,
    encoding.encode-IsPlain k,
    (literal-IsPlain compact_chars refl, literal-IsPlain (49 ∷ []) refl, tt),
  )

  optional_plain :
      (n : Option ℕ) (k : Option (List ℕ))
      → ArePlain (numwant_pairs n ++ (key_pairs k ++ compact_pairs))
  unfolding is_plain
  optional_plain none k = key_plain k
  optional_plain (some n) k =
      (literal-IsPlain numwant_chars refl, format-IsPlain itoa n, key_plain k)

  pub announce_plain :
      (r : AnnounceRequest)
      → IsWritable r
      → ArePlain ((info_hash_chars, urlencode_20_bytes hex r.info_hash) ∷ more_pairs r)
  unfolding is_plain
  announce_plain r w = (
    literal-IsPlain info_hash_chars refl,
    urlencode-IsPlain hex r.info_hash w.info_hash.1,
    (
      literal-IsPlain peer_id_chars refl,
      urlencode-IsPlain hex r.peer_id w.peer_id.1,
      (
        literal-IsPlain port_chars refl,
        format-IsPlain itoa r.port,
        (
          literal-IsPlain uploaded_chars refl,
          format-IsPlain itoa r.bytes_uploaded,
          (
            literal-IsPlain downloaded_chars refl,
            format-IsPlain itoa r.bytes_downloaded,
            (
              literal-IsPlain left_chars refl,
              format-IsPlain itoa r.bytes_left,
              event_plain r.event (numwant_pairs r.numwant ++ (key_pairs r.key ++ compact_pairs))
                  (optional_plain r.numwant r.key),
            ),
          ),
        ),
      ),
    ),
  )
