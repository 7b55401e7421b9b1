-- ===== src/Tests/HttpRequest.antt =====
-- Witnesses for the requests of crates/http_protocol: crates that do what the interfaces ask for, and
-- an announce with all parts.
use tracker_enhanced.Prelude.{
  ℕ, suc, zero, ◌+◌, ◌-◌, ◌*◌, ◌/◌, ◌%◌, ◌≤◌, ◌<◌, ◌≡◌, refl, ap, sym, inl, inr, false, ◌&&◌,
  Option, none, some, List, [], ◌∷◌, ◌++◌, arith, ltb, eqb, eqb_iff, if◌then◌else◌, length,
  length-append, ◌>>=◌, Bool-cases,
}
use tracker_enhanced.Tests.Data.{repeat}
use tracker_enhanced.Http.Messages.{AnnounceEvent, AnnounceRequest, ResponsePeer, ScrapeStatistics}
use tracker_enhanced.UdpProtocol.Bytes.{Bytes}
use tracker_enhanced.Http.Response.{Response, peers_bytes, visit_bytes, write_bytes}
use tracker_enhanced.Http.Response.Compact.{visit_bytes-peers_bytes}
use tracker_enhanced.Http.Response.Bencode.{IsDecimal, bencode, value_of, write_bytes-bencode}
use tracker_enhanced.Http.Numbers.{Itoa, AllDigits, from_digits}
use tracker_enhanced.Http.Query.{Memchr, positions, parse_query, each_pair}
use tracker_enhanced.Http.Query.Pairs.{query, parse_query_lem}
use tracker_enhanced.Http.Url.{Hex, IsHexDigit, ok}
use tracker_enhanced.Http.Url.Roundtrip.{AllBytes, IsPlain}
use tracker_enhanced.Http.Request.{
  UrlEncoding, Request, nothing_found, note_pair, len_bytes, parse_http_get_path,
}
use tracker_enhanced.Http.Request.Write.{path}
use tracker_enhanced.Http.Request.Roundtrip.{parse_path-write}

abbrev digit : ℕ → ℕ
digit d = if ltb d 10 then 48 + d else 87 + d

abbrev nibble : ℕ → Option ℕ
nibble c =
    if ltb 47 c && ltb c 58
    then some (c - 48)
    else (if ltb 96 c && ltb c 103 then some (c - 87) else none)

nibble-digit : (d : ℕ) → d < 16 → nibble (digit d) ≡ some d
nibble-digit d h = ground arith

digit-IsHexDigit : (d : ℕ) → d < 16 → IsHexDigit (digit d)
digit-IsHexDigit d h = elim (Bool-cases (ltb d 10)) [
  | inl low ↦ rw low (inl (omega arith, ground arith))
  | inr high ↦ rw high (inr (ground arith, omega arith))
]

abbrev hex : Hex
hex = record {
  encode_to_slice = λ n. (digit (n / 16), digit (n % 16));
  decode_to_slice = λ a b. nibble a >>= λ high. nibble b >>= λ low. some (16 * high + low);
  decode-encode = λ n h.
      rw (nibble-digit (n / 16) (omega arith), nibble-digit (n % 16) (omega arith))
        (ap some (omega arith));
  encode-IsHexDigit =
      λ n h. (digit-IsHexDigit (n / 16) (omega arith), digit-IsHexDigit (n % 16) (omega arith));
}

-- Decimal digits, with fuel.
unfoldable decimal : ℕ → ℕ → List ℕ
decimal zero n = 48 ∷ []
decimal (suc fuel) n =
    if ltb n 10 then (48 + n) ∷ [] else decimal fuel (n / 10) ++ (48 + n % 10) ∷ []

digits-append : (xs ys : List ℕ) → AllDigits xs → AllDigits ys → AllDigits (xs ++ ys)
digits-append [] ys a b = b
digits-append (x ∷ xs) ys (low, high, a) b = (low, high, digits-append xs ys a b)

decimal-AllDigits : (fuel n : ℕ) → AllDigits (decimal fuel n)
unfolding decimal
decimal-AllDigits zero n = (omega arith, omega arith, tt)
decimal-AllDigits (suc fuel) n = elim (Bool-cases (ltb n 10)) [
  | inl small ↦ rw small (omega arith, ground arith, tt)
  | inr big ↦ rw big (
      digits-append (decimal fuel (n / 10)) ((48 + n % 10) ∷ []) (decimal-AllDigits fuel (n / 10))
        (omega arith, omega arith, tt))
]

from_digits-append :
    (acc c : ℕ) (l : List ℕ) → from_digits acc (l ++ c ∷ []) ≡ from_digits acc l * 10 + (c - 48)
unfolding from_digits
from_digits-append acc c [] = refl
from_digits-append acc c (x ∷ l) = from_digits-append (acc * 10 + (x - 48)) c l

from_digits-decimal : (fuel n : ℕ) → n < fuel → from_digits 0 (decimal fuel n) ≡ n
unfolding decimal from_digits
from_digits-decimal zero n h = absurd (omega arith)
from_digits-decimal (suc fuel) n h = elim (Bool-cases (ltb n 10)) [
  | inl small ↦ rw small (omega arith)
  | inr big ↦
      rw (big, from_digits-append 0 (48 + n % 10) (decimal fuel (n / 10)))
        (omega (arith, from_digits-decimal fuel (n / 10) (ground arith)))
]

length-decimal : (fuel n : ℕ) → 1 ≤ length (decimal fuel n)
unfolding decimal
length-decimal zero n = omega arith
length-decimal (suc fuel) n = elim (Bool-cases (ltb n 10)) [
  | inl small ↦ rw small (omega arith)
  | inr big ↦ rw big (omega (arith, length-append (decimal fuel (n / 10)) ((48 + n % 10) ∷ [])))
]

abbrev itoa : Itoa
itoa = record {
  format = λ n. decimal (suc n) n;
  format-AllDigits = λ n. decimal-AllDigits (suc n) n;
  from_digits-format = λ n. from_digits-decimal (suc n) n (omega arith);
  length-format = λ n. length-decimal (suc n) n;
}

abbrev memchr : Memchr
memchr = record {
  memchr_iter = λ needle s. positions needle 0 s;
  memchr_iter_lem = λ needle s. refl;
}

-- Percent signs, ampersands and equals signs are escaped.
data Escape : Type 0 where
  outside : Escape
  first : Escape
  second : ℕ → Escape

abbrev unescaped : ℕ → ℕ → ℕ
unescaped a b = (a - 48) * 16 + (if ltb b 58 then b - 48 else b - 55)

unfoldable escape : List ℕ → List ℕ
escape [] = []
escape (c ∷ cs) =
    let rest = escape cs in
    if eqb c 37
    then 37 ∷ 50 ∷ 53 ∷ rest
    else (if eqb c 38
        then 37 ∷ 50 ∷ 54 ∷ rest
        else (if eqb c 61 then 37 ∷ 51 ∷ 68 ∷ rest else c ∷ rest))

unfoldable unescape : Escape → List ℕ → Option (List ℕ)
unescape state [] = some []
unescape outside (c ∷ cs) =
    if eqb c 37 then unescape first cs else (unescape outside cs >>= λ l. some (c ∷ l))
unescape first (c ∷ cs) = unescape (second c) cs
unescape (second a) (c ∷ cs) = unescape outside cs >>= λ l. some (unescaped a c ∷ l)

unescape-escape : (s : List ℕ) → unescape outside (escape s) ≡ some s
unfolding unescape escape
unescape-escape [] = refl
unescape-escape (c ∷ s) = elim (Bool-cases (eqb c 37)) [
  | inl percent ↦
      rw (percent, unescape-escape s) (ap (λ x. some (x ∷ s)) (sym ((eqb_iff c 37).0 percent)))
  | inr other ↦ elim (Bool-cases (eqb c 38)) [
    | inl ampersand ↦
        rw (other, ampersand, unescape-escape s)
          (ap (λ x. some (x ∷ s)) (sym ((eqb_iff c 38).0 ampersand)))
    | inr not_ampersand ↦ elim (Bool-cases (eqb c 61)) [
      | inl equals ↦
          rw (other, not_ampersand, equals, unescape-escape s)
            (ap (λ x. some (x ∷ s)) (sym ((eqb_iff c 61).0 equals)))
      | inr plain ↦ rw (other, not_ampersand, plain, other, unescape-escape s) refl
    ]
  ]
]

escape-IsPlain : (s : List ℕ) → IsPlain (escape s)
unfolding escape
escape-IsPlain [] = tt
escape-IsPlain (c ∷ s) =
    let rest = escape-IsPlain s in
    elim (Bool-cases (eqb c 37)) [
      | inl percent ↦ rw percent (refl, refl, (refl, refl, (refl, refl, rest)))
      | inr other ↦ elim (Bool-cases (eqb c 38)) [
        | inl ampersand ↦ rw (other, ampersand) (refl, refl, (refl, refl, (refl, refl, rest)))
        | inr not_ampersand ↦ elim (Bool-cases (eqb c 61)) [
          | inl equals ↦
              rw (other, not_ampersand, equals) (refl, refl, (refl, refl, (refl, refl, rest)))
          | inr plain ↦ rw (other, not_ampersand, plain) (not_ampersand, plain, rest)
        ]
      ]
    ]

abbrev encoding : UrlEncoding
encoding = record {
  encode = escape;
  decode = unescape outside;
  decode-encode = unescape-escape;
  encode-IsPlain = escape-IsPlain;
}

repeat-AllBytes : (n b : ℕ) → b < 256 → AllBytes (repeat n b)
repeat-AllBytes zero b h = tt
repeat-AllBytes (suc n) b h = (h, repeat-AllBytes n b h)

abbrev request : AnnounceRequest
request = record {
  info_hash = repeat 20 38;
  peer_id = repeat 20 200;
  port = 6881;
  bytes_uploaded = 0;
  bytes_downloaded = 10;
  bytes_left = 4000000000;
  event = AnnounceEvent.started;
  numwant = some 30;
  key = some (97 ∷ 38 ∷ 98 ∷ []);
}

parse_path-write_example :
    parse_http_get_path hex encoding memchr (path hex itoa encoding [] (Request.announce request))
    ≡ ok (Request.announce request)
unfolding len_bytes escape
parse_path-write_example =
    parse_path-write hex itoa encoding memchr (Request.announce request) (record {
      info_hash = (refl, repeat-AllBytes 20 38 (omega arith));
      peer_id = (refl, repeat-AllBytes 20 200 (omega arith));
      port = omega arith;
      uploaded = omega arith;
      downloaded = omega arith;
      left = omega arith;
      numwant = omega arith;
      key = omega arith;
    })

parse_query_lem_example :
    parse_query
      (note_pair hex encoding)
      memchr
      (query (((120 ∷ []), 121 ∷ []) ∷ ((110 ∷ []), []) ∷ []))
      nothing_found
    ≡ each_pair
        (note_pair hex encoding)
        (((120 ∷ []), 121 ∷ []) ∷ ((110 ∷ []), []) ∷ [])
        nothing_found
parse_query_lem_example =
    parse_query_lem (note_pair hex encoding) memchr ((120 ∷ []), 121 ∷ []) (((110 ∷ []), []) ∷ [])
      nothing_found ((refl, refl, tt), (refl, refl, tt), ((refl, refl, tt), tt, tt))

abbrev peer_list : ℕ → List (ResponsePeer Bytes)
peer_list n = record { ip_address = repeat n 127; port = 6881 } ∷ []

visit_bytes-peers_bytes_example :
    (visit_bytes 4 (peers_bytes (peer_list 4)) ≡ some (peer_list 4))
    × (visit_bytes 16 (peers_bytes (peer_list 16)) ≡ some (peer_list 16))
visit_bytes-peers_bytes_example =
    visit_bytes-peers_bytes (peer_list 4) (peer_list 16) (refl, omega arith, tt)
      (refl, omega arith, tt)

abbrev files : List (Bytes × ScrapeStatistics)
files = (repeat 20 5, record { complete = 1; incomplete = 2; downloaded = 3 }) ∷ []

decimal_eq : (f g n : ℕ) → n < f → n < g → decimal f n ≡ decimal g n
unfolding decimal
decimal_eq zero g n small other = absurd (omega arith)
decimal_eq (suc f) zero n small other = absurd (omega arith)
decimal_eq (suc f) (suc g) n small other = elim (Bool-cases (ltb n 10)) [
  | inl one ↦ rw one refl
  | inr more ↦
      rw more
        (ap (λ l. l ++ (48 + n % 10) ∷ []) (decimal_eq f g (n / 10) (ground arith) (ground arith)))
]

decimal_one : (n : ℕ) → n < 10 → decimal (suc n) n ≡ (48 + n) ∷ []
unfolding decimal
decimal_one n h = ground arith

decimal_more :
    (n : ℕ) → 10 ≤ n → decimal (suc n) n ≡ decimal (suc (n / 10)) (n / 10) ++ (48 + n % 10) ∷ []
unfolding decimal
decimal_more n h =
    let big : ltb n 10 ≡ false = ground arith in
    rw big (
      ap (λ l. l ++ (48 + n % 10) ∷ [])
        (decimal_eq n (suc (n / 10)) (n / 10) (omega arith) (omega arith)))

itoa-IsDecimal : IsDecimal itoa
itoa-IsDecimal = record { one_digit = decimal_one; more_digits = decimal_more }

write_bytes-bencode_example :
    write_bytes itoa (Response.scrape (record { files = files }))
    ≡ bencode itoa (value_of (Response.scrape (record { files = files })))
write_bytes-bencode_example =
    write_bytes-bencode itoa itoa-IsDecimal (Response.scrape (record { files = files })) (refl, tt)
