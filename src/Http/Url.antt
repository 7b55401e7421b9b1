-- ===== src/Http/Url.antt =====
-- crates/http_protocol/src/utils.rs: info hashes and peer ids in a URL. A string is the sequence of
-- its characters, as numbers.
pub mod Roundtrip
use tracker_enhanced.Prelude.{
  ℕ, zero, suc, ◌+◌, ◌%◌, ◌<◌, ◌≡◌, ◌⊎◌, Option, none, some, List, [], ◌∷◌, ltb, eqb, if◌then◌else◌,
}

-- Why a request is refused.
pub data ParseError : Type 0 where
  less_than_20_chars not_single_byte missing_first missing_second hex_decode more_than_20_chars :
      ParseError
  no_key no_value no_location no_query_string unknown_path no_http_path http_parse : ParseError
  parse_port parse_left parse_uploaded parse_downloaded parse_numwant invalid_event : ParseError
  compact_not_1 key_too_long decode_key : ParseError
  no_info_hash no_peer_id no_port no_uploaded no_downloaded no_left no_info_hashes : ParseError

pub data Result {ℓ} (A : Type ℓ) : Type ℓ where
  ok : A → Result A
  err : ParseError → Result A

infixl 5 ◌>>=◌
abbrev pub ◌>>=◌ {ℓ κ} : {A : Type ℓ} {B : Type κ} → Result A → (A → Result B) → Result B
ok a >>= f = f a
err e >>= f = err e

-- `with_context`
abbrev pub with_context {ℓ} : {A : Type ℓ} → ParseError → Option A → Result A
with_context e none = err e
with_context e (some a) = ok a

abbrev pub IsHexDigit : ℕ → Type 0
IsHexDigit c = ((47 < c) × (c < 58)) ⊎ ((96 < c) × (c < 103))

-- What `hex` promises for one byte: two lower case digits, which it reads back.
pub record Hex : Type 0 where
  pub encode_to_slice : ℕ → ℕ × ℕ
  pub decode_to_slice : ℕ → ℕ → Option ℕ
  pub decode-encode :
      (n : ℕ) → n < 256 → decode_to_slice (encode_to_slice n).0 (encode_to_slice n).1 ≡ some n
  pub encode-IsHexDigit :
      (n : ℕ) → n < 256 → IsHexDigit (encode_to_slice n).0 × IsHexDigit (encode_to_slice n).1

module _ (hex : Hex) where
  -- `urlencode_20_bytes`
  unfoldable pub urlencode_20_bytes : List ℕ → List ℕ
  urlencode_20_bytes [] = []
  urlencode_20_bytes (byte ∷ input) =
      37 ∷ (hex.encode_to_slice byte).0 ∷ (hex.encode_to_slice byte).1 ∷ urlencode_20_bytes input

  -- The two characters after a percent sign, each cut to a byte.
  unfoldable pub urldecode_pair : List ℕ → Result (ℕ × List ℕ)
  urldecode_pair [] = err missing_first
  urldecode_pair (first ∷ []) = err missing_second
  urldecode_pair (first ∷ second ∷ chars) = do
    byte ← with_context hex_decode (hex.decode_to_slice (first % 256) (second % 256))
    ok (byte, chars)

  -- The byte that starts with a character, and the characters after it.
  unfoldable pub urldecode_char : ℕ → List ℕ → Result (ℕ × List ℕ)
  urldecode_char c chars =
      if ltb 255 c
      then err not_single_byte
      else (if eqb c 37 then urldecode_pair chars else ok (c, chars))

  -- The loop over the bytes that are still to be read.
  unfoldable pub urldecode_bytes : ℕ → List ℕ → Result (List ℕ × List ℕ)
  urldecode_bytes zero chars = ok ([], chars)
  urldecode_bytes (suc n) [] = err less_than_20_chars
  urldecode_bytes (suc n) (c ∷ chars) = do
    (byte, chars) ← urldecode_char c chars
    (bytes, chars) ← urldecode_bytes n chars
    ok (byte ∷ bytes, chars)

  abbrev pub at_end : List ℕ → List ℕ → Result (List ℕ)
  at_end bytes [] = ok bytes
  at_end bytes (c ∷ chars) = err more_than_20_chars

  -- `urldecode_20_bytes`
  unfoldable pub urldecode_20_bytes : List ℕ → Result (List ℕ)
  urldecode_20_bytes value = do (bytes, chars) ← urldecode_bytes 20 value; at_end bytes chars
