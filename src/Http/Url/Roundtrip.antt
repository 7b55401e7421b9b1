-- ===== src/Http/Url/Roundtrip.antt =====
-- Bytes come back from their URL encoding, and what else is decoded has twenty bytes.
use tracker_enhanced.Prelude.{
  ℕ, ◌%◌, ◌<◌, ◌≡◌, refl, false, sym, List, [], ◌∷◌, ◌++◌, arith, length, eqb, inl, inr,
}
use mathlib.Core.List.{append-nil}
use tracker_enhanced.Http.Url.{
  Hex, IsHexDigit, ok, urlencode_20_bytes, urldecode_pair, urldecode_char, urldecode_bytes,
  urldecode_20_bytes,
}

abbrev pub AllBytes : List ℕ → Type 0
AllBytes [] = Unit
AllBytes (b ∷ bs) = (b < 256) × AllBytes bs

-- Neither an ampersand nor an equals sign is in it.
abbrev pub IsPlain : List ℕ → Type 0
IsPlain [] = Unit
IsPlain (c ∷ cs) = (eqb c 38 ≡ false) × (eqb c 61 ≡ false) × IsPlain cs

digit_small : (c : ℕ) → IsHexDigit c → c % 256 ≡ c
digit_small c (inl (a, b)) = omega arith
digit_small c (inr (a, b)) = omega arith

digit_plain : (c : ℕ) → IsHexDigit c → (eqb c 38 ≡ false) × (eqb c 61 ≡ false)
digit_plain c (inl (a, b)) = (ground arith, ground arith)
digit_plain c (inr (a, b)) = (ground arith, ground arith)

module _ (hex : Hex) where
  pub urlencode-IsPlain : (bs : List ℕ) → AllBytes bs → IsPlain (urlencode_20_bytes hex bs)
  unfolding urlencode_20_bytes
  urlencode-IsPlain [] h = tt
  urlencode-IsPlain (b ∷ bs) (lt, h) =
      let (one, two) = hex.encode-IsHexDigit b lt in
      let p = digit_plain (hex.encode_to_slice b).0 one in
      let q = digit_plain (hex.encode_to_slice b).1 two in
      (refl, refl, (p.0, p.1, (q.0, q.1, urlencode-IsPlain bs h)))

  urldecode_pair_eq :
      (b : ℕ) (rest : List ℕ)
      → b < 256
      → urldecode_pair hex ((hex.encode_to_slice b).0 ∷ (hex.encode_to_slice b).1 ∷ rest)
        ≡ ok (b, rest)
  unfolding urldecode_pair
  urldecode_pair_eq b rest lt =
      let (one, two) = hex.encode-IsHexDigit b lt in
      rw
        (
          digit_small (hex.encode_to_slice b).0 one,
          digit_small (hex.encode_to_slice b).1 two,
          hex.decode-encode b lt,
        )
        refl

  urldecode_bytes_eq :
      (bs rest : List ℕ)
      → AllBytes bs
      → urldecode_bytes hex (length bs) (urlencode_20_bytes hex bs ++ rest) ≡ ok (bs, rest)
  unfolding urldecode_bytes urlencode_20_bytes urldecode_char
  urldecode_bytes_eq [] rest h = refl
  urldecode_bytes_eq (b ∷ bs) rest (lt, h) =
      rw (urldecode_pair_eq b (urlencode_20_bytes hex bs ++ rest) lt, urldecode_bytes_eq bs rest h)
        refl

  -- Twenty bytes come back from their URL encoding.
  pub urldecode-urlencode :
      (bs : List ℕ)
      → length bs ≡ 20
      → AllBytes bs
      → urldecode_20_bytes hex (urlencode_20_bytes hex bs) ≡ ok bs
  unfolding urldecode_20_bytes
  urldecode-urlencode bs size h =
      let read : urldecode_bytes hex 20 (urlencode_20_bytes hex bs) ≡ ok (bs, []) =
        rw (sym size, sym (append-nil (urlencode_20_bytes hex bs))) (urldecode_bytes_eq bs [] h) in
      rw read refl
