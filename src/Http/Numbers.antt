-- ===== src/Http/Numbers.antt =====
-- The parsing of numbers as `str::parse` does it, and their writing by `itoa`.
use tracker_enhanced.Prelude.{
  ℕ, ◌+◌, ◌-◌, ◌*◌, ◌^◌, ◌≤◌, ◌<◌, ◌≡◌, refl, ◌&&◌, Bool, true, ap, ◌∙◌, length, lt→ltb, false,
  Option, none, some, List, [], ◌∷◌, arith, ltb, eqb, if◌then◌else◌, u64_mod,
}
use mathlib.Core.Option.{map}
use tracker_enhanced.Http.Url.Roundtrip.{IsPlain}

abbrev pub is_digit : ℕ → Bool
is_digit c = ltb 47 c && ltb c 58

-- The digits after a number, which stays below a limit.
unfoldable pub parse_digits : ℕ → ℕ → List ℕ → Option ℕ
parse_digits limit acc [] = some acc
parse_digits limit acc (c ∷ cs) =
    let n = acc * 10 + (c - 48) in
    if is_digit c && ltb n limit then parse_digits limit n cs else none

-- `parse` of an unsigned integer below a limit: digits, perhaps after a plus sign.
unfoldable pub parse_unsigned : ℕ → List ℕ → Option ℕ
parse_unsigned limit [] = none
parse_unsigned limit (c ∷ []) = parse_digits limit 0 (c ∷ [])
parse_unsigned limit (c ∷ d ∷ cs) =
    if eqb c 43 then parse_digits limit 0 (d ∷ cs) else parse_digits limit 0 (c ∷ d ∷ cs)

-- `usize::try_from(parsed).ok()` of a number that is not negative, and of a negated one.
abbrev pub to_usize : ℕ → Option ℕ
to_usize n = if ltb n u64_mod then some n else none

abbrev pub negated_to_usize : ℕ → Option ℕ
negated_to_usize n = if eqb n 0 then some 0 else none

-- `parse::<i128>`, then `usize::try_from(parsed).ok()`.
unfoldable pub parse_numwant : List ℕ → Option (Option ℕ)
parse_numwant [] = none
parse_numwant (c ∷ []) = map to_usize (parse_unsigned (2 ^ 127) (c ∷ []))
parse_numwant (c ∷ d ∷ cs) =
    if eqb c 45
    then map negated_to_usize (parse_digits (2 ^ 127 + 1) 0 (d ∷ cs))
    else map to_usize (parse_unsigned (2 ^ 127) (c ∷ d ∷ cs))

-- The number that digits make.
unfoldable pub from_digits : ℕ → List ℕ → ℕ
from_digits acc [] = acc
from_digits acc (c ∷ cs) = from_digits (acc * 10 + (c - 48)) cs

abbrev pub AllDigits : List ℕ → Type 0
AllDigits [] = Unit
AllDigits (c ∷ cs) = (47 < c) × (c < 58) × AllDigits cs

-- What `itoa` promises: the decimal digits of the number, at least one.
pub record Itoa : Type 0 where
  pub format : ℕ → List ℕ
  pub format-AllDigits : (n : ℕ) → AllDigits (format n)
  pub from_digits-format : (n : ℕ) → from_digits 0 (format n) ≡ n
  pub length-format : (n : ℕ) → 1 ≤ length (format n)

from_digits-le : (acc : ℕ) (l : List ℕ) → acc ≤ from_digits acc l
unfolding from_digits
from_digits-le acc [] = omega arith
from_digits-le acc (c ∷ cs) = omega (arith, from_digits-le (acc * 10 + (c - 48)) cs)

digits_eq :
    (limit acc : ℕ) (l : List ℕ)
    → AllDigits l
    → from_digits acc l < limit
    → parse_digits limit acc l ≡ some (from_digits acc l)
unfolding parse_digits from_digits
digits_eq limit acc [] d h = refl
digits_eq limit acc (c ∷ cs) (low, high, d) h =
    let n = acc * 10 + (c - 48) in
    let below : ltb n limit ≡ true = lt→ltb n limit (omega (arith, from_digits-le n cs, h)) in
    rw (lt→ltb 47 c low, lt→ltb c 58 high, below) (digits_eq limit n cs d h)

unsigned_eq :
    (limit : ℕ) (l : List ℕ)
    → AllDigits l
    → 1 ≤ length l
    → from_digits 0 l < limit
    → parse_unsigned limit l ≡ some (from_digits 0 l)
unfolding parse_unsigned
unsigned_eq limit [] d long h = absurd (omega arith)
unsigned_eq limit (c ∷ []) d long h = digits_eq limit 0 (c ∷ []) d h
unsigned_eq limit (c ∷ e ∷ cs) d long h =
    let no_sign : eqb c 43 ≡ false = ground (arith, d.0) in
    rw no_sign (digits_eq limit 0 (c ∷ e ∷ cs) d h)

digits-IsPlain : (l : List ℕ) → AllDigits l → IsPlain l
digits-IsPlain [] d = tt
digits-IsPlain (c ∷ cs) (low, high, d) = (ground arith, ground arith, digits-IsPlain cs d)

numwant_eq :
    (l : List ℕ)
    → AllDigits l
    → 1 ≤ length l
    → from_digits 0 l < u64_mod
    → parse_numwant l ≡ some (some (from_digits 0 l))
unfolding parse_numwant
numwant_eq [] d long h = absurd (omega arith)
numwant_eq (c ∷ []) d long h =
    rw
      (
        unsigned_eq (2 ^ 127) (c ∷ []) d long (omega (arith, h)),
        lt→ltb (from_digits 0 (c ∷ [])) u64_mod h,
      )
      refl
numwant_eq (c ∷ e ∷ cs) d long h =
    let no_sign : eqb c 45 ≡ false = ground (arith, d.0) in
    rw
      (
        no_sign,
        unsigned_eq (2 ^ 127) (c ∷ e ∷ cs) d long (omega (arith, h)),
        lt→ltb (from_digits 0 (c ∷ e ∷ cs)) u64_mod h,
      )
      refl

module _ (itoa : Itoa) where
  -- A number comes back from what `itoa` makes of it.
  pub parse_unsigned-format :
      (limit n : ℕ) → n < limit → parse_unsigned limit (itoa.format n) ≡ some n
  parse_unsigned-format limit n h =
      unsigned_eq limit (itoa.format n) (itoa.format-AllDigits n) (itoa.length-format n)
        (omega (arith, itoa.from_digits-format n, h))
      ∙ ap some (itoa.from_digits-format n)

  pub parse_numwant-format : (n : ℕ) → n < u64_mod → parse_numwant (itoa.format n) ≡ some (some n)
  parse_numwant-format n h =
      numwant_eq (itoa.format n) (itoa.format-AllDigits n) (itoa.length-format n)
        (omega (arith, itoa.from_digits-format n, h))
      ∙ ap (λ m. some (some m)) (itoa.from_digits-format n)

  pub format-IsPlain : (n : ℕ) → IsPlain (itoa.format n)
  format-IsPlain n = digits-IsPlain (itoa.format n) (itoa.format-AllDigits n)
