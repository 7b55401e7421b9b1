-- ===== src/UdpProtocol/Bytes.antt =====
-- Integers in network byte order (`to_be_bytes` and `from_be_bytes` of the standard library) and
-- reads from a slice. A wire integer (`I64`, `I32`, `U16`) is kept as its bytes.
use tracker_enhanced.Prelude.{
  ℕ, zero, suc, ◌+◌, ◌-◌, ◌*◌, ◌/◌, ◌%◌, ◌^◌, ◌<◌, ◌≡◌, refl, ap, Option, none, some, List, [], ◌∷◌,
  ◌++◌, arith, ltb, leb, if◌then◌else◌, length, take, drop, length-append, length-take,
  take-append-drop,
}
use tracker_enhanced.Prelude.Int.{ℤ, pos, negsuc}

abbrev pub Bytes : Type 0
Bytes = List ℕ

-- The `n` bytes of a number, the most significant first.
unfoldable pub to_be_bytes : ℕ → ℕ → Bytes
to_be_bytes zero v = []
to_be_bytes (suc n) v = ((v / 256 ^ n) % 256) ∷ to_be_bytes n v

unfoldable pub from_be : ℕ → Bytes → ℕ
from_be acc [] = acc
from_be acc (b ∷ bs) = from_be (acc * 256 + b) bs

abbrev pub from_be_bytes : Bytes → ℕ
from_be_bytes = from_be 0

-- Two's complement, `half` being 2^(bits - 1).
abbrev pub signed : ℕ → ℕ → ℤ
signed half v = if ltb v half then pos v else negsuc (2 * half - v - 1)

-- `get` of an `I32` and of an `I64`.
unfoldable pub get_i32 : Bytes → ℤ
get_i32 bs = signed (2 ^ 31) (from_be_bytes bs)

unfoldable pub get_i64 : Bytes → ℤ
get_i64 bs = signed (2 ^ 63) (from_be_bytes bs)

unfoldable pub get_u16 : Bytes → ℕ
get_u16 bs = from_be_bytes bs

pub length-to_be_bytes : (n v : ℕ) → length (to_be_bytes n v) ≡ n
unfolding to_be_bytes
length-to_be_bytes zero v = refl
length-to_be_bytes (suc n) v = ap suc (length-to_be_bytes n v)

-- `Read::read_exact` on a slice: the next `n` bytes and what follows them.
unfoldable pub read_exact : ℕ → Bytes → Option (Bytes × Bytes)
read_exact n bs = if leb n (length bs) then some (take n bs, drop n bs) else none

pub take_append {ℓ} : {A : Type ℓ} (xs ys : List A) → take (length xs) (xs ++ ys) ≡ xs
take_append [] ys = refl
take_append (x ∷ xs) ys = ap (◌∷◌ x) (take_append xs ys)

pub drop_append {ℓ} : {A : Type ℓ} (xs ys : List A) → drop (length xs) (xs ++ ys) ≡ ys
drop_append [] ys = refl
drop_append (x ∷ xs) ys = drop_append xs ys

pub read_exact-append :
    (n : ℕ) (xs ys : Bytes) → length xs ≡ n → read_exact n (xs ++ ys) ≡ some (xs, ys)
unfolding read_exact
read_exact-append n xs ys h =
    ground (arith, h, length-append xs ys, take_append xs ys, drop_append xs ys)

pub take-append_length {ℓ} :
    {A : Type ℓ} (n : ℕ) (xs ys : List A) → length xs ≡ n → take n (xs ++ ys) ≡ xs
take-append_length n xs ys h = rw (← h) (take_append xs ys)

pub drop-append_length {ℓ} :
    {A : Type ℓ} (n : ℕ) (xs ys : List A) → length xs ≡ n → drop n (xs ++ ys) ≡ ys
drop-append_length n xs ys h = rw (← h) (drop_append xs ys)

pub read_exact_sound :
    (n : ℕ) (bs xs ys : Bytes) → read_exact n bs ≡ some (xs, ys) → (bs ≡ xs ++ ys) × (length xs ≡ n)
unfolding read_exact
read_exact_sound n bs xs ys h = ground (arith, take-append-drop n bs, length-take n bs)

-- A number below 2^32 comes back from its four bytes.
pub from_be_bytes-to_be_bytes : (v : ℕ) → v < 2 ^ 32 → from_be_bytes (to_be_bytes 4 v) ≡ v
unfolding from_be to_be_bytes
from_be_bytes-to_be_bytes v h = omega arith

-- So does a signed one that is not negative.
pub get_i32-to_be_bytes : (v : ℕ) → v < 2 ^ 31 → get_i32 (to_be_bytes 4 v) ≡ pos v
unfolding get_i32
get_i32-to_be_bytes v h = ground (arith, from_be_bytes-to_be_bytes v)
