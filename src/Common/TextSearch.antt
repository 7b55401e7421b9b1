-- ===== src/Common/TextSearch.antt =====
-- crates/common/src/lib.rs: the search for a text in another that ignores the case of ASCII letters.
-- A string is its bytes in UTF-8.
use mathlib.Core.Path.{subst}
use tracker_enhanced.Prelude.{
  ℕ, ◌+◌, ◌≤◌, ◌≡◌, ◌↔◌, refl, sym, ap, inl, inr, Bool, true, false, ◌&&◌, ◌||◌, [], ◌∷◌, ◌++◌, map,
  arith, ◌==◌, list_eq, nat_eq, leb, le→leb, if◌then◌else◌, take, drop, length, length-append,
  length-map, length-take, take-append-drop, Bool-cases,
}
use tracker_enhanced.UdpProtocol.Bytes.{Bytes}

-- `u8::to_ascii_lowercase`
unfoldable pub to_ascii_lowercase : ℕ → ℕ
to_ascii_lowercase b = if leb 65 b && leb b 90 then b + 32 else b

-- `<[u8]>::eq_ignore_ascii_case`
unfoldable pub eq_ignore_ascii_case : Bytes → Bytes → Bool
eq_ignore_ascii_case xs ys = map to_ascii_lowercase xs == map to_ascii_lowercase ys

-- `windows(n).any(p)`, for a positive `n`.
unfoldable pub any_window : ℕ → (Bytes → Bool) → Bytes → Bool
any_window n p [] = false
any_window n p (x ∷ xs) = (leb n (length (x ∷ xs)) && p (take n (x ∷ xs))) || any_window n p xs

-- `contains_ascii_case_insensitive`
unfoldable pub contains_ascii_case_insensitive : Bytes → Bytes → Bool
contains_ascii_case_insensitive haystack [] = true
contains_ascii_case_insensitive haystack (b ∷ bs) =
    leb (length (b ∷ bs)) (length haystack)
    && any_window (length (b ∷ bs)) (λ window. eq_ignore_ascii_case window (b ∷ bs)) haystack

-- The haystack has a part that is the needle, but for the case of letters.
abbrev pub Occurs : Bytes → Bytes → Type 0
Occurs haystack needle =
    (front : Bytes) × (middle : Bytes) × (back : Bytes) × (haystack ≡ front ++ middle ++ back)
    × (map to_ascii_lowercase middle ≡ map to_ascii_lowercase needle)

-- A part of a given length that passes a test.
abbrev Window : ℕ → (Bytes → Bool) → Bytes → Type 0
Window n p xs =
    (front : Bytes) × (middle : Bytes) × (back : Bytes) × (xs ≡ front ++ middle ++ back)
    × (length middle ≡ n)
    × (p middle ≡ true)

take_prefix : (m b : Bytes) → take (length m) (m ++ b) ≡ m
take_prefix [] b = refl
take_prefix (x ∷ m) b = ap (◌∷◌ x) (take_prefix m b)

module _ (n : ℕ) (p : Bytes → Bool) where
  shift : (x : ℕ) (xs : Bytes) → Window n p xs → Window n p (x ∷ xs)
  shift x xs (front, middle, back, q, size, ok) = (x ∷ front, middle, back, ap (◌∷◌ x) q, size, ok)

  any_window-Window : (xs : Bytes) → any_window n p xs ≡ true → Window n p xs
  unfolding any_window
  any_window-Window [] h = absurd cc
  any_window-Window (x ∷ xs) h =
      elim (Bool-cases (leb n (length (x ∷ xs)) && p (take n (x ∷ xs)))) [
        | inl here ↦ (
          [],
          take n (x ∷ xs),
          drop n (x ∷ xs),
          sym (take-append-drop n (x ∷ xs)),
          size here,
          passes here,
        )
        | inr there ↦ shift x xs (any_window-Window xs (later there))
      ]
    where
      size : (leb n (length (x ∷ xs)) && p (take n (x ∷ xs))) ≡ true → length (take n (x ∷ xs)) ≡ n
      size here = ground (arith, length-take n (x ∷ xs))

      passes : (leb n (length (x ∷ xs)) && p (take n (x ∷ xs))) ≡ true → p (take n (x ∷ xs)) ≡ true
      passes here = ground arith

      later : (leb n (length (x ∷ xs)) && p (take n (x ∷ xs))) ≡ false → any_window n p xs ≡ true
      later there = ground arith

  window_found :
      (front m b : Bytes) (x : ℕ)
      → length (x ∷ m) ≡ n
      → p (x ∷ m) ≡ true
      → any_window n p (front ++ (x ∷ m) ++ b) ≡ true
  unfolding any_window
  window_found [] m b x size ok =
      ground (arith, sym size, take_prefix (x ∷ m) b, length-append (x ∷ m) b, ok)
  window_found (y ∷ front) m b x size ok = ground (arith, window_found front m b x size ok)

same_length :
    (xs ys : Bytes) → map to_ascii_lowercase xs ≡ map to_ascii_lowercase ys → length xs ≡ length ys
same_length xs ys h =
    omega (arith, length-map to_ascii_lowercase xs, length-map to_ascii_lowercase ys, ap length h)

found :
    (haystack : Bytes) (b : ℕ) (bs : Bytes)
    → Occurs haystack (b ∷ bs)
    → contains_ascii_case_insensitive haystack (b ∷ bs) ≡ true
unfolding contains_ascii_case_insensitive eq_ignore_ascii_case
found haystack b bs (front, [], back, q, same) =
    absurd (omega (arith, same_length [] (b ∷ bs) same))
found haystack b bs (front, x ∷ m, back, q, same) =
    let size = same_length (x ∷ m) (b ∷ bs) same in
    let fits : length (b ∷ bs) ≤ length (front ++ (x ∷ m) ++ back) =
      grind (arith, size, length-append) in
    let window =
      window_found (length (b ∷ bs)) (λ window. eq_ignore_ascii_case window (b ∷ bs)) front m back x
        size ((list_eq.beq_iff _ _).1 same) in
    subst (λ l. contains_ascii_case_insensitive l (b ∷ bs) ≡ true) (sym q)
      (rw (le→leb _ _ fits, window) refl)

occurs :
    (haystack : Bytes) (b : ℕ) (bs : Bytes)
    → contains_ascii_case_insensitive haystack (b ∷ bs) ≡ true
    → Occurs haystack (b ∷ bs)
unfolding contains_ascii_case_insensitive eq_ignore_ascii_case
occurs haystack b bs h =
    let (front, middle, back, q, size, ok) =
      any_window-Window (length (b ∷ bs)) (λ window. eq_ignore_ascii_case window (b ∷ bs)) haystack
        (ground arith) in
    (front, middle, back, q, (list_eq.beq_iff _ _).0 ok)

-- The search finds a needle exactly if a part of the haystack is the needle, but for the case of
-- ASCII letters.
pub contains_ascii_case_insensitive_iff :
    (haystack needle : Bytes)
    → (contains_ascii_case_insensitive haystack needle ≡ true) ↔ Occurs haystack needle
unfolding contains_ascii_case_insensitive
contains_ascii_case_insensitive_iff haystack [] = (λ _. ([], [], haystack, refl, refl), λ _. refl)
contains_ascii_case_insensitive_iff haystack (b ∷ bs) = (occurs haystack b bs, found haystack b bs)
