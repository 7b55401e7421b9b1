-- ===== src/Http/Query/Pairs.antt =====
-- The loop reads a query as the pairs that it is written from.
use mathlib.Core.Path.{subst, fun_ext}
use mathlib.Core.List.{append_assoc, append-nil}
use tracker_enhanced.Prelude.{
  ℕ, ◌+◌, ◌-◌, ◌≡◌, refl, sym, ap, ◌∙◌, true, false, some, List, [], ◌∷◌, ◌++◌, arith, length, leb,
  eqb, length-append, Bool-cases, inl, inr,
}
use tracker_enhanced.UdpProtocol.Bytes.{take_append, drop_append}
use tracker_enhanced.Http.Url.{Result, ok, ◌>>=◌}
use tracker_enhanced.Http.Url.Roundtrip.{IsPlain}
use tracker_enhanced.Http.Query.{Memchr, positions, get, parse_pairs, parse_query, each_pair}

abbrev pub Pair : Type 0
Pair = List ℕ × List ℕ

-- `key=value` with ampersands between.
unfoldable pub query : List Pair → List ℕ
query [] = []
query ((key, value) ∷ []) = key ++ (61 ∷ value)
query ((key, value) ∷ next ∷ pairs) = key ++ (61 ∷ (value ++ (38 ∷ query (next ∷ pairs))))

abbrev pub ArePlain : List Pair → Type 0
ArePlain [] = Unit
ArePlain ((key, value) ∷ pairs) = IsPlain key × IsPlain value × ArePlain pairs

positions-append :
    (needle i : ℕ) (l r : List ℕ)
    → positions needle i (l ++ r) ≡ positions needle i l ++ positions needle (i + length l) r
unfolding positions
positions-append needle i [] r = ap (λ k. positions needle k r) (omega arith)
positions-append needle i (c ∷ l) r =
    let shift : i + 1 + length l ≡ i + length (c ∷ l) = omega arith in
    elim (Bool-cases (eqb c needle)) [
      | inl hit ↦ rw hit (
          ap (λ x. i ∷ x)
            (positions-append needle (i + 1) l r
              ∙ ap (λ k. positions needle (i + 1) l ++ positions needle k r) shift))
      | inr miss ↦ rw miss (
          positions-append needle (i + 1) l r
          ∙ ap (λ k. positions needle (i + 1) l ++ positions needle k r) shift)
    ]

plain_positions :
    (i : ℕ) (l : List ℕ) → IsPlain l → (positions 61 i l ≡ []) × (positions 38 i l ≡ [])
unfolding positions
plain_positions i [] p = (refl, refl)
plain_positions i (c ∷ l) (a, b, p) =
    let (x, y) = plain_positions (i + 1) l p in (rw (b, x) refl, rw (a, y) refl)

-- Past a plain part the positions go on.
plain_past :
    (i : ℕ) (l r : List ℕ)
    → IsPlain l
    → (positions 61 i (l ++ r) ≡ positions 61 (i + length l) r)
      × (positions 38 i (l ++ r) ≡ positions 38 (i + length l) r)
plain_past i l r p =
    let (x, y) = plain_positions i l p in
    (
      positions-append 61 i l r ∙ ap (λ k. k ++ positions 61 (i + length l) r) x,
      positions-append 38 i l r ∙ ap (λ k. k ++ positions 38 (i + length l) r) y,
    )

-- The part of a string between two others.
get_part : (a b c : List ℕ) → get (a ++ (b ++ c)) (length a) (length a + length b) ≡ some b
get_part a b c =
    let size : length (a ++ (b ++ c)) ≡ length a + (length b + length c) =
      length-append a (b ++ c) ∙ ap (λ n. length a + n) (length-append b c) in
    let low : leb (length a) (length a + length b) ≡ true = ground arith in
    let high : leb (length a + length b) (length (a ++ (b ++ c))) ≡ true = rw size (ground arith) in
    let width : length a + length b - length a ≡ length b = omega arith in
    rw (low, high, width, drop_append a (b ++ c), take_append b c) refl

get_eq :
    (s a b c : List ℕ) (i j : ℕ)
    → s ≡ a ++ (b ++ c)
    → i ≡ length a
    → j ≡ length a + length b
    → get s i j ≡ some b
get_eq s a b c i j q x y = rw (q, x, y) (get_part a b c)

-- A part and one character more are taken to the front.
move : (a b : List ℕ) (x : ℕ) (c : List ℕ) → a ++ (b ++ (x ∷ c)) ≡ (a ++ (b ++ (x ∷ []))) ++ c
move a b x c = sym (append_assoc a (b ++ (x ∷ [])) c ∙ ap (λ l. a ++ l) (append_assoc b (x ∷ []) c))

length-moved : (a b : List ℕ) (x : ℕ) → length (a ++ (b ++ (x ∷ []))) ≡ length a + length b + 1
length-moved a b x = omega (arith, length-append a (b ++ (x ∷ [])), length-append b (x ∷ []))

-- The indices in a pair, and in what follows it.
pair_positions :
    (i : ℕ) (key value rest : List ℕ)
    → IsPlain key
    → IsPlain value
    → (positions 61 i (key ++ (61 ∷ (value ++ rest)))
        ≡ (i + length key) ∷ positions 61 (i + length key + 1 + length value) rest)
      × (positions 38 i (key ++ (61 ∷ (value ++ rest)))
          ≡ positions 38 (i + length key + 1 + length value) rest)
unfolding positions
pair_positions i key value rest a b =
    let (x, y) = plain_past i key (61 ∷ (value ++ rest)) a in
    let (z, w) = plain_past (i + length key + 1) value rest b in
    (x ∙ ap (λ l. (i + length key) ∷ l) z, y ∙ w)

module _ {A : Type 0} (step : List ℕ → List ℕ → A → Result A) where
  -- The last round, and one with an ampersand after it, by what they read.
  round_last :
      (s : List ℕ) (i pos : ℕ) (indices : List ℕ) (found : A) (key value : List ℕ)
      → get s pos i ≡ some key
      → get s (i + 1) (length s) ≡ some value
      → parse_pairs step s (i ∷ indices) [] pos found ≡ (step key value found >>= λ found. ok found)
  unfolding parse_pairs
  round_last s i pos indices found key value k v =
      let same : eqb (length s) (length s) ≡ true = ground arith in rw (k, v, same) refl

  round_more :
      (s : List ℕ) (i pos j : ℕ) (indices ampersands : List ℕ) (found : A) (key value : List ℕ)
      → get s pos i ≡ some key
      → get s (i + 1) j ≡ some value
      → eqb j (length s) ≡ false
      → parse_pairs step s (i ∷ indices) (j ∷ ampersands) pos found
        ≡ (step key value found >>= λ found. parse_pairs step s indices ampersands (j + 1) found)
  unfolding parse_pairs
  round_more s i pos j indices ampersands found key value k v other = rw (k, v, other) refl

  -- From a place where a pair starts.
  pairs_from :
      (p : Pair) (pairs : List Pair) (s before : List ℕ) (found : A)
      → s ≡ before ++ query (p ∷ pairs)
      → ArePlain (p ∷ pairs)
      → parse_pairs step s
          (positions 61 (length before) (query (p ∷ pairs)))
          (positions 38 (length before) (query (p ∷ pairs)))
          (length before)
          found
        ≡ each_pair step (p ∷ pairs) found
  unfolding query each_pair positions
  pairs_from (key, value) [] s before found q (a, b, plain) =
      let (x, y) = pair_positions (length before) key value [] a b in
      let nil = append-nil value in
      let here = move before key 61 value in
      let start = before ++ (key ++ (61 ∷ [])) in
      let size = length-moved before key 61 in
      let total : length s ≡ length start + length value =
        ap length (q ∙ here) ∙ length-append start value in
      let indices : positions 61 (length before) (key ++ (61 ∷ value))
          ≡ (length before + length key) ∷ [] =
        ap (λ l. positions 61 (length before) (key ++ (61 ∷ l))) (sym nil) ∙ x in
      let ampersands : positions 38 (length before) (key ++ (61 ∷ value)) ≡ [] =
        ap (λ l. positions 38 (length before) (key ++ (61 ∷ l))) (sym nil) ∙ y in
      rw (indices, ampersands)
        (round_last s (length before + length key) (length before) [] found key value
          (get_eq s before key (61 ∷ value) (length before) (length before + length key) q refl
            refl)
          (get_eq s start value [] (length before + length key + 1) (length s)
            (q ∙ here ∙ ap (λ l. start ++ l) (sym nil)) (sym size) total))
  pairs_from (key, value) (next ∷ pairs) s before found q (a, b, plain) =
      let tail = query (next ∷ pairs) in
      let (x, y) = pair_positions (length before) key value (38 ∷ tail) a b in
      let here = move before key 61 (value ++ (38 ∷ tail)) in
      let start = before ++ (key ++ (61 ∷ [])) in
      let size = length-moved before key 61 in
      let there = move start value 38 tail in
      let before' = start ++ (value ++ (38 ∷ [])) in
      let size' = length-moved start value 38 in
      let j = length before + length key + 1 + length value in
      let total : length s ≡ length before' + length tail =
        ap length (q ∙ here ∙ there) ∙ length-append before' tail in
      let other : eqb j (length s) ≡ false = ground (arith, total, size', size) in
      let at : length before' ≡ j + 1 = omega (arith, size, size') in
      rw (x, y)
        (round_more s (length before + length key) (length before) j (positions 61 (j + 1) tail)
            (positions 38 (j + 1) tail) found key value
            (get_eq s before key (61 ∷ (value ++ (38 ∷ tail))) (length before)
              (length before + length key) q refl refl)
            (get_eq s start value (38 ∷ tail) (length before + length key + 1) j (q ∙ here)
              (sym size) (omega (arith, size)))
            other
          ∙ ap (λ f. step key value found >>= f)
              (fun_ext λ found.
                (subst
                  (λ n.
                    parse_pairs step s (positions 61 n tail) (positions 38 n tail) n found
                    ≡ each_pair step (next ∷ pairs) found)
                  at (pairs_from next pairs s before' found (q ∙ here ∙ there) plain))))

  -- A query made of pairs without ampersands and equals signs is read as these pairs, in order.
  pub parse_query_lem :
      (m : Memchr) (p : Pair) (pairs : List Pair) (found : A)
      → ArePlain (p ∷ pairs)
      → parse_query step m (query (p ∷ pairs)) found ≡ each_pair step (p ∷ pairs) found
  parse_query_lem m p pairs found plain =
      rw (m.memchr_iter_lem 61 (query (p ∷ pairs)), m.memchr_iter_lem 38 (query (p ∷ pairs)))
        (pairs_from p pairs (query (p ∷ pairs)) [] found refl plain)
