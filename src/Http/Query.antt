-- ===== src/Http/Query.antt =====
-- crates/http_protocol/src/request.rs: the loop over the pairs of a query string, which both kinds of
-- request have. The indices of `memchr_iter` count characters here; `&` and `=` are never part of
-- the encoding of another one.
pub mod Pairs
use tracker_enhanced.Prelude.{
  ℕ, ◌+◌, ◌-◌, ◌≡◌, ◌&&◌, true, false, Option, none, some, List, [], ◌∷◌, leb, eqb, if◌then◌else◌,
  length, take, drop,
}
use tracker_enhanced.Http.Url.{Result, ok, err, ◌>>=◌, with_context, no_key, no_value}

-- The indices of a byte, counted from one on.
unfoldable pub positions : ℕ → ℕ → List ℕ → List ℕ
positions needle i [] = []
positions needle i (c ∷ cs) =
    if eqb c needle then i ∷ positions needle (i + 1) cs else positions needle (i + 1) cs

-- What `memchr::memchr_iter` promises.
pub record Memchr : Type 0 where
  pub memchr_iter : ℕ → List ℕ → List ℕ
  pub memchr_iter_lem : (needle : ℕ) (s : List ℕ) → memchr_iter needle s ≡ positions needle 0 s

-- `str::get` over a range.
abbrev pub get : List ℕ → ℕ → ℕ → Option (List ℕ)
get s from to =
    if leb from to && leb to (length s) then some (take (to - from) (drop from s)) else none

-- `ampersand_iter.next().unwrap_or(query_string.len())`, and the iterator afterwards.
abbrev pub next_end : ℕ → List ℕ → ℕ × List ℕ
next_end len [] = (len, [])
next_end len (i ∷ indices) = (i, indices)

module _ {A : Type 0} (step : List ℕ → List ℕ → A → Result A) where
  -- The loop over the equals signs; `step` is its `match` on the key.
  unfoldable pub parse_pairs : List ℕ → List ℕ → List ℕ → ℕ → A → Result A
  parse_pairs query_string [] ampersands position found = ok found
  parse_pairs query_string (equal_sign_index ∷ equal_signs) ampersands position found =
      let (segment_end, ampersands') = next_end (length query_string) ampersands in
      (with_context no_key (get query_string position equal_sign_index) >>= λ key.
      with_context no_value (get query_string (equal_sign_index + 1) segment_end) >>= λ value.
      step key value found >>= λ found. elim (eqb segment_end (length query_string)) [
        | true ↦ ok found
        | false ↦ parse_pairs query_string equal_signs ampersands' (segment_end + 1) found
      ])

  abbrev pub parse_query : Memchr → List ℕ → A → Result A
  parse_query m query_string found =
      parse_pairs query_string (m.memchr_iter 61 query_string) (m.memchr_iter 38 query_string) 0
        found

  -- The pairs handled one by one.
  unfoldable pub each_pair : List (List ℕ × List ℕ) → A → Result A
  each_pair [] found = ok found
  each_pair ((key, value) ∷ pairs) found = step key value found >>= λ found. each_pair pairs found
