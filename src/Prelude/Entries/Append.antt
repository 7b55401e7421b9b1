-- ===== src/Prelude/Entries/Append.antt =====
-- Sequences of entries in two parts.
use mathlib.Core.Path.{◌≡◌, refl}
use mathlib.Core.List.{List, [], ◌∷◌, ◌++◌}
use mathlib.Core.Option.{none, some}
use native.Mathlib.Omega.{arith}
use tracker_enhanced.Prelude.Tests.{Eq, ◌==◌, if◌then◌else◌}
use tracker_enhanced.Prelude.Entries.Basic.{lookup, Distinct, lookup-append_single}

module _ {ℓ} {K V : Type ℓ} ⦃e : Eq K⦄ where
  pub lookup-append_none :
      (k : K) (xs ys : List (K × V)) → lookup k (xs ++ ys) ≡ none → lookup k xs ≡ none
  unfolding lookup
  lookup-append_none k [] ys h = refl
  lookup-append_none k ((j, v) ∷ xs) ys h = ground (arith, lookup-append_none k xs ys)

  lookup-append_present :
      (k : K) (v : V) (xs ys : List (K × V)) → ¬ (lookup k (xs ++ (k, v) ∷ ys) ≡ none)
  unfolding lookup
  lookup-append_present k v [] ys h = ground (arith, e.beq_iff k k)
  lookup-append_present k v ((j, w) ∷ xs) ys h = ground (arith, lookup-append_present k v xs ys)

  -- Before an entry of a map with distinct keys its key does not stand.
  pub absent_before :
      (k : K) (v : V) (xs ys : List (K × V)) → Distinct (xs ++ (k, v) ∷ ys) → lookup k xs ≡ none
  unfolding lookup
  absent_before k v [] ys d = refl
  absent_before k v ((j, w) ∷ xs) ys d =
      ground (arith, e.beq_iff j k, lookup-append_present j v xs ys, absent_before k v xs ys d.1)

  pub append-Distinct_left : (xs ys : List (K × V)) → Distinct (xs ++ ys) → Distinct xs
  append-Distinct_left [] ys d = tt
  append-Distinct_left ((k, v) ∷ xs) ys d =
      (lookup-append_none k xs ys d.0, append-Distinct_left xs ys d.1)

  pub append_single-Distinct :
      (k : K) (v : V) (xs : List (K × V))
      → lookup k xs ≡ none
      → Distinct xs
      → Distinct (xs ++ (k, v) ∷ [])
  unfolding lookup
  append_single-Distinct k v [] h d = (refl, tt)
  append_single-Distinct k v ((j, w) ∷ xs) h d = ground (
    arith,
    e.beq_iff j k,
    e.beq_iff k j,
    lookup-append_single k j v xs,
    append_single-Distinct k v xs,
  )

  -- The entries of `old` without a key, and then with it again.
  pub absent_without :
      (k : K) (old rest : List (K × V))
      → ((j : K) → lookup j rest ≡ (if k == j then none else lookup j old))
      → lookup k rest ≡ none
  absent_without k old rest get = ground (arith, get k, e.beq_iff k k)

  pub lookup-append_back :
      (k j : K) (v : V) (old rest : List (K × V))
      → ((j : K) → lookup j rest ≡ (if k == j then none else lookup j old))
      → lookup j (rest ++ (k, v) ∷ []) ≡ (if k == j then some v else lookup j old)
  lookup-append_back k j v old rest get =
      ground (arith, get j, lookup-append_single k j v rest (absent_without k old rest get))
