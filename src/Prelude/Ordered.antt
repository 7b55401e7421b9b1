-- ===== src/Prelude/Ordered.antt =====
-- `BTreeMap` with keys that are sequences of bytes: its entries in lexicographic order.
use Prim.Native.Nat.{ℕ}
use mathlib.Core.Path.{◌≡◌, refl, subst}
use mathlib.Core.Bool.{Bool, true, false}
use mathlib.Core.Logic.{inl, inr}
use mathlib.Core.Option.{some}
use mathlib.Core.List.{List, [], ◌∷◌}
use native.Mathlib.Omega.{arith}
use tracker_enhanced.Prelude.Tests.{
  ltb, eqb, if◌then◌else◌, Bool-cases, ◌==◌, list_eq, nat_eq, list_beq,
}
use tracker_enhanced.Prelude.Entries.{lookup}

unfoldable pub lex_ltb : List ℕ → List ℕ → Bool
lex_ltb [] [] = false
lex_ltb [] (y ∷ ys) = true
lex_ltb (x ∷ xs) [] = false
lex_ltb (x ∷ xs) (y ∷ ys) = if eqb x y then lex_ltb xs ys else ltb x y

-- Of two sequences that differ one is below the other.
lex_total : (a b : List ℕ) → lex_ltb a b ≡ false → list_beq a b ≡ false → lex_ltb b a ≡ true
unfolding lex_ltb list_beq
lex_total [] [] h d = ground arith
lex_total [] (y ∷ ys) h d = ground arith
lex_total (x ∷ xs) [] h d = refl
lex_total (x ∷ xs) (y ∷ ys) h d = ground (arith, lex_total xs ys)

module _ {V : Type 0} where
  -- `BTreeMap::insert`
  unfoldable pub btree_insert : List ℕ → V → List (List ℕ × V) → List (List ℕ × V)
  btree_insert k v [] = (k, v) ∷ []
  btree_insert k v ((j, w) ∷ l) =
      if lex_ltb k j
      then (k, v) ∷ (j, w) ∷ l
      else (if k == j then (j, v) ∷ l else (j, w) ∷ btree_insert k v l)

  pub lookup-btree_insert :
      (k j : List ℕ) (v : V) (l : List (List ℕ × V))
      → lookup j (btree_insert k v l) ≡ (if k == j then some v else lookup j l)
  unfolding btree_insert lookup
  lookup-btree_insert k j v [] = refl
  lookup-btree_insert k j v ((i, w) ∷ l) = elim (Bool-cases (lex_ltb k i)) [
    | inl below ↦ rw below refl
    | inr above ↦ elim (Bool-cases (k == i)) [
      | inl same ↦ rw (above, same) (same_key ((list_eq.beq_iff k i).0 same))
      | inr other ↦
          rw (above, other)
            (elim (Bool-cases (i == j)) [
              | inl here ↦ rw here (rw (differs other here) refl)
              | inr far ↦ rw far (lookup-btree_insert k j v l)
            ])
    ]
  ]
    where
      same_key :
          k ≡ i
          → (if i == j then some v else lookup j l)
            ≡ (if k == j then some v else (if i == j then some w else lookup j l))
      same_key q =
          rw q (elim (Bool-cases (i == j)) [ inl here ↦ rw here refl | inr far ↦ rw far refl ])

      differs : (k == i) ≡ false → (i == j) ≡ true → (k == j) ≡ false
      differs h q = subst (λ x. (k == x) ≡ false) ((list_eq.beq_iff i j).0 q) h

  abbrev Above : List ℕ → List (List ℕ × V) → Type 0
  Above k [] = Unit
  Above k ((j, w) ∷ l) = lex_ltb k j ≡ true

  -- Each key is below the next one.
  abbrev pub IsOrdered : List (List ℕ × V) → Type 0
  IsOrdered [] = Unit
  IsOrdered ((k, v) ∷ l) = Above k l × IsOrdered l

  Above-btree_insert :
      (k j : List ℕ) (v : V) (l : List (List ℕ × V))
      → lex_ltb j k ≡ true
      → Above j l
      → Above j (btree_insert k v l)
  unfolding btree_insert
  Above-btree_insert k j v [] h a = h
  Above-btree_insert k j v ((i, w) ∷ l) h a = elim (Bool-cases (lex_ltb k i)) [
    | inl below ↦ rw below h
    | inr above ↦ elim (Bool-cases (k == i)) [
      | inl same ↦ rw (above, same) a
      | inr other ↦ rw (above, other) a
    ]
  ]

  pub btree_insert-IsOrdered :
      (k : List ℕ) (v : V) (l : List (List ℕ × V)) → IsOrdered l → IsOrdered (btree_insert k v l)
  unfolding btree_insert
  btree_insert-IsOrdered k v [] o = (tt, tt)
  btree_insert-IsOrdered k v ((i, w) ∷ l) (a, o) = elim (Bool-cases (lex_ltb k i)) [
    | inl below ↦ rw below (below, (a, o))
    | inr above ↦ elim (Bool-cases (k == i)) [
      | inl same ↦ rw (above, same) (a, o)
      | inr other ↦
          rw (above, other)
            (
              Above-btree_insert k i v l (lex_total k i above other) a,
              btree_insert-IsOrdered k v l o,
            )
    ]
  ]
