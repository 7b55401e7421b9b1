-- ===== src/Sweep.antt =====
-- Maps whose values are all well formed, as the torrents of crates/http and crates/ws are, and the
-- `retain` over such a map that drops or changes its values and adds up a size.
use mathlib.Core.Path.{subst}
use tracker_enhanced.Prelude.{
  ℕ, ◌+◌, ◌≤◌, ◌<◌, ◌≡◌, refl, sym, ap, ◌∙◌, Option, none, some, List, [], ◌∷◌, arith, Eq, ◌==◌,
  if◌then◌else◌, Bool-cases, Option-cases, inl, inr, some_inj, eq_self,
}
use tracker_enhanced.Prelude.Entries.{
  lookup, insert, Distinct, lookup-insert, insert-Distinct, retain_values, keep_value,
  lookup-retain_values, retain_values-Distinct, lookup-later,
}
use tracker_enhanced.Crates.{IndexMap, retain_values_state}

module _ {K V : Type 0} ⦃e : Eq K⦄ (Ok : V → Type 0) where
  -- The values are well formed and stand under distinct keys.
  pub record AllOk (m : List (K × V)) : Type 0 where
    pub distinct : Distinct m
    pub each : (k : K) (v : V) → lookup k m ≡ some v → Ok v

  pub empty-AllOk : AllOk []
  unfolding lookup
  empty-AllOk = record { distinct = tt; each = λ k v h. cc }

  -- `m'` is `m` with this value under the key.
  abbrev pub Puts : K → Option V → List (K × V) → List (K × V) → Type 0
  Puts key o m m' = (j : K) → lookup j m' ≡ (if key == j then o else lookup j m)

  pub insert-AllOk :
      (m made : List (K × V)) (key : K) (o : Option V) (v : V)
      → AllOk m
      → Distinct made
      → Puts key o m made
      → Ok v
      → AllOk (insert key v made) × Puts key (some v) m (insert key v made)
  insert-AllOk m made key o v ok d looks ok_v =
      let put : Puts key (some v) m (insert key v made) = λ j.
        lookup-insert key j v made ∙ elim (Bool-cases (key == j)) [
          | inl here ↦ rw here refl
          | inr other ↦ rw other (looks j ∙ rw other refl)
        ] in
      (
        record {
          distinct = insert-Distinct key v made d;
          each = λ k u h. elim (Bool-cases (key == k)) [
            | inl here ↦ subst Ok (some_inj (sym (put k ∙ rw here refl) ∙ h)) ok_v
            | inr other ↦ ok.each k u (sym (put k ∙ rw other refl) ∙ h)
          ];
        },
        put,
      )

  pub same-Puts : (m : List (K × V)) (key : K) → Puts key (lookup key m) m m
  same-Puts m key j = elim (Bool-cases (key == j)) [
    | inl here ↦ rw here (ap (λ k. lookup k m) (sym ((e.beq_iff key j).0 here)))
    | inr other ↦ rw other refl
  ]

  -- The sum of the sizes of the values.
  unfoldable pub total : (V → ℕ) → List (K × V) → ℕ
  total size [] = 0
  total size ((k, v) ∷ m) = size v + total size m

  abbrev Each : List (K × V) → Type 0
  Each [] = Unit
  Each ((k, v) ∷ m) = Ok v × Each m

  Each-of_AllOk :
      (m : List (K × V)) → Distinct m → ((k : K) (v : V) → lookup k m ≡ some v → Ok v) → Each m
  unfolding lookup
  Each-of_AllOk [] d each = tt
  Each-of_AllOk ((k, v) ∷ m) d each = (
    each k v (rw (eq_self k) refl),
    Each-of_AllOk m d.1 (λ j u h. each j u (lookup-later k j v u m d h)),
  )

  retain_step :
      (f : K → V → Option ℕ → Option V × Option ℕ) (k : K) (v : V) (l : List (K × V)) (n : Option ℕ)
      (o : Option V) (m : Option ℕ) (rest : List (K × V)) (sum : Option ℕ)
      → f k v n ≡ (o, m)
      → retain_values_state f l m ≡ (rest, sum)
      → retain_values_state f ((k, v) ∷ l) n
        ≡ (elim o [ none ↦ rest | some w ↦ (k, w) ∷ rest ], sum)
  unfolding retain_values_state
  retain_step f k v l n o m rest sum p q = ground arith

  -- What the closure must do: keep what `g` keeps, well formed, and add no more than the size of the
  -- value where there is room.
  pub record Sweeps (f : K → V → Option ℕ → Option V × Option ℕ) (g : K → V → Option V)
      (size : V → ℕ) (limit : ℕ) : Type 0 where
    pub kept : (k : K) (v u : V) → Ok v → g k v ≡ some u → Ok u
    pub step :
        (k : K) (v : V) (n : ℕ)
        → Ok v
        → n + size v < limit
        → (m : ℕ) × (m ≤ n + size v) × (f k v (some n) ≡ (g k v, some m))

  module _ (f : K → V → Option ℕ → Option V × Option ℕ) (g : K → V → Option V) (size : V → ℕ)
      (limit : ℕ) (sweeps : Sweeps f g size limit) where
    retain_eq :
        (l : List (K × V)) (n : ℕ)
        → Each l
        → n + total size l < limit
        → (m : ℕ) × (retain_values_state f l (some n) ≡ (retain_values g l, some m))
    unfolding retain_values_state retain_values total
    retain_eq [] n ok fits = (n, refl)
    retain_eq ((k, v) ∷ l) n (ok, rest) fits =
        let (m, low, q) = sweeps.step k v n ok (omega arith) in
        let (sum, p) = retain_eq l m rest (omega arith) in
        (sum, retain_step f k v l (some n) _ _ _ _ q p)

    -- The sweep does not fail where the sizes have room, and keeps the map well formed.
    pub sweep_lem :
        (im : IndexMap K V) (m : List (K × V))
        → AllOk m
        → total size m < limit
        → (sum : ℕ) × (im.map_retain_mut f m (some 0) ≡ (retain_values g m, some sum))
          × AllOk (retain_values g m)
          × ((j : K) → lookup j (retain_values g m) ≡ keep_value g j (lookup j m))
    sweep_lem im m ok fits =
        let (sum, q) = retain_eq m 0 (Each-of_AllOk m ok.distinct ok.each) (omega arith) in
        let looks : (j : K) → lookup j (retain_values g m) ≡ keep_value g j (lookup j m) =
          λ j. lookup-retain_values g j m ok.distinct in
        (
          sum,
          rw (im.map_retain_mut_lem f m (some 0), q) refl,
          record {
            distinct = retain_values-Distinct g m ok.distinct;
            each = λ k u h. elim (Option-cases (lookup k m)) [
              | inl absent ↦ cc (looks k, h, absent)
              | inr (v, there) ↦
                  sweeps.kept k v u (ok.each k v there)
                    (ap (keep_value g k) (sym there) ∙ (sym (looks k) ∙ h))
            ];
          },
          looks,
        )
