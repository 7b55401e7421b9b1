-- ===== src/UdpProtocol/Layout/Copying.antt =====
-- Reading packed structs by copying their fields: the interface of `zerocopy` can be met.
use tracker_enhanced.Prelude.{
  ℕ, zero, suc, ◌≤◌, ◌<◌, ◌≡◌, refl, sym, ap, ◌∙◌, ◌⊎◌, inl, inr, true, Option, none, some, List,
  [], ◌∷◌, ◌++◌, arith, ◌>>=◌, eqb, if◌then◌else◌, length, length-append, Bool-cases, Option-cases,
}
use mathlib.Core.List.{append_assoc}
use tracker_enhanced.UdpProtocol.Bytes.{Bytes, read_exact, read_exact-append, read_exact_sound}
use tracker_enhanced.UdpProtocol.Layout.{
  Packed, Zerocopy, Fits, total, concat, as_bytes, IsSized, slice_bytes, AllSized, size_of,
}

unfoldable pub copy_fields : List ℕ → Bytes → Option (List Bytes × Bytes)
copy_fields [] bs = some ([], bs)
copy_fields (n ∷ ns) bs = do
  (f, bs) ← read_exact n bs
  (fs, bs) ← copy_fields ns bs
  some (f ∷ fs, bs)

copy_fields-concat :
    (ns : List ℕ) (fs : List Bytes) (rest : Bytes)
    → Fits ns fs
    → copy_fields ns (concat fs ++ rest) ≡ some (fs, rest)
unfolding copy_fields
copy_fields-concat [] [] rest h = refl
copy_fields-concat [] (f ∷ fs) rest h = absurd h
copy_fields-concat (n ∷ ns) [] rest h = absurd h
copy_fields-concat (n ∷ ns) (f ∷ fs) rest h = rw (
  append_assoc f (concat fs) rest,
  read_exact-append n f (concat fs ++ rest) h.0,
  copy_fields-concat ns fs rest h.1,
)

copy_fields_steps :
    (n : ℕ) (ns : List ℕ) (bs : Bytes) (fs : List Bytes) (rest : Bytes)
    → copy_fields (n ∷ ns) bs ≡ some (fs, rest)
    → (f : Bytes) × (bs' : Bytes) × (fs' : List Bytes) × (read_exact n bs ≡ some (f, bs'))
      × (copy_fields ns bs' ≡ some (fs', rest))
      × (fs ≡ f ∷ fs')
unfolding copy_fields
copy_fields_steps n ns bs fs rest h = elim (Option-cases (read_exact n bs)) [
  | inl e ↦ absurd (ground arith)
  | inr (p, e) ↦ elim (Option-cases (copy_fields ns p.1)) [
    | inl k ↦ absurd (ground arith)
    | inr (q, k) ↦ (p.0, p.1, q.0, e, ground arith, ground arith)
  ]
]

copy_fields_end :
    (bs : Bytes) (fs : List Bytes) (rest : Bytes)
    → copy_fields [] bs ≡ some (fs, rest)
    → (fs ≡ []) × (bs ≡ rest)
unfolding copy_fields
copy_fields_end bs fs rest h = ground arith

nil_of_length : (bs : Bytes) → eqb (length bs) 0 ≡ true → bs ≡ []
nil_of_length [] h = refl
nil_of_length (b ∷ bs) h = absurd (ground arith)

copy_fields_sound :
    (ns : List ℕ) (bs : Bytes) (fs : List Bytes) (rest : Bytes)
    → copy_fields ns bs ≡ some (fs, rest)
    → Fits ns fs × (bs ≡ concat fs ++ rest)
copy_fields_sound [] bs fs rest h = let k = copy_fields_end bs fs rest h in rw k.0 (tt, k.1)
copy_fields_sound (n ∷ ns) bs fs rest h =
    let (f, bs', fs', e, k, q) = copy_fields_steps n ns bs fs rest h in
    let (fits, tail) = copy_fields_sound ns bs' fs' rest k in
    let (head, size) = read_exact_sound n bs f bs' e in
    rw q ((size, fits), head ∙ ap (◌++◌ f) tail ∙ sym (append_assoc f (concat fs') rest))

copy_fields_short : (ns : List ℕ) (bs : Bytes) → length bs < total ns → copy_fields ns bs ≡ none
unfolding copy_fields
copy_fields_short [] bs h = absurd (omega arith)
copy_fields_short (n ∷ ns) bs h = elim (Option-cases (read_exact n bs)) [
  | inl e ↦ rw e
  | inr ((f, rest), e) ↦
      let (q, size) = read_exact_sound n bs f rest e in
      rw e (rw (copy_fields_short ns rest (omega (arith, ap length q, length-append f rest))))
]

length-concat : (ns : List ℕ) (fs : List Bytes) → Fits ns fs → length (concat fs) ≡ total ns
length-concat [] [] h = refl
length-concat [] (f ∷ fs) h = absurd h
length-concat (n ∷ ns) [] h = absurd h
length-concat (n ∷ ns) (f ∷ fs) h =
    omega (arith, length-append f (concat fs), length-concat ns fs h.1)

unfoldable pub copy_prefix : {T : Type 0} → Packed T → Bytes → Option (T × Bytes)
copy_prefix p bs = do (fs, rest) ← copy_fields p.sizes bs; some (p.build fs, rest)

unfoldable pub copy_slice : {T : Type 0} → ℕ → Packed T → Bytes → Option (List T)
copy_slice zero p bs = if eqb (length bs) 0 then some [] else none
copy_slice (suc fuel) p bs =
    let more = copy_prefix p bs >>= λ (x, rest). copy_slice fuel p rest >>= λ xs. some (x ∷ xs) in
    if eqb (length bs) 0 then some [] else more

module _ {T : Type 0} (p : Packed T) where
  copy_prefix_value :
      (x : T) (rest : Bytes) → IsSized p x → copy_prefix p (as_bytes p x ++ rest) ≡ some (x, rest)
  unfolding copy_prefix
  copy_prefix_value x rest h = rw (copy_fields-concat p.sizes (p.fields x) rest h, p.build-fields x)

  copy_prefix_sound :
      (bs : Bytes) (x : T) (rest : Bytes)
      → copy_prefix p bs ≡ some (x, rest)
      → IsSized p x × (bs ≡ as_bytes p x ++ rest)
  unfolding copy_prefix
  copy_prefix_sound bs x rest h = elim (Option-cases (copy_fields p.sizes bs)) [
    | inl e ↦ absurd (ground arith)
    | inr ((fs, rest'), e) ↦
        let (fits, q) = copy_fields_sound p.sizes bs fs rest' e in
        let k : (x ≡ p.build fs) × (rest ≡ rest') = (ground arith, ground arith) in
        rw (k.0, k.1, p.fields-build fs fits) (fits, q)
  ]

  length-as_bytes : (x : T) → IsSized p x → length (as_bytes p x) ≡ size_of p
  length-as_bytes x h = length-concat p.sizes (p.fields x) h

  pub copy_slice_values :
      (fuel : ℕ) (xs : List T)
      → 0 < size_of p
      → length (slice_bytes p xs) ≤ fuel
      → AllSized p xs
      → copy_slice fuel p (slice_bytes p xs) ≡ some xs
  unfolding copy_slice
  copy_slice_values zero [] size f h = refl
  copy_slice_values (suc fuel) [] size f h = refl
  copy_slice_values zero (x ∷ xs) size f h =
      absurd (omega (arith, length-append (as_bytes p x) (slice_bytes p xs), length-as_bytes x h.0))
  copy_slice_values (suc fuel) (x ∷ xs) size f h =
      let n = length-append (as_bytes p x) (slice_bytes p xs) in
      let m = length-as_bytes x h.0 in
      rw
        (
          copy_prefix_value x (slice_bytes p xs) h.0,
          copy_slice_values fuel xs size (omega (arith, n, m)) h.1,
        )
        (ground (arith, n, m))

  copy_slice_end : (bs : Bytes) (xs : List T) → copy_slice 0 p bs ≡ some xs → (bs ≡ []) × (xs ≡ [])
  unfolding copy_slice
  copy_slice_end bs xs h = ground (arith, nil_of_length bs)

  copy_slice_steps :
      (fuel : ℕ) (bs : Bytes) (xs : List T)
      → copy_slice (suc fuel) p bs ≡ some xs
      → ((bs ≡ []) × (xs ≡ []))
        ⊎ ((x : T) × (rest : Bytes) × (xs' : List T) × (copy_prefix p bs ≡ some (x, rest))
            × (copy_slice fuel p rest ≡ some xs')
            × (xs ≡ x ∷ xs'))
  unfolding copy_slice
  copy_slice_steps fuel bs xs h = elim (Bool-cases (eqb (length bs) 0)) [
    | inl e ↦ inl (nil_of_length bs e, ground arith)
    | inr e ↦ elim (Option-cases (copy_prefix p bs)) [
      | inl k ↦ absurd (ground arith)
      | inr (a, k) ↦ elim (Option-cases (copy_slice fuel p a.1)) [
        | inl l ↦ absurd (ground arith)
        | inr (xs', l) ↦ inr (a.0, a.1, xs', k, l, ground arith)
      ]
    ]
  ]

  pub copy_slice_sound :
      (fuel : ℕ) (bs : Bytes) (xs : List T)
      → copy_slice fuel p bs ≡ some xs
      → AllSized p xs × (bs ≡ slice_bytes p xs)
  copy_slice_sound zero bs xs h = let (e, k) = copy_slice_end bs xs h in rw (e, k) (tt, refl)
  copy_slice_sound (suc fuel) bs xs h = elim (copy_slice_steps fuel bs xs h) [
    | inl (e, k) ↦ rw (e, k) (tt, refl)
    | inr (x, rest, xs', e, k, q) ↦
        let (sized, head) = copy_prefix_sound bs x rest e in
        let (all, tail) = copy_slice_sound fuel rest xs' k in
        rw q ((sized, all), head ∙ ap (◌++◌ (as_bytes p x)) tail)
  ]

  unfoldable pub copy_read : Bytes → Option T
  copy_read bs = copy_prefix p bs >>= λ (x, rest). some x

  pub copy_read_value :
      (x : T) (rest : Bytes) → IsSized p x → copy_read (as_bytes p x ++ rest) ≡ some x
  unfolding copy_read
  copy_read_value x rest h = rw (copy_prefix_value x rest h)

  pub copy_read_sound :
      (bs : Bytes) (x : T)
      → copy_read bs ≡ some x
      → IsSized p x × ((rest : Bytes) × (bs ≡ as_bytes p x ++ rest))
  unfolding copy_read
  copy_read_sound bs x h = elim (Option-cases (copy_prefix p bs)) [
    | inl e ↦ absurd (ground arith)
    | inr ((y, rest), e) ↦
        let (sized, q) = copy_prefix_sound bs y rest e in
        let k : x ≡ y = ground arith in rw k (sized, (rest, q))
  ]

  pub copy_read_short : (bs : Bytes) → length bs < size_of p → copy_read bs ≡ none
  unfolding copy_read copy_prefix
  copy_read_short bs h = rw (copy_fields_short p.sizes bs h)

abbrev pub copying : Zerocopy
copying = record {
  read_from_prefix = λ p bs. copy_read p bs;
  slice_from = λ p bs. copy_slice (length bs) p bs;
  read_from_prefix_value = λ p x rest h. copy_read_value p x rest h;
  read_from_prefix_sound = λ p bs x h. copy_read_sound p bs x h;
  read_from_prefix_short = λ p bs h. copy_read_short p bs h;
  slice_from_values =
      λ p xs size h. copy_slice_values p (length (slice_bytes p xs)) xs size (omega arith) h;
  slice_from_sound = λ p bs xs size h. copy_slice_sound p (length bs) bs xs h;
}
