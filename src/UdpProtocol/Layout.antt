-- ===== src/UdpProtocol/Layout.antt =====
-- `#[repr(C, packed)]` structs as their fields' bytes one after another, and the interface of
-- the `zerocopy` crate, whose derived code reads and writes them.
pub mod Copying
use tracker_enhanced.Prelude.{
  ℕ, zero, suc, ◌+◌, ◌-◌, ◌≤◌, ◌<◌, ◌≡◌, refl, ap, ◌∙◌, Option, none, some, List, [], ◌∷◌, ◌++◌,
  arith, length,
}
use tracker_enhanced.UdpProtocol.Bytes.{Bytes}

abbrev pub concat : List Bytes → Bytes
concat [] = []
concat (f ∷ fs) = f ++ concat fs

-- Fields of the given sizes.
abbrev pub Fits : List ℕ → List Bytes → Type 0
Fits [] [] = Unit
Fits [] (f ∷ fs) = ⊥
Fits (n ∷ ns) [] = ⊥
Fits (n ∷ ns) (f ∷ fs) = (length f ≡ n) × Fits ns fs

abbrev pub first : List Bytes → Bytes
first [] = []
first (f ∷ fs) = f

abbrev pub later : ℕ → List Bytes → List Bytes
later zero fs = fs
later (suc i) [] = []
later (suc i) (f ∷ fs) = later i fs

-- As many fields as there are sizes, the missing ones empty.
abbrev pub spread : List ℕ → List Bytes → List Bytes
spread [] fs = []
spread (n ∷ ns) fs = first fs ∷ spread ns (later 1 fs)

pub spread-Fits : (ns : List ℕ) (fs : List Bytes) → Fits ns fs → spread ns fs ≡ fs
spread-Fits [] [] h = refl
spread-Fits [] (f ∷ fs) h = absurd h
spread-Fits (n ∷ ns) [] h = absurd h
spread-Fits (n ∷ ns) (f ∷ fs) h = ap (◌∷◌ f) (spread-Fits ns fs h.1)

abbrev pub total : List ℕ → ℕ
total [] = 0
total (n ∷ ns) = n + total ns

pub record Packed (T : Type 0) : Type 0 where
  pub sizes : List ℕ
  pub fields : T → List Bytes
  pub build : List Bytes → T
  pub build-fields : (x : T) → build (fields x) ≡ x
  pub fields-build : (fs : List Bytes) → Fits sizes fs → fields (build fs) ≡ fs

-- `size_of` and `as_bytes`.
abbrev pub size_of : {T : Type 0} → Packed T → ℕ
size_of p = total p.sizes

abbrev pub as_bytes : {T : Type 0} → Packed T → T → Bytes
as_bytes p x = concat (p.fields x)

-- A value whose fields have the sizes that their types say.
abbrev pub IsSized : {T : Type 0} → Packed T → T → Type 0
IsSized p x = Fits p.sizes (p.fields x)

abbrev pub slice_bytes : {T : Type 0} → Packed T → List T → Bytes
slice_bytes p [] = []
slice_bytes p (x ∷ xs) = as_bytes p x ++ slice_bytes p xs

abbrev pub AllSized : {T : Type 0} → Packed T → List T → Type 0
AllSized p [] = Unit
AllSized p (x ∷ xs) = IsSized p x × AllSized p xs

pub record Zerocopy : Type 1 where
  pub read_from_prefix : {T : Type 0} → Packed T → Bytes → Option T
  pub slice_from : {T : Type 0} → Packed T → Bytes → Option (List T)
  -- "Reads a copy of Self from the prefix of bytes."
  pub read_from_prefix_value :
      {T : Type 0} (p : Packed T) (x : T) (rest : Bytes)
      → IsSized p x
      → read_from_prefix p (as_bytes p x ++ rest) ≡ some x
  pub read_from_prefix_sound :
      {T : Type 0} (p : Packed T) (bs : Bytes) (x : T)
      → read_from_prefix p bs ≡ some x
      → IsSized p x × ((rest : Bytes) × (bs ≡ as_bytes p x ++ rest))
  -- "If bytes.len() < size_of::<Self>(), this returns None."
  pub read_from_prefix_short :
      {T : Type 0} (p : Packed T) (bs : Bytes)
      → length bs < size_of p
      → read_from_prefix p bs ≡ none
  -- "Interprets the given bytes as a &[Self] without copying."
  pub slice_from_values :
      {T : Type 0} (p : Packed T) (xs : List T)
      → 0 < size_of p
      → AllSized p xs
      → slice_from p (slice_bytes p xs) ≡ some xs
  pub slice_from_sound :
      {T : Type 0} (p : Packed T) (bs : Bytes) (xs : List T)
      → 0 < size_of p
      → slice_from p bs ≡ some xs
      → AllSized p xs × (bs ≡ slice_bytes p xs)
