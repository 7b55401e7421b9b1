-- ===== src/Prelude/Result.antt =====
-- Computations that may panic: `none` stands for a panic of the Rust code.
use Prim.Native.Nat.{ℕ, ◌+◌, ◌-◌, ◌^◌, ◌<◌}
use mathlib.Core.Path.{◌≡◌}
use mathlib.Core.Option.{Option, none, some}
use native.Mathlib.Omega.{arith}
use tracker_enhanced.Prelude.Tests.{ltb, leb, if◌then◌else◌}

infixl 5 ◌>>=◌
abbrev pub ◌>>=◌ {ℓ κ} : {A : Type ℓ} {B : Type κ} → Option A → (A → Option B) → Option B
none >>= f = none
some a >>= f = f a

-- `a - b` on an unsigned integer, which must not fall below zero.
abbrev pub checked_sub : ℕ → ℕ → Option ℕ
checked_sub a b = if leb b a then some (a - b) else none

-- `a + b` on an unsigned integer below `m`.
abbrev pub checked_add : ℕ → ℕ → ℕ → Option ℕ
checked_add m a b = if ltb (a + b) m then some (a + b) else none

-- `a.saturating_add(b)` on an unsigned integer below `m`.
abbrev pub saturating_add : ℕ → ℕ → ℕ → ℕ
saturating_add m a b = if ltb (a + b) m then a + b else m - 1

abbrev pub u32_mod : ℕ
u32_mod = 2 ^ 32

abbrev pub u64_mod : ℕ
u64_mod = 2 ^ 64

pub checked_add_eq : (m a b : ℕ) → a + b < m → checked_add m a b ≡ some (a + b)
checked_add_eq m a b h = ground arith
