-- ===== src/Common/Time.antt =====
-- crates/common/src/lib.rs: seconds since the server started, and the instant until which a peer
-- or a connection is valid.
use tracker_enhanced.Prelude.{ℕ, Bool, Option, some, ◌>>=◌, ltb, checked_add, u32_mod}

-- A `u32`.
pub record SecondsSinceServerStart : Type 0 where
  pub seconds : ℕ

pub record ValidUntil : Type 0 where
  pub until : SecondsSinceServerStart

-- The sum of two `u32`, which panics on overflow where overflow checks are on.
unfoldable pub new_with_now : SecondsSinceServerStart → ℕ → Option ValidUntil
new_with_now now offset_seconds = do
  sum ← checked_add u32_mod now.seconds offset_seconds
  some (record { until = record { seconds = sum } })

abbrev pub valid : ValidUntil → SecondsSinceServerStart → Bool
valid v now = ltb now.seconds v.until.seconds
