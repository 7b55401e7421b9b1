-- ===== src/Prelude/Entries.antt =====
-- Maps kept as sequences of entries with distinct keys: reading, writing and removing.
mod Basic
mod Swap
mod Append
unfoldable pub use Basic.*
unfoldable pub use Swap.*
unfoldable pub use Append.*
