-- ===== src/Crates.antt =====
-- The libraries that the program calls and does not contain, as interfaces. A container is read
-- as the sequence of what it iterates over; each operation that changes it is a field, with what
-- its documentation promises as named laws. Children: the interfaces, and a list-based example
-- of each.
mod Containers
mod Lists
unfoldable pub use Containers.*
unfoldable pub use Lists.*
