-- ===== src/Http/Swarm.antt =====
-- crates/http/src/workers/swarm/storage.rs.
pub mod Peers
pub mod Torrent
pub mod Torrents
pub mod Maps
