-- ===== src/Ws/Swarm.antt =====
-- crates/ws/src/workers/swarm/storage.rs: the torrents of the WebTorrent tracker and their peers.
pub mod Sample
pub mod Peers
pub mod Offers
pub mod Torrents
pub mod Maps
