-- ===== src/Udp/Swarm.antt =====
-- crates/udp/src/swarm.rs: the torrents and their peers.
pub mod Config
pub mod Peers
pub mod Expiry
pub mod Small
pub mod Large
pub mod PeerMap
pub mod Shards
pub mod Maps
