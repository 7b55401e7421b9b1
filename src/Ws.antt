-- ===== src/Ws.antt =====
-- crates/ws and crates/ws_protocol: the WebTorrent tracker.
pub mod Messages
pub mod Swarm
