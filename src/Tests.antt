-- ===== src/Tests.antt =====
-- Witnesses: each theorem that has hypotheses, applied to concrete data.
pub mod Data
pub mod Packets
pub mod Swarm
pub mod Addresses
pub mod Guards
pub mod Forwarded
pub mod WebTorrent
pub mod HttpSwarm
pub mod HttpRequest
