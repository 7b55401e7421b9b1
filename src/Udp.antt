-- ===== src/Udp.antt =====
-- crates/udp/src: the UDP tracker.
pub mod Swarm
pub mod Validator
