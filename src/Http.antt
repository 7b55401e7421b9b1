-- ===== src/Http.antt =====
-- crates/http and crates/http_protocol.
pub mod Messages
pub mod Swarm
pub mod Url
pub mod Query
pub mod Numbers
pub mod Request
pub mod Response
