-- ===== src/Common.antt =====
-- crates/common/src: what the three trackers share.
pub mod Time
pub mod AccessList
pub mod Ip
pub mod TextSearch
pub mod TrustedProxies
pub mod AutoBan
