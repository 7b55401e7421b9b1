-- ===== src/UdpProtocol.antt =====
-- crates/udp_protocol: the messages of the UDP tracker protocol and their bytes.
pub mod Bytes
pub mod Layout
pub mod Messages
pub mod Request
pub mod Response
