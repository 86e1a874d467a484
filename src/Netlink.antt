-- ===== src/Netlink.antt =====
-- netlink_scripts/: netlink requests, built attribute by attribute, sent and read.
pub mod Memory
pub mod Message
pub mod Parse
pub mod RoundTrip
pub mod Getattr
pub mod Hexdump
pub mod Scripts
pub mod Main
