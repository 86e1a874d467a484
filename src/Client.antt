-- ===== src/Client.antt =====
-- src/vpp.c: the daemon's side of VPP's binary API.
pub mod MessageId
pub mod Names
pub mod Prefix
pub mod Messages
pub mod Replies
