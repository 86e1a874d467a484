-- ===== src/Cplane.antt =====
-- The VPP plugin of cplane_netdev/: one Linux tap for each VPP interface, and the packets between
-- the two.
pub mod State
pub mod TapTable
pub mod Env
pub mod Switch
pub mod Connect
pub mod Interfaces
pub mod Handlers
pub mod Frames
pub mod Rx
pub mod Api
pub mod Show
