-- ===== src/VppCli.antt =====
-- src/vpp_cli.c: the commands of the daemon that ask VPP and read its replies.
pub mod State
pub mod Setting
pub mod Show
pub mod Interfaces
pub mod Wait
pub mod Setup
