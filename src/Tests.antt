-- ===== src/Tests.antt =====
-- Instances of the theorems at concrete inputs.
mod Fixtures
mod Tables
mod Handlers
mod Packets
mod Receive
mod Mirror
mod Nodes
mod Client
mod Scripts
mod Commands
