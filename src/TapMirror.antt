-- ===== src/TapMirror.antt =====
-- The plugin tap_mirror: copies of the packets of VPP nodes are written to taps. A run that stops, at
-- a null pointer, outside a vector or at a failed `assert`, is `none`.
pub mod State
pub mod Taps
pub mod Contexts
pub mod Nodes
pub mod Cli
pub mod Show
