-- ===== src/Vui.antt =====
-- The nodes of the command line: libvui/src/vui/lib/command_node.c, which numbers and names them,
-- libvui/src/vui/vui.c, which installs them, and src/tap.c, which adds the node `tap`. A failed
-- `assert` and an access out of bounds are `none`.
pub mod Registry
pub mod Install
pub mod Tap
