-- ===== src/Lib.antt =====
-- routerd: the programs with which VPP serves as the data plane of a Linux router, modelled from
-- their C sources.
--
-- The parts and how they interact:
--   The plugin cplane_netdev (cplane_netdev/cplane_netdev.c) makes a Linux tap for every Ethernet
--   interface of VPP. Packets for the control plane that an interface receives are written to its tap, and
--   what Linux writes to the tap leaves by the interface. The plugin tap_mirror (tap_mirror/) writes
--   copies of the packets that a VPP node handles to taps. The daemon (src/) has a command line,
--   whose nodes libvui (libvui/src/vui/) keeps, and asks VPP over its binary API (src/vpp.c) in the
--   commands of src/vpp_cli.c. The scripts in netlink_scripts/ build a request for the kernel and send it.
--
-- The files:
--   Prelude: library names passed on, Boolean tests, lists and C arrays, C words, `Returns` for a
--     run that does not stop.
--   Vppinfra: VPP's vectors and hash tables as an interface of operations and laws.
--   Cplane/State, Cplane/Env: `cplane_netdev_main_t`; VPP, Linux and what is done to them.
--   Cplane/TapTable: the four tables that join interface, descriptor and kernel index
--     (tap_inject_insert_tap, tap_inject_delete_tap, the two lookups).
--   Cplane/Switch: tap_inject_enable, tap_inject_disable.
--   Cplane/Connect: tap_inject_tap_connect, tap_inject_tap_disconnect. `configure` is the part of
--     the first from its socket on, `next_name` its choice of the tap's name.
--   Cplane/Interfaces: tap_inject_iface_isr (its loops are `connect_all` and `disconnect_all`),
--     tap_inject_enable_disable_all_interfaces.
--   Cplane/Handlers: the API handler (`enable_disable_handler`), the CLI commands
--     (`enable_disable_cmd`, create_cplane_netdev_command_fn), cplane_netdev_init, and `run`, any
--     sequence of requests.
--   Cplane/Frames: tap_inject_tx, tap_inject_neighbor; the body of each loop is `tx_one`,
--     `neighbor_one`, and `neighbor_next` is the choice of the next node.
--   Cplane/Rx: tap_inject_tap_read, tap_rx (`refill`, `from_end`, `chain` and `receive` are its
--     parts in order), tap_inject_rx.
--   TapMirror/State, TapMirror/Taps, TapMirror/Contexts, TapMirror/Nodes, TapMirror/Cli,
--     TapMirror/Show: the plugin's contexts; get_tapfd, get_or_open_tapfd and set_link_up_down;
--     enabling and disabling; the node functions; `set tap-mirror`; `show tap-mirror`.
--   Cplane/Api, Cplane/Show: tap_inject_dump, get_node_info, get_proc_info; show_tap_inject.
--   Client/MessageId, Client/Names, Client/Prefix, Client/Messages, Client/Replies: find_msg_id, the
--     message names of src/vpp.h, parse_prefix_str, the functions that send a message, and the
--     values that are waited for.
--   Vui/Registry, Vui/Install, Vui/Tap: libvui/src/vui/lib/command_node.c, vui_node_install of
--     libvui/src/vui/vui.c, and src/tap.c.
--   VppCli/State: the replies of VPP, a connection (`Link`), what a command does, and the loop that
--     ends at the answer to the ping (`until_pong`).
--   VppCli/Setting: the commands of src/vpp_cli.c that send one message and wait for its answer
--     (set_interface_address, set_interface_state, create_loopback_interface, ip_adddel_route,
--     enable_tap_inject, vpe_connect, vpe_disconnect).
--   VppCli/Show, VppCli/Interfaces: those that read many replies (show_vpp_ip_fib,
--     show_vpp_tap_inject, enable_cplane_netdev_sync, show_vpp_proc_info, show_vpp_node_info;
--     show_vpp_interface with its table of interfaces).
--   VppCli/Wait, VppCli/Setup: wait_startup_config_process_done, whose loop is `wait_rounds`; the
--     node `vpp` and setup_vpp_node.
--   Netlink/Memory, Netlink/Message, Netlink/Parse: netlink_scripts/nexthop/netlink.h (route/ has the
--     same functions): bytes in memory; addattr_l, addraw_l, rta_addattr_l, rta_nest and their
--     kin; parse_rtattr_flags.
--   Netlink/RoundTrip, Netlink/Getattr: attributes that are put and read back; rta_getattr_u8 and its kin.
--   Netlink/Hexdump: hexdump.h, the texts that it prints.
--   Netlink/Scripts, Netlink/Main: nl_talk, adddel_nexthop and adddel_in6_route of the two main.c, and
--     each one's main.
--   Tests: concrete instances.
--
-- How code is modelled:
--   A static variable is a record that is passed on. A function gives the state after and the list
--   of what it did to Linux and VPP, in order. `none` of `Option` is a run that stops: an access
--   outside a vector, a null pointer that is followed, a failed `assert`. Unsigned words are native
--   numbers with their wrap-around written out; the C `int` of tap_mirror is a type of its own.
--   What Linux answers (Linux, TapLinux, Answer) is an argument, so the theorems hold whatever it
--   answers, errors included. VPP's functions are the fields of Vpp, Nodes and Vppinfra. A buffer
--   of VPP is its memory with the position of its data in it, which VPP's moves change.
--
-- The daemon's waits for a message are the list of the messages that arrive until a wait ends without
--   one. A route's path is written behind the message, and `path_room` tells whether the allocator
--   left room there. In the netlink scripts memory is the list of its bytes, in the order of a little-endian
--   host, and a copy past its end is `none`; the numbers of the kernel's headers are parameters.
--
-- Bounds and fuel: the loops are structural recursions over the list or the number they go through.
--   parse_loop has fuel, one more than the bytes it reads, and hexdump_rows as much as it prints; each
--   round takes a byte or more, and the round trips are proved of that fuel. `climb` has steps, which
--   stand in for its length; the theorem on it tells how many are enough. The pool of receive
--   buffers has room for 32, the table of `show vpp interface` for 256 interfaces of 256 addresses each.
--
-- Not modelled: printf of the daemon's debugging, the text of an error number, the
--   registration tables of VPP and its API, the bytes that readv writes, the
--   netlink parts in C++ (src/netlink.cc, libyalin/), and libvui/src/vui/lib other
--   than command_node, a copy of the library of FRR.
pub mod Client
pub mod Cplane
pub mod Netlink
pub mod Prelude
pub mod TapMirror
pub mod Tests
pub mod VppCli
pub mod Vppinfra
pub mod Vui
