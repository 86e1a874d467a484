-- ===== src/VppCli/Show.antt =====
-- The commands of src/vpp_cli.c that ask for what VPP has, less `show vpp interface`: routes, taps,
-- nodes and processes, and the joining of taps to the daemon's own interfaces.
pub mod Sync
use routerd.Prelude.{
  ℕ, zero, suc, ◌+◌, ◌-◌, ◌*◌, ◌/◌, ◌%◌, ◌^◌, List, [], ◌∷◌, ◌++◌, Option, none, some, ◌>>=◌, Bool,
  true, false, leb, load, take, replicate, htonl, if◌then◌else◌,
}
use routerd.Cplane.Api.{Details, NodeReply, ProcReply}
use routerd.Client.Messages.{
  Daemon, get_node_info, get_proc_info, send_ping, ip_route_dump, tap_inject_dump,
}
use routerd.Client.Replies.{vpp_node_type_str, vpp_proc_flags_to_state}
use routerd.VppCli.State.{
  FibPath, RouteDetails, Reply, route_details, tap_details, node_reply, proc_reply, Msg, PathLine,
  timed_out, no_such_proc, no_such_node, pong_recv, end_entry, blank, title, route_line, tap_line,
  flags_line, node_lines, Call, disconnect, out, add_interface, success, warning_config_failed,
  Outcome, outcome, Link, connecting, is_negative32, until_pong,
}

abbrev pub as_route : Reply → Option RouteDetails
as_route (route_details d) = some d
as_route _ = none

abbrev pub as_tap : Reply → Option Details
as_tap (tap_details d) = some d
as_tap _ = none

abbrev pub as_node : Reply → Option NodeReply
as_node (node_reply d) = some d
as_node _ = none

abbrev pub as_proc : Reply → Option ProcReply
as_proc (proc_reply d) = some d
as_proc _ = none

-- `addr`: four bytes of zero, and `prefix_len / 8` bytes copied over them.
unfoldable pub route_addr : RouteDetails → Option (List ℕ)
route_addr d =
    let n = d.prefix_len / 8 in if leb n 4 then some (take n d.un ++ replicate (4 - n) 0) else none

abbrev pub path_line : FibPath → PathLine
path_line p = record {
  sw_if_index = htonl p.sw_if_index;
  table_id = htonl p.table_id;
  type = htonl p.type;
  proto = htonl p.proto;
  nh = take 4 p.nh_ip4;
}

-- The loop over the paths, with the rounds that are left.
unfoldable pub path_lines : ℕ → ℕ → List FibPath → Option (List PathLine)
path_lines zero i paths = some []
path_lines (suc n) i paths =
    load paths i >>= λ p. path_lines n (i + 1) paths >>= λ ls. some (path_line p ∷ ls)

unfoldable pub show_route : List Call → Reply → Option (List Call)
show_route shown reply = as_route reply >>= λ d. route_addr d >>= λ addr.
    path_lines d.n_paths 0 d.paths >>= λ ls.
    some (shown ++ out (route_line addr d.prefix_len ls) ∷ [])

unfoldable pub show_vpp_ip_fib : Link → (ℕ → ℕ) → Daemon → Option Outcome
show_vpp_ip_fib link random rm = connecting link true rm λ rm'.
    ip_route_dump rm' (random 0 % 2 ^ 32) 0 >>= λ dumped.
    send_ping dumped (random 1 % 2 ^ 32) >>= λ sent.
    until_pong sent.table show_route (out blank ∷ []) link.arrive >>= λ r. some (
      outcome success sent
        (r.0 ++ (if r.1 then out end_entry ∷ disconnect ∷ [] else disconnect ∷ [])))

unfoldable pub show_tap : List Call → Reply → Option (List Call)
show_tap shown reply = as_tap reply >>= λ d.
    some (shown ++ out (tap_line (htonl d.sw_if_index) (htonl d.kernel_if_index)) ∷ [])

-- The title is printed before the connection.
unfoldable pub show_vpp_tap_inject : Link → (ℕ → ℕ) → Daemon → Option Outcome
show_vpp_tap_inject link random rm =
    (connecting link true rm λ rm'. tap_inject_dump rm' 2 >>= λ dumped.
    send_ping dumped (random 0 % 2 ^ 32) >>= λ sent.
    until_pong sent.table show_tap [] link.arrive >>= λ r. some (
      outcome success sent
        (r.0 ++ (if r.1 then out pong_recv ∷ disconnect ∷ [] else disconnect ∷ []))))
    >>= λ o. some (outcome o.code o.daemon (out title ∷ o.calls))

-- `if_indextoname` is a parameter: a null pointer fails the `assert`.
unfoldable pub sync_tap : (ℕ → Option (List ℕ)) → List Call → Reply → Option (List Call)
sync_tap if_indextoname added reply = as_tap reply >>= λ d.
    let kern_index = htonl d.kernel_if_index in
    if_indextoname kern_index >>= λ kern_name.
    some (added ++ add_interface kern_index kern_name (htonl d.sw_if_index) ∷ [])

-- The words of the line, `enable` or `disable`, are not looked at.
unfoldable pub enable_cplane_netdev_sync :
    (ℕ → Option (List ℕ)) → Link → (ℕ → ℕ) → Daemon → Option Outcome
enable_cplane_netdev_sync if_indextoname link random rm = connecting link true rm λ rm'.
    tap_inject_dump rm' 2 >>= λ dumped. send_ping dumped (random 0 % 2 ^ 32) >>= λ sent.
    until_pong sent.table (sync_tap if_indextoname) [] link.arrive >>= λ r.
    some (outcome success sent (r.0 ++ disconnect ∷ []))

-- `running` is the number of the bit VLIB_PROCESS_IS_RUNNING; the flags are the word of a `uint16_t`.
unfoldable pub show_vpp_proc_info : ℕ → Link → (ℕ → ℕ) → Daemon → List (List ℕ) → Option Outcome
show_vpp_proc_info running link random rm argv = connecting link true rm λ rm'.
    load argv 3 >>= λ name. get_proc_info rm' (random 0 % 2 ^ 16) name >>= λ sent.
    elim link.arrive [
      | [] ↦ some (outcome warning_config_failed sent (out timed_out ∷ disconnect ∷ []))
      | m ∷ msgs ↦ as_proc m.reply >>= λ mp. some (
          outcome success sent (
            out (
              if is_negative32 mp.retval
              then no_such_proc
              else flags_line mp.proc_flags
                  (vpp_proc_flags_to_state running (mp.proc_flags % 2 ^ 16)))
            ∷ disconnect
            ∷ []))
    ]

unfoldable pub show_vpp_node_info : Link → (ℕ → ℕ) → Daemon → List (List ℕ) → Option Outcome
show_vpp_node_info link random rm argv = connecting link true rm λ rm'. load argv 3 >>= λ name.
    get_node_info rm' (random 0 % 2 ^ 16) name >>= λ sent. elim link.arrive [
      | [] ↦ some (outcome warning_config_failed sent (out timed_out ∷ disconnect ∷ []))
      | m ∷ msgs ↦ as_node m.reply >>= λ mp. elim (is_negative32 mp.retval) [
        | true ↦ some (outcome success sent (out no_such_node ∷ disconnect ∷ []))
        | false ↦ vpp_node_type_str (mp.node_type % 256) >>= λ t. some (
            outcome success sent (
              out (node_lines mp.node_index mp.node_type t mp.node_state mp.node_flags)
              ∷ disconnect
              ∷ []))
      ]
    ]
