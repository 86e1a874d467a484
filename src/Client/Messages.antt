-- ===== src/Client/Messages.antt =====
-- The functions of src/vpp.c that send a message to VPP. A message number that is not found, a failed
-- `assert` and a copy past a field of the message are `none`.
pub mod Sent
use routerd.Prelude.{
  ℕ, ◌%◌, List, [], ◌∷◌, ◌++◌, Option, none, some, ◌>>=◌, Bool, true, false, ◌==◌, ◌&&◌, ◌^◌, leb,
  length, take, htons, htonl, if◌then◌else◌,
}
use routerd.Client.MessageId.{find_msg_id}
use routerd.Client.Names.{
  control_ping_name, sw_interface_dump_name, sw_interface_set_flags_name,
  sw_interface_add_del_address_name, ip_address_dump_name, create_loopback_name,
  ip_route_add_del_name, tap_inject_enable_disable_name, tap_inject_dump_name, get_node_info_name,
  get_proc_info_name, ip_route_dump_name, sr_localsid_add_del_name,
}
use routerd.Client.Prefix.{AddressPrefix, af_inet6}

-- What all messages begin with; the number and the context are in network order.
pub record Header : Type 0 where
  pub vl_msg_id : ℕ
  pub client_index : ℕ
  pub context : ℕ

-- The fields that a message's sender sets, in network order; the others are zero.
pub data Body : Type 0 where
  node_info : List ℕ → Body
  proc_info : List ℕ → Body
  localsid_dx4 : (localsid : List ℕ) (behavior : ℕ) (nh_addr4 : List ℕ) (sw_if_index : ℕ) → Body
  route :
      (is_add af : ℕ) (address : List ℕ) (len n_paths : ℕ) (nh : List ℕ) (sw_if_index : ℕ) → Body
  loopback ping interface_dump inject_dump : Body
  route_dump : (table_id is_ip6 : ℕ) → Body
  address_dump : (sw_if_index is_ipv6 : ℕ) → Body
  set_flags : (sw_if_index admin_up_down : ℕ) → Body
  add_address : (sw_if_index is_add is_ipv6 address_length : ℕ) (address : List ℕ) → Body
  inject_enable : ℕ → Body

-- `routerd_main_t`, with VPP's table of message names and the messages in the input queue. `path_room`
-- tells whether `vl_msg_api_alloc` gives so much more than it is asked for that a path fits behind a
-- route message.
pub record Daemon : Type 0 where
  pub my_client_index : ℕ
  pub table : List (List ℕ × ℕ)
  pub queue : List (Header × Body)
  pub path_room : Bool

abbrev pub flag : Bool → ℕ
flag true = 1
flag false = 0

-- The setting of the header and the sending, which the functions share.
unfoldable pub post : Daemon → List ℕ → ℕ → Body → Option Daemon
post rm name msg_id body = find_msg_id rm.table name >>= λ id. some (record rm {
  queue =
      rm.queue
      ++ (
        record { vl_msg_id = htons id; client_index = rm.my_client_index; context = htonl msg_id },
        body,
      )
        ∷ [];
})

-- A number that is passed as `uint16_t`.
abbrev pub short : ℕ → ℕ
short msg_id = msg_id % 2 ^ 16

-- SR_BEHAVIOR_DX4
abbrev pub behavior_dx4 : ℕ
behavior_dx4 = 7

-- The size of the field `node_name`.
abbrev pub node_name_size : ℕ
node_name_size = 64

unfoldable pub get_node_info : Daemon → ℕ → List ℕ → Option Daemon
get_node_info rm msg_id node_name =
    if leb (length node_name) node_name_size
    then post rm get_node_info_name (short msg_id) (node_info node_name)
    else none

unfoldable pub get_proc_info : Daemon → ℕ → List ℕ → Option Daemon
get_proc_info rm msg_id node_name =
    if leb (length node_name) node_name_size
    then post rm get_proc_info_name (short msg_id) (proc_info node_name)
    else none

-- `sid` and `nh4` are the memory that the pointers refer to.
unfoldable pub ip6_route_srv6_end_dx4_add : Daemon → ℕ → List ℕ → List ℕ → ℕ → Option Daemon
ip6_route_srv6_end_dx4_add xm msg_id sid nh4 nh_ifindex =
    post xm sr_localsid_add_del_name (short msg_id)
      (localsid_dx4 (take 16 sid) behavior_dx4 (take 4 nh4) (htonl nh_ifindex))

-- The path is written behind the message that was asked for, whose array of paths is empty.
unfoldable pub ip_route_add_del :
    Daemon → ℕ → Bool → AddressPrefix → AddressPrefix → ℕ → Option Daemon
ip_route_add_del rm msg_id is_add r nexthop nh_ifindex =
    let is6 = r.afi == af_inet6 in
    let n = if is6 then 16 else 4 in
    if r.afi == nexthop.afi && rm.path_room
    then post rm ip_route_add_del_name (short msg_id) (
        route (flag is_add) (flag is6) (take n r.u) (r.plen % 256) 1 (take n nexthop.u)
          (htonl nh_ifindex))
    else none

unfoldable pub create_loopback : Daemon → ℕ → Option Daemon
create_loopback rm msg_id = post rm create_loopback_name msg_id loopback

unfoldable pub send_ping : Daemon → ℕ → Option Daemon
send_ping rm msg_id = post rm control_ping_name msg_id ping

unfoldable pub ip_route_dump : Daemon → ℕ → ℕ → Option Daemon
ip_route_dump xm msg_id table_id = post xm ip_route_dump_name msg_id (route_dump (htonl table_id) 0)

unfoldable pub dump_ifcs : Daemon → ℕ → Option Daemon
dump_ifcs jm msg_id = post jm sw_interface_dump_name msg_id interface_dump

unfoldable pub dump_ipaddrs : Daemon → ℕ → ℕ → Bool → Option Daemon
dump_ipaddrs jm msg_id ifindex is_ipv6 =
    post jm ip_address_dump_name msg_id (address_dump (htonl ifindex) (flag is_ipv6))

unfoldable pub tap_inject_dump : Daemon → ℕ → Option Daemon
tap_inject_dump jm msg_id = post jm tap_inject_dump_name (short msg_id) inject_dump

unfoldable pub set_interface_flag : Daemon → ℕ → ℕ → Bool → Option Daemon
set_interface_flag jm msg_id ifindex is_up =
    post jm sw_interface_set_flags_name msg_id (set_flags (htonl ifindex) (flag is_up))

-- The field `address` has 16 bytes, and its length is one byte.
unfoldable pub set_interface_addr : Daemon → ℕ → ℕ → Bool → Bool → List ℕ → ℕ → Option Daemon
set_interface_addr jm msg_id ifindex is_add is_ipv6 addr_buffer addr_len =
    let n = addr_len % 256 in
    if leb n 16
    then post jm sw_interface_add_del_address_name msg_id
        (add_address (htonl ifindex) (flag is_add) (flag is_ipv6) n (take n addr_buffer))
    else none

unfoldable pub enable_disable_tap_inject : Daemon → ℕ → Bool → Option Daemon
enable_disable_tap_inject jm msg_id is_enable =
    post jm tap_inject_enable_disable_name (short msg_id) (inject_enable (flag is_enable))
