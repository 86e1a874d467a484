-- ===== src/VppCli/Interfaces.antt =====
-- `show vpp interface` of src/vpp_cli.c: the table of interfaces that it fills from the replies.
pub mod Views
pub mod Rounds
pub mod Shown
use routerd.Prelude.{
  ℕ, ◌+◌, ◌*◌, ◌/◌, ◌%◌, ◌^◌, List, [], ◌∷◌, ◌++◌, map, Option, none, some, ◌>>=◌, Bool, true,
  false, ◌==◌, ltb, length, load, set, take, replicate, htons, htonl, hex2, if◌then◌else◌,
}
use routerd.Client.Messages.{Daemon, dump_ifcs, dump_ipaddrs, send_ping}
use routerd.VppCli.State.{
  InterfaceDetails, AddressDetails, Reply, interface_details, address_details, InterfaceLine, blank,
  interface_line, Call, disconnect, out, success, Outcome, outcome, Link, connecting, until_pong,
}

-- `struct interface_info`; the addresses are the `n_addrs` that were copied.
pub record InterfaceInfo : Type 0 where
  pub enable : Bool
  pub link : InterfaceDetails
  pub addrs : List AddressDetails

-- The number of interfaces, and of addresses of one.
abbrev pub max_interfaces : ℕ
max_interfaces = 256

abbrev pub no_details : InterfaceDetails
no_details = record {
  sw_if_index = 0;
  interface_name = [];
  admin_up_down = 0;
  link_up_down = 0;
  l2_address = [];
  link_mtu = 0;
  mtu = [];
  link_speed = 0;
  link_duplex = 0;
}

unfoldable pub no_interfaces : List InterfaceInfo
no_interfaces = replicate max_interfaces (record { enable = false; link = no_details; addrs = [] })

abbrev pub as_interface : Reply → Option InterfaceDetails
as_interface (interface_details d) = some d
as_interface _ = none

abbrev pub as_address : Reply → Option AddressDetails
as_address (address_details d) = some d
as_address _ = none

-- The first loop: the interface is noted, and its addresses of both families are asked for. The state
-- is the table, the daemon and how many random numbers were taken.
abbrev pub Noting : Type 0
Noting = List InterfaceInfo × Daemon × ℕ

unfoldable pub note_interface : (ℕ → ℕ) → Noting → Reply → Option Noting
note_interface random s reply = as_interface reply >>= λ d.
    let i = htonl d.sw_if_index in
    load s.0 i >>= λ info. dump_ipaddrs s.1 (random s.2 % 2 ^ 32) i false >>= λ asked.
    dump_ipaddrs asked (random (s.2 + 1) % 2 ^ 32) i true >>= λ asked'.
    some (set s.0 i (record info { enable = true; link = d }), asked', s.2 + 2)

-- The second loop.
unfoldable pub note_address : List InterfaceInfo → Reply → Option (List InterfaceInfo)
note_address interfaces reply = as_address reply >>= λ d.
    let i = htonl d.sw_if_index in
    load interfaces i >>= λ info.
    if ltb (length info.addrs) max_interfaces
    then some (set interfaces i (record info { addrs = info.addrs ++ d ∷ [] }))
    else none

-- `link_speed_to_str`
abbrev pub link_speed_to_str : ℕ → List ℕ
link_speed_to_str speed =
    if speed == 10_000_000
    then b'1' ∷ b'0' ∷ b'M' ∷ []
    else if speed == 100_000_000
    then b'1' ∷ b'0' ∷ b'0' ∷ b'M' ∷ []
    else if speed == 1_000_000_000
    then b'1' ∷ b'G' ∷ []
    else if speed == 10_000_000_000
    then b'1' ∷ b'0' ∷ b'G' ∷ []
    else if speed == 40_000_000_000
    then b'4' ∷ b'0' ∷ b'G' ∷ []
    else if speed == 100_000_000_000
    then b'1' ∷ b'0' ∷ b'0' ∷ b'G' ∷ []
    else b'U' ∷ b'N' ∷ b'K' ∷ b'N' ∷ b'O' ∷ b'W' ∷ b'N' ∷ []

-- `snprintf_ether_addr`, on the bytes that are left to print
abbrev pub ether_text : List ℕ → List ℕ
ether_text [] = []
ether_text (b ∷ []) = hex2 b
ether_text (b ∷ c ∷ bs) = hex2 b ++ b':' ∷ ether_text (c ∷ bs)

abbrev pub line_of : InterfaceDetails → InterfaceLine
line_of mp = record {
  interface_name = mp.interface_name;
  index = htonl mp.sw_if_index;
  is_admin_up = ltb 0 mp.admin_up_down;
  is_link_up = ltb 0 mp.link_up_down;
  address = ether_text (take 6 mp.l2_address);
  link_mtu = htons mp.link_mtu;
  mtu = map htonl (take 4 mp.mtu);
  speed = link_speed_to_str (htonl mp.link_speed);
  is_full = mp.link_duplex == 1;
}

-- The loop that prints. The addresses that were gathered are not printed: the loop over them is empty,
-- and "none" stands in their place.
unfoldable pub show_interfaces : List InterfaceInfo → List Call
show_interfaces [] = []
show_interfaces (info ∷ infos) =
    let rest = show_interfaces infos in
    if info.enable then out (interface_line (line_of info.link)) ∷ rest else rest

unfoldable pub show_vpp_interface : Link → (ℕ → ℕ) → Daemon → Option Outcome
show_vpp_interface link random rm = connecting link true rm λ rm'.
    dump_ifcs rm' (random 0 % 2 ^ 32) >>= λ dumped.
    send_ping dumped (random 1 % 2 ^ 32) >>= λ pinged.
    until_pong pinged.table (note_interface random) (no_interfaces, pinged, 2) link.arrive >>= λ r.
    let (interfaces, asked, taken) = r.0 in
    send_ping asked (random taken % 2 ^ 32) >>= λ sent.
    until_pong sent.table note_address interfaces (r.2 ++ link.later) >>= λ q.
    some (outcome success sent (disconnect ∷ out blank ∷ show_interfaces q.0))
