-- ===== src/Client/Messages/Sent.antt =====
-- What VPP reads in the messages that src/vpp.c sends.
use routerd.Prelude.{
  ℕ, ◌^◌, ◌%◌, ◌<◌, ◌≤◌, ◌≡◌, refl, List, [], ◌∷◌, ◌++◌, Option, some, Bool, true, ◌==◌, ◌&&◌,
  ==_iff, leb, length, take, htons, htonl, htons-htons, htonl-htonl, Returns, if◌then◌else◌, arith,
}
use routerd.Client.MessageId.{find_msg_id}
use routerd.Client.Names.{
  control_ping_name, sw_interface_dump_name, sw_interface_set_flags_name,
  sw_interface_add_del_address_name, ip_address_dump_name, create_loopback_name,
  ip_route_add_del_name, tap_inject_enable_disable_name, tap_inject_dump_name, get_node_info_name,
  get_proc_info_name, ip_route_dump_name, sr_localsid_add_del_name,
}
use routerd.Client.Prefix.{AddressPrefix, af_inet6}
use routerd.Client.Messages.{
  Header, Body, node_info, proc_info, localsid_dx4, route, loopback, ping, interface_dump,
  inject_dump, route_dump, address_dump, set_flags, add_address, inject_enable, Daemon, flag, post,
  get_node_info, get_proc_info, ip6_route_srv6_end_dx4_add, ip_route_add_del, create_loopback,
  send_ping, ip_route_dump, dump_ifcs, dump_ipaddrs, tap_inject_dump, set_interface_flag,
  set_interface_addr, enable_disable_tap_inject,
}

-- A call of one of the functions.
pub data Request : Type 0 where
  node_of proc_of : List ℕ → Request
  dx4 : List ℕ → List ℕ → ℕ → Request
  route_of : Bool → AddressPrefix → AddressPrefix → ℕ → Request
  new_loopback ping_of all_interfaces all_taps : Request
  routes : ℕ → Request
  addresses : ℕ → Bool → Request
  up_down : ℕ → Bool → Request
  address_of : ℕ → Bool → Bool → List ℕ → ℕ → Request
  inject : Bool → Request

unfoldable pub perform : Daemon → ℕ → Request → Option Daemon
perform rm id (node_of name) = get_node_info rm id name
perform rm id (proc_of name) = get_proc_info rm id name
perform rm id (dx4 sid nh4 i) = ip6_route_srv6_end_dx4_add rm id sid nh4 i
perform rm id (route_of b r n i) = ip_route_add_del rm id b r n i
perform rm id new_loopback = create_loopback rm id
perform rm id ping_of = send_ping rm id
perform rm id all_interfaces = dump_ifcs rm id
perform rm id all_taps = tap_inject_dump rm id
perform rm id (routes t) = ip_route_dump rm id t
perform rm id (addresses i b) = dump_ipaddrs rm id i b
perform rm id (up_down i b) = set_interface_flag rm id i b
perform rm id (address_of i a b buf n) = set_interface_addr rm id i a b buf n
perform rm id (inject b) = enable_disable_tap_inject rm id b

-- The message that a call is about.
unfoldable pub name_of : Request → List ℕ
name_of (node_of name) = get_node_info_name
name_of (proc_of name) = get_proc_info_name
name_of (dx4 sid nh4 i) = sr_localsid_add_del_name
name_of (route_of b r n i) = ip_route_add_del_name
name_of new_loopback = create_loopback_name
name_of ping_of = control_ping_name
name_of all_interfaces = sw_interface_dump_name
name_of all_taps = tap_inject_dump_name
name_of (routes t) = ip_route_dump_name
name_of (addresses i b) = ip_address_dump_name
name_of (up_down i b) = sw_interface_set_flags_name
name_of (address_of i a b buf n) = sw_interface_add_del_address_name
name_of (inject b) = tap_inject_enable_disable_name

-- The bound of a call's number: six functions take a `uint16_t`.
abbrev pub id_bound : Request → ℕ
id_bound (node_of name) = 2 ^ 16
id_bound (proc_of name) = 2 ^ 16
id_bound (dx4 sid nh4 i) = 2 ^ 16
id_bound (route_of b r n i) = 2 ^ 16
id_bound all_taps = 2 ^ 16
id_bound (inject b) = 2 ^ 16
id_bound _ = 2 ^ 32

-- The sizes that a call keeps: 32 bit words, 64 bytes of a node's name, 16 bytes of an address, and
-- for a route one family and room for a path behind the message.
abbrev pub Fits : Daemon → Request → Type 0
Fits rm (node_of name) = length name ≤ 64
Fits rm (proc_of name) = length name ≤ 64
Fits rm (dx4 sid nh4 i) = i < 2 ^ 32
Fits rm (route_of b r n i) = (rm.path_room ≡ true) × (r.afi ≡ n.afi) × (r.plen < 256) × (i < 2 ^ 32)
Fits rm (routes t) = t < 2 ^ 32
Fits rm (addresses i b) = i < 2 ^ 32
Fits rm (up_down i b) = i < 2 ^ 32
Fits rm (address_of i a b buf n) = (i < 2 ^ 32) × (n ≤ 16)
Fits rm _ = Unit {0}

-- VPP, reading the words in its own order, reads what the call said; of an address as many bytes as
-- its length tells, a length that the caller gives in bits.
abbrev pub Reads : Request → Body → Type 0
Reads (node_of name) (node_info s) = s ≡ name
Reads (proc_of name) (proc_info s) = s ≡ name
Reads (dx4 sid nh4 i) (localsid_dx4 s d n w) =
    (s ≡ take 16 sid) × (d ≡ 7) × (n ≡ take 4 nh4) × (htonl w ≡ i)
Reads (route_of b r n i) (route add af a l p h w) =
    (add ≡ flag b)
    × (af ≡ flag (r.afi == af_inet6))
    × (a ≡ take (if r.afi == af_inet6 then 16 else 4) r.u)
    × (l ≡ r.plen)
    × (p ≡ 1)
    × (h ≡ take (if r.afi == af_inet6 then 16 else 4) n.u)
    × (htonl w ≡ i)
Reads new_loopback loopback = Unit {0}
Reads ping_of ping = Unit {0}
Reads all_interfaces interface_dump = Unit {0}
Reads all_taps inject_dump = Unit {0}
Reads (routes t) (route_dump w z) = (htonl w ≡ t) × (z ≡ 0)
Reads (addresses i b) (address_dump w f) = (htonl w ≡ i) × (f ≡ flag b)
Reads (up_down i b) (set_flags w f) = (htonl w ≡ i) × (f ≡ flag b)
Reads (address_of i a b buf n) (add_address w add six l s) =
    (htonl w ≡ i) × (add ≡ flag a) × (six ≡ flag b) × (l ≡ n) × (s ≡ take n buf)
Reads (inject b) (inject_enable f) = f ≡ flag b
Reads _ _ = ⊥

-- One message is sent, last in the queue; it names the client, its number and its context are read
-- back, and so is what the call said.
abbrev pub SentOne : Daemon → ℕ → ℕ → Request → Daemon → Type 0
SentOne rm id number q rm' =
    (h : Header) × (b : Body) × (rm'.queue ≡ rm.queue ++ (h, b) ∷ [])
    × (h.client_index ≡ rm.my_client_index)
    × (htons h.vl_msg_id ≡ number)
    × (htonl h.context ≡ id)
    × Reads q b

posted :
    (rm : Daemon) (id number : ℕ) (q : Request) (b : Body)
    → find_msg_id rm.table (name_of q) ≡ some number
    → number < 2 ^ 16
    → id < 2 ^ 32
    → Reads q b
    → Returns (SentOne rm id number q) (post rm (name_of q) id b)
unfolding post
posted rm id number q b e n i r =
    rw (e, post)
      (
        record { vl_msg_id = htons number; client_index = rm.my_client_index; context = htonl id },
        b,
        refl,
        refl,
        htons-htons number n,
        htonl-htonl id i,
        r,
      )

-- Where VPP's table has a number of 16 bits for the message of a call, the call's own number fits what
-- its function takes, 16 bits for six of them and 32 for the others, and the call keeps the sizes of
-- the message's fields, a route having room for a path behind its message, each function of the
-- client sends one message, last in the queue, copies nothing past a field, and VPP reads in it the
-- number, the context and what the call said: of an interface's address just as many bytes as the
-- length that the call gives.
pub perform-SentOne :
    (rm : Daemon) (id number : ℕ) (q : Request)
    → find_msg_id rm.table (name_of q) ≡ some number
    → number < 2 ^ 16
    → id < id_bound q
    → Fits rm q
    → Returns (SentOne rm id number q) (perform rm id q)
unfolding perform get_node_info get_proc_info ip6_route_srv6_end_dx4_add ip_route_add_del
    create_loopback send_ping ip_route_dump dump_ifcs dump_ipaddrs tap_inject_dump
    set_interface_flag set_interface_addr enable_disable_tap_inject name_of
perform-SentOne rm id number (node_of name) e n i f =
    let t : leb (length name) 64 ≡ true = ground (arith, f) in
    let s : id % 2 ^ 16 ≡ id = omega (arith, i) in
    rw (t, s) (posted rm id number (node_of name) (node_info name) e n (omega (arith, i)) refl)
perform-SentOne rm id number (proc_of name) e n i f =
    let t : leb (length name) 64 ≡ true = ground (arith, f) in
    let s : id % 2 ^ 16 ≡ id = omega (arith, i) in
    rw (t, s) (posted rm id number (proc_of name) (proc_info name) e n (omega (arith, i)) refl)
perform-SentOne rm id number (dx4 sid nh4 w) e n i f =
    let s : id % 2 ^ 16 ≡ id = omega (arith, i) in
    rw s (
      posted rm id number (dx4 sid nh4 w) _ e n (omega (arith, i))
        (refl, refl, refl, htonl-htonl w f))
perform-SentOne rm id number (route_of b r nh w) e n i f =
    let same = (==_iff r.afi nh.afi).1 f.1 in
    let t : (r.afi == nh.afi && rm.path_room) ≡ true = rw same f.0 in
    let l : r.plen % 256 ≡ r.plen = omega (arith, f.2) in
    let s : id % 2 ^ 16 ≡ id = omega (arith, i) in
    rw (t, s)
      (posted rm id number (route_of b r nh w) _ e n (omega (arith, i))
        (refl, refl, refl, l, refl, refl, htonl-htonl w f.3))
perform-SentOne rm id number new_loopback e n i f =
    posted rm id number new_loopback loopback e n i tt
perform-SentOne rm id number ping_of e n i f = posted rm id number ping_of ping e n i tt
perform-SentOne rm id number all_interfaces e n i f =
    posted rm id number all_interfaces interface_dump e n i tt
perform-SentOne rm id number all_taps e n i f =
    let s : id % 2 ^ 16 ≡ id = omega (arith, i) in
    rw s (posted rm id number all_taps inject_dump e n (omega (arith, i)) tt)
perform-SentOne rm id number (routes t) e n i f =
    posted rm id number (routes t) _ e n i (htonl-htonl t f, refl)
perform-SentOne rm id number (addresses w b) e n i f =
    posted rm id number (addresses w b) _ e n i (htonl-htonl w f, refl)
perform-SentOne rm id number (up_down w b) e n i f =
    posted rm id number (up_down w b) _ e n i (htonl-htonl w f, refl)
perform-SentOne rm id number (address_of w a b buf m) e n i f =
    let l : m % 256 ≡ m = omega (arith, f.1) in
    let t : leb m 16 ≡ true = ground (arith, f.1) in
    rw (l, t)
      (posted rm id number (address_of w a b buf m)
        (add_address (htonl w) (flag a) (flag b) m (take m buf)) e n i
        (htonl-htonl w f.0, refl, refl, refl, refl))
perform-SentOne rm id number (inject b) e n i f =
    let s : id % 2 ^ 16 ≡ id = omega (arith, i) in
    rw s (posted rm id number (inject b) (inject_enable (flag b)) e n (omega (arith, i)) refl)
