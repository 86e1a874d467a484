-- ===== src/Netlink/Scripts.antt =====
-- netlink_scripts/route/main.c and netlink_scripts/nexthop/main.c: one request each, dumped and sent.
pub mod Nexthop
pub mod Route
use routerd.Prelude.{
  ℕ, ◌+◌, ◌-◌, ◌*◌, ◌/◌, ◌%◌, ◌^◌, List, [], ◌∷◌, ◌++◌, Option, none, some, ◌>>=◌, Bool, true,
  false, length, replicate, take, set_bit, ℤ, pos, negsuc, is_negative, if◌then◌else◌,
}
use routerd.Client.Prefix.{af_inet6}
use routerd.Netlink.Memory.{bytes16, bytes32, write_at}
use routerd.Netlink.Message.{
  align, header_size, rta_size, rta_length, Nlmsg, Rtattr, addattr_l, addattr16, addattr32,
  rta_nest, rta_addattr32, rta_nest_end, addraw_l,
}

-- The numbers of the kernel's headers.
pub record Uapi : Type 0 where
  pub request_flags : ℕ
  pub ack_bit : ℕ
  pub rtm_newroute : ℕ
  pub rtm_delroute : ℕ
  pub rta_dst : ℕ
  pub rta_gateway : ℕ
  pub rt_table_main : ℕ
  pub rtn_unicast : ℕ
  pub rtm_newnexthop : ℕ
  pub rtm_delnexthop : ℕ
  pub nha_oif : ℕ
  pub nha_id : ℕ
  pub nha_encap : ℕ
  pub nha_encap_type : ℕ
  pub seg6_local_action : ℕ
  pub seg6_local_action_end : ℕ
  pub lwtunnel_encap_seg6_local : ℕ

-- What a script does, in order.
pub data Call : Type 0 where
  dump : List ℕ → Call
  send : (fd : ℕ) → List ℕ → Call
  recv : (fd size : ℕ) → Call
  exit : Call

-- What the kernel answers to `send` and `recv`; what `recv` puts into the buffer.
pub record Answers : Type 0 where
  pub sent : ℤ
  pub received : ℤ
  pub answer : List ℕ

-- The bytes of a message; the sequence number and the port are zero.
abbrev pub image : Nlmsg → List ℕ
image n =
    bytes32 n.nlmsg_len
    ++ bytes16 n.nlmsg_type
    ++ bytes16 n.nlmsg_flags
    ++ replicate 8 0
    ++ n.payload

-- The first `nlmsg_len` bytes, which are dumped and sent.
abbrev pub wire : Nlmsg → List ℕ
wire n = take n.nlmsg_len (image n)

-- `nl_talk`: the answer, `none` where the process has ended, and the calls. `answer_buf_siz` is `none`
-- where the answer is NULL: then an acknowledgement is asked for, and a buffer of its own is used.
unfoldable pub nl_talk : Uapi → Answers → ℕ → Nlmsg → Option ℕ → Option ℤ × List Call
nl_talk u k fd n answer_buf_siz =
    let asked : Nlmsg = elim answer_buf_siz [
      | none ↦ record n { nlmsg_flags = set_bit n.nlmsg_flags u.ack_bit }
      | some size ↦ n
    ] in
    let size : ℕ = elim answer_buf_siz [ none ↦ 10000 | some size ↦ size ] in
    if is_negative k.sent
    then (none, send fd (wire asked) ∷ exit ∷ [])
    else if is_negative k.received
    then (none, send fd (wire asked) ∷ recv fd size ∷ exit ∷ [])
    else (some k.received, send fd (wire asked) ∷ recv fd size ∷ [])

-- `struct rtmsg`
abbrev pub rtmsg : Uapi → ℕ → List ℕ
rtmsg u plen =
    af_inet6 ∷ (plen % 256) ∷ 0 ∷ 0 ∷ u.rt_table_main ∷ 3 ∷ 0xfd ∷ u.rtn_unicast ∷ bytes32 0

-- The request of `adddel_in6_route`, whose `sizeof` is `route_size`.
abbrev pub route_size : ℕ
route_size = 4124

abbrev pub route_start : Uapi → Bool → ℕ → Nlmsg
route_start u install plen = record {
  nlmsg_len = 28;
  nlmsg_type = if install then u.rtm_newroute else u.rtm_delroute;
  nlmsg_flags = u.request_flags;
  payload = rtmsg u plen ++ replicate 4096 0;
}

unfoldable pub route_request : Uapi → List ℕ → ℕ → List ℕ → Bool → Option Nlmsg
route_request u pref plen nh6 install =
    addattr_l (route_start u install plen) route_size u.rta_dst pref >>= λ r.
    write_at r.1.payload 1 ((plen % 256) ∷ []) >>= λ mem.
    addattr_l (record r.1 { payload = mem }) route_size u.rta_gateway nh6 >>= λ s. some s.1

-- `adddel_in6_route`. In the script of routes `nl_talk` answers 0, so there is no other exit.
unfoldable pub adddel_in6_route :
    Uapi → Answers → ℕ → List ℕ → ℕ → List ℕ → Bool → Option (List Call)
adddel_in6_route u k fd pref plen nh6 install =
    route_request u pref plen nh6 install >>= λ n. some (dump (wire n) ∷ (nl_talk u k fd n none).1)

-- The nested attribute of `adddel_nexthop`, built in its own buffer: `rest` is what that buffer holds
-- behind the words of its attribute.
abbrev pub nest_size : ℕ
nest_size = 1024

unfoldable pub nested_action : Uapi → List ℕ → Option Rtattr
nested_action u rest =
    let rta : Rtattr = record { rta_len = rta_length 0; rta_type = u.nha_encap; rta_data = rest } in
    rta_nest rta nest_size u.nha_encap >>= λ nest.
    rta_addattr32 nest.1 nest_size u.seg6_local_action u.seg6_local_action_end >>= λ r.
    rta_nest_end r.1 nest.0 >>= λ e. some e.1

-- `struct nhmsg`
abbrev pub nhmsg : List ℕ
nhmsg = af_inet6 ∷ 0 ∷ 3 ∷ 0 ∷ bytes32 0

abbrev pub nexthop_size : ℕ
nexthop_size = 4120

abbrev pub nexthop_start : Uapi → Bool → Nlmsg
nexthop_start u install = record {
  nlmsg_len = 24;
  nlmsg_type = if install then u.rtm_newnexthop else u.rtm_delnexthop;
  nlmsg_flags = u.request_flags;
  payload = nhmsg ++ replicate 4096 0;
}

-- Answers of the functions that add attributes are not looked at.
unfoldable pub nexthop_request : Uapi → List ℕ → ℕ → ℕ → Bool → Option Nlmsg
nexthop_request u rest oif_idx nh_id install =
    addattr32 (nexthop_start u install) nexthop_size u.nha_oif oif_idx >>= λ a.
    addattr32 a.1 nexthop_size u.nha_id nh_id >>= λ b. nested_action u rest >>= λ rta.
    addraw_l b.1 nest_size (take (rta.rta_len - rta_size) rta.rta_data) >>= λ c.
    addattr16 c.1 nexthop_size u.nha_encap_type u.lwtunnel_encap_seg6_local >>= λ d. some d.1

-- `adddel_nexthop`
unfoldable pub adddel_nexthop : Uapi → Answers → List ℕ → ℕ → ℕ → ℕ → Bool → Option (List Call)
adddel_nexthop u k rest fd oif_idx nh_id install =
    nexthop_request u rest oif_idx nh_id install >>= λ n.
    let talk = nl_talk u k fd n (some 1000) in
    some (
      dump (wire n) ∷ talk.1 ++ elim talk.0 [
        | none ↦ []
        | some (pos ret) ↦ dump (take ret k.answer) ∷ []
        | some (negsuc m) ↦ exit ∷ []
      ])
