-- ===== src/Tests/Scripts.antt =====
-- The netlink scripts at concrete inputs.
use routerd.Prelude.{
  ℕ, ◌-◌, ◌≤◌, ◌≡◌, refl, List, [], ◌∷◌, true, replicate, length-replicate, pos, Returns, arith,
}
use routerd.Netlink.Message.{header_size, Nlmsg, addattr_l}
use routerd.Netlink.Message.Attributes.{Attr, FitsWords}
use routerd.Netlink.Message.Bounds.{IsMessage, Added, addattr_l-Added}
use routerd.Netlink.Parse.{parse_rtattr}
use routerd.Netlink.Parse.Reads.{Finds}
use routerd.Netlink.RoundTrip.{add_all, accepted, parse_rtattr-add_all}
use routerd.Netlink.Hexdump.{hexdump}
use routerd.Netlink.Hexdump.Reading.{read_cells, read-hexdump}
use routerd.Netlink.Scripts.{
  Uapi, Answers, Call, dump, send, wire, adddel_nexthop, adddel_in6_route,
}
use routerd.Netlink.Scripts.Nexthop.{IsNexthop, Answered, NexthopWords, adddel_nexthop_lem}
use routerd.Netlink.Scripts.Route.{IsRoute, acked, after, adddel_in6_route_lem}

-- A message with room for twenty bytes.
abbrev message : Nlmsg
message = record { nlmsg_len = 16; nlmsg_type = 24; nlmsg_flags = 1; payload = replicate 20 0 }

message-IsMessage : IsMessage message
message-IsMessage = record {
  headed = omega arith;
  aligned = refl;
  within = omega arith;
  small = omega arith;
}

abbrev attr : Attr
attr = (3, 7 ∷ 8 ∷ 9 ∷ [])

attr-FitsWords : FitsWords attr
attr-FitsWords = (omega arith, omega arith)

addattr_l-Added_example : Returns (Added message 36 attr) (addattr_l message 36 3 (7 ∷ 8 ∷ 9 ∷ []))
addattr_l-Added_example =
    addattr_l-Added message 36 attr message-IsMessage (omega arith) attr-FitsWords

-- The third one does not fit.
abbrev three : List Attr
three = attr ∷ attr ∷ attr ∷ []

parse_rtattr-add_all_example :
    Returns
      (λ n'.
        (n'.nlmsg_len ≤ 36)
        × Returns
            (λ r.
              (r.1 ≡ pos 0)
              × ((t : ℕ) → t ≤ 5 → Finds 5 n'.payload (accepted message.nlmsg_len 36 three) r.0 t))
            (parse_rtattr n'.payload 5
              (message.nlmsg_len - header_size)
              (n'.nlmsg_len - message.nlmsg_len)))
      (add_all message 36 three)
parse_rtattr-add_all_example =
    parse_rtattr-add_all message 36 5 three message-IsMessage (omega arith) (omega arith)
      (attr-FitsWords, (attr-FitsWords, (attr-FitsWords, tt)))

-- The numbers of Linux.
abbrev uapi : Uapi
uapi = record {
  request_flags = 0x605;
  ack_bit = 2;
  rtm_newroute = 24;
  rtm_delroute = 25;
  rta_dst = 1;
  rta_gateway = 5;
  rt_table_main = 254;
  rtn_unicast = 1;
  rtm_newnexthop = 104;
  rtm_delnexthop = 105;
  nha_oif = 5;
  nha_id = 1;
  nha_encap = 8;
  nha_encap_type = 7;
  seg6_local_action = 1;
  seg6_local_action_end = 1;
  lwtunnel_encap_seg6_local = 7;
}

-- 36 bytes of answer.
abbrev answers : Answers
answers = record { sent = pos 60; received = pos 36; answer = replicate 1000 0 }

words : NexthopWords uapi
words = record {
  oif_fits = omega arith;
  id_fits = omega arith;
  encap_fits = omega arith;
  encap_type_fits = omega arith;
}

adddel_nexthop_lem_example :
    Returns
      (λ calls.
        (n : Nlmsg) × (rest : List Call) × IsNexthop uapi 4 22 true n
        × (calls ≡ dump (wire n) ∷ send 3 (wire n) ∷ rest)
        × Answered answers 3 1000 rest)
      (adddel_nexthop uapi answers (replicate 1020 0) 3 4 22 true)
adddel_nexthop_lem_example =
    adddel_nexthop_lem uapi answers (replicate 1020 0) 3 4 22 true words
      (length-replicate {A = ℕ} 1020 0)

adddel_in6_route_lem_example :
    Returns
      (λ calls.
        (n : Nlmsg) × IsRoute uapi (replicate 16 1) 128 (replicate 16 2) true n
        × (calls ≡ dump (wire n) ∷ send 3 (wire (acked uapi n)) ∷ after answers 3))
      (adddel_in6_route uapi answers 3 (replicate 16 1) 128 (replicate 16 2) true)
adddel_in6_route_lem_example =
    adddel_in6_route_lem uapi answers 3 (replicate 16 1) (replicate 16 2) 128 true (omega arith)
      (omega arith) refl refl

-- Seventeen bytes take two rows.
abbrev row_and_one : List ℕ
row_and_one = replicate 17 200

read-hexdump_example : read_cells (hexdump row_and_one) ≡ row_and_one
read-hexdump_example = read-hexdump row_and_one (ground arith)
