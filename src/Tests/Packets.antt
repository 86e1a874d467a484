-- ===== src/Tests/Packets.antt =====
-- The nodes of cplane_netdev.c at concrete inputs.
use routerd.Prelude.{
  ◌+◌, ◌-◌, ap, ◌≡◌, ◌↔◌, refl, [], ◌∷◌, none, some, arith, Returns, ◌==◌, if◌then◌else◌,
}
use routerd.Cplane.Env.{current}
use routerd.Cplane.TapTable.{fd_of}
use routerd.Cplane.TapTable.Links.{SameLinks}
use routerd.Cplane.Frames.{
  Frames, neighbor_next, next_neighbor_arp, next_neighbor_icmp6, tap_inject_tx,
}
use routerd.Cplane.Frames.Classify.{
  IsBytes, HasType, IsArpReply, IsAdvertisement, neighbor_next_iff,
}
use routerd.Cplane.Frames.Account.{given_back, writes, sends, Moves}
use routerd.Cplane.Frames.Tx.{tap_inject_tx_lem}
use routerd.Tests.Fixtures.{list_infra, vpp, joined, arp_reply}

-- The buffers stand behind their Ethernet headers. Buffer 0 came in on interface 1, which has a tap, the others on interface 2, which has none.
abbrev frames : Frames list_infra
frames = record {
  main = joined;
  buffers = λ bi. vpp.vlib_buffer_advance (arp_reply (if bi == 0 then 1 else 2)) 14;
}

moves : Moves vpp
moves = record {
  rewind_rx = λ b. refl;
  rewind_twice = λ b.
      let e : b.current_length + b.position - 128 + 128 - 128
          ≡ b.current_length + b.position - 128 =
        omega arith in
      ap (λ n. record b { position = 128; current_length = n }) e;
  rewind-advance = λ b n h.
      let e : b.current_length + b.position - 128 - n + (128 + n) - 128
          ≡ b.current_length + b.position - 128 =
        omega (arith, h) in
      ap (λ n. record b { position = 128; current_length = n }) e;
  advance_rx = λ b n. refl;
}

tap_inject_tx_lem_example :
    Returns
      (λ r.
        (r.0 ≡ 2)
        × SameLinks list_infra joined r.1.main
        × (writes r.2 ≡ sends list_infra vpp (fd_of list_infra joined) frames.buffers (0 ∷ 3 ∷ []))
        × (given_back r.2 ≡ 0 ∷ 3 ∷ []))
      (tap_inject_tx list_infra vpp (λ bi. some 42) frames (0 ∷ 3 ∷ []))
tap_inject_tx_lem_example =
    tap_inject_tx_lem list_infra vpp (λ bi. some 42) moves frames (0 ∷ 3 ∷ [])

arp_reply-IsBytes : IsBytes (arp_reply 1)
arp_reply-IsBytes i = ground arith

neighbor_next_iff_example :
    ((neighbor_next (arp_reply 1) ≡ some next_neighbor_arp) ↔ IsArpReply (arp_reply 1))
    × ((neighbor_next (arp_reply 1) ≡ some next_neighbor_icmp6) ↔ IsAdvertisement (arp_reply 1))
    × ((neighbor_next (arp_reply 1) ≡ none) ↔ (
        (¬ HasType (arp_reply 1) 0x08 0x06)
        × (¬ (HasType (arp_reply 1) 0x86 0xdd × (current (arp_reply 1) 20 ≡ 58)))))
neighbor_next_iff_example = neighbor_next_iff (arp_reply 1) arp_reply-IsBytes
