-- ===== src/Cplane/Frames/Classify.antt =====
-- Which packets `tap_inject_neighbor` hands on, in terms of the bytes on the wire.
use routerd.Prelude.{ℕ, ◌<◌, ◌≡◌, ◌↔◌, none, some, arith}
use routerd.Cplane.Env.{Buffer, current}
use routerd.Cplane.Frames.{neighbor_next, next_neighbor_arp, next_neighbor_icmp6}

-- The memory holds bytes.
abbrev pub IsBytes : Buffer → Type 0
IsBytes b = (i : ℕ) → (current b) i < 256

-- The packet carries the EtherType with these two bytes.
abbrev pub HasType : Buffer → ℕ → ℕ → Type 0
HasType b hi lo = ((current b) 12 ≡ hi) × ((current b) 13 ≡ lo)

-- An ARP reply: EtherType 08 06, operation 00 02.
abbrev pub IsArpReply : Buffer → Type 0
IsArpReply b = HasType b 0x08 0x06 × ((current b) 20 ≡ 0) × ((current b) 21 ≡ 2)

-- An ICMPv6 neighbour advertisement: EtherType 86 dd, next header 58, type 136.
abbrev pub IsAdvertisement : Buffer → Type 0
IsAdvertisement b = HasType b 0x86 0xdd × ((current b) 20 ≡ 58) × ((current b) 54 ≡ 136)

-- A packet goes on to ARP just if it is an ARP reply, and to ICMPv6 just if it is a neighbour
-- advertisement; the node stops just if the packet is neither ARP nor ICMPv6.
pub neighbor_next_iff :
    (b : Buffer)
    → IsBytes b
    → ((neighbor_next b ≡ some next_neighbor_arp) ↔ IsArpReply b)
      × ((neighbor_next b ≡ some next_neighbor_icmp6) ↔ IsAdvertisement b)
      × ((neighbor_next b ≡ none)
          ↔ ((¬ HasType b 0x08 0x06) × (¬ (HasType b 0x86 0xdd × ((current b) 20 ≡ 58)))))
unfolding neighbor_next
neighbor_next_iff b h = (
  (
    λ x. ground (arith, h 12, h 13, h 20, h 21, h 54),
    λ x. ground (arith, h 12, h 13, h 20, h 21, h 54),
  ),
  (
    λ x. ground (arith, h 12, h 13, h 20, h 21, h 54),
    λ x. ground (arith, h 12, h 13, h 20, h 21, h 54),
  ),
  (
    λ x. ground (arith, h 12, h 13, h 20, h 21, h 54),
    λ x. ground (arith, h 12, h 13, h 20, h 21, h 54),
  ),
)
