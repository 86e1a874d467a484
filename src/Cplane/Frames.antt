-- ===== src/Cplane/Frames.antt =====
-- The nodes of cplane_netdev.c that take packets out of VPP: `tap_inject_tx` sends them to the taps,
-- `tap_inject_neighbor` also hands the answers to neighbour requests on. A failed `assert` stops
-- the program: `none`, as an access out of bounds.
pub mod Classify
pub mod Account
pub mod Tx
pub mod Neighbor
use routerd.Prelude.{
  ℕ, zero, suc, ◌+◌, ◌*◌, List, [], ◌∷◌, ◌++◌, Option, none, some, ◌>>=◌, Bool, ◌==◌, ◌||◌, ltb,
  htons, invalid, length, if◌then◌else◌,
}
use routerd.Vppinfra.{Vppinfra}
use routerd.Cplane.Env.{Vpp, Buffer, current}
use routerd.Cplane.State.{Main}
use routerd.Cplane.TapTable.{tap_inject_lookup_tap_fd}

-- What happens to packets: `writev` to a descriptor, and the buffers given back to VPP.
pub data Packet : Type 0 where
  writev : ℕ → List ℕ → Packet
  warn_failed warn_truncated : Packet
  free : ℕ → Packet
  enqueue : ℕ → ℕ → Packet

-- The memory of the buffers, by their indices, beside the plugin's state.
pub record Frames (V : Vppinfra) : Type 0 where
  pub main : Main V
  pub buffers : ℕ → Buffer

abbrev pub put_buffer : (ℕ → Buffer) → ℕ → Buffer → ℕ → Buffer
put_buffer buffers bi b j = if bi == j then b else buffers j

-- The `n` bytes from offset `i` on.
unfoldable pub bytes : (ℕ → ℕ) → ℕ → ℕ → List ℕ
bytes memory i zero = []
bytes memory i (suc n) = memory i ∷ bytes memory (i + 1) n

-- `tap_inject_tap_send_buffer`; `written` is the answer of `writev`, `none` an error.
unfoldable pub tap_inject_tap_send_buffer : Option ℕ → ℕ → Buffer → List Packet
tap_inject_tap_send_buffer written fd b = writev fd (bytes (current b) 0 b.current_length) ∷ warning
  where
    warning : List Packet
    warning = elim written [
      | none ↦ warn_failed ∷ []
      | some n ↦ if ltb n b.current_length || b.next_present then warn_truncated ∷ [] else []
    ]

-- A 16 bit field at an offset, read by a little-endian host.
abbrev pub read16 : Buffer → ℕ → ℕ
read16 b i = (current b) i + 256 * (current b) (i + 1)

abbrev pub ethernet_type_arp : ℕ
ethernet_type_arp = 0x806

abbrev pub ethernet_type_ip6 : ℕ
ethernet_type_ip6 = 0x86dd

abbrev pub sizeof_ethernet_header : ℕ
sizeof_ethernet_header = 14

abbrev pub arp_opcode_reply : ℕ
arp_opcode_reply = 2

abbrev pub ip_protocol_icmp6 : ℕ
ip_protocol_icmp6 = 58

abbrev pub icmp6_neighbor_advertisement : ℕ
icmp6_neighbor_advertisement = 136

abbrev pub next_neighbor_arp : ℕ
next_neighbor_arp = 0

abbrev pub next_neighbor_icmp6 : ℕ
next_neighbor_icmp6 = 1

-- The node that goes on with a packet, `~0` for none: an ARP reply, at `eth + 1`, or an ICMPv6
-- neighbour advertisement behind an IPv6 header of 40 bytes.
unfoldable pub neighbor_next : Buffer → Option ℕ
neighbor_next b =
    let ether_type = htons (read16 b 12) in
    if ether_type == ethernet_type_arp
    then some (
        if read16 b (sizeof_ethernet_header + 6) == htons arp_opcode_reply
        then next_neighbor_arp
        else invalid)
    else if ether_type == ethernet_type_ip6
    then if (current b) (sizeof_ethernet_header + 6) == ip_protocol_icmp6
      then some (
          if (current b) (sizeof_ethernet_header + 40) == icmp6_neighbor_advertisement
          then next_neighbor_icmp6
          else invalid)
      else none
    else none

abbrev pub free_all : List ℕ → List Packet
free_all [] = []
free_all (bi ∷ pkts) = free bi ∷ free_all pkts

module _ (V : Vppinfra) (vpp : Vpp) (written : ℕ → Option ℕ) where
  abbrev pub result : Frames V → List Packet → Option (Frames V × List Packet)
  result st ps = some (st, ps)

  -- One round of the loop of `tap_inject_tx`; `written` answers the `writev` of each packet.
  unfoldable pub tx_one : Frames V → ℕ → Option (Frames V × List Packet)
  tx_one st bi = tap_inject_lookup_tap_fd V st.main (st.buffers bi).sw_if_index_rx >>= λ r.
      let (fd, im) = r in
      let b = vpp.vlib_buffer_rewind (st.buffers bi) in
      if fd == invalid
      then result (record st { main = im }) []
      else result (record st { main = im; buffers = put_buffer st.buffers bi b })
          (tap_inject_tap_send_buffer (written bi) fd b)

  unfoldable pub tx_loop : Frames V → List ℕ → Option (Frames V × List Packet)
  tx_loop st [] = result st []
  tx_loop st (bi ∷ pkts) = tx_one st bi >>= λ p. tx_loop p.0 pkts >>= λ q. result q.0 (p.1 ++ q.1)

  -- All packets of the frame are freed at the end, and their number is returned.
  unfoldable pub tap_inject_tx : Frames V → List ℕ → Option (ℕ × Frames V × List Packet)
  tap_inject_tx st pkts = tx_loop st pkts >>= λ p. some (length pkts, p.0, p.1 ++ free_all pkts)

  -- One round of the loop of `tap_inject_neighbor`.
  unfoldable pub neighbor_one : Frames V → ℕ → Option (Frames V × List Packet)
  neighbor_one st bi = tap_inject_lookup_tap_fd V st.main (st.buffers bi).sw_if_index_rx >>= λ r.
      let (fd, im) = r in
      let b = vpp.vlib_buffer_rewind (st.buffers bi) in
      let sent = tap_inject_tap_send_buffer (written bi) fd b in
      if fd == invalid
      then result (record st { main = im }) []
      else neighbor_next b >>= λ next.
          if next == invalid
          then result (record st { main = im; buffers = put_buffer st.buffers bi b })
              (sent ++ free bi ∷ [])
          else result
              (record st {
                main = im;
                buffers =
                    put_buffer st.buffers bi (vpp.vlib_buffer_advance b sizeof_ethernet_header);
              })
              (sent ++ enqueue bi next ∷ [])

  unfoldable pub neighbor_loop : Frames V → List ℕ → Option (Frames V × List Packet)
  neighbor_loop st [] = result st []
  neighbor_loop st (bi ∷ pkts) =
      neighbor_one st bi >>= λ p. neighbor_loop p.0 pkts >>= λ q. result q.0 (p.1 ++ q.1)

  unfoldable pub tap_inject_neighbor : Frames V → List ℕ → Option (ℕ × Frames V × List Packet)
  tap_inject_neighbor st pkts = neighbor_loop st pkts >>= λ p. some (length pkts, p.0, p.1)
