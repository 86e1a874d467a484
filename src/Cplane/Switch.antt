-- ===== src/Cplane/Switch.antt =====
-- `tap_inject_enable` and `tap_inject_disable` of cplane_netdev.c: who gets the ARP and IPv4
-- packets. A function returns the new state and what it did, in order.
pub mod Flags
use routerd.Prelude.{ℕ, List, [], ◌∷◌, set_bit, clear_bit, if◌then◌else◌}
use routerd.Vppinfra.{Vppinfra}
use routerd.Cplane.Env.{
  Vpp, Effect, ethernet_register_input_type, ip4_register_protocol, ip4_unregister_protocol,
}
use routerd.Cplane.State.{Main, enabled, tap_inject_is_enabled}

abbrev pub ethernet_type_arp : ℕ
ethernet_type_arp = 0x806

abbrev pub ip_protocol_icmp : ℕ
ip_protocol_icmp = 1

abbrev pub ip_protocol_tcp : ℕ
ip_protocol_tcp = 6

abbrev pub ip_protocol_udp : ℕ
ip_protocol_udp = 17

abbrev pub ip_protocol_ospf : ℕ
ip_protocol_ospf = 89

module _ (V : Vppinfra) where
  unfoldable pub tap_inject_disable : Vpp → Main V → Main V × List Effect
  tap_inject_disable vpp im =
      if tap_inject_is_enabled V im
      then (
        record im { flags = clear_bit im.flags enabled },
        ethernet_register_input_type ethernet_type_arp (vpp.node_index_by_name "arp-input")
            ∷ ip4_register_protocol ip_protocol_icmp (vpp.node_index_by_name "ip4-icmp-input")
            ∷ ip4_unregister_protocol ip_protocol_ospf
            ∷ ip4_unregister_protocol ip_protocol_tcp
            ∷ ip4_unregister_protocol ip_protocol_udp
            ∷ [],
      )
      else (im, [])

  unfoldable pub tap_inject_enable : Main V → Main V × List Effect
  tap_inject_enable im = if tap_inject_is_enabled V im then (im, []) else (
    record im { flags = set_bit im.flags enabled },
    ethernet_register_input_type ethernet_type_arp im.neighbor_node_index
        ∷ ip4_register_protocol ip_protocol_icmp im.tx_node_index
        ∷ ip4_register_protocol ip_protocol_ospf im.tx_node_index
        ∷ ip4_register_protocol ip_protocol_tcp im.tx_node_index
        ∷ ip4_register_protocol ip_protocol_udp im.tx_node_index
        ∷ [],
  )
