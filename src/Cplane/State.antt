-- ===== src/Cplane/State.antt =====
-- cplane_netdev/cplane_netdev.h: the plugin's state.
use routerd.Prelude.{ℕ, List, Bool, has_bit}
use routerd.Vppinfra.{Vppinfra}

-- `cplane_netdev_main_t`, less the pointers to VPP's own state.
pub record Main (V : Vppinfra) : Type 0 where
  pub msg_id_base : ℕ
  pub flags : ℕ
  pub sw_if_index_to_tap_fd : List ℕ
  pub sw_if_index_to_tap_if_index : List ℕ
  pub tap_fd_to_sw_if_index : List ℕ
  pub tap_if_index_to_sw_if_index : V.Hash
  pub interfaces_to_enable : List ℕ
  pub interfaces_to_disable : List ℕ
  pub rx_file_descriptors : List ℕ
  pub rx_node_index : ℕ
  pub tx_node_index : ℕ
  pub neighbor_node_index : ℕ
  pub rx_buffers : List ℕ

-- The bits of `flags`.
abbrev pub config_enable : ℕ
config_enable = 0

abbrev pub config_disable : ℕ
config_disable = 1

abbrev pub enabled : ℕ
enabled = 3

module _ (V : Vppinfra) where
  abbrev pub tap_inject_is_enabled : Main V → Bool
  tap_inject_is_enabled im = has_bit im.flags enabled

  abbrev pub tap_inject_is_config_disabled : Main V → Bool
  tap_inject_is_config_disabled im = has_bit im.flags config_disable
