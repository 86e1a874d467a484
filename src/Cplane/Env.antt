-- ===== src/Cplane/Env.antt =====
-- What cplane_netdev.c asks of VPP and of Linux, and what it does to them.
use Prim.Native.String.{String}
use routerd.Prelude.{ℕ, ◌+◌, List, Option, Bool}

-- `vnet_hw_interface_t`, as far as the plugin reads it. `sw_if_index` is that of the software
-- interface that `vnet_get_sw_interface` gives for the interface.
pub record HwInterface : Type 0 where
  pub hw_if_index : ℕ
  pub sw_if_index : ℕ
  pub name : List ℕ
  pub hw_address : Option (List ℕ)
  pub hw_class_index : ℕ
  pub output_node_index : ℕ

-- `vlib_buffer_t`, as far as the plugin reads and writes it: the buffer's memory, with the room before
-- its data, and the current position in it, which is `current_data` behind that room.
pub record Buffer : Type 0 where
  pub memory : ℕ → ℕ
  pub position : ℕ
  pub current_length : ℕ
  pub next_present : Bool
  pub next_buffer : ℕ
  pub total_length_valid : Bool
  pub total_length_not_including_first_buffer : ℕ
  pub sw_if_index_rx : ℕ
  pub sw_if_index_tx : ℕ

-- `*(vlib_buffer_get_current (b) + i)`
abbrev pub current : Buffer → ℕ → ℕ
current b i = b.memory (b.position + i)

-- VPP, which this repository does not hold: its interfaces, its nodes, `format` of a `%u`, and moving
-- a buffer's current position.
pub record Vpp : Type 0 where
  pub hw_interfaces : List ℕ
  pub get_hw_interface : ℕ → Option HwInterface
  pub ethernet_class_index : ℕ
  pub node_index_by_name : String → ℕ
  pub format_u : ℕ → List ℕ
  -- `vlib_buffer_advance (b, -b->current_data)`
  pub vlib_buffer_rewind : Buffer → Buffer
  -- `vlib_buffer_advance (b, n)`
  pub vlib_buffer_advance : Buffer → ℕ → Buffer

-- What Linux answers while one tap is connected: a descriptor, success, or an error (`none`,
-- `false`).
pub record Linux : Type 0 where
  pub open_tun : Option ℕ
  pub tunsetiff : Bool
  pub fionbio : Bool
  pub socket : Option ℕ
  pub siocsifhwaddr : Bool
  pub siocgifindex : Option ℕ

-- The calls that change VPP's or Linux's state, and the messages sent.
pub data Effect : Type 0 where
  ethernet_register_input_type : ℕ → ℕ → Effect
  ip4_register_protocol : ℕ → ℕ → Effect
  ip4_unregister_protocol : ℕ → Effect
  opened : ℕ → Effect
  close : ℕ → Effect
  ioctl_tunsetiff : ℕ → List ℕ → Effect
  ioctl_fionbio : ℕ → Effect
  ioctl_siocsifhwaddr : ℕ → List ℕ → List ℕ → Effect
  ioctl_siocgifindex : ℕ → List ℕ → Effect
  clib_file_add : ℕ → Effect

pub data Error : Type 0 where
  open_failed nonblocking_failed configure_failed hwaddr_failed ifindex_failed : Error
  disconnect_failed isr_failed invalid_ifindex config_disabled unknown_input : Error
  create_failed : Error → Error
