-- ===== src/Cplane/Handlers.antt =====
-- The handlers of cplane_netdev.c that switch tap injection: the API message and the CLI commands
-- `enable tap-inject` and `disable tap-inject`, and `create cplane-netdev`.
pub mod Safety
pub mod Create
pub mod History
use routerd.Prelude.{
  ℕ, List, [], ◌∷◌, ◌++◌, Option, none, some, ◌>>=◌, Bool, true, false, ◌==◌, set_bit, clear_bit,
  map, invalid, if◌then◌else◌,
}
use routerd.Vppinfra.{Vppinfra}
use routerd.Cplane.Env.{
  Vpp, Linux, Effect, Error, invalid_ifindex, config_disabled, create_failed, unknown_input,
}
use routerd.Cplane.State.{Main, config_enable, tap_inject_is_config_disabled}
use routerd.Cplane.Connect.{State, Outcome, outcome, tap_inject_tap_connect}
use routerd.Cplane.Interfaces.{after, tap_inject_enable_disable_all_interfaces}

-- What the API handler does: a call, or a reply with its `retval`.
pub data Step : Type 0 where
  did : Effect → Step
  enable_disable_reply : ℕ → Step

-- `(int32_t)-1`
abbrev pub minus_one : ℕ
minus_one = 0xffff_ffff

module _ (V : Vppinfra) where
  -- `vl_api_tap_inject_enable_disable_t_handler`: a failed call is followed by a disabling of all.
  unfoldable pub enable_disable_handler :
      Vpp → (ℕ → Linux) → Bool → State V → Option (State V × List Step)
  enable_disable_handler vpp os is_enable st =
      tap_inject_enable_disable_all_interfaces V vpp os is_enable st >>= λ o. elim o.error [
        | none ↦ some (o.state, map did o.effects ++ enable_disable_reply 0 ∷ [])
        | some e ↦ tap_inject_enable_disable_all_interfaces V vpp os false o.state >>= λ p.
            some (p.state, map did (o.effects ++ p.effects) ++ enable_disable_reply minus_one ∷ [])
      ]

  -- `enable_disable_tap_inject_cmd_fn`, with the command's `function_arg`.
  unfoldable pub enable_disable_cmd : Vpp → (ℕ → Linux) → Bool → State V → Option (Outcome V)
  enable_disable_cmd vpp os true st =
      if tap_inject_is_config_disabled V st.main
      then some (outcome V st [] (some config_disabled))
      else tap_inject_enable_disable_all_interfaces V vpp os true st >>= λ o. elim o.error [
        | none ↦ some (
            outcome V
              (record o.state {
                main = record o.state.main { flags = set_bit o.state.main.flags config_enable };
              })
              o.effects none)
        | some e ↦ tap_inject_enable_disable_all_interfaces V vpp os false o.state >>= λ p.
            some (outcome V p.state (o.effects ++ p.effects) (some e))
      ]
  enable_disable_cmd vpp os false st =
      tap_inject_enable_disable_all_interfaces V vpp os false st >>= λ o. some (
        outcome V
          (record o.state {
            main = record o.state.main { flags = clear_bit o.state.main.flags config_enable };
          })
          o.effects none)

  -- `create_cplane_netdev`
  unfoldable pub create_cplane_netdev : Vpp → Linux → ℕ → State V → Option (Outcome V)
  create_cplane_netdev vpp os ifindex st = elim (vpp.get_hw_interface ifindex) [
    | none ↦ some (outcome V st [] (some invalid_ifindex))
    | some hw ↦
        if hw.hw_class_index == vpp.ethernet_class_index
        then (tap_inject_tap_connect V vpp os st hw >>= λ o. elim o.error [
          | none ↦ some o
          | some e ↦ some (record o { error = some (create_failed e) })
        ])
        else some (outcome V st [] none)
  ]

-- The words of a `create cplane-netdev` line, as `unformat` reads them.
pub data Word : Type 0 where
  id : ℕ → Word
  name : List ℕ → Word
  unknown : Word

-- The loop over the line: `id` is `~0` and `name` is no pointer (`none`) until they are read.
-- The answer is `none` at a word that is not known.
unfoldable pub parse_line : List Word → ℕ → Option (List ℕ) → Option (ℕ × Option (List ℕ))
parse_line [] n s = some (n, s)
parse_line (id m ∷ ws) n s = parse_line ws m s
parse_line (name t ∷ ws) n s = parse_line ws n (some t)
parse_line (unknown ∷ ws) n s = none

module _ (V : Vppinfra) where
  -- `create_cplane_netdev_command_fn`: it prints and frees `name` also where the line gives none,
  -- when the pointer was never set; that is `none`.
  unfoldable pub create_cplane_netdev_command_fn :
      Vpp → Linux → List Word → State V → Option (Outcome V)
  create_cplane_netdev_command_fn vpp os line st = elim (parse_line line invalid none) [
    | none ↦ some (outcome V st [] (some unknown_input))
    | some (n, none) ↦ none
    | some (n, some s) ↦ create_cplane_netdev V vpp os n st
  ]

  -- `cplane_netdev_init`, from the zero state of a static variable. `base` and the node indices are
  -- what VPP gave out; the room that `vec_alloc` takes for `rx_buffers` leaves the vector empty.
  unfoldable pub cplane_netdev_init : ℕ → ℕ → ℕ → ℕ → Main V
  cplane_netdev_init base rx_node tx_node neighbor_node = record {
    msg_id_base = base;
    flags = 0;
    sw_if_index_to_tap_fd = [];
    sw_if_index_to_tap_if_index = [];
    tap_fd_to_sw_if_index = [];
    tap_if_index_to_sw_if_index = V.hash_null;
    interfaces_to_enable = [];
    interfaces_to_disable = [];
    rx_file_descriptors = [];
    rx_node_index = rx_node;
    tx_node_index = tx_node;
    neighbor_node_index = neighbor_node;
    rx_buffers = [];
  }

-- What the plugin is asked to do.
pub data Request : Type 0 where
  api_enable_disable : Bool → Request
  cli_enable_disable : Bool → Request
  cli_create : List Word → Request

module _ (V : Vppinfra) (vpp : Vpp) where
  unfoldable pub handle : (ℕ → Linux) → Request → State V → Option (State V)
  handle os (api_enable_disable b) st = enable_disable_handler V vpp os b st >>= λ r. some r.0
  handle os (cli_enable_disable b) st = enable_disable_cmd V vpp os b st >>= λ o. some o.state
  handle os (cli_create line) st =
      create_cplane_netdev_command_fn V vpp (os 0) line st >>= λ o. some o.state

  -- A history of requests, each with Linux's answers to it.
  unfoldable pub run : List ((ℕ → Linux) × Request) → State V → Option (State V)
  run [] st = some st
  run ((os, q) ∷ rest) st = handle os q st >>= λ st'. run rest st'
