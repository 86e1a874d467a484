-- ===== src/VppCli/Setup.antt =====
-- The node `vpp` of the command line in src/vpp_cli.c: its set-up and the command that enters it.
pub mod Enter
use routerd.Prelude.{ℕ, List, [], ◌∷◌, Option, some, ◌>>=◌, true, pos}
use routerd.Vui.Registry.{config_node, Registry, find_node_id_by_name}
use routerd.Vui.Install.{CommandVector, Vui, vui_node_install}
use routerd.Vui.Tap.{Vty}

abbrev pub vpp_name : List ℕ
vpp_name = b'v' ∷ b'p' ∷ b'p' ∷ []

-- "%s(config-vpp)# "
abbrev pub vpp_prompt : List ℕ
vpp_prompt =
    b'%' ∷ b's' ∷ b'(' ∷ b'c' ∷ b'o' ∷ b'n' ∷ b'f' ∷ b'i' ∷ b'g' ∷ b'-' ∷ b'v' ∷ b'p' ∷ b'p' ∷ b')'
    ∷ b'#' ∷ b' ' ∷ []

-- ENABLE_NODE
abbrev pub enable_node : ℕ
enable_node = 3

-- The function of the command `vpp`
unfoldable pub vpp : Registry → Vty → Option Vty
vpp r vty = find_node_id_by_name r vpp_name >>= λ id.
    some (record { node = id; config = true; xpath_index = 0 })

-- The commands, by their names in the source.
pub data Command : Type 0 where
  vpp_cmd : Command
  show_vpp_interface_cmd : Command
  show_vpp_ip_fib_cmd : Command
  show_vpp_tap_inject_cmd : Command
  show_vpp_node_info_cmd : Command
  show_vpp_proc_info_cmd : Command
  vpe_connect_cmd : Command
  vpe_disconnect_cmd : Command
  enable_tap_inject_cmd : Command
  enable_cplane_netdev_sync_cmd : Command
  set_interface_address_cmd : Command
  set_interface_state_cmd : Command
  create_loopback_interface_cmd : Command
  ip_adddel_route_cmd : Command
  wait_startup_config_process_done_cmd : Command

-- The calls of the library that give a node its commands.
pub data VppInstall : Type 0 where
  install_default : ℕ → VppInstall
  install_element : ℕ → Command → VppInstall

abbrev pub vpp_elements : ℕ → List VppInstall
vpp_elements node =
    install_default node
    ∷ install_element config_node vpp_cmd
    ∷ install_element enable_node show_vpp_interface_cmd
    ∷ install_element enable_node show_vpp_ip_fib_cmd
    ∷ install_element enable_node show_vpp_tap_inject_cmd
    ∷ install_element enable_node show_vpp_node_info_cmd
    ∷ install_element enable_node show_vpp_proc_info_cmd
    ∷ install_element node vpe_connect_cmd
    ∷ install_element node vpe_disconnect_cmd
    ∷ install_element node enable_tap_inject_cmd
    ∷ install_element node enable_cplane_netdev_sync_cmd
    ∷ install_element node set_interface_address_cmd
    ∷ install_element node set_interface_state_cmd
    ∷ install_element node create_loopback_interface_cmd
    ∷ install_element node ip_adddel_route_cmd
    ∷ install_element node wait_startup_config_process_done_cmd
    ∷ []

module _ (C : CommandVector) where
  unfoldable pub setup_vpp_node : Vui C → Option (Vui C × List VppInstall)
  setup_vpp_node vui =
      vui_node_install C vui
        (record { node = 0; parent = pos config_node; name = vpp_name; prompt = vpp_prompt })
      >>= λ r. some (r.0, vpp_elements r.1.node)
