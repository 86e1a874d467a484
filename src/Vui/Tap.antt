-- ===== src/Vui/Tap.antt =====
-- src/tap.c: the node `tap` of the command line and the command that enters it.
pub mod Enter
use routerd.Prelude.{ℕ, List, [], ◌∷◌, Option, none, some, ◌>>=◌, Bool, true, ℤ, pos}
use routerd.Vui.Registry.{config_node, Registry, find_node_id_by_name}
use routerd.Vui.Install.{CommandVector, VuiNode, Vui, vui_node_install}

-- The fields of `struct vty` that the command sets.
pub record Vty : Type 0 where
  pub node : ℤ
  pub config : Bool
  pub xpath_index : ℕ

abbrev pub tap_name : List ℕ
tap_name = b't' ∷ b'a' ∷ b'p' ∷ []

-- "%s(config-tap)# "
abbrev pub tap_prompt : List ℕ
tap_prompt =
    b'%' ∷ b's' ∷ b'(' ∷ b'c' ∷ b'o' ∷ b'n' ∷ b'f' ∷ b'i' ∷ b'g' ∷ b'-' ∷ b't' ∷ b'a' ∷ b'p' ∷ b')'
    ∷ b'#' ∷ b' ' ∷ []

-- The function of the command `tap`
unfoldable pub tap : Registry → Vty → Option Vty
tap r vty = find_node_id_by_name r tap_name >>= λ id.
    some (record { node = id; config = true; xpath_index = 0 })

-- The calls of the library that give a node its commands.
pub data InstallCall : Type 0 where
  install_default : ℕ → InstallCall
  install_tap_cmd : ℕ → InstallCall

module _ (C : CommandVector) where
  unfoldable pub setup_tap_node : Vui C → Option (Vui C × List InstallCall)
  setup_tap_node vui =
      vui_node_install C vui
        (record { node = 0; parent = pos config_node; name = tap_name; prompt = tap_prompt })
      >>= λ r. some (r.0, install_default r.1.node ∷ install_tap_cmd config_node ∷ [])
