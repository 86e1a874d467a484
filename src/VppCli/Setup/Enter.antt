-- ===== src/VppCli/Setup/Enter.antt =====
-- Entering the node `vpp` after it was set up.
use routerd.Prelude.{ℕ, ◌<◌, ◌≡◌, refl, List, some, ◌>>=◌, pos, Returns, Returns-some}
use routerd.Vui.Registry.{config_node, node_type_limit}
use routerd.Vui.Registry.Find.{IsNamed, NoneNamed}
use routerd.Vui.Install.{CommandVector, VuiNode, Vui}
use routerd.Vui.Install.Laws.{Installed, vui_node_install_lem}
use routerd.Vui.Tap.{Vty}
use routerd.VppCli.Setup.{vpp_name, vpp_prompt, vpp, VppInstall, vpp_elements, setup_vpp_node}

module _ (C : CommandVector) where
  abbrev Entered : Vui C × List VppInstall → Vty → Type 0
  Entered (vui, calls) vty =
      (id : ℕ) × (vty.node ≡ pos id)
      × (vui.registry.node_parents id ≡ pos config_node)
      × (calls ≡ vpp_elements id)
      × (C.vector_lookup vui.cmdvec id
          ≡ some (record { node = id; prompt = vpp_prompt; vtysh = 1 }))

  -- Where all nodes have names, a number is left and no node is called "vpp", `setup_vpp_node` passes
  -- the `assert`, and the command `vpp` then enters the node that was installed: its commands were
  -- given to that node's number, its parent is CONFIG_NODE, and it stands in `cmdvec` with its
  -- prompt.
  pub vpp_enters :
      (vui : Vui C) (vty : Vty)
      → IsNamed vui.registry
      → vui.registry.node_type_max < node_type_limit
      → NoneNamed vui.registry vpp_name 0 vui.registry.node_type_max
      → Returns
          (λ (r : (Vui C × List VppInstall) × Vty). Entered r.0 r.1)
          (setup_vpp_node C vui >>= λ s. vpp s.0.registry vty >>= λ v. some (s, v))
  unfolding setup_vpp_node vpp
  vpp_enters vui vty h l m =
      let n : VuiNode = record {
        node = 0;
        parent = pos config_node;
        name = vpp_name;
        prompt = vpp_prompt;
      } in
      let (r, e, w) = Returns-some (Installed C vui n) _ (vui_node_install_lem C vui n h l) in
      rw (e, w.2 m) (r.1.node, refl, w.0.3, refl, w.3)
