-- ===== src/Vui/Tap/Enter.antt =====
-- Entering the node `tap` after it was set up.
use routerd.Prelude.{ℕ, ◌<◌, ◌≡◌, refl, List, [], ◌∷◌, some, ◌>>=◌, pos, Returns, Returns-some}
use routerd.Vui.Registry.{config_node, node_type_limit}
use routerd.Vui.Registry.Find.{IsNamed, NoneNamed}
use routerd.Vui.Install.{CommandVector, VuiNode, Vui}
use routerd.Vui.Install.Laws.{Installed, vui_node_install_lem}
use routerd.Vui.Tap.{
  Vty, tap_name, tap_prompt, tap, InstallCall, install_default, install_tap_cmd, setup_tap_node,
}

module _ (C : CommandVector) where
  abbrev Entered : Vui C × List InstallCall → Vty → Type 0
  Entered (vui, calls) vty =
      (id : ℕ) × (vty.node ≡ pos id)
      × (vui.registry.node_parents id ≡ pos config_node)
      × (calls ≡ install_default id ∷ install_tap_cmd config_node ∷ [])
      × (C.vector_lookup vui.cmdvec id
          ≡ some (record { node = id; prompt = tap_prompt; vtysh = 1 }))

  -- Where all nodes have names, a number is left and no node is called "tap", `setup_tap_node` passes
  -- the `assert`, and the command `tap` then enters the node that was installed: its commands were
  -- given to that node's number, its parent is CONFIG_NODE, and it stands in `cmdvec` with its
  -- prompt.
  pub tap_enters :
      (vui : Vui C) (vty : Vty)
      → IsNamed vui.registry
      → vui.registry.node_type_max < node_type_limit
      → NoneNamed vui.registry tap_name 0 vui.registry.node_type_max
      → Returns
          (λ (r : (Vui C × List InstallCall) × Vty). Entered r.0 r.1)
          (setup_tap_node C vui >>= λ s. tap s.0.registry vty >>= λ v. some (s, v))
  unfolding setup_tap_node tap
  tap_enters vui vty h l m =
      let n : VuiNode = record {
        node = 0;
        parent = pos config_node;
        name = tap_name;
        prompt = tap_prompt;
      } in
      let (r, e, w) = Returns-some (Installed C vui n) _ (vui_node_install_lem C vui n h l) in
      rw (e, w.2 m) (r.1.node, refl, w.0.3, refl, w.3)
