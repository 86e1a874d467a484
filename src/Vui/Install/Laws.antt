-- ===== src/Vui/Install/Laws.antt =====
-- `vui_node_install`: the node gets a number of its own, is found by its name and stands in `cmdvec`.
use routerd.Prelude.{
  ℕ, ◌<◌, ◌≡◌, ◌≢◌, refl, sym, ◌∙◌, List, some, ==_refl, ==_ne, pos, Returns, Returns->>=,
}
use routerd.Vui.Registry.{node_type_limit, find_node_id_by_name}
use routerd.Vui.Registry.Find.{IsNamed, NoneNamed}
use routerd.Vui.Registry.Alloc.{Allocated, alloc_new_node_id_lem}
use routerd.Vui.Install.{CommandVector, VuiNode, Vui, vui_node_install}

module _ (C : CommandVector) where
  -- The node after its installation, and what else changed.
  abbrev pub Installed : Vui C → VuiNode → Vui C × VuiNode → Type 0
  Installed vui n (vui', n') =
      Allocated vui.registry n.name n.parent (n'.node, vui'.registry)
      × IsNamed vui'.registry
      × (NoneNamed vui.registry n.name 0 vui.registry.node_type_max
          → find_node_id_by_name vui'.registry n.name ≡ some (pos n'.node))
      × (C.vector_lookup vui'.cmdvec n'.node
          ≡ some (record { node = n'.node; prompt = n.prompt; vtysh = 1 }))
      × ((j : ℕ) → j ≢ n'.node → C.vector_lookup vui'.cmdvec j ≡ C.vector_lookup vui.cmdvec j)

  -- Where all nodes have names and a number is left, `vui_node_install` passes the `assert`. The node
  -- gets the next number, with its name and its parent, and is found by its name if no other node
  -- had it; it stands in `cmdvec` with its prompt, and the nodes that stood there still do.
  pub vui_node_install_lem :
      (vui : Vui C) (n : VuiNode)
      → IsNamed vui.registry
      → vui.registry.node_type_max < node_type_limit
      → Returns (Installed vui n) (vui_node_install C vui n)
  unfolding vui_node_install
  vui_node_install_lem vui n h l =
      Returns->>=
        (λ p.
          Allocated vui.registry n.name n.parent p
          × IsNamed p.1
          × (NoneNamed vui.registry n.name 0 vui.registry.node_type_max
              → find_node_id_by_name p.1 n.name ≡ some (pos p.0))
          × ((other : List ℕ)
              → other ≢ n.name
              → find_node_id_by_name p.1 other ≡ find_node_id_by_name vui.registry other))
        _ _ _ (alloc_new_node_id_lem vui.registry n.name n.parent h l)
        λ p w. (
          w.0,
          w.1,
          w.2,
          C.lookup-set vui.cmdvec p.0 _ p.0 ∙ rw (==_refl p.0) refl,
          λ j d. C.lookup-set vui.cmdvec p.0 _ j ∙ rw (==_ne p.0 j (λ e. d (sym e))) refl,
        )
