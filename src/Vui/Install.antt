-- ===== src/Vui/Install.antt =====
-- libvui/src/vui/vui.c: installing a node of the command line.
pub mod Laws
use routerd.Prelude.{ℕ, List, Option, none, some, ◌>>=◌, ℤ, pos, ◌==◌, ◌≡◌, if◌then◌else◌}
use routerd.Vui.Registry.{Registry, alloc_new_node_id}

-- `struct cmd_node`, as far as `vui_node_install` sets it; its function is null and its graph, vector
-- and hash are new ones of the library.
pub record CmdNode : Type 0 where
  pub node : ℕ
  pub prompt : List ℕ
  pub vtysh : ℕ

-- The library's vector `cmdvec` of installed nodes.
pub record CommandVector : Type 1 where
  pub Vector : Type 0
  pub vector_set_index : Vector → ℕ → CmdNode → Vector
  pub vector_lookup : Vector → ℕ → Option CmdNode
  pub lookup-set :
      (v : Vector) (i : ℕ) (n : CmdNode) (j : ℕ)
      → vector_lookup (vector_set_index v i n) j ≡ (if i == j then some n else vector_lookup v j)

-- `vui_node_t`, less the pointer to its `cmd_node`.
pub record VuiNode : Type 0 where
  pub node : ℕ
  pub parent : ℤ
  pub name : List ℕ
  pub prompt : List ℕ

module _ (C : CommandVector) where
  pub record Vui : Type 0 where
    pub registry : Registry
    pub cmdvec : C.Vector

  -- `install_node`, without a function
  abbrev pub install_node : Vui → CmdNode → Vui
  install_node vui n = record vui { cmdvec = C.vector_set_index vui.cmdvec n.node n }

  unfoldable pub vui_node_install : Vui → VuiNode → Option (Vui × VuiNode)
  vui_node_install vui n = alloc_new_node_id vui.registry n.name n.parent >>= λ r.
      let (id, registry) = r in
      let impl : CmdNode = record { node = id; prompt = n.prompt; vtysh = 1 } in
      some (install_node (record vui { registry = registry }) impl, record n { node = id })
