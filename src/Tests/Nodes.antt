-- ===== src/Tests/Nodes.antt =====
-- The nodes of the command line at concrete inputs.
use routerd.Prelude.{
  ℕ, zero, suc, ◌≡◌, ◌≢◌, ◌<◌, refl, ap, List, [], ◌∷◌, Option, none, some, ◌>>=◌, true, arith,
  Returns, pos, ◌==◌, if◌then◌else◌,
}
use routerd.Vui.Registry.{
  config_node, first_registry, first_node_type_max, first_names, node_type_limit, alloc_new_node_id,
  find_node_id_by_name,
}
use routerd.Vui.Registry.Find.{IsNamed, NoneNamed}
use routerd.Vui.Registry.Alloc.{Allocated, alloc_new_node_id_lem}
use routerd.Vui.Registry.Rooted.{first, climb, climb_lem, first_registry-IsNamed}
use routerd.Vui.Install.{CmdNode, CommandVector, Vui}
use routerd.Vui.Tap.{
  Vty, tap_name, tap_prompt, tap, InstallCall, install_default, install_tap_cmd, setup_tap_node,
}
use routerd.Vui.Tap.Enter.{tap_enters}

abbrev function_vector : CommandVector
function_vector = record {
  Vector = ℕ → Option CmdNode;
  vector_set_index = λ v i n j. if i == j then some n else v j;
  vector_lookup = λ v j. v j;
  lookup-set = λ v i n j. refl;
}

abbrev vui : Vui function_vector
vui = record { registry = first_registry; cmdvec = λ j. none }

abbrev vty : Vty
vty = record { node = pos config_node; config = true; xpath_index = 3 }

room : first_registry.node_type_max < node_type_limit
unfolding first_registry
room = omega arith

under_max : config_node < first_registry.node_type_max
unfolding first_registry
under_max = omega arith

six_under : 6 < first_registry.node_type_max
unfolding first_registry
six_under = omega arith

abbrev first_byte : Option (List ℕ) → ℕ
first_byte none = 0
first_byte (some []) = 0
first_byte (some (c ∷ s)) = c

-- None of the first names is "tap".
other_first : (j : ℕ) → j < first_node_type_max → first_names j ≢ some tap_name
other_first zero b e = absurd (omega (arith, ap first_byte e))
other_first (suc zero) b e = absurd (omega (arith, ap first_byte e))
other_first (suc (suc zero)) b e = absurd (omega (arith, ap first_byte e))
other_first (suc (suc (suc zero))) b e = absurd (omega (arith, ap first_byte e))
other_first (suc (suc (suc (suc zero)))) b e = absurd (omega (arith, ap first_byte e))
other_first (suc (suc (suc (suc (suc zero))))) b e = absurd (omega (arith, ap first_byte e))
other_first (suc (suc (suc (suc (suc (suc zero)))))) b e = absurd (omega (arith, ap first_byte e))
other_first (suc (suc (suc (suc (suc (suc (suc j))))))) b e = absurd (omega (arith, b))

no_tap : NoneNamed first_registry tap_name 0 first_registry.node_type_max
unfolding first_registry
no_tap j a b = other_first j (omega (arith, b))

alloc_new_node_id_lem_example :
    Returns
      (λ p.
        Allocated first_registry tap_name (pos config_node) p
        × IsNamed p.1
        × (NoneNamed first_registry tap_name 0 first_registry.node_type_max
            → find_node_id_by_name p.1 tap_name ≡ some (pos p.0))
        × ((other : List ℕ)
            → other ≢ tap_name
            → find_node_id_by_name p.1 other ≡ find_node_id_by_name first_registry other))
      (alloc_new_node_id first_registry tap_name (pos config_node))
alloc_new_node_id_lem_example =
    alloc_new_node_id_lem first_registry tap_name (pos config_node) first_registry-IsNamed room

climb_lem_example : climb 7 first_registry 6 ≡ some config_node
climb_lem_example = climb_lem first_registry 7 6 first (omega arith) six_under (omega arith)

tap_enters_example :
    Returns
      (λ (r : (Vui function_vector × List InstallCall) × Vty).
        (id : ℕ) × (r.1.node ≡ pos id)
        × (r.0.0.registry.node_parents id ≡ pos config_node)
        × (r.0.1 ≡ install_default id ∷ install_tap_cmd config_node ∷ [])
        × (r.0.0.cmdvec id ≡ some (record { node = id; prompt = tap_prompt; vtysh = 1 })))
      (setup_tap_node function_vector vui >>= λ s. tap s.0.registry vty >>= λ v. some (s, v))
tap_enters_example = tap_enters function_vector vui vty first_registry-IsNamed room no_tap
