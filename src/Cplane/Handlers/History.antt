-- ===== src/Cplane/Handlers/History.antt =====
-- Any history of requests to the plugin, from the state that `cplane_netdev_init` leaves.
use routerd.Prelude.{ℕ, ◌⊎◌, refl, List, [], ◌∷◌, Returns, Returns->>=, arith, All}
use routerd.Vppinfra.{Vppinfra}
use routerd.Cplane.Env.{Vpp, Linux}
use routerd.Cplane.Connect.{State, Counters}
use routerd.Cplane.TapTable.Links.{IsLinked}
use routerd.Cplane.Interfaces.Safety.{IsReady, Known}
use routerd.Cplane.Handlers.Safety.{
  Handled, enable_disable_handler-Handled, Commanded, enable_disable_cmd-Commanded,
}
use routerd.Cplane.Handlers.Create.{GivesName, HasUnknown, create_command_iff}
use routerd.Cplane.Handlers.{
  cplane_netdev_init, Request, api_enable_disable, cli_enable_disable, cli_create, handle, run,
}

-- A `create cplane-netdev` line of the history gives a name, or is refused.
abbrev pub IsAnswerable : (ℕ → Linux) × Request → Type 0
IsAnswerable (os, cli_create line) = GivesName line ⊎ HasUnknown line
IsAnswerable (os, api_enable_disable b) = Unit {0}
IsAnswerable (os, cli_enable_disable b) = Unit {0}

module _ (V : Vppinfra) (vpp : Vpp) where
  pub init-Ready :
      (base rx tx neighbor : ℕ) (c : Counters)
      → IsReady V (record { main = cplane_netdev_init V base rx tx neighbor; counters = c })
  unfolding cplane_netdev_init
  init-Ready base rx tx neighbor c = record {
    safe = record { bounds = λ sw h. absurd (h refl) };
    none_to_enable = refl;
    none_to_disable = refl;
  }

  -- The tables that `cplane_netdev_init` leaves are linked.
  pub init-IsLinked :
      (base rx tx neighbor : ℕ) → IsLinked V (cplane_netdev_init V base rx tx neighbor)
  unfolding cplane_netdev_init
  init-IsLinked base rx tx neighbor = record {
    mapped = λ sw h. absurd (h refl);
    back = λ fd h. absurd (h refl);
    kern = λ k sw e. ground (arith, V.get-null k);
  }

  module _ (known : Known vpp vpp.hw_interfaces) where
    handle-Ready :
        (os : ℕ → Linux) (q : Request) (st : State V)
        → IsAnswerable (os, q)
        → IsReady V st
        → Returns (IsReady V) (handle V vpp os q st)
    unfolding handle
    handle-Ready os (api_enable_disable b) st a r =
        Returns->>= (Handled V vpp known b) (IsReady V) _ _
          (enable_disable_handler-Handled V vpp known os b st r) (λ o h. h.0)
    handle-Ready os (cli_enable_disable b) st a r =
        Returns->>= (Commanded V vpp known st b) (IsReady V) _ _
          (enable_disable_cmd-Commanded V vpp known os b st r) (λ o h. h.0)
    handle-Ready os (cli_create line) st a r =
        Returns->>= (λ o. IsReady V o.state) (IsReady V) _ _
          ((create_command_iff V vpp (os 0) line st r).0 a) (λ o h. h)

    run-Ready :
        (qs : List ((ℕ → Linux) × Request)) (st : State V)
        → All IsAnswerable qs
        → IsReady V st
        → Returns (IsReady V) (run V vpp qs st)
    unfolding run
    run-Ready [] st a r = r
    run-Ready ((os, q) ∷ qs) st a r =
        Returns->>= (IsReady V) (IsReady V) _ _ (handle-Ready os q st a.0 r)
          λ st' w. run-Ready qs st' a.1 w

    -- From the state that `cplane_netdev_init` leaves, no history of API and CLI requests makes an
    -- access out of bounds, whatever Linux answers, where VPP knows the interfaces of its pool and
    -- every `create cplane-netdev` line gives a name or is refused; and none leaves an interface
    -- waiting.
    pub run-init-Ready :
        (base rx tx neighbor : ℕ) (c : Counters) (qs : List ((ℕ → Linux) × Request))
        → All IsAnswerable qs
        → Returns (IsReady V) (
            run V vpp qs (record { main = cplane_netdev_init V base rx tx neighbor; counters = c }))
    run-init-Ready base rx tx neighbor c qs a = run-Ready qs _ a (init-Ready base rx tx neighbor c)
