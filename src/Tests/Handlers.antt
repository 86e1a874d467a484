-- ===== src/Tests/Handlers.antt =====
-- The handlers of cplane_netdev.c at concrete inputs.
use routerd.Client.Replies.Agree.{Agrees, retval-Agrees}
use routerd.Client.Replies.{enable_disable_tap_inject_retval}
use routerd.Prelude.{
  some, htonl, ◌<◌, ◌^◌, ℕ, ◌≡◌, refl, List, [], ◌∷◌, none, true, Returns, ◌⊎◌, inl, All,
}
use routerd.Cplane.Env.{Linux}
use routerd.Cplane.Connect.{tap_inject_tap_disconnect}
use routerd.Cplane.Connect.Safety.{SafeOutcome, Disconnects, disconnect-Safe}
use routerd.Cplane.Interfaces.Safety.{Known, IsReady}
use routerd.Cplane.Handlers.{
  cplane_netdev_init, id, name, Request, api_enable_disable, cli_enable_disable, cli_create,
  enable_disable_handler, enable_disable_cmd, create_cplane_netdev_command_fn, run,
}
use routerd.Cplane.Handlers.Safety.{
  Handled, enable_disable_handler-Handled, Commanded, enable_disable_cmd-Commanded,
}
use routerd.Cplane.Handlers.Create.{GivesName, HasUnknown, create_command_iff}
use routerd.Cplane.Handlers.History.{IsAnswerable, init-Ready, run-init-Ready}
use routerd.Tests.Fixtures.{list_infra, vpp, port, local, linux, linux_no_index, start, counters}

known : Known vpp vpp.hw_interfaces
known = ((local, refl), ((port, refl), tt))

ready : IsReady list_infra start
ready = init-Ready list_infra vpp 100 10 11 12 counters

disconnect-Safe_example :
    Returns
      (λ o. SafeOutcome list_infra start o × Disconnects list_infra start 1 o)
      (tap_inject_tap_disconnect list_infra start 1)
disconnect-Safe_example = disconnect-Safe list_infra start 1 ready.safe

enable_disable_handler-Handled_example :
    Returns
      (Handled list_infra vpp known true)
      (enable_disable_handler list_infra vpp (λ i. linux_no_index) true start)
enable_disable_handler-Handled_example =
    enable_disable_handler-Handled list_infra vpp known (λ i. linux_no_index) true start ready

enable_disable_cmd-Commanded_example :
    Returns
      (Commanded list_infra vpp known start true)
      (enable_disable_cmd list_infra vpp (λ i. linux) true start)
enable_disable_cmd-Commanded_example =
    enable_disable_cmd-Commanded list_infra vpp known (λ i. linux) true start ready

create_command_iff_example :
    (GivesName (id 1 ∷ []) ⊎ HasUnknown (id 1 ∷ [])
      → Returns
          (λ o. IsReady list_infra o.state)
          (create_cplane_netdev_command_fn list_infra vpp linux (id 1 ∷ []) start))
    × ((¬ GivesName (id 1 ∷ []))
        → (¬ HasUnknown (id 1 ∷ []))
        → create_cplane_netdev_command_fn list_infra vpp linux (id 1 ∷ []) start ≡ none)
create_command_iff_example = create_command_iff list_infra vpp linux (id 1 ∷ []) start ready

abbrev requests : List ((ℕ → Linux) × Request)
requests =
    ((λ i. linux), cli_enable_disable true)
    ∷ ((λ i. linux), cli_create (id 1 ∷ name (b'x' ∷ []) ∷ []))
    ∷ ((λ i. linux_no_index), api_enable_disable true)
    ∷ []

requests-All : All IsAnswerable requests
requests-All = (tt, (inl tt, (tt, tt)))

run-init-Ready_example : Returns (IsReady list_infra) (
    run list_infra vpp requests
      (record { main = cplane_netdev_init list_infra 100 10 11 12; counters = counters }))
run-init-Ready_example =
    run-init-Ready list_infra vpp known 100 10 11 12 counters requests requests-All

retval-Agrees_example :
    Returns
      (Agrees list_infra vpp known true)
      (enable_disable_handler list_infra vpp (λ i. linux_no_index) true start)
    × ((v : ℕ) → v < 2 ^ 32 → enable_disable_tap_inject_retval (some (htonl v)) ≡ v)
retval-Agrees_example = retval-Agrees list_infra vpp known (λ i. linux_no_index) true start ready
