-- ===== src/Cplane/Interfaces.antt =====
-- `tap_inject_iface_isr` and `tap_inject_enable_disable_all_interfaces` of cplane_netdev.c.
pub mod Safety
use routerd.Prelude.{ℕ, List, [], ◌∷◌, ◌++◌, Option, none, some, ◌>>=◌, Bool, ◌==◌, if◌then◌else◌}
use routerd.Vppinfra.{Vppinfra}
use routerd.Cplane.Env.{HwInterface, Vpp, Linux, Effect, Error, isr_failed}
use routerd.Cplane.State.{Main}
use routerd.Cplane.Switch.{tap_inject_enable, tap_inject_disable}
use routerd.Cplane.Connect.{
  State, Outcome, outcome, tap_inject_tap_connect, tap_inject_tap_disconnect,
}

module _ (V : Vppinfra) where
  -- The effects of what was done first in front of those of an outcome.
  abbrev pub after : List Effect → Outcome V → Outcome V
  after before o = record o { effects = before ++ o.effects }

  -- One interface that is to be enabled; other than Ethernet ones are passed over. An interface
  -- that VPP does not know is a null pointer: `none`.
  unfoldable pub connect_one : Vpp → (ℕ → Linux) → State V → ℕ → Option (Outcome V)
  connect_one vpp os st hw_if_index = vpp.get_hw_interface hw_if_index >>= λ hw.
      if hw.hw_class_index == vpp.ethernet_class_index
      then tap_inject_tap_connect V vpp (os hw_if_index) st hw
      else some (outcome V st [] none)

  -- The first loop of `tap_inject_iface_isr`: it breaks at the first error. `os` answers for the
  -- connection of each interface.
  unfoldable pub connect_all : Vpp → (ℕ → Linux) → State V → List ℕ → Option (Outcome V)
  connect_all vpp os st [] = some (outcome V st [] none)
  connect_all vpp os st (hw_if_index ∷ rest) = connect_one vpp os st hw_if_index >>= λ o.
      elim o.error [
        | some e ↦ some o
        | none ↦ connect_all vpp os o.state rest >>= λ p. some (after o.effects p)
      ]

  -- The second loop: errors are passed over.
  unfoldable pub disconnect_all : State V → List ℕ → Option (State V × List Effect)
  disconnect_all st [] = some (st, [])
  disconnect_all st (sw_if_index ∷ rest) = tap_inject_tap_disconnect V st sw_if_index >>= λ o.
      disconnect_all o.state rest >>= λ p. some (p.0, o.effects ++ p.1)

  unfoldable pub tap_inject_iface_isr : Vpp → (ℕ → Linux) → State V → Option (Outcome V)
  tap_inject_iface_isr vpp os st = connect_all vpp os st st.main.interfaces_to_enable >>= λ o.
      disconnect_all o.state o.state.main.interfaces_to_disable >>= λ p. some (
        outcome V
          (record p.0 {
            main = record p.0.main { interfaces_to_enable = []; interfaces_to_disable = [] };
          })
          (o.effects ++ p.1) o.error)

  -- `pool_foreach (hw, interfaces, vec_add1 (*indices, hw - interfaces))`
  unfoldable pub add_all : List ℕ → List ℕ → List ℕ
  add_all v [] = v
  add_all v (i ∷ is) = add_all (V.vec_add1 v i) is

  abbrev pub failed : Option Error → Option Error
  failed none = none
  failed (some e) = some isr_failed

  unfoldable pub tap_inject_enable_disable_all_interfaces :
      Vpp → (ℕ → Linux) → Bool → State V → Option (Outcome V)
  tap_inject_enable_disable_all_interfaces vpp os enable st =
      let (im, did) =
        if enable then tap_inject_enable V st.main else tap_inject_disable V vpp st.main in
      let collected =
        if enable
        then record im { interfaces_to_enable = add_all im.interfaces_to_enable vpp.hw_interfaces }
        else record im {
          interfaces_to_disable = add_all im.interfaces_to_disable vpp.hw_interfaces;
        } in
      tap_inject_iface_isr vpp os (record st { main = collected }) >>= λ o.
      some (outcome V o.state (did ++ o.effects) (failed o.error))
