-- ===== src/Cplane/Interfaces/Safety.antt =====
-- Connecting and disconnecting all interfaces stays inside the tables, and disconnecting them leaves
-- none of them with a tap.
use routerd.Prelude.{
  ℕ, ◌≡◌, refl, sym, subst, ap, ◌∙◌, List, [], ◌∷◌, ◌++◌, append_assoc, append-nil, some, Bool,
  true, false, Bool-cases, Option-cases, inl, inr, Returns, Returns->>=, arith, ◌==◌, ◌||◌,
  if◌then◌else◌, invalid, All, clear_bit, set_bit,
}
use routerd.Vppinfra.{Vppinfra}
use routerd.Cplane.Env.{HwInterface, Vpp, Linux, Effect}
use routerd.Cplane.State.{enabled, tap_inject_is_enabled}
use routerd.Cplane.TapTable.{fd_of}
use routerd.Cplane.Switch.Flags.{enable_main, disable_main, has_bit-set_bit, has_bit-clear_bit}
use routerd.Cplane.Connect.{State, Outcome}
use routerd.Cplane.Connect.Safety.{
  SafeState, SafeOutcome, Disconnects, Frame, Frame-trans, connect-Safe, disconnect-Safe,
}
use routerd.Cplane.Interfaces.{
  connect_one, connect_all, disconnect_all, tap_inject_iface_isr, add_all,
  tap_inject_enable_disable_all_interfaces,
}

pub contains : List ℕ → ℕ → Bool
contains [] j = false
contains (i ∷ is) j = i == j || contains is j

-- VPP knows the interfaces.
abbrev pub Known : Vpp → List ℕ → Type 0
Known vpp = All (λ i. (hw : HwInterface) × (vpp.get_hw_interface i ≡ some hw))

module _ (V : Vppinfra) where
  connect_one-Safe :
      (vpp : Vpp) (os : ℕ → Linux) (st : State V) (i : ℕ)
      → (hw : HwInterface) × (vpp.get_hw_interface i ≡ some hw)
      → SafeState V st
      → Returns (SafeOutcome V st) (connect_one V vpp os st i)
  unfolding connect_one
  connect_one-Safe vpp os st i (hw, e) v =
      rw e (elim (Bool-cases (hw.hw_class_index == vpp.ethernet_class_index)) [
        | inl t ↦ rw t (connect-Safe V vpp (os i) st hw v)
        | inr f ↦ rw f (v, (refl, refl, refl))
      ])

  -- Connecting a list of interfaces that VPP knows stays inside the tables.
  pub connect_all-Safe :
      (vpp : Vpp) (os : ℕ → Linux) (st : State V) (is : List ℕ)
      → Known vpp is
      → SafeState V st
      → Returns (SafeOutcome V st) (connect_all V vpp os st is)
  unfolding connect_all
  connect_all-Safe vpp os st [] k v = (v, (refl, refl, refl))
  connect_all-Safe vpp os st (i ∷ is) k v =
      Returns->>= (SafeOutcome V st) (SafeOutcome V st) (connect_one V vpp os st i) _
        (connect_one-Safe vpp os st i k.0 v)
        λ o w. elim (Option-cases o.error) [
          | inr (e, q) ↦ rw (q, connect_all) w
          | inl q ↦
              rw (q, connect_all)
                (Returns->>= (SafeOutcome V o.state) (SafeOutcome V st) _ _
                  (connect_all-Safe vpp os o.state is k.1 w.0)
                  λ p x. (x.0, Frame-trans V st.main o.state.main p.state.main w.1 x.1))
        ]

  -- What disconnecting a list of interfaces leaves: those of the list have no tap, the others are
  -- as they were.
  abbrev pub Disconnected : State V → List ℕ → State V × List Effect → Type 0
  Disconnected st is p =
      SafeState V p.0
      × Frame V st.main p.0.main
      × ((j : ℕ) → fd_of V p.0.main j ≡ (if contains is j then invalid else fd_of V st.main j))

  disconnected_rest :
      (st : State V) (i : ℕ) (is : List ℕ) (o : Outcome V) (j : ℕ)
      → Disconnects V st i o
      → (if contains is j then invalid else fd_of V o.state.main j)
        ≡ (if i == j || contains is j then invalid else fd_of V st.main j)
  disconnected_rest st i is o j (inl (e, _, _, same)) = ground (arith, same j)
  disconnected_rest st i is o j (inr (_, _, _, cleared)) = ground (arith, cleared j)

  pub disconnect_all-Disconnected :
      (st : State V) (is : List ℕ)
      → SafeState V st
      → Returns (Disconnected st is) (disconnect_all V st is)
  unfolding disconnect_all contains
  disconnect_all-Disconnected st [] v = (v, (refl, refl, refl), λ j. refl)
  disconnect_all-Disconnected st (i ∷ is) v =
      Returns->>= (λ o. SafeOutcome V st o × Disconnects V st i o) (Disconnected st (i ∷ is)) _ _
        (disconnect-Safe V st i v)
        λ o w.
          Returns->>= (Disconnected o.state is) (Disconnected st (i ∷ is)) _ _
            (disconnect_all-Disconnected o.state is w.0.0)
            λ p d. (
              d.0,
              Frame-trans V st.main o.state.main p.0.main w.0.1 d.1,
              λ j. d.2 j ∙ disconnected_rest st i is o j w.1,
            )

  pub add_all-append : (v is : List ℕ) → add_all V v is ≡ v ++ is
  unfolding add_all
  add_all-append v [] = sym (append-nil v)
  add_all-append v (i ∷ is) =
      add_all-append (V.vec_add1 v i) is
      ∙ ap (λ w. w ++ is) (V.vec_add1_lem v i)
      ∙ append_assoc v (i ∷ []) is

  -- Between two calls no interface waits to be enabled or disabled.
  pub record IsReady (st : State V) : Type 0 where
    pub safe : SafeState V st
    pub none_to_enable : st.main.interfaces_to_enable ≡ []
    pub none_to_disable : st.main.interfaces_to_disable ≡ []

  abbrev Serviced : State V → Outcome V → Type 0
  Serviced st o =
      IsReady o.state
      × (o.state.main.flags ≡ st.main.flags)
      × ((j : ℕ)
          → contains st.main.interfaces_to_disable j ≡ true
          → fd_of V o.state.main j ≡ invalid)

  isr-Serviced :
      (vpp : Vpp) (os : ℕ → Linux) (st : State V)
      → Known vpp st.main.interfaces_to_enable
      → SafeState V st
      → Returns (Serviced st) (tap_inject_iface_isr V vpp os st)
  unfolding tap_inject_iface_isr
  isr-Serviced vpp os st k v =
      Returns->>= (SafeOutcome V st) (Serviced st) _ _
        (connect_all-Safe vpp os st st.main.interfaces_to_enable k v)
        λ o w.
          Returns->>= (Disconnected o.state o.state.main.interfaces_to_disable) (Serviced st) _ _
            (disconnect_all-Disconnected o.state o.state.main.interfaces_to_disable w.0)
            λ p d. (
              record {
                safe = record { bounds = d.0.bounds };
                none_to_enable = refl;
                none_to_disable = refl;
              },
              d.1.0 ∙ w.1.0,
              λ j c. d.2 j ∙ (let e = ap (λ is. contains is j) w.1.2 ∙ c in rw e),
            )

  -- What switching all interfaces leaves.
  abbrev pub Switched : Vpp → Bool → Outcome V → Type 0
  Switched vpp enable o =
      IsReady o.state
      × (tap_inject_is_enabled V o.state.main ≡ enable)
      × (enable ≡ false
          → (j : ℕ) → contains vpp.hw_interfaces j ≡ true
          → fd_of V o.state.main j ≡ invalid)

  collected : (is : List ℕ) (v : List ℕ) → v ≡ [] → add_all V v is ≡ is
  collected is v e = add_all-append v is ∙ ap (λ w. w ++ is) e

  abbrev enabling : Vpp → State V → State V
  enabling vpp st = record st {
    main = record st.main {
      flags = set_bit st.main.flags enabled;
      interfaces_to_enable = add_all V st.main.interfaces_to_enable vpp.hw_interfaces;
    };
  }

  abbrev disabling : Vpp → State V → State V
  disabling vpp st = record st {
    main = record st.main {
      flags = clear_bit st.main.flags enabled;
      interfaces_to_disable = add_all V st.main.interfaces_to_disable vpp.hw_interfaces;
    };
  }

  -- Switching all of the interfaces that VPP has, each of them known to it, makes no access out of
  -- bounds and leaves no interface waiting. Tap injection is then enabled exactly when that was
  -- asked for, and after a disabling no interface of the pool has a tap.
  pub enable_disable_all-Switched :
      (vpp : Vpp) (os : ℕ → Linux) (enable : Bool) (st : State V)
      → Known vpp vpp.hw_interfaces
      → IsReady st
      → Returns (Switched vpp enable) (tap_inject_enable_disable_all_interfaces V vpp os enable st)
  unfolding tap_inject_enable_disable_all_interfaces
  enable_disable_all-Switched vpp os true st k r = rw (enable_main V st.main) (
      Returns->>= (Serviced (enabling vpp st)) (Switched vpp true)
        (tap_inject_iface_isr V vpp os (enabling vpp st)) _
        (isr-Serviced vpp os (enabling vpp st)
          (subst (Known vpp) (sym (collected vpp.hw_interfaces _ r.none_to_enable)) k)
          (record { bounds = r.safe.bounds }))
        λ o w. (w.0, rw w.1 (has_bit-set_bit st.main.flags), λ e. cc))
  enable_disable_all-Switched vpp os false st k r = rw (disable_main V vpp st.main) (
      Returns->>= (Serviced (disabling vpp st)) (Switched vpp false)
        (tap_inject_iface_isr V vpp os (disabling vpp st)) _
        (isr-Serviced vpp os (disabling vpp st) (subst (Known vpp) (sym r.none_to_enable) tt)
          (record { bounds = r.safe.bounds }))
        λ o w. (
          w.0,
          rw w.1 (has_bit-clear_bit st.main.flags),
          λ _ j c.
              w.2 j
                (ap (λ is. contains is j) (collected vpp.hw_interfaces _ r.none_to_disable) ∙ c),
        ))
