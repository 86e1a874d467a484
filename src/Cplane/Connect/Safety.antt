-- ===== src/Cplane/Connect/Safety.antt =====
-- Connecting and disconnecting one tap stays inside the tables.
use routerd.Prelude.{
  ℕ, ◌≡◌, ◌≢◌, refl, sym, ap, ◌∙◌, none, some, Bool-cases, Option-cases, inl, inr, Returns, invalid,
  arith, ◌==◌, if◌then◌else◌, List, [], ◌∷◌, ◌⊎◌, ==_iff,
}
use routerd.Vppinfra.{Vppinfra}
use routerd.Cplane.Env.{HwInterface, Vpp, Linux, Effect, close, disconnect_failed}
use routerd.Cplane.State.{Main}
use routerd.Cplane.TapTable.{fd_of}
use routerd.Cplane.TapTable.Views.{
  IsSafe, insert-inserted, inserted-IsSafe, delete-deleted, deleted-IsSafe, deleted-Updates,
  lookup_tap_fd_lem, grown-IsSafe, get_or-grow, grow,
}
use routerd.Cplane.Connect.{
  State, Outcome, configure, tap_inject_tap_connect, tap_inject_tap_disconnect,
}

module _ (V : Vppinfra) where
  abbrev pub SafeState : State V → Type 0
  SafeState st = IsSafe V st.main

  -- The flags and the lists of interfaces are as they were.
  abbrev pub Frame : Main V → Main V → Type 0
  Frame im im' =
      (im'.flags ≡ im.flags)
      × (im'.interfaces_to_enable ≡ im.interfaces_to_enable)
      × (im'.interfaces_to_disable ≡ im.interfaces_to_disable)

  pub Frame-trans : (im im' im'' : Main V) → Frame im im' → Frame im' im'' → Frame im im''
  Frame-trans im im' im'' f g = (g.0 ∙ f.0, g.1 ∙ f.1, g.2 ∙ f.2)

  abbrev pub SafeOutcome : State V → Outcome V → Type 0
  SafeOutcome st o = IsSafe V o.state.main × Frame st.main o.state.main

  configure-Safe :
      (os : Linux) (st : State V) (hw : HwInterface) (tap_fd : ℕ) (name : List ℕ) (es : List Effect)
      → SafeState st
      → Returns (SafeOutcome st) (configure V os st hw tap_fd name es)
  unfolding configure
  configure-Safe os st hw tap_fd name es v = elim (Option-cases os.socket) [
    | inl e ↦ rw (e, configure) (v, (refl, refl, refl))
    | inr (fd, e) ↦ elim (Bool-cases os.siocsifhwaddr) [
      | inl t ↦ elim (Option-cases os.siocgifindex) [
        | inl n ↦ rw (e, t, n, configure) (v, (refl, refl, refl))
        | inr (k, i) ↦
            rw (e, t, i, configure)
              (rw (insert-inserted V st.main hw.sw_if_index tap_fd k)
                (inserted-IsSafe V st.main hw.sw_if_index tap_fd k v, (refl, refl, refl)))
      ]
      | inr f ↦ rw (e, f, configure) (v, (refl, refl, refl))
    ]
  ]

  pub connect-Safe :
      (vpp : Vpp) (os : Linux) (st : State V) (hw : HwInterface)
      → SafeState st
      → Returns (SafeOutcome st) (tap_inject_tap_connect V vpp os st hw)
  unfolding tap_inject_tap_connect
  connect-Safe vpp os st hw v = elim (Option-cases os.open_tun) [
    | inl e ↦ rw (e, tap_inject_tap_connect) (v, (refl, refl, refl))
    | inr (fd, e) ↦ elim (Bool-cases os.tunsetiff) [
      | inr f ↦ rw (e, f, tap_inject_tap_connect) (v, (refl, refl, refl))
      | inl t ↦ elim (Bool-cases os.fionbio) [
        | inr f ↦ rw (e, t, f, tap_inject_tap_connect) (v, (refl, refl, refl))
        | inl u ↦ rw (e, t, u, tap_inject_tap_connect) (configure-Safe _ _ hw _ _ _ v)
      ]
    ]
  ]

  -- What a disconnection leaves, by whether the interface has a tap.
  abbrev pub Disconnects : State V → ℕ → Outcome V → Type 0
  Disconnects st sw o =
      ((fd_of V st.main sw ≡ invalid)
        × (o.error ≡ some disconnect_failed)
        × (o.effects ≡ [])
        × ((j : ℕ) → fd_of V o.state.main j ≡ fd_of V st.main j))
      ⊎ ((fd_of V st.main sw ≢ invalid)
          × (o.error ≡ none)
          × (o.effects ≡ close (fd_of V st.main sw) ∷ [])
          × ((j : ℕ) → fd_of V o.state.main j ≡ (if sw == j then invalid else fd_of V st.main j)))

  -- Disconnecting an interface makes no access out of bounds, keeps the flags and the lists of
  -- interfaces, and does one of two things. Where the interface has no tap, it fails and no
  -- interface's descriptor changes. Where it has one, it closes that descriptor once and takes it
  -- from the interface, the other interfaces keeping theirs.
  pub disconnect-Safe :
      (st : State V) (sw : ℕ)
      → SafeState st
      → Returns (λ o. SafeOutcome st o × Disconnects st sw o) (tap_inject_tap_disconnect V st sw)
  unfolding tap_inject_tap_disconnect
  disconnect-Safe st sw v =
      let im = record st.main { sw_if_index_to_tap_fd = grow V st.main.sw_if_index_to_tap_fd sw } in
      let same : (j : ℕ) → fd_of V im j ≡ fd_of V st.main j =
        get_or-grow V st.main.sw_if_index_to_tap_fd sw in
      let w = grown-IsSafe V st.main sw v in
      rw (lookup_tap_fd_lem V st.main sw) (elim (Bool-cases (fd_of V st.main sw == invalid)) [
        | inl t ↦ rw t ((w, (refl, refl, refl)), inl ((==_iff _ _).0 t, refl, refl, same))
        | inr f ↦
            let m : fd_of V st.main sw ≢ invalid = ground (arith, f) in
            let m' : fd_of V im sw ≢ invalid = λ e. m (sym (same sw) ∙ e) in
            rw (f, delete-deleted V im sw w m')
              (
                (deleted-IsSafe V im sw w m', (refl, refl, refl)),
                inr (
                  m,
                  refl,
                  refl,
                  λ j.
                      (deleted-Updates V im sw w m').fds j
                      ∙ ap (λ k. if sw == j then invalid else k) (same j),
                ),
              )
      ])
