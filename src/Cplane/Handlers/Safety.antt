-- ===== src/Cplane/Handlers/Safety.antt =====
-- The handlers of cplane_netdev.c, each on all its branches, and any history of their calls.
use routerd.Prelude.{
  ℕ, ◌≡◌, ◌≢◌, ◌⊎◌, refl, ◌∙◌, List, [], ◌∷◌, ◌++◌, none, some, Bool, true, false, Bool-cases,
  Option-cases, inl, inr, Returns, map, Returns->>=, invalid, has_bit,
}
use routerd.Vppinfra.{Vppinfra}
use routerd.Cplane.Env.{Vpp, Linux, Effect, config_disabled}
use routerd.Cplane.State.{config_enable, tap_inject_is_enabled, tap_inject_is_config_disabled}
use routerd.Cplane.TapTable.{fd_of}
use routerd.Cplane.Connect.{State, Outcome}
use routerd.Cplane.Interfaces.Safety.{
  contains, Known, IsReady, Switched, enable_disable_all-Switched,
}
use routerd.Cplane.Switch.Flags.{set_bit_config, clear_bit_config}
use routerd.Cplane.Handlers.{
  Step, did, enable_disable_reply, minus_one, enable_disable_handler, enable_disable_cmd,
}

module _ (V : Vppinfra) (vpp : Vpp) (known : Known vpp vpp.hw_interfaces) where
  -- No interface of the pool has a tap.
  abbrev pub AllOff : State V → Type 0
  AllOff st = (j : ℕ) → contains vpp.hw_interfaces j ≡ true → fd_of V st.main j ≡ invalid

  -- One reply, last: the steps before it are calls.
  abbrev pub Replied : ℕ → List Step → Type 0
  Replied v steps = (es : List Effect) × (steps ≡ map did es ++ enable_disable_reply v ∷ [])

  abbrev pub Handled : Bool → State V × List Step → Type 0
  Handled is_enable (st, steps) =
      IsReady V st
      × (Replied 0 steps
            × (tap_inject_is_enabled V st.main ≡ is_enable)
            × (is_enable ≡ false → AllOff st)
          ⊎ Replied minus_one steps × (tap_inject_is_enabled V st.main ≡ false) × AllOff st)

  -- The API handler makes no access out of bounds and sends one reply, after all its calls. At retval 0 tap injection
  -- is as asked for, and after a disabling no interface has a tap. At retval -1 tap injection is
  -- disabled and no interface has a tap: an enabling that fails half way is taken back.
  pub enable_disable_handler-Handled :
      (os : ℕ → Linux) (is_enable : Bool) (st : State V)
      → IsReady V st
      → Returns (Handled is_enable) (enable_disable_handler V vpp os is_enable st)
  unfolding enable_disable_handler
  enable_disable_handler-Handled os is_enable st r =
      Returns->>= (Switched V vpp is_enable) (Handled is_enable) _ _
        (enable_disable_all-Switched V vpp os is_enable st known r)
        λ o s. elim (Option-cases o.error) [
          | inl q ↦ rw (q, enable_disable_handler) (s.0, inl ((o.effects, refl), s.1, s.2))
          | inr (e, q) ↦
              rw (q, enable_disable_handler)
                (Returns->>= (Switched V vpp false) (Handled is_enable) _ _
                  (enable_disable_all-Switched V vpp os false o.state known s.0)
                  λ p t. (t.0, inr ((o.effects ++ p.effects, refl), t.1, t.2 refl)))
        ]

  pub IsReady-flags :
      (st : State V) (w : ℕ)
      → IsReady V st
      → IsReady V (record st { main = record st.main { flags = w } })
  IsReady-flags st w r = record {
    safe = record { bounds = r.safe.bounds };
    none_to_enable = r.none_to_enable;
    none_to_disable = r.none_to_disable;
  }

  abbrev pub Commanded : State V → Bool → Outcome V → Type 0
  Commanded st is_enable o =
      IsReady V o.state
      × ((o.error ≡ none)
            × (is_enable ≡ true → tap_inject_is_config_disabled V st.main ≡ false)
            × (tap_inject_is_enabled V o.state.main ≡ is_enable)
            × (has_bit o.state.main.flags config_enable ≡ is_enable)
            × (is_enable ≡ false → AllOff o.state)
          ⊎ (is_enable ≡ true)
            × (o.error ≡ some config_disabled)
            × (o.state ≡ st)
            × (tap_inject_is_config_disabled V st.main ≡ true)
          ⊎ (is_enable ≡ true)
            × (tap_inject_is_config_disabled V st.main ≡ false)
            × (o.error ≢ none)
            × (tap_inject_is_enabled V o.state.main ≡ false)
            × AllOff o.state)

  -- The CLI commands make no access out of bounds. Without an error tap injection and the
  -- configuration's bit are as asked for, and after `disable tap-inject` no interface has a tap.
  -- Where the
  -- configuration forbids it, `enable tap-inject` changes nothing and gives an error, and only there;
  -- where it fails otherwise, tap injection is disabled and no interface has a tap. `disable tap-inject` gives no error.
  pub enable_disable_cmd-Commanded :
      (os : ℕ → Linux) (is_enable : Bool) (st : State V)
      → IsReady V st
      → Returns (Commanded st is_enable) (enable_disable_cmd V vpp os is_enable st)
  unfolding enable_disable_cmd
  enable_disable_cmd-Commanded os false st r =
      Returns->>= (Switched V vpp false) (Commanded st false) _ _
        (enable_disable_all-Switched V vpp os false st known r)
        λ o s.
          let c = clear_bit_config o.state.main.flags in
          (IsReady-flags o.state _ s.0, inl (refl, (λ e. cc e), c.1 ∙ s.1, c.0, λ e. s.2 e))
  enable_disable_cmd-Commanded os true st r =
      elim (Bool-cases (tap_inject_is_config_disabled V st.main)) [
        | inl t ↦ rw t (r, inr (inl (refl, refl, refl, t)))
        | inr f ↦ rw f (
            Returns->>= (Switched V vpp true) (Commanded st true) _ _
              (enable_disable_all-Switched V vpp os true st known r)
              λ o s. elim (Option-cases o.error) [
                | inl q ↦
                    let c = set_bit_config o.state.main.flags in
                    rw (q, enable_disable_cmd)
                      (IsReady-flags o.state _ s.0, inl (refl, (λ _. f), c.1 ∙ s.1, c.0, λ e. cc))
                | inr (e, q) ↦
                    rw (q, enable_disable_cmd)
                      (Returns->>= (Switched V vpp false) (Commanded st true) _ _
                        (enable_disable_all-Switched V vpp os false o.state known s.0)
                        λ p t. (t.0, inr (inr (refl, f, (λ n. cc), t.1, t.2 refl))))
              ])
      ]
