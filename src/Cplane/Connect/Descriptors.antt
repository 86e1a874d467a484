-- ===== src/Cplane/Connect/Descriptors.antt =====
-- The descriptors that connecting one tap opens and closes.
use routerd.Prelude.{
  ℕ, ◌≡◌, ◌≢◌, ◌⊎◌, refl, List, [], ◌∷◌, ◌++◌, none, some, true, false, Bool-cases, Option-cases,
  inl, inr, Returns, take, take, ==_refl, ==_ne, ◌==◌, if◌then◌else◌,
}
use routerd.Vppinfra.{Vppinfra}
use routerd.Cplane.Env.{
  HwInterface, Vpp, Linux, Effect, opened, close, ioctl_tunsetiff, ioctl_fionbio,
}
use routerd.Cplane.TapTable.{tap_inject_insert_tap}
use routerd.Cplane.TapTable.Views.{insert-inserted}
use routerd.Cplane.Connect.{
  next_name, max_ifr_name, State, Outcome, configure, tap_inject_tap_connect,
}

remove : ℕ → List ℕ → List ℕ
remove a [] = []
remove a (x ∷ xs) = if x == a then xs else x ∷ remove a xs

-- The descriptors that are open after some calls, where `fds` were before.
pub descriptors : List Effect → List ℕ → List ℕ
unfolding remove
descriptors [] fds = fds
descriptors (opened fd ∷ es) fds = descriptors es (fd ∷ fds)
descriptors (close fd ∷ es) fds = descriptors es (remove fd fds)
descriptors (_ ∷ es) fds = descriptors es fds

pub descriptors-append :
    (es es' : List Effect) (fds : List ℕ)
    → descriptors (es ++ es') fds ≡ descriptors es' (descriptors es fds)
unfolding descriptors
descriptors-append [] es' fds = refl
descriptors-append (opened fd ∷ es) es' fds = descriptors-append es es' (fd ∷ fds)
descriptors-append (close fd ∷ es) es' fds = descriptors-append es es' (remove fd fds)
descriptors-append (_ ∷ es) es' fds = descriptors-append es es' fds

module _ (V : Vppinfra) (os : Linux) (hw : HwInterface) (fds : List ℕ) where
  -- The tables are as they were, and what was opened is closed.
  abbrev pub Refused : State V → Outcome V → Type 0
  Refused st o = (o.state.main ≡ st.main) × (descriptors o.effects fds ≡ fds)

  -- The tap's descriptor stays open and is joined to the interface.
  abbrev pub Joined : State V → Outcome V → Type 0
  Joined st o =
      (fd : ℕ) × (k : ℕ) × (os.open_tun ≡ some fd)
      × (os.siocgifindex ≡ some k)
      × (o.error ≡ none)
      × (tap_inject_insert_tap V st.main hw.sw_if_index fd k ≡ some o.state.main)
      × (descriptors o.effects fds ≡ fd ∷ fds)

  configure-descriptors :
      (st : State V) (tap_fd : ℕ) (name : List ℕ) (es : List Effect)
      → os.open_tun ≡ some tap_fd
      → ((s : ℕ) → os.socket ≡ some s → s ≢ tap_fd)
      → descriptors es fds ≡ tap_fd ∷ fds
      → Returns (λ o. Refused st o ⊎ Joined st o) (configure V os st hw tap_fd name es)
  unfolding configure descriptors remove
  configure-descriptors st tap_fd name es o n d = elim (Option-cases os.socket) [
    | inl e ↦ rw (e, configure) (inl (refl, simp (descriptors-append, d, ==_refl)))
    | inr (fd, e) ↦
        let other : (fd == tap_fd) ≡ false = ==_ne fd tap_fd (n fd e) in
        elim (Bool-cases os.siocsifhwaddr) [
          | inl t ↦ elim (Option-cases os.siocgifindex) [
            | inl q ↦
                rw (e, t, q, configure) (inl (refl, simp (descriptors-append, d, other, ==_refl)))
            | inr (k, i) ↦
                let insert = insert-inserted V st.main hw.sw_if_index tap_fd k in
                rw (e, t, i, configure)
                  (rw insert
                    (inr (tap_fd, k, o, refl, refl, insert, simp (descriptors-append, d, ==_refl))))
          ]
          | inr f ↦ rw (e, f, configure) (inl (refl, simp (descriptors-append, d, other, ==_refl)))
        ]
  ]

  abbrev named : State V → State V
  named st = record st { counters = (next_name hw.name st.counters).1 }

  abbrev ifr_name : Vpp → State V → List ℕ
  ifr_name vpp st =
      let (name, _) = next_name hw.name st.counters in
      take max_ifr_name (name.0 ++ vpp.format_u name.1)

  connect-configure :
      (vpp : Vpp) (st : State V) (fd : ℕ)
      → os.open_tun ≡ some fd
      → os.tunsetiff ≡ true
      → os.fionbio ≡ true
      → tap_inject_tap_connect V vpp os st hw
        ≡ configure V os
            (named st)
            hw
            fd
            (ifr_name vpp st)
            (opened fd ∷ ioctl_tunsetiff fd (ifr_name vpp st) ∷ ioctl_fionbio fd ∷ [])
  unfolding tap_inject_tap_connect
  connect-configure vpp st fd e t u = simp (e, t, u, tap_inject_tap_connect)

  -- Connecting a tap makes no access out of bounds, and one of two things holds. Either the tables
  -- are as they were, and every descriptor that was opened is closed; or there was no error, the
  -- interface is joined to the descriptor and to the kernel index that Linux gave, and that
  -- descriptor is the only one opened that is left open. The kernel gives two different
  -- descriptors for the tap and for the socket.
  pub connect_descriptors :
      (vpp : Vpp) (st : State V)
      → ((fd s : ℕ) → os.open_tun ≡ some fd → os.socket ≡ some s → s ≢ fd)
      → Returns (λ o. Refused st o ⊎ Joined st o) (tap_inject_tap_connect V vpp os st hw)
  unfolding tap_inject_tap_connect descriptors remove
  connect_descriptors vpp st n = elim (Option-cases os.open_tun) [
    | inl e ↦ rw (e, tap_inject_tap_connect) (inl (refl, refl))
    | inr (fd, e) ↦ elim (Bool-cases os.tunsetiff) [
      | inr f ↦ rw (e, f, tap_inject_tap_connect) (inl (refl, simp ==_refl))
      | inl t ↦ elim (Bool-cases os.fionbio) [
        | inr f ↦ rw (e, t, f, tap_inject_tap_connect) (inl (refl, simp ==_refl))
        | inl u ↦
            rw (connect-configure vpp st fd e t u)
              (configure-descriptors (named st) fd _ _ e (λ s. n fd s e) refl)
      ]
    ]
  ]
