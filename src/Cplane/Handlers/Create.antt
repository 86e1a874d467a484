-- ===== src/Cplane/Handlers/Create.antt =====
-- The command `create cplane-netdev`: which lines it can answer.
use routerd.Prelude.{
  ℕ, ◌≡◌, ◌⊎◌, refl, ◌∙◌, List, [], ◌∷◌, none, some, Bool-cases, Option-cases, inl, inr, Returns,
  Returns->>=, ◌==◌, invalid,
}
use routerd.Vppinfra.{Vppinfra}
use routerd.Cplane.Env.{Vpp, Linux}
use routerd.Cplane.Connect.{State}
use routerd.Cplane.Connect.Safety.{SafeOutcome, Frame, connect-Safe}
use routerd.Cplane.TapTable.Views.{IsSafe}
use routerd.Cplane.Interfaces.Safety.{IsReady}
use routerd.Cplane.Handlers.{
  create_cplane_netdev, Word, id, name, unknown, parse_line, create_cplane_netdev_command_fn,
}

-- The line gives a name; it has a word that the command does not know.
abbrev pub GivesName : List Word → Type 0
GivesName [] = ⊥
GivesName (name t ∷ ws) = Unit {0}
GivesName (id n ∷ ws) = GivesName ws
GivesName (unknown ∷ ws) = GivesName ws

abbrev pub HasUnknown : List Word → Type 0
HasUnknown [] = ⊥
HasUnknown (unknown ∷ ws) = Unit {0}
HasUnknown (name t ∷ ws) = HasUnknown ws
HasUnknown (id n ∷ ws) = HasUnknown ws

-- How the loop over the line ends: at an unknown word, with the pointer set, or without.
parse_line-set :
    (ws : List Word) (n : ℕ) (t : List ℕ)
    → ((HasUnknown ws) × (parse_line ws n (some t) ≡ none))
      ⊎ ((m : ℕ) × (u : List ℕ) × (parse_line ws n (some t) ≡ some (m, some u)))
unfolding parse_line
parse_line-set [] n t = inr (n, t, refl)
parse_line-set (id m ∷ ws) n t = parse_line-set ws m t
parse_line-set (name u ∷ ws) n t = parse_line-set ws n u
parse_line-set (unknown ∷ ws) n t = inl (tt, refl)

parse_line_cases :
    (ws : List Word) (n : ℕ)
    → ((HasUnknown ws) × (parse_line ws n none ≡ none))
      ⊎ ((GivesName ws) × ((m : ℕ) × (u : List ℕ) × (parse_line ws n none ≡ some (m, some u))))
      ⊎ ((¬ GivesName ws) × (¬ HasUnknown ws) × ((m : ℕ) × (parse_line ws n none ≡ some (m, none))))
unfolding parse_line
parse_line_cases [] n = inr (inr ((λ h. h), (λ h. h), (n, refl)))
parse_line_cases (id m ∷ ws) n = parse_line_cases ws m
parse_line_cases (name u ∷ ws) n = elim (parse_line-set ws n u) [
  | inl h ↦ inl h
  | inr r ↦ inr (inl (tt, r))
]
parse_line_cases (unknown ∷ ws) n = inl (tt, refl)

module _ (V : Vppinfra) (vpp : Vpp) (os : Linux) where
  IsReady-Frame :
      (st st' : State V)
      → IsSafe V st'.main × Frame V st.main st'.main
      → IsReady V st
      → IsReady V st'
  IsReady-Frame st st' s r = record {
    safe = s.0;
    none_to_enable = s.1.1 ∙ r.none_to_enable;
    none_to_disable = s.1.2 ∙ r.none_to_disable;
  }

  create-Ready :
      (ifindex : ℕ) (st : State V)
      → IsReady V st
      → Returns (λ o. IsReady V o.state) (create_cplane_netdev V vpp os ifindex st)
  unfolding create_cplane_netdev
  create-Ready ifindex st r = elim (Option-cases (vpp.get_hw_interface ifindex)) [
    | inl e ↦ rw (e, create_cplane_netdev) r
    | inr (hw, e) ↦ elim (Bool-cases (hw.hw_class_index == vpp.ethernet_class_index)) [
      | inr f ↦ rw (e, f, create_cplane_netdev) r
      | inl t ↦
          rw (e, t, create_cplane_netdev)
            (Returns->>= (SafeOutcome V st) (λ o. IsReady V o.state) _ _
              (connect-Safe V vpp os st hw r.safe)
              (λ o s. elim (Option-cases o.error) [
                | inl q ↦ rw (q) (IsReady-Frame st o.state s r)
                | inr (x, q) ↦ rw (q) (IsReady-Frame st o.state s r)
              ]))
    ]
  ]

  -- On a line that gives a name or has a word that it does not know, the command makes no access
  -- out of bounds and leaves no interface waiting. On any other line it prints and frees a
  -- pointer that was never set.
  pub create_command_iff :
      (line : List Word) (st : State V)
      → IsReady V st
      → (GivesName line ⊎ HasUnknown line
          → Returns (λ o. IsReady V o.state) (create_cplane_netdev_command_fn V vpp os line st))
        × ((¬ GivesName line)
            → (¬ HasUnknown line)
            → create_cplane_netdev_command_fn V vpp os line st ≡ none)
  unfolding create_cplane_netdev_command_fn
  create_command_iff line st r = elim (parse_line_cases line invalid) [
    | inl (u, e) ↦ ((λ _. rw (e, create_cplane_netdev_command_fn) r), (λ _ n. absurd (n u)))
    | inr (inl (g, (m, t, e))) ↦ (
      (λ _. rw (e, create_cplane_netdev_command_fn) (create-Ready m st r)),
      (λ n _. absurd (n g)),
    )
    | inr (inr (g, u, (m, e))) ↦ (
      (λ h. elim h [ inl x ↦ absurd (g x) | inr x ↦ absurd (u x) ]),
      (λ _ _. rw (e, create_cplane_netdev_command_fn)),
    )
  ]
