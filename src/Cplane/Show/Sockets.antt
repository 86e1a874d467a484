-- ===== src/Cplane/Show/Sockets.antt =====
-- The sockets that `show tap-inject` opens.
use routerd.Prelude.{
  ℕ, ◌+◌, ◌≡◌, refl, List, [], ◌∷◌, ◌++◌, Option, some, ◌>>=◌, Bool-cases, Option-cases, inl, inr,
  Returns, Returns->>=,
}
use routerd.Vppinfra.{Vppinfra, InPairs}
use routerd.Cplane.State.{Main, tap_inject_is_enabled, tap_inject_is_config_disabled}
use routerd.Cplane.Show.{
  NameAnswer, NameCall, socket_failed, opened, close, ioctl_siocgifname, format_tap_inject_tap_name,
  show_pair, show_pairs, show_tap_inject,
}

-- Each socket that is opened is used once and closed before another one is opened.
pub data AllClosed : List NameCall → Type 0 where
  none_opened : AllClosed []
  refused : {cs : List NameCall} → AllClosed cs → AllClosed (socket_failed ∷ cs)
  used :
      {cs : List NameCall} (fd index : ℕ)
      → AllClosed cs
      → AllClosed (opened fd ∷ ioctl_siocgifname fd index ∷ close fd ∷ cs)

AllClosed-append : {cs ds : List NameCall} → AllClosed cs → AllClosed ds → AllClosed (cs ++ ds)
AllClosed-append none_opened b = b
AllClosed-append (refused a) b = refused (AllClosed-append a b)
AllClosed-append (used fd index a) b = used fd index (AllClosed-append a b)

format-AllClosed :
    (linux : NameAnswer) (s : List ℕ) (index : ℕ)
    → AllClosed (format_tap_inject_tap_name linux s index).1
unfolding format_tap_inject_tap_name
format-AllClosed linux s index = elim (Option-cases linux.socket) [
  | inl e ↦ rw e (refused none_opened)
  | inr (fd, e) ↦ rw e (used fd index none_opened)
]

module _ (sw_interface_name : ℕ → Option (List ℕ)) (linux : ℕ → NameAnswer) where
  show_pairs-AllClosed :
      (i : ℕ) (pairs : List (ℕ × ℕ))
      → ((k v : ℕ) → InPairs k v pairs → (s : List ℕ) × (sw_interface_name v ≡ some s))
      → Returns (λ r. AllClosed r.1) (show_pairs sw_interface_name linux i pairs)
  unfolding show_pairs show_pair
  show_pairs-AllClosed i [] named = none_opened
  show_pairs-AllClosed i ((k, v) ∷ pairs) named =
      let (s, e) = named k v (inl (refl, refl)) in
      rw (e, ◌>>=◌)
        (Returns->>= (λ r. AllClosed r.1) _ _ _
          (show_pairs-AllClosed (i + 2) pairs (λ k v h. named k v (inr h)))
          λ r a.
            AllClosed-append
              (AllClosed-append (format-AllClosed (linux i) _ k)
                (format-AllClosed (linux (i + 1)) _ k))
              a)

  -- Where VPP has a name for each interface with a tap, the command comes to its end, whatever Linux
  -- answers, and each socket that it opened is used once and closed before the next is opened.
  pub show_tap_inject-AllClosed :
      (V : Vppinfra) (im : Main V)
      → ((k v : ℕ)
          → InPairs k v (V.hash_pairs im.tap_if_index_to_sw_if_index)
          → (s : List ℕ) × (sw_interface_name v ≡ some s))
      → Returns (λ r. AllClosed r.1) (show_tap_inject sw_interface_name linux V im)
  unfolding show_tap_inject
  show_tap_inject-AllClosed V im named =
      let pairs = V.hash_pairs im.tap_if_index_to_sw_if_index in
      elim (Bool-cases (tap_inject_is_config_disabled V im)) [
        | inl t ↦ rw t none_opened
        | inr t ↦ elim (Bool-cases (tap_inject_is_enabled V im)) [
          | inl u ↦
              rw (t, u)
                (Returns->>= (λ r. AllClosed r.1) _ _ _ (show_pairs-AllClosed 0 pairs named)
                  (λ r a. a))
          | inr u ↦ rw (t, u) none_opened
        ]
      ]
