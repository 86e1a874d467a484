-- ===== src/TapMirror/Show/Rows.antt =====
-- `show tap-mirror` in the states that the plugin reaches.
use routerd.Prelude.{
  ℕ, ◌+◌, ◌≡◌, refl, List, [], ◌∷◌, Option, none, some, ◌>>=◌, Bool-cases, inl, inr, ℤ, is_positive,
  All, Returns, Returns-some,
}
use routerd.TapMirror.State.{TapContext, Mirror, tap_mirror_is_enabled}
use routerd.TapMirror.Taps.Find.{Paired, ContextOk}
use routerd.TapMirror.Show.{tap_fds_str, show_contexts, show_tap_mirror_fn}

module _ (t u : List ℕ) (k m : ℕ) where
  tap_fds_str-agrees :
      (fds : List ℤ) (names : List (Option (List ℕ)))
      → Paired m fds names
      → Returns (λ s. tap_fds_str u fds names ≡ some s) (tap_fds_str t fds names)
  unfolding tap_fds_str
  tap_fds_str-agrees [] names p = refl
  tap_fds_str-agrees (fd ∷ fds) [] p = absurd p
  tap_fds_str-agrees (fd ∷ fds) (none ∷ names) p = elim (Bool-cases (is_positive fd)) [
    | inl h ↦ absurd (p.0 h)
    | inr h ↦ rw h (tap_fds_str-agrees fds names p.1)
  ]
  tap_fds_str-agrees (fd ∷ fds) (some name ∷ names) p =
      let (s, e, e') =
        Returns-some (λ s. tap_fds_str u fds names ≡ some s) _ (tap_fds_str-agrees fds names p.1) in
      elim (Bool-cases (is_positive fd)) [
        | inl h ↦ rw (h, e, e', ◌>>=◌) refl
        | inr h ↦ rw (h, e, e') refl
      ]

  show_contexts-agrees :
      (i : ℕ) (contexts : List (Option TapContext))
      → All (ContextOk k m) contexts
      → Returns (λ rows. show_contexts u i contexts ≡ some rows) (show_contexts t i contexts)
  unfolding show_contexts
  show_contexts-agrees i [] a = refl
  show_contexts-agrees i (none ∷ contexts) a = show_contexts-agrees (i + 1) contexts a.1
  show_contexts-agrees i (some ctx ∷ contexts) a =
      let (s, e, e') =
        Returns-some (λ s. tap_fds_str u ctx.tap_fds ctx.tap_names ≡ some s) _
          (tap_fds_str-agrees ctx.tap_fds ctx.tap_names a.0.1) in
      let (rows, f, f') =
        Returns-some (λ rows. show_contexts u (i + 1) contexts ≡ some rows) _
          (show_contexts-agrees (i + 1) contexts a.1) in
      rw (e, e', f, f', ◌>>=◌) refl

  -- Where each tap that is shown has a name, as after any sequence of commands, the command reads no
  -- null name: it comes to its end, and what it prints does not depend on how a null name is printed.
  pub show_tap_mirror-agrees :
      (xm : Mirror)
      → All (ContextOk k m) xm.contexts
      → Returns (λ rows. show_tap_mirror_fn u xm ≡ some rows) (show_tap_mirror_fn t xm)
  unfolding show_tap_mirror_fn
  show_tap_mirror-agrees xm a =
      let (rows, f, f') =
        Returns-some (λ rows. show_contexts u 0 xm.contexts ≡ some rows) _
          (show_contexts-agrees 0 xm.contexts a) in
      elim (Bool-cases (tap_mirror_is_enabled xm)) [
        | inl h ↦ rw (h, f, f', ◌>>=◌) refl
        | inr h ↦ rw h refl
      ]
