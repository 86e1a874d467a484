-- ===== src/TapMirror/Contexts/TakeOut.antt =====
-- The search of `disable_tap_mirror` in tap_mirror.c for the taps of one name in a context.
use routerd.Prelude.{
  ap, if◌then◌else◌, ℕ, ◌+◌, ◌≡◌, refl, List, [], ◌∷◌, Option, none, some, Bool-cases, inl, inr, ℤ,
  is_positive, length, Returns, Returns->>=, arith,
}
use routerd.TapMirror.Taps.Find.{is_match, begins, same_bytes_lem, Paired, matching}
use routerd.TapMirror.Contexts.{count_taps, take_out}

-- The last of some descriptors.
abbrev pub last_or : List ℤ → ℤ → ℤ
last_or [] z = z
last_or (y ∷ ys) z = last_or ys y

-- The positive descriptors whose names do not begin with the name, in order, with their names.
unfoldable pub others : List ℤ → List (Option (List ℕ)) → List ℕ → List (ℤ × Option (List ℕ))
others [] names tap = []
others (fd ∷ fds) [] tap = []
others (fd ∷ fds) (n ∷ names) tap =
    if is_positive fd
    then if is_match fd n tap then others fds names tap else (fd, n) ∷ others fds names tap
    else others fds names tap

-- What taking a tap out leaves: the last descriptor that matched, no tap that matches, and all that
-- do not.
abbrev pub TakenOut :
    List ℤ → List (Option (List ℕ)) → List ℕ → ℤ → ℤ × List ℤ × List (Option (List ℕ)) → Type 0
TakenOut fds names tap z r =
    (r.0 ≡ last_or (matching fds names tap) z)
    × Paired (length tap) r.1 r.2
    × (matching r.1 r.2 tap ≡ [])
    × (count_taps r.1 + length (matching fds names tap) ≡ count_taps fds)
    × (others r.1 r.2 tap ≡ others fds names tap)

pub take_out-TakenOut :
    (fds : List ℤ) (names : List (Option (List ℕ))) (tap : List ℕ) (z : ℤ)
    → Paired (length tap) fds names
    → Returns (TakenOut fds names tap z) (take_out fds names tap z)
unfolding take_out matching count_taps others
take_out-TakenOut [] [] tap z p = (refl, tt, refl, omega arith, refl)
take_out-TakenOut [] (n ∷ names) tap z p = absurd p
take_out-TakenOut (fd ∷ fds) [] tap z p = absurd p
take_out-TakenOut (fd ∷ fds) (none ∷ names) tap z p = elim (Bool-cases (is_positive fd)) [
  | inl t ↦ absurd (p.0 t)
  | inr f ↦ rw f (
      Returns->>= (TakenOut fds names tap z) _ _ _ (take_out-TakenOut fds names tap z p.1)
        λ r w. (w.0, (p.0, w.1), w.2, rw f w.3, rw f w.4))
]
take_out-TakenOut (fd ∷ fds) (some v ∷ names) tap z p = elim (Bool-cases (is_positive fd)) [
  | inl t ↦ elim (Bool-cases (begins v tap)) [
    | inl s ↦
        rw (t, same_bytes_lem v tap (p.0 t), s)
          (Returns->>= (TakenOut fds names tap fd) _ _ _ (take_out-TakenOut fds names tap fd p.1)
            λ r w. (
              rw (t, s) w.0,
              ((λ e. cc e), w.1),
              w.2,
              rw (t, s) (omega (arith, w.3)),
              rw (t, s) w.4,
            ))
    | inr s ↦
        rw (t, same_bytes_lem v tap (p.0 t), s)
          (Returns->>= (TakenOut fds names tap z) _ _ _ (take_out-TakenOut fds names tap z p.1)
            λ r w. (
              rw (t, s) w.0,
              (p.0, w.1),
              rw (t, s) w.2,
              rw (t, s) (omega (arith, w.3)),
              rw (t, s) (ap (λ l. (fd, some v) ∷ l) w.4),
            ))
  ]
  | inr f ↦ rw f (
      Returns->>= (TakenOut fds names tap z) _ _ _ (take_out-TakenOut fds names tap z p.1)
        λ r w. (rw f w.0, (p.0, w.1), rw f w.2, rw f w.3, rw f w.4))
]
