-- ===== src/TapMirror/Taps/Open.antt =====
-- `get_or_open_tapfd` of tap_mirror.c on all its branches.
use routerd.Prelude.{
  length, ℕ, ◌≡◌, ◌⊎◌, refl, List, [], ◌∷◌, some, true, Bool-cases, Option-cases, inl, inr, ℤ, pos,
  is_negative, All, Returns,
}
use routerd.TapMirror.State.{Mirror, TapLinux}
use routerd.TapMirror.Taps.{get_or_open_tapfd}
use routerd.TapMirror.Taps.Find.{ContextOk, all_matching, find_tap_head}

-- The descriptor for a tap: that of the first tap that matches, else the one that Linux opens, else
-- a negative one.
pub Chosen : TapLinux → List ℤ → ℤ → Type 0
Chosen os (z ∷ zs) fd = fd ≡ z
Chosen os [] fd =
    ((n : ℕ) × (os.open_tun ≡ some n) × (os.tunsetiff ≡ true) × (fd ≡ pos n))
    ⊎ (is_negative fd ≡ true)

get_or_open_tapfd-cases :
    (os : TapLinux) (xm : Mirror) (name : List ℕ) (k : ℕ) (zs : List ℤ)
    → All (ContextOk k (length name)) xm.contexts
    → all_matching xm.contexts name ≡ zs
    → Returns (λ r. Chosen os zs r.0) (get_or_open_tapfd os xm name)
unfolding get_or_open_tapfd Chosen
get_or_open_tapfd-cases os xm name k (z ∷ zs) p e = rw (find_tap_head k xm.contexts name p, e) refl
get_or_open_tapfd-cases os xm name k [] p e =
    rw (find_tap_head k xm.contexts name p, e)
      (elim (Option-cases os.open_tun) [
        | inl o ↦ rw o (inr refl)
        | inr (n, o) ↦ elim (Bool-cases os.tunsetiff) [
          | inl t ↦ rw (o, t) (inl (n, refl, refl, refl))
          | inr f ↦ rw (o, f) (inr refl)
        ]
      ])

pub get_or_open_tapfd-Chosen :
    (os : TapLinux) (xm : Mirror) (name : List ℕ) (k : ℕ)
    → All (ContextOk k (length name)) xm.contexts
    → Returns (λ r. Chosen os (all_matching xm.contexts name) r.0) (get_or_open_tapfd os xm name)
get_or_open_tapfd-Chosen os xm name k p =
    get_or_open_tapfd-cases os xm name k (all_matching xm.contexts name) p refl
