-- ===== src/TapMirror/Taps/Find.antt =====
-- The search for a tap by its name in tap_mirror.c, beside a plain list of the taps that match.
use routerd.Prelude.{
  ◌≤◌, ◌==◌, arith, ℕ, suc, ◌≡◌, ◌⊎◌, refl, ap, List, [], ◌∷◌, ◌++◌, Option, none, some, Bool, true,
  false, Bool-cases, inl, inr, ◌&&◌, ==_refl, ℤ, negsuc, is_positive, length, All, if◌then◌else◌,
}
use routerd.TapMirror.State.{TapContext, Mirror, same_bytes}
use routerd.TapMirror.Taps.{scan_taps, find_tap, get_tapfd}

-- A name of at least m bytes.
abbrev pub Named : ℕ → Option (List ℕ) → Type 0
Named m none = ⊥
Named m (some v) = m ≤ length v

-- Every descriptor has an entry for its name, and a positive one has a name of at least m bytes.
abbrev pub Paired : ℕ → List ℤ → List (Option (List ℕ)) → Type 0
Paired m [] [] = Unit {0}
Paired m [] (n ∷ names) = ⊥
Paired m (fd ∷ fds) [] = ⊥
Paired m (fd ∷ fds) (n ∷ names) = (is_positive fd ≡ true → Named m n) × Paired m fds names

-- A context whose node's name has at least k bytes, and each name of a tap at least m.
abbrev pub ContextOk : ℕ → ℕ → Option TapContext → Type 0
ContextOk k m none = Unit {0}
ContextOk k m (some c) = (k ≤ length c.target_node_name) × Paired m c.tap_fds c.tap_names

-- Whether a name begins with another.
abbrev pub begins : List ℕ → List ℕ → Bool
begins v [] = true
begins [] (d ∷ s) = false
begins (c ∷ v) (d ∷ s) = c == d && begins v s

pub same_bytes_lem : (v s : List ℕ) → length s ≤ length v → same_bytes v s ≡ some (begins v s)
unfolding same_bytes
same_bytes_lem v [] h = refl
same_bytes_lem [] (d ∷ s) h = absurd (not_below h)
  where
    not_below : suc (length s) ≤ 0 → ⊥
    not_below h' = omega (arith, h')
same_bytes_lem (c ∷ v) (d ∷ s) h = rw (same_bytes_lem v s (omega (arith, h))) refl

pub Paired-length :
    (m : ℕ) (fds : List ℤ) (names : List (Option (List ℕ)))
    → Paired m fds names
    → length names ≡ length fds
Paired-length m [] [] p = refl
Paired-length m [] (n ∷ names) p = absurd p
Paired-length m (fd ∷ fds) [] p = absurd p
Paired-length m (fd ∷ fds) (n ∷ names) p = ap suc (Paired-length m fds names p.1)

abbrev pub head? : List ℤ → Option ℤ
head? [] = none
head? (z ∷ zs) = some z

pub begins_refl : (v : List ℕ) → begins v v ≡ true
begins_refl [] = refl
begins_refl (c ∷ v) = rw (==_refl c) (begins_refl v)

-- Whether an entry is a tap whose name begins with the name.
abbrev pub is_match : ℤ → Option (List ℕ) → List ℕ → Bool
is_match fd none name = false
is_match fd (some v) name = is_positive fd && begins v name

-- The descriptors of the taps that match, in order.
unfoldable pub matching : List ℤ → List (Option (List ℕ)) → List ℕ → List ℤ
matching [] names name = []
matching (fd ∷ fds) [] name = []
matching (fd ∷ fds) (n ∷ names) name =
    if is_match fd n name then fd ∷ matching fds names name else matching fds names name

unfoldable pub all_matching : List (Option TapContext) → List ℕ → List ℤ
all_matching [] name = []
all_matching (none ∷ cs) name = all_matching cs name
all_matching (some c ∷ cs) name = matching c.tap_fds c.tap_names name ++ all_matching cs name

pub scan_taps_head :
    (fds : List ℤ) (names : List (Option (List ℕ))) (name : List ℕ)
    → Paired (length name) fds names
    → scan_taps fds names name ≡ some (head? (matching fds names name))
unfolding scan_taps matching
scan_taps_head [] names name p = refl
scan_taps_head (fd ∷ fds) [] name p = absurd p
scan_taps_head (fd ∷ fds) (none ∷ names) name p = elim (Bool-cases (is_positive fd)) [
  | inl t ↦ absurd (p.0 t)
  | inr f ↦ rw f (scan_taps_head fds names name p.1)
]
scan_taps_head (fd ∷ fds) (some v ∷ names) name p = elim (Bool-cases (is_positive fd)) [
  | inl t ↦ elim (Bool-cases (begins v name)) [
    | inl s ↦ simp (t, same_bytes_lem v name (p.0 t), s)
    | inr s ↦ simp (t, same_bytes_lem v name (p.0 t), s) (scan_taps_head fds names name p.1)
  ]
  | inr f ↦ rw f (scan_taps_head fds names name p.1)
]

pub find_tap_head :
    (k : ℕ) (cs : List (Option TapContext)) (name : List ℕ)
    → All (ContextOk k (length name)) cs
    → find_tap cs name ≡ some (head? (all_matching cs name))
unfolding find_tap all_matching
find_tap_head k [] name p = refl
find_tap_head k (none ∷ cs) name p = find_tap_head k cs name p.1
find_tap_head k (some c ∷ cs) name p =
    let l = Paired-length (length name) c.tap_fds c.tap_names p.0.1 in
    rw (scan_taps_head c.tap_fds c.tap_names name p.0.1, l, ==_refl (length c.tap_fds))
      (either (matching c.tap_fds c.tap_names name) (all_matching cs name) (find_tap cs name)
        (find_tap_head k cs name p.1))
  where
    either :
        (xs ys : List ℤ) (rest : Option (Option ℤ))
        → rest ≡ some (head? ys)
        → (elim (head? xs) [ some fd ↦ some (some fd) | none ↦ rest ]) ≡ some (head? (xs ++ ys))
    either [] ys rest e = e
    either (x ∷ xs) ys rest e = refl

IsPositive : ℤ → Type 0
IsPositive fd = is_positive fd ≡ true

matching-IsPositive :
    (fds : List ℤ) (names : List (Option (List ℕ))) (name : List ℕ)
    → All IsPositive (matching fds names name)
unfolding matching IsPositive
matching-IsPositive [] names name = tt
matching-IsPositive (fd ∷ fds) [] name = tt
matching-IsPositive (fd ∷ fds) (none ∷ names) name = matching-IsPositive fds names name
matching-IsPositive (fd ∷ fds) (some v ∷ names) name = elim (Bool-cases (is_positive fd)) [
  | inl t ↦ elim (Bool-cases (begins v name)) [
    | inl s ↦ rw (t, s) (t, matching-IsPositive fds names name)
    | inr s ↦ rw (t, s) (matching-IsPositive fds names name)
  ]
  | inr f ↦ rw f (matching-IsPositive fds names name)
]

All-append : (P : ℤ → Type 0) (xs ys : List ℤ) → All P xs → All P ys → All P (xs ++ ys)
All-append P [] ys p q = q
All-append P (x ∷ xs) ys p q = (p.0, All-append P xs ys p.1 q)

all_matching-IsPositive :
    (cs : List (Option TapContext)) (name : List ℕ) → All IsPositive (all_matching cs name)
unfolding all_matching
all_matching-IsPositive [] name = tt
all_matching-IsPositive (none ∷ cs) name = all_matching-IsPositive cs name
all_matching-IsPositive (some c ∷ cs) name =
    All-append IsPositive (matching c.tap_fds c.tap_names name) (all_matching cs name)
      (matching-IsPositive c.tap_fds c.tap_names name) (all_matching-IsPositive cs name)

-- Where each positive descriptor has a name that is not shorter than the name that is searched,
-- `get_tapfd` passes its `assert`s, follows no null pointer and reads no byte past a name. It gives
-- the first tap, over all contexts, whose name begins with the name that is searched, and -1 just
-- if there is none.
pub get_tapfd_lem :
    (xm : Mirror) (name : List ℕ) (k : ℕ)
    → All (ContextOk k (length name)) xm.contexts
    → (get_tapfd xm name ≡ some (negsuc 0)) × (all_matching xm.contexts name ≡ [])
      ⊎ ((fd : ℤ) × (fds : List ℤ) × (get_tapfd xm name ≡ some fd)
          × (all_matching xm.contexts name ≡ fd ∷ fds)
          × (is_positive fd ≡ true))
unfolding get_tapfd IsPositive
get_tapfd_lem xm name k p =
    rw (find_tap_head k xm.contexts name p)
      (split (all_matching xm.contexts name) (all_matching-IsPositive xm.contexts name))
  where
    split :
        (zs : List ℤ)
        → All IsPositive zs
        → ((elim (head? zs) [ some fd ↦ some fd | none ↦ some (negsuc 0) ]) ≡ some (negsuc 0))
            × (zs ≡ [])
          ⊎ ((fd : ℤ) × (fds : List ℤ) × ((elim (head? zs) [
            | some fd' ↦ some fd'
            | none ↦ some (negsuc 0)
          ])
                ≡ some fd)
              × (zs ≡ fd ∷ fds)
              × (is_positive fd ≡ true))
    split [] q = inl (refl, refl)
    split (z ∷ zs) q = inr (z, zs, refl, refl, q.0)
