-- ===== src/VppCli/Interfaces/Views.antt =====
-- What the table of `show vpp interface` of src/vpp_cli.c tells of each interface, and the lines.
use routerd.Prelude.{
  ℕ, zero, suc, ◌+◌, ◌<◌, ◌≡◌, refl, inl, inr, sym, ap, ◌∙◌, subst, List, [], ◌∷◌, Option, none,
  some, some-injective, Bool-cases, ◌==◌, length, load, set, replicate, htonl, All, if◌then◌else◌,
  arith,
}
use routerd.VppCli.State.{InterfaceDetails, interface_line, Call, out}
use routerd.VppCli.Interfaces.{InterfaceInfo, line_of, show_interfaces}

-- The last of the messages about interface i.
abbrev pub last_of : List InterfaceDetails → ℕ → Option InterfaceDetails
last_of [] i = none
last_of (d ∷ ds) i = elim (last_of ds i) [
  | some e ↦ some e
  | none ↦ if htonl d.sw_if_index == i then some d else none
]

-- The lines for `n` interfaces from i on, by what is known of each.
abbrev pub lines_from : ℕ → ℕ → (ℕ → Option InterfaceDetails) → List Call
lines_from zero i f = []
lines_from (suc n) i f = elim (f i) [
  | none ↦ lines_from n (i + 1) f
  | some d ↦ out (interface_line (line_of d)) ∷ lines_from n (i + 1) f
]

-- What the table tells of an interface.
abbrev pub seen : InterfaceInfo → Option InterfaceDetails
seen info = if info.enable then some info.link else none

abbrev pub seen_at : List InterfaceInfo → ℕ → Option InterfaceDetails
seen_at [] i = none
seen_at (info ∷ infos) zero = seen info
seen_at (info ∷ infos) (suc i) = seen_at infos i

pub shown_lines :
    (infos : List InterfaceInfo) (i : ℕ) (f : ℕ → Option InterfaceDetails)
    → ((k : ℕ) → k < length infos → seen_at infos k ≡ f (i + k))
    → show_interfaces infos ≡ lines_from (length infos) i f
unfolding show_interfaces
shown_lines [] i f h = refl
shown_lines (info ∷ infos) i f h =
    let here : seen info ≡ f i = let e : i + 0 ≡ i = omega arith in h 0 (omega arith) ∙ ap f e in
    let ih = shown_lines infos (i + 1) f (λ k l.
      let e : i + suc k ≡ i + 1 + k = omega arith in h (suc k) (omega (arith, l)) ∙ ap f e) in
    elim (Bool-cases info.enable) [
      | inl t ↦
          let g : f i ≡ some info.link = sym here ∙ rw t refl in
          rw (t, g) (ap (λ l. out (interface_line (line_of info.link)) ∷ l) ih)
      | inr t ↦ let g : f i ≡ none = sym here ∙ rw t refl in rw (t, g) ih
    ]

pub seen_at-set :
    (infos : List InterfaceInfo) (i k : ℕ) (info : InterfaceInfo)
    → i < length infos
    → seen_at (set infos i info) k ≡ (if i == k then seen info else seen_at infos k)
seen_at-set [] i k info h = elim h [ ]
seen_at-set (x ∷ infos) zero zero info h = refl
seen_at-set (x ∷ infos) zero (suc k) info h = ground arith
seen_at-set (x ∷ infos) (suc i) zero info h = ground arith
seen_at-set (x ∷ infos) (suc i) (suc k) info h =
    ground (arith, seen_at-set infos i k info (omega (arith, h)))

-- Where an entry is read: its view.
pub seen_at-load :
    (infos : List InterfaceInfo) (i : ℕ)
    → i < length infos
    → (info : InterfaceInfo) × (load infos i ≡ some info) × (seen_at infos i ≡ seen info)
seen_at-load [] i h = elim h [ ]
seen_at-load (x ∷ infos) zero h = (x, refl, refl)
seen_at-load (x ∷ infos) (suc i) h = seen_at-load infos i (omega (arith, h))

-- A condition on all entries, where one is set and where one is read.
pub All-set :
    (P : InterfaceInfo → Type 0) (infos : List InterfaceInfo) (i : ℕ) (info : InterfaceInfo)
    → All P infos
    → P info
    → All P (set infos i info)
All-set P [] i info a p = tt
All-set P (x ∷ infos) zero info a p = (p, a.1)
All-set P (x ∷ infos) (suc i) info a p = (a.0, All-set P infos i info a.1 p)

pub All-load :
    (P : InterfaceInfo → Type 0) (infos : List InterfaceInfo) (i : ℕ) (info : InterfaceInfo)
    → All P infos
    → load infos i ≡ some info
    → P info
All-load P [] i info a e = cc e
All-load P (x ∷ infos) zero info a e = subst P (some-injective x info e) a.0
All-load P (x ∷ infos) (suc i) info a e = All-load P infos i info a.1 e

pub All-replicate :
    (P : InterfaceInfo → Type 0) (n : ℕ) (info : InterfaceInfo) → P info → All P (replicate n info)
All-replicate P zero info p = tt
All-replicate P (suc n) info p = (p, All-replicate P n info p)

pub seen_at-replicate :
    (n k : ℕ) (info : InterfaceInfo) → seen info ≡ none → seen_at (replicate n info) k ≡ none
seen_at-replicate zero k info h = refl
seen_at-replicate (suc n) zero info h = h
seen_at-replicate (suc n) (suc k) info h = seen_at-replicate n k info h
