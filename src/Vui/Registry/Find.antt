-- ===== src/Vui/Registry/Find.antt =====
-- `find_node_id_by_name` of command_node.c.
use routerd.Prelude.{
  ℕ, zero, suc, ◌+◌, ◌<◌, ◌≤◌, ◌≡◌, ◌≢◌, refl, ap, ap₂, ◌∙◌, List, [], ◌∷◌, some, true, false,
  Bool-cases, inl, inr, ◌==◌, ==_refl, ==_iff, ℤ, pos, negsuc, Returns, Returns-mono, arith,
}
use native.Mathlib.Decide.{ℕ_discrete}
use routerd.Vui.Registry.{node_type_limit, Registry, same_string, find_from, find_node_id_by_name}

-- Every numbered node has a name, and the numbers fit the arrays.
pub record IsNamed (r : Registry) : Type 0 where
  pub fits : r.node_type_max ≤ node_type_limit
  pub names : (i : ℕ) → i < r.node_type_max → (s : List ℕ) × (r.node_names i ≡ some s)

pub same_string_refl : (s : List ℕ) → same_string s s ≡ true
same_string_refl [] = refl
same_string_refl (c ∷ s) = rw (==_refl c) (same_string_refl s)

pub same_string_eq : (s t : List ℕ) → same_string s t ≡ true → s ≡ t
same_string_eq [] [] h = refl
same_string_eq [] (d ∷ t) h = cc h
same_string_eq (c ∷ s) [] h = cc h
same_string_eq (c ∷ s) (d ∷ t) h = elim (Bool-cases (c == d)) [
  | inl e ↦ ap₂ ◌∷◌ ((==_iff c d).0 e) (same_string_eq s t (simp e at h))
  | inr e ↦ let no : false ≡ true = simp e at h in cc no
]

-- No node from i on, of the `n` next, has the name.
abbrev pub NoneNamed : Registry → List ℕ → ℕ → ℕ → Type 0
NoneNamed r name i n = (j : ℕ) → i ≤ j → j < i + n → r.node_names j ≢ some name

-- What the search tells: the first node of that name, or that there is none.
abbrev pub Found : Registry → List ℕ → ℕ → ℕ → ℤ → Type 0
Found r name i n (pos k) =
    (i ≤ k)
    × (k < i + n)
    × (r.node_names k ≡ some name)
    × ((j : ℕ) → i ≤ j → j < k → r.node_names j ≢ some name)
Found r name i n (negsuc m) = (m ≡ 0) × NoneNamed r name i n

-- A node that does not have the name is passed over.
passed :
    (r : Registry) (name : List ℕ) (i n : ℕ) (z : ℤ)
    → r.node_names i ≢ some name
    → Found r name (i + 1) n z
    → Found r name i (suc n) z
passed r name i n (pos k) m f = (
  omega (arith, f.0),
  omega (arith, f.1),
  f.2,
  λ j a b. elim (ℕ_discrete i j) [
    | yes e ↦ λ q. m (ap r.node_names e ∙ q)
    | no d ↦ f.3 j (omega (arith, a, d)) b
  ],
)
passed r name i n (negsuc k) m f = (
  f.0,
  λ j a b. elim (ℕ_discrete i j) [
    | yes e ↦ λ q. m (ap r.node_names e ∙ q)
    | no d ↦ f.1 j (omega (arith, a, d)) (omega (arith, b))
  ],
)

other_name :
    (r : Registry) (name s : List ℕ) (i : ℕ)
    → r.node_names i ≡ some s
    → same_string s name ≡ false
    → r.node_names i ≢ some name
other_name r name s i e f q =
    let same : s ≡ name = cc (e, q) in
    let t : same_string s name ≡ true = rw same (same_string_refl name) in cc (f, t)

find_from-Found :
    (r : Registry) (name : List ℕ) (i n : ℕ)
    → ((j : ℕ) → j < i + n → (s : List ℕ) × (r.node_names j ≡ some s))
    → Returns (Found r name i n) (find_from r name i n)
unfolding find_from
find_from-Found r name i zero h = (refl, λ j a b. omega (arith, a, b))
find_from-Found r name i (suc n) h =
    let (s, e) = h i (omega arith) in
    rw e (elim (Bool-cases (same_string s name)) [
      | inl t ↦ rw t (
        omega arith,
        omega arith,
        e ∙ ap some (same_string_eq s name t),
        λ j a b. omega (arith, a, b),
      )
      | inr f ↦ rw f (
          Returns-mono (Found r name (i + 1) n) (Found r name i (suc n)) _
            (λ z w. passed r name i n z (other_name r name s i e f) w)
            (find_from-Found r name (i + 1) n λ j b. h j (omega (arith, b))))
    ])

-- In a registry whose nodes all have names, `find_node_id_by_name` follows no null pointer: it gives
-- the first node of that name, and -1 just if no node has it.
pub find_node_id_by_name_lem :
    (r : Registry) (name : List ℕ)
    → IsNamed r
    → Returns (Found r name 0 r.node_type_max) (find_node_id_by_name r name)
unfolding find_node_id_by_name
find_node_id_by_name_lem r name h =
    find_from-Found r name 0 r.node_type_max (λ j b. h.names j (omega (arith, b)))
