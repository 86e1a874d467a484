-- ===== src/Vui/Registry/Alloc.antt =====
-- `alloc_new_node_id` of command_node.c, and finding a node by its name after it.
use routerd.Prelude.{
  ℕ, ◌+◌, ◌<◌, ◌≡◌, ◌≢◌, refl, sym, ap, ◌∙◌, List, some, false, ◌==◌, ==_refl, lt→ltb, ℤ, pos,
  negsuc, Returns, Returns-mono, Returns-some, arith,
}
use native.Mathlib.Decide.{ℕ_discrete, dec_lt}
use routerd.Vui.Registry.{node_type_limit, Registry, alloc_new_node_id, find_node_id_by_name}
use routerd.Vui.Registry.Find.{IsNamed, NoneNamed, Found, find_node_id_by_name_lem}

-- What adding a node leaves: its number is the next, its name and parent are as given, and those of
-- other nodes are as before.
abbrev pub Allocated : Registry → List ℕ → ℤ → ℕ × Registry → Type 0
Allocated r name parent (id, r') =
    (id ≡ r.node_type_max)
    × (r'.node_type_max ≡ r.node_type_max + 1)
    × (r'.node_names id ≡ some name)
    × (r'.node_parents id ≡ parent)
    × ((j : ℕ)
        → j ≢ id
        → (r'.node_names j ≡ r.node_names j) × (r'.node_parents j ≡ r.node_parents j))

pub alloc-Allocated :
    (r : Registry) (name : List ℕ) (parent : ℤ)
    → r.node_type_max < node_type_limit
    → Returns (Allocated r name parent) (alloc_new_node_id r name parent)
unfolding alloc_new_node_id
alloc-Allocated r name parent h = rw (lt→ltb r.node_type_max node_type_limit h) (
  refl,
  refl,
  rw (==_refl r.node_type_max) refl,
  rw (==_refl r.node_type_max) refl,
  λ j d. let off : (r.node_type_max == j) ≡ false = ground (arith, d) in (rw off refl, rw off refl),
)

alloc-IsNamed :
    (r : Registry) (name : List ℕ) (parent : ℤ) (p : ℕ × Registry)
    → IsNamed r
    → r.node_type_max < node_type_limit
    → Allocated r name parent p
    → IsNamed p.1
alloc-IsNamed r name parent (id, r') h l a = record {
  fits = omega (arith, a.1, l);
  names = λ i b. elim (ℕ_discrete i id) [
    | yes e ↦ (name, ap r'.node_names e ∙ a.2)
    | no d ↦ let (s, q) = h.names i (omega (arith, a.0, a.1, b, d)) in (s, (a.4 i d).0 ∙ q)
  ];
}

-- There is one first node of a name.
unique :
    (r : Registry) (name : List ℕ) (n k : ℕ) (z : ℤ)
    → Found r name 0 n z
    → Found r name 0 n (pos k)
    → z ≡ pos k
unique r name n k (pos m) f g = elim (dec_lt m k) [
  | yes a ↦ absurd (g.3 m (omega arith) a f.2)
  | no a ↦ elim (dec_lt k m) [
    | yes b ↦ absurd (f.3 k (omega arith) b g.2)
    | no b ↦ ap pos (omega (arith, a, b))
  ]
]
unique r name n k (negsuc m) f g = absurd (f.1 k g.0 g.1 g.2)

-- Another name than the new one is found in the one registry as in the other.
same_search :
    (r r' : Registry) (name other : List ℕ) (parent : ℤ) (id : ℕ) (z z' : ℤ)
    → Allocated r name parent (id, r')
    → other ≢ name
    → Found r other 0 r.node_type_max z
    → Found r' other 0 r'.node_type_max z'
    → z' ≡ z
same_search r r' name other parent id (pos k) z' a d f g =
    let before : (j : ℕ) → j < r.node_type_max → r'.node_names j ≡ r.node_names j =
      λ j b. (a.4 j (λ e. omega (arith, a.0, b, e))).0 in
    unique r' other r'.node_type_max k z' g (
      omega arith,
      omega (arith, f.1, a.1),
      before k (omega (arith, f.1)) ∙ f.2,
      λ j b c q. f.3 j b c (sym (before j (omega (arith, c, f.1))) ∙ q),
    )
same_search r r' name other parent id (negsuc m) (pos k) a d f g = elim (ℕ_discrete k id) [
  | yes e ↦
      let q : some name ≡ some other = sym a.2 ∙ ap r'.node_names (sym e) ∙ g.2 in
      let q' : other ≡ name = cc q in absurd (d q')
  | no n ↦ absurd (f.1 k (omega arith) (omega (arith, g.1, a.0, a.1, n)) (sym (a.4 k n).0 ∙ g.2))
]
same_search r r' name other parent id (negsuc m) (negsuc m') a d f g = ap negsuc (g.0 ∙ sym f.0)

found_new :
    (r : Registry) (name : List ℕ) (parent : ℤ) (p : ℕ × Registry)
    → IsNamed p.1
    → Allocated r name parent p
    → NoneNamed r name 0 r.node_type_max
    → find_node_id_by_name p.1 name ≡ some (pos p.0)
found_new r name parent (id, r') h a m =
    let first : Found r' name 0 r'.node_type_max (pos id) = (
      omega arith,
      omega (arith, a.0, a.1),
      a.2,
      λ j b c q. m j b (omega (arith, c, a.0)) (sym (a.4 j (λ n. omega (arith, n, c))).0 ∙ q),
    ) in
    let (z, e, f) =
      Returns-some (Found r' name 0 r'.node_type_max) _ (find_node_id_by_name_lem r' name h) in
    e ∙ ap some (unique r' name r'.node_type_max id z f first)

found_old :
    (r : Registry) (name other : List ℕ) (parent : ℤ) (p : ℕ × Registry)
    → IsNamed r
    → IsNamed p.1
    → Allocated r name parent p
    → other ≢ name
    → find_node_id_by_name p.1 other ≡ find_node_id_by_name r other
found_old r name other parent (id, r') h h' a d =
    let (z, e, f) =
      Returns-some (Found r other 0 r.node_type_max) _ (find_node_id_by_name_lem r other h) in
    let (z', e', f') =
      Returns-some (Found r' other 0 r'.node_type_max) _ (find_node_id_by_name_lem r' other h') in
    e' ∙ ap some (same_search r r' name other parent id z z' a d f f') ∙ sym e

-- Adding a node to a registry whose nodes all have names, where a number is left, passes the
-- `assert`; all nodes have names after. A name that no node had is then found as the new node; any
-- other name is found as before.
pub alloc_new_node_id_lem :
    (r : Registry) (name : List ℕ) (parent : ℤ)
    → IsNamed r
    → r.node_type_max < node_type_limit
    → Returns
        (λ p.
          Allocated r name parent p
          × IsNamed p.1
          × (NoneNamed r name 0 r.node_type_max → find_node_id_by_name p.1 name ≡ some (pos p.0))
          × ((other : List ℕ)
              → other ≢ name
              → find_node_id_by_name p.1 other ≡ find_node_id_by_name r other))
        (alloc_new_node_id r name parent)
alloc_new_node_id_lem r name parent h l =
    Returns-mono (Allocated r name parent) _ _
      (λ p a.
        let h' = alloc-IsNamed r name parent p h l a in
        (
          a,
          h',
          (λ m. found_new r name parent p h' a m),
          λ other d. found_old r name other parent p h h' a d,
        ))
      (alloc-Allocated r name parent l)
