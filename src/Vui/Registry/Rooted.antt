-- ===== src/Vui/Registry/Rooted.antt =====
-- Parents of nodes: from every node below CONFIG_NODE they lead up to it.
use routerd.Prelude.{
  ℕ, zero, suc, ◌<◌, ◌≤◌, ◌≡◌, refl, ap, ◌∙◌, subst, List, Option, none, some, ◌>>=◌, false, ◌==◌,
  ==_ne, ltb, lt→ltb, pos, negsuc, Returns, Returns-mono, if◌then◌else◌, arith,
}
use native.Mathlib.Decide.{ℕ_discrete}
use routerd.Vui.Registry.{
  config_node, node_type_limit, Registry, node_parent, alloc_new_node_id, first_registry,
  first_names, first_parents, first_node_type_max, debug_node,
}
use routerd.Vui.Registry.Find.{IsNamed}
use routerd.Vui.Registry.Alloc.{Allocated, alloc-Allocated}

-- Each node after CONFIG_NODE has a parent that was there before it, CONFIG_NODE or one after.
pub record IsRooted (r : Registry) : Type 0 where
  pub room : r.node_type_max ≤ node_type_limit
  pub parents :
      (i : ℕ)
      → config_node < i
      → i < r.node_type_max
      → (m : ℕ) × (r.node_parents i ≡ pos m) × (config_node ≤ m) × (m < i)

-- The walk from a node to its parent and on, until CONFIG_NODE; `none` when the steps run out.
unfoldable pub climb : ℕ → Registry → ℕ → Option ℕ
climb zero r node = none
climb (suc steps) r node =
    if node == config_node
    then some node
    else (node_parent r (pos node) >>= λ parent. elim parent [
      | pos m ↦ climb steps r m
      | negsuc m ↦ none
    ])

-- In a rooted registry the walk takes no more steps than the node's number tells.
climb-IsRooted :
    (r : Registry) (steps node : ℕ)
    → IsRooted r
    → config_node ≤ node
    → node < r.node_type_max
    → node < steps
    → climb steps r node ≡ some config_node
unfolding climb node_parent
climb-IsRooted r zero node h a b c = absurd (omega (arith, c))
climb-IsRooted r (suc steps) node h a b c = elim (ℕ_discrete node config_node) [
  | yes e ↦ rw e refl
  | no n ↦
      let (m, p, x, y) = h.parents node (omega (arith, a, n)) b in
      rw (==_ne node config_node n, lt→ltb node node_type_limit (omega (arith, b, h.room)), p)
        (climb-IsRooted r steps m h x (omega (arith, y, b)) (omega (arith, y, c)))
]

-- Adding a node under CONFIG_NODE or a later node keeps the parents leading to CONFIG_NODE.
pub alloc-IsRooted :
    (r : Registry) (name : List ℕ) (parent : ℕ)
    → IsRooted r
    → r.node_type_max < node_type_limit
    → config_node ≤ parent
    → parent < r.node_type_max
    → Returns (λ p. IsRooted p.1) (alloc_new_node_id r name (pos parent))
alloc-IsRooted r name parent h l a b =
    Returns-mono (Allocated r name (pos parent)) _ _ (λ p q. rooted p q)
      (alloc-Allocated r name (pos parent) l)
  where
    rooted : (p : ℕ × Registry) → Allocated r name (pos parent) p → IsRooted p.1
    rooted (id, r') q = record {
      room = omega (arith, q.1, l);
      parents = λ i c d. elim (ℕ_discrete i id) [
        | yes e ↦ (parent, ap r'.node_parents e ∙ q.3, a, omega (arith, b, e, q.0))
        | no n ↦
            let (m, w, x, y) = h.parents i c (omega (arith, d, q.0, q.1, n)) in
            (m, (q.4 i n).1 ∙ w, x, y)
      ];
    }

-- The registries of the program: the first one, and each after a node was added whose parent is
-- CONFIG_NODE or a later node.
pub data Grown : Registry → Type 0 where
  first : Grown first_registry
  added :
      (r : Registry) (name : List ℕ) (parent id : ℕ) (r' : Registry)
      → Grown r
      → config_node ≤ parent
      → parent < r.node_type_max
      → r.node_type_max < node_type_limit
      → alloc_new_node_id r name (pos parent) ≡ some (id, r')
      → Grown r'

under_config :
    (i : ℕ) → config_node < i → i < first_node_type_max → first_parents i ≡ pos config_node
under_config i a b =
    let late : ltb i debug_node ≡ false = ground (arith, a) in
    rw (late, lt→ltb i first_node_type_max b) refl

-- The registry that the program starts with.
pub first_registry-IsRooted : IsRooted first_registry
unfolding first_registry
first_registry-IsRooted = record {
  room = omega arith;
  parents = λ i a b. (config_node, under_config i a b, omega arith, a);
}

pub Grown-IsRooted : (r : Registry) → Grown r → IsRooted r
Grown-IsRooted _ first = first_registry-IsRooted
Grown-IsRooted _ (added r name parent id r' g a b l e) =
    subst (Returns (λ p. IsRooted p.1)) e (alloc-IsRooted r name parent (Grown-IsRooted r g) l a b)

-- In every registry that comes from the first one by adding nodes whose parents are CONFIG_NODE or
-- nodes added later, `node_parent` leads from any node from CONFIG_NODE on to CONFIG_NODE, in no more
-- steps than the node's number tells.
pub climb_lem :
    (r : Registry) (steps node : ℕ)
    → Grown r
    → config_node ≤ node
    → node < r.node_type_max
    → node < steps
    → climb steps r node ≡ some config_node
climb_lem r steps node g a b c = climb-IsRooted r steps node (Grown-IsRooted r g) a b c

has_name : (i : ℕ) → i < first_node_type_max → (s : List ℕ) × (first_names i ≡ some s)
has_name zero b = (_, refl)
has_name (suc zero) b = (_, refl)
has_name (suc (suc zero)) b = (_, refl)
has_name (suc (suc (suc zero))) b = (_, refl)
has_name (suc (suc (suc (suc zero)))) b = (_, refl)
has_name (suc (suc (suc (suc (suc zero))))) b = (_, refl)
has_name (suc (suc (suc (suc (suc (suc zero)))))) b = (_, refl)
has_name (suc (suc (suc (suc (suc (suc (suc i))))))) b = absurd (omega (arith, b))

pub first_registry-IsNamed : IsNamed first_registry
unfolding first_registry
first_registry-IsNamed = record { fits = omega arith; names = has_name }
