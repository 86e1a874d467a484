-- ===== src/Vui/Registry.antt =====
-- libvui/src/vui/lib/command_node.c: numbers, names and parents of nodes.
pub mod Find
pub mod Alloc
pub mod Rooted
use routerd.Prelude.{
  ℕ, zero, suc, ◌+◌, List, [], ◌∷◌, Option, none, some, ◌>>=◌, Bool, true, false, ◌&&◌, ◌==◌, ltb,
  ℤ, pos, negsuc, if◌then◌else◌,
}

-- The members of `enum node_type` that the parents name.
abbrev pub config_node : ℕ
config_node = 4

abbrev pub debug_node : ℕ
debug_node = 5

abbrev pub vty_node : ℕ
vty_node = 6

abbrev pub first_node_type_max : ℕ
first_node_type_max = 7

abbrev pub node_type_limit : ℕ
node_type_limit = 256

-- `NODE_TYPE_MAX`, `node_names` and `_node_parent`; the arrays have 256 entries.
pub record Registry : Type 0 where
  pub node_type_max : ℕ
  pub node_names : ℕ → Option (List ℕ)
  pub node_parents : ℕ → ℤ

-- `strcmp (s, t) == 0`
abbrev pub same_string : List ℕ → List ℕ → Bool
same_string [] [] = true
same_string [] (d ∷ t) = false
same_string (c ∷ s) [] = false
same_string (c ∷ s) (d ∷ t) = c == d && same_string s t

-- The initial names: "auth", "view", "auth enable", "enable", "config+", "debug", "vty".
abbrev pub first_names : ℕ → Option (List ℕ)
first_names i =
    if i == 0
    then some (b'a' ∷ b'u' ∷ b't' ∷ b'h' ∷ [])
    else if i == 1
    then some (b'v' ∷ b'i' ∷ b'e' ∷ b'w' ∷ [])
    else if i == 2
    then some (b'a' ∷ b'u' ∷ b't' ∷ b'h' ∷ b' ' ∷ b'e' ∷ b'n' ∷ b'a' ∷ b'b' ∷ b'l' ∷ b'e' ∷ [])
    else if i == 3
    then some (b'e' ∷ b'n' ∷ b'a' ∷ b'b' ∷ b'l' ∷ b'e' ∷ [])
    else if i == 4
    then some (b'c' ∷ b'o' ∷ b'n' ∷ b'f' ∷ b'i' ∷ b'g' ∷ b'+' ∷ [])
    else if i == 5
    then some (b'd' ∷ b'e' ∷ b'b' ∷ b'u' ∷ b'g' ∷ [])
    else if i == 6
    then some (b'v' ∷ b't' ∷ b'y' ∷ [])
    else none

abbrev pub first_parents : ℕ → ℤ
first_parents i =
    if ltb i debug_node
    then negsuc 0
    else if ltb i first_node_type_max
    then pos config_node
    else pos 0

unfoldable pub first_registry : Registry
first_registry = record {
  node_type_max = first_node_type_max;
  node_names = first_names;
  node_parents = first_parents;
}

-- `node_parent`
unfoldable pub node_parent : Registry → ℤ → Option ℤ
node_parent r (pos node) = if ltb node node_type_limit then some (r.node_parents node) else none
node_parent r (negsuc n) = none

-- One entry of an array set.
abbrev pub update {ℓ} : {A : Type ℓ} → (ℕ → A) → ℕ → A → ℕ → A
update f i x j = if i == j then x else f j

unfoldable pub alloc_new_node_id : Registry → List ℕ → ℤ → Option (ℕ × Registry)
alloc_new_node_id r name parent =
    let next = r.node_type_max in
    if ltb next node_type_limit
    then some (
      next,
      record {
        node_type_max = next + 1;
        node_names = update r.node_names next (some name);
        node_parents = update r.node_parents next parent;
      },
    )
    else none

-- The loop of `find_node_id_by_name` from node i on, with `n` nodes left to look at. A null name is
-- `none`.
unfoldable pub find_from : Registry → List ℕ → ℕ → ℕ → Option ℤ
find_from r name i zero = some (negsuc 0)
find_from r name i (suc n) =
    let rest = find_from r name (i + 1) n in
    r.node_names i >>= λ s. if same_string s name then some (pos i) else rest

unfoldable pub find_node_id_by_name : Registry → List ℕ → Option ℤ
find_node_id_by_name r name = find_from r name 0 r.node_type_max
