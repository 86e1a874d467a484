-- ===== src/Vppinfra.antt =====
-- The containers of VPP's vppinfra, which the plugins call and this repository does not hold. A
-- vector is the list of its elements: `vec_len` is the list's length, `vec_foreach` goes through it
-- in order, and a vector that `vec_free` or `vec_reset_length` was called on is empty.
use routerd.Prelude.{
  ◌⊎◌, ◌↔◌, ℕ, suc, ◌-◌, ◌≡◌, List, [], ◌∷◌, ◌++◌, Option, none, some, ◌==◌, if◌then◌else◌, length,
  replicate,
}

-- The key and the value are one of the pairs.
abbrev pub InPairs : ℕ → ℕ → List (ℕ × ℕ) → Type 0
InPairs k v [] = ⊥
InPairs k v ((k', v') ∷ ps) = (k' ≡ k) × (v' ≡ v) ⊎ InPairs k v ps

pub record Vppinfra : Type 1 where
  -- `vec_add1`
  pub vec_add1 : List ℕ → ℕ → List ℕ
  -- `vec_validate_init_empty (v, i, init)`: make the vector long enough for index i.
  pub vec_validate_init_empty : List ℕ → ℕ → ℕ → List ℕ
  -- A hash table from words to words.
  pub Hash : Type 0
  -- The null pointer, an empty table.
  pub hash_null : Hash
  pub hash_get : Hash → ℕ → Option ℕ
  pub hash_set : Hash → ℕ → ℕ → Hash
  pub hash_unset : Hash → ℕ → Hash
  -- The pairs that `hash_foreach` goes through.
  pub hash_pairs : Hash → List (ℕ × ℕ)
  pub vec_add1_lem : (v : List ℕ) (x : ℕ) → vec_add1 v x ≡ v ++ x ∷ []
  pub vec_validate_init_empty_lem :
      (v : List ℕ) (i e : ℕ) → vec_validate_init_empty v i e ≡ v ++ replicate (suc i - length v) e
  pub get-null : (j : ℕ) → hash_get hash_null j ≡ none
  pub get-set :
      (h : Hash) (k v j : ℕ)
      → hash_get (hash_set h k v) j ≡ (if k == j then some v else hash_get h j)
  pub get-unset :
      (h : Hash) (k j : ℕ) → hash_get (hash_unset h k) j ≡ (if k == j then none else hash_get h j)
  pub pairs_iff : (h : Hash) (k v : ℕ) → InPairs k v (hash_pairs h) ↔ (hash_get h k ≡ some v)
