-- ===== src/Netlink/Memory.antt =====
-- Memory as the bytes of one C object, with the copies and reads that netlink_scripts/*/netlink.h makes
-- in it. A copy or a read past its end is `none`.
use routerd.Prelude.{
  ℕ, zero, suc, ◌+◌, ◌*◌, ◌/◌, ◌%◌, ◌^◌, ◌≤◌, ◌<◌, ◌≡◌, ◌∙◌, refl, ap, List, [], ◌∷◌, Option, none,
  some, ◌>>=◌, ◌⊎◌, inl, inr, Returns, Returns->>=, length, length-append, ◌++◌, get_elem?, arith,
}

-- `memcpy (xs + i, ys, length ys)`
unfoldable pub write_at : List ℕ → ℕ → List ℕ → Option (List ℕ)
write_at xs i [] = some xs
write_at [] i (y ∷ ys) = none
write_at (x ∷ xs) zero (y ∷ ys) = write_at xs zero ys >>= λ zs. some (y ∷ zs)
write_at (x ∷ xs) (suc i) (y ∷ ys) = write_at xs i (y ∷ ys) >>= λ zs. some (x ∷ zs)

-- The two bytes of a `__u16`, and the four of a `__u32`, on a little-endian host.
abbrev pub bytes16 : ℕ → List ℕ
bytes16 x = (x % 256) ∷ (x / 256 % 256) ∷ []

abbrev pub bytes32 : ℕ → List ℕ
bytes32 x = (x % 256) ∷ (x / 256 % 256) ∷ (x / 0x1_0000 % 256) ∷ (x / 0x100_0000 % 256) ∷ []

-- The eight bytes of a `__u64`.
abbrev pub bytes64 : ℕ → List ℕ
bytes64 x = bytes32 x ++ bytes32 (x / 0x1_0000_0000)

-- A `__u16`, a `__u32` and a `__u64` read through a pointer.
unfoldable pub read16 : List ℕ → ℕ → Option ℕ
read16 mem i = get_elem? mem i >>= λ a. get_elem? mem (i + 1) >>= λ b. some (a + 256 * b)

unfoldable pub read32 : List ℕ → ℕ → Option ℕ
read32 mem i = read16 mem i >>= λ a. read16 mem (i + 2) >>= λ b. some (a + 0x1_0000 * b)

unfoldable pub read64 : List ℕ → ℕ → Option ℕ
read64 mem i = read32 mem i >>= λ a. read32 mem (i + 4) >>= λ b. some (a + 0x1_0000_0000 * b)

-- The bytes `ys` stand in memory from index i on.
abbrev pub Stands : List ℕ → ℕ → List ℕ → Type 0
Stands mem i ys = (k : ℕ) → k < length ys → get_elem? mem (i + k) ≡ get_elem? ys k

-- After a copy: the bytes stand where they were put, and all others are as before.
abbrev pub Wrote : List ℕ → ℕ → List ℕ → List ℕ → Type 0
Wrote xs i ys zs =
    (length zs ≡ length xs)
    × Stands zs i ys
    × ((k : ℕ) → (k < i) ⊎ (i + length ys ≤ k) → get_elem? zs k ≡ get_elem? xs k)

cons-Stands : (y : ℕ) (ys zs : List ℕ) → Stands zs 0 ys → Stands (y ∷ zs) 0 (y ∷ ys)
cons-Stands y ys zs w zero h = refl
cons-Stands y ys zs w (suc k) h =
    let e : 0 + suc k ≡ suc (0 + k) = omega arith in rw e (w k (omega (arith, h)))

cons_others :
    (x y n : ℕ) (xs zs : List ℕ)
    → ((k : ℕ) → (k < 0) ⊎ (0 + n ≤ k) → get_elem? zs k ≡ get_elem? xs k)
    → (k : ℕ) → (k < 0) ⊎ (0 + suc n ≤ k)
    → get_elem? (y ∷ zs) k ≡ get_elem? (x ∷ xs) k
cons_others x y n xs zs w zero h = absurd (ground (arith, h))
cons_others x y n xs zs w (suc k) h = w k (inr (ground (arith, h)))

suc-Stands : (x i : ℕ) (ys zs : List ℕ) → Stands zs i ys → Stands (x ∷ zs) (suc i) ys
suc-Stands x i ys zs w k h = let e : suc i + k ≡ suc (i + k) = omega arith in rw e (w k h)

suc_others :
    (x i n : ℕ) (xs zs : List ℕ)
    → ((k : ℕ) → (k < i) ⊎ (i + n ≤ k) → get_elem? zs k ≡ get_elem? xs k)
    → (k : ℕ) → (k < suc i) ⊎ (suc i + n ≤ k)
    → get_elem? (x ∷ zs) k ≡ get_elem? (x ∷ xs) k
suc_others x i n xs zs w zero h = refl
suc_others x i n xs zs w (suc k) h =
    w k (elim h [ inl l ↦ inl (omega (arith, l)) | inr l ↦ inr (omega (arith, l)) ])

pub write_at-Wrote :
    (xs : List ℕ) (i : ℕ) (ys : List ℕ)
    → i + length ys ≤ length xs
    → Returns (Wrote xs i ys) (write_at xs i ys)
unfolding write_at
write_at-Wrote xs i [] h = (refl, (λ k l. absurd (omega (arith, l))), λ k l. refl)
write_at-Wrote [] i (y ∷ ys) h = absurd (omega (arith, h))
write_at-Wrote (x ∷ xs) zero (y ∷ ys) h =
    Returns->>= (Wrote xs 0 ys) _ _ _ (write_at-Wrote xs 0 ys (omega (arith, h)))
      λ zs w. (ap suc w.0, cons-Stands y ys zs w.1, cons_others x y (length ys) xs zs w.2)
write_at-Wrote (x ∷ xs) (suc i) (y ∷ ys) h =
    Returns->>= (Wrote xs i (y ∷ ys)) _ _ _ (write_at-Wrote xs i (y ∷ ys) (omega (arith, h)))
      λ zs w.
        (ap suc w.0, suc-Stands x i (y ∷ ys) zs w.1, suc_others x i (length (y ∷ ys)) xs zs w.2)

-- What stood apart from a copy still stands.
pub Stands-Wrote :
    (xs zs : List ℕ) (i j : ℕ) (ys ds : List ℕ)
    → (i + length ds ≤ j) ⊎ (j + length ys ≤ i)
    → Wrote xs j ys zs
    → Stands xs i ds
    → Stands zs i ds
Stands-Wrote xs zs i j ys ds apart w s k h =
    w.2 (i + k)
      (elim apart [ inl l ↦ inl (omega (arith, l, h)) | inr l ↦ inr (omega (arith, l, h)) ])
    ∙ s k h

-- A word that stands is the word that is read.
pub read16_lem :
    (mem : List ℕ) (i x : ℕ) → x < 2 ^ 16 → Stands mem i (bytes16 x) → read16 mem i ≡ some x
unfolding read16
read16_lem mem i x l s =
    let e : i + 0 ≡ i = omega arith in
    let a : get_elem? mem i ≡ some (x % 256) = rw (← e) (s 0 (omega arith)) in
    let b : get_elem? mem (i + 1) ≡ some (x / 256 % 256) = s 1 (omega arith) in
    let v : x % 256 + 256 * (x / 256 % 256) ≡ x = omega (arith, l) in rw (a, b) (ap some v)

get_elem?-append_left :
    (xs ys : List ℕ) (k : ℕ) → k < length xs → get_elem? (xs ++ ys) k ≡ get_elem? xs k
get_elem?-append_left [] ys k h = elim h [ ]
get_elem?-append_left (x ∷ xs) ys zero h = refl
get_elem?-append_left (x ∷ xs) ys (suc k) h = get_elem?-append_left xs ys k (omega (arith, h))

get_elem?-append_right :
    (xs ys : List ℕ) (k : ℕ) → get_elem? (xs ++ ys) (length xs + k) ≡ get_elem? ys k
get_elem?-append_right [] ys k = let e : 0 + k ≡ k = omega arith in rw e refl
get_elem?-append_right (x ∷ xs) ys k =
    let e : suc (length xs) + k ≡ suc (length xs + k) = omega arith in
    rw e (get_elem?-append_right xs ys k)

-- Two pieces that stand one behind the other.
pub Stands-append :
    (mem : List ℕ) (i : ℕ) (xs ys : List ℕ)
    → Stands mem i (xs ++ ys)
    → Stands mem i xs × Stands mem (i + length xs) ys
Stands-append mem i xs ys s = (
  (λ k h. s k (omega (arith, length-append xs ys, h)) ∙ get_elem?-append_left xs ys k h),
  λ k h.
      let e : i + length xs + k ≡ i + (length xs + k) = omega arith in
      rw e (
        s (length xs + k) (omega (arith, length-append xs ys, h)) ∙ get_elem?-append_right xs ys k),
)
