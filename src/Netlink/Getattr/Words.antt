-- ===== src/Netlink/Getattr/Words.antt =====
-- The words that are read from attributes that stand in memory.
use routerd.Prelude.{
  ℕ, ◌+◌, ◌*◌, ◌/◌, ◌%◌, ◌^◌, ◌<◌, ◌≡◌, refl, sym, subst, ap, List, [], ◌∷◌, ◌++◌, some, ◌>>=◌,
  arith,
}
use routerd.Netlink.Memory.{
  bytes16, bytes32, bytes64, read32, read64, Stands, read16_lem, Stands-append,
}
use routerd.Netlink.Message.{rta_size}
use routerd.Netlink.Message.Attributes.{StandsAttr}
use routerd.Netlink.Getattr.{rta_getattr_u8, rta_getattr_u16, rta_getattr_u32, rta_getattr_u64}

four :
    (a a' b b' c c' d d' : ℕ)
    → a ≡ a'
    → b ≡ b'
    → c ≡ c'
    → d ≡ d'
    → a ∷ b ∷ c ∷ d ∷ [] ≡ a' ∷ b' ∷ c' ∷ d' ∷ []
four a a' b b' c c' d d' e f g h = cc (e, f, g, h)

read32_lem :
    (mem : List ℕ) (i x : ℕ) → x < 2 ^ 32 → Stands mem i (bytes32 x) → read32 mem i ≡ some x
unfolding read32
read32_lem mem i x l s =
    let low : bytes16 (x % 2 ^ 16) ++ bytes16 (x / 2 ^ 16) ≡ bytes32 x =
      four _ _ _ _ _ _ _ _ (omega arith) (omega arith) refl (omega arith) in
    let (a, b) =
      Stands-append mem i (bytes16 (x % 2 ^ 16)) (bytes16 (x / 2 ^ 16))
        (subst (Stands mem i) (sym low) s) in
    let v : x % 2 ^ 16 + 0x1_0000 * (x / 2 ^ 16) ≡ x = omega (arith, l) in
    rw
      (
        read16_lem mem i (x % 2 ^ 16) (omega arith) a,
        read16_lem mem (i + 2) (x / 2 ^ 16) (omega (arith, l)) b,
        ◌>>=◌,
      )
      (ap some v)

read64_lem :
    (mem : List ℕ) (i x : ℕ) → x < 2 ^ 64 → Stands mem i (bytes64 x) → read64 mem i ≡ some x
unfolding read64
read64_lem mem i x l s =
    let low : bytes32 (x % 2 ^ 32) ≡ bytes32 x =
      four _ _ _ _ _ _ _ _ (omega arith) (omega arith) (omega arith) (omega arith) in
    let (a, b) = Stands-append mem i (bytes32 x) (bytes32 (x / 2 ^ 32)) s in
    let v : x % 2 ^ 32 + 0x1_0000_0000 * (x / 2 ^ 32) ≡ x = omega (arith, l) in
    rw
      (
        read32_lem mem i (x % 2 ^ 32) (omega arith) (subst (Stands mem i) (sym low) a),
        read32_lem mem (i + 4) (x / 2 ^ 32) (omega (arith, l)) b,
        ◌>>=◌,
      )
      (ap some v)

-- Where the attribute of a word stands, the function of its size reads the word.
pub rta_getattr_lem :
    (mem : List ℕ) (rta type x : ℕ)
    → (x < 2 ^ 8 → StandsAttr mem rta (type, x ∷ []) → rta_getattr_u8 mem rta ≡ some x)
      × (x < 2 ^ 16 → StandsAttr mem rta (type, bytes16 x) → rta_getattr_u16 mem rta ≡ some x)
      × (x < 2 ^ 32 → StandsAttr mem rta (type, bytes32 x) → rta_getattr_u32 mem rta ≡ some x)
      × (x < 2 ^ 64 → StandsAttr mem rta (type, bytes64 x) → rta_getattr_u64 mem rta ≡ some x)
unfolding rta_getattr_u8 rta_getattr_u16 rta_getattr_u32 rta_getattr_u64
rta_getattr_lem mem rta type x = (
  (λ l s.
      let e : rta + rta_size + 0 ≡ rta + rta_size = omega arith in rw (← e) (s.1 0 (omega arith))),
  (λ l s. read16_lem mem (rta + rta_size) x l s.1),
  (λ l s. read32_lem mem (rta + rta_size) x l s.1),
  λ l s. read64_lem mem (rta + rta_size) x l s.1,
)
