-- ===== src/Client/Prefix.antt =====
-- `parse_prefix_str` of src/vpp.c: an address, or an address, a slash and a length.
use routerd.Prelude.{
  ℕ, zero, suc, ◌+◌, ◌<◌, ◌≤◌, ◌≡◌, ◌≢◌, ◌⊎◌, refl, ap, inl, inr, List, [], ◌∷◌, ◌++◌, Option, none,
  some, ◌>>=◌, true, false, ◌||◌, ◌==◌, ==_ne, ltb, lt→ltb, length, length-append, take, All,
  Returns, if◌then◌else◌, arith,
}

abbrev pub af_inet : ℕ
af_inet = 2

abbrev pub af_inet6 : ℕ
af_inet6 = 10

-- `sizeof (buf)`
abbrev pub buf_size : ℕ
buf_size = 128

-- `struct prefix`; `u` is the bytes of the union.
pub record AddressPrefix : Type 0 where
  pub afi : ℕ
  pub plen : ℕ
  pub u : List ℕ

-- The C library's reading of an address, `none` where it refuses, and of a number, as `size_t`.
pub record Numbers : Type 0 where
  pub inet_pton : ℕ → List ℕ → Option (List ℕ)
  pub strtol : List ℕ → ℕ

-- `strchr (str, '/')`, as an index
unfoldable pub find_slash : List ℕ → Option ℕ
find_slash [] = none
find_slash (c ∷ str) =
    let rest = find_slash str >>= λ i. some (suc i) in if c == b'/' then some zero else rest

abbrev pub drop : ℕ → List ℕ → List ℕ
drop zero str = str
drop (suc n) [] = []
drop (suc n) (c ∷ str) = drop n str

-- `inet_pton (afi, str, &u)` writes the bytes of the address, 4 or 16, and leaves those behind them. An
-- address that is refused leaves all as they were: the answer is not looked at.
abbrev pub put_bytes : Option (List ℕ) → List ℕ → List ℕ
put_bytes none u = u
put_bytes (some bytes) u = bytes ++ drop (length bytes) u

abbrev pub read_address : Numbers → ℕ → List ℕ → List ℕ → List ℕ
read_address lib afi str u = put_bytes (lib.inet_pton afi str) u

-- The two families take the same way. A string that fills `buf` leaves it without an end, and a slash
-- behind it is written outside: both are `none`, as is the failed `assert`.
unfoldable pub parse_prefix_str : Numbers → List ℕ → ℕ → AddressPrefix → Option AddressPrefix
parse_prefix_str lib str afi pref =
    if afi == af_inet || afi == af_inet6
    then elim (find_slash str) [
      | none ↦ some (record {
        afi = afi;
        plen = if afi == af_inet then 32 else 128;
        u = read_address lib afi str pref.u;
      })
      | some i ↦
          if ltb (length str) buf_size
          then some (record {
            afi = afi;
            plen = lib.strtol (drop (i + 1) str);
            u = read_address lib afi (take i str) pref.u;
          })
          else none
    ]
    else none

NoSlash : List ℕ → Type 0
NoSlash = All (λ c. c ≢ b'/')

find_slash-none : (addr : List ℕ) → NoSlash addr → find_slash addr ≡ none
unfolding find_slash NoSlash
find_slash-none [] h = refl
find_slash-none (c ∷ addr) h = rw (==_ne c b'/' h.0, find_slash-none addr h.1) refl

find_slash-append :
    (addr len : List ℕ) → NoSlash addr → find_slash (addr ++ b'/' ∷ len) ≡ some (length addr)
unfolding find_slash NoSlash
find_slash-append [] len h = refl
find_slash-append (c ∷ addr) len h = rw (==_ne c b'/' h.0, find_slash-append addr len h.1) refl

take-append : (xs ys : List ℕ) → take (length xs) (xs ++ ys) ≡ xs
take-append [] ys = refl
take-append (x ∷ xs) ys = ap (λ l. x ∷ l) (take-append xs ys)

drop-append : (xs : List ℕ) (y : ℕ) (ys : List ℕ) → drop (length xs + 1) (xs ++ y ∷ ys) ≡ ys
drop-append [] y ys = refl
drop-append (x ∷ xs) y ys =
    let e : suc (length xs) + 1 ≡ suc (length xs + 1) = omega arith in rw e (drop-append xs y ys)

-- The union after an address of these bytes was written, or where it was refused.
abbrev pub Written : Option (List ℕ) → List ℕ → List ℕ → Type 0
Written none u u' = u' ≡ u
Written (some bytes) u u' = u' ≡ bytes ++ drop (length bytes) u

put_bytes-Written : (o : Option (List ℕ)) (u : List ℕ) → Written o u (put_bytes o u)
put_bytes-Written none u = refl
put_bytes-Written (some bytes) u = refl

-- What is read: the family, the length, and the address in the first bytes of the union.
abbrev pub ReadPrefix : Numbers → ℕ → List ℕ → ℕ → List ℕ → AddressPrefix → Type 0
ReadPrefix lib afi addr plen u p =
    (p.afi ≡ afi) × (p.plen ≡ plen) × Written (lib.inet_pton afi addr) u p.u

-- For an address without a slash, of one of the two families: alone it is read with the length of the
-- whole address, 32 or 128; with a slash and a length behind it, in fewer than 128 characters, both
-- are read; with more, the buffer is left without an end or is written outside. The bytes that
-- `inet_pton` gives are the first of the union, and all others are as before; where it refuses the
-- address, all are.
pub parse_prefix_str_lem :
    (lib : Numbers) (afi : ℕ) (addr len : List ℕ) (pref : AddressPrefix)
    → (afi ≡ af_inet) ⊎ (afi ≡ af_inet6)
    → All (λ c. c ≢ b'/') addr
    → Returns
        (ReadPrefix lib afi addr (if afi == af_inet then 32 else 128) pref.u)
        (parse_prefix_str lib addr afi pref)
      × (length addr + length len < 127
          → Returns
              (ReadPrefix lib afi addr (lib.strtol len) pref.u)
              (parse_prefix_str lib (addr ++ b'/' ∷ len) afi pref))
      × (127 ≤ length addr + length len → parse_prefix_str lib (addr ++ b'/' ∷ len) afi pref ≡ none)
unfolding parse_prefix_str NoSlash
parse_prefix_str_lem lib afi addr len pref f h =
    let fam : (afi == af_inet || afi == af_inet6) ≡ true = elim f [
      | inl e ↦ rw e refl
      | inr e ↦ rw e refl
    ] in
    let l : length (addr ++ b'/' ∷ len) ≡ length addr + suc (length len) =
      length-append addr (b'/' ∷ len) in
    (
      rw (fam, find_slash-none addr h)
          (refl, refl, put_bytes-Written (lib.inet_pton afi addr) pref.u),
      (λ s.
          let fits : ltb (length (addr ++ b'/' ∷ len)) buf_size ≡ true =
            lt→ltb _ _ (omega (arith, l, s)) in
          rw
            (
              fam,
              find_slash-append addr len h,
              fits,
              take-append addr (b'/' ∷ len),
              drop-append addr b'/' len,
            )
            (refl, refl, put_bytes-Written (lib.inet_pton afi addr) pref.u)),
      λ s.
          let full : ltb (length (addr ++ b'/' ∷ len)) buf_size ≡ false = ground (arith, l, s) in
          rw (fam, find_slash-append addr len h, full) refl,
    )
