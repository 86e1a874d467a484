-- ===== src/Netlink/Parse/Reads.antt =====
-- What `parse_rtattr` finds where attributes stand in memory.
use routerd.Prelude.{
  ℕ, zero, suc, ◌+◌, ◌-◌, ◌/◌, ◌%◌, ◌^◌, ◌≤◌, ◌<◌, ◌≡◌, ◌⊎◌, refl, ap, inl, inr, ◌∙◌, List, [], ◌∷◌,
  Option, Bool, none, some, ◌>>=◌, true, false, ◌==◌, ==_iff, subst, Bool-cases, leb, length,
  length-replicate, length-set, get_or, get_or-set, get_or-append_replicate, replicate, All, ℤ, pos,
  Returns, Returns-mono, if◌then◌else◌, arith,
}
use Prim.Native.Nat.{min, bit_and-bitwise, digits}
use routerd.Netlink.Memory.{bytes16, Stands, read16, read16_lem, Stands-append}
use routerd.Netlink.Message.{align, rta_size, rta_length}
use routerd.Netlink.Message.Attributes.{Attr, FitsWords, room, StandsAttr, Holds, Holds-rooms}
use routerd.Netlink.Parse.{is_none, enter, without, parse_loop, parse_rtattr_flags, parse_rtattr}

digits-zero : (n a : ℕ) → digits (λ b. zero) min n a 0 ≡ 0
digits-zero zero zero = refl
digits-zero zero (suc a) = refl
digits-zero (suc n) zero = refl
digits-zero (suc n) (suc a) = omega (arith, digits-zero n (suc a / 2))

without-zero : (x : ℕ) → without x 0 ≡ x
unfolding without
without-zero x = omega (arith, bit_and-bitwise x 0, digits-zero x x)

-- The first attribute of a type: its offset, and its data.
abbrev pub first_at : List Attr → ℕ → ℕ → Option ℕ
first_at [] t i = none
first_at (a ∷ attrs) t i = if a.0 == t then some i else first_at attrs t (i + room a)

abbrev pub first_data : List Attr → ℕ → Option (List ℕ)
first_data [] t = none
first_data (a ∷ attrs) t = if a.0 == t then some a.1 else first_data attrs t

abbrev or_else : Option ℕ → Option ℕ → Option ℕ
or_else none o = o
or_else (some x) o = some x

or_none : (o : Option ℕ) → o ≡ or_else o none
or_none none = refl
or_none (some x) = refl

or_assoc : (o p q : Option ℕ) → or_else (or_else o p) q ≡ or_else o (or_else p q)
or_assoc none p q = refl
or_assoc (some x) p q = refl

or_if :
    (b : Bool) (i : ℕ) (o : Option ℕ)
    → or_else (if b then some i else none) o ≡ (if b then some i else o)
or_if true i o = refl
or_if false i o = refl

is_none_or : (o p : Option ℕ) → is_none o ≡ true → p ≡ or_else o p
is_none_or none p h = refl
is_none_or (some x) p h = cc h

is_some_or : (o p : Option ℕ) → is_none o ≡ false → o ≡ or_else o p
is_some_or none p h = cc h
is_some_or (some x) p h = refl

free :
    (tb : List (Option ℕ)) (type i t : ℕ)
    → is_none (get_or tb type none) ≡ true
    → (if type == t then some i else get_or tb t none)
      ≡ or_else (get_or tb t none) (if type == t then some i else none)
free tb type i t v = elim (Bool-cases (type == t)) [
  | inl e ↦
      let eq : type ≡ t = (==_iff type t).0 e in
      rw e (
        is_none_or (get_or tb t none) (some i)
          (subst (λ x. is_none (get_or tb x none) ≡ true) eq v))
  | inr e ↦ rw e (or_none (get_or tb t none))
]

taken :
    (tb : List (Option ℕ)) (type i t : ℕ)
    → is_none (get_or tb type none) ≡ false
    → get_or tb t none ≡ or_else (get_or tb t none) (if type == t then some i else none)
taken tb type i t v = elim (Bool-cases (type == t)) [
  | inl e ↦
      let eq : type ≡ t = (==_iff type t).0 e in
      is_some_or (get_or tb t none) _ (subst (λ x. is_none (get_or tb x none) ≡ false) eq v)
  | inr e ↦ rw e (or_none (get_or tb t none))
]

module _ (max : ℕ) where
  enter_lem :
      (tb : List (Option ℕ)) (type i t : ℕ)
      → length tb ≡ max + 1
      → t ≤ max
      → get_or (enter tb max type i) t none
        ≡ or_else (get_or tb t none) (if type == t then some i else none)
  unfolding enter
  enter_lem tb type i t l m = elim (Bool-cases (leb type max)) [
    | inl u ↦
        let e = get_or-set tb type t (some i) none (ground (arith, l, u)) in
        elim (Bool-cases (is_none (get_or tb type none))) [
          | inl v ↦ rw (u, v, e) (free tb type i t v)
          | inr v ↦ rw (u, v) (taken tb type i t v)
        ]
    | inr u ↦
        let ne : (type == t) ≡ false = ground (arith, u, m) in
        rw (u, ne) (or_none (get_or tb t none))
  ]

  enter-length : (tb : List (Option ℕ)) (type i : ℕ) → length (enter tb max type i) ≡ length tb
  unfolding enter
  enter-length tb type i = ground (arith, length-set tb type (some i))

  -- The words of an attribute that stands.
  words :
      (mem : List ℕ) (i : ℕ) (a : Attr)
      → FitsWords a
      → StandsAttr mem i a
      → (read16 mem i ≡ some (rta_length (length a.1))) × (read16 mem (i + 2) ≡ some a.0)
  words mem i a f s =
      let e1 : rta_length (length a.1) % 2 ^ 16 ≡ rta_length (length a.1) = omega (arith, f.1) in
      let e2 : a.0 % 2 ^ 16 ≡ a.0 = omega (arith, f.0) in
      let (s1, s2) =
        Stands-append mem i (bytes16 (rta_length (length a.1) % 2 ^ 16)) (bytes16 (a.0 % 2 ^ 16))
          s.0 in
      (
        read16_lem mem i (rta_length (length a.1)) f.1
            (subst (λ x. Stands mem i (bytes16 x)) e1 s1),
        read16_lem mem (i + 2) a.0 f.0 (subst (λ x. Stands mem (i + 2) (bytes16 x)) e2 s2),
      )

  -- One round, at an attribute of `l` bytes.
  parse_loop_step :
      (fuel : ℕ) (mem : List ℕ) (i len l type : ℕ) (tb : List (Option ℕ))
      → read16 mem i ≡ some l
      → read16 mem (i + 2) ≡ some type
      → rta_size ≤ l
      → align l ≤ len
      → parse_loop (suc fuel) mem i len max 0 tb
        ≡ parse_loop fuel mem (i + align l) (len - align l) max 0 (enter tb max type i)
  unfolding parse_loop
  parse_loop_step fuel mem i len l type tb r1 r2 h1 h2 =
      let z : leb rta_size len ≡ true = ground (arith, h1, h2) in
      let z1 : leb rta_size l ≡ true = ground (arith, h1) in
      let z2 : leb l len ≡ true = ground (arith, h2) in
      let z3 : leb (align l) len ≡ true = ground (arith, h2) in
      rw (z, parse_loop, r1, ◌>>=◌, z1, z2, r2, ◌>>=◌, z3)
        (ap (λ x. parse_loop fuel mem (i + align l) (len - align l) max 0 (enter tb max x i))
          (without-zero type))

  -- All is read, and each type has its first attribute where it had none.
  abbrev Entered : List (Option ℕ) → List Attr → ℕ → List (Option ℕ) × ℤ → Type 0
  Entered tb attrs i r =
      (r.1 ≡ pos 0)
      × (length r.0 ≡ max + 1)
      × ((t : ℕ) → t ≤ max → get_or r.0 t none ≡ or_else (get_or tb t none) (first_at attrs t i))

  -- Where attributes stand up to the end, the loop reads to the end and enters the first of each
  -- type.
  parse_loop-Holds :
      (fuel : ℕ) (mem : List ℕ) (i len : ℕ) (tb : List (Option ℕ)) (attrs : List Attr)
      → len < fuel
      → All FitsWords attrs
      → length tb ≡ max + 1
      → Holds mem i attrs (i + len)
      → Returns (Entered tb attrs i) (parse_loop fuel mem i len max 0 tb)
  unfolding parse_loop
  parse_loop-Holds zero mem i len tb attrs f w l h = absurd (omega (arith, f))
  parse_loop-Holds (suc fuel) mem i len tb [] f w l h =
      let z : leb rta_size len ≡ false = ground (arith, h) in
      rw (z, parse_loop) (ap pos (omega (arith, h)), l, λ t m. or_none (get_or tb t none))
  parse_loop-Holds (suc fuel) mem i len tb (a ∷ attrs) f w l h =
      let (r1, r2) = words mem i a w.0 h.0 in
      let end = Holds-rooms mem (i + room a) attrs (i + len) h.1 in
      let rest : i + len ≡ i + room a + (len - room a) = omega (arith, end) in
      let tb' = enter tb max a.0 i in
      let ih =
        parse_loop-Holds fuel mem (i + room a) (len - room a) tb' attrs (omega (arith, f, end)) w.1
          (enter-length tb a.0 i ∙ l) (subst (Holds mem (i + room a) attrs) rest h.1) in
      rw (parse_loop_step fuel mem i len _ a.0 tb r1 r2 (omega arith) (omega (arith, end))) (
        Returns-mono (Entered tb' attrs (i + room a)) (Entered tb (a ∷ attrs) i) _
          (λ r v. (
            v.0,
            v.1,
            λ t m.
                v.2 t m
                ∙ ap (λ o. or_else o (first_at attrs t (i + room a))) (enter_lem tb a.0 i t l m)
                ∙ or_assoc (get_or tb t none) _ _
                ∙ ap (or_else (get_or tb t none)) (or_if (a.0 == t) i _),
          ))
          ih)

  -- An entry of the table: the first attribute of the type, and nothing where there is none.
  abbrev pub Finds : List ℕ → List Attr → List (Option ℕ) → ℕ → Type 0
  Finds mem attrs tb t =
      (first_data attrs t ≡ none) × (get_or tb t none ≡ none)
      ⊎ ((o : ℕ) × (d : List ℕ) × (first_data attrs t ≡ some d)
          × (get_or tb t none ≡ some o)
          × StandsAttr mem o (t, d))

  first_at-Finds :
      (mem : List ℕ) (attrs : List Attr) (tb : List (Option ℕ)) (i end t : ℕ)
      → Holds mem i attrs end
      → get_or tb t none ≡ first_at attrs t i
      → Finds mem attrs tb t
  first_at-Finds mem [] tb i end t h e = inl (refl, e)
  first_at-Finds mem (a ∷ attrs) tb i end t h e = elim (Bool-cases (a.0 == t)) [
    | inl b ↦
        let s : StandsAttr mem i (t, a.1) =
          subst (λ x. StandsAttr mem i (x, a.1)) ((==_iff a.0 t).0 b) h.0 in
        inr (i, a.1, rw b refl, e ∙ rw b refl, s)
    | inr b ↦ rw b (first_at-Finds mem attrs tb (i + room a) end t h.1 (e ∙ rw b refl))
  ]

  -- Where attributes whose words fit stand up to the end, `parse_rtattr` reads them all, with nothing
  -- left over, and its table has the first attribute of each type up to `max`, and nothing else.
  pub parse_rtattr-Finds :
      (mem : List ℕ) (i len : ℕ) (attrs : List Attr)
      → All FitsWords attrs
      → Holds mem i attrs (i + len)
      → Returns
          (λ r. (r.1 ≡ pos 0) × ((t : ℕ) → t ≤ max → Finds mem attrs r.0 t))
          (parse_rtattr mem max i len)
  unfolding parse_rtattr parse_rtattr_flags
  parse_rtattr-Finds mem i len attrs w h =
      let start = replicate (max + 1) none in
      Returns-mono (Entered start attrs i) _ _
        (λ r v. (
          v.0,
          λ t m. first_at-Finds mem attrs r.0 i (i + len) t h (
              v.2 t m
              ∙ ap (λ o. or_else o (first_at attrs t i))
                  (get_or-append_replicate [] (max + 1) t none)),
        ))
        (parse_loop-Holds (len + 1) mem i len start attrs (omega arith) w
          (length-replicate (max + 1) none) h)
