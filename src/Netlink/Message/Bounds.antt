-- ===== src/Netlink/Message/Bounds.antt =====
-- The bounds of `addattr_l` and `addraw_l` of netlink_scripts/*/netlink.h.
use routerd.Prelude.{
  ℕ, ◌+◌, ◌-◌, ◌%◌, ◌^◌, ◌≤◌, ◌<◌, ◌≡◌, ◌⊎◌, refl, inl, inr, ◌∙◌, List, Bool-cases, ltb, ltb→lt,
  length, get_elem?, ℤ, pos, negsuc, Returns, Returns->>=, Returns-mono, arith,
}
use routerd.Netlink.Memory.{Wrote, Stands-Wrote, write_at-Wrote}
use routerd.Netlink.Message.{
  align, header_size, rta_size, rta_length, rta_header, Nlmsg, put_attr, addattr_l,
}
use routerd.Netlink.Message.Attributes.{Attr, room, StandsAttr, Holds, Holds-Wrote, FitsWords}

-- After an attribute is put: it stands, and bytes before it are as before.
abbrev pub PutAttr : List ℕ → ℕ → Attr → List ℕ → Type 0
PutAttr mem at a mem' =
    (length mem' ≡ length mem)
    × StandsAttr mem' at a
    × ((i : ℕ) (attrs : List Attr) (end : ℕ)
        → end ≤ at
        → Holds mem i attrs end
        → Holds mem' i attrs end)
    × ((j : ℕ) → j < at → get_elem? mem' j ≡ get_elem? mem j)

pub put_attr-PutAttr :
    (mem : List ℕ) (at : ℕ) (a : Attr)
    → at + rta_length (length a.1) ≤ length mem
    → Returns (PutAttr mem at a) (put_attr mem at a.0 a.1)
put_attr-PutAttr mem at a h =
    let head = rta_header a.0 (rta_length (length a.1)) in
    Returns->>= (Wrote mem at head) (PutAttr mem at a) _ _
      (write_at-Wrote mem at head (omega (arith, h)))
      λ mem1 w.
        let l1 : length mem1 ≡ length mem = w.0 in
        Returns-mono (Wrote mem1 (at + rta_size) a.1) (PutAttr mem at a) _
          (λ mem2 v. (
            v.0 ∙ l1,
            (Stands-Wrote mem1 mem2 at (at + rta_size) a.1 head (inl (omega arith)) v w.1, v.1),
            (λ i attrs end l k.
                Holds-Wrote mem1 mem2 i (at + rta_size) a.1 attrs end (omega (arith, l)) v
                  (Holds-Wrote mem mem1 i at head attrs end l w k)),
            λ j l. v.2 j (inl (omega (arith, l))) ∙ w.2 j (inl l),
          ))
          (write_at-Wrote mem1 (at + rta_size) a.1 (omega (arith, h, l1)))

-- A message whose end is aligned and lies in its memory.
pub record IsMessage (n : Nlmsg) : Type 0 where
  pub headed : header_size ≤ n.nlmsg_len
  pub aligned : n.nlmsg_len % 4 ≡ 0
  pub within : n.nlmsg_len ≤ header_size + length n.payload
  pub small : header_size + length n.payload < 2 ^ 31

-- An aligned end is its own padding.
pub align_same : (n : ℕ) → n % 4 ≡ 0 → align n ≡ n
align_same n h = omega (arith, h)

-- The message goes on from another: its memory has the same size, its other words are the same, the
-- attributes that stood still stand, and the bytes before its end are the same.
abbrev pub GoesOn : Nlmsg → Nlmsg → Type 0
GoesOn n n' =
    (length n'.payload ≡ length n.payload)
    × (n'.nlmsg_type ≡ n.nlmsg_type)
    × (n'.nlmsg_flags ≡ n.nlmsg_flags)
    × ((i : ℕ) (attrs : List Attr) (end : ℕ)
        → end ≤ n.nlmsg_len - header_size
        → Holds n.payload i attrs end
        → Holds n'.payload i attrs end)
    × ((j : ℕ) → j < n.nlmsg_len - header_size → get_elem? n'.payload j ≡ get_elem? n.payload j)

-- The attribute is refused, and nothing changes, just if it does not fit; else it stands at what was
-- the message's end.
abbrev pub AtEnd : Nlmsg → Attr → ℤ × Nlmsg → Type 0
AtEnd n a r =
    (r.0 ≡ pos 0)
    × (r.1.nlmsg_len ≡ n.nlmsg_len + room a)
    × StandsAttr r.1.payload (n.nlmsg_len - header_size) a
    × GoesOn n r.1
    × IsMessage r.1

-- The new end is the next multiple of four behind the words of the attribute and its data.
abbrev pub Padded : Nlmsg → Attr → ℤ × Nlmsg → Type 0
Padded n a r =
    (r.1.nlmsg_len % 4 ≡ 0)
    × (n.nlmsg_len + 4 + length a.1 ≤ r.1.nlmsg_len)
    × (r.1.nlmsg_len < n.nlmsg_len + 4 + length a.1 + 4)

abbrev pub Added : Nlmsg → ℕ → Attr → ℤ × Nlmsg → Type 0
Added n maxlen a r =
    (maxlen < n.nlmsg_len + room a) × (r ≡ (negsuc 0, n))
    ⊎ (n.nlmsg_len + room a ≤ maxlen) × AtEnd n a r × Padded n a r

-- In a message whose end is a multiple of four and lies in its memory, with a bound within that memory,
-- and for an attribute whose type and length are words of 16 bits, `addattr_l` writes nothing outside. It refuses, and changes nothing, just if the attribute
-- does not fit under the bound. Else the attribute stands at what was the message's end,
-- what stood before it still stands, and the new end is the next multiple of four and in the memory.
pub addattr_l-Added :
    (n : Nlmsg) (maxlen : ℕ) (a : Attr)
    → IsMessage n
    → maxlen ≤ header_size + length n.payload
    → FitsWords a
    → Returns (Added n maxlen a) (addattr_l n maxlen a.0 a.1)
unfolding addattr_l
addattr_l-Added n maxlen a m l f =
    let same : (align n.nlmsg_len + room a) % 2 ^ 32 ≡ n.nlmsg_len + room a =
      omega (arith, m.aligned, m.within, m.small, f.1) in
    elim (Bool-cases (ltb maxlen (n.nlmsg_len + room a))) [
      | inl t ↦ rw (same, t) (inl (ltb→lt _ _ t, refl))
      | inr t ↦
          let fits : n.nlmsg_len + room a ≤ maxlen = ground (arith, t) in
          let at = n.nlmsg_len - header_size in
          rw (same, t, align_same n.nlmsg_len m.aligned)
            (Returns->>= (PutAttr n.payload at a) (Added n maxlen a) _ _
              (put_attr-PutAttr n.payload at a (omega (arith, fits, l, m.headed)))
              λ mem w. inr (
                fits,
                (
                  refl,
                  refl,
                  w.1,
                  (w.0, refl, refl, (λ i attrs end. w.2 i attrs end), w.3),
                  record {
                    headed = omega (arith, m.headed);
                    aligned = omega (arith, m.aligned);
                    within = omega (arith, w.0, fits, l);
                    small = omega (arith, w.0, m.small);
                  },
                ),
                (omega (arith, m.aligned), omega arith, omega arith),
              ))
    ]

pub addattr_l-AtEnd :
    (n : Nlmsg) (maxlen : ℕ) (a : Attr)
    → IsMessage n
    → maxlen ≤ header_size + length n.payload
    → FitsWords a
    → n.nlmsg_len + room a ≤ maxlen
    → Returns (AtEnd n a) (addattr_l n maxlen a.0 a.1)
addattr_l-AtEnd n maxlen a m l f fits =
    Returns-mono (Added n maxlen a) (AtEnd n a) _
      (λ r d. elim d [ inl (big, e) ↦ absurd (omega (arith, big, fits)) | inr (h, w, p) ↦ w ])
      (addattr_l-Added n maxlen a m l f)
