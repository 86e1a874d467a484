-- ===== src/Netlink/Message/Raw.antt =====
-- The bounds of `addraw_l` of netlink_scripts/*/netlink.h.
use routerd.Prelude.{
  ℕ, ◌+◌, ◌-◌, ◌%◌, ◌^◌, ◌≤◌, ◌≡◌, refl, inl, ◌∙◌, List, ltb, length, replicate, length-replicate,
  false, ℤ, pos, Returns, Returns->>=, arith,
}
use routerd.Netlink.Memory.{Stands, Wrote, Stands-Wrote, write_at-Wrote}
use routerd.Netlink.Message.{align, header_size, Nlmsg, addraw_l}
use routerd.Netlink.Message.Attributes.{Holds-Wrote}
use routerd.Netlink.Message.Bounds.{align_same, IsMessage, GoesOn}

-- Bytes that fit stand at what was the message's end.
abbrev pub RawAtEnd : Nlmsg → List ℕ → ℤ × Nlmsg → Type 0
RawAtEnd n bytes r =
    (r.0 ≡ pos 0)
    × (r.1.nlmsg_len ≡ n.nlmsg_len + align (length bytes))
    × Stands r.1.payload (n.nlmsg_len - header_size) bytes
    × GoesOn n r.1
    × IsMessage r.1

pub addraw_l-RawAtEnd :
    (n : Nlmsg) (maxlen : ℕ) (bytes : List ℕ)
    → IsMessage n
    → maxlen ≤ header_size + length n.payload
    → n.nlmsg_len + align (length bytes) ≤ maxlen
    → Returns (RawAtEnd n bytes) (addraw_l n maxlen bytes)
unfolding addraw_l
addraw_l-RawAtEnd n maxlen bytes m l fits =
    let at = n.nlmsg_len - header_size in
    let pad = align (length bytes) - length bytes in
    let padded : length (replicate {A = ℕ} pad 0) ≡ pad = length-replicate pad 0 in
    let same : (align n.nlmsg_len + align (length bytes)) % 2 ^ 32
        ≡ n.nlmsg_len + align (length bytes) =
      omega (arith, m.aligned, m.within, m.small, fits, l) in
    let t : ltb maxlen (n.nlmsg_len + align (length bytes)) ≡ false = ground (arith, fits) in
    rw (same, t, align_same n.nlmsg_len m.aligned)
      (Returns->>= (Wrote n.payload at bytes) (RawAtEnd n bytes) _ _
        (write_at-Wrote n.payload at bytes (omega (arith, fits, l, m.headed)))
        λ mem w.
          Returns->>= (Wrote mem (at + length bytes) (replicate {A = ℕ} pad 0)) (RawAtEnd n bytes) _
            _
            (write_at-Wrote mem (at + length bytes) (replicate {A = ℕ} pad 0)
              (omega (arith, fits, l, m.headed, w.0, padded)))
            λ mem' v. (
              refl,
              refl,
              Stands-Wrote mem mem' at (at + length bytes) (replicate {A = ℕ} pad 0) bytes
                  (inl (omega arith)) v w.1,
              (
                v.0 ∙ w.0,
                refl,
                refl,
                (λ i attrs end below h.
                    Holds-Wrote mem mem' i (at + length bytes) (replicate {A = ℕ} pad 0) attrs end
                      (omega (arith, below)) v
                      (Holds-Wrote n.payload mem i at bytes attrs end below w h)),
                λ j l. v.2 j (inl (omega (arith, l))) ∙ w.2 j (inl l),
              ),
              record {
                headed = omega (arith, m.headed);
                aligned = omega (arith, m.aligned);
                within = omega (arith, w.0, v.0, fits, l);
                small = omega (arith, w.0, v.0, m.small);
              },
            ))
