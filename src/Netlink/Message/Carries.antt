-- ===== src/Netlink/Message/Carries.antt =====
-- A message of netlink_scripts/ with known attributes, and what one more call puts behind them.
use routerd.Prelude.{
  ℕ, ◌+◌, ◌-◌, ◌≤◌, ◌≡◌, ◌∙◌, subst, List, [], ◌∷◌, ◌++◌, length, Returns, Returns-mono, arith,
}
use routerd.Netlink.Memory.{Stands-append}
use routerd.Netlink.Message.{header_size, rta_length, rta_header, Nlmsg, addattr_l, addraw_l}
use routerd.Netlink.Message.Attributes.{Attr, FitsWords, room, StandsAttr, Holds, Holds-append}
use routerd.Netlink.Message.Bounds.{IsMessage, GoesOn, AtEnd, addattr_l-AtEnd}
use routerd.Netlink.Message.Raw.{RawAtEnd, addraw_l-RawAtEnd}

-- In `size` bytes of memory, from index i up to the end at `len`, the message has the attributes.
pub record Carries (size type flags i : ℕ) (attrs : List Attr) (len : ℕ) (n : Nlmsg) : Type 0 where
  pub message : IsMessage n
  pub sized : length n.payload ≡ size
  pub typed : n.nlmsg_type ≡ type
  pub flagged : n.nlmsg_flags ≡ flags
  pub ends : n.nlmsg_len ≡ len
  pub holds : Holds n.payload i attrs (len - header_size)

module _ {size type flags i len : ℕ} {attrs : List Attr} {n : Nlmsg}
    (c : Carries size type flags i attrs len n) where
  -- What goes on with one more attribute at its end.
  goes_on :
      (a : Attr) (n' : Nlmsg)
      → n'.nlmsg_len ≡ n.nlmsg_len + room a
      → StandsAttr n'.payload (n.nlmsg_len - header_size) a
      → GoesOn n n'
      → IsMessage n'
      → Carries size type flags i (attrs ++ a ∷ []) (len + room a) n'
  goes_on a n' e s g m =
      let at : n.nlmsg_len - header_size ≡ len - header_size = omega (arith, c.ends) in
      let end : len - header_size + room a ≡ len + room a - header_size =
        omega (arith, c.ends, c.message.headed) in
      record {
        message = m;
        sized = g.0 ∙ c.sized;
        typed = g.1 ∙ c.typed;
        flagged = g.2 ∙ c.flagged;
        ends = omega (arith, e, c.ends);
        holds = subst (Holds n'.payload i (attrs ++ a ∷ [])) end (
            Holds-append n'.payload i attrs (len - header_size) a
              (g.3 i attrs (len - header_size) (omega (arith, at)) c.holds)
              (subst (λ x. StandsAttr n'.payload x a) at s));
      }

  pub addattr_l-CarriesOn :
      (maxlen : ℕ) (a : Attr)
      → maxlen ≤ header_size + size
      → FitsWords a
      → len + room a ≤ maxlen
      → Returns
          (λ r. Carries size type flags i (attrs ++ a ∷ []) (len + room a) r.1 × GoesOn n r.1)
          (addattr_l n maxlen a.0 a.1)
  addattr_l-CarriesOn maxlen a l f fits =
      Returns-mono (AtEnd n a) _ _ (λ r w. (goes_on a r.1 w.1 w.2 w.3 w.4, w.3))
        (addattr_l-AtEnd n maxlen a c.message (omega (arith, l, c.sized)) f
          (omega (arith, fits, c.ends)))

  pub addattr_l-Carries :
      (maxlen : ℕ) (a : Attr)
      → maxlen ≤ header_size + size
      → FitsWords a
      → len + room a ≤ maxlen
      → Returns
          (λ r. Carries size type flags i (attrs ++ a ∷ []) (len + room a) r.1)
          (addattr_l n maxlen a.0 a.1)
  addattr_l-Carries maxlen a l f fits =
      Returns-mono
        (λ r. Carries size type flags i (attrs ++ a ∷ []) (len + room a) r.1 × GoesOn n r.1) _ _
        (λ r w. w.0) (addattr_l-CarriesOn maxlen a l f fits)

  -- The bytes of a whole attribute, put as they are.
  pub addraw_l-Carries :
      (maxlen : ℕ) (a : Attr)
      → maxlen ≤ header_size + size
      → len + room a ≤ maxlen
      → Returns
          (λ r. Carries size type flags i (attrs ++ a ∷ []) (len + room a) r.1)
          (addraw_l n maxlen (rta_header a.0 (rta_length (length a.1)) ++ a.1))
  addraw_l-Carries maxlen a l fits =
      Returns-mono (RawAtEnd n (rta_header a.0 (rta_length (length a.1)) ++ a.1)) _ _
        (λ r w.
          goes_on a r.1 (omega (arith, w.1))
            (Stands-append r.1.payload (n.nlmsg_len - header_size)
              (rta_header a.0 (rta_length (length a.1))) a.1 w.2)
            w.3 w.4)
        (addraw_l-RawAtEnd n maxlen (rta_header a.0 (rta_length (length a.1)) ++ a.1) c.message
          (omega (arith, l, c.sized)) (omega (arith, fits, c.ends)))
