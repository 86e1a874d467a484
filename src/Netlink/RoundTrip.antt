-- ===== src/Netlink/RoundTrip.antt =====
-- Attributes that are put into a message one after the other, and read back.
use routerd.Prelude.{
  ℕ, max, false, true, ◌+◌, ◌-◌, ◌≤◌, ◌≡◌, refl, sym, ap, ◌∙◌, subst, inl, inr, List, [], ◌∷◌, ◌++◌,
  append-nil, append_assoc, Option, some, ◌>>=◌, Bool-cases, leb, length, All, pos, Returns,
  Returns->>=, Returns-mono, if◌then◌else◌, arith,
}
use routerd.Netlink.Message.{header_size, Nlmsg, addattr_l}
use routerd.Netlink.Message.Attributes.{Attr, FitsWords, room, Holds, Holds-append, Holds-rooms}
use routerd.Netlink.Message.Bounds.{IsMessage, Added, addattr_l-Added}
use routerd.Netlink.Parse.{parse_rtattr}
use routerd.Netlink.Parse.Reads.{Finds, parse_rtattr-Finds}

-- Calls of `addattr_l` whose answers are not looked at.
pub add_all : Nlmsg → ℕ → List Attr → Option Nlmsg
add_all n maxlen [] = some n
add_all n maxlen (a ∷ attrs) = addattr_l n maxlen a.0 a.1 >>= λ r. add_all r.1 maxlen attrs

-- Those that fit, where `len` bytes are taken.
abbrev pub accepted : ℕ → ℕ → List Attr → List Attr
accepted len maxlen [] = []
accepted len maxlen (a ∷ attrs) =
    if leb (len + room a) maxlen
    then a ∷ accepted (len + room a) maxlen attrs
    else accepted len maxlen attrs

accepted-FitsWords :
    (len maxlen : ℕ) (attrs : List Attr)
    → All FitsWords attrs
    → All FitsWords (accepted len maxlen attrs)
accepted-FitsWords len maxlen [] w = tt
accepted-FitsWords len maxlen (a ∷ attrs) w = elim (Bool-cases (leb (len + room a) maxlen)) [
  | inl t ↦ rw t (w.0, accepted-FitsWords (len + room a) maxlen attrs w.1)
  | inr t ↦ rw t (accepted-FitsWords len maxlen attrs w.1)
]

-- The message after: its end lies within the bound, and behind what stood before stand those that fit.
abbrev pub Built : Nlmsg → ℕ → ℕ → List Attr → List Attr → Nlmsg → Type 0
Built n maxlen i before attrs n' =
    IsMessage n'
    × (n'.nlmsg_len ≤ max n.nlmsg_len maxlen)
    × (n'.nlmsg_type ≡ n.nlmsg_type)
    × (n'.nlmsg_flags ≡ n.nlmsg_flags)
    × Holds n'.payload i (before ++ accepted n.nlmsg_len maxlen attrs) (n'.nlmsg_len - header_size)

add_all-Built :
    (n : Nlmsg) (maxlen i : ℕ) (before attrs : List Attr)
    → IsMessage n
    → maxlen ≤ header_size + length n.payload
    → All FitsWords attrs
    → Holds n.payload i before (n.nlmsg_len - header_size)
    → Returns (Built n maxlen i before attrs) (add_all n maxlen attrs)
unfolding add_all
add_all-Built n maxlen i before [] m l w h = (
  m,
  omega arith,
  refl,
  refl,
  subst (λ x. Holds n.payload i x (n.nlmsg_len - header_size)) (sym (append-nil before)) h,
)
add_all-Built n maxlen i before (a ∷ attrs) m l w h =
    Returns->>= (Added n maxlen a) _ _ _ (addattr_l-Added n maxlen a m l w.0) λ r d. elim d [
      | inl (big, e) ↦
          let z : leb (n.nlmsg_len + room a) maxlen ≡ false = ground (arith, big) in
          subst (λ k. Returns (Built n maxlen i before (a ∷ attrs)) (add_all k maxlen attrs))
            (sym (ap (λ q. q.1) e))
            (Returns-mono (Built n maxlen i before attrs) _ _ (λ k v. rw z v)
              (add_all-Built n maxlen i before attrs m l w.1 h))
      | inr (fits, (e, len, s, g, m'), p) ↦
          let z : leb (n.nlmsg_len + room a) maxlen ≡ true = ground (arith, fits) in
          let at : n.nlmsg_len - header_size + room a ≡ r.1.nlmsg_len - header_size =
            omega (arith, len, m.headed) in
          let h' =
            Holds-append r.1.payload i before (n.nlmsg_len - header_size) a
              (g.3 i before (n.nlmsg_len - header_size) (omega arith) h) s in
          Returns-mono (Built r.1 maxlen i (before ++ a ∷ []) attrs) _ _
            (λ k v. (
              v.0,
              omega (arith, v.1, len, fits),
              v.2 ∙ g.1,
              v.3 ∙ g.2,
              rw z (
                  subst (λ x. Holds k.payload i x (k.nlmsg_len - header_size))
                    (append_assoc before (a ∷ []) (accepted r.1.nlmsg_len maxlen attrs)
                      ∙ ap (λ x. before ++ a ∷ accepted x maxlen attrs) len)
                    v.4),
            ))
            (add_all-Built r.1 maxlen i (before ++ a ∷ []) attrs m' (omega (arith, g.0, l)) w.1
              (subst (Holds r.1.payload i (before ++ a ∷ [])) at h'))
    ]

-- Of the attributes that are put into a message with room up to `maxlen`, all within its memory, those
-- that fit are the ones that `parse_rtattr` finds behind what the message had before: it reads to the
-- message's end with nothing left over, and for each type up to `max` its table has the first of
-- them, with its data, and nothing where there is none. The end stays within the bound.
pub parse_rtattr-add_all :
    (n : Nlmsg) (maxlen max_type : ℕ) (attrs : List Attr)
    → IsMessage n
    → n.nlmsg_len ≤ maxlen
    → maxlen ≤ header_size + length n.payload
    → All FitsWords attrs
    → Returns
        (λ n'.
          (n'.nlmsg_len ≤ maxlen)
          × Returns
              (λ r.
                (r.1 ≡ pos 0)
                × ((t : ℕ)
                    → t ≤ max_type
                    → Finds max_type n'.payload (accepted n.nlmsg_len maxlen attrs) r.0 t))
              (parse_rtattr n'.payload max_type
                (n.nlmsg_len - header_size)
                (n'.nlmsg_len - n.nlmsg_len)))
        (add_all n maxlen attrs)
parse_rtattr-add_all n maxlen max_type attrs m b l w =
    let i = n.nlmsg_len - header_size in
    Returns-mono (Built n maxlen i [] attrs) _ _
      (λ n' v.
        let start = Holds-rooms n'.payload i (accepted n.nlmsg_len maxlen attrs) _ v.4 in
        let end : n'.nlmsg_len - header_size ≡ i + (n'.nlmsg_len - n.nlmsg_len) =
          omega (arith, start, m.headed, v.0.headed) in
        (
          omega (arith, v.1, b),
          parse_rtattr-Finds max_type n'.payload i (n'.nlmsg_len - n.nlmsg_len) _
              (accepted-FitsWords n.nlmsg_len maxlen attrs w)
              (subst (Holds n'.payload i (accepted n.nlmsg_len maxlen attrs)) end v.4),
        ))
      (add_all-Built n maxlen i [] attrs m l w refl)
