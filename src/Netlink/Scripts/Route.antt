-- ===== src/Netlink/Scripts/Route.antt =====
-- What `adddel_in6_route` of netlink_scripts/route/main.c sends.
use routerd.Prelude.{
  ℕ, ◌+◌, ◌-◌, ◌%◌, ◌^◌, ◌<◌, ◌≡◌, refl, subst, ap, ◌∙◌, List, [], ◌∷◌, some, Bool, length,
  length-append, replicate, length-replicate, set_bit, get_elem?, is_negative, Bool-cases, inl, inr,
  Returns, Returns->>=, if◌then◌else◌, arith,
}
use routerd.Netlink.Memory.{Wrote, write_at-Wrote}
use routerd.Netlink.Message.{header_size, Nlmsg}
use routerd.Netlink.Message.Attributes.{Attr, room, Holds-Wrote_before}
use routerd.Netlink.Message.Bounds.{GoesOn}
use routerd.Netlink.Message.Carries.{Carries, addattr_l-Carries, addattr_l-CarriesOn}
use routerd.Netlink.Scripts.{
  Uapi, Answers, Call, dump, send, recv, exit, wire, nl_talk, adddel_in6_route, rtmsg, route_size,
  route_start, route_request,
}

abbrev pub route_attrs : Uapi → List ℕ → List ℕ → List Attr
route_attrs u pref nh6 = (u.rta_dst, pref) ∷ (u.rta_gateway, nh6) ∷ []

-- The request: its length, its type, its attributes behind the twelve bytes of `struct rtmsg`, and the
-- length of the prefix among those.
abbrev pub IsRoute : Uapi → List ℕ → ℕ → List ℕ → Bool → Nlmsg → Type 0
IsRoute u pref plen nh6 install n =
    Carries 4108 (if install then u.rtm_newroute else u.rtm_delroute) u.request_flags 12
      (route_attrs u pref nh6) 68 n
    × (get_elem? n.payload 1 ≡ some (plen % 256))

start-Carries :
    (u : Uapi) (install : Bool) (plen : ℕ)
    → Carries 4108
        (if install then u.rtm_newroute else u.rtm_delroute)
        u.request_flags
        12
        []
        28
        (route_start u install plen)
start-Carries u install plen =
    let zeros : length (replicate {A = ℕ} 4096 0) ≡ 4096 = length-replicate {A = ℕ} 4096 0 in
    let l : length (route_start u install plen).payload ≡ 4108 =
      length-append (rtmsg u plen) (replicate 4096 0) ∙ ap (λ k. 12 + k) zeros in
    record {
      message = record {
        headed = omega arith;
        aligned = refl;
        within = omega (arith, l);
        small = omega (arith, l);
      };
      sized = l;
      typed = refl;
      flagged = refl;
      ends = refl;
      holds = refl;
    }

-- Setting the length of the prefix again.
prefix_set :
    {type flags len : ℕ} {attrs : List Attr} {n : Nlmsg}
    (c : Carries 4108 type flags 12 attrs len n) (mem bytes : List ℕ)
    → length bytes ≡ 1
    → Wrote n.payload 1 bytes mem
    → Carries 4108 type flags 12 attrs len (record n { payload = mem })
prefix_set {len = len} {attrs = attrs} {n = n} c mem bytes l w = record {
  message = record {
    headed = c.message.headed;
    aligned = c.message.aligned;
    within = omega (arith, c.message.within, w.0);
    small = omega (arith, c.message.small, w.0);
  };
  sized = w.0 ∙ c.sized;
  typed = c.typed;
  flagged = c.flagged;
  ends = c.ends;
  holds =
      Holds-Wrote_before n.payload mem 12 1 bytes attrs (len - header_size) (omega (arith, l)) w
        c.holds;
}

pub route_request-IsRoute :
    (u : Uapi) (pref nh6 : List ℕ) (plen : ℕ) (install : Bool)
    → u.rta_dst < 2 ^ 16
    → u.rta_gateway < 2 ^ 16
    → length pref ≡ 16
    → length nh6 ≡ 16
    → Returns (IsRoute u pref plen nh6 install) (route_request u pref plen nh6 install)
unfolding route_request
route_request-IsRoute u pref nh6 plen install f g p q =
    let kind : ℕ = if install then u.rtm_newroute else u.rtm_delroute in
    let dst : Attr = (u.rta_dst, pref) in
    let via : Attr = (u.rta_gateway, nh6) in
    let r1 : room dst ≡ 20 = omega (arith, p) in
    let r2 : room via ≡ 20 = omega (arith, q) in
    Returns->>= (λ a. Carries 4108 kind u.request_flags 12 (dst ∷ []) (28 + room dst) a.1) _ _ _
      (addattr_l-Carries (start-Carries u install plen) route_size dst (omega arith)
        (f, omega (arith, p)) (omega (arith, r1)))
      λ a wa.
        Returns->>= (Wrote a.1.payload 1 ((plen % 256) ∷ [])) _ _ _
          (write_at-Wrote a.1.payload 1 ((plen % 256) ∷ []) (omega (arith, wa.sized)))
          λ mem w.
            Returns->>=
              (λ b.
                Carries 4108 kind u.request_flags 12 (dst ∷ via ∷ []) (28 + room dst + room via) b.1
                × GoesOn (record a.1 { payload = mem }) b.1)
              _ _ _
              (addattr_l-CarriesOn (prefix_set wa mem ((plen % 256) ∷ []) refl w) route_size via
                (omega arith) (g, omega (arith, q)) (omega (arith, r1, r2)))
              λ b wb. (
                subst (λ x. Carries 4108 kind u.request_flags 12 (dst ∷ via ∷ []) x b.1)
                    (omega (arith, r1, r2)) wb.0,
                wb.1.4 1 (omega (arith, wa.ends)) ∙ w.1 0 (omega arith),
              )

abbrev pub acked : Uapi → Nlmsg → Nlmsg
acked u n = record n { nlmsg_flags = set_bit n.nlmsg_flags u.ack_bit }

-- What follows the sending.
abbrev pub after : Answers → ℕ → List Call
after k fd =
    if is_negative k.sent
    then exit ∷ []
    else if is_negative k.received
    then recv fd 10000 ∷ exit ∷ []
    else recv fd 10000 ∷ []

-- Whatever the kernel answers, the script for routes writes nothing outside its buffer. It dumps one
-- message of 68 bytes that makes or deletes a route, with the length of the prefix and with the prefix
-- and the gateway as its attributes, and sends it with the bit for an acknowledgement set; it ends with
-- exit where sending or receiving fails.
pub adddel_in6_route_lem :
    (u : Uapi) (k : Answers) (fd : ℕ) (pref nh6 : List ℕ) (plen : ℕ) (install : Bool)
    → u.rta_dst < 2 ^ 16
    → u.rta_gateway < 2 ^ 16
    → length pref ≡ 16
    → length nh6 ≡ 16
    → Returns
        (λ calls.
          (n : Nlmsg) × IsRoute u pref plen nh6 install n
          × (calls ≡ dump (wire n) ∷ send fd (wire (acked u n)) ∷ after k fd))
        (adddel_in6_route u k fd pref plen nh6 install)
unfolding adddel_in6_route nl_talk
adddel_in6_route_lem u k fd pref nh6 plen install f g p q =
    Returns->>= (IsRoute u pref plen nh6 install) _ _ _
      (route_request-IsRoute u pref nh6 plen install f g p q)
      λ n w. elim (Bool-cases (is_negative k.sent)) [
        | inl s ↦ rw s (n, w, refl)
        | inr s ↦ elim (Bool-cases (is_negative k.received)) [
          | inl e ↦ rw (s, e) (n, w, refl)
          | inr e ↦ rw (s, e) (n, w, refl)
        ]
      ]
