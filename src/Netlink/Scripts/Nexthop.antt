-- ===== src/Netlink/Scripts/Nexthop.antt =====
-- What `adddel_nexthop` of netlink_scripts/nexthop/main.c sends.
use routerd.Prelude.{
  ℕ, ◌+◌, ◌-◌, ◌*◌, ◌/◌, ◌%◌, ◌^◌, ◌≤◌, ◌<◌, ◌≡◌, ◌⊎◌, refl, ap, ap₂, ◌∙◌, List, [], ◌∷◌, ◌++◌,
  Bool, length, length-append, replicate, length-replicate, take, set_bit, ℤ, pos, negsuc,
  is_negative, Bool-cases, inl, inr, true, false, Returns, Returns->>=, if◌then◌else◌, arith,
}
use routerd.Netlink.Memory.{bytes16, bytes32, write_at, read16}
use routerd.Netlink.Message.{
  rta_size, rta_header, Nlmsg, addattr16, addattr32, rta_nest, rta_addattr_l, rta_addattr32,
  rta_nest_end,
}
use routerd.Netlink.Message.Attributes.{Attr}
use routerd.Netlink.Message.Carries.{Carries, addattr_l-Carries, addraw_l-Carries}
use routerd.Netlink.Scripts.{
  Uapi, Answers, Call, dump, send, recv, exit, wire, nl_talk, adddel_nexthop, nest_size,
  nested_action, nhmsg, nexthop_size, nexthop_start, nexthop_request,
}

-- The bytes of the nest: its words, with the bit set, and the action in it.
abbrev pub nest_bytes : Uapi → List ℕ
nest_bytes u =
    rta_header (set_bit u.nha_encap 15) 12
    ++ rta_header u.seg6_local_action 8
    ++ bytes32 u.seg6_local_action_end

bytes16_mod : (y : ℕ) → bytes16 y ≡ bytes16 (y % 2 ^ 16)
bytes16_mod y =
    let a : y % 256 ≡ y % 2 ^ 16 % 256 = omega arith in
    let b : y / 256 % 256 ≡ y % 2 ^ 16 / 256 % 256 = omega arith in
    ap₂ (λ (p q : ℕ). p ∷ q ∷ []) a b

nested_action_lem :
    (u : Uapi) (rest : List ℕ)
    → 12 ≤ length rest
    → u.nha_encap < 2 ^ 16
    → Returns (λ r. (r.rta_len ≡ 16) × (take 12 r.rta_data ≡ nest_bytes u)) (nested_action u rest)
unfolding nested_action rta_nest rta_addattr_l rta_addattr32 rta_nest_end write_at read16
nested_action_lem u (a ∷ b ∷ c ∷ d ∷ e ∷ f ∷ g ∷ h ∷ i ∷ j ∷ k ∷ l ∷ rest) n w =
    let x : u.nha_encap % 65536 % 256 + 256 * (u.nha_encap % 65536 / 256 % 256) ≡ u.nha_encap =
      omega (arith, w) in
    rw x (
      refl,
      ap (λ p. 12 ∷ 0 ∷ (p ++ rta_header u.seg6_local_action 8 ++ bytes32 u.seg6_local_action_end))
          (bytes16_mod (set_bit u.nha_encap 15)),
    )
nested_action_lem u _ n w = absurd (omega (arith, n))

-- The attributes of the request, in order.
abbrev pub nexthop_attrs : Uapi → ℕ → ℕ → List Attr
nexthop_attrs u oif_idx nh_id =
    (u.nha_oif, bytes32 oif_idx)
    ∷ (u.nha_id, bytes32 nh_id)
    ∷ (set_bit u.nha_encap 15, rta_header u.seg6_local_action 8 ++ bytes32 u.seg6_local_action_end)
    ∷ (u.nha_encap_type, bytes16 u.lwtunnel_encap_seg6_local)
    ∷ []

-- The request: its length, its type, and its attributes behind the eight bytes of `struct nhmsg`.
abbrev pub IsNexthop : Uapi → ℕ → ℕ → Bool → Nlmsg → Type 0
IsNexthop u oif_idx nh_id install =
    Carries 4104 (if install then u.rtm_newnexthop else u.rtm_delnexthop) u.request_flags 8
      (nexthop_attrs u oif_idx nh_id) 60

-- The words of the kernel's headers are words of 16 bits, and the encapsulation leaves the bit free.
pub record NexthopWords (u : Uapi) : Type 0 where
  pub oif_fits : u.nha_oif < 2 ^ 16
  pub id_fits : u.nha_id < 2 ^ 16
  pub encap_fits : u.nha_encap < 2 ^ 15
  pub encap_type_fits : u.nha_encap_type < 2 ^ 16

start-Carries :
    (u : Uapi) (install : Bool)
    → Carries 4104
        (if install then u.rtm_newnexthop else u.rtm_delnexthop)
        u.request_flags
        8
        []
        24
        (nexthop_start u install)
start-Carries u install =
    let zeros : length (replicate {A = ℕ} 4096 0) ≡ 4096 = length-replicate {A = ℕ} 4096 0 in
    let l : length (nexthop_start u install).payload ≡ 4104 =
      length-append nhmsg (replicate 4096 0) ∙ ap (λ k. 8 + k) zeros in
    record {
      message = record {
        headed = omega arith;
        aligned = refl;
        within = omega (arith, l);
        small = omega (arith, l);
      };
      sized = l;
      typed = refl;
      flagged = refl;
      ends = refl;
      holds = refl;
    }

pub nexthop_request-IsNexthop :
    (u : Uapi) (rest : List ℕ) (oif_idx nh_id : ℕ) (install : Bool)
    → NexthopWords u
    → length rest ≡ 1020
    → Returns (IsNexthop u oif_idx nh_id install) (nexthop_request u rest oif_idx nh_id install)
unfolding nexthop_request addattr32 addattr16
nexthop_request-IsNexthop u rest oif_idx nh_id install f r =
    let kind : ℕ = if install then u.rtm_newnexthop else u.rtm_delnexthop in
    let oif : Attr = (u.nha_oif, bytes32 oif_idx) in
    let id : Attr = (u.nha_id, bytes32 nh_id) in
    let encap : Attr = (
      set_bit u.nha_encap 15,
      rta_header u.seg6_local_action 8 ++ bytes32 u.seg6_local_action_end,
    ) in
    let last : Attr = (u.nha_encap_type, bytes16 u.lwtunnel_encap_seg6_local) in
    Returns->>= (λ a. Carries 4104 kind u.request_flags 8 (oif ∷ []) 32 a.1) _ _ _
      (addattr_l-Carries (start-Carries u install) nexthop_size oif (omega arith)
        (f.oif_fits, omega arith) (omega arith))
      λ a wa.
        Returns->>= (λ b. Carries 4104 kind u.request_flags 8 (oif ∷ id ∷ []) 40 b.1) _ _ _
          (addattr_l-Carries wa nexthop_size id (omega arith) (f.id_fits, omega arith)
            (omega arith))
          λ b wb.
            Returns->>= (λ k. (k.rta_len ≡ 16) × (take 12 k.rta_data ≡ nest_bytes u)) _ _ _
              (nested_action_lem u rest (omega (arith, r)) (omega (arith, f.encap_fits)))
              λ k wk.
                let piece : take (k.rta_len - rta_size) k.rta_data ≡ nest_bytes u =
                  ap (λ x. take (x - rta_size) k.rta_data) wk.0 ∙ wk.1 in
                rw piece (
                  Returns->>=
                    (λ c. Carries 4104 kind u.request_flags 8 (oif ∷ id ∷ encap ∷ []) 52 c.1) _ _ _
                    (addraw_l-Carries wb nest_size encap (omega arith) (omega arith))
                    λ c wc.
                      Returns->>=
                        (λ d.
                          Carries 4104 kind u.request_flags 8 (oif ∷ id ∷ encap ∷ last ∷ []) 60 d.1)
                        _ _ _
                        (addattr_l-Carries wc nexthop_size last (omega arith)
                          (f.encap_type_fits, omega arith) (omega arith))
                        λ d wd. wd)

ℤ-cases : (z : ℤ) → ((m : ℕ) × (z ≡ pos m)) ⊎ ((m : ℕ) × (z ≡ negsuc m))
ℤ-cases (pos m) = inl (m, refl)
ℤ-cases (negsuc m) = inr (m, refl)

-- What follows the sending, by the kernel's answers.
abbrev pub Answered : Answers → ℕ → ℕ → List Call → Type 0
Answered k fd size calls =
    (is_negative k.sent ≡ true) × (calls ≡ exit ∷ [])
    ⊎ (is_negative k.sent ≡ false)
      × (is_negative k.received ≡ true)
      × (calls ≡ recv fd size ∷ exit ∷ [])
    ⊎ (m : ℕ) × (is_negative k.sent ≡ false)
      × (k.received ≡ pos m)
      × (calls ≡ recv fd size ∷ dump (take m k.answer) ∷ [])

-- Whatever the buffer of the nest held and whatever the kernel answers, the script for nexthops writes
-- nothing outside its buffers. It dumps and sends one message of 60 bytes that makes or deletes a
-- nexthop and whose attributes are the interface, the number of the nexthop, the nest with its one
-- action, and the kind of the encapsulation. It ends with exit where sending or receiving fails, and
-- else dumps as many bytes of the answer as were received.
pub adddel_nexthop_lem :
    (u : Uapi) (k : Answers) (rest : List ℕ) (fd oif_idx nh_id : ℕ) (install : Bool)
    → NexthopWords u
    → length rest ≡ 1020
    → Returns
        (λ calls.
          (n : Nlmsg) × (after : List Call) × IsNexthop u oif_idx nh_id install n
          × (calls ≡ dump (wire n) ∷ send fd (wire n) ∷ after)
          × Answered k fd 1000 after)
        (adddel_nexthop u k rest fd oif_idx nh_id install)
unfolding adddel_nexthop nl_talk
adddel_nexthop_lem u k rest fd oif_idx nh_id install f r =
    Returns->>= (IsNexthop u oif_idx nh_id install) _ _ _
      (nexthop_request-IsNexthop u rest oif_idx nh_id install f r)
      λ n w. elim (Bool-cases (is_negative k.sent)) [
        | inl s ↦ rw s (n, exit ∷ [], w, refl, inl (refl, refl))
        | inr s ↦ elim (ℤ-cases k.received) [
          | inl (m, e) ↦
              rw (s, e)
                (
                  n,
                  recv fd 1000 ∷ dump (take m k.answer) ∷ [],
                  w,
                  refl,
                  inr (inr (m, refl, refl, refl)),
                )
          | inr (m, e) ↦
              rw (s, e) (n, recv fd 1000 ∷ exit ∷ [], w, refl, inr (inl (refl, refl, refl)))
        ]
      ]
