-- ===== src/Netlink/Main/Ends.antt =====
-- How the netlink scripts end.
use routerd.Prelude.{
  ℕ, ◌^◌, ◌<◌, ◌≡◌, ◌⊎◌, refl, sym, ap, ◌∙◌, subst, append_assoc, take, inl, inr, List, [], ◌∷◌,
  ◌++◌, Bool-cases, true, length, ℤ, pos, negsuc, is_negative, Returns, Returns->>=,
}
use routerd.Netlink.Message.{Nlmsg}
use routerd.Netlink.Scripts.{Uapi, Answers, Call, dump, send, recv, exit, wire}
use routerd.Netlink.Scripts.Nexthop.{IsNexthop, Answered, NexthopWords, adddel_nexthop_lem}
use routerd.Netlink.Scripts.Route.{IsRoute, acked, after, adddel_in6_route_lem}
use routerd.Netlink.Main.{
  MainCall, open_socket, exit_main, set_ext_ack, close, script, and_close, nexthop_main, route_main,
}

-- The calls end with the closing of the socket, or with the end of the process; nothing stands behind.
abbrev pub EndsWell : List MainCall → Type 0
EndsWell cs =
    (before : List MainCall) × ((cs ≡ before ++ exit_main ∷ [])
      ⊎ (cs ≡ before ++ script exit ∷ [])
      ⊎ ((fd : ℕ) × (cs ≡ before ++ close fd ∷ [])))

-- What the kernel's answers leave of a request: the end of the process, or more calls and no end.
abbrev Closes : ℕ → List Call → Type 0
Closes fd cs =
    (before : List MainCall) × ((and_close fd cs ≡ before ++ script exit ∷ [])
      ⊎ (and_close fd cs ≡ before ++ close fd ∷ []))

Answered-Closes :
    (k : Answers) (fd size : ℕ) (d s : List ℕ) (cs : List Call)
    → Answered k fd size cs
    → Closes fd (dump d ∷ send fd s ∷ cs)
Answered-Closes k fd size d s cs (inl (n, e)) =
    rw e (script (dump d) ∷ script (send fd s) ∷ [], inl refl)
Answered-Closes k fd size d s cs (inr (inl (n, r, e))) =
    rw e (script (dump d) ∷ script (send fd s) ∷ script (recv fd size) ∷ [], inl refl)
Answered-Closes k fd size d s cs (inr (inr (n, m, r, e))) = rw e (
  script (dump d)
      ∷ script (send fd s)
      ∷ script (recv fd size)
      ∷ script (dump (take n k.answer))
      ∷ [],
  inr refl,
)

after-Closes : (k : Answers) (fd : ℕ) (d s : List ℕ) → Closes fd (dump d ∷ send fd s ∷ after k fd)
after-Closes k fd d s = elim (Bool-cases (is_negative k.sent)) [
  | inl t ↦ rw t (script (dump d) ∷ script (send fd s) ∷ [], inl refl)
  | inr t ↦ elim (Bool-cases (is_negative k.received)) [
    | inl r ↦
        rw (t, r) (script (dump d) ∷ script (send fd s) ∷ script (recv fd 10000) ∷ [], inl refl)
    | inr r ↦
        rw (t, r) (script (dump d) ∷ script (send fd s) ∷ script (recv fd 10000) ∷ [], inr refl)
  ]
]

Closes-EndsWell :
    (fd : ℕ) (first : List MainCall) (cs : List Call)
    → Closes fd cs
    → EndsWell (first ++ and_close fd cs)
Closes-EndsWell fd first cs (before, c) = (
  first ++ before,
  elim c [
    | inl e ↦
        inr (inl (ap (λ x. first ++ x) e ∙ sym (append_assoc first before (script exit ∷ []))))
    | inr e ↦
        inr (inr (fd, ap (λ x. first ++ x) e ∙ sym (append_assoc first before (close fd ∷ []))))
  ],
)

-- Whatever the kernel answers, the script for nexthops ends by closing its socket, or with the process,
-- and then it makes no further call.
pub nexthop_main-EndsWell :
    (u : Uapi) (k : Answers) (rest : List ℕ) (socket one_set : ℤ)
    → NexthopWords u
    → length rest ≡ 1020
    → Returns EndsWell (nexthop_main u k rest socket one_set)
unfolding nexthop_main
nexthop_main-EndsWell u k rest (negsuc n) one_set w l = (open_socket ∷ [], inl refl)
nexthop_main-EndsWell u k rest (pos fd) one_set w l = elim (Bool-cases (is_negative one_set)) [
  | inl t ↦ rw t (open_socket ∷ set_ext_ack fd ∷ [], inl refl)
  | inr t ↦ rw t (
      Returns->>=
        (λ calls.
          (n : Nlmsg) × (more : List Call) × IsNexthop u 4 22 true n
          × (calls ≡ dump (wire n) ∷ send fd (wire n) ∷ more)
          × Answered k fd 1000 more)
        EndsWell _ _ (adddel_nexthop_lem u k rest fd 4 22 true w l)
        λ cs (n, more, i, e, a).
          Closes-EndsWell fd (open_socket ∷ set_ext_ack fd ∷ []) cs
            (subst (Closes fd) (sym e) (Answered-Closes k fd 1000 (wire n) (wire n) more a)))
]

-- The same of the script for routes.
pub route_main-EndsWell :
    (u : Uapi) (k : Answers) (pref nh6 : List ℕ) (socket : ℤ)
    → u.rta_dst < 2 ^ 16
    → u.rta_gateway < 2 ^ 16
    → length pref ≡ 16
    → length nh6 ≡ 16
    → Returns EndsWell (route_main u k pref nh6 socket)
unfolding route_main
route_main-EndsWell u k pref nh6 (negsuc n) f g p q = (open_socket ∷ [], inl refl)
route_main-EndsWell u k pref nh6 (pos fd) f g p q =
    Returns->>=
      (λ calls.
        (n : Nlmsg) × IsRoute u pref 128 nh6 true n
        × (calls ≡ dump (wire n) ∷ send fd (wire (acked u n)) ∷ after k fd))
      EndsWell _ _ (adddel_in6_route_lem u k fd pref nh6 128 true f g p q)
      λ cs (n, i, e).
        Closes-EndsWell fd (open_socket ∷ []) cs
          (subst (Closes fd) (sym e) (after-Closes k fd (wire n) (wire (acked u n))))
