-- ===== src/VppCli/Interfaces/Rounds.antt =====
-- The rounds of the two loops of `show vpp interface` of src/vpp_cli.c.
use routerd.Prelude.{
  ℕ, zero, suc, ◌+◌, ◌%◌, ◌^◌, ◌≤◌, ◌<◌, ◌≡◌, refl, inl, inr, sym, ap, ◌∙◌, List, [], ◌∷◌, ◌++◌,
  Option, none, some, ◌>>=◌, Bool, true, false, Bool-cases, ◌==◌, ==_iff, ltb, lt→ltb, length,
  length-append, load, set, length-set, htonl, All, if◌then◌else◌, arith,
}
use routerd.Client.MessageId.{find_msg_id}
use routerd.Client.Names.{ip_address_dump_name}
use routerd.Client.Messages.{Daemon, post, dump_ipaddrs}
use routerd.VppCli.State.{InterfaceDetails, AddressDetails, interface_details, address_details}
use routerd.VppCli.State.Loop.{fold_left}
use routerd.VppCli.Interfaces.{InterfaceInfo, no_details, Noting, note_interface, note_address}
use routerd.VppCli.Interfaces.Views.{last_of, seen, seen_at, seen_at-set, All-set, All-load}

abbrev pub or_same : Daemon → Option Daemon → Daemon
or_same rm none = rm
or_same rm (some r) = r

asks :
    (rm : Daemon) (id i : ℕ) (b : Bool) (v : ℕ)
    → find_msg_id rm.table ip_address_dump_name ≡ some v
    → (dump_ipaddrs rm id i b ≡ some (or_same rm (dump_ipaddrs rm id i b)))
      × ((or_same rm (dump_ipaddrs rm id i b)).table ≡ rm.table)
unfolding dump_ipaddrs post
asks rm id i b v e = rw e (refl, refl)

abbrev pub info_at : List InterfaceInfo → ℕ → InterfaceInfo
info_at infos i = elim (load infos i) [
  | none ↦ record { enable = false; link = no_details; addrs = [] }
  | some info ↦ info
]

abbrev pub or_else : Option InterfaceDetails → Option InterfaceDetails → Option InterfaceDetails
or_else none o = o
or_else (some d) o = some d

pub or_none : (o : Option InterfaceDetails) → or_else o none ≡ o
or_none none = refl
or_none (some d) = refl

or_last :
    (last : Option InterfaceDetails) (b : Bool) (d : InterfaceDetails) (o : Option InterfaceDetails)
    → or_else last (if b then some d else o)
      ≡ or_else (elim last [ some e ↦ some e | none ↦ if b then some d else none ]) o
or_last none true d o = refl
or_last none false d o = refl
or_last (some e) b d o = refl

module _ (random : ℕ → ℕ) where
  -- One round of the first loop, where the interface is in the table.
  abbrev pub noted : Noting → InterfaceDetails → Noting
  noted s d =
      let i = htonl d.sw_if_index in
      let one = or_same s.1 (dump_ipaddrs s.1 (random s.2 % 2 ^ 32) i false) in
      (
        set s.0 i (record (info_at s.0 i) { enable = true; link = d }),
        or_same one (dump_ipaddrs one (random (s.2 + 1) % 2 ^ 32) i true),
        s.2 + 2,
      )

  abbrev pub Ready : List (List ℕ × ℕ) → Noting → Type 0
  Ready table s = (length s.0 ≡ 256) × (s.1.table ≡ table) × All (λ info. length info.addrs ≡ 0) s.0

  pub note_interface-noted :
      (table : List (List ℕ × ℕ)) (v : ℕ) (s : Noting) (d : InterfaceDetails) (info : InterfaceInfo)
      → find_msg_id table ip_address_dump_name ≡ some v
      → Ready table s
      → load s.0 (htonl d.sw_if_index) ≡ some info
      → (note_interface random s (interface_details d) ≡ some (noted s d)) × Ready table (noted s d)
  unfolding note_interface
  note_interface-noted table v s d info e r at =
      let i = htonl d.sw_if_index in
      let e1 : find_msg_id s.1.table ip_address_dump_name ≡ some v = rw r.1 e in
      let (a1, t1) = asks s.1 (random s.2 % 2 ^ 32) i false v e1 in
      let one = or_same s.1 (dump_ipaddrs s.1 (random s.2 % 2 ^ 32) i false) in
      let e2 : find_msg_id one.table ip_address_dump_name ≡ some v = rw (t1, r.1) e in
      let (a2, t2) = asks one (random (s.2 + 1) % 2 ^ 32) i true v e2 in
      let new : InterfaceInfo = record info { enable = true; link = d } in
      let second : Daemon → Option Noting = λ asked.
        dump_ipaddrs asked (random (s.2 + 1) % 2 ^ 32) i true >>= λ asked'.
        some (set s.0 i new, asked', s.2 + 2) in
      let third : Daemon → Option Noting = λ asked'. some (set s.0 i new, asked', s.2 + 2) in
      let empty : length info.addrs ≡ 0 = All-load (λ x. length x.addrs ≡ 0) s.0 i info r.2 at in
      let same : info_at s.0 i ≡ info = rw (at, info_at) refl in
      let run : note_interface random s (interface_details d)
          ≡ some (
            set s.0 i new,
            or_same one (dump_ipaddrs one (random (s.2 + 1) % 2 ^ 32) i true),
            s.2 + 2,
          ) =
        rw at (ap (λ o. o >>= second) a1 ∙ ap (λ o. o >>= third) a2) in
      (
        run
            ∙ ap
                (λ (x : InterfaceInfo). some (
                  set s.0 i (record x { enable = true; link = d }),
                  or_same one (dump_ipaddrs one (random (s.2 + 1) % 2 ^ 32) i true),
                  s.2 + 2,
                ))
                (sym same),
        (
          length-set s.0 i _ ∙ r.0,
          t2 ∙ t1 ∙ r.1,
          All-set (λ x. length x.addrs ≡ 0) s.0 i _ r.2 (rw same empty),
        ),
      )

  -- What is seen after the first loop.
  pub seen-noted :
      (s : Noting) (ds : List InterfaceDetails) (k : ℕ)
      → length s.0 ≡ 256
      → All (λ d. htonl d.sw_if_index < 256) ds
      → seen_at (fold_left noted s ds).0 k ≡ or_else (last_of ds k) (seen_at s.0 k)
  seen-noted s [] k l a = refl
  seen-noted s (d ∷ ds) k l a =
      let i = htonl d.sw_if_index in
      let new : InterfaceInfo = record (info_at s.0 i) { enable = true; link = d } in
      seen-noted (noted s d) ds k (length-set s.0 i new ∙ l) a.1
      ∙ ap (or_else (last_of ds k)) (seen_at-set s.0 i k new (omega (arith, l, a.0)))
      ∙ or_last (last_of ds k) (i == k) d (seen_at s.0 k)

-- One round of the second loop.
abbrev pub addressed : List InterfaceInfo → AddressDetails → List InterfaceInfo
addressed infos d =
    let i = htonl d.sw_if_index in
    let info = info_at infos i in set infos i (record info { addrs = info.addrs ++ d ∷ [] })

-- There is room for the addresses that are left.
abbrev pub Room : List AddressDetails → List InterfaceInfo → Type 0
Room ds infos = (length infos ≡ 256) × All (λ info. length info.addrs + length ds ≤ 256) infos

Room-less :
    (n : ℕ) (infos : List InterfaceInfo)
    → All (λ info. length info.addrs + suc n ≤ 256) infos
    → All (λ info. length info.addrs + n ≤ 256) infos
Room-less n [] a = tt
Room-less n (x ∷ infos) a = (omega (arith, a.0), Room-less n infos a.1)

pub note_address-addressed :
    (infos : List InterfaceInfo) (d : AddressDetails) (ds : List AddressDetails)
    (info : InterfaceInfo)
    → Room (d ∷ ds) infos
    → load infos (htonl d.sw_if_index) ≡ some info
    → (note_address infos (address_details d) ≡ some (addressed infos d))
      × Room ds (addressed infos d)
unfolding note_address
note_address-addressed infos d ds info r at =
    let i = htonl d.sw_if_index in
    let same : info_at infos i ≡ info = rw (at, info_at) refl in
    let some_room : length info.addrs + suc (length ds) ≤ 256 =
      All-load (λ x. length x.addrs + suc (length ds) ≤ 256) infos i info r.1 at in
    let t : ltb (length info.addrs) 256 ≡ true = lt→ltb _ _ (omega (arith, some_room)) in
    (
      rw (at, ◌>>=◌, t)
          (ap (λ (x : InterfaceInfo). some (set infos i (record x { addrs = x.addrs ++ d ∷ [] })))
            (sym same)),
      (
        length-set infos i _ ∙ r.0,
        All-set (λ x. length x.addrs + length ds ≤ 256) infos i _ (Room-less (length ds) infos r.1)
            (rw same (omega (arith, length-append info.addrs (d ∷ []), some_room))),
      ),
    )

pub length-addressed :
    (infos : List InterfaceInfo) (ds : List AddressDetails)
    → length (fold_left addressed infos ds) ≡ length infos
length-addressed infos [] = refl
length-addressed infos (d ∷ ds) =
    length-addressed (addressed infos d) ds ∙ length-set infos (htonl d.sw_if_index) _

seen-info_at :
    (infos : List InterfaceInfo) (i : ℕ)
    → i < length infos
    → seen (info_at infos i) ≡ seen_at infos i
seen-info_at [] i h = elim h [ ]
seen-info_at (x ∷ infos) zero h = refl
seen-info_at (x ∷ infos) (suc i) h = seen-info_at infos i (omega (arith, h))

pub seen-addressed :
    (infos : List InterfaceInfo) (ds : List AddressDetails) (k : ℕ)
    → length infos ≡ 256
    → All (λ d. htonl d.sw_if_index < 256) ds
    → seen_at (fold_left addressed infos ds) k ≡ seen_at infos k
seen-addressed infos [] k l a = refl
seen-addressed infos (d ∷ ds) k l a =
    let i = htonl d.sw_if_index in
    let new : InterfaceInfo =
      let old = info_at infos i in record old { addrs = old.addrs ++ d ∷ [] } in
    seen-addressed (addressed infos d) ds k (length-set infos i new ∙ l) a.1
    ∙ seen_at-set infos i k new (omega (arith, l, a.0))
    ∙ elim (Bool-cases (i == k)) [
      | inl t ↦
          let same : i ≡ k = (==_iff i k).0 t in
          rw t (seen-info_at infos i (omega (arith, l, a.0)) ∙ ap (seen_at infos) same)
      | inr t ↦ rw t refl
    ]
