-- ===== src/VppCli/Interfaces/Shown.antt =====
-- What `show vpp interface` of src/vpp_cli.c shows.
use routerd.Prelude.{
  ℕ, ◌+◌, ◌%◌, ◌^◌, ◌≤◌, ◌<◌, ◌≡◌, ◌≢◌, refl, sym, ap, ap₂, ◌∙◌, subst, List, [], ◌∷◌, ◌++◌, none,
  some, ◌>>=◌, Bool, true, false, length, length-replicate, htonl, is_negative, All, Returns,
  Returns->>=, arith,
}
use routerd.Client.MessageId.{find_msg_id}
use routerd.Client.Names.{
  control_ping_name, control_ping_reply_name, sw_interface_dump_name, ip_address_dump_name,
}
use routerd.Client.Messages.{Daemon, post, dump_ifcs, send_ping}
use routerd.VppCli.State.{
  InterfaceDetails, AddressDetails, interface_details, address_details, Msg, blank, connect,
  disconnect, out, success, Outcome, outcome, Link, until_pong,
}
use routerd.VppCli.State.Loop.{
  pong_msg, fold_left, msgs_of, joined, connecting-Returns, until_pong-fold,
}
use routerd.VppCli.Interfaces.{
  InterfaceInfo, no_details, no_interfaces, Noting, note_interface, note_address, show_interfaces,
  show_vpp_interface,
}
use routerd.VppCli.Interfaces.Views.{
  last_of, lines_from, seen_at, shown_lines, seen_at-load, All-replicate, seen_at-replicate,
}
use routerd.VppCli.Interfaces.Rounds.{
  or_else, or_none, noted, Ready, note_interface-noted, seen-noted, addressed, Room,
  note_address-addressed, length-addressed, seen-addressed,
}

-- What the daemon's table of messages has to know.
pub record KnowsInterfaces (table : List (List ℕ × ℕ)) (number number' pong_id : ℕ) : Type 0 where
  pub dump_id : (v : ℕ) × (find_msg_id table sw_interface_dump_name ≡ some v)
  pub address_id : (v : ℕ) × (find_msg_id table ip_address_dump_name ≡ some v)
  pub ping_id : (v : ℕ) × (find_msg_id table control_ping_name ≡ some v)
  pub reply_id : find_msg_id table control_ping_reply_name ≡ some pong_id
  pub reply_word : pong_id < 2 ^ 16
  pub number_word : (number < 2 ^ 16) × (number' < 2 ^ 16)
  pub differ : (number ≢ pong_id) × (number' ≢ pong_id)

no_interfaces-Ready :
    (length no_interfaces ≡ 256)
    × All (λ info. length info.addrs ≡ 0) no_interfaces
    × ((k : ℕ) → seen_at no_interfaces k ≡ none)
unfolding no_interfaces
no_interfaces-Ready =
    let none_yet : InterfaceInfo = record { enable = false; link = no_details; addrs = [] } in
    (
      length-replicate 256 none_yet,
      All-replicate (λ info. length info.addrs ≡ 0) 256 none_yet refl,
      λ k. seen_at-replicate 256 k none_yet refl,
    )

All-room :
    (n : ℕ) (infos : List InterfaceInfo)
    → n ≤ 256
    → All (λ info. length info.addrs ≡ 0) infos
    → All (λ info. length info.addrs + n ≤ 256) infos
All-room n [] l a = tt
All-room n (x ∷ infos) l a = (omega (arith, l, a.0), All-room n infos l a.1)

send_ping-table :
    (rm : Daemon) (id v : ℕ)
    → find_msg_id rm.table control_ping_name ≡ some v
    → Returns (λ r. r.table ≡ rm.table) (send_ping rm id)
unfolding send_ping post
send_ping-table rm id v e = rw e refl

dump_ifcs-table :
    (rm : Daemon) (id v : ℕ)
    → find_msg_id rm.table sw_interface_dump_name ≡ some v
    → Returns (λ r. r.table ≡ rm.table) (dump_ifcs rm id)
unfolding dump_ifcs post
dump_ifcs-table rm id v e = rw e refl

-- What the command does behind its connection.
abbrev Shows : List InterfaceDetails → Outcome → Type 0
Shows ds o = (o.code ≡ success) × (o.calls ≡ disconnect ∷ out blank ∷ lines_from 256 0 (last_of ds))

module _ {number number' pong_id : ℕ} {table : List (List ℕ × ℕ)}
    (k : KnowsInterfaces table number number' pong_id) where
  first_loop :
      (random : ℕ → ℕ) (s : Noting) (ds : List InterfaceDetails) (early : List Msg)
      → Ready random table s
      → All (λ d. htonl d.sw_if_index < 256) ds
      → (until_pong table
            (note_interface random)
            s
            (msgs_of interface_details number ds ++ pong_msg pong_id ∷ early)
          ≡ some (fold_left (noted random) s ds, true, early))
        × Ready random table (fold_left (noted random) s ds)
  first_loop random s ds early r a =
      until_pong-fold interface_details table (note_interface random) (noted random)
        (λ d. htonl d.sw_if_index < 256) (λ ds s. Ready random table s) number pong_id k.reply_id
        k.reply_word k.number_word.0 k.differ.0
        (λ s d ds r l.
          let (info, at, e) = seen_at-load s.0 (htonl d.sw_if_index) (omega (arith, l, r.0)) in
          note_interface-noted random table k.address_id.0 s d info k.address_id.1 r at)
        s ds early r a

  second_loop :
      (infos : List InterfaceInfo) (addrs : List AddressDetails) (rest : List Msg)
      → Room addrs infos
      → All (λ d. htonl d.sw_if_index < 256) addrs
      → until_pong table note_address infos
          (msgs_of address_details number' addrs ++ pong_msg pong_id ∷ rest)
        ≡ some (fold_left addressed infos addrs, true, rest)
  second_loop infos addrs rest r a =
      (until_pong-fold address_details table note_address addressed (λ d. htonl d.sw_if_index < 256)
        Room number' pong_id k.reply_id k.reply_word k.number_word.1 k.differ.1
        (λ s d ds r l.
          let (info, at, e) = seen_at-load s (htonl d.sw_if_index) (omega (arith, l, r.0)) in
          note_address-addressed s d ds info r at)
        infos addrs rest r a).0

  -- The command from the second ping on.
  second_half :
      (ds : List InterfaceDetails) (s : Noting) (id : ℕ) (addrs : List AddressDetails)
      (msgs rest : List Msg)
      → s.1.table ≡ table
      → Room addrs s.0
      → ((j : ℕ) → seen_at s.0 j ≡ last_of ds j)
      → msgs ≡ msgs_of address_details number' addrs ++ pong_msg pong_id ∷ rest
      → All (λ d. htonl d.sw_if_index < 256) addrs
      → Returns (Shows ds) (
          send_ping s.1 id >>= λ sent. until_pong sent.table note_address s.0 msgs >>= λ q.
          some (outcome success sent (disconnect ∷ out blank ∷ show_interfaces q.0)))
  second_half ds s id addrs msgs rest t r v e a =
      Returns->>= (λ x. x.table ≡ s.1.table) (Shows ds) _ _
        (send_ping-table s.1 id k.ping_id.0 (rw t k.ping_id.1))
        λ sent t'.
          let infos = fold_left addressed s.0 addrs in
          let run : until_pong sent.table note_address s.0 msgs ≡ some (infos, true, rest) =
            rw (t', t, e) (second_loop s.0 addrs rest r a) in
          let lines : show_interfaces infos ≡ lines_from 256 0 (last_of ds) =
            shown_lines infos 0 (last_of ds) (λ j l.
              let z : 0 + j ≡ j = omega arith in
              seen-addressed s.0 addrs j r.0 a ∙ v j ∙ ap (last_of ds) (sym z))
            ∙ ap (λ n. lines_from n 0 (last_of ds)) (length-addressed s.0 addrs ∙ r.0) in
          rw run (refl, ap (λ l. disconnect ∷ out blank ∷ l) lines)

-- Where VPP answers about interfaces of numbers below 256, then the ping, then about at most 256
-- addresses of such interfaces, then the second ping, the command makes no access out of bounds,
-- succeeds and closes its connection once. It prints a line for each interface that VPP told of, in
-- the order of their numbers, by the last that was told, and no other line.
pub show_vpp_interface_lem :
    (link : Link) (random : ℕ → ℕ) (rm : Daemon) (number number' pong_id : ℕ)
    (ds : List InterfaceDetails) (addrs : List AddressDetails) (early rest : List Msg)
    → KnowsInterfaces rm.table number number' pong_id
    → is_negative link.connected ≡ false
    → link.arrive ≡ msgs_of interface_details number ds ++ pong_msg pong_id ∷ early
    → early ++ link.later ≡ msgs_of address_details number' addrs ++ pong_msg pong_id ∷ rest
    → All (λ d. htonl d.sw_if_index < 256) ds
    → All (λ d. htonl d.sw_if_index < 256) addrs
    → length addrs ≤ 256
    → Returns
        (λ o.
          (o.code ≡ success)
          × (o.calls ≡ connect true true ∷ disconnect ∷ out blank ∷ lines_from 256 0 (last_of ds)))
        (show_vpp_interface link random rm)
unfolding show_vpp_interface
show_vpp_interface_lem link random rm number number' pong_id ds addrs early rest k c arr arr' a a'
      m =
    let table = rm.table in
    let start : List InterfaceDetails → Daemon → Noting =
      λ ds pinged. fold_left (noted random) (no_interfaces, pinged, 2) ds in
    connecting-Returns link true rm _ (Shows ds) _ c
      (Returns->>= (λ r. r.table ≡ table) (Shows ds) _ _
        (dump_ifcs-table (joined link rm) (random 0 % 2 ^ 32) k.dump_id.0 k.dump_id.1)
        λ dumped t1.
          Returns->>= (λ r. r.table ≡ dumped.table) (Shows ds) _ _
            (send_ping-table dumped (random 1 % 2 ^ 32) k.ping_id.0 (rw t1 k.ping_id.1))
            λ pinged t2.
              let t = t2 ∙ t1 in
              let (run, ready) =
                first_loop k random (no_interfaces, pinged, 2) ds early
                  (no_interfaces-Ready.0, t, no_interfaces-Ready.1) a in
              let first : Noting × Bool × List Msg = (start ds pinged, true, early) in
              let loop =
                until_pong pinged.table (note_interface random) (no_interfaces, pinged, 2)
                  link.arrive in
              let e0 : loop ≡ some first =
                ap₂ (λ x ms. until_pong x (note_interface random) (no_interfaces, pinged, 2) ms) t
                  arr
                ∙ run in
              Returns->>= (λ r. r ≡ first) (Shows ds) loop _ (rw e0 refl)
                λ r e.
                  second_half k ds r.0 _ addrs (r.2 ++ link.later) rest
                    (ap (λ x. x.0.1.table) e ∙ ready.1)
                    (subst (λ x. Room addrs x.0.0) (sym e)
                      (ready.0, All-room (length addrs) first.0.0 m ready.2))
                    (λ j.
                      ap (λ x. seen_at x.0.0 j) e
                      ∙ seen-noted random (no_interfaces, pinged, 2) ds j no_interfaces-Ready.0 a
                      ∙ ap (or_else (last_of ds j)) (no_interfaces-Ready.2 j)
                      ∙ or_none (last_of ds j))
                    (ap (λ x. x.2 ++ link.later) e ∙ arr') a')
      (λ o s. (s.0, ap (λ l. connect true true ∷ l) s.1))
