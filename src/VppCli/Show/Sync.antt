-- ===== src/VppCli/Show/Sync.antt =====
-- `enable cplane-netdev sync` of src/vpp_cli.c with the plugin's handler of the dump: the taps that the
-- daemon learns of.
use routerd.Prelude.{
  ℕ, ◌^◌, ◌<◌, ◌≡◌, ◌≢◌, ◌⊎◌, ◌↔◌, refl, sym, ◌∙◌, subst, inl, inr, List, [], ◌∷◌, ◌++◌,
  append_assoc, append-nil, Option, none, some, ◌>>=◌, true, false, htonl, invalid, is_negative,
  All, Returns,
}
use routerd.Vppinfra.{Vppinfra}
use routerd.Cplane.State.{Main}
use routerd.Cplane.TapTable.{fd_of, if_of, sw_of_if}
use routerd.Cplane.TapTable.Links.{IsLinked}
use routerd.Cplane.Api.{Details, tap_inject_dump_handler}
use routerd.Cplane.Api.Dump.{Tells, tap_inject_dump_iff}
use routerd.Client.MessageId.{find_msg_id}
use routerd.Client.Names.{control_ping_name, control_ping_reply_name, tap_inject_dump_name}
use routerd.Client.Messages.{Daemon, post, send_ping, tap_inject_dump}
use routerd.Client.Replies.{connect_to_vpp}
use routerd.VppCli.State.{
  tap_details, Msg, Call, connect, disconnect, add_interface, success, Link, connecting,
}
use routerd.VppCli.State.Loop.{pong_msg, fold_left, msgs_of, until_pong-fold}
use routerd.VppCli.Show.{sync_tap, enable_cplane_netdev_sync}

-- What the daemon's table of messages has to know, and the numbers of the answers.
pub record KnowsDump (table : List (List ℕ × ℕ)) (number pong_id : ℕ) : Type 0 where
  pub dump_id : (v : ℕ) × (find_msg_id table tap_inject_dump_name ≡ some v)
  pub ping_id : (v : ℕ) × (find_msg_id table control_ping_name ≡ some v)
  pub reply_id : find_msg_id table control_ping_reply_name ≡ some pong_id
  pub reply_word : pong_id < 2 ^ 16
  pub number_word : number < 2 ^ 16
  pub differ : number ≢ pong_id

module _ (if_indextoname : ℕ → Option (List ℕ)) where
  -- One of the calls adds the interface with that kernel index, its kernel name and that VPP index.
  abbrev pub Adds : ℕ → ℕ → List Call → Type 0
  Adds kern sw [] = ⊥
  Adds kern sw (add_interface k s v ∷ cs) =
      (k ≡ kern) × (v ≡ sw) × (if_indextoname kern ≡ some s) ⊎ Adds kern sw cs
  Adds kern sw (_ ∷ cs) = Adds kern sw cs

  abbrev pub IsAdd : Call → Type 0
  IsAdd c = (kern : ℕ) × (s : List ℕ) × (sw : ℕ) × (c ≡ add_interface kern s sw)

  abbrev HasName : Details → Type 0
  HasName d = (s : List ℕ) × (if_indextoname (htonl d.kernel_if_index) ≡ some s)

  abbrev added : Details → Call
  added d =
      let k = htonl d.kernel_if_index in
      add_interface k (elim (if_indextoname k) [ none ↦ [] | some s ↦ s ]) (htonl d.sw_if_index)

  abbrev all_added : List Details → List Call
  all_added [] = []
  all_added (d ∷ ds) = added d ∷ all_added ds

  all_added-IsAdd : (ds : List Details) → All IsAdd (all_added ds)
  all_added-IsAdd [] = tt
  all_added-IsAdd (d ∷ ds) = ((_, _, _, refl), all_added-IsAdd ds)

  fold-added :
      (cs : List Call) (ds : List Details)
      → fold_left (λ s d. s ++ added d ∷ []) cs ds ≡ cs ++ all_added ds
  fold-added cs [] = sym (append-nil cs)
  fold-added cs (d ∷ ds) =
      fold-added (cs ++ added d ∷ []) ds ∙ append_assoc cs (added d ∷ []) (all_added ds)

  Adds-iff :
      (kern sw : ℕ) (ds : List Details)
      → All HasName ds
      → Adds kern sw (all_added ds ++ disconnect ∷ []) ↔ Tells sw kern ds
  unfolding Tells
  Adds-iff kern sw [] n = ((λ h. h), λ h. h)
  Adds-iff kern sw (d ∷ ds) n =
      let (s, e) = n.0 in
      let (to, from) = Adds-iff kern sw ds n.1 in
      (
        (λ h. elim h [ inl x ↦ inl (x.1, x.0) | inr x ↦ inr (to x) ]),
        λ h. elim h [
          | inl x ↦ inl (x.1, x.0, rw e (subst (λ y. if_indextoname y ≡ some s) x.1 e))
          | inr x ↦ inr (from x)
        ],
      )

  -- A property of all kernel indices that are told of.
  All-told :
      (Q : ℕ → Type 0) (ds : List Details)
      → ((sw kern : ℕ) → Tells sw kern ds → Q kern)
      → All (λ d. Q (htonl d.kernel_if_index)) ds
  unfolding Tells
  All-told Q [] h = tt
  All-told Q (d ∷ ds) h = (h _ _ (inl (refl, refl)), All-told Q ds (λ sw kern t. h sw kern (inr t)))

  sync_tap-added :
      (s : List Call) (d : Details)
      → HasName d
      → sync_tap if_indextoname s (tap_details d) ≡ some (s ++ added d ∷ [])
  unfolding sync_tap
  sync_tap-added s d (n, e) = rw e refl

  -- Where VPP answers the dump with what the plugin's handler tells, then the ping, the tables are
  -- linked and hold words, and Linux has a name for each tap, the command passes its `assert`s,
  -- succeeds; it connects, makes no other call than adding interfaces, and disconnects once. It adds an interface of a kernel index, under Linux's
  -- name for it, with an interface of VPP just if that one has a tap whose kernel index it is.
  pub sync_iff :
      (V : Vppinfra) (im : Main V) (context : ℕ) (link : Link) (random : ℕ → ℕ) (rm : Daemon)
      (number pong_id : ℕ) (rest : List Msg)
      → IsLinked V im
      → ((k v : ℕ) → sw_of_if V im k ≡ some v → (k < 2 ^ 32) × (v < 2 ^ 32))
      → ((sw : ℕ)
          → fd_of V im sw ≢ invalid
          → (s : List ℕ) × (if_indextoname (if_of V im sw) ≡ some s))
      → KnowsDump rm.table number pong_id
      → is_negative link.connected ≡ false
      → link.arrive
        ≡ msgs_of tap_details number (tap_inject_dump_handler V im context)
          ++ pong_msg pong_id ∷ rest
      → Returns
          (λ o.
            (o.code ≡ success)
            × ((cs : List Call) × (o.calls ≡ connect true true ∷ cs ++ disconnect ∷ [])
                × All IsAdd cs
                × ((kern sw : ℕ)
                    → Adds kern sw (cs ++ disconnect ∷ [])
                      ↔ ((fd_of V im sw ≢ invalid) × (if_of V im sw ≡ kern)))))
          (enable_cplane_netdev_sync if_indextoname link random rm)
  unfolding enable_cplane_netdev_sync connecting connect_to_vpp tap_inject_dump send_ping post
  sync_iff V im context link random rm number pong_id rest l w named k c arr =
      let ds = tap_inject_dump_handler V im context in
      let told = λ (sw kern : ℕ). tap_inject_dump_iff V im context sw kern l w in
      let names : All HasName ds =
        All-told (λ x. (s : List ℕ) × (if_indextoname x ≡ some s)) ds
          (λ sw kern t.
            let (m, e) = (told sw kern).0 t in
            subst (λ x. (s : List ℕ) × (if_indextoname x ≡ some s)) e (named sw m)) in
      let (run, _) =
        until_pong-fold tap_details rm.table (sync_tap if_indextoname) (λ s d. s ++ added d ∷ [])
          HasName (λ ds s. Unit {0}) number pong_id k.reply_id k.reply_word k.number_word k.differ
          (λ s d ds i h. (sync_tap-added s d h, tt)) [] ds rest tt names in
      rw (c, k.dump_id.1, ◌>>=◌, k.ping_id.1, ◌>>=◌, arr, run, fold-added [] ds)
        (
          refl,
          (
            all_added ds,
            refl,
            all_added-IsAdd ds,
            λ kern sw.
                let (to, from) = Adds-iff kern sw ds names in
                let (there, back) = told sw kern in ((λ h. there (to h)), λ h. from (back h)),
          ),
        )
