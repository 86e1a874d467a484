-- ===== src/Cplane/Frames/Tx.antt =====
-- `tap_inject_tx`: what is sent to the taps, and what is freed.
use routerd.Prelude.{
  ℕ, ◌≡◌, refl, ap₂, ◌∙◌, List, [], ◌∷◌, ◌++◌, append-nil, Option, Bool-cases, inl, inr, Returns,
  Returns->>=, ◌==◌, invalid, length,
}
use routerd.Vppinfra.{Vppinfra}
use routerd.Cplane.Env.{Vpp}
use routerd.Cplane.TapTable.{fd_of}
use routerd.Cplane.TapTable.Views.{lookup_tap_fd_lem}
use routerd.Cplane.TapTable.Links.{SameLinks}
use routerd.Cplane.Frames.{Packet, Frames, free_all, tx_one, tx_loop, tap_inject_tx}
use routerd.Cplane.Frames.Account.{
  given_back, writes, given_back-append, writes-append, given_back-free_all, writes-free_all,
  send_lem, Moves, sends, rewound, sends-cons, sends_same, grown-SameLinks, SameLinks-trans,
}

module _ (V : Vppinfra) (vpp : Vpp) (written : ℕ → Option ℕ) (l : Moves vpp) where
  -- The packet is written if its interface has a tap.
  abbrev SentOne : Frames V → ℕ → Frames V × List Packet → Type 0
  SentOne st bi p =
      SameLinks V st.main p.0.main
      × (given_back p.1 ≡ [])
      × (writes p.1 ≡ sends V vpp (fd_of V st.main) st.buffers (bi ∷ []))
      × ((j : ℕ)
          → ((p.0.buffers j).sw_if_index_rx ≡ (st.buffers j).sw_if_index_rx)
            × (vpp.vlib_buffer_rewind (p.0.buffers j) ≡ vpp.vlib_buffer_rewind (st.buffers j)))

  tx_one-SentOne : (st : Frames V) (bi : ℕ) → Returns (SentOne st bi) (tx_one V vpp written st bi)
  unfolding tx_one sends given_back writes
  tx_one-SentOne st bi =
      let b = st.buffers bi in
      let fd = fd_of V st.main b.sw_if_index_rx in
      let r = vpp.vlib_buffer_rewind b in
      let same = grown-SameLinks V vpp st.main b.sw_if_index_rx in
      rw (lookup_tap_fd_lem V st.main b.sw_if_index_rx) (elim (Bool-cases (fd == invalid)) [
        | inl t ↦ rw t (same, refl, rw t, λ j. (refl, refl))
        | inr f ↦
            let sent = send_lem (written bi) fd r in
            rw f (same, sent.0, sent.1 ∙ rw f, rewound V vpp l st.buffers bi)
      ])

  abbrev Sent : Frames V → List ℕ → Frames V × List Packet → Type 0
  Sent st pkts p =
      SameLinks V st.main p.0.main
      × (given_back p.1 ≡ [])
      × (writes p.1 ≡ sends V vpp (fd_of V st.main) st.buffers pkts)

  tx_loop-Sent :
      (st : Frames V) (pkts : List ℕ) → Returns (Sent st pkts) (tx_loop V vpp written st pkts)
  unfolding tx_loop sends given_back writes
  tx_loop-Sent st [] =
      (record { fds = λ j. refl; ifs = λ j. refl; sws = λ j. refl; hash = λ j. refl }, refl, refl)
  tx_loop-Sent st (bi ∷ pkts) =
      Returns->>= (SentOne st bi) (Sent st (bi ∷ pkts)) _ _ (tx_one-SentOne st bi) λ p a.
        Returns->>= (Sent p.0 pkts) (Sent st (bi ∷ pkts)) _ _ (tx_loop-Sent p.0 pkts) λ q s. (
          SameLinks-trans V vpp st.main p.0.main q.0.main a.0 s.0,
          given_back-append p.1 q.1 ∙ rw (a.1, s.1),
          writes-append p.1 q.1
              ∙ ap₂ ◌++◌ a.2 (
                  s.2
                  ∙ sends_same V vpp (fd_of V st.main) (fd_of V p.0.main) st.buffers p.0.buffers
                      pkts a.0.fds a.3)
              ∙ sends-cons V vpp (fd_of V st.main) st.buffers bi pkts,
        )

  -- Where VPP's moves of a buffer's position keep its bytes and its interface, `tap_inject_tx` makes
  -- no access out of bounds and returns the number of packets. It writes each packet whose interface
  -- has a tap, from its Ethernet header on, to that tap, in order, and no other; it gives each buffer
  -- of the frame back to VPP once; and the tables say what they said.
  pub tap_inject_tx_lem :
      (st : Frames V) (pkts : List ℕ)
      → Returns
          (λ r.
            (r.0 ≡ length pkts)
            × SameLinks V st.main r.1.main
            × (writes r.2 ≡ sends V vpp (fd_of V st.main) st.buffers pkts)
            × (given_back r.2 ≡ pkts))
          (tap_inject_tx V vpp written st pkts)
  unfolding tap_inject_tx
  tap_inject_tx_lem st pkts = Returns->>= (Sent st pkts) _ _ _ (tx_loop-Sent st pkts) λ p s. (
    refl,
    s.0,
    writes-append p.1 (free_all pkts) ∙ rw (s.2, writes-free_all pkts) (append-nil _),
    given_back-append p.1 (free_all pkts) ∙ rw s.1 (given_back-free_all pkts),
  )
