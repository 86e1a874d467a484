-- ===== src/Cplane/Rx/Read.antt =====
-- `tap_rx`: one packet read from one tap.
use routerd.Prelude.{
  ℕ, ◌-◌, ◌%◌, ◌^◌, ◌≤◌, ◌≡◌, ◌≢◌, ◌⊎◌, inl, inr, refl, ap, ◌∙◌, List, [], ◌∷◌, ◌++◌, append-nil,
  Option, none, some, false, Bool-cases, ◌==◌, ==_refl, ==_iff, ltb, take, get_or, invalid, length,
  map, Returns, Returns->>=, arith,
}
use routerd.Vppinfra.{Vppinfra}
use routerd.Cplane.Env.{HwInterface, Vpp, Buffer}
use routerd.Cplane.TapTable.{sw_of}
use routerd.Cplane.TapTable.Views.{lookup_sw_if_index_lem, get_or-grow, grow}
use routerd.Cplane.Frames.{Frames, put_buffer}
use routerd.Cplane.Rx.{
  mtu_buffers, vlib_buffer_data_size, num_buffers_to_alloc, Event, put_frame, warn_allocate, Answer,
  chain, first_buffer, Rx, receive, read_packet, tap_rx,
}
use routerd.Cplane.Rx.Pool.{
  gives, puts, gives-append, puts-append, Refilled, refill-Refilled, take_last, length-take_le,
}

module _ (V : Vppinfra) (vpp : Vpp) where
  -- What VPP and Linux promise: no more buffers than asked for, no more bytes than there is room
  -- for, and the tap's interface is known.
  pub record IsAnswer (st : Frames V) (a : Answer) : Type 0 where
    pub few : length a.buffers_given ≤ num_buffers_to_alloc
    pub fits : (n : ℕ) → a.n_bytes ≡ some n → n ≤ vlib_buffer_data_size
    pub known :
        (fd : ℕ)
        → sw_of V st.main fd ≢ invalid
        → (hw : HwInterface) × (vpp.get_hw_interface (sw_of V st.main fd) ≡ some hw)

  -- No packet was received, and why.
  abbrev pub Missed : Frames V → Answer → ℕ → Rx V → Type 0
  Missed st a fd r =
      (r.0 ≡ 0)
      × (puts r.2 ≡ [])
      × (r.1.buffers ≡ st.buffers)
      × ((sw_of V st.main fd ≡ invalid)
          ⊎ (st.main.rx_buffers ≡ []) × (a.buffers_given ≡ [])
          ⊎ (a.n_bytes ≡ none))

  -- A packet was received into one buffer and went to the node of its interface.
  abbrev pub Received : Frames V → Answer → ℕ → Rx V → Type 0
  Received st a fd r =
      (r.0 ≡ 1)
      × ((n : ℕ) × (b : ℕ) × (hw : HwInterface) × (a.n_bytes ≡ some n)
          × (vpp.get_hw_interface (sw_of V st.main fd) ≡ some hw)
          × (puts r.2 ≡ (hw.output_node_index, b) ∷ [])
          × (r.1.buffers
              ≡ put_buffer st.buffers b (first_buffer (sw_of V st.main fd) n (st.buffers b)))
          × ((r.1.buffers b).current_length ≡ n)
          × ((r.1.buffers b).sw_if_index_rx ≡ sw_of V st.main fd)
          × ((r.1.buffers b).sw_if_index_tx ≡ sw_of V st.main fd))

  -- The pool keeps its bound, loses just the buffers given to a node, and gains those given by VPP;
  -- descriptors keep their interfaces.
  abbrev pub Kept : Frames V → Rx V → Type 0
  Kept st r =
      (length r.1.main.rx_buffers ≤ num_buffers_to_alloc)
      × (r.1.main.rx_buffers ++ map (λ p. p.1) (puts r.2) ≡ st.main.rx_buffers ++ gives r.2)
      × ((j : ℕ) → sw_of V r.1.main j ≡ sw_of V st.main j)

  -- Receiving into the last buffer of the pool `c ∷ cs`.
  receive_lem :
      (st : Frames V) (sw b n : ℕ) (hw : HwInterface)
      → n ≤ vlib_buffer_data_size
      → vpp.get_hw_interface sw ≡ some hw
      → receive V vpp st sw (b ∷ []) n
        ≡ some (
          1,
          record st {
            main = record st.main {
              rx_buffers = take (length st.main.rx_buffers - 1) st.main.rx_buffers;
            };
            buffers = put_buffer st.buffers b (first_buffer sw n (st.buffers b));
          },
          put_frame hw.output_node_index b ∷ [],
        )
  unfolding receive chain
  receive_lem st sw b n hw h e =
      let z : n - vlib_buffer_data_size ≡ 0 = omega arith in rw (z, e) refl

  -- What reading leaves of a pool that is not empty.
  abbrev Read : Frames V → ℕ → Option ℕ → Rx V → Type 0
  Read st sw read r =
      (length r.1.main.rx_buffers ≤ length st.main.rx_buffers)
      × (r.1.main.rx_buffers ++ map (λ p. p.1) (puts r.2) ≡ st.main.rx_buffers)
      × (gives r.2 ≡ [])
      × (r.1.main.tap_fd_to_sw_if_index ≡ st.main.tap_fd_to_sw_if_index)
      × ((r.0 ≡ 0) × (puts r.2 ≡ []) × (r.1.buffers ≡ st.buffers) × (read ≡ none)
          ⊎ (r.0 ≡ 1)
            × ((n : ℕ) × (b : ℕ) × (hw : HwInterface) × (read ≡ some n)
                × (vpp.get_hw_interface sw ≡ some hw)
                × (puts r.2 ≡ (hw.output_node_index, b) ∷ [])
                × (r.1.buffers ≡ put_buffer st.buffers b (first_buffer sw n (st.buffers b)))
                × ((r.1.buffers b).current_length ≡ n)
                × ((r.1.buffers b).sw_if_index_rx ≡ sw)
                × ((r.1.buffers b).sw_if_index_tx ≡ sw)))

  first_buffer_lem :
      (bs : ℕ → Buffer) (b sw n : ℕ)
      → n ≤ vlib_buffer_data_size
      → ((put_buffer bs b (first_buffer sw n (bs b)) b).current_length ≡ n)
        × ((put_buffer bs b (first_buffer sw n (bs b)) b).sw_if_index_rx ≡ sw)
        × ((put_buffer bs b (first_buffer sw n (bs b)) b).sw_if_index_tx ≡ sw)
  first_buffer_lem bs b sw n h =
      let m : n % 2 ^ 16 ≡ n = omega arith in
      let one : ltb vlib_buffer_data_size n ≡ false = ground (arith, h) in
      rw (==_refl b, one) (m, refl, refl)

  read_packet-Read :
      (st : Frames V) (sw : ℕ) (read : Option ℕ) (hw : HwInterface)
      → ltb (length st.main.rx_buffers) mtu_buffers ≡ false
      → ((n : ℕ) → read ≡ some n → n ≤ vlib_buffer_data_size)
      → vpp.get_hw_interface sw ≡ some hw
      → Returns (Read st sw read) (read_packet V vpp st sw read)
  unfolding read_packet gives puts
  read_packet-Read st sw none hw e fits k =
      let (b, f, t) = take_last st.main.rx_buffers e in
      rw f (omega arith, append-nil _, refl, refl, inl (refl, refl, refl, refl))
  read_packet-Read st sw (some n) hw e fits k =
      let (b, f, t) = take_last st.main.rx_buffers e in
      let fit = fits n refl in
      rw (f, receive_lem st sw b n hw fit k)
        (
          length-take_le _ st.main.rx_buffers,
          t,
          refl,
          refl,
          inr (
            refl,
            (
              n,
              b,
              hw,
              refl,
              k,
              refl,
              refl,
              (first_buffer_lem st.buffers b sw n fit).0,
              (first_buffer_lem st.buffers b sw n fit).1,
              (first_buffer_lem st.buffers b sw n fit).2,
            ),
          ),
        )

  -- The refilling and the reading together.
  joined_lem :
      (a : Answer) (st : Frames V) (fd : ℕ) (q : List ℕ × List Event) (r : Rx V)
      → Refilled st.main.rx_buffers a.buffers_given q
      → Read
          (record st {
            main = record st.main {
              tap_fd_to_sw_if_index = grow V st.main.tap_fd_to_sw_if_index fd;
              rx_buffers = q.0;
            };
          })
          (sw_of V st.main fd)
          a.n_bytes
          r
      → ((j : ℕ) → get_or (grow V st.main.tap_fd_to_sw_if_index fd) j invalid ≡ sw_of V st.main j)
      → Kept st (r.0, r.1, q.1 ++ r.2)
        × (Missed st a fd (r.0, r.1, q.1 ++ r.2) ⊎ Received st a fd (r.0, r.1, q.1 ++ r.2))
  joined_lem a st fd q r w d same =
      let pe : puts (q.1 ++ r.2) ≡ puts r.2 = puts-append q.1 r.2 ∙ ap (λ l. l ++ puts r.2) w.1 in
      let ge : gives (q.1 ++ r.2) ≡ gives q.1 =
        gives-append q.1 r.2 ∙ ap (λ l. gives q.1 ++ l) d.2 ∙ append-nil (gives q.1) in
      (
        (
          omega (arith, d.0, w.2),
          rw (pe, ge) (d.1 ∙ w.0),
          λ j. ap (λ v. get_or v j invalid) d.3 ∙ same j,
        ),
        elim d.4 [
          | inl x ↦ inl (x.0, pe ∙ x.1, x.2, inr (inr x.3))
          | inr (x, (n, b, hw, e, k, u, v, c, rx, tx)) ↦
              inr (x, (n, b, hw, e, k, pe ∙ u, v, c, rx, tx))
        ],
      )

  -- Where VPP and Linux keep their promises and the pool has at most 32 buffers, `tap_rx` makes no
  -- access out of bounds, not even in its vectors' room, and the pool keeps that bound: it loses
  -- just the buffers given to a node and gains those VPP gave out. Either nothing is received: the
  -- descriptor has no interface, or the pool is empty and VPP gives nothing, or the read fails. Or
  -- one packet of the length read goes, in one buffer, from the interface of the descriptor to
  -- that interface's output node.
  pub tap_rx_lem :
      (a : Answer) (st : Frames V) (fd : ℕ)
      → IsAnswer st a
      → length st.main.rx_buffers ≤ num_buffers_to_alloc
      → Returns (λ r. Kept st r × (Missed st a fd r ⊎ Received st a fd r)) (tap_rx V vpp a st fd)
  unfolding tap_rx gives puts
  tap_rx_lem a st fd p h =
      let same = get_or-grow V st.main.tap_fd_to_sw_if_index fd in
      let im = record st.main { tap_fd_to_sw_if_index = grow V st.main.tap_fd_to_sw_if_index fd } in
      rw (lookup_sw_if_index_lem V st.main fd) (elim (Bool-cases (sw_of V st.main fd == invalid)) [
        | inl t ↦ rw t ((h, refl, same), inl (refl, refl, refl, inl ((==_iff _ _).0 t)))
        | inr f ↦
            let m : sw_of V st.main fd ≢ invalid = ground (arith, f) in
            rw f (
              Returns->>= (Refilled st.main.rx_buffers a.buffers_given) _ _ _
                (refill-Refilled st.main.rx_buffers a.buffers_given h p.few)
                λ q w. elim (Bool-cases (ltb (length q.0) mtu_buffers)) [
                  | inl t ↦ rw t (
                    (w.2, simp (puts-append, gives-append, w.1, append-nil, w.0), same),
                    inl (
                      refl,
                      puts-append q.1 (warn_allocate ∷ []) ∙ simp w.1,
                      refl,
                      inr (inl (w.3 t)),
                    ),
                  )
                  | inr g ↦ rw g (
                      Returns->>=
                        (Read (record st { main = record im { rx_buffers = q.0 } })
                          (sw_of V st.main fd) a.n_bytes)
                        _ _ _
                        (read_packet-Read (record st { main = record im { rx_buffers = q.0 } })
                          (sw_of V st.main fd) a.n_bytes (p.known fd m).0 g p.fits (p.known fd m).1)
                        λ r d. joined_lem a st fd q r w d same)
                ])
      ])
