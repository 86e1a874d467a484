-- ===== src/Cplane/Frames/Account.antt =====
-- Where the packets of a frame go: written to which taps, and given back to VPP or not.
use routerd.Prelude.{
  ℕ, ◌≤◌, ◌≡◌, refl, ap, ◌∙◌, List, [], ◌∷◌, ◌++◌, Option, none, some, Bool-cases, inl, inr, ◌==◌,
  ==_iff, ltb, ◌||◌, invalid, if◌then◌else◌,
}
use routerd.Vppinfra.{Vppinfra}
use routerd.Cplane.Env.{Vpp, Buffer, current}
use routerd.Cplane.State.{Main}
use routerd.Cplane.TapTable.Views.{get_or-grow, grow}
use routerd.Cplane.TapTable.Links.{SameLinks}
use routerd.Cplane.Frames.{
  Packet, writev, free, enqueue, put_buffer, bytes, tap_inject_tap_send_buffer, free_all,
}

-- The buffers given back to VPP, freed or enqueued, in order.
unfoldable pub given_back : List Packet → List ℕ
given_back [] = []
given_back (free bi ∷ ps) = bi ∷ given_back ps
given_back (enqueue bi next ∷ ps) = bi ∷ given_back ps
given_back (_ ∷ ps) = given_back ps

-- The frames written, with the descriptors they were written to.
unfoldable pub writes : List Packet → List (ℕ × List ℕ)
writes [] = []
writes (writev fd data' ∷ ps) = (fd, data') ∷ writes ps
writes (_ ∷ ps) = writes ps

pub given_back-append :
    (ps qs : List Packet) → given_back (ps ++ qs) ≡ given_back ps ++ given_back qs
unfolding given_back
given_back-append [] qs = refl
given_back-append (free bi ∷ ps) qs = ap (λ l. bi ∷ l) (given_back-append ps qs)
given_back-append (enqueue bi next ∷ ps) qs = ap (λ l. bi ∷ l) (given_back-append ps qs)
given_back-append (_ ∷ ps) qs = given_back-append ps qs

pub writes-append : (ps qs : List Packet) → writes (ps ++ qs) ≡ writes ps ++ writes qs
unfolding writes
writes-append [] qs = refl
writes-append (writev fd data' ∷ ps) qs = ap (λ l. (fd, data') ∷ l) (writes-append ps qs)
writes-append (_ ∷ ps) qs = writes-append ps qs

pub given_back-free_all : (pkts : List ℕ) → given_back (free_all pkts) ≡ pkts
unfolding given_back
given_back-free_all [] = refl
given_back-free_all (bi ∷ pkts) = ap (λ l. bi ∷ l) (given_back-free_all pkts)

pub writes-free_all : (pkts : List ℕ) → writes (free_all pkts) ≡ []
unfolding writes
writes-free_all [] = refl
writes-free_all (bi ∷ pkts) = writes-free_all pkts

-- Sending gives no buffer back, and writes once.
pub send_lem :
    (w : Option ℕ) (fd : ℕ) (b : Buffer)
    → (given_back (tap_inject_tap_send_buffer w fd b) ≡ [])
      × (writes (tap_inject_tap_send_buffer w fd b)
          ≡ (fd, bytes (current b) 0 b.current_length) ∷ [])
unfolding tap_inject_tap_send_buffer given_back writes
send_lem none fd b = (refl, refl)
send_lem (some n) fd b = elim (Bool-cases (ltb n b.current_length || b.next_present)) [
  | inl t ↦ rw t (refl, refl)
  | inr f ↦ rw f (refl, refl)
]

-- What VPP documents of moving the current position of a buffer: the buffer is still from the same
-- interface, and moving back to the start undoes a move within the packet.
pub record Moves (vpp : Vpp) : Type 0 where
  pub rewind_rx : (b : Buffer) → (vpp.vlib_buffer_rewind b).sw_if_index_rx ≡ b.sw_if_index_rx
  pub rewind_twice :
      (b : Buffer) → vpp.vlib_buffer_rewind (vpp.vlib_buffer_rewind b) ≡ vpp.vlib_buffer_rewind b
  pub rewind-advance :
      (b : Buffer) (n : ℕ)
      → n ≤ (vpp.vlib_buffer_rewind b).current_length
      → vpp.vlib_buffer_rewind (vpp.vlib_buffer_advance (vpp.vlib_buffer_rewind b) n)
        ≡ vpp.vlib_buffer_rewind b
  pub advance_rx :
      (b : Buffer) (n : ℕ) → (vpp.vlib_buffer_advance b n).sw_if_index_rx ≡ b.sw_if_index_rx

module _ (V : Vppinfra) (vpp : Vpp) where
  -- The packets whose interface has a tap, each with the tap's descriptor and the whole packet.
  unfoldable pub sends : (ℕ → ℕ) → (ℕ → Buffer) → List ℕ → List (ℕ × List ℕ)
  sends fd_of_sw buffers [] = []
  sends fd_of_sw buffers (bi ∷ pkts) =
      let fd = fd_of_sw (buffers bi).sw_if_index_rx in
      let b = vpp.vlib_buffer_rewind (buffers bi) in
      if fd == invalid
      then sends fd_of_sw buffers pkts
      else (fd, bytes (current b) 0 b.current_length) ∷ sends fd_of_sw buffers pkts

  pub rewound :
      Moves vpp
      → (buffers : ℕ → Buffer) (bi j : ℕ)
      → let bs = put_buffer buffers bi (vpp.vlib_buffer_rewind (buffers bi)) in
        ((bs j).sw_if_index_rx ≡ (buffers j).sw_if_index_rx)
        × (vpp.vlib_buffer_rewind (bs j) ≡ vpp.vlib_buffer_rewind (buffers j))
  rewound l buffers bi j = elim (Bool-cases (bi == j)) [
    | inl t ↦ rw (t, (==_iff bi j).0 t) (l.rewind_rx (buffers j), l.rewind_twice (buffers j))
    | inr f ↦ rw f (refl, refl)
  ]

  pub sends-cons :
      (f : ℕ → ℕ) (bs : ℕ → Buffer) (bi : ℕ) (pkts : List ℕ)
      → sends f bs (bi ∷ []) ++ sends f bs pkts ≡ sends f bs (bi ∷ pkts)
  unfolding sends
  sends-cons f bs bi pkts = elim (Bool-cases (f (bs bi).sw_if_index_rx == invalid)) [
    | inl t ↦ rw t
    | inr e ↦ rw e
  ]

  pub sends_same :
      (f g : ℕ → ℕ) (bs cs : ℕ → Buffer) (pkts : List ℕ)
      → ((j : ℕ) → g j ≡ f j)
      → ((j : ℕ)
          → ((cs j).sw_if_index_rx ≡ (bs j).sw_if_index_rx)
            × (vpp.vlib_buffer_rewind (cs j) ≡ vpp.vlib_buffer_rewind (bs j)))
      → sends g cs pkts ≡ sends f bs pkts
  unfolding sends
  sends_same f g bs cs [] h k = refl
  sends_same f g bs cs (bi ∷ pkts) h k =
      simp ((k bi).0, (k bi).1, h (bs bi).sw_if_index_rx, sends_same f g bs cs pkts h k)

  pub grown-SameLinks :
      (im : Main V) (sw : ℕ)
      → SameLinks V im (record im { sw_if_index_to_tap_fd = grow V im.sw_if_index_to_tap_fd sw })
  grown-SameLinks im sw = record {
    fds = get_or-grow V im.sw_if_index_to_tap_fd sw;
    ifs = λ j. refl;
    sws = λ j. refl;
    hash = λ j. refl;
  }

  pub SameLinks-trans :
      (im im' im'' : Main V) → SameLinks V im im' → SameLinks V im' im'' → SameLinks V im im''
  SameLinks-trans im im' im'' s t = record {
    fds = λ j. t.fds j ∙ s.fds j;
    ifs = λ j. t.ifs j ∙ s.ifs j;
    sws = λ j. t.sws j ∙ s.sws j;
    hash = λ j. t.hash j ∙ s.hash j;
  }
