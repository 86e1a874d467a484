-- ===== src/Cplane/Frames/Neighbor.antt =====
-- `tap_inject_neighbor`: which packets are given back to VPP.
use routerd.Prelude.{
  ℕ, ◌≤◌, All, ◌≡◌, ◌≢◌, List, [], ◌∷◌, Option, none, ◌==◌, invalid, if◌then◌else◌,
}
use routerd.Vppinfra.{Vppinfra}
use routerd.Cplane.Env.{Vpp, Buffer}
use routerd.Cplane.TapTable.{fd_of}
use routerd.Cplane.TapTable.Links.{SameLinks}
use routerd.Cplane.Frames.{Packet, Frames, neighbor_next}
use routerd.Cplane.Frames.Account.{given_back, writes, Moves, sends}

-- The packets whose interface has a tap.
pub with_tap : (ℕ → ℕ) → (ℕ → Buffer) → List ℕ → List ℕ
with_tap fd_of_sw buffers [] = []
with_tap fd_of_sw buffers (bi ∷ pkts) =
    if fd_of_sw (buffers bi).sw_if_index_rx == invalid
    then with_tap fd_of_sw buffers pkts
    else bi ∷ with_tap fd_of_sw buffers pkts

module _ (V : Vppinfra) (vpp : Vpp) (written : ℕ → Option ℕ) (l : Moves vpp) where
  abbrev Same : (ℕ → Buffer) → (ℕ → Buffer) → Type 0
  Same bs cs =
      (j : ℕ)
      → ((cs j).sw_if_index_rx ≡ (bs j).sw_if_index_rx)
        × (vpp.vlib_buffer_rewind (cs j) ≡ vpp.vlib_buffer_rewind (bs j))

  -- The packet of an interface with a tap has an Ethernet header and is ARP or ICMPv6, as the node's
  -- `assert` wants.
  abbrev pub Accepted : (ℕ → ℕ) → (ℕ → Buffer) → ℕ → Type 0
  Accepted f bs bi =
      f (bs bi).sw_if_index_rx ≢ invalid
      → (14 ≤ (vpp.vlib_buffer_rewind (bs bi)).current_length)
        × (neighbor_next (vpp.vlib_buffer_rewind (bs bi)) ≢ none)

  abbrev Handed : Frames V → ℕ → Frames V × List Packet → Type 0
  Handed st bi p =
      SameLinks V st.main p.0.main
      × (given_back p.1 ≡ with_tap (fd_of V st.main) st.buffers (bi ∷ []))
      × (writes p.1 ≡ sends V vpp (fd_of V st.main) st.buffers (bi ∷ []))
      × Same st.buffers p.0.buffers

  abbrev AllAccepted : (ℕ → ℕ) → (ℕ → Buffer) → List ℕ → Type 0
  AllAccepted f bs = All (Accepted f bs)

  abbrev HandedAll : Frames V → List ℕ → Frames V × List Packet → Type 0
  HandedAll st pkts p =
      SameLinks V st.main p.0.main
      × (given_back p.1 ≡ with_tap (fd_of V st.main) st.buffers pkts)
      × (writes p.1 ≡ sends V vpp (fd_of V st.main) st.buffers pkts)
