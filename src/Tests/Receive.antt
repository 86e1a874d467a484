-- ===== src/Tests/Receive.antt =====
-- Receiving packets in cplane_netdev.c at concrete inputs.
use routerd.Prelude.{
  ℕ, zero, suc, ◌≡◌, ◌≢◌, ◌≤◌, ◌<◌, ◌⊎◌, refl, [], ◌∷◌, some, arith, invalid, Returns, length,
}
use routerd.Cplane.Env.{HwInterface}
use routerd.Cplane.TapTable.{sw_of}
use routerd.Cplane.Frames.{Frames}
use routerd.Cplane.Rx.{num_buffers_to_alloc, Answer, tap_rx, tap_inject_rx}
use routerd.Cplane.Rx.Pool.{puts}
use routerd.Cplane.Rx.Read.{IsAnswer, Missed, Received, Kept, tap_rx_lem}
use routerd.Cplane.Rx.Node.{Conserved, tap_inject_rx_lem}
use routerd.Cplane.Handlers.{cplane_netdev_init}
use routerd.Tests.Fixtures.{list_infra, vpp, port, joined, arp_reply}

-- Descriptor 5 can be read; the pool is empty.
abbrev waiting : Frames list_infra
waiting = record {
  main = record joined { rx_file_descriptors = 5 ∷ [] };
  buffers = λ bi. arp_reply 0;
}

abbrev answer : Answer
answer = record { buffers_given = 70 ∷ 71 ∷ []; n_bytes = some 60 }

fits_frame : (n : ℕ) → some 60 ≡ some n → n ≤ 2048
fits_frame n e = ground (arith, e)

-- Only descriptor 5 has an interface.
known_interface :
    (fd : ℕ)
    → sw_of list_infra joined fd ≢ invalid
    → (hw : HwInterface) × (vpp.get_hw_interface (sw_of list_infra joined fd) ≡ some hw)
known_interface zero h = absurd (h refl)
known_interface (suc zero) h = absurd (h refl)
known_interface (suc (suc zero)) h = absurd (h refl)
known_interface (suc (suc (suc zero))) h = absurd (h refl)
known_interface (suc (suc (suc (suc zero)))) h = absurd (h refl)
known_interface (suc (suc (suc (suc (suc zero))))) h = (port, refl)
known_interface (suc (suc (suc (suc (suc (suc n)))))) h = absurd (h refl)

answers_well : IsAnswer list_infra vpp waiting answer
answers_well = record { few = omega arith; fits = fits_frame; known = known_interface }

small_pool : length waiting.main.rx_buffers ≤ num_buffers_to_alloc
unfolding cplane_netdev_init
small_pool = omega arith

tap_rx_lem_example :
    Returns
      (λ r.
        Kept list_infra vpp waiting r
        × (Missed list_infra vpp waiting answer 5 r ⊎ Received list_infra vpp waiting answer 5 r))
      (tap_rx list_infra vpp answer waiting 5)
tap_rx_lem_example = tap_rx_lem list_infra vpp answer waiting 5 answers_well small_pool

tap_inject_rx_lem_example :
    Returns
      (λ r.
        (r.1.main.rx_file_descriptors ≡ [])
        × (length r.1.main.rx_buffers ≤ num_buffers_to_alloc)
        × Conserved list_infra vpp waiting r
        × ((r.0 ≡ 1) × (length (puts r.2) ≡ 1) ⊎ (r.0 ≡ 0) × (length (puts r.2) < 1)))
      (tap_inject_rx list_infra vpp (λ i. answer) waiting)
tap_inject_rx_lem_example =
    tap_inject_rx_lem list_infra vpp (λ i. answer) waiting (λ i. answers_well) small_pool
