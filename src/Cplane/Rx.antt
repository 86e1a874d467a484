-- ===== src/Cplane/Rx.antt =====
-- The way of packets into VPP in cplane_netdev.c: `tap_inject_tap_read` notes a descriptor that can
-- be read, and the node `tap_inject_rx` reads one packet from each into buffers of a small pool.
pub mod Pool
pub mod Read
pub mod Node
use routerd.Prelude.{
  ℕ, zero, suc, ◌+◌, ◌-◌, ◌*◌, ◌/◌, ◌%◌, ◌^◌, List, [], ◌∷◌, ◌++◌, Option, none, some, ◌>>=◌, Bool,
  true, false, ◌==◌, ltb, leb, load, take, invalid, length, if◌then◌else◌,
}
use routerd.Vppinfra.{Vppinfra}
use routerd.Cplane.Env.{HwInterface, Vpp, Buffer}
use routerd.Cplane.State.{Main}
use routerd.Cplane.TapTable.{tap_inject_lookup_sw_if_index_from_tap_fd}
use routerd.Cplane.Frames.{Frames, put_buffer}

abbrev pub mtu : ℕ
mtu = 1500

abbrev pub vlib_buffer_data_size : ℕ
vlib_buffer_data_size = 2048

abbrev pub mtu_buffers : ℕ
mtu_buffers = (mtu + vlib_buffer_data_size - 1) / vlib_buffer_data_size

abbrev pub num_buffers_to_alloc : ℕ
num_buffers_to_alloc = 32

-- What happens while packets are received: the buffers VPP gave out, and a packet given to a node.
pub data Event : Type 0 where
  allocated : List ℕ → Event
  put_frame : ℕ → ℕ → Event
  interrupt : ℕ → Event
  warn_allocate warn_readv warn_rx : Event

-- What VPP and Linux answer to one `tap_rx`: the buffers given out, if it asks for some, and the
-- number of bytes read, `none` an error.
pub record Answer : Type 0 where
  pub buffers_given : List ℕ
  pub n_bytes : Option ℕ

-- `rx_buffers` after the bulk allocation, and whether there was one. The vector has the room that
-- `cplane_netdev_init` gave it: buffers written behind it are `none`.
unfoldable pub refill : List ℕ → List ℕ → Option (List ℕ × List Event)
refill rx_buffers given =
    if ltb (length rx_buffers) mtu_buffers
    then if leb (length rx_buffers + length given) num_buffers_to_alloc
      then some (rx_buffers ++ given, allocated given ∷ [])
      else none
    else some (rx_buffers, [])

-- The last `n` buffers, from the end on: `bi`.
unfoldable pub from_end : List ℕ → ℕ → ℕ → Option (List ℕ)
from_end rx_buffers i zero = some []
from_end rx_buffers i (suc n) = load rx_buffers (length rx_buffers - 1 - i) >>= λ b.
    from_end rx_buffers (i + 1) n >>= λ bs. some (b ∷ bs)

-- The loop that chains buffers while bytes are left; it gives the number of buffers chained.
-- `prev` is `bi[i - 1]` and `rest` is `bi` from index i on. `current_length` has 16 bits.
unfoldable pub chain : (ℕ → Buffer) → ℕ → List ℕ → ℕ → Option ((ℕ → Buffer) × ℕ)
chain buffers prev [] left = if left == 0 then some (buffers, 0) else none
chain buffers prev (b ∷ rest) left =
    if left == 0
    then some (buffers, 0)
    else let linked = put_buffer buffers prev (record (buffers prev) {
      current_length = vlib_buffer_data_size;
      next_present = true;
      next_buffer = b;
    }) in
      let filled = put_buffer linked b (record (linked b) { current_length = left % 2 ^ 16 }) in
      chain filled b rest (left - vlib_buffer_data_size) >>= λ r. some (r.0, r.1 + 1)

-- The first buffer of a packet.
abbrev pub first_buffer : ℕ → ℕ → Buffer → Buffer
first_buffer sw_if_index n_bytes b =
    let from = record b { sw_if_index_rx = sw_if_index; sw_if_index_tx = sw_if_index } in
    let total =
      if ltb vlib_buffer_data_size n_bytes
      then record from {
        total_length_not_including_first_buffer = (n_bytes - vlib_buffer_data_size) % 2 ^ 32;
        total_length_valid = true;
      }
      else from in
    record total { current_length = n_bytes % 2 ^ 16 }

module _ (V : Vppinfra) where
  -- `tap_inject_tap_read`
  pub tap_inject_tap_read : Main V → ℕ → Main V × List Event
  tap_inject_tap_read im fd = (
    record im { rx_file_descriptors = V.vec_add1 im.rx_file_descriptors fd },
    interrupt im.rx_node_index ∷ [],
  )

  -- What `tap_rx` gives: its value, the state after, and what happened.
  abbrev pub Rx : Type 0
  Rx = ℕ × Frames V × List Event

  -- From `readv` on, `n_bytes` having been read.
  unfoldable pub receive : Vpp → Frames V → ℕ → List ℕ → ℕ → Option Rx
  receive vpp st sw_if_index [] n_bytes = none
  receive vpp st sw_if_index (b ∷ rest) n_bytes =
      let buffers = put_buffer st.buffers b (first_buffer sw_if_index n_bytes (st.buffers b)) in
      chain buffers b rest (n_bytes - vlib_buffer_data_size) >>= λ r.
      let i = r.1 + 1 in
      let rx_buffers = st.main.rx_buffers in
      let left = take (length rx_buffers - i) rx_buffers in
      vpp.get_hw_interface sw_if_index >>= λ hw. some (
        1,
        record st { main = record st.main { rx_buffers = left }; buffers = r.0 },
        put_frame hw.output_node_index b ∷ [],
      )

  -- From the choice of `bi` on; `n_bytes` is the answer of `readv`.
  unfoldable pub read_packet : Vpp → Frames V → ℕ → Option ℕ → Option Rx
  read_packet vpp st sw_if_index n_bytes = from_end st.main.rx_buffers 0 mtu_buffers >>= λ bi.
      elim n_bytes [
        | none ↦ some (0, st, warn_readv ∷ [])
        | some n ↦ receive vpp st sw_if_index bi n
      ]

  unfoldable pub tap_rx : Vpp → Answer → Frames V → ℕ → Option Rx
  tap_rx vpp a st fd = tap_inject_lookup_sw_if_index_from_tap_fd V st.main fd >>= λ l.
      let (sw_if_index, im) = l in
      if sw_if_index == invalid
      then some (0, record st { main = im }, [])
      else refill im.rx_buffers a.buffers_given >>= λ f.
          let (rx_buffers, es) = f in
          let filled = record st { main = record im { rx_buffers = rx_buffers } } in
          if ltb (length rx_buffers) mtu_buffers
          then some (0, filled, es ++ warn_allocate ∷ [])
          else read_packet vpp filled sw_if_index a.n_bytes >>= λ r. some (r.0, r.1, es ++ r.2)

  -- The loop of `tap_inject_rx`; `answers` has the answer of each round.
  unfoldable pub rx_loop : Vpp → (ℕ → Answer) → Frames V → List ℕ → ℕ → Option Rx
  rx_loop vpp answers st [] count = some (count, st, [])
  rx_loop vpp answers st (fd ∷ fds) count = tap_rx vpp (answers count) st fd >>= λ r.
      if r.0 == 1
      then (rx_loop vpp answers r.1 fds (count + 1) >>= λ q. some (q.0, q.1, r.2 ++ q.2))
      else some (0, r.1, r.2 ++ warn_rx ∷ [])

  unfoldable pub tap_inject_rx : Vpp → (ℕ → Answer) → Frames V → Option Rx
  tap_inject_rx vpp answers st = rx_loop vpp answers st st.main.rx_file_descriptors 0 >>= λ r.
      some (r.0, record r.1 { main = record r.1.main { rx_file_descriptors = [] } }, r.2)
