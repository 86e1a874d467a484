-- ===== src/TapMirror/Nodes.antt =====
-- tap_mirror.c: the plugin's start, the node function that stands in for a mirrored node's own, and
-- the process that writes the copies to the taps.
pub mod Redirect
pub mod Lost
use routerd.Prelude.{
  ℕ, zero, suc, ◌+◌, List, [], ◌∷◌, ◌++◌, Option, none, some, ◌>>=◌, Bool, true, false, ◌==◌, ℤ,
  pos, negsuc, is_positive, load, set, replicate, if◌then◌else◌,
}
use routerd.TapMirror.State.{
  TapContext, Mirror, Nodes, same_bytes, Call, write, clone, signal_event, call_node, free,
}
use routerd.TapMirror.Contexts.{find_context, deref, put}

-- `tap_mirror_init`: `vec_validate (contexts, 8)` makes nine null pointers.
unfoldable pub tap_mirror_init : (ℕ → ℕ) → Mirror
tap_mirror_init functions = record { flags = 0; contexts = replicate 9 none; functions = functions }

-- The loop over a frame: each packet is cloned, and the redirector is told of the clone. `clone_of` is
-- the second clone of a packet; fewer than two clones fail the `assert`.
unfoldable pub mirror_packets : (ℕ → Option ℕ) → ℕ → ℕ → List ℕ → Option (List Call)
mirror_packets clone_of node event_type [] = some []
mirror_packets clone_of node event_type (bi ∷ pkts) = clone_of bi >>= λ c.
    mirror_packets clone_of node event_type pkts >>= λ calls.
    some (clone bi ∷ signal_event node event_type c ∷ calls)

-- The writes of the redirector: descriptors that are not positive are passed over.
unfoldable pub write_taps : List ℤ → ℕ → List Call
write_taps [] bi = []
write_taps (pos (suc n) ∷ fds) bi = write (suc n) bi ∷ write_taps fds bi
write_taps (pos zero ∷ fds) bi = write_taps fds bi
write_taps (negsuc n ∷ fds) bi = write_taps fds bi

-- One round of `tap_mirror_redirector_fn`: only the first of the events' data is looked at, then the
-- vector is emptied. A timeout, type -1, is passed over (`none`).
unfoldable pub redirector_round : Mirror → Option ℕ → List ℕ → Option (List Call)
redirector_round xm none event_data = some []
redirector_round xm (some event_type) [] = none
redirector_round xm (some event_type) (buffer_index ∷ event_data) = deref xm event_type >>= λ ctx.
    some (write_taps ctx.tap_fds buffer_index ++ free buffer_index ∷ [])

pub get_event_type : Mirror → List ℕ → Option ℤ
get_event_type xm name =
    find_context xm.contexts name 0 >>= λ f. some (elim f [ some idx ↦ pos idx | none ↦ negsuc 0 ])

-- `tap_mirror_input_fn`, called for the runtime `rt` with a frame.
unfoldable pub tap_mirror_input_fn :
    Nodes → (ℕ → Option ℕ) → Mirror → ℕ → List ℕ → Option (Mirror × List Call)
unfolding get_event_type
tap_mirror_input_fn nodes clone_of xm rt pkts = get_event_type xm (nodes.node_name rt) >>= λ e.
    elim e [
      | negsuc n ↦ none
      | pos event_type ↦ deref xm event_type >>= λ ctx.
          if ctx.request_to_free
          then some (
            record xm {
              contexts = set xm.contexts event_type none;
              functions = put xm.functions ctx.target_rt ctx.target_fn;
            },
            call_node ctx.target_fn pkts ∷ [],
          )
          else (mirror_packets clone_of ctx.redirector_node_index event_type pkts >>= λ calls.
              some (xm, calls ++ call_node ctx.target_fn pkts ∷ []))
    ]
