-- ===== src/TapMirror/Contexts.antt =====
-- tap_mirror.c: the contexts, one for each mirrored node, and enabling and disabling a tap of one.
pub mod WellFormed
pub mod GetOrNew
pub mod Enable
pub mod TakeOut
pub mod Disable
use routerd.Prelude.{
  ℕ, zero, suc, ◌+◌, List, [], ◌∷◌, ◌++◌, Option, none, some, ◌>>=◌, Bool, true, false, ◌==◌, ◌&&◌,
  ℤ, pos, negsuc, is_positive, is_negative, load, set, length, replicate, set_bit, if◌then◌else◌,
}
use routerd.TapMirror.State.{
  TapContext, Mirror, mirror_enabled, Nodes, same_bytes, Call, close, print_okashii,
  print_create_miss, print_not_found, TapLinux,
}
use routerd.TapMirror.Taps.{set_link_up_down, get_tapfd, get_or_open_tapfd}

abbrev pub put : (ℕ → ℕ) → ℕ → ℕ → ℕ → ℕ
put f i x j = if i == j then x else f j

-- The context that a pointer refers to.
abbrev pub deref : Mirror → ℕ → Option TapContext
deref xm i = load xm.contexts i >>= λ c. c

-- `close (fd)`; a negative descriptor closes nothing.
abbrev pub close_fd : ℤ → List Call
close_fd (pos fd) = close fd ∷ []
close_fd (negsuc n) = []

-- The first slot, from index i on, that has no context.
unfoldable pub free_slot : List (Option TapContext) → ℕ → Option ℕ
free_slot [] i = none
free_slot (none ∷ cs) i = some i
free_slot (some c ∷ cs) i = free_slot cs (i + 1)

-- A context for a node; `vec_validate (v, 8)` makes nine entries of zero.
abbrev pub new_context : Nodes → List ℕ → ℕ → ℕ → TapContext
new_context nodes node_name runtime function = record {
  target_node_name = node_name;
  tap_fds = replicate 9 (pos 0);
  tap_names = replicate 9 none;
  target_fn = function;
  target_rt = runtime;
  redirector_node_index = nodes.redirector;
  request_to_free = false;
}

-- The descriptors left: `cnt`.
unfoldable pub count_taps : List ℤ → ℕ
count_taps [] = 0
count_taps (fd ∷ fds) = if is_positive fd then count_taps fds + 1 else count_taps fds

-- The first context, from index i on, whose node's name begins with the name.
unfoldable pub find_context : List (Option TapContext) → List ℕ → ℕ → Option (Option ℕ)
find_context [] name i = some none
find_context (none ∷ cs) name i = find_context cs name (i + 1)
find_context (some c ∷ cs) name i =
    let rest = find_context cs name (i + 1) in
    same_bytes c.target_node_name name >>= λ s. if s then some (some i) else rest

pub get_tap_mirror_context : Mirror → List ℕ → Option (Option ℕ)
get_tap_mirror_context xm node_name = find_context xm.contexts node_name 0

-- The context for a node, by its index, `none` a null pointer.
unfoldable pub get_or_new_tap_mirror_context : Nodes → Mirror → List ℕ → Option (Option ℕ × Mirror)
get_or_new_tap_mirror_context nodes xm node_name = find_context xm.contexts node_name 0 >>= λ f.
    elim f [
      | some i ↦ some (some i, xm)
      | none ↦ elim (free_slot xm.contexts 0) [
        | none ↦ some (none, xm)
        | some i ↦ elim (nodes.node_runtime node_name) [
          | none ↦ some (none, xm)
          | some runtime ↦ some (
            some i,
            record xm {
              contexts =
                  set xm.contexts i
                    (some (new_context nodes node_name runtime (xm.functions runtime)));
              functions = put xm.functions runtime nodes.tap_mirror_input;
            },
          )
        ]
      ]
    ]

unfoldable pub tap_mirror_context_add_new_tap :
    TapLinux → Mirror → ℕ → List ℕ → Option (Mirror × List Call)
tap_mirror_context_add_new_tap os xm i tap_name = get_or_open_tapfd os xm tap_name >>= λ r.
    let (tap_fd, calls) = r in
    let said = if is_negative tap_fd then print_okashii ∷ [] else [] in
    let link = set_link_up_down os tap_name true in
    deref xm i >>= λ ctx. some (
      record xm {
        contexts = set xm.contexts i (
            some (record ctx {
              tap_fds = ctx.tap_fds ++ tap_fd ∷ [];
              tap_names = ctx.tap_names ++ some tap_name ∷ [];
            }));
      },
      calls ++ said ++ link.1,
    )

-- What `enable_tap_mirror` does with the context it got.
unfoldable pub add_tap_to : TapLinux → List ℕ → Option ℕ × Mirror → Option (ℤ × Mirror × List Call)
add_tap_to os tap_name (none, xm) = some (negsuc 0, xm, print_create_miss ∷ [])
add_tap_to os tap_name (some i, xm) =
    tap_mirror_context_add_new_tap os xm i tap_name >>= λ r. some (pos 0, r.0, r.1)

unfoldable pub enable_tap_mirror :
    Nodes → TapLinux → Mirror → List ℕ → List ℕ → Option (ℤ × Mirror × List Call)
enable_tap_mirror nodes os xm node_name tap_name =
    let flagged = record xm { flags = set_bit xm.flags mirror_enabled } in
    get_or_new_tap_mirror_context nodes flagged node_name >>= add_tap_to os tap_name

-- The loop of `disable_tap_mirror` that takes a tap out of a context: the descriptor taken out
-- last, `tap_fd` before the loop, and the vectors after.
unfoldable pub take_out :
    List ℤ → List (Option (List ℕ)) → List ℕ → ℤ → Option (ℤ × List ℤ × List (Option (List ℕ)))
take_out [] names tap_name tap_fd = some (tap_fd, [], names)
take_out (fd ∷ fds) [] tap_name tap_fd =
    let rest = take_out fds [] tap_name tap_fd in
    if is_positive fd then none else (rest >>= λ r. some (r.0, fd ∷ r.1, r.2))
take_out (fd ∷ fds) (n ∷ names) tap_name tap_fd =
    let taken = take_out fds names tap_name fd in
    let rest = take_out fds names tap_name tap_fd in
    if is_positive fd
    then elim n [
      | none ↦ none
      | some v ↦ same_bytes v tap_name >>= λ s.
          if s
          then (taken >>= λ r. some (r.0, negsuc 0 ∷ r.1, none ∷ r.2))
          else (rest >>= λ r. some (r.0, fd ∷ r.1, some v ∷ r.2))
    ]
    else (rest >>= λ r. some (r.0, fd ∷ r.1, n ∷ r.2))

unfoldable pub disable_tap_mirror : Mirror → List ℕ → List ℕ → Option (Mirror × List Call)
disable_tap_mirror xm node_name tap_name = get_tap_mirror_context xm node_name >>= λ f. elim f [
  | none ↦ some (xm, print_not_found ∷ [])
  | some i ↦ deref xm i >>= λ ctx. take_out ctx.tap_fds ctx.tap_names tap_name (pos 0) >>= λ r.
      let out = record ctx { tap_fds = r.1; tap_names = r.2 } in
      get_tapfd (record xm { contexts = set xm.contexts i (some out) }) tap_name >>= λ exist_fd.
      let closed = if is_negative exist_fd then close_fd r.0 else [] in
      let asked = if count_taps r.1 == 0 then record out { request_to_free = true } else out in
      some (record xm { contexts = set xm.contexts i (some asked) }, closed)
]
