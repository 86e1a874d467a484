-- ===== src/Tests/Mirror.antt =====
-- tap_mirror at concrete inputs.
use routerd.Prelude.{
  arith, ℕ, ◌≡◌, ◌⊎◌, ◌+◌, refl, List, [], ◌∷◌, none, some, ◌>>=◌, Bool, true, false, Returns, All,
  ℤ, pos, negsuc, is_positive, load, replicate, ◌==◌, if◌then◌else◌,
}
use routerd.TapMirror.State.{TapContext, Mirror, Nodes, Call, call_node, TapLinux}
use routerd.TapMirror.Taps.{get_tapfd}
use routerd.TapMirror.Taps.Find.{begins, ContextOk, all_matching, get_tapfd_lem}
use routerd.TapMirror.Contexts.{free_slot, put, enable_tap_mirror, disable_tap_mirror}
use routerd.TapMirror.Contexts.WellFormed.{context_of}
use routerd.TapMirror.Nodes.{redirector_round, tap_mirror_init, tap_mirror_input_fn}
use routerd.TapMirror.Nodes.Redirect.{mirror_undone}
use routerd.TapMirror.Nodes.Lost.{
  written_to, positives, freed, redirector_round_lem, enable_pending,
}
use routerd.TapMirror.Cli.{node, tap, reset}
use routerd.TapMirror.Cli.History.{Ok, run_lines, run_lines_init}

-- The nodes "ip" and "ip4" of VPP, with the functions 100 and 101.
abbrev ip : List ℕ
ip = b'i' ∷ b'p' ∷ []

abbrev ip4 : List ℕ
ip4 = b'i' ∷ b'p' ∷ b'4' ∷ []

abbrev tap0 : List ℕ
tap0 = b't' ∷ b'0' ∷ []

abbrev nodes : Nodes
nodes = record {
  node_runtime = λ n. if begins n ip4 then some 1 else some 0;
  node_name = λ rt. if rt == 1 then ip4 else ip;
  redirector = 9;
  tap_mirror_input = 7;
}

abbrev tap_linux : TapLinux
tap_linux = record {
  open_tun = some 5;
  tunsetiff = true;
  socket = some 6;
  siocgifflags = some 0;
  siocsifflags = true;
}

abbrev fresh : Mirror
fresh = record { flags = 0; contexts = replicate 9 none; functions = λ rt. 100 + rt }

-- The node "ip4" is mirrored to the tap with descriptor 5; `b` asks for the context to be freed.
abbrev ip4_context : Bool → TapContext
ip4_context b = record {
  target_node_name = ip4;
  tap_fds = pos 5 ∷ [];
  tap_names = some tap0 ∷ [];
  target_fn = 101;
  target_rt = 1;
  redirector_node_index = 9;
  request_to_free = b;
}

abbrev mirrored : Bool → Mirror
mirrored b = record {
  flags = 1;
  contexts = some (ip4_context b) ∷ none ∷ [];
  functions = λ rt. if rt == 1 then 7 else 100;
}

fresh-All : All (ContextOk 3 2) fresh.contexts
fresh-All = (tt, (tt, (tt, (tt, (tt, (tt, (tt, (tt, (tt, tt)))))))))

mirrored-All : (b : Bool) → All (ContextOk 3 2) (mirrored b).contexts
mirrored-All b = ((omega arith, ((λ _. omega arith), tt)), (tt, tt))

ip4_unknown : context_of fresh.contexts ip4 0 ≡ none
ip4_unknown = refl

slot_0 : free_slot fresh.contexts 0 ≡ some 0
unfolding free_slot
slot_0 = refl

ip4_found : context_of (mirrored true).contexts ip4 0 ≡ some 0
ip4_found = refl

get_tapfd_lem_example :
    (get_tapfd (mirrored false) tap0 ≡ some (negsuc 0))
      × (all_matching (mirrored false).contexts tap0 ≡ [])
    ⊎ ((fd : ℤ) × (fds : List ℤ) × (get_tapfd (mirrored false) tap0 ≡ some fd)
        × (all_matching (mirrored false).contexts tap0 ≡ fd ∷ fds)
        × (is_positive fd ≡ true))
get_tapfd_lem_example = get_tapfd_lem (mirrored false) tap0 3 (mirrored-All false)

mirror_undone_example :
    Returns
      (λ r.
        (r.0.contexts ≡ fresh.contexts)
        × ((j : ℕ) → r.0.functions j ≡ 100 + j)
        × (r.1 ≡ call_node 101 (3 ∷ 4 ∷ []) ∷ []))
      (enable_tap_mirror nodes tap_linux fresh ip4 tap0 >>= λ e.
        disable_tap_mirror e.1 ip4 tap0 >>= λ d.
        tap_mirror_input_fn nodes (λ bi. some bi) d.0 1 (3 ∷ 4 ∷ []))
mirror_undone_example =
    mirror_undone nodes tap_linux (λ bi. some bi) fresh ip4 tap0 (3 ∷ 4 ∷ []) 0 1 fresh-All
      ip4_unknown slot_0 refl refl

redirector_round_lem_example :
    ((c : TapContext)
      → load (mirrored false).contexts 0 ≡ some (some c)
      → Returns
          (λ cs. (written_to cs ≡ positives c.tap_fds 3) × (freed cs ≡ 3 ∷ []))
          (redirector_round (mirrored false) (some 0) (3 ∷ 4 ∷ [])))
    × (load (mirrored false).contexts 0 ≡ some none
        → redirector_round (mirrored false) (some 0) (3 ∷ 4 ∷ []) ≡ none)
redirector_round_lem_example = redirector_round_lem (mirrored false) 0 3 (4 ∷ [])

enable_pending_example :
    Returns
      (λ (r : ℤ × Mirror × List Call).
        (r.0 ≡ pos 0)
        × (r.1.contexts ≡ none ∷ none ∷ [])
        × (r.1.functions ≡ put (mirrored true).functions 1 101)
        × (r.2 ≡ call_node 101 (3 ∷ []) ∷ []))
      (enable_tap_mirror nodes tap_linux (mirrored true) ip4 tap0 >>= λ e.
        tap_mirror_input_fn nodes (λ bi. some bi) e.1 1 (3 ∷ []) >>= λ d. some (e.0, d.0, d.1))
enable_pending_example =
    enable_pending nodes tap_linux (λ bi. some bi) (mirrored true) ip4 tap0 (3 ∷ []) 0 1
      (ip4_context true) (mirrored-All true) ip4_found refl refl refl

run_lines_init_example : Returns (Ok 3 2) (
    run_lines nodes
      ((tap_linux, node ip4 ∷ tap tap0 ∷ []) ∷ (tap_linux, node ip4 ∷ tap tap0 ∷ reset ∷ []) ∷ [])
      (tap_mirror_init (λ rt. 100 + rt)))
run_lines_init_example =
    run_lines_init nodes (λ rt. 100 + rt) 3 2
      ((tap_linux, node ip4 ∷ tap tap0 ∷ []) ∷ (tap_linux, node ip4 ∷ tap tap0 ∷ reset ∷ []) ∷ [])
      ((refl, (refl, tt)), ((refl, (refl, (tt, tt))), tt))
