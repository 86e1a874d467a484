-- ===== src/TapMirror/State.antt =====
-- tap_mirror/tap_mirror.h: the plugin's state, and the comparison of names that its searches share.
use routerd.Prelude.{
  some, none, ◌>>=◌, ℕ, List, [], ◌∷◌, Option, Bool, true, ◌&&◌, ◌==◌, ℤ, has_bit,
}

-- `tap_mirror_context_t`; a null name is `none`. `target_fn` names a function, `target_rt` the
-- runtime of a node.
pub record TapContext : Type 0 where
  pub target_node_name : List ℕ
  pub tap_fds : List ℤ
  pub tap_names : List (Option (List ℕ))
  pub target_fn : ℕ
  pub target_rt : ℕ
  pub redirector_node_index : ℕ
  pub request_to_free : Bool

-- `tap_mirror_main_t`, and the field `function` of VPP's node runtimes, which the plugin sets.
pub record Mirror : Type 0 where
  pub flags : ℕ
  pub contexts : List (Option TapContext)
  pub functions : ℕ → ℕ

-- The bit TAP_MIRROR_F_ENABLED.
abbrev pub mirror_enabled : ℕ
mirror_enabled = 0

abbrev pub tap_mirror_is_enabled : Mirror → Bool
tap_mirror_is_enabled xm = has_bit xm.flags mirror_enabled

-- What the plugin reads of VPP: the runtime of a node by its name, the name of a runtime's node, the
-- index of tap-mirror-redirector, and the name of the plugin's own node function.
pub record Nodes : Type 0 where
  pub node_runtime : List ℕ → Option ℕ
  pub node_name : ℕ → List ℕ
  pub redirector : ℕ
  pub tap_mirror_input : ℕ

-- `memcmp (v, s, strlen (s)) == 0`: the bytes of `s` against those of the vector `v`; `none` where
-- `v` is shorter, since memcmp then reads past its end.
unfoldable pub same_bytes : List ℕ → List ℕ → Option Bool
same_bytes v [] = some true
same_bytes [] (d ∷ s) = none
same_bytes (c ∷ v) (d ∷ s) = same_bytes v s >>= λ r. some (c == d && r)

-- What the plugin does to Linux and VPP.
pub data Call : Type 0 where
  opened : ℕ → Call
  close : ℕ → Call
  ioctl_tunsetiff : ℕ → List ℕ → Call
  ioctl_siocgifflags : ℕ → List ℕ → Call
  ioctl_siocsifflags : ℕ → List ℕ → ℕ → Call
  write : ℕ → ℕ → Call
  clone : ℕ → Call
  signal_event : ℕ → ℕ → ℕ → Call
  call_node : ℕ → List ℕ → Call
  free : ℕ → Call
  print_okashii print_create_miss print_not_found : Call

-- What Linux answers while one tap is added: `none` and `false` are errors.
pub record TapLinux : Type 0 where
  pub open_tun : Option ℕ
  pub tunsetiff : Bool
  pub socket : Option ℕ
  pub siocgifflags : Option ℕ
  pub siocsifflags : Bool
