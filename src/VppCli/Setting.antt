-- ===== src/VppCli/Setting.antt =====
-- The commands of src/vpp_cli.c that change something in VPP and wait for one answer. `lib` reads
-- numbers and addresses, `garbage` is what a `struct prefix` holds before it is set, and the ids are
-- what random () gives.
pub mod Answers
pub mod Lines
use routerd.Prelude.{
  ℕ, ◌%◌, ◌^◌, List, [], ◌∷◌, Option, none, some, ◌>>=◌, Bool, true, false, not, load, htonl,
  if◌then◌else◌,
}
use routerd.Vui.Registry.{same_string}
use routerd.Client.Messages.{
  Daemon, ip_route_add_del, create_loopback, set_interface_flag, set_interface_addr,
  enable_disable_tap_inject,
}
use routerd.Client.Prefix.{AddressPrefix, Numbers, af_inet, af_inet6, parse_prefix_str}
use routerd.Client.Replies.{enable_disable_tap_inject_retval}
use routerd.VppCli.State.{
  Reply, retval_reply, Msg, timed_out, setting_failed, Call, disconnect, out, Code, success,
  warning_config_failed, Outcome, outcome, Link, connecting, is_negative32,
}

abbrev pub del_word : List ℕ
del_word = b'd' ∷ b'e' ∷ b'l' ∷ []

abbrev pub ipv6_word : List ℕ
ipv6_word = b'i' ∷ b'p' ∷ b'v' ∷ b'6' ∷ []

abbrev pub up_word : List ℕ
up_word = b'u' ∷ b'p' ∷ []

abbrev pub enable_word : List ℕ
enable_word = b'e' ∷ b'n' ∷ b'a' ∷ b'b' ∷ b'l' ∷ b'e' ∷ []

abbrev pub as_retval : Reply → Option ℕ
as_retval (retval_reply w) = some w
as_retval _ = none

-- The loop over the replies that returns in its first round, with what follows it.
unfoldable pub answered : Daemon → List Msg → Outcome → Option Outcome
answered rm [] at_timeout = some at_timeout
answered rm (m ∷ msgs) at_timeout = as_retval m.reply >>= λ w. some (
    if is_negative32 (htonl w)
    then outcome warning_config_failed rm (out (setting_failed (htonl w)) ∷ disconnect ∷ [])
    else outcome success rm (disconnect ∷ []))

-- "timeout"
abbrev pub timeout : Daemon → Outcome
timeout rm = outcome warning_config_failed rm (out timed_out ∷ disconnect ∷ [])

abbrev pub family : Bool → ℕ
family is_ipv6 = if is_ipv6 then af_inet6 else af_inet

-- `strtol`, as `uint32_t`
abbrev pub index_of : Numbers → List ℕ → ℕ
index_of lib s = lib.strtol s % 2 ^ 32

module _ (lib : Numbers) (garbage : AddressPrefix) (link : Link) where
  unfoldable pub set_interface_address : Daemon → List (List ℕ) → Option Outcome
  set_interface_address rm argv = load argv 4 >>= λ a4.
      let negate = same_string a4 del_word in
      load argv 2 >>= λ a2. load argv (if negate then 6 else 5) >>= λ name.
      load argv (if negate then 7 else 6) >>= λ pref_str.
      let is_ipv6 = same_string a2 ipv6_word in
      parse_prefix_str lib pref_str (family is_ipv6) garbage >>= λ prefix.
      connecting link true rm λ rm'.
        set_interface_addr rm' 3 (index_of lib name) (not negate) is_ipv6 prefix.u prefix.plen
        >>= λ sent. answered sent link.arrive (timeout sent)

  unfoldable pub set_interface_state : Daemon → List (List ℕ) → Option Outcome
  set_interface_state rm argv = connecting link true rm λ rm'. load argv 4 >>= λ name.
      load argv 5 >>= λ a5.
      set_interface_flag rm' 2 (index_of lib name) (same_string a5 up_word) >>= λ sent.
      answered sent link.arrive (outcome success sent (disconnect ∷ []))

  unfoldable pub create_loopback_interface : Daemon → ℕ → Option Outcome
  create_loopback_interface rm id =
      connecting link false rm λ rm'.
        create_loopback rm' (id % 2 ^ 32) >>= λ sent. answered sent link.arrive (timeout sent)

  unfoldable pub ip_adddel_route : Daemon → List (List ℕ) → Option Outcome
  ip_adddel_route rm argv = load argv 0 >>= λ a0. load argv 1 >>= λ a1. load argv 3 >>= λ pref_str.
      load argv 5 >>= λ nexthop_str. load argv 7 >>= λ name.
      let afi = family (same_string a1 ipv6_word) in
      parse_prefix_str lib pref_str afi garbage >>= λ route_pref.
      parse_prefix_str lib nexthop_str afi garbage >>= λ nexthop_pref.
      connecting link true rm λ rm'.
        ip_route_add_del rm' 10 (not (same_string a0 del_word)) route_pref nexthop_pref
          (index_of lib name)
        >>= λ sent. answered sent link.arrive (timeout sent)

  -- The answer is waited for, and whatever it is the command succeeds.
  unfoldable pub enable_tap_inject : Daemon → ℕ → List (List ℕ) → Option Outcome
  enable_tap_inject rm id argv = load argv 0 >>= λ a0. connecting link true rm λ rm'.
      enable_disable_tap_inject rm' (id % 2 ^ 16) (same_string a0 enable_word) >>= λ sent.
      let first : Option ℕ = elim link.arrive [ [] ↦ some 0 | m ∷ msgs ↦ as_retval m.reply ] in
      first >>= λ w. some (outcome success sent (disconnect ∷ []))

unfoldable pub vpe_connect : Link → Daemon → Option Outcome
vpe_connect link rm = connecting link false rm λ rm'. some (outcome success rm' [])

abbrev pub vpe_disconnect : Daemon → Outcome
vpe_disconnect rm = outcome success rm (disconnect ∷ [])
