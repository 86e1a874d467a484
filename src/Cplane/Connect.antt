-- ===== src/Cplane/Connect.antt =====
-- `tap_inject_tap_connect` and `tap_inject_tap_disconnect` of cplane_netdev.c.
pub mod Safety
pub mod Descriptors
use routerd.Prelude.{
  ℕ, suc, ◌+◌, ◌%◌, ◌^◌, List, [], ◌∷◌, ◌++◌, Option, none, some, ◌>>=◌, Bool, true, false, ◌&&◌,
  ◌==◌, take, invalid, if◌then◌else◌,
}
use routerd.Vppinfra.{Vppinfra}
use routerd.Cplane.Env.{
  HwInterface, Vpp, Linux, Effect, opened, close, ioctl_tunsetiff, ioctl_fionbio,
  ioctl_siocsifhwaddr, ioctl_siocgifindex, clib_file_add, Error, open_failed, nonblocking_failed,
  configure_failed, hwaddr_failed, ifindex_failed, disconnect_failed,
}
use routerd.Cplane.State.{Main}
use routerd.Cplane.TapTable.{tap_inject_insert_tap, tap_inject_delete_tap, tap_inject_lookup_tap_fd}

-- The function's static counters, one for each kind of interface.
pub record Counters : Type 0 where
  pub loop_if_cnt : ℕ
  pub host_if_cnt : ℕ
  pub giga_if_cnt : ℕ
  pub tap_if_cnt : ℕ
  pub other_if_cnt : ℕ

-- `strncmp (name, prefix, strlen (prefix)) == 0`
unfoldable pub starts_with : List ℕ → List ℕ → Bool
starts_with name [] = true
starts_with [] (p ∷ ps) = false
starts_with (c ∷ name) (p ∷ ps) = c == p && starts_with name ps

-- "loop", "host-", "GigabitEthernet", "tap", and the beginnings of the names given to taps.
abbrev pub loop_prefix : List ℕ
loop_prefix = b'l' ∷ b'o' ∷ b'o' ∷ b'p' ∷ []

abbrev pub host_prefix : List ℕ
host_prefix = b'h' ∷ b'o' ∷ b's' ∷ b't' ∷ b'-' ∷ []

abbrev pub giga_prefix : List ℕ
giga_prefix =
    b'G' ∷ b'i' ∷ b'g' ∷ b'a' ∷ b'b' ∷ b'i' ∷ b't' ∷ b'E' ∷ b't' ∷ b'h' ∷ b'e' ∷ b'r' ∷ b'n' ∷ b'e'
    ∷ b't' ∷ []

abbrev pub tap_prefix : List ℕ
tap_prefix = b't' ∷ b'a' ∷ b'p' ∷ []

abbrev pub zero_zero : List ℕ
zero_zero = b'-' ∷ b'0' ∷ b'-' ∷ b'0' ∷ b'-' ∷ []

abbrev pub tap_name_of_host : List ℕ
tap_name_of_host = b'h' ∷ b'o' ∷ b's' ∷ b't' ∷ zero_zero

abbrev pub tap_name_of_giga : List ℕ
tap_name_of_giga = b'g' ∷ b'i' ∷ b'g' ∷ b'a' ∷ zero_zero

abbrev pub tap_name_of_tap : List ℕ
tap_name_of_tap = b't' ∷ b'a' ∷ b'p' ∷ zero_zero

abbrev pub tap_name_of_other : List ℕ
tap_name_of_other = b'v' ∷ b'p' ∷ b'p' ∷ zero_zero

-- `size_t` increment
abbrev pub next_cnt : ℕ → ℕ
next_cnt n = (n + 1) % 2 ^ 64

-- The beginning of the tap's name and its number, and the counters after.
pub next_name : List ℕ → Counters → (List ℕ × ℕ) × Counters
next_name name c =
    if starts_with name loop_prefix
    then ((loop_prefix, c.loop_if_cnt), record c { loop_if_cnt = next_cnt c.loop_if_cnt })
    else if starts_with name host_prefix
    then ((tap_name_of_host, c.host_if_cnt), record c { host_if_cnt = next_cnt c.host_if_cnt })
    else if starts_with name giga_prefix
    then ((tap_name_of_giga, c.giga_if_cnt), record c { giga_if_cnt = next_cnt c.giga_if_cnt })
    else if starts_with name tap_prefix
    then ((tap_name_of_tap, c.tap_if_cnt), record c { tap_if_cnt = next_cnt c.tap_if_cnt })
    else ((tap_name_of_other, c.other_if_cnt), record c { other_if_cnt = next_cnt c.other_if_cnt })

-- `sizeof (ifr.ifr_name) - 1`
abbrev pub max_ifr_name : ℕ
max_ifr_name = 15

abbrev pub zero_address : List ℕ
zero_address = 0 ∷ 0 ∷ 0 ∷ 0 ∷ 0 ∷ 0 ∷ []

-- `ifr.ifr_hwaddr.sa_data`: zero where the interface has no address.
sa_data : Option (List ℕ) → List ℕ
sa_data none = zero_address
sa_data (some address) = take 6 address

-- The plugin's state and the static counters.
pub record State (V : Vppinfra) : Type 0 where
  pub main : Main V
  pub counters : Counters

-- What a function leaves behind: the state, what it did, and its `clib_error_t`.
pub record Outcome (V : Vppinfra) : Type 0 where
  pub state : State V
  pub effects : List Effect
  pub error : Option Error

module _ (V : Vppinfra) where
  abbrev pub outcome : State V → List Effect → Option Error → Outcome V
  outcome st effects error = record { state = st; effects = effects; error = error }

  -- From the socket that configures the device on.
  unfoldable pub configure :
      Linux → State V → HwInterface → ℕ → List ℕ → List Effect → Option (Outcome V)
  unfolding sa_data
  configure os st hw tap_fd ifr_name before = elim os.socket [
    | none ↦ some (outcome st (before ++ close tap_fd ∷ []) (some configure_failed))
    | some fd ↦
        let with_address =
          before ++ opened fd ∷ ioctl_siocsifhwaddr fd ifr_name (sa_data hw.hw_address) ∷ [] in
        let with_index = with_address ++ ioctl_siocgifindex fd ifr_name ∷ [] in
        if os.siocsifhwaddr
        then elim os.siocgifindex [
          | none ↦
              some (outcome st (with_index ++ close tap_fd ∷ close fd ∷ []) (some ifindex_failed))
          | some ifr_ifindex ↦
              tap_inject_insert_tap V st.main hw.sw_if_index tap_fd ifr_ifindex >>= λ im. some (
                outcome (record st { main = im })
                  (with_index ++ close fd ∷ clib_file_add tap_fd ∷ []) none)
        ]
        else some (outcome st (with_address ++ close tap_fd ∷ close fd ∷ []) (some hwaddr_failed))
  ]

  unfoldable pub tap_inject_tap_connect : Vpp → Linux → State V → HwInterface → Option (Outcome V)
  tap_inject_tap_connect vpp os st hw = elim os.open_tun [
    | none ↦ some (outcome st [] (some open_failed))
    | some tap_fd ↦
        let (name, cnt) = next_name hw.name st.counters in
        let named = record st { counters = cnt } in
        let ifr_name = take max_ifr_name (name.0 ++ vpp.format_u name.1) in
        let created = opened tap_fd ∷ ioctl_tunsetiff tap_fd ifr_name ∷ [] in
        let nonblocking = created ++ ioctl_fionbio tap_fd ∷ [] in
        if os.tunsetiff
        then if os.fionbio
          then configure os named hw tap_fd ifr_name nonblocking
          else some (outcome named (nonblocking ++ close tap_fd ∷ []) (some nonblocking_failed))
        else some (outcome named (created ++ close tap_fd ∷ []) none)
  ]

  unfoldable pub tap_inject_tap_disconnect : State V → ℕ → Option (Outcome V)
  tap_inject_tap_disconnect st sw_if_index = tap_inject_lookup_tap_fd V st.main sw_if_index >>= λ r.
      let (tap_fd, im) = r in
      if tap_fd == invalid
      then some (outcome (record st { main = im }) [] (some disconnect_failed))
      else tap_inject_delete_tap V im sw_if_index >>= λ im'.
          some (outcome (record st { main = im' }) (close tap_fd ∷ []) none)
