-- ===== src/TapMirror/Taps.antt =====
-- tap_mirror.c: the search of a tap's descriptor, opening a tap, and setting its link.
pub mod Find
pub mod Open
use routerd.Prelude.{
  ℕ, List, [], ◌∷◌, ◌++◌, Option, none, some, ◌>>=◌, Bool, ◌==◌, ℤ, pos, negsuc, is_positive,
  length, take, set_bit, clear_bit, if◌then◌else◌,
}
use routerd.TapMirror.State.{
  TapContext, Mirror, same_bytes, Call, opened, close, ioctl_tunsetiff, ioctl_siocgifflags,
  ioctl_siocsifflags, TapLinux,
}

-- `IFNAMSIZ - 1`
abbrev pub max_name : ℕ
max_name = 15

-- `IFF_UP`
abbrev pub iff_up : ℕ
iff_up = 0

-- `set_link_up_down`
pub set_link_up_down : TapLinux → List ℕ → Bool → ℤ × List Call
set_link_up_down os name is_up = elim os.socket [
  | none ↦ (negsuc 0, [])
  | some fd ↦
      let ifr_name = take max_name name in
      elim os.siocgifflags [
        | none ↦ (negsuc 1, opened fd ∷ ioctl_siocgifflags fd ifr_name ∷ close fd ∷ [])
        | some flags ↦
            let flags' = if is_up then set_bit flags iff_up else clear_bit flags iff_up in
            (
              if os.siocsifflags then pos 0 else negsuc 2,
              opened fd
                  ∷ ioctl_siocgifflags fd ifr_name
                  ∷ ioctl_siocsifflags fd ifr_name flags'
                  ∷ close fd
                  ∷ [],
            )
      ]
]

-- The inner loop of `get_tapfd`: entries whose descriptor is not positive are passed over.
unfoldable pub scan_taps : List ℤ → List (Option (List ℕ)) → List ℕ → Option (Option ℤ)
scan_taps [] names name = some none
scan_taps (fd ∷ fds) [] name =
    let rest = scan_taps fds [] name in if is_positive fd then none else rest
scan_taps (fd ∷ fds) (n ∷ names) name =
    let rest = scan_taps fds names name in
    if is_positive fd
    then elim n [
      | none ↦ none
      | some v ↦ same_bytes v name >>= λ s. if s then some (some fd) else rest
    ]
    else rest

-- The outer loop, over the contexts, with its `assert`.
unfoldable pub find_tap : List (Option TapContext) → List ℕ → Option (Option ℤ)
find_tap [] name = some none
find_tap (none ∷ cs) name = find_tap cs name
find_tap (some c ∷ cs) name =
    let rest = find_tap cs name in
    if length c.tap_names == length c.tap_fds
    then (scan_taps c.tap_fds c.tap_names name >>= λ r. elim r [
      | some fd ↦ some (some fd)
      | none ↦ rest
    ])
    else none

unfoldable pub get_tapfd : Mirror → List ℕ → Option ℤ
get_tapfd xm name =
    find_tap xm.contexts name >>= λ r. elim r [ some fd ↦ some fd | none ↦ some (negsuc 0) ]

unfoldable pub get_or_open_tapfd : TapLinux → Mirror → List ℕ → Option (ℤ × List Call)
get_or_open_tapfd os xm name = find_tap xm.contexts name >>= λ r. elim r [
  | some fd ↦ some (fd, [])
  | none ↦ elim os.open_tun [
    | none ↦ some (negsuc 0, [])
    | some fd ↦
        let ifr_name = take max_name name in
        let calls = opened fd ∷ ioctl_tunsetiff fd ifr_name ∷ [] in
        some (if os.tunsetiff then (pos fd, calls) else (negsuc 1, calls ++ close fd ∷ []))
  ]
]
