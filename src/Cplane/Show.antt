-- ===== src/Cplane/Show.antt =====
-- `show tap-inject` of cplane_netdev.c: the texts it prints, and what it asks Linux for.
pub mod Sockets
use routerd.Prelude.{
  ℕ, zero, suc, ◌+◌, ◌/◌, ◌%◌, List, [], ◌∷◌, ◌++◌, Option, none, some, ◌>>=◌, ◌==◌, if◌then◌else◌,
}
use routerd.Vppinfra.{Vppinfra}
use routerd.Cplane.State.{Main, tap_inject_is_enabled, tap_inject_is_config_disabled}

-- The digits of a number before its last one, and "%u". A word of 32 bits has ten digits at most.
unfoldable pub leading_digits : ℕ → ℕ → List ℕ
leading_digits zero x = []
leading_digits (suc n) x =
    let rest = leading_digits n (x / 10) in if x == 0 then [] else rest ++ (48 + x % 10) ∷ []

abbrev pub decimal : ℕ → List ℕ
decimal x = leading_digits 9 (x / 10) ++ (48 + x % 10) ∷ []

-- What Linux answers while a name is asked for.
pub record NameAnswer : Type 0 where
  pub socket : Option ℕ
  pub siocgifname : Option (List ℕ)

-- The calls of Linux.
pub data NameCall : Type 0 where
  socket_failed : NameCall
  opened close : ℕ → NameCall
  ioctl_siocgifname : (fd index : ℕ) → NameCall

-- `format_tap_inject_tap_name`: the text goes on by the name. Where Linux refuses it is a null vector,
-- so what was written before is gone.
unfoldable pub format_tap_inject_tap_name : NameAnswer → List ℕ → ℕ → List ℕ × List NameCall
format_tap_inject_tap_name linux s index = elim linux.socket [
  | none ↦ ([], socket_failed ∷ [])
  | some fd ↦ (
    elim linux.siocgifname [ none ↦ [] | some name ↦ s ++ name ],
    opened fd ∷ ioctl_siocgifname fd index ∷ close fd ∷ [],
  )
]

-- " -> ", "  vpp" and "  kern"
abbrev pub arrow : List ℕ
arrow = b' ' ∷ b'-' ∷ b'>' ∷ b' ' ∷ []

abbrev pub vpp_text : List ℕ
vpp_text = b' ' ∷ b' ' ∷ b'v' ∷ b'p' ∷ b'p' ∷ []

abbrev pub kern_text : List ℕ
kern_text = b' ' ∷ b' ' ∷ b'k' ∷ b'e' ∷ b'r' ∷ b'n' ∷ []

abbrev pub line_end : List ℕ
line_end = b' ' ∷ 10 ∷ []

pub data Output : Type 0 where
  disabled_in_config not_enabled is_enabled : Output
  text : List ℕ → Output

-- The routine of `hash_foreach`, and the loop. `sw_interface_name` gives the name of an interface of
-- VPP, `none` where there is none. Linux answers for the i-th name that is asked for.
module _ (sw_interface_name : ℕ → Option (List ℕ)) (linux : ℕ → NameAnswer) where
  unfoldable pub show_pair : ℕ → ℕ → ℕ → Option (List Output × List NameCall)
  show_pair i k v = sw_interface_name v >>= λ name.
      let joined = format_tap_inject_tap_name (linux i) (name ++ arrow) k in
      let kern =
        format_tap_inject_tap_name (linux (i + 1)) (kern_text ++ decimal k ++ b' ' ∷ []) k in
      some (
        text joined.0
            ∷ text (vpp_text ++ decimal v ++ b' ' ∷ name ++ line_end)
            ∷ text (kern.0 ++ line_end)
            ∷ [],
        joined.1 ++ kern.1,
      )

  unfoldable pub show_pairs : ℕ → List (ℕ × ℕ) → Option (List Output × List NameCall)
  show_pairs i [] = some ([], [])
  show_pairs i ((k, v) ∷ pairs) =
      show_pair i k v >>= λ p. show_pairs (i + 2) pairs >>= λ r. some (p.0 ++ r.0, p.1 ++ r.1)

  unfoldable pub show_tap_inject : (V : Vppinfra) → Main V → Option (List Output × List NameCall)
  show_tap_inject V im =
      let shown = show_pairs 0 (V.hash_pairs im.tap_if_index_to_sw_if_index) in
      if tap_inject_is_config_disabled V im
      then some (disabled_in_config ∷ [], [])
      else if tap_inject_is_enabled V im
      then (shown >>= λ r. some (is_enabled ∷ r.0, r.1))
      else some (not_enabled ∷ [], [])
