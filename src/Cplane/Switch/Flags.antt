-- ===== src/Cplane/Switch/Flags.antt =====
-- What switching tap injection does to the flags and to the packets' ways.
use routerd.Prelude.{ℕ, ◌≡◌, true, false, Bool-cases, inl, inr, arith, has_bit, set_bit, clear_bit}
use routerd.Vppinfra.{Vppinfra}
use routerd.Cplane.Env.{Vpp}
use routerd.Cplane.State.{Main, enabled, tap_inject_is_enabled}
use routerd.Cplane.Switch.{tap_inject_enable, tap_inject_disable}

module _ (V : Vppinfra) where
  -- On every branch, the state after is the state before with the bit set or cleared.
  pub enable_main :
      (im : Main V) → (tap_inject_enable V im).0 ≡ record im { flags = set_bit im.flags enabled }
  unfolding tap_inject_enable
  enable_main im = elim (Bool-cases (tap_inject_is_enabled V im)) [ inl t ↦ rw t | inr f ↦ rw f ]

  pub disable_main :
      (vpp : Vpp) (im : Main V)
      → (tap_inject_disable V vpp im).0 ≡ record im { flags = clear_bit im.flags enabled }
  unfolding tap_inject_disable
  disable_main vpp im = elim (Bool-cases (tap_inject_is_enabled V im)) [
    | inl t ↦ rw t
    | inr f ↦ rw f
  ]

pub has_bit-set_bit : (w : ℕ) → has_bit (set_bit w 3) 3 ≡ true
has_bit-set_bit w = ground arith

pub has_bit-clear_bit : (w : ℕ) → has_bit (clear_bit w 3) 3 ≡ false
has_bit-clear_bit w = ground arith

-- The configuration's bit, and that it is not the bit of tap injection.
pub set_bit_config :
    (w : ℕ) → (has_bit (set_bit w 0) 0 ≡ true) × (has_bit (set_bit w 0) 3 ≡ has_bit w 3)
set_bit_config w = (ground arith, ground arith)

pub clear_bit_config :
    (w : ℕ) → (has_bit (clear_bit w 0) 0 ≡ false) × (has_bit (clear_bit w 0) 3 ≡ has_bit w 3)
clear_bit_config w = (ground arith, ground arith)
